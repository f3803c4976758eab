-- ===== src/Analysis/Spf/Grammar.antt =====
-- The terms of an SPF record by the forms that they are written in, apart from the parser.
pub mod Parses
use sentinel_osint.Common.{
  ℕ, ◌+◌, Bool, true, false, not, ◌&&◌, ◌||◌, Option, none, some, List, [], ◌∷◌, ◌++◌, ◌==◌, ==_iff,
  if◌then◌else◌, drop, all, list_beq, list_beq_iff, nat_eq, ◌≡◌, refl, sym, ap, ◌∙◌, subst, arith,
  Bool-cases, inl, inr,
}
use sentinel_osint.Common.Text.{
  Text, codes, to_lower, to_ascii_lowercase, eq_ignore_ascii_case, is_some,
}
use sentinel_osint.Common.Text.Splitting.{before, split-before}
use sentinel_osint.Net.Parser.{is_ipv4, is_ipv6}
use sentinel_osint.Analysis.Spf.{
  Qualifier, pass, fail, soft_fail, neutral, is_domain_spec, is_modifier_name, is_ip_network,
  qualified, name_of, separated_by, first_part, Term, all_term, include_term, lookup_term, ptr_term,
  redirect_term, other_term, invalid_term, valid_if, term_of, read_term,
}

abbrev signs : List (ℕ × Qualifier)
signs = (b'+', pass) ∷ (b'-', fail) ∷ (b'~', soft_fail) ∷ (b'?', neutral) ∷ []

abbrev sign_in : List (ℕ × Qualifier) → ℕ → Option Qualifier
sign_in [] c = none
sign_in ((d, q) ∷ more) c = let rest = sign_in more c in if c == d then some q else rest

-- The qualifier that is written in front of a term, and the term without it.
abbrev sign : Text → Option Qualifier
sign [] = none
sign (c ∷ cs) = sign_in signs c

abbrev body_of : Option Qualifier → Text → Text
body_of none text = text
body_of (some q) text = drop 1 text

abbrev or_pass : Option Qualifier → Qualifier
or_pass none = pass
or_pass (some q) = q

-- What follows a label at the front of a text, in any ASCII case.
abbrev after_label : Text → Text → Option Text
after_label [] s = some s
after_label (l ∷ ls) [] = none
after_label (l ∷ ls) (c ∷ cs) =
    let rest = after_label ls cs in if to_lower c == l then rest else none

-- A form with an argument: its label, the arguments it takes, and what it means.
abbrev Form : Type 0
Form = Text × (Text → Bool) × (Text → Term)

abbrev forms : List Form
forms =
    (codes "include:", is_domain_spec, include_term)
    ∷ (codes "exists:", is_domain_spec, λ a. lookup_term)
    ∷ (codes "a/", (λ a. true), λ a. lookup_term)
    ∷ (codes "mx/", (λ a. true), λ a. lookup_term)
    ∷ (codes "a:", (λ a. is_domain_spec (before b'/' a)), λ a. lookup_term)
    ∷ (codes "mx:", (λ a. is_domain_spec (before b'/' a)), λ a. lookup_term)
    ∷ (codes "ptr:", is_domain_spec, λ a. ptr_term)
    ∷ (codes "ip4:", is_ip_network is_ipv4 32, λ a. other_term)
    ∷ (codes "ip6:", is_ip_network is_ipv6 128, λ a. other_term)
    ∷ []

abbrev form_or : (Text → Bool) → (Text → Term) → Option Text → Term → Term
form_or valid term none later = later
form_or valid term (some a) later = if valid a then term a else later

abbrev read_forms : List Form → Text → Term → Term
read_forms [] s later = later
read_forms ((label, valid, term) ∷ more) s later =
    form_or valid term (after_label label s) (read_forms more s later)

-- `redirect=` with its target, or another modifier, whose name no other separator stands in.
abbrev modifier : Text → Term
modifier s = elim (after_label (codes "redirect=") s) [
  | some target ↦ valid_if (is_domain_spec target) (redirect_term target)
  | none ↦
      let (name, separator, argument) = name_of s in
      valid_if (separated_by b'=' separator && is_modifier_name (to_ascii_lowercase name))
        other_term
]

abbrev unsigned : Option Qualifier → Text → Term
unsigned none s = modifier s
unsigned (some q) s = invalid_term

-- What the body of a term means after the qualifier that is written.
unfoldable described_as : Option Qualifier → Text → Term
unfolding is_ipv4 is_ipv6
described_as written s =
    if eq_ignore_ascii_case s (codes "all")
    then all_term (or_pass written)
    else if eq_ignore_ascii_case s (codes "a") || eq_ignore_ascii_case s (codes "mx")
    then lookup_term
    else if eq_ignore_ascii_case s (codes "ptr")
    then ptr_term
    else read_forms forms s (unsigned written s)

-- What the text of a term means.
unfoldable pub described : Text → Term
unfolding described_as
described text = described_as (sign text) (body_of (sign text) text)

abbrev is_separator : ℕ → Bool
is_separator c = c == b':' || c == b'/' || c == b'='
