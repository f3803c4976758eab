-- ===== src/Analysis/Spf/Grammar/Parses.antt =====
-- That the parser of terms reads every term as it is written.
use sentinel_osint.Common.{
  ℕ, Bool, true, false, not, ◌&&◌, ◌||◌, Option, none, some, [], ◌∷◌, ◌++◌, ◌==◌, if◌then◌else◌,
  all, list_beq, list_beq_iff, nat_eq, ◌≡◌, refl, sym, ap, ◌∙◌, subst, arith, Bool-cases, inl, inr,
}
use sentinel_osint.Common.Text.{Text, codes, to_lower, to_ascii_lowercase, is_some}
use sentinel_osint.Common.Text.Splitting.{before, split-before}
use sentinel_osint.Net.Parser.{is_ipv4, is_ipv6}
use sentinel_osint.Analysis.Spf.{
  Qualifier, pass, fail, soft_fail, neutral, is_domain_spec, is_modifier_name, is_ip_network,
  qualified, name_of, separated_by, Term, all_term, include_term, lookup_term, ptr_term,
  redirect_term, other_term, invalid_term, valid_if, term_of, read_term,
}
use sentinel_osint.Analysis.Spf.Grammar.{
  sign, body_of, or_pass, after_label, form_or, unsigned, described_as, described, is_separator,
}

separator-to_lower : (d : ℕ) → is_separator d ≡ true → to_lower d ≡ d
separator-to_lower d h = ground arith

not_separator-to_lower :
    (d c : ℕ) → is_separator c ≡ true → is_separator d ≡ false → (to_lower d == c) ≡ false
not_separator-to_lower d c h n = ground arith

abbrev plain : Text → Bool
plain n = all (λ c. not (is_separator c)) n

abbrev cut : Bool → Text → Option Text
cut b argument = if b then some argument else none

same_test : (d c : ℕ) → (d == c) ≡ (c == d)
same_test d c = ground arith

plain_differs :
    (m : ℕ) (ms : Text) (d : ℕ) → plain (m ∷ ms) ≡ true → is_separator d ≡ true → (d == m) ≡ false
plain_differs m ms d p h = ground arith

plain_rest : (m : ℕ) (ms : Text) → plain (m ∷ ms) ≡ true → plain ms ≡ true
plain_rest m ms p = ground arith

-- A label that ends in a separator is there exactly where the parser finds its name and separator.
after_label-name_of :
    (n : Text) (c : ℕ) (s : Text)
    → plain n ≡ true
    → is_separator c ≡ true
    → after_label (n ++ c ∷ []) s
      ≡ cut
          (list_beq (to_ascii_lowercase (name_of s).0) n && separated_by c (name_of s).1)
          (name_of s).2
after_label-name_of [] c [] p h = refl
after_label-name_of [] c (d ∷ ds) p h = elim (Bool-cases (is_separator d)) [
  | inl y ↦ rw (y, separator-to_lower d y) (ap (λ b. cut b ds) (same_test d c))
  | inr k ↦ rw (k, not_separator-to_lower d c h k) refl
]
after_label-name_of (m ∷ ms) c [] p h = refl
after_label-name_of (m ∷ ms) c (d ∷ ds) p h = elim (Bool-cases (is_separator d)) [
  | inl y ↦ rw (y, separator-to_lower d y, plain_differs m ms d p y) refl
  | inr k ↦ elim (Bool-cases (to_lower d == m)) [
    | inl e ↦ rw (k, e) (after_label-name_of ms c ds (plain_rest m ms p) h)
    | inr e ↦ rw (k, e) refl
  ]
]

-- A bare name is there exactly where the parser finds it without a separator.
bare-name_of :
    (n s : Text)
    → plain n ≡ true
    → list_beq (to_ascii_lowercase s) n
      ≡ (list_beq (to_ascii_lowercase (name_of s).0) n && not (is_some (name_of s).1))
bare-name_of [] [] p = refl
bare-name_of (m ∷ ms) [] p = refl
bare-name_of [] (d ∷ ds) p = elim (Bool-cases (is_separator d)) [
  | inl y ↦ rw y refl
  | inr k ↦ rw k refl
]
bare-name_of (m ∷ ms) (d ∷ ds) p = elim (Bool-cases (is_separator d)) [
  | inl y ↦ rw (y, separator-to_lower d y, plain_differs m ms d p y) refl
  | inr k ↦ elim (Bool-cases (to_lower d == m)) [
    | inl e ↦ rw (k, e) (bare-name_of ms ds (plain_rest m ms p))
    | inr e ↦ rw (k, e) refl
  ]
]

qualified-sign :
    (text : Text)
    → qualified text ≡ (or_pass (sign text), is_some (sign text), body_of (sign text) text)
qualified-sign [] = refl
qualified-sign (c ∷ cs) = signed (c == b'+') (c == b'-') (c == b'~') (c == b'?')
  where
    chosen : Bool → Bool → Bool → Bool → Option Qualifier
    chosen p m t q =
        if p
        then some pass
        else if m
        then some fail
        else if t
        then some soft_fail
        else if q
        then some neutral
        else none

    signed :
        (p m t q : Bool)
        → ◌≡◌ {A = Qualifier × Bool × Text}
            (if p
              then (pass, true, cs)
              else if m
              then (fail, true, cs)
              else if t
              then (soft_fail, true, cs)
              else if q
              then (neutral, true, cs)
              else (pass, false, c ∷ cs))
            (or_pass (chosen p m t q), is_some (chosen p m t q), body_of (chosen p m t q) (c ∷ cs))
    signed true m t q = refl
    signed false true t q = refl
    signed false false true q = refl
    signed false false false true = refl
    signed false false false false = refl

-- The forms over what the parser finds in the body of a term.
module _ (written : Option Qualifier) (lower : Text) (separator : Option ℕ) (argument : Text) where
  abbrev bare : Text → Bool
  bare n = list_beq lower n && not (is_some separator)

  abbrev labelled : Text → ℕ → (Text → Bool) → (Text → Term) → Term → Term
  labelled n c valid term later =
      form_or valid term (cut (list_beq lower n && separated_by c separator) argument) later

  abbrev parted_modifier : Term
  parted_modifier =
      elim (cut (list_beq lower (codes "redirect") && separated_by b'=' separator) argument) [
        | some target ↦ valid_if (is_domain_spec target) (redirect_term target)
        | none ↦ valid_if (separated_by b'=' separator && is_modifier_name lower) other_term
      ]

  abbrev parted_unsigned : Option Qualifier → Term
  parted_unsigned none = parted_modifier
  parted_unsigned (some q) = invalid_term

  unfoldable parted : Term
  unfolding is_ipv4 is_ipv6
  parted =
      if bare (codes "all")
      then all_term (or_pass written)
      else if bare (codes "a") || bare (codes "mx")
      then lookup_term
      else if bare (codes "ptr")
      then ptr_term
      else labelled (codes "include") b':' is_domain_spec include_term (
          labelled (codes "exists") b':' is_domain_spec (λ a. lookup_term)
            (labelled (codes "a") b'/' (λ a. true) (λ a. lookup_term)
              (labelled (codes "mx") b'/' (λ a. true) (λ a. lookup_term)
                (labelled (codes "a") b':' (λ a. is_domain_spec (before b'/' a)) (λ a. lookup_term)
                  (labelled (codes "mx") b':' (λ a. is_domain_spec (before b'/' a))
                    (λ a. lookup_term)
                    (labelled (codes "ptr") b':' is_domain_spec (λ a. ptr_term)
                      (labelled (codes "ip4") b':' (is_ip_network is_ipv4 32) (λ a. other_term)
                        (labelled (codes "ip6") b':' (is_ip_network is_ipv6 128) (λ a. other_term)
                          (parted_unsigned written)))))))))

abbrev Agrees : Text → Type 0
Agrees lower =
    (written : Option Qualifier) (separator : Option ℕ) (argument : Text)
    → term_of (or_pass written) (is_some written) lower separator argument
      ≡ parted written lower separator argument

all-Agrees : Agrees (codes "all")
unfolding term_of parted
all-Agrees none none argument = refl
all-Agrees (some q) none argument = refl
all-Agrees none (some d) argument = ground arith
all-Agrees (some q) (some d) argument = ground arith

include-Agrees : Agrees (codes "include")
unfolding term_of parted
include-Agrees none none argument = refl
include-Agrees (some q) none argument = refl
include-Agrees none (some d) argument = ground arith
include-Agrees (some q) (some d) argument = ground arith

exists-Agrees : Agrees (codes "exists")
unfolding term_of parted
exists-Agrees none none argument = refl
exists-Agrees (some q) none argument = refl
exists-Agrees none (some d) argument = ground arith
exists-Agrees (some q) (some d) argument = ground arith

a-Agrees : Agrees (codes "a")
unfolding term_of parted
a-Agrees none none argument = refl
a-Agrees (some q) none argument = refl
a-Agrees none (some d) argument = rw (split-before b'/' argument).1 (ground arith)
a-Agrees (some q) (some d) argument = rw (split-before b'/' argument).1 (ground arith)

mx-Agrees : Agrees (codes "mx")
unfolding term_of parted
mx-Agrees none none argument = refl
mx-Agrees (some q) none argument = refl
mx-Agrees none (some d) argument = rw (split-before b'/' argument).1 (ground arith)
mx-Agrees (some q) (some d) argument = rw (split-before b'/' argument).1 (ground arith)

ptr-Agrees : Agrees (codes "ptr")
unfolding term_of parted
ptr-Agrees none none argument = refl
ptr-Agrees (some q) none argument = refl
ptr-Agrees none (some d) argument = ground arith
ptr-Agrees (some q) (some d) argument = ground arith

ip4-Agrees : Agrees (codes "ip4")
unfolding term_of parted
ip4-Agrees none none argument = refl
ip4-Agrees (some q) none argument = refl
ip4-Agrees none (some d) argument = ground arith
ip4-Agrees (some q) (some d) argument = ground arith

ip6-Agrees : Agrees (codes "ip6")
unfolding term_of parted
ip6-Agrees none none argument = refl
ip6-Agrees (some q) none argument = refl
ip6-Agrees none (some d) argument = ground arith
ip6-Agrees (some q) (some d) argument = ground arith

redirect-Agrees : Agrees (codes "redirect")
unfolding term_of parted
redirect-Agrees none none argument = refl
redirect-Agrees (some q) none argument = refl
redirect-Agrees none (some d) argument = ground arith
redirect-Agrees (some q) (some d) argument = ground arith

unnamed_modifier :
    (lower : Text) (separator : Option ℕ) (argument : Text)
    → list_beq lower (codes "redirect") ≡ false
    → parted_modifier none lower separator argument
      ≡ valid_if (separated_by b'=' separator && is_modifier_name lower) other_term
unnamed_modifier lower separator argument nr = rw (parted_modifier, nr) refl

other-Agrees :
    (lower : Text)
    → list_beq lower (codes "all") ≡ false
    → list_beq lower (codes "include") ≡ false
    → list_beq lower (codes "exists") ≡ false
    → list_beq lower (codes "a") ≡ false
    → list_beq lower (codes "mx") ≡ false
    → list_beq lower (codes "ptr") ≡ false
    → list_beq lower (codes "ip4") ≡ false
    → list_beq lower (codes "ip6") ≡ false
    → list_beq lower (codes "redirect") ≡ false
    → Agrees lower
unfolding term_of parted
other-Agrees lower na ni ne nh nm np n4 n6 nr none separator argument =
    rw (na, ni, ne, nh, nm, np, n4, n6, nr, unnamed_modifier lower separator argument nr)
      (ground arith)
other-Agrees lower na ni ne nh nm np n4 n6 nr (some q) separator argument =
    rw (na, ni, ne, nh, nm, np, n4, n6, nr) (ground arith)

-- One name after the other.
unless_named :
    (n lower : Text) → Agrees n → (list_beq lower n ≡ false → Agrees lower) → Agrees lower
unless_named n lower named other = elim (Bool-cases (list_beq lower n)) [
  | inl y ↦ subst Agrees (sym ((list_beq_iff lower n).0 y)) named
  | inr k ↦ other k
]

term_of-parted : (lower : Text) → Agrees lower
term_of-parted lower = unless_named (codes "all") lower all-Agrees λ na.
    unless_named (codes "include") lower include-Agrees λ ni.
      unless_named (codes "exists") lower exists-Agrees λ ne.
        unless_named (codes "a") lower a-Agrees λ nh.
          unless_named (codes "mx") lower mx-Agrees λ nm.
            unless_named (codes "ptr") lower ptr-Agrees λ np.
              unless_named (codes "ip4") lower ip4-Agrees λ n4.
                unless_named (codes "ip6") lower ip6-Agrees λ n6.
                  unless_named (codes "redirect") lower redirect-Agrees
                    λ nr. other-Agrees lower na ni ne nh nm np n4 n6 nr

unsigned-parted :
    (w : Option Qualifier) (s : Text)
    → unsigned w s
      ≡ parted_unsigned w (to_ascii_lowercase (name_of s).0) (name_of s).1 (name_of s).2 w
unsigned-parted none s = rw (after_label-name_of (codes "redirect") b'=' s refl refl) refl
unsigned-parted (some q) s = refl

described_as-parted :
    (w : Option Qualifier) (s : Text)
    → described_as w s ≡ parted w (to_ascii_lowercase (name_of s).0) (name_of s).1 (name_of s).2
unfolding described_as parted
described_as-parted w s =
    rw
      (
        bare-name_of (codes "all") s refl,
        bare-name_of (codes "a") s refl,
        bare-name_of (codes "mx") s refl,
        bare-name_of (codes "ptr") s refl,
        after_label-name_of (codes "include") b':' s refl refl,
        after_label-name_of (codes "exists") b':' s refl refl,
        after_label-name_of (codes "a") b'/' s refl refl,
        after_label-name_of (codes "mx") b'/' s refl refl,
        after_label-name_of (codes "a") b':' s refl refl,
        after_label-name_of (codes "mx") b':' s refl refl,
        after_label-name_of (codes "ptr") b':' s refl refl,
        after_label-name_of (codes "ip4") b':' s refl refl,
        after_label-name_of (codes "ip6") b':' s refl refl,
        unsigned-parted w s,
      )
      refl

-- The parser reads every term as it is written.
pub read_term-described : (text : Text) → read_term text ≡ described text
unfolding read_term described
read_term-described text =
    let s = body_of (sign text) text in
    ap
      (λ (found : Qualifier × Bool × Text).
        let (qualifier, explicit, rest) = found in
        let (name, separator, argument) = name_of rest in
        term_of qualifier explicit (to_ascii_lowercase name) separator argument)
      (qualified-sign text)
    ∙ term_of-parted (to_ascii_lowercase (name_of s).0) (sign text) (name_of s).1 (name_of s).2
    ∙ sym (described_as-parted (sign text) s)
