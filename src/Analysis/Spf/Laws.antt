-- ===== src/Analysis/Spf/Laws.antt =====
-- What a parsed SPF record says, apart from the loop that reads its terms.
use mathlib.Core.List.{append-nil}
use sentinel_osint.Common.{
  ℕ, zero, suc, ◌+◌, ◌≤◌, Bool, true, false, not, ◌||◌, Option, none, some, List, [], ◌∷◌, ◌++◌,
  if◌then◌else◌, take, drop, length, filter, any, is_empty, ◌≡◌, refl, sym, ap, ◌∙◌, arith,
  Bool-cases, inl, inr, length-take, length-filter-le, ltb,
}
use sentinel_osint.Common.Text.{Text}
use sentinel_osint.Analysis.Spf.{
  Qualifier, Term, all_term, include_term, lookup_term, ptr_term, redirect_term, other_term,
  invalid_term, SpfSummary, default_summary, get_or_insert, apply_term, parse_term, parse_terms,
  terms_of, parse, max_terms,
}
use sentinel_osint.Analysis.Spf.Grammar.{described}
use sentinel_osint.Analysis.Spf.Grammar.Parses.{read_term-described}

abbrev pub all_of : Term → Option Qualifier
all_of (all_term qualifier) = some qualifier
all_of _ = none

abbrev pub redirect_of : Term → Option Text
redirect_of (redirect_term target) = some target
redirect_of _ = none

abbrev pub include_of : Term → Option Text
include_of (include_term target) = some target
include_of _ = none

abbrev pub is_ptr : Term → Bool
is_ptr ptr_term = true
is_ptr _ = false

abbrev pub is_invalid : Term → Bool
is_invalid invalid_term = true
is_invalid _ = false

-- Whether an evaluation of the term looks up a name.
abbrev pub is_lookup : Term → Bool
is_lookup (include_term target) = true
is_lookup lookup_term = true
is_lookup ptr_term = true
is_lookup (redirect_term target) = true
is_lookup _ = false

abbrev or_else : {A : Type 0} → Option A → Option A → Option A
or_else none later = later
or_else (some a) later = some a

abbrev cons_some : {A : Type 0} → Option A → List A → List A
cons_some none later = later
cons_some (some a) later = a ∷ later

-- The first value of the terms, and all of them.
abbrev pub first_of : {A : Type 0} → (Term → Option A) → List Text → Option A
first_of value [] = none
first_of value (t ∷ ts) = or_else (value (described t)) (first_of value ts)

abbrev pub values : {A : Type 0} → (Text → Option A) → List Text → List A
values value [] = []
values value (t ∷ ts) = cons_some (value t) (values value ts)

abbrev bit : Bool → ℕ
bit true = 1
bit false = 0

abbrev pub count : (Term → Bool) → List Text → ℕ
count test [] = 0
count test (t ∷ ts) = bit (test (described t)) + count test ts

-- What the parser must make of the terms, by what their texts mean.
pub record IsSummary (terms : List Text) (s : SpfSummary) : Type 0 where
  pub all_qualifier : s.all_qualifier ≡ first_of all_of terms
  pub redirect : s.redirect ≡ first_of redirect_of terms
  pub includes : s.includes ≡ values (λ t. include_of (described t)) terms
  pub lookup_terms : s.lookup_terms ≡ count is_lookup terms
  pub has_ptr : s.has_ptr ≡ any (λ t. is_ptr (described t)) terms
  pub invalid_terms : s.invalid_terms ≡ filter (λ t. is_invalid (described t)) terms

-- What a term does to the summary is what its text means.
parse_term-described :
    (text : Text) (s : SpfSummary) → parse_term text s ≡ apply_term text (described text) s
unfolding parse_term
parse_term-described text s = ap (λ t. apply_term text t s) (read_term-described text)

or_else_none : {A : Type 0} (a : Option A) → or_else a none ≡ a
or_else_none none = refl
or_else_none (some a) = refl

lookup-apply_term :
    (text : Text) (t : Term) (s : SpfSummary)
    → (apply_term text t s).lookup_terms ≡ s.lookup_terms + bit (is_lookup t)
lookup-apply_term text (all_term q) s = omega arith
lookup-apply_term text (include_term a) s = omega arith
lookup-apply_term text lookup_term s = omega arith
lookup-apply_term text ptr_term s = omega arith
lookup-apply_term text (redirect_term a) s = omega arith
lookup-apply_term text other_term s = omega arith
lookup-apply_term text invalid_term s = omega arith

lookup-parse_terms :
    (terms : List Text) (s : SpfSummary)
    → (parse_terms terms s).lookup_terms ≡ s.lookup_terms + count is_lookup terms
unfolding parse_terms
lookup-parse_terms [] s = omega arith
lookup-parse_terms (t ∷ ts) s = omega (
  arith,
  lookup-parse_terms ts (parse_term t s),
  ap (λ r. r.lookup_terms) (parse_term-described t s),
  lookup-apply_term t (described t) s,
)

-- A field that keeps its first value.
module _ {A : Type 0} (get : SpfSummary → Option A) (value : Term → Option A)
    (get-apply : (text : Text) (t : Term) (s : SpfSummary)
      → get (apply_term text t s) ≡ or_else (get s) (value t)) where
  or_else_assoc : (a b c : Option A) → or_else (or_else a b) c ≡ or_else a (or_else b c)
  or_else_assoc none b c = refl
  or_else_assoc (some a) b c = refl

  first-parse_terms :
      (terms : List Text) (s : SpfSummary)
      → get (parse_terms terms s) ≡ or_else (get s) (first_of value terms)
  unfolding parse_terms
  first-parse_terms [] s = sym (or_else_none (get s))
  first-parse_terms (t ∷ ts) s =
      first-parse_terms ts (parse_term t s)
      ∙ rw (parse_term-described t s, get-apply t (described t) s)
          (or_else_assoc (get s) (value (described t)) (first_of value ts))

-- A field that collects values.
module _ {A : Type 0} (get : SpfSummary → List A) (value : Text → Option A)
    (get-apply : (text : Text) (s : SpfSummary)
      → get (apply_term text (described text) s) ≡ get s ++ cons_some (value text) []) where
  cons_some-append :
      (xs : List A) (o : Option A) (ys : List A)
      → (xs ++ cons_some o []) ++ ys ≡ xs ++ cons_some o ys
  cons_some-append [] none ys = refl
  cons_some-append [] (some a) ys = refl
  cons_some-append (x ∷ xs) o ys = ap (◌∷◌ x) (cons_some-append xs o ys)

  values-parse_terms :
      (terms : List Text) (s : SpfSummary) → get (parse_terms terms s) ≡ get s ++ values value terms
  unfolding parse_terms
  values-parse_terms [] s = sym (append-nil (get s))
  values-parse_terms (t ∷ ts) s =
      values-parse_terms ts (parse_term t s)
      ∙ rw (parse_term-described t s, get-apply t s)
          (cons_some-append (get s) (value t) (values value ts))

all-apply_term :
    (text : Text) (t : Term) (s : SpfSummary)
    → (apply_term text t s).all_qualifier ≡ or_else s.all_qualifier (all_of t)
all-apply_term text (all_term q) s = inserted q s.all_qualifier
  where
    inserted : (q : Qualifier) (o : Option Qualifier) → get_or_insert q o ≡ or_else o (some q)
    inserted q none = refl
    inserted q (some p) = refl
all-apply_term text _ s = sym (or_else_none s.all_qualifier)

redirect-apply_term :
    (text : Text) (t : Term) (s : SpfSummary)
    → (apply_term text t s).redirect ≡ or_else s.redirect (redirect_of t)
redirect-apply_term text (redirect_term a) s = inserted a s.redirect
  where
    inserted : (a : Text) (o : Option Text) → get_or_insert a o ≡ or_else o (some a)
    inserted a none = refl
    inserted a (some b) = refl
redirect-apply_term text _ s = sym (or_else_none s.redirect)

include-apply_term :
    (text : Text) (t : Term) (s : SpfSummary)
    → (apply_term text t s).includes ≡ s.includes ++ cons_some (include_of t) []
include-apply_term text (include_term a) s = refl
include-apply_term text _ s = sym (append-nil s.includes)

abbrev if_invalid : Text → Term → Option Text
if_invalid text invalid_term = some text
if_invalid text _ = none

invalid-apply_term :
    (text : Text) (t : Term) (s : SpfSummary)
    → (apply_term text t s).invalid_terms ≡ s.invalid_terms ++ cons_some (if_invalid text t) []
invalid-apply_term text invalid_term s = refl
invalid-apply_term text _ s = sym (append-nil s.invalid_terms)

invalid-cons_some :
    (text : Text) (t : Term) (later : List Text)
    → cons_some (if_invalid text t) later ≡ (if is_invalid t then text ∷ later else later)
invalid-cons_some text invalid_term later = refl
invalid-cons_some text _ later = refl

invalid-values :
    (terms : List Text)
    → values (λ t. if_invalid t (described t)) terms ≡ filter (λ t. is_invalid (described t)) terms
invalid-values [] = refl
invalid-values (t ∷ ts) =
    ap (cons_some (if_invalid t (described t))) (invalid-values ts)
    ∙ invalid-cons_some t (described t) (filter (λ u. is_invalid (described u)) ts)

ptr-apply_term :
    (text : Text) (t : Term) (s : SpfSummary)
    → (apply_term text t s).has_ptr ≡ (s.has_ptr || is_ptr t)
ptr-apply_term text ptr_term s = ground arith
ptr-apply_term text _ s = ground arith

ptr-parse_terms :
    (terms : List Text) (s : SpfSummary)
    → (parse_terms terms s).has_ptr ≡ (s.has_ptr || any (λ t. is_ptr (described t)) terms)
unfolding parse_terms
ptr-parse_terms [] s = ground arith
ptr-parse_terms (t ∷ ts) s = ground (
  arith,
  ptr-parse_terms ts (parse_term t s),
  ap (λ r. r.has_ptr) (parse_term-described t s),
  ptr-apply_term t (described t) s,
)

abbrev pub examined : Text → List Text
examined text = take max_terms (terms_of text)

-- A parsed record has the first `all` and the first redirect, every include, the number of terms that
-- look up a name, whether one is `ptr`, and the invalid terms, of its first 128 terms in their order.
pub parse-IsSummary : (text : Text) → IsSummary (examined text) (parse text)
unfolding parse
parse-IsSummary text = record {
  all_qualifier =
      first-parse_terms (λ s. s.all_qualifier) all_of all-apply_term (examined text)
        default_summary;
  redirect =
      first-parse_terms (λ s. s.redirect) redirect_of redirect-apply_term (examined text)
        default_summary;
  includes =
      values-parse_terms (λ s. s.includes) (λ t. include_of (described t))
        (λ t s. include-apply_term t (described t) s) (examined text) default_summary;
  lookup_terms = omega (arith, lookup-parse_terms (examined text) default_summary);
  has_ptr = ptr-parse_terms (examined text) default_summary;
  invalid_terms =
      values-parse_terms (λ s. s.invalid_terms) (λ t. if_invalid t (described t))
        (λ t s. invalid-apply_term t (described t) s) (examined text) default_summary
      ∙ invalid-values (examined text);
}

bit-count-le : (terms : List Text) → count is_lookup terms ≤ length terms
bit-count-le [] = omega arith
bit-count-le (t ∷ ts) = elim (Bool-cases (is_lookup (described t))) [
  | inl y ↦ rw y (omega (arith, bit-count-le ts))
  | inr n ↦ rw n (omega (arith, bit-count-le ts))
]

is_empty-drop : (n : ℕ) (terms : List Text) → not (is_empty (drop n terms)) ≡ ltb n (length terms)
is_empty-drop zero [] = ground arith
is_empty-drop zero (t ∷ ts) = ground arith
is_empty-drop (suc n) [] = ground arith
is_empty-drop (suc n) (t ∷ ts) = ground (arith, is_empty-drop n ts)

-- At most 128 terms are counted, and a longer record is marked.
pub parse_bounds :
    (text : Text)
    → ((parse text).lookup_terms ≤ max_terms)
      × (length (parse text).invalid_terms ≤ max_terms)
      × ((parse text).truncated ≡ ltb max_terms (length (terms_of text)))
unfolding parse
parse_bounds text =
    let s = parse-IsSummary text in
    let kept = length-take max_terms (terms_of text) in
    (
      omega (arith, s.lookup_terms, bit-count-le (examined text), kept),
      rw s.invalid_terms
          (omega (arith, length-filter-le (λ t. is_invalid (described t)) (examined text), kept)),
      is_empty-drop max_terms (terms_of text),
    )
