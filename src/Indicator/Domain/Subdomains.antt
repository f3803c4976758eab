-- ===== src/Indicator/Domain/Subdomains.antt =====
-- `is_subdomain_of` and `is_special_use` respect the borders of labels.
use mathlib.Core.List.{append_assoc}
use sentinel_osint.Common.{
  or_iff, Any, any_iff, &&-eq-true, ltb→lt, lt→ltb, ℕ, ◌<◌, Bool, true, false, ◌&&◌, some, [], ◌∷◌,
  ◌++◌, ltb, length, nat_eq, list_beq, list_beq_iff, list_beq_refl, eq_of_list_beq, ◌≡◌, ◌≢◌, ◌↔◌,
  ◌⊎◌, refl, sym, ap, ◌∙◌, arith, Bool-cases, inl, inr, Option-cases, length-append,
}
use sentinel_osint.Common.Text.{Text, codes, len, len_utf8, strip_suffix, ends_with}
use sentinel_osint.Indicator.Defs.{DomainName}
use sentinel_osint.Indicator.Domain.{
  is_subdomain_of, is_special_use, has_suffix, is_dotted_rest, special_use_suffixes,
}
use sentinel_osint.Indicator.Domain.Labels.{last?, ends_with-eq}

-- A name that ends in a dot.
last_dot : (s : Text) (p : ℕ) → (last? s ≡ some p) → (front : Text) × (s ≡ front ++ p ∷ [])
last_dot [] p h = cc
last_dot (c ∷ []) p h = ([], ground arith)
last_dot (c ∷ d ∷ ds) p h = let (front, e) = last_dot (d ∷ ds) p h in (c ∷ front, ap (◌∷◌ c) e)

last-concat : (front : Text) (p : ℕ) → last? (front ++ p ∷ []) ≡ some p
last-concat [] p = refl
last-concat (c ∷ []) p = refl
last-concat (c ∷ d ∷ ds) p = last-concat (d ∷ ds) p

strip_suffix-append :
    (suffix s rest : Text) → strip_suffix suffix s ≡ some rest → s ≡ rest ++ suffix
strip_suffix-append [] [] rest h = ground arith
strip_suffix-append (p ∷ ps) [] rest h = cc
strip_suffix-append suffix (c ∷ cs) rest h = elim (Bool-cases (list_beq (c ∷ cs) suffix)) [
  | inl y ↦
      let none_left : rest ≡ [] = ground arith in
      eq_of_list_beq (c ∷ cs) suffix y ∙ ap (λ t. t ++ suffix) (sym none_left)
  | inr n ↦ elim (Option-cases (strip_suffix suffix cs)) [
    | inl missing ↦ absurd (ground arith)
    | inr (tail, found) ↦
        let front : rest ≡ c ∷ tail = ground arith in
        ap (◌∷◌ c) (strip_suffix-append suffix cs tail found) ∙ ap (λ t. t ++ suffix) (sym front)
  ]
]

longer-ne : (c : ℕ) (cs suffix : Text) → list_beq (c ∷ (cs ++ suffix)) suffix ≡ false
longer-ne c cs suffix = elim (Bool-cases (list_beq (c ∷ (cs ++ suffix)) suffix)) [
  | inl y ↦ absurd (
      omega
        (arith, ap length (eq_of_list_beq (c ∷ (cs ++ suffix)) suffix y), length-append cs suffix))
  | inr n ↦ n
]

strip_suffix_of_append : (suffix rest : Text) → strip_suffix suffix (rest ++ suffix) ≡ some rest
strip_suffix_of_append [] [] = refl
strip_suffix_of_append (p ∷ ps) [] = rw (list_beq_refl (p ∷ ps)) refl
strip_suffix_of_append suffix (c ∷ cs) =
    rw (longer-ne c cs suffix, strip_suffix_of_append suffix cs) refl

abbrev dotted : Text → Text
dotted front = front ++ b'.' ∷ []

dotted-append : (front suffix : Text) → dotted front ++ suffix ≡ front ++ b'.' ∷ suffix
dotted-append front suffix = append_assoc front (b'.' ∷ []) suffix

front_of_dotted :
    (rest : Text) → ends_with rest (codes ".") ≡ true → (front : Text) × (rest ≡ dotted front)
front_of_dotted rest h = last_dot rest b'.' ((ends_with-eq rest b'.').0 h)

dotted-ends_with : (front : Text) → ends_with (dotted front) (codes ".") ≡ true
dotted-ends_with front = (ends_with-eq (dotted front) b'.').1 (last-concat front b'.')

len_utf8_pos : (c : ℕ) → 0 < len_utf8 c
len_utf8_pos c = ground arith

len-dotted : (front : Text) → 0 < len (dotted front)
len-dotted [] = omega arith
len-dotted (c ∷ cs) = omega (arith, len_utf8_pos c)

len-dotted_nonempty : (front : Text) → front ≢ [] → 1 < len (dotted front)
len-dotted_nonempty [] h = absurd (h refl)
len-dotted_nonempty (c ∷ cs) h = omega (arith, len_utf8_pos c, len-dotted cs)

nonempty_front : (front : Text) → 1 < len (dotted front) → front ≢ []
nonempty_front [] h = absurd (omega arith)
nonempty_front (c ∷ cs) h = cc

strip_dotted :
    (front suffix : Text) → strip_suffix suffix (front ++ b'.' ∷ suffix) ≡ some (dotted front)
strip_dotted front suffix =
    rw (← dotted-append front suffix) (strip_suffix_of_append suffix (dotted front))

child_of_prefix :
    (suffix name prefix : Text)
    → strip_suffix suffix name ≡ some prefix
    → ends_with prefix (codes ".") ≡ true
    → (front : Text) × (prefix ≡ dotted front) × (name ≡ front ++ b'.' ∷ suffix)
child_of_prefix suffix name prefix found h =
    let (front, e) = front_of_dotted prefix h in
    (
      front,
      e,
      strip_suffix-append suffix name prefix found
          ∙ ap (λ t. t ++ suffix) e
          ∙ dotted-append front suffix,
    )

found_prefix :
    (prefix : Text)
    → (ltb 1 (len prefix) && ends_with prefix (codes ".")) ≡ true
    → (1 < len prefix) × (ends_with prefix (codes ".") ≡ true)
found_prefix prefix h =
    let (long, ends) = &&-eq-true (ltb 1 (len prefix)) (ends_with prefix (codes ".")) h in
    (ltb→lt 1 (len prefix) long, ends)

and_true : {a b : Bool} → a ≡ true → b ≡ true → (a && b) ≡ true
and_true h k = ground arith

-- A domain is a subdomain of another exactly when a nonempty text and a dot stand before the
-- other: never by a common ending inside a label.
pub is_subdomain_of_iff :
    (child parent : DomainName)
    → (is_subdomain_of child parent ≡ true)
      ↔ ((front : Text) × (front ≢ []) × (child.name ≡ front ++ b'.' ∷ parent.name))
unfolding is_subdomain_of
is_subdomain_of_iff child parent = (to, from)
  where
    to :
        is_subdomain_of child parent ≡ true
        → (front : Text) × (front ≢ []) × (child.name ≡ front ++ b'.' ∷ parent.name)
    to h = elim (Option-cases (strip_suffix parent.name child.name)) [
      | inl missing ↦ absurd (ground arith)
      | inr (prefix, found) ↦
          let (long, ends) = found_prefix prefix (rw found at h) in
          let (front, e, name) = child_of_prefix parent.name child.name prefix found ends in
          (front, nonempty_front front (rw e at long), name)
    ]

    from :
        ((front : Text) × (front ≢ []) × (child.name ≡ front ++ b'.' ∷ parent.name))
        → is_subdomain_of child parent ≡ true
    from (front, ne, e) =
        rw (e, strip_dotted front parent.name)
          (and_true (lt→ltb 1 (len (dotted front)) (len-dotted_nonempty front ne))
            (dotted-ends_with front))

-- A name that is the suffix, or ends in a dot and the suffix.
abbrev pub EndsIn : Text → Text → Type 0
EndsIn name suffix = (name ≡ suffix) ⊎ ((front : Text) × (name ≡ front ++ b'.' ∷ suffix))

dotted_rest :
    (suffix name : Text)
    → (is_dotted_rest (strip_suffix suffix name) ≡ true)
      ↔ ((front : Text) × (name ≡ front ++ b'.' ∷ suffix))
dotted_rest suffix name = (to, from)
  where
    to :
        is_dotted_rest (strip_suffix suffix name) ≡ true
        → (front : Text) × (name ≡ front ++ b'.' ∷ suffix)
    to h = elim (Option-cases (strip_suffix suffix name)) [
      | inl missing ↦ absurd (ground arith)
      | inr (rest, found) ↦
          let (front, e, named) = child_of_prefix suffix name rest found (rw found at h) in
          (front, named)
    ]

    from :
        ((front : Text) × (name ≡ front ++ b'.' ∷ suffix))
        → is_dotted_rest (strip_suffix suffix name) ≡ true
    from (front, e) = rw (e, strip_dotted front suffix) (dotted-ends_with front)

has_suffix_iff : (name suffix : Text) → (has_suffix name suffix ≡ true) ↔ EndsIn name suffix
has_suffix_iff name suffix =
    or_iff (list_beq name suffix) (is_dotted_rest (strip_suffix suffix name))
      (list_beq_iff name suffix) (dotted_rest suffix name)

-- A name is of special use exactly when it is one of the listed names or ends in a dot and one.
pub is_special_use_iff :
    (d : DomainName) → (is_special_use d ≡ true) ↔ Any (EndsIn d.name) special_use_suffixes
unfolding is_special_use
is_special_use_iff d =
    any_iff (has_suffix d.name) (EndsIn d.name) (has_suffix_iff d.name) special_use_suffixes
