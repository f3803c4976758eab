-- ===== src/Indicator/Domain/Labels.antt =====
-- What `validate_ascii` and `DomainName::parse` accept, label by label.
use Prim.Native.String.{String}
use sentinel_osint.Common.{
  ◌⊎◌, ℕ, ◌+◌, ◌≤◌, Bool, true, false, ◌||◌, Option, none, some, List, [], ◌∷◌, ltb, if◌then◌else◌,
  is_empty, all, any, length, Result, ok, err, ◌>>◌, nat_eq, ◌≡◌, ◌≢◌, ◌↔◌, refl, arith, All, inl,
  inr, ap, subst,
}
use sentinel_osint.Common.Text.{
  Text, codes, is_ascii_digit, len, starts_with, ends_with, is_some, trim, contains_str,
}
use sentinel_osint.Common.Text.Splitting.{split}
use sentinel_osint.Net.{IpAddr}
use sentinel_osint.Net.Parser.{parse_ip_addr}
use sentinel_osint.Indicator.Defs.{DomainName, IndicatorError, Crates}
use sentinel_osint.Indicator.Domain.{
  max_length, is_label_byte, check_label, scan_labels, validate_ascii, parse, is_url_char, to_name,
  strip_root, without_brackets, parse_trimmed,
}

abbrev pub first? : Text → Option ℕ
first? [] = none
first? (c ∷ cs) = some c

abbrev pub last? : Text → Option ℕ
last? [] = none
last? (c ∷ []) = some c
last? (c ∷ d ∷ ds) = last? (d ∷ ds)

starts_with-eq : (s : Text) (p : ℕ) → (starts_with s (p ∷ []) ≡ true) ↔ (first? s ≡ some p)
starts_with-eq [] p = ground arith
starts_with-eq (c ∷ cs) p = ground arith

pub ends_with-eq : (s : Text) (p : ℕ) → (ends_with s (p ∷ []) ≡ true) ↔ (last? s ≡ some p)
ends_with-eq [] p = ground arith
ends_with-eq (c ∷ []) p = ground arith
ends_with-eq (c ∷ d ∷ ds) p = ground (arith, ends_with-eq (d ∷ ds) p)

-- A label of a host name, with underscores as the sources allow them.
pub record IsLabel (label : Text) : Type 0 where
  pub nonempty : label ≢ []
  pub short : len label ≤ 63
  pub bytes : all is_label_byte label ≡ true
  pub first_not_hyphen : first? label ≢ some b'-'
  pub last_not_hyphen : last? label ≢ some b'-'

is_empty-eq : (s : Text) → (is_empty s ≡ true) ↔ (s ≡ [])
is_empty-eq [] = ground arith
is_empty-eq (c ∷ cs) = ground arith

check_label-eq-ok : (label : Text) → (check_label label ≡ ok tt) ↔ IsLabel label
unfolding check_label
check_label-eq-ok label =
    ground (arith, is_empty-eq label, starts_with-eq label b'-', ends_with-eq label b'-')

-- The last of the labels, or the label read before them.
abbrev pub top_label : Text → List Text → Text
top_label last [] = last
top_label last (label ∷ labels) = top_label label labels

check_cases : (r : Result String (Unit {0})) → (r ≡ ok tt) ⊎ ((why : String) × (r ≡ err why))
check_cases (ok tt) = inl refl
check_cases (err why) = inr (why, refl)

check_label-IsLabel :
    (label : Text) (rest : Result String (Unit {0}))
    → ((check_label label >> rest) ≡ ok tt) ↔ (IsLabel label × (rest ≡ ok tt))
check_label-IsLabel label rest = elim (check_cases (check_label label)) [
  | inl y ↦ rw y (ground (arith, check_label-eq-ok label))
  | inr (why, n) ↦ rw n (ground (arith, check_label-eq-ok label))
]

scan_labels-eq-ok :
    (count : ℕ) (last : Text) (labels : List Text)
    → (scan_labels count last labels ≡ ok tt) ↔ (
        All IsLabel labels
        × (2 ≤ count + length labels)
        × (all is_ascii_digit (top_label last labels) ≡ false))
unfolding scan_labels
scan_labels-eq-ok count last [] = ground arith
scan_labels-eq-ok count last (label ∷ labels) = ground (
  arith,
  check_label-IsLabel label (scan_labels (count + 1) label labels),
  scan_labels-eq-ok (count + 1) label labels,
)

-- A domain name in ASCII form.
pub record IsDomainName (name : Text) : Type 0 where
  pub within_length : len name ≤ 253
  pub labels : All IsLabel (split b'.' name)
  pub two_labels : 2 ≤ length (split b'.' name)
  pub top_not_numeric : all is_ascii_digit (top_label [] (split b'.' name)) ≡ false

-- `validate_ascii` accepts exactly the names of at least two labels whose last is not a number,
-- within the length limits for names and labels.
pub validate_ascii-eq-ok : (name : Text) → (validate_ascii name ≡ ok tt) ↔ IsDomainName name
unfolding validate_ascii
validate_ascii-eq-ok [] = (λ h. cc, λ v. absurd (omega (arith, v.two_labels)))
validate_ascii-eq-ok (c ∷ cs) =
    let scan = scan_labels-eq-ok 0 [] (split b'.' (c ∷ cs)) in
    let to : validate_ascii (c ∷ cs) ≡ ok tt → IsDomainName (c ∷ cs) = λ h. ground (arith, scan) in
    let from : IsDomainName (c ∷ cs) → validate_ascii (c ∷ cs) ≡ ok tt = λ v.
      let two : 2 ≤ 0 + length (split b'.' (c ∷ cs)) = omega (arith, v.two_labels) in
      ground (arith, scan.1 (v.labels, two, v.top_not_numeric), v.within_length) in
    (to, from)

to_name-IsDomainName :
    (o : Option Text) (d : DomainName) → to_name o ≡ ok d → (o ≡ some d.name) × IsDomainName d.name
to_name-IsDomainName none d e = cc
to_name-IsDomainName (some ascii) d e = elim (check_cases (validate_ascii ascii)) [
  | inl y ↦
      let same : ascii ≡ d.name = ground arith in
      (ap some same, subst IsDomainName same ((validate_ascii-eq-ok ascii).0 y))
  | inr (why, n) ↦ absurd (ground (arith, n))
]

-- The guards of `parse`, over their tests.
guards_inv :
    (blank long schemed chars : Bool) (o : Option IpAddr) (e1 e2 e3 e4 : IndicatorError)
    (r : Result IndicatorError DomainName) (d : DomainName)
    → (if blank
        then err e1
        else if long
        then err e2
        else if is_some o
        then err e3
        else if schemed || chars
        then err e4
        else r)
      ≡ ok d
    → (r ≡ ok d) × (o ≡ none) × (chars ≡ false)
guards_inv blank long schemed chars o e1 e2 e3 e4 r d e = ground arith

parse_trimmed_inv :
    (lib : Crates) (s : Text) (d : DomainName)
    → parse_trimmed lib s ≡ ok d
    → (to_name (lib.domain_to_ascii (strip_root s)) ≡ ok d)
      × (parse_ip_addr (without_brackets s) ≡ none)
      × (any is_url_char s ≡ false)
unfolding parse_trimmed
parse_trimmed_inv lib s d e =
    guards_inv (is_empty s) (ltb (max_length + 1) (len s)) (contains_str (codes "://") s)
      (any is_url_char s) (parse_ip_addr (without_brackets s)) _ _ _ _
      (to_name (lib.domain_to_ascii (strip_root s))) d e

-- Whatever `idna` answers, a parsed name has the form that `validate_ascii` demands, and it is
-- `idna`'s answer for the input without surrounding space and without one trailing dot; the input
-- was neither an address, in brackets or not, nor held a character of a URL.
pub parse-IsDomainName :
    (lib : Crates) (input : Text) (d : DomainName)
    → parse lib input ≡ ok d
    → IsDomainName d.name
      × (lib.domain_to_ascii (strip_root (trim input)) ≡ some d.name)
      × (parse_ip_addr (without_brackets (trim input)) ≡ none)
      × (any is_url_char (trim input) ≡ false)
unfolding parse
parse-IsDomainName lib input d e =
    let (named, not_ip, not_url) = parse_trimmed_inv lib (trim input) d e in
    let (answer, valid) = to_name-IsDomainName _ d named in (valid, answer, not_ip, not_url)
