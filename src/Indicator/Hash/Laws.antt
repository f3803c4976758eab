-- ===== src/Indicator/Hash/Laws.antt =====
-- What `FileHash::parse` accepts, and that it reads back what it returns.
use sentinel_osint.Common.{
  ℕ, ◌<◌, Bool, true, false, ◌||◌, [], ◌∷◌, length, is_empty, all, ok, ◌≡◌, refl, arith, ap, All,
  ◌∙◌, sym, within,
}
use sentinel_osint.Common.Text.{
  Text, is_ascii_hexdigit, is_ascii_digit, is_whitespace, to_ascii_lowercase,
  length-to_ascii_lowercase, trim, trim_end, len,
}
use sentinel_osint.Indicator.Defs.{HashAlgorithm, md5, sha1, sha256, FileHash}
use sentinel_osint.Indicator.Hash.{hex_len, parse_trimmed, parse}

-- A lowercase hexadecimal digit.
abbrev pub is_lower_hex : ℕ → Bool
is_lower_hex c = is_ascii_digit c || within b'a' b'f' c

-- A hash in normal form: as many lowercase hexadecimal digits as its algorithm has.
pub record IsFileHash (h : FileHash) : Type 0 where
  pub digits : All (λ c. is_lower_hex c ≡ true) h.hex
  pub digit_count : length h.hex ≡ hex_len h.algorithm

len_hex : (s : Text) → all is_ascii_hexdigit s ≡ true → len s ≡ length s
len_hex [] h = refl
len_hex (c ∷ cs) h = ground (arith, len_hex cs)

lower_hex :
    (s : Text)
    → all is_ascii_hexdigit s ≡ true
    → All (λ c. is_lower_hex c ≡ true) (to_ascii_lowercase s)
lower_hex [] h = tt
lower_hex (c ∷ cs) h = (ground arith, lower_hex cs (ground arith))

hex_of_lower : (s : Text) → All (λ c. is_lower_hex c ≡ true) s → all is_ascii_hexdigit s ≡ true
hex_of_lower [] h = refl
hex_of_lower (c ∷ cs) h = ground (arith, hex_of_lower cs h.1)

lower_of_lower : (s : Text) → All (λ c. is_lower_hex c ≡ true) s → to_ascii_lowercase s ≡ s
lower_of_lower [] h = refl
lower_of_lower (c ∷ cs) h = ground (arith, lower_of_lower cs h.1)

not_space : (c : ℕ) → is_lower_hex c ≡ true → is_whitespace c ≡ false
not_space c h = ground arith

trim_end_hex : (s : Text) → All (λ c. is_lower_hex c ≡ true) s → trim_end s ≡ s
trim_end_hex [] h = refl
trim_end_hex (c ∷ []) h = ground (arith, not_space c h.0)
trim_end_hex (c ∷ d ∷ ds) h = ground (arith, trim_end_hex (d ∷ ds) h.1)

trim_hex : (s : Text) → All (λ c. is_lower_hex c ≡ true) s → trim s ≡ s
trim_hex [] h = refl
trim_hex (c ∷ cs) h = ground (arith, not_space c h.0, trim_end_hex (c ∷ cs) h)

parse_trimmed_inv :
    (s : Text) (h : FileHash)
    → parse_trimmed s ≡ ok h
    → (all is_ascii_hexdigit s ≡ true)
      × (len s ≡ hex_len h.algorithm)
      × (h.hex ≡ to_ascii_lowercase s)
unfolding parse_trimmed
parse_trimmed_inv s h e = ground arith

-- Every hash that `parse` returns is in normal form: as many lowercase hexadecimal digits as its
-- algorithm has.
pub parse-IsFileHash : (input : Text) (h : FileHash) → parse input ≡ ok h → IsFileHash h
unfolding parse
parse-IsFileHash input h e =
    let (hex, n, same) = parse_trimmed_inv (trim input) h e in
    record {
      digits = rw same (lower_hex (trim input) hex);
      digit_count =
          ap length same
          ∙ length-to_ascii_lowercase (trim input)
          ∙ sym (len_hex (trim input) hex)
          ∙ n;
    }

not_empty : (s : Text) → 0 < length s → is_empty s ≡ false
not_empty [] h = absurd (omega arith)
not_empty (c ∷ cs) h = refl

parse_trimmed_ok :
    (s : Text) (a : HashAlgorithm)
    → is_empty s ≡ false
    → all is_ascii_hexdigit s ≡ true
    → len s ≡ hex_len a
    → parse_trimmed s ≡ ok (record { algorithm = a; hex = to_ascii_lowercase s })
unfolding parse_trimmed
parse_trimmed_ok s md5 e h n = ground arith
parse_trimmed_ok s sha1 e h n = ground arith
parse_trimmed_ok s sha256 e h n = ground arith

digits_positive : (a : HashAlgorithm) → 0 < hex_len a
digits_positive md5 = omega arith
digits_positive sha1 = omega arith
digits_positive sha256 = omega arith

-- Every hash in normal form is what `parse` makes of its digits: a hash survives being written as
-- text and read back.
pub parse-hex : (h : FileHash) → IsFileHash h → parse h.hex ≡ ok h
unfolding parse
parse-hex h v =
    let hex = hex_of_lower h.hex v.digits in
    let n = len_hex h.hex hex ∙ v.digit_count in
    let full = not_empty h.hex (omega (arith, v.digit_count, digits_positive h.algorithm)) in
    rw (trim_hex h.hex v.digits) (
      parse_trimmed_ok h.hex h.algorithm full hex n
      ∙ ap (λ t. ok (record { algorithm = h.algorithm; hex = t })) (lower_of_lower h.hex v.digits))
