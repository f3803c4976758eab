-- ===== src/Common/Text.antt =====
-- Rust's `str` as the list of its Unicode scalar values, and the operations of the standard
-- library that the sources call on it.
pub mod Splitting
pub mod Numbers
use Prim.Native.Char.{code}
use Prim.Native.String.{String}
use Prim.Native.Nat.{ℕ, zero, suc, ◌+◌, ◌-◌, ◌≤◌, ◌<◌}
use mathlib.Core.Path.{◌≡◌, refl}
use mathlib.Core.Bool.{Bool, true, false, not, ◌&&◌, ◌||◌}
use mathlib.Core.Option.{Option, none, some}
use mathlib.Core.Option
use mathlib.Core.List.{List, [], ◌∷◌, ◌++◌, map}
use native.Mathlib.Omega.{arith}
use sentinel_osint.Common.Tests.{ltb, leb, ◌==◌, within, if◌then◌else◌}
use sentinel_osint.Common.Lists.{length, is_empty, all}
use sentinel_osint.Common.Equality.{nat_eq, list_beq}

abbrev pub Text : Type 0
Text = List ℕ

-- The code points of a literal.
abbrev pub codes : String → Text
codes String.[] = []
codes (String.◌∷◌ c s) = code c ∷ codes s

-- `char::len_utf8` and `str::len`.
abbrev pub len_utf8 : ℕ → ℕ
len_utf8 c = if ltb c 0x80 then 1 else if ltb c 0x800 then 2 else if ltb c 0x10000 then 3 else 4

abbrev pub len : Text → ℕ
len [] = 0
len (c ∷ cs) = len_utf8 c + len cs

abbrev pub is_ascii_digit : ℕ → Bool
is_ascii_digit c = within b'0' b'9' c

abbrev pub is_ascii_lowercase : ℕ → Bool
is_ascii_lowercase c = within b'a' b'z' c

abbrev pub is_ascii_uppercase : ℕ → Bool
is_ascii_uppercase c = within b'A' b'Z' c

abbrev pub is_ascii_hexdigit : ℕ → Bool
is_ascii_hexdigit c = is_ascii_digit c || within b'a' b'f' c || within b'A' b'F' c

abbrev pub to_lower : ℕ → ℕ
to_lower c = if is_ascii_uppercase c then c + 32 else c

abbrev pub to_ascii_lowercase : Text → Text
to_ascii_lowercase [] = []
to_ascii_lowercase (c ∷ cs) = to_lower c ∷ to_ascii_lowercase cs

abbrev pub eq_ignore_ascii_case : Text → Text → Bool
eq_ignore_ascii_case x y = list_beq (to_ascii_lowercase x) (to_ascii_lowercase y)

-- `char::is_control` (category Cc) and `char::is_whitespace` (White_Space).
abbrev pub is_control : ℕ → Bool
is_control c = leb c 0x1f || within 0x7f 0x9f c

abbrev pub is_whitespace : ℕ → Bool
is_whitespace c =
    within 0x09 0x0d c
    || c == 0x20
    || c == 0x85
    || c == 0xa0
    || c == 0x1680
    || within 0x2000 0x200a c
    || c == 0x2028
    || c == 0x2029
    || c == 0x202f
    || c == 0x205f
    || c == 0x3000

abbrev pub trim_start : Text → Text
trim_start [] = []
trim_start (c ∷ cs) = if is_whitespace c then trim_start cs else c ∷ cs

abbrev keep_last : ℕ → Text → Text
keep_last c [] = if is_whitespace c then [] else c ∷ []
keep_last c (d ∷ ds) = c ∷ d ∷ ds

abbrev pub trim_end : Text → Text
trim_end [] = []
trim_end (c ∷ cs) = keep_last c (trim_end cs)

abbrev pub trim : Text → Text
trim s = trim_end (trim_start s)

-- `strip_prefix`, `strip_suffix`, `starts_with` and `ends_with`.
abbrev pub strip_prefix : Text → Text → Option Text
strip_prefix [] s = some s
strip_prefix (p ∷ ps) [] = none
strip_prefix (p ∷ ps) (c ∷ cs) = if p == c then strip_prefix ps cs else none

abbrev pub strip_suffix : Text → Text → Option Text
strip_suffix suffix [] = if is_empty suffix then some [] else none
strip_suffix suffix (c ∷ cs) =
    if list_beq (c ∷ cs) suffix then some [] else Option.map (◌∷◌ c) (strip_suffix suffix cs)

abbrev pub is_some {ℓ} : {A : Type ℓ} → Option A → Bool
is_some none = false
is_some (some a) = true

abbrev pub starts_with : Text → Text → Bool
starts_with s p = is_some (strip_prefix p s)

abbrev pub ends_with : Text → Text → Bool
ends_with s p = is_some (strip_suffix p s)

abbrev pub get_elem? {ℓ} : {A : Type ℓ} → List A → ℕ → Option A
get_elem? [] i = none
get_elem? (x ∷ xs) zero = some x
get_elem? (x ∷ xs) (suc i) = get_elem? xs i

-- `contains` of a substring.
abbrev pub contains_str : Text → Text → Bool
contains_str p [] = is_empty p
contains_str p (c ∷ cs) = starts_with (c ∷ cs) p || contains_str p cs

pub to_lower_idem : (c : ℕ) → to_lower (to_lower c) ≡ to_lower c
to_lower_idem c = ground arith

pub to_ascii_lowercase_idem :
    (s : Text) → to_ascii_lowercase (to_ascii_lowercase s) ≡ to_ascii_lowercase s
to_ascii_lowercase_idem [] = refl
to_ascii_lowercase_idem (c ∷ cs) = ground (arith, to_lower_idem c, to_ascii_lowercase_idem cs)

pub length-to_ascii_lowercase : (s : Text) → length (to_ascii_lowercase s) ≡ length s
length-to_ascii_lowercase [] = refl
length-to_ascii_lowercase (c ∷ cs) = omega (arith, length-to_ascii_lowercase cs)
