-- ===== src/Common/Text/Numbers.antt =====
-- Decimal numbers: what `{}` prints of an unsigned integer, and `str::parse` of one.
use Prim.Native.Nat.{ℕ, zero, suc, ◌+◌, ◌-◌, ◌*◌, ◌/◌, ◌%◌, ◌^◌}
use mathlib.Core.Bool.{not, ◌||◌}
use mathlib.Core.Option.{Option, none, some}
use mathlib.Core.List.{[], ◌∷◌}
use sentinel_osint.Common.Tests.{ltb, ◌==◌, if◌then◌else◌}
use sentinel_osint.Common.Lists.{is_empty, all}
use sentinel_osint.Common.Text.{Text, is_ascii_digit}

-- The digits of a number before those of `after`; `n` halvings are enough for the number `n`.
abbrev pub digits_before : ℕ → ℕ → Text → Text
digits_before zero n after = (b'0' + n % 10) ∷ after
digits_before (suc fuel) n after = elim (n / 10) [
  | zero ↦ (b'0' + n % 10) ∷ after
  | suc more ↦ digits_before fuel (suc more) ((b'0' + n % 10) ∷ after)
]

abbrev pub decimal : ℕ → Text
decimal n = digits_before n n []

abbrev pub value_of : ℕ → Text → ℕ
value_of value [] = value
value_of value (c ∷ cs) = value_of (value * 10 + (c - b'0')) cs

abbrev without_plus : Text → Text
without_plus [] = []
without_plus (c ∷ cs) = if c == b'+' then cs else c ∷ cs

-- `parse` of an unsigned integer of `bits` bits.
abbrev pub parse_unsigned : ℕ → Text → Option ℕ
parse_unsigned bits s =
    let digits = without_plus s in
    if is_empty digits || not (all is_ascii_digit digits)
    then none
    else if ltb (value_of 0 digits) (2 ^ bits)
    then some (value_of 0 digits)
    else none
