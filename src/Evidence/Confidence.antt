-- ===== src/Evidence/Confidence.antt =====
-- crates/core/src/confidence.rs: scores from 0 to 100.
use sentinel_osint.Common.{
  ℕ, ◌≤◌, ◌<◌, ltb, ◌==◌, within, min, if◌then◌else◌, Result, ok, err, ◌≡◌, ◌↔◌, arith,
}

-- `struct Confidence(u8)`.
pub record Confidence : Type 0 where
  pub value : ℕ

pub record ConfidenceError : Type 0 where
  pub refused : ℕ

-- `Confidence::new`.
unfoldable pub new : ℕ → Result ConfidenceError Confidence
new value =
    if ltb 100 value then err (record { refused = value }) else ok (record { value = value })

-- `Confidence::saturating`.
unfoldable pub saturating : ℕ → Confidence
saturating value = if ltb 100 value then record { value = 100 } else record { value = value }

pub data ConfidenceLevel : Type 0 where
  none low medium high : ConfidenceLevel

-- `Confidence::level`.
unfoldable pub level : Confidence → ConfidenceLevel
level c =
    if c.value == 0
    then none
    else if within 1 29 c.value
    then low
    else if within 30 69 c.value
    then medium
    else high

abbrev rank : ConfidenceLevel → ℕ
rank none = 0
rank low = 1
rank medium = 2
rank high = 3

-- `new` refuses exactly the values above 100 and changes no other; `saturating` takes the smaller of
-- the value and 100.
new-saturating :
    (a : ℕ)
    → ((new a ≡ ok (record { value = a })) ↔ (a ≤ 100))
      × ((new a ≡ err (record { refused = a })) ↔ (100 < a))
      × ((saturating a).value ≡ min a 100)
unfolding new saturating
new-saturating a = (ground arith, ground arith, ground arith)

-- A higher value has no lower level.
pub level-saturating_mono :
    (a b : ℕ) → a ≤ b → rank (level (saturating a)) ≤ rank (level (saturating b))
unfolding saturating level
level-saturating_mono a b h = ground arith
