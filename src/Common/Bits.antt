-- ===== src/Common/Bits.antt =====
-- `bit_and` with a mask of high bits, as Rust writes it for network prefixes.
use Prim.Native.Nat.{
  ℕ, zero, suc, ◌+◌, ◌*◌, ◌/◌, ◌^◌, ◌<◌, ◌≤◌, min, bit_and, digits, bit_and-bitwise,
}
use mathlib.Core.Path.{◌≡◌, refl, sym, ap, ◌∙◌}
use native.Mathlib.Omega.{arith}
use native.Mathlib.Nat.{pow-suc, div-div-eq-div-mul}

-- A mask of `w` ones.
abbrev pub ones : ℕ → ℕ
ones zero = 0
ones (suc w) = ones w * 2 + 1

pub ones-suc : (w : ℕ) → ones w + 1 ≡ 2 ^ w
ones-suc zero = refl
ones-suc (suc w) = omega (arith, ones-suc w, pow-suc 2 w)

-- `w` ones above `k` zeros, and what such a mask leaves of a number.
abbrev high : ℕ → ℕ → ℕ
high w k = ones w * 2 ^ k

abbrev kept_high : ℕ → ℕ → ℕ
kept_high x k = x / 2 ^ k * 2 ^ k

high-suc : (w k : ℕ) → high w (suc k) ≡ high w k * 2
high-suc w k = omega (arith, ap (λ t. ones w * t) (pow-suc 2 k))

kept_high-suc : (x k : ℕ) → kept_high x (suc k) ≡ kept_high (x / 2) k * 2
kept_high-suc x k =
    let below : x / 2 ^ suc k ≡ x / 2 / 2 ^ k =
      ap (λ m. x / m) (omega (arith, pow-suc 2 k)) ∙ sym (div-div-eq-div-mul x 2 (2 ^ k)) in
    omega (arith, ap (λ t. x / 2 ^ suc k * t) (pow-suc 2 k), ap (λ t. t * 2 ^ k) below)

half_bound_zero : (x w : ℕ) → x < 2 ^ suc w * 2 ^ 0 → x / 2 < 2 ^ w * 2 ^ 0
half_bound_zero x w h = omega (arith, pow-suc 2 w)

half_bound : (x w k : ℕ) → x < 2 ^ w * 2 ^ suc k → x / 2 < 2 ^ w * 2 ^ k
half_bound x w k h = omega (arith, ap (λ t. 2 ^ w * t) (pow-suc 2 k))

-- The digits one by one, for any count of them that is enough: first the zeros of the mask, then its
-- ones.
masked_digits :
    (count x w k : ℕ)
    → x ≤ count
    → x < 2 ^ w * 2 ^ k
    → digits (λ b. 0) min count x (high w k) ≡ kept_high x k
masked_digits zero zero w k enough small = omega arith
masked_digits zero (suc x) w k enough small = absurd (omega arith)
masked_digits (suc count) zero w k enough small = omega arith
masked_digits (suc count) (suc x) zero zero enough small = absurd (omega arith)
masked_digits (suc count) (suc x) (suc w) zero enough small =
    let rest =
      masked_digits count (suc x / 2) w 0 (omega arith) (half_bound_zero (suc x) w small) in
    let half : high (suc w) 0 / 2 ≡ high w 0 = omega arith in
    omega (arith, rest, ap (digits (λ b. 0) min count (suc x / 2)) half)
masked_digits (suc count) (suc x) w (suc k) enough small =
    let rest = masked_digits count (suc x / 2) w k (omega arith) (half_bound (suc x) w k small) in
    let half : high w (suc k) / 2 ≡ high w k = omega (arith, high-suc w k) in
    omega (
      arith,
      rest,
      high-suc w k,
      kept_high-suc (suc x) k,
      ap (digits (λ b. 0) min count (suc x / 2)) half,
    )

-- A mask of `w` ones above `k` zeros clears the lowest `k` digits of a number of `w + k` digits.
pub bit_and_high : (x w k : ℕ) → x < 2 ^ w * 2 ^ k → bit_and x (ones w * 2 ^ k) ≡ x / 2 ^ k * 2 ^ k
bit_and_high x w k h =
    let whole : bit_and x (high w k) ≡ digits (λ b. 0) min x x (high w k) =
      bit_and-bitwise x (high w k) in
    whole ∙ masked_digits x x w k (omega arith) h
