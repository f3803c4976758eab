-- ===== src/Common/Equality.antt =====
-- Decided equality as an interface, `contains` and the set insertion that stand on it.
use Prim.Native.Nat.{ℕ}
use mathlib.Core.Path.{◌≡◌, refl}
use mathlib.Core.Bool.{Bool, true, false, ◌&&◌, ◌||◌}
use mathlib.Core.Logic.{◌↔◌}
use mathlib.Core.List.{List, [], ◌∷◌, ◌++◌}
use native.Mathlib.Omega.{arith}
use sentinel_osint.Common.Tests.{◌==◌, ==_iff}

pub record Eq {ℓ} (A : Type ℓ) : Type ℓ where
  pub beq : A → A → Bool
  pub beq_iff : (a b : A) → (beq a b ≡ true) ↔ (a ≡ b)

infix 50 ◌=?◌
abbrev pub ◌=?◌ {ℓ} : {A : Type ℓ} ⦃e : Eq A⦄ → A → A → Bool
◌=?◌ ⦃e⦄ = e.beq

instance abbrev pub nat_eq : Eq ℕ
nat_eq = record { beq = ◌==◌; beq_iff = ==_iff }

module _ {ℓ} {A : Type ℓ} ⦃e : Eq A⦄ where
  -- Equality of slices and strings.
  abbrev pub list_beq : List A → List A → Bool
  list_beq [] [] = true
  list_beq (x ∷ xs) (y ∷ ys) = x =? y && list_beq xs ys
  list_beq _ _ = false

  pub list_beq_refl : (xs : List A) → list_beq xs xs ≡ true
  list_beq_refl [] = refl
  list_beq_refl (x ∷ xs) = ground (arith, (e.beq_iff x x).1 refl, list_beq_refl xs)

  pub eq_of_list_beq : (xs ys : List A) → list_beq xs ys ≡ true → xs ≡ ys
  eq_of_list_beq [] [] h = refl
  eq_of_list_beq [] (y ∷ ys) h = cc
  eq_of_list_beq (x ∷ xs) [] h = cc
  eq_of_list_beq (x ∷ xs) (y ∷ ys) h = ground (arith, e.beq_iff x y, eq_of_list_beq xs ys)

  pub list_beq_iff : (xs ys : List A) → (list_beq xs ys ≡ true) ↔ (xs ≡ ys)
  list_beq_iff xs ys = (eq_of_list_beq xs ys, λ p. rw p (list_beq_refl ys))

  -- `slice::contains`, `HashSet::contains`.
  abbrev pub contains : List A → A → Bool
  contains [] a = false
  contains (x ∷ xs) a = x =? a || contains xs a

  pub contains-append :
      (xs ys : List A) (a : A) → contains (xs ++ ys) a ≡ (contains xs a || contains ys a)
  contains-append [] ys a = refl
  contains-append (x ∷ xs) ys a = ground (arith, contains-append xs ys a)

  pub =?_refl : (a : A) → (a =? a) ≡ true
  =?_refl a = (e.beq_iff a a).1 refl

  -- No item stands twice.
  abbrev pub Distinct : List A → Type 0
  Distinct [] = Unit
  Distinct (x ∷ xs) = (contains xs x ≡ false) × Distinct xs

  abbrev Fresh : List A → A → Type 0
  Fresh xs a = contains xs a ≡ false

  pub Distinct-concat :
      (xs : List A) (a : A) → Distinct xs → contains xs a ≡ false → Distinct (xs ++ a ∷ [])
  Distinct-concat [] a d h = (refl, tt)
  Distinct-concat (x ∷ xs) a (f, d) h = (
    ground (arith, contains-append xs (a ∷ []) x, e.beq_iff a x, e.beq_iff x a, =?_refl a),
    Distinct-concat xs a d (ground arith),
  )

instance abbrev pub list_eq {ℓ} : {A : Type ℓ} ⦃e : Eq A⦄ → Eq (List A)
list_eq = record { beq = list_beq; beq_iff = list_beq_iff }
