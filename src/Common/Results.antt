-- ===== src/Common/Results.antt =====
-- Rust's `Result`, and the `?` operator as a bind.
use mathlib.Core.Path.{◌≡◌, refl}

pub data Result {ℓ κ} (E : Type κ) (A : Type ℓ) : Type (ℓ ⊔ κ) where
  ok : A → Result E A
  err : E → Result E A

module _ {ℓ κ μ} {Error : Type μ} {Value : Type ℓ} {Next : Type κ} where
  infixl 5 ◌>>=◌ ◌>>◌
  -- `m?`, followed by what uses the value.
  abbrev pub ◌>>=◌ : Result Error Value → (Value → Result Error Next) → Result Error Next
  ◌>>=◌ (err why) use_value = err why
  ◌>>=◌ (ok value) use_value = use_value value

  -- `m?;`, where the value is not used.
  abbrev pub ◌>>◌ : Result Error Value → Result Error Next → Result Error Next
  ◌>>◌ m next = m >>= λ unused. next

  -- Where the whole succeeds, the first part did.
  pub >>=-eq-ok :
      (m : Result Error Value) (use_value : Value → Result Error Next) {b : Next}
      → (m >>= use_value) ≡ ok b
      → (a : Value) × (m ≡ ok a) × (use_value a ≡ ok b)
  >>=-eq-ok (err why) use_value h = cc
  >>=-eq-ok (ok value) use_value h = (value, refl, h)

pub ok_eq {ℓ κ} : {E : Type κ} {A : Type ℓ} {a b : A} → ◌≡◌ {A = Result E A} (ok a) (ok b) → a ≡ b
ok_eq h = cc
