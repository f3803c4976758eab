-- ===== src/Common/Lists.antt =====
-- Lists measured by native numbers, and the tests over lists that Rust's iterators give.
use Prim.Native.Nat.{ℕ, zero, suc, ◌+◌, ◌≤◌, min}
use mathlib.Core.Path.{◌≡◌, refl, ap}
use mathlib.Core.Logic.{◌↔◌, ◌⊎◌, inl, inr}
use mathlib.Core.Bool.{false≢true, Bool, true, false, ◌&&◌, ◌||◌}
use mathlib.Core.List.{List, [], ◌∷◌, ◌++◌}
use native.Mathlib.Omega.{arith}
use sentinel_osint.Common.Tests.{or_iff, if◌then◌else◌, Bool-cases}

module _ {ℓ} {A : Type ℓ} where
  abbrev pub length : List A → ℕ
  length [] = 0
  length (x ∷ xs) = suc (length xs)

  abbrev pub take : ℕ → List A → List A
  take zero xs = []
  take (suc n) [] = []
  take (suc n) (x ∷ xs) = x ∷ take n xs

  abbrev pub drop : ℕ → List A → List A
  drop zero xs = xs
  drop (suc n) [] = []
  drop (suc n) (x ∷ xs) = drop n xs

  -- `Iterator::all`, `any` and `filter` with a Boolean test.
  abbrev pub all : (A → Bool) → List A → Bool
  all p [] = true
  all p (x ∷ xs) = p x && all p xs

  abbrev pub any : (A → Bool) → List A → Bool
  any p [] = false
  any p (x ∷ xs) = p x || any p xs

  abbrev pub filter : (A → Bool) → List A → List A
  filter p [] = []
  filter p (x ∷ xs) = if p x then x ∷ filter p xs else filter p xs

  abbrev pub is_empty : List A → Bool
  is_empty [] = true
  is_empty (x ∷ xs) = false

  pub length-append : (xs ys : List A) → length (xs ++ ys) ≡ length xs + length ys
  length-append [] ys = omega arith
  length-append (x ∷ xs) ys = omega (arith, length-append xs ys)

  pub length-take : (n : ℕ) (xs : List A) → length (take n xs) ≡ min n (length xs)
  length-take zero xs = omega arith
  length-take (suc n) [] = omega arith
  length-take (suc n) (x ∷ xs) = omega (arith, length-take n xs)

  pub take-append-drop : (n : ℕ) (xs : List A) → take n xs ++ drop n xs ≡ xs
  take-append-drop zero xs = refl
  take-append-drop (suc n) [] = refl
  take-append-drop (suc n) (x ∷ xs) = ap (◌∷◌ x) (take-append-drop n xs)

  pub length-filter-le : (p : A → Bool) (xs : List A) → length (filter p xs) ≤ length xs
  length-filter-le p [] = omega arith
  length-filter-le p (x ∷ xs) = ground (arith, length-filter-le p xs)

-- A predicate that holds of every item.
module _ {ℓ κ} {A : Type ℓ} (P : A → Type κ) where
  abbrev pub All : List A → Type κ
  All [] = Unit
  All (x ∷ xs) = P x × All xs

  pub All-append : (xs ys : List A) → All xs → All ys → All (xs ++ ys)
  All-append [] ys h k = k
  All-append (x ∷ xs) ys (p, h) k = (p, All-append xs ys h k)

  pub All-filter : (p : A → Bool) (xs : List A) → All xs → All (filter p xs)
  All-filter p [] h = tt
  All-filter p (x ∷ xs) (q, h) = elim (Bool-cases (p x)) [
    | inl y ↦ rw y (q, All-filter p xs h)
    | inr n ↦ rw n (All-filter p xs h)
  ]

  -- The Boolean test and the predicate.
  pub all_of_All :
      (p : A → Bool) → ((x : A) → P x → p x ≡ true) → (xs : List A) → All xs → all p xs ≡ true
  all_of_All p f [] h = refl
  all_of_All p f (x ∷ xs) (q, h) = rw (f x q) (all_of_All p f xs h)

  pub All-take : (n : ℕ) (xs : List A) → All xs → All (take n xs)
  All-take zero xs h = tt
  All-take (suc n) [] h = tt
  All-take (suc n) (x ∷ xs) (p, h) = (p, All-take n xs h)

module _ {ℓ κ μ} {A : Type ℓ} (P : A → Type κ) (Q : A → Type μ) (f : (x : A) → P x → Q x) where
  pub All-map : (xs : List A) → All P xs → All Q xs
  All-map [] h = tt
  All-map (x ∷ xs) (p, h) = (f x p, All-map xs h)

-- A predicate that holds of some item.
module _ {ℓ} {A : Type ℓ} (P : A → Type 0) where
  abbrev pub Any : List A → Type 0
  Any [] = ⊥
  Any (x ∷ xs) = P x ⊎ Any xs

module _ {ℓ} {A : Type ℓ} (P : A → Type 0) where
  pub Any-append : (xs ys : List A) → Any P xs ⊎ Any P ys → Any P (xs ++ ys)
  Any-append [] ys (inl h) = elim h [ ]
  Any-append [] ys (inr h) = h
  Any-append (x ∷ xs) ys (inl (inl h)) = inl h
  Any-append (x ∷ xs) ys (inl (inr h)) = inr (Any-append xs ys (inl h))
  Any-append (x ∷ xs) ys (inr h) = inr (Any-append xs ys (inr h))

  pub Any-filter :
      (p : A → Bool) → ((x : A) → P x → p x ≡ true) → (xs : List A) → Any P xs → Any P (filter p xs)
  Any-filter p f [] h = h
  Any-filter p f (x ∷ xs) (inl h) = rw (f x h) (inl h)
  Any-filter p f (x ∷ xs) (inr h) = elim (Bool-cases (p x)) [
    | inl y ↦ rw y (inr (Any-filter p f xs h))
    | inr n ↦ rw n (Any-filter p f xs h)
  ]

module _ {ℓ} {A : Type ℓ} (p : A → Bool) (P : A → Type 0) (h : (x : A) → (p x ≡ true) ↔ P x) where
  pub any_iff : (xs : List A) → (any p xs ≡ true) ↔ Any P xs
  any_iff [] = (λ e. absurd (false≢true e), λ e. elim e [ ])
  any_iff (x ∷ xs) = or_iff (p x) (any p xs) (h x) (any_iff xs)

module _ {ℓ} {A : Type ℓ} where
  pub take-all : (n : ℕ) (xs : List A) → length xs ≤ n → take n xs ≡ xs
  take-all zero [] h = refl
  take-all zero (x ∷ xs) h = absurd (omega arith)
  take-all (suc n) [] h = refl
  take-all (suc n) (x ∷ xs) h = ap (◌∷◌ x) (take-all n xs (omega arith))

  pub filter-append :
      (p : A → Bool) (xs ys : List A) → filter p (xs ++ ys) ≡ filter p xs ++ filter p ys
  filter-append p [] ys = refl
  filter-append p (x ∷ xs) ys = elim (Bool-cases (p x)) [
    | inl y ↦ rw y (ap (◌∷◌ x) (filter-append p xs ys))
    | inr n ↦ rw n (filter-append p xs ys)
  ]

  pub filter-filter :
      (p q : A → Bool) (xs : List A) → filter q (filter p xs) ≡ filter (λ x. p x && q x) xs
  filter-filter p q [] = refl
  filter-filter p q (x ∷ xs) = elim (Bool-cases (p x)) [
    | inr n ↦ rw n (filter-filter p q xs)
    | inl y ↦ elim (Bool-cases (q x)) [
      | inl z ↦ rw (y, z) (ap (◌∷◌ x) (filter-filter p q xs))
      | inr n ↦ rw (y, n) (filter-filter p q xs)
    ]
  ]
