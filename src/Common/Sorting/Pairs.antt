-- ===== src/Common/Sorting/Pairs.antt =====
-- Relations that hold between every two items of a list.
use mathlib.Core.Bool.{Bool}
use mathlib.Core.List.{List, [], ◌∷◌, map}
use Prim.Native.Nat.{ℕ, zero, suc}
use sentinel_osint.Common.Tests.{Bool-cases}
use mathlib.Core.Logic.{inl, inr}
use sentinel_osint.Common.Lists.{All, All-filter, All-take, take, filter}
use sentinel_osint.Common.Sorting.{insert, sort}
use sentinel_osint.Common.Sorting.Laws.{All-insert, All-sort}

-- An item is related to all the later ones.
abbrev pub AllPairs : {A : Type 0} → (A → A → Type 0) → List A → Type 0
AllPairs R [] = Unit
AllPairs R (x ∷ xs) = All (R x) xs × AllPairs R xs

module _ {A : Type 0} (R : A → A → Type 0) where
  pub AllPairs-filter : (f : A → Bool) (xs : List A) → AllPairs R xs → AllPairs R (filter f xs)
  AllPairs-filter f [] h = tt
  AllPairs-filter f (x ∷ xs) (h, d) = elim (Bool-cases (f x)) [
    | inl y ↦ rw y (All-filter (R x) f xs h, AllPairs-filter f xs d)
    | inr n ↦ rw n (AllPairs-filter f xs d)
  ]

  pub AllPairs-take : (n : ℕ) (xs : List A) → AllPairs R xs → AllPairs R (take n xs)
  AllPairs-take zero xs d = tt
  AllPairs-take (suc n) [] d = tt
  AllPairs-take (suc n) (x ∷ xs) (h, d) = (All-take (R x) n xs h, AllPairs-take n xs d)

  module _ (symmetric : (a b : A) → R a b → R b a) (le : A → A → Bool) where
    AllPairs-insert :
        (x : A) (xs : List A) → All (R x) xs → AllPairs R xs → AllPairs R (insert le x xs)
    AllPairs-insert x [] h d = (tt, tt)
    AllPairs-insert x (y ∷ ys) (r, h) (k, d) = elim (Bool-cases (le x y)) [
      | inl l ↦ rw l ((r, h), (k, d))
      | inr n ↦ rw n (All-insert (R y) le x ys (symmetric x y r) k, AllPairs-insert x ys h d)
    ]

    pub AllPairs-sort : (xs : List A) → AllPairs R xs → AllPairs R (sort le xs)
    unfolding sort
    AllPairs-sort [] d = tt
    AllPairs-sort (x ∷ xs) (h, d) =
        AllPairs-insert x (sort le xs) (All-sort (R x) le xs h) (AllPairs-sort xs d)

pub AllPairs-map :
    {A B : Type 0} (R : B → B → Type 0) (f : A → B) (xs : List A)
    → AllPairs (λ a b. R (f a) (f b)) xs
    → AllPairs R (map f xs)
AllPairs-map R f [] d = tt
AllPairs-map R f (x ∷ xs) (h, d) = (mapped xs h, AllPairs-map R f xs d)
  where
    mapped : (ys : List _) → All (λ b. R (f x) (f b)) ys → All (R (f x)) (map f ys)
    mapped [] h = tt
    mapped (y ∷ ys) (r, h) = (r, mapped ys h)
