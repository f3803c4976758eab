-- ===== src/Common/Sorting/Laws.antt =====
-- What sorting and deduplication keep.
use Prim.Native.Nat.{ℕ, ◌≤◌, ◌<◌}
use mathlib.Core.Path.{◌≡◌, refl, ap}
use mathlib.Core.Logic.{◌⊎◌, inl, inr}
use mathlib.Core.Bool.{Bool, ◌||◌}
use mathlib.Core.List.{List, [], ◌∷◌}
use native.Mathlib.Omega.{arith}
use sentinel_osint.Common.Tests.{Bool-cases, leb, ◌==◌}
use sentinel_osint.Common.Lists.{All, Any, All-map}
use sentinel_osint.Common.Equality.{Eq, ◌=?◌, contains, nat_eq}
use sentinel_osint.Common.Sorting.{insert, sort, dedup_after, dedup}

module _ {ℓ} {A : Type ℓ} ⦃e : Eq A⦄ (le : A → A → Bool) where
  contains-insert :
      (x : A) (xs : List A) (a : A) → contains (insert le x xs) a ≡ (x =? a || contains xs a)
  contains-insert x [] a = refl
  contains-insert x (y ∷ ys) a = ground (arith, contains-insert x ys a)

  pub contains-sort : (xs : List A) (a : A) → contains (sort le xs) a ≡ contains xs a
  unfolding sort
  contains-sort [] a = refl
  contains-sort (x ∷ xs) a = ground (arith, contains-insert x (sort le xs) a, contains-sort xs a)

  contains-dedup_after :
      (last : A) (xs : List A) (a : A)
      → (last =? a || contains (dedup_after ◌=?◌ last xs) a) ≡ (last =? a || contains xs a)
  contains-dedup_after last [] a = refl
  contains-dedup_after last (x ∷ xs) a = elim (Bool-cases (x =? last)) [
    | inl y ↦
        let same = ap (λ z. z =? a) ((e.beq_iff x last).0 y) in
        let later = contains-dedup_after last xs a in rw y (ground (arith, same, later))
    | inr n ↦ let later = contains-dedup_after x xs a in rw n (ground (arith, later))
  ]

  pub contains-dedup : (xs : List A) (a : A) → contains (dedup ◌=?◌ xs) a ≡ contains xs a
  unfolding dedup
  contains-dedup [] a = refl
  contains-dedup (x ∷ xs) a = contains-dedup_after x xs a

-- Numbers in ascending order, and in strictly ascending order.
abbrev Ordered : List ℕ → Type 0
Ordered [] = Unit
Ordered (x ∷ xs) = All (λ y. x ≤ y) xs × Ordered xs

abbrev pub Ascending : List ℕ → Type 0
Ascending [] = Unit
Ascending (x ∷ xs) = All (λ y. x < y) xs × Ascending xs

module _ {A : Type 0} (P : A → Type 0) where
  pub All-insert :
      (le : A → A → Bool) (x : A) (xs : List A) → P x → All P xs → All P (insert le x xs)
  All-insert le x [] p h = (p, tt)
  All-insert le x (y ∷ ys) p (q, h) = elim (Bool-cases (le x y)) [
    | inl l ↦ rw l (p, (q, h))
    | inr n ↦ rw n (q, All-insert le x ys p h)
  ]

  pub All-sort : (le : A → A → Bool) (xs : List A) → All P xs → All P (sort le xs)
  unfolding sort
  All-sort le [] h = tt
  All-sort le (x ∷ xs) (p, h) = All-insert le x (sort le xs) p (All-sort le xs h)

  All-dedup_after :
      (same : A → A → Bool) (last : A) (xs : List A) → All P xs → All P (dedup_after same last xs)
  All-dedup_after same last [] h = tt
  All-dedup_after same last (x ∷ xs) (p, h) = elim (Bool-cases (same x last)) [
    | inl y ↦ rw y (All-dedup_after same last xs h)
    | inr n ↦ rw n (p, All-dedup_after same x xs h)
  ]

  pub All-dedup : (same : A → A → Bool) (xs : List A) → All P xs → All P (dedup same xs)
  unfolding dedup
  All-dedup same [] h = tt
  All-dedup same (x ∷ xs) (p, h) = (p, All-dedup_after same x xs h)

module _ {A : Type 0} (P : A → Type 0) (le : A → A → Bool) where
  Any-insert : (x : A) (xs : List A) → P x ⊎ Any P xs → Any P (insert le x xs)
  Any-insert x [] h = h
  Any-insert x (y ∷ ys) h = elim (Bool-cases (le x y)) [
    | inl l ↦ rw l h
    | inr n ↦ rw n (later (Any-insert x ys) h)
  ]
    where
      later :
          (P x ⊎ Any P ys → Any P (insert le x ys))
          → P x ⊎ Any P (y ∷ ys)
          → Any P (y ∷ insert le x ys)
      later f (inl p) = inr (f (inl p))
      later f (inr (inl q)) = inl q
      later f (inr (inr k)) = inr (f (inr k))

  pub Any-sort : (xs : List A) → Any P xs → Any P (sort le xs)
  unfolding sort
  Any-sort [] h = h
  Any-sort (x ∷ xs) (inl p) = Any-insert x (sort le xs) (inl p)
  Any-sort (x ∷ xs) (inr h) = Any-insert x (sort le xs) (inr (Any-sort xs h))

insert-Ordered : (x : ℕ) (xs : List ℕ) → Ordered xs → Ordered (insert leb x xs)
insert-Ordered x [] o = (tt, tt)
insert-Ordered x (y ∷ ys) (h, o) = elim (Bool-cases (leb x y)) [
  | inl l ↦
      let below : x ≤ y = ground arith in
      rw l ((below, All-map (λ z. y ≤ z) (λ z. x ≤ z) (λ z q. omega arith) ys h), (h, o))
  | inr n ↦
      let below : y ≤ x = ground arith in
      rw n (All-insert (λ z. y ≤ z) leb x ys below h, insert-Ordered x ys o)
]

sort-Ordered : (xs : List ℕ) → Ordered (sort leb xs)
unfolding sort
sort-Ordered [] = tt
sort-Ordered (x ∷ xs) = insert-Ordered x (sort leb xs) (sort-Ordered xs)

dedup_after-Ascending :
    (last : ℕ) (xs : List ℕ)
    → All (λ y. last ≤ y) xs
    → Ordered xs
    → All (λ y. last < y) (dedup_after ◌==◌ last xs) × Ascending (dedup_after ◌==◌ last xs)
dedup_after-Ascending last [] h o = (tt, tt)
dedup_after-Ascending last (x ∷ xs) (l, h) (k, o) = elim (Bool-cases (x == last)) [
  | inl y ↦ rw y (dedup_after-Ascending last xs h o)
  | inr n ↦
      let above : last < x = ground arith in
      let (later, rest) = dedup_after-Ascending x xs k o in
      rw n (
        (
          above,
          All-map (λ z. x < z) (λ z. last < z) (λ z q. omega arith) (dedup_after ◌==◌ x xs) later,
        ),
        (later, rest),
      )
]

-- Sorting and removing repetitions leaves the numbers in strictly ascending order.
pub dedup-sort-Ascending : (xs : List ℕ) → Ascending (dedup ◌==◌ (sort leb xs))
unfolding dedup
dedup-sort-Ascending xs = of_ordered (sort leb xs) (sort-Ordered xs)
  where
    of_ordered : (ys : List ℕ) → Ordered ys → Ascending (dedup ◌==◌ ys)
    of_ordered [] o = tt
    of_ordered (y ∷ ys) (h, o) = dedup_after-Ascending y ys h o
