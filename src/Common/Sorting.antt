-- ===== src/Common/Sorting.antt =====
-- `sort`, `sort_by` and `dedup_by` of the standard library: a stable sort, and the removal of items
-- that are the same as the last one kept.
pub mod Laws
pub mod Pairs
use mathlib.Core.Bool.{Bool, true, false}
use mathlib.Core.List.{List, [], ◌∷◌}
use sentinel_osint.Common.Tests.{if◌then◌else◌}

module _ {ℓ} {A : Type ℓ} where
  abbrev pub insert : (A → A → Bool) → A → List A → List A
  insert le x [] = x ∷ []
  insert le x (y ∷ ys) = if le x y then x ∷ y ∷ ys else y ∷ insert le x ys

  -- An item stays before the later ones that compare as equal.
  unfoldable pub sort : (A → A → Bool) → List A → List A
  sort le [] = []
  sort le (x ∷ xs) = insert le x (sort le xs)

  abbrev pub dedup_after : (A → A → Bool) → A → List A → List A
  dedup_after same last [] = []
  dedup_after same last (x ∷ xs) =
      let kept = dedup_after same x xs in
      let skipped = dedup_after same last xs in if same x last then skipped else x ∷ kept

  unfoldable pub dedup : (A → A → Bool) → List A → List A
  dedup same [] = []
  dedup same (x ∷ xs) = x ∷ dedup_after same x xs
