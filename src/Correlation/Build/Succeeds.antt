-- ===== src/Correlation/Build/Succeeds.antt =====
-- When a draft is built.
use sentinel_osint.Common.{
  ℕ, Bool, true, false, not, ◌&&◌, Option, none, some, List, [], ◌∷◌, map, ◌==◌, leb, if◌then◌else◌,
  any, all, is_empty, nat_eq, Result, ok, err, ◌>>=◌, ◌≡◌, refl, sym, ap, ◌∙◌, arith, Bool-cases,
  inl, inr,
}
use sentinel_osint.Common.Sorting.{insert, sort, dedup}
use sentinel_osint.Common.Text.{is_some}
use sentinel_osint.Indicator.Defs.{Crates}
use sentinel_osint.Evidence.Observations.{ObservationId, Observation}
use sentinel_osint.Correlation.{
  Outside, CorrelationKind, ObservedWindow, CorrelationError, unknown_entity, Draft, Correlation,
}
use sentinel_osint.Correlation.Index.{EvidenceIndex, observation, knows_entity}
use sentinel_osint.Correlation.Build.{
  or_least, or_greatest, sorted_ids, least, greatest, window_of, cited, observations_of,
  check_subjects, window, sorted_subjects, complete, build,
}
use sentinel_osint.Correlation.Build.Bounds.{is_ok}
use sentinel_osint.Correlation.Build.Laws.{Observes, observations_of-eq-ok, is_ok-observations_of}

insert-nonempty : (le : ℕ → ℕ → Bool) (x : ℕ) (ys : List ℕ) → is_empty (insert le x ys) ≡ false
insert-nonempty le x [] = refl
insert-nonempty le x (y ∷ ys) = ground arith

is_empty-sorted_ids : (ids : List ObservationId) → is_empty (sorted_ids ids) ≡ is_empty ids
unfolding sorted_ids
is_empty-sorted_ids [] = refl
is_empty-sorted_ids (id ∷ ids) =
    kept (insert leb id (sort leb ids)) (insert-nonempty leb id (sort leb ids))
  where
    kept : (ys : List ℕ) → is_empty ys ≡ false → is_empty (dedup ◌==◌ ys) ≡ false
    kept [] h = h
    kept (y ∷ ys) h = refl

module _ (lib : Crates) (outside : Outside lib) (index : EvidenceIndex lib) where
  unfoldable pub is_buildable : Draft lib → Bool
  unfolding sorted_ids sorted_subjects knows_entity
  is_buildable d =
      not (any (λ q. is_empty q.evidence) d.conflicts)
      && not (is_empty (cited lib d))
      && all (λ id. is_some (observation lib index id)) (sorted_ids (cited lib d))
      && all (knows_entity lib index) (sorted_subjects lib outside d.subjects)

  is_ok-window :
      (ids : List ObservationId) (os : List (Observation lib))
      → is_empty ids ≡ false
      → Observes lib index ids os
      → is_ok (window lib os) ≡ true
  unfolding window
  is_ok-window [] os h o = cc
  is_ok-window (id ∷ ids) [] h o = absurd o
  is_ok-window (id ∷ ids) (o ∷ os) h (e, more) =
      both o.collected_at (least (map (λ q. q.collected_at) os))
        (greatest (map (λ q. q.collected_at) os))
    where
      both : (n : ℕ) (a b : Option ℕ) → is_ok (window_of (or_least n a) (or_greatest n b)) ≡ true
      both n none none = refl
      both n none (some b) = refl
      both n (some a) none = refl
      both n (some a) (some b) = refl

  abbrev check : Bool → Result CorrelationError (Unit {0})
  check b = if not b then err unknown_entity else ok tt

  abbrev after_check :
      Draft lib
      → CorrelationKind
      → List (Observation lib)
      → Result CorrelationError (Correlation lib)
  unfolding complete check_subjects window
  after_check d kind os = do
    checked ← check_subjects lib index (sorted_subjects lib outside d.subjects)
    w ← window lib os
    ok (complete lib outside d kind (sorted_ids (cited lib d)) os w)

  is_ok-checked :
      (d : Draft lib) (kind : CorrelationKind) (os : List (Observation lib))
      → is_ok (window lib os) ≡ true
      → is_ok (after_check d kind os)
        ≡ all (knows_entity lib index) (sorted_subjects lib outside d.subjects)
  unfolding after_check
  is_ok-checked d kind os h =
      chain (all (knows_entity lib index) (sorted_subjects lib outside d.subjects)) (window lib os)
        h
    where
      chain :
          (b : Bool) (r : Result CorrelationError ObservedWindow)
          → is_ok r ≡ true
          → is_ok (
              check b >>= λ checked.
              r >>= λ w. ok (complete lib outside d kind (sorted_ids (cited lib d)) os w))
            ≡ b
      chain false r k = refl
      chain true (ok w) k = refl
      chain true (err e) k = cc

  is_ok-found :
      (d : Draft lib) (kind : CorrelationKind)
      (r : Result CorrelationError (List (Observation lib)))
      → observations_of lib index (sorted_ids (cited lib d)) ≡ r
      → is_empty (sorted_ids (cited lib d)) ≡ false
      → is_ok (r >>= λ os. after_check d kind os)
        ≡ (is_ok r && all (knows_entity lib index) (sorted_subjects lib outside d.subjects))
  is_ok-found d kind (err e) h n = refl
  is_ok-found d kind (ok os) h n = is_ok-checked d kind os (
      is_ok-window (sorted_ids (cited lib d)) os n
        (observations_of-eq-ok lib index (sorted_ids (cited lib d)) os h))

  is_ok-tested :
      (d : Draft lib) (kind : CorrelationKind)
      → is_empty (sorted_ids (cited lib d)) ≡ false
      → is_ok (observations_of lib index (sorted_ids (cited lib d)) >>= λ os. after_check d kind os)
        ≡ (all (λ id. is_some (observation lib index id)) (sorted_ids (cited lib d))
            && all (knows_entity lib index) (sorted_subjects lib outside d.subjects))
  is_ok-tested d kind n =
      is_ok-found d kind (observations_of lib index (sorted_ids (cited lib d))) refl n
      ∙ ap (λ b. b && all (knows_entity lib index) (sorted_subjects lib outside d.subjects))
          (is_ok-observations_of lib index (sorted_ids (cited lib d)))

  -- `build` returns a correlation exactly when every conflict of the draft cites something, the draft
  -- cites something, and the index has every observation that it cites and every subject.
  pub is_ok-build :
      (d : Draft lib) (kind : CorrelationKind)
      → is_ok (build lib outside d kind index) ≡ is_buildable d
  unfolding build after_check is_buildable
  is_ok-build d kind = elim (Bool-cases (any (λ q. is_empty q.evidence) d.conflicts)) [
    | inl y ↦ rw y refl
    | inr n ↦ elim (Bool-cases (is_empty (sorted_ids (cited lib d)))) [
      | inl y ↦ rw (n, y, sym (is_empty-sorted_ids (cited lib d)), y) refl
      | inr m ↦ rw (n, sym (is_empty-sorted_ids (cited lib d)), m) (is_ok-tested d kind m)
    ]
  ]
