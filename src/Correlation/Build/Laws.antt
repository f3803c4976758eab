-- ===== src/Correlation/Build/Laws.antt =====
-- When a draft is built, and what a correlation promises.
use sentinel_osint.Common.{
  ℕ, ◌≤◌, Bool, true, false, not, Option, none, some, List, [], ◌∷◌, map, leb, if◌then◌else◌, any,
  all, is_empty, contains, nat_eq, Result, ok, err, ◌>>=◌, >>=-eq-ok, ok_eq, ◌≡◌, refl, ap, ◌∙◌,
  subst, All, Option-cases, inl, inr,
}
use sentinel_osint.Common.Sorting.{sort}
use sentinel_osint.Common.Sorting.Laws.{
  Ascending, dedup-sort-Ascending, contains-sort, contains-dedup,
}
use sentinel_osint.Common.Text.{is_some}
use sentinel_osint.Indicator.Defs.{Crates}
use sentinel_osint.Evidence.Entities.{Entity}
use sentinel_osint.Evidence.Observations.{ObservationId, Observation}
use sentinel_osint.Correlation.{
  Outside, CorrelationKind, ObservedWindow, CorrelationError, missing_evidence, unknown_entity,
  Draft, Correlation,
}
use sentinel_osint.Correlation.Index.{canonical, EvidenceIndex, observation, knows_entity}
use sentinel_osint.Correlation.Build.{
  or_zero, sorted_ids, least, greatest, window_of, cited, found_or, observations_of, check_subjects,
  window, lowest_confidence, sorted_subjects, complete, build,
}
use sentinel_osint.Correlation.Build.Bounds.{
  least-le, least-none, greatest-le, All-of_map, All-both, if_err, is_ok,
}

pub contains-sorted_ids :
    (ids : List ObservationId) (id : ObservationId) → contains (sorted_ids ids) id ≡ contains ids id
unfolding sorted_ids
contains-sorted_ids ids id = contains-dedup leb (sort leb ids) id ∙ contains-sort leb ids id

pub sorted_ids-Ascending : (ids : List ObservationId) → Ascending (sorted_ids ids)
unfolding sorted_ids
sorted_ids-Ascending ids = dedup-sort-Ascending ids

module _ (lib : Crates) (index : EvidenceIndex lib) where
  -- The observations that the identifiers stand for, in their order.
  abbrev pub Observes : List ObservationId → List (Observation lib) → Type 0
  Observes [] [] = Unit
  Observes (id ∷ ids) (o ∷ os) = (observation lib index id ≡ some o) × Observes ids os
  Observes _ _ = ⊥

  pub observations_of-eq-ok :
      (ids : List ObservationId) (os : List (Observation lib))
      → observations_of lib index ids ≡ ok os
      → Observes ids os
  unfolding observations_of
  observations_of-eq-ok [] [] h = tt
  observations_of-eq-ok [] (o ∷ os) h = absurd (no_more (ok_eq h))
    where
      no_more : ◌≡◌ {A = List (Observation lib)} [] (o ∷ os) → ⊥
      no_more e = cc
  observations_of-eq-ok (id ∷ ids) os h =
      let (o, found, rest) = >>=-eq-ok (found_or lib id (observation lib index id)) _ h in
      let (more, later, whole) = >>=-eq-ok (observations_of lib index ids) _ rest in
      subst (Observes (id ∷ ids)) (ok_eq whole)
        (of_found (observation lib index id) found, observations_of-eq-ok ids more later)
    where
      of_found :
          {o : Observation lib} (r : Option (Observation lib))
          → found_or lib id r ≡ ok o
          → r ≡ some o
      of_found none e = cc
      of_found (some q) e = ap (λ x. some x) (ok_eq e)

  pub is_ok-observations_of :
      (ids : List ObservationId)
      → is_ok (observations_of lib index ids) ≡ all (λ id. is_some (observation lib index id)) ids
  unfolding observations_of
  is_ok-observations_of [] = refl
  is_ok-observations_of (id ∷ ids) = elim (Option-cases (observation lib index id)) [
    | inl e ↦ rw e refl
    | inr (o, e) ↦ rw e (kept o (observations_of lib index ids) (is_ok-observations_of ids))
  ]
    where
      kept :
          (o : Observation lib) {b : Bool} (r : Result CorrelationError (List (Observation lib)))
          → is_ok r ≡ b
          → is_ok (r >>= λ os. ok (o ∷ os)) ≡ b
      kept o (ok os) h = h
      kept o (err e) h = h

-- What a correlation promises about its draft and the investigation.
module _ (lib : Crates) (outside : Outside lib) (index : EvidenceIndex lib) where
  pub record IsCorrelation (d : Draft lib) (c : Correlation lib) : Type 0 where
    pub conflicts : any (λ q. is_empty q.evidence) d.conflicts ≡ false
    pub has_evidence : is_empty c.evidence ≡ false
    pub ascending : Ascending c.evidence
    pub cites : (id : ObservationId) → contains c.evidence id ≡ contains (cited lib d) id
    pub subjects : all (knows_entity lib index) c.subjects ≡ true
    pub observations : List (Observation lib)
    pub observed : Observes lib index c.evidence observations
    pub in_window :
        All
          (λ o. (c.observed.first ≤ o.collected_at) × (o.collected_at ≤ c.observed.last))
          observations
    pub confidence : All (λ o. c.evidence_confidence.value ≤ o.confidence.value) observations

  window-eq-ok :
      (os : List (Observation lib)) (w : ObservedWindow)
      → window lib os ≡ ok w
      → (least (map (λ o. o.collected_at) os) ≡ some w.first)
        × (greatest (map (λ o. o.collected_at) os) ≡ some w.last)
  unfolding window
  window-eq-ok os w h =
      of_options (least (map (λ o. o.collected_at) os)) (greatest (map (λ o. o.collected_at) os)) h
    where
      of_options : (a b : Option ℕ) → window_of a b ≡ ok w → (a ≡ some w.first) × (b ≡ some w.last)
      of_options none b e = absurd (no_window e)
        where
          no_window :
              ◌≡◌ {A = Result CorrelationError ObservedWindow} (err missing_evidence) (ok w) → ⊥
          no_window e = cc
      of_options (some first) none e = cc
      of_options (some first) (some last) e =
          let same = ok_eq e in (ap (λ v. some v.first) same, ap (λ v. some v.last) same)

  check_subjects-eq-ok :
      (subjects : List (Entity lib)) (checked : Unit {0})
      → check_subjects lib index subjects ≡ ok checked
      → all (knows_entity lib index) subjects ≡ true
  unfolding check_subjects
  check_subjects-eq-ok subjects checked h = accepted (all (knows_entity lib index) subjects) h
    where
      accepted : (b : Bool) → (if not b then err unknown_entity else ok tt) ≡ ok checked → b ≡ true
      accepted true e = refl
      accepted false e = cc

  lowest_confidence-le :
      (os : List (Observation lib))
      → All (λ o. (lowest_confidence lib os).value ≤ o.confidence.value) os
  unfolding lowest_confidence
  lowest_confidence-le os = elim (Option-cases (least (map (λ o. o.confidence.value) os))) [
    | inl e ↦
        All-of_map (λ o. o.confidence.value)
          (λ n. (or_zero (least (map (λ o. o.confidence.value) os))).value ≤ n) os
          (least-none _ (map (λ o. o.confidence.value) os) e)
    | inr (m, e) ↦ rw e (
        All-of_map (λ o. o.confidence.value) (λ n. m ≤ n) os
          (least-le (map (λ o. o.confidence.value) os) m e))
  ]

  build_done :
      (d : Draft lib) (kind : CorrelationKind) (os : List (Observation lib)) (w : ObservedWindow)
      → any (λ q. is_empty q.evidence) d.conflicts ≡ false
      → is_empty (sorted_ids (cited lib d)) ≡ false
      → observations_of lib index (sorted_ids (cited lib d)) ≡ ok os
      → all (knows_entity lib index) (sorted_subjects lib outside d.subjects) ≡ true
      → window lib os ≡ ok w
      → IsCorrelation d (complete lib outside d kind (sorted_ids (cited lib d)) os w)
  unfolding complete
  build_done d kind os w no_empty nonempty found known in_time = record {
    conflicts = no_empty;
    has_evidence = nonempty;
    ascending = sorted_ids-Ascending (cited lib d);
    cites = contains-sorted_ids (cited lib d);
    subjects = known;
    observations = os;
    observed = observations_of-eq-ok lib index (sorted_ids (cited lib d)) os found;
    in_window =
        All-both (λ o. w.first ≤ o.collected_at) (λ o. o.collected_at ≤ w.last) os
          (All-of_map (λ o. o.collected_at) (λ n. w.first ≤ n) os
            (least-le (map (λ o. o.collected_at) os) w.first (window-eq-ok os w in_time).0))
          (All-of_map (λ o. o.collected_at) (λ n. n ≤ w.last) os
            (greatest-le (map (λ o. o.collected_at) os) w.last (window-eq-ok os w in_time).1));
    confidence = lowest_confidence-le os;
  }

  -- The parts of a correlation that are those of its draft.
  pub build-parts :
      (d : Draft lib) (kind : CorrelationKind) (c : Correlation lib)
      → build lib outside d kind index ≡ ok c
      → (c.kind ≡ kind)
        × (c.subjects ≡ sorted_subjects lib outside d.subjects)
        × (c.links ≡ canonical lib outside d.links)
  unfolding build
  build-parts d kind c h =
      let evidence = sorted_ids (cited lib d) in
      let (_, tested) = if_err (any (λ q. is_empty q.evidence) d.conflicts) missing_evidence _ h in
      let (_, rest) = if_err (is_empty evidence) missing_evidence _ tested in
      let (os, _, checking) = >>=-eq-ok (observations_of lib index evidence) _ rest in
      let (_, _, timing) =
        >>=-eq-ok (check_subjects lib index (sorted_subjects lib outside d.subjects)) _ checking in
      let (w, _, whole) = >>=-eq-ok (window lib os) _ timing in
      subst
        (λ c.
          (c.kind ≡ kind)
          × (c.subjects ≡ sorted_subjects lib outside d.subjects)
          × (c.links ≡ canonical lib outside d.links))
        (ok_eq whole) (refl, refl, refl)

  -- A correlation that `build` returns has no conflict without evidence, cites exactly what its draft
  -- cites, at least one observation, in ascending order and each once, its subjects and what it cites
  -- are those of the index, the observations lie in its window, and its confidence is at most theirs.
  pub build-IsCorrelation :
      (d : Draft lib) (kind : CorrelationKind) (c : Correlation lib)
      → build lib outside d kind index ≡ ok c
      → IsCorrelation d c
  unfolding build
  build-IsCorrelation d kind c h =
      let evidence = sorted_ids (cited lib d) in
      let (no_empty, tested) =
        if_err (any (λ q. is_empty q.evidence) d.conflicts) missing_evidence _ h in
      let (nonempty, rest) = if_err (is_empty evidence) missing_evidence _ tested in
      let (os, found, checking) = >>=-eq-ok (observations_of lib index evidence) _ rest in
      let (checked, accepted, timing) =
        >>=-eq-ok (check_subjects lib index (sorted_subjects lib outside d.subjects)) _ checking in
      let (w, in_time, whole) = >>=-eq-ok (window lib os) _ timing in
      subst (IsCorrelation d) (ok_eq whole) (
        build_done d kind os w no_empty nonempty found
          (check_subjects-eq-ok (sorted_subjects lib outside d.subjects) checked accepted) in_time)
