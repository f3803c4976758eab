-- ===== src/Engine/Accounted.antt =====
-- Every source that a run considers has a status or a task that is not joined yet.
use sentinel_osint.Common.{
  ℕ, Bool, true, false, ◌||◌, some, List, [], ◌∷◌, ◌++◌, ◌==◌, nat_eq, list_eq, list_beq, contains,
  ◌≡◌, refl, sym, subst, ap, ◌∙◌, arith, Bool-cases, inl, inr, Result, ok, err, ◌>>◌,
}
use sentinel_osint.Indicator.Defs.{Crates}
use sentinel_osint.Indicator.Policy.{Indicator}
use sentinel_osint.Evidence.Findings.{Finding}
use sentinel_osint.Evidence.Observations.{SourceId, Timestamp, Observation}
use sentinel_osint.Evidence.Relationships.{ModelError, Relationship}
use sentinel_osint.Investigation.{
  Investigation, SourceStatus, SourceOutcome, add_observation, add_relationship, add_finding,
  ensure_known, new_status, unavailable,
}
use sentinel_osint.Investigation.Operations.{kept_on_error}
use sentinel_osint.Engine.Collectors.{Collection}
use sentinel_osint.Engine.State.{Engine, Run, PendingTask, TaskId}
use sentinel_osint.Engine.Schedule.{report_unavailable, spawn, drop_pivot, visit}
use sentinel_osint.Engine.Execute.{
  add_observations, add_relationships, add_findings, merge, take_request, record_outcome, find_task,
  without_task,
}
use sentinel_osint.Engine.Keeps.{contains-insert, Keeps, consider_pivots-Keeps}
use sentinel_osint.Engine.Reachable.{Invariant}
use sentinel_osint.Engine.Tasks.{find_task-id}

module _ (lib : Crates) where
  abbrev pub status_sources : List (SourceStatus lib) → List SourceId
  status_sources [] = []
  status_sources (s ∷ ss) = s.source ∷ status_sources ss

  abbrev pub task_sources : List (PendingTask lib) → List SourceId
  task_sources [] = []
  task_sources (t ∷ ts) = t.source ∷ task_sources ts

  pub status_sources-append :
      (ss : List (SourceStatus lib)) (s : SourceStatus lib) (id : SourceId)
      → contains (status_sources (ss ++ s ∷ [])) id
        ≡ (contains (status_sources ss) id || list_beq s.source id)
  status_sources-append [] s id = ground arith
  status_sources-append (x ∷ ss) s id = ground (arith, status_sources-append ss s id)

  task_sources-append :
      (ts : List (PendingTask lib)) (t : PendingTask lib) (id : SourceId)
      → contains (task_sources (ts ++ t ∷ [])) id
        ≡ (contains (task_sources ts) id || list_beq t.source id)
  task_sources-append [] t id = ground arith
  task_sources-append (x ∷ ts) t id = ground (arith, task_sources-append ts t id)

  without_task-source :
      (ts : List (PendingTask lib)) (key : TaskId) (task : PendingTask lib) (id : SourceId)
      → find_task lib ts key ≡ some task
      → contains (task_sources ts) id
        ≡ (contains (task_sources (without_task lib ts task.id)) id || list_beq task.source id)
  without_task-source [] key task id e = absurd (ground arith)
  without_task-source (x ∷ ts) key task id e = elim (Bool-cases (x.id == key)) [
    | inl y ↦
        let same : x ≡ task = ground arith in
        let hit : (x.id == task.id) ≡ true = ground (arith, same) in
        rw hit (
          subst
            (λ t.
              contains (task_sources (x ∷ ts)) id
              ≡ (contains (task_sources ts) id || list_beq t.source id))
            same (ground arith))
    | inr n ↦
        let later : find_task lib ts key ≡ some task = ground arith in
        let miss : (x.id == task.id) ≡ false = ground (arith, find_task-id lib ts key task later) in
        rw miss (ground (arith, without_task-source ts key task id later))
  ]

  -- Merging leaves the statuses as they are.
  add_observations-sources :
      (os : List (Observation lib)) (v : Investigation lib)
      → (add_observations lib os v).sources ≡ v.sources
  unfolding add_observation
  add_observations-sources [] v = refl
  add_observations-sources (o ∷ os) v = add_observations-sources os (add_observation lib v o)

  add_relationship-sources :
      (r : Relationship lib) (v : Investigation lib)
      → (kept_on_error v (add_relationship lib v r)).sources ≡ v.sources
  unfolding add_relationship kept_on_error
  add_relationship-sources r v = by_result (ensure_known lib v r.evidence) _
    where
      by_result :
          (m : Result ModelError (Unit {0})) (rs : List (Relationship lib))
          → (kept_on_error v (m >> ok (record v { relationships = rs }))).sources ≡ v.sources
      by_result (ok u) rs = refl
      by_result (err e) rs = refl

  add_finding-sources :
      (f : Finding) (v : Investigation lib)
      → (kept_on_error v (add_finding lib v f)).sources ≡ v.sources
  unfolding add_finding kept_on_error
  add_finding-sources f v = by_result (ensure_known lib v f.evidence) _
    where
      by_result :
          (m : Result ModelError (Unit {0})) (fs : List Finding)
          → (kept_on_error v (m >> ok (record v { findings = fs }))).sources ≡ v.sources
      by_result (ok u) fs = refl
      by_result (err e) fs = refl

  add_relationships-sources :
      (rs : List (Relationship lib)) (v : Investigation lib)
      → (add_relationships lib rs v).sources ≡ v.sources
  add_relationships-sources [] v = refl
  add_relationships-sources (r ∷ rs) v =
      add_relationships-sources rs _ ∙ add_relationship-sources r v

  add_findings-sources :
      (fs : List Finding) (v : Investigation lib) → (add_findings lib fs v).sources ≡ v.sources
  add_findings-sources [] v = refl
  add_findings-sources (f ∷ fs) v = add_findings-sources fs _ ∙ add_finding-sources f v

  merge-sources :
      (c : Collection lib) (run : Run lib)
      → (merge lib c run).investigation.sources ≡ run.investigation.sources
  unfolding merge
  merge-sources c run =
      add_findings-sources c.findings _
      ∙ (add_relationships-sources c.relationships _ ∙ add_observations-sources c.observations _)

  -- The source of the task that is being dealt with counts as accounted for.
  abbrev pub accounts :
      List SourceId → List (SourceStatus lib) → List (PendingTask lib) → SourceId → Bool
  accounts extra statuses pending id =
      contains (status_sources statuses) id
      || contains (task_sources pending) id
      || contains extra id

  abbrev pub Accounted : List SourceId → Run lib → Type 0
  Accounted extra run =
      (id : SourceId)
      → contains run.considered id ≡ true
      → accounts extra run.investigation.sources run.pending id ≡ true

  module _ (engine : Engine lib) where
    reported_lem :
        (extra : List SourceId) (run : Run lib) (source : SourceId) (i : Indicator lib)
        (reason : List ℕ)
        → Accounted extra run
        → Accounted extra (report_unavailable lib engine source i reason run)
    unfolding report_unavailable
    reported_lem extra run source i reason p id h =
        let now : Timestamp = engine.clock run.readings in
        let status : SourceStatus lib = new_status lib source i (unavailable reason) now now in
        by_test status refl
      where
        by_test :
            (status : SourceStatus lib)
            → status.source ≡ source
            → accounts extra (run.investigation.sources ++ status ∷ []) run.pending id ≡ true
        by_test status same = elim (Bool-cases (contains run.considered id)) [
          | inl y ↦
              ground (arith, p id y, status_sources-append run.investigation.sources status id)
          | inr n ↦ ground (
            arith,
            h,
            ap (λ z. list_beq z id) same,
            contains-insert list_eq run.considered source id,
            status_sources-append run.investigation.sources status id,
          )
        ]

    spawned_lem :
        (extra : List SourceId) (run : Run lib) (source : SourceId) (i : Indicator lib) (depth : ℕ)
        → Accounted extra run
        → Accounted extra (spawn lib engine source i depth run)
    unfolding spawn
    spawned_lem extra run source i depth p id h = by_test _ refl
      where
        by_test :
            (task : PendingTask lib)
            → task.source ≡ source
            → accounts extra run.investigation.sources (run.pending ++ task ∷ []) id ≡ true
        by_test task same = elim (Bool-cases (contains run.considered id)) [
          | inl y ↦ ground (arith, p id y, task_sources-append run.pending task id)
          | inr n ↦ ground (
            arith,
            h,
            ap (λ z. list_beq z id) same,
            contains-insert list_eq run.considered source id,
            task_sources-append run.pending task id,
          )
        ]

    pub Accounted-Keeps : (extra : List SourceId) → Keeps lib engine (Accounted extra)
    unfolding drop_pivot visit
    Accounted-Keeps extra = record {
      overflows = λ run n p. p;
      reports = λ run c i depth reason a f p. reported_lem extra run c.id i reason p;
      spawns = λ run c i depth a r v d p. spawned_lem extra run c.id i depth p;
      drops_pivot = λ run i v d p. p;
      visits_pivot = λ run i v d room public p. p;
    }

    recorded_lem :
        (task : PendingTask lib) (outcome : SourceOutcome) (from to : Timestamp) (run : Run lib)
        → Accounted (task.source ∷ []) run
        → Accounted [] (record_outcome lib task outcome from to run)
    unfolding record_outcome
    recorded_lem task outcome from to run p id h =
        let status : SourceStatus lib = new_status lib task.source task.indicator outcome from to in
        ground (arith, p id h, status_sources-append run.investigation.sources status id)

    pub Accounted-Invariant :
        Invariant lib engine (λ n. Accounted []) (λ n task. Accounted (task.source ∷ []))
    unfolding take_request merge
    Accounted-Invariant = record {
      request = λ n run p. p;
      takes = λ n key task run e p id h.
          ground (arith, p id h, without_task-source run.pending key task id e);
      tracked = λ n id run m e p. p;
      merges = λ n task c run v p id h.
          subst (λ ss. accounts (task.source ∷ []) ss run.pending id ≡ true)
            (sym (merge-sources c run)) (p id h);
      pivots = λ n task is depth run p.
          consider_pivots-Keeps lib engine (Accounted (task.source ∷ []))
            (Accounted-Keeps (task.source ∷ [])) is depth run p;
      reads = λ n task run p. p;
      records = λ n task outcome from to run p. recorded_lem task outcome from to run p;
    }
