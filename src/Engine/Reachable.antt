-- ===== src/Engine/Reachable.antt =====
-- The states that a run goes through, as a step relation on what the runtime reports, and how an
-- invariant of the steps holds of every state.
use sentinel_osint.Common.{
  ℕ, suc, Bool, true, Option, none, some, List, [], ◌∷◌, if◌then◌else◌, is_empty, nat_eq, contains,
  ◌≡◌, ◌⊎◌, inl, inr, refl, arith, Bool-cases, All,
}
use sentinel_osint.Indicator.Defs.{Crates}
use sentinel_osint.Indicator.Policy.{Indicator}
use sentinel_osint.Evidence.Observations.{Timestamp}
use sentinel_osint.Evidence.Relationships.Laws.{IsRelationship}
use sentinel_osint.Investigation.{SourceOutcome}
use sentinel_osint.Engine.Collectors.{Collection}
use sentinel_osint.Engine.State.{
  Engine, Run, PendingTask, TaskId, TaskOutput, TaskOutcome, collected, collector_error,
  source_timeout,
}
use sentinel_osint.Engine.Schedule.{consider_pivots}
use sentinel_osint.Engine.Execute.{
  merge, find_task, without_task, without_id, record_outcome, finish_task, complete_task, complete,
  crash_task, crashed, cancel_remaining, Event, requested, joined, panicked, elapsed, join,
  take_request, drive,
}

module _ (lib : Crates) (engine : Engine lib) where
  -- Collectors build relationships with `Relationship::new`.
  abbrev pub ValidOutcome : TaskOutcome lib → Type 0
  ValidOutcome (collected c) = All (IsRelationship lib) c.relationships
  ValidOutcome _ = Unit

  abbrev pub ValidEvent : Event lib engine → Type 0
  ValidEvent (joined id output) = ValidOutcome output.outcome
  ValidEvent _ = Unit

  -- The states that the loop of `execute` can reach, with the number of tasks joined so far.
  pub data Reachable (first : Run lib) : ℕ → Run lib → Type 0 where
    begun : Reachable first 0 first
    requests :
        {n : ℕ} {run : Run lib}
        → Reachable first n run
        → Reachable first n (take_request lib engine run)
    completes :
        {n : ℕ} {run : Run lib} (id : TaskId) (output : TaskOutput lib)
        → contains run.tasks id ≡ true
        → ValidOutcome output.outcome
        → Reachable first n run
        → Reachable first (suc n) (complete lib engine id output (join lib engine id run))
    crashes :
        {n : ℕ} {run : Run lib} (id : TaskId)
        → contains run.tasks id ≡ true
        → Reachable first n run
        → Reachable first (suc n) (crashed lib engine id (join lib engine id run))

  abbrev pub taken : TaskId → PendingTask lib → Run lib → Run lib
  taken id task run = record run {
    tasks = without_id lib run.tasks id;
    pending = without_task lib run.pending task.id;
  }

  -- `P n` holds after `n` joins; `Q n task` while the joined task is being dealt with.
  pub record Invariant (P : ℕ → Run lib → Type 0) (Q : ℕ → PendingTask lib → Run lib → Type 0)
      : Type 0 where
    pub request : (n : ℕ) (run : Run lib) → P n run → P n (take_request lib engine run)
    pub takes :
        (n : ℕ) (id : TaskId) (task : PendingTask lib) (run : Run lib)
        → find_task lib run.pending id ≡ some task
        → P n run
        → Q n task (taken id task run)
    pub tracked :
        (n : ℕ) (id : TaskId) (run : Run lib)
        → contains run.tasks id ≡ true
        → find_task lib run.pending id ≡ none
        → P n run
        → P (suc n) (join lib engine id run)
    pub merges :
        (n : ℕ) (task : PendingTask lib) (c : Collection lib) (run : Run lib)
        → All (IsRelationship lib) c.relationships
        → Q n task run
        → Q n task (merge lib c run)
    pub pivots :
        (n : ℕ) (task : PendingTask lib) (is : List (Indicator lib)) (depth : ℕ) (run : Run lib)
        → Q n task run
        → Q n task (consider_pivots lib engine is depth run)
    pub reads :
        (n : ℕ) (task : PendingTask lib) (run : Run lib)
        → Q n task run
        → Q n task (record run { readings = suc run.readings })
    pub records :
        (n : ℕ) (task : PendingTask lib) (outcome : SourceOutcome) (from to : Timestamp)
        (run : Run lib)
        → Q n task run
        → P (suc n) (record_outcome lib task outcome from to run)

  module _ (P : ℕ → Run lib → Type 0) (Q : ℕ → PendingTask lib → Run lib → Type 0)
      (inv : Invariant P Q) where
    finish_task_lem :
        (n : ℕ) (outcome : TaskOutcome lib) (task : PendingTask lib) (from to : Timestamp)
        (run : Run lib)
        → ValidOutcome outcome
        → Q n task run
        → P (suc n) (finish_task lib engine outcome task from to run)
    finish_task_lem n (collected c) task from to run v q =
        inv.records n task _ from to _
          (inv.pivots n task c.pivots task.depth (merge lib c run) (inv.merges n task c run v q))
    finish_task_lem n (collector_error e) task from to run v q = inv.records n task _ from to run q
    finish_task_lem n source_timeout task from to run v q = inv.records n task _ from to run q

    complete_lem :
        (n : ℕ) (id : TaskId) (output : TaskOutput lib) (run : Run lib)
        → contains run.tasks id ≡ true
        → ValidOutcome output.outcome
        → P n run
        → P (suc n) (complete lib engine id output (join lib engine id run))
    unfolding complete
    complete_lem n id output run m v p = by_task (find_task lib run.pending id) refl
      where
        by_task :
            (o : Option (PendingTask lib))
            → find_task lib run.pending id ≡ o
            → P (suc n) (complete_task lib engine o output (join lib engine id run))
        by_task none e = inv.tracked n id run m e p
        by_task (some task) e =
            finish_task_lem n output.outcome task output.started_at output.finished_at
              (taken id task run) v (inv.takes n id task run e p)

    crashed_lem :
        (n : ℕ) (id : TaskId) (run : Run lib)
        → contains run.tasks id ≡ true
        → P n run
        → P (suc n) (crashed lib engine id (join lib engine id run))
    unfolding crashed
    crashed_lem n id run m p = by_task (find_task lib run.pending id) refl
      where
        by_task :
            (o : Option (PendingTask lib))
            → find_task lib run.pending id ≡ o
            → P (suc n) (crash_task lib engine o (join lib engine id run))
        by_task none e = inv.tracked n id run m e p
        by_task (some task) e =
            inv.records n task _ _ _ _
              (inv.reads n task (taken id task run) (inv.takes n id task run e p))

    pub Reachable-Invariant :
        {first : Run lib} {n : ℕ} {run : Run lib} → P 0 first → Reachable first n run → P n run
    Reachable-Invariant p begun = p
    Reachable-Invariant p (requests r) = inv.request _ _ (Reachable-Invariant p r)
    Reachable-Invariant p (completes id output m v r) =
        complete_lem _ id output _ m v (Reachable-Invariant p r)
    Reachable-Invariant p (crashes id m r) = crashed_lem _ id _ m (Reachable-Invariant p r)

  -- How the loop ends: no task is left, or the deadline has passed.
  pub record Ended (first last : Run lib) : Type 0 where
    pub joins : ℕ
    pub before : Run lib
    pub reached : Reachable first joins before
    pub ending :
        ((before.tasks ≡ []) × (last ≡ before)) ⊎ (last ≡ cancel_remaining lib engine before)

  no_tasks : (ids : List TaskId) → is_empty ids ≡ true → ids ≡ []
  no_tasks [] h = refl
  no_tasks (x ∷ xs) h = cc

  all_joined :
      (first run last : Run lib) (n : ℕ) (rest : Option (Run lib))
      → Reachable first n run
      → (if is_empty run.tasks then some run else rest) ≡ some last
      → Ended first last ⊎ (rest ≡ some last)
  all_joined first run last n rest r e = elim (Bool-cases (is_empty run.tasks)) [
    | inl y ↦ inl (record {
      joins = n;
      before = run;
      reached = r;
      ending = inl (no_tasks run.tasks y, ground arith);
    })
    | inr m ↦ inr (ground arith)
  ]

  possible :
      (known : Bool) (rest : Option (Run lib)) (last : Run lib)
      → (if known then rest else none) ≡ some last
      → (known ≡ true) × (rest ≡ some last)
  possible known rest last e = ground arith

  pub drive-Ended :
      (first last : Run lib) (events : List (Event lib engine)) (run : Run lib) (n : ℕ)
      → Reachable first n run
      → All ValidEvent events
      → drive lib engine events run ≡ some last
      → Ended first last
  drive-Ended first last [] run n r v e = elim (all_joined first run last n none r e) [
    | inl done ↦ done
    | inr never ↦ absurd (ground arith)
  ]
  drive-Ended first last (requested ∷ events) run n r v e =
      elim (all_joined first run last n _ r e) [
        | inl done ↦ done
        | inr more ↦
            drive-Ended first last events (take_request lib engine run) n (requests r) v.1 more
      ]
  drive-Ended first last (joined id output ∷ events) run n r v e =
      elim (all_joined first run last n _ r e) [
        | inl done ↦ done
        | inr more ↦
            let (m, rest) = possible (contains run.tasks id) _ last more in
            drive-Ended first last events (complete lib engine id output (join lib engine id run))
              (suc n) (completes id output m v.0 r) v.1 rest
      ]
  drive-Ended first last (panicked id ∷ events) run n r v e =
      elim (all_joined first run last n _ r e) [
        | inl done ↦ done
        | inr more ↦
            let (m, rest) = possible (contains run.tasks id) _ last more in
            drive-Ended first last events (crashed lib engine id (join lib engine id run)) (suc n)
              (crashes id m r) v.1 rest
      ]
  drive-Ended first last (elapsed ∷ events) run n r v e = elim (all_joined first run last n _ r e) [
    | inl done ↦ done
    | inr more ↦ record { joins = n; before = run; reached = r; ending = inr (ground arith) }
  ]
