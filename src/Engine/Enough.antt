-- ===== src/Engine/Enough.antt =====
-- The loop of `execute` returns once as many tasks are joined as the limits allow.
use sentinel_osint.Common.{
  ℕ, suc, ◌+◌, ◌*◌, ◌≤◌, Bool, true, false, Option, none, some, List, [], ◌∷◌, if◌then◌else◌,
  length, is_empty, contains, nat_eq, ◌≡◌, refl, arith, All, ok,
}
use sentinel_osint.Indicator.Defs.{Crates}
use sentinel_osint.Indicator.Policy.{Indicator, ensure_investigable}
use sentinel_osint.Investigation.{Investigation, new}
use sentinel_osint.Investigation.Integrity.{IsIntact}
use sentinel_osint.Investigation.Operations.{new-IsIntact, new_public}
use sentinel_osint.Engine.State.{Engine, Run, TaskId}
use sentinel_osint.Engine.Execute.{
  complete, crashed, take_request, join, Event, requested, joined, panicked, elapsed, drive,
  wrap_up, execute, investigate,
}
use sentinel_osint.Engine.Reachable.{Reachable, begun, requests, completes, crashes, ValidEvent}
use sentinel_osint.Engine.Outcome.{Reachable-bounded, first_run}

module _ (lib : Crates) (engine : Engine lib) where
  -- What the runtime can report: only tasks of the set are joined.
  abbrev pub Possible : List (Event lib engine) → Run lib → Type 0
  Possible [] run = Unit
  Possible (requested ∷ events) run = Possible events (take_request lib engine run)
  Possible (joined id output ∷ events) run =
      (contains run.tasks id ≡ true)
      × Possible events (complete lib engine id output (join lib engine id run))
  Possible (panicked id ∷ events) run =
      (contains run.tasks id ≡ true)
      × Possible events (crashed lib engine id (join lib engine id run))
  Possible (elapsed ∷ events) run = Unit

  abbrev pub most_joins : ℕ
  most_joins = length engine.collectors * (1 + engine.config.pivots.max_entities)

  -- The deadline passes, or every task that can be started is joined.
  abbrev pub Complete : List (Event lib engine) → ℕ → Type 0
  Complete [] n = most_joins ≤ n
  Complete (requested ∷ events) n = Complete events n
  Complete (joined id output ∷ events) n = Complete events (suc n)
  Complete (panicked id ∷ events) n = Complete events (suc n)
  Complete (elapsed ∷ events) n = Unit

  abbrev Returns : Option (Run lib) → Type 0
  Returns o = (run : Run lib) × (o ≡ some run)

  unless_empty :
      (ids : List TaskId) (run : Run lib) (rest : Option (Run lib))
      → Returns rest
      → Returns (if is_empty ids then some run else rest)
  unless_empty [] run rest r = (run, refl)
  unless_empty (x ∷ ids) run rest r = r

  when_known :
      (known : Bool) (rest : Option (Run lib))
      → known ≡ true
      → Returns rest
      → Returns (if known then rest else none)
  when_known true rest k r = r
  when_known false rest k r = cc

  drive-Returns :
      (target : Indicator lib) (v : Investigation lib)
      → IsIntact lib v
      → ensure_investigable lib target ≡ ok tt
      → (events : List (Event lib engine)) (run : Run lib) (n : ℕ)
      → Reachable lib engine (first_run lib engine target v) n run
      → All (ValidEvent lib engine) events
      → Possible events run
      → Complete events n
      → Returns (drive lib engine events run)
  drive-Returns target v i public [] run n r h p c =
      by_tasks run.tasks (omega (arith, Reachable-bounded lib engine target v n run i public r))
    where
      by_tasks :
          (ids : List TaskId) → length ids ≤ 0 → Returns (if is_empty ids then some run else none)
      by_tasks [] z = (run, refl)
      by_tasks (x ∷ ids) z = absurd (omega arith)
  drive-Returns target v i public (requested ∷ events) run n r h p c =
      unless_empty run.tasks run _ (
        drive-Returns target v i public events (take_request lib engine run) n (requests r) h.1 p c)
  drive-Returns target v i public (joined id output ∷ events) run n r h p c =
      unless_empty run.tasks run _ (
        when_known (contains run.tasks id) _ p.0 (
          drive-Returns target v i public events
            (complete lib engine id output (join lib engine id run)) (suc n)
            (completes id output p.0 h.0 r) h.1 p.1 c))
  drive-Returns target v i public (panicked id ∷ events) run n r h p c =
      unless_empty run.tasks run _ (
        when_known (contains run.tasks id) _ p.0 (
          drive-Returns target v i public events (crashed lib engine id (join lib engine id run))
            (suc n) (crashes id p.0 r) h.1 p.1 c))
  drive-Returns target v i public (elapsed ∷ events) run n r h p c =
      unless_empty run.tasks run _ (_, refl)

  -- For a target that may be investigated, and reports that the runtime can make about the run of it
  -- with well-typed relationships,
  -- `investigate` returns a run as soon as the deadline passes or `most_joins` tasks are joined, if no
  -- task was left before.
  pub investigate-returns :
      (target : Indicator lib) (v : Investigation lib) (events : List (Event lib engine))
      → new lib target (engine.clock 0) ≡ ok v
      → All (ValidEvent lib engine) events
      → Possible events (first_run lib engine target v)
      → Complete events 0
      → (run : Run lib) × (investigate lib engine target events ≡ ok (some run))
  unfolding investigate execute
  investigate-returns target v events made h p c =
      let (last, driven) =
        drive-Returns target v (new-IsIntact lib target (engine.clock 0) v made)
          (new_public lib target (engine.clock 0) v made) events (first_run lib engine target v) 0
          begun h p c in
      (wrap_up lib engine last, rw (made, driven) refl)
