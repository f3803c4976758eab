-- ===== src/Engine/Outcome.antt =====
-- What holds of every state of an investigation by the engine while its loop runs.
use sentinel_osint.Common.{
  ℕ, ◌+◌, ◌*◌, ◌≤◌, true, [], ◌∷◌, length, contains, nat_eq, list_eq, ◌≡◌, refl, arith, inl, All,
  ok, =?_refl,
}
use native.Mathlib.Nat.{mul-le-mul_left}
use sentinel_osint.Indicator.Defs.{Crates}
use sentinel_osint.Indicator.Policy.{Indicator, ensure_investigable}
use sentinel_osint.Indicator.Equality.{indicator_eq}
use sentinel_osint.Investigation.{Investigation}
use sentinel_osint.Investigation.Integrity.{IsIntact}
use sentinel_osint.Engine.State.{Engine, Run, new_run}
use sentinel_osint.Engine.Schedule.{insert, report_unavailable, spawn, drop_pivot, visit}
use sentinel_osint.Engine.Execute.{merge, take_request, record_outcome, begin}
use sentinel_osint.Engine.Keeps.{Keeps, schedule-Keeps, consider_pivots-Keeps}
use sentinel_osint.Engine.Reachable.{Reachable, Invariant, Reachable-Invariant}
use sentinel_osint.Engine.Pivots.{PivotsOk, PivotsOkIn, PivotsOkIn-Keeps, PivotsOkIn-Invariant}
use sentinel_osint.Engine.Tasks.{
  TasksOk, TasksOkIn, TasksOkIn-Keeps, TasksOkIn-Invariant, Allowed, keys,
}
use sentinel_osint.Engine.Accounted.{Accounted, Accounted-Keeps, Accounted-Invariant}
use sentinel_osint.Engine.Runs.{
  RunsOk, RunsOk-Invariant, begin-RunsOk, BudgetOk, acquire_request-BudgetOk,
}
use sentinel_osint.Engine.Intact.{IntactIn, IntactIn-Keeps, IntactIn-Invariant}

module _ (lib : Crates) (engine : Engine lib) where
  abbrev pub BudgetIn : Run lib → Type 0
  BudgetIn run = BudgetOk engine.config.max_requests run.budget

  BudgetIn-Keeps : Keeps lib engine BudgetIn
  unfolding report_unavailable spawn drop_pivot visit
  BudgetIn-Keeps = record {
    overflows = λ run n p. p;
    reports = λ run c i depth reason a f p. p;
    spawns = λ run c i depth a r v d p. p;
    drops_pivot = λ run i v d p. p;
    visits_pivot = λ run i v d room public p. p;
  }

  BudgetIn-Invariant : Invariant lib engine (λ n. BudgetIn) (λ n task. BudgetIn)
  unfolding take_request merge record_outcome
  BudgetIn-Invariant = record {
    request = λ n run p. acquire_request-BudgetOk engine.config.max_requests run.budget p;
    takes = λ n id task run e p. p;
    tracked = λ n id run m e p. p;
    merges = λ n task c run v p. p;
    pivots = λ n task is depth run p.
        consider_pivots-Keeps lib engine BudgetIn BudgetIn-Keeps is depth run p;
    reads = λ n task run p. p;
    records = λ n task outcome from to run p. p;
  }

  -- The state in which `investigate` enters `execute`.
  abbrev pub fresh_run : Investigation lib → Run lib
  fresh_run v = record (new_run lib engine v) { readings = 1 }

  abbrev pub first_run : Indicator lib → Investigation lib → Run lib
  first_run target v = begin lib engine target (fresh_run v)

  module _ (target : Indicator lib) (v : Investigation lib) (i : IsIntact lib v)
      (public : ensure_investigable lib target ≡ ok tt) where
    -- The state once the target is visited.
    abbrev aimed : Run lib
    aimed = record (fresh_run v) { visited = target ∷ [] }

    seen : contains ⦃e = indicator_eq lib⦄ (target ∷ []) target ≡ true
    seen = ground (arith, =?_refl ⦃e = indicator_eq lib⦄ target)

    begin-Keeps : (P : Run lib → Type 0) → Keeps lib engine P → P aimed → P (first_run target v)
    unfolding begin insert
    begin-Keeps P k p = schedule-Keeps lib engine P k target 0 aimed seen (inl refl) p

    pub first-PivotsOk : PivotsOkIn lib engine target (first_run target v)
    first-PivotsOk = begin-Keeps _ (PivotsOkIn-Keeps lib engine target) (record {
      starts_at_target = seen;
      visited_once = (refl, tt);
      dropped_once = tt;
      disjoint = λ j h. refl;
      public = (public, tt);
      counted = refl;
      bounded = omega arith;
    })

    pub first-TasksOk : TasksOkIn lib engine 0 (first_run target v)
    first-TasksOk =
        begin-Keeps _ (TasksOkIn-Keeps lib engine 0)
          (record { tracked = refl; allowed = tt; counted = refl })

    pub first-Accounted : Accounted lib [] (first_run target v)
    first-Accounted = begin-Keeps _ (Accounted-Keeps lib engine []) (λ id h. absurd (ground arith))

    pub first-IntactIn : IntactIn lib (first_run target v)
    first-IntactIn = begin-Keeps _ (IntactIn-Keeps lib engine) i

    pub first-BudgetIn : BudgetIn (first_run target v)
    first-BudgetIn = begin-Keeps _ BudgetIn-Keeps (refl, omega arith)

    pub first-RunsOk : RunsOk lib engine (first_run target v)
    unfolding begin insert
    first-RunsOk = begin-RunsOk lib engine target aimed refl refl

  -- All invariants of a state that the loop reaches after `n` joins.
  pub record RunOk (target : Indicator lib) (n : ℕ) (run : Run lib) : Type 0 where
    pub pivots : PivotsOk lib engine target run.visited run.dropped run.stats.pivots_followed
    pub tasks : TasksOk lib engine run.tasks run.pending run.visited n run.stats.source_runs
    pub accounted : Accounted lib [] run
    pub runs : RunsOk lib engine run
    pub budget : BudgetIn run
    pub intact : IntactIn lib run

  pub Reachable-RunOk :
      (target : Indicator lib) (v : Investigation lib) (n : ℕ) (run : Run lib)
      → IsIntact lib v
      → ensure_investigable lib target ≡ ok tt
      → Reachable lib engine (first_run target v) n run
      → RunOk target n run
  Reachable-RunOk target v n run i public r = record {
    pivots =
        Reachable-Invariant lib engine _ _ (PivotsOkIn-Invariant lib engine target)
          (first-PivotsOk target v i public) r;
    tasks =
        Reachable-Invariant lib engine _ _ (TasksOkIn-Invariant lib engine)
          (first-TasksOk target v i public) r;
    accounted =
        Reachable-Invariant lib engine _ _ (Accounted-Invariant lib engine)
          (first-Accounted target v i public) r;
    runs =
        Reachable-Invariant lib engine _ _ (RunsOk-Invariant lib engine)
          (first-RunsOk target v i public) r;
    budget =
        Reachable-Invariant lib engine _ _ BudgetIn-Invariant (first-BudgetIn target v i public) r;
    intact =
        Reachable-Invariant lib engine _ _ (IntactIn-Invariant lib engine)
          (first-IntactIn target v i public) r;
  }

  -- While the loop of `execute` runs, from a target that may be investigated and an intact
  -- investigation of it: `n` joined tasks and those still in the set are no more than one run of every
  -- collector for the target and each of at most `max_entities` pivots. The loop therefore ends.
  pub Reachable-bounded :
      (target : Indicator lib) (v : Investigation lib) (n : ℕ) (run : Run lib)
      → IsIntact lib v
      → ensure_investigable lib target ≡ ok tt
      → Reachable lib engine (first_run target v) n run
      → n + length run.tasks ≤ length engine.collectors * (1 + engine.config.pivots.max_entities)
  Reachable-bounded target v n run i public r =
      let o : RunOk target n run = Reachable-RunOk target v n run i public r in
      let visits : length run.visited ≤ 1 + engine.config.pivots.max_entities =
        omega (arith, o.pivots.counted, o.pivots.bounded) in
      bound (length engine.collectors) (length run.visited) _ visits
        (omega (arith, o.tasks.counted, o.runs))
    where
      bound : (c k m : ℕ) {a : ℕ} → k ≤ m → a ≤ c * k → a ≤ c * m
      bound c k m h p = omega (arith, mul-le-mul_left c h)

  -- In every state that the loop reaches, from a target that may be investigated and an intact
  -- investigation of it: the set of tasks is that of the tracked ones, and each of them runs a
  -- registered collector that is ready and supports the indicator, with the target alone (depth 0) for
  -- one of that scope, at no more than `max_depth` otherwise, on an indicator that the run visits;
  -- every visited indicator may be investigated.
  pub Reachable-Allowed :
      (target : Indicator lib) (v : Investigation lib) (n : ℕ) (run : Run lib)
      → IsIntact lib v
      → ensure_investigable lib target ≡ ok tt
      → Reachable lib engine (first_run target v) n run
      → (run.tasks ≡ keys lib engine run.pending)
        × All (Allowed lib engine run.visited) run.pending
        × All (λ i. ensure_investigable lib i ≡ ok tt) run.visited
  Reachable-Allowed target v n run i public r =
      let o : RunOk target n run = Reachable-RunOk target v n run i public r in
      (o.tasks.tracked, o.tasks.allowed, o.pivots.public)
