-- ===== src/Engine/Runs.antt =====
-- How many runs of collectors and how many requests the limits allow.
use sentinel_osint.Common.{
  ℕ, suc, ◌+◌, ◌-◌, ◌*◌, ◌≤◌, false, ◌||◌, List, [], ◌∷◌, ltb, take, length, length-append, nat_eq,
  list_eq, contains, ◌≡◌, refl, ◌∙◌, arith, Bool-cases, inl, inr,
}
use sentinel_osint.Indicator.Defs.{Crates}
use sentinel_osint.Indicator.Policy.{Indicator}
use sentinel_osint.Indicator.Equality.{indicator_eq}
use sentinel_osint.Evidence.Observations.{SourceId}
use sentinel_osint.Engine.Collectors.{
  Collector, Availability, ready, unavailable, RequestBudget, try_acquire, acquire_request,
}
use sentinel_osint.Engine.State.{Engine, Run, max_pivot_candidates}
use sentinel_osint.Engine.Schedule.{
  next_depth, report_unavailable, spawn, start, schedule_one, schedule_from, schedule, is_rejected,
  drop_pivot, visit, consider_pivot, consider_each, add_overflow, consider_pivots,
}
use sentinel_osint.Engine.Execute.{merge, take_request, record_outcome}
use sentinel_osint.Engine.Keeps.{insert-new, schedule_one-visited, visits, drops}
use sentinel_osint.Engine.Reachable.{Invariant}

module _ (lib : Crates) (engine : Engine lib) where
  start-runs :
      (a : Availability) (id : SourceId) (i : Indicator lib) (depth : ℕ) (run : Run lib)
      → (start lib engine a id i depth run).stats.source_runs ≤ run.stats.source_runs + 1
  unfolding report_unavailable spawn
  start-runs ready id i depth run = omega arith
  start-runs (unavailable reason) id i depth run = elim (Bool-cases (contains run.considered id)) [
    | inl y ↦ rw y (omega arith)
    | inr n ↦ rw n (omega arith)
  ]

  schedule_one-runs :
      (c : Collector lib) (i : Indicator lib) (depth : ℕ) (run : Run lib)
      → (schedule_one lib engine c i depth run).stats.source_runs ≤ run.stats.source_runs + 1
  unfolding schedule_one
  schedule_one-runs c i depth run = ground (arith, start-runs c.availability c.id i depth run)

  schedule_from-runs :
      (cs : List (Collector lib)) (i : Indicator lib) (depth : ℕ) (run : Run lib)
      → (schedule_from lib engine cs i depth run).stats.source_runs
        ≤ run.stats.source_runs + length cs
  schedule_from-runs [] i depth run = omega arith
  schedule_from-runs (c ∷ cs) i depth run =
      let next : Run lib = schedule_one lib engine c i depth run in
      omega (arith, schedule_from-runs cs i depth next, schedule_one-runs c i depth run)

  pub schedule_from-visited :
      (cs : List (Collector lib)) (i : Indicator lib) (depth : ℕ) (run : Run lib)
      → (schedule_from lib engine cs i depth run).visited ≡ run.visited
  schedule_from-visited [] i depth run = refl
  schedule_from-visited (c ∷ cs) i depth run =
      schedule_from-visited cs i depth (schedule_one lib engine c i depth run)
      ∙ schedule_one-visited lib engine c i depth run

  -- No more runs than one of every collector for every visited indicator.
  abbrev pub RunsOk : Run lib → Type 0
  RunsOk run = run.stats.source_runs ≤ length engine.collectors * length run.visited

  drop-RunsOk :
      (i : Indicator lib) (run : Run lib) → RunsOk run → RunsOk (drop_pivot lib engine i run)
  unfolding drop_pivot
  drop-RunsOk i run p = p

  visit-length :
      (i : Indicator lib) (run : Run lib)
      → visits lib engine run i ≡ false
      → length (visit lib engine i run).visited ≡ suc (length run.visited)
  unfolding visit
  visit-length i run v =
      rw (insert-new (indicator_eq lib) run.visited i v) omega
        (arith, length-append run.visited (i ∷ []))

  visit-runs :
      (i : Indicator lib) (run : Run lib)
      → (visit lib engine i run).stats.source_runs ≡ run.stats.source_runs
  unfolding visit
  visit-runs i run = refl

  follow-RunsOk :
      (i : Indicator lib) (depth : ℕ) (run : Run lib)
      → visits lib engine run i ≡ false
      → RunsOk run
      → RunsOk (schedule lib engine i depth (visit lib engine i run))
  follow-RunsOk i depth run v p =
      let next : Run lib = visit lib engine i run in
      let added = schedule_from-runs engine.collectors i depth next in
      rw (schedule_from-visited engine.collectors i depth next, visit-length i run v)
        (omega (arith, added, visit-runs i run, p))

  consider_pivot-RunsOk :
      (depth : ℕ) (i : Indicator lib) (run : Run lib)
      → RunsOk run
      → RunsOk (consider_pivot lib engine depth i run)
  unfolding consider_pivot
  consider_pivot-RunsOk depth i run p =
      elim (Bool-cases (visits lib engine run i || drops lib engine run i)) [
        | inl y ↦ rw y p
        | inr n ↦ elim (Bool-cases (is_rejected lib engine i depth run)) [
          | inl y ↦ rw (n, y) (drop-RunsOk i run p)
          | inr m ↦ rw (n, m) (follow-RunsOk i depth run (ground arith) p)
        ]
      ]

  consider_each-RunsOk :
      (depth : ℕ) (is : List (Indicator lib)) (run : Run lib)
      → RunsOk run
      → RunsOk (consider_each lib engine depth is run)
  consider_each-RunsOk depth [] run p = p
  consider_each-RunsOk depth (i ∷ is) run p =
      consider_each-RunsOk depth is (consider_pivot lib engine depth i run)
        (consider_pivot-RunsOk depth i run p)

  consider_pivots-RunsOk :
      (is : List (Indicator lib)) (depth : ℕ) (run : Run lib)
      → RunsOk run
      → RunsOk (consider_pivots lib engine is depth run)
  unfolding consider_pivots
  consider_pivots-RunsOk is depth run p =
      consider_each-RunsOk (next_depth depth) (take max_pivot_candidates is)
        (add_overflow lib engine (length is - max_pivot_candidates) run)
        (overflowed (length is - max_pivot_candidates))
    where
      overflowed : (n : ℕ) → RunsOk (add_overflow lib engine n run)
      overflowed n = elim (Bool-cases (ltb 0 n)) [ inl y ↦ rw y p | inr m ↦ rw m p ]

  pub RunsOk-Invariant : Invariant lib engine (λ n. RunsOk) (λ n task. RunsOk)
  unfolding take_request merge record_outcome
  RunsOk-Invariant = record {
    request = λ n run p. p;
    takes = λ n id task run e p. p;
    tracked = λ n id run m e p. p;
    merges = λ n task c run v p. p;
    pivots = λ n task. consider_pivots-RunsOk;
    reads = λ n task run p. p;
    records = λ n task outcome from to run p. p;
  }

  pub begin-RunsOk :
      (target : Indicator lib) (run : Run lib)
      → run.stats.source_runs ≡ 0
      → length run.visited ≡ 1
      → RunsOk (schedule lib engine target 0 run)
  begin-RunsOk target run none one =
      rw (schedule_from-visited engine.collectors target 0 run, one)
        (omega (arith, schedule_from-runs engine.collectors target 0 run))

-- The budget never gives more than its limit.
abbrev pub BudgetOk : ℕ → RequestBudget → Type 0
BudgetOk limit b = (b.limit ≡ limit) × (b.used ≤ limit)

pub acquire_request-BudgetOk :
    (limit : ℕ) (b : RequestBudget) → BudgetOk limit b → BudgetOk limit (acquire_request b).1
unfolding acquire_request try_acquire
acquire_request-BudgetOk limit b p = ground arith
