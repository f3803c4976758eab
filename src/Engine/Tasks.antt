-- ===== src/Engine/Tasks.antt =====
-- The tasks of a run: each is tracked, and each run of a collector is one that the limits allow.
use sentinel_osint.Common.{
  ℕ, suc, ◌+◌, true, false, none, some, List, [], ◌∷◌, ◌++◌, ◌==◌, length, length-append, nat_eq,
  contains, ◌≡◌, refl, sym, subst, ap, ◌∙◌, arith, Bool-cases, inl, inr, All, All-map, All-append,
}
use sentinel_osint.Indicator.Defs.{Crates}
use sentinel_osint.Indicator.Policy.{Indicator}
use sentinel_osint.Indicator.Equality.{indicator_eq}
use sentinel_osint.Engine.Collectors.{Collector, ready}
use sentinel_osint.Engine.State.{Engine, Run, PendingTask, TaskId}
use sentinel_osint.Engine.Schedule.{insert, report_unavailable, spawn, drop_pivot, visit}
use sentinel_osint.Engine.Execute.{
  merge, take_request, record_outcome, find_task, without_task, without_id,
}
use sentinel_osint.Engine.Keeps.{
  contains-insert, Applies, WithinDepth, Keeps, consider_pivots-Keeps,
}
use sentinel_osint.Engine.Pivots.{within}
use sentinel_osint.Engine.Reachable.{Invariant}

module _ (lib : Crates) where
  pub find_task-id :
      (ts : List (PendingTask lib)) (id : TaskId) (t : PendingTask lib)
      → find_task lib ts id ≡ some t
      → t.id ≡ id
  find_task-id [] id t e = absurd (ground arith)
  find_task-id (x ∷ ts) id t e = ground (arith, find_task-id ts id t)

module _ (lib : Crates) (engine : Engine lib) where
  abbrev pub keys : List (PendingTask lib) → List TaskId
  keys [] = []
  keys (t ∷ ts) = t.id ∷ keys ts

  -- A registered collector that is ready, supports the indicator and may run at its depth; the
  -- indicator is one that the run visits.
  pub record Allowed (visited : List (Indicator lib)) (task : PendingTask lib) : Type 0 where
    pub collector : Collector lib
    pub same_source : task.source ≡ collector.id
    pub applies : Applies lib engine collector task.indicator task.depth
    pub is_ready : collector.availability ≡ ready
    pub visited_first : within lib engine visited task.indicator ≡ true
    pub within_depth : WithinDepth lib engine task.depth

  pub record TasksOk (tasks : List TaskId) (pending : List (PendingTask lib))
      (visited : List (Indicator lib)) (accounted runs : ℕ) : Type 0 where
    pub tracked : tasks ≡ keys pending
    pub allowed : All (Allowed visited) pending
    pub counted : accounted + length tasks ≡ runs

  abbrev pub TasksOkIn : ℕ → Run lib → Type 0
  TasksOkIn n run = TasksOk run.tasks run.pending run.visited n run.stats.source_runs

  Allowed-insert :
      (visited : List (Indicator lib)) (i : Indicator lib) (task : PendingTask lib)
      → Allowed visited task
      → Allowed (insert (indicator_eq lib) visited i) task
  Allowed-insert visited i task a = record {
    collector = a.collector;
    same_source = a.same_source;
    applies = a.applies;
    is_ready = a.is_ready;
    visited_first =
        ground
          (arith, contains-insert (indicator_eq lib) visited i task.indicator, a.visited_first);
    within_depth = a.within_depth;
  }

  keys-append :
      (ts : List (PendingTask lib)) (t : PendingTask lib)
      → keys (ts ++ t ∷ []) ≡ keys ts ++ t.id ∷ []
  keys-append [] t = refl
  keys-append (x ∷ ts) t = ap (◌∷◌ x.id) (keys-append ts t)

  spawned_lem :
      (n : ℕ) (run : Run lib) (c : Collector lib) (i : Indicator lib) (depth : ℕ)
      → Applies lib engine c i depth
      → c.availability ≡ ready
      → within lib engine run.visited i ≡ true
      → WithinDepth lib engine depth
      → TasksOkIn n run
      → TasksOkIn n (spawn lib engine c.id i depth run)
  unfolding spawn
  spawned_lem n run c i depth a r v d p = record {
    tracked = ap (λ ids. ids ++ run.next_task ∷ []) p.tracked ∙ sym (keys-append run.pending _);
    allowed = All-append (Allowed run.visited) run.pending (_ ∷ []) p.allowed (
      record {
        collector = c;
        same_source = refl;
        applies = a;
        is_ready = r;
        visited_first = v;
        within_depth = d;
      },
      tt,
    );
    counted = omega (arith, p.counted, length-append run.tasks (run.next_task ∷ []));
  }

  visit_lem :
      (n : ℕ) (run : Run lib) (i : Indicator lib)
      → TasksOkIn n run
      → TasksOkIn n (visit lib engine i run)
  unfolding visit
  visit_lem n run i p = record {
    tracked = p.tracked;
    allowed = All-map (Allowed run.visited) _ (Allowed-insert run.visited i) run.pending p.allowed;
    counted = p.counted;
  }

  pub TasksOkIn-Keeps : (n : ℕ) → Keeps lib engine (TasksOkIn n)
  unfolding report_unavailable drop_pivot
  TasksOkIn-Keeps n = record {
    overflows = λ run m p. p;
    reports = λ run c i depth reason a f p. p;
    spawns = spawned_lem n;
    drops_pivot = λ run i v d p. p;
    visits_pivot = λ run i v d room public p. visit_lem n run i p;
  }

  without-keys :
      (ts : List (PendingTask lib)) (id : TaskId)
      → without_id lib (keys ts) id ≡ keys (without_task lib ts id)
  without-keys [] id = refl
  without-keys (x ∷ ts) id = elim (Bool-cases (x.id == id)) [
    | inl y ↦ rw y refl
    | inr n ↦ rw n (ap (◌∷◌ x.id) (without-keys ts id))
  ]

  pub All-without_task {ℓ} :
      (P : PendingTask lib → Type ℓ) (ts : List (PendingTask lib)) (id : TaskId)
      → All P ts
      → All P (without_task lib ts id)
  All-without_task P [] id h = tt
  All-without_task P (x ∷ ts) id (p, h) = elim (Bool-cases (x.id == id)) [
    | inl y ↦ rw y h
    | inr n ↦ rw n (p, All-without_task P ts id h)
  ]

  find_task-none :
      (ts : List (PendingTask lib)) (id : TaskId)
      → find_task lib ts id ≡ none
      → contains (keys ts) id ≡ false
  find_task-none [] id e = refl
  find_task-none (x ∷ ts) id e = ground (arith, find_task-none ts id)

  length-without_id :
      (ids : List TaskId) (id : TaskId)
      → contains ids id ≡ true
      → suc (length (without_id lib ids id)) ≡ length ids
  length-without_id [] id h = absurd (ground arith)
  length-without_id (x ∷ ids) id h = ground (arith, length-without_id ids id)

  find_task-contains :
      (ts : List (PendingTask lib)) (id : TaskId) (t : PendingTask lib)
      → find_task lib ts id ≡ some t
      → contains (keys ts) id ≡ true
  find_task-contains [] id t e = absurd (ground arith)
  find_task-contains (x ∷ ts) id t e = ground (arith, find_task-contains ts id t)

  takes_lem :
      (n : ℕ) (id : TaskId) (task : PendingTask lib) (run : Run lib)
      → find_task lib run.pending id ≡ some task
      → TasksOkIn n run
      → TasksOk
          (without_id lib run.tasks id)
          (without_task lib run.pending task.id)
          run.visited
          (suc n)
          run.stats.source_runs
  takes_lem n id task run e p =
      let same : task.id ≡ id = find_task-id lib run.pending id task e in
      let present : contains run.tasks id ≡ true =
        subst (λ ids. contains ids id ≡ true) (sym p.tracked)
          (find_task-contains run.pending id task e) in
      record {
        tracked = rw (p.tracked, same) (without-keys run.pending id);
        allowed = All-without_task (Allowed run.visited) run.pending task.id p.allowed;
        counted = omega (arith, p.counted, length-without_id run.tasks id present);
      }

  pub TasksOkIn-Invariant : Invariant lib engine TasksOkIn (λ n task. TasksOkIn (suc n))
  unfolding take_request merge record_outcome
  TasksOkIn-Invariant = record {
    request = λ n run p. p;
    takes = takes_lem;
    tracked = λ n id run m e p. absurd (untracked n id run m e p);
    merges = λ n task c run v p. p;
    pivots = λ n task is depth run p.
        consider_pivots-Keeps lib engine (TasksOkIn (suc n)) (TasksOkIn-Keeps (suc n)) is depth run
          p;
    reads = λ n task run p. p;
    records = λ n task outcome from to run p. p;
  }
    where
      untracked :
          (n : ℕ) (id : TaskId) (run : Run lib)
          → contains run.tasks id ≡ true
          → find_task lib run.pending id ≡ none
          → TasksOkIn n run
          → ⊥
      untracked n id run m e p =
          let gone : contains run.tasks id ≡ false =
            subst (λ ids. contains ids id ≡ false) (sym p.tracked)
              (find_task-none run.pending id e) in
          ground arith
