-- ===== src/Engine/Finished.antt =====
-- What an investigation by the engine returns.
use sentinel_osint.Common.{
  ℕ, suc, true, ◌||◌, List, [], ◌∷◌, contains, nat_eq, list_eq, list_beq, ◌≡◌, refl, sym, subst,
  ◌∙◌, arith,
}
use sentinel_osint.Indicator.Defs.{Crates}
use sentinel_osint.Indicator.Policy.{Indicator}
use sentinel_osint.Evidence.Observations.{SourceId, Timestamp}
use sentinel_osint.Investigation.{timed_out, investigation_limit}
use sentinel_osint.Investigation.Integrity.{IsIntact}
use sentinel_osint.Investigation.Operations.{account, apply-IsIntact}
use sentinel_osint.Engine.State.{Engine, Run, PendingTask}
use sentinel_osint.Engine.Execute.{record_outcome, time_out_each, cancel_remaining}
use sentinel_osint.Engine.Tasks.{keys}
use sentinel_osint.Engine.Pivots.{PivotsOk}
use sentinel_osint.Engine.Accounted.{status_sources, status_sources-append, task_sources, accounts}
use sentinel_osint.Engine.Runs.{RunsOk, BudgetOk}
use sentinel_osint.Engine.Outcome.{RunOk}

module _ (lib : Crates) (engine : Engine lib) where
  -- What is left of the invariants when the loop has ended.
  pub record DoneOk (target : Indicator lib) (run : Run lib) : Type 0 where
    pub pivots : PivotsOk lib engine target run.visited run.dropped run.stats.pivots_followed
    pub accounted :
        (id : SourceId)
        → contains run.considered id ≡ true
        → contains (status_sources lib run.investigation.sources) id ≡ true
    pub runs : RunsOk lib engine run
    pub budget : BudgetOk engine.config.max_requests run.budget
    pub intact : IsIntact lib run.investigation

  record_outcome-sources :
      (t : PendingTask lib) (now : Timestamp) (run : Run lib) (id : SourceId)
      → contains
          (status_sources lib
            (record_outcome lib t
              (timed_out investigation_limit)
              t.queued_at
              now
              run).investigation.sources)
          id
        ≡ (contains (status_sources lib run.investigation.sources) id || list_beq t.source id)
  unfolding record_outcome
  record_outcome-sources t now run id = status_sources-append lib run.investigation.sources _ id

  time_out_each-sources :
      (ts : List (PendingTask lib)) (now : Timestamp) (run : Run lib) (id : SourceId)
      → contains (status_sources lib (time_out_each lib engine ts now run).investigation.sources) id
        ≡ (contains (status_sources lib run.investigation.sources) id
            || contains (task_sources lib ts) id)
  time_out_each-sources [] now run id = ground arith
  time_out_each-sources (t ∷ ts) now run id =
      let next : Run lib =
        record_outcome lib t (timed_out investigation_limit) t.queued_at now run in
      ground (arith, time_out_each-sources ts now next id, record_outcome-sources t now run id)

  time_out_each-IsIntact :
      (ts : List (PendingTask lib)) (now : Timestamp) (run : Run lib)
      → IsIntact lib run.investigation
      → IsIntact lib (time_out_each lib engine ts now run).investigation
  unfolding record_outcome
  time_out_each-IsIntact [] now run i = i
  time_out_each-IsIntact (t ∷ ts) now run i =
      time_out_each-IsIntact ts now _ (apply-IsIntact lib (account _) run.investigation tt i)

  -- Only the investigation changes.
  time_out_each-rest :
      (ts : List (PendingTask lib)) (now : Timestamp) (run : Run lib)
      → time_out_each lib engine ts now run
        ≡ record run { investigation = (time_out_each lib engine ts now run).investigation }
  unfolding record_outcome
  time_out_each-rest [] now run = refl
  time_out_each-rest (t ∷ ts) now run =
      time_out_each-rest ts now
        (record_outcome lib t (timed_out investigation_limit) t.queued_at now run)

  pub cancelled-DoneOk :
      (target : Indicator lib) (n : ℕ) (run : Run lib)
      → RunOk lib engine target n run
      → DoneOk target (cancel_remaining lib engine run)
  unfolding cancel_remaining
  cancelled-DoneOk target n run o =
      subst (DoneOk target) (sym (time_out_each-rest run.pending now stopped)) (record {
        pivots = o.pivots;
        accounted = λ id h.
            ground (arith, o.accounted id h, time_out_each-sources run.pending now stopped id);
        runs = o.runs;
        budget = o.budget;
        intact = time_out_each-IsIntact run.pending now stopped o.intact;
      })
    where
      now : Timestamp
      now = engine.clock run.readings

      stopped : Run lib
      stopped = record run {
        stats = record run.stats { deadline_exceeded = true };
        tasks = [];
        pending = [];
        readings = suc run.readings;
      }

  pub joined-DoneOk :
      (target : Indicator lib) (n : ℕ) (run : Run lib)
      → run.tasks ≡ []
      → RunOk lib engine target n run
      → DoneOk target run
  joined-DoneOk target n run e o = record {
    pivots = o.pivots;
    accounted = λ id h. no_pending run.pending id (sym o.tasks.tracked ∙ e) (o.accounted id h);
    runs = o.runs;
    budget = o.budget;
    intact = o.intact;
  }
    where
      no_pending :
          (ts : List (PendingTask lib)) (id : SourceId)
          → keys lib engine ts ≡ []
          → accounts lib [] run.investigation.sources ts id ≡ true
          → contains (status_sources lib run.investigation.sources) id ≡ true
      no_pending [] id e h = ground arith
      no_pending (t ∷ ts) id e h = cc
