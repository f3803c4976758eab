-- ===== src/Engine/Execute.antt =====
-- crates/collectors/src/engine/mod.rs: joining tasks, merging their collections and the main loop,
-- against the sequence of events that the runtime reports.
use sentinel_osint.Common.{
  suc, ◌+◌, max, true, not, Option, none, some, List, [], ◌∷◌, ◌==◌, if◌then◌else◌, length,
  is_empty, nat_eq, list_eq, contains, Result, ok, ◌>>=◌,
}
use sentinel_osint.Common.Text.{codes}
use sentinel_osint.Indicator.Defs.{Crates, IndicatorError}
use sentinel_osint.Indicator.Policy.{Indicator}
use sentinel_osint.Indicator.Equality.{indicator_eq}
use sentinel_osint.Evidence.Findings.{Finding}
use sentinel_osint.Evidence.Observations.{Timestamp, Observation}
use sentinel_osint.Evidence.Relationships.{Relationship}
use sentinel_osint.Investigation.{
  Investigation, SourceOutcome, succeeded, partial, budget_exhausted, unsupported, failed,
  timed_out, source_limit, investigation_limit, new, new_status, record_source, add_observation,
  add_relationship, add_finding, finish,
}
use sentinel_osint.Investigation.Operations.{kept_on_error}
use sentinel_osint.Engine.Collectors.{
  Collector, Collection, CollectorError, request_budget_exhausted, acquire_request,
}
use sentinel_osint.Engine.State.{
  Engine, Run, PendingTask, TaskId, TaskOutput, TaskOutcome, collected, collector_error,
  source_timeout, new_run,
}
use sentinel_osint.Engine.Schedule.{insert, schedule, consider_pivots}

module _ (lib : Crates) where
  abbrev pub add_observations : List (Observation lib) → Investigation lib → Investigation lib
  add_observations [] v = v
  add_observations (o ∷ os) v = add_observations os (add_observation lib v o)

  abbrev pub add_relationships : List (Relationship lib) → Investigation lib → Investigation lib
  add_relationships [] v = v
  add_relationships (r ∷ rs) v = add_relationships rs (kept_on_error v (add_relationship lib v r))

  abbrev pub add_findings : List Finding → Investigation lib → Investigation lib
  add_findings [] v = v
  add_findings (f ∷ fs) v = add_findings fs (kept_on_error v (add_finding lib v f))

  -- `Run::merge`.
  unfoldable pub merge : Collection lib → Run lib → Run lib
  merge c run = record run {
    investigation =
        add_findings c.findings
          (add_relationships c.relationships (add_observations c.observations run.investigation));
  }

  -- `pending.remove(&id)`.
  abbrev pub find_task : List (PendingTask lib) → TaskId → Option (PendingTask lib)
  find_task [] id = none
  find_task (t ∷ ts) id = if t.id == id then some t else find_task ts id

  abbrev pub without_task : List (PendingTask lib) → TaskId → List (PendingTask lib)
  without_task [] id = []
  without_task (t ∷ ts) id = if t.id == id then ts else t ∷ without_task ts id

  abbrev pub without_id : List TaskId → TaskId → List TaskId
  without_id [] id = []
  without_id (x ∷ xs) id = if x == id then xs else x ∷ without_id xs id

  unfoldable pub record_outcome :
      PendingTask lib → SourceOutcome → Timestamp → Timestamp → Run lib → Run lib
  record_outcome task outcome started_at finished_at run = record run {
    investigation =
        record_source lib run.investigation
          (new_status lib task.source task.indicator outcome started_at finished_at);
  }

  abbrev pub outcome_of : Collection lib → SourceOutcome
  outcome_of c =
      if is_empty c.failures
      then succeeded (length c.observations)
      else partial (length c.observations) c.failures

  module _ (engine : Engine lib) where
    abbrev pub error_outcome : CollectorError → SourceOutcome
    error_outcome (request_budget_exhausted limit) = budget_exhausted limit
    error_outcome error = failed (engine.to_string error)

    abbrev pub finish_task :
        TaskOutcome lib → PendingTask lib → Timestamp → Timestamp → Run lib → Run lib
    finish_task (collected c) task from to run =
        record_outcome task (outcome_of c) from to
          (consider_pivots lib engine c.pivots task.depth (merge c run))
    finish_task (collector_error e) task from to run =
        record_outcome task (error_outcome e) from to run
    finish_task source_timeout task from to run =
        record_outcome task (timed_out source_limit) from to run

    abbrev pub complete_task : Option (PendingTask lib) → TaskOutput lib → Run lib → Run lib
    complete_task none output run = run
    complete_task (some task) output run =
        finish_task output.outcome task output.started_at output.finished_at
          (record run { pending = without_task run.pending task.id })

    -- `Run::complete`.
    unfoldable pub complete : TaskId → TaskOutput lib → Run lib → Run lib
    complete id output run = complete_task (find_task run.pending id) output run

    abbrev pub crash_task : Option (PendingTask lib) → Run lib → Run lib
    crash_task none run = run
    crash_task (some task) run =
        record_outcome task (failed (codes "collector crashed")) task.queued_at
          (engine.clock run.readings)
          (record run { pending = without_task run.pending task.id; readings = suc run.readings })

    -- `Run::crashed`.
    unfoldable pub crashed : TaskId → Run lib → Run lib
    crashed id run = crash_task (find_task run.pending id) run

    abbrev pub time_out_each : List (PendingTask lib) → Timestamp → Run lib → Run lib
    time_out_each [] now run = run
    time_out_each (t ∷ ts) now run =
        time_out_each ts now (record_outcome t (timed_out investigation_limit) t.queued_at now run)

    -- `Run::cancel_remaining`; the map is drained in the order in which the tasks were spawned.
    unfoldable pub cancel_remaining : Run lib → Run lib
    cancel_remaining run = time_out_each run.pending (engine.clock run.readings) (record run {
      stats = record run.stats { deadline_exceeded = true };
      tasks = [];
      pending = [];
      readings = suc run.readings;
    })

    -- What `timeout_at(deadline, join_next_with_id())` reports while tasks are left, and, between
    -- the reports, the requests that running collectors take from the shared budget.
    pub data Event : Type 0 where
      requested : Event
      joined : TaskId → TaskOutput lib → Event
      panicked : TaskId → Event
      elapsed : Event

    -- The join takes the task out of the set.
    abbrev pub join : TaskId → Run lib → Run lib
    join id run = record run { tasks = without_id run.tasks id }

    -- A collector that is running calls `acquire_request`.
    unfoldable pub take_request : Run lib → Run lib
    take_request run =
        let (result, budget) = acquire_request run.budget in record run { budget = budget }

    -- The loop of `execute`. `none`: the events end while tasks are left, or a task is reported that
    -- is not in the set, which the runtime never does.
    abbrev pub drive : List Event → Run lib → Option (Run lib)
    drive [] run = if is_empty run.tasks then some run else none
    drive (requested ∷ events) run =
        let rest = drive events (take_request run) in if is_empty run.tasks then some run else rest
    drive (joined id output ∷ events) run =
        let rest = drive events (complete id output (join id run)) in
        if is_empty run.tasks then some run else if contains run.tasks id then rest else none
    drive (panicked id ∷ events) run =
        let rest = drive events (crashed id (join id run)) in
        if is_empty run.tasks then some run else if contains run.tasks id then rest else none
    drive (elapsed ∷ events) run =
        if is_empty run.tasks then some run else some (cancel_remaining run)

    abbrev pub report_unsupported : Collector lib → Timestamp → Run lib → Run lib
    report_unsupported c now run =
        if not (contains run.considered c.id)
        then record run {
          investigation =
              record_source lib run.investigation
                (new_status lib c.id run.investigation.target unsupported now now);
        }
        else run

    abbrev pub report_each : List (Collector lib) → Timestamp → Run lib → Run lib
    report_each [] now run = run
    report_each (c ∷ cs) now run = report_each cs now (report_unsupported c now run)

    -- `Run::record_unsupported`.
    unfoldable pub record_unsupported : Run lib → Run lib
    record_unsupported run =
        report_each engine.collectors (max (engine.clock run.readings) run.investigation.started_at)
          (record run { readings = suc run.readings })

    -- What follows the loop of `execute`; `requests_used` is what the collectors took.
    unfoldable pub wrap_up : Run lib → Run lib
    wrap_up run =
        let r : Run lib = record_unsupported run in
        let at : Timestamp = max (engine.clock r.readings) r.investigation.started_at in
        record r {
          stats = record r.stats {
            requests_used = r.budget.used;
            pivots_dropped = length r.dropped + r.overflow;
          };
          investigation = kept_on_error r.investigation (finish lib r.investigation at);
          readings = suc r.readings;
        }

    -- What precedes the loop of `execute`.
    unfoldable pub begin : Indicator lib → Run lib → Run lib
    begin target run =
        schedule lib engine target 0
          (record run { visited = insert (indicator_eq lib) run.visited target })

    abbrev pub finished_run : Option (Run lib) → Option (Run lib)
    finished_run none = none
    finished_run (some run) = some (wrap_up run)

    -- `Run::execute`.
    unfoldable pub execute : Indicator lib → List Event → Run lib → Option (Run lib)
    execute target events run = finished_run (drive events (begin target run))

    -- `Engine::investigate`; the first reading of the clock is at 0.
    unfoldable pub investigate :
        Indicator lib → List Event → Result IndicatorError (Option (Run lib))
    investigate target events = new lib target (engine.clock 0) >>= λ v.
        ok (execute target events (record (new_run lib engine v) { readings = 1 }))
