-- ===== src/Engine/State.antt =====
-- crates/collectors/src/engine/mod.rs: the configuration, the engine and the state of a run.
use sentinel_osint.Common.{
  ℕ, Bool, false, List, [], ◌∷◌, ◌++◌, any, nat_eq, if◌then◌else◌, list_beq, Result, ok, err,
}
use sentinel_osint.Common.Text.{Text}
use sentinel_osint.Indicator.Defs.{Crates}
use sentinel_osint.Indicator.Policy.{Indicator}
use sentinel_osint.Evidence.Observations.{SourceId, Timestamp}
use sentinel_osint.Investigation.{Investigation}
use sentinel_osint.Engine.Collectors.{
  Collector, Collection, CollectorError, RequestBudget, new_budget,
}

-- `MAX_PIVOT_CANDIDATES`.
abbrev pub max_pivot_candidates : ℕ
max_pivot_candidates = 1000

pub record PivotLimits : Type 0 where
  pub max_depth : ℕ
  pub max_entities : ℕ

-- Durations are in milliseconds.
pub record EngineConfig : Type 0 where
  pub investigation_timeout : ℕ
  pub source_timeout : ℕ
  pub max_concurrent_sources : ℕ
  pub max_requests : ℕ
  pub pivots : PivotLimits

-- `EngineConfig::default`.
abbrev pub default_config : EngineConfig
default_config = record {
  investigation_timeout = 60000;
  source_timeout = 45000;
  max_concurrent_sources = 4;
  max_requests = 100;
  pivots = record { max_depth = 1; max_entities = 10 };
}

pub data EngineError : Type 0 where
  duplicate_source : SourceId → EngineError

pub record RunStats : Type 0 where
  pub source_runs : ℕ
  pub pivots_followed : ℕ
  pub pivots_dropped : ℕ
  pub requests_used : ℕ
  pub deadline_exceeded : Bool

abbrev pub no_stats : RunStats
no_stats = record {
  source_runs = 0;
  pivots_followed = 0;
  pivots_dropped = 0;
  requests_used = 0;
  deadline_exceeded = false;
}

-- The runtime's identifier of a task: the tasks of a run in the order in which they are spawned.
abbrev pub TaskId : Type 0
TaskId = ℕ

module _ (lib : Crates) where
  -- The clock as the times that it gives at the run's readings, in order, and the text of an error,
  -- whose `Display` the crate `thiserror` derives.
  pub record Engine : Type 0 where
    pub collectors : List (Collector lib)
    pub clock : ℕ → Timestamp
    pub config : EngineConfig
    pub to_string : CollectorError → Text

  -- `Engine::register`.
  unfoldable pub register : Engine → Collector lib → Result EngineError Engine
  register engine collector =
      if any (λ c. list_beq c.id collector.id) engine.collectors
      then err (duplicate_source collector.id)
      else ok (record engine { collectors = engine.collectors ++ collector ∷ [] })

  -- `Engine::sources`.
  abbrev pub sources : List (Collector lib) → List SourceId
  sources [] = []
  sources (c ∷ cs) = c.id ∷ sources cs

  pub data TaskOutcome : Type 0 where
    collected : Collection lib → TaskOutcome
    collector_error : CollectorError → TaskOutcome
    source_timeout : TaskOutcome

  pub record TaskOutput : Type 0 where
    pub outcome : TaskOutcome
    pub started_at : Timestamp
    pub finished_at : Timestamp

  pub record PendingTask : Type 0 where
    pub id : TaskId
    pub source : SourceId
    pub indicator : Indicator lib
    pub depth : ℕ
    pub queued_at : Timestamp

  -- The `JoinSet` by its identifiers, the sets as lists, the next task's identifier and the number of
  -- times that the run has read the clock.
  pub record Run : Type 0 where
    pub investigation : Investigation lib
    pub tasks : List TaskId
    pub pending : List PendingTask
    pub visited : List (Indicator lib)
    pub considered : List SourceId
    pub dropped : List (Indicator lib)
    pub overflow : ℕ
    pub budget : RequestBudget
    pub stats : RunStats
    pub next_task : TaskId
    pub readings : ℕ

  -- `Run::new`.
  abbrev pub new_run : Engine → Investigation lib → Run
  new_run engine investigation = record {
    investigation = investigation;
    tasks = [];
    pending = [];
    visited = [];
    considered = [];
    dropped = [];
    overflow = 0;
    budget = new_budget engine.config.max_requests;
    stats = no_stats;
    next_task = 0;
    readings = 0;
  }
