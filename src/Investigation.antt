-- ===== src/Investigation.antt =====
-- crates/core/src/investigation.rs: source statuses and the `Investigation` aggregate.
pub mod Statuses
pub mod Edges
pub mod Integrity
pub mod Operations
use sentinel_osint.Common.{
  ℕ, Bool, true, false, not, Option, none, some, List, [], ◌∷◌, ◌++◌, map, ltb, ◌==◌, max,
  if◌then◌else◌, take, Result, ok, err, ◌>>=◌, ◌>>◌,
}
use sentinel_osint.Common.Text.{Text, is_some}
use sentinel_osint.Sanitize.{sanitize_single_line}
use sentinel_osint.Indicator.Defs.{IndicatorError, Crates}
use sentinel_osint.Indicator.Policy.{Indicator, ensure_investigable}
use sentinel_osint.Evidence.Findings.{Finding}
use sentinel_osint.Evidence.Observations.{ObservationId, SourceId, Timestamp, Observation}
use sentinel_osint.Evidence.Relationships.{
  ModelError, unknown_observation, finished_before_start, Relationship, is_same_edge,
  merge_evidence,
}

pub data TimeLimit : Type 0 where
  source_limit investigation_limit : TimeLimit

pub data SourceOutcome : Type 0 where
  succeeded : ℕ → SourceOutcome
  partial : ℕ → List Text → SourceOutcome
  unavailable : Text → SourceOutcome
  budget_exhausted : ℕ → SourceOutcome
  unsupported : SourceOutcome
  failed : Text → SourceOutcome
  timed_out : TimeLimit → SourceOutcome

-- `MAX_OUTCOME_TEXT` and `MAX_OUTCOME_ERRORS`.
abbrev pub max_outcome_text : ℕ
max_outcome_text = 300

abbrev pub max_outcome_errors : ℕ
max_outcome_errors = 20

abbrev pub bounded : Text → Text
bounded text = sanitize_single_line text max_outcome_text

-- `SourceOutcome::sanitized`.
abbrev pub sanitized : SourceOutcome → SourceOutcome
sanitized (unavailable reason) = unavailable (bounded reason)
sanitized (failed error) = failed (bounded error)
sanitized (partial observations errors) =
    partial observations (map bounded (take max_outcome_errors errors))
sanitized (succeeded observations) = succeeded observations
sanitized (budget_exhausted limit) = budget_exhausted limit
sanitized unsupported = unsupported
sanitized (timed_out limit) = timed_out limit

module _ (lib : Crates) where
  pub record SourceStatus : Type 0 where
    pub source : SourceId
    pub indicator : Indicator lib
    pub outcome : SourceOutcome
    pub started_at : Timestamp
    pub finished_at : Timestamp

  -- `SourceStatus::new`.
  abbrev pub new_status :
      SourceId → Indicator lib → SourceOutcome → Timestamp → Timestamp → SourceStatus
  new_status source indicator outcome started_at finished_at = record {
    source = source;
    indicator = indicator;
    outcome = sanitized outcome;
    started_at = started_at;
    finished_at = max finished_at started_at;
  }

  -- The random identifier and the constant tool information are left out.
  pub record Investigation : Type 0 where
    pub target : Indicator lib
    pub started_at : Timestamp
    pub finished_at : Option Timestamp
    pub observations : List (Observation lib)
    pub relationships : List (Relationship lib)
    pub findings : List Finding
    pub sources : List SourceStatus

  -- `Investigation::new`.
  unfoldable pub new : Indicator lib → Timestamp → Result IndicatorError Investigation
  new target started_at =
      ensure_investigable lib target
      >> ok (record {
        target = target;
        started_at = started_at;
        finished_at = none;
        observations = [];
        relationships = [];
        findings = [];
        sources = [];
      })

  -- `Investigation::observation`.
  abbrev pub find_observation : List (Observation lib) → ObservationId → Option (Observation lib)
  find_observation [] id = none
  find_observation (o ∷ os) id = if o.id == id then some o else find_observation os id

  -- The first identifier without an observation.
  abbrev pub find_unknown : List (Observation lib) → List ObservationId → Option ObservationId
  find_unknown os [] = none
  find_unknown os (id ∷ ids) =
      if not (is_some (find_observation os id)) then some id else find_unknown os ids

  abbrev pub unknown_error : Option ObservationId → Result ModelError (Unit {0})
  unknown_error none = ok tt
  unknown_error (some id) = err (unknown_observation id)

  -- `Investigation::ensure_known`.
  abbrev pub ensure_known : Investigation → List ObservationId → Result ModelError (Unit {0})
  ensure_known v ids = unknown_error (find_unknown v.observations ids)

  -- `Investigation::add_observation`.
  unfoldable pub add_observation : Investigation → Observation lib → Investigation
  add_observation v o = record v { observations = v.observations ++ o ∷ [] }

  -- The first relationship with the same edge takes the evidence; without one it is pushed.
  unfoldable pub merge_or_push :
      List (Relationship lib) → Relationship lib → List (Relationship lib)
  merge_or_push [] r = r ∷ []
  merge_or_push (q ∷ qs) r =
      if is_same_edge lib q r then merge_evidence lib q r ∷ qs else q ∷ merge_or_push qs r

  -- `Investigation::add_relationship`; an error leaves the investigation as it was.
  unfoldable pub add_relationship :
      Investigation → Relationship lib → Result ModelError Investigation
  add_relationship v r =
      ensure_known v r.evidence >> ok (record v { relationships = merge_or_push v.relationships r })

  -- `Investigation::add_finding`.
  unfoldable pub add_finding : Investigation → Finding → Result ModelError Investigation
  add_finding v f = ensure_known v f.evidence >> ok (record v { findings = v.findings ++ f ∷ [] })

  -- `Investigation::record_source`.
  abbrev pub record_source : Investigation → SourceStatus → Investigation
  record_source v status = record v { sources = v.sources ++ status ∷ [] }

  -- `Investigation::finish`.
  unfoldable pub finish : Investigation → Timestamp → Result ModelError Investigation
  finish v at =
      if ltb at v.started_at
      then err finished_before_start
      else ok (record v { finished_at = some at })
