-- ===== src/Engine/Collectors.antt =====
-- crates/collectors/src/collector.rs: what the engine sees of a collector, collections and the
-- request budget.
use sentinel_osint.Common.{
  ℕ, ◌+◌, Bool, true, false, List, [], ◌∷◌, ◌++◌, ltb, if◌then◌else◌, Result, ok, err,
}
use sentinel_osint.Common.Text.{Text}
use sentinel_osint.Indicator.Defs.{Crates}
use sentinel_osint.Indicator.Policy.{Indicator}
use sentinel_osint.Http.Body.{HttpError}
use sentinel_osint.Evidence.Findings.{Finding}
use sentinel_osint.Evidence.Observations.{ObservationId, SourceId, Observation}
use sentinel_osint.Evidence.Relationships.{Relationship}

pub data CollectorScope : Type 0 where
  target_only target_and_pivots : CollectorScope

pub data Availability : Type 0 where
  ready : Availability
  unavailable : Text → Availability

-- crates/collectors/src/dns/mod.rs: `DnsQueryError`.
pub data DnsQueryError : Type 0 where
  nx_domain no_records timed_out invalid_name failure : DnsQueryError

-- The fixed explanations are texts.
pub data CollectorError : Type 0 where
  http : HttpError → CollectorError
  unexpected_status : ℕ → CollectorError
  provider_status : ℕ → Text → CollectorError
  invalid_response : Text → CollectorError
  refused_target not_configured : CollectorError
  dns : DnsQueryError → CollectorError
  request_budget_exhausted : ℕ → CollectorError

pub record RequestBudget : Type 0 where
  pub limit : ℕ
  pub used : ℕ

-- `RequestBudget::new`.
abbrev pub new_budget : ℕ → RequestBudget
new_budget limit = record { limit = limit; used = 0 }

-- `RequestBudget::try_acquire`: the atomic update, and whether it took a request.
unfoldable pub try_acquire : RequestBudget → Bool × RequestBudget
try_acquire b = if ltb b.used b.limit then (true, record b { used = b.used + 1 }) else (false, b)

abbrev acquired : ℕ → Bool → Result CollectorError (Unit {0})
acquired limit true = ok tt
acquired limit false = err (request_budget_exhausted limit)

-- `CollectContext::acquire_request`.
unfoldable pub acquire_request : RequestBudget → Result CollectorError (Unit {0}) × RequestBudget
unfolding try_acquire
acquire_request b = let (taken, c) = try_acquire b in (acquired c.limit taken, c)

module _ (lib : Crates) where
  -- The results of `id`, `supports`, `scope` and `availability`.
  pub record Collector : Type 0 where
    pub id : SourceId
    pub supports : Indicator lib → Bool
    pub scope : CollectorScope
    pub availability : Availability

  pub record Collection : Type 0 where
    pub observations : List (Observation lib)
    pub relationships : List (Relationship lib)
    pub findings : List Finding
    pub pivots : List (Indicator lib)
    pub failures : List Text

  -- `Collection::new`.
  abbrev pub new_collection : Collection
  new_collection = record {
    observations = [];
    relationships = [];
    findings = [];
    pivots = [];
    failures = [];
  }

  -- `Collection::observe`, with the identifier that it returns.
  abbrev pub observe : Collection → Observation lib → ObservationId × Collection
  observe c o = (o.id, record c { observations = c.observations ++ o ∷ [] })

  -- `Collection::relate`.
  abbrev pub relate : Collection → Relationship lib → Collection
  relate c r = record c { relationships = c.relationships ++ r ∷ [] }

  -- `Collection::find`.
  abbrev pub find : Collection → Finding → Collection
  find c f = record c { findings = c.findings ++ f ∷ [] }

  -- `Collection::pivot`.
  abbrev pub pivot : Collection → Indicator lib → Collection
  pivot c i = record c { pivots = c.pivots ++ i ∷ [] }

  -- `Collection::note_failure`.
  abbrev pub note_failure : Collection → Text → Collection
  note_failure c message = record c { failures = c.failures ++ message ∷ [] }
