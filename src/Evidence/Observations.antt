-- ===== src/Evidence/Observations.antt =====
-- crates/core/src/evidence/mod.rs: `SourceId` and `Observation`; crates/core/src/error.rs.
use sentinel_osint.Common.{ℕ, Bool, not, ◌&&◌, ◌||◌, ltb, ◌==◌, is_empty, all}
use sentinel_osint.Common.Text.{Text, is_ascii_digit, is_ascii_lowercase, len}
use sentinel_osint.Evidence.Confidence.{Confidence}
use sentinel_osint.Indicator.Defs.{Crates}
use sentinel_osint.Indicator.Policy.{Indicator}

-- A UUID as a number.
abbrev pub ObservationId : Type 0
ObservationId = ℕ

abbrev pub SourceId : Type 0
SourceId = Text

-- `is_valid_source_id`, which `SourceId::from_static` asserts.
unfoldable pub is_valid_source_id : Text → Bool
is_valid_source_id id =
    not (is_empty id || ltb 32 (len id))
    && all (λ b. is_ascii_lowercase b || is_ascii_digit b || b == b'_' || b == b'-') id

-- A point in time, counted from the earliest one.
abbrev pub Timestamp : Type 0
Timestamp = ℕ

-- The fields that the investigation, the engine and the correlation read.
pub record Observation (lib : Crates) : Type 0 where
  pub id : ObservationId
  pub indicator : Indicator lib
  pub source : SourceId
  pub collected_at : Timestamp
  pub confidence : Confidence
