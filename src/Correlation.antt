-- ===== src/Correlation.antt =====
-- crates/correlation/src/model.rs: correlations, their drafts and identifiers.
pub mod Index
pub mod Build
pub mod Report
pub mod Shared
use sentinel_osint.Common.{
  ℕ, ◌+◌, ◌-◌, ◌/◌, ◌%◌, Bool, List, [], ◌∷◌, ◌++◌, map, ltb, if◌then◌else◌, take,
}
use sentinel_osint.Common.Text.{Text, codes}
use sentinel_osint.Indicator.Defs.{Crates}
use sentinel_osint.Indicator.Policy.{Indicator}
use sentinel_osint.Evidence.Confidence.{Confidence}
use sentinel_osint.Evidence.Entities.{Entity, entity_type}
use sentinel_osint.Evidence.Entities
use sentinel_osint.Evidence.Findings.{Severity, Finding, new, with_evidence}
use sentinel_osint.Evidence.Observations.{ObservationId, SourceId, Timestamp, Observation}
use sentinel_osint.Evidence.Relationships.{Relationship}

abbrev pub not_simultaneous : Text
not_simultaneous =
    codes
      "The observations were collected at different times; they may not describe the same moment or state."

-- What the crates `sha2` and `uuid`, the standard library and the derived orders offer.
pub record Outside (lib : Crates) : Type 0 where
  pub sha256 : List ℕ → List ℕ
  pub uuid_bytes : ObservationId → List ℕ
  pub as_bytes : Text → List ℕ
  pub to_string : Entity lib → Text
  pub entity_le : Entity lib → Entity lib → Bool

-- `struct CorrelationId([u8; 16])`.
pub record CorrelationId : Type 0 where
  pub bytes : List ℕ

pub data CorrelationKind : Type 0 where
  domain_ip_infrastructure domain_certificate ct_dns_names : CorrelationKind
  multiple_sources source_disagreement shared_infrastructure : CorrelationKind

-- `CorrelationKind::as_str`.
abbrev pub as_str : CorrelationKind → Text
as_str domain_ip_infrastructure = codes "domain_ip_infrastructure"
as_str domain_certificate = codes "domain_certificate"
as_str ct_dns_names = codes "ct_dns_names"
as_str multiple_sources = codes "multiple_sources"
as_str source_disagreement = codes "source_disagreement"
as_str shared_infrastructure = codes "shared_infrastructure"

-- `CorrelationKind::finding_code`.
abbrev pub finding_code : CorrelationKind → Text
finding_code domain_ip_infrastructure = codes "correlation.domain_ip_infrastructure"
finding_code domain_certificate = codes "correlation.domain_certificate"
finding_code ct_dns_names = codes "correlation.ct_dns_names"
finding_code multiple_sources = codes "correlation.multiple_sources"
finding_code source_disagreement = codes "correlation.source_disagreement"
finding_code shared_infrastructure = codes "correlation.shared_infrastructure"

-- `CorrelationKind::title`.
abbrev pub title : CorrelationKind → Text
title domain_ip_infrastructure = codes "Domain, address and network context are connected"
title domain_certificate = codes "Certificates list the investigated domain"
title ct_dns_names = codes "Certificate names also appear in DNS data"
title multiple_sources = codes "Several providers report on the same indicator"
title source_disagreement = codes "Providers disagree about the same indicator"
title shared_infrastructure = codes "Several indicators share an infrastructure element"

pub data ProviderStance : Type 0 where
  flags does_not_flag no_record unclear : ProviderStance

-- `ProviderStance::as_str`.
abbrev pub stance_str : ProviderStance → Text
stance_str flags = codes "flags"
stance_str does_not_flag = codes "does_not_flag"
stance_str no_record = codes "no_record"
stance_str unclear = codes "unclear"

pub record ProviderClaim : Type 0 where
  pub provider : SourceId
  pub observation : ObservationId
  pub stance : ProviderStance
  pub summary : Text
  pub collected_at : Timestamp

pub record Conflict : Type 0 where
  pub description : Text
  pub evidence : List ObservationId

pub record ObservedWindow : Type 0 where
  pub first : Timestamp
  pub last : Timestamp

pub data CorrelationError : Type 0 where
  missing_evidence : CorrelationError
  unknown_observation : ObservationId → CorrelationError
  unknown_entity : CorrelationError

-- A digit of `{:02x}`.
abbrev hex_digit : ℕ → ℕ
hex_digit d = if ltb d 10 then b'0' + d else b'a' + (d - 10)

abbrev hex : List ℕ → Text
hex [] = []
hex (b ∷ bytes) = hex_digit (b / 16) ∷ hex_digit (b % 16) ∷ hex bytes

-- `Display` of a `CorrelationId`.
abbrev pub id_text : CorrelationId → Text
id_text id = codes "corr-" ++ hex id.bytes

module _ (lib : Crates) where
  pub record Draft : Type 0 where
    pub summary : Text
    pub subjects : List (Entity lib)
    pub links : List (Relationship lib)
    pub claims : List ProviderClaim
    pub supporting : List ObservationId
    pub conflicts : List Conflict
    pub gaps : List Text
    pub limitations : List Text

  pub record Correlation : Type 0 where
    pub id : CorrelationId
    pub kind : CorrelationKind
    pub finding_code : Text
    pub summary : Text
    pub subjects : List (Entity lib)
    pub links : List (Relationship lib)
    pub claims : List ProviderClaim
    pub supporting : List ObservationId
    pub conflicts : List Conflict
    pub gaps : List Text
    pub observed : ObservedWindow
    pub evidence : List ObservationId
    pub evidence_confidence : Confidence
    pub limitations : List Text

  -- `Correlation::finding`.
  unfoldable pub finding : Correlation → Finding
  unfolding with_evidence
  finding c =
      with_evidence
        (new c.finding_code Severity.info (title c.kind)
          (c.summary ++ codes " (correlation " ++ id_text c.id ++ codes ")") c.evidence_confidence)
        c.evidence

  module _ (outside : Outside lib) where
    abbrev pub subject_bytes : List (Entity lib) → List ℕ
    subject_bytes [] = []
    subject_bytes (s ∷ ss) =
        0x1f ∷ b's' ∷ outside.as_bytes (Entities.as_str (entity_type lib s))
        ++ b':' ∷ outside.as_bytes (outside.to_string s)
        ++ subject_bytes ss

    abbrev pub evidence_bytes : List ObservationId → List ℕ
    evidence_bytes [] = []
    evidence_bytes (id ∷ ids) = 0x1f ∷ b'e' ∷ outside.uuid_bytes id ++ evidence_bytes ids

    -- `CorrelationId::derive`; the updates of the hasher are one text.
    unfoldable pub derive : CorrelationKind → List (Entity lib) → List ObservationId → CorrelationId
    derive kind subjects evidence = record {
      bytes = take 16 (
          outside.sha256
            (outside.as_bytes (as_str kind) ++ subject_bytes subjects ++ evidence_bytes evidence));
    }
