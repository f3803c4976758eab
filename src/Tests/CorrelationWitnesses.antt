-- ===== src/Tests/CorrelationWitnesses.antt =====
-- The theorems on the correlation at a concrete investigation.
use sentinel_osint.Common.{
  none, ◌+◌, true, some, [], ◌∷◌, ◌++◌, filter, length, ◌&&◌, ok, ◌≡◌, refl, All, take,
}
use sentinel_osint.Common.Text.{codes}
use sentinel_osint.Evidence.Entities.{Entity, indicator, entity_beq}
use sentinel_osint.Evidence.Observations.{ObservationId}
use sentinel_osint.Evidence.Relationships.{Relationship, registered_in, kind_beq}
use sentinel_osint.Investigation.{Investigation, find_observation, add_finding}
use sentinel_osint.Correlation.{Outside, Draft, Correlation, domain_ip_infrastructure}
use sentinel_osint.Correlation.Index.{new, observation, from, to}
use sentinel_osint.Correlation.Index.Laws.{observation-new}
use sentinel_osint.Correlation.Index.Laws.Lookup.{from-to-new}
use sentinel_osint.Correlation.Build.{build}
use sentinel_osint.Correlation.Build.Bounds.{is_ok}
use sentinel_osint.Correlation.Build.Laws.{IsCorrelation, build-IsCorrelation}
use sentinel_osint.Correlation.Build.Succeeds.{is_buildable, is_ok-build}
use sentinel_osint.Correlation.Report.{new_emit, push_all, report}
use sentinel_osint.Correlation.Report.Sound.{report-add_finding}
use sentinel_osint.Tests.Samples.{sample_crates, example_target, seen}
use sentinel_osint.Indicator.Policy.{Indicator, ensure_investigable}
use sentinel_osint.Investigation.Integrity.{IsIntact, find_unknown-Known}
use sentinel_osint.Correlation.Shared.{correlate}
use sentinel_osint.Correlation.Shared.Description.{IsSharedReport}
use sentinel_osint.Correlation.Shared.Reported.{correlate-IsSharedReport}
use sentinel_osint.Tests.Samples.{address_of_name}
use sentinel_osint.Tests.EngineTests.{unfolded_engine}

abbrev sample_outside : Outside sample_crates
sample_outside = record {
  sha256 = λ bytes. bytes;
  uuid_bytes = λ id. id ∷ [];
  as_bytes = λ text. text;
  to_string = λ e. codes "entity";
  entity_le = λ a b. true;
}

abbrev target : Entity sample_crates
target = indicator example_target

abbrev sample_link : Relationship sample_crates
sample_link = record {
  source = target;
  kind = registered_in;
  target = target;
  evidence = 7 ∷ 7 ∷ [];
}

abbrev sample_investigation : Investigation sample_crates
sample_investigation = record {
  target = example_target;
  started_at = 1;
  finished_at = some 3;
  observations = seen ∷ seen ∷ [];
  relationships = sample_link ∷ [];
  findings = [];
  sources = [];
}

abbrev sample_draft : Draft sample_crates
sample_draft = record {
  summary = codes "one link";
  subjects = target ∷ [];
  links = sample_link ∷ [];
  claims = [];
  supporting = 7 ∷ [];
  conflicts = [];
  gaps = [];
  limitations = [];
}

abbrev built : Correlation sample_crates
built = record {
  id = record { bytes = take 16 (codes "domain_ip_infrastructure") };
  kind = domain_ip_infrastructure;
  finding_code = codes "correlation.domain_ip_infrastructure";
  summary = codes "one link";
  subjects = target ∷ [];
  links = sample_link ∷ [];
  claims = [];
  supporting = 7 ∷ [];
  conflicts = [];
  gaps = [];
  observed = record { first = 2; last = 2 };
  evidence = 7 ∷ [];
  evidence_confidence = record { value = 90 };
  limitations = [];
}

built_ok :
    build sample_crates sample_outside sample_draft domain_ip_infrastructure
      (new sample_crates sample_outside sample_investigation)
    ≡ ok built
unfolding build new
built_ok = refl

build-IsCorrelation_example :
    IsCorrelation sample_crates sample_outside
      (new sample_crates sample_outside sample_investigation)
      sample_draft
      built
build-IsCorrelation_example =
    build-IsCorrelation sample_crates sample_outside
      (new sample_crates sample_outside sample_investigation) sample_draft domain_ip_infrastructure
      built built_ok

is_ok-build_example :
    is_ok (
      build sample_crates sample_outside sample_draft domain_ip_infrastructure
        (new sample_crates sample_outside sample_investigation))
    ≡ is_buildable sample_crates sample_outside
        (new sample_crates sample_outside sample_investigation)
        sample_draft
is_ok-build_example =
    is_ok-build sample_crates sample_outside (new sample_crates sample_outside sample_investigation)
      sample_draft domain_ip_infrastructure

observation-new_example :
    ((id : ObservationId)
      → observation sample_crates (new sample_crates sample_outside sample_investigation) id
        ≡ find_observation sample_crates sample_investigation.observations id)
    × ((new sample_crates sample_outside sample_investigation).duplicate_ids
          + length (new sample_crates sample_outside sample_investigation).by_id
        ≡ length sample_investigation.observations)
observation-new_example = observation-new sample_crates sample_outside sample_investigation

from-to-new_example :
    (from sample_crates (new sample_crates sample_outside sample_investigation) registered_in target
      ≡ filter
          (λ r. kind_beq r.kind registered_in && entity_beq sample_crates r.source target)
          (new sample_crates sample_outside sample_investigation).relationships)
    × (to sample_crates (new sample_crates sample_outside sample_investigation) registered_in target
        ≡ filter
            (λ r. kind_beq r.kind registered_in && entity_beq sample_crates r.target target)
            (new sample_crates sample_outside sample_investigation).relationships)
from-to-new_example =
    from-to-new sample_crates sample_outside sample_investigation registered_in target

report-add_finding_example :
    All
      (λ f.
        add_finding sample_crates sample_investigation f
        ≡ ok (record sample_investigation { findings = sample_investigation.findings ++ f ∷ [] }))
      (report sample_crates sample_outside
        (new sample_crates sample_outside sample_investigation)
        (push_all sample_crates sample_outside
          (new sample_crates sample_outside sample_investigation)
          ((domain_ip_infrastructure, sample_draft) ∷ [])
          (new_emit sample_crates sample_outside))
        []).findings
report-add_finding_example =
    report-add_finding sample_crates sample_outside sample_investigation
      ((domain_ip_infrastructure, sample_draft) ∷ []) []

-- Two names that resolve to one address.
abbrev second_name : Relationship sample_crates
second_name = record address_of_name {
  source = indicator (Indicator.domain (record { name = codes "b.dev" }));
}

abbrev two_names : Investigation sample_crates
two_names = record {
  target = example_target;
  started_at = 1;
  finished_at = none;
  observations = seen ∷ [];
  relationships = address_of_name ∷ second_name ∷ [];
  findings = [];
  sources = [];
}

two_names_public : ensure_investigable sample_crates example_target ≡ ok tt
unfolding unfolded_engine
two_names_public = refl

two_names-IsIntact : IsIntact sample_crates two_names
two_names-IsIntact = record {
  target_public = two_names_public;
  relationships_valid = (
    record { typed = refl; has_evidence = λ e. cc; distinct = (refl, tt) },
    (record { typed = refl; has_evidence = λ e. cc; distinct = (refl, tt) }, tt),
  );
  relationships_known = (
    find_unknown-Known sample_crates (seen ∷ []) (7 ∷ []) refl,
    (find_unknown-Known sample_crates (seen ∷ []) (7 ∷ []) refl, tt),
  );
  findings_known = tt;
  edges_distinct = ((refl, tt), (tt, tt));
  ends_after_start = tt;
}

correlate-IsSharedReport_example :
    IsSharedReport sample_crates sample_outside
      (new sample_crates sample_outside two_names)
      (new_emit sample_crates sample_outside)
      (correlate sample_crates sample_outside
        (new sample_crates sample_outside two_names)
        (new_emit sample_crates sample_outside)).0
      (correlate sample_crates sample_outside
        (new sample_crates sample_outside two_names)
        (new_emit sample_crates sample_outside)).1
correlate-IsSharedReport_example =
    correlate-IsSharedReport sample_crates sample_outside two_names two_names-IsIntact
      (new_emit sample_crates sample_outside)
