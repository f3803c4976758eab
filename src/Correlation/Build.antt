-- ===== src/Correlation/Build.antt =====
-- crates/correlation/src/model.rs: `Draft::build`.
pub mod Bounds
pub mod Laws
pub mod Succeeds
use sentinel_osint.Common.{
  ℕ, Bool, true, false, not, ◌&&◌, ◌||◌, Option, none, some, List, [], ◌∷◌, ◌++◌, map, ltb, leb,
  ◌==◌, min, max, if◌then◌else◌, any, all, is_empty, list_beq, nat_eq, Result, ok, err, ◌>>=◌,
}
use sentinel_osint.Common.Text.{Text}
use sentinel_osint.Common.Sorting.{sort, dedup}
use sentinel_osint.Indicator.Defs.{Crates}
use sentinel_osint.Evidence.Confidence.{Confidence}
use sentinel_osint.Evidence.Entities.{Entity, entity_beq}
use sentinel_osint.Evidence.Observations.{ObservationId, Timestamp, Observation}
use sentinel_osint.Evidence.Relationships.{Relationship}
use sentinel_osint.Correlation.{
  Outside, not_simultaneous, CorrelationKind, finding_code, ProviderClaim, Conflict, ObservedWindow,
  CorrelationError, missing_evidence, unknown_observation, unknown_entity, Draft, Correlation,
  derive,
}
use sentinel_osint.Correlation.Index.{EvidenceIndex, observation, knows_entity, canonical, text_le}

-- `iter().flat_map(...)`.
abbrev pub flat_map : {A : Type 0} → (A → List ObservationId) → List A → List ObservationId
flat_map f [] = []
flat_map f (x ∷ xs) = f x ++ flat_map f xs

-- `sort_unstable` and `dedup` of identifiers.
unfoldable pub sorted_ids : List ObservationId → List ObservationId
unfolding sort dedup
sorted_ids ids = dedup ◌==◌ (sort leb ids)

-- `(provider, collected_at, observation)`.
abbrev claim_le : ProviderClaim → ProviderClaim → Bool
claim_le a b =
    if list_beq a.provider b.provider
    then ltb a.collected_at b.collected_at
      || (a.collected_at == b.collected_at && leb a.observation b.observation)
    else text_le a.provider b.provider

unfoldable pub sorted_claims : List ProviderClaim → List ProviderClaim
unfolding sort dedup
sorted_claims claims = dedup (λ a b. a.observation == b.observation) (sort claim_le claims)

abbrev sort_conflict : Conflict → Conflict
unfolding sorted_ids
sort_conflict c = record c { evidence = sorted_ids c.evidence }

unfoldable pub sorted_conflicts : List Conflict → List Conflict
unfolding sort_conflict
sorted_conflicts conflicts = map sort_conflict conflicts

abbrev pub or_least : ℕ → Option ℕ → Option ℕ
or_least n none = some n
or_least n (some m) = some (min n m)

abbrev pub or_greatest : ℕ → Option ℕ → Option ℕ
or_greatest n none = some n
or_greatest n (some m) = some (max n m)

-- `Iterator::min` and `Iterator::max`.
abbrev pub least : List ℕ → Option ℕ
least [] = none
least (n ∷ ns) = or_least n (least ns)

abbrev pub greatest : List ℕ → Option ℕ
greatest [] = none
greatest (n ∷ ns) = or_greatest n (greatest ns)

abbrev pub window_of : Option ℕ → Option ℕ → Result CorrelationError ObservedWindow
window_of (some first) (some last) = ok (record { first = first; last = last })
window_of _ _ = err missing_evidence

abbrev pub or_zero : Option ℕ → Confidence
or_zero none = record { value = 0 }
or_zero (some value) = record { value = value }

module _ (lib : Crates) where
  -- What the parts of a draft cite.
  abbrev pub cited : Draft lib → List ObservationId
  cited d =
      flat_map (λ l. l.evidence) d.links
      ++ map (λ c. c.observation) d.claims
      ++ d.supporting
      ++ flat_map (λ c. c.evidence) d.conflicts

  abbrev pub found_or :
      ObservationId → Option (Observation lib) → Result CorrelationError (Observation lib)
  found_or id none = err (unknown_observation id)
  found_or id (some o) = ok o

  -- The loop over the evidence.
  unfoldable pub observations_of :
      EvidenceIndex lib → List ObservationId → Result CorrelationError (List (Observation lib))
  observations_of index [] = ok []
  observations_of index (id ∷ ids) = do
    o ← found_or id (observation lib index id)
    os ← observations_of index ids
    ok (o ∷ os)

  abbrev pub check_subjects :
      EvidenceIndex lib → List (Entity lib) → Result CorrelationError (Unit {0})
  unfolding knows_entity
  check_subjects index subjects =
      if not (all (knows_entity lib index) subjects) then err unknown_entity else ok tt

  unfoldable pub window : List (Observation lib) → Result CorrelationError ObservedWindow
  window os =
      window_of (least (map (λ o. o.collected_at) os)) (greatest (map (λ o. o.collected_at) os))

  unfoldable pub lowest_confidence : List (Observation lib) → Confidence
  lowest_confidence os = or_zero (least (map (λ o. o.confidence.value) os))

  unfoldable pub with_caveat : ObservedWindow → List Text → List Text
  unfolding dedup
  with_caveat w limitations =
      dedup list_beq
        (if not (w.first == w.last) then limitations ++ not_simultaneous ∷ [] else limitations)

  module _ (outside : Outside lib) where
    unfoldable pub sorted_subjects : List (Entity lib) → List (Entity lib)
    unfolding sort dedup
    sorted_subjects subjects = dedup (entity_beq lib) (sort outside.entity_le subjects)

    abbrev pub complete :
        Draft lib
        → CorrelationKind
        → List ObservationId
        → List (Observation lib)
        → ObservedWindow
        → Correlation lib
    unfolding sorted_subjects canonical sorted_claims sorted_ids sorted_conflicts with_caveat
        lowest_confidence derive
    complete d kind evidence os w = record {
      id = derive lib outside kind (sorted_subjects d.subjects) evidence;
      kind = kind;
      finding_code = finding_code kind;
      summary = d.summary;
      subjects = sorted_subjects d.subjects;
      links = canonical lib outside d.links;
      claims = sorted_claims d.claims;
      supporting = sorted_ids d.supporting;
      conflicts = sorted_conflicts d.conflicts;
      gaps = d.gaps;
      observed = w;
      evidence = evidence;
      evidence_confidence = lowest_confidence os;
      limitations = with_caveat w d.limitations;
    }

    -- `Draft::build`.
    unfoldable pub build :
        Draft lib → CorrelationKind → EvidenceIndex lib → Result CorrelationError (Correlation lib)
    unfolding complete observations_of check_subjects window
    build d kind index =
        let evidence = sorted_ids (cited d) in
        if any (λ c. is_empty c.evidence) d.conflicts
        then err missing_evidence
        else if is_empty evidence
        then err missing_evidence
        else do
          os ← observations_of index evidence
          checked ← check_subjects index (sorted_subjects d.subjects)
          w ← window os
          ok (complete d kind evidence os w)
