-- ===== src/Evidence/Relationships.antt =====
-- crates/core/src/relationship.rs: `Relationship`.
pub mod Laws
use sentinel_osint.Common.{
  ℕ, Bool, true, false, not, ◌&&◌, List, [], ◌∷◌, if◌then◌else◌, is_empty, Result, ok, err,
}
use sentinel_osint.Indicator.Defs.{Crates}
use sentinel_osint.Evidence.Entities.{
  EntityType, domain, autonomous_system, network, certificate, is_ip, Entity, entity_type,
  entity_beq,
}
use sentinel_osint.Evidence.Findings.{push_new}
use sentinel_osint.Evidence.Observations.{ObservationId}

pub data RelationKind : Type 0 where
  resolves_to alias_of has_mail_exchanger has_nameserver : RelationKind
  announced_by registered_in covers_name covers_wildcard : RelationKind

abbrev pub kind_beq : RelationKind → RelationKind → Bool
kind_beq resolves_to resolves_to = true
kind_beq alias_of alias_of = true
kind_beq has_mail_exchanger has_mail_exchanger = true
kind_beq has_nameserver has_nameserver = true
kind_beq announced_by announced_by = true
kind_beq registered_in registered_in = true
kind_beq covers_name covers_name = true
kind_beq covers_wildcard covers_wildcard = true
kind_beq _ _ = false

abbrev is_domain : EntityType → Bool
is_domain domain = true
is_domain _ = false

abbrev is_autonomous_system : EntityType → Bool
is_autonomous_system autonomous_system = true
is_autonomous_system _ = false

abbrev is_network : EntityType → Bool
is_network network = true
is_network _ = false

abbrev is_certificate : EntityType → Bool
is_certificate certificate = true
is_certificate _ = false

-- `RelationKind::allows`.
abbrev pub allows : RelationKind → EntityType → EntityType → Bool
allows resolves_to source target = is_domain source && is_ip target
allows alias_of source target = is_domain source && is_domain target
allows has_mail_exchanger source target = is_domain source && is_domain target
allows has_nameserver source target = is_domain source && is_domain target
allows announced_by source target = is_ip source && is_autonomous_system target
allows registered_in source target = is_ip source && is_network target
allows covers_name source target = is_certificate source && is_domain target
allows covers_wildcard source target = is_certificate source && is_domain target

-- crates/core/src/error.rs: `ModelError`.
pub data ModelError : Type 0 where
  invalid_relationship : RelationKind → EntityType → EntityType → ModelError
  missing_evidence : ModelError
  unknown_observation : ObservationId → ModelError
  finished_before_start : ModelError

module _ (lib : Crates) where
  pub record Relationship : Type 0 where
    pub source : Entity lib
    pub kind : RelationKind
    pub target : Entity lib
    pub evidence : List ObservationId

  abbrev pub with_ids :
      Entity lib → RelationKind → Entity lib → List ObservationId → Result ModelError Relationship
  with_ids source kind target ids =
      if is_empty ids
      then err missing_evidence
      else ok (record { source = source; kind = kind; target = target; evidence = ids })

  -- `Relationship::new`.
  unfoldable pub new :
      Entity lib → RelationKind → Entity lib → List ObservationId → Result ModelError Relationship
  new source kind target evidence =
      if not (allows kind (entity_type lib source) (entity_type lib target))
      then err (invalid_relationship kind (entity_type lib source) (entity_type lib target))
      else with_ids source kind target (push_new [] evidence)

  -- `Relationship::is_same_edge`.
  abbrev pub is_same_edge : Relationship → Relationship → Bool
  is_same_edge r other =
      kind_beq r.kind other.kind
      && (entity_beq lib r.source other.source && entity_beq lib r.target other.target)

  -- `Relationship::merge_evidence`.
  unfoldable pub merge_evidence : Relationship → Relationship → Relationship
  merge_evidence r other = record r { evidence = push_new r.evidence other.evidence }
