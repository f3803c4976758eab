-- ===== src/Correlation/Shared/Description.antt =====
-- What the rule on shared elements is to report, by the relationships of the index alone.
use sentinel_osint.Common.{
  ◌≤◌, false, ◌&&◌, ◌||◌, Option, none, List, [], ◌∷◌, ◌++◌, map, filter, length, nat_eq, ◌≡◌, ◌≢◌,
  Any,
}
use sentinel_osint.Common.Sorting.Pairs.{AllPairs}
use sentinel_osint.Indicator.Defs.{Crates}
use sentinel_osint.Evidence.Entities.{Entity, entity_beq}
use sentinel_osint.Evidence.Relationships.{
  RelationKind, announced_by, registered_in, resolves_to, covers_name, covers_wildcard, kind_beq,
  Relationship,
}
use sentinel_osint.Correlation.{Outside, shared_infrastructure, Correlation}
use sentinel_osint.Common.Text.{Text}
use sentinel_osint.Correlation.Index.{EvidenceIndex, canonical}
use sentinel_osint.Correlation.Report.{Emit}
use sentinel_osint.Correlation.Shared.Members.{among, Connects}

module _ (lib : Crates) (outside : Outside lib) (index : EvidenceIndex lib) where
  -- What a scan of the index's relationships gives for an element: the links of a kind to it, and the
  -- names that a certificate covers.
  abbrev pub links_to : RelationKind → Entity lib → List (Relationship lib)
  links_to kind x =
      filter (λ r. kind_beq r.kind kind && entity_beq lib r.target x) index.relationships

  abbrev pub links_from : RelationKind → Entity lib → List (Relationship lib)
  links_from kind x =
      filter (λ r. kind_beq r.kind kind && entity_beq lib r.source x) index.relationships

  abbrev pub covers : Entity lib → List (Relationship lib)
  covers x = links_from covers_name x ++ links_from covers_wildcard x

  -- The entities that a kind of relationship links to an element, and the names of a certificate.
  abbrev pub sources : RelationKind → Entity lib → List (Entity lib)
  sources kind x = map (λ r. r.source) (links_to kind x)

  abbrev pub names : Entity lib → List (Entity lib)
  names x = map (λ r. r.target) (covers x)

  -- A correlation on an element, whose subjects are the element and the others, with the links.
  pub record IsShared (x : Entity lib) (others : List (Entity lib))
      (links : List (Relationship lib)) (c : Correlation lib) : Type 0 where
    pub kind : c.kind ≡ shared_infrastructure
    pub subjects :
        (y : Entity lib) → among lib y c.subjects ≡ (entity_beq lib x y || among lib y others)
    pub links_kept : c.links ≡ canonical lib outside links

  -- One correlation for each of the elements.
  abbrev pub OneEach :
      (Entity lib → List (Entity lib))
      → (Entity lib → List (Relationship lib))
      → List (Entity lib)
      → List (Correlation lib)
      → Type 0
  OneEach others links [] [] = Unit
  OneEach others links (x ∷ xs) (c ∷ cs) =
      Connects lib (others x) × IsShared x (others x) (links x) c × OneEach others links xs cs
  OneEach others links _ _ = ⊥

  -- The elements differ, and each connects others and has one correlation.
  pub record IsReport (others : Entity lib → List (Entity lib))
      (links : Entity lib → List (Relationship lib)) (elements : List (Entity lib))
      (cs : List (Correlation lib)) : Type 0 where
    pub distinct : AllPairs (λ x y. entity_beq lib x y ≡ false) elements
    pub one_each : OneEach others links elements cs

  -- Every element that connects others is there.
  abbrev pub IsComplete : (Entity lib → List (Entity lib)) → List (Entity lib) → Type 0
  IsComplete others elements =
      (x : Entity lib) → Connects lib (others x) → Any (λ y. y ≡ x) elements

  -- What the rule adds, kind by kind.
  pub record IsSharedReport (e after : Emit lib outside) (note : Option Text) : Type 0 where
    pub systems : List (Entity lib)
    pub networks : List (Entity lib)
    pub addresses : List (Entity lib)
    pub certificates : List (Entity lib)
    pub of_systems : List (Correlation lib)
    pub of_networks : List (Correlation lib)
    pub of_addresses : List (Correlation lib)
    pub of_certificates : List (Correlation lib)
    pub rejected : after.rejected ≡ e.rejected
    pub built :
        after.built ≡ e.built ++ of_systems ++ of_networks ++ of_addresses ++ of_certificates
    pub systems_reported :
        IsReport (sources announced_by) (links_to announced_by) systems of_systems
    pub every_system : IsComplete (sources announced_by) systems
    pub networks_reported :
        IsReport (sources registered_in) (links_to registered_in) networks of_networks
    pub every_network : IsComplete (sources registered_in) networks
    pub addresses_reported :
        IsReport (sources resolves_to) (links_to resolves_to) addresses of_addresses
    pub every_address : IsComplete (sources resolves_to) addresses
    pub certificates_reported : IsReport names covers certificates of_certificates
    pub at_most_twenty : length of_certificates ≤ 20
    pub twenty : note ≢ none → length of_certificates ≡ 20
    pub every_certificate : note ≡ none → IsComplete names certificates
