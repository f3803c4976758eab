-- ===== src/Correlation/Index.antt =====
-- crates/correlation/src/index.rs: the indexes of one investigation.
pub mod Laws
use sentinel_osint.Common.{
  ℕ, zero, suc, ◌+◌, Bool, true, false, not, ◌&&◌, ◌||◌, Option, none, some, List, [], ◌∷◌, ◌++◌,
  ltb, leb, ◌==◌, if◌then◌else◌, any, filter, nat_eq, list_beq,
}
use sentinel_osint.Common.Text.{Text, get_elem?, is_some}
use sentinel_osint.Common.Sorting.{sort, dedup}
use sentinel_osint.Indicator.Defs.{Crates}
use sentinel_osint.Indicator.Policy.{Indicator}
use sentinel_osint.Indicator.Equality.{indicator_beq}
use sentinel_osint.Evidence.Entities.{Entity, indicator, entity_beq}
use sentinel_osint.Evidence.Observations.{ObservationId, Observation}
use sentinel_osint.Evidence.Relationships.{
  RelationKind, resolves_to, alias_of, has_mail_exchanger, has_nameserver, announced_by,
  registered_in, covers_name, covers_wildcard, kind_beq, Relationship, is_same_edge,
}
use sentinel_osint.Investigation.{
  Investigation, SourceStatus, SourceOutcome, succeeded, find_observation,
}
use sentinel_osint.Correlation.{Outside}

-- The order of the variants.
abbrev kind_rank : RelationKind → ℕ
kind_rank resolves_to = 0
kind_rank alias_of = 1
kind_rank has_mail_exchanger = 2
kind_rank has_nameserver = 3
kind_rank announced_by = 4
kind_rank registered_in = 5
kind_rank covers_name = 6
kind_rank covers_wildcard = 7

-- `Ord` of texts.
abbrev pub text_le : Text → Text → Bool
text_le [] t = true
text_le (c ∷ cs) [] = false
text_le (c ∷ cs) (d ∷ ds) = let rest = text_le cs ds in ltb c d || (c == d && rest)

module _ (lib : Crates) where
  abbrev pub Key : Type 0
  Key = RelationKind × Entity lib

  abbrev pub key_beq : Key → Key → Bool
  key_beq (k, s) (k', s') = kind_beq k k' && entity_beq lib s s'

  -- `entry(key).or_default().push(item)` on a map, for a key and an item of each.
  module _ {K : Type 0} {V : Type 0} (same : K → K → Bool) where
    abbrev pub push_entry : K → V → List (K × List V) → List (K × List V)
    push_entry key item [] = (key, item ∷ []) ∷ []
    push_entry key item ((k, items) ∷ more) =
        let rest = push_entry key item more in
        if same k key then (k, items ++ item ∷ []) ∷ more else (k, items) ∷ rest

    -- `get(key)`, and `&[]` without the key.
    abbrev pub get_entry : K → List (K × List V) → List V
    get_entry key [] = []
    get_entry key ((k, items) ∷ more) = if same k key then items else get_entry key more

  -- Sets are lists, and the maps keep the order of insertion.
  pub record EvidenceIndex : Type 0 where
    pub investigation : Investigation lib
    pub by_id : List (Observation lib)
    pub duplicate_ids : ℕ
    pub relationships : List (Relationship lib)
    pub by_kind_source : List (Key × List ℕ)
    pub by_kind_target : List (Key × List ℕ)
    pub by_indicator : List (Indicator lib × List (Observation lib))
    pub entities : List (Entity lib)
    pub indicators : List (Indicator lib)

  abbrev pub same_indicator : Indicator lib → Indicator lib → Bool
  same_indicator x y = indicator_beq lib x y

  -- The state of the first loop.
  pub record Seen : Type 0 where
    pub by_id : List (Observation lib)
    pub duplicate_ids : ℕ
    pub by_indicator : List (Indicator lib × List (Observation lib))

  abbrev pub see : Observation lib → Seen → Seen
  see o s =
      if is_some (find_observation lib s.by_id o.id)
      then record s { duplicate_ids = s.duplicate_ids + 1 }
      else record s {
        by_id = s.by_id ++ o ∷ [];
        by_indicator = push_entry same_indicator o.indicator o s.by_indicator;
      }

  abbrev pub see_all : List (Observation lib) → Seen → Seen
  see_all [] s = s
  see_all (o ∷ os) s = see_all os (see o s)

  -- `(source, collected_at, id)`.
  abbrev observation_le : Observation lib → Observation lib → Bool
  observation_le a b =
      if list_beq a.source b.source
      then ltb a.collected_at b.collected_at || (a.collected_at == b.collected_at && leb a.id b.id)
      else text_le a.source b.source

  unfoldable pub sort_entries :
      List (Indicator lib × List (Observation lib)) → List (Indicator lib × List (Observation lib))
  unfolding sort
  sort_entries [] = []
  sort_entries ((i, os) ∷ more) = (i, sort observation_le os) ∷ sort_entries more

  abbrev pub keys : List (Indicator lib × List (Observation lib)) → List (Indicator lib)
  keys [] = []
  keys ((i, os) ∷ more) = i ∷ keys more

  -- One map of the positions of the relationships, by the kind and one end.
  abbrev pub positions :
      (Relationship lib → Entity lib)
      → ℕ
      → List (Relationship lib)
      → List (Key × List ℕ)
      → List (Key × List ℕ)
  positions end i [] map = map
  positions end i (r ∷ rs) map = positions end (suc i) rs (push_entry key_beq (r.kind, end r) i map)

  abbrev pub ends : List (Relationship lib) → List (Entity lib)
  ends [] = []
  ends (r ∷ rs) = r.source ∷ r.target ∷ ends rs

  module _ (outside : Outside lib) where
    -- `(kind, source, target)`, by its three parts in turn.
    abbrev pub edge_le : Relationship lib → Relationship lib → Bool
    edge_le a b =
        if kind_beq a.kind b.kind
        then if entity_beq lib a.source b.source
          then outside.entity_le a.target b.target
          else outside.entity_le a.source b.source
        else ltb (kind_rank a.kind) (kind_rank b.kind)

    unfoldable pub canonical : List (Relationship lib) → List (Relationship lib)
    unfolding sort dedup
    canonical rs = dedup (is_same_edge lib) (sort edge_le rs)

    -- `EvidenceIndex::new`.
    unfoldable pub new : Investigation lib → EvidenceIndex
    unfolding sort_entries canonical
    new v =
        let seen =
          see_all v.observations (record { by_id = []; duplicate_ids = 0; by_indicator = [] }) in
        let relationships = canonical v.relationships in
        record {
          investigation = v;
          by_id = seen.by_id;
          duplicate_ids = seen.duplicate_ids;
          relationships = relationships;
          by_kind_source = positions (λ r. r.source) 0 relationships [];
          by_kind_target = positions (λ r. r.target) 0 relationships [];
          by_indicator = sort_entries seen.by_indicator;
          entities = ends relationships;
          indicators = v.target ∷ keys seen.by_indicator;
        }

  -- `EvidenceIndex::observation`.
  abbrev pub observation : EvidenceIndex → ObservationId → Option (Observation lib)
  observation index id = find_observation lib index.by_id id

  abbrev pub is_indicator_of : List (Indicator lib) → Entity lib → Bool
  is_indicator_of indicators (indicator i) = any (same_indicator i) indicators
  is_indicator_of indicators _ = false

  -- `EvidenceIndex::knows_entity`.
  unfoldable pub knows_entity : EvidenceIndex → Entity lib → Bool
  knows_entity index entity =
      any (entity_beq lib entity) index.entities || is_indicator_of index.indicators entity

  -- `EvidenceIndex::of_kind`.
  abbrev pub of_kind : EvidenceIndex → RelationKind → List (Relationship lib)
  of_kind index kind = filter (λ r. kind_beq r.kind kind) index.relationships

  -- The relationships at the positions; no position is past the end.
  abbrev cons_found : Option (Relationship lib) → List (Relationship lib) → List (Relationship lib)
  cons_found none rest = rest
  cons_found (some r) rest = r ∷ rest

  abbrev pub at_positions : List (Relationship lib) → List ℕ → List (Relationship lib)
  at_positions rs [] = []
  at_positions rs (i ∷ is) = cons_found (get_elem? rs i) (at_positions rs is)

  -- `EvidenceIndex::lookup`.
  abbrev pub lookup :
      EvidenceIndex → List (Key × List ℕ) → RelationKind → Entity lib → List (Relationship lib)
  lookup index map kind entity =
      at_positions index.relationships (get_entry key_beq (kind, entity) map)

  -- `EvidenceIndex::from` and `EvidenceIndex::to`.
  unfoldable pub from : EvidenceIndex → RelationKind → Entity lib → List (Relationship lib)
  from index kind entity = lookup index index.by_kind_source kind entity

  unfoldable pub to : EvidenceIndex → RelationKind → Entity lib → List (Relationship lib)
  to index kind entity = lookup index index.by_kind_target kind entity

  -- `EvidenceIndex::observations_about`.
  unfoldable pub observations_about : EvidenceIndex → Indicator lib → List (Observation lib)
  observations_about index i = get_entry same_indicator i index.by_indicator

  abbrev is_succeeded : SourceOutcome → Bool
  is_succeeded (succeeded n) = true
  is_succeeded _ = false

  -- `EvidenceIndex::unsuccessful_sources`.
  abbrev pub unsuccessful_sources : EvidenceIndex → Indicator lib → List (SourceStatus lib)
  unsuccessful_sources index i =
      filter (λ s. not (is_succeeded s.outcome))
        (filter (λ s. indicator_beq lib s.indicator i) index.investigation.sources)
