-- ===== src/Correlation/Shared/Usable.antt =====
-- The relationships of an intact investigation name only what its index knows.
use sentinel_osint.Common.{
  Bool, true, false, List, [], ◌∷◌, is_empty, any, ◌||◌, nat_eq, =?_refl, ◌≡◌, ◌≢◌, refl, ap, ◌∙◌,
  arith, All, All-map,
}
use sentinel_osint.Common.Text.{is_some}
use sentinel_osint.Common.Sorting.{sort}
use sentinel_osint.Common.Sorting.Laws.{All-sort, All-dedup}
use sentinel_osint.Indicator.Defs.{Crates}
use sentinel_osint.Evidence.Entities.{entity_beq, entity_beq_iff}
use sentinel_osint.Evidence.Observations.{ObservationId}
use sentinel_osint.Evidence.Relationships.{Relationship, is_same_edge}
use sentinel_osint.Evidence.Relationships.Laws.{IsRelationship}
use sentinel_osint.Investigation.{Investigation}
use sentinel_osint.Investigation.Integrity.{Known, IsIntact}
use sentinel_osint.Correlation.{Outside}
use sentinel_osint.Correlation.Index.{ends, canonical, edge_le, new, knows_entity}
use sentinel_osint.Correlation.Index.Laws.{observation-new}
use sentinel_osint.Correlation.Shared.Buildable.{Has, IsUsable}

module _ (lib : Crates) (outside : Outside lib) (v : Investigation lib)
    (intact : IsIntact lib v) where
  in_ends :
      (rs : List (Relationship lib))
      → All
          (λ r.
            (any (entity_beq lib r.source) (ends lib rs) ≡ true)
            × (any (entity_beq lib r.target) (ends lib rs) ≡ true))
          rs
  in_ends [] = tt
  in_ends (r ∷ rs) = (
    (
      ground (arith, (entity_beq_iff lib r.source r.source).1 refl),
      ground (arith, (entity_beq_iff lib r.target r.target).1 refl),
    ),
    All-map _ _ (λ q (s, t). (ground arith, ground arith)) rs (in_ends rs),
  )

  usable_of :
      (rs : List (Relationship lib))
      → All (IsRelationship lib) rs
      → All (λ r. Known lib v.observations r.evidence) rs
      → All
          (λ r.
            (is_empty r.evidence ≡ false) × All (Has lib outside (new lib outside v)) r.evidence)
          rs
  usable_of [] h k = tt
  usable_of (r ∷ rs) (valid, h) (known, k) =
      ((filled r.evidence valid.has_evidence, all_known r.evidence known), usable_of rs h k)
    where
      filled : (ids : List ObservationId) → ids ≢ [] → is_empty ids ≡ false
      filled [] n = absurd (n refl)
      filled (id ∷ ids) n = refl

      all_known :
          (ids : List ObservationId)
          → Known lib v.observations ids
          → All (Has lib outside (new lib outside v)) ids
      all_known [] f = tt
      all_known (id ∷ ids) f = (
        ap is_some ((observation-new lib outside v).0 id) ∙ f id (ground (arith, =?_refl id)),
        all_known ids (λ i m. f i (ground arith)),
      )

  together :
      (rs : List (Relationship lib))
      → All
          (λ r.
            (any (entity_beq lib r.source) (new lib outside v).entities ≡ true)
            × (any (entity_beq lib r.target) (new lib outside v).entities ≡ true))
          rs
      → All
          (λ r.
            (is_empty r.evidence ≡ false) × All (Has lib outside (new lib outside v)) r.evidence)
          rs
      → All (IsUsable lib outside (new lib outside v)) rs
  unfolding knows_entity
  together [] h k = tt
  together (r ∷ rs) ((s, t), h) ((n, has), k) = (
    record { source = either_of _ _ s; target = either_of _ _ t; has_evidence = n; evidence = has },
    together rs h k,
  )
    where
      either_of : (a b : Bool) → a ≡ true → (a || b) ≡ true
      either_of a b e = ground arith

  pub new-IsUsable :
      All (IsUsable lib outside (new lib outside v)) (new lib outside v).relationships
  unfolding new canonical
  new-IsUsable =
      let rs = canonical lib outside v.relationships in
      together rs (in_ends rs) (
        All-dedup _ (is_same_edge lib) (sort (edge_le lib outside) v.relationships) (
          All-sort _ (edge_le lib outside) v.relationships
            (usable_of v.relationships intact.relationships_valid intact.relationships_known)))
