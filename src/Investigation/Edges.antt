-- ===== src/Investigation/Edges.antt =====
-- The relationships of an investigation as a set of edges with their evidence.
use sentinel_osint.Common.{
  Bool, true, false, ◌&&◌, ◌||◌, List, [], ◌∷◌, ◌≡◌, ◌↔◌, refl, arith, Bool-cases, inl, inr,
  contains, nat_eq,
}
use sentinel_osint.Indicator.Defs.{Crates}
use sentinel_osint.Evidence.Entities.{entity_beq_iff}
use sentinel_osint.Evidence.Observations.{ObservationId}
use sentinel_osint.Evidence.Relationships.{Relationship, is_same_edge, merge_evidence}
use sentinel_osint.Evidence.Relationships.Laws.{contains-push_new}
use sentinel_osint.Investigation.{merge_or_push}
use sentinel_osint.Investigation.Integrity.{kind_beq_iff}

module _ (lib : Crates) where
  -- Whether some relationship is the edge of `e` and cites the observation.
  abbrev pub cites : List (Relationship lib) → Relationship lib → ObservationId → Bool
  cites [] e id = false
  cites (q ∷ qs) e id = (is_same_edge lib q e && contains q.evidence id) || cites qs e id

  same_edge_iff :
      (q r : Relationship lib)
      → (is_same_edge lib q r ≡ true)
        ↔ ((q.kind ≡ r.kind) × (q.source ≡ r.source) × (q.target ≡ r.target))
  same_edge_iff q r = ground (
    arith,
    kind_beq_iff q.kind r.kind,
    entity_beq_iff lib q.source r.source,
    entity_beq_iff lib q.target r.target,
  )

  same_edge_congruent :
      (q r e : Relationship lib)
      → is_same_edge lib q r ≡ true
      → is_same_edge lib q e ≡ is_same_edge lib r e
  same_edge_congruent q r e h = let (k, s, t) = (same_edge_iff q r).0 h in rw (k, s, t) refl

  -- Merging or pushing a relationship cites for each edge what was cited before, and for the edge of the new
  -- relationship its evidence as well: nothing is lost, made up or given to another edge.
  pub merge_or_push-cites :
      (qs : List (Relationship lib)) (r e : Relationship lib) (id : ObservationId)
      → cites (merge_or_push lib qs r) e id
        ≡ (cites qs e id || (is_same_edge lib r e && contains r.evidence id))
  unfolding merge_or_push merge_evidence
  merge_or_push-cites [] r e id = ground arith
  merge_or_push-cites (q ∷ qs) r e id = elim (Bool-cases (is_same_edge lib q r)) [
    | inl y ↦
        rw y ground (arith, contains-push_new q.evidence r.evidence id, same_edge_congruent q r e y)
    | inr n ↦ rw n ground (arith, merge_or_push-cites qs r e id)
  ]
