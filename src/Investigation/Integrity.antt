-- ===== src/Investigation/Integrity.antt =====
-- The invariants that the documentation of `Investigation` promises, and that every operation
-- keeps them; the relationships as a set of edges with their evidence.
use sentinel_osint.Common.{
  ℕ, ◌≤◌, Bool, true, false, Option, none, some, List, [], ◌∷◌, ◌++◌, ◌==◌, ok, ◌≡◌, ◌≢◌, ◌↔◌, refl,
  arith, ◌∙◌, subst, All, Bool-cases, inl, inr, contains, nat_eq, ==_iff, =?_refl,
}
use sentinel_osint.Common.Text.{is_some}
use sentinel_osint.Indicator.Defs.{Crates}
use sentinel_osint.Indicator.Policy.{ensure_investigable}
use sentinel_osint.Evidence.Observations.{ObservationId, Timestamp, Observation}
use sentinel_osint.Evidence.Relationships.{
  RelationKind, kind_beq, Relationship, is_same_edge, merge_evidence,
}
use sentinel_osint.Evidence.Relationships.Laws.{
  IsRelationship, push_new-Distinct, contains-push_new,
}
use sentinel_osint.Investigation.{Investigation, find_observation, find_unknown, merge_or_push}

pub kind_beq_iff : (x y : RelationKind) → (kind_beq x y ≡ true) ↔ (x ≡ y)
kind_beq_iff x y = ground arith

member_of : (ids : List ℕ) → ids ≢ [] → (id : ℕ) × (contains ids id ≡ true)
member_of [] h = absurd (h refl)
member_of (x ∷ ids) h = (x, ground (arith, =?_refl x))

contains_nonempty : (ids : List ℕ) (id : ℕ) → contains ids id ≡ true → ids ≢ []
contains_nonempty [] id h = absurd (ground arith)
contains_nonempty (x ∷ ids) id h = λ e. cc

module _ (lib : Crates) where
  abbrev pub has : List (Observation lib) → ObservationId → Bool
  has os id = is_some (find_observation lib os id)

  -- Every cited identifier is one of an observation at hand.
  abbrev pub Known : List (Observation lib) → List ObservationId → Type 0
  Known os ids = (id : ObservationId) → contains ids id ≡ true → has os id ≡ true

  has-append :
      (os : List (Observation lib)) (o : Observation lib) (id : ObservationId)
      → has os id ≡ true
      → has (os ++ o ∷ []) id ≡ true
  has-append [] o id h = absurd (ground arith)
  has-append (p ∷ os) o id h = ground (arith, has-append os o id)

  pub Known-append :
      (os : List (Observation lib)) (o : Observation lib) (ids : List ObservationId)
      → Known os ids
      → Known (os ++ o ∷ []) ids
  Known-append os o ids k id h = has-append os o id (k id h)

  pub find_unknown-Known :
      (os : List (Observation lib)) (ids : List ObservationId)
      → find_unknown lib os ids ≡ none
      → Known os ids
  find_unknown-Known os [] e id h = absurd (ground arith)
  find_unknown-Known os (x ∷ ids) e id h = elim (Bool-cases (x == id)) [
    | inl y ↦ elim (Bool-cases (has os x)) [
      | inl k ↦ subst (λ z. has os z ≡ true) ((==_iff x id).0 y) k
      | inr n ↦ absurd (ground arith)
    ]
    | inr n ↦ elim (Bool-cases (has os x)) [
      | inl k ↦ find_unknown-Known os ids (ground arith) id (ground arith)
      | inr m ↦ absurd (ground arith)
    ]
  ]

  -- No edge stands twice.
  abbrev pub DistinctEdges : List (Relationship lib) → Type 0
  DistinctEdges [] = Unit
  DistinctEdges (q ∷ qs) = All (λ r. is_same_edge lib q r ≡ false) qs × DistinctEdges qs

  abbrev pub EndsAfter : Timestamp → Option Timestamp → Type 0
  EndsAfter start none = Unit
  EndsAfter start (some end) = start ≤ end

  pub record IsIntact (v : Investigation lib) : Type 0 where
    pub target_public : ensure_investigable lib v.target ≡ ok tt
    pub relationships_valid : All (IsRelationship lib) v.relationships
    pub relationships_known : All (λ r. Known v.observations r.evidence) v.relationships
    pub findings_known : All (λ f. Known v.observations f.evidence) v.findings
    pub edges_distinct : DistinctEdges v.relationships
    pub ends_after_start : EndsAfter v.started_at v.finished_at

  pub merged-IsRelationship :
      (q r : Relationship lib) → IsRelationship lib q → IsRelationship lib (merge_evidence lib q r)
  unfolding merge_evidence
  merged-IsRelationship q r v = record {
    typed = v.typed;
    has_evidence =
        let (id, h) = member_of q.evidence v.has_evidence in
        contains_nonempty _ id (contains-push_new q.evidence r.evidence id ∙ ground arith);
    distinct = push_new-Distinct q.evidence r.evidence v.distinct;
  }

  -- A property that merging keeps holds of all relationships after `merge_or_push`.
  pub merge_or_push-All :
      (P : Relationship lib → Type 0) (r : Relationship lib)
      → ((q : Relationship lib) → P q → P (merge_evidence lib q r))
      → (qs : List (Relationship lib)) → All P qs
      → P r
      → All P (merge_or_push lib qs r)
  unfolding merge_or_push
  merge_or_push-All P r keep [] h p = (p, tt)
  merge_or_push-All P r keep (q ∷ qs) h p = elim (Bool-cases (is_same_edge lib q r)) [
    | inl y ↦ rw y (keep q h.0, h.1)
    | inr n ↦ rw n (h.0, merge_or_push-All P r keep qs h.1 p)
  ]

  same_edge_merged :
      (x q r : Relationship lib)
      → is_same_edge lib x (merge_evidence lib q r) ≡ is_same_edge lib x q
  unfolding merge_evidence
  same_edge_merged x q r = refl

  merged_same_edge :
      (x q r : Relationship lib)
      → is_same_edge lib (merge_evidence lib q r) x ≡ is_same_edge lib q x
  unfolding merge_evidence
  merged_same_edge x q r = refl

  pub merge_or_push-DistinctEdges :
      (qs : List (Relationship lib)) (r : Relationship lib)
      → DistinctEdges qs
      → DistinctEdges (merge_or_push lib qs r)
  unfolding merge_or_push merge_evidence
  merge_or_push-DistinctEdges [] r d = (tt, tt)
  merge_or_push-DistinctEdges (q ∷ qs) r d = elim (Bool-cases (is_same_edge lib q r)) [
    | inl y ↦ rw y d
    | inr n ↦ rw n (
      merge_or_push-All (λ x. is_same_edge lib q x ≡ false) r (λ x h. same_edge_merged q x r ∙ h) qs
          d.0 n,
      merge_or_push-DistinctEdges qs r d.1,
    )
  ]
