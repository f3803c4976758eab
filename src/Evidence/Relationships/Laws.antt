-- ===== src/Evidence/Relationships/Laws.antt =====
-- Evidence lists without repetition, and what `Relationship::new` guarantees.
use sentinel_osint.Common.{
  Bool, true, not, ◌||◌, List, [], ◌∷◌, ◌++◌, if◌then◌else◌, Result, ok, err, ◌≡◌, ◌≢◌, arith, sym,
  ap, ◌∙◌, Bool-cases, inl, inr, nat_eq, contains, contains-append, Distinct, Distinct-concat, ◌==◌,
  subst, All, All-append,
}
use sentinel_osint.Indicator.Defs.{Crates}
use sentinel_osint.Evidence.Entities.{Entity, entity_type}
use sentinel_osint.Evidence.Findings.{push_new}
use sentinel_osint.Evidence.Observations.{ObservationId}
use sentinel_osint.Evidence.Relationships.{
  RelationKind, allows, ModelError, Relationship, new, with_ids,
}

abbrev pushed : List ObservationId → ObservationId → List ObservationId
pushed ids id = if contains ids id then ids else ids ++ id ∷ []

pushed-Distinct :
    (ids : List ObservationId) (id : ObservationId) → Distinct ids → Distinct (pushed ids id)
pushed-Distinct ids id d = elim (Bool-cases (contains ids id)) [
  | inl y ↦ rw y d
  | inr n ↦ rw n (Distinct-concat ids id d n)
]

contains-pushed :
    (ids : List ObservationId) (id a : ObservationId)
    → contains (pushed ids id) a ≡ (contains ids a || id == a)
contains-pushed ids id a = elim (Bool-cases (contains ids id)) [
  | inl y ↦ rw y (present ids id a y)
  | inr n ↦ rw n (ground (arith, contains-append ids (id ∷ []) a))
]
  where
    present :
        (ids : List ObservationId) (id a : ObservationId)
        → contains ids id ≡ true
        → contains ids a ≡ (contains ids a || id == a)
    present ids id a h = ground arith

-- Evidence is pushed once, and nothing is lost or made up.
pub push_new-Distinct :
    (ids more : List ObservationId) → Distinct ids → Distinct (push_new ids more)
unfolding push_new
push_new-Distinct ids [] d = d
push_new-Distinct ids (id ∷ more) d =
    push_new-Distinct (pushed ids id) more (pushed-Distinct ids id d)

pub contains-push_new :
    (ids more : List ObservationId) (a : ObservationId)
    → contains (push_new ids more) a ≡ (contains ids a || contains more a)
unfolding push_new
contains-push_new ids [] a = ground arith
contains-push_new ids (id ∷ more) a =
    ground (arith, contains-push_new (pushed ids id) more a, contains-pushed ids id a)

-- Whatever holds of all identifiers holds of those that are pushed.
module _ (P : ObservationId → Type 0) where
  pub All-push_new :
      (ids more : List ObservationId) → All P ids → All P more → All P (push_new ids more)
  unfolding push_new
  All-push_new ids [] h k = h
  All-push_new ids (id ∷ more) h (p, k) = elim (Bool-cases (contains ids id)) [
    | inl y ↦ rw y (All-push_new ids more h k)
    | inr n ↦ rw n (All-push_new (ids ++ id ∷ []) more (All-append P ids (id ∷ []) h (p, tt)) k)
  ]

-- A relationship of the kind that its ends allow, with evidence, none of it twice.
pub record IsRelationship (lib : Crates) (r : Relationship lib) : Type 0 where
  pub typed : allows r.kind (entity_type lib r.source) (entity_type lib r.target) ≡ true
  pub has_evidence : r.evidence ≢ []
  pub distinct : Distinct r.evidence

with_ids_inv :
    (lib : Crates) (source : Entity lib) (kind : RelationKind) (target : Entity lib)
    (ids : List ObservationId) (r : Relationship lib)
    → with_ids lib source kind target ids ≡ ok r
    → (ids ≢ []) × (r ≡ record { source = source; kind = kind; target = target; evidence = ids })
with_ids_inv lib source kind target [] r e = absurd (ground arith)
with_ids_inv lib source kind target (id ∷ ids) r e = ((λ n. cc), ground arith)

typed_inv :
    (lib : Crates) (typed : Bool) (why : ModelError) (q : Result ModelError (Relationship lib))
    (r : Relationship lib)
    → (if not typed then err why else q) ≡ ok r
    → (typed ≡ true) × (q ≡ ok r)
typed_inv lib typed why q r e = ground arith

-- A relationship that `new` returns connects ends that its kind allows, has the given ends and
-- kind, and cites exactly the given observations, at least one, and each once.
pub new-IsRelationship :
    (lib : Crates) (source : Entity lib) (kind : RelationKind) (target : Entity lib)
    (evidence : List ObservationId) (r : Relationship lib)
    → new lib source kind target evidence ≡ ok r
    → IsRelationship lib r
      × (r.source ≡ source)
      × (r.kind ≡ kind)
      × (r.target ≡ target)
      × ((a : ObservationId) → contains r.evidence a ≡ contains evidence a)
unfolding new
new-IsRelationship lib source kind target evidence r e =
    let (typed, q) =
      typed_inv lib (allows kind (entity_type lib source) (entity_type lib target)) _ _ r e in
    let ids : List ObservationId = push_new [] evidence in
    let (ne, same) = with_ids_inv lib source kind target ids r q in
    let made : Relationship lib = record {
      source = source;
      kind = kind;
      target = target;
      evidence = ids;
    } in
    let valid : IsRelationship lib made = record {
      typed = typed;
      has_evidence = ne;
      distinct = push_new-Distinct [] evidence tt;
    } in
    (
      subst (IsRelationship lib) (sym same) valid,
      ap (λ t. t.source) same,
      ap (λ t. t.kind) same,
      ap (λ t. t.target) same,
      λ a. ap (λ t. contains t.evidence a) same ∙ contains-push_new [] evidence a,
    )
