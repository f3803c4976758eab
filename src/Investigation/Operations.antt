-- ===== src/Investigation/Operations.antt =====
-- Sequences of operations on an `Investigation`, an operation that fails leaving it as it was.
use sentinel_osint.Common.{
  Option, none, some, List, [], ◌∷◌, ◌++◌, ltb, Result, ok, err, ◌≡◌, refl, arith, All, All-append,
  Bool-cases, inl, inr, contains, nat_eq, >>=-eq-ok, subst, ok_eq,
}
use sentinel_osint.Indicator.Defs.{Crates}
use sentinel_osint.Indicator.Policy.{Indicator, ensure_investigable}
use sentinel_osint.Evidence.Findings.{Finding}
use sentinel_osint.Evidence.Observations.{ObservationId, Timestamp, Observation}
use sentinel_osint.Evidence.Relationships.{Relationship, merge_evidence}
use sentinel_osint.Evidence.Relationships.Laws.{IsRelationship, contains-push_new}
use sentinel_osint.Investigation.{
  Investigation, SourceStatus, new, ensure_known, unknown_error, add_observation, merge_or_push,
  add_relationship, add_finding, record_source, finish,
}
use sentinel_osint.Investigation.Integrity.{
  IsIntact, Known, Known-append, find_unknown-Known, merged-IsRelationship, merge_or_push-All,
  merge_or_push-DistinctEdges,
}

unfoldable pub kept_on_error {ℓ} : {E A : Type ℓ} → A → Result E A → A
kept_on_error v (ok w) = w
kept_on_error v (err e) = v

module _ (lib : Crates) where
  pub data Op : Type 0 where
    observe : Observation lib → Op
    relate : Relationship lib → Op
    find : Finding → Op
    account : SourceStatus lib → Op
    end : Timestamp → Op

  abbrev pub apply : Op → Investigation lib → Investigation lib
  apply (observe o) v = add_observation lib v o
  apply (relate r) v = kept_on_error v (add_relationship lib v r)
  apply (find f) v = kept_on_error v (add_finding lib v f)
  apply (account status) v = record_source lib v status
  apply (end at) v = kept_on_error v (finish lib v at)

  abbrev pub apply_all : List Op → Investigation lib → Investigation lib
  apply_all [] v = v
  apply_all (op ∷ ops) v = apply_all ops (apply op v)

  -- A relationship in an operation came from `Relationship::new`.
  abbrev pub WellTyped : Op → Type 0
  WellTyped (relate r) = IsRelationship lib r
  WellTyped _ = Unit

  All-map-Known :
      (os : List (Observation lib)) (o : Observation lib) (rs : List (Relationship lib))
      → All (λ r. Known lib os r.evidence) rs
      → All (λ r. Known lib (os ++ o ∷ []) r.evidence) rs
  All-map-Known os o [] h = tt
  All-map-Known os o (r ∷ rs) (h, t) = (Known-append lib os o r.evidence h, All-map-Known os o rs t)

  findings-Known :
      (os : List (Observation lib)) (o : Observation lib) (fs : List Finding)
      → All (λ f. Known lib os f.evidence) fs
      → All (λ f. Known lib (os ++ o ∷ []) f.evidence) fs
  findings-Known os o [] h = tt
  findings-Known os o (f ∷ fs) (h, t) =
      (Known-append lib os o f.evidence h, findings-Known os o fs t)

  pub add_observation-IsIntact :
      (v : Investigation lib) (o : Observation lib)
      → IsIntact lib v
      → IsIntact lib (add_observation lib v o)
  unfolding add_observation
  add_observation-IsIntact v o i = record {
    target_public = i.target_public;
    relationships_valid = i.relationships_valid;
    relationships_known = All-map-Known v.observations o v.relationships i.relationships_known;
    findings_known = findings-Known v.observations o v.findings i.findings_known;
    edges_distinct = i.edges_distinct;
    ends_after_start = i.ends_after_start;
  }

  ensure_known-Known :
      (v : Investigation lib) (ids : List ObservationId) (u : Unit {0})
      → ensure_known lib v ids ≡ ok u
      → Known lib v.observations ids
  ensure_known-Known v ids u e = find_unknown-Known lib v.observations ids (from_error _ e)
    where
      from_error : (o : Option ObservationId) → unknown_error lib o ≡ ok u → o ≡ none
      from_error none e = refl
      from_error (some id) e = cc

  Known-push_new :
      (os : List (Observation lib)) (q r : Relationship lib)
      → Known lib os r.evidence
      → Known lib os q.evidence
      → Known lib os ((merge_evidence lib q r).evidence)
  unfolding merge_evidence
  Known-push_new os q r k h id c = elim (Bool-cases (contains q.evidence id)) [
    | inl y ↦ h id y
    | inr n ↦ k id (ground (arith, contains-push_new q.evidence r.evidence id))
  ]

  pub add_relationship-IsIntact :
      (v w : Investigation lib) (r : Relationship lib)
      → IsRelationship lib r
      → add_relationship lib v r ≡ ok w
      → IsIntact lib v
      → IsIntact lib w
  unfolding add_relationship
  add_relationship-IsIntact v w r t e i =
      let (u, known, same) = >>=-eq-ok (ensure_known lib v r.evidence) _ e in
      let k : Known lib v.observations r.evidence = ensure_known-Known v r.evidence u known in
      let added : Investigation lib = record v {
        relationships = merge_or_push lib v.relationships r;
      } in
      let intact : IsIntact lib added = record {
        target_public = i.target_public;
        relationships_valid =
            merge_or_push-All lib (IsRelationship lib) r (λ q. merged-IsRelationship lib q r)
              v.relationships i.relationships_valid t;
        relationships_known =
            merge_or_push-All lib (λ q. Known lib v.observations q.evidence) r
              (λ q. Known-push_new v.observations q r k) v.relationships i.relationships_known k;
        findings_known = i.findings_known;
        edges_distinct = merge_or_push-DistinctEdges lib v.relationships r i.edges_distinct;
        ends_after_start = i.ends_after_start;
      } in
      subst (IsIntact lib) (ok_eq same) intact

  pub add_finding-IsIntact :
      (v w : Investigation lib) (f : Finding)
      → add_finding lib v f ≡ ok w
      → IsIntact lib v
      → IsIntact lib w
  unfolding add_finding
  add_finding-IsIntact v w f e i =
      let (u, known, same) = >>=-eq-ok (ensure_known lib v f.evidence) _ e in
      let added : Investigation lib = record v { findings = v.findings ++ f ∷ [] } in
      let intact : IsIntact lib added = record {
        target_public = i.target_public;
        relationships_valid = i.relationships_valid;
        relationships_known = i.relationships_known;
        findings_known =
            All-append (λ g. Known lib v.observations g.evidence) v.findings (f ∷ [])
              i.findings_known (ensure_known-Known v f.evidence u known, tt);
        edges_distinct = i.edges_distinct;
        ends_after_start = i.ends_after_start;
      } in
      subst (IsIntact lib) (ok_eq same) intact

  pub finish-IsIntact :
      (v w : Investigation lib) (at : Timestamp)
      → finish lib v at ≡ ok w
      → IsIntact lib v
      → IsIntact lib w
  unfolding finish
  finish-IsIntact v w at e i = elim (Bool-cases (ltb at v.started_at)) [
    | inl y ↦ absurd (ground arith)
    | inr n ↦
        let intact : IsIntact lib (record v { finished_at = some at }) = record {
          target_public = i.target_public;
          relationships_valid = i.relationships_valid;
          relationships_known = i.relationships_known;
          findings_known = i.findings_known;
          edges_distinct = i.edges_distinct;
          ends_after_start = ground arith;
        } in
        subst (IsIntact lib) (ground arith) intact
  ]

  kept {ℓ} :
      (P : Investigation lib → Type ℓ) {F : Type 0} (v : Investigation lib)
      (m : Result F (Investigation lib))
      → P v
      → ((w : Investigation lib) → m ≡ ok w → P w)
      → P (kept_on_error v m)
  unfolding kept_on_error
  kept P v (ok w) old fresh = fresh w refl
  kept P v (err e) old fresh = old

  pub apply-IsIntact :
      (op : Op) (v : Investigation lib) → WellTyped op → IsIntact lib v → IsIntact lib (apply op v)
  apply-IsIntact (observe o) v t i = add_observation-IsIntact v o i
  apply-IsIntact (relate r) v t i =
      kept (IsIntact lib) v (add_relationship lib v r) i
        (λ w e. add_relationship-IsIntact v w r t e i)
  apply-IsIntact (find f) v t i =
      kept (IsIntact lib) v (add_finding lib v f) i (λ w e. add_finding-IsIntact v w f e i)
  apply-IsIntact (account status) v t i = record {
    target_public = i.target_public;
    relationships_valid = i.relationships_valid;
    relationships_known = i.relationships_known;
    findings_known = i.findings_known;
    edges_distinct = i.edges_distinct;
    ends_after_start = i.ends_after_start;
  }
  apply-IsIntact (end at) v t i =
      kept (IsIntact lib) v (finish lib v at) i (λ w e. finish-IsIntact v w at e i)

  -- An investigation that `Investigation::new` returns is intact.
  pub new-IsIntact :
      (target : Indicator lib) (at : Timestamp) (v : Investigation lib)
      → new lib target at ≡ ok v
      → IsIntact lib v
  unfolding new
  new-IsIntact target at v e =
      let (u, public, same) = >>=-eq-ok (ensure_investigable lib target) _ e in
      subst (IsIntact lib) (ok_eq same) (record {
        target_public = public;
        relationships_valid = tt;
        relationships_known = tt;
        findings_known = tt;
        edges_distinct = tt;
        ends_after_start = tt;
      })

  pub new_public :
      (target : Indicator lib) (at : Timestamp) (v : Investigation lib)
      → new lib target at ≡ ok v
      → ensure_investigable lib target ≡ ok tt
  unfolding new
  new_public target at v e =
      let (u, public, same) = >>=-eq-ok (ensure_investigable lib target) _ e in public

  -- After any sequence of operations that starts from `Investigation::new`, with relationships that
  -- `Relationship::new` accepts, the investigation is intact: its target is investigable, every
  -- relationship is well typed and cites observations, each once, all the evidence of relationships and
  -- findings is present, no edge stands twice, and it does not end before it starts.
  pub apply_all-IsIntact :
      (target : Indicator lib) (at : Timestamp) (v : Investigation lib) (ops : List Op)
      → new lib target at ≡ ok v
      → All WellTyped ops
      → IsIntact lib (apply_all ops v)
  apply_all-IsIntact target at v ops e h = from v ops (new-IsIntact target at v e) h
    where
      from :
          (v : Investigation lib) (ops : List Op)
          → IsIntact lib v
          → All WellTyped ops
          → IsIntact lib (apply_all ops v)
      from v [] i h = i
      from v (op ∷ ops) i h = from (apply op v) ops (apply-IsIntact op v h.0 i) h.1
