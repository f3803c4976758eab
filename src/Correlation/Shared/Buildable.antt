-- ===== src/Correlation/Shared/Buildable.antt =====
-- That the drafts of the rule on shared elements are built, where the relationships of the index name
-- only what it knows.
use sentinel_osint.Common.{
  Bool, true, false, List, [], ◌∷◌, ◌++◌, leb, is_empty, all, ◌&&◌, not, Result, ok, err, ◌≡◌, refl,
  ◌∙◌, arith, All, All-append, all_of_All, Bool-cases, inl, inr,
}
use sentinel_osint.Common.Text.{is_some}
use sentinel_osint.Common.Sorting.{sort}
use sentinel_osint.Common.Sorting.Laws.{All-sort, All-dedup}
use sentinel_osint.Indicator.Defs.{Crates}
use sentinel_osint.Evidence.Entities.{Entity, entity_beq}
use sentinel_osint.Evidence.Observations.{ObservationId}
use sentinel_osint.Evidence.Relationships.{RelationKind, Relationship}
use sentinel_osint.Correlation.{Outside, shared_infrastructure, CorrelationError, Correlation}
use sentinel_osint.Correlation.Index.{
  canonical, EvidenceIndex, push_entry, observation, knows_entity,
}
use sentinel_osint.Correlation.Build.{flat_map, cited, sorted_ids, sorted_subjects, build}
use sentinel_osint.Correlation.Build.Bounds.{is_ok}
use sentinel_osint.Correlation.Build.Laws.{build-parts}
use sentinel_osint.Correlation.Build.Succeeds.{is_buildable, is_ok-build}
use sentinel_osint.Correlation.Report.{Emit, keep, push}
use sentinel_osint.Correlation.Shared.{Groups, group_by, in_order, set_of, group_draft, emit_group}

module _ (lib : Crates) (outside : Outside lib) (index : EvidenceIndex lib) where
  abbrev pub Knows : Entity lib → Type 0
  Knows x = knows_entity lib index x ≡ true

  abbrev pub Has : ObservationId → Type 0
  Has id = is_some (observation lib index id) ≡ true

  -- A relationship whose ends and evidence the index has.
  pub record IsUsable (r : Relationship lib) : Type 0 where
    pub source : Knows r.source
    pub target : Knows r.target
    pub has_evidence : is_empty r.evidence ≡ false
    pub evidence : All Has r.evidence

  evidence-Has :
      (links : List (Relationship lib))
      → All IsUsable links
      → All Has (flat_map (λ l. l.evidence) links)
  evidence-Has [] h = tt
  evidence-Has (l ∷ links) (u, h) = All-append Has l.evidence _ u.evidence (evidence-Has links h)

  nonempty-append : (xs ys : List ObservationId) → is_empty xs ≡ false → is_empty (xs ++ ys) ≡ false
  nonempty-append [] ys n = cc
  nonempty-append (x ∷ xs) ys n = refl

  evidence-nonempty :
      (links : List (Relationship lib))
      → is_empty links ≡ false
      → All IsUsable links
      → is_empty (flat_map (λ l. l.evidence) links) ≡ false
  evidence-nonempty [] n h = cc
  evidence-nonempty (l ∷ links) n (u, h) = nonempty-append l.evidence _ u.has_evidence

  four_tests :
      (a b c d : Bool)
      → a ≡ false
      → b ≡ false
      → c ≡ true
      → d ≡ true
      → (not a && not b && c && d) ≡ true
  four_tests a b c d p q r s = ground arith

  pub set_of-All :
      (P : Entity lib → Type 0) (xs : List (Entity lib)) → All P xs → All P (set_of lib outside xs)
  unfolding set_of
  set_of-All P xs h =
      All-dedup P (entity_beq lib) (sort outside.entity_le xs) (All-sort P outside.entity_le xs h)

  ids-All : (ids : List ObservationId) → All Has ids → All Has (sorted_ids ids)
  unfolding sorted_ids
  ids-All ids h = All-dedup Has _ (sort leb ids) (All-sort Has leb ids h)

  -- What `build` tests of the draft of a group.
  is_buildable-group :
      (shared : Entity lib) (kind : RelationKind) (members : List (Entity lib))
      (links : List (Relationship lib))
      → All Knows (shared ∷ members)
      → All IsUsable links
      → is_empty links ≡ false
      → is_buildable lib outside index (group_draft lib outside shared kind members links) ≡ true
  unfolding is_buildable sorted_subjects
  is_buildable-group shared kind members links known usable n =
      let cites = cited lib (group_draft lib outside shared kind members links) in
      let has_all : All Has cites =
        All-append Has _ []
          (All-append Has _ [] (All-append Has _ [] (evidence-Has links usable) tt) tt) tt in
      four_tests false (is_empty cites)
        (all (λ id. is_some (observation lib index id)) (sorted_ids cites))
        (all (knows_entity lib index) (sorted_subjects lib outside (shared ∷ members))) refl
        (nonempty-append _ []
          (nonempty-append _ [] (nonempty-append _ [] (evidence-nonempty links n usable))))
        (all_of_All Has (λ id. is_some (observation lib index id)) (λ id h. h) (sorted_ids cites)
          (ids-All cites has_all))
        (all_of_All Knows (knows_entity lib index) (λ x h. h)
          (sorted_subjects lib outside (shared ∷ members))
          (All-dedup Knows (entity_beq lib) (sort outside.entity_le (shared ∷ members))
            (All-sort Knows outside.entity_le (shared ∷ members) known)))

  -- A group of links at one element.
  abbrev pub IsGroup : Entity lib × List (Relationship lib) → Type 0
  IsGroup (shared, links) = Knows shared × (All IsUsable links × (is_empty links ≡ false))

  push_entry-IsGroup :
      (shared : Entity lib) (link : Relationship lib) (groups : Groups lib outside)
      → Knows shared
      → IsUsable link
      → All IsGroup groups
      → All IsGroup (push_entry lib (entity_beq lib) shared link groups)
  push_entry-IsGroup shared link [] k u h = ((k, ((u, tt), refl)), tt)
  push_entry-IsGroup shared link ((other, links) ∷ more) k u ((j, (us, n)), h) =
      elim (Bool-cases (entity_beq lib other shared)) [
        | inl y ↦ rw y ((j, (All-append IsUsable links (link ∷ []) us (u, tt), appended links)), h)
        | inr m ↦ rw m ((j, (us, n)), push_entry-IsGroup shared link more k u h)
      ]
    where
      appended : (xs : List (Relationship lib)) → is_empty (xs ++ link ∷ []) ≡ false
      appended [] = refl
      appended (x ∷ xs) = refl

  pub group_by-IsGroup :
      (end : Relationship lib → Entity lib)
      → ((r : Relationship lib) → IsUsable r → Knows (end r))
      → (links : List (Relationship lib)) (groups : Groups lib outside) → All IsUsable links
      → All IsGroup groups
      → All IsGroup (group_by lib outside end links groups)
  group_by-IsGroup end f [] groups us h = h
  group_by-IsGroup end f (link ∷ links) groups (u, us) h =
      group_by-IsGroup end f links (push_entry lib (entity_beq lib) (end link) link groups) us
        (push_entry-IsGroup (end link) link groups (f link u) u h)

  pub in_order-IsGroup :
      (groups : Groups lib outside) → All IsGroup groups → All IsGroup (in_order lib outside groups)
  unfolding in_order
  in_order-IsGroup groups h = All-sort IsGroup _ groups h

  -- A shared element, the links to it, and the entities that they link it to.
  abbrev pub Group : Type 0
  Group = Entity lib × (List (Relationship lib) × List (Entity lib))

  -- What is reported of a group.
  pub record Reports (g : Group) (c : Correlation lib) : Type 0 where
    pub kind : c.kind ≡ shared_infrastructure
    pub subjects : c.subjects ≡ sorted_subjects lib outside (g.0 ∷ g.1.1)
    pub links : c.links ≡ canonical lib outside g.1.0

  abbrev pub Match : List Group → List (Correlation lib) → Type 0
  Match [] [] = Unit
  Match (g ∷ gs) (c ∷ cs) = Reports g c × Match gs cs
  Match _ _ = ⊥

  -- One correlation more for each of the groups, and no draft rejected.
  pub record Emits (gs : List Group) (e after : Emit lib outside) : Type 0 where
    pub correlations : List (Correlation lib)
    pub rejected : after.rejected ≡ e.rejected
    pub built : after.built ≡ e.built ++ correlations
    pub matched : Match gs correlations

  pub emit_group-Emits :
      (shared : Entity lib) (kind : RelationKind) (members : List (Entity lib))
      (links : List (Relationship lib)) (e : Emit lib outside)
      → All Knows (shared ∷ members)
      → All IsUsable links
      → is_empty links ≡ false
      → Emits
          ((shared, (links, members)) ∷ [])
          e
          (emit_group lib outside index shared kind members links e)
  unfolding emit_group push
  emit_group-Emits shared kind members links e known usable n =
      kept
        (build lib outside (group_draft lib outside shared kind members links) shared_infrastructure
          index)
        refl
        (is_ok-build lib outside index (group_draft lib outside shared kind members links)
            shared_infrastructure
          ∙ is_buildable-group shared kind members links known usable n)
    where
      kept :
          (r : Result CorrelationError (Correlation lib))
          → build lib outside
              (group_draft lib outside shared kind members links)
              shared_infrastructure
              index
            ≡ r
          → is_ok r ≡ true
          → Emits ((shared, (links, members)) ∷ []) e (keep lib outside r e)
      kept (ok c) b h =
          let (is_kind, subjects, is_links) =
            build-parts lib outside index (group_draft lib outside shared kind members links)
              shared_infrastructure c b in
          record {
            correlations = c ∷ [];
            rejected = refl;
            built = refl;
            matched = (record { kind = is_kind; subjects = subjects; links = is_links }, tt);
          }
      kept (err why) b h = cc
