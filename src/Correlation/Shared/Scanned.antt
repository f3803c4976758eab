-- ===== src/Correlation/Shared/Scanned.antt =====
-- The groups that are kept, against a scan of the links for each element; what is emitted for them.
use sentinel_osint.Common.{
  true, false, List, [], ◌∷◌, map, filter, length, is_empty, nat_eq, ◌≡◌, refl, ap, ◌∙◌, subst,
  arith, All, Any, All-map, Any-filter, Bool-cases, inl, inr, sym,
}
use sentinel_osint.Common.Sorting.Laws.{All-sort, Any-sort}
use sentinel_osint.Indicator.Defs.{Crates}
use sentinel_osint.Evidence.Entities.{Entity, entity_beq, entity_beq_iff}
use sentinel_osint.Evidence.Relationships.{Relationship}
use sentinel_osint.Correlation.{Outside, Correlation}
use sentinel_osint.Correlation.Index.{EvidenceIndex}
use sentinel_osint.Correlation.Shared.{Groups, group_by, in_order, set_of}
use sentinel_osint.Correlation.Shared.Buildable.{Group, Match}
use sentinel_osint.Common.Sorting.Pairs.{AllPairs, AllPairs-filter, AllPairs-map, AllPairs-sort}
use sentinel_osint.Correlation.Shared.Grouping.{
  OtherKey, group_by-DistinctKeys, group_by-entries, group_by-has_entry,
}
use sentinel_osint.Correlation.Shared.Emitted.{is_several}

module _ (lib : Crates) (outside : Outside lib) (index : EvidenceIndex lib) where
  -- The group of an element: the links to it, and the entities at their other ends.
  abbrev pub attach :
      (Relationship lib → Entity lib)
      → Entity lib × List (Relationship lib)
      → Group lib outside index
  attach other g = (g.0, (g.1, set_of lib outside (map other g.1)))

  -- Groups of different elements.
  abbrev pub OtherElement : Group lib outside index → Group lib outside index → Type 0
  OtherElement g h = entity_beq lib g.0 h.0 ≡ false

  pub other_sym : (x y : Entity lib) → entity_beq lib x y ≡ false → entity_beq lib y x ≡ false
  other_sym x y n = elim (Bool-cases (entity_beq lib y x)) [
    | inl e ↦ absurd (clash ((entity_beq_iff lib x y).1 (sym ((entity_beq_iff lib y x).0 e))))
    | inr m ↦ m
  ]
    where
      clash : entity_beq lib x y ≡ true → ⊥
      clash e = ground arith

  pub length-Match :
      (gs : List (Group lib outside index)) (cs : List (Correlation lib))
      → Match lib outside index gs cs
      → length cs ≡ length gs
  length-Match [] [] m = refl
  length-Match [] (c ∷ cs) m = absurd m
  length-Match (g ∷ gs) [] m = absurd m
  length-Match (g ∷ gs) (c ∷ cs) (r, m) = omega (arith, length-Match gs cs m)

  -- Grouping by one end and keeping what connects several entities, against a scan for each element.
  module _ (end other : Relationship lib → Entity lib) (base : List (Relationship lib))
      (links : Entity lib → List (Relationship lib))
      (scans : (x : Entity lib) → filter (λ r. entity_beq lib (end r) x) base ≡ links x) where
    unfoldable pub grouped : Groups lib outside
    unfolding in_order
    grouped = in_order lib outside (group_by lib outside end base [])

    abbrev pub Scanned : Group lib outside index → Type 0
    Scanned g = (g ≡ attach other (g.0, links g.0)) × (is_several lib outside index g ≡ true)

    kept-Scanned :
        (gs : Groups lib outside)
        → All (λ g. g.1 ≡ links g.0) gs
        → All Scanned (filter (is_several lib outside index) (map (attach other) gs))
    kept-Scanned [] h = tt
    kept-Scanned ((x, ls) ∷ gs) (e, h) =
        elim (Bool-cases (is_several lib outside index (attach other (x, ls)))) [
          | inl y ↦ rw y ((ap (λ q. attach other (x, q)) e, y), kept-Scanned gs h)
          | inr n ↦ rw n (kept-Scanned gs h)
        ]

    pub all-Scanned :
        All Scanned (filter (is_several lib outside index) (map (attach other) grouped))
    unfolding grouped
    all-Scanned = kept-Scanned grouped (
        All-sort _ _ (group_by lib outside end base []) (
          All-map _ _ (λ g e. e ∙ scans g.0) (group_by lib outside end base [])
            (group_by-entries lib outside end base)))

    mapped-Any :
        (h : Entity lib × List (Relationship lib)) (gs : Groups lib outside)
        → Any (λ g. g ≡ h) gs
        → Any (λ g. g ≡ attach other h) (map (attach other) gs)
    mapped-Any h [] a = elim a [ ]
    mapped-Any h (g ∷ gs) (inl e) = inl (ap (attach other) e)
    mapped-Any h (g ∷ gs) (inr a) = inr (mapped-Any h gs a)

    several-nonempty :
        (x : Entity lib) (ls : List (Relationship lib))
        → is_several lib outside index (attach other (x, ls)) ≡ true
        → is_empty ls ≡ false
    unfolding set_of
    several-nonempty x [] h = absurd (ground arith)
    several-nonempty x (l ∷ ls) h = refl

    pub any-Scanned :
        (x : Entity lib)
        → is_several lib outside index (attach other (x, links x)) ≡ true
        → Any
            (λ g. g ≡ attach other (x, links x))
            (filter (is_several lib outside index) (map (attach other) grouped))
    unfolding grouped
    any-Scanned x h =
        Any-filter _ (is_several lib outside index) (λ g e. ap (is_several lib outside index) e ∙ h)
          (map (attach other) grouped)
          (mapped-Any (x, links x) grouped
            (Any-sort _ _ (group_by lib outside end base []) (
              subst (λ ls. Any (λ g. g ≡ (x, ls)) (group_by lib outside end base [])) (scans x)
                (group_by-has_entry lib outside end base x
                  (ap is_empty (scans x) ∙ several-nonempty x (links x) h)))))

    pub grouped-OtherElement :
        AllPairs OtherElement (filter (is_several lib outside index) (map (attach other) grouped))
    unfolding grouped
    grouped-OtherElement =
        AllPairs-filter OtherElement (is_several lib outside index) (map (attach other) grouped) (
          AllPairs-map OtherElement (attach other) grouped (
            AllPairs-sort (OtherKey lib outside) (λ g h n. other_sym g.0 h.0 n) _
              (group_by lib outside end base [])
              (group_by-DistinctKeys lib outside end base [] tt)))
