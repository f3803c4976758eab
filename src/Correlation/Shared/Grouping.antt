-- ===== src/Correlation/Shared/Grouping.antt =====
-- The groups are those that a scan of the links for each shared element gives.
use mathlib.Core.List.{append-nil, append_assoc}
use sentinel_osint.Common.{
  Bool, true, false, List, [], ◌∷◌, ◌++◌, filter, if◌then◌else◌, is_empty, nat_eq, ◌≡◌, refl, sym,
  ap, ◌∙◌, arith, All, Any, All-map, Bool-cases, inl, inr,
}
use sentinel_osint.Common.Sorting.Pairs.{AllPairs}
use sentinel_osint.Indicator.Defs.{Crates}
use sentinel_osint.Evidence.Entities.{Entity, entity_beq, entity_beq_iff}
use sentinel_osint.Evidence.Relationships.{Relationship}
use sentinel_osint.Correlation.{Outside}
use sentinel_osint.Correlation.Index.{push_entry, get_entry}
use sentinel_osint.Correlation.Shared.{Groups, group_by}

module _ (lib : Crates) (outside : Outside lib) where
  abbrev same : Entity lib → Entity lib → Bool
  same = entity_beq lib

  abbrev get : Entity lib → Groups lib outside → List (Relationship lib)
  get x groups = get_entry lib (entity_beq lib) x groups

  same_trans : (x y z : Entity lib) → same x y ≡ true → same z y ≡ true → same x z ≡ true
  same_trans x y z h k =
      (entity_beq_iff lib x z).1 ((entity_beq_iff lib x y).0 h ∙ sym ((entity_beq_iff lib z y).0 k))

  get-push_entry :
      (groups : Groups lib outside) (x shared : Entity lib) (link : Relationship lib)
      → get x (push_entry lib (entity_beq lib) shared link groups)
        ≡ (if same shared x then get x groups ++ link ∷ [] else get x groups)
  get-push_entry [] x shared link = ground arith
  get-push_entry ((k, links) ∷ more) x shared link = elim (Bool-cases (same k shared)) [
    | inl y ↦
        let equal = ap (λ z. same z x) ((entity_beq_iff lib k shared).0 y) in
        rw (y, equal) (ground arith)
    | inr n ↦
        let later = get-push_entry more x shared link in
        let both = same_trans k x shared in rw (n, later) (ground (arith, both))
  ]

  module _ (end : Relationship lib → Entity lib) where
    pub get-group_by :
        (x : Entity lib) (links : List (Relationship lib)) (groups : Groups lib outside)
        → get x (group_by lib outside end links groups)
          ≡ get x groups ++ filter (λ r. entity_beq lib (end r) x) links
    get-group_by x [] groups = sym (append-nil (get x groups))
    get-group_by x (link ∷ links) groups =
        get-group_by x links (push_entry lib (entity_beq lib) (end link) link groups)
        ∙ ap (λ xs. xs ++ filter (λ r. entity_beq lib (end r) x) links)
            (get-push_entry groups x (end link) link)
        ∙ picked (same (end link) x) (get x groups)
      where
        picked :
            (b : Bool) (xs : List (Relationship lib))
            → (if b then xs ++ link ∷ [] else xs) ++ filter (λ r. entity_beq lib (end r) x) links
              ≡ xs
                ++ (if b
                    then link ∷ filter (λ r. entity_beq lib (end r) x) links
                    else filter (λ r. entity_beq lib (end r) x) links)
        picked true xs = append_assoc xs (link ∷ []) (filter (λ r. entity_beq lib (end r) x) links)
        picked false xs = refl

  -- No element has two entries.
  abbrev pub OtherKey :
      Entity lib × List (Relationship lib) → Entity lib × List (Relationship lib) → Type 0
  OtherKey g h = same g.0 h.0 ≡ false

  abbrev pub DistinctKeys : Groups lib outside → Type 0
  DistinctKeys groups = AllPairs OtherKey groups

  push_entry-other :
      (k shared : Entity lib) (link : Relationship lib) (groups : Groups lib outside)
      → same k shared ≡ false
      → All (λ g. same k g.0 ≡ false) groups
      → All (λ g. same k g.0 ≡ false) (push_entry lib (entity_beq lib) shared link groups)
  push_entry-other k shared link [] n h = (n, tt)
  push_entry-other k shared link ((j, links) ∷ more) n (m, h) = elim (Bool-cases (same j shared)) [
    | inl y ↦ rw y (m, h)
    | inr o ↦ rw o (m, push_entry-other k shared link more n h)
  ]

  push_entry-DistinctKeys :
      (shared : Entity lib) (link : Relationship lib) (groups : Groups lib outside)
      → DistinctKeys groups
      → DistinctKeys (push_entry lib (entity_beq lib) shared link groups)
  push_entry-DistinctKeys shared link [] h = (tt, tt)
  push_entry-DistinctKeys shared link ((k, links) ∷ more) (m, h) =
      elim (Bool-cases (same k shared)) [
        | inl y ↦ rw y (m, h)
        | inr n ↦
            rw n
              (push_entry-other k shared link more n m, push_entry-DistinctKeys shared link more h)
      ]

  pub group_by-DistinctKeys :
      (end : Relationship lib → Entity lib) (links : List (Relationship lib))
      (groups : Groups lib outside)
      → DistinctKeys groups
      → DistinctKeys (group_by lib outside end links groups)
  group_by-DistinctKeys end [] groups h = h
  group_by-DistinctKeys end (link ∷ links) groups h =
      group_by-DistinctKeys end links (push_entry lib (entity_beq lib) (end link) link groups)
        (push_entry-DistinctKeys (end link) link groups h)

  entries-get :
      (groups : Groups lib outside) → DistinctKeys groups → All (λ g. g.1 ≡ get g.0 groups) groups
  entries-get [] h = tt
  entries-get ((k, links) ∷ more) (m, h) =
      (rw ((entity_beq_iff lib k k).1 refl) refl, passed more m (entries-get more h))
    where
      passed :
          (gs : Groups lib outside)
          → All (λ g. same k g.0 ≡ false) gs
          → All (λ g. g.1 ≡ get g.0 more) gs
          → All (λ g. g.1 ≡ get g.0 ((k, links) ∷ more)) gs
      passed [] n e = tt
      passed (g ∷ gs) (n, ns) (e, es) = (rw n e, passed gs ns es)

  -- Every entry has exactly the links of its element.
  pub group_by-entries :
      (end : Relationship lib → Entity lib) (links : List (Relationship lib))
      → All
          (λ g. g.1 ≡ filter (λ r. entity_beq lib (end r) g.0) links)
          (group_by lib outside end links [])
  group_by-entries end links =
      All-map _ _ (λ g e. e ∙ get-group_by end g.0 links []) (group_by lib outside end links [])
        (entries-get (group_by lib outside end links []) (group_by-DistinctKeys end links [] tt))

  has_entry :
      (x : Entity lib) (links : List (Relationship lib)) (groups : Groups lib outside)
      → get x groups ≡ links
      → is_empty links ≡ false
      → Any (λ g. g ≡ (x, links)) groups
  has_entry x links [] e h = absurd (nothing links e h)
    where
      nothing : (ls : List (Relationship lib)) → [] ≡ ls → is_empty ls ≡ false → ⊥
      nothing [] e h = cc
      nothing (l ∷ ls) e h = cc
  has_entry x links ((k, found) ∷ more) e h = elim (Bool-cases (same k x)) [
    | inl y ↦
        inl (ap (λ z. (z, found)) ((entity_beq_iff lib k x).0 y) ∙ ap (λ ls. (x, ls)) (rw y at e))
    | inr n ↦ inr (has_entry x links more (rw n at e) h)
  ]

  -- Every element with a link has an entry.
  pub group_by-has_entry :
      (end : Relationship lib → Entity lib) (links : List (Relationship lib)) (x : Entity lib)
      → is_empty (filter (λ r. entity_beq lib (end r) x) links) ≡ false
      → Any
          (λ g. g ≡ (x, filter (λ r. entity_beq lib (end r) x) links))
          (group_by lib outside end links [])
  group_by-has_entry end links x h =
      has_entry x (filter (λ r. entity_beq lib (end r) x) links) (group_by lib outside end links [])
        (get-group_by end x links []) h
