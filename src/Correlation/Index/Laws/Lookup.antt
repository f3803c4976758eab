-- ===== src/Correlation/Index/Laws/Lookup.antt =====
-- The maps by kind and end give what a scan of the relationships gives.
use sentinel_osint.Common.{
  ℕ, suc, Bool, true, false, ◌&&◌, some, List, [], ◌∷◌, ◌++◌, if◌then◌else◌, length, filter, ◌≡◌,
  ◌↔◌, refl, sym, ap, ◌∙◌, subst, arith, Bool-cases, inl, inr,
}
use mathlib.Core.List.{append-nil, append_assoc}
use sentinel_osint.Common.Text.{get_elem?}
use sentinel_osint.Indicator.Defs.{Crates}
use sentinel_osint.Evidence.Entities.{Entity, entity_beq, entity_beq_iff}
use sentinel_osint.Evidence.Relationships.{RelationKind, kind_beq, Relationship}
use sentinel_osint.Investigation.{Investigation}
use sentinel_osint.Investigation.Integrity.{kind_beq_iff}
use sentinel_osint.Correlation.{Outside}
use sentinel_osint.Correlation.Index.{
  Key, key_beq, push_entry, get_entry, positions, at_positions, new, from, to,
}

module _ (lib : Crates) where
  key_beq_iff : (x y : Key lib) → (key_beq lib x y ≡ true) ↔ (x ≡ y)
  key_beq_iff (k, s) (l, t) = ground (arith, kind_beq_iff k l, entity_beq_iff lib s t)

  key_beq_trans :
      (x y z : Key lib) → key_beq lib x y ≡ true → key_beq lib z y ≡ true → key_beq lib x z ≡ true
  key_beq_trans x y z h k =
      (key_beq_iff x z).1 ((key_beq_iff x y).0 h ∙ sym ((key_beq_iff z y).0 k))

  get-push_entry :
      (map : List (Key lib × List ℕ)) (key other : Key lib) (i : ℕ)
      → get_entry lib (key_beq lib) key (push_entry lib (key_beq lib) other i map) ≡ (
          if key_beq lib other key
          then get_entry lib (key_beq lib) key map ++ i ∷ []
          else get_entry lib (key_beq lib) key map)
  get-push_entry [] key other i = ground arith
  get-push_entry ((k, is) ∷ more) key other i = elim (Bool-cases (key_beq lib k other)) [
    | inl y ↦
        let same = ap (λ x. key_beq lib x key) ((key_beq_iff k other).0 y) in
        rw (y, same) (ground arith)
    | inr n ↦
        let later = get-push_entry more key other i in
        let both = key_beq_trans k key other in rw (n, later) (ground (arith, both))
  ]

  get_elem?-append :
      (before : List (Relationship lib)) (r : Relationship lib) (rs : List (Relationship lib))
      → get_elem? (before ++ r ∷ rs) (length before) ≡ some r
  get_elem?-append [] r rs = refl
  get_elem?-append (b ∷ bs) r rs = get_elem?-append bs r rs

  length_snoc :
      (before : List (Relationship lib)) (r : Relationship lib)
      → length (before ++ r ∷ []) ≡ suc (length before)
  length_snoc [] r = refl
  length_snoc (b ∷ bs) r = ap (λ n. suc n) (length_snoc bs r)

  pick :
      (b : Bool) (xs : List ℕ) (i : ℕ) (hs : List ℕ)
      → (if b then xs ++ i ∷ [] else xs) ++ hs ≡ xs ++ (if b then i ∷ hs else hs)
  pick true xs i hs = append_assoc xs (i ∷ []) hs
  pick false xs i hs = refl

  module _ (end : Relationship lib → Entity lib) (key : Key lib) where
    abbrev hits : ℕ → List (Relationship lib) → List ℕ
    hits i [] = []
    hits i (r ∷ rs) =
        let rest = hits (suc i) rs in if key_beq lib (r.kind, end r) key then i ∷ rest else rest

    get-positions :
        (i : ℕ) (rs : List (Relationship lib)) (map : List (Key lib × List ℕ))
        → get_entry lib (key_beq lib) key (positions lib end i rs map)
          ≡ get_entry lib (key_beq lib) key map ++ hits i rs
    get-positions i [] map = sym (append-nil (get_entry lib (key_beq lib) key map))
    get-positions i (r ∷ rs) map =
        get-positions (suc i) rs (push_entry lib (key_beq lib) (r.kind, end r) i map)
        ∙ rw (get-push_entry map key (r.kind, end r) i) (
            pick (key_beq lib (r.kind, end r) key) (get_entry lib (key_beq lib) key map) i
              (hits (suc i) rs))

    abbrev scan : List (Relationship lib) → List (Relationship lib)
    scan rs = filter (λ r. key_beq lib (r.kind, end r) key) rs

    at_positions-hits :
        (before rs : List (Relationship lib))
        → at_positions lib (before ++ rs) (hits (length before) rs)
          ≡ filter (λ r. key_beq lib (r.kind, end r) key) rs
    at_positions-hits before [] = refl
    at_positions-hits before (r ∷ rs) =
        let later =
          subst (λ n. at_positions lib (before ++ r ∷ rs) (hits n rs) ≡ scan rs)
            (length_snoc before r)
            (subst (λ l. at_positions lib l (hits (length (before ++ r ∷ [])) rs) ≡ scan rs)
              (append_assoc before (r ∷ []) rs) (at_positions-hits (before ++ r ∷ []) rs)) in
        elim (Bool-cases (key_beq lib (r.kind, end r) key)) [
          | inl y ↦ rw (y, get_elem?-append before r rs) (ap (◌∷◌ r) later)
          | inr n ↦ rw n later
        ]

  -- `from` and `to` return exactly the relationships of the index of the kind with that source, or that
  -- target, in their order.
  pub from-to-new :
      (outside : Outside lib) (v : Investigation lib) (kind : RelationKind) (entity : Entity lib)
      → (from lib (new lib outside v) kind entity
          ≡ filter
              (λ r. kind_beq r.kind kind && entity_beq lib r.source entity)
              (new lib outside v).relationships)
        × (to lib (new lib outside v) kind entity
            ≡ filter
                (λ r. kind_beq r.kind kind && entity_beq lib r.target entity)
                (new lib outside v).relationships)
  unfolding new from to
  from-to-new outside v kind entity =
      let rs = (new lib outside v).relationships in
      let at_end = λ (end : Relationship lib → Entity lib).
        ap (at_positions lib rs) (get-positions end (kind, entity) 0 rs [])
        ∙ at_positions-hits end (kind, entity) [] rs in
      (at_end (λ r. r.source), at_end (λ r. r.target))
