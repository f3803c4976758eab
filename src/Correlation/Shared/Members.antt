-- ===== src/Correlation/Shared/Members.antt =====
-- The sets of entities, by the lists that they are made of.
use sentinel_osint.Common.{
  Bool, true, false, ◌||◌, List, [], ◌∷◌, any, is_empty, length, leb, Eq, contains, ◌≡◌, refl, sym,
  ap, ◌∙◌, subst, arith, Bool-cases, inl, inr,
}
use sentinel_osint.Common.Sorting.{sort, dedup, dedup_after}
use sentinel_osint.Common.Sorting.Laws.{contains-sort, contains-dedup}
use sentinel_osint.Indicator.Defs.{Crates}
use sentinel_osint.Evidence.Entities.{Entity, entity_beq, entity_beq_iff}
use sentinel_osint.Correlation.{Outside}
use sentinel_osint.Correlation.Build.{sorted_subjects}
use sentinel_osint.Correlation.Shared.{set_of}

module _ (lib : Crates) where
  abbrev pub among : Entity lib → List (Entity lib) → Bool
  among y xs = any (λ x. entity_beq lib x y) xs

  -- Two entities of the list differ.
  abbrev pub Connects : List (Entity lib) → Type 0
  Connects xs =
      (a : Entity lib) × (b : Entity lib) × (among a xs ≡ true)
      × (among b xs ≡ true)
      × (entity_beq lib a b ≡ false)

  abbrev equal : Eq (Entity lib)
  equal = record { beq = entity_beq lib; beq_iff = entity_beq_iff lib }

  contains-among :
      (xs : List (Entity lib)) (y : Entity lib) → contains ⦃e = equal⦄ xs y ≡ among y xs
  contains-among [] y = refl
  contains-among (x ∷ xs) y = ap (λ b. entity_beq lib x y || b) (contains-among xs y)

  module _ (outside : Outside lib) where
    among-set_of :
        (xs : List (Entity lib)) (y : Entity lib) → among y (set_of lib outside xs) ≡ among y xs
    unfolding set_of
    among-set_of xs y =
        sym (contains-among (set_of lib outside xs) y)
        ∙ contains-dedup ⦃e = equal⦄ outside.entity_le (sort outside.entity_le xs) y
        ∙ contains-sort ⦃e = equal⦄ outside.entity_le xs y
        ∙ contains-among xs y

    -- The subjects of a draft on an element and a set of entities.
    pub among-sorted_subjects :
        (x : Entity lib) (xs : List (Entity lib)) (y : Entity lib)
        → among y (sorted_subjects lib outside (x ∷ set_of lib outside xs))
          ≡ (entity_beq lib x y || among y xs)
    unfolding sorted_subjects set_of
    among-sorted_subjects x xs y =
        among-set_of (x ∷ set_of lib outside xs) y
        ∙ ap (λ b. entity_beq lib x y || b) (among-set_of xs y)

    pub Connects-several :
        (xs : List (Entity lib)) → Connects xs → leb 2 (length (set_of lib outside xs)) ≡ true
    Connects-several xs (a, b, p, q, n) =
        counted (set_of lib outside xs) (among-set_of xs a ∙ p) (among-set_of xs b ∙ q)
      where
        counted :
            (ys : List (Entity lib))
            → among a ys ≡ true
            → among b ys ≡ true
            → leb 2 (length ys) ≡ true
        counted [] f g = cc
        counted (y ∷ []) f g =
            absurd (alone (entity_beq lib y a) (entity_beq lib y b) refl refl f g)
          where
            no_both : false ≡ true → ⊥
            no_both k = cc

            alone :
                (f g : Bool)
                → entity_beq lib y a ≡ f
                → entity_beq lib y b ≡ g
                → (f || false) ≡ true
                → (g || false) ≡ true
                → ⊥
            alone true true e h i j = no_both (
                sym n
                ∙ (entity_beq_iff lib a b).1
                    (sym ((entity_beq_iff lib y a).0 e) ∙ (entity_beq_iff lib y b).0 h))
            alone false g e h i j = cc
            alone true false e h i j = cc
        counted (y ∷ z ∷ ys) f g = ground arith

    differs :
        (last : Entity lib) (xs : List (Entity lib))
        → is_empty (dedup_after (entity_beq lib) last xs) ≡ false
        → (z : Entity lib) × (zs : List (Entity lib)) × (dedup_after (entity_beq lib) last xs
            ≡ z ∷ zs)
          × (entity_beq lib z last ≡ false)
    differs last [] h = cc
    differs last (x ∷ xs) h = elim (Bool-cases (entity_beq lib x last)) [
      | inl y ↦ let (z, zs, e, n) = differs last xs (rw y at h) in (z, zs, rw y e, n)
      | inr n ↦ (x, dedup_after (entity_beq lib) x xs, rw n refl, n)
    ]

    dedup-Connects :
        (ys : List (Entity lib))
        → leb 2 (length (dedup (entity_beq lib) ys)) ≡ true
        → Connects (dedup (entity_beq lib) ys)
    unfolding dedup
    dedup-Connects [] h = absurd (ground arith)
    dedup-Connects (y ∷ ys) h =
        let (z, zs, e, n) = differs y ys (filled (dedup_after (entity_beq lib) y ys) h) in
        subst (λ t. Connects (y ∷ t)) (sym e)
          (
            z,
            y,
            ground (arith, (entity_beq_iff lib z z).1 refl),
            ground (arith, (entity_beq_iff lib y y).1 refl),
            n,
          )
      where
        filled : (ts : List (Entity lib)) → leb 2 (length (y ∷ ts)) ≡ true → is_empty ts ≡ false
        filled [] k = absurd (ground arith)
        filled (t ∷ ts) k = refl

    set_of-Connects :
        (xs : List (Entity lib))
        → leb 2 (length (set_of lib outside xs)) ≡ true
        → Connects (set_of lib outside xs)
    unfolding set_of
    set_of-Connects xs h = dedup-Connects (sort outside.entity_le xs) h

    pub several-Connects :
        (xs : List (Entity lib)) → leb 2 (length (set_of lib outside xs)) ≡ true → Connects xs
    several-Connects xs h =
        let (a, b, p, q, n) = set_of-Connects xs h in
        (a, b, sym (among-set_of xs a) ∙ p, sym (among-set_of xs b) ∙ q, n)
