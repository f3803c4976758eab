-- ===== src/Correlation/Index/Laws.antt =====
-- What the indexes answer, by the investigation that they are made from.
pub mod Lookup
use sentinel_osint.Common.{
  ℕ, suc, ◌+◌, Bool, true, false, Option, none, some, List, [], ◌∷◌, ◌++◌, ◌==◌, if◌then◌else◌,
  length, length-append, ◌⊎◌, ==_iff, subst, ◌≡◌, refl, sym, ap, ◌∙◌, arith, Bool-cases,
  Option-cases, inl, inr,
}
use sentinel_osint.Common.Text.{is_some}
use sentinel_osint.Indicator.Defs.{Crates}
use sentinel_osint.Evidence.Observations.{ObservationId, Observation}
use sentinel_osint.Investigation.{Investigation, find_observation}
use sentinel_osint.Correlation.{Outside}
use sentinel_osint.Correlation.Index.{EvidenceIndex, Seen, see, see_all, observation, new}

module _ (lib : Crates) where
  abbrev or_else : Option (Observation lib) → Option (Observation lib) → Option (Observation lib)
  or_else none later = later
  or_else (some o) later = some o

  find-append :
      (xs ys : List (Observation lib)) (id : ObservationId)
      → find_observation lib (xs ++ ys) id
        ≡ or_else (find_observation lib xs id) (find_observation lib ys id)
  find-append [] ys id = refl
  find-append (x ∷ xs) ys id = elim (Bool-cases (x.id == id)) [
    | inl y ↦ rw y refl
    | inr n ↦ rw n (find-append xs ys id)
  ]

  or_else_assoc :
      (a b c : Option (Observation lib)) → or_else (or_else a b) c ≡ or_else a (or_else b c)
  or_else_assoc none b c = refl
  or_else_assoc (some o) b c = refl

  find-see :
      (o : Observation lib) (s : Seen lib) (id : ObservationId)
      → find_observation lib (see lib o s).by_id id
        ≡ or_else (find_observation lib s.by_id id) (find_observation lib (o ∷ []) id)
  find-see o s id = elim (Bool-cases (is_some (find_observation lib s.by_id o.id))) [
    | inl y ↦ rw y (known (Bool-cases (o.id == id)) y)
    | inr n ↦ rw n (find-append s.by_id (o ∷ []) id)
  ]
    where
      known :
          ((o.id == id) ≡ true) ⊎ ((o.id == id) ≡ false)
          → is_some (find_observation lib s.by_id o.id) ≡ true
          → find_observation lib s.by_id id
            ≡ or_else (find_observation lib s.by_id id) (find_observation lib (o ∷ []) id)
      known (inl e) y =
          kept (find_observation lib s.by_id id)
            (subst (λ i. is_some (find_observation lib s.by_id i) ≡ true) ((==_iff o.id id).0 e) y)
        where
          kept :
              (r : Option (Observation lib))
              → is_some r ≡ true
              → r ≡ or_else r (find_observation lib (o ∷ []) id)
          kept none h = cc
          kept (some q) h = refl
      known (inr e) y = rw e (same (find_observation lib s.by_id id))
        where
          same : (r : Option (Observation lib)) → r ≡ or_else r none
          same none = refl
          same (some q) = refl

  find-see_all :
      (os : List (Observation lib)) (s : Seen lib) (id : ObservationId)
      → find_observation lib (see_all lib os s).by_id id
        ≡ or_else (find_observation lib s.by_id id) (find_observation lib os id)
  find-see_all [] s id = same (find_observation lib s.by_id id)
    where
      same : (r : Option (Observation lib)) → r ≡ or_else r none
      same none = refl
      same (some q) = refl
  find-see_all (o ∷ os) s id =
      find-see_all os (see lib o s) id
      ∙ ap (λ r. or_else r (find_observation lib os id)) (find-see o s id)
      ∙ or_else_assoc (find_observation lib s.by_id id) (find_observation lib (o ∷ []) id)
          (find_observation lib os id)
      ∙ ap (or_else (find_observation lib s.by_id id)) (sym (find-append (o ∷ []) os id))

  counted-see :
      (o : Observation lib) (s : Seen lib)
      → (see lib o s).duplicate_ids + length (see lib o s).by_id
        ≡ suc (s.duplicate_ids + length s.by_id)
  counted-see o s = elim (Bool-cases (is_some (find_observation lib s.by_id o.id))) [
    | inl y ↦ rw y (omega arith)
    | inr n ↦ rw n (omega (arith, length-append s.by_id (o ∷ [])))
  ]

  counted-see_all :
      (os : List (Observation lib)) (s : Seen lib)
      → (see_all lib os s).duplicate_ids + length (see_all lib os s).by_id
        ≡ s.duplicate_ids + length s.by_id + length os
  counted-see_all [] s = omega arith
  counted-see_all (o ∷ os) s = omega (arith, counted-see_all os (see lib o s), counted-see o s)

  -- An identifier stands in the index for the first observation of the investigation that has it, and
  -- the observations kept and those counted as reused are as many as the investigation has.
  pub observation-new :
      (outside : Outside lib) (v : Investigation lib)
      → ((id : ObservationId)
          → observation lib (new lib outside v) id ≡ find_observation lib v.observations id)
        × ((new lib outside v).duplicate_ids + length (new lib outside v).by_id
            ≡ length v.observations)
  unfolding new
  observation-new outside v =
      let start : Seen lib = record { by_id = []; duplicate_ids = 0; by_indicator = [] } in
      (
        λ id. find-see_all v.observations start id,
        omega (arith, counted-see_all v.observations start),
      )
