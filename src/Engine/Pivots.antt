-- ===== src/Engine/Pivots.antt =====
-- Which indicators a run visits and drops.
use sentinel_osint.Common.{
  ℕ, ok, suc, ◌-◌, ◌≤◌, ◌<◌, Bool, true, false, List, [], ◌∷◌, ◌++◌, length, length-append, nat_eq,
  contains, ◌≡◌, sym, subst, arith, Bool-cases, inl, inr, All, All-append, Distinct,
  Distinct-concat,
}
use sentinel_osint.Indicator.Defs.{Crates}
use sentinel_osint.Indicator.Policy.{Indicator, ensure_investigable}
use sentinel_osint.Indicator.Equality.{indicator_eq}
use sentinel_osint.Engine.State.{Engine, Run}
use sentinel_osint.Engine.Schedule.{insert, report_unavailable, spawn, drop_pivot, visit}
use sentinel_osint.Engine.Execute.{merge, take_request, record_outcome}
use sentinel_osint.Engine.Keeps.{contains-insert, insert-new, Keeps, consider_pivots-Keeps}
use sentinel_osint.Engine.Reachable.{Invariant}

module _ (lib : Crates) (engine : Engine lib) where
  abbrev pub within : List (Indicator lib) → Indicator lib → Bool
  within is i = contains ⦃e = indicator_eq lib⦄ is i

  pub record PivotsOk (target : Indicator lib) (visited dropped : List (Indicator lib))
      (followed : ℕ) : Type 0 where
    pub starts_at_target : within visited target ≡ true
    pub visited_once : Distinct ⦃e = indicator_eq lib⦄ visited
    pub dropped_once : Distinct ⦃e = indicator_eq lib⦄ dropped
    pub disjoint : (i : Indicator lib) → within visited i ≡ true → within dropped i ≡ false
    pub public : All (λ i. ensure_investigable lib i ≡ ok tt) visited
    pub counted : length visited ≡ suc followed
    pub bounded : followed ≤ engine.config.pivots.max_entities

  module _ (target : Indicator lib) where
    abbrev pub PivotsOkIn : Run lib → Type 0
    PivotsOkIn run = PivotsOk target run.visited run.dropped run.stats.pivots_followed

    dropped_lem :
        (run : Run lib) (i : Indicator lib)
        → within run.visited i ≡ false
        → within run.dropped i ≡ false
        → PivotsOkIn run
        → PivotsOkIn (drop_pivot lib engine i run)
    unfolding drop_pivot
    dropped_lem run i v d p = record {
      starts_at_target = p.starts_at_target;
      visited_once = p.visited_once;
      dropped_once =
          subst (Distinct ⦃e = indicator_eq lib⦄)
            (sym (insert-new (indicator_eq lib) run.dropped i d))
            (Distinct-concat ⦃e = indicator_eq lib⦄ run.dropped i p.dropped_once d);
      disjoint = λ j h. apart j h;
      public = p.public;
      counted = p.counted;
      bounded = p.bounded;
    }
      where
        missing :
            (j : Indicator lib)
            → within run.visited j ≡ true
            → (indicator_eq lib).beq i j ≡ true
            → ⊥
        missing j h y =
            let seen : within run.visited i ≡ true =
              subst (λ z. within run.visited z ≡ true) (sym (((indicator_eq lib).beq_iff i j).0 y))
                h in
            ground arith

        apart :
            (j : Indicator lib)
            → within run.visited j ≡ true
            → within (insert (indicator_eq lib) run.dropped i) j ≡ false
        apart j h = elim (Bool-cases ((indicator_eq lib).beq i j)) [
          | inl y ↦ absurd (missing j h y)
          | inr n ↦
              ground (arith, contains-insert (indicator_eq lib) run.dropped i j, p.disjoint j h)
        ]

    visited_lem :
        (run : Run lib) (i : Indicator lib)
        → within run.visited i ≡ false
        → within run.dropped i ≡ false
        → length run.visited - 1 < engine.config.pivots.max_entities
        → ensure_investigable lib i ≡ ok tt
        → PivotsOkIn run
        → PivotsOkIn (visit lib engine i run)
    unfolding visit
    visited_lem run i v d room public p =
        let added : insert (indicator_eq lib) run.visited i ≡ run.visited ++ i ∷ [] =
          insert-new (indicator_eq lib) run.visited i v in
        record {
          starts_at_target =
              ground (
                arith,
                contains-insert (indicator_eq lib) run.visited i target,
                p.starts_at_target,
              );
          visited_once =
              subst (Distinct ⦃e = indicator_eq lib⦄) (sym added)
                (Distinct-concat ⦃e = indicator_eq lib⦄ run.visited i p.visited_once v);
          dropped_once = p.dropped_once;
          disjoint = λ j h. apart j h;
          public = subst (All (λ i. ensure_investigable lib i ≡ ok tt)) (sym added) (
              All-append (λ i. ensure_investigable lib i ≡ ok tt) run.visited (i ∷ []) p.public
                (public, tt));
          counted = rw added omega (arith, length-append run.visited (i ∷ []), p.counted);
          bounded = omega (arith, p.counted);
        }
      where
        apart :
            (j : Indicator lib)
            → within (insert (indicator_eq lib) run.visited i) j ≡ true
            → within run.dropped j ≡ false
        apart j h = elim (Bool-cases ((indicator_eq lib).beq i j)) [
          | inl y ↦
              subst (λ z. within run.dropped z ≡ false) (((indicator_eq lib).beq_iff i j).0 y) d
          | inr n ↦
              p.disjoint j (ground (arith, contains-insert (indicator_eq lib) run.visited i j))
        ]

    pub PivotsOkIn-Keeps : Keeps lib engine PivotsOkIn
    unfolding report_unavailable spawn
    PivotsOkIn-Keeps = record {
      overflows = λ run n p. p;
      reports = λ run c i depth reason a f p. p;
      spawns = λ run c i depth a r v d p. p;
      drops_pivot = dropped_lem;
      visits_pivot = visited_lem;
    }

    pub PivotsOkIn-Invariant : Invariant lib engine (λ n. PivotsOkIn) (λ n task. PivotsOkIn)
    unfolding take_request merge record_outcome
    PivotsOkIn-Invariant = record {
      request = λ n run p. p;
      takes = λ n id task run e p. p;
      tracked = λ n id run m e p. p;
      merges = λ n task c run v p. p;
      pivots = λ n task is depth run p.
          consider_pivots-Keeps lib engine PivotsOkIn PivotsOkIn-Keeps is depth run p;
      reads = λ n task run p. p;
      records = λ n task outcome from to run p. p;
    }
