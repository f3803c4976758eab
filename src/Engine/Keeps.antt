-- ===== src/Engine/Keeps.antt =====
-- Induction over what a run does: a predicate that the single changes of the state keep is kept by
-- scheduling, by following pivots and by completing a task.
use sentinel_osint.Common.{
  ℕ, ◌+◌, ◌-◌, ◌≤◌, ◌<◌, Bool, true, false, ◌&&◌, ◌||◌, List, [], ◌∷◌, ◌++◌, ltb, take, length,
  nat_eq, list_eq, contains, Result, ok, err, ◌≡◌, ◌⊎◌, inl, inr, refl, subst, arith, Bool-cases,
  contains-append, Eq, =?_refl, ap,
}
use sentinel_osint.Common.Text.{Text}
use sentinel_osint.Indicator.Defs.{Crates}
use sentinel_osint.Indicator.Policy.{Indicator, ensure_investigable}
use sentinel_osint.Indicator.Equality.{indicator_eq}
use sentinel_osint.Evidence.Observations.{SourceId}
use sentinel_osint.Engine.Collectors.{Collector, Availability, ready, unavailable}
use sentinel_osint.Engine.State.{Engine, Run, max_pivot_candidates}
use sentinel_osint.Engine.Schedule.{
  insert, is_target_only, next_depth, report_unavailable, spawn, start, schedule_one, schedule_from,
  schedule, is_err, is_rejected, drop_pivot, visit, consider_pivot, consider_each, add_overflow,
  consider_pivots,
}

pub contains-insert {ℓ} :
    {A : Type ℓ} (e : Eq A) (set : List A) (a b : A)
    → contains ⦃e = e⦄ (insert e set a) b ≡ (contains ⦃e = e⦄ set b || e.beq a b)
unfolding insert
contains-insert e set a b = elim (Bool-cases (contains ⦃e = e⦄ set a)) [
  | inl y ↦ rw y (present y)
  | inr n ↦ rw n ground (arith, contains-append ⦃e = e⦄ set (a ∷ []) b)
]
  where
    present :
        contains ⦃e = e⦄ set a ≡ true
        → contains ⦃e = e⦄ set b ≡ (contains ⦃e = e⦄ set b || e.beq a b)
    present y = elim (Bool-cases (e.beq a b)) [
      | inl same ↦
          rw same ground
            (arith, subst (λ z. contains ⦃e = e⦄ set z ≡ true) ((e.beq_iff a b).0 same) y)
      | inr other ↦ rw other ground arith
    ]

pub insert-new {ℓ} :
    {A : Type ℓ} (e : Eq A) (set : List A) (a : A)
    → contains ⦃e = e⦄ set a ≡ false
    → insert e set a ≡ set ++ a ∷ []
unfolding insert
insert-new e set a h = rw h refl

module _ (lib : Crates) (engine : Engine lib) where
  -- One of the registered collectors.
  abbrev pub Among : List (Collector lib) → Collector lib → Type 0
  Among [] c = ⊥
  Among (d ∷ ds) c = (d ≡ c) ⊎ Among ds c

  abbrev pub visits : Run lib → Indicator lib → Bool
  visits run i = contains ⦃e = indicator_eq lib⦄ run.visited i

  abbrev pub drops : Run lib → Indicator lib → Bool
  drops run i = contains ⦃e = indicator_eq lib⦄ run.dropped i

  -- The collector may run on the indicator at the depth.
  pub record Applies (c : Collector lib) (i : Indicator lib) (depth : ℕ) : Type 0 where
    pub registered : Among engine.collectors c
    pub supported : c.supports i ≡ true
    pub in_scope : (depth ≡ 0) ⊎ (is_target_only c.scope ≡ false)

  abbrev pub WithinDepth : ℕ → Type 0
  WithinDepth depth = (depth ≡ 0) ⊎ (depth ≤ engine.config.pivots.max_depth)

  pub record Keeps (P : Run lib → Type 0) : Type 0 where
    pub overflows : (run : Run lib) (n : ℕ) → P run → P (record run { overflow = run.overflow + n })
    pub reports :
        (run : Run lib) (c : Collector lib) (i : Indicator lib) (depth : ℕ) (reason : Text)
        → Applies c i depth
        → contains run.considered c.id ≡ false
        → P run
        → P (report_unavailable lib engine c.id i reason run)
    pub spawns :
        (run : Run lib) (c : Collector lib) (i : Indicator lib) (depth : ℕ)
        → Applies c i depth
        → c.availability ≡ ready
        → visits run i ≡ true
        → WithinDepth depth
        → P run
        → P (spawn lib engine c.id i depth run)
    pub drops_pivot :
        (run : Run lib) (i : Indicator lib)
        → visits run i ≡ false
        → drops run i ≡ false
        → P run
        → P (drop_pivot lib engine i run)
    pub visits_pivot :
        (run : Run lib) (i : Indicator lib)
        → visits run i ≡ false
        → drops run i ≡ false
        → length run.visited - 1 < engine.config.pivots.max_entities
        → ensure_investigable lib i ≡ ok tt
        → P run
        → P (visit lib engine i run)

  report_unavailable-visited :
      (id : SourceId) (i : Indicator lib) (reason : Text) (run : Run lib)
      → (report_unavailable lib engine id i reason run).visited ≡ run.visited
  unfolding report_unavailable
  report_unavailable-visited id i reason run = refl

  spawn-visited :
      (id : SourceId) (i : Indicator lib) (depth : ℕ) (run : Run lib)
      → (spawn lib engine id i depth run).visited ≡ run.visited
  unfolding spawn
  spawn-visited id i depth run = refl

  -- Whatever starts a collector keeps the predicate and what has been visited.
  start-visited :
      (a : Availability) (id : SourceId) (i : Indicator lib) (depth : ℕ) (run : Run lib)
      → (start lib engine a id i depth run).visited ≡ run.visited
  start-visited ready id i depth run = spawn-visited id i depth run
  start-visited (unavailable reason) id i depth run =
      elim (Bool-cases (contains run.considered id)) [
        | inl y ↦ rw y refl
        | inr n ↦ rw n (report_unavailable-visited id i reason run)
      ]

  pub schedule_one-visited :
      (c : Collector lib) (i : Indicator lib) (depth : ℕ) (run : Run lib)
      → (schedule_one lib engine c i depth run).visited ≡ run.visited
  unfolding schedule_one
  schedule_one-visited c i depth run = ground (arith, start-visited c.availability c.id i depth run)

  module _ (P : Run lib → Type 0) (k : Keeps P) where
    start-Keeps :
        (a : Availability) (c : Collector lib) (i : Indicator lib) (depth : ℕ) (run : Run lib)
        → c.availability ≡ a
        → Applies c i depth
        → visits run i ≡ true
        → WithinDepth depth
        → P run
        → P (start lib engine a c.id i depth run)
    start-Keeps ready c i depth run same ap v d p = k.spawns run c i depth ap same v d p
    start-Keeps (unavailable reason) c i depth run same ap v d p =
        elim (Bool-cases (contains run.considered c.id)) [
          | inl y ↦ rw y p
          | inr n ↦ rw n (k.reports run c i depth reason ap n p)
        ]

    schedule_one-Keeps :
        (c : Collector lib) (i : Indicator lib) (depth : ℕ) (run : Run lib)
        → Among engine.collectors c
        → visits run i ≡ true
        → WithinDepth depth
        → P run
        → P (schedule_one lib engine c i depth run)
    unfolding schedule_one
    schedule_one-Keeps c i depth run m v d p = elim (Bool-cases (c.supports i)) [
      | inr n ↦ rw n p
      | inl y ↦ elim (Bool-cases (ltb 0 depth && is_target_only c.scope)) [
        | inl t ↦ rw (y, t) p
        | inr f ↦
            rw (y, f)
              (start-Keeps c.availability c i depth run refl
                (record { registered = m; supported = y; in_scope = ground arith }) v d p)
      ]
    ]

    schedule_from-Keeps :
        (cs : List (Collector lib)) (i : Indicator lib) (depth : ℕ) (run : Run lib)
        → ((c : Collector lib) → Among cs c → Among engine.collectors c)
        → visits run i ≡ true
        → WithinDepth depth
        → P run
        → P (schedule_from lib engine cs i depth run)
    schedule_from-Keeps [] i depth run m v d p = p
    schedule_from-Keeps (c ∷ cs) i depth run m v d p =
        let next : Run lib = schedule_one lib engine c i depth run in
        let seen : visits next i ≡ true = rw (schedule_one-visited c i depth run) v in
        schedule_from-Keeps cs i depth next (λ c a. m c (inr a)) seen d
          (schedule_one-Keeps c i depth run (m c (inl refl)) v d p)

    pub schedule-Keeps :
        (i : Indicator lib) (depth : ℕ) (run : Run lib)
        → visits run i ≡ true
        → WithinDepth depth
        → P run
        → P (schedule lib engine i depth run)
    schedule-Keeps i depth run = schedule_from-Keeps engine.collectors i depth run (λ c a. a)

    visit-visits : (i : Indicator lib) (run : Run lib) → visits (visit lib engine i run) i ≡ true
    unfolding visit
    visit-visits i run = ground (
      arith,
      contains-insert (indicator_eq lib) run.visited i i,
      =?_refl ⦃e = indicator_eq lib⦄ i,
    )

    is_rejected_inv :
        (i : Indicator lib) (depth : ℕ) (run : Run lib)
        → is_rejected lib engine i depth run ≡ false
        → (depth ≤ engine.config.pivots.max_depth)
          × (length run.visited - 1 < engine.config.pivots.max_entities)
          × (ensure_investigable lib i ≡ ok tt)
    unfolding is_rejected
    is_rejected_inv i depth run h =
        (ground arith, ground arith, is_ok (ensure_investigable lib i) (ground arith))
      where
        is_ok : {E : Type 0} (m : Result E (Unit {0})) → is_err lib engine m ≡ false → m ≡ ok tt
        is_ok (ok tt) e = refl
        is_ok (err x) e = cc

    consider_pivot-Keeps :
        (depth : ℕ) (i : Indicator lib) (run : Run lib)
        → P run
        → P (consider_pivot lib engine depth i run)
    unfolding consider_pivot
    consider_pivot-Keeps depth i run p = elim (Bool-cases (visits run i || drops run i)) [
      | inl y ↦ rw y p
      | inr n ↦ elim (Bool-cases (is_rejected lib engine i depth run)) [
        | inl y ↦ rw (n, y) (k.drops_pivot run i (ground arith) (ground arith) p)
        | inr m ↦
            let (d, room, public) = is_rejected_inv i depth run m in
            rw (n, m)
              (schedule-Keeps i depth (visit lib engine i run) (visit-visits i run) (inr d)
                (k.visits_pivot run i (ground arith) (ground arith) room public p))
      ]
    ]

    consider_each-Keeps :
        (depth : ℕ) (is : List (Indicator lib)) (run : Run lib)
        → P run
        → P (consider_each lib engine depth is run)
    consider_each-Keeps depth [] run p = p
    consider_each-Keeps depth (i ∷ is) run p =
        consider_each-Keeps depth is (consider_pivot lib engine depth i run)
          (consider_pivot-Keeps depth i run p)

    pub consider_pivots-Keeps :
        (is : List (Indicator lib)) (depth : ℕ) (run : Run lib)
        → P run
        → P (consider_pivots lib engine is depth run)
    unfolding consider_pivots
    consider_pivots-Keeps is depth run p =
        consider_each-Keeps (next_depth depth) (take max_pivot_candidates is)
          (add_overflow lib engine (length is - max_pivot_candidates) run)
          (overflowed (length is - max_pivot_candidates))
      where
        overflowed : (n : ℕ) → P (add_overflow lib engine n run)
        overflowed n = elim (Bool-cases (ltb 0 n)) [
          | inl y ↦ rw y (k.overflows run n p)
          | inr m ↦ rw m p
        ]
