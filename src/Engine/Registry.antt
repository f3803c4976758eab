-- ===== src/Engine/Registry.antt =====
-- Registration of collectors, and the request budget over several requests.
use sentinel_osint.Common.{
  ℕ, zero, suc, ◌+◌, ◌-◌, ◌≤◌, min, true, ◌||◌, List, [], ◌∷◌, ◌++◌, ltb, any, if◌then◌else◌,
  list_beq, list_eq, nat_eq, contains, Distinct, Distinct-concat, ok, err, ◌≡◌, ◌⊎◌, refl, sym,
  subst, ap, ◌∙◌, arith, Bool-cases, inl, inr,
}
use sentinel_osint.Indicator.Defs.{Crates}
use sentinel_osint.Evidence.Observations.{SourceId}
use sentinel_osint.Engine.Collectors.{Collector, RequestBudget, new_budget, try_acquire}
use sentinel_osint.Engine.State.{Engine, duplicate_source, register, sources}

-- `try_acquire` called `n` times, and how many of the calls took a request.
abbrev acquire_times : ℕ → RequestBudget → ℕ × RequestBudget
acquire_times zero b = (0, b)
acquire_times (suc n) b =
    let (taken, c) = try_acquire b in
    let (granted, d) = acquire_times n c in ((if taken then 1 else 0) + granted, d)

acquire_times_from :
    (n : ℕ) (b : RequestBudget)
    → b.used ≤ b.limit
    → ((acquire_times n b).0 ≡ min n (b.limit - b.used))
      × ((acquire_times n b).1.used ≡ b.used + min n (b.limit - b.used))
      × ((acquire_times n b).1.limit ≡ b.limit)
unfolding try_acquire
acquire_times_from zero b h = (omega arith, omega arith, refl)
acquire_times_from (suc n) b h = elim (Bool-cases (ltb b.used b.limit)) [
  | inl y ↦
      let (granted, used, limit) =
        acquire_times_from n (record b { used = b.used + 1 }) (ground arith) in
      rw y (ground (arith, granted), ground (arith, used), limit)
  | inr m ↦
      let (granted, used, limit) = acquire_times_from n b h in
      rw m (ground (arith, granted), ground (arith, used), limit)
]

-- Of `n` calls of `try_acquire` on a new budget exactly the lesser of `n` and its limit take a request;
-- the budget has counted them, and its limit is the same.
acquire_times_lem :
    (limit n : ℕ)
    → ((acquire_times n (new_budget limit)).0 ≡ min n limit)
      × ((acquire_times n (new_budget limit)).1.used ≡ min n limit)
      × ((acquire_times n (new_budget limit)).1.limit ≡ limit)
acquire_times_lem limit n =
    let (granted, used, same) = acquire_times_from n (new_budget limit) (omega arith) in
    (omega (arith, granted), omega (arith, used), same)

module _ (lib : Crates) where
  sources-append :
      (cs : List (Collector lib)) (c : Collector lib)
      → sources lib (cs ++ c ∷ []) ≡ sources lib cs ++ c.id ∷ []
  sources-append [] c = refl
  sources-append (x ∷ cs) c = ap (◌∷◌ x.id) (sources-append cs c)

  any-contains :
      (cs : List (Collector lib)) (id : SourceId)
      → any (λ c. list_beq c.id id) cs ≡ contains (sources lib cs) id
  any-contains [] id = refl
  any-contains (x ∷ cs) id = ap (λ b. list_beq x.id id || b) (any-contains cs id)

  -- While the registered identifiers are distinct, `register` refuses a collector exactly when one with its identifier is registered, with the error
  -- that names it; otherwise it appends the identifier, and the identifiers stay distinct.
  register_lem :
      (engine : Engine lib) (collector : Collector lib)
      → Distinct (sources lib engine.collectors)
      → ((contains (sources lib engine.collectors) collector.id ≡ true)
          × (register lib engine collector ≡ err (duplicate_source collector.id)))
        ⊎ ((grown : Engine lib) × (register lib engine collector ≡ ok grown)
            × (sources lib grown.collectors ≡ sources lib engine.collectors ++ collector.id ∷ [])
            × Distinct (sources lib grown.collectors))
  unfolding register
  register_lem engine collector d =
      elim (Bool-cases (any (λ c. list_beq c.id collector.id) engine.collectors)) [
        | inl y ↦ inl (sym (any-contains engine.collectors collector.id) ∙ y, rw y refl)
        | inr n ↦
            let cs : List (Collector lib) = engine.collectors in
            let ids = sources-append cs collector in
            inr (
              record engine { collectors = cs ++ collector ∷ [] },
              rw n refl,
              ids,
              subst Distinct (sym ids) (
                  Distinct-concat (sources lib cs) collector.id d
                    (sym (any-contains cs collector.id) ∙ n)),
            )
      ]
