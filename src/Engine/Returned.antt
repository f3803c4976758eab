-- ===== src/Engine/Returned.antt =====
-- What `Engine::investigate` returns, after `record_unsupported` and `Investigation::finish`.
use sentinel_osint.Common.{
  ℕ, suc, ◌+◌, ◌*◌, ◌≤◌, max, Bool, true, false, not, ◌&&◌, ◌||◌, Option, none, some, List, [], ◌∷◌,
  ltb, length, contains, nat_eq, list_eq, list_beq, list_beq_refl, ◌≡◌, ◌⊎◌, refl, sym, subst, ap,
  ◌∙◌, arith, inl, inr, All, Bool-cases, ok, ok_eq, >>=-eq-ok,
}
use native.Mathlib.Nat.{mul-le-mul_left}
use sentinel_osint.Indicator.Defs.{Crates}
use sentinel_osint.Indicator.Policy.{Indicator, ensure_investigable}
use sentinel_osint.Evidence.Observations.{SourceId, Timestamp}
use sentinel_osint.Investigation.{Investigation, SourceStatus, new, finish, new_status, unsupported}
use sentinel_osint.Investigation.Integrity.{IsIntact}
use sentinel_osint.Investigation.Operations.{
  kept_on_error, account, end, apply-IsIntact, new-IsIntact, new_public,
}
use sentinel_osint.Engine.Collectors.{Collector}
use sentinel_osint.Engine.State.{Engine, Run}
use sentinel_osint.Engine.Execute.{
  Event, drive, report_unsupported, report_each, record_unsupported, wrap_up, finished_run, execute,
  investigate,
}
use sentinel_osint.Engine.Keeps.{Among}
use sentinel_osint.Engine.Pivots.{PivotsOk}
use sentinel_osint.Engine.Accounted.{status_sources, status_sources-append}
use sentinel_osint.Engine.Runs.{RunsOk, BudgetOk}
use sentinel_osint.Engine.Reachable.{begun, ValidEvent, Ended, drive-Ended}
use sentinel_osint.Engine.Outcome.{RunOk, Reachable-RunOk, first_run}
use sentinel_osint.Engine.Finished.{DoneOk, cancelled-DoneOk, joined-DoneOk}

module _ (lib : Crates) (engine : Engine lib) where
  abbrev has_status : Run lib → SourceId → Bool
  has_status run id = contains (status_sources lib run.investigation.sources) id

  report_unsupported-status :
      (c : Collector lib) (now : Timestamp) (run : Run lib) (id : SourceId)
      → has_status (report_unsupported lib engine c now run) id
        ≡ (has_status run id || not (contains run.considered c.id) && list_beq c.id id)
  report_unsupported-status c now run id = elim (Bool-cases (contains run.considered c.id)) [
    | inl y ↦ rw y (ground arith)
    | inr n ↦
        let status : SourceStatus lib =
          new_status lib c.id run.investigation.target unsupported now now in
        rw n (status_sources-append lib run.investigation.sources status id)
  ]

  report_unsupported-considered :
      (c : Collector lib) (now : Timestamp) (run : Run lib)
      → (report_unsupported lib engine c now run).considered ≡ run.considered
  report_unsupported-considered c now run = elim (Bool-cases (contains run.considered c.id)) [
    | inl y ↦ rw y refl
    | inr n ↦ rw n refl
  ]

  report_each-keeps :
      (cs : List (Collector lib)) (now : Timestamp) (run : Run lib) (id : SourceId)
      → has_status run id ≡ true
      → has_status (report_each lib engine cs now run) id ≡ true
  report_each-keeps [] now run id h = h
  report_each-keeps (c ∷ cs) now run id h =
      report_each-keeps cs now (report_unsupported lib engine c now run) id
        (ground (arith, report_unsupported-status c now run id))

  report_each-status :
      (cs : List (Collector lib)) (now : Timestamp) (run : Run lib) (c : Collector lib)
      → ((id : SourceId) → contains run.considered id ≡ true → has_status run id ≡ true)
      → Among lib engine cs c
      → has_status (report_each lib engine cs now run) c.id ≡ true
  report_each-status [] now run c h a = absurd a
  report_each-status (d ∷ cs) now run c h (inl same) =
      subst (λ x. has_status (report_each lib engine (d ∷ cs) now run) x.id ≡ true) same
        (report_each-keeps cs now (report_unsupported lib engine d now run) d.id
          (by_test (Bool-cases (contains run.considered d.id))))
    where
      by_test :
          (contains run.considered d.id ≡ true) ⊎ (contains run.considered d.id ≡ false)
          → has_status (report_unsupported lib engine d now run) d.id ≡ true
      by_test (inl y) = ground (arith, h d.id y, report_unsupported-status d now run d.id)
      by_test (inr n) =
          ground (arith, n, list_beq_refl d.id, report_unsupported-status d now run d.id)
  report_each-status (d ∷ cs) now run c h (inr later) =
      report_each-status cs now (report_unsupported lib engine d now run) c
        (λ id k. ground (
          arith,
          report_unsupported-status d now run id,
          h id (subst (λ s. contains s id ≡ true) (report_unsupported-considered d now run) k),
        ))
        later

  report_unsupported-rest :
      (c : Collector lib) (now : Timestamp) (run : Run lib)
      → report_unsupported lib engine c now run
        ≡ record run { investigation = (report_unsupported lib engine c now run).investigation }
  report_unsupported-rest c now run = elim (Bool-cases (contains run.considered c.id)) [
    | inl y ↦ rw y refl
    | inr n ↦ rw n refl
  ]

  report_each-IsIntact :
      (cs : List (Collector lib)) (now : Timestamp) (run : Run lib)
      → IsIntact lib run.investigation
      → IsIntact lib (report_each lib engine cs now run).investigation
  report_each-IsIntact [] now run i = i
  report_each-IsIntact (c ∷ cs) now run i =
      report_each-IsIntact cs now (report_unsupported lib engine c now run)
        (by_test (Bool-cases (contains run.considered c.id)))
    where
      by_test :
          (contains run.considered c.id ≡ true) ⊎ (contains run.considered c.id ≡ false)
          → IsIntact lib (report_unsupported lib engine c now run).investigation
      by_test (inl y) = rw y i
      by_test (inr n) = rw n (apply-IsIntact lib (account _) run.investigation tt i)

  -- A predicate of what `report_each` leaves alone.
  report_each-rest :
      (P : Run lib → Type 0)
      → ((run : Run lib) (v : Investigation lib) → P run → P (record run { investigation = v }))
      → (cs : List (Collector lib)) (now : Timestamp) (run : Run lib) → P run
      → P (report_each lib engine cs now run)
  report_each-rest P k [] now run p = p
  report_each-rest P k (c ∷ cs) now run p =
      report_each-rest P k cs now (report_unsupported lib engine c now run)
        (subst P (sym (report_unsupported-rest c now run)) (k run _ p))

  -- What `investigate` promises of the run that it returns.
  pub record Promise (target : Indicator lib) (run : Run lib) : Type 0 where
    pub every_source :
        (c : Collector lib) → Among lib engine engine.collectors c → has_status run c.id ≡ true
    pub pivots : PivotsOk lib engine target run.visited run.dropped run.stats.pivots_followed
    pub few_runs :
        run.stats.source_runs ≤ length engine.collectors * (1 + engine.config.pivots.max_entities)
    pub few_requests : run.stats.requests_used ≤ engine.config.max_requests
    pub intact : IsIntact lib run.investigation
    pub finished :
        (at : Timestamp) × (run.investigation.finished_at ≡ some at)
        × (run.investigation.started_at ≤ at)

  finish_lem :
      (v : Investigation lib) (now : Timestamp)
      → kept_on_error v (finish lib v (max now v.started_at))
        ≡ record v { finished_at = some (max now v.started_at) }
  unfolding kept_on_error finish
  finish_lem v now =
      let later : ltb (max now v.started_at) v.started_at ≡ false = ground arith in rw later refl

  abbrev Static : Indicator lib → Run lib → Type 0
  Static target run =
      PivotsOk lib engine target run.visited run.dropped run.stats.pivots_followed
      × RunsOk lib engine run
      × BudgetOk engine.config.max_requests run.budget

  wrap_up-Promise :
      (target : Indicator lib) (run : Run lib)
      → DoneOk lib engine target run
      → Promise target (wrap_up lib engine run)
  unfolding wrap_up record_unsupported
  wrap_up-Promise target run o =
      let ready : Run lib = record run { readings = suc run.readings } in
      let now : Timestamp = max (engine.clock run.readings) run.investigation.started_at in
      let r : Run lib = report_each lib engine engine.collectors now ready in
      let rest : Static target r =
        report_each-rest (Static target) (λ s v p. p) engine.collectors now ready
          (o.pivots, o.runs, o.budget) in
      let (pivots, runs, budget) = rest in
      let at : Timestamp = max (engine.clock r.readings) r.investigation.started_at in
      let ended = finish_lem r.investigation (engine.clock r.readings) in
      record {
        every_source = λ c a.
            ap (λ v. contains (status_sources lib v.sources) c.id) ended
            ∙ report_each-status engine.collectors now ready c o.accounted a;
        pivots = pivots;
        few_runs = omega (
          arith,
          runs,
          pivots.counted,
          mul-le-mul_left (length engine.collectors) (visited_bound r.visited pivots),
        );
        few_requests = ground (arith, budget);
        intact =
            apply-IsIntact lib (end at) r.investigation tt
              (report_each-IsIntact engine.collectors now ready o.intact);
        finished = (at, ap (λ v. v.finished_at) ended, rw ended (omega arith));
      }
    where
      visited_bound :
          {dropped : List (Indicator lib)} {followed : ℕ} (visited : List (Indicator lib))
          → PivotsOk lib engine target visited dropped followed
          → length visited ≤ 1 + engine.config.pivots.max_entities
      visited_bound visited p = omega (arith, p.counted, p.bounded)

  Ended-DoneOk :
      (target : Indicator lib) (v : Investigation lib) (last : Run lib)
      → IsIntact lib v
      → ensure_investigable lib target ≡ ok tt
      → Ended lib engine (first_run lib engine target v) last
      → DoneOk lib engine target last
  Ended-DoneOk target v last i public e =
      let o : RunOk lib engine target e.joins e.before =
        Reachable-RunOk lib engine target v e.joins e.before i public e.reached in
      elim e.ending [
        | inl (empty, same) ↦
            subst (DoneOk lib engine target) (sym same)
              (joined-DoneOk lib engine target e.joins e.before empty o)
        | inr same ↦
            subst (DoneOk lib engine target) (sym same)
              (cancelled-DoneOk lib engine target e.joins e.before o)
      ]

  finished_run_inv :
      (o : Option (Run lib)) (run : Run lib)
      → finished_run lib engine o ≡ some run
      → (last : Run lib) × (o ≡ some last) × (wrap_up lib engine last ≡ run)
  finished_run_inv none run e = absurd (ground arith)
  finished_run_inv (some last) run e = (last, refl, ground arith)

  -- Whatever the collectors report, as long as its relationships are well typed and cite evidence, each
  -- once, in whatever order, and whenever the deadline passes: a run that `investigate` returns has
  -- recorded a status for every registered source, visited the target and at most `max_entities` other
  -- indicators, each once, each one that may be investigated and none that was dropped, made at most as
  -- many source runs as one of every collector for the target and for each of `max_entities` pivots, took
  -- at most `max_requests` requests, and its investigation is intact and finished, not before it started.
  pub investigate-Promise :
      (target : Indicator lib) (events : List (Event lib engine)) (run : Run lib)
      → All (ValidEvent lib engine) events
      → investigate lib engine target events ≡ ok (some run)
      → Promise target run
  unfolding investigate execute
  investigate-Promise target events run h e =
      let (v, made, ran) = >>=-eq-ok (new lib target (engine.clock 0)) _ e in
      let i : IsIntact lib v = new-IsIntact lib target (engine.clock 0) v made in
      let (last, driven, wrapped) =
        finished_run_inv (drive lib engine events (first_run lib engine target v)) run
          (ok_eq ran) in
      let ended : Ended lib engine (first_run lib engine target v) last =
        drive-Ended lib engine _ last events (first_run lib engine target v) 0 begun h driven in
      subst (Promise target) wrapped (
        wrap_up-Promise target last
          (Ended-DoneOk target v last i (new_public lib target (engine.clock 0) v made) ended))
