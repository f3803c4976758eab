-- ===== src/Engine/Schedule.antt =====
-- crates/collectors/src/engine/mod.rs: starting collectors and following pivots.
use sentinel_osint.Common.{
  ℕ, suc, ◌+◌, ◌-◌, min, Bool, true, false, not, ◌&&◌, ◌||◌, List, [], ◌∷◌, ◌++◌, ltb, leb,
  if◌then◌else◌, take, length, Eq, nat_eq, list_eq, contains, Result, ok, err,
}
use sentinel_osint.Common.Text.{Text}
use sentinel_osint.Indicator.Defs.{Crates}
use sentinel_osint.Indicator.Policy.{Indicator, ensure_investigable}
use sentinel_osint.Indicator.Equality.{indicator_eq}
use sentinel_osint.Evidence.Observations.{SourceId, Timestamp}
use sentinel_osint.Investigation.{new_status, record_source, unavailable as unavailable_outcome}
use sentinel_osint.Engine.Collectors.{
  Collector, CollectorScope, target_only, target_and_pivots, Availability, ready, unavailable,
}
use sentinel_osint.Engine.State.{Engine, Run, max_pivot_candidates}

-- `HashSet::insert`.
unfoldable pub insert {ℓ} : {A : Type ℓ} → Eq A → List A → A → List A
insert e set a = if contains ⦃e = e⦄ set a then set else set ++ a ∷ []

abbrev pub is_target_only : CollectorScope → Bool
is_target_only target_only = true
is_target_only target_and_pivots = false

-- `u8::saturating_add(1)`.
abbrev pub next_depth : ℕ → ℕ
next_depth depth = min 255 (depth + 1)

module _ (lib : Crates) (engine : Engine lib) where
  -- The status is recorded with the next reading of the clock.
  unfoldable pub report_unavailable : SourceId → Indicator lib → Text → Run lib → Run lib
  report_unavailable id indicator reason run =
      let now : Timestamp = engine.clock run.readings in
      record run {
        considered = insert list_eq run.considered id;
        investigation =
            record_source lib run.investigation
              (new_status lib id indicator (unavailable_outcome reason) now now);
        readings = suc run.readings;
      }

  -- `Run::spawn`, after `considered` has taken the collector.
  unfoldable pub spawn : SourceId → Indicator lib → ℕ → Run lib → Run lib
  spawn id indicator depth run = record run {
    considered = insert list_eq run.considered id;
    tasks = run.tasks ++ run.next_task ∷ [];
    stats = record run.stats { source_runs = run.stats.source_runs + 1 };
    pending =
        run.pending
        ++ record {
          id = run.next_task;
          source = id;
          indicator = indicator;
          depth = depth;
          queued_at = engine.clock run.readings;
        }
          ∷ [];
    next_task = suc run.next_task;
    readings = suc run.readings;
  }

  abbrev pub start : Availability → SourceId → Indicator lib → ℕ → Run lib → Run lib
  start (unavailable reason) id indicator depth run =
      if contains run.considered id then run else report_unavailable id indicator reason run
  start ready id indicator depth run = spawn id indicator depth run

  -- The body of the loop in `schedule`.
  unfoldable pub schedule_one : Collector lib → Indicator lib → ℕ → Run lib → Run lib
  schedule_one c indicator depth run =
      if not (c.supports indicator)
      then run
      else if ltb 0 depth && is_target_only c.scope
      then run
      else start c.availability c.id indicator depth run

  abbrev pub schedule_from : List (Collector lib) → Indicator lib → ℕ → Run lib → Run lib
  schedule_from [] indicator depth run = run
  schedule_from (c ∷ cs) indicator depth run =
      schedule_from cs indicator depth (schedule_one c indicator depth run)

  -- `Run::schedule`.
  abbrev pub schedule : Indicator lib → ℕ → Run lib → Run lib
  schedule = schedule_from engine.collectors

  abbrev pub is_err {ℓ κ} : {E : Type ℓ} {A : Type κ} → Result E A → Bool
  is_err (ok a) = false
  is_err (err e) = true

  -- Whether `rejection` is some reason.
  unfoldable pub is_rejected : Indicator lib → ℕ → Run lib → Bool
  is_rejected pivot depth run =
      if ltb engine.config.pivots.max_depth depth
      then true
      else if leb engine.config.pivots.max_entities (length run.visited - 1)
      then true
      else is_err (ensure_investigable lib pivot)

  unfoldable pub drop_pivot : Indicator lib → Run lib → Run lib
  drop_pivot pivot run = record run { dropped = insert (indicator_eq lib) run.dropped pivot }

  -- A pivot is visited and counted before it is scheduled.
  unfoldable pub visit : Indicator lib → Run lib → Run lib
  visit pivot run = record run {
    visited = insert (indicator_eq lib) run.visited pivot;
    stats = record run.stats { pivots_followed = run.stats.pivots_followed + 1 };
  }

  -- The body of the loop in `consider_pivots`.
  unfoldable pub consider_pivot : ℕ → Indicator lib → Run lib → Run lib
  consider_pivot depth pivot run =
      if contains ⦃e = indicator_eq lib⦄ run.visited pivot
        || contains ⦃e = indicator_eq lib⦄ run.dropped pivot
      then run
      else if is_rejected pivot depth run
      then drop_pivot pivot run
      else schedule pivot depth (visit pivot run)

  abbrev pub consider_each : ℕ → List (Indicator lib) → Run lib → Run lib
  consider_each depth [] run = run
  consider_each depth (pivot ∷ pivots) run =
      consider_each depth pivots (consider_pivot depth pivot run)

  abbrev pub add_overflow : ℕ → Run lib → Run lib
  add_overflow excess run =
      if ltb 0 excess then record run { overflow = run.overflow + excess } else run

  -- `Run::consider_pivots`.
  unfoldable pub consider_pivots : List (Indicator lib) → ℕ → Run lib → Run lib
  consider_pivots pivots parent_depth run =
      consider_each (next_depth parent_depth) (take max_pivot_candidates pivots)
        (add_overflow (length pivots - max_pivot_candidates) run)
