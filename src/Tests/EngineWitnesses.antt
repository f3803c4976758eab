-- ===== src/Tests/EngineWitnesses.antt =====
-- The theorems on the engine at a sample run.
use sentinel_osint.Common.{
  ◌+◌, ◌*◌, ◌≤◌, true, Option, none, some, [], ok, ◌≡◌, refl, arith, All, length, contains, list_eq,
  nat_eq,
}
use sentinel_osint.Indicator.Policy.{ensure_investigable}
use sentinel_osint.Evidence.Relationships.Laws.{IsRelationship}
use sentinel_osint.Investigation.{Investigation, new}
use sentinel_osint.Investigation.Integrity.{IsIntact}
use sentinel_osint.Investigation.Operations.{new-IsIntact}
use sentinel_osint.Engine.State.{Run, new_run}
use sentinel_osint.Engine.Execute.{investigate, drive, wrap_up, complete, join}
use sentinel_osint.Engine.Reachable.{ValidEvent, Reachable, completes, begun}
use sentinel_osint.Engine.Tasks.{Allowed, keys}
use sentinel_osint.Engine.Outcome.{first_run, Reachable-bounded, Reachable-Allowed}
use sentinel_osint.Engine.Returned.{Promise, investigate-Promise}
use sentinel_osint.Engine.Enough.{Possible, Complete, investigate-returns}
use sentinel_osint.Tests.Samples.{
  sample_crates, sample_engine, example_target, answer, address_of_name,
}
use sentinel_osint.Tests.EngineTests.{unfolded_engine, answers}

abbrev begun_investigation : Investigation sample_crates
begun_investigation = record {
  target = example_target;
  started_at = 0;
  finished_at = none;
  observations = [];
  relationships = [];
  findings = [];
  sources = [];
}

new_sample : new sample_crates example_target 0 ≡ ok begun_investigation
unfolding unfolded_engine
new_sample = refl

target_public : ensure_investigable sample_crates example_target ≡ ok tt
unfolding unfolded_engine
target_public = refl

sample-IsIntact : IsIntact sample_crates begun_investigation
sample-IsIntact = new-IsIntact sample_crates example_target 0 begun_investigation new_sample

related : IsRelationship sample_crates address_of_name
related = record { typed = refl; has_evidence = λ e. cc; distinct = (refl, tt) }

answers-Valid : All (ValidEvent sample_crates sample_engine) answers
answers-Valid = (tt, ((related, tt), (tt, (tt, tt))))

abbrev first : Run sample_crates
first = first_run sample_crates sample_engine example_target begun_investigation

abbrev last_of : Option (Run sample_crates) → Run sample_crates
last_of (some run) = run
last_of none = new_run sample_crates sample_engine begun_investigation

abbrev returned : Run sample_crates
returned =
    wrap_up sample_crates sample_engine (last_of (drive sample_crates sample_engine answers first))

returned_lem : investigate sample_crates sample_engine example_target answers ≡ ok (some returned)
unfolding unfolded_engine
returned_lem = refl

investigate-Promise_example : Promise sample_crates sample_engine example_target returned
investigate-Promise_example =
    investigate-Promise sample_crates sample_engine example_target answers returned answers-Valid
      returned_lem

Possible-answers : Possible sample_crates sample_engine answers first
unfolding unfolded_engine
Possible-answers = (refl, (refl, tt))

Complete-answers : Complete sample_crates sample_engine answers 0
Complete-answers = omega arith

investigate-returns_example :
    (run : Run sample_crates) × (investigate sample_crates sample_engine example_target answers
      ≡ ok (some run))
investigate-returns_example =
    investigate-returns sample_crates sample_engine example_target begun_investigation answers
      new_sample answers-Valid Possible-answers Complete-answers

-- The state after the first answer, when the task for the pivot is left.
abbrev second : Run sample_crates
second = complete sample_crates sample_engine 0 answer (join sample_crates sample_engine 0 first)

first_task : contains first.tasks 0 ≡ true
unfolding unfolded_engine
first_task = refl

reached : Reachable sample_crates sample_engine first 1 second
reached = completes 0 answer first_task (related, tt) begun

Reachable-bounded_example :
    1 + length second.tasks
    ≤ length sample_engine.collectors * (1 + sample_engine.config.pivots.max_entities)
Reachable-bounded_example =
    Reachable-bounded sample_crates sample_engine example_target begun_investigation 1 second
      sample-IsIntact target_public reached

Reachable-Allowed_example :
    (second.tasks ≡ keys sample_crates sample_engine second.pending)
    × All (Allowed sample_crates sample_engine second.visited) second.pending
    × All (λ i. ensure_investigable sample_crates i ≡ ok tt) second.visited
Reachable-Allowed_example =
    Reachable-Allowed sample_crates sample_engine example_target begun_investigation 1 second
      sample-IsIntact target_public reached
