-- ===== src/Tests/EngineTests.antt =====
-- crates/collectors/src/engine/mod.rs on a sample: a target, one pivot and a second that is dropped.
use sentinel_osint.Common.{ℕ, Option, some, List, [], ◌∷◌, Result, ok, ◌≡◌, refl, length}
use sentinel_osint.Net.{
  classify, classify_v4, classify_v6, classify_first, classify_segments, classify_ranges,
}
use sentinel_osint.Indicator.Domain.{is_special_use, is_subdomain_of}
use sentinel_osint.Indicator.Policy.{ensure_investigable, ensure_public_ip, ensure_public_domain}
use sentinel_osint.Evidence.Findings.{push_new}
use sentinel_osint.Evidence.Relationships.{merge_evidence}
use sentinel_osint.Investigation.{
  new, add_observation, merge_or_push, add_relationship, add_finding, finish,
}
use sentinel_osint.Investigation.Operations.{kept_on_error}
use sentinel_osint.Engine.Collectors.{try_acquire, acquire_request}
use sentinel_osint.Engine.State.{Run, register}
use sentinel_osint.Engine.Schedule.{
  insert, report_unavailable, spawn, schedule_one, is_rejected, drop_pivot, visit, consider_pivot,
  consider_pivots,
}
use sentinel_osint.Engine.Execute.{
  merge, record_outcome, complete, crashed, take_request, cancel_remaining, record_unsupported,
  wrap_up, begin, execute, investigate, Event, requested, joined, panicked,
}
use sentinel_osint.Sanitize.{sanitize_single_line}
use sentinel_osint.Tests.Samples.{sample_crates, sample_engine, example_target, answer}

unfoldable pub unfolded_engine : Unit {0}
unfolding classify classify_v4 classify_v6 classify_first classify_segments classify_ranges
    is_special_use is_subdomain_of ensure_investigable ensure_public_ip ensure_public_domain
    push_new merge_evidence new add_observation merge_or_push add_relationship add_finding finish
    kept_on_error try_acquire acquire_request register insert report_unavailable spawn schedule_one
    is_rejected drop_pivot visit consider_pivot consider_pivots merge record_outcome complete
    crashed take_request cancel_remaining record_unsupported wrap_up begin execute investigate
    sanitize_single_line
unfolded_engine = tt

abbrev pub answers : List (Event sample_crates sample_engine)
answers = requested ∷ joined 0 answer ∷ requested ∷ panicked 1 ∷ []

abbrev pub summary : {E : Type 0} → Result E (Option (Run sample_crates)) → List ℕ
summary (ok (some run)) =
    run.stats.source_runs
    ∷ run.stats.pivots_followed
    ∷ run.stats.requests_used
    ∷ length run.investigation.sources
    ∷ length run.investigation.relationships
    ∷ []
summary _ = []

summary_lem :
    summary (investigate sample_crates sample_engine example_target answers)
    ≡ 2 ∷ 1 ∷ 1 ∷ 2 ∷ 1 ∷ []
unfolding unfolded_engine
summary_lem = refl
