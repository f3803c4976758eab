-- ===== src/Investigation/Statuses.antt =====
-- What `SourceStatus::new` guarantees about texts and times.
use sentinel_osint.Common.{
  ◌≤◌, List, [], ◌∷◌, map, length, length-take, All, take, ◌≡◌, refl, arith, ap,
}
use sentinel_osint.Common.Text.{Text}
use sentinel_osint.Sanitize.Laws.{IsSafe, sanitize_single_line-IsSafe}
use sentinel_osint.Indicator.Defs.{Crates}
use sentinel_osint.Indicator.Policy.{Indicator}
use sentinel_osint.Evidence.Observations.{SourceId, Timestamp}
use sentinel_osint.Investigation.{
  SourceOutcome, succeeded, partial, unavailable, budget_exhausted, unsupported, failed, timed_out,
  new_status, bounded, sanitized, max_outcome_errors,
}

-- A text that may be shown on a terminal: bounded, and without control or bidirectional characters.
abbrev pub Showable : Text → Type 0
Showable text = All IsSafe text × (length text ≤ 300)

abbrev pub OutcomeShowable : SourceOutcome → Type 0
OutcomeShowable (unavailable reason) = Showable reason
OutcomeShowable (failed error) = Showable error
OutcomeShowable (partial observations errors) = All Showable errors × (length errors ≤ 20)
OutcomeShowable _ = Unit

bounded-Showable : (text : Text) → Showable (bounded text)
bounded-Showable text = sanitize_single_line-IsSafe text 300

map-bounded : (texts : List Text) → All Showable (map bounded texts)
map-bounded [] = tt
map-bounded (t ∷ ts) = (bounded-Showable t, map-bounded ts)

length-map : (f : Text → Text) (texts : List Text) → length (map f texts) ≡ length texts
length-map f [] = refl
length-map f (t ∷ ts) = ap Prim.Native.Nat.suc (length-map f ts)

sanitized-Showable : (o : SourceOutcome) → OutcomeShowable (sanitized o)
sanitized-Showable (unavailable reason) = bounded-Showable reason
sanitized-Showable (failed error) = bounded-Showable error
sanitized-Showable (partial n errors) = (
  map-bounded (take max_outcome_errors errors),
  omega (
    arith,
    length-map bounded (take max_outcome_errors errors),
    length-take {0} max_outcome_errors errors,
  ),
)
sanitized-Showable (succeeded n) = tt
sanitized-Showable (budget_exhausted n) = tt
sanitized-Showable unsupported = tt
sanitized-Showable (timed_out l) = tt

-- Whatever texts and clock readings a source ends with, the status that is recorded has only
-- texts that may be shown, at most 20 of them, and does not end before it starts; the start, the
-- source and the indicator are those given.
pub new_status_lem :
    (lib : Crates) (source : SourceId) (indicator : Indicator lib) (outcome : SourceOutcome)
    (started_at finished_at : Timestamp)
    → let status = new_status lib source indicator outcome started_at finished_at in
      OutcomeShowable status.outcome
      × (status.started_at ≤ status.finished_at)
      × (finished_at ≤ status.finished_at)
      × (status.started_at ≡ started_at)
      × (status.source ≡ source)
      × (status.indicator ≡ indicator)
new_status_lem lib source indicator outcome started_at finished_at =
    (sanitized-Showable outcome, omega arith, omega arith, refl, refl, refl)
