-- ===== src/Correlation/Report/Sound.antt =====
-- What every correlation and every finding of a report stands on.
use sentinel_osint.Common.{
  true, none, List, [], ◌∷◌, ◌++◌, map, list_beq, nat_eq, Result, ok, err, ◌≡◌, refl, sym, ap, ◌∙◌,
  All, All-append,
}
use sentinel_osint.Common.Text.{Text, is_some}
use sentinel_osint.Common.Sorting.{sort}
use sentinel_osint.Common.Sorting.Laws.{All-sort, All-dedup}
use sentinel_osint.Indicator.Defs.{Crates}
use sentinel_osint.Evidence.Findings.{Finding}
use sentinel_osint.Evidence.Relationships.Laws.{All-push_new}
use sentinel_osint.Evidence.Observations.{ObservationId, Observation}
use sentinel_osint.Investigation.{Investigation, find_observation, find_unknown, add_finding}
use sentinel_osint.Correlation.{
  Outside, CorrelationKind, CorrelationError, Draft, Correlation, finding,
}
use sentinel_osint.Correlation.Index.{EvidenceIndex, new}
use sentinel_osint.Correlation.Index.Laws.{observation-new}
use sentinel_osint.Correlation.Build.{build}
use sentinel_osint.Correlation.Build.Laws.{IsCorrelation, build-IsCorrelation, Observes}
use sentinel_osint.Correlation.Report.{Emit, new_emit, keep, push, push_all, correlation_le, report}

module _ (lib : Crates) (outside : Outside lib) (index : EvidenceIndex lib) where
  -- A correlation that some draft leads to.
  abbrev pub Backed : Correlation lib → Type 0
  Backed c = (d : Draft lib) × IsCorrelation lib outside index d c

  push-Backed :
      (kind : CorrelationKind) (d : Draft lib) (e : Emit lib outside)
      → All Backed e.built
      → All Backed (push lib outside index kind d e).built
  unfolding push
  push-Backed kind d e h = kept (build lib outside d kind index) refl
    where
      kept :
          (r : Result CorrelationError (Correlation lib))
          → build lib outside d kind index ≡ r
          → All Backed (keep lib outside r e).built
      kept (ok c) b =
          All-append Backed e.built (c ∷ []) h
            ((d, build-IsCorrelation lib outside index d kind c b), tt)
      kept (err why) b = h

  push_all-Backed :
      (drafts : List (CorrelationKind × Draft lib)) (e : Emit lib outside)
      → All Backed e.built
      → All Backed (push_all lib outside index drafts e).built
  unfolding push_all
  push_all-Backed [] e h = h
  push_all-Backed ((kind, d) ∷ more) e h =
      push_all-Backed more (push lib outside index kind d e) (push-Backed kind d e h)

  pub report-Backed :
      (drafts : List (CorrelationKind × Draft lib)) (e : Emit lib outside) (limitations : List Text)
      → All Backed e.built
      → All Backed
          (report lib outside index (push_all lib outside index drafts e) limitations).correlations
  unfolding report
  report-Backed drafts e limitations h =
      let built = (push_all lib outside index drafts e).built in
      All-dedup Backed (λ a b. list_beq a.id.bytes b.id.bytes)
        (sort (correlation_le lib outside) built)
        (All-sort Backed (correlation_le lib outside) built (push_all-Backed drafts e h))

module _ (lib : Crates) (outside : Outside lib) (v : Investigation lib) where
  abbrev Present : ObservationId → Type 0
  Present id = is_some (find_observation lib v.observations id) ≡ true

  observes-Present :
      (ids : List ObservationId) (os : List (Observation lib))
      → Observes lib (new lib outside v) ids os
      → All Present ids
  observes-Present [] os h = tt
  observes-Present (id ∷ ids) [] h = absurd h
  observes-Present (id ∷ ids) (o ∷ os) (e, h) =
      (ap is_some (sym ((observation-new lib outside v).0 id) ∙ e), observes-Present ids os h)

  find_unknown-none :
      (ids : List ObservationId) → All Present ids → find_unknown lib v.observations ids ≡ none
  find_unknown-none [] h = refl
  find_unknown-none (id ∷ ids) (p, h) = rw p (find_unknown-none ids h)

  abbrev Accepted : Finding → Type 0
  Accepted f = add_finding lib v f ≡ ok (record v { findings = v.findings ++ f ∷ [] })

  add_finding-known : (f : Finding) → All Present f.evidence → Accepted f
  unfolding add_finding
  add_finding-known f h = rw (find_unknown-none f.evidence h) refl

  finding-Accepted :
      (c : Correlation lib) → Backed lib outside (new lib outside v) c → Accepted (finding lib c)
  unfolding finding
  finding-Accepted c (d, b) = add_finding-known (finding lib c) (
      All-push_new Present [] c.evidence tt (observes-Present c.evidence b.observations b.observed))

  findings-Accepted :
      (cs : List (Correlation lib))
      → All (Backed lib outside (new lib outside v)) cs
      → All Accepted (map (finding lib) cs)
  findings-Accepted [] h = tt
  findings-Accepted (c ∷ cs) (b, h) = (finding-Accepted c b, findings-Accepted cs h)

  -- Whatever drafts the rules push, the investigation that was indexed accepts every finding of the
  -- report: `add_finding` appends it.
  pub report-add_finding :
      (drafts : List (CorrelationKind × Draft lib)) (limitations : List Text)
      → All
          (λ f. add_finding lib v f ≡ ok (record v { findings = v.findings ++ f ∷ [] }))
          (report lib outside
            (new lib outside v)
            (push_all lib outside (new lib outside v) drafts (new_emit lib outside))
            limitations).findings
  unfolding report
  report-add_finding drafts limitations =
      let index = new lib outside v in
      findings-Accepted
        (report lib outside index (push_all lib outside index drafts (new_emit lib outside))
          limitations).correlations
        (report-Backed lib outside index drafts (new_emit lib outside) limitations tt)
