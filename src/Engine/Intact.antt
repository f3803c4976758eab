-- ===== src/Engine/Intact.antt =====
-- What a run does to its investigation keeps the investigation intact.
use sentinel_osint.Common.{List, [], ◌∷◌, All}
use sentinel_osint.Indicator.Defs.{Crates}
use sentinel_osint.Evidence.Findings.{Finding}
use sentinel_osint.Evidence.Observations.{Observation}
use sentinel_osint.Evidence.Relationships.{Relationship}
use sentinel_osint.Evidence.Relationships.Laws.{IsRelationship}
use sentinel_osint.Investigation.{Investigation}
use sentinel_osint.Investigation.Integrity.{IsIntact}
use sentinel_osint.Investigation.Operations.{observe, relate, find, account, apply-IsIntact}
use sentinel_osint.Engine.Collectors.{Collection}
use sentinel_osint.Engine.State.{Engine, Run}
use sentinel_osint.Engine.Schedule.{report_unavailable, spawn, drop_pivot, visit}
use sentinel_osint.Engine.Execute.{
  add_observations, add_relationships, add_findings, merge, take_request, record_outcome,
}
use sentinel_osint.Engine.Keeps.{Keeps, consider_pivots-Keeps}
use sentinel_osint.Engine.Reachable.{Invariant}

module _ (lib : Crates) where
  add_observations-IsIntact :
      (os : List (Observation lib)) (v : Investigation lib)
      → IsIntact lib v
      → IsIntact lib (add_observations lib os v)
  add_observations-IsIntact [] v i = i
  add_observations-IsIntact (o ∷ os) v i =
      add_observations-IsIntact os _ (apply-IsIntact lib (observe o) v tt i)

  add_relationships-IsIntact :
      (rs : List (Relationship lib)) (v : Investigation lib)
      → All (IsRelationship lib) rs
      → IsIntact lib v
      → IsIntact lib (add_relationships lib rs v)
  add_relationships-IsIntact [] v h i = i
  add_relationships-IsIntact (r ∷ rs) v h i =
      add_relationships-IsIntact rs _ h.1 (apply-IsIntact lib (relate r) v h.0 i)

  add_findings-IsIntact :
      (fs : List Finding) (v : Investigation lib)
      → IsIntact lib v
      → IsIntact lib (add_findings lib fs v)
  add_findings-IsIntact [] v i = i
  add_findings-IsIntact (f ∷ fs) v i =
      add_findings-IsIntact fs _ (apply-IsIntact lib (find f) v tt i)

  abbrev pub IntactIn : Run lib → Type 0
  IntactIn run = IsIntact lib run.investigation

  merge-IntactIn :
      (c : Collection lib) (run : Run lib)
      → All (IsRelationship lib) c.relationships
      → IntactIn run
      → IntactIn (merge lib c run)
  unfolding merge
  merge-IntactIn c run v i = add_findings-IsIntact c.findings _ (
      add_relationships-IsIntact c.relationships _ v
        (add_observations-IsIntact c.observations run.investigation i))

  module _ (engine : Engine lib) where
    pub IntactIn-Keeps : Keeps lib engine IntactIn
    unfolding report_unavailable spawn drop_pivot visit
    IntactIn-Keeps = record {
      overflows = λ run n p. p;
      reports = λ run c i depth reason a f p. apply-IsIntact lib (account _) run.investigation tt p;
      spawns = λ run c i depth a r v d p. p;
      drops_pivot = λ run i v d p. p;
      visits_pivot = λ run i v d room public p. p;
    }

    pub IntactIn-Invariant : Invariant lib engine (λ n. IntactIn) (λ n task. IntactIn)
    unfolding take_request record_outcome
    IntactIn-Invariant = record {
      request = λ n run p. p;
      takes = λ n id task run e p. p;
      tracked = λ n id run m e p. p;
      merges = λ n task c run v p. merge-IntactIn c run v p;
      pivots = λ n task is depth run p.
          consider_pivots-Keeps lib engine IntactIn IntactIn-Keeps is depth run p;
      reads = λ n task run p. p;
      records =
          λ n task outcome from to run p. apply-IsIntact lib (account _) run.investigation tt p;
    }
