-- ===== src/Correlation/Report.antt =====
-- crates/correlation/src/rules/mod.rs: `Emit`; crates/correlation/src/lib.rs: what `correlate` makes of
-- the drafts that the rules emit.
pub mod Sound
use sentinel_osint.Common.{
  ℕ, ◌+◌, Bool, true, false, ◌&&◌, ◌||◌, List, [], ◌∷◌, ◌++◌, map, ltb, ◌==◌, if◌then◌else◌,
  is_empty, length, list_beq, nat_eq, Result, ok, err,
}
use sentinel_osint.Common.Text.{Text, codes}
use sentinel_osint.Common.Text.Numbers.{decimal}
use sentinel_osint.Common.Sorting.{sort, dedup}
use sentinel_osint.Indicator.Defs.{Crates}
use sentinel_osint.Evidence.Entities.{Entity, entity_beq}
use sentinel_osint.Evidence.Findings.{Finding}
use sentinel_osint.Correlation.{
  Outside, CorrelationKind, domain_ip_infrastructure, domain_certificate, ct_dns_names,
  multiple_sources, source_disagreement, shared_infrastructure, CorrelationError, Draft,
  Correlation, finding,
}
use sentinel_osint.Correlation.Index.{EvidenceIndex, text_le}
use sentinel_osint.Correlation.Build.{build}

-- The order of the variants.
abbrev pub kind_rank : CorrelationKind → ℕ
kind_rank domain_ip_infrastructure = 0
kind_rank domain_certificate = 1
kind_rank ct_dns_names = 2
kind_rank multiple_sources = 3
kind_rank source_disagreement = 4
kind_rank shared_infrastructure = 5

module _ (lib : Crates) (outside : Outside lib) where
  pub record Emit : Type 0 where
    pub built : List (Correlation lib)
    pub rejected : List CorrelationError

  abbrev pub new_emit : Emit
  new_emit = record { built = []; rejected = [] }

  abbrev pub keep : Result CorrelationError (Correlation lib) → Emit → Emit
  keep (ok c) e = record e { built = e.built ++ c ∷ [] }
  keep (err why) e = record e { rejected = e.rejected ++ why ∷ [] }

  -- `Emit::push`.
  unfoldable pub push : EvidenceIndex lib → CorrelationKind → Draft lib → Emit → Emit
  unfolding build
  push index kind draft e = keep (build lib outside draft kind index) e

  -- The calls of `push` that the rules make, in their order.
  abbrev pub push_all : EvidenceIndex lib → List (CorrelationKind × Draft lib) → Emit → Emit
  unfolding push
  push_all index [] e = e
  push_all index ((kind, draft) ∷ more) e = push_all index more (push index kind draft e)

  -- `Ord` of slices of entities.
  abbrev pub subjects_le : List (Entity lib) → List (Entity lib) → Bool
  subjects_le [] ys = true
  subjects_le (x ∷ xs) [] = false
  subjects_le (x ∷ xs) (y ∷ ys) =
      let rest = subjects_le xs ys in if entity_beq lib x y then rest else outside.entity_le x y

  abbrev pub same_subjects : List (Entity lib) → List (Entity lib) → Bool
  same_subjects [] [] = true
  same_subjects (x ∷ xs) (y ∷ ys) = entity_beq lib x y && same_subjects xs ys
  same_subjects _ _ = false

  -- `(kind, subjects, id)`.
  abbrev pub correlation_le : Correlation lib → Correlation lib → Bool
  correlation_le a b =
      if kind_rank a.kind == kind_rank b.kind
      then if same_subjects a.subjects b.subjects
        then text_le a.id.bytes b.id.bytes
        else subjects_le a.subjects b.subjects
      else ltb (kind_rank a.kind) (kind_rank b.kind)

  abbrev pub reused_note : ℕ → List Text
  reused_note n =
      if ltb 0 n
      then (decimal n ++ codes " observation(s) reused an ID already present and were ignored.")
        ∷ []
      else []

  abbrev pub rejected_note : List CorrelationError → List Text
  rejected_note [] = []
  rejected_note (why ∷ more) =
      (decimal (length (why ∷ more))
        ++ codes
            " candidate correlation(s) were rejected because their evidence was missing or unknown.")
      ∷ []

  pub record CorrelationReport : Type 0 where
    pub correlations : List (Correlation lib)
    pub findings : List Finding
    pub limitations : List Text

  unfoldable pub ordered : List (Correlation lib) → List (Correlation lib)
  unfolding sort dedup
  ordered built = dedup (λ a b. list_beq a.id.bytes b.id.bytes) (sort correlation_le built)

  -- `correlate` after the rules ran, with the limitations that they return.
  unfoldable pub report : EvidenceIndex lib → Emit → List Text → CorrelationReport
  unfolding ordered finding
  report index e limitations = record {
    correlations = ordered e.built;
    findings = map (finding lib) (ordered e.built);
    limitations = limitations ++ reused_note index.duplicate_ids ++ rejected_note e.rejected;
  }
