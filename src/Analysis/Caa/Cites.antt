-- ===== src/Analysis/Caa/Cites.antt =====
-- What the findings of the CAA query cite and show.
use sentinel_osint.Common.{
  true, false, ◌&&◌, List, [], ◌∷◌, ◌++◌, is_empty, length, contains, nat_eq, ◌≡◌, refl, ◌∙◌, All,
  Bool-cases, inl, inr,
}
use sentinel_osint.Common.Text.{Text, codes}
use sentinel_osint.Common.Text.Numbers.{decimal}
use sentinel_osint.Indicator.Defs.{Crates}
use sentinel_osint.Evidence.Observations.{ObservationId}
use sentinel_osint.Evidence.Findings.{Severity}
use sentinel_osint.Analysis.{QueryResult, failed, empty, records, evidence_of, list}
use sentinel_osint.Analysis.Caa.{Issuance, Values, Tally, tally}
use sentinel_osint.Analysis.Caa.Laws.{Balanced, IsSourced, tally-IsSourced}
use sentinel_osint.Analysis.Caa.Findings.{
  unique_from, issuance_findings, restriction_findings, listed_findings, duplicate_findings,
  issue_findings, issuewild_findings, iodef_findings, critical_findings, invalid_findings,
  findings_of, analyze,
}
use sentinel_osint.Analysis.Grounded.{
  safe_text, safe_text-append, decimal_safe, list_safe, AllGrounded, AllGrounded-append,
  finding-IsGrounded, cited_all, ids_of, IsAnswer,
}

module _ (lib : Crates) (queried : List ObservationId) where
  abbrev Cited : ObservationId → Type 0
  Cited id = contains queried id ≡ true

  issuance_grounded :
      (i : Issuance) (restricted forbidden what : Text)
      → All Cited i.evidence
      → safe_text what ≡ true
      → AllGrounded queried (issuance_findings i restricted forbidden what)
  unfolding issuance_findings
  issuance_grounded i restricted forbidden what h safe = elim (Bool-cases (is_empty i.evidence)) [
    | inl y ↦ rw y tt
    | inr n ↦ elim (Bool-cases (is_empty i.issuers && i.forbid)) [
      | inl f ↦
          rw (n, f)
            (
              finding-IsGrounded queried i.evidence _ _ _ _ h n safe
                  (safe_text-append what _ safe refl),
              tt,
            )
      | inr f ↦ elim (Bool-cases (is_empty i.issuers)) [
        | inl e ↦ rw (n, f, e) tt
        | inr e ↦
            rw (n, f, e)
              (
                finding-IsGrounded queried i.evidence _ _ _ _ h n safe
                    (list_safe (unique_from [] i.issuers)),
                tt,
              )
      ]
    ]
  ]

  restriction_grounded :
      (domain : Text) (t : Tally)
      → safe_text domain ≡ true
      → is_empty queried ≡ false
      → AllGrounded queried (restriction_findings domain queried t)
  unfolding restriction_findings
  restriction_grounded domain t safe h =
      elim (Bool-cases (is_empty t.issue.evidence && is_empty t.issuewild.evidence)) [
        | inl y ↦ rw y (
          finding-IsGrounded queried queried _ _ _ _ (cited_all queried) h refl
              (safe_text-append domain _ safe refl),
          tt,
        )
        | inr n ↦ rw n tt
      ]

  listed_grounded :
      (v : Values) (code : Text) (severity : Severity) (title before after : Text)
      → Balanced lib Cited v
      → safe_text title ≡ true
      → safe_text before ≡ true
      → safe_text after ≡ true
      → AllGrounded queried (listed_findings v code severity title before after)
  unfolding listed_findings
  listed_grounded v code severity title before after (h, e) t b a =
      elim (Bool-cases (is_empty v.items)) [
        | inl y ↦ rw y tt
        | inr n ↦ rw n (
          finding-IsGrounded queried v.evidence _ _ _ _ h (e ∙ n) t (
              safe_text-append (before ++ list v.items) after
                (safe_text-append before (list v.items) b (list_safe v.items)) a),
          tt,
        )
      ]

  duplicate_grounded :
      (ids : List ObservationId) → All Cited ids → AllGrounded queried (duplicate_findings ids)
  unfolding duplicate_findings
  duplicate_grounded [] h = tt
  duplicate_grounded (id ∷ ids) h = (
    finding-IsGrounded queried (id ∷ ids) _ _ _ _ h refl refl
        (safe_text-append (decimal (length (id ∷ ids))) _ (decimal_safe (length (id ∷ ids))) refl),
    tt,
  )

  issue_grounded : (i : Issuance) → All Cited i.evidence → AllGrounded queried (issue_findings i)
  unfolding issue_findings
  issue_grounded i h = issuance_grounded i _ _ (codes "certificates") h refl

  issuewild_grounded :
      (i : Issuance) → All Cited i.evidence → AllGrounded queried (issuewild_findings i)
  unfolding issuewild_findings
  issuewild_grounded i h = issuance_grounded i _ _ (codes "wildcard certificates") h refl

  iodef_grounded : (v : Values) → Balanced lib Cited v → AllGrounded queried (iodef_findings v)
  unfolding iodef_findings
  iodef_grounded v h =
      listed_grounded v _ _ (codes "CAA violation reporting (iodef)")
        (codes "CAs are asked to report policy violations to: ") [] h refl refl refl

  critical_grounded :
      (v : Values) → Balanced lib Cited v → AllGrounded queried (critical_findings v)
  unfolding critical_findings
  critical_grounded v h =
      listed_grounded v _ _ (codes "CAA record with unknown critical tag") (codes "Tag(s) ") _ h
        refl refl refl

  invalid_grounded : (v : Values) → Balanced lib Cited v → AllGrounded queried (invalid_findings v)
  unfolding invalid_findings
  invalid_grounded v h =
      listed_grounded v _ _ (codes "CAA issuer is not a valid domain name")
        (codes "Invalid issuer value(s): ") [] h refl refl refl

  findings_of_grounded :
      (domain : Text) (t : Tally)
      → safe_text domain ≡ true
      → is_empty queried ≡ false
      → IsSourced lib Cited t
      → AllGrounded queried (findings_of domain queried t)
  unfolding findings_of
  findings_of_grounded domain t safe h s =
      let issuance =
        AllGrounded-append queried _ _ (issue_grounded t.issue s.issue)
          (issuewild_grounded t.issuewild s.issuewild) in
      let restricted =
        AllGrounded-append queried _ _ issuance (restriction_grounded domain t safe h) in
      let iodef = AllGrounded-append queried _ _ restricted (iodef_grounded t.iodef s.iodef) in
      let critical =
        AllGrounded-append queried _ _ iodef
          (critical_grounded t.unknown_critical s.unknown_critical) in
      let invalid =
        AllGrounded-append queried _ _ critical
          (invalid_grounded t.invalid_issuers s.invalid_issuers) in
      AllGrounded-append queried _ _ invalid (duplicate_grounded t.duplicates s.duplicates)

pub analyze_grounded :
    (lib : Crates) (domain : Text) (result : QueryResult)
    → safe_text domain ≡ true
    → IsAnswer result
    → AllGrounded (evidence_of result) (analyze lib domain result)
unfolding analyze
analyze_grounded lib domain failed safe a = tt
analyze_grounded lib domain (empty id reason) safe a = (
  finding-IsGrounded (id ∷ []) (id ∷ []) _ _ _ _ (cited_all (id ∷ [])) refl refl
      (safe_text-append domain _ safe refl),
  tt,
)
analyze_grounded lib domain (records (r ∷ rs)) safe a =
    let queried = ids_of (r ∷ rs) in
    findings_of_grounded lib queried domain (tally lib (r ∷ rs)) safe refl
      (tally-IsSourced lib (λ id. contains queried id ≡ true) (r ∷ rs) (cited_all queried))
analyze_grounded lib domain (records []) safe a = absurd a
