-- ===== src/Analysis/Dmarc/Cites.antt =====
-- What the findings of the DMARC query cite and show.
use sentinel_osint.Common.{
  ℕ, true, false, Option, none, some, List, [], ◌∷◌, ◌++◌, ltb, is_empty, contains, nat_eq, ◌≡◌,
  refl, All, All-append, All-map, length, Bool-cases, inl, inr,
}
use sentinel_osint.Common.Text.{Text, codes}
use sentinel_osint.Common.Text.Splitting.{join}
use sentinel_osint.Common.Text.Numbers.{decimal}
use sentinel_osint.Evidence.Observations.{ObservationId}
use sentinel_osint.Analysis.{QueryResult, failed, empty, records, evidence_of, accepted}
use sentinel_osint.Analysis.Dmarc.{
  Policy, no_action, quarantine, reject, policy_str, Alignment, relaxed, strict, DmarcRecord, parse,
  Issue, no_value, repeated, bad_policy, bad_subdomain_policy, bad_pct, bad_adkim, bad_aspf,
  too_many_tags, missing_policy, issue_text,
}
use sentinel_osint.Analysis.Dmarc.Findings.{
  policy_detail, when_strict, issue_findings, policy_findings, subdomain_findings, pct_findings,
  rua_findings, ruf_findings, strict_findings, strict_names, findings_of, analyze_record, by_count,
  analyze,
}
use sentinel_osint.Analysis.Dmarc.Laws.{IsFixed, parse-IsBounded}
use sentinel_osint.Evidence.Dns.{is_dmarc_record}
use sentinel_osint.Analysis.Grounded.{
  safe_text, safe_text-append, decimal_safe, join_safe, list_safe, AllGrounded, AllGrounded-append,
  one-IsGrounded, finding-IsGrounded, AllGrounded-mono, cited_all, cited_sub, ids_of, accepted-sub,
  IsAnswer, counted_safe,
}

policy_str_safe : (p : Policy) → safe_text (policy_str p) ≡ true
policy_str_safe no_action = refl
policy_str_safe quarantine = refl
policy_str_safe reject = refl

policy_detail_safe : (p : Policy) → safe_text (policy_detail p) ≡ true
policy_detail_safe no_action = refl
policy_detail_safe quarantine = refl
policy_detail_safe reject = refl

pct_detail_safe :
    (pct : ℕ)
    → safe_text (
        codes "pct="
        ++ decimal pct
        ++ codes ": the policy is applied to "
        ++ decimal pct
        ++ codes "% of failing messages.")
      ≡ true
pct_detail_safe pct =
    let front =
      safe_text-append (decimal pct) (codes ": the policy is applied to ") (decimal_safe pct)
        refl in
    let both =
      safe_text-append (decimal pct ++ codes ": the policy is applied to ") (decimal pct) front
        (decimal_safe pct) in
    safe_text-append (decimal pct ++ codes ": the policy is applied to " ++ decimal pct)
      (codes "% of failing messages.") both refl

module _ (id : ObservationId) where
  issue_findings_grounded :
      (issues : List Text)
      → All (λ s. safe_text s ≡ true) issues
      → AllGrounded (id ∷ []) (issue_findings id issues)
  unfolding issue_findings
  issue_findings_grounded [] h = tt
  issue_findings_grounded (first ∷ more) h = (
    one-IsGrounded id _ _ _ _ refl (
        safe_text-append (join (codes "; ") (first ∷ more)) (codes ".")
          (join_safe (codes "; ") (first ∷ more) refl h) refl),
    tt,
  )

  policy_findings_grounded : (p : Option Policy) → AllGrounded (id ∷ []) (policy_findings id p)
  unfolding policy_findings
  policy_findings_grounded none = tt
  policy_findings_grounded (some p) =
      (one-IsGrounded id _ _ _ _ (policy_str_safe p) (policy_detail_safe p), tt)

  subdomain_findings_grounded :
      (p : Option Policy) → AllGrounded (id ∷ []) (subdomain_findings id p)
  unfolding subdomain_findings
  subdomain_findings_grounded none = tt
  subdomain_findings_grounded (some p) = (
    one-IsGrounded id _ _ _ _ (policy_str_safe p)
        (safe_text-append (policy_str p) (codes ".") (policy_str_safe p) refl),
    tt,
  )

  pct_findings_grounded : (pct : Option ℕ) → AllGrounded (id ∷ []) (pct_findings id pct)
  unfolding pct_findings
  pct_findings_grounded none = tt
  pct_findings_grounded (some pct) = elim (Bool-cases (ltb pct 100)) [
    | inl y ↦ rw y (one-IsGrounded id _ _ _ _ refl (pct_detail_safe pct), tt)
    | inr n ↦ rw n tt
  ]

  rua_findings_grounded : (us : List Text) → AllGrounded (id ∷ []) (rua_findings id us)
  unfolding rua_findings
  rua_findings_grounded [] = (one-IsGrounded id _ _ _ _ refl refl, tt)
  rua_findings_grounded (u ∷ us) = (one-IsGrounded id _ _ _ _ refl (list_safe (u ∷ us)), tt)

  ruf_findings_grounded : (us : List Text) → AllGrounded (id ∷ []) (ruf_findings id us)
  unfolding ruf_findings
  ruf_findings_grounded [] = tt
  ruf_findings_grounded (u ∷ us) = (one-IsGrounded id _ _ _ _ refl (list_safe (u ∷ us)), tt)

  strict_findings_grounded :
      (names : List Text)
      → All (λ s. safe_text s ≡ true) names
      → AllGrounded (id ∷ []) (strict_findings id names)
  unfolding strict_findings
  strict_findings_grounded [] h = tt
  strict_findings_grounded (name ∷ more) h = (
    one-IsGrounded id _ _ _ _ refl (
        safe_text-append (join (codes ", ") (name ∷ more)) (codes ".")
          (join_safe (codes ", ") (name ∷ more) refl h) refl),
    tt,
  )

  when_strict_safe :
      (name : Text) (mode : Option Alignment)
      → safe_text name ≡ true
      → All (λ s. safe_text s ≡ true) (when_strict id name mode)
  when_strict_safe name none h = tt
  when_strict_safe name (some relaxed) h = tt
  when_strict_safe name (some strict) h = (h, tt)

  strict_names_safe :
      (adkim aspf : Option Alignment) → All (λ s. safe_text s ≡ true) (strict_names id adkim aspf)
  strict_names_safe adkim aspf =
      All-append (λ s. safe_text s ≡ true) (when_strict id (codes "DKIM (adkim=s)") adkim)
        (when_strict id (codes "SPF (aspf=s)") aspf)
        (when_strict_safe (codes "DKIM (adkim=s)") adkim refl)
        (when_strict_safe (codes "SPF (aspf=s)") aspf refl)

  findings_of_grounded :
      (r : DmarcRecord)
      → All (λ s. safe_text s ≡ true) r.issues
      → AllGrounded (id ∷ []) (findings_of id r)
  unfolding findings_of
  findings_of_grounded r h =
      let reporting =
        AllGrounded-append (id ∷ []) _ _
          (AllGrounded-append (id ∷ []) _ _ (rua_findings_grounded r.rua)
            (ruf_findings_grounded r.ruf))
          (strict_findings_grounded (strict_names id r.adkim r.aspf)
            (strict_names_safe r.adkim r.aspf)) in
      let policies =
        AllGrounded-append (id ∷ []) _ _
          (AllGrounded-append (id ∷ []) _ _ (issue_findings_grounded r.issues h)
            (policy_findings_grounded r.policy))
          (subdomain_findings_grounded r.subdomain_policy) in
      AllGrounded-append (id ∷ []) _ _
        (AllGrounded-append (id ∷ []) _ _ policies (pct_findings_grounded r.pct)) reporting

issue_text_safe : (why : Issue) → safe_text (issue_text why) ≡ true
issue_text_safe no_value = refl
issue_text_safe repeated = refl
issue_text_safe bad_policy = refl
issue_text_safe bad_subdomain_policy = refl
issue_text_safe bad_pct = refl
issue_text_safe bad_adkim = refl
issue_text_safe bad_aspf = refl
issue_text_safe too_many_tags = refl
issue_text_safe missing_policy = refl

fixed_safe : (s : Text) → IsFixed s → safe_text s ≡ true
fixed_safe s (why, e) = rw e (issue_text_safe why)

analyze_record_grounded :
    (id : ObservationId) (text : Text) → AllGrounded (id ∷ []) (analyze_record id text)
unfolding analyze_record
analyze_record_grounded id text = findings_of_grounded id (parse text) (
    All-map IsFixed (λ s. safe_text s ≡ true) fixed_safe (parse text).issues
      (parse-IsBounded text).fixed)

-- The findings of a query whose records are those that were accepted.
module _ (domain : Text) (safe : safe_text domain ≡ true) (queried : List ObservationId) where
  by_count_grounded :
      (found : List (ObservationId × Text))
      → is_empty queried ≡ false
      → ((id : ObservationId) → contains (ids_of found) id ≡ true → contains queried id ≡ true)
      → AllGrounded queried (by_count domain queried found)
  unfolding by_count
  by_count_grounded [] h sub = (
    finding-IsGrounded queried queried _ _ _ _ (cited_all queried) h refl
        (safe_text-append domain _ safe refl),
    tt,
  )
  by_count_grounded ((id, text) ∷ []) h sub =
      AllGrounded-mono (id ∷ []) queried sub (analyze_record id text)
        (analyze_record_grounded id text)
  by_count_grounded (first ∷ second ∷ more) h sub = (
    finding-IsGrounded queried (ids_of (first ∷ second ∷ more)) _ _ _ _
        (cited_sub (ids_of (first ∷ second ∷ more)) queried sub) refl refl
        (counted_safe (length (first ∷ second ∷ more))
          (codes " DMARC records were found at _dmarc.") domain _ refl safe refl),
    tt,
  )

-- A query that gave records gave at least one.
pub analyze_grounded :
    (domain : Text) (result : QueryResult)
    → safe_text domain ≡ true
    → IsAnswer result
    → AllGrounded (evidence_of result) (analyze domain result)
unfolding analyze
analyze_grounded domain failed safe a = tt
analyze_grounded domain (empty id reason) safe a =
    by_count_grounded domain safe (id ∷ []) [] refl λ i e. cc
analyze_grounded domain (records (r ∷ rs)) safe a =
    by_count_grounded domain safe (ids_of (r ∷ rs)) (accepted is_dmarc_record (r ∷ rs)) refl
      (accepted-sub is_dmarc_record (r ∷ rs))
analyze_grounded domain (records []) safe a = absurd a
