-- ===== src/Analysis/Dmarc/Findings.antt =====
-- crates/collectors/src/analysis/dmarc.rs: the findings of the DMARC query.
use sentinel_osint.Common.{
  ℕ, Option, none, some, List, [], ◌∷◌, ◌++◌, map, ltb, if◌then◌else◌, length,
}
use sentinel_osint.Common.Text.{Text, codes}
use sentinel_osint.Common.Text.Splitting.{join}
use sentinel_osint.Common.Text.Numbers.{decimal}
use sentinel_osint.Evidence.Observations.{ObservationId}
use sentinel_osint.Evidence.Findings.{Severity, Finding}
use sentinel_osint.Evidence.Dns.{is_dmarc_record}
use sentinel_osint.Analysis.{QueryResult, failed, evidence_of, records_of, finding, list, accepted}
use sentinel_osint.Analysis.Dmarc.{
  Policy, no_action, quarantine, reject, policy_str, Alignment, strict, DmarcRecord, parse,
}

abbrev pub policy_code : Policy → Text
policy_code no_action = codes "dns.dmarc.policy_none"
policy_code quarantine = codes "dns.dmarc.policy_quarantine"
policy_code reject = codes "dns.dmarc.policy_reject"

abbrev pub policy_detail : Policy → Text
policy_detail no_action =
    codes
      "Receivers are asked to take no action on messages that fail DMARC; the policy is used for monitoring and reporting."
policy_detail quarantine =
    codes
      "Receivers are asked to treat messages that fail DMARC as suspicious (e.g. deliver to spam)."
policy_detail reject = codes "Receivers are asked to reject messages that fail DMARC."

abbrev pub subdomain_code : Policy → Text
subdomain_code no_action = codes "dns.dmarc.subdomain_policy_none"
subdomain_code quarantine = codes "dns.dmarc.subdomain_policy_quarantine"
subdomain_code reject = codes "dns.dmarc.subdomain_policy_reject"

-- The parts of `analyze_record` and `reporting_findings`, one for each finding.
module _ (id : ObservationId) where
  unfoldable pub issue_findings : List Text → List Finding
  unfolding finding
  issue_findings [] = []
  issue_findings (first ∷ more) =
      finding (codes "dns.dmarc.malformed") Severity.low (codes "DMARC record is malformed")
        (codes "Problems: " ++ join (codes "; ") (first ∷ more) ++ codes ".") (id ∷ [])
      ∷ []

  unfoldable pub policy_findings : Option Policy → List Finding
  unfolding finding
  policy_findings none = []
  policy_findings (some policy) =
      finding (policy_code policy) Severity.info (codes "DMARC policy: " ++ policy_str policy)
        (policy_detail policy) (id ∷ [])
      ∷ []

  unfoldable pub subdomain_findings : Option Policy → List Finding
  unfolding finding
  subdomain_findings none = []
  subdomain_findings (some policy) =
      finding (subdomain_code policy) Severity.info
        (codes "DMARC subdomain policy: " ++ policy_str policy)
        (codes "Subdomains without their own DMARC record use sp="
          ++ policy_str policy
          ++ codes ".")
        (id ∷ [])
      ∷ []

  unfoldable pub pct_findings : Option ℕ → List Finding
  unfolding finding
  pct_findings none = []
  pct_findings (some pct) =
      if ltb pct 100
      then finding (codes "dns.dmarc.pct_partial") Severity.info
          (codes "DMARC policy applies to a subset of messages")
          (codes "pct="
            ++ decimal pct
            ++ codes ": the policy is applied to "
            ++ decimal pct
            ++ codes "% of failing messages.")
          (id ∷ [])
        ∷ []
      else []

  unfoldable pub rua_findings : List Text → List Finding
  unfolding finding list
  rua_findings [] =
      finding (codes "dns.dmarc.no_aggregate_reporting") Severity.info
        (codes "No DMARC aggregate reporting")
        (codes "The record has no rua tag, so no aggregate reports are requested.") (id ∷ [])
      ∷ []
  rua_findings (u ∷ us) =
      finding (codes "dns.dmarc.aggregate_reporting") Severity.info
        (codes "DMARC aggregate reports requested") (codes "rua: " ++ list (u ∷ us)) (id ∷ [])
      ∷ []

  unfoldable pub ruf_findings : List Text → List Finding
  unfolding finding list
  ruf_findings [] = []
  ruf_findings (u ∷ us) =
      finding (codes "dns.dmarc.failure_reporting") Severity.info
        (codes "DMARC failure reports requested") (codes "ruf: " ++ list (u ∷ us)) (id ∷ [])
      ∷ []

  abbrev pub when_strict : Text → Option Alignment → List Text
  when_strict name (some strict) = name ∷ []
  when_strict name _ = []

  abbrev pub strict_names : Option Alignment → Option Alignment → List Text
  strict_names adkim aspf =
      when_strict (codes "DKIM (adkim=s)") adkim ++ when_strict (codes "SPF (aspf=s)") aspf

  unfoldable pub strict_findings : List Text → List Finding
  unfolding finding
  strict_findings [] = []
  strict_findings (name ∷ more) =
      finding (codes "dns.dmarc.strict_alignment") Severity.info
        (codes "DMARC strict identifier alignment")
        (codes "Strict alignment is required for: " ++ join (codes ", ") (name ∷ more) ++ codes ".")
        (id ∷ [])
      ∷ []

  -- `reporting_findings`.
  unfoldable pub reporting_findings : DmarcRecord → List Finding
  unfolding rua_findings ruf_findings strict_findings
  reporting_findings r =
      rua_findings r.rua ++ ruf_findings r.ruf ++ strict_findings (strict_names r.adkim r.aspf)

  unfoldable pub findings_of : DmarcRecord → List Finding
  unfolding issue_findings policy_findings subdomain_findings pct_findings reporting_findings
  findings_of r =
      issue_findings r.issues
      ++ policy_findings r.policy
      ++ subdomain_findings r.subdomain_policy
      ++ pct_findings r.pct
      ++ reporting_findings r

  -- `analyze_record`.
  unfoldable pub analyze_record : Text → List Finding
  unfolding parse findings_of
  analyze_record text = findings_of (parse text)

-- The cases on how many DMARC records there are.
unfoldable pub by_count : Text → List ObservationId → List (ObservationId × Text) → List Finding
unfolding finding analyze_record
by_count domain queried [] =
    finding (codes "dns.dmarc.missing") Severity.low (codes "No DMARC record")
      (codes "No TXT record starting with v=DMARC1 was found at _dmarc."
        ++ domain
        ++ codes
            ". For subdomains, receivers fall back to the organizational domain's DMARC record, which was not checked.")
      queried
    ∷ []
by_count domain queried ((id, text) ∷ []) = analyze_record id text
by_count domain queried (first ∷ second ∷ more) =
    finding (codes "dns.dmarc.multiple_records") Severity.medium (codes "Multiple DMARC records")
      (decimal (length (first ∷ second ∷ more))
        ++ codes " DMARC records were found at _dmarc."
        ++ domain
        ++ codes ". RFC 7489 §6.6.3: with more than one record, DMARC processing is not applied.")
      (map (λ r. r.0) (first ∷ second ∷ more))
    ∷ []

-- `dmarc::analyze`.
unfoldable pub analyze : Text → QueryResult → List Finding
unfolding is_dmarc_record by_count
analyze domain failed = []
analyze domain result =
    by_count domain (evidence_of result) (accepted is_dmarc_record (records_of result))
