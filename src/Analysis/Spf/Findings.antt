-- ===== src/Analysis/Spf/Findings.antt =====
-- crates/collectors/src/analysis/spf.rs: the findings of the TXT query.
use sentinel_osint.Common.{
  ℕ, Bool, true, false, not, ◌||◌, Option, none, some, List, [], ◌∷◌, ◌++◌, map, ltb, if◌then◌else◌,
  length, is_empty,
}
use sentinel_osint.Common.Text.{Text, codes}
use sentinel_osint.Common.Text.Numbers.{decimal}
use sentinel_osint.Evidence.Observations.{ObservationId}
use sentinel_osint.Evidence.Findings.{Severity, Finding}
use sentinel_osint.Evidence.Dns.{is_spf_record}
use sentinel_osint.Analysis.{
  QueryResult, failed, evidence_of, records_of, finding, quote, list, accepted,
}
use sentinel_osint.Analysis.Spf.{
  Qualifier, pass, fail, soft_fail, neutral, max_dns_lookups, SpfSummary, parse,
}

abbrev pub lookup_detail : ℕ → Text
lookup_detail lookup_terms =
    codes "The record itself contains "
    ++ decimal lookup_terms
    ++ codes " DNS-querying terms; RFC 7208 §4.6.4 allows at most "
    ++ decimal max_dns_lookups
    ++ codes " per evaluation, so receivers return a permanent error."

unfoldable pub invalid_detail : List Text → Text
unfolding list
invalid_detail invalid_terms =
    decimal (length invalid_terms)
    ++ codes " term(s) are not valid SPF: "
    ++ list invalid_terms
    ++ codes ". Receivers return a permanent error for syntax errors."

abbrev pub cut_note : Bool → Text
cut_note truncated =
    if truncated then codes " The record had too many terms to analyze completely." else []

-- The parts of `analyze_record`, one for each finding.
module _ (id : ObservationId) where
  unfoldable pub redirect_finding : Text → Option Text → Finding
  unfolding finding quote
  redirect_finding domain (some target) =
      finding (codes "dns.spf.redirect") Severity.info (codes "SPF policy delegated with redirect=")
        (codes "The SPF policy of "
          ++ domain
          ++ codes " is taken from "
          ++ quote target
          ++ codes ".")
        (id ∷ [])
  redirect_finding domain none =
      finding (codes "dns.spf.no_all") Severity.low (codes "SPF record has no all mechanism")
        (codes
          "Without all or redirect=, hosts not listed in the record get the default neutral result (RFC 7208 §4.7).")
        (id ∷ [])

  unfoldable pub policy_finding : Text → Option Qualifier → Option Text → Finding
  unfolding finding redirect_finding
  policy_finding domain (some fail) redirect =
      finding (codes "dns.spf.hardfail") Severity.info (codes "SPF policy: -all (fail)")
        (codes "Mail from hosts not listed in the SPF record fails SPF.") (id ∷ [])
  policy_finding domain (some soft_fail) redirect =
      finding (codes "dns.spf.softfail") Severity.info (codes "SPF policy: ~all (softfail)")
        (codes
          "Mail from hosts not listed in the SPF record soft-fails SPF: it is typically accepted but marked.")
        (id ∷ [])
  policy_finding domain (some neutral) redirect =
      finding (codes "dns.spf.neutral_all") Severity.low (codes "SPF policy: ?all (neutral)")
        (codes "The record makes no assertion about hosts not listed in it.") (id ∷ [])
  policy_finding domain (some pass) redirect =
      finding (codes "dns.spf.permissive_all") Severity.medium (codes "SPF policy: +all (pass)")
        (codes "The record authorizes every host on the internet to send mail for this domain.")
        (id ∷ [])
  policy_finding domain none redirect = redirect_finding domain redirect

  unfoldable pub include_findings : List Text → List Finding
  unfolding finding list
  include_findings [] = []
  include_findings (target ∷ more) =
      finding (codes "dns.spf.includes") Severity.info
        (codes "SPF includes other domains' policies")
        (decimal (length (target ∷ more))
          ++ codes " include mechanism(s): "
          ++ list (target ∷ more)
          ++ codes ". Included policies were not resolved.")
        (id ∷ [])
      ∷ []

  unfoldable pub lookup_findings : ℕ → List Finding
  unfolding finding
  lookup_findings lookup_terms =
      if ltb max_dns_lookups lookup_terms
      then finding (codes "dns.spf.too_many_lookups") Severity.medium
          (codes "SPF record exceeds the DNS lookup limit") (lookup_detail lookup_terms) (id ∷ [])
        ∷ []
      else []

  unfoldable pub ptr_findings : Bool → List Finding
  unfolding finding
  ptr_findings false = []
  ptr_findings true =
      finding (codes "dns.spf.ptr_mechanism") Severity.low
        (codes "SPF record uses the ptr mechanism")
        (codes
          "RFC 7208 §5.5 says ptr SHOULD NOT be used: it is slow, unreliable and places load on DNS.")
        (id ∷ [])
      ∷ []

  unfoldable pub invalid_findings : List Text → Bool → List Finding
  unfolding finding invalid_detail
  invalid_findings invalid_terms truncated =
      if not (is_empty invalid_terms) || truncated
      then finding (codes "dns.spf.malformed") Severity.low (codes "SPF record is malformed")
          (invalid_detail invalid_terms ++ cut_note truncated) (id ∷ [])
        ∷ []
      else []

  unfoldable pub other_findings : SpfSummary → List Finding
  unfolding include_findings lookup_findings ptr_findings invalid_findings
  other_findings s =
      include_findings s.includes
      ++ lookup_findings s.lookup_terms
      ++ ptr_findings s.has_ptr
      ++ invalid_findings s.invalid_terms s.truncated

  -- `analyze_record`.
  unfoldable pub analyze_record : Text → Text → List Finding
  unfolding parse policy_finding other_findings
  analyze_record domain text =
      let s = parse text in policy_finding domain s.all_qualifier s.redirect ∷ other_findings s

-- The cases on how many SPF records there are.
unfoldable pub by_count : Text → List ObservationId → List (ObservationId × Text) → List Finding
unfolding finding analyze_record
by_count domain queried [] =
    finding (codes "dns.spf.missing") Severity.low (codes "No SPF record")
      (codes "No TXT record starting with v=spf1 was found at "
        ++ domain
        ++ codes ". Receivers cannot verify which hosts may send mail for this domain.")
      queried
    ∷ []
by_count domain queried ((id, text) ∷ []) = analyze_record id domain text
by_count domain queried (first ∷ second ∷ more) =
    finding (codes "dns.spf.multiple_records") Severity.medium (codes "Multiple SPF records")
      (decimal (length (first ∷ second ∷ more))
        ++ codes " SPF records were found at "
        ++ domain
        ++ codes
            ". RFC 7208 §4.5 requires exactly one; receivers return a permanent error and SPF is not evaluated.")
      (map (λ r. r.0) (first ∷ second ∷ more))
    ∷ []

-- `spf::analyze`.
unfoldable pub analyze : Text → QueryResult → List Finding
unfolding is_spf_record by_count
analyze domain failed = []
analyze domain result =
    by_count domain (evidence_of result) (accepted is_spf_record (records_of result))
