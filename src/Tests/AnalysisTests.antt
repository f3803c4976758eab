-- ===== src/Tests/AnalysisTests.antt =====
-- The analyzers run on the records that the unit tests of crates/collectors/src/analysis/ use.
use sentinel_osint.Common.{◌+◌, true, some, List, [], ◌∷◌, map, ◌≡◌, refl}
use sentinel_osint.Common.Text.{Text, codes}
use sentinel_osint.Evidence.Findings.{Finding}
use sentinel_osint.Evidence.Observations.{ObservationId}
use sentinel_osint.Evidence.Dns.{DnsRecord, DnsRecordData, txt_data, caa_data, new_record}
use sentinel_osint.Analysis.{QueryResult, records}
use sentinel_osint.Analysis.Spf
use sentinel_osint.Analysis.Spf.{SpfSummary}
use sentinel_osint.Analysis.Spf.Findings as SpfFindings
use sentinel_osint.Analysis.Dmarc
use sentinel_osint.Analysis.Dmarc.{DmarcRecord, reject, quarantine, strict, relaxed}
use sentinel_osint.Analysis.Dmarc.Findings as DmarcFindings
use sentinel_osint.Analysis.Caa.Findings as CaaFindings
use sentinel_osint.Analysis.Caa.{is_name}
use sentinel_osint.Net.Parser.{parse_ip_addr}
use sentinel_osint.Indicator.Domain.{validate_ascii}
use sentinel_osint.Tests.Samples.{sample_crates}

abbrev pub codes_of : List Finding → List Text
codes_of findings = map (λ f. f.code) findings

abbrev pub numbered : ObservationId → List DnsRecordData → List (ObservationId × DnsRecord)
numbered id [] = []
numbered id (d ∷ ds) = (id, new_record (codes "Example.com.") 300 d) ∷ numbered (id + 1) ds

abbrev pub texts : List Text → QueryResult
texts ts = records (numbered 1 (map txt_data ts))

abbrev example : Text
example = codes "example.com"

spf_common_test :
    codes_of (
      SpfFindings.analyze example (
        texts (
          codes "v=spf1 ip4:192.0.2.0/24 ip6:2001:db8::/32 a mx include:_spf.example.net ~all"
          ∷ [])))
    ≡ codes "dns.spf.softfail" ∷ codes "dns.spf.includes" ∷ []
unfolding SpfFindings.analyze new_record Spf.parse_terms Spf.term_of
spf_common_test = refl

spf_malformed_test :
    codes_of (
      SpfFindings.analyze example (
        texts (
          codes
            "v=spf1 ip4:999.1.1.1 ip6:zz include: -redirect=x.example bogus:thing ip4:10.0.0.0/33 ~all"
          ∷ [])))
    ≡ codes "dns.spf.softfail" ∷ codes "dns.spf.malformed" ∷ []
unfolding SpfFindings.analyze new_record Spf.parse_terms Spf.term_of
spf_malformed_test = refl

dmarc_complete_test :
    let r = Dmarc.parse (
      codes
        "v=DMARC1; p=reject; sp=quarantine; pct=50; rua=mailto:a@example.com, mailto:b@example.net; ruf=mailto:f@example.com; adkim=s; aspf=r; fo=1") in
    (r.policy ≡ some reject)
    × (r.subdomain_policy ≡ some quarantine)
    × (r.pct ≡ some 50)
    × (r.rua ≡ codes "mailto:a@example.com" ∷ codes "mailto:b@example.net" ∷ [])
    × (r.adkim ≡ some strict)
    × (r.aspf ≡ some relaxed)
    × (r.issues ≡ [])
unfolding Dmarc.parse
dmarc_complete_test = (refl, refl, refl, refl, refl, refl, refl)

dmarc_reporting_test :
    codes_of (DmarcFindings.analyze example (texts (codes "v=DMARC1; p=none" ∷ [])))
    ≡ codes "dns.dmarc.policy_none" ∷ codes "dns.dmarc.no_aggregate_reporting" ∷ []
unfolding DmarcFindings.analyze new_record
dmarc_reporting_test = refl

caa_test :
    codes_of (
      CaaFindings.analyze sample_crates example (
        records (
          numbered 1 (
            caa_data true (codes "ISSUE") (codes "example.org; policy=ev")
            ∷ caa_data true (codes "tbs") (codes "x")
            ∷ caa_data true (codes "issue") (codes "example.org; policy=ev")
            ∷ []))))
    ≡ codes "dns.caa.issue"
      ∷ codes "dns.caa.unknown_critical_tag"
      ∷ codes "dns.caa.duplicate_records"
      ∷ []
unfolding CaaFindings.analyze new_record is_name parse_ip_addr validate_ascii
caa_test = refl
