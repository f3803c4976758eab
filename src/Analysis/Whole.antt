-- ===== src/Analysis/Whole.antt =====
-- crates/collectors/src/analysis/mod.rs: `analyze`, which runs every analyzer.
use sentinel_osint.Common.{Option, none, some, List, [], ◌∷◌, ◌++◌, if◌then◌else◌}
use sentinel_osint.Common.Text.{Text, codes}
use sentinel_osint.Net.{IpAddr}
use sentinel_osint.Indicator.Defs.{Crates}
use sentinel_osint.Evidence.Findings.{Severity, Finding}
use sentinel_osint.Evidence.Dns.{
  DnsRecordType, a_type, aaaa_type, mx_type, ns_type, txt_type, cname_type, soa_type, caa_type,
}
use sentinel_osint.Analysis.{QueryResult, DnsAnswers, apex_of, evidence_of, is_nxdomain, finding}
use sentinel_osint.Analysis.Records
use sentinel_osint.Analysis.Spf.Findings as Spf
use sentinel_osint.Analysis.Dmarc.Findings as Dmarc
use sentinel_osint.Analysis.Caa.Findings as Caa

-- The keys of the map, in their order.
abbrev pub record_types : List DnsRecordType
record_types =
    a_type ∷ aaaa_type ∷ mx_type ∷ ns_type ∷ txt_type ∷ cname_type ∷ soa_type ∷ caa_type ∷ []

abbrev pub nxdomain_or : Option QueryResult → Option QueryResult → Option QueryResult
nxdomain_or none later = later
nxdomain_or (some result) later = if is_nxdomain result then some result else later

-- `values().find(|r| r.is_nxdomain())`.
abbrev pub find_nxdomain : DnsAnswers → List DnsRecordType → Option QueryResult
find_nxdomain answers [] = none
find_nxdomain answers (kind ∷ types) = nxdomain_or (answers.apex kind) (find_nxdomain answers types)

unfoldable pub nxdomain_findings : Text → QueryResult → List Finding
unfolding finding
nxdomain_findings domain result =
    finding (codes "dns.domain.nxdomain") Severity.info (codes "Domain does not exist")
      (codes "The resolver answered NXDOMAIN for "
        ++ domain
        ++ codes ". No DNS records exist for this name.")
      (evidence_of result)
    ∷ []

unfoldable pub every_analyzer : Crates → (IpAddr → Text) → DnsAnswers → List Finding
unfolding Records.analyze Spf.analyze Dmarc.analyze Caa.analyze
every_analyzer lib display answers =
    Records.analyze display answers
    ++ Spf.analyze answers.domain (apex_of answers txt_type)
    ++ Dmarc.analyze answers.domain answers.dmarc
    ++ Caa.analyze lib answers.domain (apex_of answers caa_type)

-- `analyze`.
unfoldable pub analyze : Crates → (IpAddr → Text) → DnsAnswers → List Finding
unfolding nxdomain_findings every_analyzer
analyze lib display answers = elim (find_nxdomain answers record_types) [
  | some result ↦ nxdomain_findings answers.domain result
  | none ↦ every_analyzer lib display answers
]
