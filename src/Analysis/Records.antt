-- ===== src/Analysis/Records.antt =====
-- crates/collectors/src/analysis/records.rs: non-public addresses and null MX.
pub mod Cites
use sentinel_osint.Common.{
  ℕ, Bool, false, not, Option, none, some, List, [], ◌∷◌, ◌++◌, map, if◌then◌else◌, is_empty,
}
use sentinel_osint.Common.Text.{Text, codes}
use sentinel_osint.Common.Text.Splitting.{join}
use sentinel_osint.Net.{IpAddr, v4, v6, classify, is_global_scope}
use sentinel_osint.Net.Description.{description}
use sentinel_osint.Evidence.Observations.{ObservationId}
use sentinel_osint.Evidence.Findings.{Severity, Finding}
use sentinel_osint.Evidence.Dns.{
  DnsRecord, DnsRecordData, a_data, aaaa_data, mx_data, a_type, aaaa_type, mx_type,
}
use sentinel_osint.Analysis.{DnsAnswers, apex_of, records_of, finding}

abbrev pub address_of : DnsRecordData → Option IpAddr
address_of (a_data address) = some (v4 address)
address_of (aaaa_data address) = some (v6 address)
address_of _ = none

abbrev pub unless_public : ObservationId → Option IpAddr → List (ObservationId × IpAddr)
unless_public id none = []
unless_public id (some ip) = if not (is_global_scope (classify ip)) then (id, ip) ∷ [] else []

-- The body of the loop over the records of one type.
abbrev pub non_public_in : List (ObservationId × DnsRecord) → List (ObservationId × IpAddr)
non_public_in [] = []
non_public_in ((id, r) ∷ rs) = unless_public id (address_of r.contents) ++ non_public_in rs

abbrev pub non_public : DnsAnswers → List (ObservationId × IpAddr)
non_public answers =
    non_public_in (records_of (apex_of answers a_type))
    ++ non_public_in (records_of (apex_of answers aaaa_type))

abbrev pub is_null_mx : DnsRecordData → Bool
is_null_mx (mx_data preference exchange) = is_empty exchange
is_null_mx _ = false

-- `display` is how the standard library writes an address.
module _ (display : IpAddr → Text) where
  abbrev pub listed : ObservationId × IpAddr → Text
  listed (id, ip) = display ip ++ codes " (" ++ description (classify ip) ++ codes ")"

  unfoldable pub address_findings : Text → List (ObservationId × IpAddr) → List Finding
  unfolding finding
  address_findings domain [] = []
  address_findings domain (found ∷ more) =
      finding (codes "dns.address.non_public") Severity.low
        (codes "Public DNS publishes non-public addresses")
        (domain
          ++ codes " resolves to non-public address(es): "
          ++ join (codes ", ") (map listed (found ∷ more))
          ++ codes
              ". This can reveal internal addressing. These addresses were not enriched further.")
        (map (λ r. r.0) (found ∷ more))
      ∷ []

  unfoldable pub mx_findings : Text → List (ObservationId × DnsRecord) → List Finding
  unfolding finding
  mx_findings domain ((id, r) ∷ []) =
      if is_null_mx r.contents
      then finding (codes "dns.mx.null") Severity.info
          (codes "Domain does not accept email (null MX)")
          (domain
            ++ codes " publishes a null MX record (RFC 7505), declaring that it accepts no email.")
          (id ∷ [])
        ∷ []
      else []
  mx_findings domain _ = []

  -- `records::analyze`.
  unfoldable pub analyze : DnsAnswers → List Finding
  unfolding address_findings mx_findings
  analyze answers =
      address_findings answers.domain (non_public answers)
      ++ mx_findings answers.domain (records_of (apex_of answers mx_type))
