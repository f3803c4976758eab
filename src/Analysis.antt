-- ===== src/Analysis.antt =====
-- crates/collectors/src/analysis/mod.rs: what the analyzers read, and the findings that they build.
pub mod Records
pub mod Spf
pub mod Dmarc
pub mod Caa
pub mod Whole
pub mod Grounded
pub mod Sound
use sentinel_osint.Common.{
  ℕ, ◌-◌, Bool, true, false, Option, none, some, List, [], ◌∷◌, ◌++◌, map, ltb, if◌then◌else◌, take,
  length,
}
use sentinel_osint.Common.Text.{Text, codes}
use sentinel_osint.Common.Text.Splitting.{join}
use sentinel_osint.Common.Text.Numbers.{decimal}
use sentinel_osint.Sanitize.{sanitize_single_line}
use sentinel_osint.Evidence.Confidence.{Confidence, saturating}
use sentinel_osint.Evidence.Observations.{ObservationId}
use sentinel_osint.Evidence.Findings.{Severity, Finding, new, with_evidence}
use sentinel_osint.Evidence.Dns.{DnsRecordType, DnsRecord, NoRecordsReason, nx_domain, txt}

unfoldable pub dns_confidence : Confidence
unfolding saturating
dns_confidence = saturating 90

abbrev pub max_quoted_chars : ℕ
max_quoted_chars = 128

abbrev pub max_listed_items : ℕ
max_listed_items = 10

pub data QueryResult : Type 0 where
  records : List (ObservationId × DnsRecord) → QueryResult
  empty : (evidence : ObservationId) (reason : NoRecordsReason) → QueryResult
  failed : QueryResult

-- `QueryResult::evidence`.
abbrev pub evidence_of : QueryResult → List ObservationId
evidence_of (records found) = map (λ r. r.0) found
evidence_of (empty id reason) = id ∷ []
evidence_of failed = []

-- `QueryResult::records`.
abbrev pub records_of : QueryResult → List (ObservationId × DnsRecord)
records_of (records found) = found
records_of _ = []

-- `QueryResult::is_nxdomain`.
abbrev pub is_nxdomain : QueryResult → Bool
is_nxdomain (empty id nx_domain) = true
is_nxdomain _ = false

-- The map from record types has a key where `apex` is not none.
pub record DnsAnswers : Type 0 where
  pub domain : Text
  pub apex : DnsRecordType → Option QueryResult
  pub dmarc : QueryResult

abbrev or_failed : Option QueryResult → QueryResult
or_failed none = failed
or_failed (some result) = result

-- `DnsAnswers::apex`.
abbrev pub apex_of : DnsAnswers → DnsRecordType → QueryResult
apex_of answers kind = or_failed (answers.apex kind)

-- `finding`.
unfoldable pub finding : Text → Severity → Text → Text → List ObservationId → Finding
unfolding with_evidence
finding code severity title detail evidence =
    with_evidence (new code severity title detail dns_confidence) evidence

-- `quote`.
unfoldable pub quote : Text → Text
unfolding sanitize_single_line
quote value = sanitize_single_line value max_quoted_chars

-- `list`.
unfoldable pub list : List Text → Text
unfolding quote
list items =
    let shown = map quote (take max_listed_items items) in
    let more = codes "and " ++ decimal (length items - max_listed_items) ++ codes " more" in
    join (codes ", ") (if ltb max_listed_items (length items) then shown ++ more ∷ [] else shown)

abbrev pub tagged : ObservationId → (Text → Bool) → Option Text → List (ObservationId × Text)
tagged id accepts none = []
tagged id accepts (some text) = if accepts text then (id, text) ∷ [] else []

-- The TXT records that a test accepts, which `spf::analyze` and `dmarc::analyze` begin with.
abbrev pub accepted : (Text → Bool) → List (ObservationId × DnsRecord) → List (ObservationId × Text)
accepted accepts [] = []
accepted accepts ((id, r) ∷ rs) = tagged id accepts (txt r.contents) ++ accepted accepts rs
