-- ===== src/Analysis/Caa/Findings.antt =====
-- crates/collectors/src/analysis/caa.rs: the findings of the CAA query.
use sentinel_osint.Common.{◌&&◌, List, [], ◌∷◌, ◌++◌, map, if◌then◌else◌, length, is_empty, any}
use sentinel_osint.Common.Text.{Text, codes, eq_ignore_ascii_case}
use sentinel_osint.Common.Text.Numbers.{decimal}
use sentinel_osint.Indicator.Defs.{Crates}
use sentinel_osint.Evidence.Observations.{ObservationId}
use sentinel_osint.Evidence.Findings.{Severity, Finding}
use sentinel_osint.Analysis.{QueryResult, records, empty, failed, finding, list}
use sentinel_osint.Analysis.Caa.{Issuance, Values, Tally, tally}

-- The issuers that are not the same as an earlier one but for ASCII case.
abbrev pub unique_from : List Text → List Text → List Text
unique_from unique [] = unique
unique_from unique (issuer ∷ issuers) =
    unique_from
      (if any (λ u. eq_ignore_ascii_case u issuer) unique then unique else unique ++ issuer ∷ [])
      issuers

-- `issuance_findings`.
unfoldable pub issuance_findings : Issuance → Text → Text → Text → List Finding
unfolding finding list
issuance_findings issuance restricted forbidden what =
    if is_empty issuance.evidence
    then []
    else if is_empty issuance.issuers && issuance.forbid
    then finding forbidden Severity.info (codes "CAA forbids issuance of " ++ what)
        (codes "No certificate authority is authorized to issue "
          ++ what
          ++ codes " for this name.")
        issuance.evidence
      ∷ []
    else if is_empty issuance.issuers
    then []
    else finding restricted Severity.info (codes "CAA restricts issuance of " ++ what)
        (codes "Authorized CA(s): " ++ list (unique_from [] issuance.issuers)) issuance.evidence
      ∷ []

unfoldable pub restriction_findings : Text → List ObservationId → Tally → List Finding
unfolding finding
restriction_findings domain queried t =
    if is_empty t.issue.evidence && is_empty t.issuewild.evidence
    then finding (codes "dns.caa.no_issue_restriction") Severity.info
        (codes "CAA records do not restrict issuance")
        (codes "CAA records exist at "
          ++ domain
          ++ codes
              " but none has an issue or issuewild tag, so they do not restrict which CA may issue.")
        queried
      ∷ []
    else []

-- One round of the loop over `listed`; the template is cut at its `{}`.
unfoldable pub listed_findings : Values → Text → Severity → Text → Text → Text → List Finding
unfolding finding list
listed_findings values code severity title before after =
    if is_empty values.items
    then []
    else finding code severity title (before ++ list values.items ++ after) values.evidence ∷ []

unfoldable pub duplicate_findings : List ObservationId → List Finding
unfolding finding
duplicate_findings [] = []
duplicate_findings (id ∷ ids) =
    finding (codes "dns.caa.duplicate_records") Severity.info (codes "Duplicate CAA records")
      (decimal (length (id ∷ ids))
        ++ codes " CAA record(s) are exact duplicates of another record.")
      (id ∷ ids)
    ∷ []

-- The calls that `analyze` makes, each with its texts.
unfoldable pub issue_findings : Issuance → List Finding
unfolding issuance_findings
issue_findings issuance =
    issuance_findings issuance (codes "dns.caa.issue") (codes "dns.caa.issue_forbidden")
      (codes "certificates")

unfoldable pub issuewild_findings : Issuance → List Finding
unfolding issuance_findings
issuewild_findings issuance =
    issuance_findings issuance (codes "dns.caa.issuewild") (codes "dns.caa.issuewild_forbidden")
      (codes "wildcard certificates")

unfoldable pub iodef_findings : Values → List Finding
unfolding listed_findings
iodef_findings values =
    listed_findings values (codes "dns.caa.iodef") Severity.info
      (codes "CAA violation reporting (iodef)")
      (codes "CAs are asked to report policy violations to: ") []

unfoldable pub critical_findings : Values → List Finding
unfolding listed_findings
critical_findings values =
    listed_findings values (codes "dns.caa.unknown_critical_tag") Severity.low
      (codes "CAA record with unknown critical tag") (codes "Tag(s) ")
      (codes
        " have the issuer-critical flag but are not known tags. RFC 8659 §4.1: a CA that does not understand a critical tag must not issue.")

unfoldable pub invalid_findings : Values → List Finding
unfolding listed_findings
invalid_findings values =
    listed_findings values (codes "dns.caa.malformed") Severity.low
      (codes "CAA issuer is not a valid domain name") (codes "Invalid issuer value(s): ") []

-- What `analyze` makes of the tally.
unfoldable pub findings_of : Text → List ObservationId → Tally → List Finding
unfolding issue_findings issuewild_findings restriction_findings iodef_findings critical_findings
    invalid_findings duplicate_findings
findings_of domain queried t =
    issue_findings t.issue
    ++ issuewild_findings t.issuewild
    ++ restriction_findings domain queried t
    ++ iodef_findings t.iodef
    ++ critical_findings t.unknown_critical
    ++ invalid_findings t.invalid_issuers
    ++ duplicate_findings t.duplicates

-- `caa::analyze`.
unfoldable pub analyze : Crates → Text → QueryResult → List Finding
unfolding finding tally findings_of
analyze lib domain failed = []
analyze lib domain (empty id reason) =
    finding (codes "dns.caa.missing") Severity.info (codes "No CAA records")
      (codes "No CAA records at "
        ++ domain
        ++ codes
            ". Parent domains were not checked; if none of them publish CAA either, any certificate authority may issue certificates for this name.")
      (id ∷ [])
    ∷ []
analyze lib domain (records found) = findings_of domain (map (λ r. r.0) found) (tally lib found)
