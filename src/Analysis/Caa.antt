-- ===== src/Analysis/Caa.antt =====
-- crates/collectors/src/analysis/caa.rs: CAA records (RFC 8659).
pub mod Findings
pub mod Laws
pub mod Cites
pub mod Issuers
use sentinel_osint.Common.{
  Bool, true, false, not, ◌&&◌, ◌||◌, Option, none, some, List, [], ◌∷◌, ◌++◌, if◌then◌else◌,
  is_empty, any, contains, list_beq, nat_eq, list_eq, Result, ok, err,
}
use sentinel_osint.Common.Text.{Text, codes, trim, to_ascii_lowercase, eq_ignore_ascii_case}
use sentinel_osint.Common.Text.Splitting.{split}
use sentinel_osint.Indicator.Defs.{Crates, DomainName, IndicatorError}
use sentinel_osint.Indicator.Domain
use sentinel_osint.Evidence.Observations.{ObservationId}
use sentinel_osint.Evidence.Dns.{DnsRecord, DnsRecordData, caa_data}

-- `KNOWN_TAGS`.
abbrev pub known_tags : List Text
known_tags =
    codes "issue"
    ∷ codes "issuewild"
    ∷ codes "iodef"
    ∷ codes "contactemail"
    ∷ codes "contactphone"
    ∷ codes "issuemail"
    ∷ codes "issuevmc"
    ∷ []

pub record Issuance : Type 0 where
  pub issuers : List Text
  pub forbid : Bool
  pub evidence : List ObservationId

pub record Values : Type 0 where
  pub items : List Text
  pub evidence : List ObservationId

abbrev pub no_issuance : Issuance
no_issuance = record { issuers = []; forbid = false; evidence = [] }

abbrev pub no_values : Values
no_values = record { items = []; evidence = [] }

-- `Values::push`.
abbrev pub push : Text → ObservationId → Values → Values
push item id v = record { items = v.items ++ item ∷ []; evidence = v.evidence ++ id ∷ [] }

pub record Tally : Type 0 where
  pub issue : Issuance
  pub issuewild : Issuance
  pub iodef : Values
  pub unknown_critical : Values
  pub invalid_issuers : Values
  pub duplicates : List ObservationId

abbrev pub default_tally : Tally
default_tally = record {
  issue = no_issuance;
  issuewild = no_issuance;
  iodef = no_values;
  unknown_critical = no_values;
  invalid_issuers = no_values;
  duplicates = [];
}

-- The critical flag, the tag in lowercase and the value.
abbrev pub Triple : Type 0
Triple = Bool × Text × Text

abbrev same_flag : Bool → Bool → Bool
same_flag true b = b
same_flag false b = not b

abbrev pub same_triple : Triple → Triple → Bool
same_triple (c, t, v) (c', t', v') = same_flag c c' && list_beq t t' && list_beq v v'

abbrev pub was_seen : List Triple → Triple → Bool
was_seen seen triple = any (same_triple triple) seen

abbrev first_part : List Text → Text
first_part [] = []
first_part (part ∷ parts) = part

abbrev is_ok : {E A : Type 0} → Result E A → Bool
is_ok (ok a) = true
is_ok (err e) = false

abbrev pub issuer_of : Text → Text
issuer_of value = trim (first_part (split b';' value))

-- The arms of the match on a tag in lowercase.
pub data TagKind : Type 0 where
  issue_kind issuewild_kind iodef_kind known_kind unknown_kind : TagKind

unfoldable pub kind_of : Text → TagKind
kind_of lower =
    if list_beq lower (codes "issue")
    then issue_kind
    else if list_beq lower (codes "issuewild")
    then issuewild_kind
    else if list_beq lower (codes "iodef")
    then iodef_kind
    else if contains known_tags lower
    then known_kind
    else unknown_kind

module _ (lib : Crates) where
  unfoldable pub is_name : Text → Bool
  unfolding Domain.parse
  is_name issuer = is_ok (Domain.parse lib issuer)

  -- What an `issue` or `issuewild` record does to its tag.
  abbrev pub authorize : Text → ObservationId → Issuance → Issuance
  authorize issuer id target =
      if is_empty issuer
      then record target { forbid = true; evidence = target.evidence ++ id ∷ [] }
      else if is_name issuer
      then record target {
        issuers = target.issuers ++ issuer ∷ [];
        evidence = target.evidence ++ id ∷ [];
      }
      else record target { evidence = target.evidence ++ id ∷ [] }

  -- What it does to the invalid issuers.
  abbrev pub reject : Text → ObservationId → Values → Values
  reject issuer id invalid =
      if not (is_empty issuer) && not (is_name issuer) then push issuer id invalid else invalid

  -- What the arms of the match on the tag change.
  abbrev pub classify_tag : TagKind → Bool → Text → Text → ObservationId → Tally → Tally
  classify_tag issue_kind critical tag value id t = record t {
    issue = authorize (issuer_of value) id t.issue;
    invalid_issuers = reject (issuer_of value) id t.invalid_issuers;
  }
  classify_tag issuewild_kind critical tag value id t = record t {
    issuewild = authorize (issuer_of value) id t.issuewild;
    invalid_issuers = reject (issuer_of value) id t.invalid_issuers;
  }
  classify_tag iodef_kind critical tag value id t = record t { iodef = push value id t.iodef }
  classify_tag known_kind critical tag value id t = t
  classify_tag unknown_kind true tag value id t = record t {
    unknown_critical = push tag id t.unknown_critical;
  }
  classify_tag unknown_kind false tag value id t = t

  abbrev pub count_duplicate : Bool → ObservationId → Tally → Tally
  count_duplicate repeated id t =
      if repeated then record t { duplicates = t.duplicates ++ id ∷ [] } else t

  -- The body of the loop, with the records seen so far.
  unfoldable pub tally_one :
      ObservationId → DnsRecordData → List Triple × Tally → List Triple × Tally
  unfolding kind_of is_name
  tally_one id (caa_data critical tag value) (seen, t) =
      let triple : Triple = (critical, to_ascii_lowercase tag, value) in
      let repeated = was_seen seen triple in
      (
        if repeated then seen else triple ∷ seen,
        classify_tag (kind_of (to_ascii_lowercase tag)) critical tag value id
            (count_duplicate repeated id t),
      )
  tally_one id _ loop = loop

  unfoldable pub tally_from :
      List (ObservationId × DnsRecord) → List Triple × Tally → List Triple × Tally
  unfolding tally_one
  tally_from [] loop = loop
  tally_from ((id, r) ∷ rs) loop = tally_from rs (tally_one id r.contents loop)

  -- `tally`.
  unfoldable pub tally : List (ObservationId × DnsRecord) → Tally
  unfolding tally_from
  tally records = (tally_from records ([], default_tally)).1
