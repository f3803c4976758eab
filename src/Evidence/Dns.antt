-- ===== src/Evidence/Dns.antt =====
-- crates/core/src/evidence/dns.rs: DNS records, as the resolver returned them.
use sentinel_osint.Common.{
  ℕ, Bool, true, false, ◌&&◌, ◌||◌, Option, none, some, [], ◌∷◌, ◌==◌, nat_eq,
}
use sentinel_osint.Common.Text.{
  Text, codes, len, eq_ignore_ascii_case, to_ascii_lowercase, trim_start, strip_suffix,
}
use sentinel_osint.Common.Text.Splitting.{split_at_byte}
use sentinel_osint.Net.{Ipv4Addr, Ipv6Addr}

pub data DnsRecordType : Type 0 where
  a_type aaaa_type mx_type ns_type txt_type cname_type soa_type caa_type : DnsRecordType

-- `DnsRecordType::as_str`.
abbrev pub as_str : DnsRecordType → Text
as_str a_type = codes "A"
as_str aaaa_type = codes "AAAA"
as_str mx_type = codes "MX"
as_str ns_type = codes "NS"
as_str txt_type = codes "TXT"
as_str cname_type = codes "CNAME"
as_str soa_type = codes "SOA"
as_str caa_type = codes "CAA"

pub record Soa : Type 0 where
  pub mname : Text
  pub rname : Text
  pub serial : ℕ
  pub refresh : ℕ
  pub retry : ℕ
  pub expire : ℕ
  pub minimum : ℕ

pub data DnsRecordData : Type 0 where
  a_data : Ipv4Addr → DnsRecordData
  aaaa_data : Ipv6Addr → DnsRecordData
  mx_data : (preference : ℕ) (exchange : Text) → DnsRecordData
  ns_data : (nameserver : Text) → DnsRecordData
  txt_data : (text : Text) → DnsRecordData
  cname_data : (target : Text) → DnsRecordData
  soa_data : Soa → DnsRecordData
  caa_data : (critical : Bool) (tag : Text) (value : Text) → DnsRecordData

-- `DnsRecordData::record_type`.
abbrev pub record_type : DnsRecordData → DnsRecordType
record_type (a_data address) = a_type
record_type (aaaa_data address) = aaaa_type
record_type (mx_data preference exchange) = mx_type
record_type (ns_data nameserver) = ns_type
record_type (txt_data text) = txt_type
record_type (cname_data target) = cname_type
record_type (soa_data soa) = soa_type
record_type (caa_data critical tag value) = caa_type

-- `DnsRecordData::txt`.
abbrev pub txt : DnsRecordData → Option Text
txt (txt_data text) = some text
txt _ = none

-- `normalize_name`.
unfoldable pub normalize_name : Text → Text
normalize_name name = elim (strip_suffix (codes ".") name) [
  | none ↦ to_ascii_lowercase name
  | some stripped ↦ to_ascii_lowercase stripped
]

pub record DnsRecord : Type 0 where
  pub name : Text
  pub ttl : ℕ
  pub contents : DnsRecordData

-- `DnsRecord::new`.
unfoldable pub new_record : Text → ℕ → DnsRecordData → DnsRecord
unfolding normalize_name
new_record name ttl contents = record { name = normalize_name name; ttl = ttl; contents = contents }

abbrev has_version : Text → (Text → Bool) → Option (Text × Text) → Bool
has_version version valid_rest none = false
has_version version valid_rest (some (prefix, rest)) =
    eq_ignore_ascii_case prefix version && valid_rest rest

-- `starts_with_version`.
abbrev pub starts_with_version : Text → Text → (Text → Bool) → Bool
starts_with_version text version valid_rest =
    has_version version valid_rest (split_at_byte (len version) text)

abbrev ends_or_starts : (ℕ → Bool) → Text → Bool
ends_or_starts separates [] = true
ends_or_starts separates (c ∷ cs) = separates c

-- `is_spf_record`.
unfoldable pub is_spf_record : Text → Bool
is_spf_record text = starts_with_version text (codes "v=spf1") (ends_or_starts (◌==◌ b' '))

-- `is_dmarc_record`; 9 is the tabulator.
unfoldable pub is_dmarc_record : Text → Bool
is_dmarc_record text =
    starts_with_version (trim_start text) (codes "v=dmarc1")
      (ends_or_starts λ c. c == b';' || (c == b' ' || c == 9))

pub data NoRecordsReason : Type 0 where
  no_data nx_domain : NoRecordsReason

pub record DnsNoRecords : Type 0 where
  pub name : Text
  pub queried : DnsRecordType
  pub reason : NoRecordsReason

-- `DnsNoRecords::new`.
unfoldable pub new_no_records : Text → DnsRecordType → NoRecordsReason → DnsNoRecords
unfolding normalize_name
new_no_records name queried reason = record {
  name = normalize_name name;
  queried = queried;
  reason = reason;
}
