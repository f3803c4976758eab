-- ===== src/Evidence/Entities.antt =====
-- crates/core/src/entity.rs: the nodes that relationships connect.
use mathlib.Core.Option
use sentinel_osint.Common.{
  ℕ, ◌^◌, Bool, true, false, not, ◌&&◌, ◌||◌, Option, none, some, ◌∷◌, ◌++◌, ltb, ◌==◌, within,
  if◌then◌else◌, is_empty, all, ◌≡◌, ◌↔◌, arith, nat_eq, list_beq, list_beq_iff, take, drop,
}
use sentinel_osint.Common.Text.{
  Text, codes, is_ascii_digit, is_ascii_lowercase, is_ascii_uppercase, to_ascii_lowercase, trim,
  len,
}
use sentinel_osint.Net.{ip_beq, ip_beq_iff}
use sentinel_osint.Net.Prefix.{IpPrefix}
use sentinel_osint.Net.Parser.{read_digits}
use sentinel_osint.Indicator.Defs.{
  IndicatorType, domain_type, ipv4_type, ipv6_type, url_type, file_hash_type, Crates,
}
use sentinel_osint.Indicator.Policy.{Indicator, indicator_type}
use sentinel_osint.Indicator.Equality.{indicator_beq, indicator_beq_iff}

-- `struct Asn(u32)`.
pub record Asn : Type 0 where
  pub number : ℕ

-- `Asn::new`; 0 means that there is none.
unfoldable pub new_asn : ℕ → Option Asn
new_asn number = if number == 0 then none else some (record { number = number })

-- `get(..2)` is `as` in any ASCII case, and what follows it.
abbrev without_as : Text → Text
without_as s = if list_beq (to_ascii_lowercase (take 2 s)) (codes "as") then drop 2 s else s

-- `parse::<u32>` on a text of digits: the value, unless it overflows.
abbrev parse_u32 : Text → Option ℕ
parse_u32 digits =
    let (value, count, rest) = read_digits 10 0 0 digits in
    if ltb value (2 ^ 32) then some value else none

-- `Asn::parse`.
unfoldable pub parse_asn : Text → Option Asn
unfolding new_asn
parse_asn input =
    let digits = without_as (trim input) in
    if is_empty digits || not (all is_ascii_digit digits)
    then none
    else Option.bind (parse_u32 digits) new_asn

-- `Asn::is_private_use`.
unfoldable pub is_private_use : Asn → Bool
is_private_use asn = within 64512 65534 asn.number || within 4200000000 4294967294 asn.number

-- `struct CertificateId(String)`.
pub record CertificateId : Type 0 where
  pub text : Text

abbrev is_alphanumeric : ℕ → Bool
is_alphanumeric b = is_ascii_lowercase b || is_ascii_uppercase b || is_ascii_digit b

-- `CertificateId::new`.
unfoldable pub new_certificate_id : Text → Text → Option CertificateId
new_certificate_id namespace id =
    let namespace_ok =
      within 1 16 (len namespace)
      && all (λ b. is_ascii_lowercase b || is_ascii_digit b) namespace in
    let id_ok =
      within 1 128 (len id)
      && all (λ b. is_alphanumeric b || b == b'.' || b == b'_' || b == b'-') id in
    if namespace_ok && id_ok then some (record { text = namespace ++ b':' ∷ id }) else none

pub data EntityType : Type 0 where
  domain ipv4 ipv6 url file_hash autonomous_system network certificate : EntityType

-- `EntityType::as_str`.
abbrev pub as_str : EntityType → Text
as_str domain = codes "domain"
as_str ipv4 = codes "ipv4"
as_str ipv6 = codes "ipv6"
as_str url = codes "url"
as_str file_hash = codes "file_hash"
as_str autonomous_system = codes "autonomous_system"
as_str network = codes "network"
as_str certificate = codes "certificate"

-- `EntityType::is_ip`.
abbrev pub is_ip : EntityType → Bool
is_ip ipv4 = true
is_ip ipv6 = true
is_ip _ = false

-- `From<IndicatorType>`.
abbrev pub of_indicator_type : IndicatorType → EntityType
of_indicator_type domain_type = domain
of_indicator_type ipv4_type = ipv4
of_indicator_type ipv6_type = ipv6
of_indicator_type url_type = url
of_indicator_type file_hash_type = file_hash

asn_beq_iff : (x y : Asn) → ((x.number == y.number) ≡ true) ↔ (x ≡ y)
asn_beq_iff x y = ground arith

certificate_beq_iff : (x y : CertificateId) → (list_beq x.text y.text ≡ true) ↔ (x ≡ y)
certificate_beq_iff x y = ground (arith, list_beq_iff x.text y.text)

prefix_beq_iff :
    (x y : IpPrefix) → ((ip_beq x.network y.network && x.len == y.len) ≡ true) ↔ (x ≡ y)
prefix_beq_iff x y = ground (arith, ip_beq_iff x.network y.network)

module _ (lib : Crates) where
  pub data Entity : Type 0 where
    indicator : Indicator lib → Entity
    autonomous_system_entity : Asn → Entity
    network_entity : IpPrefix → Entity
    certificate_entity : CertificateId → Entity

  -- `Entity::entity_type`.
  abbrev pub entity_type : Entity → EntityType
  entity_type (indicator i) = of_indicator_type (indicator_type lib i)
  entity_type (autonomous_system_entity _) = autonomous_system
  entity_type (network_entity _) = network
  entity_type (certificate_entity _) = certificate

  abbrev pub entity_beq : Entity → Entity → Bool
  entity_beq (indicator x) (indicator y) = indicator_beq lib x y
  entity_beq (autonomous_system_entity x) (autonomous_system_entity y) = x.number == y.number
  entity_beq (network_entity x) (network_entity y) = ip_beq x.network y.network && x.len == y.len
  entity_beq (certificate_entity x) (certificate_entity y) = list_beq x.text y.text
  entity_beq _ _ = false

  pub entity_beq_iff : (x y : Entity) → (entity_beq x y ≡ true) ↔ (x ≡ y)
  entity_beq_iff (indicator x) (indicator y) = ground (arith, indicator_beq_iff lib x y)
  entity_beq_iff (autonomous_system_entity x) (autonomous_system_entity y) =
      ground (arith, asn_beq_iff x y)
  entity_beq_iff (network_entity x) (network_entity y) = ground (arith, prefix_beq_iff x y)
  entity_beq_iff (certificate_entity x) (certificate_entity y) =
      ground (arith, certificate_beq_iff x y)
  entity_beq_iff _ _ = (λ h. cc, λ h. cc)
