-- ===== src/Indicator/Defs.antt =====
-- The types of crates/core/src/indicator/: errors, names, hashes, and what the crates `idna` and
-- `url`, which are not part of the repository, offer to it.
use Prim.Native.String.{String}
use sentinel_osint.Common.{ℕ, Bool, true, Option, ◌≡◌, ◌↔◌}
use sentinel_osint.Common.Text.{Text}
use sentinel_osint.Net.{Ipv4Addr, Ipv6Addr, IpAddr, AddressScope}

-- `struct DomainName(String)`.
pub record DomainName : Type 0 where
  pub name : Text

pub data HashAlgorithm : Type 0 where
  md5 sha1 sha256 : HashAlgorithm

pub record FileHash : Type 0 where
  pub algorithm : HashAlgorithm
  pub hex : Text

pub data IndicatorType : Type 0 where
  domain_type ipv4_type ipv6_type url_type file_hash_type : IndicatorType

-- `IndicatorError`; the fixed explanations are kept.
pub data IndicatorError : Type 0 where
  empty : IndicatorError
  too_long : ℕ → IndicatorError
  invalid_domain : String → IndicatorError
  domain_is_ip_address : IndicatorError
  domain_looks_like_url : IndicatorError
  invalid_ip_address : IndicatorError
  invalid_file_hash : String → IndicatorError
  invalid_url : String → IndicatorError
  type_mismatch : IndicatorType → IndicatorType → IndicatorError
  non_public_address : IpAddr → AddressScope → IndicatorError
  special_use_domain : DomainName → IndicatorError

-- `url::Host<&str>`.
pub data Host : Type 0 where
  domain : Text → Host
  ipv4 : Ipv4Addr → Host
  ipv6 : Ipv6Addr → Host

-- `idna::domain_to_ascii`, and the type `url::Url` with the operations that the sources call.
pub record Crates : Type 1 where
  pub domain_to_ascii : Text → Option Text
  pub Url : Type 0
  pub parse_url : Text → Option Url
  pub scheme : Url → Text
  pub username : Url → Text
  pub password : Url → Option Text
  pub host : Url → Option Host
  pub port_or_known_default : Url → Option ℕ
  pub url_beq : Url → Url → Bool
  pub url_beq_iff : (x y : Url) → (url_beq x y ≡ true) ↔ (x ≡ y)
