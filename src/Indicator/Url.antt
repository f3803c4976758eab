-- ===== src/Indicator/Url.antt =====
-- crates/core/src/indicator/url.rs: `HttpUrl`, over the crate `url`.
pub mod Laws
use sentinel_osint.Common.{
  ℕ, Bool, not, ◌||◌, Option, none, some, ltb, if◌then◌else◌, is_empty, Result, ok, err, nat_eq,
  list_beq,
}
use sentinel_osint.Common.Text.{Text, codes, trim, len, is_some}
use sentinel_osint.Net.{IpAddr, v4, v6}
use sentinel_osint.Indicator.Defs.{
  DomainName, IndicatorError, empty, too_long, invalid_url, Host, domain, ipv4, ipv6, Crates,
}
use sentinel_osint.Indicator.Domain

-- `HttpUrl::MAX_LENGTH`.
abbrev pub max_length : ℕ
max_length = 2048

-- `UrlHost`.
pub data UrlHost : Type 0 where
  name : DomainName → UrlHost
  ip : IpAddr → UrlHost

module _ (lib : Crates) where
  open lib use {Url}

  -- `struct HttpUrl(Url)`.
  pub record HttpUrl : Type 0 where
    pub url : Url

  abbrev is_http : Url → Bool
  is_http u = list_beq (lib.scheme u) (codes "http") || list_beq (lib.scheme u) (codes "https")

  abbrev has_credentials : Url → Bool
  has_credentials u = not (is_empty (lib.username u)) || is_some (lib.password u)

  abbrev checked_name : Url → Result IndicatorError DomainName → Result IndicatorError HttpUrl
  checked_name u (ok d) = ok (record { url = u })
  checked_name u (err e) = err (invalid_url "host is not a valid domain name")

  abbrev checked_host : Url → Option Host → Result IndicatorError HttpUrl
  checked_host u none = err (invalid_url "URL has no host")
  checked_host u (some (domain d)) = checked_name u (Domain.parse lib d)
  checked_host u (some (ipv4 a)) = ok (record { url = u })
  checked_host u (some (ipv6 a)) = ok (record { url = u })

  abbrev checked_url : Option Url → Result IndicatorError HttpUrl
  checked_url none = err (invalid_url "not a valid absolute URL")
  checked_url (some u) =
      if not (is_http u)
      then err (invalid_url "only http and https URLs are supported")
      else if has_credentials u
      then err (invalid_url "URLs containing credentials are not accepted")
      else checked_host u (lib.host u)

  -- `HttpUrl::parse`.
  unfoldable pub parse : Text → Result IndicatorError HttpUrl
  parse input =
      let s = trim input in
      if is_empty s
      then err empty
      else if ltb max_length (len s)
      then err (too_long max_length)
      else checked_url (lib.parse_url s)

  abbrev host_of_name : Result IndicatorError DomainName → Option UrlHost
  host_of_name (ok d) = some (name d)
  host_of_name (err e) = none

  abbrev host_of : Option Host → Option UrlHost
  host_of none = none
  host_of (some (domain d)) = host_of_name (Domain.parse lib d)
  host_of (some (ipv4 a)) = some (ip (v4 a))
  host_of (some (ipv6 a)) = some (ip (v6 a))

  -- `HttpUrl::host`.
  unfoldable pub host : HttpUrl → Option UrlHost
  host u = host_of (lib.host u.url)
