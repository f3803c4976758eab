-- ===== src/Http/Policy.antt =====
-- crates/collectors/src/http/policy.rs, as it is built outside tests, and the resolver of
-- crates/collectors/src/http/resolver.rs.
use sentinel_osint.Common.{
  ℕ, Bool, true, false, not, ◌&&◌, ◌||◌, Option, none, some, List, ◌==◌, if◌then◌else◌, is_empty,
  filter, Result, ok, err, ◌>>◌, nat_eq, list_beq,
}
use sentinel_osint.Common.Text.{codes, is_some}
use sentinel_osint.Net.{
  IpAddr, v4, v6, ipv4_beq, ipv6_beq, AddressScope, classify, is_global, is_global_scope,
}
use sentinel_osint.Indicator.Defs.{Host, domain, ipv4, ipv6, Crates}

pub data PolicyViolation : Type 0 where
  insecure_scheme credentials_in_url missing_host no_public_address : PolicyViolation
  cross_origin_redirect : PolicyViolation
  non_public_address : IpAddr → AddressScope → PolicyViolation
  too_many_redirects : ℕ → PolicyViolation

-- `check_ip`.
unfoldable pub check_ip : IpAddr → Result PolicyViolation (Unit {0})
check_ip ip =
    let scope = classify ip in
    if is_global_scope scope then ok tt else err (non_public_address ip scope)

-- `std::net::SocketAddr`, without the fields that the sources do not read.
pub record SocketAddr : Type 0 where
  pub ip : IpAddr
  pub port : ℕ

unfoldable pub retain_public : List SocketAddr → List SocketAddr
retain_public addrs = filter (λ a. is_global a.ip) addrs

-- `PublicOnlyResolver::resolve`, on the addresses that the system's resolver answered.
unfoldable pub resolve : List SocketAddr → Result PolicyViolation (List SocketAddr)
resolve resolved =
    let public = retain_public resolved in
    if is_empty public then err no_public_address else ok public

abbrev pub host_beq : Option Host → Option Host → Bool
host_beq none none = true
host_beq (some (domain x)) (some (domain y)) = list_beq x y
host_beq (some (ipv4 x)) (some (ipv4 y)) = ipv4_beq x y
host_beq (some (ipv6 x)) (some (ipv6 y)) = ipv6_beq x y
host_beq _ _ = false

abbrev pub port_beq : Option ℕ → Option ℕ → Bool
port_beq none none = true
port_beq (some x) (some y) = x == y
port_beq _ _ = false

-- The check of the host: an address literal must be public, a name is checked when it is resolved.
abbrev pub check_host : Option Host → Result PolicyViolation (Unit {0})
check_host none = err missing_host
check_host (some (domain _)) = ok tt
check_host (some (ipv4 a)) = check_ip (v4 a)
check_host (some (ipv6 a)) = check_ip (v6 a)

module _ (lib : Crates) where
  open lib use {Url}

  -- `NetworkPolicy::check_url`.
  unfoldable pub check_url : Url → Result PolicyViolation (Unit {0})
  check_url url =
      if not (is_empty (lib.username url)) || is_some (lib.password url)
      then err credentials_in_url
      else check_host (lib.host url)
        >> (if not (list_beq (lib.scheme url) (codes "https")) then err insecure_scheme else ok tt)

  unfoldable pub same_origin : Url → Url → Bool
  same_origin a b =
      list_beq (lib.scheme a) (lib.scheme b)
      && (host_beq (lib.host a) (lib.host b)
          && port_beq (lib.port_or_known_default a) (lib.port_or_known_default b))
