-- ===== src/Net.antt =====
-- crates/core/src/net.rs: the address types of `std::net` that it reads, and `classify`.
pub mod Prefix
pub mod Scopes
pub mod Embedded
pub mod Parser
pub mod Description
use Prim.Native.Nat.{bit_and}
use sentinel_osint.Common.{
  ℕ, ◌+◌, ◌*◌, ◌/◌, ◌%◌, ◌<◌, Bool, true, false, ◌&&◌, ◌||◌, ltb, ◌==◌, within, if◌then◌else◌, ◌≡◌,
  ◌↔◌, refl, arith, ap, Eq,
}

-- `Ipv4Addr::octets`.
pub record Ipv4Addr : Type 0 where
  pub a : ℕ
  pub b : ℕ
  pub c : ℕ
  pub d : ℕ

-- `Ipv6Addr::segments`.
pub record Ipv6Addr : Type 0 where
  pub s0 : ℕ
  pub s1 : ℕ
  pub s2 : ℕ
  pub s3 : ℕ
  pub s4 : ℕ
  pub s5 : ℕ
  pub s6 : ℕ
  pub s7 : ℕ

pub data IpAddr : Type 0 where
  v4 : Ipv4Addr → IpAddr
  v6 : Ipv6Addr → IpAddr

-- Each octet is a `u8`, each segment a `u16`.
pub record IsIpv4 (ip : Ipv4Addr) : Type 0 where
  pub a_byte : ip.a < 256
  pub b_byte : ip.b < 256
  pub c_byte : ip.c < 256
  pub d_byte : ip.d < 256

pub record IsIpv6 (ip : Ipv6Addr) : Type 0 where
  pub word0 : ip.s0 < 65536
  pub word1 : ip.s1 < 65536
  pub word2 : ip.s2 < 65536
  pub word3 : ip.s3 < 65536
  pub word4 : ip.s4 < 65536
  pub word5 : ip.s5 < 65536
  pub word6 : ip.s6 < 65536
  pub word7 : ip.s7 < 65536

abbrev pub IsIp : IpAddr → Type 0
IsIp (v4 ip) = IsIpv4 ip
IsIp (v6 ip) = IsIpv6 ip

abbrev pub ipv4_beq : Ipv4Addr → Ipv4Addr → Bool
ipv4_beq x y = x.a == y.a && x.b == y.b && x.c == y.c && x.d == y.d

abbrev pub ipv6_beq : Ipv6Addr → Ipv6Addr → Bool
ipv6_beq x y =
    (x.s0 == y.s0 && x.s1 == y.s1 && x.s2 == y.s2 && x.s3 == y.s3)
    && (x.s4 == y.s4 && x.s5 == y.s5 && x.s6 == y.s6 && x.s7 == y.s7)

abbrev pub ip_beq : IpAddr → IpAddr → Bool
ip_beq (v4 x) (v4 y) = ipv4_beq x y
ip_beq (v6 x) (v6 y) = ipv6_beq x y
ip_beq _ _ = false

pub ipv4_beq_iff : (x y : Ipv4Addr) → (ipv4_beq x y ≡ true) ↔ (x ≡ y)
ipv4_beq_iff x y = ground arith

pub ipv6_beq_iff : (x y : Ipv6Addr) → (ipv6_beq x y ≡ true) ↔ (x ≡ y)
ipv6_beq_iff x y = ground arith

pub ip_beq_iff : (x y : IpAddr) → (ip_beq x y ≡ true) ↔ (x ≡ y)
ip_beq_iff (v4 x) (v4 y) = (λ h. ap v4 ((ipv4_beq_iff x y).0 h), ground (arith, ipv4_beq_iff x y))
ip_beq_iff (v6 x) (v6 y) = (λ h. ap v6 ((ipv6_beq_iff x y).0 h), ground (arith, ipv6_beq_iff x y))
ip_beq_iff (v4 x) (v6 y) = ground arith
ip_beq_iff (v6 x) (v4 y) = ground arith

instance abbrev pub ip_eq : Eq IpAddr
ip_eq = record { beq = ip_beq; beq_iff = ip_beq_iff }

pub data AddressScope : Type 0 where
  global unspecified loopback private shared_address_space link_local : AddressScope
  unique_local documentation benchmarking multicast broadcast reserved : AddressScope

-- `AddressScope::is_global`.
abbrev pub is_global_scope : AddressScope → Bool
is_global_scope global = true
is_global_scope _ = false

-- The arms of the match, in order, over the four octets.
pub classify_octets : ℕ → ℕ → ℕ → ℕ → AddressScope
classify_octets a b c d =
    if a == 0 && b == 0 && c == 0 && d == 0
    then unspecified
    else if a == 255 && b == 255 && c == 255 && d == 255
    then broadcast
    else if a == 0 || (a == 192 && b == 0 && c == 0) || (a == 192 && b == 88 && c == 99)
    then reserved
    else if a == 10 || (a == 192 && b == 168)
    then private
    else if a == 172 && within 16 31 b
    then private
    else if a == 100 && within 64 127 b
    then shared_address_space
    else if a == 127
    then loopback
    else if a == 169 && b == 254
    then link_local
    else if (a == 192 && b == 0 && c == 2)
        || (a == 198 && b == 51 && c == 100)
        || (a == 203 && b == 0 && c == 113)
    then documentation
    else if a == 198 && (b == 18 || b == 19)
    then benchmarking
    else if within 224 239 a
    then multicast
    else if within 240 255 a
    then reserved
    else global

unfoldable pub classify_v4 : Ipv4Addr → AddressScope
unfolding classify_octets
classify_v4 ip = classify_octets ip.a ip.b ip.c ip.d

-- `to_be_bytes` of the two segments.
abbrev pub v4_from_segments : ℕ → ℕ → Ipv4Addr
v4_from_segments hi lo = record {
  a = hi / 256 % 256;
  b = hi % 256;
  c = lo / 256 % 256;
  d = lo % 256;
}

-- `Ipv6Addr::{is_unspecified, is_loopback, to_ipv4_mapped}` of the standard library.
abbrev pub zero_upto5 : Ipv6Addr → Bool
zero_upto5 ip = ip.s0 == 0 && ip.s1 == 0 && ip.s2 == 0 && ip.s3 == 0 && ip.s4 == 0

abbrev pub is_unspecified : Ipv6Addr → Bool
is_unspecified ip = zero_upto5 ip && ip.s5 == 0 && ip.s6 == 0 && ip.s7 == 0

abbrev pub is_loopback : Ipv6Addr → Bool
is_loopback ip = zero_upto5 ip && ip.s5 == 0 && ip.s6 == 0 && ip.s7 == 1

abbrev pub is_ipv4_mapped : Ipv6Addr → Bool
is_ipv4_mapped ip = zero_upto5 ip && ip.s5 == 0xffff

-- The arms that look at masks of the first segment alone.
unfoldable pub classify_first : ℕ → AddressScope
classify_first a =
    if bit_and a 0xfe00 == 0xfc00
    then unique_local
    else if bit_and a 0xffc0 == 0xfe80
    then link_local
    else if bit_and a 0xff00 == 0xff00
    then multicast
    else if bit_and a 0xe000 == 0x2000
    then global
    else reserved

-- The arms for ranges without an embedded address, in order.
unfoldable pub classify_ranges : Ipv6Addr → AddressScope
classify_ranges ip =
    if ip.s0 == 0x2001 && ip.s1 == 0x0db8
    then documentation
    else if ip.s0 == 0x3fff && ltb ip.s1 0x1000
    then documentation
    else if ip.s0 == 0x2001 && ip.s1 == 2 && ip.s2 == 0
    then benchmarking
    else if (ip.s0 == 0x64 && ip.s1 == 0xff9b && ip.s2 == 1)
        || (ip.s0 == 0x100 && ip.s1 == 0 && ip.s2 == 0 && ip.s3 == 0)
    then reserved
    else if ip.s0 == 0x2001 && ltb ip.s1 0x0200
    then reserved
    else classify_first ip.s0

-- NAT64, `64:ff9b::/96`.
abbrev pub is_nat64 : Ipv6Addr → Bool
is_nat64 ip =
    (ip.s0 == 0x64 && ip.s1 == 0xff9b) && (ip.s2 == 0 && ip.s3 == 0 && ip.s4 == 0 && ip.s5 == 0)

-- The match on the segments: the deprecated IPv4-compatible form, the two forms with an embedded
-- address, and the ranges.
unfoldable pub classify_segments : Ipv6Addr → AddressScope
classify_segments ip =
    if zero_upto5 ip && ip.s5 == 0
    then reserved
    else if is_nat64 ip
    then classify_v4 (v4_from_segments ip.s6 ip.s7)
    else if ip.s0 == 0x2002
    then classify_v4 (v4_from_segments ip.s1 ip.s2)
    else classify_ranges ip

unfoldable pub classify_v6 : Ipv6Addr → AddressScope
classify_v6 ip =
    if is_unspecified ip
    then unspecified
    else if is_loopback ip
    then loopback
    else if is_ipv4_mapped ip
    then classify_v4 (v4_from_segments ip.s6 ip.s7)
    else classify_segments ip

unfoldable pub classify : IpAddr → AddressScope
classify (v4 ip) = classify_v4 ip
classify (v6 ip) = classify_v6 ip

unfoldable pub is_global : IpAddr → Bool
is_global ip = is_global_scope (classify ip)
