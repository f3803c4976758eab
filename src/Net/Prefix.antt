-- ===== src/Net/Prefix.antt =====
-- crates/core/src/net.rs: `IpPrefix`, its mask and its constructor.
pub mod Masks
pub mod Matching
use Prim.Native.Nat.{bit_and}
use sentinel_osint.Common.{
  ℕ, ◌+◌, ◌-◌, ◌*◌, ◌/◌, ◌%◌, ◌^◌, min, Bool, true, false, not, ltb, ◌==◌, if◌then◌else◌, Result,
  ok, err,
}
use sentinel_osint.Net.{Ipv4Addr, Ipv6Addr, IpAddr, v4, v6, ip_beq}

-- `u32::from(Ipv4Addr)` and back.
abbrev pub u32_from : Ipv4Addr → ℕ
u32_from ip = ((ip.a * 256 + ip.b) * 256 + ip.c) * 256 + ip.d

abbrev pub ipv4_from : ℕ → Ipv4Addr
ipv4_from n = record {
  a = n / 2 ^ 24 % 256;
  b = n / 2 ^ 16 % 256;
  c = n / 2 ^ 8 % 256;
  d = n % 256;
}

-- `u128::from(Ipv6Addr)` and back.
abbrev pub u128_from : Ipv6Addr → ℕ
u128_from ip =
    ((((((ip.s0 * 65536 + ip.s1) * 65536 + ip.s2) * 65536 + ip.s3) * 65536 + ip.s4) * 65536 + ip.s5)
          * 65536
        + ip.s6)
      * 65536
    + ip.s7

abbrev pub ipv6_from : ℕ → Ipv6Addr
ipv6_from n = record {
  s0 = n / 2 ^ 112 % 65536;
  s1 = n / 2 ^ 96 % 65536;
  s2 = n / 2 ^ 80 % 65536;
  s3 = n / 2 ^ 64 % 65536;
  s4 = n / 2 ^ 48 % 65536;
  s5 = n / 2 ^ 32 % 65536;
  s6 = n / 2 ^ 16 % 65536;
  s7 = n % 65536;
}

-- `x << s` on an unsigned word of `w` bits, for `s < w`.
abbrev pub shl : ℕ → ℕ → ℕ → ℕ
shl w x s = x * 2 ^ s % 2 ^ w

-- `bits & (MAX << (w - len))`, with the case of an empty prefix apart.
pub keep_bits : ℕ → ℕ → ℕ → ℕ
keep_bits w bits len = if len == 0 then 0 else bit_and bits (shl w (2 ^ w - 1) (w - min len w))

unfoldable pub mask : IpAddr → ℕ → IpAddr
unfolding keep_bits
mask (v4 ip) len = v4 (ipv4_from (keep_bits 32 (u32_from ip) len))
mask (v6 ip) len = v6 (ipv6_from (keep_bits 128 (u128_from ip) len))

pub record IpPrefix : Type 0 where
  pub network : IpAddr
  pub len : ℕ

pub data PrefixError : Type 0 where
  syntax address length host_bits : PrefixError

abbrev pub width : IpAddr → ℕ
width (v4 _) = 32
width (v6 _) = 128

-- `IpPrefix::new`.
unfoldable pub new : IpAddr → ℕ → Result PrefixError IpPrefix
new network len =
    if ltb (width network) len
    then err length
    else if not (ip_beq (mask network len) network)
    then err host_bits
    else ok (record { network = network; len = len })

-- `IpPrefix::contains`: the families must agree.
abbrev pub same_family : IpAddr → IpAddr → Bool
same_family (v4 _) (v4 _) = true
same_family (v6 _) (v6 _) = true
same_family _ _ = false

unfoldable pub contains : IpPrefix → IpAddr → Bool
contains p ip = if same_family p.network ip then ip_beq (mask ip p.len) p.network else false
