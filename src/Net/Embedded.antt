-- ===== src/Net/Embedded.antt =====
-- The IPv6 classification: addresses that carry an IPv4 address, and the native global range.
use sentinel_osint.Common.{
  ℕ, ◌*◌, ◌+◌, ◌≤◌, ◌<◌, true, leb, ◌==◌, within, if◌then◌else◌, ◌≡◌, ◌≢◌, ◌↔◌, ◌⊎◌, arith, ap,
  Bool-cases, inl, inr,
}
use sentinel_osint.Common.Bits.{bit_and_high}
use sentinel_osint.Net.{
  Ipv4Addr, Ipv6Addr, IsIpv4, IsIpv6, global, unique_local, link_local, multicast, reserved,
  classify_v4, classify_v6, classify_first, classify_segments, v4_from_segments, is_ipv4_mapped,
  classify_ranges, is_nat64,
}

-- The masks of the first segment are ranges of it.
pub classify_first_lem :
    (a : ℕ)
    → a < 65536
    → classify_first a ≡ (
        if within 0xfc00 0xfdff a
        then unique_local
        else if within 0xfe80 0xfebf a
        then link_local
        else if leb 0xff00 a
        then multicast
        else if within 0x2000 0x3fff a
        then global
        else reserved)
unfolding classify_first
classify_first_lem a h = ground (
  arith,
  bit_and_high a 7 9 (omega arith),
  bit_and_high a 10 6 (omega arith),
  bit_and_high a 8 8 (omega arith),
  bit_and_high a 3 13 (omega arith),
)

-- An IPv4 address as two segments of an IPv6 address.
abbrev pub high_segment : Ipv4Addr → ℕ
high_segment ip = ip.a * 256 + ip.b

abbrev pub low_segment : Ipv4Addr → ℕ
low_segment ip = ip.c * 256 + ip.d

-- `::ffff:a.b.c.d`, `64:ff9b::a.b.c.d` and `2002:ab:cd:…`.
abbrev pub mapped : Ipv4Addr → Ipv6Addr
mapped ip = record {
  s0 = 0;
  s1 = 0;
  s2 = 0;
  s3 = 0;
  s4 = 0;
  s5 = 0xffff;
  s6 = high_segment ip;
  s7 = low_segment ip;
}

abbrev pub nat64 : Ipv4Addr → Ipv6Addr
nat64 ip = record (mapped ip) { s0 = 0x64; s1 = 0xff9b; s5 = 0 }

abbrev pub six_to_four : Ipv4Addr → Ipv6Addr → Ipv6Addr
six_to_four ip rest = record rest { s0 = 0x2002; s1 = high_segment ip; s2 = low_segment ip }

v4_from_segments_round :
    (ip : Ipv4Addr) → IsIpv4 ip → v4_from_segments (high_segment ip) (low_segment ip) ≡ ip
v4_from_segments_round ip h = ground arith

-- No embedding hides an IPv4 address: the IPv4-mapped, NAT64 and 6to4 forms of an address have
-- its scope, whatever the other segments of the 6to4 form are.
pub classify_v6_embedded :
    (ip : Ipv4Addr) (rest : Ipv6Addr)
    → IsIpv4 ip
    → (classify_v6 (mapped ip) ≡ classify_v4 ip)
      × (classify_v6 (nat64 ip) ≡ classify_v4 ip)
      × (classify_v6 (six_to_four ip rest) ≡ classify_v4 ip)
unfolding classify_v6 classify_segments
classify_v6_embedded ip rest h = let e = ap classify_v4 (v4_from_segments_round ip h) in (e, e, e)

-- What the RFCs call global: an embedded global IPv4 address, or
-- 2000::/3 without 6to4, documentation and protocol assignments.
abbrev pub NativeGlobal : Ipv6Addr → Type 0
NativeGlobal ip =
    (0x2000 ≤ ip.s0)
    × (ip.s0 < 0x4000)
    × (ip.s0 ≢ 0x2002)
    × (ip.s0 ≡ 0x2001 → (0x200 ≤ ip.s1) × (ip.s1 ≢ 0xdb8))
    × (ip.s0 ≡ 0x3fff → 0x1000 ≤ ip.s1)

abbrev pub EmbeddedGlobal : ℕ → ℕ → Type 0
EmbeddedGlobal hi lo = classify_v4 (v4_from_segments hi lo) ≡ global

classify_first-eq-global_iff :
    (a : ℕ) → a < 65536 → (classify_first a ≡ global) ↔ ((0x2000 ≤ a) × (a < 0x4000))
classify_first-eq-global_iff a h = rw (classify_first_lem a h) (ground arith)

classify_ranges-eq-global_iff :
    (ip : Ipv6Addr) → IsIpv6 ip → ip.s0 ≢ 0x2002 → (classify_ranges ip ≡ global) ↔ NativeGlobal ip
unfolding classify_ranges
classify_ranges-eq-global_iff ip h ne = elim (Bool-cases (ip.s0 == 0x2001)) [
  | inl y ↦ ground (arith, classify_first-eq-global_iff ip.s0 h.word0)
  | inr n ↦ elim (Bool-cases (ip.s0 == 0x3fff)) [
    | inl y ↦ ground (arith, classify_first-eq-global_iff ip.s0 h.word0)
    | inr m ↦ ground (arith, classify_first-eq-global_iff ip.s0 h.word0)
  ]
]

abbrev pub GlobalForms : Ipv6Addr → Type 0
GlobalForms ip =
    ((is_nat64 ip ≡ true) × EmbeddedGlobal ip.s6 ip.s7)
    ⊎ (((ip.s0 ≡ 0x2002) × EmbeddedGlobal ip.s1 ip.s2) ⊎ NativeGlobal ip)

classify_segments-eq-global_iff :
    (ip : Ipv6Addr) → IsIpv6 ip → (classify_segments ip ≡ global) ↔ GlobalForms ip
unfolding classify_segments
classify_segments-eq-global_iff ip h = elim (Bool-cases (is_nat64 ip)) [
  | inl y ↦ ground arith
  | inr n ↦ elim (Bool-cases (ip.s0 == 0x2002)) [
    | inl y ↦ ground arith
    | inr m ↦ ground (arith, classify_ranges-eq-global_iff ip h)
  ]
]

-- An IPv6 address is global exactly when it is an IPv4-mapped, NAT64 or 6to4 form of a global IPv4
-- address or a native global address.
pub classify_v6-eq-global_iff :
    (ip : Ipv6Addr)
    → IsIpv6 ip
    → (classify_v6 ip ≡ global)
      ↔ (((is_ipv4_mapped ip ≡ true) × EmbeddedGlobal ip.s6 ip.s7) ⊎ GlobalForms ip)
unfolding classify_v6
classify_v6-eq-global_iff ip h = elim (Bool-cases (is_ipv4_mapped ip)) [
  | inl y ↦ ground arith
  | inr n ↦ ground (arith, classify_segments-eq-global_iff ip h)
]
