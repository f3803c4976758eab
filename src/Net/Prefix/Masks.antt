-- ===== src/Net/Prefix/Masks.antt =====
-- What `mask` and `IpPrefix::contains` compute, stated on leading bits.
use native.Mathlib.Nat.{
  pow-suc, mul-add-mod_self_right, mod-eq_of_lt, div-eq_of_lt, div-mul-le_self,
}
use Prim.Native.Nat.{bit_and}
use sentinel_osint.Common.{
  ℕ, zero, suc, ◌+◌, ◌-◌, ◌*◌, ◌/◌, ◌%◌, ◌^◌, ◌≤◌, ◌<◌, min, true, false, ◌==◌, ◌≡◌, ◌∙◌, refl, sym,
  ap, arith,
}
use sentinel_osint.Common.Bits.{ones, ones-suc, bit_and_high}
use sentinel_osint.Net.{Ipv4Addr, Ipv6Addr, IpAddr, v4, v6, IsIpv4, IsIpv6, IsIp}
use sentinel_osint.Net.Prefix.{
  u32_from, ipv4_from, u128_from, ipv6_from, shl, keep_bits, mask, width, same_family,
}

pow_add : (a b : ℕ) → 2 ^ a * 2 ^ b ≡ 2 ^ (a + b)
pow_add a zero = omega (arith, ap (λ t. 2 ^ t) (let e : a + 0 ≡ a = omega arith in e))
pow_add a (suc b) = omega (
  arith,
  pow_add a b,
  pow-suc 2 b,
  pow-suc 2 (a + b),
  ap (λ t. 2 ^ a * t) (pow-suc 2 b),
  ap (λ t. 2 ^ t) (let e : a + suc b ≡ suc (a + b) = omega arith in e),
)

shl_max_split :
    (len s : ℕ) → (2 ^ (len + s) - 1) * 2 ^ s ≡ (2 ^ s - 1) * 2 ^ (len + s) + ones len * 2 ^ s
shl_max_split len s =
    let low : 2 ^ (len + s) - 1 + 1 ≡ 2 ^ (len + s) = omega (arith, ones-suc (len + s)) in
    let high : 2 ^ s - 1 + 1 ≡ 2 ^ s = omega (arith, ones-suc s) in
    omega (
      arith,
      pow_add len s,
      ap (λ t. t * 2 ^ s) low,
      ap (λ t. t * 2 ^ (len + s)) high,
      ap (λ t. t * 2 ^ s) (ones-suc len),
    )

ones_shift_lt : (len s : ℕ) → ones len * 2 ^ s < 2 ^ (len + s)
ones_shift_lt len s = omega (arith, pow_add len s, ap (λ t. t * 2 ^ s) (ones-suc len), ones-suc s)

-- `u32::MAX << s` is `w - s` ones above `s` zeros.
shl_max : (len s : ℕ) → shl (len + s) (2 ^ (len + s) - 1) s ≡ ones len * 2 ^ s
shl_max len s =
    ap (λ t. t % 2 ^ (len + s)) (shl_max_split len s)
    ∙ mul-add-mod_self_right (2 ^ s - 1) (2 ^ (len + s)) (ones len * 2 ^ s)
    ∙ mod-eq_of_lt (ones_shift_lt len s)

keep_bits_lem :
    (len s bits : ℕ) → bits < 2 ^ (len + s) → keep_bits (len + s) bits len ≡ bits / 2 ^ s * 2 ^ s
unfolding keep_bits
keep_bits_lem zero s bits h =
    let lt : bits < 2 ^ s = omega (arith, ap (λ t. 2 ^ t) (let e : 0 + s ≡ s = omega arith in e)) in
    omega (arith, ap (λ t. t * 2 ^ s) (div-eq_of_lt lt))
keep_bits_lem (suc l) s bits h =
    let len = suc l in
    let shift : len + s - min len (len + s) ≡ s = omega arith in
    let nonzero : (suc l == 0) ≡ false = ground arith in
    rw nonzero (
      ap (λ t. bit_and bits (shl (len + s) (2 ^ (len + s) - 1) t)) shift
      ∙ ap (bit_and bits) (shl_max len s)
      ∙ bit_and_high bits len s (omega (arith, pow_add len s)))

ipv4_round : (ip : Ipv4Addr) → IsIpv4 ip → ipv4_from (u32_from ip) ≡ ip
ipv4_round ip h = ground arith

ipv6_round : (ip : Ipv6Addr) → IsIpv6 ip → ipv6_from (u128_from ip) ≡ ip
ipv6_round ip h = ground arith

u32_round : (n : ℕ) → n < 2 ^ 32 → u32_from (ipv4_from n) ≡ n
u32_round n h = omega arith

u128_round : (n : ℕ) → n < 2 ^ 128 → u128_from (ipv6_from n) ≡ n
u128_round n h = omega arith

-- The address as a number of `width` bits.
abbrev pub to_bits : IpAddr → ℕ
to_bits (v4 ip) = u32_from ip
to_bits (v6 ip) = u128_from ip

to_bits_lt : (ip : IpAddr) → IsIp ip → to_bits ip < 2 ^ width ip
to_bits_lt (v4 ip) h = omega arith
to_bits_lt (v6 ip) h = omega arith

pub same_bits :
    (x y : IpAddr) → IsIp x → IsIp y → same_family x y ≡ true → to_bits x ≡ to_bits y → x ≡ y
same_bits (v4 x) (v4 y) hx hy f e = ap v4 (sym (ipv4_round x hx) ∙ ap ipv4_from e ∙ ipv4_round y hy)
same_bits (v6 x) (v6 y) hx hy f e = ap v6 (sym (ipv6_round x hx) ∙ ap ipv6_from e ∙ ipv6_round y hy)
same_bits (v4 x) (v6 y) hx hy f e = cc
same_bits (v6 x) (v4 y) hx hy f e = cc

-- The bits of an address below its leading `len` ones.
abbrev pub host : IpAddr → ℕ → ℕ
host ip len = width ip - len

keep_mask :
    (w bits len : ℕ)
    → len ≤ w
    → bits < 2 ^ w
    → keep_bits w bits len ≡ bits / 2 ^ (w - len) * 2 ^ (w - len)
keep_mask w bits len le h =
    let e : len + (w - len) ≡ w = omega arith in rw e at (keep_bits_lem len (w - len) bits (rw e h))

keep_lt : (w bits len : ℕ) → len ≤ w → bits < 2 ^ w → keep_bits w bits len < 2 ^ w
keep_lt w bits len le h =
    omega (arith, keep_mask w bits len le h, div-mul-le_self bits (2 ^ (w - len)))

-- The mask clears the host bits and nothing else.
pub to_bits-mask :
    (ip : IpAddr) (len : ℕ)
    → IsIp ip
    → len ≤ width ip
    → to_bits (mask ip len) ≡ to_bits ip / 2 ^ host ip len * 2 ^ host ip len
unfolding mask
to_bits-mask (v4 ip) len h le =
    u32_round _ (keep_lt 32 (u32_from ip) len le (to_bits_lt (v4 ip) h))
    ∙ keep_mask 32 (u32_from ip) len le (to_bits_lt (v4 ip) h)
to_bits-mask (v6 ip) len h le =
    u128_round _ (keep_lt 128 (u128_from ip) len le (to_bits_lt (v6 ip) h))
    ∙ keep_mask 128 (u128_from ip) len le (to_bits_lt (v6 ip) h)

pub mask-IsIp : (ip : IpAddr) (len : ℕ) → IsIp (mask ip len)
unfolding mask
mask-IsIp (v4 ip) len = omega arith
mask-IsIp (v6 ip) len = omega arith

pub same_family-mask : (ip : IpAddr) (len : ℕ) → same_family (mask ip len) ip ≡ true
unfolding mask
same_family-mask (v4 ip) len = refl
same_family-mask (v6 ip) len = refl
