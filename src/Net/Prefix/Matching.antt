-- ===== src/Net/Prefix/Matching.antt =====
-- `IpPrefix::new` and `IpPrefix::contains` against their meaning on leading bits.
use native.Mathlib.Nat.{mul-div_cancel}
use sentinel_osint.Common.{
  ℕ, ◌*◌, ◌/◌, ◌^◌, ◌≤◌, ◌<◌, true, ok, err, ◌≡◌, ◌≢◌, ◌↔◌, ◌∙◌, refl, sym, ap, arith, Bool-cases,
  inl, inr,
}
use sentinel_osint.Common.Bits.{ones-suc}
use sentinel_osint.Net.{IpAddr, v4, v6, IsIp, ip_beq, ip_beq_iff}
use sentinel_osint.Net.Prefix.{mask, IpPrefix, length, host_bits, width, new, contains, same_family}
use sentinel_osint.Net.Prefix.Masks.{
  to_bits, host, to_bits-mask, mask-IsIp, same_bits, same_family-mask,
}

-- The leading `len` bits of an address.
abbrev pub leading : IpAddr → ℕ → ℕ
leading ip len = to_bits ip / 2 ^ host ip len

-- A prefix that `new` can return.
pub record IsPrefix (p : IpPrefix) : Type 0 where
  pub network_ip : IsIp p.network
  pub len_fits : p.len ≤ width p.network
  pub masked : mask p.network p.len ≡ p.network

same_width : (x y : IpAddr) → same_family x y ≡ true → width x ≡ width y
same_width (v4 x) (v4 y) h = refl
same_width (v6 x) (v6 y) h = refl
same_width (v4 x) (v6 y) h = cc
same_width (v6 x) (v4 y) h = cc

family_trans :
    (x y z : IpAddr) → same_family x y ≡ true → same_family y z ≡ true → same_family x z ≡ true
family_trans (v4 x) (v4 y) (v4 z) h k = refl
family_trans (v6 x) (v6 y) (v6 z) h k = refl
family_trans (v4 x) (v4 y) (v6 z) h k = cc
family_trans (v6 x) (v6 y) (v4 z) h k = cc
family_trans (v4 x) (v6 y) z h k = cc
family_trans (v6 x) (v4 y) z h k = cc

family_sym : (x y : IpAddr) → same_family x y ≡ true → same_family y x ≡ true
family_sym (v4 x) (v4 y) h = refl
family_sym (v6 x) (v6 y) h = refl
family_sym (v4 x) (v6 y) h = cc
family_sym (v6 x) (v4 y) h = cc

multiple_div : (x k : ℕ) → x / 2 ^ k * 2 ^ k / 2 ^ k ≡ x / 2 ^ k
multiple_div x k = mul-div_cancel (x / 2 ^ k) (omega (arith, ones-suc k))

leading-mask :
    (ip : IpAddr) (len : ℕ)
    → IsIp ip
    → len ≤ width ip
    → to_bits (mask ip len) / 2 ^ host ip len ≡ leading ip len
leading-mask ip len h le =
    ap (λ t. t / 2 ^ host ip len) (to_bits-mask ip len h le)
    ∙ multiple_div (to_bits ip) (host ip len)

-- Two addresses of one family have the same mask exactly when their leading bits agree.
mask-eq_iff :
    (x y : IpAddr) (len : ℕ)
    → IsIp x
    → IsIp y
    → same_family x y ≡ true
    → len ≤ width x
    → (mask x len ≡ mask y len) ↔ (leading x len ≡ leading y len)
mask-eq_iff x y len hx hy f le =
    let w = same_width x y f in
    let le' : len ≤ width y = omega arith in
    let k : host x len ≡ host y len = omega arith in
    let to : mask x len ≡ mask y len → leading x len ≡ leading y len = λ e.
      sym (leading-mask x len hx le)
      ∙ ap (λ t. to_bits t / 2 ^ host x len) e
      ∙ ap (λ t. to_bits (mask y len) / 2 ^ t) k
      ∙ leading-mask y len hy le' in
    let from : leading x len ≡ leading y len → mask x len ≡ mask y len = λ e.
      same_bits (mask x len) (mask y len) (mask-IsIp x len) (mask-IsIp y len)
        (family_trans (mask x len) x (mask y len) (same_family-mask x len)
          (family_trans x y (mask y len) f (family_sym (mask y len) y (same_family-mask y len))))
        (to_bits-mask x len hx le
          ∙ ap (λ t. t * 2 ^ host x len) e
          ∙ ap (λ t. leading y len * 2 ^ t) k
          ∙ sym (to_bits-mask y len hy le')) in
    (to, from)

mask-eq_self_iff :
    (ip : IpAddr) (len : ℕ)
    → IsIp ip
    → len ≤ width ip
    → (mask ip len ≡ ip) ↔ (to_bits ip ≡ leading ip len * 2 ^ host ip len)
mask-eq_self_iff ip len h le = (
  λ e. ap to_bits (sym e) ∙ to_bits-mask ip len h le,
  λ e.
      same_bits (mask ip len) ip (mask-IsIp ip len) h (same_family-mask ip len)
        (to_bits-mask ip len h le ∙ sym e),
)

matches_network_iff :
    (p : IpPrefix) (ip : IpAddr)
    → IsPrefix p
    → IsIp ip
    → same_family p.network ip ≡ true
    → (ip_beq (mask ip p.len) p.network ≡ true) ↔ (leading ip p.len ≡ leading p.network p.len)
matches_network_iff p ip h k f =
    let f' = family_sym p.network ip f in
    let w = same_width p.network ip f in
    let both = mask-eq_iff ip p.network p.len k h.network_ip f' (omega (arith, h.len_fits)) in
    let beq = ip_beq_iff (mask ip p.len) p.network in
    (λ e. both.0 (beq.0 e ∙ sym h.masked), λ e. beq.1 (both.1 e ∙ h.masked))

-- A well-formed prefix contains an address exactly when both are of one family and the leading `len` bits of
-- the address are those of the network.
pub contains_iff :
    (p : IpPrefix) (ip : IpAddr)
    → IsPrefix p
    → IsIp ip
    → (contains p ip ≡ true)
      ↔ ((same_family p.network ip ≡ true) × (leading ip p.len ≡ leading p.network p.len))
unfolding contains
contains_iff p ip h k = elim (Bool-cases (same_family p.network ip)) [
  | inl f ↦ rw f (ground (arith, matches_network_iff p ip h k f))
  | inr f ↦ rw f (ground arith)
]

-- `new` accepts an address exactly when the length fits the family and no host bit is set;
-- a length that does not fit is refused first.
pub new_cases :
    (network : IpAddr) (len : ℕ)
    → IsIp network
    → ((new network len ≡ ok (record { network = network; len = len }))
        ↔ ((len ≤ width network) × (to_bits network ≡ leading network len * 2 ^ host network len)))
      × ((new network len ≡ err length) ↔ (width network < len))
      × ((new network len ≡ err host_bits) ↔ (
          (len ≤ width network) × (to_bits network ≢ leading network len * 2 ^ host network len)))
unfolding new
new_cases network len h =
    ground (arith, ip_beq_iff (mask network len) network, mask-eq_self_iff network len h)

masked_bits :
    (ip : IpAddr) (len : ℕ)
    → IsIp ip
    → len ≤ width ip
    → leading (mask ip len) len * 2 ^ host (mask ip len) len ≡ leading ip len * 2 ^ host ip len
masked_bits ip len h le =
    let w = same_width (mask ip len) ip (same_family-mask ip len) in
    let k : host (mask ip len) len ≡ host ip len = omega arith in
    ap (λ t. to_bits (mask ip len) / 2 ^ t * 2 ^ t) k
    ∙ ap (λ t. t * 2 ^ host ip len) (leading-mask ip len h le)

-- Masking an address to a length that fits its family gives a network that `new` accepts, and the prefix contains the address.
pub new-mask :
    (ip : IpAddr) (len : ℕ)
    → IsIp ip
    → len ≤ width ip
    → (new (mask ip len) len ≡ ok (record { network = mask ip len; len = len }))
      × (contains (record { network = mask ip len; len = len }) ip ≡ true)
unfolding new contains
new-mask ip len h le =
    let family = same_family-mask ip len in
    let w = same_width (mask ip len) ip family in
    let le' : len ≤ width (mask ip len) = omega arith in
    let masked =
      (mask-eq_self_iff (mask ip len) len (mask-IsIp ip len) le').1
        (to_bits-mask ip len h le ∙ sym (masked_bits ip len h le)) in
    ground (
      arith,
      ip_beq_iff (mask (mask ip len) len) (mask ip len),
      ip_beq_iff (mask ip len) (mask ip len),
    )
