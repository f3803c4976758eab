-- ===== src/Net/Scopes.antt =====
-- The IPv4 classification against the table of special-purpose prefixes of its RFCs.
use sentinel_osint.Common.{
  ℕ, Bool, true, ◌&&◌, ◌||◌, ◌==◌, within, if◌then◌else◌, List, [], ◌∷◌, ◌≡◌, ◌↔◌, refl, arith,
}
use sentinel_osint.Net.{
  Ipv4Addr, IpAddr, v4, IsIpv4, AddressScope, global, unspecified, loopback, private,
  shared_address_space, link_local, documentation, benchmarking, multicast, broadcast, reserved,
  classify_v4,
}
use sentinel_osint.Net.Prefix.{mask, IpPrefix, contains}
use sentinel_osint.Net.Prefix.Matching.{IsPrefix, leading, contains_iff}

abbrev pub octet_prefix : ℕ → ℕ → ℕ → ℕ → ℕ → IpPrefix
octet_prefix a b c d len = record {
  network = v4 (record { a = a; b = b; c = c; d = d });
  len = len;
}

-- RFC 1122, 8190, 6890, 7526, 1918, 6598, 3927, 5737, 2544, 5771 and 1112.
abbrev pub special_prefixes : List (IpPrefix × AddressScope)
special_prefixes =
    (octet_prefix 0 0 0 0 32, unspecified)
    ∷ (octet_prefix 255 255 255 255 32, broadcast)
    ∷ (octet_prefix 0 0 0 0 8, reserved)
    ∷ (octet_prefix 192 0 0 0 24, reserved)
    ∷ (octet_prefix 192 88 99 0 24, reserved)
    ∷ (octet_prefix 10 0 0 0 8, private)
    ∷ (octet_prefix 192 168 0 0 16, private)
    ∷ (octet_prefix 172 16 0 0 12, private)
    ∷ (octet_prefix 100 64 0 0 10, shared_address_space)
    ∷ (octet_prefix 127 0 0 0 8, loopback)
    ∷ (octet_prefix 169 254 0 0 16, link_local)
    ∷ (octet_prefix 192 0 2 0 24, documentation)
    ∷ (octet_prefix 198 51 100 0 24, documentation)
    ∷ (octet_prefix 203 0 113 0 24, documentation)
    ∷ (octet_prefix 198 18 0 0 15, benchmarking)
    ∷ (octet_prefix 224 0 0 0 4, multicast)
    ∷ (octet_prefix 240 0 0 0 4, reserved)
    ∷ []

-- The scope of the first prefix of a table that contains the address, and global if none does.
abbrev pub scope_by_prefix : List (IpPrefix × AddressScope) → IpAddr → AddressScope
scope_by_prefix [] ip = global
scope_by_prefix ((p, scope) ∷ table) ip = if contains p ip then scope else scope_by_prefix table ip

eq_of_iff : (x y : Bool) → (x ≡ true) ↔ (y ≡ true) → x ≡ y
eq_of_iff x y h = ground arith

if_or :
    (x y : Bool) (r z : AddressScope)
    → (if x || y then r else z) ≡ (if x then r else if y then r else z)
if_or x y r z = ground arith

module _ (ip : Ipv4Addr) (h : IsIpv4 ip) where
  in_octets :
      (a b c d len : ℕ) (test : Bool)
      → IsPrefix (octet_prefix a b c d len)
      → (leading (v4 ip) len ≡ leading (octet_prefix a b c d len).network len) ↔ (test ≡ true)
      → contains (octet_prefix a b c d len) (v4 ip) ≡ test
  in_octets a b c d len test valid t =
      let m = contains_iff (octet_prefix a b c d len) (v4 ip) valid h in
      eq_of_iff _ test ((λ e. t.0 (m.0 e).1), λ e. m.1 (refl, t.1 e))

  in_zero :
      contains (octet_prefix 0 0 0 0 32) (v4 ip)
      ≡ (ip.a == 0 && ip.b == 0 && ip.c == 0 && ip.d == 0)
  unfolding mask
  in_zero =
      in_octets 0 0 0 0 32 _
        (record { network_ip = omega arith; len_fits = omega arith; masked = refl }) (ground arith)

  in_broadcast :
      contains (octet_prefix 255 255 255 255 32) (v4 ip)
      ≡ (ip.a == 255 && ip.b == 255 && ip.c == 255 && ip.d == 255)
  unfolding mask
  in_broadcast =
      in_octets 255 255 255 255 32 _
        (record { network_ip = omega arith; len_fits = omega arith; masked = refl }) (ground arith)

  in_this_network : contains (octet_prefix 0 0 0 0 8) (v4 ip) ≡ (ip.a == 0)
  unfolding mask
  in_this_network =
      in_octets 0 0 0 0 8 _
        (record { network_ip = omega arith; len_fits = omega arith; masked = refl }) (ground arith)

  in_protocol_assignments :
      contains (octet_prefix 192 0 0 0 24) (v4 ip) ≡ (ip.a == 192 && ip.b == 0 && ip.c == 0)
  unfolding mask
  in_protocol_assignments =
      in_octets 192 0 0 0 24 _
        (record { network_ip = omega arith; len_fits = omega arith; masked = refl }) (ground arith)

  in_relay_anycast :
      contains (octet_prefix 192 88 99 0 24) (v4 ip) ≡ (ip.a == 192 && ip.b == 88 && ip.c == 99)
  unfolding mask
  in_relay_anycast =
      in_octets 192 88 99 0 24 _
        (record { network_ip = omega arith; len_fits = omega arith; masked = refl }) (ground arith)

  in_private_ten : contains (octet_prefix 10 0 0 0 8) (v4 ip) ≡ (ip.a == 10)
  unfolding mask
  in_private_ten =
      in_octets 10 0 0 0 8 _
        (record { network_ip = omega arith; len_fits = omega arith; masked = refl }) (ground arith)

  in_private_home : contains (octet_prefix 192 168 0 0 16) (v4 ip) ≡ (ip.a == 192 && ip.b == 168)
  unfolding mask
  in_private_home =
      in_octets 192 168 0 0 16 _
        (record { network_ip = omega arith; len_fits = omega arith; masked = refl }) (ground arith)

  in_private_twelve :
      contains (octet_prefix 172 16 0 0 12) (v4 ip) ≡ (ip.a == 172 && within 16 31 ip.b)
  unfolding mask
  in_private_twelve =
      in_octets 172 16 0 0 12 _
        (record { network_ip = omega arith; len_fits = omega arith; masked = refl }) (ground arith)

  in_shared : contains (octet_prefix 100 64 0 0 10) (v4 ip) ≡ (ip.a == 100 && within 64 127 ip.b)
  unfolding mask
  in_shared =
      in_octets 100 64 0 0 10 _
        (record { network_ip = omega arith; len_fits = omega arith; masked = refl }) (ground arith)

  in_loopback : contains (octet_prefix 127 0 0 0 8) (v4 ip) ≡ (ip.a == 127)
  unfolding mask
  in_loopback =
      in_octets 127 0 0 0 8 _
        (record { network_ip = omega arith; len_fits = omega arith; masked = refl }) (ground arith)

  in_link_local : contains (octet_prefix 169 254 0 0 16) (v4 ip) ≡ (ip.a == 169 && ip.b == 254)
  unfolding mask
  in_link_local =
      in_octets 169 254 0 0 16 _
        (record { network_ip = omega arith; len_fits = omega arith; masked = refl }) (ground arith)

  in_test_net_one :
      contains (octet_prefix 192 0 2 0 24) (v4 ip) ≡ (ip.a == 192 && ip.b == 0 && ip.c == 2)
  unfolding mask
  in_test_net_one =
      in_octets 192 0 2 0 24 _
        (record { network_ip = omega arith; len_fits = omega arith; masked = refl }) (ground arith)

  in_test_net_two :
      contains (octet_prefix 198 51 100 0 24) (v4 ip) ≡ (ip.a == 198 && ip.b == 51 && ip.c == 100)
  unfolding mask
  in_test_net_two =
      in_octets 198 51 100 0 24 _
        (record { network_ip = omega arith; len_fits = omega arith; masked = refl }) (ground arith)

  in_test_net_three :
      contains (octet_prefix 203 0 113 0 24) (v4 ip) ≡ (ip.a == 203 && ip.b == 0 && ip.c == 113)
  unfolding mask
  in_test_net_three =
      in_octets 203 0 113 0 24 _
        (record { network_ip = omega arith; len_fits = omega arith; masked = refl }) (ground arith)

  in_benchmarking :
      contains (octet_prefix 198 18 0 0 15) (v4 ip) ≡ (ip.a == 198 && (ip.b == 18 || ip.b == 19))
  unfolding mask
  in_benchmarking =
      in_octets 198 18 0 0 15 _
        (record { network_ip = omega arith; len_fits = omega arith; masked = refl }) (ground arith)

  in_multicast : contains (octet_prefix 224 0 0 0 4) (v4 ip) ≡ (within 224 239 ip.a)
  unfolding mask
  in_multicast =
      in_octets 224 0 0 0 4 _
        (record { network_ip = omega arith; len_fits = omega arith; masked = refl }) (ground arith)

  in_class_e : contains (octet_prefix 240 0 0 0 4) (v4 ip) ≡ (within 240 255 ip.a)
  unfolding mask
  in_class_e =
      in_octets 240 0 0 0 4 _
        (record { network_ip = omega arith; len_fits = omega arith; masked = refl }) (ground arith)

  -- For an address of four octets, `classify_v4` is the scope of the first special-purpose prefix
  -- that contains it by mask arithmetic, and global exactly when none does.
  pub classify_v4-eq-scope_by_prefix : classify_v4 ip ≡ scope_by_prefix special_prefixes (v4 ip)
  unfolding classify_v4
  classify_v4-eq-scope_by_prefix =
      rw
        (
          in_zero, in_broadcast, in_this_network, in_protocol_assignments, in_relay_anycast,
          in_private_ten, in_private_home, in_private_twelve, in_shared, in_loopback, in_link_local,
          in_test_net_one, in_test_net_two, in_test_net_three, in_benchmarking, in_multicast,
          in_class_e,
        )
        (simp if_or)
