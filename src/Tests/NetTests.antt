-- ===== src/Tests/NetTests.antt =====
-- crates/core/src/net.rs at the inputs of its unit tests.
use sentinel_osint.Common.{ok, err, some, none, ◌≡◌, refl}
use sentinel_osint.Common.Text.{codes}
use sentinel_osint.Net.{
  v4, v6, classify, classify_v6, classify_first, classify_segments, classify_ranges,
}
use sentinel_osint.Net.Prefix.{new, contains, mask, syntax, address, length, host_bits}
use sentinel_osint.Net.Parser.{parse_ip_addr, parse_prefix}

unfolded : Unit {0}
unfolding classify classify_v6 classify_first classify_segments classify_ranges new contains mask
    parse_ip_addr parse_prefix
unfolded = tt

octets : parse_ip_addr (codes "8.8.4.10") ≡ some (v4 (record { a = 8; b = 8; c = 4; d = 10 }))
unfolding unfolded
octets = refl

segments :
    parse_ip_addr (codes "2001:db8::ffff:1.2.3.4")
    ≡ some (
        v6 (record {
          s0 = 0x2001;
          s1 = 0xdb8;
          s2 = 0;
          s3 = 0;
          s4 = 0;
          s5 = 0xffff;
          s6 = 0x102;
          s7 = 0x304;
        }))
unfolding unfolded
segments = refl

refused :
    (parse_ip_addr (codes "010.0.0.1") ≡ none)
    × (parse_ip_addr (codes "1.2.3") ≡ none)
    × (parse_ip_addr (codes "256.1.1.1") ≡ none)
    × (parse_ip_addr (codes "fe80::1%eth0") ≡ none)
    × (parse_ip_addr (codes "::1::2") ≡ none)
unfolding unfolded
refused = (refl, refl, refl, refl, refl)

prefixes :
    (parse_prefix (codes "8.8.8.0") ≡ err syntax)
    × (parse_prefix (codes "8.8.8/24") ≡ err address)
    × (parse_prefix (codes "8.8.8.0/33") ≡ err length)
    × (parse_prefix (codes "8.8.8.0/+24") ≡ err length)
    × (parse_prefix (codes "::/129") ≡ err length)
    × (parse_prefix (codes "8.8.8.1/24") ≡ err host_bits)
    × (parse_prefix (codes "2001:db8::1/64") ≡ err host_bits)
    × (parse_prefix (codes " 8.8.8.0/24 ")
        ≡ ok (record { network = v4 (record { a = 8; b = 8; c = 8; d = 0 }); len = 24 }))
unfolding unfolded
prefixes = (refl, refl, refl, refl, refl, refl, refl, refl)
