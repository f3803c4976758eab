-- ===== src/Tests/CoreWitnesses.antt =====
-- The theorems on crates/core at concrete inputs.
use sentinel_osint.Common.{
  ◌-◌, ◌*◌, ◌^◌, ◌≤◌, ◌<◌, true, [], ◌∷◌, ◌++◌, map, take, length, leb, if◌then◌else◌, ok, err, ◌≡◌,
  ◌≢◌, ◌↔◌, ◌⊎◌, refl, arith, All, Any, nat_eq,
}
use sentinel_osint.Common.Text.{Text, codes, len}
use sentinel_osint.Net.{
  Ipv4Addr, Ipv6Addr, IpAddr, v4, v6, IsIpv4, IsIpv6, global, classify_v4, classify_v6,
  is_ipv4_mapped,
}
use sentinel_osint.Net.Parser.{parse_ip_addr}
use sentinel_osint.Net.Prefix.{
  IpPrefix, new, same_family, mask, width, length as bad_length, host_bits,
}
use sentinel_osint.Net.Prefix
use sentinel_osint.Net.Prefix.Matching.{IsPrefix, leading, contains_iff, new_cases, new-mask}
use sentinel_osint.Net.Prefix.Masks.{host, to_bits}
use sentinel_osint.Net.Scopes.{scope_by_prefix, special_prefixes, classify_v4-eq-scope_by_prefix}
use sentinel_osint.Net.Embedded.{
  mapped, nat64, six_to_four, EmbeddedGlobal, GlobalForms, classify_v6-eq-global_iff,
}
use sentinel_osint.Sanitize.{sanitize_single_line, clean, ellipsis}
use sentinel_osint.Sanitize.Laws.{IsSafe, sanitize_single_line-eq, sanitize_single_line-IsSafe}
use sentinel_osint.Indicator.Defs.{DomainName, FileHash, md5, domain_type, non_public_address}
use sentinel_osint.Indicator.Domain.{
  is_special_use, is_subdomain_of, special_use_suffixes, validate_ascii, strip_root,
  without_brackets,
}
use sentinel_osint.Indicator.Domain
use sentinel_osint.Indicator.Domain.Labels.{IsDomainName, validate_ascii-eq-ok}
use sentinel_osint.Indicator.Domain.Subdomains.{EndsIn, is_special_use_iff, is_subdomain_of_iff}
use sentinel_osint.Indicator.Hash
use sentinel_osint.Indicator.Hash.Laws.{IsFileHash, parse-IsFileHash, parse-hex}
use sentinel_osint.Indicator.Policy
use sentinel_osint.Indicator.Refang.{refang}
use sentinel_osint.Indicator.Policy.{
  Indicator, domain, ipv4, ipv6, ensure_investigable, parse, indicator_type,
}
use sentinel_osint.Indicator.Investigable.{
  IsPublic, IsWellFormed, ensure_investigable-eq-ok, ensure_investigable_embedded, parse_sound,
}
use sentinel_osint.Tests.Samples.{sample_crates, example_name, example_target}

abbrev home : Ipv4Addr
home = record { a = 192; b = 168; c = 1; d = 1 }

home-IsIpv4 : IsIpv4 home
home-IsIpv4 = record {
  a_byte = omega arith;
  b_byte = omega arith;
  c_byte = omega arith;
  d_byte = omega arith;
}

ensure_investigable-eq-ok_example :
    (ensure_investigable sample_crates (ipv4 home) ≡ ok tt) ↔ IsPublic sample_crates (ipv4 home)
ensure_investigable-eq-ok_example = ensure_investigable-eq-ok sample_crates (ipv4 home)

classify_v4-eq-scope_by_prefix_example :
    classify_v4 home ≡ scope_by_prefix special_prefixes (v4 home)
classify_v4-eq-scope_by_prefix_example = classify_v4-eq-scope_by_prefix home home-IsIpv4

abbrev any_rest : Ipv6Addr
any_rest = record { s0 = 1; s1 = 2; s2 = 3; s3 = 4; s4 = 5; s5 = 6; s6 = 7; s7 = 8 }

home_private : classify_v4 home ≢ global
unfolding classify_v4
home_private = λ e. cc

ensure_investigable_embedded_example :
    (ensure_investigable sample_crates (ipv4 home)
      ≡ err (non_public_address (v4 home) (classify_v4 home)))
    × (ensure_investigable sample_crates (ipv6 (mapped home))
        ≡ err (non_public_address (v6 (mapped home)) (classify_v4 home)))
    × (ensure_investigable sample_crates (ipv6 (nat64 home))
        ≡ err (non_public_address (v6 (nat64 home)) (classify_v4 home)))
    × (ensure_investigable sample_crates (ipv6 (six_to_four home any_rest))
        ≡ err (non_public_address (v6 (six_to_four home any_rest)) (classify_v4 home)))
ensure_investigable_embedded_example =
    ensure_investigable_embedded sample_crates home any_rest home-IsIpv4 home_private

any_rest-IsIpv6 : IsIpv6 any_rest
any_rest-IsIpv6 = record {
  word0 = omega arith;
  word1 = omega arith;
  word2 = omega arith;
  word3 = omega arith;
  word4 = omega arith;
  word5 = omega arith;
  word6 = omega arith;
  word7 = omega arith;
}

classify_v6-eq-global_iff_example : (classify_v6 any_rest ≡ global) ↔ (
    ((is_ipv4_mapped any_rest ≡ true) × EmbeddedGlobal any_rest.s6 any_rest.s7)
    ⊎ GlobalForms any_rest)
classify_v6-eq-global_iff_example = classify_v6-eq-global_iff any_rest any_rest-IsIpv6

validate_ascii-eq-ok_example :
    (validate_ascii (codes "a.dev") ≡ ok tt) ↔ IsDomainName (codes "a.dev")
validate_ascii-eq-ok_example = validate_ascii-eq-ok (codes "a.dev")

is_special_use_iff_example :
    (is_special_use example_name ≡ true) ↔ Any (EndsIn example_name.name) special_use_suffixes
is_special_use_iff_example = is_special_use_iff example_name

abbrev short_name : DomainName
short_name = record { name = codes "dev" }

is_subdomain_of_iff_example :
    (is_subdomain_of example_name short_name ≡ true)
    ↔ ((front : Text) × (front ≢ []) × (example_name.name ≡ front ++ b'.' ∷ short_name.name))
is_subdomain_of_iff_example = is_subdomain_of_iff example_name short_name

abbrev home_network : IpAddr
home_network = v4 (record { a = 192; b = 168; c = 0; d = 0 })

abbrev home_prefix : IpPrefix
home_prefix = record { network = home_network; len = 16 }

home_prefix-IsPrefix : IsPrefix home_prefix
unfolding mask
home_prefix-IsPrefix = record {
  network_ip = record {
    a_byte = omega arith;
    b_byte = omega arith;
    c_byte = omega arith;
    d_byte = omega arith;
  };
  len_fits = omega arith;
  masked = refl;
}

contains_iff_example : (Prefix.contains home_prefix (v4 home) ≡ true) ↔ (
    (same_family home_network (v4 home) ≡ true) × (leading (v4 home) 16 ≡ leading home_network 16))
contains_iff_example = contains_iff home_prefix (v4 home) home_prefix-IsPrefix home-IsIpv4

new_cases_example :
    ((new (v4 home) 16 ≡ ok (record { network = v4 home; len = 16 })) ↔ (
      (16 ≤ width (v4 home)) × (to_bits (v4 home) ≡ leading (v4 home) 16 * 2 ^ host (v4 home) 16)))
    × ((new (v4 home) 16 ≡ err bad_length) ↔ (width (v4 home) < 16))
    × ((new (v4 home) 16 ≡ err host_bits) ↔ (
        (16 ≤ width (v4 home))
        × (to_bits (v4 home) ≢ leading (v4 home) 16 * 2 ^ host (v4 home) 16)))
new_cases_example = new_cases (v4 home) 16 home-IsIpv4

new-mask_example :
    (new (mask (v4 home) 16) 16 ≡ ok (record { network = mask (v4 home) 16; len = 16 }))
    × (Prefix.contains (record { network = mask (v4 home) 16; len = 16 }) (v4 home) ≡ true)
new-mask_example = new-mask (v4 home) 16 home-IsIpv4 (omega arith)

parsed_target : parse sample_crates domain_type (codes " a[.]dev ") ≡ ok example_target
unfolding parse Policy.parse_domain Policy.prepare Domain.parse validate_ascii parse_ip_addr refang
parsed_target = refl

parse_sound_example :
    (indicator_type sample_crates example_target ≡ domain_type)
    × IsWellFormed sample_crates example_target
    × (len (codes " a[.]dev ") < 2049)
parse_sound_example =
    parse_sound sample_crates domain_type (codes " a[.]dev ") example_target parsed_target

sanitize_single_line-eq_example : sanitize_single_line (codes "a long text") 6 ≡ (
    if leb (length (codes "a long text")) 6
    then map clean (codes "a long text")
    else map clean (take (6 - 1) (codes "a long text")) ++ ellipsis ∷ [])
sanitize_single_line-eq_example = sanitize_single_line-eq (codes "a long text") 6 (omega arith)

sanitize_single_line-IsSafe_example :
    All IsSafe (sanitize_single_line (27 ∷ 8238 ∷ []) 6)
    × (length (sanitize_single_line (27 ∷ 8238 ∷ []) 6) ≤ 6)
sanitize_single_line-IsSafe_example = sanitize_single_line-IsSafe (27 ∷ 8238 ∷ []) 6

abbrev empty_md5 : FileHash
empty_md5 = record { algorithm = md5; hex = codes "d41d8cd98f00b204e9800998ecf8427e" }

parsed_md5 : Hash.parse (codes "D41D8CD98F00B204E9800998ECF8427E") ≡ ok empty_md5
unfolding Hash.parse
parsed_md5 = refl

parse-IsFileHash_example : IsFileHash empty_md5
parse-IsFileHash_example =
    parse-IsFileHash (codes "D41D8CD98F00B204E9800998ECF8427E") empty_md5 parsed_md5

empty_md5-IsFileHash : IsFileHash empty_md5
empty_md5-IsFileHash =
    parse-IsFileHash (codes "D41D8CD98F00B204E9800998ECF8427E") empty_md5 parsed_md5

parse-hex_example : Hash.parse empty_md5.hex ≡ ok empty_md5
parse-hex_example = parse-hex empty_md5 empty_md5-IsFileHash
