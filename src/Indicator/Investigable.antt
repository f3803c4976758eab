-- ===== src/Indicator/Investigable.antt =====
-- What the indicator parsers and `ensure_investigable` guarantee together.
use sentinel_osint.Common.{
  ◌<◌, true, false, Option, none, some, ltb, if◌then◌else◌, Result, ok, err, >>=-eq-ok, ◌≡◌, ◌≢◌,
  ◌↔◌, refl, sym, ap, ◌∙◌, subst, arith, Bool-cases, inl, inr,
}
use sentinel_osint.Common.Text.{Text, len}
use sentinel_osint.Net.{
  Ipv4Addr, Ipv6Addr, IpAddr, v4, v6, IsIpv4, IsIpv6, IsIp, AddressScope, global, classify,
  classify_v4, classify_v6, is_global_scope,
}
use sentinel_osint.Net.Parser.{parse_ip_addr}
use sentinel_osint.Net.Parser.Bounds.{parse_ip_addr-IsIp}
use sentinel_osint.Net.Embedded.{mapped, nat64, six_to_four, classify_v6_embedded}
use sentinel_osint.Indicator.Defs.{
  DomainName, IndicatorType, domain_type, ipv4_type, ipv6_type, url_type, file_hash_type,
  IndicatorError, non_public_address, Crates, type_mismatch,
}
use sentinel_osint.Indicator.Domain.{is_special_use}
use sentinel_osint.Indicator.Domain
use sentinel_osint.Indicator.Domain.Labels.{IsDomainName, parse-IsDomainName}
use sentinel_osint.Indicator.Hash
use sentinel_osint.Indicator.Hash.Laws.{IsFileHash, parse-IsFileHash}
use sentinel_osint.Indicator.Url.{HttpUrl, UrlHost}
use sentinel_osint.Indicator.Url.Laws.{IsHttpUrl, parse-IsHttpUrl}
use sentinel_osint.Indicator.Url
use sentinel_osint.Indicator.Policy.{
  max_input_length, type_beq, prepare, ensure_public_ip, ensure_public_domain, Indicator, domain,
  ipv4, ipv6, url, file_hash, indicator_type, parse_domain, parse_ip, parse_url, parse_file_hash,
  parser_of, parse, ensure_investigable, from_ip, ensure_public_host, unbracketed, ip_or_invalid,
}

scope_cases : (s : AddressScope) → (is_global_scope s ≡ true) ↔ (s ≡ global)
scope_cases s = ground arith

ensure_public_ip-eq-ok : (ip : IpAddr) → (ensure_public_ip ip ≡ ok tt) ↔ (classify ip ≡ global)
unfolding ensure_public_ip
ensure_public_ip-eq-ok ip = ground (arith, scope_cases (classify ip))

ensure_public_domain-eq-ok :
    (d : DomainName) → (ensure_public_domain d ≡ ok tt) ↔ (is_special_use d ≡ false)
unfolding ensure_public_domain
ensure_public_domain-eq-ok d = ground arith

refuse :
    (ip : IpAddr) (s : AddressScope)
    → classify ip ≡ s
    → s ≢ global
    → ensure_public_ip ip ≡ err (non_public_address ip s)
unfolding ensure_public_ip
refuse ip s e ne = ground (arith, scope_cases s)

-- An IPv4 address that is not global is refused with its scope, plain and in its IPv4-mapped, NAT64 and
-- 6to4 forms.
pub ensure_investigable_embedded :
    (lib : Crates) (ip : Ipv4Addr) (rest : Ipv6Addr)
    → IsIpv4 ip
    → classify_v4 ip ≢ global
    → (ensure_investigable lib (ipv4 ip) ≡ err (non_public_address (v4 ip) (classify_v4 ip)))
      × (ensure_investigable lib (ipv6 (mapped ip))
          ≡ err (non_public_address (v6 (mapped ip)) (classify_v4 ip)))
      × (ensure_investigable lib (ipv6 (nat64 ip))
          ≡ err (non_public_address (v6 (nat64 ip)) (classify_v4 ip)))
      × (ensure_investigable lib (ipv6 (six_to_four ip rest))
          ≡ err (non_public_address (v6 (six_to_four ip rest)) (classify_v4 ip)))
unfolding ensure_investigable classify
ensure_investigable_embedded lib ip rest h ne =
    let (as_mapped, as_nat64, as_6to4) = classify_v6_embedded ip rest h in
    (
      refuse (v4 ip) (classify_v4 ip) refl ne,
      refuse (v6 (mapped ip)) (classify_v4 ip) as_mapped ne,
      refuse (v6 (nat64 ip)) (classify_v4 ip) as_nat64 ne,
      refuse (v6 (six_to_four ip rest)) (classify_v4 ip) as_6to4 ne,
    )

-- What it means for an indicator of each type to be public.
module _ (lib : Crates) where
  abbrev pub PublicHost : Option UrlHost → Type 0
  PublicHost none = ⊥
  PublicHost (some (UrlHost.name d)) = is_special_use d ≡ false
  PublicHost (some (UrlHost.ip ip)) = classify ip ≡ global

  abbrev pub IsPublic : Indicator lib → Type 0
  IsPublic (domain d) = is_special_use d ≡ false
  IsPublic (ipv4 ip) = classify_v4 ip ≡ global
  IsPublic (ipv6 ip) = classify_v6 ip ≡ global
  IsPublic (url u) = PublicHost (Url.host lib u)
  IsPublic (file_hash h) = Unit

  ensure_public_host-eq-ok :
      (o : Option UrlHost) → (ensure_public_host lib o ≡ ok tt) ↔ PublicHost o
  ensure_public_host-eq-ok none = (λ e. cc, λ e. elim e [ ])
  ensure_public_host-eq-ok (some (UrlHost.name d)) = ensure_public_domain-eq-ok d
  ensure_public_host-eq-ok (some (UrlHost.ip ip)) = ensure_public_ip-eq-ok ip

  -- An indicator may be investigated exactly when it is a hash, a global address, a name of no
  -- special use, or a URL whose host is one of the latter two.
  pub ensure_investigable-eq-ok :
      (i : Indicator lib) → (ensure_investigable lib i ≡ ok tt) ↔ IsPublic i
  unfolding ensure_investigable classify
  ensure_investigable-eq-ok (domain d) = ensure_public_domain-eq-ok d
  ensure_investigable-eq-ok (ipv4 ip) = ensure_public_ip-eq-ok (v4 ip)
  ensure_investigable-eq-ok (ipv6 ip) = ensure_public_ip-eq-ok (v6 ip)
  ensure_investigable-eq-ok (url u) = ensure_public_host-eq-ok (Url.host lib u)
  ensure_investigable-eq-ok (file_hash h) = (λ e. tt, λ e. refl)

  -- Well-formed contents, as the parsers leave them.
  abbrev pub IsWellFormed : Indicator lib → Type 0
  IsWellFormed (domain d) = IsDomainName d.name
  IsWellFormed (ipv4 ip) = IsIpv4 ip
  IsWellFormed (ipv6 ip) = IsIpv6 ip
  IsWellFormed (url u) = IsHttpUrl lib u
  IsWellFormed (file_hash h) = IsFileHash h

  prepare-le : (input prepared : Text) → prepare input ≡ ok prepared → len input < 2049
  unfolding prepare
  prepare-le input prepared e = elim (Bool-cases (ltb max_input_length (len input))) [
    | inl y ↦ absurd (ground (arith, y))
    | inr n ↦ ground (arith, n)
  ]

  parse_domain_sound :
      (input : Text) (i : Indicator lib)
      → parse_domain lib input ≡ ok i
      → IsWellFormed i × (len input < 2049)
  unfolding parse_domain
  parse_domain_sound input i e =
      let (prepared, p, e') = >>=-eq-ok (prepare input) _ e in
      let (d, q, e'') = >>=-eq-ok (Domain.parse lib prepared) _ e' in
      let same : domain d ≡ i = ground arith in
      (subst IsWellFormed same (parse-IsDomainName lib prepared d q).0, prepare-le input prepared p)

  parse_hash_sound :
      (input : Text) (i : Indicator lib)
      → parse_file_hash lib input ≡ ok i
      → IsWellFormed i × (len input < 2049)
  unfolding parse_file_hash
  parse_hash_sound input i e =
      let (prepared, p, e') = >>=-eq-ok (prepare input) _ e in
      let (h, q, e'') = >>=-eq-ok (Hash.parse prepared) _ e' in
      let same : file_hash h ≡ i = ground arith in
      (subst IsWellFormed same (parse-IsFileHash prepared h q), prepare-le input prepared p)

  from_ip-IsWellFormed : (ip : IpAddr) → IsIp ip → IsWellFormed (from_ip lib ip)
  from_ip-IsWellFormed (v4 ip) h = h
  from_ip-IsWellFormed (v6 ip) h = h

  ip_or_invalid_sound :
      (o : Option IpAddr) (i : Indicator lib)
      → ((ip : IpAddr) → o ≡ some ip → IsIp ip)
      → ip_or_invalid lib o ≡ ok i
      → IsWellFormed i
  ip_or_invalid_sound none i h e = absurd (ground arith)
  ip_or_invalid_sound (some ip) i h e =
      let same : from_ip lib ip ≡ i = ground arith in
      subst IsWellFormed same (from_ip-IsWellFormed ip (h ip refl))

  parse_ip_sound :
      (input : Text) (i : Indicator lib)
      → parse_ip lib input ≡ ok i
      → IsWellFormed i × (len input < 2049)
  unfolding parse_ip
  parse_ip_sound input i e =
      let (prepared, p, e') = >>=-eq-ok (prepare input) _ e in
      (
        ip_or_invalid_sound (parse_ip_addr (unbracketed prepared)) i
            (parse_ip_addr-IsIp (unbracketed prepared)) e',
        prepare-le input prepared p,
      )

  parse_url_sound :
      (input : Text) (i : Indicator lib)
      → parse_url lib input ≡ ok i
      → IsWellFormed i × (len input < 2049)
  unfolding parse_url
  parse_url_sound input i e =
      let (prepared, p, e') = >>=-eq-ok (prepare input) _ e in
      let (u, q, e'') = >>=-eq-ok (Url.parse lib prepared) _ e' in
      let same : url u ≡ i = ground arith in
      (subst IsWellFormed same (parse-IsHttpUrl lib prepared u q), prepare-le input prepared p)

  parser_of_sound :
      (expected : IndicatorType) (input : Text) (i : Indicator lib)
      → parser_of lib expected input ≡ ok i
      → IsWellFormed i × (len input < 2049)
  parser_of_sound domain_type = parse_domain_sound
  parser_of_sound ipv4_type = parse_ip_sound
  parser_of_sound ipv6_type = parse_ip_sound
  parser_of_sound url_type = parse_url_sound
  parser_of_sound file_hash_type = parse_hash_sound

  type_beq_sound : (x y : IndicatorType) → type_beq x y ≡ true → x ≡ y
  type_beq_sound x y h = ground arith

  checked_type_sound :
      (expected : IndicatorType) (j i : Indicator lib)
      → (if type_beq (indicator_type lib j) expected
          then ok j
          else err (type_mismatch expected (indicator_type lib j)))
        ≡ ok i
      → (indicator_type lib j ≡ expected) × (j ≡ i)
  checked_type_sound expected j i e = elim (Bool-cases (type_beq (indicator_type lib j) expected)) [
    | inl y ↦ (type_beq_sound (indicator_type lib j) expected y, ok_inj (rw y at e))
    | inr n ↦ absurd (wrong (rw n at e))
  ]
    where
      ok_inj :
          {a b : Indicator lib}
          → ◌≡◌ {A = Result IndicatorError (Indicator lib)} (ok a) (ok b)
          → a ≡ b
      ok_inj h = cc

      wrong :
          {x : IndicatorError} {b : Indicator lib}
          → ◌≡◌ {A = Result IndicatorError (Indicator lib)} (err x) (ok b)
          → ⊥
      wrong h = cc

  -- A parsed indicator has the type that was asked for, the input had at most 2048 bytes, and the
  -- contents are well formed: a valid name, octets below 256, segments below 65536, an HTTP or HTTPS URL
  -- without credentials whose host is an address or a valid name, or the digits of a hash.
  pub parse_sound :
      (expected : IndicatorType) (input : Text) (i : Indicator lib)
      → parse lib expected input ≡ ok i
      → (indicator_type lib i ≡ expected) × IsWellFormed i × (len input < 2049)
  unfolding parse
  parse_sound expected input i e =
      let (j, p, e') = >>=-eq-ok (parser_of lib expected input) _ e in
      let (same_type, same) = checked_type_sound expected j i e' in
      let (valid, short) = parser_of_sound expected input j p in
      (ap (indicator_type lib) (sym same) ∙ same_type, subst IsWellFormed same valid, short)
