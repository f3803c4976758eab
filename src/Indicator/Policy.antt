-- ===== src/Indicator/Policy.antt =====
-- crates/core/src/indicator/mod.rs: `Indicator`, its parsers and `ensure_investigable`.
use sentinel_osint.Common.{
  ℕ, Bool, true, false, Option, none, some, ltb, if◌then◌else◌, is_empty, Result, ok, err, ◌>>=◌,
  nat_eq,
}
use sentinel_osint.Common.Text.{Text, codes, trim, len, strip_prefix, strip_suffix}
use sentinel_osint.Net.{Ipv4Addr, Ipv6Addr, IpAddr, v4, v6, classify, is_global_scope}
use sentinel_osint.Net.Parser.{parse_ip_addr}
use sentinel_osint.Indicator.Defs.{
  DomainName, FileHash, IndicatorType, domain_type, ipv4_type, ipv6_type, url_type, file_hash_type,
  IndicatorError, empty, too_long, invalid_ip_address, invalid_url, type_mismatch,
  non_public_address, special_use_domain, Crates,
}
use sentinel_osint.Indicator.Domain.{is_special_use}
use sentinel_osint.Indicator.Domain
use sentinel_osint.Indicator.Hash
use sentinel_osint.Indicator.Refang.{refang}
use sentinel_osint.Indicator.Url.{HttpUrl, UrlHost}
use sentinel_osint.Indicator.Url

-- `Indicator::MAX_INPUT_LENGTH`.
abbrev pub max_input_length : ℕ
max_input_length = 2048

abbrev pub type_beq : IndicatorType → IndicatorType → Bool
type_beq domain_type domain_type = true
type_beq ipv4_type ipv4_type = true
type_beq ipv6_type ipv6_type = true
type_beq url_type url_type = true
type_beq file_hash_type file_hash_type = true
type_beq _ _ = false

-- Bounds, trims and refangs raw input.
unfoldable pub prepare : Text → Result IndicatorError Text
unfolding refang
prepare input =
    if ltb max_input_length (len input)
    then err (too_long max_input_length)
    else let trimmed = trim (refang (trim input)) in
      if is_empty trimmed then err empty else ok trimmed

-- `strip_prefix('[')` and then `strip_suffix(']')`, or the text as it is.
abbrev pub strip_close : Text → Option Text → Text
strip_close s none = s
strip_close s (some opened) = elim (strip_suffix (codes "]") opened) [ none ↦ s | some t ↦ t ]

abbrev pub unbracketed : Text → Text
unbracketed s = strip_close s (strip_prefix (codes "[") s)

unfoldable pub ensure_public_ip : IpAddr → Result IndicatorError (Unit {0})
ensure_public_ip ip =
    let scope = classify ip in
    if is_global_scope scope then ok tt else err (non_public_address ip scope)

unfoldable pub ensure_public_domain : DomainName → Result IndicatorError (Unit {0})
ensure_public_domain d = if is_special_use d then err (special_use_domain d) else ok tt

module _ (lib : Crates) where
  pub data Indicator : Type 0 where
    domain : DomainName → Indicator
    ipv4 : Ipv4Addr → Indicator
    ipv6 : Ipv6Addr → Indicator
    url : HttpUrl lib → Indicator
    file_hash : FileHash → Indicator

  abbrev pub from_ip : IpAddr → Indicator
  from_ip (v4 ip) = ipv4 ip
  from_ip (v6 ip) = ipv6 ip

  abbrev pub indicator_type : Indicator → IndicatorType
  indicator_type (domain _) = domain_type
  indicator_type (ipv4 _) = ipv4_type
  indicator_type (ipv6 _) = ipv6_type
  indicator_type (url _) = url_type
  indicator_type (file_hash _) = file_hash_type

  unfoldable pub parse_domain : Text → Result IndicatorError Indicator
  parse_domain input = do prepared ← prepare input; d ← Domain.parse lib prepared; ok (domain d)

  abbrev pub ip_or_invalid : Option IpAddr → Result IndicatorError Indicator
  ip_or_invalid none = err invalid_ip_address
  ip_or_invalid (some ip) = ok (from_ip ip)

  unfoldable pub parse_ip : Text → Result IndicatorError Indicator
  parse_ip input = do prepared ← prepare input; ip_or_invalid (parse_ip_addr (unbracketed prepared))

  unfoldable pub parse_url : Text → Result IndicatorError Indicator
  parse_url input = do prepared ← prepare input; u ← Url.parse lib prepared; ok (url u)

  unfoldable pub parse_file_hash : Text → Result IndicatorError Indicator
  parse_file_hash input = do prepared ← prepare input; h ← Hash.parse prepared; ok (file_hash h)

  abbrev pub parser_of : IndicatorType → Text → Result IndicatorError Indicator
  parser_of domain_type input = parse_domain input
  parser_of ipv4_type input = parse_ip input
  parser_of ipv6_type input = parse_ip input
  parser_of url_type input = parse_url input
  parser_of file_hash_type input = parse_file_hash input

  unfoldable pub parse : IndicatorType → Text → Result IndicatorError Indicator
  parse expected input = do
    indicator ← parser_of expected input
    let actual = indicator_type indicator
    if type_beq actual expected then ok indicator else err (type_mismatch expected actual)

  abbrev pub ensure_public_host : Option UrlHost → Result IndicatorError (Unit {0})
  ensure_public_host none = err (invalid_url "URL has no host")
  ensure_public_host (some (UrlHost.name d)) = ensure_public_domain d
  ensure_public_host (some (UrlHost.ip ip)) = ensure_public_ip ip

  -- `Indicator::ensure_investigable`.
  unfoldable pub ensure_investigable : Indicator → Result IndicatorError (Unit {0})
  unfolding ensure_public_ip ensure_public_domain
  ensure_investigable (domain d) = ensure_public_domain d
  ensure_investigable (ipv4 ip) = ensure_public_ip (v4 ip)
  ensure_investigable (ipv6 ip) = ensure_public_ip (v6 ip)
  ensure_investigable (url u) = ensure_public_host (Url.host lib u)
  ensure_investigable (file_hash h) = ok tt
