-- ===== src/Indicator/Domain.antt =====
-- crates/core/src/indicator/domain.rs: `DomainName`.
pub mod Labels
pub mod Subdomains
use Prim.Native.String.{String}
use sentinel_osint.Common.{
  ℕ, ◌+◌, Bool, true, false, not, ◌&&◌, ◌||◌, Option, none, some, List, [], ◌∷◌, ltb, ◌==◌,
  if◌then◌else◌, is_empty, all, any, length, Result, ok, err, ◌>>=◌, ◌>>◌, nat_eq, list_beq,
}
use sentinel_osint.Common.Text.{
  Text, codes, is_ascii_digit, is_ascii_lowercase, trim, len, strip_suffix, starts_with, ends_with,
  contains_str, trim_start, is_some,
}
use sentinel_osint.Common.Text.Splitting.{split}
use sentinel_osint.Net.Parser.{parse_ip_addr}
use sentinel_osint.Indicator.Defs.{
  DomainName, IndicatorError, empty, invalid_domain, domain_is_ip_address, domain_looks_like_url,
  Crates,
}

abbrev pub special_use_suffixes : List Text
special_use_suffixes =
    codes "localhost"
    ∷ codes "local"
    ∷ codes "internal"
    ∷ codes "invalid"
    ∷ codes "test"
    ∷ codes "example"
    ∷ codes "onion"
    ∷ codes "alt"
    ∷ codes "lan"
    ∷ codes "home.arpa"
    ∷ codes "arpa"
    ∷ []

-- `MAX_LENGTH` and `MAX_LABEL_LENGTH`.
abbrev pub max_length : ℕ
max_length = 253

abbrev pub max_label_length : ℕ
max_label_length = 63

abbrev pub is_label_byte : ℕ → Bool
is_label_byte b = is_ascii_lowercase b || is_ascii_digit b || b == b'-' || b == b'_'

-- The checks of one label, in order.
pub check_label : Text → Result String (Unit {0})
check_label label =
    if is_empty label
    then err "contains an empty label"
    else if ltb max_label_length (len label)
    then err "contains a label longer than 63 characters"
    else if not (all is_label_byte label)
    then err "contains characters that are not allowed in a domain name"
    else if starts_with label (codes "-") || ends_with label (codes "-")
    then err "contains a label that starts or ends with a hyphen"
    else ok tt

-- The loop over the labels, with the tests behind it.
pub scan_labels : ℕ → Text → List Text → Result String (Unit {0})
scan_labels label_count last_label [] =
    if ltb label_count 2
    then err "must have at least two labels (e.g. example.com)"
    else if all is_ascii_digit last_label
    then err "top-level label cannot be numeric"
    else ok tt
scan_labels label_count last_label (label ∷ labels) =
    check_label label >> scan_labels (label_count + 1) label labels

unfoldable pub validate_ascii : Text → Result String (Unit {0})
unfolding scan_labels check_label
validate_ascii name =
    if is_empty name
    then err "empty name"
    else if ltb max_length (len name)
    then err "exceeds 253 characters"
    else scan_labels 0 [] (split b'.' name)

-- `trim_start_matches('[')` and `trim_end_matches(']')`.
abbrev pub trim_start_matches : ℕ → Text → Text
trim_start_matches p [] = []
trim_start_matches p (c ∷ cs) = if c == p then trim_start_matches p cs else c ∷ cs

abbrev pub drop_last : ℕ → ℕ → Text → Text
drop_last p c [] = if c == p then [] else c ∷ []
drop_last p c (d ∷ ds) = c ∷ d ∷ ds

abbrev pub trim_end_matches : ℕ → Text → Text
trim_end_matches p [] = []
trim_end_matches p (c ∷ cs) = drop_last p c (trim_end_matches p cs)

abbrev is_url_char : ℕ → Bool
is_url_char c = c == b'/' || c == b'?' || c == b'#' || c == b'@' || c == b':'

abbrev pub strip_root : Text → Text
strip_root s = elim (strip_suffix (codes ".") s) [ none ↦ s | some rest ↦ rest ]

-- Errors of `validate_ascii` become errors of `parse`.
abbrev pub validated : Text → Result String (Unit {0}) → Result IndicatorError DomainName
validated ascii (ok _) = ok (record { name = ascii })
validated ascii (err why) = err (invalid_domain why)

abbrev pub to_name : Option Text → Result IndicatorError DomainName
to_name none = err (invalid_domain "not a valid (internationalized) domain name")
to_name (some ascii) = validated ascii (validate_ascii ascii)

abbrev pub without_brackets : Text → Text
without_brackets s = trim_end_matches b']' (trim_start_matches b'[' s)

-- The body of `DomainName::parse` after `trim`.
unfoldable pub parse_trimmed : Crates → Text → Result IndicatorError DomainName
parse_trimmed lib s =
    if is_empty s
    then err empty
    else if ltb (max_length + 1) (len s)
    then err (invalid_domain "exceeds 253 characters")
    else if is_some (parse_ip_addr (without_brackets s))
    then err domain_is_ip_address
    else if contains_str (codes "://") s || any is_url_char s
    then err domain_looks_like_url
    else to_name (lib.domain_to_ascii (strip_root s))

-- `DomainName::parse`.
unfoldable pub parse : Crates → Text → Result IndicatorError DomainName
unfolding parse_trimmed
parse lib input = parse_trimmed lib (trim input)

-- `DomainName::is_subdomain_of`: a prefix of more than one byte that ends in a dot is left over.
abbrev is_child_prefix : Option Text → Bool
is_child_prefix none = false
is_child_prefix (some prefix) = ltb 1 (len prefix) && ends_with prefix (codes ".")

unfoldable pub is_subdomain_of : DomainName → DomainName → Bool
is_subdomain_of child parent = is_child_prefix (strip_suffix parent.name child.name)

abbrev pub is_dotted_rest : Option Text → Bool
is_dotted_rest none = false
is_dotted_rest (some rest) = ends_with rest (codes ".")

abbrev pub has_suffix : Text → Text → Bool
has_suffix name suffix = list_beq name suffix || is_dotted_rest (strip_suffix suffix name)

-- `DomainName::is_special_use`.
unfoldable pub is_special_use : DomainName → Bool
is_special_use d = any (has_suffix d.name) special_use_suffixes
