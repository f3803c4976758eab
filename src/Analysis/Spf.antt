-- ===== src/Analysis/Spf.antt =====
-- crates/collectors/src/analysis/spf.rs: SPF records (RFC 7208).
pub mod Findings
pub mod Grammar
pub mod Laws
pub mod Cites
pub mod Reported
use sentinel_osint.Common.{
  ℕ, suc, ◌+◌, Bool, true, false, not, ◌&&◌, ◌||◌, Option, none, some, List, [], ◌∷◌, ◌++◌, leb,
  ◌==◌, within, if◌then◌else◌, take, drop, filter, all, is_empty, list_beq, nat_eq,
}
use sentinel_osint.Common.Text.{
  Text, codes, len, is_ascii_digit, is_ascii_lowercase, is_ascii_uppercase, to_ascii_lowercase,
  is_some,
}
use sentinel_osint.Common.Text.Splitting.{split, split_once, split_at_byte}
use sentinel_osint.Common.Text.Numbers.{parse_unsigned}
use sentinel_osint.Net.Parser.{is_ipv4, is_ipv6}

abbrev pub max_dns_lookups : ℕ
max_dns_lookups = 10

abbrev pub max_terms : ℕ
max_terms = 128

pub data Qualifier : Type 0 where
  pass fail soft_fail neutral : Qualifier

pub record SpfSummary : Type 0 where
  pub all_qualifier : Option Qualifier
  pub includes : List Text
  pub redirect : Option Text
  pub lookup_terms : ℕ
  pub has_ptr : Bool
  pub invalid_terms : List Text
  pub truncated : Bool

abbrev pub default_summary : SpfSummary
default_summary = record {
  all_qualifier = none;
  includes = [];
  redirect = none;
  lookup_terms = 0;
  has_ptr = false;
  invalid_terms = [];
  truncated = false;
}

-- `is_domain_spec`: a byte of `is_ascii_graphic` is a character of its own.
abbrev pub is_domain_spec : Text → Bool
is_domain_spec value = not (is_empty value) && all (within 0x21 0x7e) value

abbrev is_alphabetic : ℕ → Bool
is_alphabetic b = is_ascii_lowercase b || is_ascii_uppercase b

-- `is_modifier_name`.
abbrev pub is_modifier_name : Text → Bool
is_modifier_name [] = false
is_modifier_name (b ∷ bytes) =
    is_alphabetic b
    && all (λ c. is_alphabetic c || is_ascii_digit c || c == b'-' || c == b'_' || c == b'.') bytes

abbrev fits : ℕ → Option ℕ → Bool
fits max_prefix none = false
fits max_prefix (some prefix) = leb prefix max_prefix

abbrev network_of : (Text → Bool) → ℕ → Text → Option (Text × Text) → Bool
network_of is_address max_prefix value none = is_address value
network_of is_address max_prefix value (some (address, prefix)) =
    is_address address && fits max_prefix (parse_unsigned 8 prefix)

-- `is_ip_network`, with the test of the address family.
abbrev pub is_ip_network : (Text → Bool) → ℕ → Text → Bool
is_ip_network is_address max_prefix value =
    network_of is_address max_prefix value (split_once b'/' value)

-- The qualifier, whether it is written, and the rest of a term.
abbrev pub qualified : Text → Qualifier × Bool × Text
qualified [] = (pass, false, [])
qualified (c ∷ cs) =
    if c == b'+'
    then (pass, true, cs)
    else if c == b'-'
    then (fail, true, cs)
    else if c == b'~'
    then (soft_fail, true, cs)
    else if c == b'?'
    then (neutral, true, cs)
    else (pass, false, c ∷ cs)

abbrev put_first : ℕ → Text × Option ℕ × Text → Text × Option ℕ × Text
put_first c (name, separator, argument) = (c ∷ name, separator, argument)

-- The name, the separator and the argument.
abbrev pub name_of : Text → Text × Option ℕ × Text
name_of [] = ([], none, [])
name_of (c ∷ cs) =
    let rest = put_first c (name_of cs) in
    if c == b':' || c == b'/' || c == b'=' then ([], some c, cs) else rest

abbrev pub separated_by : ℕ → Option ℕ → Bool
separated_by c none = false
separated_by c (some d) = c == d

abbrev pub first_part : List Text → Text
first_part [] = []
first_part (part ∷ parts) = part

-- What the match on a term finds: nothing valid, or what it changes.
pub data Term : Type 0 where
  all_term : Qualifier → Term
  include_term : Text → Term
  lookup_term : Term
  ptr_term : Term
  redirect_term : Text → Term
  other_term : Term
  invalid_term : Term

abbrev pub valid_if : Bool → Term → Term
valid_if valid term = if valid then term else invalid_term

-- The arms of the match on the name in lowercase and the separator, in their order.
unfoldable pub term_of : Qualifier → Bool → Text → Option ℕ → Text → Term
unfolding is_ipv4 is_ipv6
term_of qualifier explicit lower separator argument =
    let bare = not (is_some separator) in
    let colon = separated_by b':' separator in
    let is_host = list_beq lower (codes "a") || list_beq lower (codes "mx") in
    let is_modifier = separated_by b'=' separator && not explicit && is_modifier_name lower in
    if list_beq lower (codes "all") && bare
    then all_term qualifier
    else if list_beq lower (codes "include") && colon && is_domain_spec argument
    then include_term argument
    else if list_beq lower (codes "exists") && colon && is_domain_spec argument
    then lookup_term
    else if is_host && (bare || separated_by b'/' separator)
    then lookup_term
    else if is_host && colon && is_domain_spec (first_part (split b'/' argument))
    then lookup_term
    else if list_beq lower (codes "ptr") && bare
    then ptr_term
    else if list_beq lower (codes "ptr") && colon && is_domain_spec argument
    then ptr_term
    else if list_beq lower (codes "ip4") && colon
    then valid_if (is_ip_network is_ipv4 32 argument) other_term
    else if list_beq lower (codes "ip6") && colon
    then valid_if (is_ip_network is_ipv6 128 argument) other_term
    else if is_modifier && list_beq lower (codes "redirect")
    then valid_if (is_domain_spec argument) (redirect_term argument)
    else valid_if is_modifier other_term

unfoldable pub read_term : Text → Term
unfolding term_of
read_term term =
    let (qualifier, explicit, rest) = qualified term in
    let (name, separator, argument) = name_of rest in
    term_of qualifier explicit (to_ascii_lowercase name) separator argument

-- `Option::get_or_insert`.
abbrev pub get_or_insert : {A : Type 0} → A → Option A → Option A
get_or_insert a none = some a
get_or_insert a (some b) = some b

-- What the arms change; `text` is the whole term.
abbrev pub apply_term : Text → Term → SpfSummary → SpfSummary
apply_term text (all_term qualifier) s = record s {
  all_qualifier = get_or_insert qualifier s.all_qualifier;
}
apply_term text (include_term target) s = record s {
  includes = s.includes ++ target ∷ [];
  lookup_terms = s.lookup_terms + 1;
}
apply_term text lookup_term s = record s { lookup_terms = s.lookup_terms + 1 }
apply_term text ptr_term s = record s { lookup_terms = s.lookup_terms + 1; has_ptr = true }
apply_term text (redirect_term target) s = record s {
  redirect = get_or_insert target s.redirect;
  lookup_terms = s.lookup_terms + 1;
}
apply_term text other_term s = s
apply_term text invalid_term s = record s { invalid_terms = s.invalid_terms ++ text ∷ [] }

-- `parse_term`.
unfoldable pub parse_term : Text → SpfSummary → SpfSummary
unfolding read_term
parse_term term s = apply_term term (read_term term) s

unfoldable pub parse_terms : List Text → SpfSummary → SpfSummary
unfolding parse_term
parse_terms [] s = s
parse_terms (term ∷ terms) s = parse_terms terms (parse_term term s)

abbrev after : Option (Text × Text) → Text
after none = []
after (some (version, body)) = body

abbrev pub terms_of : Text → List Text
terms_of text = filter (λ t. not (is_empty t)) (split b' ' (after (split_at_byte 6 text)))

-- `parse`.
unfoldable pub parse : Text → SpfSummary
unfolding parse_terms
parse text =
    let terms = terms_of text in
    let s = parse_terms (take max_terms terms) default_summary in
    record s { truncated = not (is_empty (drop max_terms terms)) }
