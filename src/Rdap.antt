-- ===== src/Rdap.antt =====
-- crates/collectors/src/sources/rdap/bootstrap.rs: which RDAP service is responsible for an address.
pub mod Laws
use sentinel_osint.Common.{
  ℕ, Bool, true, false, not, ◌&&◌, ◌||◌, Option, none, some, List, [], ◌∷◌, ◌++◌, take, filter, leb,
  if◌then◌else◌, is_empty, list_beq, nat_eq, Result, ok, err, ◌>>=◌,
}
use sentinel_osint.Common.Text.{Text, codes, is_some}
use sentinel_osint.Net.{IpAddr}
use sentinel_osint.Net.Prefix.{IpPrefix, contains}
use sentinel_osint.Net.Parser.{parse_prefix}
use sentinel_osint.Indicator.Defs.{Crates}

abbrev pub max_services : ℕ
max_services = 2048

abbrev pub max_prefixes_per_service : ℕ
max_prefixes_per_service = 4096

abbrev pub max_urls_per_service : ℕ
max_urls_per_service = 8

-- `serde_json::Value` with the accessors that the sources call, and those of `url::Url` that only this
-- part calls.
pub record Web (lib : Crates) : Type 1 where
  pub Value : Type 0
  pub from_slice : List ℕ → Option Value
  pub get : Text → Value → Option Value
  pub as_array : Value → Option (List Value)
  pub as_str : Value → Option Text
  pub query : lib.Url → Option Text
  pub fragment : lib.Url → Option Text

abbrev ok_or : {A : Type 0} → Text → Option A → Result Text A
ok_or why none = err why
ok_or why (some a) = ok a

-- `filter_map`.
abbrev cons_some : {A : Type 0} → Option A → List A → List A
cons_some none rest = rest
cons_some (some a) rest = a ∷ rest

abbrev pub filter_map : {A B : Type 0} → (A → Option B) → List A → List B
filter_map f [] = []
filter_map f (x ∷ xs) = cons_some (f x) (filter_map f xs)

-- `into_iter().flatten()` of an optional list.
abbrev flatten : {A : Type 0} → Option (List A) → List A
flatten none = []
flatten (some xs) = xs

-- `Result::ok`.
abbrev ok_of : {E A : Type 0} → Result E A → Option A
ok_of (ok a) = some a
ok_of (err e) = none

module _ (lib : Crates) (web : Web lib) where
  abbrev pub Entry : Type 0
  Entry = IpPrefix × List lib.Url

  pub record Bootstrap : Type 0 where
    pub entries : List Entry

  unfoldable pub is_acceptable_base : lib.Url → Bool → Bool
  is_acceptable_base url allow_http =
      let scheme_ok =
        list_beq (lib.scheme url) (codes "https")
        || (allow_http && list_beq (lib.scheme url) (codes "http")) in
      scheme_ok
      && is_empty (lib.username url)
      && not (is_some (lib.password url))
      && not (is_some (web.query url))
      && not (is_some (web.fragment url))
      && is_some (lib.host url)

  -- The strings of a value that is an array.
  abbrev pub texts_of : List web.Value → List Text
  texts_of values = filter_map web.as_str values

  unfoldable pub urls_of : Bool → web.Value → List lib.Url
  unfolding is_acceptable_base
  urls_of allow_http urls = take max_urls_per_service (
      filter (λ u. is_acceptable_base u allow_http)
        (filter_map lib.parse_url (texts_of (flatten (web.as_array urls)))))

  unfoldable pub prefixes_of : web.Value → List IpPrefix
  unfolding parse_prefix
  prefixes_of prefixes =
      filter_map (λ p. ok_of (parse_prefix p))
        (texts_of (take max_prefixes_per_service (flatten (web.as_array prefixes))))

  abbrev pub with_urls : List lib.Url → List IpPrefix → List Entry
  with_urls urls [] = []
  with_urls urls (p ∷ ps) = (p, urls) ∷ with_urls urls ps

  abbrev unless_empty : List lib.Url → List IpPrefix → List Entry
  unless_empty [] prefixes = []
  unless_empty (u ∷ us) prefixes = with_urls (u ∷ us) prefixes

  -- The entries of a service, which is an array of prefixes, URLs and whatever follows.
  unfoldable pub entries_of : Bool → Option (List web.Value) → List Entry
  unfolding urls_of prefixes_of
  entries_of allow_http (some (prefixes ∷ urls ∷ more)) =
      unless_empty (urls_of allow_http urls) (prefixes_of prefixes)
  entries_of allow_http _ = []

  unfoldable pub all_entries : Bool → List web.Value → List Entry
  unfolding entries_of
  all_entries allow_http [] = []
  all_entries allow_http (service ∷ services) =
      entries_of allow_http (web.as_array service) ++ all_entries allow_http services

  abbrev and_then : {A B : Type 0} → Option A → (A → Option B) → Option B
  and_then none f = none
  and_then (some a) f = f a

  abbrev usable_entries : List Entry → Result Text Bootstrap
  usable_entries entries =
      if is_empty entries
      then err (codes "RDAP bootstrap contains no usable services")
      else ok (record { entries = entries })

  -- `Bootstrap::parse`.
  unfoldable pub parse : List ℕ → Bool → Result Text Bootstrap
  unfolding all_entries
  parse body allow_http = do
    document ← ok_or (codes "RDAP bootstrap is not valid JSON") (web.from_slice body)
    services ←
        ok_or (codes "RDAP bootstrap has no services array")
          (and_then (web.get (codes "services") document) web.as_array)
    usable_entries (all_entries allow_http (take max_services services))

  -- `max_by_key`, which keeps the last of the greatest items.
  abbrev better : Option Entry → Entry → Option Entry
  better none entry = some entry
  better (some (p, us)) (q, vs) = if leb p.len q.len then some (q, vs) else some (p, us)

  abbrev pub longest_from : Option Entry → List Entry → Option Entry
  longest_from best [] = best
  longest_from best (entry ∷ entries) = longest_from (better best entry) entries

  abbrev first_url : Entry → Option lib.Url
  first_url (p, []) = none
  first_url (p, u ∷ us) = some u

  abbrev pub covering : Bootstrap → IpAddr → List Entry
  unfolding contains
  covering b ip = filter (λ e. contains e.0 ip) b.entries

  -- `Bootstrap::service_for`.
  unfoldable pub service_for : Bootstrap → IpAddr → Option lib.Url
  unfolding covering
  service_for b ip = and_then (longest_from none (covering b ip)) first_url
