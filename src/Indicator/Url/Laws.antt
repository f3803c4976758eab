-- ===== src/Indicator/Url/Laws.antt =====
-- What a URL that `HttpUrl::parse` returns is.
use sentinel_osint.Common.{
  true, false, not, ◌||◌, Option, none, some, [], ◌∷◌, ltb, is_empty, list_beq, list_beq_iff,
  nat_eq, Result, ok, err, ◌≡◌, ◌⊎◌, refl, ap, subst, Bool-cases, inl, inr,
}
use sentinel_osint.Common.Text.{Text, codes, trim, len, is_some}
use sentinel_osint.Indicator.Defs.{DomainName, IndicatorError, Host, domain, ipv4, ipv6, Crates}
use sentinel_osint.Indicator.Domain
use sentinel_osint.Indicator.Domain.Labels.{IsDomainName, parse-IsDomainName}
use sentinel_osint.Indicator.Url.{
  max_length, HttpUrl, is_http, has_credentials, checked_name, checked_host, checked_url, parse,
}

module _ (lib : Crates) where
  -- A host that is an address, or that is written as a well-formed name.
  abbrev pub IsHost : Option Host → Type 0
  IsHost none = ⊥
  IsHost (some (domain text)) =
      (d : DomainName) × (Domain.parse lib text ≡ ok d) × IsDomainName d.name
  IsHost (some (ipv4 a)) = Unit
  IsHost (some (ipv6 a)) = Unit

  -- An HTTP or HTTPS URL without credentials that has a host.
  pub record IsHttpUrl (u : HttpUrl lib) : Type 0 where
    pub scheme : (lib.scheme u.url ≡ codes "http") ⊎ (lib.scheme u.url ≡ codes "https")
    pub username : lib.username u.url ≡ []
    pub password : lib.password u.url ≡ none
    pub host : IsHost (lib.host u.url)

  is_http-scheme :
      (u : lib.Url)
      → is_http lib u ≡ true
      → (lib.scheme u ≡ codes "http") ⊎ (lib.scheme u ≡ codes "https")
  is_http-scheme u h = elim (Bool-cases (list_beq (lib.scheme u) (codes "http"))) [
    | inl y ↦ inl ((list_beq_iff (lib.scheme u) (codes "http")).0 y)
    | inr n ↦ inr ((list_beq_iff (lib.scheme u) (codes "https")).0 (rw n at h))
  ]

  no_credentials :
      (user : Text) (password : Option Text)
      → (not (is_empty user) || is_some password) ≡ false
      → (user ≡ []) × (password ≡ none)
  no_credentials [] none h = (refl, refl)
  no_credentials [] (some p) h = cc
  no_credentials (c ∷ cs) password h = cc

  ok_url : {u v : HttpUrl lib} → ◌≡◌ {A = Result IndicatorError (HttpUrl lib)} (ok u) (ok v) → u ≡ v
  ok_url h = cc

  no_url :
      {e : IndicatorError} {v : HttpUrl lib}
      → ◌≡◌ {A = Result IndicatorError (HttpUrl lib)} (err e) (ok v)
      → ⊥
  no_url h = cc

  checked_host-eq-ok :
      (u : lib.Url) (host : Option Host) (v : HttpUrl lib)
      → checked_host lib u host ≡ ok v
      → (u ≡ v.url) × IsHost host
  checked_host-eq-ok u none v h = absurd (no_url h)
  checked_host-eq-ok u (some (ipv4 a)) v h = (ap (λ w. w.url) (ok_url h), tt)
  checked_host-eq-ok u (some (ipv6 a)) v h = (ap (λ w. w.url) (ok_url h), tt)
  checked_host-eq-ok u (some (domain text)) v h = named (Domain.parse lib text) refl h
    where
      named :
          (r : Result IndicatorError DomainName)
          → Domain.parse lib text ≡ r
          → checked_name lib u r ≡ ok v
          → (u ≡ v.url) × IsHost (some (domain text))
      named (ok d) e k = (ap (λ w. w.url) (ok_url k), (d, e, (parse-IsDomainName lib text d e).0))
      named (err why) e k = absurd (no_url k)

  checked_url-IsHttpUrl :
      (o : Option lib.Url) (v : HttpUrl lib) → checked_url lib o ≡ ok v → IsHttpUrl v
  checked_url-IsHttpUrl none v h = absurd (no_url h)
  checked_url-IsHttpUrl (some u) v h = elim (Bool-cases (is_http lib u)) [
    | inr n ↦ absurd (no_url (rw n at h))
    | inl y ↦ elim (Bool-cases (has_credentials lib u)) [
      | inl c ↦ absurd (no_url (rw (y, c) at h))
      | inr n ↦
          let (same, is_host) = checked_host-eq-ok u (lib.host u) v (rw (y, n) at h) in
          let (no_user, no_password) = no_credentials (lib.username u) (lib.password u) n in
          let plain : IsHttpUrl (record { url = u }) = record {
            scheme = is_http-scheme u y;
            username = no_user;
            password = no_password;
            host = is_host;
          } in
          subst (λ w. IsHttpUrl (record { url = w })) same plain
    ]
  ]

  pub parse-IsHttpUrl : (input : Text) (v : HttpUrl lib) → parse lib input ≡ ok v → IsHttpUrl v
  unfolding parse
  parse-IsHttpUrl input v h = elim (Bool-cases (is_empty (trim input))) [
    | inl y ↦ absurd (no_url (rw y at h))
    | inr n ↦ elim (Bool-cases (ltb max_length (len (trim input)))) [
      | inl y ↦ absurd (no_url (rw (n, y) at h))
      | inr m ↦ checked_url-IsHttpUrl (lib.parse_url (trim input)) v (rw (n, m) at h)
    ]
  ]
