-- ===== src/Http/Allowed.antt =====
-- What the network policy and the resolver let through.
use sentinel_osint.Common.{
  Bool, true, false, not, ◌||◌, Option, none, some, List, [], ◌∷◌, if◌then◌else◌, is_empty, Result,
  ok, err, ◌>>◌, list_beq, list_beq_iff, ◌≡◌, ◌↔◌, ◌≢◌, refl, arith, subst, All, Bool-cases, inl,
  inr, nat_eq,
}
use sentinel_osint.Common.Text.{Text, codes, is_some}
use sentinel_osint.Net.{IpAddr, v4, v6, global, classify, is_global}
use sentinel_osint.Indicator.Defs.{Host, domain, ipv4, ipv6, Crates}
use sentinel_osint.Http.Policy.{
  PolicyViolation, insecure_scheme, credentials_in_url, no_public_address, check_ip, check_host,
  check_url, SocketAddr, retain_public, resolve,
}

-- What a host must be: a name, or a global address.
abbrev pub IsPublicHost : Option Host → Type 0
IsPublicHost none = ⊥
IsPublicHost (some (domain _)) = Unit
IsPublicHost (some (ipv4 a)) = classify (v4 a) ≡ global
IsPublicHost (some (ipv6 a)) = classify (v6 a) ≡ global

check_ip-eq-ok : (ip : IpAddr) → (check_ip ip ≡ ok tt) ↔ (classify ip ≡ global)
unfolding check_ip
check_ip-eq-ok ip = ground arith

check_host-eq-ok : (h : Option Host) → (check_host h ≡ ok tt) ↔ IsPublicHost h
check_host-eq-ok none = (λ e. cc, λ e. elim e [ ])
check_host-eq-ok (some (domain d)) = (λ e. tt, λ e. refl)
check_host-eq-ok (some (ipv4 a)) = check_ip-eq-ok (v4 a)
check_host-eq-ok (some (ipv6 a)) = check_ip-eq-ok (v6 a)

-- A destination that the policy allows.
pub record IsAllowed (lib : Crates) (url : lib.Url) : Type 0 where
  pub https : lib.scheme url ≡ codes "https"
  pub no_username : lib.username url ≡ []
  pub no_password : lib.password url ≡ none
  pub public_host : IsPublicHost (lib.host url)

is_empty-eq : (s : Text) → (is_empty s ≡ true) ↔ (s ≡ [])
is_empty-eq [] = ground arith
is_empty-eq (c ∷ cs) = ground arith

is_some-eq : (o : Option Text) → (is_some o ≡ false) ↔ (o ≡ none)
is_some-eq o = ground arith

abbrev guards :
    Bool → Bool → Bool → Result PolicyViolation (Unit {0}) → Result PolicyViolation (Unit {0})
guards named keyed secure host =
    if not named || keyed
    then err credentials_in_url
    else host >> (if not secure then err insecure_scheme else ok tt)

-- The guards of `check_url`, over their tests.
guards_iff :
    (named keyed secure : Bool) (host : Result PolicyViolation (Unit {0}))
    → (guards named keyed secure host ≡ ok tt)
      ↔ ((named ≡ true) × (keyed ≡ false) × (host ≡ ok tt) × (secure ≡ true))
guards_iff named keyed secure (ok tt) = ground arith
guards_iff named keyed secure (err v) = ground arith

-- `check_url` accepts exactly the HTTPS URLs without credentials whose host is a name or a global
-- address.
pub check_url-eq-ok :
    (lib : Crates) (url : lib.Url) → (check_url lib url ≡ ok tt) ↔ IsAllowed lib url
unfolding check_url
check_url-eq-ok lib url = (to, from)
  where
    host : Result PolicyViolation (Unit {0})
    host = check_host (lib.host url)

    secure : Bool
    secure = list_beq (lib.scheme url) (codes "https")

    tests :
        (guards (is_empty (lib.username url)) (is_some (lib.password url)) secure host ≡ ok tt) ↔ (
          (is_empty (lib.username url) ≡ true)
          × (is_some (lib.password url) ≡ false)
          × (host ≡ ok tt)
          × (secure ≡ true))
    tests = guards_iff (is_empty (lib.username url)) (is_some (lib.password url)) secure host

    to : check_url lib url ≡ ok tt → IsAllowed lib url
    to e =
        let (u, p, h, s) = tests.0 e in
        record {
          https = (list_beq_iff (lib.scheme url) (codes "https")).0 s;
          no_username = (is_empty-eq (lib.username url)).0 u;
          no_password = (is_some-eq (lib.password url)).0 p;
          public_host = (check_host-eq-ok (lib.host url)).0 h;
        }

    from : IsAllowed lib url → check_url lib url ≡ ok tt
    from a = tests.1 (
      (is_empty-eq (lib.username url)).1 a.no_username,
      (is_some-eq (lib.password url)).1 a.no_password,
      (check_host-eq-ok (lib.host url)).1 a.public_host,
      (list_beq_iff (lib.scheme url) (codes "https")).1 a.https,
    )

abbrev pub IsGlobal : SocketAddr → Type 0
IsGlobal a = classify a.ip ≡ global

is_global-eq : (a : SocketAddr) → (is_global a.ip ≡ true) ↔ IsGlobal a
unfolding is_global
is_global-eq a = ground arith

-- `kept` is `addrs` without its addresses that are not global, in the same order.
pub data Keeps : List SocketAddr → List SocketAddr → Type 0 where
  done : Keeps [] []
  keep :
      {a : SocketAddr} {addrs kept : List SocketAddr}
      → IsGlobal a
      → Keeps addrs kept
      → Keeps (a ∷ addrs) (a ∷ kept)
  skip :
      {a : SocketAddr} {addrs kept : List SocketAddr}
      → ¬ IsGlobal a
      → Keeps addrs kept
      → Keeps (a ∷ addrs) kept

retain_public-Keeps : (addrs : List SocketAddr) → Keeps addrs (retain_public addrs)
unfolding retain_public
retain_public-Keeps [] = done
retain_public-Keeps (a ∷ addrs) = elim (Bool-cases (is_global a.ip)) [
  | inl y ↦ rw y (keep ((is_global-eq a).0 y) (retain_public-Keeps addrs))
  | inr n ↦ rw n (skip (λ g. ground (arith, is_global-eq a)) (retain_public-Keeps addrs))
]

Keeps-none : {addrs : List SocketAddr} → Keeps addrs [] → All (λ a. ¬ IsGlobal a) addrs
Keeps-none done = tt
Keeps-none (skip n k) = (n, Keeps-none k)

All-dropped : (addrs : List SocketAddr) → All (λ a. ¬ IsGlobal a) addrs → retain_public addrs ≡ []
unfolding retain_public
All-dropped [] h = refl
All-dropped (a ∷ addrs) h = elim (Bool-cases (is_global a.ip)) [
  | inl y ↦ absurd (h.0 ((is_global-eq a).0 y))
  | inr n ↦ rw n (All-dropped addrs h.1)
]

abbrev answer : List SocketAddr → Result PolicyViolation (List SocketAddr)
answer public = if is_empty public then err no_public_address else ok public

answer_ok :
    (kept public : List SocketAddr) → answer kept ≡ ok public → (kept ≡ public) × (public ≢ [])
answer_ok [] public e = absurd (ground arith)
answer_ok (a ∷ kept) public e = ground arith

answer_err : (kept : List SocketAddr) → answer kept ≡ err no_public_address → kept ≡ []
answer_err [] e = refl
answer_err (a ∷ kept) e = absurd (ground arith)

-- A name is connected to exactly the global addresses of the system's answer, in its order, and to at
-- least one.
pub resolve-eq-ok :
    (resolved public : List SocketAddr)
    → resolve resolved ≡ ok public
    → Keeps resolved public × (public ≢ [])
unfolding resolve
resolve-eq-ok resolved public e =
    let (same, ne) = answer_ok (retain_public resolved) public e in
    (subst (Keeps resolved) same (retain_public-Keeps resolved), ne)

-- A name is refused exactly when the system's answer holds no global address.
pub resolve-eq-err :
    (resolved : List SocketAddr)
    → (resolve resolved ≡ err no_public_address) ↔ All (λ a. ¬ IsGlobal a) resolved
unfolding resolve
resolve-eq-err resolved = (refused, dropped)
  where
    refused : resolve resolved ≡ err no_public_address → All (λ a. ¬ IsGlobal a) resolved
    refused e = Keeps-none (
        subst (Keeps resolved) (answer_err (retain_public resolved) e)
          (retain_public-Keeps resolved))

    dropped : All (λ a. ¬ IsGlobal a) resolved → resolve resolved ≡ err no_public_address
    dropped h = rw (All-dropped resolved h) refl
