-- ===== src/Http/Redirects.antt =====
-- crates/collectors/src/http/client.rs: `redirect_policy`, and the chains of requests it allows.
use sentinel_osint.Common.{
  ℕ, ◌≤◌, Bool, true, false, not, ◌&&◌, List, [], ◌∷◌, ◌++◌, ltb, if◌then◌else◌, length,
  length-append, Result, ok, err, ◌≡◌, arith, ap, subst, sym, All, All-append,
}
use sentinel_osint.Indicator.Defs.{Crates}
use sentinel_osint.Http.Policy.{
  PolicyViolation, too_many_redirects, cross_origin_redirect, check_url, same_origin,
}
use sentinel_osint.Http.Allowed.{IsAllowed, check_url-eq-ok}

abbrev pub max_redirects : ℕ
max_redirects = 3

-- `any_origin` for public requests, `same_origin_only` for those that carry an API key.
pub data RedirectScope : Type 0 where
  any_origin same_origin_only : RedirectScope

abbrev is_restricted : RedirectScope → Bool
is_restricted any_origin = false
is_restricted same_origin_only = true

guards_inv :
    (n : ℕ) (leaves : Bool) (r : Result PolicyViolation (Unit {0}))
    → (if ltb max_redirects n
        then err (too_many_redirects max_redirects)
        else if leaves
        then err cross_origin_redirect
        else r)
      ≡ ok tt
    → (n ≤ 3) × (leaves ≡ false) × (r ≡ ok tt)
guards_inv n leaves r e = ground arith

not-false : (b : Bool) → not b ≡ false → b ≡ true
not-false b h = ground arith

module _ (lib : Crates) where
  open lib use {Url}

  -- `previous().first()` is there and of another origin.
  abbrev leaves_origin : List Url → Url → Bool
  leaves_origin [] next = false
  leaves_origin (original ∷ _) next = not (same_origin lib original next)

  -- The closure of `redirect_policy`: `ok` follows the redirect, `err` stops with the violation.
  unfoldable pub redirect_policy :
      RedirectScope → List Url → Url → Result PolicyViolation (Unit {0})
  redirect_policy scope previous next =
      if ltb max_redirects (length previous)
      then err (too_many_redirects max_redirects)
      else if is_restricted scope && leaves_origin previous next
      then err cross_origin_redirect
      else check_url lib next

  -- The URLs requested so far: the first one passed `check_url` in `HttpClient::send`, and each
  -- further one was a redirect target that the policy let through.
  pub data Requested (scope : RedirectScope) : List Url → Type 0 where
    sent : {url : Url} → check_url lib url ≡ ok tt → Requested scope (url ∷ [])
    redirected :
        (urls : List Url) (next : Url) {all : List Url}
        → Requested scope urls
        → redirect_policy scope urls next ≡ ok tt
        → all ≡ urls ++ next ∷ []
        → Requested scope all

  policy_inv :
      (scope : RedirectScope) (previous : List Url) (next : Url)
      → redirect_policy scope previous next ≡ ok tt
      → (length previous ≤ 3)
        × ((is_restricted scope && leaves_origin previous next) ≡ false)
        × (check_url lib next ≡ ok tt)
  unfolding redirect_policy
  policy_inv scope previous next e =
      guards_inv (length previous) (is_restricted scope && leaves_origin previous next)
        (check_url lib next) e

  -- All URLs after the first have its origin.
  abbrev pub OneOrigin : List Url → Type 0
  OneOrigin [] = Unit
  OneOrigin (original ∷ urls) = All (λ u. same_origin lib original u ≡ true) urls

  OneOrigin-concat :
      (urls : List Url) (next : Url)
      → OneOrigin urls
      → leaves_origin urls next ≡ false
      → OneOrigin (urls ++ next ∷ [])
  OneOrigin-concat [] next h e = tt
  OneOrigin-concat (original ∷ urls) next h e =
      All-append (λ u. same_origin lib original u ≡ true) urls (next ∷ []) h (not-false _ e, tt)

  -- What a scope promises of the URLs.
  abbrev pub KeepsScope : RedirectScope → List Url → Type 0
  KeepsScope any_origin urls = Unit
  KeepsScope same_origin_only urls = OneOrigin urls

  KeepsScope-single : (scope : RedirectScope) (url : Url) → KeepsScope scope (url ∷ [])
  KeepsScope-single any_origin url = tt
  KeepsScope-single same_origin_only url = tt

  -- Every URL that one request leads to is an HTTPS URL without credentials on a name or a global
  -- address, there are at most three redirects, and a request with an API key never leaves the
  -- origin that it was sent to.
  pub Requested-sound :
      {scope : RedirectScope} {urls : List Url}
      → Requested scope urls
      → All (IsAllowed lib) urls × (length urls ≤ 4) × KeepsScope scope urls
  Requested-sound {scope} (sent h) =
      (((check_url-eq-ok lib _).0 h, tt), omega arith, KeepsScope-single scope _)
  Requested-sound {scope} (redirected urls next r h grown) =
      let (allowed, bounded, origin) = Requested-sound r in
      let (few, stays, passed) = policy_inv scope urls next h in
      let step =
        All-append (IsAllowed lib) urls (next ∷ []) allowed
          ((check_url-eq-ok lib next).0 passed, tt) in
      (
        subst (All (IsAllowed lib)) (sym grown) step,
        omega (arith, ap length grown, length-append urls (next ∷ [])),
        subst (KeepsScope scope) (sym grown) (still scope origin stays),
      )
    where
      still :
          (scope : RedirectScope)
          → KeepsScope scope urls
          → (is_restricted scope && leaves_origin urls next) ≡ false
          → KeepsScope scope (urls ++ next ∷ [])
      still any_origin k stays = tt
      still same_origin_only k stays = OneOrigin-concat urls next k stays
