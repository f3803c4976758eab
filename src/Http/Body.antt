-- ===== src/Http/Body.antt =====
-- crates/collectors/src/http/client.rs: how `HttpClient::send` bounds a response body.
use mathlib.Core.List.{append-nil, append_assoc}
use sentinel_osint.Common.{
  ℕ, ◌+◌, ◌*◌, ◌-◌, ◌^◌, ◌≤◌, ◌<◌, min, Bool, true, false, Option, none, some, List, [], ◌++◌, ltb,
  if◌then◌else◌, length, length-append, Result, ok, err, ◌≡◌, ◌↔◌, refl, arith, ap, sym, ◌∙◌,
  Bool-cases, inl, inr,
}
use sentinel_osint.Common.Text.{Text}
use sentinel_osint.Http.Policy.{PolicyViolation}

-- `HttpConfig::MAX_BODY_BYTES_CEILING`.
abbrev pub max_body_bytes_ceiling : ℕ
max_body_bytes_ceiling = 64 * 1024 * 1024

-- The request's limit, or the configured one, and never more than the ceiling.
abbrev pub limit_of : Option ℕ → ℕ → ℕ
limit_of none configured = min configured max_body_bytes_ceiling
limit_of (some requested) configured = min requested max_body_bytes_ceiling

-- crates/collectors/src/http/mod.rs: `HttpError`.
pub data HttpError : Type 0 where
  blocked : PolicyViolation → HttpError
  timeout connect : HttpError
  response_too_large : ℕ → HttpError
  invalid_request : Text → HttpError
  client_init transport : HttpError

abbrev pub declares_more : Option ℕ → ℕ → Bool
declares_more none limit = false
declares_more (some content_length) limit = ltb limit content_length

-- `usize::saturating_add` on 64 bits.
abbrev pub saturating_add : ℕ → ℕ → ℕ
saturating_add a b = min (a + b) (2 ^ 64 - 1)

-- What `response.chunk().await` gives, one after the other: bytes, or a failure as
-- `map_error` reports it.
pub data Chunks : Type 0 where
  finished : Chunks
  broken : HttpError → Chunks
  chunk : List ℕ → Chunks → Chunks

-- The loop over the chunks.
pub read_chunks : ℕ → List ℕ → Chunks → Result HttpError (List ℕ)
read_chunks limit body finished = ok body
read_chunks limit body (broken e) = err e
read_chunks limit body (chunk bytes more) =
    let rest = read_chunks limit (body ++ bytes) more in
    if ltb limit (saturating_add (length body) (length bytes))
    then err (response_too_large limit)
    else rest

unfoldable pub read_body : ℕ → Option ℕ → Chunks → Result HttpError (List ℕ)
read_body limit content_length chunks =
    if declares_more content_length limit
    then err (response_too_large limit)
    else read_chunks limit [] chunks

-- All bytes of the chunks that the server sends.
abbrev pub bytes_of : Chunks → List ℕ
bytes_of finished = []
bytes_of (broken e) = []
bytes_of (chunk bytes more) = bytes ++ bytes_of more

abbrev pub Ends : Chunks → Type 0
Ends finished = Unit
Ends (broken e) = ⊥
Ends (chunk bytes more) = Ends more

abbrev Whole : ℕ → List ℕ → Chunks → List ℕ → Type 0
Whole limit body chunks result =
    Ends chunks × (result ≡ body ++ bytes_of chunks) × (length result ≤ limit)

same_sum :
    (limit : ℕ) (body bytes : List ℕ)
    → limit < 2 ^ 64 - 1
    → (ltb limit (saturating_add (length body) (length bytes)) ≡ false)
    → length (body ++ bytes) ≤ limit
same_sum limit body bytes small h = ground (arith, length-append body bytes)

too_long :
    (limit : ℕ) (body bytes more : List ℕ)
    → (ltb limit (saturating_add (length body) (length bytes)) ≡ true)
    → limit < length (body ++ (bytes ++ more))
too_long limit body bytes more h =
    ground (arith, length-append body (bytes ++ more), length-append bytes more)

read_chunks-eq-ok :
    (limit : ℕ) (body : List ℕ) (chunks : Chunks) (result : List ℕ)
    → limit < 2 ^ 64 - 1
    → length body ≤ limit
    → (read_chunks limit body chunks ≡ ok result) ↔ Whole limit body chunks result
unfolding read_chunks
read_chunks-eq-ok limit body finished result small le = (
  λ e.
      let same : body ≡ result = ground arith in
      (tt, sym same ∙ sym (append-nil body), omega (arith, ap length same)),
  λ w. ap ok (sym (append-nil body) ∙ sym w.1),
)
read_chunks-eq-ok limit body (broken e) result small le = (λ e. cc, λ w. absurd w.0)
read_chunks-eq-ok limit body (chunk bytes more) result small le =
    elim (Bool-cases (ltb limit (saturating_add (length body) (length bytes)))) [
      | inl y ↦ rw y (
        λ e. cc,
        λ w. absurd (omega (arith, too_long limit body bytes (bytes_of more) y, ap length w.1)),
      )
      | inr n ↦ rw n (
          rw append_assoc at (
            read_chunks-eq-ok limit (body ++ bytes) more result small
              (same_sum limit body bytes small n)))
    ]

declared_iff :
    {P : Type 0} (more : Bool) (limit : ℕ) {r : Result HttpError (List ℕ)} {body : List ℕ}
    → (r ≡ ok body) ↔ P
    → ((if more then err (response_too_large limit) else r) ≡ ok body) ↔ ((more ≡ false) × P)
declared_iff true limit h = (λ e. cc, λ w. cc)
declared_iff false limit h = (λ e. (refl, h.0 e), λ w. h.1 w.1)

limit_of-le : (requested : Option ℕ) (configured : ℕ) → limit_of requested configured ≤ 67108864
limit_of-le none configured = omega arith
limit_of-le (some r) configured = omega arith

-- A response is accepted exactly when the transport delivers it to its end, its declared length, if
-- any, and the bytes delivered are within the limit; the body is then all of its bytes. The limit
-- is never above 64 MiB, whatever the request or the configuration asks for.
pub read_body-eq-ok :
    (requested : Option ℕ) (configured : ℕ) (content_length : Option ℕ) (chunks : Chunks)
    (body : List ℕ)
    → ((read_body (limit_of requested configured) content_length chunks ≡ ok body) ↔ (
        (declares_more content_length (limit_of requested configured) ≡ false)
        × (Ends chunks × (body ≡ bytes_of chunks) × (length body ≤ limit_of requested configured))))
      × (limit_of requested configured ≤ 64 * 1024 * 1024)
unfolding read_body
read_body-eq-ok requested configured content_length chunks body =
    let limit = limit_of requested configured in
    let le = limit_of-le requested configured in
    let loop = read_chunks-eq-ok limit [] chunks body (omega arith) (omega arith) in
    (declared_iff (declares_more content_length limit) limit loop, le)
