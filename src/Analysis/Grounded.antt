-- ===== src/Analysis/Grounded.antt =====
-- Findings that are drawn from a query: what they cite, and the texts that they show.
use sentinel_osint.Common.{
  ℕ, zero, suc, ◌+◌, ◌-◌, ◌/◌, ◌%◌, ◌<◌, Bool, true, false, not, ◌||◌, List, [], ◌∷◌, ◌++◌, map,
  ltb, ◌==◌, if◌then◌else◌, take, length, all, is_empty, contains, nat_eq, ◌≡◌, refl, arith, All,
  ◌⊎◌, All-append, All-map, Bool-cases, inl, inr, Distinct, Option, some, none, =?_refl,
}
use sentinel_osint.Common.Text.{Text, codes}
use sentinel_osint.Common.Text.Splitting.{join}
use sentinel_osint.Common.Text.Numbers.{decimal, digits_before}
use sentinel_osint.Sanitize.{is_unsafe, sanitize_single_line}
use sentinel_osint.Sanitize.Laws.{IsSafe, sanitize_single_line-IsSafe}
use sentinel_osint.Evidence.Observations.{ObservationId}
use sentinel_osint.Evidence.Findings.{Severity, Finding, push_new, with_evidence}
use sentinel_osint.Evidence.Relationships.Laws.{push_new-Distinct, All-push_new}
use sentinel_osint.Evidence.Dns.{DnsRecord, txt}
use sentinel_osint.Analysis.{
  QueryResult, records, accepted, tagged, finding, quote, list, max_listed_items, max_quoted_chars,
}

-- Every character of the text may be shown on a terminal.
abbrev pub safe_text : Text → Bool
safe_text s = all (λ c. not (is_unsafe c)) s

pub safe_text-append :
    (a b : Text) → safe_text a ≡ true → safe_text b ≡ true → safe_text (a ++ b) ≡ true
safe_text-append [] b h k = k
safe_text-append (c ∷ cs) b h k = let rest = safe_text-append cs b in ground (arith, rest)

safe_text-IsSafe : (s : Text) → All IsSafe s → safe_text s ≡ true
safe_text-IsSafe [] h = refl
safe_text-IsSafe (c ∷ cs) (p, h) = rw (p, safe_text-IsSafe cs h) refl

digit_safe : (d : ℕ) → d < 10 → not (is_unsafe (b'0' + d)) ≡ true
digit_safe d h = ground arith

Nat-cases : (n : ℕ) → (n ≡ 0) ⊎ ((m : ℕ) × (n ≡ suc m))
Nat-cases zero = inl refl
Nat-cases (suc m) = inr (m, refl)

digits_before_safe :
    (fuel n : ℕ) (after : Text)
    → safe_text after ≡ true
    → safe_text (digits_before fuel n after) ≡ true
digits_before_safe zero n after h = rw (digit_safe (n % 10) (omega arith), h) refl
digits_before_safe (suc fuel) n after h = elim (Nat-cases (n / 10)) [
  | inl z ↦ rw (z, digits_before) digits_safe
  | inr (more, e) ↦
      rw (e, digits_before)
        (digits_before_safe fuel (suc more) ((b'0' + n % 10) ∷ after) digits_safe)
]
  where
    digits_safe : safe_text ((b'0' + n % 10) ∷ after) ≡ true
    digits_safe = rw (digit_safe (n % 10) (omega arith), h) refl

pub decimal_safe : (n : ℕ) → safe_text (decimal n) ≡ true
decimal_safe n = digits_before_safe n n [] refl

pub quote_safe : (value : Text) → safe_text (quote value) ≡ true
unfolding quote
quote_safe value =
    safe_text-IsSafe (sanitize_single_line value max_quoted_chars)
      (sanitize_single_line-IsSafe value max_quoted_chars).0

abbrev Safe : Text → Type 0
Safe s = safe_text s ≡ true

pub join_safe :
    (sep : Text) (parts : List Text)
    → safe_text sep ≡ true
    → All (λ s. safe_text s ≡ true) parts
    → safe_text (join sep parts) ≡ true
join_safe sep [] h k = refl
join_safe sep (p ∷ []) h k = k.0
join_safe sep (p ∷ q ∷ ps) h (k, l) =
    safe_text-append (p ++ sep) (join sep (q ∷ ps)) (safe_text-append p sep k h)
      (join_safe sep (q ∷ ps) h l)

quoted_safe : (items : List Text) → All (λ s. safe_text s ≡ true) (map quote items)
quoted_safe [] = tt
quoted_safe (i ∷ is) = (quote_safe i, quoted_safe is)

abbrev shown : List Text → List Text
shown items = map quote (take max_listed_items items)

abbrev more_text : ℕ → Text
more_text n = codes "and " ++ decimal n ++ codes " more"

more_text_safe : (n : ℕ) → safe_text (more_text n) ≡ true
more_text_safe n = safe_text-append (decimal n) (codes " more") (decimal_safe n) refl

pub list_safe : (items : List Text) → safe_text (list items) ≡ true
unfolding list
list_safe items = elim (Bool-cases (ltb max_listed_items (length items))) [
  | inl y ↦ rw y (join_safe (codes ", ") (shown items ++ more ∷ []) refl all_safe)
  | inr n ↦
      rw n (join_safe (codes ", ") (shown items) refl (quoted_safe (take max_listed_items items)))
]
  where
    more : Text
    more = more_text (length items - max_listed_items)

    all_safe : All Safe (shown items ++ more ∷ [])
    all_safe =
        All-append Safe (shown items) (more ∷ []) (quoted_safe (take max_listed_items items))
          (more_text_safe (length items - max_listed_items), tt)

-- What a finding cites was observed, and its texts may be shown.
pub record IsGrounded (queried : List ObservationId) (f : Finding) : Type 0 where
  pub cited : All (λ id. contains queried id ≡ true) f.evidence
  pub has_evidence : is_empty f.evidence ≡ false
  pub distinct : Distinct f.evidence
  pub safe_title : safe_text f.title ≡ true
  pub safe_detail : safe_text f.detail ≡ true

push_new-nonempty :
    (ids more : List ObservationId) → is_empty ids ≡ false → is_empty (push_new ids more) ≡ false
unfolding push_new
push_new-nonempty ids [] h = h
push_new-nonempty ids (id ∷ more) h =
    push_new-nonempty (if contains ids id then ids else ids ++ id ∷ []) more (ground arith)

pushed_nonempty :
    (ids : List ObservationId) → is_empty ids ≡ false → is_empty (push_new [] ids) ≡ false
unfolding push_new
pushed_nonempty [] h = h
pushed_nonempty (id ∷ ids) h = push_new-nonempty (id ∷ []) ids refl

pub finding-IsGrounded :
    (queried ids : List ObservationId) (code : Text) (severity : Severity) (title detail : Text)
    → All (λ id. contains queried id ≡ true) ids
    → is_empty ids ≡ false
    → safe_text title ≡ true
    → safe_text detail ≡ true
    → IsGrounded queried (finding code severity title detail ids)
unfolding finding with_evidence
finding-IsGrounded queried ids code severity title detail cited nonempty t d = record {
  cited = All-push_new (λ id. contains queried id ≡ true) [] ids tt cited;
  has_evidence = pushed_nonempty ids nonempty;
  distinct = push_new-Distinct [] ids tt;
  safe_title = t;
  safe_detail = d;
}

pub cited_self : (id : ObservationId) → contains (id ∷ []) id ≡ true
cited_self id = ground (arith, =?_refl id)

-- The conclusion of an analyzer is an `All`; its parts are put together with these.
module _ (queried : List ObservationId) where
  abbrev pub AllGrounded : List Finding → Type 0
  AllGrounded findings = All (IsGrounded queried) findings

  pub AllGrounded-append :
      (xs ys : List Finding) → AllGrounded xs → AllGrounded ys → AllGrounded (xs ++ ys)
  AllGrounded-append xs ys h k = All-append (IsGrounded queried) xs ys h k

-- A finding that cites one observation.
pub one-IsGrounded :
    (id : ObservationId) (code : Text) (severity : Severity) (title detail : Text)
    → safe_text title ≡ true
    → safe_text detail ≡ true
    → IsGrounded (id ∷ []) (finding code severity title detail (id ∷ []))
one-IsGrounded id code severity title detail t d =
    finding-IsGrounded (id ∷ []) (id ∷ []) code severity title detail (cited_self id, tt) refl t d

pub IsGrounded-mono :
    (few many : List ObservationId)
    → ((id : ObservationId) → contains few id ≡ true → contains many id ≡ true)
    → (f : Finding) → IsGrounded few f
    → IsGrounded many f
IsGrounded-mono few many h f g = record {
  cited =
      All-map (λ id. contains few id ≡ true) (λ id. contains many id ≡ true) h f.evidence g.cited;
  has_evidence = g.has_evidence;
  distinct = g.distinct;
  safe_title = g.safe_title;
  safe_detail = g.safe_detail;
}

pub AllGrounded-mono :
    (few many : List ObservationId)
    → ((id : ObservationId) → contains few id ≡ true → contains many id ≡ true)
    → (findings : List Finding) → AllGrounded few findings
    → AllGrounded many findings
AllGrounded-mono few many h findings g =
    All-map (IsGrounded few) (IsGrounded many) (IsGrounded-mono few many h) findings g

pub cited_sub :
    (few many : List ObservationId)
    → ((id : ObservationId) → contains few id ≡ true → contains many id ≡ true)
    → All (λ id. contains many id ≡ true) few
cited_sub [] many h = tt
cited_sub (id ∷ ids) many h =
    (h id (ground (arith, =?_refl id)), cited_sub ids many (λ other p. h other (ground arith)))

pub cited_all : (ids : List ObservationId) → All (λ id. contains ids id ≡ true) ids
cited_all ids = cited_sub ids ids (λ id p. p)

abbrev pub ids_of : {A : Type 0} → List (ObservationId × A) → List ObservationId
ids_of found = map (λ r. r.0) found

-- The records that a test accepts are of the query.
pub accepted-sub :
    (accepts : Text → Bool) (found : List (ObservationId × DnsRecord)) (id : ObservationId)
    → contains (ids_of (accepted accepts found)) id ≡ true
    → contains (ids_of found) id ≡ true
accepted-sub accepts [] id h = h
accepted-sub accepts ((i, r) ∷ rs) id h =
    let later = accepted-sub accepts rs id in kept (txt r.contents) later h
  where
    kept :
        (o : Option Text)
        → (contains (ids_of (accepted accepts rs)) id ≡ true → contains (ids_of rs) id ≡ true)
        → contains (ids_of (tagged i accepts o ++ accepted accepts rs)) id ≡ true
        → (i == id || contains (ids_of rs) id) ≡ true
    kept none later k = ground arith
    kept (some text) later k = elim (Bool-cases (accepts text)) [
      | inl y ↦ ground arith
      | inr n ↦ ground arith
    ]

-- A query that gave records gave at least one.
abbrev pub IsAnswer : QueryResult → Type 0
IsAnswer (records []) = ⊥
IsAnswer _ = Unit

-- The text between a number and a domain, and after it.
pub counted_safe :
    (n : ℕ) (between domain rest : Text)
    → safe_text between ≡ true
    → safe_text domain ≡ true
    → safe_text rest ≡ true
    → safe_text (decimal n ++ between ++ domain ++ rest) ≡ true
counted_safe n between domain rest h k l =
    safe_text-append (decimal n ++ between ++ domain) rest
      (safe_text-append (decimal n ++ between) domain
        (safe_text-append (decimal n) between (decimal_safe n) h) k)
      l
