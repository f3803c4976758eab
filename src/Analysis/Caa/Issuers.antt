-- ===== src/Analysis/Caa/Issuers.antt =====
-- Which issuers the CAA records authorize, apart from the loop over them.
use mathlib.Core.List.{append-nil, append_assoc}
use sentinel_osint.Common.{
  list_beq, list_beq_iff, nat_eq, Bool, true, false, not, ◌&&◌, ◌||◌, List, [], ◌∷◌, ◌++◌, map,
  if◌then◌else◌, is_empty, filter, any, ◌≡◌, refl, sym, ap, ◌∙◌, arith, Bool-cases, inl, inr,
}
use sentinel_osint.Common.Text.{Text, codes, trim, to_ascii_lowercase, eq_ignore_ascii_case}
use sentinel_osint.Common.Text.Splitting.{before, split-before}
use sentinel_osint.Indicator.Defs.{Crates}
use sentinel_osint.Evidence.Observations.{ObservationId}
use sentinel_osint.Evidence.Dns.{DnsRecord, DnsRecordData, caa_data}
use sentinel_osint.Analysis.Grounded.{ids_of}
use sentinel_osint.Analysis.Caa.{
  Issuance, no_issuance, Tally, default_tally, Triple, was_seen, TagKind, issue_kind,
  issuewild_kind, iodef_kind, known_kind, unknown_kind, kind_of, issuer_of, is_name, authorize,
  classify_tag, count_duplicate, first_part, tally_one, tally_from, tally,
}

abbrev is_issue : TagKind → Bool
is_issue issue_kind = true
is_issue _ = false

abbrev is_issuewild : TagKind → Bool
is_issuewild issuewild_kind = true
is_issuewild _ = false

-- The observation and the issuer of a CAA record with the tag in any ASCII case; the issuer stands in
-- front of the parameters.
abbrev select : Text → ObservationId → DnsRecordData → List (ObservationId × Text)
select label id (caa_data critical tag value) =
    if eq_ignore_ascii_case tag label then (id, trim (before b';' value)) ∷ [] else []
select label id _ = []

abbrev pub selected : Text → List (ObservationId × DnsRecord) → List (ObservationId × Text)
selected label [] = []
selected label ((id, r) ∷ rs) = select label id r.contents ++ selected label rs

issuer_of-before : (value : Text) → issuer_of value ≡ trim (before b';' value)
issuer_of-before value =
    let (parts, e) = split-before b';' value in ap (λ ps. trim (first_part ps)) e

is_issue-kind_of :
    (tag : Text)
    → is_issue (kind_of (to_ascii_lowercase tag)) ≡ eq_ignore_ascii_case tag (codes "issue")
unfolding kind_of
is_issue-kind_of tag = first_test (list_beq (to_ascii_lowercase tag) (codes "issue")) _ _ _
  where
    first_test :
        (a b c d : Bool)
        → is_issue (
            if a
            then issue_kind
            else if b
            then issuewild_kind
            else if c
            then iodef_kind
            else if d
            then known_kind
            else unknown_kind)
          ≡ a
    first_test true b c d = refl
    first_test false true c d = refl
    first_test false false true d = refl
    first_test false false false true = refl
    first_test false false false false = refl

is_issuewild-kind_of :
    (tag : Text)
    → is_issuewild (kind_of (to_ascii_lowercase tag)) ≡ eq_ignore_ascii_case tag (codes "issuewild")
unfolding kind_of
is_issuewild-kind_of tag = elim (Bool-cases (list_beq (to_ascii_lowercase tag) (codes "issue"))) [
  | inl y ↦ rw ((list_beq_iff (to_ascii_lowercase tag) (codes "issue")).0 y) refl
  | inr n ↦ rw n (second_test (list_beq (to_ascii_lowercase tag) (codes "issuewild")) _ _)
]
  where
    second_test :
        (b c d : Bool)
        → is_issuewild (
            if b
            then issuewild_kind
            else if c
            then iodef_kind
            else if d
            then known_kind
            else unknown_kind)
          ≡ b
    second_test true c d = refl
    second_test false true d = refl
    second_test false false true = refl
    second_test false false false = refl

abbrev pub issuers_of : List (ObservationId × Text) → List Text
issuers_of found = map (λ r. r.1) found

module _ (lib : Crates) where
  -- What the records of one tag authorize.
  pub record IsIssuance (found : List (ObservationId × Text)) (i : Issuance) : Type 0 where
    pub evidence : i.evidence ≡ ids_of found
    pub issuers : i.issuers ≡ filter (λ s. not (is_empty s) && is_name lib s) (issuers_of found)
    pub forbid : i.forbid ≡ any is_empty (issuers_of found)

  abbrev authorize_all : List (ObservationId × Text) → Issuance → Issuance
  authorize_all [] i = i
  authorize_all ((id, issuer) ∷ more) i = authorize_all more (authorize lib issuer id i)

  authorize_all-append :
      (xs ys : List (ObservationId × Text)) (i : Issuance)
      → authorize_all (xs ++ ys) i ≡ authorize_all ys (authorize_all xs i)
  authorize_all-append [] ys i = refl
  authorize_all-append ((id, issuer) ∷ xs) ys i =
      authorize_all-append xs ys (authorize lib issuer id i)

  -- A field of the tally that the accepted tags change.
  module _ (get : Tally → Issuance) (test : TagKind → Bool) (label : Text)
      (test-kind_of : (tag : Text)
        → test (kind_of (to_ascii_lowercase tag)) ≡ eq_ignore_ascii_case tag label)
      (get-classify : (kind : TagKind) (critical : Bool) (tag value : Text) (id : ObservationId)
          (t : Tally)
        → get (classify_tag lib kind critical tag value id t)
          ≡ (if test kind then authorize lib (issuer_of value) id (get t) else get t))
      (get-count : (repeated : Bool) (id : ObservationId) (t : Tally)
        → get (count_duplicate lib repeated id t) ≡ get t) where
    get-tally_one :
        (id : ObservationId) (contents : DnsRecordData) (loop : List Triple × Tally)
        → get (tally_one lib id contents loop).1
          ≡ authorize_all (select label id contents) (get loop.1)
    unfolding tally_one
    get-tally_one id (caa_data critical tag value) (seen, t) =
        let kind = kind_of (to_ascii_lowercase tag) in
        let repeated = was_seen seen (critical, to_ascii_lowercase tag, value) in
        rw
          (
            get-classify kind critical tag value id (count_duplicate lib repeated id t),
            get-count repeated id t,
          )
          (ap (λ b. if b then authorize lib (issuer_of value) id (get t) else get t)
              (test-kind_of tag)
            ∙ chosen (eq_ignore_ascii_case tag label) value)
      where
        chosen :
            (b : Bool) (value : Text)
            → (if b then authorize lib (issuer_of value) id (get t) else get t)
              ≡ authorize_all (if b then (id, trim (before b';' value)) ∷ [] else []) (get t)
        chosen true value = ap (λ s. authorize lib s id (get t)) (issuer_of-before value)
        chosen false value = refl
    get-tally_one id _ loop = refl

    get-tally_from :
        (found : List (ObservationId × DnsRecord)) (loop : List Triple × Tally)
        → get (tally_from lib found loop).1 ≡ authorize_all (selected label found) (get loop.1)
    unfolding tally_from
    get-tally_from [] loop = refl
    get-tally_from ((id, r) ∷ rs) loop =
        get-tally_from rs (tally_one lib id r.contents loop)
        ∙ ap (authorize_all (selected label rs)) (get-tally_one id r.contents loop)
        ∙ sym (authorize_all-append (select label id r.contents) (selected label rs) (get loop.1))

  abbrev if_valid : Text → List Text → List Text
  if_valid s later = if not (is_empty s) && is_name lib s then s ∷ later else later

  -- The three fields after one record.
  authorize_lem :
      (issuer : Text) (id : ObservationId) (i : Issuance)
      → ((authorize lib issuer id i).evidence ≡ i.evidence ++ id ∷ [])
        × ((authorize lib issuer id i).issuers ≡ i.issuers ++ if_valid issuer [])
        × ((authorize lib issuer id i).forbid ≡ (i.forbid || is_empty issuer))
  authorize_lem issuer id i = elim (Bool-cases (is_empty issuer)) [
    | inl y ↦ rw y (refl, sym (append-nil i.issuers), ground arith)
    | inr n ↦ elim (Bool-cases (is_name lib issuer)) [
      | inl y ↦ rw (n, y) (refl, refl, ground arith)
      | inr m ↦ rw (n, m) (refl, sym (append-nil i.issuers), ground arith)
    ]
  ]

  evidence-authorize_all :
      (found : List (ObservationId × Text)) (i : Issuance)
      → (authorize_all found i).evidence ≡ i.evidence ++ ids_of found
  evidence-authorize_all [] i = sym (append-nil i.evidence)
  evidence-authorize_all ((id, issuer) ∷ more) i =
      evidence-authorize_all more (authorize lib issuer id i)
      ∙ ap (λ e. e ++ ids_of more) (authorize_lem issuer id i).0
      ∙ append_assoc i.evidence (id ∷ []) (ids_of more)

  if_valid-append : (s : Text) (later : List Text) → if_valid s [] ++ later ≡ if_valid s later
  if_valid-append s later = elim (Bool-cases (not (is_empty s) && is_name lib s)) [
    | inl y ↦ rw y refl
    | inr n ↦ rw n refl
  ]

  issuers-authorize_all :
      (found : List (ObservationId × Text)) (i : Issuance)
      → (authorize_all found i).issuers
        ≡ i.issuers ++ filter (λ s. not (is_empty s) && is_name lib s) (issuers_of found)
  issuers-authorize_all [] i = sym (append-nil i.issuers)
  issuers-authorize_all ((id, issuer) ∷ more) i =
      issuers-authorize_all more (authorize lib issuer id i)
      ∙ ap (λ e. e ++ rest) (authorize_lem issuer id i).1
      ∙ append_assoc i.issuers (if_valid issuer []) rest
      ∙ ap (λ e. i.issuers ++ e) (if_valid-append issuer rest)
    where
      rest : List Text
      rest = filter (λ s. not (is_empty s) && is_name lib s) (issuers_of more)

  forbid-authorize_all :
      (found : List (ObservationId × Text)) (i : Issuance)
      → (authorize_all found i).forbid ≡ (i.forbid || any is_empty (issuers_of found))
  forbid-authorize_all [] i = ground arith
  forbid-authorize_all ((id, issuer) ∷ more) i =
      ground (
        arith,
        forbid-authorize_all more (authorize lib issuer id i),
        (authorize_lem issuer id i).2,
      )

  authorize_all-IsIssuance :
      (found : List (ObservationId × Text)) (i : Issuance)
      → i ≡ authorize_all found no_issuance
      → IsIssuance found i
  authorize_all-IsIssuance found i e = record {
    evidence = ap (λ j. j.evidence) e ∙ evidence-authorize_all found no_issuance;
    issuers = ap (λ j. j.issuers) e ∙ issuers-authorize_all found no_issuance;
    forbid = ap (λ j. j.forbid) e ∙ forbid-authorize_all found no_issuance;
  }

  issue-classify :
      (kind : TagKind) (critical : Bool) (tag value : Text) (id : ObservationId) (t : Tally)
      → (classify_tag lib kind critical tag value id t).issue
        ≡ (if is_issue kind then authorize lib (issuer_of value) id t.issue else t.issue)
  issue-classify unknown_kind true tag value id t = refl
  issue-classify unknown_kind false tag value id t = refl
  issue-classify issue_kind critical tag value id t = refl
  issue-classify _ critical tag value id t = refl

  issuewild-classify :
      (kind : TagKind) (critical : Bool) (tag value : Text) (id : ObservationId) (t : Tally)
      → (classify_tag lib kind critical tag value id t).issuewild ≡ (
          if is_issuewild kind then authorize lib (issuer_of value) id t.issuewild else t.issuewild)
  issuewild-classify unknown_kind true tag value id t = refl
  issuewild-classify unknown_kind false tag value id t = refl
  issuewild-classify issuewild_kind critical tag value id t = refl
  issuewild-classify _ critical tag value id t = refl

  -- For `issue` and for `issuewild` the tally cites exactly the records with that tag in any ASCII case,
  -- in their order, authorizes exactly the issuers, the trimmed texts in front of the first semicolon,
  -- that are names, in their order, and notes whether one of them is empty.
  pub tally-IsIssuance :
      (found : List (ObservationId × DnsRecord))
      → IsIssuance (selected (codes "issue") found) (tally lib found).issue
        × IsIssuance (selected (codes "issuewild") found) (tally lib found).issuewild
  unfolding tally
  tally-IsIssuance found = (
    authorize_all-IsIssuance (selected (codes "issue") found) (tally lib found).issue (
        get-tally_from (λ t. t.issue) is_issue (codes "issue") is_issue-kind_of issue-classify
          (λ b id t. count_issue b id t) found ([], default_tally)),
    authorize_all-IsIssuance (selected (codes "issuewild") found) (tally lib found).issuewild (
        get-tally_from (λ t. t.issuewild) is_issuewild (codes "issuewild") is_issuewild-kind_of
          issuewild-classify (λ b id t. count_issuewild b id t) found ([], default_tally)),
  )
    where
      count_issue :
          (b : Bool) (id : ObservationId) (t : Tally) → (count_duplicate lib b id t).issue ≡ t.issue
      count_issue true id t = refl
      count_issue false id t = refl

      count_issuewild :
          (b : Bool) (id : ObservationId) (t : Tally)
          → (count_duplicate lib b id t).issuewild ≡ t.issuewild
      count_issuewild true id t = refl
      count_issuewild false id t = refl
