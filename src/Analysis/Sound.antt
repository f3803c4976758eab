-- ===== src/Analysis/Sound.antt =====
-- What the findings of the whole analysis cite and show.
use sentinel_osint.Common.{
  Bool, true, false, Option, none, some, List, [], ◌∷◌, ◌++◌, contains, contains-append, nat_eq,
  ◌≡◌, refl, sym, ap, ◌∙◌, subst, arith, ◌⊎◌, Any, Option-cases, inl, inr, if◌then◌else◌,
}
use sentinel_osint.Common.Text.{Text}
use sentinel_osint.Net.{IpAddr}
use sentinel_osint.Indicator.Defs.{Crates}
use sentinel_osint.Evidence.Observations.{ObservationId}
use sentinel_osint.Evidence.Dns.{
  DnsRecordType, a_type, aaaa_type, mx_type, ns_type, txt_type, cname_type, soa_type, caa_type,
  no_data, nx_domain,
}
use sentinel_osint.Analysis.{
  QueryResult, failed, empty, records, DnsAnswers, apex_of, or_failed, evidence_of, records_of,
  is_nxdomain,
}
use sentinel_osint.Analysis.Records.Cites as OfRecords
use sentinel_osint.Analysis.Spf.Cites as OfSpf
use sentinel_osint.Analysis.Dmarc.Cites as OfDmarc
use sentinel_osint.Analysis.Caa.Cites as OfCaa
use sentinel_osint.Analysis.Whole.{
  record_types, nxdomain_or, find_nxdomain, nxdomain_findings, every_analyzer, analyze,
}
use sentinel_osint.Analysis.Grounded.{
  safe_text, safe_text-append, AllGrounded, AllGrounded-append, AllGrounded-mono,
  finding-IsGrounded, cited_all, ids_of, IsAnswer,
}

-- What the queries of these types observed.
abbrev pub observed_by : DnsAnswers → List DnsRecordType → List ObservationId
observed_by answers [] = []
observed_by answers (kind ∷ types) = evidence_of (apex_of answers kind) ++ observed_by answers types

-- What all queries observed.
abbrev pub observed : DnsAnswers → List ObservationId
observed answers = evidence_of answers.dmarc ++ observed_by answers record_types

abbrev Listed : DnsRecordType → List DnsRecordType → Type 0
Listed kind types = Any (λ t. t ≡ kind) types

all_listed : (kind : DnsRecordType) → Listed kind record_types
all_listed a_type = inl refl
all_listed aaaa_type = inr (inl refl)
all_listed mx_type = inr (inr (inl refl))
all_listed ns_type = inr (inr (inr (inl refl)))
all_listed txt_type = inr (inr (inr (inr (inl refl))))
all_listed cname_type = inr (inr (inr (inr (inr (inl refl)))))
all_listed soa_type = inr (inr (inr (inr (inr (inr (inl refl))))))
all_listed caa_type = inr (inr (inr (inr (inr (inr (inr (inl refl)))))))

observed_by-sub :
    (answers : DnsAnswers) (kind : DnsRecordType) (types : List DnsRecordType) (id : ObservationId)
    → Listed kind types
    → contains (evidence_of (apex_of answers kind)) id ≡ true
    → contains (observed_by answers types) id ≡ true
observed_by-sub answers kind [] id l h = absurd l
observed_by-sub answers kind (t ∷ ts) id (inl e) h =
    let here = subst (λ u. contains (evidence_of (apex_of answers u)) id ≡ true) (sym e) h in
    ground
      (arith, contains-append (evidence_of (apex_of answers t)) (observed_by answers ts) id, here)
observed_by-sub answers kind (t ∷ ts) id (inr l) h =
    let later = observed_by-sub answers kind ts id l h in
    ground
      (arith, contains-append (evidence_of (apex_of answers t)) (observed_by answers ts) id, later)

observed-apex :
    (answers : DnsAnswers) (kind : DnsRecordType) (id : ObservationId)
    → contains (evidence_of (apex_of answers kind)) id ≡ true
    → contains (observed answers) id ≡ true
observed-apex answers kind id h =
    let listed = observed_by-sub answers kind record_types id (all_listed kind) h in
    ground (
      arith,
      contains-append (evidence_of answers.dmarc) (observed_by answers record_types) id,
      listed,
    )

observed-dmarc :
    (answers : DnsAnswers) (id : ObservationId)
    → contains (evidence_of answers.dmarc) id ≡ true
    → contains (observed answers) id ≡ true
observed-dmarc answers id h =
    ground
      (arith, contains-append (evidence_of answers.dmarc) (observed_by answers record_types) id, h)

-- Records are evidence.
evidence-records :
    (result : QueryResult) (id : ObservationId)
    → contains (ids_of (records_of result)) id ≡ true
    → contains (evidence_of result) id ≡ true
evidence-records failed id h = h
evidence-records (empty i reason) id h = cc
evidence-records (records found) id h = h

observed-records :
    (answers : DnsAnswers) (kind : DnsRecordType) (id : ObservationId)
    → contains (ids_of (records_of (apex_of answers kind))) id ≡ true
    → contains (observed answers) id ≡ true
observed-records answers kind id h =
    observed-apex answers kind id (evidence-records (apex_of answers kind) id h)

if_some :
    {A : Type 0} (b : Bool) (a : A) {later : Option A} {found : A}
    → (if b then some a else later) ≡ some found
    → ((a ≡ found) × (b ≡ true)) ⊎ (later ≡ some found)
if_some true a h = inl (cc, refl)
if_some false a h = inr h

abbrev FoundAt : DnsAnswers → QueryResult → Type 0
FoundAt answers result =
    (kind : DnsRecordType) × (apex_of answers kind ≡ result) × (is_nxdomain result ≡ true)

-- The result that `find` returns.
find_nxdomain-eq-some :
    (answers : DnsAnswers) (types : List DnsRecordType) (result : QueryResult)
    → find_nxdomain answers types ≡ some result
    → FoundAt answers result
find_nxdomain-eq-some answers [] result h = cc
find_nxdomain-eq-some answers (kind ∷ types) result h =
    at_first (answers.apex kind) refl h (find_nxdomain-eq-some answers types result)
  where
    at_first :
        (o : Option QueryResult)
        → answers.apex kind ≡ o
        → nxdomain_or o (find_nxdomain answers types) ≡ some result
        → (find_nxdomain answers types ≡ some result → FoundAt answers result)
        → FoundAt answers result
    at_first none e k later = later k
    at_first (some r) e k later = elim (if_some (is_nxdomain r) r k) [
      | inl (same, y) ↦ (kind, ap or_failed e ∙ same, subst (λ q. is_nxdomain q ≡ true) same y)
      | inr m ↦ later m
    ]

nxdomain_grounded :
    (domain : Text) (result : QueryResult)
    → safe_text domain ≡ true
    → is_nxdomain result ≡ true
    → AllGrounded (evidence_of result) (nxdomain_findings domain result)
unfolding nxdomain_findings
nxdomain_grounded domain (empty id nx_domain) safe h = (
  finding-IsGrounded (id ∷ []) (id ∷ []) _ _ _ _ (cited_all (id ∷ [])) refl refl
      (safe_text-append domain _ safe refl),
  tt,
)
nxdomain_grounded domain (empty id no_data) safe h = cc
nxdomain_grounded domain (records found) safe h = cc
nxdomain_grounded domain failed safe h = cc

-- Every query that gave records gave at least one.
pub record AreAnswers (answers : DnsAnswers) : Type 0 where
  pub apex : (kind : DnsRecordType) → IsAnswer (apex_of answers kind)
  pub dmarc : IsAnswer answers.dmarc

module _ (lib : Crates) (display : IpAddr → Text)
    (shows : (ip : IpAddr) → safe_text (display ip) ≡ true) (answers : DnsAnswers)
    (safe : safe_text answers.domain ≡ true) (answered : AreAnswers answers) where
  every_analyzer_grounded : AllGrounded (observed answers) (every_analyzer lib display answers)
  unfolding every_analyzer
  every_analyzer_grounded =
      let txt = apex_of answers txt_type in
      let caa = apex_of answers caa_type in
      AllGrounded-append (observed answers) _ _
        (AllGrounded-append (observed answers) _ _
          (AllGrounded-append (observed answers) _ _
            (OfRecords.analyze_grounded display shows answers (observed answers) safe
              (observed-records answers a_type) (observed-records answers aaaa_type)
              (observed-records answers mx_type))
            (AllGrounded-mono (evidence_of txt) (observed answers) (observed-apex answers txt_type)
              _ (OfSpf.analyze_grounded answers.domain txt safe (answered.apex txt_type))))
          (AllGrounded-mono (evidence_of answers.dmarc) (observed answers) (observed-dmarc answers)
            _ (OfDmarc.analyze_grounded answers.domain answers.dmarc safe answered.dmarc)))
        (AllGrounded-mono (evidence_of caa) (observed answers) (observed-apex answers caa_type) _
          (OfCaa.analyze_grounded lib answers.domain caa safe (answered.apex caa_type)))

  of_nxdomain :
      (result : QueryResult)
      → FoundAt answers result
      → AllGrounded (observed answers) (nxdomain_findings answers.domain result)
  of_nxdomain result (kind, same, y) =
      AllGrounded-mono (evidence_of result) (observed answers)
        (subst
          (λ q.
            (id : ObservationId)
            → contains (evidence_of q) id ≡ true
            → contains (observed answers) id ≡ true)
          same (observed-apex answers kind))
        (nxdomain_findings answers.domain result) (nxdomain_grounded answers.domain result safe y)

  -- For a domain that may be shown, addresses that are written with such characters, and queries that
  -- gave no empty list of records, every finding cites at least one observation, each once, and only
  -- those of the answers, and has texts that may be shown.
  pub analyze-AllGrounded : AllGrounded (observed answers) (analyze lib display answers)
  unfolding analyze
  analyze-AllGrounded = elim (Option-cases (find_nxdomain answers record_types)) [
    | inl e ↦ rw (e, analyze) every_analyzer_grounded
    | inr (result, e) ↦
        rw (e, analyze) (of_nxdomain result (find_nxdomain-eq-some answers record_types result e))
  ]

-- A failed query is not an empty answer.
find_nxdomain_failed :
    (answers : DnsAnswers) (types : List DnsRecordType)
    → ((kind : DnsRecordType) → apex_of answers kind ≡ failed)
    → find_nxdomain answers types ≡ none
find_nxdomain_failed answers [] h = refl
find_nxdomain_failed answers (kind ∷ types) h =
    skip (answers.apex kind) (h kind) ∙ find_nxdomain_failed answers types h
  where
    skip :
        (o : Option QueryResult)
        → or_failed o ≡ failed
        → nxdomain_or o (find_nxdomain answers types) ≡ find_nxdomain answers types
    skip none e = refl
    skip (some failed) e = refl
    skip (some (records found)) e = cc
    skip (some (empty id reason)) e = cc

-- Where the query for every record type failed, and the one for DMARC, there are no findings.
analyze_failed :
    (lib : Crates) (display : IpAddr → Text) (answers : DnsAnswers)
    → ((kind : DnsRecordType) → apex_of answers kind ≡ failed)
    → answers.dmarc ≡ failed
    → analyze lib display answers ≡ []
unfolding analyze
analyze_failed lib display answers h d =
    rw (find_nxdomain_failed answers record_types h, analyze)
      (rw (h a_type, h aaaa_type, h mx_type, h txt_type, h caa_type, d) refl)
