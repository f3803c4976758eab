-- ===== src/Analysis/Spf/Cites.antt =====
-- What the findings of the SPF query cite and show.
use sentinel_osint.Common.{
  ℕ, Bool, true, false, not, ◌||◌, Option, none, some, List, [], ◌∷◌, ◌++◌, ltb, is_empty, length,
  contains, nat_eq, ◌≡◌, refl, Bool-cases, inl, inr,
}
use sentinel_osint.Common.Text.{Text, codes}
use sentinel_osint.Common.Text.Numbers.{decimal}
use sentinel_osint.Evidence.Observations.{ObservationId}
use sentinel_osint.Evidence.Dns.{is_spf_record}
use sentinel_osint.Analysis.{
  QueryResult, failed, empty, records, evidence_of, quote, list, accepted,
}
use sentinel_osint.Analysis.Spf.{Qualifier, pass, fail, soft_fail, neutral, max_dns_lookups, parse}
use sentinel_osint.Analysis.Spf.Findings.{
  lookup_detail, invalid_detail, cut_note, redirect_finding, policy_finding, include_findings,
  lookup_findings, ptr_findings, invalid_findings, analyze_record, by_count, analyze,
}
use sentinel_osint.Analysis.Grounded.{
  safe_text, safe_text-append, quote_safe, list_safe, IsGrounded, AllGrounded, AllGrounded-append,
  AllGrounded-mono, one-IsGrounded, finding-IsGrounded, cited_all, cited_sub, ids_of, accepted-sub,
  IsAnswer, counted_safe,
}

lookup_detail_safe : (n : ℕ) → safe_text (lookup_detail n) ≡ true
lookup_detail_safe n =
    counted_safe n (codes " DNS-querying terms; RFC 7208 §4.6.4 allows at most ") (decimal 10)
      (codes " per evaluation, so receivers return a permanent error.") refl refl refl

invalid_detail_safe : (terms : List Text) → safe_text (invalid_detail terms) ≡ true
unfolding invalid_detail
invalid_detail_safe terms =
    counted_safe (length terms) (codes " term(s) are not valid SPF: ") (list terms)
      (codes ". Receivers return a permanent error for syntax errors.") refl (list_safe terms) refl

cut_note_safe : (truncated : Bool) → safe_text (cut_note truncated) ≡ true
cut_note_safe true = refl
cut_note_safe false = refl

module _ (id : ObservationId) where
  redirect-IsGrounded :
      (domain : Text) (redirect : Option Text)
      → safe_text domain ≡ true
      → IsGrounded (id ∷ []) (redirect_finding id domain redirect)
  unfolding redirect_finding
  redirect-IsGrounded domain none safe = one-IsGrounded id _ _ _ _ refl refl
  redirect-IsGrounded domain (some target) safe = one-IsGrounded id _ _ _ _ refl (
      safe_text-append (domain ++ codes " is taken from " ++ quote target) (codes ".")
        (safe_text-append (domain ++ codes " is taken from ") (quote target)
          (safe_text-append domain (codes " is taken from ") safe refl) (quote_safe target))
        refl)

  policy-IsGrounded :
      (domain : Text) (policy : Option Qualifier) (redirect : Option Text)
      → safe_text domain ≡ true
      → IsGrounded (id ∷ []) (policy_finding id domain policy redirect)
  unfolding policy_finding
  policy-IsGrounded domain (some fail) redirect safe = one-IsGrounded id _ _ _ _ refl refl
  policy-IsGrounded domain (some soft_fail) redirect safe = one-IsGrounded id _ _ _ _ refl refl
  policy-IsGrounded domain (some neutral) redirect safe = one-IsGrounded id _ _ _ _ refl refl
  policy-IsGrounded domain (some pass) redirect safe = one-IsGrounded id _ _ _ _ refl refl
  policy-IsGrounded domain none redirect safe = redirect-IsGrounded domain redirect safe

  include_grounded : (targets : List Text) → AllGrounded (id ∷ []) (include_findings id targets)
  unfolding include_findings
  include_grounded [] = tt
  include_grounded (t ∷ ts) = (
    one-IsGrounded id _ _ _ _ refl (
        counted_safe (length (t ∷ ts)) (codes " include mechanism(s): ") (list (t ∷ ts)) _ refl
          (list_safe (t ∷ ts)) refl),
    tt,
  )

  lookup_grounded : (n : ℕ) → AllGrounded (id ∷ []) (lookup_findings id n)
  unfolding lookup_findings
  lookup_grounded n = elim (Bool-cases (ltb max_dns_lookups n)) [
    | inl y ↦ rw y (one-IsGrounded id _ _ _ _ refl (lookup_detail_safe n), tt)
    | inr f ↦ rw f tt
  ]

  ptr_grounded : (has_ptr : Bool) → AllGrounded (id ∷ []) (ptr_findings id has_ptr)
  unfolding ptr_findings
  ptr_grounded false = tt
  ptr_grounded true = (one-IsGrounded id _ _ _ _ refl refl, tt)

  invalid_grounded :
      (terms : List Text) (truncated : Bool)
      → AllGrounded (id ∷ []) (invalid_findings id terms truncated)
  unfolding invalid_findings
  invalid_grounded terms truncated = elim (Bool-cases (not (is_empty terms) || truncated)) [
    | inl y ↦ rw y (
      one-IsGrounded id _ _ _ _ refl (
          safe_text-append (invalid_detail terms) (cut_note truncated) (invalid_detail_safe terms)
            (cut_note_safe truncated)),
      tt,
    )
    | inr f ↦ rw f tt
  ]

  analyze_record_grounded :
      (domain text : Text)
      → safe_text domain ≡ true
      → AllGrounded (id ∷ []) (analyze_record id domain text)
  unfolding analyze_record
  analyze_record_grounded domain text safe =
      let s = parse text in
      (
        policy-IsGrounded domain s.all_qualifier s.redirect safe,
        AllGrounded-append (id ∷ []) _ _
            (AllGrounded-append (id ∷ []) _ _
              (AllGrounded-append (id ∷ []) _ _ (include_grounded s.includes)
                (lookup_grounded s.lookup_terms))
              (ptr_grounded s.has_ptr))
            (invalid_grounded s.invalid_terms s.truncated),
      )

module _ (domain : Text) (safe : safe_text domain ≡ true) (queried : List ObservationId) where
  by_count_grounded :
      (found : List (ObservationId × Text))
      → is_empty queried ≡ false
      → ((id : ObservationId) → contains (ids_of found) id ≡ true → contains queried id ≡ true)
      → AllGrounded queried (by_count domain queried found)
  unfolding by_count
  by_count_grounded [] h sub = (
    finding-IsGrounded queried queried _ _ _ _ (cited_all queried) h refl
        (safe_text-append domain _ safe refl),
    tt,
  )
  by_count_grounded ((id, text) ∷ []) h sub =
      AllGrounded-mono (id ∷ []) queried sub (analyze_record id domain text)
        (analyze_record_grounded id domain text safe)
  by_count_grounded (first ∷ second ∷ more) h sub = (
    finding-IsGrounded queried (ids_of (first ∷ second ∷ more)) _ _ _ _
        (cited_sub (ids_of (first ∷ second ∷ more)) queried sub) refl refl
        (counted_safe (length (first ∷ second ∷ more)) (codes " SPF records were found at ") domain
          _ refl safe refl),
    tt,
  )

pub analyze_grounded :
    (domain : Text) (result : QueryResult)
    → safe_text domain ≡ true
    → IsAnswer result
    → AllGrounded (evidence_of result) (analyze domain result)
unfolding analyze
analyze_grounded domain failed safe a = tt
analyze_grounded domain (empty id reason) safe a =
    by_count_grounded domain safe (id ∷ []) [] refl λ i e. cc
analyze_grounded domain (records (r ∷ rs)) safe a =
    by_count_grounded domain safe (ids_of (r ∷ rs)) (accepted is_spf_record (r ∷ rs)) refl
      (accepted-sub is_spf_record (r ∷ rs))
analyze_grounded domain (records []) safe a = absurd a
