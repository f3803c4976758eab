-- ===== src/Analysis/Spf/Reported.antt =====
-- Which findings a record leads to, by its terms.
use mathlib.Core.List.{map-append}
use sentinel_osint.Common.{
  ℕ, Bool, true, false, not, ◌||◌, Option, none, some, List, [], ◌∷◌, ◌++◌, map, ltb, if◌then◌else◌,
  length, filter, any, is_empty, ◌≡◌, refl, ◌∙◌, Bool-cases, inl, inr,
}
use sentinel_osint.Common.Text.{Text, codes}
use sentinel_osint.Evidence.Observations.{ObservationId}
use sentinel_osint.Evidence.Findings.{Finding}
use sentinel_osint.Analysis.Spf.{
  Qualifier, pass, fail, soft_fail, neutral, max_dns_lookups, max_terms, SpfSummary, terms_of,
  parse,
}
use sentinel_osint.Analysis.Spf.Grammar.{described}
use sentinel_osint.Analysis.Spf.Findings.{
  policy_finding, include_findings, lookup_findings, ptr_findings, invalid_findings, other_findings,
  analyze_record,
}
use sentinel_osint.Analysis.Spf.Laws.{
  first_of, values, count, all_of, redirect_of, include_of, is_lookup, is_ptr, is_invalid,
  IsSummary, examined, parse-IsSummary, parse_bounds,
}

-- The first `all` decides, then the first `redirect=`.
abbrev pub policy_code : Option Qualifier → Option Text → Text
policy_code (some fail) target = codes "dns.spf.hardfail"
policy_code (some soft_fail) target = codes "dns.spf.softfail"
policy_code (some neutral) target = codes "dns.spf.neutral_all"
policy_code (some pass) target = codes "dns.spf.permissive_all"
policy_code none (some target) = codes "dns.spf.redirect"
policy_code none none = codes "dns.spf.no_all"

abbrev pub reported_if : Bool → Text → List Text
reported_if holds code = if holds then code ∷ [] else []

-- The codes that the terms of a record call for.
abbrev pub expected_codes : List Text → Bool → List Text
expected_codes terms truncated =
    policy_code (first_of all_of terms) (first_of redirect_of terms)
      ∷ reported_if (not (is_empty (values (λ t. include_of (described t)) terms)))
          (codes "dns.spf.includes")
    ++ reported_if (ltb max_dns_lookups (count is_lookup terms)) (codes "dns.spf.too_many_lookups")
    ++ reported_if (any (λ t. is_ptr (described t)) terms) (codes "dns.spf.ptr_mechanism")
    ++ reported_if (not (is_empty (filter (λ t. is_invalid (described t)) terms)) || truncated)
        (codes "dns.spf.malformed")

abbrev codes_of : List Finding → List Text
codes_of findings = map (λ f. f.code) findings

module _ (id : ObservationId) where
  policy-code :
      (domain : Text) (policy : Option Qualifier) (target : Option Text)
      → (policy_finding id domain policy target).code ≡ policy_code policy target
  unfolding policy_finding
  policy-code domain (some fail) target = refl
  policy-code domain (some soft_fail) target = refl
  policy-code domain (some neutral) target = refl
  policy-code domain (some pass) target = refl
  policy-code domain none (some target) = refl
  policy-code domain none none = refl

  include-codes :
      (targets : List Text)
      → codes_of (include_findings id targets)
        ≡ reported_if (not (is_empty targets)) (codes "dns.spf.includes")
  unfolding include_findings
  include-codes [] = refl
  include-codes (t ∷ ts) = refl

  lookup-codes :
      (n : ℕ)
      → codes_of (lookup_findings id n)
        ≡ reported_if (ltb max_dns_lookups n) (codes "dns.spf.too_many_lookups")
  unfolding lookup_findings
  lookup-codes n = elim (Bool-cases (ltb max_dns_lookups n)) [
    | inl y ↦ rw y refl
    | inr f ↦ rw f refl
  ]

  ptr-codes :
      (has_ptr : Bool)
      → codes_of (ptr_findings id has_ptr) ≡ reported_if has_ptr (codes "dns.spf.ptr_mechanism")
  unfolding ptr_findings
  ptr-codes true = refl
  ptr-codes false = refl

  invalid-codes :
      (terms : List Text) (truncated : Bool)
      → codes_of (invalid_findings id terms truncated)
        ≡ reported_if (not (is_empty terms) || truncated) (codes "dns.spf.malformed")
  unfolding invalid_findings
  invalid-codes terms truncated = elim (Bool-cases (not (is_empty terms) || truncated)) [
    | inl y ↦ rw y refl
    | inr n ↦ rw n refl
  ]

  abbrev from_summary : SpfSummary → List Text
  from_summary s =
      policy_code s.all_qualifier s.redirect
        ∷ reported_if (not (is_empty s.includes)) (codes "dns.spf.includes")
      ++ reported_if (ltb max_dns_lookups s.lookup_terms) (codes "dns.spf.too_many_lookups")
      ++ reported_if s.has_ptr (codes "dns.spf.ptr_mechanism")
      ++ reported_if (not (is_empty s.invalid_terms) || s.truncated) (codes "dns.spf.malformed")

  other-codes :
      (domain : Text) (s : SpfSummary)
      → codes_of (policy_finding id domain s.all_qualifier s.redirect ∷ other_findings id s)
        ≡ from_summary s
  unfolding other_findings
  other-codes domain s =
      rw
        (
          map-append (λ f. f.code)
              (include_findings id s.includes
                ++ lookup_findings id s.lookup_terms
                ++ ptr_findings id s.has_ptr)
              (invalid_findings id s.invalid_terms s.truncated),
          map-append (λ f. f.code)
              (include_findings id s.includes ++ lookup_findings id s.lookup_terms)
              (ptr_findings id s.has_ptr),
          map-append (λ f. f.code) (include_findings id s.includes)
              (lookup_findings id s.lookup_terms),
          include-codes s.includes,
          lookup-codes s.lookup_terms,
          ptr-codes s.has_ptr,
          invalid-codes s.invalid_terms s.truncated,
          policy-code domain s.all_qualifier s.redirect,
        )
        refl

  -- The codes of the findings are, in this order, one for the policy, which the first `all` and then the
  -- first redirect of the first 128 terms decide, and those for includes, more than ten lookups, `ptr`,
  -- and invalid terms or more than 128 of them, where the terms call for them.
  pub analyze_record-codes :
      (domain text : Text)
      → codes_of (analyze_record id domain text)
        ≡ expected_codes (examined text) (ltb max_terms (length (terms_of text)))
  unfolding analyze_record
  analyze_record-codes domain text =
      let s = parse-IsSummary text in
      other-codes domain (parse text) ∙ summarized (parse text) s (parse_bounds text).2
    where
      summarized :
          (r : SpfSummary)
          → IsSummary (examined text) r
          → r.truncated ≡ ltb max_terms (length (terms_of text))
          → from_summary r ≡ expected_codes (examined text) (ltb max_terms (length (terms_of text)))
      summarized r s t =
          rw
            (s.all_qualifier, s.redirect, s.includes, s.lookup_terms, s.has_ptr, s.invalid_terms, t)
            refl
