-- ===== src/Tests/AnalysisWitnesses.antt =====
-- The theorems on the analyzers at concrete records.
use sentinel_osint.Common.{false, Option, none, some, List, [], ◌∷◌, map, length, ltb, ◌≡◌, refl}
use sentinel_osint.Common.Text.{Text, codes}
use sentinel_osint.Net.{IpAddr}
use sentinel_osint.Evidence.Dns.{
  DnsRecordType, txt_type, caa_type, mx_type, DnsRecordData, txt_data, caa_data, no_data,
}
use sentinel_osint.Analysis.{QueryResult, records, empty, failed, DnsAnswers, apex_of}
use sentinel_osint.Analysis.Grounded.{IsAnswer, AllGrounded}
use sentinel_osint.Analysis.Sound.{AreAnswers, observed, analyze-AllGrounded}
use sentinel_osint.Analysis.Whole.{analyze}
use sentinel_osint.Analysis.Dmarc
use sentinel_osint.Analysis.Dmarc.Laws.{IsBounded, parse-IsBounded}
use sentinel_osint.Analysis.Dmarc.Laws.Fields.{HasFields, first_of, parse-HasFields}
use sentinel_osint.Analysis.Spf.{max_terms, terms_of}
use sentinel_osint.Analysis.Spf.Findings.{analyze_record}
use sentinel_osint.Analysis.Spf
use sentinel_osint.Analysis.Spf.Laws.{IsSummary, examined, parse-IsSummary}
use sentinel_osint.Analysis.Spf.Reported.{expected_codes, analyze_record-codes}
use sentinel_osint.Analysis.Caa.{tally}
use sentinel_osint.Analysis.Caa.Issuers.{IsIssuance, selected, tally-IsIssuance}
use sentinel_osint.Tests.Samples.{sample_crates}
use sentinel_osint.Tests.AnalysisTests.{numbered, texts}

abbrev spf_text : Text
spf_text = codes "v=spf1 include:_spf.example.net ptr bogus -all +all"

abbrev dmarc_text : Text
dmarc_text = codes "v=DMARC1; p=reject; p=none; pct=50; rua=mailto:a@example.com"

abbrev some_caa : List DnsRecordData
some_caa =
    caa_data false (codes "Issue") (codes "example.org; x=y")
    ∷ caa_data false (codes "issue") (codes ";")
    ∷ []

abbrev sample_apex : DnsRecordType → Option QueryResult
sample_apex txt_type = some (texts (spf_text ∷ codes "other" ∷ []))
sample_apex caa_type = some (records (numbered 5 some_caa))
sample_apex mx_type = some (empty 9 no_data)
sample_apex _ = none

abbrev sample_answers : DnsAnswers
sample_answers = record {
  domain = codes "example.com";
  apex = sample_apex;
  dmarc = records (numbered 7 (txt_data dmarc_text ∷ []));
}

abbrev unknown_address : IpAddr → Text
unknown_address ip = codes "?"

sample-AreAnswers : AreAnswers sample_answers
sample-AreAnswers = record { apex = answered; dmarc = tt }
  where
    answered : (kind : DnsRecordType) → IsAnswer (apex_of sample_answers kind)
    answered txt_type = tt
    answered caa_type = tt
    answered mx_type = tt
    answered _ = tt

analyze-AllGrounded_example :
    AllGrounded (observed sample_answers) (analyze sample_crates unknown_address sample_answers)
analyze-AllGrounded_example =
    analyze-AllGrounded sample_crates unknown_address (λ ip. refl) sample_answers refl
      sample-AreAnswers

abbrev no_answers : DnsAnswers
no_answers = record { domain = codes "example.com"; apex = λ kind. none; dmarc = failed }

parse-HasFields_example : HasFields (first_of dmarc_text) (Dmarc.parse dmarc_text)
parse-HasFields_example = parse-HasFields dmarc_text

parse-IsBounded_example : IsBounded (Dmarc.parse dmarc_text)
parse-IsBounded_example = parse-IsBounded dmarc_text

parse-IsSummary_example : IsSummary (examined spf_text) (Spf.parse spf_text)
parse-IsSummary_example = parse-IsSummary spf_text

analyze_record-codes_example :
    map (λ f. f.code) (analyze_record 1 (codes "example.com") spf_text)
    ≡ expected_codes (examined spf_text) (ltb max_terms (length (terms_of spf_text)))
analyze_record-codes_example = analyze_record-codes 1 (codes "example.com") spf_text

tally-IsIssuance_example :
    IsIssuance sample_crates
      (selected (codes "issue") (numbered 5 some_caa))
      (tally sample_crates (numbered 5 some_caa)).issue
    × IsIssuance sample_crates
        (selected (codes "issuewild") (numbered 5 some_caa))
        (tally sample_crates (numbered 5 some_caa)).issuewild
tally-IsIssuance_example = tally-IsIssuance sample_crates (numbered 5 some_caa)
