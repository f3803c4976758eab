-- ===== src/Tests/HttpWitnesses.antt =====
-- The theorems on crates/collectors/src/http/ and on the evidence model at concrete inputs.
use sentinel_osint.Common.{
  ℕ, ◌*◌, ◌≤◌, false, ◌&&◌, ◌||◌, none, some, List, [], ◌∷◌, length, ok, ◌≡◌, ◌≢◌, ◌↔◌, refl, All,
  contains, nat_eq,
}
use sentinel_osint.Common.Text.{Text, codes}
use sentinel_osint.Net.{v4, is_global}
use sentinel_osint.Http.Policy.{check_url, SocketAddr, resolve, retain_public, same_origin}
use sentinel_osint.Http.Allowed.{IsAllowed, Keeps, check_url-eq-ok, resolve-eq-ok}
use sentinel_osint.Http.Redirects.{
  redirect_policy, same_origin_only, Requested, sent, redirected, KeepsScope, Requested-sound,
}
use sentinel_osint.Http.Body.{
  limit_of, declares_more, read_body, Chunks, chunk, finished, Ends, bytes_of, read_body-eq-ok,
}
use sentinel_osint.Evidence.Entities.{indicator}
use sentinel_osint.Evidence.Relationships.{Relationship, resolves_to, is_same_edge}
use sentinel_osint.Evidence.Relationships
use sentinel_osint.Evidence.Relationships.Laws.{IsRelationship, new-IsRelationship}
use sentinel_osint.Indicator.Policy.{ipv4}
use sentinel_osint.Investigation.{Investigation, new, merge_or_push, failed, new_status}
use sentinel_osint.Investigation.Integrity.{IsIntact}
use sentinel_osint.Investigation.Operations.{
  Op, observe, relate, end, apply_all, WellTyped, apply_all-IsIntact,
}
use sentinel_osint.Investigation.Edges.{cites, merge_or_push-cites}
use sentinel_osint.Investigation.Statuses.{OutcomeShowable, new_status_lem}
use sentinel_osint.Tests.Samples.{sample_crates, quad_eight, example_target, seen, address_of_name}
use sentinel_osint.Tests.EngineTests.{unfolded_engine}

abbrev page : Text
page = codes "https://a.dev"

unfolded_http : Unit {0}
unfolding unfolded_engine check_url resolve redirect_policy is_global retain_public same_origin
unfolded_http = tt

page_allowed : check_url sample_crates page ≡ ok tt
unfolding unfolded_http
page_allowed = refl

check_url-eq-ok_example : (check_url sample_crates page ≡ ok tt) ↔ IsAllowed sample_crates page
check_url-eq-ok_example = check_url-eq-ok sample_crates page

page_again : redirect_policy sample_crates same_origin_only (page ∷ []) page ≡ ok tt
unfolding unfolded_http
page_again = refl

abbrev twice : List Text
twice = page ∷ page ∷ []

Requested-twice : Requested sample_crates same_origin_only twice
Requested-twice = redirected (page ∷ []) page (sent page_allowed) page_again refl

Requested-sound_example :
    All (IsAllowed sample_crates) twice
    × (length twice ≤ 4)
    × KeepsScope sample_crates same_origin_only twice
Requested-sound_example =
    Requested-sound sample_crates {scope = same_origin_only} {urls = twice} Requested-twice

abbrev answer_addresses : List SocketAddr
answer_addresses =
    record { ip = v4 (record { a = 127; b = 0; c = 0; d = 1 }); port = 443 }
    ∷ record { ip = v4 quad_eight; port = 443 }
    ∷ []

abbrev public_addresses : List SocketAddr
public_addresses = record { ip = v4 quad_eight; port = 443 } ∷ []

resolved_public : resolve answer_addresses ≡ ok public_addresses
unfolding unfolded_http
resolved_public = refl

resolve-eq-ok_example : Keeps answer_addresses public_addresses × (public_addresses ≢ [])
resolve-eq-ok_example = resolve-eq-ok answer_addresses public_addresses resolved_public

abbrev whole_body : List ℕ
whole_body = 1 ∷ 2 ∷ 3 ∷ []

abbrev two_chunks : Chunks
two_chunks = chunk (1 ∷ 2 ∷ []) (chunk (3 ∷ []) finished)

read_body-eq-ok_example :
    ((read_body (limit_of (some 3) 10) (some 3) two_chunks ≡ ok whole_body) ↔ (
      (declares_more (some 3) (limit_of (some 3) 10) ≡ false)
      × (Ends two_chunks
          × (whole_body ≡ bytes_of two_chunks)
          × (length whole_body ≤ limit_of (some 3) 10))))
    × (limit_of (some 3) 10 ≤ 64 * 1024 * 1024)
read_body-eq-ok_example = read_body-eq-ok (some 3) 10 (some 3) two_chunks whole_body

abbrev opened : Investigation sample_crates
opened = record {
  target = example_target;
  started_at = 5;
  finished_at = none;
  observations = [];
  relationships = [];
  findings = [];
  sources = [];
}

opened_lem : new sample_crates example_target 5 ≡ ok opened
unfolding unfolded_http
opened_lem = refl

abbrev steps : List (Op sample_crates)
steps =
    relate address_of_name
    ∷ observe seen
    ∷ relate address_of_name
    ∷ relate address_of_name
    ∷ end 3
    ∷ end 9
    ∷ []

related : IsRelationship sample_crates address_of_name
related = record { typed = refl; has_evidence = λ e. cc; distinct = (refl, tt) }

steps-WellTyped : All (WellTyped sample_crates) steps
steps-WellTyped = (related, (tt, (related, (related, (tt, (tt, tt))))))

apply_all-IsIntact_example : IsIntact sample_crates (apply_all sample_crates steps opened)
apply_all-IsIntact_example =
    apply_all-IsIntact sample_crates example_target 5 opened steps opened_lem steps-WellTyped

abbrev more_evidence : Relationship sample_crates
more_evidence = record address_of_name { evidence = 8 ∷ [] }

merge_or_push-cites_example :
    cites sample_crates
      (merge_or_push sample_crates (address_of_name ∷ []) more_evidence)
      address_of_name
      8
    ≡ (cites sample_crates (address_of_name ∷ []) address_of_name 8
        || (is_same_edge sample_crates more_evidence address_of_name
            && contains more_evidence.evidence 8))
merge_or_push-cites_example =
    merge_or_push-cites sample_crates (address_of_name ∷ []) more_evidence address_of_name 8

new_status_lem_example :
    let status = new_status sample_crates (codes "dns") example_target (failed (10 ∷ [])) 9 4 in
    OutcomeShowable status.outcome
    × (status.started_at ≤ status.finished_at)
    × (4 ≤ status.finished_at)
    × (status.started_at ≡ 9)
    × (status.source ≡ codes "dns")
    × (status.indicator ≡ example_target)
new_status_lem_example =
    new_status_lem sample_crates (codes "dns") example_target (failed (10 ∷ [])) 9 4

made :
    Relationships.new sample_crates
      (indicator example_target)
      resolves_to
      (indicator (ipv4 quad_eight))
      (7 ∷ 7 ∷ [])
    ≡ ok address_of_name
unfolding unfolded_http Relationships.new
made = refl

new-IsRelationship_example :
    IsRelationship sample_crates address_of_name
    × (address_of_name.source ≡ indicator example_target)
    × (address_of_name.kind ≡ resolves_to)
    × (address_of_name.target ≡ indicator (ipv4 quad_eight))
    × ((a : ℕ) → contains address_of_name.evidence a ≡ contains {A = ℕ} (7 ∷ 7 ∷ []) a)
new-IsRelationship_example =
    new-IsRelationship sample_crates (indicator example_target) resolves_to
      (indicator (ipv4 quad_eight)) (7 ∷ 7 ∷ []) address_of_name made
