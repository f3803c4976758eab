-- ===== src/Evidence/Findings.antt =====
-- crates/core/src/finding.rs: findings and their codes.
use sentinel_osint.Common.{
  Bool, true, not, ◌&&◌, ◌||◌, List, [], ◌∷◌, ◌++◌, ltb, ◌==◌, if◌then◌else◌, is_empty, contains,
  nat_eq,
}
use sentinel_osint.Common.Text.{Text, is_ascii_digit, is_ascii_lowercase, len}
use sentinel_osint.Evidence.Confidence.{Confidence}
use sentinel_osint.Evidence.Observations.{ObservationId}

pub data Severity : Type 0 where
  info low medium high : Severity

-- The loop of `is_valid_code`.
pub valid_code_from : Bool → Text → Bool
valid_code_from previous_was_dot [] = not previous_was_dot
valid_code_from previous_was_dot (b ∷ bytes) =
    let rest = valid_code_from (b == b'.') bytes in
    if b == b'.'
    then not previous_was_dot && rest
    else (is_ascii_lowercase b || is_ascii_digit b || b == b'_') && rest

-- `is_valid_code`, which `FindingCode::from_static` asserts.
unfoldable pub is_valid_code : Text → Bool
unfolding valid_code_from
is_valid_code code = not (is_empty code || ltb 64 (len code)) && valid_code_from true code

pub record Finding : Type 0 where
  pub code : Text
  pub severity : Severity
  pub title : Text
  pub detail : Text
  pub confidence : Confidence
  pub evidence : List ObservationId

-- `if !ids.contains(&id) { ids.push(id) }` for each id in turn.
unfoldable pub push_new : List ObservationId → List ObservationId → List ObservationId
push_new ids [] = ids
push_new ids (id ∷ more) = push_new (if contains ids id then ids else ids ++ id ∷ []) more

-- `Finding::new`.
abbrev pub new : Text → Severity → Text → Text → Confidence → Finding
new code severity title detail confidence = record {
  code = code;
  severity = severity;
  title = title;
  detail = detail;
  confidence = confidence;
  evidence = [];
}

-- `Finding::with_evidence`.
unfoldable pub with_evidence : Finding → List ObservationId → Finding
with_evidence f evidence = record f { evidence = push_new f.evidence evidence }
