-- ===== src/Analysis/Dmarc.antt =====
-- crates/collectors/src/analysis/dmarc.rs: DMARC records (RFC 7489).
pub mod Findings
pub mod Laws
pub mod Cites
use sentinel_osint.Common.{
  ℕ, Bool, true, false, not, ◌&&◌, ◌||◌, Option, none, some, List, [], ◌∷◌, ◌++◌, map, leb,
  if◌then◌else◌, take, drop, filter, is_empty, contains, list_beq, nat_eq, list_eq,
}
use sentinel_osint.Common.Text.{Text, codes, trim, to_ascii_lowercase, is_some}
use sentinel_osint.Common.Text.Splitting.{split, split_once}
use sentinel_osint.Common.Text.Numbers.{parse_unsigned}

abbrev pub max_tags : ℕ
max_tags = 64

abbrev pub max_uris : ℕ
max_uris = 32

pub data Policy : Type 0 where
  no_action quarantine reject : Policy

-- `Policy::parse`.
unfoldable pub parse_policy : Text → Option Policy
parse_policy value =
    let lower = to_ascii_lowercase value in
    if list_beq lower (codes "none")
    then some no_action
    else if list_beq lower (codes "quarantine")
    then some quarantine
    else if list_beq lower (codes "reject")
    then some reject
    else none

-- `Policy::as_str`.
abbrev pub policy_str : Policy → Text
policy_str no_action = codes "none"
policy_str quarantine = codes "quarantine"
policy_str reject = codes "reject"

pub data Alignment : Type 0 where
  relaxed strict : Alignment

-- `Alignment::parse`.
unfoldable pub parse_alignment : Text → Option Alignment
parse_alignment value =
    let lower = to_ascii_lowercase value in
    if list_beq lower (codes "r")
    then some relaxed
    else if list_beq lower (codes "s")
    then some strict
    else none

-- The fixed descriptions that `issues` holds.
pub data Issue : Type 0 where
  no_value repeated bad_policy bad_subdomain_policy bad_pct bad_adkim : Issue
  bad_aspf too_many_tags missing_policy : Issue

abbrev pub issue_text : Issue → Text
issue_text no_value = codes "a tag has no value (missing '=')"
issue_text repeated = codes "a tag appears more than once"
issue_text bad_policy = codes "p is not none, quarantine or reject"
issue_text bad_subdomain_policy = codes "sp is not none, quarantine or reject"
issue_text bad_pct = codes "pct is not an integer between 0 and 100"
issue_text bad_adkim = codes "adkim is not r or s"
issue_text bad_aspf = codes "aspf is not r or s"
issue_text too_many_tags = codes "the record has too many tags to analyze completely"
issue_text missing_policy = codes "the required p tag is missing"

pub record DmarcRecord : Type 0 where
  pub policy : Option Policy
  pub subdomain_policy : Option Policy
  pub pct : Option ℕ
  pub rua : List Text
  pub ruf : List Text
  pub adkim : Option Alignment
  pub aspf : Option Alignment
  pub issues : List Text

abbrev pub default_record : DmarcRecord
default_record = record {
  policy = none;
  subdomain_policy = none;
  pct = none;
  rua = [];
  ruf = [];
  adkim = none;
  aspf = none;
  issues = [];
}

-- `DmarcRecord::issue`.
abbrev pub issue : Issue → DmarcRecord → DmarcRecord
issue why r = record r {
  issues = if contains r.issues (issue_text why) then r.issues else r.issues ++ issue_text why ∷ [];
}

-- `uris`.
abbrev pub uris : Text → List Text
uris value = take max_uris (filter (λ u. not (is_empty u)) (map trim (split b',' value)))

abbrev pub at_most_100 : Option ℕ → Option ℕ
at_most_100 none = none
at_most_100 (some pct) = if leb pct 100 then some pct else none

-- What the match on the name of a tag finds.
pub data Setting : Type 0 where
  policy_set : Policy → Setting
  subdomain_set : Policy → Setting
  pct_set : ℕ → Setting
  adkim_set : Alignment → Setting
  aspf_set : Alignment → Setting
  rua_set : List Text → Setting
  ruf_set : List Text → Setting
  problem : Issue → Setting
  ignored : Setting

abbrev pub set_or : {A : Type 0} → (A → Setting) → Issue → Option A → Setting
set_or set why none = problem why
set_or set why (some a) = set a

-- The arms of the match, in their order; the name is in lowercase.
unfoldable pub setting_of : Text → Text → Setting
unfolding parse_policy parse_alignment
setting_of name value =
    if list_beq name (codes "p")
    then set_or policy_set bad_policy (parse_policy value)
    else if list_beq name (codes "sp")
    then set_or subdomain_set bad_subdomain_policy (parse_policy value)
    else if list_beq name (codes "pct")
    then set_or pct_set bad_pct (at_most_100 (parse_unsigned 8 value))
    else if list_beq name (codes "adkim")
    then set_or adkim_set bad_adkim (parse_alignment value)
    else if list_beq name (codes "aspf")
    then set_or aspf_set bad_aspf (parse_alignment value)
    else if list_beq name (codes "rua")
    then rua_set (uris value)
    else if list_beq name (codes "ruf")
    then ruf_set (uris value)
    else ignored

-- What the arms change.
abbrev pub apply_setting : Setting → DmarcRecord → DmarcRecord
apply_setting (policy_set policy) r = record r { policy = some policy }
apply_setting (subdomain_set policy) r = record r { subdomain_policy = some policy }
apply_setting (pct_set pct) r = record r { pct = some pct }
apply_setting (adkim_set mode) r = record r { adkim = some mode }
apply_setting (aspf_set mode) r = record r { aspf = some mode }
apply_setting (rua_set kept) r = record r { rua = kept }
apply_setting (ruf_set kept) r = record r { ruf = kept }
apply_setting (problem why) r = issue why r
apply_setting ignored r = r

abbrev pub Loop : Type 0
Loop = List Text × DmarcRecord

-- The name and the value of a tag.
abbrev pub named : Text × Text → Text × Text
named (name, value) = (to_ascii_lowercase (trim name), trim value)

-- The body of the loop, with the names seen so far.
unfoldable pub parse_named : Text × Text → Loop → Loop
unfolding setting_of
parse_named (name, value) (seen, r) =
    if contains seen name
    then (seen, issue repeated r)
    else (seen ++ name ∷ [], apply_setting (setting_of name value) r)

unfoldable pub parse_tag : Text → Loop → Loop
unfolding parse_named
parse_tag tag (seen, r) = elim (split_once b'=' tag) [
  | none ↦ (seen, issue no_value r)
  | some parts ↦ parse_named (named parts) (seen, r)
]

unfoldable pub parse_tags : List Text → Loop → Loop
unfolding parse_tag
parse_tags [] loop = loop
parse_tags (tag ∷ tags) loop = parse_tags tags (parse_tag tag loop)

unfoldable pub tags_of : Text → List Text
tags_of text = filter (λ t. not (is_empty t)) (map trim (split b';' text))

-- What `parse` does after the loop.
abbrev pub lacks_policy : DmarcRecord → Bool
lacks_policy r = not (is_some r.policy) && not (contains r.issues (issue_text bad_policy))

abbrev pub require_policy : DmarcRecord → DmarcRecord
require_policy r = if lacks_policy r then issue missing_policy r else r

unfoldable pub check_rest : List Text → DmarcRecord → DmarcRecord
check_rest rest r = require_policy (if is_empty rest then r else issue too_many_tags r)

-- `parse`.
unfoldable pub parse : Text → DmarcRecord
unfolding parse_tags tags_of check_rest
parse text =
    let tags = tags_of text in
    check_rest (drop max_tags tags) (parse_tags (take max_tags tags) ([], default_record)).1
