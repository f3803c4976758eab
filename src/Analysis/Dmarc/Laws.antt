-- ===== src/Analysis/Dmarc/Laws.antt =====
-- The bounds that the DMARC parser keeps.
pub mod Lookup
pub mod Fields
use sentinel_osint.Common.{
  ℕ, ◌≤◌, Bool, true, false, not, ◌&&◌, ◌||◌, Option, none, some, List, [], ◌∷◌, ◌++◌, map, leb,
  if◌then◌else◌, take, drop, filter, length, is_empty, contains, list_beq, nat_eq, list_eq, ◌≡◌,
  ◌≢◌, refl, sym, ap, ◌∙◌, arith, Bool-cases, Option-cases, inl, inr, All, All-append, Distinct,
  Distinct-concat, length-take, min,
}
use sentinel_osint.Common.Text.{Text, codes, is_some, trim}
use sentinel_osint.Common.Text.Splitting.{split, split_once}
use sentinel_osint.Common.Text.Numbers.{parse_unsigned}
use sentinel_osint.Analysis.Dmarc.{
  Policy, Alignment, Issue, bad_policy, bad_subdomain_policy, bad_pct, bad_adkim, bad_aspf,
  missing_policy, repeated, no_value, too_many_tags, issue_text, DmarcRecord, default_record, issue,
  uris, at_most_100, parse_policy, parse_alignment, Setting, policy_set, subdomain_set, pct_set,
  adkim_set, aspf_set, rua_set, ruf_set, problem, ignored, set_or, setting_of, apply_setting, Loop,
  named, parse_named, parse_tag, parse_tags, tags_of, require_policy, lacks_policy, check_rest,
  parse, max_tags, max_uris,
}

-- One of the fixed descriptions.
abbrev pub IsFixed : Text → Type 0
IsFixed s = (why : Issue) × (s ≡ issue_text why)

abbrev pub AtMost100 : Option ℕ → Type 0
AtMost100 none = Unit
AtMost100 (some pct) = pct ≤ 100

-- The bounds that a parsed record keeps.
pub record IsBounded (r : DmarcRecord) : Type 0 where
  pub pct : AtMost100 r.pct
  pub rua : length r.rua ≤ max_uris
  pub ruf : length r.ruf ≤ max_uris
  pub distinct : Distinct r.issues
  pub fixed : All IsFixed r.issues

issue-IsBounded : (why : Issue) (r : DmarcRecord) → IsBounded r → IsBounded (issue why r)
issue-IsBounded why r b = elim (Bool-cases (contains r.issues (issue_text why))) [
  | inl y ↦ record {
    pct = b.pct;
    rua = b.rua;
    ruf = b.ruf;
    distinct = rw y b.distinct;
    fixed = rw y b.fixed;
  }
  | inr n ↦ record {
    pct = b.pct;
    rua = b.rua;
    ruf = b.ruf;
    distinct = rw n (Distinct-concat r.issues (issue_text why) b.distinct n);
    fixed = rw n (All-append IsFixed r.issues (issue_text why ∷ []) b.fixed ((why, refl), tt));
  }
]

pub length-uris-le : (value : Text) → length (uris value) ≤ max_uris
length-uris-le value =
    omega
      (arith, length-take max_uris (filter (λ u. not (is_empty u)) (map trim (split b',' value))))

-- A setting that keeps the bounds.
abbrev IsModest : Setting → Type 0
IsModest (pct_set pct) = pct ≤ 100
IsModest (rua_set kept) = length kept ≤ max_uris
IsModest (ruf_set kept) = length kept ≤ max_uris
IsModest _ = Unit

apply_setting-IsBounded :
    (s : Setting) (r : DmarcRecord) → IsModest s → IsBounded r → IsBounded (apply_setting s r)
apply_setting-IsBounded (policy_set p) r m b = record {
  pct = b.pct;
  rua = b.rua;
  ruf = b.ruf;
  distinct = b.distinct;
  fixed = b.fixed;
}
apply_setting-IsBounded (subdomain_set p) r m b = record {
  pct = b.pct;
  rua = b.rua;
  ruf = b.ruf;
  distinct = b.distinct;
  fixed = b.fixed;
}
apply_setting-IsBounded (pct_set p) r m b = record {
  pct = m;
  rua = b.rua;
  ruf = b.ruf;
  distinct = b.distinct;
  fixed = b.fixed;
}
apply_setting-IsBounded (adkim_set a) r m b = record {
  pct = b.pct;
  rua = b.rua;
  ruf = b.ruf;
  distinct = b.distinct;
  fixed = b.fixed;
}
apply_setting-IsBounded (aspf_set a) r m b = record {
  pct = b.pct;
  rua = b.rua;
  ruf = b.ruf;
  distinct = b.distinct;
  fixed = b.fixed;
}
apply_setting-IsBounded (rua_set kept) r m b = record {
  pct = b.pct;
  rua = m;
  ruf = b.ruf;
  distinct = b.distinct;
  fixed = b.fixed;
}
apply_setting-IsBounded (ruf_set kept) r m b = record {
  pct = b.pct;
  rua = b.rua;
  ruf = m;
  distinct = b.distinct;
  fixed = b.fixed;
}
apply_setting-IsBounded (problem why) r m b = issue-IsBounded why r b
apply_setting-IsBounded ignored r m b = b

at_most_100-le : (o : Option ℕ) → IsModest (set_or pct_set bad_pct (at_most_100 o))
at_most_100-le none = tt
at_most_100-le (some pct) = elim (Bool-cases (leb pct 100)) [
  | inl y ↦ rw y (ground arith)
  | inr n ↦ rw n tt
]

set_or-IsModest :
    {A : Type 0} (set : A → Setting) (why : Issue) (o : Option A)
    → ((a : A) → IsModest (set a))
    → IsModest (set_or set why o)
set_or-IsModest set why none h = tt
set_or-IsModest set why (some a) h = h a

if_IsModest : (b : Bool) (s t : Setting) → IsModest s → IsModest t → IsModest (if b then s else t)
if_IsModest true s t h k = h
if_IsModest false s t h k = k

setting_of-IsModest : (name value : Text) → IsModest (setting_of name value)
unfolding setting_of
setting_of-IsModest name value =
    let ruf_modest =
      if_IsModest (list_beq name (codes "ruf")) _ ignored (length-uris-le value) tt in
    let rua_modest =
      if_IsModest (list_beq name (codes "rua")) _ _ (length-uris-le value) ruf_modest in
    let mode = parse_alignment value in
    let policy = parse_policy value in
    let aspf_modest =
      if_IsModest (list_beq name (codes "aspf")) _ _
        (set_or-IsModest aspf_set bad_aspf mode λ a. tt) rua_modest in
    let adkim_modest =
      if_IsModest (list_beq name (codes "adkim")) _ _
        (set_or-IsModest adkim_set bad_adkim mode λ a. tt) aspf_modest in
    let pct_modest =
      if_IsModest (list_beq name (codes "pct")) _ _ (at_most_100-le (parse_unsigned 8 value))
        adkim_modest in
    let sp_modest =
      if_IsModest (list_beq name (codes "sp")) _ _
        (set_or-IsModest subdomain_set bad_subdomain_policy policy λ a. tt) pct_modest in
    if_IsModest (list_beq name (codes "p")) _ _
      (set_or-IsModest policy_set bad_policy policy λ a. tt) sp_modest

parse_named-IsBounded :
    (tag : Text × Text) (loop : Loop) → IsBounded loop.1 → IsBounded (parse_named tag loop).1
unfolding parse_named
parse_named-IsBounded (name, value) (seen, r) b = elim (Bool-cases (contains seen name)) [
  | inl y ↦ rw y (issue-IsBounded repeated r b)
  | inr n ↦
      rw n (apply_setting-IsBounded (setting_of name value) r (setting_of-IsModest name value) b)
]

parse_tag-IsBounded :
    (tag : Text) (loop : Loop) → IsBounded loop.1 → IsBounded (parse_tag tag loop).1
unfolding parse_tag
parse_tag-IsBounded tag (seen, r) b = elim (Option-cases (split_once b'=' tag)) [
  | inl e ↦ rw (e, parse_tag) (issue-IsBounded no_value r b)
  | inr (parts, e) ↦ rw (e, parse_tag) (parse_named-IsBounded (named parts) (seen, r) b)
]

parse_tags-IsBounded :
    (tags : List Text) (loop : Loop) → IsBounded loop.1 → IsBounded (parse_tags tags loop).1
unfolding parse_tags
parse_tags-IsBounded [] loop b = b
parse_tags-IsBounded (tag ∷ tags) loop b =
    parse_tags-IsBounded tags (parse_tag tag loop) (parse_tag-IsBounded tag loop b)

if_IsBounded :
    (b : Bool) (r s : DmarcRecord) → IsBounded r → IsBounded s → IsBounded (if b then r else s)
if_IsBounded true r s h k = h
if_IsBounded false r s h k = k

check_rest-IsBounded :
    (rest : List Text) (r : DmarcRecord) → IsBounded r → IsBounded (check_rest rest r)
unfolding check_rest
check_rest-IsBounded rest r b =
    let checked = if_IsBounded (is_empty rest) _ _ b (issue-IsBounded too_many_tags r b) in
    if_IsBounded _ _ _ (issue-IsBounded missing_policy _ checked) checked

default-IsBounded : IsBounded default_record
default-IsBounded = record {
  pct = tt;
  rua = omega arith;
  ruf = omega arith;
  distinct = tt;
  fixed = tt;
}

-- A parsed record has a pct of at most 100, at most 32 addresses for each kind of report, and issues
-- that are fixed descriptions, none of them twice.
pub parse-IsBounded : (text : Text) → IsBounded (parse text)
unfolding parse
parse-IsBounded text =
    check_rest-IsBounded (drop max_tags (tags_of text))
      (parse_tags (take max_tags (tags_of text)) ([], default_record)).1
      (parse_tags-IsBounded (take max_tags (tags_of text)) ([], default_record) default-IsBounded)

nonempty_of_contains :
    (issues : List Text) (s : Text) → contains issues s ≡ true → is_empty issues ≡ false
nonempty_of_contains [] s h = cc
nonempty_of_contains (i ∷ more) s h = refl

issue-nonempty : (why : Issue) (r : DmarcRecord) → is_empty (issue why r).issues ≡ false
issue-nonempty why r = elim (Bool-cases (contains r.issues (issue_text why))) [
  | inl y ↦ rw y (nonempty_of_contains r.issues (issue_text why) y)
  | inr n ↦ rw n (appended r.issues)
]
  where
    appended : (issues : List Text) → is_empty (issues ++ issue_text why ∷ []) ≡ false
    appended [] = refl
    appended (i ∷ more) = refl

pub require_policy-policy : (r : DmarcRecord) → (require_policy r).policy ≡ r.policy
require_policy-policy r = elim (Bool-cases (lacks_policy r)) [
  | inl y ↦ rw y refl
  | inr n ↦ rw n refl
]

require_policy-nonempty :
    (r : DmarcRecord)
    → (require_policy r).policy ≡ none
    → is_empty (require_policy r).issues ≡ false
require_policy-nonempty r h = elim (Bool-cases (lacks_policy r)) [
  | inl y ↦ rw y (issue-nonempty missing_policy r)
  | inr n ↦ rw n (
      nonempty_of_contains r.issues (issue_text bad_policy)
        (refused n (sym (require_policy-policy r) ∙ h)))
]
  where
    refused :
        lacks_policy r ≡ false → r.policy ≡ none → contains r.issues (issue_text bad_policy) ≡ true
    refused n e = ground (arith, e)

-- A record without a policy has an issue.
pub parse-nonempty :
    (text : Text) → (parse text).policy ≡ none → is_empty (parse text).issues ≡ false
unfolding parse
parse-nonempty text h =
    let r = (parse_tags (take max_tags (tags_of text)) ([], default_record)).1 in
    let rest = drop max_tags (tags_of text) in
    require_policy-nonempty (if is_empty rest then r else issue too_many_tags r) h
