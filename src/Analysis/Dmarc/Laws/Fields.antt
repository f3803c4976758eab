-- ===== src/Analysis/Dmarc/Laws/Fields.antt =====
-- What the first tag of each name says, apart from the loop.
use mathlib.Core.Option
use sentinel_osint.Common.{
  ℕ, Option, none, some, List, [], take, drop, nat_eq, ◌≡◌, refl, ◌∙◌, ◌⊎◌, inl, inr,
}
use sentinel_osint.Common.Text.{Text, codes}
use sentinel_osint.Common.Text.Numbers.{parse_unsigned}
use sentinel_osint.Analysis.Dmarc.{
  Issue, bad_policy, bad_subdomain_policy, bad_pct, bad_adkim, bad_aspf, DmarcRecord,
  default_record, issue, uris, at_most_100, parse_policy, parse_alignment, Setting, policy_set,
  subdomain_set, pct_set, adkim_set, aspf_set, rua_set, ruf_set, set_or, setting_of, apply_setting,
  parse_tags, tags_of, parse, max_tags,
}
use sentinel_osint.Analysis.Dmarc.Laws.Lookup.{
  first_value, name_of, Reads, get-set_of, get-parse_tags, get-check_rest, read_first,
}

-- A field that stays as it is where its tag has no valid value.
abbrev or_keep : {A : Type 0} → Option A → Option A → Option A
or_keep none old = old
or_keep (some a) old = some a

set_or-get :
    {A : Type 0} (get : DmarcRecord → Option A) (set : A → Setting) (why : Issue) (o : Option A)
    (r : DmarcRecord)
    → ((a : A) → get (apply_setting (set a) r) ≡ some a)
    → get (issue why r) ≡ get r
    → get (apply_setting (set_or set why o) r) ≡ or_keep o (get r)
set_or-get get set why none r h k = k
set_or-get get set why (some a) r h k = h a

-- The value of the first tag of the name decides the field.
module _ {A : Type 0} (get : DmarcRecord → A) (name : Text) (read : Text → A → A) where
  get-parse :
      Reads get name read
      → ((why : Issue) (r : DmarcRecord) → get (issue why r) ≡ get r)
      → (text : Text)
      → get (parse text)
        ≡ read_first read (first_value name (take max_tags (tags_of text))) (get default_record)
  unfolding parse
  get-parse reads same text =
      let tags = take max_tags (tags_of text) in
      get-check_rest get same (drop max_tags (tags_of text))
        (parse_tags tags ([], default_record)).1
      ∙ get-parse_tags get name read (get-set_of get name read reads) same tags [] default_record

-- What a tag whose value may be refused does to its field.
abbrev read_with : {A : Type 0} → (Text → Option A) → Text → Option A → Option A
read_with read value old = or_keep (read value) old

read_first-bind :
    {A : Type 0} (read : Text → Option A) (first : Option Text)
    → read_first (read_with read) first none ≡ Option.bind first read
unfolding Option.bind
read_first-bind read none = refl
read_first-bind read (some value) = kept (read value)
  where
    kept : {A : Type 0} (o : Option A) → or_keep o none ≡ o
    kept none = refl
    kept (some a) = refl

abbrev read_pct : Text → Option ℕ
read_pct value = at_most_100 (parse_unsigned 8 value)

policy-Reads : Reads (λ r. r.policy) (codes "p") (read_with parse_policy)
unfolding setting_of
policy-Reads = (
  λ value r.
      set_or-get (λ q. q.policy) policy_set bad_policy (parse_policy value) r (λ a. refl) refl,
  keeps,
  λ e. cc,
)
  where
    keeps :
        (s : Setting) (r : DmarcRecord)
        → ((apply_setting s r).policy ≡ r.policy) ⊎ (name_of s ≡ codes "p")
    keeps (policy_set a) r = inr refl
    keeps _ r = inl refl

subdomain_policy-Reads : Reads (λ r. r.subdomain_policy) (codes "sp") (read_with parse_policy)
unfolding setting_of
subdomain_policy-Reads = (
  λ value r.
      set_or-get (λ q. q.subdomain_policy) subdomain_set bad_subdomain_policy (parse_policy value) r
        (λ a. refl) refl,
  keeps,
  λ e. cc,
)
  where
    keeps :
        (s : Setting) (r : DmarcRecord)
        → ((apply_setting s r).subdomain_policy ≡ r.subdomain_policy) ⊎ (name_of s ≡ codes "sp")
    keeps (subdomain_set a) r = inr refl
    keeps _ r = inl refl

pct-Reads : Reads (λ r. r.pct) (codes "pct") (read_with read_pct)
unfolding setting_of
pct-Reads = (
  λ value r.
      set_or-get (λ q. q.pct) pct_set bad_pct (at_most_100 (parse_unsigned 8 value)) r (λ a. refl)
        refl,
  keeps,
  λ e. cc,
)
  where
    keeps :
        (s : Setting) (r : DmarcRecord)
        → ((apply_setting s r).pct ≡ r.pct) ⊎ (name_of s ≡ codes "pct")
    keeps (pct_set a) r = inr refl
    keeps _ r = inl refl

adkim-Reads : Reads (λ r. r.adkim) (codes "adkim") (read_with parse_alignment)
unfolding setting_of
adkim-Reads = (
  λ value r.
      set_or-get (λ q. q.adkim) adkim_set bad_adkim (parse_alignment value) r (λ a. refl) refl,
  keeps,
  λ e. cc,
)
  where
    keeps :
        (s : Setting) (r : DmarcRecord)
        → ((apply_setting s r).adkim ≡ r.adkim) ⊎ (name_of s ≡ codes "adkim")
    keeps (adkim_set a) r = inr refl
    keeps _ r = inl refl

aspf-Reads : Reads (λ r. r.aspf) (codes "aspf") (read_with parse_alignment)
unfolding setting_of
aspf-Reads = (
  λ value r. set_or-get (λ q. q.aspf) aspf_set bad_aspf (parse_alignment value) r (λ a. refl) refl,
  keeps,
  λ e. cc,
)
  where
    keeps :
        (s : Setting) (r : DmarcRecord)
        → ((apply_setting s r).aspf ≡ r.aspf) ⊎ (name_of s ≡ codes "aspf")
    keeps (aspf_set a) r = inr refl
    keeps _ r = inl refl

rua-Reads : Reads (λ r. r.rua) (codes "rua") (λ value old. uris value)
unfolding setting_of
rua-Reads = (λ value r. refl, keeps, λ e. cc)
  where
    keeps :
        (s : Setting) (r : DmarcRecord)
        → ((apply_setting s r).rua ≡ r.rua) ⊎ (name_of s ≡ codes "rua")
    keeps (rua_set kept) r = inr refl
    keeps _ r = inl refl

ruf-Reads : Reads (λ r. r.ruf) (codes "ruf") (λ value old. uris value)
unfolding setting_of
ruf-Reads = (λ value r. refl, keeps, λ e. cc)
  where
    keeps :
        (s : Setting) (r : DmarcRecord)
        → ((apply_setting s r).ruf ≡ r.ruf) ⊎ (name_of s ≡ codes "ruf")
    keeps (ruf_set kept) r = inr refl
    keeps _ r = inl refl

abbrev uris_of : Option Text → List Text
uris_of none = []
uris_of (some value) = uris value

read_first-uris :
    (first : Option Text) → read_first (λ value old. uris value) first [] ≡ uris_of first
read_first-uris none = refl
read_first-uris (some value) = refl

-- Each field is what the first tag of its name says, where its value is valid.
pub record HasFields (first : Text → Option Text) (r : DmarcRecord) : Type 0 where
  pub policy : r.policy ≡ Option.bind (first (codes "p")) parse_policy
  pub subdomain_policy : r.subdomain_policy ≡ Option.bind (first (codes "sp")) parse_policy
  pub pct : r.pct ≡ Option.bind (first (codes "pct")) read_pct
  pub adkim : r.adkim ≡ Option.bind (first (codes "adkim")) parse_alignment
  pub aspf : r.aspf ≡ Option.bind (first (codes "aspf")) parse_alignment
  pub rua : r.rua ≡ uris_of (first (codes "rua"))
  pub ruf : r.ruf ≡ uris_of (first (codes "ruf"))

abbrev pub first_of : Text → Text → Option Text
first_of text name = first_value name (take max_tags (tags_of text))

-- Each field of a parsed record is what the first tag of its name among the first 64 says, and none
-- where there is no such tag or its value is not valid.
pub parse-HasFields : (text : Text) → HasFields (first_of text) (parse text)
parse-HasFields text = record {
  policy =
      get-parse (λ r. r.policy) (codes "p") (read_with parse_policy) policy-Reads (λ why r. refl)
        text
      ∙ read_first-bind parse_policy (first_of text (codes "p"));
  subdomain_policy =
      get-parse (λ r. r.subdomain_policy) (codes "sp") (read_with parse_policy)
        subdomain_policy-Reads (λ why r. refl) text
      ∙ read_first-bind parse_policy (first_of text (codes "sp"));
  pct =
      get-parse (λ r. r.pct) (codes "pct") (read_with read_pct) pct-Reads (λ why r. refl) text
      ∙ read_first-bind read_pct (first_of text (codes "pct"));
  adkim =
      get-parse (λ r. r.adkim) (codes "adkim") (read_with parse_alignment) adkim-Reads
        (λ why r. refl) text
      ∙ read_first-bind parse_alignment (first_of text (codes "adkim"));
  aspf =
      get-parse (λ r. r.aspf) (codes "aspf") (read_with parse_alignment) aspf-Reads (λ why r. refl)
        text
      ∙ read_first-bind parse_alignment (first_of text (codes "aspf"));
  rua =
      get-parse (λ r. r.rua) (codes "rua") (λ value old. uris value) rua-Reads (λ why r. refl) text
      ∙ read_first-uris (first_of text (codes "rua"));
  ruf =
      get-parse (λ r. r.ruf) (codes "ruf") (λ value old. uris value) ruf-Reads (λ why r. refl) text
      ∙ read_first-uris (first_of text (codes "ruf"));
}
