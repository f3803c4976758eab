-- ===== src/Analysis/Dmarc/Laws/Lookup.antt =====
-- A DMARC tag counts where it stands first; this is independent of the loop that parses them.
use mathlib.Core.Bool.{true≢false}
use sentinel_osint.Common.{
  Bool, true, false, Option, none, some, List, [], ◌∷◌, ◌++◌, if◌then◌else◌, is_empty, contains,
  contains-append, list_beq, list_beq_iff, nat_eq, list_eq, ◌≡◌, ◌≢◌, refl, sym, subst, ap, ◌∙◌,
  arith, Bool-cases, Option-cases, inl, inr, ◌⊎◌,
}
use sentinel_osint.Common.Text.{Text, codes}
use sentinel_osint.Common.Text.Splitting.{split_once}
use sentinel_osint.Common.Text.Numbers.{parse_unsigned}
use sentinel_osint.Analysis.Dmarc.{
  Issue, bad_policy, bad_subdomain_policy, bad_pct, bad_adkim, bad_aspf, repeated, no_value,
  too_many_tags, missing_policy, DmarcRecord, issue, uris, at_most_100, parse_policy,
  parse_alignment, Setting, policy_set, subdomain_set, pct_set, adkim_set, aspf_set, rua_set,
  ruf_set, problem, ignored, set_or, setting_of, apply_setting, named, parse_named, parse_tag,
  parse_tags, lacks_policy, check_rest,
}

abbrev value_if : Text → Text × Text → Option Text → Option Text
value_if name (other, value) later = if list_beq other name then some value else later

-- The value of the first tag of a name.
abbrev pub first_value : Text → List Text → Option Text
first_value name [] = none
first_value name (tag ∷ tags) = elim (split_once b'=' tag) [
  | none ↦ first_value name tags
  | some parts ↦ value_if name (named parts) (first_value name tags)
]

parse_tag-none :
    (tag : Text) (seen : List Text) (r : DmarcRecord)
    → split_once b'=' tag ≡ none
    → parse_tag tag (seen, r) ≡ (seen, issue no_value r)
unfolding parse_tag
parse_tag-none tag seen r e = rw (e, parse_tag) refl

parse_tag-some :
    (tag : Text) (parts : Text × Text) (seen : List Text) (r : DmarcRecord)
    → split_once b'=' tag ≡ some parts
    → parse_tag tag (seen, r) ≡ parse_named (named parts) (seen, r)
unfolding parse_tag
parse_tag-some tag parts seen r e = rw (e, parse_tag) refl

abbrev pub read_first : {A : Type 0} → (Text → A → A) → Option Text → A → A
read_first read none a = a
read_first read (some value) a = read value a

-- A field that only the tag of this name changes.
module _ {A : Type 0} (get : DmarcRecord → A) (name : Text) (read : Text → A → A)
    (get-set : (other value : Text) (r : DmarcRecord)
      → get (apply_setting (setting_of other value) r)
        ≡ (if list_beq other name then read value (get r) else get r))
    (get-issue : (why : Issue) (r : DmarcRecord) → get (issue why r) ≡ get r) where
  abbrev pub expected : List Text → Option Text → A → A
  expected seen first a = if contains seen name then a else read_first read first a

  -- The tag is new, and of the name or not.
  get-parse_named :
      (tags : List Text) (seen : List Text) (r : DmarcRecord) (n value : Text)
      → ((s : List Text) (q : DmarcRecord)
          → get (parse_tags tags (s, q)).1 ≡ expected s (first_value name tags) (get q))
      → get (parse_tags tags (parse_named (n, value) (seen, r))).1
        ≡ expected seen (if list_beq n name then some value else first_value name tags) (get r)
  unfolding parse_named
  get-parse_named tags seen r n value rest = elim (Bool-cases (contains seen n)) [
    | inl y ↦ rw y (rest seen (issue repeated r) ∙ repeats y (Bool-cases (list_beq n name)))
    | inr f ↦ rw f (
        rest (seen ++ n ∷ []) (apply_setting (setting_of n value) r)
        ∙ is_new f (Bool-cases (list_beq n name)))
  ]
    where
      same_name : (b : Bool) → contains seen n ≡ b → list_beq n name ≡ true → contains seen name ≡ b
      same_name b h e = subst (λ t. contains seen t ≡ b) ((list_beq_iff n name).0 e) h

      repeats :
          contains seen n ≡ true
          → (list_beq n name ≡ true) ⊎ (list_beq n name ≡ false)
          → expected seen (first_value name tags) (get (issue repeated r))
            ≡ expected seen (if list_beq n name then some value else first_value name tags) (get r)
      repeats y (inl e) = rw (e, same_name true y e, get-issue repeated r) refl
      repeats y (inr e) = rw (e, get-issue repeated r) refl

      is_new :
          contains seen n ≡ false
          → (list_beq n name ≡ true) ⊎ (list_beq n name ≡ false)
          → expected
              (seen ++ n ∷ [])
              (first_value name tags)
              (get (apply_setting (setting_of n value) r))
            ≡ expected seen (if list_beq n name then some value else first_value name tags) (get r)
      is_new f (inl e) =
          rw (get-set n value r, contains-append seen (n ∷ []) name, e, same_name false f e) refl
      is_new f (inr e) =
          rw (get-set n value r, contains-append seen (n ∷ []) name, e) (ground arith)

  pub get-parse_tags :
      (tags : List Text) (seen : List Text) (r : DmarcRecord)
      → get (parse_tags tags (seen, r)).1 ≡ expected seen (first_value name tags) (get r)
  unfolding parse_tags
  get-parse_tags [] seen r = ground arith
  get-parse_tags (tag ∷ tags) seen r = elim (Option-cases (split_once b'=' tag)) [
    | inl e ↦
        rw (e, first_value)
          (ap (λ l. get (parse_tags tags l).1) (parse_tag-none tag seen r e)
            ∙ get-parse_tags tags seen (issue no_value r)
            ∙ rw (get-issue no_value r) refl)
    | inr (parts, e) ↦
        rw (e, first_value)
          (ap (λ l. get (parse_tags tags l).1) (parse_tag-some tag parts seen r e)
            ∙ get-parse_named tags seen r (named parts).0 (named parts).1 (get-parse_tags tags))
  ]

-- The last checks change issues only.
module _ {A : Type 0} (get : DmarcRecord → A)
    (get-issue : (why : Issue) (r : DmarcRecord) → get (issue why r) ≡ get r) where
  get-if_issue :
      (b : Bool) (why : Issue) (r : DmarcRecord) → get (if b then issue why r else r) ≡ get r
  get-if_issue true why r = get-issue why r
  get-if_issue false why r = refl

  get-if_else :
      (b : Bool) (why : Issue) (r : DmarcRecord) → get (if b then r else issue why r) ≡ get r
  get-if_else true why r = refl
  get-if_else false why r = get-issue why r

  pub get-check_rest : (rest : List Text) (r : DmarcRecord) → get (check_rest rest r) ≡ get r
  unfolding check_rest
  get-check_rest rest r =
      let checked : DmarcRecord = if is_empty rest then r else issue too_many_tags r in
      get-if_issue (lacks_policy checked) missing_policy checked
      ∙ get-if_else (is_empty rest) too_many_tags r

-- The field that a setting is about.
abbrev pub name_of : Setting → Text
name_of (policy_set p) = codes "p"
name_of (subdomain_set p) = codes "sp"
name_of (pct_set p) = codes "pct"
name_of (adkim_set a) = codes "adkim"
name_of (aspf_set a) = codes "aspf"
name_of (rua_set kept) = codes "rua"
name_of (ruf_set kept) = codes "ruf"
name_of (problem why) = []
name_of ignored = []

-- Either no field, or the one of the tag.
abbrev Concerns : Text → Setting → Type 0
Concerns n s = (name_of s ≡ []) ⊎ (name_of s ≡ n)

set_or-Concerns :
    {A : Type 0} (set : A → Setting) (why : Issue) (o : Option A) (n : Text)
    → ((a : A) → name_of (set a) ≡ n)
    → Concerns n (set_or set why o)
set_or-Concerns set why none n h = inl refl
set_or-Concerns set why (some a) n h = inr (h a)

if_Concerns :
    (n name : Text) (s t : Setting)
    → Concerns name s
    → Concerns n t
    → Concerns n (if list_beq n name then s else t)
if_Concerns n name s t h k = elim (Bool-cases (list_beq n name)) [
  | inl y ↦ rw y (subst (λ m. Concerns m s) (sym ((list_beq_iff n name).0 y)) h)
  | inr f ↦ rw f k
]

setting_of-Concerns : (n value : Text) → Concerns n (setting_of n value)
unfolding setting_of
setting_of-Concerns n value =
    let ruf = if_Concerns n (codes "ruf") (ruf_set (uris value)) ignored (inr refl) (inl refl) in
    let rua = if_Concerns n (codes "rua") (rua_set (uris value)) _ (inr refl) ruf in
    let aspf =
      if_Concerns n (codes "aspf") _ _
        (set_or-Concerns aspf_set bad_aspf (parse_alignment value) (codes "aspf") λ a. refl) rua in
    let adkim =
      if_Concerns n (codes "adkim") _ _
        (set_or-Concerns adkim_set bad_adkim (parse_alignment value) (codes "adkim") λ a. refl)
        aspf in
    let pct =
      if_Concerns n (codes "pct") _ _
        (set_or-Concerns pct_set bad_pct (at_most_100 (parse_unsigned 8 value)) (codes "pct")
          λ a. refl)
        adkim in
    let sp =
      if_Concerns n (codes "sp") _ _
        (set_or-Concerns subdomain_set bad_subdomain_policy (parse_policy value) (codes "sp")
          λ a. refl)
        pct in
    if_Concerns n (codes "p") _ _
      (set_or-Concerns policy_set bad_policy (parse_policy value) (codes "p") λ a. refl) sp

module _ {A : Type 0} (get : DmarcRecord → A) (name : Text) (read : Text → A → A) where
  -- What each setting does to the field, which another tag's leaves alone.
  abbrev pub Reads : Type 0
  Reads =
      ((value : Text) (r : DmarcRecord)
        → get (apply_setting (setting_of name value) r) ≡ read value (get r))
      × ((s : Setting) (r : DmarcRecord) → (get (apply_setting s r) ≡ get r) ⊎ (name_of s ≡ name))
      × (name ≢ [])

  pub get-set_of :
      Reads
      → (other value : Text) (r : DmarcRecord)
      → get (apply_setting (setting_of other value) r)
        ≡ (if list_beq other name then read value (get r) else get r)
  get-set_of (reads, keeps, has_name) other value r = elim (Bool-cases (list_beq other name)) [
    | inl y ↦ rw (y, (list_beq_iff other name).0 y) (reads value r)
    | inr f ↦ rw f (kept f (keeps (setting_of other value) r) (setting_of-Concerns other value))
  ]
    where
      kept :
          list_beq other name ≡ false
          → (get (apply_setting (setting_of other value) r) ≡ get r)
            ⊎ (name_of (setting_of other value) ≡ name)
          → Concerns other (setting_of other value)
          → get (apply_setting (setting_of other value) r) ≡ get r
      kept f (inl same) c = same
      kept f (inr e) (inl nil) = absurd (has_name (sym e ∙ nil))
      kept f (inr e) (inr one) =
          absurd (true≢false (sym ((list_beq_iff other name).1 (sym one ∙ e)) ∙ f))
