-- ===== src/Analysis/Caa/Laws.antt =====
-- What the tally of CAA records keeps.
use sentinel_osint.Common.{
  Bool, true, false, not, ◌&&◌, List, [], ◌∷◌, ◌++◌, is_empty, nat_eq, list_eq, ◌≡◌, refl, All,
  All-append, Bool-cases, inl, inr,
}
use sentinel_osint.Common.Text.{Text, to_ascii_lowercase}
use sentinel_osint.Indicator.Defs.{Crates}
use sentinel_osint.Evidence.Observations.{ObservationId}
use sentinel_osint.Evidence.Dns.{DnsRecord, DnsRecordData, caa_data}
use sentinel_osint.Analysis.Grounded.{ids_of}
use sentinel_osint.Analysis.Caa.{
  Issuance, Values, push, Tally, default_tally, Triple, was_seen, issuer_of, is_name, authorize,
  reject, TagKind, issue_kind, issuewild_kind, iodef_kind, known_kind, unknown_kind, kind_of,
  classify_tag, count_duplicate, tally_one, tally_from, tally,
}

-- Every value and every evidence list of the tally comes from the records.
module _ (lib : Crates) (P : ObservationId → Type 0) where
  abbrev pub Balanced : Values → Type 0
  Balanced v = All P v.evidence × (is_empty v.evidence ≡ is_empty v.items)

  pub record IsSourced (t : Tally) : Type 0 where
    pub issue : All P t.issue.evidence
    pub issuewild : All P t.issuewild.evidence
    pub iodef : Balanced t.iodef
    pub unknown_critical : Balanced t.unknown_critical
    pub invalid_issuers : Balanced t.invalid_issuers
    pub duplicates : All P t.duplicates

  add_id :
      (ids : List ObservationId) (id : ObservationId) → All P ids → P id → All P (ids ++ id ∷ [])
  add_id ids id h p = All-append P ids (id ∷ []) h (p, tt)

  is_empty-snoc : {A : Type 0} (xs : List A) (x : A) → is_empty (xs ++ x ∷ []) ≡ false
  is_empty-snoc [] x = refl
  is_empty-snoc (y ∷ ys) x = refl

  push-Balanced :
      (item : Text) (id : ObservationId) (v : Values)
      → Balanced v
      → P id
      → Balanced (push item id v)
  push-Balanced item id v (h, e) p =
      (add_id v.evidence id h p, rw (is_empty-snoc v.evidence id, is_empty-snoc v.items item) refl)

  authorize-sourced :
      (issuer : Text) (id : ObservationId) (i : Issuance)
      → All P i.evidence
      → P id
      → All P (authorize lib issuer id i).evidence
  unfolding is_name
  authorize-sourced issuer id i h p = elim (Bool-cases (is_empty issuer)) [
    | inl y ↦ rw y (add_id i.evidence id h p)
    | inr n ↦ elim (Bool-cases (is_name lib issuer)) [
      | inl y ↦ rw (n, y) (add_id i.evidence id h p)
      | inr m ↦ rw (n, m) (add_id i.evidence id h p)
    ]
  ]

  reject-Balanced :
      (issuer : Text) (id : ObservationId) (v : Values)
      → Balanced v
      → P id
      → Balanced (reject lib issuer id v)
  reject-Balanced issuer id v b p =
      elim (Bool-cases (not (is_empty issuer) && not (is_name lib issuer))) [
        | inl y ↦ rw y (push-Balanced issuer id v b p)
        | inr n ↦ rw n b
      ]

  classify_tag-IsSourced :
      (kind : TagKind) (critical : Bool) (tag value : Text) (id : ObservationId) (t : Tally)
      → P id
      → IsSourced t
      → IsSourced (classify_tag lib kind critical tag value id t)
  classify_tag-IsSourced issue_kind critical tag value id t p s = record {
    issue = authorize-sourced (issuer_of value) id t.issue s.issue p;
    issuewild = s.issuewild;
    iodef = s.iodef;
    unknown_critical = s.unknown_critical;
    invalid_issuers = reject-Balanced (issuer_of value) id t.invalid_issuers s.invalid_issuers p;
    duplicates = s.duplicates;
  }
  classify_tag-IsSourced issuewild_kind critical tag value id t p s = record {
    issue = s.issue;
    issuewild = authorize-sourced (issuer_of value) id t.issuewild s.issuewild p;
    iodef = s.iodef;
    unknown_critical = s.unknown_critical;
    invalid_issuers = reject-Balanced (issuer_of value) id t.invalid_issuers s.invalid_issuers p;
    duplicates = s.duplicates;
  }
  classify_tag-IsSourced iodef_kind critical tag value id t p s = record {
    issue = s.issue;
    issuewild = s.issuewild;
    iodef = push-Balanced value id t.iodef s.iodef p;
    unknown_critical = s.unknown_critical;
    invalid_issuers = s.invalid_issuers;
    duplicates = s.duplicates;
  }
  classify_tag-IsSourced known_kind critical tag value id t p s = s
  classify_tag-IsSourced unknown_kind true tag value id t p s = record {
    issue = s.issue;
    issuewild = s.issuewild;
    iodef = s.iodef;
    unknown_critical = push-Balanced tag id t.unknown_critical s.unknown_critical p;
    invalid_issuers = s.invalid_issuers;
    duplicates = s.duplicates;
  }
  classify_tag-IsSourced unknown_kind false tag value id t p s = s

  count_duplicate-IsSourced :
      (repeated : Bool) (id : ObservationId) (t : Tally)
      → P id
      → IsSourced t
      → IsSourced (count_duplicate lib repeated id t)
  count_duplicate-IsSourced false id t p s = s
  count_duplicate-IsSourced true id t p s = record {
    issue = s.issue;
    issuewild = s.issuewild;
    iodef = s.iodef;
    unknown_critical = s.unknown_critical;
    invalid_issuers = s.invalid_issuers;
    duplicates = add_id t.duplicates id s.duplicates p;
  }

  tally_one-IsSourced :
      (id : ObservationId) (contents : DnsRecordData) (loop : List Triple × Tally)
      → P id
      → IsSourced loop.1
      → IsSourced (tally_one lib id contents loop).1
  unfolding tally_one
  tally_one-IsSourced id (caa_data critical tag value) (seen, t) p s =
      let repeated = was_seen seen (critical, to_ascii_lowercase tag, value) in
      classify_tag-IsSourced (kind_of (to_ascii_lowercase tag)) critical tag value id
        (count_duplicate lib repeated id t) p (count_duplicate-IsSourced repeated id t p s)
  tally_one-IsSourced id _ loop p s = s

  tally_from-IsSourced :
      (found : List (ObservationId × DnsRecord)) (loop : List Triple × Tally)
      → All P (ids_of found)
      → IsSourced loop.1
      → IsSourced (tally_from lib found loop).1
  unfolding tally_from
  tally_from-IsSourced [] loop h s = s
  tally_from-IsSourced ((id, r) ∷ rs) loop (p, h) s =
      tally_from-IsSourced rs (tally_one lib id r.contents loop) h
        (tally_one-IsSourced id r.contents loop p s)

  default-IsSourced : IsSourced default_tally
  default-IsSourced = record {
    issue = tt;
    issuewild = tt;
    iodef = (tt, refl);
    unknown_critical = (tt, refl);
    invalid_issuers = (tt, refl);
    duplicates = tt;
  }

  pub tally-IsSourced :
      (found : List (ObservationId × DnsRecord))
      → All P (ids_of found)
      → IsSourced (tally lib found)
  unfolding tally
  tally-IsSourced found h = tally_from-IsSourced found ([], default_tally) h default-IsSourced
