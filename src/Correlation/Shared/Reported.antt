-- ===== src/Correlation/Shared/Reported.antt =====
-- The correlations that the rule on shared elements reports, by the relationships of the index.
use sentinel_osint.Common.{
  refl, refl, ℕ, ◌≤◌, ◌<◌, ◌≢◌, true, none, some, List, [], ◌∷◌, ◌++◌, map, take, filter, length,
  ltb, nat_eq, ◌≡◌, sym, ap, ◌∙◌, subst, arith, All, Any, All-take, take-all, length-take,
  filter-append, filter-filter, Bool-cases, inl, inr,
}
use sentinel_osint.Common.Sorting.Pairs.{AllPairs, AllPairs-map, AllPairs-sort, AllPairs-take}
use sentinel_osint.Common.Sorting.Laws.{All-sort, Any-sort}
use sentinel_osint.Indicator.Defs.{Crates}
use sentinel_osint.Evidence.Entities.{Entity, entity_beq}
use sentinel_osint.Evidence.Relationships.{
  RelationKind, announced_by, registered_in, resolves_to, covers_name, covers_wildcard, kind_beq,
  Relationship,
}
use sentinel_osint.Investigation.{Investigation}
use sentinel_osint.Investigation.Integrity.{IsIntact}
use sentinel_osint.Correlation.{Outside, Correlation}
use sentinel_osint.Common.Text.{Text}
use sentinel_osint.Correlation.Index.{EvidenceIndex, new, of_kind}
use sentinel_osint.Correlation.Report.{Emit}
use sentinel_osint.Correlation.Shared.{
  listing, listing_le, certificates, listings, choice_note, correlate,
}
use sentinel_osint.Correlation.Shared.Buildable.{IsUsable, Group, Reports, Match}
use sentinel_osint.Correlation.Shared.Description.{
  links_to, links_from, covers, sources, IsShared, OneEach, IsReport, IsComplete, IsSharedReport,
}
use sentinel_osint.Correlation.Shared.Usable.{new-IsUsable}
use sentinel_osint.Correlation.Shared.Emitted.{
  is_several, groups_of, with_sources, crowded, after_kind, of_kind-Emits, correlate-Emits,
}
use sentinel_osint.Correlation.Shared.Members.{
  among, several-Connects, Connects-several, among-sorted_subjects,
}
use sentinel_osint.Correlation.Shared.Scanned.{
  attach, OtherElement, grouped-OtherElement, other_sym, length-Match, grouped, all-Scanned,
  any-Scanned,
}

module _ (lib : Crates) (outside : Outside lib) (index : EvidenceIndex lib) where
  abbrev pub sharing : RelationKind → Entity lib → Group lib outside index
  sharing kind x = attach lib outside index (λ r. r.source) (x, links_to lib outside index kind x)

  abbrev pub listed : Entity lib → Group lib outside index
  listed x = attach lib outside index (λ r. r.target) (x, covers lib outside index x)

  abbrev pub Several : Group lib outside index → Type 0
  Several g = is_several lib outside index g ≡ true

  scans_target :
      (kind : RelationKind) (x : Entity lib)
      → filter (λ r. entity_beq lib r.target x) (of_kind lib index kind)
        ≡ links_to lib outside index kind x
  scans_target kind x =
      filter-filter (λ r. kind_beq r.kind kind) (λ r. entity_beq lib r.target x) index.relationships

  scans_source :
      (x : Entity lib)
      → filter
          (λ r. entity_beq lib r.source x)
          (of_kind lib index covers_name ++ of_kind lib index covers_wildcard)
        ≡ covers lib outside index x
  scans_source x =
      filter-append (λ r. entity_beq lib r.source x) (of_kind lib index covers_name)
        (of_kind lib index covers_wildcard)
      ∙ ap (λ ls. ls ++ filter (λ r. entity_beq lib r.source x) (of_kind lib index covers_wildcard))
          (filter-filter (λ r. kind_beq r.kind covers_name) (λ r. entity_beq lib r.source x)
            index.relationships)
      ∙ ap (λ ls. links_from lib outside index covers_name x ++ ls)
          (filter-filter (λ r. kind_beq r.kind covers_wildcard) (λ r. entity_beq lib r.source x)
            index.relationships)

  -- The groups of a kind, and of the certificates, by a scan for each element.
  IsGrouping : (Entity lib → Group lib outside index) → List (Group lib outside index) → Type 0
  IsGrouping scan gs =
      All (λ g. (g ≡ scan g.0) × Several g) gs
      × AllPairs (OtherElement lib outside index) gs
      × ((x : Entity lib) → Several (scan x) → Any (λ g. g ≡ scan x) gs)

  crowded-IsGrouping :
      (kind : RelationKind)
      → IsGrouping (sharing kind) (crowded lib outside index (groups_of lib outside index kind))
  unfolding IsGrouping crowded groups_of with_sources grouped
  crowded-IsGrouping kind = (
    all-Scanned lib outside index (λ r. r.target) (λ r. r.source) (of_kind lib index kind)
        (links_to lib outside index kind) (scans_target kind),
    grouped-OtherElement lib outside index (λ r. r.target) (λ r. r.source) (of_kind lib index kind)
        (links_to lib outside index kind) (scans_target kind),
    any-Scanned lib outside index (λ r. r.target) (λ r. r.source) (of_kind lib index kind)
        (links_to lib outside index kind) (scans_target kind),
  )

  listings-IsGrouping : IsGrouping listed (listings lib outside index)
  unfolding IsGrouping listings certificates listing grouped
  listings-IsGrouping =
      let base = of_kind lib index covers_name ++ of_kind lib index covers_wildcard in
      (
        All-sort _ (listing_le lib outside index) _ (
            all-Scanned lib outside index (λ r. r.source) (λ r. r.target) base
              (covers lib outside index) scans_source),
        AllPairs-sort (OtherElement lib outside index)
            (λ g h n. other_sym lib outside index g.0 h.0 n) (listing_le lib outside index) _
            (grouped-OtherElement lib outside index (λ r. r.source) (λ r. r.target) base
              (covers lib outside index) scans_source),
        λ x h. Any-sort _ (listing_le lib outside index) _ (
            any-Scanned lib outside index (λ r. r.source) (λ r. r.target) base
              (covers lib outside index) scans_source x h),
      )

  Reports-IsShared :
      (other : Relationship lib → Entity lib) (x : Entity lib) (links : List (Relationship lib))
      (c : Correlation lib)
      → Reports lib outside index (attach lib outside index other (x, links)) c
      → IsShared lib outside index x (map other links) links c
  Reports-IsShared other x links c r = record {
    kind = r.kind;
    subjects =
        λ y. ap (among lib y) r.subjects ∙ among-sorted_subjects lib outside x (map other links) y;
    links_kept = r.links;
  }

  -- The correlations that match the groups of a scan.
  module _ (other : Relationship lib → Entity lib)
      (links : Entity lib → List (Relationship lib)) where
    abbrev scan : Entity lib → Group lib outside index
    scan x = attach lib outside index other (x, links x)

    abbrev others : Entity lib → List (Entity lib)
    others x = map other (links x)

    Match-OneEach :
        (gs : List (Group lib outside index)) (cs : List (Correlation lib))
        → All (λ g. (g ≡ scan g.0) × Several g) gs
        → Match lib outside index gs cs
        → OneEach lib outside index others links (map (λ g. g.0) gs) cs
    Match-OneEach [] [] h m = tt
    Match-OneEach [] (c ∷ cs) h m = absurd m
    Match-OneEach (g ∷ gs) [] h m = absurd m
    Match-OneEach (g ∷ gs) (c ∷ cs) ((same, several), h) (r, m) = (
      several-Connects lib outside (others g.0) (subst Several same several),
      Reports-IsShared other g.0 (links g.0) c (subst (λ k. Reports lib outside index k c) same r),
      Match-OneEach gs cs h m,
    )

    Match-IsReport :
        (gs : List (Group lib outside index)) (cs : List (Correlation lib))
        → All (λ g. (g ≡ scan g.0) × Several g) gs
        → AllPairs (OtherElement lib outside index) gs
        → Match lib outside index gs cs
        → IsReport lib outside index others links (map (λ g. g.0) gs) cs
    Match-IsReport gs cs h d m = record {
      distinct = AllPairs-map _ (λ g. g.0) gs d;
      one_each = Match-OneEach gs cs h m;
    }

    element-Any :
        (x : Entity lib) (gs : List (Group lib outside index))
        → Any (λ g. g ≡ scan x) gs
        → Any (λ y. y ≡ x) (map (λ g. g.0) gs)
    element-Any x [] a = elim a [ ]
    element-Any x (g ∷ gs) (inl e) = inl (ap (λ h. h.0) e)
    element-Any x (g ∷ gs) (inr a) = inr (element-Any x gs a)

    grouping-IsComplete :
        (gs : List (Group lib outside index))
        → ((x : Entity lib) → Several (scan x) → Any (λ g. g ≡ scan x) gs)
        → IsComplete lib outside index others (map (λ g. g.0) gs)
    grouping-IsComplete gs f x h =
        element-Any x gs (f x (Connects-several lib outside (others x) h))

  no_note : (n : ℕ) → choice_note n ≡ none → n ≤ 20
  no_note n h = elim (Bool-cases (ltb 20 n)) [
    | inl y ↦ absurd (noted (rw y at h))
    | inr k ↦ ground arith
  ]
    where
      noted : {t : Text} → some t ≡ none → ⊥
      noted e = cc

  a_note : (n : ℕ) → choice_note n ≢ none → 20 < n
  a_note n h = elim (Bool-cases (ltb 20 n)) [
    | inl y ↦ ground arith
    | inr k ↦ absurd (h (rw k refl))
  ]

  silent_length :
      (e : Emit lib outside)
      → (correlate lib outside index e).1 ≡ none
      → choice_note (length (listings lib outside index)) ≡ none
  unfolding correlate
  silent_length e h = h

  noted_length :
      (e : Emit lib outside)
      → (correlate lib outside index e).1 ≢ none
      → choice_note (length (listings lib outside index)) ≢ none
  unfolding correlate
  noted_length e h = h

  module _ (usable : All (IsUsable lib outside index) index.relationships) where
    -- The groups of a kind and what is emitted for them.
    abbrev elements_of : List (Group lib outside index) → List (Entity lib)
    elements_of gs = map (λ g. g.0) gs

    abbrev groups : RelationKind → List (Group lib outside index)
    groups kind = crowded lib outside index (groups_of lib outside index kind)

    kind-IsReport :
        (kind : RelationKind) (cs : List (Correlation lib))
        → Match lib outside index (groups kind) cs
        → IsReport lib outside index
            (sources lib outside index kind)
            (links_to lib outside index kind)
            (elements_of (groups kind))
            cs
          × IsComplete lib outside index
              (sources lib outside index kind)
              (elements_of (groups kind))
    unfolding IsGrouping
    kind-IsReport kind cs m =
        let (scanned, distinct, complete) = crowded-IsGrouping kind in
        (
          Match-IsReport (λ r. r.source) (links_to lib outside index kind) (groups kind) cs scanned
              distinct m,
          grouping-IsComplete (λ r. r.source) (links_to lib outside index kind) (groups kind)
              complete,
        )

    reported :
        (e : Emit lib outside)
        → IsSharedReport lib outside index e
            (correlate lib outside index e).0
            (correlate lib outside index e).1
    unfolding IsGrouping
    reported e =
        let e1 = after_kind lib outside index announced_by e in
        let e2 = after_kind lib outside index registered_in e1 in
        let a = of_kind-Emits lib outside index usable announced_by e in
        let b = of_kind-Emits lib outside index usable registered_in e1 in
        let c = of_kind-Emits lib outside index usable resolves_to e2 in
        let d = correlate-Emits lib outside index usable e in
        let ls = listings lib outside index in
        let shown = take 20 ls in
        let (scanned, distinct, complete) = listings-IsGrouping in
        record {
          systems = elements_of (groups announced_by);
          networks = elements_of (groups registered_in);
          addresses = elements_of (groups resolves_to);
          certificates = elements_of shown;
          of_systems = a.correlations;
          of_networks = b.correlations;
          of_addresses = c.correlations;
          of_certificates = d.correlations;
          rejected = d.rejected ∙ c.rejected ∙ b.rejected ∙ a.rejected;
          built =
              d.built
              ∙ ap (λ cs. cs ++ d.correlations)
                  (c.built
                    ∙ ap (λ cs. cs ++ c.correlations)
                        (b.built ∙ ap (λ cs. cs ++ b.correlations) a.built));
          systems_reported = (kind-IsReport announced_by a.correlations a.matched).0;
          every_system = (kind-IsReport announced_by a.correlations a.matched).1;
          networks_reported = (kind-IsReport registered_in b.correlations b.matched).0;
          every_network = (kind-IsReport registered_in b.correlations b.matched).1;
          addresses_reported = (kind-IsReport resolves_to c.correlations c.matched).0;
          every_address = (kind-IsReport resolves_to c.correlations c.matched).1;
          certificates_reported =
              Match-IsReport (λ r. r.target) (covers lib outside index) shown d.correlations
                (All-take _ 20 ls scanned)
                (AllPairs-take (OtherElement lib outside index) 20 ls distinct) d.matched;
          at_most_twenty = omega (
            arith,
            length-Match lib outside index shown d.correlations d.matched,
            length-take 20 ls,
          );
          twenty = λ noted. omega (
            arith,
            length-Match lib outside index shown d.correlations d.matched,
            length-take 20 ls,
            a_note (length ls) (noted_length e noted),
          );
          every_certificate = λ silent.
              grouping-IsComplete (λ r. r.target) (covers lib outside index) shown
                (subst (λ gs. (x : Entity lib) → Several (listed x) → Any (λ g. g ≡ listed x) gs)
                  (sym (take-all 20 ls (no_note (length ls) (silent_length e silent)))) complete);
        }

-- For an intact investigation the rule is rejected no draft and adds one correlation for each AS, then
-- each network, then each address that two different entities link to, and then one for each of some
-- certificates that list two different names: all of these and at most 20 where no note is returned, and
-- exactly 20 where one is. No element is twice among those of its kind, and nothing else is added. Each
-- correlation has as its subjects the element and exactly the entities linked to it, and those links.
pub correlate-IsSharedReport :
    (lib : Crates) (outside : Outside lib) (v : Investigation lib)
    → IsIntact lib v
    → (e : Emit lib outside)
    → IsSharedReport lib outside
        (new lib outside v)
        e
        (correlate lib outside (new lib outside v) e).0
        (correlate lib outside (new lib outside v) e).1
correlate-IsSharedReport lib outside v intact e =
    reported lib outside (new lib outside v) (new-IsUsable lib outside v intact) e
