-- ===== src/Correlation/Shared/Emitted.antt =====
-- What the rule on shared elements reports of an investigation.
use mathlib.Core.List.{append-nil, append_assoc}
use sentinel_osint.Common.{
  Bool, true, false, List, [], ◌∷◌, ◌++◌, map, take, filter, length, leb, is_empty, if◌then◌else◌,
  nat_eq, ◌≡◌, refl, sym, ap, ◌∙◌, All, All-append, All-filter, All-take,
}
use sentinel_osint.Common.Sorting.Laws.{All-sort}
use sentinel_osint.Indicator.Defs.{Crates}
use sentinel_osint.Evidence.Entities.{Entity}
use sentinel_osint.Evidence.Relationships.{
  RelationKind, announced_by, registered_in, resolves_to, covers_name, covers_wildcard, kind_beq,
  Relationship,
}
use sentinel_osint.Correlation.{Outside, Correlation}
use sentinel_osint.Correlation.Index.{EvidenceIndex, of_kind}
use sentinel_osint.Correlation.Report.{Emit}
use sentinel_osint.Correlation.Shared.{
  max_certificate_groups, Groups, group_by, in_order, set_of, emit_groups, emit_kinds, Listing,
  names_of, listing, emit_group, listing_le, certificates, listings, emit_listings, correlate,
}
use sentinel_osint.Correlation.Shared.Buildable.{
  Knows, IsUsable, IsGroup, Group, Match, Emits, set_of-All, group_by-IsGroup, in_order-IsGroup,
  emit_group-Emits,
}

module _ (lib : Crates) (outside : Outside lib) (index : EvidenceIndex lib) where
  -- The groups of one kind of relationship, and those that connect at least two entities.
  unfoldable pub groups_of : RelationKind → Groups lib outside
  unfolding in_order
  groups_of kind =
      in_order lib outside (group_by lib outside (λ l. l.target) (of_kind lib index kind) [])

  unfoldable pub with_sources : Entity lib × List (Relationship lib) → Group lib outside index
  with_sources (shared, links) = (shared, (links, set_of lib outside (map (λ l. l.source) links)))

  abbrev pub is_several : Group lib outside index → Bool
  is_several g = leb 2 (length g.1.1)

  unfoldable pub crowded : Groups lib outside → List (Group lib outside index)
  unfolding with_sources
  crowded groups = filter is_several (map with_sources groups)

  -- What was emitted after the groups of a kind, and after those of the three kinds.
  unfoldable pub after_kind : RelationKind → Emit lib outside → Emit lib outside
  unfolding emit_groups groups_of
  after_kind kind e = emit_groups lib outside index kind (groups_of kind) e

  abbrev pub after_kinds : Emit lib outside → Emit lib outside
  after_kinds e = after_kind resolves_to (after_kind registered_in (after_kind announced_by e))

  Match-append :
      (gs hs : List (Group lib outside index)) (cs ds : List (Correlation lib))
      → Match lib outside index gs cs
      → Match lib outside index hs ds
      → Match lib outside index (gs ++ hs) (cs ++ ds)
  Match-append [] hs [] ds m n = n
  Match-append [] hs (c ∷ cs) ds m n = absurd m
  Match-append (g ∷ gs) hs [] ds m n = absurd m
  Match-append (g ∷ gs) hs (c ∷ cs) ds (r, m) n = (r, Match-append gs hs cs ds m n)

  Emits-none : (e : Emit lib outside) → Emits lib outside index [] e e
  Emits-none e = record {
    correlations = [];
    rejected = refl;
    built = sym (append-nil e.built);
    matched = tt;
  }

  Emits-append :
      (gs hs : List (Group lib outside index)) (e f g : Emit lib outside)
      → Emits lib outside index gs e f
      → Emits lib outside index hs f g
      → Emits lib outside index (gs ++ hs) e g
  Emits-append gs hs e f g a b = record {
    correlations = a.correlations ++ b.correlations;
    rejected = b.rejected ∙ a.rejected;
    built =
        b.built
        ∙ ap (λ cs. cs ++ b.correlations) a.built
        ∙ append_assoc e.built a.correlations b.correlations;
    matched = Match-append gs hs a.correlations b.correlations a.matched b.matched;
  }

module _ (lib : Crates) (outside : Outside lib) (index : EvidenceIndex lib)
    (usable : All (IsUsable lib outside index) index.relationships) where
  ends-Knows :
      (end : Relationship lib → Entity lib)
      → ((r : Relationship lib) → IsUsable lib outside index r → Knows lib outside index (end r))
      → (links : List (Relationship lib)) → All (IsUsable lib outside index) links
      → All (Knows lib outside index) (set_of lib outside (map end links))
  ends-Knows end f links us =
      set_of-All lib outside index (Knows lib outside index) (map end links) (mapped links us)
    where
      mapped :
          (links : List (Relationship lib))
          → All (IsUsable lib outside index) links
          → All (Knows lib outside index) (map end links)
      mapped [] h = tt
      mapped (l ∷ ls) (u, h) = (f l u, mapped ls h)

  in_group-Emits :
      (kind : RelationKind) (shared : Entity lib) (links : List (Relationship lib))
      (more : List (Group lib outside index)) (b : Bool) (e : Emit lib outside)
      (rest : Emit lib outside → Emit lib outside)
      → Knows lib outside index shared
      → All (IsUsable lib outside index) links
      → is_empty links ≡ false
      → ((f : Emit lib outside) → Emits lib outside index more f (rest f))
      → (let members = set_of lib outside (map (λ l. l.source) links) in
          Emits lib outside index
            (if b then (shared, (links, members)) ∷ more else more)
            e
            (rest (if b then emit_group lib outside index shared kind members links e else e)))
  in_group-Emits kind shared links more false e rest k us n later = later e
  in_group-Emits kind shared links more true e rest k us n later =
      let members = set_of lib outside (map (λ l. l.source) links) in
      let next = emit_group lib outside index shared kind members links e in
      Emits-append lib outside index ((shared, (links, members)) ∷ []) more e next (rest next)
        (emit_group-Emits lib outside index shared kind members links e
          (k, ends-Knows (λ l. l.source) (λ r u. u.source) links us) us n)
        (later next)

  emit_groups-Emits :
      (kind : RelationKind) (groups : Groups lib outside) (e : Emit lib outside)
      → All (IsGroup lib outside index) groups
      → Emits lib outside index
          (crowded lib outside index groups)
          e
          (emit_groups lib outside index kind groups e)
  unfolding emit_groups crowded
  emit_groups-Emits kind [] e h = Emits-none lib outside index e
  emit_groups-Emits kind ((shared, links) ∷ more) e ((k, (us, n)), h) =
      in_group-Emits kind shared links (crowded lib outside index more)
        (leb 2 (length (set_of lib outside (map (λ l. l.source) links)))) e
        (λ f. emit_groups lib outside index kind more f) k us n
        (λ f. emit_groups-Emits kind more f h)

  of_kind-IsUsable :
      (kind : RelationKind) → All (IsUsable lib outside index) (of_kind lib index kind)
  of_kind-IsUsable kind =
      All-filter (IsUsable lib outside index) (λ r. kind_beq r.kind kind) index.relationships usable

  pub of_kind-Emits :
      (kind : RelationKind) (e : Emit lib outside)
      → Emits lib outside index
          (crowded lib outside index (groups_of lib outside index kind))
          e
          (after_kind lib outside index kind e)
  unfolding after_kind groups_of
  of_kind-Emits kind e = emit_groups-Emits kind (groups_of lib outside index kind) e (
      in_order-IsGroup lib outside index
        (group_by lib outside (λ l. l.target) (of_kind lib index kind) [])
        (group_by-IsGroup lib outside index (λ l. l.target) (λ r u. u.target)
          (of_kind lib index kind) [] (of_kind-IsUsable kind) tt))

  abbrev IsListing : Listing lib outside index → Type 0
  IsListing (cert, (links, names)) =
      Knows lib outside index cert
      × (All (Knows lib outside index) names
          × (All (IsUsable lib outside index) links × (is_empty links ≡ false)))

  emit_listings-Emits :
      (ls : List (Listing lib outside index)) (e : Emit lib outside)
      → All IsListing ls
      → Emits lib outside index ls e (emit_listings lib outside index ls e)
  unfolding emit_listings
  emit_listings-Emits [] e h = Emits-none lib outside index e
  emit_listings-Emits ((cert, (links, names)) ∷ more) e ((k, (ns, (us, n))), h) =
      let next = emit_group lib outside index cert covers_name names links e in
      Emits-append lib outside index ((cert, (links, names)) ∷ []) more e next _
        (emit_group-Emits lib outside index cert covers_name names links e (k, ns) us n)
        (emit_listings-Emits more next h)

  certificates-IsGroup : All (IsGroup lib outside index) (certificates lib outside index)
  unfolding certificates
  certificates-IsGroup =
      let covers = of_kind lib index covers_name ++ of_kind lib index covers_wildcard in
      in_order-IsGroup lib outside index (group_by lib outside (λ l. l.source) covers []) (
        group_by-IsGroup lib outside index (λ l. l.source) (λ r u. u.source) covers []
          (All-append (IsUsable lib outside index) _ _ (of_kind-IsUsable covers_name)
            (of_kind-IsUsable covers_wildcard))
          tt)

  map-IsListing :
      (groups : Groups lib outside)
      → All (IsGroup lib outside index) groups
      → All IsListing (map (listing lib outside index) groups)
  unfolding listing
  map-IsListing [] h = tt
  map-IsListing ((cert, links) ∷ more) ((k, (us, n)), h) =
      ((k, (ends-Knows (λ l. l.target) (λ r u. u.target) links us, (us, n))), map-IsListing more h)

  listings-IsListing : All IsListing (listings lib outside index)
  unfolding listings
  listings-IsListing =
      let all_listings = map (listing lib outside index) (certificates lib outside index) in
      let is_several : Listing lib outside index → Bool =
        λ l. leb 2 (length (names_of lib outside index l)) in
      All-sort IsListing (listing_le lib outside index) (filter is_several all_listings) (
        All-filter IsListing is_several all_listings
          (map-IsListing (certificates lib outside index) certificates-IsGroup))

  -- After the groups of the three kinds, the certificates.
  pub correlate-Emits :
      (e : Emit lib outside)
      → Emits lib outside index
          (take 20 (listings lib outside index))
          (after_kinds lib outside index e)
          (correlate lib outside index e).0
  unfolding correlate emit_kinds after_kind groups_of
  correlate-Emits e =
      emit_listings-Emits (take max_certificate_groups (listings lib outside index))
        (after_kinds lib outside index e)
        (All-take IsListing max_certificate_groups (listings lib outside index) listings-IsListing)
