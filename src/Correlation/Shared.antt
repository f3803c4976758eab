-- ===== src/Correlation/Shared.antt =====
-- crates/correlation/src/rules/shared.rs: several indicators connect to the same element.
pub mod Buildable
pub mod Grouping
pub mod Emitted
pub mod Members
pub mod Scanned
pub mod Description
pub mod Usable
pub mod Reported
use sentinel_osint.Common.{
  ℕ, ◌-◌, Bool, true, false, Option, none, some, List, [], ◌∷◌, ◌++◌, map, take, filter, length,
  ltb, leb, ◌==◌, if◌then◌else◌,
}
use sentinel_osint.Common.Text.{Text, codes}
use sentinel_osint.Common.Text.Numbers.{decimal}
use sentinel_osint.Common.Text.Splitting.{join}
use sentinel_osint.Common.Sorting.{sort, dedup}
use sentinel_osint.Indicator.Defs.{Crates}
use sentinel_osint.Evidence.Entities.{Entity, entity_beq}
use sentinel_osint.Evidence.Relationships.{
  RelationKind, announced_by, registered_in, resolves_to, covers_name, covers_wildcard,
  Relationship,
}
use sentinel_osint.Correlation.{Outside, shared_infrastructure, Draft}
use sentinel_osint.Correlation.Index.{EvidenceIndex, push_entry, of_kind}
use sentinel_osint.Correlation.Report.{Emit, push}

abbrev pub sharing_is_not_attribution : Text
sharing_is_not_attribution =
    codes
      "Shared hosting, CDNs, anycast, large providers and multi-domain certificates connect unrelated parties; a shared element does not imply a common owner, operator, actor, campaign or intent."

abbrev pub max_certificate_groups : ℕ
max_certificate_groups = 20

abbrev pub max_quoted : ℕ
max_quoted = 10

-- `rules::joined_bounded`.
abbrev pub joined_bounded : List Text → Text
joined_bounded items =
    let shown = join (codes ", ") (take max_quoted items) in
    if ltb max_quoted (length items)
    then shown ++ codes " and " ++ decimal (length items - max_quoted) ++ codes " more"
    else shown

abbrev pub choice_note : ℕ → Option Text
choice_note total =
    if ltb max_certificate_groups total
    then some (
        decimal max_certificate_groups
        ++ codes " of "
        ++ decimal total
        ++ codes
            " certificates listing several names are reported as shared infrastructure (those listing the most names).")
    else none

module _ (lib : Crates) (outside : Outside lib) where
  -- The shared elements with their links, one entry for each.
  abbrev pub Groups : Type 0
  Groups = List (Entity lib × List (Relationship lib))

  abbrev pub group_by : (Relationship lib → Entity lib) → List (Relationship lib) → Groups → Groups
  group_by shared [] groups = groups
  group_by shared (link ∷ links) groups =
      group_by shared links (push_entry lib (entity_beq lib) (shared link) link groups)

  -- A map and a set of entities are read in the order of the entities.
  unfoldable pub in_order : Groups → Groups
  unfolding sort
  in_order groups = sort (λ a b. outside.entity_le a.0 b.0) groups

  unfoldable pub set_of : List (Entity lib) → List (Entity lib)
  unfolding sort dedup
  set_of entities = dedup (entity_beq lib) (sort outside.entity_le entities)

  abbrev summary_of : RelationKind → Text → ℕ → Text → Text
  summary_of announced_by shared n listed =
      decimal n
      ++ codes " addresses are announced by the same origin AS "
      ++ shared
      ++ codes ": "
      ++ listed
      ++ codes "."
  summary_of registered_in shared n listed =
      decimal n
      ++ codes " addresses are registered in the same network "
      ++ shared
      ++ codes ": "
      ++ listed
      ++ codes "."
  summary_of resolves_to shared n listed =
      decimal n
      ++ codes " names resolve to the same address "
      ++ shared
      ++ codes ": "
      ++ listed
      ++ codes "."
  summary_of _ shared n listed =
      codes "Certificate "
      ++ shared
      ++ codes " lists "
      ++ decimal n
      ++ codes " names: "
      ++ listed
      ++ codes "."

  abbrev pub group_draft :
      Entity lib → RelationKind → List (Entity lib) → List (Relationship lib) → Draft lib
  group_draft shared kind members links = record {
    summary =
        summary_of kind (outside.to_string shared) (length members)
          (joined_bounded (map outside.to_string members));
    subjects = shared ∷ members;
    links = links;
    claims = [];
    supporting = [];
    conflicts = [];
    gaps = [];
    limitations = sharing_is_not_attribution ∷ [];
  }

  module _ (index : EvidenceIndex lib) where
    unfoldable pub emit_group :
        Entity lib
        → RelationKind
        → List (Entity lib)
        → List (Relationship lib)
        → Emit lib outside
        → Emit lib outside
    unfolding push
    emit_group shared kind members links e =
        push lib outside index shared_infrastructure (group_draft shared kind members links) e

    -- The loop over the groups of one kind.
    unfoldable pub emit_groups : RelationKind → Groups → Emit lib outside → Emit lib outside
    unfolding emit_group set_of
    emit_groups kind [] e = e
    emit_groups kind ((shared, links) ∷ more) e =
        let members = set_of (map (λ l. l.source) links) in
        emit_groups kind more
          (if leb 2 (length members) then emit_group shared kind members links e else e)

    unfoldable pub emit_kinds : List RelationKind → Emit lib outside → Emit lib outside
    unfolding emit_groups in_order
    emit_kinds [] e = e
    emit_kinds (kind ∷ kinds) e =
        emit_kinds kinds
          (emit_groups kind (in_order (group_by (λ l. l.target) (of_kind lib index kind) [])) e)

    -- A certificate with its links and the names it lists.
    abbrev pub Listing : Type 0
    Listing = Entity lib × (List (Relationship lib) × List (Entity lib))

    abbrev pub names_of : Listing → List (Entity lib)
    names_of (cert, (links, names)) = names

    abbrev pub listing : Entity lib × List (Relationship lib) → Listing
    unfolding set_of
    listing (cert, links) = (cert, (links, set_of (map (λ l. l.target) links)))

    -- Most names first, then by certificate.
    abbrev pub listing_le : Listing → Listing → Bool
    listing_le a b =
        if length (names_of a) == length (names_of b)
        then outside.entity_le a.0 b.0
        else ltb (length (names_of b)) (length (names_of a))

    unfoldable pub certificates : Groups
    unfolding in_order
    certificates = in_order (
        group_by (λ l. l.source)
          (of_kind lib index covers_name ++ of_kind lib index covers_wildcard) [])

    unfoldable pub listings : List Listing
    unfolding certificates listing sort
    listings =
        sort listing_le (filter (λ l. leb 2 (length (names_of l))) (map listing certificates))

    unfoldable pub emit_listings : List Listing → Emit lib outside → Emit lib outside
    unfolding emit_group
    emit_listings [] e = e
    emit_listings ((cert, (links, names)) ∷ more) e =
        emit_listings more (emit_group cert covers_name names links e)

    -- `correlate`, with the note that it returns.
    unfoldable pub correlate : Emit lib outside → Emit lib outside × Option Text
    unfolding emit_kinds listings emit_listings
    correlate e =
        let first = emit_kinds (announced_by ∷ registered_in ∷ resolves_to ∷ []) e in
        (emit_listings (take max_certificate_groups listings) first, choice_note (length listings))
