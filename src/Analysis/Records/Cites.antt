-- ===== src/Analysis/Records/Cites.antt =====
-- What the findings on addresses and mail exchangers cite and show.
use sentinel_osint.Common.{
  true, false, not, ◌||◌, Option, none, some, List, [], ◌∷◌, ◌++◌, map, contains, contains-append,
  nat_eq, ◌≡◌, refl, ap, ◌==◌, arith, All, Bool-cases, inl, inr,
}
use sentinel_osint.Common.Text.{Text, codes}
use sentinel_osint.Common.Text.Splitting.{join}
use sentinel_osint.Net.{IpAddr, AddressScope, classify, is_global_scope}
use sentinel_osint.Net
use sentinel_osint.Net.Description.{description}
use sentinel_osint.Evidence.Observations.{ObservationId}
use sentinel_osint.Evidence.Dns.{DnsRecord, a_type, aaaa_type, mx_type}
use sentinel_osint.Analysis.{DnsAnswers, apex_of, records_of}
use sentinel_osint.Analysis.Records.{
  address_of, unless_public, non_public_in, non_public, is_null_mx, listed, address_findings,
  mx_findings,
}
use sentinel_osint.Analysis.Records
use sentinel_osint.Analysis.Grounded.{
  safe_text, safe_text-append, join_safe, AllGrounded, AllGrounded-append, AllGrounded-mono,
  finding-IsGrounded, one-IsGrounded, cited_sub, ids_of,
}

description_safe : (s : AddressScope) → safe_text (description s) ≡ true
description_safe Net.global = refl
description_safe Net.unspecified = refl
description_safe Net.loopback = refl
description_safe Net.private = refl
description_safe Net.shared_address_space = refl
description_safe Net.link_local = refl
description_safe Net.unique_local = refl
description_safe Net.documentation = refl
description_safe Net.benchmarking = refl
description_safe Net.multicast = refl
description_safe Net.broadcast = refl
description_safe Net.reserved = refl

-- The addresses are of the records.
non_public_in-sub :
    (found : List (ObservationId × DnsRecord)) (id : ObservationId)
    → contains (ids_of (non_public_in found)) id ≡ true
    → contains (ids_of found) id ≡ true
non_public_in-sub [] id h = h
non_public_in-sub ((i, r) ∷ rs) id h = kept (address_of r.contents) (non_public_in-sub rs id) h
  where
    kept :
        (o : Option IpAddr)
        → (contains (ids_of (non_public_in rs)) id ≡ true → contains (ids_of rs) id ≡ true)
        → contains (ids_of (unless_public i o ++ non_public_in rs)) id ≡ true
        → (i == id || contains (ids_of rs) id) ≡ true
    kept none later k = ground arith
    kept (some ip) later k = elim (Bool-cases (not (is_global_scope (classify ip)))) [
      | inl y ↦ ground arith
      | inr n ↦ ground arith
    ]

map-append : {A B : Type 0} (f : A → B) (xs ys : List A) → map f (xs ++ ys) ≡ map f xs ++ map f ys
map-append f [] ys = refl
map-append f (x ∷ xs) ys = ap (◌∷◌ (f x)) (map-append f xs ys)

in_either :
    (xs ys : List (ObservationId × DnsRecord)) (queried : List ObservationId)
    → ((id : ObservationId) → contains (ids_of xs) id ≡ true → contains queried id ≡ true)
    → ((id : ObservationId) → contains (ids_of ys) id ≡ true → contains queried id ≡ true)
    → (id : ObservationId) → contains (ids_of (non_public_in xs ++ non_public_in ys)) id ≡ true
    → contains queried id ≡ true
in_either xs ys queried in_xs in_ys id h =
    elim (Bool-cases (contains (ids_of (non_public_in xs)) id)) [
      | inl y ↦ in_xs id (non_public_in-sub xs id y)
      | inr n ↦ in_ys id (non_public_in-sub ys id (left_over n))
    ]
  where
    left_over :
        contains (ids_of (non_public_in xs)) id ≡ false
        → contains (ids_of (non_public_in ys)) id ≡ true
    left_over n =
        let parts =
          ap (λ l. contains l id) (map-append (λ r. r.0) (non_public_in xs) (non_public_in ys)) in
        ground
          (arith, parts, contains-append (ids_of (non_public_in xs)) (ids_of (non_public_in ys)) id)

module _ (display : IpAddr → Text) (shows : (ip : IpAddr) → safe_text (display ip) ≡ true) where
  listed_safe :
      (found : List (ObservationId × IpAddr))
      → All (λ s. safe_text s ≡ true) (map (listed display) found)
  listed_safe [] = tt
  listed_safe ((id, ip) ∷ more) = (
    safe_text-append (display ip ++ codes " (" ++ description (classify ip)) (codes ")")
        (safe_text-append (display ip ++ codes " (") (description (classify ip))
          (safe_text-append (display ip) (codes " (") (shows ip) refl)
          (description_safe (classify ip)))
        refl,
    listed_safe more,
  )

  address_grounded :
      (domain : Text) (queried : List ObservationId) (found : List (ObservationId × IpAddr))
      → safe_text domain ≡ true
      → ((id : ObservationId) → contains (ids_of found) id ≡ true → contains queried id ≡ true)
      → AllGrounded queried (address_findings display domain found)
  unfolding address_findings
  address_grounded domain queried [] safe sub = tt
  address_grounded domain queried (found ∷ more) safe sub = (
    finding-IsGrounded queried (ids_of (found ∷ more)) _ _ _ _
        (cited_sub (ids_of (found ∷ more)) queried sub) refl refl
        (safe_text-append
          (domain
            ++ codes " resolves to non-public address(es): "
            ++ join (codes ", ") (map (listed display) (found ∷ more)))
          _
          (safe_text-append (domain ++ codes " resolves to non-public address(es): ")
            (join (codes ", ") (map (listed display) (found ∷ more)))
            (safe_text-append domain (codes " resolves to non-public address(es): ") safe refl)
            (join_safe (codes ", ") (map (listed display) (found ∷ more)) refl
              (listed_safe (found ∷ more))))
          refl),
    tt,
  )

  mx_grounded :
      (domain : Text) (found : List (ObservationId × DnsRecord))
      → safe_text domain ≡ true
      → AllGrounded (ids_of found) (mx_findings display domain found)
  unfolding mx_findings
  mx_grounded domain [] safe = tt
  mx_grounded domain ((id, r) ∷ []) safe = elim (Bool-cases (is_null_mx r.contents)) [
    | inl y ↦ rw y (one-IsGrounded id _ _ _ _ refl (safe_text-append domain _ safe refl), tt)
    | inr n ↦ rw n tt
  ]
  mx_grounded domain (first ∷ second ∷ more) safe = tt

  pub analyze_grounded :
      (answers : DnsAnswers) (queried : List ObservationId)
      → safe_text answers.domain ≡ true
      → ((id : ObservationId)
          → contains (ids_of (records_of (apex_of answers a_type))) id ≡ true
          → contains queried id ≡ true)
      → ((id : ObservationId)
          → contains (ids_of (records_of (apex_of answers aaaa_type))) id ≡ true
          → contains queried id ≡ true)
      → ((id : ObservationId)
          → contains (ids_of (records_of (apex_of answers mx_type))) id ≡ true
          → contains queried id ≡ true)
      → AllGrounded queried (Records.analyze display answers)
  unfolding Records.analyze
  analyze_grounded answers queried safe a aaaa mx =
      let in_a = records_of (apex_of answers a_type) in
      let in_aaaa = records_of (apex_of answers aaaa_type) in
      let in_mx = records_of (apex_of answers mx_type) in
      AllGrounded-append queried _ _
        (address_grounded answers.domain queried (non_public answers) safe
          (λ id h. in_either in_a in_aaaa queried a aaaa id h))
        (AllGrounded-mono (ids_of in_mx) queried mx (mx_findings display answers.domain in_mx)
          (mx_grounded answers.domain in_mx safe))
