-- ===== src/Rdap/Laws.antt =====
-- What the bootstrap registry holds, and the service that it gives for an address.
use sentinel_osint.Common.{
  ℕ, ◌≤◌, Bool, true, false, Option, none, some, List, [], ◌∷◌, take, filter, length, leb, is_empty,
  nat_eq, ok, ◌≡◌, refl, sym, ap, subst, arith, All, All-append, All-filter, All-take, All-map,
  Bool-cases, inl, inr, length-take, >>=-eq-ok, ok_eq, Any, ◌⊎◌,
}
use sentinel_osint.Common.Text.{codes}
use sentinel_osint.Net.{IpAddr}
use sentinel_osint.Net.Prefix.{IpPrefix, contains}
use sentinel_osint.Indicator.Defs.{Crates}
use sentinel_osint.Rdap.{
  max_urls_per_service, Web, Entry, Bootstrap, is_acceptable_base, urls_of, with_urls, unless_empty,
  entries_of, all_entries, usable_entries, parse, longest_from, first_url, covering, service_for,
  ok_or, and_then,
}

module _ (lib : Crates) (web : Web lib) (allow_http : Bool) where
  -- An entry with one to eight base URLs, all of them acceptable.
  pub record IsEntry (e : Entry lib web) : Type 0 where
    pub has_url : is_empty e.1 ≡ false
    pub bounded : length e.1 ≤ 8
    pub acceptable : All (λ u. is_acceptable_base lib web u allow_http ≡ true) e.1

  All-filtered :
      (us : List lib.Url)
      → All
          (λ u. is_acceptable_base lib web u allow_http ≡ true)
          (filter (λ u. is_acceptable_base lib web u allow_http) us)
  All-filtered [] = tt
  All-filtered (u ∷ us) = elim (Bool-cases (is_acceptable_base lib web u allow_http)) [
    | inl y ↦ rw y (y, All-filtered us)
    | inr n ↦ rw n (All-filtered us)
  ]

  with_urls-IsEntry :
      (u : lib.Url) (us : List lib.Url)
      → length (u ∷ us) ≤ 8
      → All (λ v. is_acceptable_base lib web v allow_http ≡ true) (u ∷ us)
      → (ps : List IpPrefix) → All IsEntry (with_urls lib web (u ∷ us) ps)
  with_urls-IsEntry u us l h [] = tt
  with_urls-IsEntry u us l h (p ∷ ps) =
      (record { has_url = refl; bounded = l; acceptable = h }, with_urls-IsEntry u us l h ps)

  unless_empty-IsEntry :
      (us : List lib.Url)
      → length us ≤ 8
      → All (λ v. is_acceptable_base lib web v allow_http ≡ true) us
      → (ps : List IpPrefix) → All IsEntry (unless_empty lib web us ps)
  unless_empty-IsEntry [] l h ps = tt
  unless_empty-IsEntry (u ∷ us) l h ps = with_urls-IsEntry u us l h ps

  take_eight : (us : List lib.Url) → length (take max_urls_per_service us) ≤ 8
  take_eight us = omega (arith, length-take 8 us)

  entries_of-IsEntry :
      (service : Option (List web.Value)) → All IsEntry (entries_of lib web allow_http service)
  unfolding entries_of urls_of
  entries_of-IsEntry none = tt
  entries_of-IsEntry (some []) = tt
  entries_of-IsEntry (some (ps ∷ [])) = tt
  entries_of-IsEntry (some (ps ∷ urls ∷ more)) =
      unless_empty-IsEntry _ (take_eight _) (All-take _ max_urls_per_service _ (All-filtered _)) _

  all_entries-IsEntry :
      (services : List web.Value) → All IsEntry (all_entries lib web allow_http services)
  unfolding all_entries
  all_entries-IsEntry [] = tt
  all_entries-IsEntry (service ∷ services) =
      All-append IsEntry _ _ (entries_of-IsEntry (web.as_array service))
        (all_entries-IsEntry services)

  pub parse-IsEntry :
      (body : List ℕ) (b : Bootstrap lib web)
      → parse lib web body allow_http ≡ ok b
      → All IsEntry b.entries
  unfolding parse
  parse-IsEntry body b h =
      let (document, _, rest) =
        >>=-eq-ok (ok_or (codes "RDAP bootstrap is not valid JSON") (web.from_slice body)) _ h in
      let (services, _, last) =
        >>=-eq-ok
          (ok_or (codes "RDAP bootstrap has no services array")
            (and_then lib web (web.get (codes "services") document) web.as_array))
          _ rest in
      usable _ (all_entries-IsEntry _) last
    where
      usable :
          (entries : List (Entry lib web))
          → All IsEntry entries
          → usable_entries lib web entries ≡ ok b
          → All IsEntry b.entries
      usable [] k e = cc
      usable (x ∷ xs) k e = subst (λ c. All IsEntry c.entries) (ok_eq e) k

module _ (lib : Crates) (web : Web lib) (P : Entry lib web → Type 0) where
  -- What the entry with the longest prefix is.
  pub record IsLongest (es : List (Entry lib web)) (y : Entry lib web) : Type 0 where
    pub holds : P y
    pub longest : All (λ e. e.0.len ≤ y.0.len) es

  longest_from-IsLongest :
      (x : Entry lib web) (es : List (Entry lib web))
      → P x
      → All P es
      → (y : Entry lib web) × (longest_from lib web (some x) es ≡ some y) × IsLongest (x ∷ es) y
  longest_from-IsLongest x [] h k = (x, refl, record { holds = h; longest = (omega arith, tt) })
  longest_from-IsLongest (p, us) ((q, vs) ∷ es) h (j, k) = elim (Bool-cases (leb p.len q.len)) [
    | inl l ↦
        let (y, e, i) = longest_from-IsLongest (q, vs) es j k in
        let below : p.len ≤ q.len = ground arith in
        let above = i.longest.0 in
        (y, rw l e, record { holds = i.holds; longest = (omega arith, i.longest) })
    | inr n ↦
        let (y, e, i) = longest_from-IsLongest (p, us) es h k in
        let below : q.len ≤ p.len = ground arith in
        let above = i.longest.0 in
        (y, rw n e, record { holds = i.holds; longest = (above, (omega arith, i.longest.1)) })
  ]

module _ (lib : Crates) (web : Web lib) where
  members : (xs : List (Entry lib web)) → All (λ x. Any (λ q. q ≡ x) xs) xs
  members [] = tt
  members (x ∷ xs) = (inl refl, All-map _ _ (λ y m. inr m) xs (members xs))

  covering-Covers :
      (ip : IpAddr) (es : List (Entry lib web))
      → All (λ e. contains e.0 ip ≡ true) (filter (λ e. contains e.0 ip) es)
  covering-Covers ip [] = tt
  covering-Covers ip (e ∷ es) = elim (Bool-cases (contains e.0 ip)) [
    | inl y ↦ rw y (y, covering-Covers ip es)
    | inr n ↦ rw n (covering-Covers ip es)
  ]

  none_covers :
      (ip : IpAddr) (es : List (Entry lib web))
      → is_empty (filter (λ e. contains e.0 ip) es) ≡ true
      → All (λ e. contains e.0 ip ≡ false) es
  none_covers ip [] h = tt
  none_covers ip (e ∷ es) h = elim (Bool-cases (contains e.0 ip)) [
    | inl y ↦ absurd (ground arith)
    | inr n ↦ (n, none_covers ip es (ground arith))
  ]

  module _ (allow_http : Bool) (b : Bootstrap lib web) (ip : IpAddr) where
    -- An entry of the registry that covers the address.
    abbrev pub Serves : Entry lib web → Type 0
    Serves e =
        Any (λ q. q ≡ e) b.entries × ((contains e.0 ip ≡ true) × IsEntry lib web allow_http e)

    -- A URL is acceptable, and the first one of a covering entry with the longest prefix.
    pub record IsService (u : lib.Url) : Type 0 where
      pub entry : Entry lib web
      pub first : first_url lib web entry ≡ some u
      pub best : IsLongest lib web Serves (covering lib web b ip) entry
      pub acceptable : is_acceptable_base lib web u allow_http ≡ true

    abbrev pub Served : Type 0
    Served =
        ((u : lib.Url) × (service_for lib web b ip ≡ some u) × IsService u)
        ⊎ ((service_for lib web b ip ≡ none) × All (λ e. contains e.0 ip ≡ false) b.entries)

    all_serve : All (IsEntry lib web allow_http) b.entries → All Serves (covering lib web b ip)
    unfolding covering
    all_serve k =
        both (covering lib web b ip)
          (All-filter _ (λ e. contains e.0 ip) b.entries (members b.entries))
          (covering-Covers ip b.entries) (All-filter _ (λ e. contains e.0 ip) b.entries k)
      where
        both :
            (es : List (Entry lib web))
            → All (λ e. Any (λ q. q ≡ e) b.entries) es
            → All (λ e. contains e.0 ip ≡ true) es
            → All (IsEntry lib web allow_http) es
            → All Serves es
        both [] m c k = tt
        both (e ∷ es) (i, m) (j, c) (k, h) = ((i, (j, k)), both es m c h)

    served : (es : List (Entry lib web)) → covering lib web b ip ≡ es → All Serves es → Served
    unfolding service_for
    served [] e k = inr (rw e refl, none_covers ip b.entries (ap is_empty e))
    served (x ∷ es) e (s, k) =
        let (y, l, i) = longest_from-IsLongest lib web Serves x es s k in of_entry y l i
      where
        of_entry :
            (y : Entry lib web)
            → longest_from lib web (some x) es ≡ some y
            → IsLongest lib web Serves (x ∷ es) y
            → Served
        of_entry (p, []) l i = absurd (no_url i.holds.1.1.has_url)
          where
            no_url : true ≡ false → ⊥
            no_url q = cc
        of_entry (p, u ∷ us) l i = inl (
          u,
          rw (e, l) refl,
          record {
            entry = (p, u ∷ us);
            first = refl;
            best = subst (λ cs. IsLongest lib web Serves cs (p, u ∷ us)) (sym e) i;
            acceptable = i.holds.1.1.acceptable.0;
          },
        )

    -- In a registry that `parse` returns, `service_for` gives for an address an acceptable URL, the
    -- first one of an entry that covers the address with the longest prefix, or none, and then no entry
    -- covers it.
    pub service_for-parse : (body : List ℕ) → parse lib web body allow_http ≡ ok b → Served
    service_for-parse body h =
        served (covering lib web b ip) refl (all_serve (parse-IsEntry lib web allow_http body b h))
