-- ===== src/Net/Parser/Bounds.antt =====
-- That the parts of every address that the parser returns fit their types.
use mathlib.Core.Option
use sentinel_osint.Common.{
  ℕ, zero, suc, ◌+◌, ◌*◌, ◌-◌, ◌<◌, Bool, true, false, ◌||◌, Option, none, some, List, [], ◌∷◌,
  ◌++◌, ltb, leb, ◌==◌, if◌then◌else◌, length, ◌≡◌, refl, ap, subst, arith, All, All-append,
}
use sentinel_osint.Common.Text.{Text}
use sentinel_osint.Net.{Ipv4Addr, Ipv6Addr, IpAddr, v4, v6, IsIpv4, IsIpv6, IsIp}
use sentinel_osint.Net.Parser.{
  ◌>>=◌, read_digits, read_number, read_char, read_separator, read_octet, read_ipv4, Groups,
  push_group, dotted_at, group_at, read_groups, zeros, ipv6_of, read_ipv6, at_end, parse_ip_addr,
}

bind-eq-some :
    {A B : Type 0} (o : Option A) (k : A → Option B) {b : B}
    → (o >>= k) ≡ some b
    → (a : A) × (o ≡ some a) × (k a ≡ some b)
bind-eq-some none k h = cc
bind-eq-some (some a) k h = (a, refl, h)

some_inj : {A : Type 0} {a b : A} → some a ≡ some b → a ≡ b
some_inj h = cc

read_number-lt :
    (radix max_digits : ℕ) (zero_prefix : Bool) (bound : ℕ) (s : Text) (n : ℕ) (rest : Text)
    → read_number radix max_digits zero_prefix bound s ≡ some (n, rest)
    → n < bound
read_number-lt radix max_digits zero_prefix bound s n rest h =
    tested (leb bound (read_digits radix 0 0 s).0) _ refl h
  where
    tested :
        (b c : Bool)
        → leb bound (read_digits radix 0 0 s).0 ≡ b
        → ◌≡◌ {A = Option (ℕ × Text)}
            (if◌then◌else◌ {A = Option (ℕ × Text)}
              (c || b)
              none
              (some ((read_digits radix 0 0 s).0, (read_digits radix 0 0 s).2)))
            (some (n, rest))
        → n < bound
    tested b true e k = cc
    tested true false e k = cc
    tested false false e k =
        let same = ap (λ p. p.0) (some_inj k) in
        let less : (read_digits radix 0 0 s).0 < bound = ground arith in omega (arith, same)

octet-lt :
    (first : Bool) (s : Text) (n : ℕ) (rest : Text) → read_octet first s ≡ some (n, rest) → n < 256
octet-lt first s n rest h =
    let (s', e, k) = bind-eq-some (read_separator b'.' first s) _ h in
    read_number-lt 10 3 false 256 s' n rest k

pub read_ipv4-IsIpv4 :
    (s : Text) (ip : Ipv4Addr) (rest : Text) → read_ipv4 s ≡ some (ip, rest) → IsIpv4 ip
unfolding read_ipv4
read_ipv4-IsIpv4 s ip rest h =
    let ((a, s1), ea, ha) = bind-eq-some (read_octet true s) _ h in
    let ((b, s2), eb, hb) = bind-eq-some (read_octet false s1) _ ha in
    let ((c, s3), ec, hc) = bind-eq-some (read_octet false s2) _ hb in
    let ((d, s4), ed, hd) = bind-eq-some (read_octet false s3) _ hc in
    let fits : IsIpv4 (record { a = a; b = b; c = c; d = d }) = record {
      a_byte = octet-lt true s a s1 ea;
      b_byte = octet-lt false s1 b s2 eb;
      c_byte = octet-lt false s2 c s3 ec;
      d_byte = octet-lt false s3 d s4 ed;
    } in
    subst IsIpv4 (ap (λ p. p.0) (some_inj hd)) fits

abbrev Words : List ℕ → Type 0
Words gs = All (λ g. g < 65536) gs

dotted-Words :
    (room first : Bool) (s : Text) (ip : Ipv4Addr) (rest : Text)
    → dotted_at room first s ≡ some (ip, rest)
    → Words ((ip.a * 256 + ip.b) ∷ (ip.c * 256 + ip.d) ∷ [])
dotted-Words false first s ip rest h = cc
dotted-Words true first s ip rest h =
    let (s', e, k) = bind-eq-some (read_separator b':' first s) _ h in
    let fits = read_ipv4-IsIpv4 s' ip rest k in
    (omega (arith, fits.a_byte, fits.b_byte), (omega (arith, fits.c_byte, fits.d_byte), tt))

group-lt :
    (first : Bool) (s : Text) (g : ℕ) (rest : Text) → group_at first s ≡ some (g, rest) → g < 65536
group-lt first s g rest h =
    let (s', _, number) = bind-eq-some (read_separator b':' first s) _ h in
    read_number-lt 16 4 true 65536 s' g rest number

read_groups-Words : (left : ℕ) (first : Bool) (s : Text) → Words (read_groups left first s).0
unfolding read_groups
read_groups-Words zero first s = tt
read_groups-Words (suc left) first s =
    step (dotted_at (ltb 0 left) first s) (dotted-Words (ltb 0 left) first s) (group_at first s)
      (group-lt first s) (λ rest. read_groups-Words left false rest)
  where
    step :
        (o : Option (Ipv4Addr × Text))
        → ((ip : Ipv4Addr) (rest : Text)
            → o ≡ some (ip, rest)
            → Words ((ip.a * 256 + ip.b) ∷ (ip.c * 256 + ip.d) ∷ []))
        → (p : Option (ℕ × Text)) → ((g : ℕ) (rest : Text) → p ≡ some (g, rest) → g < 65536)
        → ((rest : Text) → Words (read_groups left false rest).0)
        → Words
            (elim o as (λ q. Groups) [
              | some (ip, rest) ↦ ((ip.a * 256 + ip.b) ∷ (ip.c * 256 + ip.d) ∷ [], true, rest)
              | none ↦ elim p as (λ q. Groups) [
                | none ↦ ([], false, s)
                | some (g, rest) ↦ push_group g (read_groups left false rest)
              ]
            ]).0
    step (some (ip, rest)) f p k w = f ip rest refl
    step none f none k w = tt
    step none f (some (g, rest)) k w = (k g rest refl, w rest)

zeros-Words : (n : ℕ) → Words (zeros n)
zeros-Words zero = tt
zeros-Words (suc n) = (omega arith, zeros-Words n)

ipv6_of-IsIpv6 : (gs : List ℕ) (ip : Ipv6Addr) → Words gs → ipv6_of gs ≡ some ip → IsIpv6 ip
ipv6_of-IsIpv6 (a ∷ b ∷ c ∷ d ∷ e ∷ f ∷ g ∷ h ∷ []) ip
      (w0, (w1, (w2, (w3, (w4, (w5, (w6, (w7, _)))))))) k =
    let fits : IsIpv6 (record { s0 = a; s1 = b; s2 = c; s3 = d; s4 = e; s5 = f; s6 = g; s7 = h }) =
      record {
        word0 = w0;
        word1 = w1;
        word2 = w2;
        word3 = w3;
        word4 = w4;
        word5 = w5;
        word6 = w6;
        word7 = w7;
      } in
    subst IsIpv6 (some_inj k) fits
ipv6_of-IsIpv6 _ ip w k = cc

map-eq-some :
    {A B : Type 0} (f : A → B) (o : Option A) {b : B}
    → Option.map f o ≡ some b
    → (a : A) × (o ≡ some a) × (f a ≡ b)
map-eq-some f none h = cc
map-eq-some f (some a) h = (a, refl, some_inj h)

abbrev with_rest : Ipv6Addr → Text → Option (Ipv6Addr × Text)
with_rest ip rest = some (ip, rest)

pub read_ipv6-IsIpv6 :
    (s : Text) (ip : Ipv6Addr) (rest : Text) → read_ipv6 s ≡ some (ip, rest) → IsIpv6 ip
unfolding read_ipv6
read_ipv6-IsIpv6 s ip rest h =
    let groups = read_groups 8 true s in
    whole (length groups.0 == 8) groups.0 groups.1 groups.2 (read_groups-Words 8 true s) h
  where
    back_at : List ℕ → Text → Groups
    back_at front s2 = read_groups (7 - length front) true s2

    joined : List ℕ → Text → List ℕ
    joined front s2 =
        front ++ (zeros (8 - length front - length (back_at front s2).0) ++ (back_at front s2).0)

    whole :
        (full : Bool) (front : List ℕ) (dotted : Bool) (last : Text)
        → Words front
        → (if full
            then Option.map {B = Ipv6Addr × Text} (λ i. (i, last)) (ipv6_of front)
            else if dotted
            then none
            else read_char b':' last >>= λ s1. read_char b':' s1 >>= λ s2.
                ipv6_of (joined front s2) >>= λ i. with_rest i (back_at front s2).2)
          ≡ some (ip, rest)
        → IsIpv6 ip
    whole true front dotted last w e =
        let (i, found, same) =
          map-eq-some {B = Ipv6Addr × Text} (λ i. (i, last)) (ipv6_of front) e in
        subst IsIpv6 (ap (λ p. p.0) same) (ipv6_of-IsIpv6 front i w found)
    whole false front true last w e = cc
    whole false front false last w e =
        let (s1, _, e1) = bind-eq-some (read_char b':' last) _ e in
        let (s2, _, e2) = bind-eq-some (read_char b':' s1) _ e1 in
        let (i, found, same) = bind-eq-some (ipv6_of (joined front s2)) _ e2 in
        subst IsIpv6 (ap (λ p. p.0) (some_inj same)) (
          ipv6_of-IsIpv6 (joined front s2) i
            (All-append (λ g. g < 65536) front _ w
              (All-append (λ g. g < 65536) (zeros _) _ (zeros-Words _)
                (read_groups-Words (7 - length front) true s2)))
            found)

pub parse_ip_addr-IsIp : (s : Text) (ip : IpAddr) → parse_ip_addr s ≡ some ip → IsIp ip
unfolding parse_ip_addr
parse_ip_addr-IsIp s ip h = by_family (read_ipv4 s) refl h
  where
    at_end-eq-some :
        {A : Type 0} (o : Option (A × Text)) (a : A)
        → at_end o ≡ some a
        → (rest : Text) × (o ≡ some (a, rest))
    at_end-eq-some none a e = cc
    at_end-eq-some (some (b, [])) a e = ([], ap (λ x. some (x, [])) (some_inj e))
    at_end-eq-some (some (b, c ∷ cs)) a e = cc

    by_family :
        (o : Option (Ipv4Addr × Text))
        → read_ipv4 s ≡ o
        → (elim o as (λ q. Option IpAddr) [
          | some (a, rest) ↦ at_end (some (v4 a, rest))
          | none ↦ Option.map v6 (at_end (read_ipv6 s))
        ])
          ≡ some ip
        → IsIp ip
    by_family none e k =
        let (a, found, same) = map-eq-some v6 (at_end (read_ipv6 s)) k in
        let (rest, read) = at_end-eq-some (read_ipv6 s) a found in
        subst IsIp same (read_ipv6-IsIpv6 s a rest read)
    by_family (some (a, [])) e k = subst IsIp (some_inj k) (read_ipv4-IsIpv4 s a [] e)
    by_family (some (a, c ∷ cs)) e k = cc
