-- ===== src/Net/Parser.antt =====
-- The address parser of the standard library (`str::parse::<IpAddr>`), and
-- crates/core/src/net.rs: `IpPrefix::parse`.
pub mod Bounds
use mathlib.Core.Option
use sentinel_osint.Common.{
  ℕ, zero, suc, ◌+◌, ◌*◌, ◌-◌, Bool, true, false, not, ◌&&◌, ◌||◌, Option, none, some, List, [],
  ◌∷◌, ◌++◌, ltb, leb, ◌==◌, within, if◌then◌else◌, length, is_empty, all, Result, err,
}
use sentinel_osint.Common.Text.{Text, is_ascii_digit, trim, len, is_some}
use sentinel_osint.Common.Text.Splitting.{split_once}
use sentinel_osint.Net.{Ipv4Addr, Ipv6Addr, IpAddr, v4, v6}
use sentinel_osint.Net.Prefix.{IpPrefix, PrefixError, syntax, address, new}
use sentinel_osint.Net.Prefix

infixl 5 ◌>>=◌
abbrev ◌>>=◌ : {A B : Type 0} → Option A → (A → Option B) → Option B
none >>= k = none
some a >>= k = k a

-- `char::to_digit`.
abbrev pub to_digit : ℕ → ℕ → Option ℕ
to_digit radix c =
    let value =
      if is_ascii_digit c
      then c - b'0'
      else if within b'a' b'f' c
      then c - b'a' + 10
      else if within b'A' b'F' c
      then c - b'A' + 10
      else 16 in
    if ltb value radix then some value else none

-- The digits at the front: their value, how many they are, and what follows.
abbrev pub read_digits : ℕ → ℕ → ℕ → Text → ℕ × ℕ × Text
read_digits radix value count [] = (value, count, [])
read_digits radix value count (c ∷ cs) = elim (to_digit radix c) [
  | none ↦ (value, count, c ∷ cs)
  | some digit ↦ read_digits radix (value * radix + digit) (count + 1) cs
]

abbrev leads_zero : Text → Bool
leads_zero [] = false
leads_zero (c ∷ cs) = c == b'0'

-- A number of at most `max_digits` digits that is below `bound`.
abbrev pub read_number : ℕ → ℕ → Bool → ℕ → Text → Option (ℕ × Text)
read_number radix max_digits allow_zero_prefix bound s =
    let (value, count, rest) = read_digits radix 0 0 s in
    if count == 0
      || ltb max_digits count
      || (not allow_zero_prefix && leads_zero s && ltb 1 count)
      || leb bound value
    then none
    else some (value, rest)

abbrev read_char : ℕ → Text → Option Text
read_char want [] = none
read_char want (c ∷ cs) = if c == want then some cs else none

-- The separator stands before all groups but the first.
abbrev read_separator : ℕ → Bool → Text → Option Text
read_separator sep first s = if first then some s else read_char sep s

abbrev read_octet : Bool → Text → Option (ℕ × Text)
read_octet first s = do s' ← read_separator b'.' first s; read_number 10 3 false 256 s'

pub read_ipv4 : Text → Option (Ipv4Addr × Text)
read_ipv4 s = do
  (a, s1) ← read_octet true s
  (b, s2) ← read_octet false s1
  (c, s3) ← read_octet false s2
  (d, s4) ← read_octet false s3
  some (record { a = a; b = b; c = c; d = d }, s4)

-- Groups, whether an IPv4 address ended them, and what follows.
abbrev Groups : Type 0
Groups = List ℕ × Bool × Text

abbrev push_group : ℕ → Groups → Groups
push_group g (gs, dotted, rest) = (g ∷ gs, dotted, rest)

abbrev dotted_at : Bool → Bool → Text → Option (Ipv4Addr × Text)
dotted_at room first s = if room then read_separator b':' first s >>= read_ipv4 else none

abbrev group_at : Bool → Text → Option (ℕ × Text)
group_at first s = do s' ← read_separator b':' first s; read_number 16 4 true 65536 s'

pub read_groups : ℕ → Bool → Text → Groups
unfolding read_ipv4
read_groups zero first s = ([], false, s)
read_groups (suc left) first s = elim (dotted_at (ltb 0 left) first s) [
  | some (ip, rest) ↦ ((ip.a * 256 + ip.b) ∷ (ip.c * 256 + ip.d) ∷ [], true, rest)
  | none ↦ elim (group_at first s) [
    | none ↦ ([], false, s)
    | some (g, rest) ↦ push_group g (read_groups left false rest)
  ]
]

abbrev zeros : ℕ → List ℕ
zeros zero = []
zeros (suc n) = 0 ∷ zeros n

abbrev ipv6_of : List ℕ → Option Ipv6Addr
ipv6_of (a ∷ b ∷ c ∷ d ∷ e ∷ f ∷ g ∷ h ∷ []) =
    some (record { s0 = a; s1 = b; s2 = c; s3 = d; s4 = e; s5 = f; s6 = g; s7 = h })
ipv6_of _ = none

pub read_ipv6 : Text → Option (Ipv6Addr × Text)
unfolding read_groups
read_ipv6 s =
    let (front, dotted, rest) = read_groups 8 true s in
    if length front == 8
    then Option.map (λ ip. (ip, rest)) (ipv6_of front)
    else if dotted
    then none
    else do
      s1 ← read_char b':' rest
      s2 ← read_char b':' s1
      let (back, _, last) = read_groups (7 - length front) true s2
      ip ← ipv6_of (front ++ (zeros (8 - length front - length back) ++ back))
      some (ip, last)

abbrev at_end {ℓ} : {A : Type ℓ} → Option (A × Text) → Option A
at_end none = none
at_end (some (a, [])) = some a
at_end (some (a, c ∷ cs)) = none

unfoldable pub parse_ip_addr : Text → Option IpAddr
unfolding read_ipv4 read_ipv6
parse_ip_addr s = elim (read_ipv4 s) [
  | some (ip, rest) ↦ at_end (some (v4 ip, rest))
  | none ↦ Option.map v6 (at_end (read_ipv6 s))
]

-- Whether `parse::<Ipv4Addr>` and `parse::<Ipv6Addr>` succeed; no IPv4 address is written in more
-- than 15 bytes.
unfoldable pub is_ipv4 : Text → Bool
unfolding read_ipv4
is_ipv4 s = leb (len s) 15 && is_some (at_end (read_ipv4 s))

unfoldable pub is_ipv6 : Text → Bool
unfolding read_ipv6
is_ipv6 s = is_some (at_end (read_ipv6 s))

-- `IpPrefix::parse`; a length of at most three digits that is no `u8` is refused as a length.
unfoldable pub parse_prefix : Text → Result PrefixError IpPrefix
unfolding parse_ip_addr new
parse_prefix input = elim (split_once b'/' (trim input)) [
  | none ↦ err syntax
  | some (network, digits) ↦ elim (parse_ip_addr network) [
    | none ↦ err address
    | some ip ↦
        if is_empty digits || ltb 3 (len digits) || not (all is_ascii_digit digits)
        then err Prefix.length
        else elim (read_number 10 3 true 256 digits) [
          | none ↦ err Prefix.length
          | some (value, rest) ↦ new ip value
        ]
  ]
]
