-- ===== src/Common/Text/Splitting.antt =====
-- `str::split` on a character, and joining the parts again.
use Prim.Native.Nat.{ℕ}
use mathlib.Core.Path.{◌≡◌, refl}
use mathlib.Core.Logic.{◌≢◌}
use mathlib.Core.Bool.{Bool, true, false}
use mathlib.Core.Option.{Option, none, some}
use mathlib.Core.List.{List, [], ◌∷◌, ◌++◌}
use native.Mathlib.Omega.{arith}
use Prim.Native.Nat.{◌-◌}
use sentinel_osint.Common.Tests.{◌==◌, leb, if◌then◌else◌}
use sentinel_osint.Common.Text.{Text, len_utf8}

abbrev push_part : Bool → ℕ → List Text → List Text
push_part true c parts = [] ∷ parts
push_part false c [] = (c ∷ []) ∷ []
push_part false c (p ∷ ps) = (c ∷ p) ∷ ps

abbrev pub split : ℕ → Text → List Text
split sep [] = [] ∷ []
split sep (c ∷ cs) = push_part (c == sep) c (split sep cs)

abbrev cut_next : Bool → ℕ → Text → Option (Text × Text) → Option (Text × Text)
cut_next true c cs rest = some ([], cs)
cut_next false c cs none = none
cut_next false c cs (some (before, after)) = some (c ∷ before, after)

-- `str::split_once` on a character.
abbrev pub split_once : ℕ → Text → Option (Text × Text)
split_once sep [] = none
split_once sep (c ∷ cs) = cut_next (c == sep) c cs (split_once sep cs)

abbrev before_cut : ℕ → Option (Text × Text) → Option (Text × Text)
before_cut c none = none
before_cut c (some (before, after)) = some (c ∷ before, after)

-- What stands before and after byte `n`, `get(..n)` and `get(n..)`: none where `n` is past the end or
-- within a character.
abbrev pub split_at_byte : ℕ → Text → Option (Text × Text)
split_at_byte n [] = if n == 0 then some ([], []) else none
split_at_byte n (c ∷ cs) =
    let rest = before_cut c (split_at_byte (n - len_utf8 c) cs) in
    if n == 0 then some ([], c ∷ cs) else if leb (len_utf8 c) n then rest else none

-- `join` with a text between the parts.
abbrev pub join : Text → List Text → Text
join sep [] = []
join sep (p ∷ []) = p
join sep (p ∷ q ∷ ps) = p ++ sep ++ join sep (q ∷ ps)

pub split-ne-nil : (sep : ℕ) (s : Text) → split sep s ≢ []
split-ne-nil sep [] = cc
split-ne-nil sep (c ∷ cs) = ground (arith, split-ne-nil sep cs)

-- The text in front of the first separator.
abbrev pub before : ℕ → Text → Text
before sep [] = []
before sep (c ∷ cs) = if c == sep then [] else c ∷ before sep cs

pub split-before : (sep : ℕ) (s : Text) → (parts : List Text) × (split sep s ≡ before sep s ∷ parts)
split-before sep [] = ([], refl)
split-before sep (c ∷ cs) = pushed (c == sep) (split-before sep cs)
  where
    pushed :
        (b : Bool)
        → ((parts : List Text) × (split sep cs ≡ before sep cs ∷ parts))
        → (parts : List Text) × (push_part b c (split sep cs)
            ≡ (if b then [] else c ∷ before sep cs) ∷ parts)
    pushed true (parts, e) = (split sep cs, refl)
    pushed false (parts, e) = (parts, rw e refl)
