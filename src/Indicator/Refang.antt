-- ===== src/Indicator/Refang.antt =====
-- crates/core/src/indicator/refang.rs: `refang`.
use sentinel_osint.Common.{
  ℕ, zero, suc, ◌-◌, Bool, List, [], ◌∷◌, ◌++◌, if◌then◌else◌, length, take, drop,
}
use sentinel_osint.Common.{nat_eq, list_beq}
use sentinel_osint.Common.Text.{Text, codes, to_ascii_lowercase, starts_with}

abbrev pub dot_notations : List Text
dot_notations =
    codes "[.]" ∷ codes "(.)" ∷ codes "{.}" ∷ codes "[dot]" ∷ codes "(dot)" ∷ codes "{dot}" ∷ []

-- The matches of `match_indices` from the left, none inside another: `skip` characters still
-- belong to the last match. `lower` is `true` where ASCII case is ignored.
pub replace_from : Bool → Text → Text → ℕ → Text → Text
replace_from lower needle replacement skip [] = []
replace_from lower needle replacement (suc skip) (c ∷ cs) =
    replace_from lower needle replacement skip cs
replace_from lower needle replacement zero (c ∷ cs) =
    let hit = starts_with (if lower then to_ascii_lowercase (c ∷ cs) else c ∷ cs) needle in
    let rest = replace_from lower needle replacement (if hit then length needle - 1 else 0) cs in
    if hit then replacement ++ rest else c ∷ rest

-- `replace_ascii_case_insensitive`, for a needle with at least one character.
abbrev pub replace_ascii_case_insensitive : Text → Text → Text → Text
replace_ascii_case_insensitive haystack needle replacement =
    replace_from Bool.true needle replacement 0 haystack

-- `str::replace`.
abbrev pub replace : Text → Text → Text → Text
replace haystack needle replacement = replace_from Bool.false needle replacement 0 haystack

-- The loop over the notations.
abbrev replace_dots : List Text → Text → Text
replace_dots [] out = out
replace_dots (notation ∷ more) out =
    replace_dots more (replace_ascii_case_insensitive out notation (codes "."))

-- `replace_range(..4, "http")` if the first four characters say `hxxp`.
abbrev restore_scheme : Text → Text
restore_scheme out =
    if list_beq (to_ascii_lowercase (take 4 out)) (codes "hxxp")
    then codes "http" ++ drop 4 out
    else out

unfoldable pub refang : Text → Text
unfolding replace_from
refang input =
    let dotted = replace_dots dot_notations input in
    let separated = replace dotted (codes "[://]") (codes "://") in
    let with_ports = replace separated (codes "[:]") (codes ":") in
    restore_scheme (replace with_ports (codes "[@]") (codes "@"))
