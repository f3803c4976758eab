-- ===== src/Sanitize.antt =====
-- crates/core/src/text.rs: `sanitize_single_line`.
pub mod Laws
use mathlib.Core.Bool.{◌||◌}
use sentinel_osint.Common.{ℕ, ◌+◌, Bool, ◌&&◌, List, [], ◌∷◌, map, ◌==◌, within, if◌then◌else◌}
use sentinel_osint.Common.Text.{Text, is_control, is_some, get_elem?}

-- U+FFFD.
abbrev pub replacement : ℕ
replacement = 0xfffd

-- U+2026, the mark of a cut.
abbrev pub ellipsis : ℕ
ellipsis = 0x2026

abbrev pub is_unsafe : ℕ → Bool
is_unsafe c =
    is_control c
    || (within 0x200b 0x200f c || within 0x202a 0x202e c || within 0x2060 0x2069 c || c == 0xfeff)

abbrev pub clean : ℕ → ℕ
clean c = if is_unsafe c then replacement else c

-- The loop over `chars().enumerate()`; `input` is the whole text, whose length is probed at a cut.
pub sanitize_from : Text → ℕ → ℕ → Text → Text
sanitize_from input max_chars count [] = []
sanitize_from input max_chars count (c ∷ cs) =
    if count + 1 == max_chars && is_some (get_elem? input max_chars)
    then ellipsis ∷ []
    else clean c ∷ sanitize_from input max_chars (count + 1) cs

unfoldable pub sanitize_single_line : Text → ℕ → Text
unfolding sanitize_from
sanitize_single_line input max_chars =
    if max_chars == 0 then [] else sanitize_from input max_chars 0 input
