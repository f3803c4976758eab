-- ===== src/Sanitize/Laws.antt =====
-- What `sanitize_single_line` guarantees about its result.
use sentinel_osint.Common.{
  le→leb, ℕ, zero, suc, ◌+◌, ◌-◌, ◌≤◌, ◌<◌, false, [], ◌∷◌, ◌++◌, map, length, take, leb,
  if◌then◌else◌, ◌≡◌, refl, arith, ap, All, All-append, length-append, length-take, Bool-cases, inl,
  inr,
}
use sentinel_osint.Common.Text.{Text, is_some, get_elem?}
use sentinel_osint.Sanitize.{is_unsafe, clean, ellipsis, sanitize_from, sanitize_single_line}

is_some-get_elem? : (s : Text) (i : ℕ) → is_some (get_elem? s i) ≡ leb (i + 1) (length s)
is_some-get_elem? [] i = ground arith
is_some-get_elem? (c ∷ s) zero = ground arith
is_some-get_elem? (c ∷ s) (suc i) = ground (arith, is_some-get_elem? s i)

abbrev cut : ℕ → Text → Text
cut room s =
    if leb (length s) room then map clean s else map clean (take (room - 1) s) ++ ellipsis ∷ []

-- From any point of the loop, where `room` more characters may be written.
sanitize_from_lem :
    (input : Text) (max_chars room count : ℕ) (s : Text)
    → max_chars ≡ count + room
    → length input ≡ count + length s
    → 0 < room
    → sanitize_from input max_chars count s ≡ cut room s
unfolding sanitize_from
sanitize_from_lem input m room count [] q e h = ground arith
sanitize_from_lem input m zero count (c ∷ cs) q e h = absurd (omega arith)
sanitize_from_lem input m (suc zero) count (c ∷ []) q e h =
    ground (arith, is_some-get_elem? input m)
sanitize_from_lem input m (suc zero) count (c ∷ d ∷ ds) q e h =
    ground (arith, is_some-get_elem? input m)
sanitize_from_lem input m (suc (suc room)) count (c ∷ cs) q e h =
    let rest =
      sanitize_from_lem input m (suc room) (count + 1) cs (omega arith) (omega arith)
        (omega arith) in
    ground (arith, rest)

-- Where there is room for a character, a text that fits is kept but for its unsafe ones; of a longer one all but the last place
-- is filled with its beginning, and the last with an ellipsis.
pub sanitize_single_line-eq :
    (input : Text) (max_chars : ℕ)
    → 0 < max_chars
    → sanitize_single_line input max_chars ≡ (
        if leb (length input) max_chars
        then map clean input
        else map clean (take (max_chars - 1) input) ++ ellipsis ∷ [])
unfolding sanitize_single_line
sanitize_single_line-eq input max_chars h =
    let loop = sanitize_from_lem input max_chars max_chars 0 input (omega arith) (omega arith) h in
    ground (arith, loop)

length-map : (f : ℕ → ℕ) (s : Text) → length (map f s) ≡ length s
length-map f [] = refl
length-map f (c ∷ cs) = ap suc (length-map f cs)

sanitize_single_line-zero : (input : Text) → sanitize_single_line input 0 ≡ []
unfolding sanitize_single_line
sanitize_single_line-zero input = refl

length-cut-le : (room : ℕ) (s : Text) → 0 < room → length (cut room s) ≤ room
length-cut-le room s h = ground (
  arith,
  length-map clean s,
  length-map clean (take (room - 1) s),
  length-take (room - 1) s,
  length-append (map clean (take (room - 1) s)) (ellipsis ∷ []),
)

-- The result never has more characters than asked for.
length-sanitize_single_line-le :
    (input : Text) (max_chars : ℕ) → length (sanitize_single_line input max_chars) ≤ max_chars
length-sanitize_single_line-le input zero = rw sanitize_single_line-zero (omega arith)
length-sanitize_single_line-le input (suc m) =
    rw (sanitize_single_line-eq input (suc m) (omega arith))
      (length-cut-le (suc m) input (omega arith))

abbrev pub IsSafe : ℕ → Type 0
IsSafe c = is_unsafe c ≡ false

clean-IsSafe : (c : ℕ) → IsSafe (clean c)
clean-IsSafe c = elim (Bool-cases (is_unsafe c)) [ inl y ↦ rw y refl | inr n ↦ rw n n ]

map-clean-IsSafe : (s : Text) → All IsSafe (map clean s)
map-clean-IsSafe [] = tt
map-clean-IsSafe (c ∷ cs) = (clean-IsSafe c, map-clean-IsSafe cs)

cut-IsSafe : (room : ℕ) (s : Text) → All IsSafe (cut room s)
cut-IsSafe room s = elim (Bool-cases (leb (length s) room)) [
  | inl y ↦ rw y (map-clean-IsSafe s)
  | inr n ↦
      rw n (All-append IsSafe _ (ellipsis ∷ []) (map-clean-IsSafe (take (room - 1) s)) (refl, tt))
]

map-clean_safe : (s : Text) → All IsSafe s → map clean s ≡ s
map-clean_safe [] h = refl
map-clean_safe (c ∷ cs) h = rw (h.0, map-clean_safe cs h.1)

All-IsSafe : (input : Text) (max_chars : ℕ) → All IsSafe (sanitize_single_line input max_chars)
All-IsSafe input zero = rw sanitize_single_line-zero tt
All-IsSafe input (suc m) =
    rw (sanitize_single_line-eq input (suc m) (omega arith)) (cut-IsSafe (suc m) input)

-- A safe text that fits is left as it is.
pub sanitize_single_line_safe :
    (s : Text) (max_chars : ℕ)
    → All IsSafe s
    → length s ≤ max_chars
    → sanitize_single_line s max_chars ≡ s
sanitize_single_line_safe [] zero h le = sanitize_single_line-zero []
sanitize_single_line_safe (c ∷ cs) zero h le = absurd (omega arith)
sanitize_single_line_safe s (suc m) h le =
    rw (sanitize_single_line-eq s (suc m) (omega arith), le→leb (length s) (suc m) le)
      (map-clean_safe s h)

-- The result holds no control, zero-width or bidirectional character, and has at most `max_chars`
-- characters.
pub sanitize_single_line-IsSafe :
    (input : Text) (max_chars : ℕ)
    → All IsSafe (sanitize_single_line input max_chars)
      × (length (sanitize_single_line input max_chars) ≤ max_chars)
sanitize_single_line-IsSafe input max_chars =
    (All-IsSafe input max_chars, length-sanitize_single_line-le input max_chars)

-- Sanitizing a text that was sanitized to the same length changes nothing.
pub sanitize_single_line_idem :
    (input : Text) (max_chars : ℕ)
    → sanitize_single_line (sanitize_single_line input max_chars) max_chars
      ≡ sanitize_single_line input max_chars
sanitize_single_line_idem input max_chars =
    sanitize_single_line_safe (sanitize_single_line input max_chars) max_chars
      (All-IsSafe input max_chars) (length-sanitize_single_line-le input max_chars)
