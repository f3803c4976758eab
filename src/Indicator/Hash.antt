-- ===== src/Indicator/Hash.antt =====
-- crates/core/src/indicator/hash.rs: `FileHash::parse`.
pub mod Laws
use sentinel_osint.Common.{
  ℕ, Bool, not, Option, none, some, List, [], ◌∷◌, ◌==◌, if◌then◌else◌, is_empty, all, Result, ok,
  err,
}
use sentinel_osint.Common.Text.{Text, is_ascii_hexdigit, to_ascii_lowercase, trim, len}
use sentinel_osint.Indicator.Defs.{
  HashAlgorithm, md5, sha1, sha256, FileHash, IndicatorError, empty, invalid_file_hash,
}

abbrev pub hex_len : HashAlgorithm → ℕ
hex_len md5 = 32
hex_len sha1 = 40
hex_len sha256 = 64

abbrev pub from_hex_len : ℕ → Option HashAlgorithm
from_hex_len n =
    if n == 32
    then some md5
    else if n == 40
    then some sha1
    else if n == 64
    then some sha256
    else none

abbrev with_algorithm : Text → Option HashAlgorithm → Result IndicatorError FileHash
with_algorithm s none =
    err (invalid_file_hash "length must be 32 (MD5), 40 (SHA-1) or 64 (SHA-256) hex characters")
with_algorithm s (some algorithm) =
    ok (record { algorithm = algorithm; hex = to_ascii_lowercase s })

-- The body of `parse` after `trim`.
pub parse_trimmed : Text → Result IndicatorError FileHash
parse_trimmed s =
    if is_empty s
    then err empty
    else if not (all is_ascii_hexdigit s)
    then err (invalid_file_hash "must contain only hexadecimal characters")
    else with_algorithm s (from_hex_len (len s))

unfoldable pub parse : Text → Result IndicatorError FileHash
unfolding parse_trimmed
parse input = parse_trimmed (trim input)
