-- ===== src/Text.antt =====
-- Rust's `String`: its UTF-8 bytes, each a number below 256. `std`'s functions on it that the
-- program uses: literals, `==`, `String::from_utf8_lossy`, `split`.
pub mod Utf8
pub mod Path
pub mod Utf16
pub mod Equal
pub mod Split
pub mod Decimal
pub mod Trim
use Prim.Native.Char.{code}
use Prim.Native.String.{String}
use zapd.Prelude.{ℕ, ◌<◌, List, [], ◌∷◌}

abbrev pub Bytes : Type 0
Bytes = List ℕ

abbrev pub Str : Type 0
Str = List ℕ

abbrev pub IsByte : ℕ → Type 0
IsByte b = b < 256

-- An ASCII literal.
abbrev pub lit : String → Str
lit String.[] = []
lit (String.◌∷◌ c s) = code c ∷ lit s
