-- ===== src/Text/Utf16.antt =====
-- `String::from_utf16_lossy`, and `encode_wide` of a text in which each character has one unit.
use zapd.Prelude.{
  ℕ, ◌+◌, ◌-◌, ◌*◌, ◌/◌, ◌%◌, Bool, ◌&&◌, List, [], ◌∷◌, ◌++◌, leb, ltb, if◌then◌else◌,
}
use zapd.Text.{Str}
use zapd.Text.Utf8.{replacement}

-- `char::encode_utf8`
unfoldable pub encode_utf8 : ℕ → Str
encode_utf8 c =
    if ltb c 0x80
    then c ∷ []
    else if ltb c 0x800
    then (0xC0 + c / 64) ∷ (0x80 + c % 64) ∷ []
    else if ltb c 0x10000
    then (0xE0 + c / 4096) ∷ (0x80 + c / 64 % 64) ∷ (0x80 + c % 64) ∷ []
    else ((0xF0 + c / 262144)
        ∷ (0x80 + c / 4096 % 64)
        ∷ (0x80 + c / 64 % 64)
        ∷ (0x80 + c % 64)
        ∷ [])

abbrev pub is_high : ℕ → Bool
is_high u = leb 0xD800 u && ltb u 0xDC00

abbrev pub is_low : ℕ → Bool
is_low u = leb 0xDC00 u && ltb u 0xE000

abbrev pub pair_of : ℕ → ℕ → ℕ
pair_of high low = 0x10000 + (high - 0xD800) * 1024 + (low - 0xDC00)

-- A surrogate that has no partner becomes U+FFFD.
unfoldable pub from_utf16_lossy : List ℕ → Str
from_utf16_lossy [] = []
from_utf16_lossy (u ∷ []) =
    if is_high u then replacement else if is_low u then replacement else encode_utf8 u
from_utf16_lossy (u ∷ v ∷ us) =
    let rest = from_utf16_lossy (v ∷ us) in
    let after = from_utf16_lossy us in
    if is_high u && is_low v
    then encode_utf8 (pair_of u v) ++ after
    else if is_high u
    then replacement ++ rest
    else if is_low u
    then replacement ++ rest
    else encode_utf8 u ++ rest
