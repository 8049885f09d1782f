-- ===== src/Pair/Hex.antt =====
-- `hex` and `unhex` of src/pair.rs.
use zapd.Prelude.{
  ℕ, ◌+◌, ◌-◌, ◌*◌, ◌/◌, ◌%◌, ◌<◌, ◌≡◌, refl, Bool, true, ◌&&◌, ◌||◌, Option, none, some, [], ◌∷◌,
  arith, ltb, leb, ◌==◌, if◌then◌else◌, length, All, Bool-cases, and_true, ==_iff, inl, inr,
}
use zapd.Text.{Bytes, Str, IsByte}

-- One lowercase digit.
unfoldable pub hex_digit : ℕ → ℕ
hex_digit d = if ltb d 10 then b'0' + d else b'a' + (d - 10)

-- `{x:02x}` of each byte.
unfoldable pub hex : Bytes → Str
unfolding hex_digit
hex [] = []
hex (x ∷ xs) = hex_digit (x / 16) ∷ hex_digit (x % 16) ∷ hex xs

lower_hex : ℕ → Bool
lower_hex c = leb b'0' c && leb c b'9' || leb b'a' c && leb c b'f'

all_lower_hex : Str → Bool
all_lower_hex [] = true
all_lower_hex (c ∷ cs) = lower_hex c && all_lower_hex cs

-- `from_str_radix` of one digit that was checked.
digit_value : ℕ → ℕ
digit_value c = if leb c b'9' then c - b'0' else c - b'a' + 10

-- The bytes of the pairs `s[2 * i..2 * i + 2]`.
pairs : Str → Bytes
pairs [] = []
pairs (a ∷ []) = []
pairs (a ∷ b ∷ cs) = (digit_value a * 16 + digit_value b) ∷ pairs cs

unfoldable pub unhex : Str → Option Bytes
unfolding all_lower_hex lower_hex pairs digit_value
unhex s = if length s == 64 && all_lower_hex s then some (pairs s) else none

pub length-hex : (b : Bytes) → length (hex b) ≡ length b + length b
unfolding hex
length-hex [] = omega arith
length-hex (x ∷ xs) = omega (arith, length-hex xs)

hex_digit_ok : (d : ℕ) → d < 16 → (lower_hex (hex_digit d) ≡ true) × (digit_value (hex_digit d) ≡ d)
unfolding lower_hex hex_digit digit_value
hex_digit_ok d h = ground arith

all_lower_hex-hex : (b : Bytes) → All IsByte b → all_lower_hex (hex b) ≡ true
unfolding all_lower_hex hex
all_lower_hex-hex [] h = refl
all_lower_hex-hex (x ∷ xs) (p, h) =
    let (a, _) = hex_digit_ok (x / 16) (omega arith) in
    let (b, _) = hex_digit_ok (x % 16) (omega arith) in rw (a, b) (all_lower_hex-hex xs h)

pairs-hex : (b : Bytes) → All IsByte b → pairs (hex b) ≡ b
unfolding pairs hex
pairs-hex [] h = refl
pairs-hex (x ∷ xs) (p, h) =
    let (_, a) = hex_digit_ok (x / 16) (omega arith) in
    let (_, b) = hex_digit_ok (x % 16) (omega arith) in
    let e : x / 16 * 16 + x % 16 ≡ x = omega arith in rw (a, b, e, pairs-hex xs h)

-- A key of 32 bytes is read back as it was written.
pub unhex-hex : (b : Bytes) → All IsByte b → length b ≡ 32 → unhex (hex b) ≡ some b
unfolding unhex
unhex-hex b h n =
    let e : length (hex b) ≡ 64 = omega (arith, length-hex b) in
    rw (e, all_lower_hex-hex b h, pairs-hex b h)

digit_value_lt : (c : ℕ) → lower_hex c ≡ true → digit_value c < 16
unfolding lower_hex digit_value
digit_value_lt c h = ground arith

pairs_ok :
    (s : Str) (n : ℕ)
    → length s ≡ n + n
    → all_lower_hex s ≡ true
    → (length (pairs s) ≡ n) × All IsByte (pairs s)
unfolding pairs all_lower_hex
pairs_ok [] n e h = (omega arith, tt)
pairs_ok (a ∷ []) n e h = absurd (omega arith)
pairs_ok (a ∷ b ∷ cs) n e h =
    let (l, bytes) = pairs_ok cs (n - 1) (omega arith) (ground arith) in
    let va : digit_value a < 16 = digit_value_lt a (ground arith) in
    let vb : digit_value b < 16 = digit_value_lt b (ground arith) in
    (omega arith, (omega arith, bytes))

-- Whatever is read is a key of 32 bytes.
pub unhex_key : (s : Str) (b : Bytes) → unhex s ≡ some b → (length b ≡ 32) × All IsByte b
unfolding unhex
unhex_key s b e = elim (Bool-cases (length s == 64 && all_lower_hex s)) [
  | inl t ↦
      let e' : some (pairs s) ≡ some b = rw t at e in
      let same : pairs s ≡ b = cc in
      let (l, digits) = and_true (length s == 64) (all_lower_hex s) t in
      rw (← same) (pairs_ok s 32 ((==_iff (length s) 64).0 l) digits)
  | inr f ↦ let e' : none ≡ some b = rw f at e in absurd (cc)
]

hex_digit_visible : (d : ℕ) → d < 16 → (0x20 < hex_digit d) × (hex_digit d < 0x80)
unfolding hex_digit
hex_digit_visible d h = ground arith

pub hex_visible : (b : Bytes) → All IsByte b → All (λ c. (0x20 < c) × (c < 0x80)) (hex b)
unfolding hex
hex_visible [] h = tt
hex_visible (x ∷ xs) (p, h) = (
  hex_digit_visible (x / 16) (omega arith),
  (hex_digit_visible (x % 16) (omega arith), hex_visible xs h),
)
