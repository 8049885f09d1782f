-- ===== src/Frame/LittleEndian.antt =====
-- `to_le_bytes` of an unsigned integer of `w` bytes, and `from_le_bytes`.
use zapd.Prelude.{
  ℕ, zero, suc, ◌+◌, ◌*◌, ◌/◌, ◌%◌, ◌^◌, ◌<◌, ◌≡◌, refl, [], ◌∷◌, arith, length, All,
}
use native.Mathlib.Nat.{pow-suc}
use zapd.Text.{Bytes, IsByte}

unfoldable pub to_le_bytes : ℕ → ℕ → Bytes
to_le_bytes zero n = []
to_le_bytes (suc w) n = n % 256 ∷ to_le_bytes w (n / 256)

unfoldable pub from_le_bytes : Bytes → ℕ
from_le_bytes [] = 0
from_le_bytes (b ∷ bs) = b + 256 * from_le_bytes bs

pub length-to_le_bytes : (w n : ℕ) → length (to_le_bytes w n) ≡ w
unfolding to_le_bytes
length-to_le_bytes zero n = refl
length-to_le_bytes (suc w) n = omega (arith, length-to_le_bytes w (n / 256))

pub from_to_le_bytes_16 : (n : ℕ) → n < 2 ^ 16 → from_le_bytes (to_le_bytes 2 n) ≡ n
unfolding to_le_bytes from_le_bytes
from_to_le_bytes_16 n h = omega arith

pub from_to_le_bytes_32 : (n : ℕ) → n < 2 ^ 32 → from_le_bytes (to_le_bytes 4 n) ≡ n
unfolding to_le_bytes from_le_bytes
from_to_le_bytes_32 n h = omega arith

pub to_from_le_bytes :
    (bs : Bytes) → All IsByte bs → to_le_bytes (length bs) (from_le_bytes bs) ≡ bs
unfolding to_le_bytes from_le_bytes
to_from_le_bytes [] h = refl
to_from_le_bytes (b ∷ bs) (p, h) =
    let r = from_le_bytes bs in
    let e : (b + 256 * r) % 256 ≡ b = omega arith in
    let f : (b + 256 * r) / 256 ≡ r = omega arith in rw (e, f, to_from_le_bytes bs h)

pub from_le_bytes-lt : (bs : Bytes) → All IsByte bs → from_le_bytes bs < 256 ^ length bs
unfolding from_le_bytes
from_le_bytes-lt [] h = omega arith
from_le_bytes-lt (b ∷ bs) (p, h) = omega (arith, from_le_bytes-lt bs h, pow-suc 256 (length bs))

pub All-to_le_bytes : (w n : ℕ) → All IsByte (to_le_bytes w n)
unfolding to_le_bytes
All-to_le_bytes zero n = tt
All-to_le_bytes (suc w) n = (omega arith, All-to_le_bytes w (n / 256))
