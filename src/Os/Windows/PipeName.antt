-- ===== src/Os/Windows/PipeName.antt =====
-- The name of the pipe: which directories share it.
use Prim.Native.Nat.{bit_xor}
use native.Mathlib.Nat.{pow-suc}
use zapd.Prelude.{
  ℕ, zero, suc, ◌*◌, ◌/◌, ◌%◌, ◌^◌, ◌<◌, ◌≡◌, ◌≢◌, refl, sym, ap, ◌∙◌, List, [], ◌∷◌, ◌++◌, foldl,
  arith,
}
use zapd.Text.{Str, lit}
use zapd.Io.{Result}
use zapd.Frame.LittleEndian.{to_le_bytes}
use zapd.Pair.Hex.{hex_digit}
use zapd.Os.Windows.{fnv_byte, fnv_unit, fnv, hex_padded, address, known}
use zapd.Os.Windows.Xor.{bit_xor_cancel_left, bit_xor_cancel_right, bit_xor-lt, bit_xor_above}

abbrev prime : ℕ
prime = 0x100000001b3

-- The multiplication has an inverse.
mul_cancel : (x y : ℕ) → x < 2 ^ 64 → y < 2 ^ 64 → x * prime % 2 ^ 64 ≡ y * prime % 2 ^ 64 → x ≡ y
mul_cancel x y p q e = omega (arith, p, q, e)

-- Two hashes that agree above the lowest byte differ above it after the multiplication, or are one.
mul_apart :
    (x y : ℕ)
    → x < 2 ^ 64
    → y < 2 ^ 64
    → x / 256 ≡ y / 256
    → x * prime % 2 ^ 64 / 256 ≡ y * prime % 2 ^ 64 / 256
    → x ≡ y
mul_apart x y p q h e = omega (arith, p, q, h, e)

fnv_byte-lt : (h b : ℕ) → fnv_byte h b < 2 ^ 64
unfolding fnv_byte
fnv_byte-lt h b = omega arith

xor_fits : (h b : ℕ) → h < 2 ^ 64 → b < 256 → bit_xor h b < 2 ^ 64
xor_fits h b p q = bit_xor-lt 64 h b p (omega arith)

fnv_byte_cancel :
    (h k b c : ℕ)
    → h < 2 ^ 64
    → k < 2 ^ 64
    → b < 256
    → c < 256
    → fnv_byte h b ≡ fnv_byte k c
    → bit_xor h b ≡ bit_xor k c
unfolding fnv_byte
fnv_byte_cancel h k b c p q r s e =
    mul_cancel (bit_xor h b) (bit_xor k c) (xor_fits h b p r) (xor_fits k c q s) e

abbrev low : ℕ → ℕ
low u = u % 256

abbrev high : ℕ → ℕ
high u = u / 256 % 256

fnv_unit-eq : (h u : ℕ) → fnv_unit h u ≡ fnv_byte (fnv_byte h (low u)) (high u)
unfolding fnv_unit to_le_bytes
fnv_unit-eq h u = refl

fnv_unit-lt : (h u : ℕ) → fnv_unit h u < 2 ^ 64
fnv_unit-lt h u = omega (arith, fnv_unit-eq h u, fnv_byte-lt (fnv_byte h (low u)) (high u))

fnv_unit_cancel : (h k u : ℕ) → h < 2 ^ 64 → k < 2 ^ 64 → fnv_unit h u ≡ fnv_unit k u → h ≡ k
fnv_unit_cancel h k u p q e =
    let h1 = fnv_byte h (low u) in
    let k1 = fnv_byte k (low u) in
    let e' : fnv_byte h1 (high u) ≡ fnv_byte k1 (high u) =
      sym (fnv_unit-eq h u) ∙ e ∙ fnv_unit-eq k u in
    let same : h1 ≡ k1 = bit_xor_cancel_right h1 k1 (high u) (
      fnv_byte_cancel h1 k1 (high u) (high u) (fnv_byte-lt h (low u)) (fnv_byte-lt k (low u))
        (omega arith) (omega arith) e') in
    bit_xor_cancel_right h k (low u)
      (fnv_byte_cancel h k (low u) (low u) p q (omega arith) (omega arith) same)

-- The first of the two bytes: what differs there cannot be made good by the second.
low_same : (h u v : ℕ) → h < 2 ^ 64 → fnv_unit h u ≡ fnv_unit h v → low u ≡ low v
unfolding fnv_byte
low_same h u v p e =
    let h1 = fnv_byte h (low u) in
    let k1 = fnv_byte h (low v) in
    let e' : fnv_byte h1 (high u) ≡ fnv_byte k1 (high v) =
      sym (fnv_unit-eq h u) ∙ e ∙ fnv_unit-eq h v in
    let x =
      fnv_byte_cancel h1 k1 (high u) (high v) (fnv_byte-lt h (low u)) (fnv_byte-lt h (low v))
        (omega arith) (omega arith) e' in
    let above : h1 / 256 ≡ k1 / 256 = omega (
      arith,
      x,
      bit_xor_above h1 (high u) (omega arith),
      bit_xor_above k1 (high v) (omega arith),
    ) in
    bit_xor_cancel_left h (low u) (low v) (
      mul_apart (bit_xor h (low u)) (bit_xor h (low v)) (xor_fits h (low u) p (omega arith))
        (xor_fits h (low v) p (omega arith))
        (bit_xor_above h (low u) (omega arith) ∙ sym (bit_xor_above h (low v) (omega arith))) above)

fnv_unit_apart :
    (h u v : ℕ) → h < 2 ^ 64 → u < 2 ^ 16 → v < 2 ^ 16 → fnv_unit h u ≡ fnv_unit h v → u ≡ v
fnv_unit_apart h u v p q r e =
    let l = low_same h u v p e in
    let h1 = fnv_byte h (low u) in
    let e' : fnv_byte h1 (high u) ≡ fnv_byte h1 (high v) =
      sym (fnv_unit-eq h u)
      ∙ e
      ∙ fnv_unit-eq h v
      ∙ ap (λ l. fnv_byte (fnv_byte h l) (high v)) (sym l) in
    let hi : high u ≡ high v = bit_xor_cancel_left h1 (high u) (high v) (
      fnv_byte_cancel h1 h1 (high u) (high v) (fnv_byte-lt h (low u)) (fnv_byte-lt h (low u))
        (omega arith) (omega arith) e') in
    omega (arith, l, hi)

units-lt : (units : List ℕ) (h : ℕ) → h < 2 ^ 64 → foldl fnv_unit h units < 2 ^ 64
units-lt [] h p = p
units-lt (u ∷ units) h p = units-lt units (fnv_unit h u) (fnv_unit-lt h u)

units_cancel :
    (units : List ℕ) (h k : ℕ)
    → h < 2 ^ 64
    → k < 2 ^ 64
    → foldl fnv_unit h units ≡ foldl fnv_unit k units
    → h ≡ k
units_cancel [] h k p q e = e
units_cancel (u ∷ units) h k p q e =
    fnv_unit_cancel h k u p q
      (units_cancel units (fnv_unit h u) (fnv_unit k u) (fnv_unit-lt h u) (fnv_unit-lt k u) e)

units_apart :
    (before after : List ℕ) (h u v : ℕ)
    → h < 2 ^ 64
    → u < 2 ^ 16
    → v < 2 ^ 16
    → foldl fnv_unit h (before ++ (u ∷ after)) ≡ foldl fnv_unit h (before ++ (v ∷ after))
    → u ≡ v
units_apart [] after h u v p q r e =
    fnv_unit_apart h u v p q r
      (units_cancel after (fnv_unit h u) (fnv_unit h v) (fnv_unit-lt h u) (fnv_unit-lt h v) e)
units_apart (w ∷ before) after h u v p q r e =
    units_apart before after (fnv_unit h w) u v (fnv_unit-lt h w) q r e

snoc_cancel : (s t : Str) (a b : ℕ) → s ++ (a ∷ []) ≡ t ++ (b ∷ []) → (s ≡ t) × (a ≡ b)
snoc_cancel [] [] a b e = (refl, cc)
snoc_cancel [] (d ∷ []) a b e = absurd (cc)
snoc_cancel [] (d ∷ d' ∷ t) a b e = absurd (cc)
snoc_cancel (c ∷ []) [] a b e = absurd (cc)
snoc_cancel (c ∷ c' ∷ s) [] a b e = absurd (cc)
snoc_cancel (c ∷ s) (d ∷ t) a b e =
    let head : c ≡ d = cc in
    let tail : s ++ (a ∷ []) ≡ t ++ (b ∷ []) = cc in
    let (q, r) = snoc_cancel s t a b tail in (cc, r)

hex_digit_cancel : (a b : ℕ) → a < 16 → b < 16 → hex_digit a ≡ hex_digit b → a ≡ b
unfolding hex_digit
hex_digit_cancel a b p q e = ground arith

hex_padded_cancel : (w n m : ℕ) → n < 16 ^ w → m < 16 ^ w → hex_padded w n ≡ hex_padded w m → n ≡ m
unfolding hex_padded
hex_padded_cancel zero n m p q e = omega arith
hex_padded_cancel (suc w) n m p q e =
    let (s, d) = snoc_cancel (hex_padded w (n / 16)) (hex_padded w (m / 16)) _ _ e in
    let hi : n / 16 ≡ m / 16 =
      hex_padded_cancel w (n / 16) (m / 16) (omega (arith, pow-suc 16 w))
        (omega (arith, pow-suc 16 w)) s in
    let lo = hex_digit_cancel (n % 16) (m % 16) (omega arith) (omega arith) d in
    omega (arith, hi, lo)

append_cancel : (p s t : Str) → p ++ s ≡ p ++ t → s ≡ t
append_cancel [] s t e = e
append_cancel (c ∷ p) s t e = append_cancel p s t (cc)

fnv-lt : (units : List ℕ) → fnv units < 2 ^ 64
unfolding fnv
fnv-lt units = units-lt units 0xcbf29ce484222325 (omega arith)

-- Two runtime directories of one user whose names differ in exactly one UTF-16 unit have two pipes.
pub address_apart :
    (user : Result Str) (before after : List ℕ) (u v : ℕ)
    → u < 2 ^ 16
    → v < 2 ^ 16
    → u ≢ v
    → address user (before ++ (u ∷ after)) ≢ address user (before ++ (v ∷ after))
unfolding address fnv
address_apart user before after u v p q ne e =
    let n = fnv (before ++ (u ∷ after)) in
    let m = fnv (before ++ (v ∷ after)) in
    let shown : hex_padded 16 n ≡ hex_padded 16 m =
      append_cancel (lit "-") _ _
        (append_cancel (known user) _ _ (append_cancel (lit "\\\\.\\pipe\\zapd-") _ _ e)) in
    let same : n ≡ m =
      hex_padded_cancel 16 n m (fnv-lt (before ++ (u ∷ after))) (fnv-lt (before ++ (v ∷ after)))
        shown in
    ne (units_apart before after 0xcbf29ce484222325 u v (omega arith) p q same)
