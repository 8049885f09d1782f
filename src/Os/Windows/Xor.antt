-- ===== src/Os/Windows/Xor.antt =====
-- The exclusive or of two numbers, by its lowest digit: it cancels on both sides and keeps a range.
use Prim.Native.Nat.{bit_xor, digits, differ, bit_xor-bitwise}
use native.Mathlib.Nat.{pow-suc}
use zapd.Prelude.{ℕ, zero, suc, ◌+◌, ◌*◌, ◌/◌, ◌%◌, ◌^◌, ◌≤◌, ◌<◌, ◌≡◌, refl, ap, ◌∙◌, arith}

abbrev xor_digits : ℕ → ℕ → ℕ → ℕ
xor_digits n a b = digits (λ b. b) differ n a b

-- More fuel than the number changes nothing.
xor_digits_fuel : (n m a b : ℕ) → a ≤ n → a ≤ m → xor_digits n a b ≡ xor_digits m a b
xor_digits_fuel zero zero a b p q = refl
xor_digits_fuel zero (suc m) zero b p q = refl
xor_digits_fuel zero (suc m) (suc a) b p q = absurd (omega arith)
xor_digits_fuel (suc n) zero zero b p q = refl
xor_digits_fuel (suc n) zero (suc a) b p q = absurd (omega arith)
xor_digits_fuel (suc n) (suc m) zero b p q = refl
xor_digits_fuel (suc n) (suc m) (suc a) b p q =
    omega (arith, xor_digits_fuel n m (suc a / 2) (b / 2) (omega arith) (omega arith))

differ-eq : (x y : ℕ) → x < 2 → y < 2 → differ x y ≡ (x + y) % 2
differ-eq zero y p q = omega arith
differ-eq (suc zero) zero p q = refl
differ-eq (suc zero) (suc zero) p q = refl
differ-eq (suc zero) (suc (suc y)) p q = absurd (omega arith)
differ-eq (suc (suc x)) y p q = absurd (omega arith)

pub zero-bit_xor : (b : ℕ) → bit_xor 0 b ≡ b
zero-bit_xor b = bit_xor-bitwise 0 b

pub bit_xor_step : (a b : ℕ) → bit_xor a b ≡ bit_xor (a / 2) (b / 2) * 2 + (a % 2 + b % 2) % 2
bit_xor_step zero b = omega (arith, zero-bit_xor b, zero-bit_xor (b / 2))
bit_xor_step (suc a) b = omega (
  arith,
  bit_xor-bitwise (suc a) b,
  bit_xor-bitwise (suc a / 2) (b / 2),
  xor_digits_fuel a (suc a / 2) (suc a / 2) (b / 2) (omega arith) (omega arith),
  differ-eq (suc a % 2) (b % 2) (omega arith) (omega arith),
)

cancel_left_fuel : (n a b c : ℕ) → a ≤ n → bit_xor a b ≡ bit_xor a c → b ≡ c
cancel_left_fuel n zero b c h e = omega (arith, zero-bit_xor b, zero-bit_xor c)
cancel_left_fuel zero (suc a) b c h e = absurd (omega arith)
cancel_left_fuel (suc n) (suc a) b c h e =
    let s = bit_xor_step (suc a) b in
    let t = bit_xor_step (suc a) c in
    let half : b / 2 ≡ c / 2 =
      cancel_left_fuel n (suc a / 2) (b / 2) (c / 2) (omega arith) (omega (arith, e, s, t)) in
    omega (arith, e, s, t, half)

pub bit_xor_cancel_left : (a b c : ℕ) → bit_xor a b ≡ bit_xor a c → b ≡ c
bit_xor_cancel_left a b c e = cancel_left_fuel a a b c (omega arith) e

-- The higher part of a number stays, and the lower part of it cancels.
cancel_right_fuel : (n a c b : ℕ) → a ≤ n → c ≤ n → bit_xor a b ≡ bit_xor c b → a ≡ c
cancel_right_fuel zero a c b h k e = omega arith
cancel_right_fuel (suc n) a c b h k e =
    let s = bit_xor_step a b in
    let t = bit_xor_step c b in
    let half : a / 2 ≡ c / 2 =
      cancel_right_fuel n (a / 2) (c / 2) (b / 2) (omega arith) (omega arith)
        (omega (arith, e, s, t)) in
    omega (arith, e, s, t, half)

pub bit_xor_cancel_right : (a c b : ℕ) → bit_xor a b ≡ bit_xor c b → a ≡ c
bit_xor_cancel_right a c b e = cancel_right_fuel (a + c) a c b (omega arith) (omega arith) e

pub bit_xor-lt : (w a b : ℕ) → a < 2 ^ w → b < 2 ^ w → bit_xor a b < 2 ^ w
bit_xor-lt zero a b h k =
    let e : a ≡ 0 = omega arith in let f : b ≡ 0 = omega arith in rw (e, f) (omega arith)
bit_xor-lt (suc w) a b h k = omega (
  arith,
  bit_xor_step a b,
  pow-suc 2 w,
  bit_xor-lt w (a / 2) (b / 2) (omega (arith, pow-suc 2 w)) (omega (arith, pow-suc 2 w)),
)

zero_fuel : (n a : ℕ) → a ≤ n → bit_xor a 0 ≡ a
zero_fuel n zero h = zero-bit_xor 0
zero_fuel zero (suc a) h = absurd (omega arith)
zero_fuel (suc n) (suc a) h =
    omega (arith, bit_xor_step (suc a) 0, zero_fuel n (suc a / 2) (omega arith))

bit_xor-zero : (a : ℕ) → bit_xor a 0 ≡ a
bit_xor-zero a = zero_fuel a a (omega arith)

half : (a b : ℕ) → bit_xor a b / 2 ≡ bit_xor (a / 2) (b / 2)
half a b = omega (arith, bit_xor_step a b)

abbrev halves : ℕ → ℕ → ℕ
halves zero a = a
halves (suc w) a = halves w (a / 2)

halves-bit_xor : (w a b : ℕ) → halves w (bit_xor a b) ≡ bit_xor (halves w a) (halves w b)
halves-bit_xor zero a b = refl
halves-bit_xor (suc w) a b = ap (halves w) (half a b) ∙ halves-bit_xor w (a / 2) (b / 2)

-- With a byte, what is above the lowest byte stays.
pub bit_xor_above : (a b : ℕ) → b < 256 → bit_xor a b / 256 ≡ a / 256
bit_xor_above a b h =
    let none_left : halves 8 b ≡ 0 = omega arith in
    let e : halves 8 (bit_xor a b) ≡ halves 8 a =
      halves-bit_xor 8 a b ∙ ap (bit_xor (halves 8 a)) none_left ∙ bit_xor-zero (halves 8 a) in
    omega (arith, e)
