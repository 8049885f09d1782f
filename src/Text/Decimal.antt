-- ===== src/Text/Decimal.antt =====
-- Decimal numbers: `{}` of an unsigned integer, and `str::parse` of one.
use zapd.Prelude.{
  ℕ, zero, suc, ◌+◌, ◌-◌, ◌*◌, ◌/◌, ◌%◌, ◌≤◌, ◌<◌, ◌≡◌, ◌≢◌, refl, ◌∙◌, Bool, false, ◌&&◌, Option,
  none, some, List, [], ◌∷◌, ◌++◌, append_assoc, arith, ltb, leb, ◌==◌, if◌then◌else◌, All,
  Bool-cases, inl, inr,
}

-- The digits of `n`, the least significant last, in front of `rest`.
digits : ℕ → ℕ → List ℕ → List ℕ
digits zero n rest = rest
digits (suc fuel) n rest =
    let more = digits fuel (n / 10) ((b'0' + n % 10) ∷ rest) in
    if ltb n 10 then (b'0' + n) ∷ rest else more

-- Each round takes a digit off, so the number itself is fuel enough.
unfoldable pub to_decimal : ℕ → List ℕ
unfolding digits
to_decimal n = digits (suc n) n []

abbrev pub is_digit : ℕ → Bool
is_digit c = leb b'0' c && leb c b'9'

-- `acc` is what was read, `max` the largest number of the type.
parse_digits : ℕ → ℕ → List ℕ → Option ℕ
parse_digits max acc [] = some acc
parse_digits max acc (c ∷ cs) =
    let n = acc * 10 + (c - b'0') in
    let more = parse_digits max n cs in if is_digit c && leb n max then more else none

some_digits : ℕ → List ℕ → Option ℕ
some_digits max [] = none
some_digits max (c ∷ cs) = parse_digits max 0 (c ∷ cs)

-- A sign `+` is taken; no digits and a number above the largest are not.
unfoldable pub parse_uint : ℕ → List ℕ → Option ℕ
unfolding some_digits parse_digits
parse_uint max [] = none
parse_uint max (c ∷ cs) = if c == b'+' then some_digits max cs else some_digits max (c ∷ cs)

abbrev pub parse_u16 : List ℕ → Option ℕ
parse_u16 = parse_uint 65535

abbrev pub parse_u32 : List ℕ → Option ℕ
parse_u32 = parse_uint 4294967295

digits-append :
    (fuel n : ℕ) (rest : List ℕ) → n < fuel → digits fuel n rest ≡ digits fuel n [] ++ rest
unfolding digits
digits-append zero n rest h = elim h [ ]
digits-append (suc fuel) n rest h = elim (Bool-cases (ltb n 10)) [
  | inl e ↦ rw e
  | inr e ↦ rw e (
      digits-append fuel (n / 10) ((b'0' + n % 10) ∷ rest) (ground arith)
      ∙ rw (digits-append fuel (n / 10) ((b'0' + n % 10) ∷ []) (ground arith), append_assoc))
]

parse_digits-append :
    (max : ℕ) (a b : List ℕ) (acc m : ℕ)
    → parse_digits max acc a ≡ some m
    → parse_digits max acc (a ++ b) ≡ parse_digits max m b
unfolding parse_digits
parse_digits-append max [] b acc m h = ground arith
parse_digits-append max (c ∷ cs) b acc m h =
    ground (arith, parse_digits-append max cs b (acc * 10 + (c - b'0')) m)

parse_digits-digits :
    (max fuel n : ℕ) → n < fuel → n ≤ max → parse_digits max 0 (digits fuel n []) ≡ some n
unfolding digits parse_digits
parse_digits-digits max zero n h k = elim h [ ]
parse_digits-digits max (suc fuel) n h k = elim (Bool-cases (ltb n 10)) [
  | inl e ↦ rw e (ground arith)
  | inr e ↦
      let last : List ℕ = (b'0' + n % 10) ∷ [] in
      rw (e, digits-append fuel (n / 10) last (ground arith))
        (parse_digits-append max (digits fuel (n / 10) []) last 0 (n / 10)
            (parse_digits-digits max fuel (n / 10) (ground arith) (omega arith))
          ∙ ground arith)
]

digits-are :
    (fuel n : ℕ) (rest : List ℕ)
    → n < fuel
    → All (λ c. (b'0' ≤ c) × (c ≤ b'9')) rest
    → All (λ c. (b'0' ≤ c) × (c ≤ b'9')) (digits fuel n rest)
unfolding digits
digits-are zero n rest h a = elim h [ ]
digits-are (suc fuel) n rest h a = elim (Bool-cases (ltb n 10)) [
  | inl e ↦ rw e ((ground arith, ground arith), a)
  | inr e ↦ rw e (digits-are fuel (n / 10) _ (ground arith) ((omega arith, omega arith), a))
]

-- The printed number is digits alone.
pub to_decimal_digits : (n : ℕ) → All (λ c. (b'0' ≤ c) × (c ≤ b'9')) (to_decimal n)
unfolding to_decimal
to_decimal_digits n = digits-are (suc n) n [] (omega arith) tt

digits-ne-nil : (fuel n : ℕ) (rest : List ℕ) → n < fuel → digits fuel n rest ≢ []
unfolding digits
digits-ne-nil zero n rest h = elim h [ ]
digits-ne-nil (suc fuel) n rest h = elim (Bool-cases (ltb n 10)) [
  | inl e ↦ rw e (λ q. cc)
  | inr e ↦ rw e (digits-ne-nil fuel (n / 10) _ (ground arith))
]

pub to_decimal-ne-nil : (n : ℕ) → to_decimal n ≢ []
unfolding to_decimal
to_decimal-ne-nil n = digits-ne-nil (suc n) n [] (omega arith)

parse_uint-digits :
    (max : ℕ) (s : List ℕ)
    → s ≢ []
    → All (λ c. (b'0' ≤ c) × (c ≤ b'9')) s
    → parse_uint max s ≡ parse_digits max 0 s
unfolding parse_uint some_digits
parse_uint-digits max [] h a = absurd (h refl)
parse_uint-digits max (c ∷ cs) h (p, a) = let other : (c == b'+') ≡ false = ground arith in rw other

-- A number in the range is read back as it was printed.
pub parse_uint-to_decimal : (max n : ℕ) → n ≤ max → parse_uint max (to_decimal n) ≡ some n
parse_uint-to_decimal max n h =
    parse_uint-digits max (to_decimal n) (to_decimal-ne-nil n) (to_decimal_digits n)
    ∙ unfold to_decimal in parse_digits-digits max (suc n) n (omega arith) h

parse_digits-le :
    (max : ℕ) (s : List ℕ) (acc n : ℕ) → acc ≤ max → parse_digits max acc s ≡ some n → n ≤ max
unfolding parse_digits
parse_digits-le max [] acc n h e = ground arith
parse_digits-le max (c ∷ cs) acc n h e =
    ground (arith, parse_digits-le max cs (acc * 10 + (c - b'0')) n)

-- Whatever is read is in the range.
pub parse_uint-le : (max : ℕ) (s : List ℕ) (n : ℕ) → parse_uint max s ≡ some n → n ≤ max
unfolding parse_uint some_digits
parse_uint-le max [] n e = absurd (ground arith)
parse_uint-le max (c ∷ []) n e = ground (arith, parse_digits-le max (c ∷ []) 0 n)
parse_uint-le max (c ∷ d ∷ cs) n e =
    ground (arith, parse_digits-le max (d ∷ cs) 0 n, parse_digits-le max (c ∷ d ∷ cs) 0 n)
