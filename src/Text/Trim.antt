-- ===== src/Text/Trim.antt =====
-- `str::trim`: the characters of Unicode's White_Space are taken off both ends.
use mathlib.Core.List.{reverse, reverse-append, reverse-reverse}
use zapd.Prelude.{
  ℕ, zero, suc, ◌+◌, ◌<◌, ◌≡◌, refl, ap, ◌∙◌, Bool, ◌&&◌, ◌||◌, List, [], ◌∷◌, ◌++◌, arith, leb,
  ◌==◌, if◌then◌else◌, length, length-append, append-nil, drop, All, subst, sym, ◌≤◌,
}
use zapd.Text.Decimal.{to_decimal, to_decimal_digits, to_decimal-ne-nil}

-- A space of one, of two and of three bytes.
is_space₁ : ℕ → Bool
is_space₁ a = leb 0x09 a && leb a 0x0D || a == 0x20

is_space₂ : ℕ → ℕ → Bool
is_space₂ a b = a == 0xC2 && (b == 0x85 || b == 0xA0)

is_space₃ : ℕ → ℕ → ℕ → Bool
is_space₃ a b c =
    a == 0xE1 && b == 0x9A && c == 0x80
    || a == 0xE2 && b == 0x80 && (leb 0x80 c && leb c 0x8A || c == 0xA8 || c == 0xA9 || c == 0xAF)
    || a == 0xE2 && b == 0x81 && c == 0x9F
    || a == 0xE3 && b == 0x80 && c == 0x80

-- How many bytes of a space begin the text.
leading : List ℕ → ℕ
leading [] = 0
leading (a ∷ []) = if is_space₁ a then 1 else 0
leading (a ∷ b ∷ []) = if is_space₁ a then 1 else if is_space₂ a b then 2 else 0
leading (a ∷ b ∷ c ∷ cs) =
    if is_space₁ a then 1 else if is_space₂ a b then 2 else if is_space₃ a b c then 3 else 0

-- How many end it, of the text from its end.
trailing : List ℕ → ℕ
trailing [] = 0
trailing (a ∷ []) = if is_space₁ a then 1 else 0
trailing (b ∷ a ∷ []) = if is_space₁ b then 1 else if is_space₂ a b then 2 else 0
trailing (c ∷ b ∷ a ∷ r) =
    if is_space₁ c then 1 else if is_space₂ b c then 2 else if is_space₃ a b c then 3 else 0

strip : (List ℕ → ℕ) → ℕ → List ℕ → List ℕ
strip spaces zero s = s
strip spaces (suc fuel) s = elim (spaces s) [
  | zero ↦ s
  | suc n ↦ strip spaces fuel (drop (suc n) s)
]

-- Each round takes a byte at least.
trim_start : List ℕ → List ℕ
unfolding strip leading is_space₁ is_space₂ is_space₃
trim_start s = strip leading (length s) s

trim_end : List ℕ → List ℕ
unfolding strip trailing is_space₁ is_space₂ is_space₃
trim_end s = reverse (strip trailing (length s) (reverse s))

unfoldable pub trim : List ℕ → List ℕ
unfolding trim_start trim_end
trim s = trim_end (trim_start s)

strip-eq : (spaces : List ℕ → ℕ) (fuel : ℕ) (s : List ℕ) → spaces s ≡ 0 → strip spaces fuel s ≡ s
unfolding strip
strip-eq spaces zero s h = refl
strip-eq spaces (suc fuel) s h = rw (h, strip)

-- A visible ASCII character.
abbrev pub IsVisible : ℕ → Type 0
IsVisible c = (0x20 < c) × (c < 0x80)

leading_visible : (a : ℕ) (s : List ℕ) → IsVisible a → leading (a ∷ s) ≡ 0
unfolding leading is_space₁ is_space₂ is_space₃
leading_visible a [] h = ground arith
leading_visible a (b ∷ []) h = ground arith
leading_visible a (b ∷ c ∷ s) h = ground arith

trailing_visible : (a : ℕ) (s : List ℕ) → IsVisible a → trailing (a ∷ s) ≡ 0
unfolding trailing is_space₁ is_space₂ is_space₃
trailing_visible a [] h = ground arith
trailing_visible a (b ∷ []) h = ground arith
trailing_visible a (b ∷ c ∷ s) h = ground arith

length_one : (n : ℕ) → n + 1 ≡ suc n
length_one n = omega arith

trailing_newline : (s : List ℕ) → trailing (10 ∷ s) ≡ 1
unfolding trailing is_space₁
trailing_newline [] = refl
trailing_newline (b ∷ []) = refl
trailing_newline (b ∷ c ∷ s) = refl

strip_newline : (fuel : ℕ) (s : List ℕ) → trailing s ≡ 0 → strip trailing (suc fuel) (10 ∷ s) ≡ s
unfolding strip
strip_newline fuel s h = rw (trailing_newline s, strip) (strip-eq trailing fuel s h)

-- Text between visible characters is not trimmed, and a newline behind it is.
module _ (a z : ℕ) (s m r : List ℕ) (head : s ≡ a ∷ m) (last : reverse s ≡ z ∷ r) (ha : IsVisible a)
    (hz : IsVisible z) where
  start-eq : (t : List ℕ) → trim_start (s ++ t) ≡ s ++ t
  unfolding trim_start
  start-eq t = strip-eq leading (length (s ++ t)) (s ++ t) (rw head (leading_visible a (m ++ t) ha))

  stops : trailing (reverse s) ≡ 0
  stops = rw last (trailing_visible z r hz)

  trim-eq : trim s ≡ s
  unfolding trim
  trim-eq =
      let e : trim_start s ≡ s = rw append-nil at (start-eq []) in
      rw e (rw (strip-eq trailing (length s) (reverse s) stops) (reverse-reverse s))

  trim_newline : trim (s ++ (10 ∷ [])) ≡ s
  unfolding trim
  trim_newline =
      let e : trim_end (s ++ (10 ∷ [])) ≡ s =
        rw (reverse-append s (10 ∷ []), length-append s (10 ∷ []), length_one (length s))
          (ap reverse (strip_newline (length s) (reverse s) stops) ∙ reverse-reverse s) in
      ap trim_end (start-eq (10 ∷ [])) ∙ e

reverse-IsVisible :
    (x : ℕ) (s : List ℕ)
    → All IsVisible (x ∷ s)
    → (z : ℕ) × (r : List ℕ) × (reverse (x ∷ s) ≡ z ∷ r) × IsVisible z
reverse-IsVisible x [] (p, h) = (x, [], refl, p)
reverse-IsVisible x (y ∷ s) (p, h) =
    let (z, r, e, v) = reverse-IsVisible y s h in
    (z, r ++ (x ∷ []), reverse-append (x ∷ []) (y ∷ s) ∙ ap (λ t. t ++ (x ∷ [])) e, v)

-- A text of visible characters alone is not trimmed, and a newline behind it is.
pub trim_visible :
    (x : ℕ) (s : List ℕ)
    → All IsVisible (x ∷ s)
    → (trim (x ∷ s) ≡ x ∷ s) × (trim ((x ∷ s) ++ (10 ∷ [])) ≡ x ∷ s)
trim_visible x s h =
    let (z, r, e, v) = reverse-IsVisible x s h in
    (trim-eq x z (x ∷ s) s r refl e h.0 v, trim_newline x z (x ∷ s) s r refl e h.0 v)

digits-IsVisible : (s : List ℕ) → All (λ c. (b'0' ≤ c) × (c ≤ b'9')) s → All IsVisible s
digits-IsVisible [] h = tt
digits-IsVisible (c ∷ cs) (p, h) = ((omega arith, omega arith), digits-IsVisible cs h)

pub to_decimal-IsVisible : (n : ℕ) → All IsVisible (to_decimal n)
to_decimal-IsVisible n = digits-IsVisible (to_decimal n) (to_decimal_digits n)

-- A printed number is not trimmed.
pub trim-to_decimal : (n : ℕ) → trim (to_decimal n) ≡ to_decimal n
trim-to_decimal n = by_digits (to_decimal n) refl
  where
    by_digits : (s : List ℕ) → to_decimal n ≡ s → trim (to_decimal n) ≡ to_decimal n
    by_digits [] e = absurd (to_decimal-ne-nil n e)
    by_digits (x ∷ s) e =
        let h : All IsVisible (x ∷ s) = subst (All IsVisible) e (to_decimal-IsVisible n) in
        ap trim e ∙ (trim_visible x s h).0 ∙ sym e
