-- ===== src/Frame/Cursor/Yields.antt =====
-- What holds of every value that a reader returns. `Yields Q m P`: on bytes of which `Q` holds, `m`
-- returns only values of which `P` holds, and leaves the bytes as they are.
use zapd.Prelude.{
  ℕ, zero, suc, ◌+◌, ◌^◌, ◌≤◌, ◌<◌, ◌≡◌, refl, sym, ap, ◌∙◌, subst, inl, inr, [], ◌∷◌, arith,
  length, take, drop, length-take, length-drop, get_or, All, ltb, Bool-cases,
}
use zapd.Text.{Bytes, IsByte}
use zapd.Text.Utf8.{IsUtf8, from_utf8_lossy-IsUtf8}
use zapd.Io.{ok, Result-cases}
use zapd.Frame.LittleEndian.{from_le_bytes-lt}
use zapd.Frame.Cursor
use zapd.Frame.Cursor.{Cursor, Reader, pure, ◌>>=◌}

pub record Yields {ℓ} (Q : Bytes → Type 0) {A : Type ℓ} (m : Reader A) (P : A → Type 0)
    : Type ℓ where
  pub at : (c : Cursor) (v : A) (c' : Cursor) → Q c.b → m c ≡ ok (v, c') → P v × (c'.b ≡ c.b)

module _ (Q : Bytes → Type 0) where
  pub Yields-pure {ℓ} : {A : Type ℓ} (v : A) (P : A → Type 0) → P v → Yields Q (pure v) P
  Yields-pure v P h = record {
    at = λ c w c' q e.
        let same : v ≡ w = cc in
        let stay : c ≡ c' = cc in (subst P same h, ap (λ (d : Cursor). d.b) (sym stay));
  }

  pub Yields-bind {ℓ κ} :
      {A : Type ℓ} {B : Type κ} {m : Reader A} (f : A → Reader B) {P : A → Type 0} {R : B → Type 0}
      → Yields Q m P
      → ((a : A) → P a → Yields Q (f a) R)
      → Yields Q (m >>= f) R
  Yields-bind {m} f {P} {R} hm hf = record {
    at = λ c v c' q e. elim (Result-cases (m c)) [
      | inl ((a, d), r) ↦
          let (p, s) = hm.at c a d q r in
          let e' = rw (r, ◌>>=◌) at e in
          let (w, t) = (hf a p).at d v c' (subst Q (sym s) q) e' in (w, t ∙ s)
      | inr (x, r) ↦ let e' = rw (r, ◌>>=◌) at e in absurd (cc)
    ];
  }

  pub Yields-times :
      {A : Type 0} {m : Reader A} {P : A → Type 0}
      → Yields Q m P
      → (n : ℕ) → Yields Q (Cursor.times n m) (λ xs. All P xs × (length xs ≡ n))
  unfolding Cursor.times
  Yields-times h zero = Yields-pure [] (λ xs. All _ xs × (length xs ≡ 0)) (tt, refl)
  Yields-times {P} h (suc n) = Yields-bind _ h λ x p.
      Yields-bind _ (Yields-times h n) λ xs ps.
        Yields-pure (x ∷ xs) (λ ys. All P ys × (length ys ≡ suc n)) ((p, ps.0), ap suc ps.1)

pub All-take : (n : ℕ) (bs : Bytes) → All IsByte bs → All IsByte (take n bs)
All-take zero bs h = tt
All-take (suc n) [] h = tt
All-take (suc n) (b ∷ bs) (p, h) = (p, All-take n bs h)

pub All-drop : (n : ℕ) (bs : Bytes) → All IsByte bs → All IsByte (drop n bs)
All-drop zero bs h = h
All-drop (suc n) [] h = tt
All-drop (suc n) (b ∷ bs) (p, h) = All-drop n bs h

-- Bytes taken from bytes.
abbrev pub AreBytes : Bytes → Type 0
AreBytes = All IsByte

pub Yields-take_bytes :
    (n : ℕ) → Yields AreBytes (Cursor.take_bytes n) (λ s. AreBytes s × (length s ≡ n))
unfolding Cursor.take_bytes
Yields-take_bytes n = record {
  at = λ c s c' q e. elim (Bool-cases (ltb (length c.b) (c.p + n))) [
    | inl t ↦ let e' = rw (t, Cursor.take_bytes) at e in absurd (cc)
    | inr f ↦
        let e' = rw (f, Cursor.take_bytes) at e in
        let same : take n (drop c.p c.b) ≡ s = cc in
        let stay : c.b ≡ c'.b = cc in
        let le : c.p + n ≤ length c.b = ground arith in
        (
          (
            subst AreBytes same (All-take n _ (All-drop c.p c.b q)),
            ap length (sym same) ∙ omega (arith, length-take n (drop c.p c.b), length-drop c.p c.b),
          ),
          sym stay,
        )
  ];
}

first-lt : (s : Bytes) → AreBytes s × (length s ≡ 1) → get_or s 0 0 < 256
first-lt [] (h, e) = absurd (omega arith)
first-lt (b ∷ s) ((p, h), e) = p

pub Yields-u8 : Yields AreBytes Cursor.u8 (λ n. n < 256)
unfolding Cursor.u8
Yields-u8 =
    Yields-bind AreBytes _ (Yields-take_bytes 1)
      λ s h. Yields-pure AreBytes _ (λ n. n < 256) (first-lt s h)

pub Yields-u16 : Yields AreBytes Cursor.u16 (λ n. n < 2 ^ 16)
unfolding Cursor.u16
Yields-u16 = Yields-bind AreBytes _ (Yields-take_bytes 2) λ s h.
    Yields-pure AreBytes _ (λ n. n < 2 ^ 16)
      (let e : 256 ^ length s ≡ 2 ^ 16 = rw (h.1) refl in omega (arith, from_le_bytes-lt s h.0, e))

pub Yields-u32 : Yields AreBytes Cursor.u32 (λ n. n < 2 ^ 32)
unfolding Cursor.u32
Yields-u32 = Yields-bind AreBytes _ (Yields-take_bytes 4) λ s h.
    Yields-pure AreBytes _ (λ n. n < 2 ^ 32)
      (let e : 256 ^ length s ≡ 2 ^ 32 = rw (h.1) refl in omega (arith, from_le_bytes-lt s h.0, e))

pub Yields-string : (n : ℕ) → Yields AreBytes (Cursor.string n) IsUtf8
unfolding Cursor.string
Yields-string n =
    Yields-bind AreBytes _ (Yields-take_bytes n)
      λ s h. Yields-pure AreBytes _ IsUtf8 (from_utf8_lossy-IsUtf8 s)

pub Yields-str : Yields AreBytes Cursor.str IsUtf8
unfolding Cursor.str
Yields-str = Yields-bind AreBytes _ Yields-u16 λ n h. Yields-string n
