-- ===== src/Frame/Cursor/Reads.antt =====
-- What a reader does on bytes that were written for it. `Reads m s v`: where the bytes ahead of the
-- cursor begin with `s`, `m` returns `v` and stops right behind `s`.
use zapd.Prelude.{
  ℕ, ◌+◌, ◌-◌, ◌^◌, ◌≤◌, ◌<◌, ◌≡◌, refl, sym, ap, ◌∙◌, List, [], ◌∷◌, ◌++◌, append-nil,
  append_assoc, arith, length, take, drop, length-append, length-drop, take-append, drop-append,
  drop-drop, subst, get_or, All, foldl,
}
use zapd.Text.{Bytes, Str}
use zapd.Text.Utf8.{IsUtf8, from_utf8_lossy, from_utf8_lossy-eq}
use zapd.Io.{ok}
use zapd.Frame.LittleEndian.{
  to_le_bytes, from_le_bytes, length-to_le_bytes, from_to_le_bytes_16, from_to_le_bytes_32,
}
use zapd.Frame.Cursor
use zapd.Frame.Cursor.{Cursor, Reader, pure, ◌>>=◌}

-- The cursor is inside its bytes, and `rest` is ahead of it.
pub record At (c : Cursor) (rest : Bytes) : Type 0 where
  pub inside : c.p ≤ length c.b
  pub ahead : drop c.p c.b ≡ rest

abbrev pub advance : ℕ → Cursor → Cursor
advance n c = record c { p = c.p + n }

pub At-new : (b : Bytes) → At (Cursor.new b) b
unfolding Cursor.new
At-new b = record { inside = omega arith; ahead = refl }

length-ahead : {c : Cursor} (rest : Bytes) → At c rest → c.p + length rest ≡ length c.b
length-ahead {c} rest h =
    let e : length rest ≡ length c.b - c.p = ap length (sym h.ahead) ∙ length-drop c.p c.b in
    omega (arith, h.inside)

pub At-advance : {c : Cursor} (s rest : Bytes) → At c (s ++ rest) → At (advance (length s) c) rest
At-advance {c} s rest h = record {
  inside = omega (arith, length-ahead (s ++ rest) h, length-append s rest);
  ahead = sym (drop-drop c.p (length s) c.b) ∙ ap (drop (length s)) h.ahead ∙ drop-append s rest;
}

pub record Reads {ℓ} {A : Type ℓ} (m : Reader A) (s : Bytes) (v : A) : Type ℓ where
  pub at : (c : Cursor) (rest : Bytes) → At c (s ++ rest) → m c ≡ ok (v, advance (length s) c)

pub Reads-pure {ℓ} : {A : Type ℓ} (v : A) → Reads (pure v) [] v
Reads-pure v = record { at = λ c rest h. ap (λ (n : ℕ). ok (v, record c { p = n })) (omega arith) }

pub Reads-bind {ℓ κ} :
    {A : Type ℓ} {B : Type κ} {m : Reader A} (f : A → Reader B) {s t : Bytes} {v : A} {w : B}
    → Reads m s v
    → Reads (f v) t w
    → Reads (m >>= f) (s ++ t) w
Reads-bind {B} {m} f {s} {t} {v} {w} hm hf = record {
  at = λ c rest h.
      let h' : At c (s ++ (t ++ rest)) = rw (← append_assoc) h in
      rw
        (
          hm.at c (t ++ rest) h',
          ◌>>=◌,
          hf.at (advance (length s) c) rest (At-advance s (t ++ rest) h'),
        )
        (ap (λ (n : ℕ). ok (w, record c { p = n })) (omega (arith, length-append s t)));
}

pub Reads-take_bytes : (s : Bytes) → Reads (Cursor.take_bytes (length s)) s s
unfolding Cursor.take_bytes
Reads-take_bytes s = record {
  at = λ c rest h.
      let e : take (length s) (drop c.p c.b) ≡ s =
        ap (take (length s)) h.ahead ∙ take-append s rest in
      let le : c.p + length s ≤ length c.b =
        omega (arith, length-ahead (s ++ rest) h, length-append s rest) in
      ground arith;
}

-- On exactly its bytes a reader ends at their end.
pub Reads-whole {ℓ} :
    {A : Type ℓ} {m : Reader A} {s : Bytes} {v : A}
    → Reads m s v
    → m (Cursor.new s) ≡ ok (v, advance (length s) (Cursor.new s))
Reads-whole {s} h = h.at (Cursor.new s) [] (rw append-nil (At-new s))

-- The last read of a block, whose value `g` puts together.
pub Reads-last {ℓ κ} :
    {A : Type ℓ} {B : Type κ} {m : Reader A} (g : A → B) {s : Bytes} {v : A}
    → Reads m s v
    → Reads (m >>= λ x. pure (g x)) s (g v)
Reads-last {m} g {s} {v} h =
    subst (λ t. Reads (m >>= λ x. pure (g x)) t (g v)) (append-nil s)
      (Reads-bind (λ x. pure (g x)) h (Reads-pure (g v)))

-- A fixed-width read: what `take_bytes` gives, under a function.
module _ {ℓ} {A : Type ℓ} (g : Bytes → A) where
  Reads-slice :
      (n : ℕ) (s : Bytes) → length s ≡ n → Reads (Cursor.take_bytes n >>= λ t. pure (g t)) s (g s)
  Reads-slice n s e =
      Reads-last g (subst (λ k. Reads (Cursor.take_bytes k) s s) e (Reads-take_bytes s))

pub Reads-u8 : (n : ℕ) → Reads Cursor.u8 (n ∷ []) n
unfolding Cursor.u8
Reads-u8 n = Reads-slice (λ t. get_or t 0 0) 1 (n ∷ []) refl

pub Reads-u16 : (n : ℕ) → n < 2 ^ 16 → Reads Cursor.u16 (to_le_bytes 2 n) n
unfolding Cursor.u16
Reads-u16 n h =
    subst (Reads Cursor.u16 (to_le_bytes 2 n)) (from_to_le_bytes_16 n h)
      (Reads-slice from_le_bytes 2 (to_le_bytes 2 n) (length-to_le_bytes 2 n))

pub Reads-u32 : (n : ℕ) → n < 2 ^ 32 → Reads Cursor.u32 (to_le_bytes 4 n) n
unfolding Cursor.u32
Reads-u32 n h =
    subst (Reads Cursor.u32 (to_le_bytes 4 n)) (from_to_le_bytes_32 n h)
      (Reads-slice from_le_bytes 4 (to_le_bytes 4 n) (length-to_le_bytes 4 n))

pub Reads-string : (s : Str) → IsUtf8 s → Reads (Cursor.string (length s)) s s
unfolding Cursor.string
Reads-string s h =
    subst (Reads (Cursor.string (length s)) s) (from_utf8_lossy-eq s h)
      (Reads-slice from_utf8_lossy (length s) s refl)

pub Reads-str :
    (s : Str) → length s < 2 ^ 16 → IsUtf8 s → Reads Cursor.str (to_le_bytes 2 (length s) ++ s) s
unfolding Cursor.str
Reads-str s short h = Reads-bind Cursor.string (Reads-u16 (length s) short) (Reads-string s h)

-- The bytes of a list, one item after the other.
abbrev pub concat_map {ℓ} : {A : Type ℓ} → (A → Bytes) → List A → Bytes
concat_map g [] = []
concat_map g (x ∷ xs) = g x ++ concat_map g xs

module _ {ℓ κ} {A : Type ℓ} (P : A → Type κ) (g : A → Bytes) (m : Reader A) where
  pub Reads-times :
      ((x : A) → P x → Reads m (g x) x)
      → (xs : List A) → All P xs
      → Reads (Cursor.times (length xs) m) (concat_map g xs) xs
  unfolding Cursor.times
  Reads-times each [] h = Reads-pure []
  Reads-times each (x ∷ xs) (p, h) =
      Reads-bind (λ y. Cursor.times (length xs) m >>= λ ys. pure (y ∷ ys)) (each x p)
        (Reads-last (λ ys. x ∷ ys) (Reads-times each xs h))

-- `fold` appends to `b` what `concat_map` writes.
pub foldl-concat_map {ℓ} :
    {A : Type ℓ} (f : Bytes → A → Bytes) (g : A → Bytes)
    → ((b : Bytes) (x : A) → f b x ≡ b ++ g x)
    → (b : Bytes) (xs : List A) → foldl f b xs ≡ b ++ concat_map g xs
foldl-concat_map f g step b [] = sym (append-nil b)
foldl-concat_map f g step b (x ∷ xs) =
    foldl-concat_map f g step (f b x) xs
    ∙ ap (λ t. t ++ concat_map g xs) (step b x)
    ∙ append_assoc b (g x) (concat_map g xs)
