-- ===== src/Frame/Cursor.antt =====
-- `Cursor` of src/frame.rs: a bounds-checked little-endian reader. A method that takes `&mut self`
-- and may fail is a `Reader`: it returns its value with the cursor after it.
pub mod Reads
pub mod Yields
use zapd.Prelude.{
  ℕ, zero, suc, ◌+◌, List, [], ◌∷◌, ltb, ◌==◌, if◌then◌else◌, length, get_or, take, drop,
}
use zapd.Text.{Bytes, Str, lit}
use zapd.Text.Utf8.{from_utf8_lossy}
use zapd.Io.{Result, ok, err, fail, invalid_data}
use zapd.Frame.LittleEndian.{from_le_bytes}

pub record Cursor : Type 0 where
  pub b : Bytes
  pub p : ℕ

abbrev pub Reader {ℓ} : Type ℓ → Type ℓ
Reader A = Cursor → Result (A × Cursor)

abbrev pub pure {ℓ} : {A : Type ℓ} → A → Reader A
pure a c = ok (a, c)

infixl 5 ◌>>=◌
abbrev pub ◌>>=◌ {ℓ κ} : {A : Type ℓ} {B : Type κ} → Reader A → (A → Reader B) → Reader B
◌>>=◌ m f c = elim (m c) [ ok (a, c') ↦ f a c' | err e ↦ err e ]

unfoldable pub new : Bytes → Cursor
new b = record { b = b; p = 0 }

-- `take(n)`: the slice `b[p..p + n]`.
unfoldable pub take_bytes : ℕ → Reader Bytes
take_bytes n c =
    if ltb (length c.b) (c.p + n)
    then fail invalid_data (lit "zapd: truncated frame")
    else ok (take n (drop c.p c.b), record c { p = c.p + n })

unfoldable pub u8 : Reader ℕ
u8 = do s ← take_bytes 1; pure (get_or s 0 0)

unfoldable pub u16 : Reader ℕ
u16 = do s ← take_bytes 2; pure (from_le_bytes s)

unfoldable pub u32 : Reader ℕ
u32 = do s ← take_bytes 4; pure (from_le_bytes s)

unfoldable pub string : ℕ → Reader Str
string n = do s ← take_bytes n; pure (from_utf8_lossy s)

-- Refuses trailing bytes.
unfoldable pub end : Cursor → Result (Unit {0})
end c =
    if c.p == length c.b
    then ok tt
    else fail invalid_data (lit "zapd: trailing bytes in control body")

-- A u16 length, then the string.
unfoldable pub str : Reader Str
str = do n ← u16; string n

-- `(0..n).map(|_| m).collect::<Result<_>>()`: the first error ends it.
unfoldable pub times {ℓ} : {A : Type ℓ} → ℕ → Reader A → Reader (List A)
times zero m = pure []
times (suc n) m = do x ← m; xs ← times n m; pure (x ∷ xs)
