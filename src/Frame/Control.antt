-- ===== src/Frame/Control.antt =====
-- The control bodies of src/frame.rs: HELLO, PROVIDERS, PROVIDERS_LIST and PEER_*.
pub mod RoundTrip
pub mod Typed
pub mod Wrap
use zapd.Prelude.{ℕ, ◌%◌, ◌^◌, List, [], ◌∷◌, ◌++◌, length, foldl}
use zapd.Text.{Bytes, Str}
use zapd.Io.{Result, ok, err}
use zapd.Frame.LittleEndian.{to_le_bytes}
use zapd.Frame.Cursor
use zapd.Frame.Cursor.{Reader, Cursor, pure, ◌>>=◌}

-- `b` is the vector that the source appends to.
unfoldable pub put_str : Bytes → Str → Bytes
put_str b s = (b ++ to_le_bytes 2 (length s % 2 ^ 16)) ++ s

pub record Descriptor : Type 0 where
  pub role : ℕ
  pub brand : Str
  pub caps : List Str
  pub attrs : List (Str × Str)

-- One round of the loop over `attrs`.
put_attr : Bytes → Str × Str → Bytes
put_attr b (k, v) = put_str (put_str b k) v

unfoldable pub put : Descriptor → Bytes → Bytes
unfolding put_attr
put d b =
    let b₁ = put_str (b ++ (d.role ∷ [])) d.brand in
    let b₂ = foldl put_str (b₁ ++ to_le_bytes 2 (length d.caps % 2 ^ 16)) d.caps in
    foldl put_attr (b₂ ++ to_le_bytes 2 (length d.attrs % 2 ^ 16)) d.attrs

attr : Reader (Str × Str)
attr = do k ← Cursor.str; v ← Cursor.str; pure (k, v)

-- `Descriptor::take`
unfoldable pub take_descriptor : Reader Descriptor
unfolding attr
take_descriptor = do
  role ← Cursor.u8
  brand ← Cursor.str
  caps_len ← Cursor.u16
  caps ← Cursor.times caps_len Cursor.str
  attrs_len ← Cursor.u16
  attrs ← Cursor.times attrs_len attr
  pure (record { role = role; brand = brand; caps = caps; attrs = attrs })

-- What a control body holds: `m` reads it, and `c.end()?` refuses what is left.
unfoldable pub whole_body {ℓ} : {A : Type ℓ} → Reader A → Bytes → Result A
whole_body m payload = elim (m (Cursor.new payload)) [
  | ok (a, c) ↦ elim (Cursor.end c) [ ok _ ↦ ok a | err e ↦ err e ]
  | err e ↦ err e
]

unfoldable pub encode_hello : Descriptor → Bytes
encode_hello d = put d []

unfoldable pub decode_hello : Bytes → Result Descriptor
decode_hello = whole_body take_descriptor

pub record Entry : Type 0 where
  pub id : Str
  pub desc : Descriptor

put_entry : Bytes → Entry → Bytes
put_entry b e = put e.desc (put_str b e.id)

unfoldable pub encode_providers : List Entry → Bytes
unfolding put_entry
encode_providers entries = foldl put_entry (to_le_bytes 2 (length entries % 2 ^ 16)) entries

entry : Reader Entry
entry = do id ← Cursor.str; desc ← take_descriptor; pure (record { id = id; desc = desc })

entries : Reader (List Entry)
entries = do n ← Cursor.u16; Cursor.times n entry

unfoldable pub decode_providers : Bytes → Result (List Entry)
unfolding entries entry
decode_providers = whole_body entries

-- `unwrap_or_default`; what follows the string is not looked at.
unfoldable pub decode_brand_filter : Bytes → Str
decode_brand_filter [] = []
decode_brand_filter (x ∷ xs) = elim (Cursor.str (Cursor.new (x ∷ xs))) [
  | ok (s, c) ↦ s
  | err e ↦ []
]

unfoldable pub encode_peer : Str → Bytes
encode_peer id = put_str [] id
