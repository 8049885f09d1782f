-- ===== src/Frame/Suite.antt =====
-- The unit tests of src/frame.rs: each as what it asserts, and that it passes.
use zapd.Prelude.{ℕ, ◌-◌, ◌≡◌, refl, List, [], ◌∷◌, ◌++◌, length, take, drop}
use zapd.Text.{Bytes, lit}
use zapd.Text.Utf8.{from_utf8_lossy}
use zapd.Io.{IsErr, ok}
use zapd.Frame.LittleEndian.{to_le_bytes, from_le_bytes}
use zapd.Frame.Cursor
use zapd.Frame.Cursor.{Cursor, Reader, pure, ◌>>=◌}
use zapd.Frame.Envelope.{Frame, new, encode, decode, route, auth, body, role_provider}
use zapd.Frame.Control.{
  put_str, put, Descriptor, take_descriptor, whole_body, encode_hello, decode_hello, Entry,
  encode_providers, decode_providers, decode_brand_filter,
}

abbrev opaque : Bytes
opaque = lit "opaque-" ++ (0 ∷ 1 ∷ 2 ∷ [])

abbrev by_hand : Reader (ℕ × (ℕ × (Bytes × (Bytes × Bytes))))
by_hand = do
  typ ← Cursor.u8
  flags ← Cursor.u16
  fl ← Cursor.u16
  tl ← Cursor.u16
  pl ← Cursor.u32
  from ← Cursor.take_bytes fl
  to ← Cursor.take_bytes tl
  payload ← Cursor.take_bytes pl
  pure (typ, (flags, (from, (to, payload))))

abbrev EnvelopeRoundtrip : Type 0
EnvelopeRoundtrip =
    let f = new route (lit "consumer:mcp/1") (lit "browser:chrome/dbc/default") opaque in
    (c : Cursor) × (by_hand (Cursor.new (drop 4 (encode f)))
      ≡ ok ((route, (0, (lit "consumer:mcp/1", (lit "browser:chrome/dbc/default", opaque)))), c))

envelope_roundtrip : EnvelopeRoundtrip
unfolding encode Cursor.new Cursor.u8 Cursor.u16 Cursor.u32 Cursor.take_bytes to_le_bytes
    from_le_bytes
envelope_roundtrip = (_, refl)

abbrev tabs : Descriptor
tabs = record {
  role = role_provider;
  brand = lit "hanzo";
  caps = lit "browser.tabs" ∷ lit "browser.navigate" ∷ [];
  attrs = (lit "leasable", lit "false") ∷ [];
}

abbrev HelloRoundtrip : Type 0
HelloRoundtrip =
    (decode_hello (encode_hello tabs) ≡ ok tabs)
    × IsErr (decode_hello (encode_hello tabs ++ (0 ∷ [])))

hello_roundtrip : HelloRoundtrip
unfolding encode_hello decode_hello put put_str take_descriptor whole_body to_le_bytes from_le_bytes
    Cursor.new Cursor.u8 Cursor.u16 Cursor.str Cursor.string Cursor.times Cursor.end
    Cursor.take_bytes from_utf8_lossy
hello_roundtrip = (refl, (_, refl))

abbrev two_entries : List Entry
two_entries =
    record {
      id = lit "browser/dgx/chromium-3fa2";
      desc = record {
        role = role_provider;
        brand = lit "hanzo";
        caps = lit "tabs" ∷ [];
        attrs = [];
      };
    }
    ∷ record {
      id = lit "engine/spark/qwen3";
      desc = record {
        role = role_provider;
        brand = [];
        caps = [];
        attrs = (lit "model", lit "qwen3-32b") ∷ [];
      };
    }
    ∷ []

abbrev ProvidersRoundtrip : Type 0
ProvidersRoundtrip = decode_providers (encode_providers two_entries) ≡ ok two_entries

providers_roundtrip : ProvidersRoundtrip
unfolding encode_providers decode_providers put put_str take_descriptor whole_body to_le_bytes
    from_le_bytes Cursor.new Cursor.u8 Cursor.u16 Cursor.str Cursor.string Cursor.times Cursor.end
    Cursor.take_bytes from_utf8_lossy
providers_roundtrip = refl

abbrev CursorRejectsTruncation : Type 0
CursorRejectsTruncation = IsErr (Cursor.u32 (Cursor.new (0 ∷ 1 ∷ [])))

cursor_rejects_truncation : CursorRejectsTruncation
unfolding Cursor.new Cursor.u32 Cursor.take_bytes
cursor_rejects_truncation = (_, refl)

abbrev sevens : Bytes
sevens =
    7 ∷ 7 ∷ 7 ∷ 7 ∷ 7 ∷ 7 ∷ 7 ∷ 7 ∷ 7 ∷ 7 ∷ 7 ∷ 7 ∷ 7 ∷ 7 ∷ 7 ∷ 7 ∷ 7 ∷ 7 ∷ 7 ∷ 7 ∷ 7 ∷ 7 ∷ 7 ∷ 7
    ∷ 7 ∷ 7 ∷ 7 ∷ 7 ∷ 7 ∷ 7 ∷ 7 ∷ 7 ∷ []

abbrev DecodeTakesExactlyOneFrame : Type 0
DecodeTakesExactlyOneFrame =
    let bytes = encode (new auth [] [] sevens) in
    ((f : Frame) × (decode bytes ≡ ok f) × (f.typ ≡ auth) × (length f.payload ≡ 32))
    × IsErr (decode (take (length bytes - 1) bytes))
    × IsErr (decode (bytes ++ bytes))

decode_takes_exactly_one_frame : DecodeTakesExactlyOneFrame
unfolding encode decode body Cursor.new Cursor.u8 Cursor.u16 Cursor.u32 Cursor.string
    Cursor.take_bytes to_le_bytes from_le_bytes from_utf8_lossy
decode_takes_exactly_one_frame = ((_, refl, refl, refl), (_, refl), (_, refl))

abbrev BrandFilterEmptyIsAll : Type 0
BrandFilterEmptyIsAll = decode_brand_filter [] ≡ []

brand_filter_empty_is_all : BrandFilterEmptyIsAll
unfolding decode_brand_filter
brand_filter_empty_is_all = refl
