-- ===== src/Frame/Control/RoundTrip.antt =====
-- The control bodies are read back as they were written, where each string and count fits its u16.
use zapd.Prelude.{
  ℕ, ◌%◌, ◌^◌, ◌<◌, ◌≡◌, ◌≢◌, refl, ap, ◌∙◌, List, [], ◌∷◌, ◌++◌, append_assoc, arith, length, All,
}
use zapd.Text.{Bytes, Str}
use zapd.Text.Utf8.{IsUtf8}
use zapd.Io.{ok}
use zapd.Frame.LittleEndian.{to_le_bytes}
use zapd.Frame.Cursor
use zapd.Frame.Cursor.{Cursor, Reader, pure, ◌>>=◌}
use zapd.Frame.Cursor.Reads.{
  advance, Reads, Reads-bind, Reads-last, Reads-whole, Reads-u8, Reads-u16, Reads-str, Reads-times,
  concat_map, foldl-concat_map,
}
use zapd.Frame.Control.{
  put_str, Descriptor, put_attr, put, attr, take_descriptor, whole_body, encode_hello, decode_hello,
  Entry, put_entry, encode_providers, entry, entries, decode_providers, decode_brand_filter,
}

pub record IsShort (s : Str) : Type 0 where
  pub short : length s < 2 ^ 16
  pub utf8 : IsUtf8 s

abbrev pub IsShortPair : Str × Str → Type 0
IsShortPair (k, v) = IsShort k × IsShort v

pub record Fits (d : Descriptor) : Type 0 where
  pub brand : IsShort d.brand
  pub caps_len : length d.caps < 2 ^ 16
  pub caps : All IsShort d.caps
  pub attrs_len : length d.attrs < 2 ^ 16
  pub attrs : All IsShortPair d.attrs

-- What each writer appends.
abbrev str_bytes : Str → Bytes
str_bytes s = to_le_bytes 2 (length s % 2 ^ 16) ++ s

abbrev attr_bytes : Str × Str → Bytes
attr_bytes (k, v) = str_bytes k ++ str_bytes v

pub descriptor_bytes : Descriptor → Bytes
descriptor_bytes d =
    (d.role ∷ [])
    ++ (str_bytes d.brand
        ++ (to_le_bytes 2 (length d.caps % 2 ^ 16)
            ++ (concat_map str_bytes d.caps
                ++ (to_le_bytes 2 (length d.attrs % 2 ^ 16) ++ concat_map attr_bytes d.attrs))))

pub descriptor_bytes-brand :
    (d : Descriptor)
    → (rest : Bytes) × (descriptor_bytes d
        ≡ (d.role ∷ []) ++ ((to_le_bytes 2 (length d.brand % 2 ^ 16) ++ d.brand) ++ rest))
unfolding descriptor_bytes
descriptor_bytes-brand d = (_, refl)

pub put_str-eq : (b : Bytes) (s : Str) → put_str b s ≡ b ++ str_bytes s
unfolding put_str
put_str-eq b s = append_assoc b (to_le_bytes 2 (length s % 2 ^ 16)) s

put_attr-eq : (b : Bytes) (a : Str × Str) → put_attr b a ≡ b ++ attr_bytes a
unfolding put_attr
put_attr-eq b (k, v) =
    put_str-eq (put_str b k) v
    ∙ ap (λ t. t ++ str_bytes v) (put_str-eq b k)
    ∙ append_assoc b (str_bytes k) (str_bytes v)

pub put-eq : (d : Descriptor) (b : Bytes) → put d b ≡ b ++ descriptor_bytes d
unfolding put descriptor_bytes
put-eq d b =
    rw
      (
        foldl-concat_map put_attr attr_bytes put_attr-eq _ d.attrs,
        foldl-concat_map put_str str_bytes put_str-eq _ d.caps,
        put_str-eq (b ++ (d.role ∷ [])) d.brand,
      )
      simp append_assoc

mod-eq : (n k : ℕ) → n < k → n % k ≡ n
mod-eq n k h = grind arith

Reads-short : (s : Str) → IsShort s → Reads Cursor.str (str_bytes s) s
Reads-short s h = rw (mod-eq (length s) (2 ^ 16) h.short) (Reads-str s h.short h.utf8)

Reads-attr : (a : Str × Str) → IsShortPair a → Reads attr (attr_bytes a) a
unfolding attr
Reads-attr (k, v) (hk, hv) =
    Reads-bind _ {s = str_bytes k} (Reads-short k hk) (Reads-last (λ w. (k, w)) (Reads-short v hv))

Reads-count : (n : ℕ) → n < 2 ^ 16 → Reads Cursor.u16 (to_le_bytes 2 (n % 2 ^ 16)) n
Reads-count n h = rw (mod-eq n (2 ^ 16) h) (Reads-u16 n h)

Reads-descriptor : (d : Descriptor) → Fits d → Reads take_descriptor (descriptor_bytes d) d
unfolding take_descriptor descriptor_bytes
Reads-descriptor d h = Reads-bind _ {s = d.role ∷ []} (Reads-u8 d.role) (
    Reads-bind _ {s = str_bytes d.brand} (Reads-short d.brand h.brand) (
      Reads-bind _ (Reads-count (length d.caps) h.caps_len) (
        Reads-bind _ (Reads-times IsShort str_bytes Cursor.str Reads-short d.caps h.caps) (
          Reads-bind _ (Reads-count (length d.attrs) h.attrs_len)
            (Reads-last _ (Reads-times IsShortPair attr_bytes attr Reads-attr d.attrs h.attrs))))))

end-whole : (s : Bytes) → Cursor.end (advance (length s) (Cursor.new s)) ≡ ok tt
unfolding Cursor.end Cursor.new
end-whole s = ground arith

whole_body-eq {ℓ} :
    {A : Type ℓ} (m : Reader A) {s : Bytes} {v : A} → Reads m s v → whole_body m s ≡ ok v
unfolding whole_body
whole_body-eq m {s} h = rw (Reads-whole h, whole_body, end-whole s)

-- A HELLO body is read back as the descriptor that it was written from.
pub decode_hello-encode_hello : (d : Descriptor) → Fits d → decode_hello (encode_hello d) ≡ ok d
unfolding decode_hello encode_hello
decode_hello-encode_hello d h =
    rw (put-eq d []) (whole_body-eq take_descriptor (Reads-descriptor d h))

pub record EntryFits (e : Entry) : Type 0 where
  pub id : IsShort e.id
  pub desc : Fits e.desc

entry_bytes : Entry → Bytes
entry_bytes e = str_bytes e.id ++ descriptor_bytes e.desc

put_entry-eq : (b : Bytes) (e : Entry) → put_entry b e ≡ b ++ entry_bytes e
unfolding put_entry entry_bytes
put_entry-eq b e = rw (put-eq e.desc _, put_str-eq b e.id) (append_assoc b _ _)

Reads-entry : (e : Entry) → EntryFits e → Reads entry (entry_bytes e) e
unfolding entry entry_bytes
Reads-entry e h =
    Reads-bind _ {s = str_bytes e.id} (Reads-short e.id h.id)
      (Reads-last (λ d. record { id = e.id; desc = d }) (Reads-descriptor e.desc h.desc))

-- A PROVIDERS body is read back as the entries that it was written from.
pub decode_providers-encode_providers :
    (es : List Entry)
    → length es < 2 ^ 16
    → All EntryFits es
    → decode_providers (encode_providers es) ≡ ok es
unfolding decode_providers encode_providers entries
decode_providers-encode_providers es short h =
    rw (foldl-concat_map put_entry entry_bytes put_entry-eq _ es) (
      whole_body-eq _ (
        Reads-bind _ (Reads-count (length es) short)
          (Reads-times EntryFits entry_bytes entry Reads-entry es h)))

filter_of_str :
    (b : Bytes) (s : Str) (c : Cursor)
    → Cursor.str (Cursor.new b) ≡ ok (s, c)
    → b ≢ []
    → decode_brand_filter b ≡ s
unfolding decode_brand_filter
filter_of_str [] s c e h = absurd (h refl)
filter_of_str (x ∷ xs) s c e h = ground arith

put_str-ne-nil : (s : Str) → put_str [] s ≢ []
unfolding put_str to_le_bytes
put_str-ne-nil s e = cc

str_of_put_str :
    (s : Str)
    → IsShort s
    → Cursor.str (Cursor.new (put_str [] s))
      ≡ ok (s, advance (length (put_str [] s)) (Cursor.new (put_str [] s)))
str_of_put_str s h = rw (put_str-eq [] s) (Reads-whole (Reads-short s h))

-- A brand filter that `put_str` wrote is read back, and no body at all is the empty filter.
pub decode_brand_filter-put_str :
    (s : Str) → IsShort s → (decode_brand_filter (put_str [] s) ≡ s) × (decode_brand_filter [] ≡ [])
unfolding decode_brand_filter
decode_brand_filter-put_str s h =
    (filter_of_str (put_str [] s) s _ (str_of_put_str s h) (put_str-ne-nil s), refl)
