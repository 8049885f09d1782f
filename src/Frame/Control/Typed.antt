-- ===== src/Frame/Control/Typed.antt =====
-- What the readers of the control bodies of src/frame.rs return is of its Rust type: each number in
-- its width, each text UTF-8, each list as long as its count can say.
use zapd.Prelude.{◌^◌, ◌<◌, ◌≡◌, subst, inl, inr, List, length, All, arith}
use zapd.Text.{Bytes}
use zapd.Text.Utf8.{IsUtf8}
use zapd.Io.{ok, Result-cases}
use zapd.Frame.Cursor
use zapd.Frame.Cursor.{Reader}
use zapd.Frame.Cursor.Yields.{
  Yields, Yields-pure, Yields-bind, Yields-times, AreBytes, Yields-u8, Yields-u16, Yields-str,
}
use zapd.Frame.Control.{
  Descriptor, attr, take_descriptor, whole_body, decode_hello, Entry, entry, entries,
  decode_providers,
}

pub record DescriptorTyped (d : Descriptor) : Type 0 where
  pub role : d.role < 2 ^ 8
  pub brand : IsUtf8 d.brand
  pub caps : All IsUtf8 d.caps
  pub caps_len : length d.caps < 2 ^ 16
  pub attrs : All (λ a. IsUtf8 a.0 × IsUtf8 a.1) d.attrs
  pub attrs_len : length d.attrs < 2 ^ 16

pub record EntryTyped (e : Entry) : Type 0 where
  pub id : IsUtf8 e.id
  pub desc : DescriptorTyped e.desc

Yields-attr : Yields AreBytes attr (λ a. IsUtf8 a.0 × IsUtf8 a.1)
unfolding attr
Yields-attr = Yields-bind AreBytes _ Yields-str λ k a.
    Yields-bind AreBytes _ Yields-str
      λ v b. Yields-pure AreBytes (k, v) (λ a. IsUtf8 a.0 × IsUtf8 a.1) (a, b)

Yields-descriptor : Yields AreBytes take_descriptor DescriptorTyped
unfolding take_descriptor
Yields-descriptor = Yields-bind AreBytes _ Yields-u8 λ role r.
    Yields-bind AreBytes _ Yields-str λ brand b. Yields-bind AreBytes _ Yields-u16 λ caps_len n.
      Yields-bind AreBytes _ (Yields-times AreBytes Yields-str caps_len) λ caps c.
        Yields-bind AreBytes _ Yields-u16 λ attrs_len m.
          Yields-bind AreBytes _ (Yields-times AreBytes Yields-attr attrs_len) λ attrs a.
            Yields-pure AreBytes _ DescriptorTyped (record {
              role = omega arith;
              brand = b;
              caps = c.0;
              caps_len = omega (arith, c.1);
              attrs = a.0;
              attrs_len = omega (arith, a.1);
            })

Yields-entry : Yields AreBytes entry EntryTyped
unfolding entry
Yields-entry = Yields-bind AreBytes _ Yields-str λ id i.
    Yields-bind AreBytes _ Yields-descriptor
      λ desc d. Yields-pure AreBytes _ EntryTyped (record { id = i; desc = d })

Yields-entries : Yields AreBytes entries (λ es. All EntryTyped es × (length es < 2 ^ 16))
unfolding entries
Yields-entries = Yields-bind AreBytes _ Yields-u16 λ n h. record {
  at = λ c es c' q e.
      let ((a, l), s) = (Yields-times AreBytes Yields-entry n).at c es c' q e in
      ((a, omega (arith, l)), s);
}

whole_body-Yields :
    {A : Type 0} {m : Reader A} {P : A → Type 0}
    → Yields AreBytes m P
    → (b : Bytes) (v : A) → AreBytes b
    → whole_body m b ≡ ok v
    → P v
unfolding whole_body Cursor.new
whole_body-Yields {m} {P} h b v q e = elim (Result-cases (m (Cursor.new b))) [
  | inr (x, r) ↦ let e' = rw (r, whole_body) at e in absurd (cc)
  | inl ((a, c), r) ↦ elim (Result-cases (Cursor.end c)) [
    | inr (x, d) ↦ let e' = rw (r, whole_body, d) at e in absurd (cc)
    | inl (u, d) ↦
        let e' = rw (r, whole_body, d) at e in
        let same : a ≡ v = cc in subst P same ((h.at (Cursor.new b) a c q r).0)
  ]
]

-- Whatever bytes arrive, the body of a HELLO that is accepted is a well-typed description of a node.
pub decode_hello-Typed :
    (b : Bytes) (d : Descriptor) → AreBytes b → decode_hello b ≡ ok d → DescriptorTyped d
unfolding decode_hello
decode_hello-Typed b d q e = whole_body-Yields Yields-descriptor b d q e

-- Whatever bytes arrive, the entries of an answer to `nodes` that is accepted are well typed, and no more
-- than 65,535.
pub decode_providers-Typed :
    (b : Bytes) (es : List Entry)
    → AreBytes b
    → decode_providers b ≡ ok es
    → All EntryTyped es × (length es < 2 ^ 16)
unfolding decode_providers
decode_providers-Typed b es q e = whole_body-Yields Yields-entries b es q e
