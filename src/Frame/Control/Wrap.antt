-- ===== src/Frame/Control/Wrap.antt =====
-- A brand of 65,536 bytes or more: `put_str` writes its length cut to a u16 and then all of it.
use zapd.Prelude.{
  ℕ, zero, suc, ◌%◌, ◌^◌, ◌≤◌, ◌<◌, ◌≡◌, ◌≢◌, refl, sym, ap, ◌∙◌, subst, inl, inr, [], ◌∷◌, ◌++◌,
  append_assoc, length, take, drop, take-append-drop, length-take, All, arith,
}
use zapd.Text.{Bytes, Str}
use zapd.Text.Utf8.{IsUtf8, All-lt-IsUtf8}
use zapd.Io.{ok, Result-cases}
use zapd.Frame.LittleEndian.{to_le_bytes}
use zapd.Frame.Cursor
use zapd.Frame.Cursor.{Cursor, Reader, pure, ◌>>=◌}
use zapd.Frame.Cursor.Reads.{advance, At, At-new, At-advance, Reads-u8, Reads-str}
use zapd.Frame.Control.{
  Descriptor, put, attr, take_descriptor, whole_body, encode_hello, decode_hello,
}
use zapd.Frame.Control.RoundTrip.{put-eq, descriptor_bytes, descriptor_bytes-brand}

abbrev pub IsAscii : Str → Type 0
IsAscii = All (λ b. b < 0x80)

take-IsAscii : (n : ℕ) (s : Str) → IsAscii s → IsAscii (take n s)
take-IsAscii zero s h = tt
take-IsAscii (suc n) [] h = tt
take-IsAscii (suc n) (b ∷ s) (p, h) = (p, take-IsAscii n s h)

bind-ok {ℓ κ} :
    {A : Type ℓ} {B : Type κ} (m : Reader A) (f : A → Reader B) {c c' : Cursor} {w : B}
    → (m >>= f) c ≡ ok (w, c')
    → (a : A) × (d : Cursor) × (m c ≡ ok (a, d)) × (f a d ≡ ok (w, c'))
bind-ok m f {c} e = elim (Result-cases (m c)) [
  | inl ((a, d), r) ↦ (a, d, r, rw (r, ◌>>=◌) at e)
  | inr (x, r) ↦ let e' = rw (r, ◌>>=◌) at e in absurd (cc)
]

-- Every value that the reader returns has the property.
record Brings {A : Type 0} (m : Reader A) (P : A → Type 0) : Type 0 where
  at : (c c' : Cursor) (v : A) → m c ≡ ok (v, c') → P v

Brings-pure : {A : Type 0} (v : A) (P : A → Type 0) → P v → Brings (pure v) P
Brings-pure v P h = record { at = λ c c' w e. let same : v ≡ w = cc in subst P same h }

Brings-bind :
    {A B : Type 0} (m : Reader A) (f : A → Reader B) (P : B → Type 0)
    → ((a : A) → Brings (f a) P)
    → Brings (m >>= f) P
Brings-bind m f P h = record {
  at = λ c c' v e. let (a, d, r, q) = bind-ok m f e in (h a).at d c' v q;
}

abbrev after_brand : ℕ → Str → Reader Descriptor
after_brand role brand = do
  caps_len ← Cursor.u16
  caps ← Cursor.times caps_len Cursor.str
  attrs_len ← Cursor.u16
  attrs ← Cursor.times attrs_len attr
  pure (record { role = role; brand = brand; caps = caps; attrs = attrs })

brand_kept : (role : ℕ) (brand : Str) → Brings (after_brand role brand) (λ d. brand ≡ d.brand)
brand_kept role brand = Brings-bind Cursor.u16 _ _ λ n.
    Brings-bind (Cursor.times n Cursor.str) _ _ λ caps. Brings-bind Cursor.u16 _ _ λ m.
      Brings-bind (Cursor.times m attr) _ _ λ attrs.
        Brings-pure (record { role = role; brand = brand; caps = caps; attrs = attrs }) _ refl

-- The brand that `take_descriptor` reads.
brand_read :
    (c c' : Cursor) (d : Descriptor)
    → take_descriptor c ≡ ok (d, c')
    → (role : ℕ) × (c1 c2 : Cursor) × (Cursor.u8 c ≡ ok (role, c1))
      × (Cursor.str c1 ≡ ok (d.brand, c2))
unfolding take_descriptor
brand_read c c' d e =
    let (role, c1, e1, f1) = bind-ok Cursor.u8 _ e in
    let (brand, c2, e2, f2) = bind-ok Cursor.str _ f1 in
    (role, c1, c2, e1, e2 ∙ ap (λ b. ok (b, c2)) ((brand_kept _ brand).at c2 c' d f2))

whole_body-ok :
    {A : Type 0} (m : Reader A) (b : Bytes) (v : A)
    → whole_body m b ≡ ok v
    → (c : Cursor) × (m (Cursor.new b) ≡ ok (v, c))
unfolding whole_body
whole_body-ok m b v e = elim (Result-cases (m (Cursor.new b))) [
  | inr (x, r) ↦ let e' = rw (r, whole_body) at e in absurd (cc)
  | inl ((a, c), r) ↦ elim (Result-cases (Cursor.end c)) [
    | inr (x, d) ↦ let e' = rw (r, whole_body, d) at e in absurd (cc)
    | inl (u, d) ↦
        let e' = rw (r, whole_body, d) at e in
        let same : a ≡ v = cc in (c, r ∙ ap (λ a. ok (a, c)) same)
  ]
]

-- The body up to a number of bytes of the brand, and what follows them.
brand_cut :
    (d : Descriptor) (k : ℕ)
    → (rest : Bytes) × (descriptor_bytes d
        ≡ (d.role ∷ []) ++ ((to_le_bytes 2 (length d.brand % 2 ^ 16) ++ take k d.brand) ++ rest))
brand_cut d k =
    let len = to_le_bytes 2 (length d.brand % 2 ^ 16) in
    let (tail, e) = descriptor_bytes-brand d in
    let s = take k d.brand in
    let t = drop k d.brand in
    (
      t ++ tail,
      e
          ∙ ap (λ b. (d.role ∷ []) ++ ((len ++ b) ++ tail)) (sym (take-append-drop k d.brand))
          ∙ ap (λ b. d.role ∷ b)
              (ap (λ b. b ++ tail) (sym (append_assoc len s t)) ∙ append_assoc (len ++ s) t tail),
    )

-- What is read of a body that goes on after a short brand.
brand_cut_read :
    (n : ℕ) (s brand : Str) (rest body : Bytes) (role : ℕ) (c1 c2 : Cursor)
    → length s < 2 ^ 16
    → IsUtf8 s
    → body ≡ (n ∷ []) ++ ((to_le_bytes 2 (length s) ++ s) ++ rest)
    → Cursor.u8 (Cursor.new body) ≡ ok (role, c1)
    → Cursor.str c1 ≡ ok (brand, c2)
    → brand ≡ s
brand_cut_read n s brand rest body role c1 c2 short utf8 e q1 q2 =
    let text = to_le_bytes 2 (length s) ++ s in
    let at : At (Cursor.new body) ((n ∷ []) ++ (text ++ rest)) =
      subst (At (Cursor.new body)) e (At-new body) in
    let first = (Reads-u8 n).at (Cursor.new body) (text ++ rest) at in
    let there : advance 1 (Cursor.new body) ≡ c1 = cc in
    let at1 = subst (λ c. At c (text ++ rest)) there (At-advance (n ∷ []) (text ++ rest) at) in
    let second = (Reads-str s short utf8).at c1 rest at1 in cc

-- A description whose brand is ASCII and has 65,536 bytes or more is not what its HELLO body is read
-- back as, whatever else it holds.
pub decode_hello-encode_hello_long :
    (d : Descriptor)
    → 2 ^ 16 ≤ length d.brand
    → IsAscii d.brand
    → decode_hello (encode_hello d) ≢ ok d
unfolding decode_hello encode_hello
decode_hello-encode_hello_long d long ascii e =
    let k = length d.brand % 2 ^ 16 in
    let s = take k d.brand in
    let short : length s ≡ k = omega (arith, length-take k d.brand) in
    let (rest, cut) = brand_cut d k in
    let (c, r) = whole_body-ok take_descriptor (put d []) d e in
    let (role, c1, c2, q1, q2) = brand_read _ c d r in
    let same : d.brand ≡ s =
      brand_cut_read d.role s d.brand rest (put d []) role c1 c2 (omega arith)
        (All-lt-IsUtf8 s (take-IsAscii k d.brand ascii))
        (put-eq d []
          ∙ cut
          ∙ ap (λ n. (d.role ∷ []) ++ ((to_le_bytes 2 n ++ s) ++ rest)) (sym short))
        q1 q2 in
    let size : length d.brand ≡ length s = ap length same in omega arith
