-- ===== src/Frame/Envelope/Typed.antt =====
-- What `body`, `decode` and `read` of src/frame.rs return is of its Rust type: each number in its
-- width, each name UTF-8.
use zapd.Prelude.{
  ℕ, ◌+◌, ◌^◌, ◌<◌, ◌≡◌, subst, inl, inr, some, length, arith, ltb, leb, ◌&&◌, ◌||◌, ◌==◌,
  Bool-cases, take, drop,
}
use zapd.Text.{Bytes}
use zapd.Text.Utf8.{IsUtf8}
use zapd.Io.{ok, Result-cases}
use zapd.Frame.LittleEndian.{from_le_bytes}
use zapd.Frame.Cursor
use zapd.Frame.Cursor.{Cursor}
use zapd.Frame.Cursor.Yields.{
  Yields, Yields-pure, Yields-bind, AreBytes, All-drop, All-take, Yields-take_bytes, Yields-u8,
  Yields-u16, Yields-u32, Yields-string,
}
use zapd.Frame.Envelope.{
  Frame, Stream, header, max_frame, fields, all_read, body, decode, read_exact, read_body, read,
  is_eof,
}

pub record FrameTyped (f : Frame) : Type 0 where
  pub typ : f.typ < 2 ^ 8
  pub flags : f.flags < 2 ^ 16
  pub from : IsUtf8 f.from
  pub to : IsUtf8 f.to
  pub payload : AreBytes f.payload
  pub payload_len : length f.payload < 2 ^ 32

Yields-fields : Yields AreBytes fields FrameTyped
unfolding fields
Yields-fields = Yields-bind AreBytes _ Yields-u8 λ typ t.
    Yields-bind AreBytes _ Yields-u16 λ flags g. Yields-bind AreBytes _ Yields-u16 λ from_len a.
      Yields-bind AreBytes _ Yields-u16 λ to_len b. Yields-bind AreBytes _ Yields-u32 λ pay_len p.
        Yields-bind AreBytes _ (Yields-string from_len) λ from f.
          Yields-bind AreBytes _ (Yields-string to_len) λ to h.
            Yields-bind AreBytes _ (Yields-take_bytes pay_len) λ payload s.
              Yields-pure AreBytes _ FrameTyped (record {
                typ = omega arith;
                flags = g;
                from = f;
                to = h;
                payload = s.0;
                payload_len = omega (arith, s.1);
              })

all_read-eq : (buf : Bytes) (g f : Frame) (c : Cursor) → all_read buf (g, c) ≡ ok f → g ≡ f
unfolding all_read
all_read-eq buf g f c e = elim (Bool-cases (c.p == length buf)) [
  | inl t ↦ let e' = rw (t, all_read) at e in cc
  | inr n ↦ let e' = rw (n, all_read) at e in absurd (cc)
]

body-Typed : (b : Bytes) (f : Frame) → AreBytes b → body b ≡ ok f → FrameTyped f
unfolding body Cursor.new
body-Typed b f q e = elim (Result-cases (fields (Cursor.new b))) [
  | inr (x, r) ↦ let e' = rw (r, body) at e in absurd (cc)
  | inl ((g, c), r) ↦
      let same = all_read-eq b g f c (rw (r, body) at e) in
      subst FrameTyped same (Yields-fields.at (Cursor.new b) g c q r).0
]

-- Whatever bytes a message holds, a frame that is decoded from it is well typed.
pub decode-Typed : (b : Bytes) (f : Frame) → AreBytes b → decode b ≡ ok f → FrameTyped f
unfolding decode
decode-Typed b f q e = elim (Bool-cases (ltb (length b) 4)) [
  | inl t ↦ let e' = rw (t, decode) at e in absurd (cc)
  | inr n ↦
      let len = from_le_bytes (take 4 b) in
      elim (Bool-cases ((len + 4 == length b) && leb header len && leb len max_frame)) [
        | inl w ↦ body-Typed (drop 4 b) f (All-drop 4 b q) (rw (n, decode, w) at e)
        | inr w ↦ let e' = rw (n, decode, w) at e in absurd (cc)
      ]
]

read_exact-bytes :
    (n : ℕ) (s s' : Stream) (b : Bytes)
    → AreBytes s.bytes
    → read_exact n s ≡ ok (b, s')
    → AreBytes b × AreBytes s'.bytes
unfolding read_exact
read_exact-bytes n s s' b q e = elim (Bool-cases (leb n (length s.bytes))) [
  | inl t ↦
      let e' = rw (t, read_exact) at e in
      let same : take n s.bytes ≡ b = cc in
      let left : record s { bytes = drop n s.bytes } ≡ s' = cc in
      (
        subst AreBytes same (All-take n s.bytes q),
        subst (λ (r : Stream). AreBytes r.bytes) left (All-drop n s.bytes q),
      )
  | inr f ↦ let e' = rw (f, read_exact) at e in absurd (cc)
]

read_body-Typed :
    (n : ℕ) (s s' : Stream) (f : Frame)
    → AreBytes s.bytes
    → read_body n s ≡ ok (some f, s')
    → FrameTyped f × AreBytes s'.bytes
unfolding read_body
read_body-Typed n s s' f q e = elim (Bool-cases (ltb max_frame n || ltb n header)) [
  | inl t ↦ let e' = rw (t, read_body) at e in absurd (cc)
  | inr w ↦ elim (Result-cases (read_exact n s)) [
    | inr (x, r) ↦ let e' = rw (w, read_body, r) at e in absurd (cc)
    | inl ((b, t), r) ↦
        let (bs, left) = read_exact-bytes n s t b q r in
        elim (Result-cases (body b)) [
          | inr (x, g) ↦ let e' = rw (w, read_body, r, g) at e in absurd (cc)
          | inl (g, d) ↦
              let e' = rw (w, read_body, r, d) at e in
              let same : g ≡ f = cc in
              let stay : t ≡ s' = cc in
              (
                subst FrameTyped same (body-Typed b g bs d),
                subst (λ (r : Stream). AreBytes r.bytes) stay left,
              )
        ]
  ]
]

-- Whatever bytes arrive on a stream, a frame that is read from it is well typed: its type is a byte,
-- its flags are 16 bits, both names are UTF-8, and its payload is bytes whose number fits 32 bits. What
-- is left of the stream is bytes again.
pub read-Typed :
    (s s' : Stream) (f : Frame)
    → AreBytes s.bytes
    → read s ≡ ok (some f, s')
    → FrameTyped f × AreBytes s'.bytes
unfolding read
read-Typed s s' f q e = elim (Result-cases (read_exact 4 s)) [
  | inl ((b, t), r) ↦
      read_body-Typed (from_le_bytes b) t s' f ((read_exact-bytes 4 s t b q r).1)
        (rw (r, read) at e)
  | inr (x, r) ↦ elim (Bool-cases (is_eof x)) [
    | inl t ↦ let e' = rw (r, read, t) at e in absurd (cc)
    | inr n ↦ let e' = rw (r, read, n) at e in absurd (cc)
  ]
]
