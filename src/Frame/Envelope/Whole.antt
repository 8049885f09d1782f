-- ===== src/Frame/Envelope/Whole.antt =====
-- `decode`, which takes one whole frame, and `read`, which takes a frame off a stream, agree.
use zapd.Prelude.{
  ℕ, zero, suc, ◌+◌, ◌≤◌, ◌≡◌, inl, inr, refl, true, false, ◌&&◌, Option, some, [], ◌∷◌, ◌++◌,
  arith, ap, sym, ◌∙◌, append-nil, ◌||◌, ◌==◌, ltb, leb, length, take, drop, length-append,
  length-drop, take-append, drop-append, Bool-cases,
}
use zapd.Text.{Bytes}
use zapd.Io.{Error, ok}
use zapd.Frame.LittleEndian.{from_le_bytes}
use zapd.Frame.Envelope.{Frame, header, max_frame, body, decode, read, read_exact, read_body}

take_front : (n : ℕ) (a b : Bytes) → n ≤ length a → take n (a ++ b) ≡ take n a
take_front zero a b h = refl
take_front (suc n) [] b h = absurd (omega arith)
take_front (suc n) (x ∷ a) b h = ap (λ t. x ∷ t) (take_front n a b (omega arith))

drop_front : (n : ℕ) (a b : Bytes) → n ≤ length a → drop n (a ++ b) ≡ drop n a ++ b
drop_front zero a b h = refl
drop_front (suc n) [] b h = absurd (omega arith)
drop_front (suc n) (x ∷ a) b h = drop_front n a b (omega arith)

abbrev prefix : Bytes → ℕ
prefix b = from_le_bytes (take 4 b)

-- What `decode` asks of a message.
decode_inv :
    (b : Bytes) (f : Frame)
    → decode b ≡ ok f
    → (prefix b + 4 ≡ length b)
      × (header ≤ prefix b)
      × (prefix b ≤ max_frame)
      × (body (drop 4 b) ≡ ok f)
unfolding decode
decode_inv b f e = elim (Bool-cases (ltb (length b) 4)) [
  | inl s ↦ let e' = rw (s, decode) at e in absurd (cc)
  | inr l ↦
      elim (Bool-cases
        ((prefix b + 4 == length b) && leb header (prefix b) && leb (prefix b) max_frame)) [
          | inl t ↦
              let e' = rw (l, decode, t) at e in (ground arith, ground arith, ground arith, e')
          | inr n ↦ let e' = rw (l, decode, n) at e in absurd (cc)
        ]
]

read_exact_front :
    (n : ℕ) (a b : Bytes) (fault : Option Error)
    → n ≤ length a
    → read_exact n (record { bytes = a ++ b; fault = fault })
      ≡ ok (take n a, record { bytes = drop n a ++ b; fault = fault })
unfolding read_exact
read_exact_front n a b fault h =
    let fits : leb n (length (a ++ b)) ≡ true = ground (arith, length-append a b) in
    rw (fits, read_exact, take_front n a b h, drop_front n a b h) refl

read_body_front :
    (a b : Bytes) (fault : Option Error) (f : Frame)
    → header ≤ length a
    → length a ≤ max_frame
    → body a ≡ ok f
    → read_body (length a) (record { bytes = a ++ b; fault = fault })
      ≡ ok (some f, record { bytes = b; fault = fault })
unfolding read_body
read_body_front a b fault f lo hi q =
    let bounds : (ltb max_frame (length a) || ltb (length a) header) ≡ false = ground arith in
    let whole : take (length a) a ≡ a =
      ap (take (length a)) (sym (append-nil a)) ∙ take-append a [] in
    let done : drop (length a) a ≡ [] =
      ap (drop (length a)) (sym (append-nil a)) ∙ drop-append a [] in
    rw (bounds, read_body, read_exact_front (length a) a b fault (omega arith), whole, q, done) refl

-- A message that `decode` takes for a frame is read off a stream that begins with it as that frame,
-- whatever follows, and what follows is left.
pub read-decode :
    (b more : Bytes) (fault : Option Error) (f : Frame)
    → decode b ≡ ok f
    → read (record { bytes = b ++ more; fault = fault })
      ≡ ok (some f, record { bytes = more; fault = fault })
unfolding read
read-decode b more fault f e =
    let (n, lo, hi, q) = decode_inv b f e in
    let len : length (drop 4 b) ≡ prefix b = omega (arith, length-drop 4 b) in
    rw
      (
        read_exact_front 4 b more fault (omega arith),
        read,
        ← len,
        read_body_front (drop 4 b) more fault f (omega arith) (omega arith) q,
      )
      refl
