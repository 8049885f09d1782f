-- ===== src/Frame/Envelope/RoundTrip.antt =====
-- What `encode` writes is what `decode` and `read` take back.
use zapd.Prelude.{
  ℕ, ◌+◌, ◌%◌, ◌^◌, ◌≤◌, ◌<◌, ◌≡◌, refl, Option, some, [], ◌∷◌, ◌++◌, append_assoc, arith, length,
  length-append, take, drop, take-append, drop-append,
}
use zapd.Text.{Bytes}
use zapd.Text.Utf8.{IsUtf8}
use zapd.Io.{Error, ok}
use zapd.Frame.LittleEndian.{to_le_bytes, from_le_bytes, length-to_le_bytes, from_to_le_bytes_32}
use zapd.Frame.Cursor
use zapd.Frame.Cursor.{Reader, Cursor, pure, ◌>>=◌}
use zapd.Frame.Cursor.Reads.{
  advance, Reads, Reads-bind, Reads-take_bytes, Reads-u8, Reads-u16, Reads-u32, Reads-string,
  Reads-last, Reads-whole,
}
use zapd.Frame.Envelope.{
  Frame, header, max_frame, encode_body, encode, fields, all_read, body, decode, read_exact,
  read_body, read,
}

-- A frame whose fields fit the wire: ids of less than 2 ^ 16 bytes of UTF-8, and a body of at most
-- `max_frame` bytes.
pub record IsWellFormed (f : Frame) : Type 0 where
  pub flags_fit : f.flags < 2 ^ 16
  pub from_short : length f.from < 2 ^ 16
  pub from_utf8 : IsUtf8 f.from
  pub to_short : length f.to < 2 ^ 16
  pub to_utf8 : IsUtf8 f.to
  pub small : header + length f.from + length f.to + length f.payload ≤ max_frame

pub size : Frame → ℕ
size f = header + length f.from + length f.to + length f.payload

pub length-encode_body : (f : Frame) → length (encode_body f) ≡ size f
unfolding encode_body size
length-encode_body f = simp (length-append, length-to_le_bytes) (omega arith)

pub length-encode : (f : Frame) → length (encode f) ≡ 4 + size f
unfolding encode size
length-encode f = simp (length-append, length-to_le_bytes) (omega (arith, length-encode_body f))

mod-eq : (n k : ℕ) → n < k → n % k ≡ n
mod-eq n k h = grind arith

all_read_whole :
    (buf : Bytes) (f : Frame) → all_read buf (f, advance (length buf) (Cursor.new buf)) ≡ ok f
unfolding all_read Cursor.new
all_read_whole buf f = ground arith

module _ (f : Frame) (h : IsWellFormed f) where
  from_len : length f.from % 2 ^ 16 ≡ length f.from
  from_len = mod-eq _ _ h.from_short

  to_len : length f.to % 2 ^ 16 ≡ length f.to
  to_len = mod-eq _ _ h.to_short

  payload_fits : length f.payload < 2 ^ 32
  payload_fits = omega (arith, h.small)

  pay_len : length f.payload % 2 ^ 32 ≡ length f.payload
  pay_len = mod-eq _ _ payload_fits

  Reads-fields : Reads fields (encode_body f) f
  unfolding fields encode_body
  Reads-fields =
      rw (from_len, to_len, pay_len)
        (Reads-bind _ {s = f.typ ∷ []} (Reads-u8 f.typ) (
          Reads-bind _ (Reads-u16 f.flags h.flags_fit) (
            Reads-bind _ (Reads-u16 _ h.from_short) (
              Reads-bind _ (Reads-u16 _ h.to_short) (
                Reads-bind _ (Reads-u32 _ payload_fits) (
                  Reads-bind _ (Reads-string f.from h.from_utf8) (
                    Reads-bind _ (Reads-string f.to h.to_utf8)
                      (Reads-last _ (Reads-take_bytes f.payload)))))))))

  body-encode_body : body (encode_body f) ≡ ok f
  unfolding body
  body-encode_body = rw (Reads-whole Reads-fields, body) (all_read_whole (encode_body f) f)

-- The length prefix in front of anything else.
abbrev prefixed : ℕ → Bytes → Bytes
prefixed n t = to_le_bytes 4 n ++ t

take-prefixed : (n : ℕ) (t : Bytes) → take 4 (prefixed n t) ≡ to_le_bytes 4 n
unfolding to_le_bytes
take-prefixed n t = refl

drop-prefixed : (n : ℕ) (t : Bytes) → drop 4 (prefixed n t) ≡ t
unfolding to_le_bytes
drop-prefixed n t = refl

length-prefixed : (n : ℕ) (t : Bytes) → length (prefixed n t) ≡ 4 + length t
length-prefixed n t = simp (length-append, length-to_le_bytes)

encode-eq : (f : Frame) → IsWellFormed f → encode f ≡ prefixed (size f) (encode_body f)
unfolding encode size
encode-eq f h = rw (mod-eq (size f) (2 ^ 32) (omega (arith, h.small)))

size_bounds : (f : Frame) → IsWellFormed f → (header ≤ size f) × (size f ≤ max_frame)
unfolding size
size_bounds f h = (omega arith, h.small)

prefix-eq : (f : Frame) → IsWellFormed f → from_le_bytes (to_le_bytes 4 (size f)) ≡ size f
prefix-eq f h = from_to_le_bytes_32 (size f) (omega (arith, size_bounds f h))

-- A well-formed frame survives `encode` and `decode`.
pub decode-encode : (f : Frame) → IsWellFormed f → decode (encode f) ≡ ok f
unfolding decode
decode-encode f h =
    rw (encode-eq f h, take-prefixed, drop-prefixed, length-prefixed, prefix-eq f h) ground
      (arith, size_bounds f h, length-encode_body f, body-encode_body f h)

read_exact-append :
    (s rest : Bytes) (fault : Option Error) (n : ℕ)
    → length s ≡ n
    → read_exact n (record { bytes = s ++ rest; fault = fault })
      ≡ ok (s, record { bytes = rest; fault = fault })
unfolding read_exact
read_exact-append s rest fault n e =
    rw (← e, take-append, drop-append, length-append) (ground arith)

read_body-encode_body :
    (f : Frame) (rest : Bytes) (fault : Option Error)
    → IsWellFormed f
    → read_body (size f) (record { bytes = encode_body f ++ rest; fault = fault })
      ≡ ok (some f, record { bytes = rest; fault = fault })
unfolding read_body
read_body-encode_body f rest fault h = ground (
  arith,
  read_exact-append (encode_body f) rest fault (size f) (length-encode_body f),
  body-encode_body f h,
  size_bounds f h,
)

-- `read` takes exactly the frame at the head of the stream and leaves the bytes behind it.
pub read-encode :
    (f : Frame) (rest : Bytes) (fault : Option Error)
    → IsWellFormed f
    → read (record { bytes = encode f ++ rest; fault = fault })
      ≡ ok (some f, record { bytes = rest; fault = fault })
unfolding read
read-encode f rest fault h =
    rw (encode-eq f h, append_assoc)
      (ground (
        arith,
        read_exact-append (to_le_bytes 4 (size f)) (encode_body f ++ rest) fault 4
            (length-to_le_bytes 4 (size f)),
        prefix-eq f h,
        read_body-encode_body f rest fault h,
      ))
