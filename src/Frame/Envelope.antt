-- ===== src/Frame/Envelope.antt =====
-- The envelope of src/frame.rs: `Frame`, `encode`, and the decoders `body`, `decode` and `read`.
pub mod RoundTrip
pub mod Fits
pub mod Streams
pub mod Whole
pub mod Typed
use zapd.Prelude.{
  ℕ, ◌+◌, ◌*◌, ◌%◌, ◌^◌, Option, none, some, List, [], ◌∷◌, ◌++◌, Bool, ◌&&◌, ◌||◌, ltb, leb, ◌==◌,
  if◌then◌else◌, length, take, drop,
}
use zapd.Text.{Bytes, Str, lit}
use zapd.Io.{Error, ErrorKind, Result, ok, err, fail, invalid_data, unexpected_eof}
use zapd.Frame.LittleEndian.{to_le_bytes, from_le_bytes}
use zapd.Frame.Cursor
use zapd.Frame.Cursor.{Reader, Cursor, pure, ◌>>=◌}

-- Envelope types the router acts on.
abbrev pub hello : ℕ
hello = 1

abbrev pub welcome : ℕ
welcome = 2

abbrev pub providers_list : ℕ
providers_list = 3

abbrev pub providers : ℕ
providers = 4

abbrev pub peer_connected : ℕ
peer_connected = 5

abbrev pub peer_disconnected : ℕ
peer_disconnected = 6

abbrev pub error : ℕ
error = 7

abbrev pub auth : ℕ
auth = 8

-- Pass-through types.
abbrev pub route : ℕ
route = 16

abbrev pub response : ℕ
response = 17

abbrev pub event : ℕ
event = 18

-- Roles.
abbrev pub role_provider : ℕ
role_provider = 1

abbrev pub role_consumer : ℕ
role_consumer = 2

abbrev pub role_router : ℕ
role_router = 3

-- type + flags + from_len + to_len + payload_len
abbrev pub header : ℕ
header = 1 + 2 + 2 + 2 + 4

abbrev pub max_frame : ℕ
max_frame = 64 * 1024 * 1024

pub record Frame : Type 0 where
  pub typ : ℕ
  pub flags : ℕ
  pub from : Str
  pub to : Str
  pub payload : Bytes

abbrev pub new : ℕ → Str → Str → Bytes → Frame
new typ from to payload = record { typ = typ; flags = 0; from = from; to = to; payload = payload }

-- What follows the length prefix. The lengths are cut to their fields' widths (`as u16`, `as u32`).
unfoldable pub encode_body : Frame → Bytes
encode_body f =
    (f.typ ∷ [])
    ++ (to_le_bytes 2 f.flags
        ++ (to_le_bytes 2 (length f.from % 2 ^ 16)
            ++ (to_le_bytes 2 (length f.to % 2 ^ 16)
                ++ (to_le_bytes 4 (length f.payload % 2 ^ 32) ++ (f.from ++ (f.to ++ f.payload))))))

unfoldable pub encode : Frame → Bytes
unfolding encode_body
encode f =
    let body = header + length f.from + length f.to + length f.payload in
    to_le_bytes 4 (body % 2 ^ 32) ++ encode_body f

fields : Reader Frame
fields = do
  typ ← Cursor.u8
  flags ← Cursor.u16
  from_len ← Cursor.u16
  to_len ← Cursor.u16
  pay_len ← Cursor.u32
  from ← Cursor.string from_len
  to ← Cursor.string to_len
  payload ← Cursor.take_bytes pay_len
  pure (record { typ = typ; flags = flags; from = from; to = to; payload = payload })

-- `c.p != buf.len()`
all_read : Bytes → Frame × Cursor → Result Frame
all_read buf (f, c) =
    if c.p == length buf
    then ok f
    else fail invalid_data (lit "zapd: frame length disagrees with its fields")

unfoldable pub body : Bytes → Result Frame
unfolding fields all_read
body buf = elim (fields (Cursor.new buf)) [ ok r ↦ all_read buf r | err e ↦ err e ]

-- One whole frame with its length prefix: a WebSocket message.
unfoldable pub decode : Bytes → Result Frame
decode b =
    if ltb (length b) 4
    then fail invalid_data (lit "zapd: not one whole frame")
    else (let n = from_le_bytes (take 4 b) in
        if (n + 4 == length b) && leb header n && leb n max_frame
        then body (drop 4 b)
        else fail invalid_data (lit "zapd: not one whole frame"))

-- A byte stream (`AsyncRead`): the bytes that will still arrive, and how it ends, at its end of file
-- (`none`) or in an error of the transport.
pub record Stream : Type 0 where
  pub bytes : Bytes
  pub fault : Option Error

abbrev ended : Option Error → Error
ended none = record { kind = unexpected_eof; message = lit "early eof" }
ended (some e) = e

-- `AsyncReadExt::read_exact` into a buffer of `n` bytes.
unfoldable pub read_exact : ℕ → Stream → Result (Bytes × Stream)
read_exact n s =
    if leb n (length s.bytes)
    then ok (take n s.bytes, record s { bytes = drop n s.bytes })
    else err (ended s.fault)

abbrev is_eof : Error → Bool
is_eof e = elim e.kind [ ErrorKind.unexpected_eof ↦ Bool.true | _ ↦ Bool.false ]

-- The body of `len` bytes that a length prefix announces.
read_body : ℕ → Stream → Result (Option Frame × Stream)
read_body len s =
    if ltb max_frame len || ltb len header
    then fail invalid_data (lit "zapd: bad frame length")
    else (elim (read_exact len s) [
      | ok (buf, s') ↦ elim (body buf) [ ok f ↦ ok (some f, s') | err e ↦ err e ]
      | err e ↦ err e
    ])

-- One frame from the stream, `none` at its end.
unfoldable pub read : Stream → Result (Option Frame × Stream)
unfolding read_body
read s = elim (read_exact 4 s) [
  | ok (lenb, s') ↦ read_body (from_le_bytes lenb) s'
  | err e ↦ if is_eof e then ok (none, record s { bytes = [] }) else err e
]
