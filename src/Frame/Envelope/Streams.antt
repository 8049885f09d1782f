-- ===== src/Frame/Envelope/Streams.antt =====
-- `read` on any stream.
use zapd.Prelude.{
  ℕ, ◌+◌, ◌≤◌, ◌<◌, ◌≡◌, ◌≢◌, ◌↔◌, none, some, [], arith, length, take, drop, length-drop, inl, inr,
}
use zapd.Text.{Bytes}
use zapd.Io.{ok, Result-cases}
use zapd.Frame.LittleEndian.{from_le_bytes}
use zapd.Frame.Envelope.{Frame, Stream, header, max_frame, read_exact, read_body, read}

read_exact-shorter :
    (n : ℕ) (s t : Stream) (b : Bytes)
    → read_exact n s ≡ ok (b, t)
    → (length t.bytes + n ≡ length s.bytes) × (t.fault ≡ s.fault)
unfolding read_exact
read_exact-shorter n s t b e = ground (arith, length-drop n s.bytes)

read_body-shorter :
    (n : ℕ) (s t : Stream) (f : Frame)
    → read_body n s ≡ ok (some f, t)
    → (header ≤ n) × (n ≤ max_frame) × (length t.bytes + n ≡ length s.bytes) × (t.fault ≡ s.fault)
unfolding read_body
read_body-shorter n s t f e = elim (Result-cases (read_exact n s)) [
  | inl ((b, u), r) ↦ ground (arith, read_exact-shorter n s u b r)
  | inr (x, r) ↦ absurd (ground arith)
]

read_body-ne-none : (n : ℕ) (s t : Stream) → read_body n s ≢ ok (none, t)
unfolding read_body
read_body-ne-none n s t e = ground arith

-- A frame that `read` returns took its prefix and a body within the bounds off the stream.
pub read-shorter :
    (s t : Stream) (f : Frame)
    → read s ≡ ok (some f, t)
    → (length t.bytes + header + 4 ≤ length s.bytes)
      × (length s.bytes ≤ length t.bytes + max_frame + 4)
      × (t.fault ≡ s.fault)
unfolding read
read-shorter s t f e = elim (Result-cases (read_exact 4 s)) [
  | inl ((b, u), r) ↦
      ground (arith, read_exact-shorter 4 s u b r, read_body-shorter (from_le_bytes b) u t f)
  | inr (x, r) ↦ absurd (ground arith)
]

-- `none` comes exactly where fewer than four bytes are left before an end of file: none at all, or
-- a cut length prefix.
pub read-eq_none :
    (s : Stream)
    → s.fault ≡ none
    → ((length s.bytes < 4) ↔ ((t : Stream) × (read s ≡ ok (none, t))))
unfolding read read_exact
read-eq_none s eof = (
  λ h. (record s { bytes = [] }, ground arith),
  λ (t, e). ground (
    arith,
    read_body-ne-none (from_le_bytes (take 4 s.bytes)) (record s { bytes = drop 4 s.bytes }) t,
  ),
)
