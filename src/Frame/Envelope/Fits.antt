-- ===== src/Frame/Envelope/Fits.antt =====
-- Whether a frame of src/frame.rs fits the wire, as a test.
use zapd.Prelude.{◌+◌, ◌^◌, ◌≡◌, Bool, true, ◌&&◌, length, ltb, leb, arith}
use zapd.Text.Utf8.{is_utf8}
use zapd.Frame.Envelope.{Frame, header, max_frame}
use zapd.Frame.Envelope.RoundTrip.{IsWellFormed}

unfoldable pub fits : Frame → Bool
fits f =
    ltb f.flags (2 ^ 16)
    && ltb (length f.from) (2 ^ 16)
    && is_utf8 f.from
    && ltb (length f.to) (2 ^ 16)
    && is_utf8 f.to
    && leb (header + length f.from + length f.to + length f.payload) max_frame

pub fits-IsWellFormed : (f : Frame) → fits f ≡ true → IsWellFormed f
unfolding fits
fits-IsWellFormed f h = record {
  flags_fit = ground arith;
  from_short = ground arith;
  from_utf8 = ground arith;
  to_short = ground arith;
  to_utf8 = ground arith;
  small = ground arith;
}
