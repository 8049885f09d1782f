-- ===== src/Frame/Tests.antt =====
-- Runs of src/frame.rs, and the theorems at concrete inputs.
use zapd.Frame.Envelope.Fits.{fits, fits-IsWellFormed}
use native.Mathlib.Nat.{suc-mul}
use zapd.Prelude.{
  ℕ, zero, suc, ◌≤◌, ◌≢◌, ◌^◌, ◌*◌, All-append, length, length-append, ◌<◌, ◌≡◌, ◌↔◌, refl, none,
  some, [], ◌∷◌, ◌++◌, arith,
}
use zapd.Text.{Bytes, Str, IsByte, lit}
use zapd.Text.Utf8.{is_utf8, from_utf8_lossy}
use zapd.Io.{ok}
use zapd.Frame.LittleEndian.{to_le_bytes}
use zapd.Frame.Envelope.{Frame, Stream, new, encode, decode, read, route}
use zapd.Frame.Envelope.RoundTrip.{IsWellFormed, decode-encode, read-encode}
use zapd.Frame.Envelope.Streams.{read-eq_none}
use zapd.Frame.Cursor.Yields.{AreBytes}
use zapd.Frame.Envelope.Typed.{FrameTyped, read-Typed}
use zapd.Frame.Control.Wrap.{IsAscii, decode_hello-encode_hello_long}
use zapd.Frame.Control.{put_str, Descriptor, encode_hello, decode_hello, decode_brand_filter}
use zapd.Frame.Control.RoundTrip.{decode_brand_filter-put_str}

abbrev sample : Frame
sample = new route (lit "consumer:mcp/1") (lit "browser:chrome/dbc/default") (0 ∷ 1 ∷ 2 ∷ [])

sample-IsWellFormed : IsWellFormed sample
unfolding fits is_utf8
sample-IsWellFormed = fits-IsWellFormed sample refl

decode-encode_example : decode (encode sample) ≡ ok sample
decode-encode_example = decode-encode sample sample-IsWellFormed

abbrev then_two : Stream
then_two = record { bytes = encode sample ++ (7 ∷ 8 ∷ []); fault = none }

abbrev two_left : Stream
two_left = record { bytes = 7 ∷ 8 ∷ []; fault = none }

read-encode_example : read then_two ≡ ok (some sample, two_left)
read-encode_example = read-encode sample (7 ∷ 8 ∷ []) none sample-IsWellFormed

-- Two bytes of a length prefix are taken for the end.
read-eq_none_example : (2 < 4) ↔ ((t : Stream) × (read two_left ≡ ok (none, t)))
read-eq_none_example = read-eq_none two_left refl

empty_filter :
    (decode_brand_filter (put_str [] (lit "hanzo")) ≡ lit "hanzo") × (decode_brand_filter [] ≡ [])
unfolding is_utf8
empty_filter =
    decode_brand_filter-put_str (lit "hanzo") (record { short = omega arith; utf8 = refl })

-- A cut character, an overlong form and a surrogate each become U+FFFD, by Rust's rules.
lossy :
    (from_utf8_lossy (0x61 ∷ 0xE2 ∷ 0x82 ∷ []) ≡ 0x61 ∷ 0xEF ∷ 0xBF ∷ 0xBD ∷ [])
    × (from_utf8_lossy (0xC0 ∷ 0x62 ∷ []) ≡ 0xEF ∷ 0xBF ∷ 0xBD ∷ 0x62 ∷ [])
    × (from_utf8_lossy (0xC3 ∷ 0xA9 ∷ []) ≡ 0xC3 ∷ 0xA9 ∷ [])
unfolding from_utf8_lossy
lossy = (refl, refl, refl)

sample_bytes : AreBytes (encode sample)
unfolding encode to_le_bytes
sample_bytes = omega arith

read-Typed_example : FrameTyped sample × AreBytes two_left.bytes
read-Typed_example =
    read-Typed then_two two_left sample
      (All-append IsByte (encode sample) (7 ∷ 8 ∷ []) sample_bytes (omega arith))
      read-encode_example

repeat : ℕ → Bytes → Bytes
repeat zero s = []
repeat (suc n) s = s ++ repeat n s

abbrev letters : ℕ → Bytes
letters zero = b'x' ∷ []
letters (suc n) = repeat 16 (letters n)

-- 65,536 letters.
abbrev long_brand : Str
long_brand = letters 4

abbrev long : Descriptor
long = record { role = 1; brand = long_brand; caps = []; attrs = [] }

length-repeat : (n : ℕ) (s : Bytes) → length (repeat n s) ≡ n * length s
unfolding repeat
length-repeat zero s = omega arith
length-repeat (suc n) s =
    omega (arith, length-append s (repeat n s), length-repeat n s, suc-mul n (length s))

repeat-IsAscii : (n : ℕ) (s : Bytes) → IsAscii s → IsAscii (repeat n s)
unfolding repeat
repeat-IsAscii zero s h = tt
repeat-IsAscii (suc n) s h = All-append (λ b. b < 0x80) s (repeat n s) h (repeat-IsAscii n s h)

letters-IsAscii : (n : ℕ) → IsAscii (letters n)
letters-IsAscii zero = omega arith
letters-IsAscii (suc n) = repeat-IsAscii 16 (letters n) (letters-IsAscii n)

long-length : 2 ^ 16 ≤ length long_brand
long-length = omega (
  arith,
  length-repeat 16 (letters 0),
  length-repeat 16 (letters 1),
  length-repeat 16 (letters 2),
  length-repeat 16 (letters 3),
)

decode_hello-encode_hello_long_example : decode_hello (encode_hello long) ≢ ok long
decode_hello-encode_hello_long_example =
    decode_hello-encode_hello_long long long-length (letters-IsAscii 4)
