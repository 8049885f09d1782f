-- ===== src/Node/Session.antt =====
-- `session` of src/node.rs over the byte stream of its connection, and what `join` says first.
use zapd.Prelude.{
  ℕ, zero, suc, ◌≤◌, ◌<◌, ◌≡◌, refl, true, false, Option, none, some, List, [], ◌∷◌, ◌++◌, length,
  length-append, arith, inl, inr, All,
}
use zapd.Text.{Bytes, Str}
use zapd.Io.{Error, Result, ok, err, Result-cases}
use zapd.Frame.Envelope.{Frame, Stream, new, hello, encode, read, read_exact}
use zapd.Frame.Envelope.RoundTrip.{IsWellFormed, read-encode, length-encode}
use zapd.Frame.Envelope.Streams.{read-shorter}
use zapd.Frame.Control.{encode_hello}
use zapd.Node.{Inner, answered, Event, frame, dialed, run, step}

-- The HELLO of `join`, encoded once.
unfoldable pub join_hello : Str → ℕ → Str → List Str → Bytes
join_hello id role brand caps = encode (
    new hello id [] (encode_hello (record { role = role; brand = brand; caps = caps; attrs = [] })))

-- The `while let` of `session`.
unfoldable pub session_loop : ℕ → Stream → Inner → Option (Result (Unit {0}) × Inner)
session_loop zero rd s = none
session_loop (suc fuel) rd s = elim (read rd) [
  | ok (some f, rd') ↦ session_loop fuel rd' (answered f s)
  | ok (none, rd') ↦ some (ok tt, s)
  | err e ↦ some (err e, s)
]

aborted : Option (Result (Unit {0}) × Inner) → Option (Result (Unit {0}) × Inner)
aborted none = none
aborted (some (r, s)) = some (r, record s { writing = false })

-- `wrote` is the answer of the write of the hello. The writer runs until it is aborted; every frame
-- takes at least 15 bytes off the stream.
unfoldable pub session : Result (Unit {0}) → Stream → Inner → Option (Result (Unit {0}) × Inner)
unfolding session_loop aborted
session wrote rd s = elim wrote [
  | err e ↦ some (err e, s)
  | ok _ ↦ aborted (session_loop (suc (length rd.bytes)) rd (record s { writing = true }))
]

-- A stream that carries these frames and ends.
abbrev pub carrying : List Frame → Bytes
carrying [] = []
carrying (f ∷ fs) = encode f ++ carrying fs

abbrev pub closing : Bytes → Stream
closing b = record { bytes = b; fault = none }

abbrev pub frames : List Frame → List Event
frames [] = []
frames (f ∷ fs) = frame f ∷ frames fs

pub read_end : read (closing []) ≡ ok (none, closing [])
unfolding read read_exact
read_end = refl

pub loop-carrying :
    (fuel : ℕ) (fs : List Frame) (s : Inner)
    → All IsWellFormed fs
    → length fs < fuel
    → session_loop fuel (closing (carrying fs)) s ≡ some (ok tt, run (frames fs) s)
unfolding session_loop run step
loop-carrying zero fs s w h = absurd (omega arith)
loop-carrying (suc fuel) [] s w h = rw (read_end, session_loop) refl
loop-carrying (suc fuel) (f ∷ fs) s (p, w) h =
    rw (read-encode f (carrying fs) none p, session_loop)
      (loop-carrying fuel fs (answered f s) w (omega arith))

count-carrying : (fs : List Frame) → length fs ≤ length (carrying fs)
count-carrying [] = omega arith
count-carrying (f ∷ fs) =
    omega (arith, length-append (encode f) (carrying fs), length-encode f, count-carrying fs)

-- A session on a stream that carries well-formed frames, one after the other, and then ends, does what
-- the events of those frames do: no frame is lost, split or joined to another.
pub session-carrying :
    (fs : List Frame) (s : Inner)
    → All IsWellFormed fs
    → session (ok tt) (closing (carrying fs)) s
      ≡ some (ok tt, record (run (dialed ∷ frames fs) s) { writing = false })
unfolding session aborted run step
session-carrying fs s w =
    let n = suc (length (carrying fs)) in
    rw (loop-carrying n fs (record s { writing = true }) w (omega (arith, count-carrying fs))) refl

-- The frames that a stream carries up to its end or its first fault, and how it ends there.
pub data Carries : Stream → List Frame → Result (Unit {0}) → Type 0 where
  ends : (rd rd' : Stream) → read rd ≡ ok (none, rd') → Carries rd [] (ok tt)
  fails : (rd : Stream) (e : Error) → read rd ≡ err e → Carries rd [] (err e)
  next :
      (f : Frame) (rd rd' : Stream) {fs : List Frame} {r : Result (Unit {0})}
      → read rd ≡ ok (some f, rd')
      → Carries rd' fs r
      → Carries rd (f ∷ fs) r

-- What the loop comes to on any stream.
abbrev Ends : Stream → Inner → Option (Result (Unit {0}) × Inner) → Type 0
Ends rd s o =
    (fs : List Frame) × (r : Result (Unit {0})) × Carries rd fs r
    × (o ≡ some (r, run (frames fs) s))

loop-Ends :
    (fuel : ℕ) (rd : Stream) (s : Inner)
    → length rd.bytes < fuel
    → Ends rd s (session_loop fuel rd s)
unfolding session_loop run step
loop-Ends zero rd s h = absurd (omega arith)
loop-Ends (suc fuel) rd s h = elim (Result-cases (read rd)) [
  | inl ((some f, rd'), q) ↦
      let (fs, r, c, e) =
        loop-Ends fuel rd' (answered f s) (omega (arith, read-shorter rd rd' f q)) in
      (f ∷ fs, r, next f rd rd' q c, rw (q, session_loop) e)
  | inl ((none, rd'), q) ↦ ([], ok tt, ends rd rd' q, rw (q, session_loop) refl)
  | inr (x, q) ↦ ([], err x, fails rd x q, rw (q, session_loop) refl)
]

-- Whatever bytes arrive, a session ends: it takes each frame that the stream carries, in order, up to
-- the stream's end or first fault, does to the node what the events of those frames do, and returns that
-- fault, if there is one.
pub session_total :
    (rd : Stream) (s : Inner)
    → (fs : List Frame) × (r : Result (Unit {0})) × Carries rd fs r
      × (session (ok tt) rd s ≡ some (r, record (run (dialed ∷ frames fs) s) { writing = false }))
unfolding session aborted run step
session_total rd s =
    let (fs, r, c, e) =
      loop-Ends (suc (length rd.bytes)) rd (record s { writing = true }) (omega arith) in
    (fs, r, c, rw e refl)
