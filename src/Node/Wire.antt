-- ===== src/Node/Wire.antt =====
-- One message on its way: what the loop of src/router.rs does with the bytes that a node wrote, and what
-- the loop of `session` in src/node.rs does with those that the router queued for it.
use zapd.Prelude.{
  ℕ, zero, suc, ◌<◌, ◌≡◌, refl, Option, none, some, [], ◌∷◌, ◌++◌, append-nil, length,
  length-append, arith, subst,
}
use zapd.Text.{Bytes, Str}
use zapd.Text.Utf8.{is_utf8}
use zapd.Io.{Result, ok}
use zapd.Frame.Envelope.{Frame, encode, read, new}
use zapd.Frame.Envelope.RoundTrip.{IsWellFormed, read-encode, length-encode}
use zapd.Router.{State, route_loop, route_frame}
use zapd.Node.{Inner, answered, run, step}
use zapd.Node.Session.{session_loop, closing, read_end, loop-carrying}

-- `route_loop` of the connection `id`, on a stream of these bytes.
abbrev pub routed : Str → Bytes → State → Option (Result (Unit {0}) × State)
routed id bytes s = route_loop (suc (length bytes)) (closing bytes) id s

-- The loop of `session`, on a stream of these bytes.
abbrev pub heard : Bytes → Inner → Option (Result (Unit {0}) × Inner)
heard bytes n = session_loop (suc (length bytes)) (closing bytes) n

pub read-message :
    (f : Frame) → IsWellFormed f → read (closing (encode f)) ≡ ok (some f, closing [])
read-message f w =
    subst (λ b. read (closing b) ≡ ok (some f, closing [])) (append-nil (encode f))
      (read-encode f [] none w)

routed_end :
    (fuel : ℕ) (id : Str) (s : State)
    → 0 < fuel
    → route_loop fuel (closing []) id s ≡ some (ok tt, s)
unfolding route_loop
routed_end zero id s h = absurd (omega arith)
routed_end (suc fuel) id s h = rw (read_end, route_loop) refl

pub routed-encode :
    (id : Str) (f : Frame) (s : State)
    → IsWellFormed f
    → routed id (encode f) s ≡ some (ok tt, route_frame id f s)
unfolding route_loop
routed-encode id f s w =
    rw (read-message f w, route_loop)
      (routed_end (length (encode f)) id (route_frame id f s) (omega (arith, length-encode f)))

-- For one frame, `carrying` is its bytes alone.
pub heard-encode :
    (f : Frame) (n : Inner) → IsWellFormed f → heard (encode f) n ≡ some (ok tt, answered f n)
unfolding run step
heard-encode f n w =
    subst (λ b. heard b n ≡ some (ok tt, answered f n)) (append-nil (encode f))
      (loop-carrying (suc (length (encode f ++ []))) (f ∷ []) n (w, tt)
        (omega (arith, length-append (encode f) [], length-encode f)))

-- The name that is stamped on a frame only adds to its length.
pub unstamped :
    (typ : ℕ) (id to : Str) (payload : Bytes)
    → IsWellFormed (new typ id to payload)
    → IsWellFormed (new typ [] to payload)
unfolding is_utf8
unstamped typ id to payload w = record {
  flags_fit = w.flags_fit;
  from_short = omega arith;
  from_utf8 = refl;
  to_short = w.to_short;
  to_utf8 = w.to_utf8;
  small = omega (arith, w.small);
}
