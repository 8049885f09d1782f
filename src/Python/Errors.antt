-- ===== src/Python/Errors.antt =====
-- What a `call` from Python raises where it has no answer.
use zapd.Prelude.{ℕ, ◌≡◌, ◌≢◌, refl, ap, ◌∙◌, true, none, some, [], ◌∷◌, ◌++◌, arith}
use zapd.Text.{Bytes, Str}
use zapd.Io.{ok}
use zapd.Frame.Envelope.{encode}
use zapd.Frame.Envelope.RoundTrip.{IsWellFormed}
use zapd.Router.{State, route_frame}
use zapd.Router.Send.{reach}
use zapd.Router.Relay.{forward_no_route}
use zapd.Node.{Inner, answered, ask, dropped}
use zapd.Node.Refused.{refusal, refused, lost}
use zapd.Node.Wire.{routed, heard, routed-encode, heard-encode}
use zapd.Node.Asks.{call_frame, call_end, ask-up}
use zapd.Python.{timeout_error, lookup_error, connection_error, raises, class_of, map_err, call}

-- A `call` from Python, by a node that is up, of a node that is not on the router, where the request and
-- the router's refusal each fit a frame: the request is written; the router reads it and queues the
-- refusal on the caller's own channel; the caller reads that, and `call` raises LookupError. Where the
-- connection drops instead, it raises ConnectionError, and where no answer comes in time, TimeoutError.
pub call_raises :
    (me to : Str) (payload : Bytes) (c : ℕ) (s : State) (n : Inner)
    → to ≢ []
    → reach me s ≡ some c
    → reach to s ≡ none
    → n.tx ≡ true
    → n.writing ≡ true
    → IsWellFormed (call_frame to payload)
    → IsWellFormed (refusal me to)
    → ((ask (call_frame to payload) to n).sent ≡ n.sent ++ (encode (call_frame to payload) ∷ []))
      × ((t : State) × (routed me (encode (call_frame to payload)) s ≡ some (ok tt, t))
          × (t.queue c ≡ s.queue c ++ (encode (refusal me to) ∷ [])))
      × ((m : Inner) × (heard (encode (refusal me to)) (ask (call_frame to payload) to n)
            ≡ some (ok tt, m))
          × (call to (m.replies n.next_call) ≡ raises lookup_error))
      × (call to ((dropped (ask (call_frame to payload) to n)).replies n.next_call)
          ≡ raises connection_error)
      × (call to none ≡ raises timeout_error)
unfolding call_frame call call_end map_err class_of
call_raises me to payload c s n ht rm rt t w wq wr =
    let f = call_frame to payload in
    let up = ask-up f to n t w in
    (
      ap (λ (n : Inner). n.sent) up,
      (
        route_frame me f s,
        routed-encode me f s wq,
        forward_no_route me f s ht c rt ∙ rw rm (ground arith),
      ),
      (
        answered (refusal me to) (ask f to n),
        heard-encode (refusal me to) (ask f to n) wr,
        ap (λ m. call to ((answered (refusal me to) m).replies n.next_call)) up
            ∙ ap (call to) (refused me to f n wq.to_utf8),
      ),
      ap (λ m. call to ((dropped m).replies n.next_call)) up ∙ ap (call to) (lost to f n),
      refl,
    )
