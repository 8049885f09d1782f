-- ===== src/Node/Asks.antt =====
-- `call` and `nodes` of src/node.rs: what they ask, and what they return. A timeout shows in the
-- answer that has not come.
use zapd.Frame.Envelope.Fits.{fits, fits-IsWellFormed}
use zapd.Prelude.{
  ℕ, ◌^◌, ◌<◌, ◌≡◌, ◌≢◌, refl, ap, ◌∙◌, true, Option, none, some, List, [], ◌∷◌, ◌++◌, length,
  arith, All, update_self,
}
use zapd.Text.{Bytes, Str, lit}
use zapd.Text.Equal.{str_eq}
use zapd.Io.{Result, ok, err, fail, timed_out}
use zapd.Frame.Envelope.{Frame, new, encode, read, route, response, providers_list, providers}
use zapd.Frame.Envelope.RoundTrip.{IsWellFormed}
use zapd.Text.Utf8.{is_utf8}
use zapd.Frame.Control.{Entry, decode_providers, encode_providers, decode_brand_filter}
use zapd.Frame.Control.RoundTrip.{EntryFits, decode_providers-encode_providers}
use zapd.Router.{State, route_frame, router_name, list}
use zapd.Router.Send.{reach, queue-send_to, reach-OnlyQueues}
use zapd.Router.Relay.{forward_delivers, route_frame-OnlyQueues}
use zapd.Node.Replies.{asked, answered-response}
use zapd.Node.Session.{closing}
use zapd.Node.Wire.{routed, heard, read-message, routed-encode, heard-encode, unstamped}
use zapd.Node.{Inner, answered, ask, zapd_name, settle}

unfoldable pub call_frame : Str → Bytes → Frame
call_frame to payload = new route [] to payload

unfoldable pub nodes_frame : Frame
nodes_frame = new providers_list [] [] []

-- `none`: no answer when the time is over.
unfoldable pub call_end : Str → Option (Result Frame) → Result Bytes
call_end to none = fail timed_out (lit "zapd: " ++ (to ++ lit " did not answer"))
call_end to (some (ok f)) = ok f.payload
call_end to (some (err e)) = err e

unfoldable pub nodes_end : Option (Result Frame) → Result (List Entry)
nodes_end none = fail timed_out (lit "zapd: no router on this machine")
nodes_end (some (ok f)) = decode_providers f.payload
nodes_end (some (err e)) = err e

abbrev pub listing : Str → State → Frame
listing id s = new providers router_name id (encode_providers (list [] s))

listed :
    (id : Str) (c : ℕ) (s : State)
    → reach id s ≡ some c
    → (route_frame id nodes_frame s).queue c ≡ s.queue c ++ (encode (listing id s) ∷ [])
unfolding route_frame nodes_frame decode_brand_filter
listed id c s e = rw (queue-send_to id (encode (listing id s)) s c, e) (ground arith)

pub ask-up :
    (f : Frame) (who : Str) (n : Inner)
    → n.tx ≡ true
    → n.writing ≡ true
    → ask f who n ≡ asked f who n
unfolding ask
ask-up f who n t w = rw (t, w) refl

settled :
    (n : Inner) (id : Str) (s : State)
    → (answered (listing id s) (asked nodes_frame zapd_name n)).replies n.next_call
      ≡ some (ok (listing id s))
unfolding answered settle str_eq
settled n id s = update_self n.replies n.next_call (some (ok (listing id s)))

nodes_frame-IsWellFormed : IsWellFormed nodes_frame
unfolding fits nodes_frame is_utf8
nodes_frame-IsWellFormed = fits-IsWellFormed nodes_frame refl

-- `nodes` from end to end, over the bytes: where the node is up and can be reached, it writes its
-- request; the router reads it and queues its answer on the node's own channel; and the node reads that
-- answer, which makes `nodes` return what the registry lists, as long as the entries and their count fit
-- their fields and the whole answer a frame.
pub nodes-list :
    (id : Str) (c : ℕ) (s : State) (n : Inner)
    → reach id s ≡ some c
    → n.tx ≡ true
    → n.writing ≡ true
    → length (list [] s) < 2 ^ 16
    → All EntryFits (list [] s)
    → IsWellFormed (listing id s)
    → ((ask nodes_frame zapd_name n).sent ≡ n.sent ++ (encode nodes_frame ∷ []))
      × ((t : State) × (routed id (encode nodes_frame) s ≡ some (ok tt, t))
          × (t.queue c ≡ s.queue c ++ (encode (listing id s) ∷ [])))
      × ((m : Inner) × (heard (encode (listing id s)) (ask nodes_frame zapd_name n)
            ≡ some (ok tt, m))
          × (nodes_end (m.replies n.next_call) ≡ ok (list [] s)))
unfolding nodes_end
nodes-list id c s n r t w short fit small =
    let a = ask-up nodes_frame zapd_name n t w in
    (
      ap (λ (n : Inner). n.sent) a,
      (
        route_frame id nodes_frame s,
        routed-encode id nodes_frame s nodes_frame-IsWellFormed,
        listed id c s r,
      ),
      (
        answered (listing id s) (ask nodes_frame zapd_name n),
        heard-encode (listing id s) (ask nodes_frame zapd_name n) small,
        ap (λ m. nodes_end ((answered (listing id s) m).replies n.next_call)) a
            ∙ ap nodes_end (settled n id s)
            ∙ decode_providers-encode_providers (list [] s) short fit,
      ),
    )

delivered :
    (id : Str) (f : Frame) (s : State) (c : ℕ)
    → f.to ≢ []
    → reach f.to s ≡ some c
    → (route_frame id f s).queue c ≡ s.queue c ++ (encode (record f { from = id }) ∷ [])
delivered id f s c h e = forward_delivers id f s h c c e ∙ ground arith

-- `call` from end to end, over the bytes: where both nodes have a name and can be reached, the caller is
-- up, and the request in the caller's name and the response, as the callee writes it and in the callee's
-- name, each fit a frame: the caller writes its request; the router reads it, and the callee reads it from
-- its queue in the caller's registered name; whatever name the callee puts on its response, the router
-- queues it for the caller in the callee's; and the caller reads it, which makes `call` return its payload.
pub call-response :
    (me to name : Str) (payload reply : Bytes) (c d : ℕ) (s : State) (n : Inner)
    → me ≢ []
    → to ≢ []
    → reach me s ≡ some c
    → reach to s ≡ some d
    → n.tx ≡ true
    → n.writing ≡ true
    → IsWellFormed (new route me to payload)
    → IsWellFormed (new response name me reply)
    → IsWellFormed (new response to me reply)
    → ((ask (call_frame to payload) to n).sent ≡ n.sent ++ (encode (call_frame to payload) ∷ []))
      × ((t : State) × (u : State) × (routed me (encode (call_frame to payload)) s
            ≡ some (ok tt, t))
          × (t.queue d ≡ s.queue d ++ (encode (new route me to payload) ∷ []))
          × (read (closing (encode (new route me to payload)))
              ≡ ok (some (new route me to payload), closing []))
          × (routed to (encode (new response name me reply)) t ≡ some (ok tt, u))
          × (u.queue c ≡ t.queue c ++ (encode (new response to me reply) ∷ [])))
      × ((m : Inner) × (heard (encode (new response to me reply)) (ask (call_frame to payload) to n)
            ≡ some (ok tt, m))
          × (call_end to (m.replies n.next_call) ≡ ok reply))
unfolding call_frame call_end
call-response me to name payload reply c d s n hm ht rm rt t w wq wn wr =
    let request = call_frame to payload in
    let named = new response name me reply in
    let answer = new response to me reply in
    let a = ask-up request to n t w in
    let s' : State = route_frame me request s in
    let rm' = reach-OnlyQueues me (route_frame-OnlyQueues me request s) ∙ rm in
    (
      ap (λ (n : Inner). n.sent) a,
      (
        s',
        route_frame to named s',
        routed-encode me request s (unstamped route me to payload wq),
        delivered me request s d ht rt,
        read-message (new route me to payload) wq,
        routed-encode to named s' wn,
        delivered to named s' c hm rm',
      ),
      (
        answered answer (ask request to n),
        heard-encode answer (ask request to n) wr,
        ap (λ m. call_end to ((answered answer m).replies n.next_call)) a
            ∙ ap (call_end to)
                (answered-response (asked request to n) answer n.next_call refl refl),
      ),
    )
