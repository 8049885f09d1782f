-- ===== src/Router/Relay.antt =====
-- `route_frame` and `route_loop`: who gets what, and whose name it bears.
use zapd.Prelude.{
  ℕ, zero, suc, ◌<◌, ◌≡◌, ◌≢◌, ◌⊎◌, refl, sym, ap, subst, ◌∙◌, Bool, true, false, Option, none,
  some, List, [], ◌∷◌, ◌++◌, append-nil, append_assoc, map, arith, ◌==◌, if◌then◌else◌, Bool-cases,
  inl, inr, All, All-append, length,
}
use mathlib.Core.List.{map-append}
use zapd.Text.{Bytes, Str, lit}
use zapd.Io.{Result, Result-cases}
use zapd.Frame.Envelope.{Frame, Stream, new, encode, read, hello, providers_list, providers, error}
use zapd.Frame.Envelope.Streams.{read-shorter}
use zapd.Frame.Control.{decode_brand_filter, encode_providers}
use zapd.Router.{
  State, send_to, router_name, list, is_empty, control, forward, route_frame, route_loop,
}
use zapd.Router.Send.{
  OnlyQueues, OnlyQueues-refl, OnlyQueues-trans, send_to-OnlyQueues, queue-send_to, sent-send_to,
  reach, reach-OnlyQueues, grown,
}

is_empty-eq_false : (t : Str) → t ≢ [] → is_empty t ≡ false
unfolding is_empty
is_empty-eq_false [] h = absurd (h refl)
is_empty-eq_false (c ∷ cs) h = refl

module _ (id : Str) (f : Frame) (s : State) (addressed : f.to ≢ []) where
  not_empty : is_empty f.to ≡ false
  not_empty = is_empty-eq_false f.to addressed

  -- A frame for a node that is there: that node gets it, with the sender's registered id and all
  -- else as it was, and no other queue changes.
  pub forward_delivers :
      (c d : ℕ)
      → reach f.to s ≡ some c
      → (route_frame id f s).queue d
        ≡ (if c == d then s.queue d ++ (encode (record f { from = id }) ∷ []) else s.queue d)
  unfolding route_frame
  forward_delivers c d e = ground (
    arith,
    not_empty,
    sent-send_to f.to (encode (record f { from = id })) s,
    queue-send_to f.to (encode (record f { from = id })) s d,
  )

  -- A frame for a node that is not there: the sender gets `no_route` with the id that it asked for,
  -- and no other queue changes.
  pub forward_no_route :
      (d : ℕ)
      → reach f.to s ≡ none
      → (route_frame id f s).queue d
        ≡ grown
            (reach id s)
            d
            (encode (new error router_name id (lit "no_route:" ++ f.to)))
            (s.queue d)
  unfolding route_frame
  forward_no_route d e =
      let bytes = encode (record f { from = id }) in
      let refusal = encode (new error router_name id (lit "no_route:" ++ f.to)) in
      let s' : State = (send_to f.to bytes s).0 in
      ground (
        arith,
        not_empty,
        sent-send_to f.to bytes s,
        queue-send_to f.to bytes s d,
        queue-send_to id refusal s' d,
        reach-OnlyQueues id (send_to-OnlyQueues f.to bytes s),
      )

-- The name that a frame bears.
abbrev pub From : Str → Frame → Type 0
From id f = (f.from ≡ id) ⊎ (f.from ≡ router_name)

-- All that was added to any queue between the two states is frames from `id` or from the router.
pub record SentBy (id : Str) (s t : State) : Type 0 where
  pub at : (d : ℕ) → (fs : List Frame) × (t.queue d ≡ s.queue d ++ map encode fs) × All (From id) fs

pub SentBy-refl : (id : Str) (s : State) → SentBy id s s
SentBy-refl id s = record { at = λ d. ([], sym (append-nil (s.queue d)), tt) }

pub SentBy-trans : {id : Str} {s t u : State} → SentBy id s t → SentBy id t u → SentBy id s u
SentBy-trans {id} {s} h k = record {
  at = λ d.
      let (fs, e, p) = h.at d in
      let (gs, e', p') = k.at d in
      (
        fs ++ gs,
        e'
            ∙ ap (λ q. q ++ map encode gs) e
            ∙ append_assoc (s.queue d) (map encode fs) (map encode gs)
            ∙ ap (λ q. s.queue d ++ q) (sym (map-append encode fs gs)),
        All-append (From id) fs gs p p',
      );
}

pub grown_All :
    (P : Frame → Type 0) (o : Option ℕ) (d : ℕ) (f : Frame) (q : List Bytes)
    → P f
    → (fs : List Frame) × (grown o d (encode f) q ≡ q ++ map encode fs) × All P fs
grown_All P none d f q p = ([], sym (append-nil q), tt)
grown_All P (some c) d f q p = elim (Bool-cases (c == d)) [
  | inl e ↦ (f ∷ [], rw e, (p, tt))
  | inr e ↦ ([], rw e (sym (append-nil q)), tt)
]

pub send_to-SentBy :
    (id dest : Str) (f : Frame) (s : State) → From id f → SentBy id s (send_to dest (encode f) s).0
send_to-SentBy id dest f s p = record {
  at = λ d.
      let (fs, e, h) = grown_All (From id) (reach dest s) d f (s.queue d) p in
      (fs, queue-send_to dest (encode f) s d ∙ e, h);
}

SentBy-if :
    (id : Str) (b : Bool) (s t u : State)
    → SentBy id s t
    → SentBy id s u
    → SentBy id s (if b then t else u)
SentBy-if id true s t u h k = h
SentBy-if id false s t u h k = k

control-SentBy : (id : Str) (f : Frame) (s : State) → SentBy id s (control id f s)
unfolding control
control-SentBy id f s =
    let entries = list (decode_brand_filter f.payload) s in
    SentBy-if id (f.typ == providers_list) s _ _
      (send_to-SentBy id id (new providers router_name id (encode_providers entries)) s (inr refl))
      (SentBy-if id (f.typ == hello) s s _ (SentBy-refl id s)
        (send_to-SentBy id id (new error router_name id (lit "unknown_control")) s (inr refl)))

forward-SentBy : (id : Str) (f : Frame) (s : State) → SentBy id s (forward id f s)
unfolding forward
forward-SentBy id f s =
    let sent = send_to-SentBy id f.to (record f { from = id }) s (inl refl) in
    let refusal = new error router_name id (lit "no_route:" ++ f.to) in
    SentBy-if id _ s _ _ sent (SentBy-trans sent (send_to-SentBy id id refusal _ (inr refl)))

-- One frame of a node adds nothing in another node's name.
pub route_frame-SentBy : (id : Str) (f : Frame) (s : State) → SentBy id s (route_frame id f s)
unfolding route_frame
route_frame-SentBy id f s =
    SentBy-if id (is_empty f.to) s _ _ (control-SentBy id f s) (forward-SentBy id f s)

OnlyQueues-if :
    (b : Bool) (s t u : State) → OnlyQueues s t → OnlyQueues s u → OnlyQueues s (if b then t else u)
OnlyQueues-if true s t u h k = h
OnlyQueues-if false s t u h k = k

-- Relaying changes queues alone: the registry and the signals stay.
pub route_frame-OnlyQueues : (id : Str) (f : Frame) (s : State) → OnlyQueues s (route_frame id f s)
unfolding route_frame control forward
route_frame-OnlyQueues id f s =
    OnlyQueues-if (is_empty f.to) s _ _
      (OnlyQueues-if (f.typ == providers_list) s _ _ (send_to-OnlyQueues id _ s)
        (OnlyQueues-if (f.typ == hello) s s _ (OnlyQueues-refl s) (send_to-OnlyQueues id _ s)))
      (OnlyQueues-if _ s _ _ (send_to-OnlyQueues f.to _ s)
        (OnlyQueues-trans (send_to-OnlyQueues f.to _ s) (send_to-OnlyQueues id _ _)))

-- A connection's whole stream, whatever is in it, adds nothing in another node's name, and leaves
-- the registry as it was.
pub route_loop-SentBy :
    (fuel : ℕ) (rd : Stream) (id : Str) (s t : State) (r : Result (Unit {0}))
    → route_loop fuel rd id s ≡ some (r, t)
    → SentBy id s t × OnlyQueues s t
unfolding route_loop
route_loop-SentBy zero rd id s t r e = cc
route_loop-SentBy (suc fuel) rd id s t r e = elim (Result-cases (read rd)) [
  | inl ((some f, rd'), q) ↦
      let (sent, only) =
        route_loop-SentBy fuel rd' id (route_frame id f s) t r (rw (q, route_loop) at e) in
      (
        SentBy-trans (route_frame-SentBy id f s) sent,
        OnlyQueues-trans (route_frame-OnlyQueues id f s) only,
      )
  | inl ((none, rd'), q) ↦
      let e' = rw (q, route_loop) at e in
      subst (λ u. SentBy id s u × OnlyQueues s u) (cc) (SentBy-refl id s, OnlyQueues-refl s)
  | inr (x, q) ↦
      let e' = rw (q, route_loop) at e in
      subst (λ u. SentBy id s u × OnlyQueues s u) (cc) (SentBy-refl id s, OnlyQueues-refl s)
]

-- The loop ends: as much fuel as the stream has bytes, and one more, is enough.
pub route_loop_total :
    (fuel : ℕ) (rd : Stream) (id : Str) (s : State)
    → length rd.bytes < fuel
    → route_loop fuel rd id s ≢ none
unfolding route_loop
route_loop_total zero rd id s h = elim h [ ]
route_loop_total (suc fuel) rd id s h = elim (Result-cases (read rd)) [
  | inl ((some f, rd'), q) ↦
      rw (q, route_loop)
        (route_loop_total fuel rd' id (route_frame id f s) (omega (arith, read-shorter rd rd' f q)))
  | inl ((none, rd'), q) ↦ rw (q, route_loop) (λ e. cc)
  | inr (x, q) ↦ rw (q, route_loop) (λ e. cc)
]
