-- ===== src/Router/Life.antt =====
-- `handle` as a whole: which `hello` it accepts, that it ends, and what it leaves behind.
use zapd.Prelude.{
  ℕ, suc, ◌≡◌, ◌≢◌, ◌⊎◌, ◌↔◌, refl, sym, ap, ◌∙◌, Bool, Option, none, some, List, arith,
  Option-cases, inl, inr, length,
}
use zapd.Text.{Bytes, Str}
use zapd.Io.{Result, ok, Result-cases}
use zapd.Map.{get}
use zapd.Id.{stamp}
use zapd.Frame.Envelope.{Frame, Stream, read, hello}
use zapd.Frame.Control.{Descriptor, decode_hello}
use zapd.Router.{
  Peer, State, Hello, gone, refused, greeted, greet, greet_frame, open_conn, register, evict_old,
  announce, depart, route_loop, serve, taken, admit, handle,
}
use zapd.Router.Send.{OnlyQueues, OnlyQueues-trans, send-OnlyQueues}
use zapd.Router.Broadcast.{broadcast-OnlyQueues}
use zapd.Router.Registry.{IsSound}
use zapd.Router.Relay.{route_loop-SentBy, route_loop_total}

greet_frame-eq :
    (host : Str) (f : Frame) (rd rd' : Stream) (id : Str) (desc : Descriptor)
    → greet_frame host f rd ≡ greeted id desc rd'
    → (f.typ ≡ hello)
      × (stamp f.from host ≡ some id)
      × (decode_hello f.payload ≡ ok desc)
      × (rd ≡ rd')
unfolding greet_frame
greet_frame-eq host f rd rd' id desc e = ground arith

greet_frame_ok :
    (host : Str) (f : Frame) (rd : Stream) (id : Str) (desc : Descriptor)
    → f.typ ≡ hello
    → stamp f.from host ≡ some id
    → decode_hello f.payload ≡ ok desc
    → greet_frame host f rd ≡ greeted id desc rd
unfolding greet_frame
greet_frame_ok host f rd id desc t st d = ground arith

greet-eq :
    (host : Str) (rd rd' : Stream) (id : Str) (desc : Descriptor)
    → greet host rd ≡ greeted id desc rd'
    → (f : Frame) × (read rd ≡ ok (some f, rd'))
      × (f.typ ≡ hello)
      × (stamp f.from host ≡ some id)
      × (decode_hello f.payload ≡ ok desc)
unfolding greet
greet-eq host rd rd' id desc e = elim (Result-cases (read rd)) [
  | inl ((some f, rd''), q) ↦
      let (t, st, d, same) = greet_frame-eq host f rd'' rd' id desc (rw (q, greet) at e) in
      (f, q ∙ ap (λ r. ok (some f, r)) same, t, st, d)
  | inl ((none, rd''), q) ↦ let e' = rw (q, greet) at e in absurd (cc)
  | inr (x, q) ↦ let e' = rw (q, greet) at e in absurd (cc)
]

-- A `hello` is accepted exactly if the first frame is a HELLO whose proposed id can be stamped and
-- whose body is a descriptor; the id is the stamped one.
pub greet_iff :
    (host : Str) (rd rd' : Stream) (id : Str) (desc : Descriptor)
    → (greet host rd ≡ greeted id desc rd') ↔ (
        (f : Frame) × (read rd ≡ ok (some f, rd'))
        × (f.typ ≡ hello)
        × (stamp f.from host ≡ some id)
        × (decode_hello f.payload ≡ ok desc))
unfolding greet
greet_iff host rd rd' id desc = (
  greet-eq host rd rd' id desc,
  λ (f, q, t, st, d). rw (q, greet) (greet_frame_ok host f rd' id desc t st d),
)

-- The courses that `handle` takes.
module _ (id : Str) (c token : ℕ) (rd : Stream) (old : Option Peer) (s : State) where
  pub serve_inv :
      (x : List Bytes × Result (Unit {0})) (t : State)
      → serve id c token rd old s ≡ some (x, t)
      → (u : State) × (r : Result (Unit {0})) × (route_loop
            (suc (length rd.bytes))
            rd
            id
            (announce id c (evict_old old s))
          ≡ some (r, u))
        × (t ≡ depart id token c u)
  unfolding serve
  serve_inv x t e =
      elim (Option-cases
        (route_loop (suc (length rd.bytes)) rd id (announce id c (evict_old old s)))) [
          | inl q ↦ let e' = rw (q, serve) at e in absurd (cc)
          | inr ((r, u), q) ↦ let e' = rw (q, serve) at e in (u, r, q, cc)
        ]

  serve_total : serve id c token rd old s ≢ none
  unfolding serve
  serve_total =
      elim (Option-cases
        (route_loop (suc (length rd.bytes)) rd id (announce id c (evict_old old s)))) [
          | inl q ↦ absurd (route_loop_total (suc (length rd.bytes)) rd id _ (omega arith) q)
          | inr ((r, u), q) ↦ rw (q, serve) (λ e. cc)
        ]

abbrev pub newcomer : Descriptor → State → Peer
newcomer desc s = record {
  tx = s.next_conn;
  desc = desc;
  token = s.next_token;
  evict = s.next_conn;
}

module _ (id : Str) (desc : Descriptor) (rd : Stream) (take_over : Bool) (s : State) where
  pub admit_inv :
      (x : List Bytes × Result (Unit {0})) (t : State)
      → admit id desc rd take_over s ≡ some (x, t)
      → ((x, t) ≡ taken id s.next_conn (open_conn s).0)
        ⊎ ((s' : State) × (old : Option Peer) × (register take_over id
                (newcomer desc s)
                (open_conn s).0
              ≡ some (s', old))
            × (serve id s.next_conn s.next_token rd old s' ≡ some (x, t)))
  unfolding admit open_conn
  admit_inv x t e = elim (Option-cases (register take_over id (newcomer desc s) (open_conn s).0)) [
    | inl q ↦ let e' = rw (q, admit) at e in inl (cc)
    | inr ((s', old), q) ↦ let e' = rw (q, admit) at e in inr (s', old, q, e')
  ]

  admit_total : admit id desc rd take_over s ≢ none
  unfolding admit open_conn
  admit_total = elim (Option-cases (register take_over id (newcomer desc s) (open_conn s).0)) [
    | inl q ↦ rw (q, admit) (λ e. cc)
    | inr ((s', old), q) ↦ rw (q, admit) (serve_total id s.next_conn s.next_token rd old s')
  ]

pub handle_inv :
    (rd : Stream) (take_over : Bool) (s : State) (x : List Bytes × Result (Unit {0})) (t : State)
    → handle rd take_over s ≡ some (x, t)
    → (t ≡ s)
      ⊎ ((id : Str) × (desc : Descriptor) × (rd' : Stream) × (greet s.host rd ≡ greeted id desc rd')
          × (admit id desc rd' take_over s ≡ some (x, t)))
unfolding handle
handle_inv rd take_over s x t e = by_hello (greet s.host rd) refl
  where
    by_hello :
        (h : Hello)
        → greet s.host rd ≡ h
        → (t ≡ s)
          ⊎ ((id : Str) × (desc : Descriptor) × (rd' : Stream) × (greet s.host rd
                ≡ greeted id desc rd')
              × (admit id desc rd' take_over s ≡ some (x, t)))
    by_hello gone q = let e' = rw (q, handle) at e in inl (cc)
    by_hello (refused out y) q = let e' = rw (q, handle) at e in inl (cc)
    by_hello (greeted id desc rd') q = let e' = rw (q, handle) at e in inr (id, desc, rd', q, e')

-- `handle` ends on every stream: its loop never runs out of fuel.
pub handle_total : (rd : Stream) (take_over : Bool) (s : State) → handle rd take_over s ≢ none
unfolding handle
handle_total rd take_over s = by_hello (greet s.host rd) refl
  where
    by_hello : (h : Hello) → greet s.host rd ≡ h → handle rd take_over s ≢ none
    by_hello gone q = rw (q, handle) (λ e. cc)
    by_hello (refused out y) q = rw (q, handle) (λ e. cc)
    by_hello (greeted id desc rd') q = rw (q, handle) (admit_total id desc rd' take_over s)

-- The same peers, and the same numbers given out.
pub record SameRegistry (s t : State) : Type 0 where
  pub peers : t.peers ≡ s.peers
  pub next_token : t.next_token ≡ s.next_token
  pub next_conn : t.next_conn ≡ s.next_conn

SameRegistry-trans : {s t u : State} → SameRegistry s t → SameRegistry t u → SameRegistry s u
SameRegistry-trans h k = record {
  peers = k.peers ∙ h.peers;
  next_token = k.next_token ∙ h.next_token;
  next_conn = k.next_conn ∙ h.next_conn;
}

of_only : {s t : State} → OnlyQueues s t → SameRegistry s t
of_only q = record { peers = q.peers; next_token = q.next_token; next_conn = q.next_conn }

evict_old-same : (old : Option Peer) (s : State) → SameRegistry s (evict_old old s)
unfolding evict_old
evict_old-same none s = record { peers = refl; next_token = refl; next_conn = refl }
evict_old-same (some p) s = record { peers = refl; next_token = refl; next_conn = refl }

pub announce-OnlyQueues : (id : Str) (c : ℕ) (s : State) → OnlyQueues s (announce id c s)
unfolding announce
announce-OnlyQueues id c s =
    OnlyQueues-trans (send-OnlyQueues c _ s) (broadcast-OnlyQueues id _ _ _)

-- From the registration to the end of the loop the registry stays.
pub loop-same :
    (fuel : ℕ) (rd : Stream) (id : Str) (c : ℕ) (old : Option Peer) (s u : State)
    (r : Result (Unit {0}))
    → route_loop fuel rd id (announce id c (evict_old old s)) ≡ some (r, u)
    → SameRegistry s u
loop-same fuel rd id c old s u r e = SameRegistry-trans (evict_old-same old s) (
    of_only (
      OnlyQueues-trans (announce-OnlyQueues id c (evict_old old s))
        (route_loop-SentBy fuel rd id _ u r e).1))

pub SameRegistry-IsSound : {s t : State} → SameRegistry s t → IsSound s → IsSound t
SameRegistry-IsSound {s} {t} q h = record {
  distinct = rw q.peers h.distinct;
  own_tx = rw q.peers h.own_tx;
  opened = λ j p e. rw q.next_conn (h.opened j p (ap (λ m. get m j) (sym q.peers) ∙ e));
  issued = λ j p e. rw q.next_token (h.issued j p (ap (λ m. get m j) (sym q.peers) ∙ e));
}
