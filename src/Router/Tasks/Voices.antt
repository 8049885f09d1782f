-- ===== src/Router/Tasks/Voices.antt =====
-- In whose name a frame is queued, when connections interleave.
use zapd.Prelude.{
  ℕ, ◌<◌, ◌≡◌, ◌≢◌, ◌⊎◌, inl, inr, refl, sym, ap, ◌∙◌, Bool, Option, none, some, List, [], ◌∷◌,
  ◌++◌, append-nil, map, All, arith, ◌==◌, Bool-cases, ◌&&◌,
}
use zapd.Text.{Bytes, Str}
use zapd.Text.Equal.{str_eq}
use zapd.Map.{Map, get}
use zapd.Frame.Envelope.{Frame, new, encode, welcome}
use zapd.Router.{
  Peer, State, open_conn, send, router_name, broadcast, broadcast_loop, evict_old, remove_current,
  holds_token,
}
use zapd.Router.Send.{queue-send}
use zapd.Router.Relay.{From, SentBy, SentBy-refl, SentBy-trans}
use zapd.Router.Registry.{register-eq_some}
use zapd.Router.Halves.{Own, unknown_control, first_half-Own, answer_half-SentBy}
use zapd.Router.Tasks.{
  Phase, peer_of, Move, fresh, named, opened, evicting, welcoming, announcing, leaving, departing,
  aborting, done, System, start, Reach, relaying, hear, turn_away, refuse, open_channels, bounce,
  enter, evict_previous, greet_back, announce_arrival, relay, relay_half, answer, answering,
  break_writer, end_stream, obey, remove_own, announce_departure, abort_writer,
}
use zapd.Router.Tasks.Numbers.{seat, seat-numbers}
use zapd.Router.Tasks.Invariant.{Holds, Told}
use zapd.Router.Tasks.Reachable.{Reach-Inv}

-- However connections interleave, of two that are registered or were replaced under one id, and have
-- not been removed yet, at least one was told to go, or is about to be.
pub one_voice :
    {host : Str} {may : ℕ → Bool} {x : System} (r : Reach (start host may) x) (k l : ℕ) (id : Str)
    (c t d u : ℕ)
    → seat (x.tasks k) ≡ some (id, c, t)
    → seat (x.tasks l) ≡ some (id, d, u)
    → k ≢ l
    → Told x.state x.tasks c ⊎ Told x.state x.tasks d
one_voice {x} r k l id c t d u e f ne =
    let h = Reach-Inv r in
    elim (h.told k id c t e) [
      | inr o ↦ inl o
      | inl (p, g, _, pt) ↦ elim (h.told l id d u f) [
        | inr o ↦ inr o
        | inl (q, g', _, qu) ↦
            let same : p ≡ q = cc in
            absurd (
              ne (
                h.alone k l c t d u (seat-numbers (x.tasks k) id c t e)
                  (seat-numbers (x.tasks l) id d u f)
                  (inr (sym pt ∙ (ap (λ (p : Peer). p.token) same ∙ qu)))))
      ]
    ]

-- What a connection that stands at this phase says: in the relay loop, in its own name or the refusal of
-- what it read; anywhere else in the router's.
abbrev pub Says : Phase → Frame → Type 0
Says (relaying id c token) f = Own id f
Says _ f = f.from ≡ router_name

-- What a move of a connection adds to the queues that are open.
abbrev pub Adds : (Frame → Type 0) → State → State → Type 0
Adds P s t =
    (d : ℕ)
    → d < s.next_conn
    → (fs : List Frame) × (t.queue d ≡ s.queue d ++ map encode fs) × All P fs

from_the_router : (fs : List Frame) → All (From router_name) fs → All (λ f. f.from ≡ router_name) fs
from_the_router [] a = tt
from_the_router (f ∷ fs) (inl e, a) = (e, from_the_router fs a)
from_the_router (f ∷ fs) (inr e, a) = (e, from_the_router fs a)

routers : {s t : State} → SentBy router_name s t → Adds (λ f. f.from ≡ router_name) s t
routers h d lt = let (fs, e, a) = h.at d in (fs, e, from_the_router fs a)

send-SentBy :
    (id : Str) (c : ℕ) (f : Frame) (s : State) → From id f → SentBy id s (send c (encode f) s).0
send-SentBy id c f s p = record {
  at = λ d. elim (Bool-cases ((c == d) && s.receiving c)) [
    | inl t ↦ (f ∷ [], queue-send c (encode f) s d ∙ rw t refl, (p, tt))
    | inr n ↦ ([], queue-send c (encode f) s d ∙ rw n (sym (append-nil (s.queue d))), tt)
  ];
}

loop-SentBy :
    (m : Map Peer) (except id : Str) (typ : ℕ) (payload : Bytes) (s : State)
    → SentBy id s (broadcast_loop m except typ payload s)
unfolding broadcast_loop
loop-SentBy [] except id typ payload s = SentBy-refl id s
loop-SentBy ((pid, p) ∷ m) except id typ payload s = elim (Bool-cases (str_eq pid except)) [
  | inl e ↦ rw e (loop-SentBy m except id typ payload s)
  | inr e ↦ rw e (
      SentBy-trans (send-SentBy id p.tx (new typ router_name pid payload) s (inr refl))
        (loop-SentBy m except id typ payload _))
]

broadcast-SentBy :
    (except id : Str) (typ : ℕ) (payload : Bytes) (s : State)
    → SentBy id s (broadcast except typ payload s)
unfolding broadcast
broadcast-SentBy except id typ payload s = loop-SentBy s.peers except id typ payload s

opened_queues : (s : State) (d : ℕ) → d < s.next_conn → (open_conn s).0.queue d ≡ s.queue d
unfolding open_conn
opened_queues s d lt = ground arith

evicted_queues : (old : Option Peer) (s : State) (d : ℕ) → (evict_old old s).queue d ≡ s.queue d
unfolding evict_old
evicted_queues none s d = refl
evicted_queues (some old) s d = refl

removed_queues :
    (id : Str) (token : ℕ) (s : State) (d : ℕ) → (remove_current id token s).0.queue d ≡ s.queue d
unfolding remove_current
removed_queues id token s d = elim (Bool-cases (holds_token (get s.peers id) token)) [
  | inl e ↦ rw e refl
  | inr e ↦ rw e refl
]

same_queue :
    (P : Frame → Type 0) (q q' : List Bytes)
    → q' ≡ q
    → (fs : List Frame) × (q' ≡ q ++ map encode fs) × All P fs
same_queue P q q' e = ([], e ∙ sym (append-nil q), tt)

Move-Adds : {s s' : State} {p p' : Phase} → Move s p s' p' → Adds (Says p) s s'
Move-Adds {s} {p = p} (hear rd rd' g) d lt = same_queue (Says p) (s.queue d) _ refl
Move-Adds {s} {p = p} (turn_away rd g) d lt = same_queue (Says p) (s.queue d) _ refl
Move-Adds {s} {p = p} (refuse rd out e g) d lt = same_queue (Says p) (s.queue d) _ refl
Move-Adds {s} {p = p} open_channels d lt = same_queue (Says p) (s.queue d) _ (opened_queues s d lt)
Move-Adds {s} {p = p} (bounce r) d lt = same_queue (Says p) (s.queue d) _ refl
Move-Adds {s} {p = p} (enter {t} {id} {desc} {c} {token} {s'} {old} r) d lt =
    let (se, _, _) = register-eq_some t id (peer_of desc c token) s s' old r in
    same_queue (Says p) (s.queue d) (s'.queue d) (ap (λ (u : State). u.queue d) se)
Move-Adds {s} {p = p} (evict_previous {old}) d lt =
    same_queue (Says p) (s.queue d) _ (evicted_queues old s d)
Move-Adds {s} (greet_back {id} {c}) d lt =
    routers (send-SentBy router_name c (new welcome router_name id []) s (inr refl)) d lt
Move-Adds {s} (announce_arrival {id}) d lt = routers (broadcast-SentBy id router_name _ _ s) d lt
Move-Adds {s} (relay {id} f n) d lt = first_half-Own id f s d
Move-Adds {s} (relay_half {id} f a p) d lt = first_half-Own id f s d
Move-Adds {s} (answer {id} {a = a}) d lt = routers (answer_half-SentBy id a s) d lt
Move-Adds {s} {p = p} (break_writer w) d lt = same_queue (Says p) (s.queue d) _ refl
Move-Adds {s} {p = p} end_stream d lt = same_queue (Says p) (s.queue d) _ refl
Move-Adds {s} {p = p} (obey t) d lt = same_queue (Says p) (s.queue d) _ refl
Move-Adds {s} {p = p} (remove_own {id} {c} {token}) d lt =
    same_queue (Says p) (s.queue d) _ (removed_queues id token s d)
Move-Adds {s} (announce_departure {id}) d lt = routers (broadcast-SentBy id router_name _ _ s) d lt
Move-Adds {s} {p = p} abort_writer d lt = same_queue (Says p) (s.queue d) _ refl

-- Whose a frame is, where the connection that moves stands at this phase: in the relay loop, it is in the
-- registered name of that connection, which is the one registered under the name, or was told to go, or
-- is about to be; or it is the router's refusal of what it read. Anywhere else it is in the router's name.
abbrev pub Voice : State → (ℕ → Phase) → Phase → Frame → Type 0
Voice s tasks (relaying id c t) f =
    ((f.from ≡ id) × (Holds s id c t ⊎ Told s tasks c)) ⊎ (f ≡ unknown_control id)
Voice s tasks _ f = f.from ≡ router_name

voiced :
    (s : State) (tasks : ℕ → Phase) (p : Phase) (fs : List Frame)
    → ((id : Str) (c t : ℕ) → seat p ≡ some (id, c, t) → Holds s id c t ⊎ Told s tasks c)
    → All (Says p) fs
    → All (Voice s tasks p) fs
voiced s tasks p [] h a = tt
voiced s tasks (relaying id c t) (f ∷ fs) h (inl e, a) =
    (inl (e, h id c t refl), voiced s tasks (relaying id c t) fs h a)
voiced s tasks (relaying id c t) (f ∷ fs) h (inr e, a) =
    (inr e, voiced s tasks (relaying id c t) fs h a)
voiced s tasks (fresh t) (f ∷ fs) h a = a
voiced s tasks (named t id desc) (f ∷ fs) h a = a
voiced s tasks (opened t id desc c u) (f ∷ fs) h a = a
voiced s tasks (evicting id c t old) (f ∷ fs) h a = a
voiced s tasks (welcoming id c t) (f ∷ fs) h a = a
voiced s tasks (announcing id c t) (f ∷ fs) h a = a
voiced s tasks (answering id c t x) (f ∷ fs) h a = a
voiced s tasks (leaving id c t) (f ∷ fs) h a = a
voiced s tasks (departing id c) (f ∷ fs) h a = a
voiced s tasks (aborting c) (f ∷ fs) h a = a
voiced s tasks done (f ∷ fs) h a = a

-- However connections interleave, a move of one of them takes nothing from a queue that is open. What it
-- adds to one from its relay loop is in the name of the connection itself, which is the one registered
-- under the name, or was told to go, or is about to be, but for the refusal of a control frame that the
-- router does not know; and whatever it adds at any other point is in the router's name.
pub Move-Voice :
    {host : Str} {may : ℕ → Bool} {x : System} {s : State} {p : Phase}
    → Reach (start host may) x
    → (k : ℕ) → Move x.state (x.tasks k) s p
    → (d : ℕ) → d < x.state.next_conn
    → (fs : List Frame) × (s.queue d ≡ x.state.queue d ++ map encode fs)
      × All (Voice x.state x.tasks (x.tasks k)) fs
Move-Voice {x} r k mv d lt =
    let (fs, e, a) = Move-Adds mv d lt in
    (fs, e, voiced x.state x.tasks (x.tasks k) fs ((Reach-Inv r).told k) a)
