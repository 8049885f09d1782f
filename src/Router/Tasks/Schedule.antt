-- ===== src/Router/Tasks/Schedule.antt =====
-- Reachable states by evaluation: the connections go on in a given order.
use zapd.Prelude.{ℕ, ◌≡◌, refl, Bool, Option, none, some, List, foldl}
use zapd.Text.{Str}
use zapd.Frame.Control.{Descriptor}
use zapd.Router.{Peer, State, register}
use zapd.Router.Tasks.{
  Phase, peer_of, Move, System, pick, Reach, later, fresh, named, opened, evicting, welcoming,
  announcing, relaying, answering, leaving, departing, aborting, done, open_channels, bounce, enter,
  evict_previous, greet_back, announce_arrival, answer, end_stream, remove_own, announce_departure,
  abort_writer,
}

Moved : State → Phase → Type 0
Moved s p = (s' : State) × (p' : Phase) × Move s p s' p'

register_move :
    (s : State) (t : Bool) (id : Str) (desc : Descriptor) (c token : ℕ)
    → Moved s (opened t id desc c token)
unfolding Moved
register_move s t id desc c token = by_answer (register t id (peer_of desc c token) s) refl
  where
    by_answer :
        (r : Option (State × Option Peer))
        → register t id (peer_of desc c token) s ≡ r
        → Moved s (opened t id desc c token)
    by_answer none e = (_, _, bounce e)
    by_answer (some (s', old)) e = (_, _, enter e)

-- Where the streams have nothing more: a connection in its relay loop leaves it.
next_move : (s : State) (p : Phase) → Option (Moved s p)
unfolding Moved
next_move s (relaying id c token) = some (_, _, end_stream)
next_move s (answering id c token a) = some (_, _, answer)
next_move s (named t id desc) = some (_, _, open_channels)
next_move s (opened t id desc c token) = some (register_move s t id desc c token)
next_move s (evicting id c token old) = some (_, _, evict_previous)
next_move s (welcoming id c token) = some (_, _, greet_back)
next_move s (announcing id c token) = some (_, _, announce_arrival)
next_move s (leaving id c token) = some (_, _, remove_own)
next_move s (departing id c) = some (_, _, announce_departure)
next_move s (aborting c) = some (_, _, abort_writer)
next_move s (fresh t) = none
next_move s done = none

pub record Run (x : System) : Type 0 where
  pub last : System
  pub reach : Reach x last

turn : {x : System} → Run x → ℕ → Run x
unfolding next_move Moved register_move
turn r k = elim (next_move r.last.state (r.last.tasks k)) [
  | none ↦ r
  | some m ↦ record { last = _; reach = later r.reach (pick k m.2) }
]

unfoldable pub run : {x : System} → Run x → List ℕ → Run x
unfolding turn
run r = foldl turn r
