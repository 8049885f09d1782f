-- ===== src/Router/Tasks.antt =====
-- The connections of src/router.rs side by side: each runs its own `handle`, over the shared state, and
-- they interleave at the locks and the channels. A move is what one connection does at once, under one
-- lock of the registry; what arrives on its stream, and when it ends, is left open.
pub mod Numbers
pub mod Invariant
pub mod Reachable
pub mod Voices
pub mod Presence
pub mod Progress
pub mod Runs
pub mod Browsers
pub mod Race
pub mod Schedule
mod Tests
use zapd.Prelude.{ℕ, zero, suc, ◌+◌, ◌≡◌, Bool, true, false, Option, none, some, List, [], update}
use zapd.Text.{Bytes, Str}
use zapd.Io.{Error}
use zapd.Frame.Envelope.{Frame, Stream, new, encode, welcome, peer_connected, peer_disconnected}
use zapd.Frame.Control.{Descriptor, encode_peer}
use zapd.Router.{
  Peer, State, Hello, gone, refused, greeted, greet, open_conn, register, evict_old, send,
  router_name, broadcast, remove_current,
}
use zapd.Router.Halves.{Answer, first_half, answer_half}

-- Where `handle` stands, with the local variables that are live there: whether it may take over, the
-- id, the descriptor, the number of its channels and its token.
pub data Phase : Type 0 where
  -- before `hello` is read
  fresh : Bool → Phase
  named : Bool → Str → Descriptor → Phase
  -- with its channels and its token, before the registration
  opened : Bool → Str → Descriptor → ℕ → ℕ → Phase
  -- registered, with the entry that it replaced
  evicting : Str → ℕ → ℕ → Option Peer → Phase
  welcoming : Str → ℕ → ℕ → Phase
  announcing : Str → ℕ → ℕ → Phase
  -- in the `select!` of the relay loop and the eviction signal
  relaying : Str → ℕ → ℕ → Phase
  -- in the loop, with an answer for its own node to send
  answering : Str → ℕ → ℕ → Answer → Phase
  leaving : Str → ℕ → ℕ → Phase
  -- removed, and its departure not announced yet
  departing : Str → ℕ → Phase
  aborting : ℕ → Phase
  done : Phase

-- The peer that a connection registers.
abbrev pub peer_of : Descriptor → ℕ → ℕ → Peer
peer_of desc c token = record { tx = c; desc = desc; token = token; evict = c }

-- `if was_current { broadcast(..) }`
abbrev pub after_removal : Str → ℕ → Bool → Phase
after_removal id c true = departing id c
after_removal id c false = aborting c

-- The channel of its writer task, which lives from the eviction of the old entry to the abort.
abbrev pub writer : Phase → Option ℕ
writer (welcoming id c token) = some c
writer (announcing id c token) = some c
writer (relaying id c token) = some c
writer (answering id c token a) = some c
writer (leaving id c token) = some c
writer (departing id c) = some c
writer (aborting c) = some c
writer _ = none

pub data Move (s : State) : Phase → State → Phase → Type 0 where
  -- the stream begins with a `hello` that names an id
  hear :
      {t : Bool} {id : Str} {desc : Descriptor} (rd rd' : Stream)
      → greet s.host rd ≡ greeted id desc rd'
      → Move s (fresh t) s (named t id desc)
  -- it ends, or begins with something else, which is answered on its own connection alone
  turn_away : {t : Bool} (rd : Stream) → greet s.host rd ≡ gone → Move s (fresh t) s done
  refuse :
      {t : Bool} (rd : Stream) (out : List Bytes) (e : Error)
      → greet s.host rd ≡ refused out e
      → Move s (fresh t) s done
  open_channels :
      {t : Bool} {id : Str} {desc : Descriptor}
      → Move s (named t id desc) (open_conn s).0 (opened t id desc s.next_conn s.next_token)
  -- the id is taken
  bounce :
      {t : Bool} {id : Str} {desc : Descriptor} {c token : ℕ}
      → register t id (peer_of desc c token) s ≡ none
      → Move s (opened t id desc c token) (record s { receiving = update s.receiving c false }) done
  enter :
      {t : Bool} {id : Str} {desc : Descriptor} {c token : ℕ} {s' : State} {old : Option Peer}
      → register t id (peer_of desc c token) s ≡ some (s', old)
      → Move s (opened t id desc c token) s' (evicting id c token old)
  evict_previous :
      {id : Str} {c token : ℕ} {old : Option Peer}
      → Move s (evicting id c token old) (evict_old old s) (welcoming id c token)
  greet_back :
      {id : Str} {c token : ℕ}
      → Move s
          (welcoming id c token)
          (send c (encode (new welcome router_name id [])) s).0
          (announcing id c token)
  announce_arrival :
      {id : Str} {c token : ℕ}
      → Move s
          (announcing id c token)
          (broadcast id peer_connected (encode_peer id) s)
          (relaying id c token)
  relay :
      {id : Str} {c token : ℕ} (f : Frame)
      → (first_half id f s).1 ≡ none
      → Move s (relaying id c token) (first_half id f s).0 (relaying id c token)
  -- the list was taken, or the node that the frame is for is not there
  relay_half :
      {id : Str} {c token : ℕ} (f : Frame) (a : Answer)
      → (first_half id f s).1 ≡ some a
      → Move s (relaying id c token) (first_half id f s).0 (answering id c token a)
  answer :
      {id : Str} {c token : ℕ} {a : Answer}
      → Move s (answering id c token a) (answer_half id a s) (relaying id c token)
  -- the writer's `write_all` fails, which drops the receiver
  break_writer :
      {p : Phase} {c : ℕ}
      → writer p ≡ some c
      → Move s p (record s { receiving = update s.receiving c false }) p
  -- the stream ends or fails
  end_stream : {id : Str} {c token : ℕ} → Move s (relaying id c token) s (leaving id c token)
  -- `evicted_rx`
  obey :
      {id : Str} {c token : ℕ}
      → s.evicted c ≡ true
      → Move s (relaying id c token) s (leaving id c token)
  remove_own :
      {id : Str} {c token : ℕ}
      → Move s
          (leaving id c token)
          (remove_current id token s).0
          (after_removal id c (remove_current id token s).1)
  announce_departure :
      {id : Str} {c : ℕ}
      → Move s (departing id c) (broadcast id peer_disconnected (encode_peer id) s) (aborting c)
  abort_writer :
      {c : ℕ} → Move s (aborting c) (record s { receiving = update s.receiving c false }) done

-- The connections, by number of their accept: those that have not come yet are `fresh` too.
pub record System : Type 0 where
  pub state : State
  pub tasks : ℕ → Phase

pub data Step (x : System) : System → Type 0 where
  pick :
      (k : ℕ) {s : State} {p : Phase}
      → Move x.state (x.tasks k) s p
      → Step x (record { state = s; tasks = update x.tasks k p })

abbrev pub start_state : Str → State
start_state host = record {
  peers = [];
  host = host;
  next_token = 1;
  next_conn = 0;
  queue = λ _. [];
  receiving = λ _. false;
  evicted = λ _. false;
}

-- `Registry::new`, with a choice of which connections come through the browser door.
abbrev pub start : Str → (ℕ → Bool) → System
start host may = record { state = start_state host; tasks = λ k. fresh (may k) }

pub data Reach (x : System) : System → Type 0 where
  here : Reach x x
  later : {y z : System} → Reach x y → Step y z → Reach x z
