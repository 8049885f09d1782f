-- ===== src/Node.antt =====
-- src/node.rs: a node's seat on the router, over the events that its tasks interleave, each of which
-- holds the locks that it takes. A call is known by its number; the answer that its channel holds is
-- in `replies`. The sockets, the timer and the clock are parameters: they choose the events.
pub mod Answers
pub mod Calls
pub mod Replies
pub mod Asks
pub mod Dial
pub mod Refused
pub mod Successor
pub mod Session
pub mod Wire
pub mod Tests
use zapd.Prelude.{
  ℕ, zero, suc, ◌+◌, ◌*◌, Bool, true, false, ◌&&◌, Option, none, some, List, [], ◌∷◌, ◌++◌, ◌==◌,
  leb, if◌then◌else◌, update,
}
use zapd.Text.{Bytes, Str, lit}
use zapd.Text.Utf8.{from_utf8_lossy}
use zapd.Text.Equal.{str_eq}
use zapd.Text.Split.{strip_prefix}
use zapd.Io.{Error, Result, ok, err, fail, not_found, connection_reset, connection_refused}
use zapd.Frame.Envelope.{Frame, new, encode, welcome, providers, response, error}
use zapd.Frame.Control.{Entry, decode_providers}

-- `Inner`, with the calls so far: who must answer the outstanding one, the call that has the turn,
-- and what was handed to the live connection's writer.
pub record Inner : Type 0 where
  pub id : Str
  -- `tx.is_some()`
  pub tx : Bool
  -- The connection's writer task still receives.
  pub writing : Bool
  pub up : Bool
  pub waiting : Option (Str × ℕ)
  pub turn : Option ℕ
  pub next_call : ℕ
  pub replies : ℕ → Option (Result Frame)
  pub sent : List Bytes

-- `Inner` as `join` makes it.
unfoldable pub joined : Str → Inner
joined id = record {
  id = id;
  tx = false;
  writing = false;
  up = false;
  waiting = none;
  turn = none;
  next_call = 0;
  replies = λ n. none;
  sent = [];
}

abbrev pub zapd_name : Str
zapd_name = lit "zapd"

settle_waiting : Option (Str × ℕ) → Str → Result Frame → Inner → Inner
settle_waiting none from answer s = s
settle_waiting (some (who, n)) from answer s =
    if str_eq who from
    then record s { waiting = none; replies = update s.replies n (some answer) }
    else s

unfoldable pub settle : Str → Result Frame → Inner → Inner
unfolding settle_waiting
settle from answer s = settle_waiting s.waiting from answer s

no_route : Str → Option Str → Inner → Inner
no_route why none s = s
no_route why (some dest) s = settle dest (fail not_found why) s

-- The body of `session`'s loop, for one frame.
unfoldable pub answered : Frame → Inner → Inner
unfolding no_route
answered f s =
    if f.typ == welcome
    then record s { id = f.to; tx = true; up = true }
    else (if f.typ == providers
        then settle zapd_name (ok f) s
        else (if f.typ == response
            then settle f.from (ok f) s
            else (if f.typ == error
                then (let why = from_utf8_lossy f.payload in
                    no_route why (strip_prefix (lit "no_route:") why) s)
                else s)))

abbrev pub router_changed {ℓ} : {A : Type ℓ} → Result A
router_changed = fail connection_reset (lit "router changed")

-- `ask` once it has the turn and the node is up, until it waits for its answer.
unfoldable pub ask : Frame → Str → Inner → Inner
ask f answerer s =
    let n = s.next_call in
    if s.tx && s.writing
    then record s {
      waiting = some (answerer, n);
      turn = some n;
      next_call = n + 1;
      sent = s.sent ++ (encode f ∷ []);
    }
    else record s {
      waiting = none;
      turn = some n;
      next_call = n + 1;
      replies = update s.replies n (some router_changed);
    }

reset_waiting : Option (Str × ℕ) → Inner → Inner
reset_waiting none s = s
reset_waiting (some (who, n)) s = record s {
  waiting = none;
  replies = update s.replies n (some router_changed);
}

-- What `join` does when a connection has ended.
unfoldable pub dropped : Inner → Inner
unfolding reset_waiting
dropped s = reset_waiting s.waiting (record s { tx = false; writing = false; up = false })

pub data Event : Type 0 where
  frame : Frame → Event
  drop : Event
  -- a new connection and its writer, and a writer that a write error ends
  dialed broken : Event
  -- `ask` of a frame and its answerer, once it may
  call : Frame → Str → Event
  -- the call that has the turn returns, with its answer or at its timeout: its guard is dropped
  done : Event

is_none : Option ℕ → Bool
is_none none = true
is_none (some n) = false

unfoldable pub step : Event → Inner → Inner
unfolding is_none
step (frame f) s = answered f s
step drop s = dropped s
step dialed s = record s { writing = true }
step broken s = record s { writing = false }
step (call f answerer) s = if is_none s.turn then (if s.up then ask f answerer s else s) else s
step done s = record s { turn = none }

unfoldable pub run : List Event → Inner → Inner
run [] s = s
run (e ∷ es) s = run es (step e s)

-- `(backoff * 2).min(Duration::from_secs(1))`, in milliseconds.
unfoldable pub next_backoff : ℕ → ℕ
next_backoff b = if leb (b * 2) 1000 then b * 2 else 1000

-- The wait after `n` failures to dial in a row.
unfoldable pub backoff : ℕ → ℕ
backoff zero = 50
backoff (suc n) = next_backoff (backoff n)

is_holder : Option ℕ → Option ℕ → Bool
is_holder (some p) (some h) = p == h
is_holder _ _ = false

-- `dial`, where the operating system connected and names the process that serves the door.
unfoldable pub dial : {A : Type 0} → Result (A × Option ℕ) → Option ℕ → Result A
unfolding is_holder
dial (err e) holder = err e
dial (ok (s, peer)) holder =
    if is_holder peer holder
    then ok s
    else fail connection_refused (lit "the door is not served by the router lock holder")
