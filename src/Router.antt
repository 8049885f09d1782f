-- ===== src/Router.antt =====
-- src/router.rs: the registry, and what one connection does to it. `State` holds what the tasks of
-- the process share: the registry, the token source, and the queue, the receiver and the eviction
-- signal of each connection (its two channels), by a connection's number.
pub mod Send
pub mod Broadcast
pub mod Registry
pub mod Relay
pub mod Halves
pub mod Handle
pub mod Life
pub mod Ends
pub mod Listing
pub mod Tasks
pub mod Tests
use zapd.Prelude.{
  ℕ, zero, suc, ◌+◌, Bool, true, false, not, ◌&&◌, ◌||◌, Option, none, some, List, [], ◌∷◌, ◌++◌,
  ◌==◌, if◌then◌else◌, length, update,
}
use zapd.Text.{Bytes, Str, lit}
use zapd.Text.Equal.{str_eq}
use zapd.Io.{Error, Result, ok, err, fail, invalid_data, addr_in_use}
use zapd.Id.{stamp}
use zapd.Map.{Map, get, contains_key, insert, remove}
use zapd.Frame.Envelope.{
  Frame, new, encode, Stream, read, hello, welcome, providers_list, providers, peer_connected,
  peer_disconnected, error,
}
use zapd.Frame.Control.{
  Descriptor, Entry, decode_hello, encode_providers, decode_brand_filter, encode_peer,
}

-- `tx` and `evict` are the senders of a connection's two channels, told by its number.
pub record Peer : Type 0 where
  pub tx : ℕ
  pub desc : Descriptor
  pub token : ℕ
  pub evict : ℕ

pub record State : Type 0 where
  pub peers : Map Peer
  pub host : Str
  pub next_token : ℕ
  pub next_conn : ℕ
  -- what was sent to a connection's writer, oldest first
  pub queue : ℕ → List Bytes
  -- its receiver has not been dropped
  pub receiving : ℕ → Bool
  pub evicted : ℕ → Bool

-- `tx.send(bytes).is_ok()` on an unbounded channel.
unfoldable pub send : ℕ → Bytes → State → State × Bool
send c bytes s =
    if s.receiving c
    then (record s { queue = update s.queue c (s.queue c ++ (bytes ∷ [])) }, true)
    else (s, false)

-- `reg.get(id).map(..).unwrap_or(false)`
send_peer : Option Peer → Bytes → State → State × Bool
send_peer none bytes s = (s, false)
send_peer (some p) bytes s = send p.tx bytes s

unfoldable pub send_to : Str → Bytes → State → State × Bool
unfolding send_peer
send_to id bytes s = send_peer (get s.peers id) bytes s

abbrev pub router_name : Str
router_name = lit "zapd"

broadcast_loop : Map Peer → Str → ℕ → Bytes → State → State
broadcast_loop [] except typ payload s = s
broadcast_loop ((pid, p) ∷ rest) except typ payload s =
    broadcast_loop rest except typ payload
      (if str_eq pid except then s else (send p.tx (encode (new typ router_name pid payload)) s).0)

unfoldable pub broadcast : Str → ℕ → Bytes → State → State
unfolding broadcast_loop
broadcast except typ payload s = broadcast_loop s.peers except typ payload s

is_empty : Str → Bool
is_empty [] = true
is_empty (c ∷ cs) = false

list_loop : Map Peer → Str → List Entry
list_loop [] brand_filter = []
list_loop ((id, p) ∷ rest) brand_filter =
    let more = list_loop rest brand_filter in
    if is_empty brand_filter || str_eq p.desc.brand brand_filter
    then record { id = id; desc = p.desc } ∷ more
    else more

unfoldable pub list : Str → State → List Entry
unfolding list_loop is_empty
list brand_filter s = list_loop s.peers brand_filter

-- The control frames of `route_loop`, `to` empty.
control : Str → Frame → State → State
control id f s =
    if f.typ == providers_list
    then (let entries = list (decode_brand_filter f.payload) s in
        (send_to id (encode (new providers router_name id (encode_providers entries))) s).0)
    else if f.typ == hello
    then s
    else (send_to id (encode (new error router_name id (lit "unknown_control"))) s).0

-- A frame with a destination: forwarded with the sender's registered id, or answered `no_route`.
forward : Str → Frame → State → State
forward id f s =
    let (s', sent) = send_to f.to (encode (record f { from = id })) s in
    if sent
    then s'
    else (send_to id (encode (new error router_name id (lit "no_route:" ++ f.to))) s').0

-- One round of `route_loop`.
unfoldable pub route_frame : Str → Frame → State → State
unfolding control forward is_empty
route_frame id f s = if is_empty f.to then control id f s else forward id f s

-- The loop, to the end of the stream or its error. `none`: the fuel ran out.
unfoldable pub route_loop : ℕ → Stream → Str → State → Option (Result (Unit {0}) × State)
route_loop zero rd id s = none
route_loop (suc fuel) rd id s = elim (read rd) [
  | ok (some f, rd') ↦ route_loop fuel rd' id (route_frame id f s)
  | ok (none, rd') ↦ some (ok tt, s)
  | err e ↦ some (err e, s)
]

-- The first frame of a connection, up to its registration.
pub data Hello : Type 0 where
  -- the stream ended
  gone : Hello
  -- what is written back, and the error that ends the connection
  refused : List Bytes → Error → Hello
  -- the stamped id, the descriptor and the stream after the frame
  greeted : Str → Descriptor → Stream → Hello

greet_desc : Str → Result Descriptor → Stream → Hello
greet_desc id (ok desc) rd = greeted id desc rd
greet_desc id (err e) rd = refused [] e

greet_id : Frame → Option Str → Stream → Hello
greet_id f none rd =
    let why = lit "bad_id:" ++ f.from in
    refused (encode (new error router_name [] why) ∷ [])
      (record { kind = invalid_data; message = why })
greet_id f (some id) rd = greet_desc id (decode_hello f.payload) rd

greet_frame : Str → Frame → Stream → Hello
unfolding greet_id greet_desc
greet_frame host f rd =
    if f.typ == hello
    then greet_id f (stamp f.from host) rd
    else refused [] (record { kind = invalid_data; message = lit "expected HELLO" })

unfoldable pub greet : Str → Stream → Hello
unfolding greet_frame
greet host rd = elim (read rd) [
  | ok (some f, rd') ↦ greet_frame host f rd'
  | ok (none, rd') ↦ gone
  | err e ↦ refused [] e
]

-- A connection's channels and its token (`fetch_add`), and then its number and token.
unfoldable pub open_conn : State → State × ℕ × ℕ
open_conn s =
    let c = s.next_conn in
    (
      record s {
        next_conn = c + 1;
        next_token = s.next_token + 1;
        queue = update s.queue c [];
        receiving = update s.receiving c true;
        evicted = update s.evicted c false;
      },
      c,
      s.next_token,
    )

-- Check and insert under one lock: `none` if the id is taken, else what the id held.
unfoldable pub register : Bool → Str → Peer → State → Option (State × Option Peer)
register take_over id p s =
    if not take_over && contains_key s.peers id
    then none
    else (let (peers, old) = insert s.peers id p in some (record s { peers = peers }, old))

-- `old.evict.send(())`
unfoldable pub evict_old : Option Peer → State → State
evict_old none s = s
evict_old (some old) s = record s { evicted = update s.evicted old.evict true }

-- WELCOME to the new node, and its arrival to the others.
unfoldable pub announce : Str → ℕ → State → State
announce id c s =
    broadcast id peer_connected (encode_peer id)
      (send c (encode (new welcome router_name id [])) s).0

abbrev holds_token : Option Peer → ℕ → Bool
holds_token none token = false
holds_token (some p) token = p.token == token

-- Removes the id if the entry is still this connection's, and says whether it was.
unfoldable pub remove_current : Str → ℕ → State → State × Bool
remove_current id token s =
    if holds_token (get s.peers id) token
    then (record s { peers = remove s.peers id }, true)
    else (s, false)

-- The end of a connection: its departure, and its writer aborted, which drops the receiver.
unfoldable pub depart : Str → ℕ → ℕ → State → State
depart id token c s =
    let (s', was_current) = remove_current id token s in
    let s'' = if was_current then broadcast id peer_disconnected (encode_peer id) s' else s' in
    record s'' { receiving = update s''.receiving c false }

-- `handle` of a `hello` that named an id: `none` only if the loop ran out of fuel.
pub serve :
    Str → ℕ → ℕ → Stream → Option Peer → State → Option ((List Bytes × Result (Unit {0})) × State)
serve id c token rd old s =
    elim (route_loop (suc (length rd.bytes)) rd id (announce id c (evict_old old s))) [
      | none ↦ none
      | some (r, s') ↦ some (([], r), depart id token c s')
    ]

-- What a taken id is answered; the connection's receiver is dropped.
pub taken : Str → ℕ → State → (List Bytes × Result (Unit {0})) × State
taken id c s =
    let why = lit "taken:" ++ id in
    (
      (
        encode (new error router_name [] why) ∷ [],
        err (record { kind = addr_in_use; message = why }),
      ),
      record s { receiving = update s.receiving c false },
    )

pub admit :
    Str → Descriptor → Stream → Bool → State → Option ((List Bytes × Result (Unit {0})) × State)
admit id desc rd take_over s =
    let (s', c, token) = open_conn s in
    let p : Peer = record { tx = c; desc = desc; token = token; evict = c } in
    elim (register take_over id p s') [
      | none ↦ some (taken id c s')
      | some (s'', old) ↦ serve id c token rd old s''
    ]

-- `handle`, with no other connection at work meanwhile: the frames that it writes itself before the
-- registration, its result, and the state after it.
unfoldable pub handle : Stream → Bool → State → Option ((List Bytes × Result (Unit {0})) × State)
unfolding admit taken serve
handle rd take_over s = elim (greet s.host rd) [
  | gone ↦ some (([], ok tt), s)
  | refused out e ↦ some ((out, err e), s)
  | greeted id desc rd' ↦ admit id desc rd' take_over s
]
