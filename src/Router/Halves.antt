-- ===== src/Router/Halves.antt =====
-- One round of `route_loop`, cut where it drops the lock of the registry: what it does under the first
-- lock, and the answer that it then sends under another.
use zapd.Prelude.{
  ℕ, ◌≡◌, ◌⊎◌, ◌∙◌, inl, inr, refl, sym, Bool, true, false, Option, none, some, List, [], ◌++◌,
  append-nil, map, All, ◌==◌, if◌then◌else◌,
}
use zapd.Text.{Str, lit}
use zapd.Frame.Envelope.{Frame, new, encode, hello, providers_list, providers, error}
use zapd.Frame.Control.{Entry, decode_brand_filter, encode_providers}
use zapd.Router.{State, send_to, router_name, list, is_empty, control, forward, route_frame}
use zapd.Router.Send.{OnlyQueues, OnlyQueues-refl, send_to-OnlyQueues, queue-send_to, reach}
use zapd.Router.Relay.{SentBy, send_to-SentBy, grown_All}

-- What the sender of a frame is still to be told: the nodes, or that a node is not there.
pub data Answer : Type 0 where
  listed : List Entry → Answer
  unrouted : Str → Answer

unfoldable pub answer_frame : Str → Answer → Frame
answer_frame id (listed entries) = new providers router_name id (encode_providers entries)
answer_frame id (unrouted dest) = new error router_name id (lit "no_route:" ++ dest)

control_half : Str → Frame → State → State × Option Answer
control_half id f s =
    if f.typ == providers_list
    then (s, some (listed (list (decode_brand_filter f.payload) s)))
    else if f.typ == hello
    then (s, none)
    else ((send_to id (encode (new error router_name id (lit "unknown_control"))) s).0, none)

unsent : Str → Bool → Option Answer
unsent dest true = none
unsent dest false = some (unrouted dest)

forward_half : Str → Frame → State → State × Option Answer
forward_half id f s =
    let (s', sent) = send_to f.to (encode (record f { from = id })) s in (s', unsent f.to sent)

-- Under the first lock.
unfoldable pub first_half : Str → Frame → State → State × Option Answer
unfolding control_half forward_half unsent is_empty
first_half id f s = if is_empty f.to then control_half id f s else forward_half id f s

-- Under the second.
unfoldable pub answer_half : Str → Answer → State → State
answer_half id a s = (send_to id (encode (answer_frame id a)) s).0

abbrev pub finish : Str → State × Option Answer → State
finish id (s, none) = s
finish id (s, some a) = answer_half id a s

finish-if :
    (id : Str) (b : Bool) (x y : State × Option Answer) (t u : State)
    → t ≡ finish id x
    → u ≡ finish id y
    → (if b then t else u) ≡ finish id (if b then x else y)
finish-if id true x y t u e f = e
finish-if id false x y t u e f = f

forward-halves :
    (id : Str) (f : Frame) (r : State × Bool)
    → (if r.1
        then r.0
        else (send_to id (encode (new error router_name id (lit "no_route:" ++ f.to))) r.0).0)
      ≡ finish id (r.0, unsent f.to r.1)
unfolding unsent answer_half answer_frame
forward-halves id f (s, true) = refl
forward-halves id f (s, false) = refl

-- With no other connection between the two halves, they are the round.
pub route_frame-halves :
    (id : Str) (f : Frame) (s : State) → route_frame id f s ≡ finish id (first_half id f s)
unfolding route_frame control forward first_half control_half forward_half unsent answer_half
    answer_frame
route_frame-halves id f s =
    finish-if id (is_empty f.to) _ _ _ _
      (finish-if id (f.typ == providers_list) _ _ _ _ refl
        (finish-if id (f.typ == hello) _ _ _ _ refl refl))
      (forward-halves id f (send_to f.to (encode (record f { from = id })) s))

-- `P` of both branches' states.
half-if :
    (P : State → Type 0) (b : Bool) (x y : State × Option Answer)
    → P x.0
    → P y.0
    → P (if b then x else y).0
half-if P true x y h k = h
half-if P false x y h k = k

-- What a round refuses: a frame to the router that it does not know.
abbrev pub unknown_control : Str → Frame
unknown_control id = new error router_name id (lit "unknown_control")

-- In the sender's registered name, or that refusal.
abbrev pub Own : Str → Frame → Type 0
Own id f = (f.from ≡ id) ⊎ (f ≡ unknown_control id)

abbrev OwnAt : ℕ → Str → State → State → Type 0
OwnAt d id s t = (fs : List Frame) × (t.queue d ≡ s.queue d ++ map encode fs) × All (Own id) fs

send_to-Own :
    (id dest : Str) (f : Frame) (s : State) (d : ℕ)
    → Own id f
    → OwnAt d id s (send_to dest (encode f) s).0
send_to-Own id dest f s d p =
    let (fs, e, h) = grown_All (Own id) (reach dest s) d f (s.queue d) p in
    (fs, queue-send_to dest (encode f) s d ∙ e, h)

pub first_half-Own : (id : Str) (f : Frame) (s : State) (d : ℕ) → OwnAt d id s (first_half id f s).0
unfolding first_half control_half forward_half
first_half-Own id f s d =
    let P : State → Type 0 = OwnAt d id s in
    let same : OwnAt d id s s = ([], sym (append-nil (s.queue d)), tt) in
    half-if P (is_empty f.to) (control_half id f s) (forward_half id f s)
      (half-if P (f.typ == providers_list) _ _ same (
        half-if P (f.typ == hello) _ _ same
          (send_to-Own id id (unknown_control id) s d (inr refl))))
      (send_to-Own id f.to (record f { from = id }) s d (inl refl))

pub first_half-OnlyQueues : (id : Str) (f : Frame) (s : State) → OnlyQueues s (first_half id f s).0
unfolding first_half control_half forward_half
first_half-OnlyQueues id f s =
    let P : State → Type 0 = OnlyQueues s in
    half-if P (is_empty f.to) (control_half id f s) (forward_half id f s)
      (half-if P (f.typ == providers_list) _ _ (OnlyQueues-refl s)
        (half-if P (f.typ == hello) _ _ (OnlyQueues-refl s) (send_to-OnlyQueues id _ s)))
      (send_to-OnlyQueues f.to _ s)

from_router : (id : Str) (a : Answer) → (answer_frame id a).from ≡ router_name
unfolding answer_frame
from_router id (listed entries) = refl
from_router id (unrouted dest) = refl

pub answer_half-SentBy :
    (id : Str) (a : Answer) (s : State) → SentBy router_name s (answer_half id a s)
unfolding answer_half
answer_half-SentBy id a s =
    send_to-SentBy router_name id (answer_frame id a) s (inr (from_router id a))

pub answer_half-OnlyQueues : (id : Str) (a : Answer) (s : State) → OnlyQueues s (answer_half id a s)
unfolding answer_half
answer_half-OnlyQueues id a s = send_to-OnlyQueues id _ s
