-- ===== src/Router/Tests.antt =====
-- Runs of src/router.rs on a router with two nodes, and the theorems at concrete inputs.
use zapd.Frame.Envelope.Fits.{fits, fits-IsWellFormed}
use zapd.Prelude.{◌≡◌, ◌⊎◌, refl, true, false, none, some, List, [], ◌∷◌, ◌++◌, arith}
use zapd.Text.{Bytes, Str, lit}
use zapd.Text.Equal.{str_eq, str_eq_iff}
use zapd.Io.{Result, ok}
use zapd.Map.{Map, get, contains_key}
use zapd.Id.{stamp, name_ok}
use zapd.Text.Split.{split, contains}
use zapd.Text.Utf8.{is_utf8}
use zapd.Frame.Envelope.{Frame, Stream, new, encode, read, read_exact, route, hello}
use zapd.Frame.Envelope.RoundTrip.{IsWellFormed, read-encode}
use zapd.Frame.Control.{Descriptor, encode_hello, put, put_str}
use zapd.Frame.LittleEndian.{to_le_bytes}
use zapd.Frame.Control.RoundTrip.{Fits, decode_hello-encode_hello}
use zapd.Router.{
  Peer, State, route_frame, route_loop, greet, greeted, register, taken, open_conn, handle,
}
use zapd.Router.Send.{OnlyQueues, reach}
use zapd.Router.Relay.{SentBy, forward_delivers, route_loop-SentBy}
use zapd.Router.Life.{greet_iff}

abbrev pub hanzo : Descriptor
hanzo = record { role = 1; brand = lit "hanzo"; caps = []; attrs = [] }

abbrev pub dev : Str
dev = lit "dev/h/a"

abbrev pub browser : Str
browser = lit "browser/h/b"

abbrev dev_peer : Peer
dev_peer = record { tx = 0; desc = hanzo; token = 1; evict = 0 }

abbrev browser_peer : Peer
browser_peer = record { tx = 1; desc = hanzo; token = 2; evict = 1 }

abbrev two_peers : Map Peer
two_peers = (dev, dev_peer) ∷ (browser, browser_peer) ∷ []

abbrev pub two : State
two = record {
  peers = two_peers;
  host = lit "h";
  next_token = 3;
  next_conn = 2;
  queue = λ _. [];
  receiving = λ _. true;
  evicted = λ _. false;
}

two_cases :
    (j : Str) (p : Peer)
    → get two_peers j ≡ some p
    → ((j ≡ dev) × (p ≡ dev_peer)) ⊎ ((j ≡ browser) × (p ≡ browser_peer))
unfolding get
two_cases j p e = ground (arith, str_eq_iff dev j, str_eq_iff browser j)

-- A frame from the dev session to the browser, in a false name.
abbrev pub call : Frame
call = new route (lit "engine/h/x") browser (1 ∷ 2 ∷ [])

call-IsWellFormed : IsWellFormed call
unfolding fits is_utf8
call-IsWellFormed = fits-IsWellFormed call refl

abbrev call_stream : Stream
call_stream = record { bytes = encode call ++ []; fault = none }

read_end :
    read (record { bytes = []; fault = none }) ≡ ok (none, record { bytes = []; fault = none })
unfolding read read_exact
read_end = refl

one_call : route_loop 2 call_stream dev two ≡ some (ok tt, route_frame dev call two)
unfolding route_loop
one_call = rw (read-encode call [] none call-IsWellFormed, route_loop, read_end, route_loop)

route_loop-SentBy_example :
    SentBy dev two (route_frame dev call two) × OnlyQueues two (route_frame dev call two)
route_loop-SentBy_example =
    route_loop-SentBy 2 call_stream dev two (route_frame dev call two) (ok tt) one_call

reach-browser : reach browser two ≡ some 1
unfolding reach get str_eq
reach-browser = refl

forward_delivers_example :
    (route_frame dev call two).queue 1 ≡ [] ++ (encode (record call { from = dev }) ∷ [])
forward_delivers_example = forward_delivers dev call two (λ e. cc) 1 1 reach-browser

-- A HELLO by which a browser asks for the id that is registered.
abbrev greeting : Frame
greeting = new hello (lit "browser/b") [] (encode_hello hanzo)

pub hanzo-Fits : Fits hanzo
unfolding is_utf8
hanzo-Fits = record {
  brand = record { short = omega arith; utf8 = refl };
  caps_len = omega arith;
  caps = tt;
  attrs_len = omega arith;
  attrs = tt;
}

greeting-IsWellFormed : IsWellFormed greeting
unfolding fits is_utf8 encode_hello put put_str to_le_bytes
greeting-IsWellFormed = fits-IsWellFormed greeting refl

abbrev pub no_bytes : Stream
no_bytes = record { bytes = []; fault = none }

abbrev pub greeting_stream : Stream
greeting_stream = record { bytes = encode greeting ++ []; fault = none }

greeting_stamped : stamp (lit "browser/b") (lit "h") ≡ some browser
unfolding stamp name_ok split contains str_eq
greeting_stamped = refl

pub greeting_greeted : greet (lit "h") greeting_stream ≡ greeted browser hanzo no_bytes
greeting_greeted = (greet_iff (lit "h") greeting_stream no_bytes browser hanzo).1 (
  greeting,
  read-encode greeting [] none greeting-IsWellFormed,
  refl,
  greeting_stamped,
  decode_hello-encode_hello hanzo hanzo-Fits,
)

abbrev pub refusal : (List Bytes × Result (Unit {0})) × State
refusal = taken browser 2 (open_conn two).0

pub greeting_refused : handle greeting_stream false two ≡ some (refusal.0, refusal.1)
unfolding handle open_conn register contains_key get str_eq
greeting_refused = rw (greeting_greeted, handle)
