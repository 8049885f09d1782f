-- ===== src/Door/Tests.antt =====
-- The theorems on src/door.rs at a browser that says HELLO, asks for the list and tries to call.
use zapd.Frame.Envelope.Fits.{fits, fits-IsWellFormed}
use zapd.Prelude.{ℕ, ◌+◌, ◌≡◌, ◌⊎◌, ◌↔◌, refl, true, some, none, List, [], ◌∷◌, ◌++◌, arith, All}
use zapd.Text.{Bytes, Str, lit}
use zapd.Text.Equal.{str_eq}
use zapd.Text.Split.{split, contains}
use zapd.Text.Utf8.{is_utf8}
use zapd.Text.Decimal.{to_decimal}
use zapd.Io.{Result, ok, fail, other}
use zapd.Id.{kind, stamp, name_ok}
use zapd.Frame.Envelope.{Frame, Stream, new, encode, decode, hello, route}
use zapd.Frame.Envelope.RoundTrip.{IsWellFormed, decode-encode, read-encode}
use zapd.Frame.Control.{Descriptor, encode_hello, put, put_str}
use zapd.Frame.Control.RoundTrip.{Fits, decode_hello-encode_hello}
use zapd.Frame.LittleEndian.{to_le_bytes}
use zapd.Pair.{Pairing}
use zapd.Door.{
  Message, message, binary, Socket, next, host_ok, origin_ok, is_some_and, is_blink, check,
  browser_hello, browser,
}
use zapd.Door.Check.{IsExtension, IsLoopback, check_iff}
use zapd.Door.Gate
use zapd.Door.Gate.{Gate, piped, admitting, accept, pass, busy, IsBrowser, gate_lem}
use zapd.Door.Hello.{browser_hello_passes, greet-browser_hello}
use zapd.Door.Admit.{Request, admit, Proved, admit_ok}
use zapd.Door.Relay.{Ready, Flow, timer, Pipe, Passes, pipe_of, turn, relay_loop, relay_loop-Passes}
use zapd.Router.{greet, greeted}
use zapd.Router.Life.{greet_iff}

abbrev blink : Str
blink = lit "chrome-extension://biingenefmanpecedoafkfajbnlgdmbl"

abbrev loopback : Str
loopback = lit "127.0.0.1:9998"

check_iff_example : (check (some blink) (some loopback) 9998 ≡ none) ↔ (
    ((o : Str) × (some blink ≡ some o) × IsExtension o)
    × ((h : Str) × (some loopback ≡ some h) × IsLoopback h 9998))
check_iff_example = check_iff (some blink) (some loopback) 9998

abbrev plain : Descriptor
plain = record { role = 1; brand = lit "hanzo"; caps = []; attrs = [] }

plain-Fits : Fits plain
unfolding is_utf8
plain-Fits = record {
  brand = record { short = omega arith; utf8 = refl };
  caps_len = omega arith;
  caps = tt;
  attrs_len = omega arith;
  attrs = tt;
}

abbrev first : Frame
first = new hello (lit "browser/b") [] (encode_hello plain)

first-IsWellFormed : IsWellFormed first
unfolding fits is_utf8 encode_hello put put_str to_le_bytes
first-IsWellFormed = fits-IsWellFormed first refl

abbrev ws : Socket
ws = record { incoming = message (binary (encode first)) ∷ []; sent = []; room = 9 }

abbrev ws_after : Socket
ws_after = record { incoming = []; sent = []; room = 9 }

hello_passes : browser_hello ws ≡ (ok (encode first), ws_after)
unfolding next kind split
hello_passes =
    browser_hello_passes (encode first) first ws refl (decode-encode first first-IsWellFormed) refl
      refl

stamped : stamp (lit "browser/b") (lit "h") ≡ some (lit "browser/h/b")
unfolding stamp name_ok split contains str_eq
stamped = refl

abbrev from_first : Stream
from_first = record { bytes = encode first ++ []; fault = none }

abbrev at_end : Stream
at_end = record { bytes = []; fault = none }

greeting : greet (lit "h") from_first ≡ greeted (lit "browser/h/b") plain at_end
greeting = (greet_iff (lit "h") from_first at_end (lit "browser/h/b") plain).1 (
  first,
  read-encode first [] none first-IsWellFormed,
  refl,
  stamped,
  decode_hello-encode_hello plain plain-Fits,
)

greet-browser_hello_example : kind (lit "browser/h/b") ≡ browser
greet-browser_hello_example =
    greet-browser_hello ws ws_after (encode first) [] none (lit "h") (lit "browser/h/b") plain
      at_end hello_passes greeting

abbrev constant : Bytes → Bytes → Bytes
constant k m = []

abbrev no_pairing : Result Pairing
no_pairing = fail other (lit "no pairing")

abbrev no_draw : Result Bytes
no_draw = fail other (lit "zapd: no randomness")

abbrev request : Request
request = record { origin = some blink; host = some loopback }

admitted :
    admit constant no_pairing no_draw true request 9998 (ok tt) ws ≡ (ok (encode first), ws_after)
unfolding admit check is_some_and host_ok origin_ok is_blink contains str_eq to_decimal
admitted = rw (hello_passes, admit) refl

admit_ok_example :
    (check (some blink) (some loopback) 9998 ≡ none)
    × ((is_blink (some blink) ≡ true) ⊎ Proved constant no_pairing no_draw ws)
    × ((f : Frame) × (decode (encode first) ≡ ok f) × (f.typ ≡ hello) × (kind f.from ≡ browser))
admit_ok_example =
    admit_ok constant no_pairing no_draw true request 9998 (ok tt) ws ws_after (encode first)
      admitted

-- A piped browser, the frame by which it calls another node, and a minute of pings.
abbrev pipe : Pipe
pipe = record { socket = ws_after; written = []; room = 9; deadline = 60000 }

abbrev drives : List (ℕ × Ready)
drives =
    (5, Ready.browser (message (binary (encode (new route [] (lit "dev/h/a") [])))))
    ∷ (9, Ready.browser (message (binary (encode first))))
    ∷ []

relay_loop-Passes_example : All Passes (pipe_of (relay_loop drives pipe)).written
relay_loop-Passes_example = relay_loop-Passes drives pipe tt

abbrev pings : List (ℕ × Ready)
pings = (20000, Ready.browser (message Message.ping)) ∷ (40000, timer) ∷ []

still_open : relay_loop pings pipe ≡ Flow.continues pipe
unfolding relay_loop turn
still_open = refl

-- Two connections come; the first is admitted.
abbrev gate : Gate
gate = record { permits = 7; tasks = piped (encode first) ∷ admitting ∷ [] }

gate_reached : Gate.Reach constant 9998 gate
gate_reached = Gate.later (Gate.later (Gate.later Gate.start (accept 7 refl)) (accept 6 refl)) (
    pass [] (admitting ∷ []) no_pairing no_draw true request (ok tt) ws ws_after (encode first) refl
      admitted)

gate_lem_example :
    (7 + busy constant 9998 gate.tasks ≡ 8) × All (IsBrowser constant 9998) gate.tasks
gate_lem_example = gate_lem constant 9998 gate_reached
