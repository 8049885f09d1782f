-- ===== src/Router/Tasks/Tests.antt =====
-- Runs of the connections of src/router.rs side by side, and the theorems at the states they reach.
use zapd.Frame.Envelope.Fits.{fits, fits-IsWellFormed}
use zapd.Prelude.{
  ℕ, ◌≡◌, ◌⊎◌, refl, true, false, none, some, List, [], ◌∷◌, ◌++◌, map, All, arith, update, not,
  ◌==◌,
}
use zapd.Text.{Bytes, Str, lit}
use zapd.Text.Equal.{str_eq}
use zapd.Text.Split.{split, contains}
use zapd.Text.Utf8.{is_utf8}
use zapd.Map.{get, insert, contains_key}
use zapd.Id.{stamp, name_ok}
use zapd.Io.{fail, not_found, Result}
use zapd.Frame.Envelope.{
  route, Frame, Stream, new, encode, hello, peer_connected, peer_disconnected,
}
use zapd.Frame.Envelope.RoundTrip.{IsWellFormed, read-encode}
use zapd.Frame.Control.{encode_hello, encode_peer, put, put_str}
use zapd.Frame.LittleEndian.{to_le_bytes}
use zapd.Frame.Control.RoundTrip.{decode_hello-encode_hello}
use zapd.Router.{
  greet, greeted, register, evict_old, send, broadcast, broadcast_loop, remove_current, open_conn,
  send_to, router_name, State, handle,
}
use zapd.Router.Life.{greet_iff}
use zapd.Router.Tests.{
  hanzo, hanzo-Fits, browser, no_bytes, greeting_stream, greeting_greeted, two, call,
}
use zapd.Router.Halves.{first_half, unrouted}
use zapd.Node.{Inner, joined, answered}
use zapd.Node.Replies.{asked}
use zapd.Node.Refused.{refusal}
use zapd.Node.Successor.{refusal_misled}
use zapd.Router.Tasks.{
  leaving, System, Step, pick, start, Reach, here, later, hear, peer_of, fresh, done, relaying,
  relay, relay_half, answering, Move, bounce, enter, evicting,
}
use zapd.Router.Tasks.Invariant.{Told}
use zapd.Router.Tasks.Voices.{Voice, one_voice, Move-Voice}
use zapd.Router.Tasks.Browsers.{browser_spares}
use zapd.Router.Tasks.Presence.{Table, Refines, Change}
use zapd.Router.Tasks.Presence.Moves.{Move-Refines}
use zapd.Router.Tasks.Progress.{Ends, told-Ends}
use zapd.Router.Tasks.Runs.{handle-Run}
use zapd.Router.Tasks.Runs
use zapd.Router.Tasks.Race.{late_departure}
use zapd.Router.Tasks.Schedule.{Run, run}

-- A HELLO of another node.
abbrev watch : Frame
watch = new hello (lit "cli/z") [] (encode_hello hanzo)

abbrev watcher : Str
watcher = lit "cli/h/z"

watch-IsWellFormed : IsWellFormed watch
unfolding fits is_utf8 encode_hello put put_str to_le_bytes
watch-IsWellFormed = fits-IsWellFormed watch refl

abbrev watch_stream : Stream
watch_stream = record { bytes = encode watch ++ []; fault = none }

watch_stamped : stamp (lit "cli/z") (lit "h") ≡ some watcher
unfolding stamp name_ok split contains str_eq
watch_stamped = refl

watch_greeted : greet (lit "h") watch_stream ≡ greeted watcher hanzo no_bytes
watch_greeted = (greet_iff (lit "h") watch_stream no_bytes watcher hanzo).1 (
  watch,
  read-encode watch [] none watch-IsWellFormed,
  refl,
  watch_stamped,
  decode_hello-encode_hello hanzo hanzo-Fits,
)

-- Connections 0 and 2 say HELLO under one id, connection 1 under another.
abbrev begun : System
begun = start (lit "h") (λ k. true)

abbrev named_all : Run begun
named_all = record {
  last = _;
  reach =
      later
        (later (later here (pick 0 (hear greeting_stream no_bytes greeting_greeted)))
          (pick 1 (hear watch_stream no_bytes watch_greeted)))
        (pick 2 (hear greeting_stream no_bytes greeting_greeted));
}

-- Connection 1 relays, connection 0 too, and connection 2 has taken over the id.
abbrev taken_over : Run begun
taken_over = run named_all (1 ∷ 1 ∷ 1 ∷ 1 ∷ 1 ∷ 0 ∷ 0 ∷ 0 ∷ 0 ∷ 0 ∷ 2 ∷ 2 ∷ [])

one_voice_example :
    Told taken_over.last.state taken_over.last.tasks 1
    ⊎ Told taken_over.last.state taken_over.last.tasks 2
unfolding run get str_eq contains_key insert register evict_old send open_conn broadcast
    broadcast_loop
one_voice_example = one_voice taken_over.reach 0 2 browser 1 2 2 3 refl refl (λ e. cc)

-- Connection 2 has told connection 0 to go.
abbrev evicted : Run begun
evicted = run taken_over (2 ∷ [])

told-Ends_example : Ends evicted.last.state (evicted.last.tasks 0)
unfolding run get str_eq contains_key insert register evict_old send open_conn broadcast
    broadcast_loop remove_current
told-Ends_example = told-Ends evicted.last.state (evicted.last.tasks 0) browser 1 2 refl refl

-- Connection 1 relays a frame for the id that connection 2 holds now.
abbrev after_relay : System
after_relay = record {
  state = (first_half watcher call evicted.last.state).0;
  tasks = update evicted.last.tasks 1 (relaying watcher 0 1);
}

relays : Move evicted.last.state (evicted.last.tasks 1) after_relay.state (after_relay.tasks 1)
unfolding first_half send_to run get str_eq contains_key insert register evict_old send open_conn
    broadcast broadcast_loop remove_current
relays = relay call refl

Move-Voice_example :
    (fs : List Frame) × (after_relay.state.queue 2 ≡ evicted.last.state.queue 2 ++ map encode fs)
    × All (Voice evicted.last.state evicted.last.tasks (evicted.last.tasks 1)) fs
unfolding run get str_eq contains_key insert register evict_old send open_conn broadcast
    broadcast_loop remove_current
Move-Voice_example = Move-Voice evicted.reach 1 relays 2 (omega arith)

handle-Run_example :
    (x : List Bytes × Result (Unit {0})) × (t : State) × (handle greeting_stream false two
      ≡ some (x, t))
    × Runs.Run two (fresh false) t done
handle-Run_example = handle-Run greeting_stream false two

-- Connection 0 has left its loop, connection 2 has its channels, connection 1 is the observer.
abbrev crossing : Run begun
crossing = run named_all (1 ∷ 1 ∷ 1 ∷ 1 ∷ 1 ∷ 0 ∷ 0 ∷ 0 ∷ 0 ∷ 0 ∷ 0 ∷ 2 ∷ [])

late_departure_example :
    (y : System) × Reach begun y
    × (get y.state.peers browser ≡ some (peer_of hanzo 2 3))
    × (y.state.queue 0
        ≡ (crossing.last.state.queue 0
            ++ (encode (new peer_connected router_name watcher (encode_peer browser)) ∷ []))
          ++ (encode (new peer_disconnected router_name watcher (encode_peer browser)) ∷ []))
unfolding run get str_eq contains_key insert register evict_old send open_conn broadcast
    broadcast_loop remove_current
late_departure_example =
    late_departure crossing.reach 0 2 (λ e. cc) browser 1 2 3 true hanzo (peer_of hanzo 1 2) refl
      refl refl watcher (peer_of hanzo 0 1) (λ e. cc) refl refl

-- Connection 2 comes through the browser door and asks for the id that connection 0 holds.
abbrev guarded : System
guarded = start (lit "h") (λ k. not (k == 2))

abbrev named_two : Run guarded
named_two = record {
  last = _;
  reach =
      later (later here (pick 0 (hear greeting_stream no_bytes greeting_greeted)))
        (pick 2 (hear greeting_stream no_bytes greeting_greeted));
}

abbrev asking : Run guarded
asking = run named_two (0 ∷ 0 ∷ 0 ∷ 0 ∷ 0 ∷ 2 ∷ [])

turned_back :
    Move asking.last.state
      (asking.last.tasks 2)
      (record asking.last.state { receiving = update asking.last.state.receiving 1 false })
      done
unfolding run get str_eq contains_key insert register evict_old send open_conn broadcast
    broadcast_loop remove_current
turned_back = bounce refl

browser_spares_example :
    ((get asking.last.state.peers browser ≡ some (peer_of hanzo 0 1))
      ⊎ ((d : ℕ) × (asking.last.tasks 2 ≡ leaving browser d 1)))
    × ((asking.last.state.evicted 0 ≡ false) ⊎ (asking.last.state.evicted 0 ≡ true))
unfolding run get str_eq contains_key insert register evict_old send open_conn broadcast
    broadcast_loop remove_current
browser_spares_example =
    browser_spares asking.reach 2 refl turned_back browser (peer_of hanzo 0 1) 0 refl

-- Connection 0 finds nobody under the name that it calls, and connection 2 takes over its id.
abbrev nobody : Str
nobody = lit "dev/h/x"

abbrev astray : Frame
astray = new route [] nobody []

-- Connection 2 takes the id that connection 0 holds.
abbrev crossing_in : Run begun
crossing_in = run named_all (1 ∷ 1 ∷ 1 ∷ 1 ∷ 1 ∷ 0 ∷ 0 ∷ 0 ∷ 0 ∷ 0 ∷ 2 ∷ [])

takes_id :
    Move crossing_in.last.state
      (crossing_in.last.tasks 2)
      taken_over.last.state
      (evicting browser 2 3 (some (peer_of hanzo 1 2)))
unfolding run get str_eq contains_key insert register evict_old send open_conn broadcast
    broadcast_loop
takes_id = enter refl

Move-Refines_example :
    (a : Table) × (b : Table) × Refines crossing_in.last.state crossing_in.last.tasks a
    × Change true 2 (crossing_in.last.tasks 2) a b
    × Refines taken_over.last.state
        (update crossing_in.last.tasks 2 (evicting browser 2 3 (some (peer_of hanzo 1 2))))
        b
Move-Refines_example = Move-Refines crossing_in.reach 2 takes_id

abbrev both_relay : Run begun
both_relay = run named_all (1 ∷ 1 ∷ 1 ∷ 1 ∷ 1 ∷ 0 ∷ 0 ∷ 0 ∷ 0 ∷ 0 ∷ [])

unanswered : Step both_relay.last (record {
  state = (first_half browser astray both_relay.last.state).0;
  tasks = update both_relay.last.tasks 0 (answering browser 1 2 (unrouted nobody));
})
unfolding first_half send_to run get str_eq contains_key insert register evict_old send open_conn
    broadcast broadcast_loop
unanswered = pick 0 (relay_half astray (unrouted nobody) refl)

abbrev replaced : Run begun
replaced = run (record { last = _; reach = later both_relay.reach unanswered }) (2 ∷ 2 ∷ [])

abbrev caller : Inner
caller = joined (lit "browser/b")

refusal_misled_example :
    (y : System) × Step replaced.last y
    × (y.state.queue 2 ≡ replaced.last.state.queue 2 ++ (encode (refusal browser nobody) ∷ []))
    × (y.state.queue 1 ≡ replaced.last.state.queue 1)
    × ((answered (refusal browser nobody) (asked astray nobody caller)).replies caller.next_call
        ≡ some (fail not_found (lit "no_route:" ++ nobody)))
unfolding first_half send_to run get str_eq contains_key insert register evict_old send open_conn
    broadcast broadcast_loop is_utf8 joined
refusal_misled_example =
    refusal_misled replaced.reach 0 browser nobody 1 2 (peer_of hanzo 2 3) astray caller refl refl
      (λ e. absurd (omega arith)) refl refl
