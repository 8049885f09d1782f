-- ===== src/Node/Tests.antt =====
-- The theorems on src/node.rs at a node that calls the browser `browser/h/b`.
use zapd.Prelude.{
  ◌≡◌, refl, ◌^◌, true, false, some, none, [], ◌∷◌, ◌++◌, arith, All, length, ◌<◌, List,
}
use zapd.Text.{Str, lit}
use zapd.Text.Equal.{str_eq}
use zapd.Io.{Result, ok}
use zapd.Frame.Envelope.{Frame, Stream, new, encode, read, response, route}
use zapd.Frame.Control.{encode_providers, put, put_str}
use zapd.Frame.LittleEndian.{to_le_bytes}
use zapd.Node.Wire.{routed, heard}
use zapd.Node.{Inner, frame, call, done, answered, settle, run, zapd_name, ask, dialed}
use zapd.Frame.Envelope.RoundTrip.{IsWellFormed}
use zapd.Frame.Envelope.Fits.{fits, fits-IsWellFormed}
use zapd.Frame.Control.RoundTrip.{EntryFits}
use zapd.Text.Utf8.{is_utf8}
use zapd.Map.{get}
use zapd.Router.{State, list}
use zapd.Router.Send.{reach}
use zapd.Router.Tests.{two, hanzo-Fits}
use zapd.Node.Session.{session, closing, carrying, session-carrying, session_total, Carries, frames}
use zapd.Node.Asks.{
  call_frame, nodes_frame, call_end, nodes_end, listing, nodes-list, call-response,
}
use zapd.Node.Replies.{run_stale}

abbrev browser : Str
browser = lit "browser/h/b"

abbrev pub ready : Inner
ready = record {
  id = lit "cli/h/a";
  tx = true;
  writing = true;
  up = true;
  waiting = none;
  turn = none;
  next_call = 0;
  replies = λ _. none;
  sent = [];
}

abbrev asking : Frame
asking = new route [] browser (1 ∷ [])

abbrev answer : Frame
answer = new response browser (lit "cli/h/a") (2 ∷ [])

abbrev calling : Inner
calling = record ready { waiting = some (browser, 0); turn = some 0; next_call = 1 }

settled : (answered answer calling).replies 0 ≡ some (ok answer)
unfolding answered settle str_eq
settled = refl

run_stale_example :
    (run (call asking browser ∷ done ∷ call asking browser ∷ frame answer ∷ []) ready).replies 1
    ≡ some (ok answer)
run_stale_example = run_stale ready asking asking answer browser refl refl refl refl refl refl

asking-IsWellFormed : IsWellFormed asking
unfolding fits is_utf8
asking-IsWellFormed = fits-IsWellFormed asking refl

session-carrying_example :
    session (ok tt) (closing (carrying (asking ∷ []))) ready
    ≡ some (ok tt, record (run (dialed ∷ frame asking ∷ []) ready) { writing = false })
session-carrying_example = session-carrying (asking ∷ []) ready (asking-IsWellFormed, tt)

abbrev dev_id : Str
dev_id = lit "dev/h/a"

-- `ready` registered beside the browser.
dev_at : reach dev_id two ≡ some 0
unfolding reach get str_eq
dev_at = refl

browser_at : reach browser two ≡ some 1
unfolding reach get str_eq
browser_at = refl

two_fit : (length (list [] two) < 2 ^ 16) × All EntryFits (list [] two)
unfolding list is_utf8
two_fit = (
  omega arith,
  (
    record { id = record { short = omega arith; utf8 = refl }; desc = hanzo-Fits },
    (record { id = record { short = omega arith; utf8 = refl }; desc = hanzo-Fits }, tt),
  ),
)

-- Frames between `dev_id` and the browser, and the list of both.
listing-IsWellFormed : IsWellFormed (listing dev_id two)
unfolding fits is_utf8 list encode_providers put put_str to_le_bytes
listing-IsWellFormed = fits-IsWellFormed (listing dev_id two) refl

request-IsWellFormed : IsWellFormed (new route dev_id browser (1 ∷ []))
unfolding fits is_utf8
request-IsWellFormed = fits-IsWellFormed (new route dev_id browser (1 ∷ [])) refl

named-IsWellFormed : IsWellFormed (new response zapd_name dev_id (2 ∷ []))
unfolding fits is_utf8
named-IsWellFormed = fits-IsWellFormed (new response zapd_name dev_id (2 ∷ [])) refl

response-IsWellFormed : IsWellFormed (new response browser dev_id (2 ∷ []))
unfolding fits is_utf8
response-IsWellFormed = fits-IsWellFormed (new response browser dev_id (2 ∷ [])) refl

nodes-list_example :
    ((ask nodes_frame zapd_name ready).sent ≡ [] ++ (encode nodes_frame ∷ []))
    × ((t : State) × (routed dev_id (encode nodes_frame) two ≡ some (ok tt, t))
        × (t.queue 0 ≡ [] ++ (encode (listing dev_id two) ∷ [])))
    × ((m : Inner) × (heard (encode (listing dev_id two)) (ask nodes_frame zapd_name ready)
          ≡ some (ok tt, m))
        × (nodes_end (m.replies 0) ≡ ok (list [] two)))
nodes-list_example =
    nodes-list dev_id 0 two ready dev_at refl refl two_fit.0 two_fit.1 listing-IsWellFormed

call-response_example :
    ((ask (call_frame browser (1 ∷ [])) browser ready).sent
      ≡ [] ++ (encode (call_frame browser (1 ∷ [])) ∷ []))
    × ((t : State) × (u : State) × (routed dev_id (encode (call_frame browser (1 ∷ []))) two
          ≡ some (ok tt, t))
        × (t.queue 1 ≡ [] ++ (encode (new route dev_id browser (1 ∷ [])) ∷ []))
        × (read (closing (encode (new route dev_id browser (1 ∷ []))))
            ≡ ok (some (new route dev_id browser (1 ∷ [])), closing []))
        × (routed browser (encode (new response zapd_name dev_id (2 ∷ []))) t ≡ some (ok tt, u))
        × (u.queue 0 ≡ t.queue 0 ++ (encode (new response browser dev_id (2 ∷ [])) ∷ [])))
    × ((m : Inner) × (heard
            (encode (new response browser dev_id (2 ∷ [])))
            (ask (call_frame browser (1 ∷ [])) browser ready)
          ≡ some (ok tt, m))
        × (call_end browser (m.replies 0) ≡ ok (2 ∷ [])))
call-response_example =
    call-response dev_id browser zapd_name (1 ∷ []) (2 ∷ []) 0 1 two ready (λ e. cc) (λ e. cc)
      dev_at browser_at refl refl request-IsWellFormed named-IsWellFormed response-IsWellFormed

-- A frame, and then a length prefix that is cut.
abbrev cut_short : Stream
cut_short = closing (encode asking ++ (0 ∷ []))

session_total_example :
    (fs : List Frame) × (r : Result (Unit {0})) × Carries cut_short fs r
    × (session (ok tt) cut_short ready
        ≡ some (r, record (run (dialed ∷ frames fs) ready) { writing = false }))
session_total_example = session_total cut_short ready
