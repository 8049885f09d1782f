-- ===== src/Python/Tests.antt =====
-- A call from Python of a node that is not there, and the role of a node.
use zapd.Prelude.{◌≡◌, refl, none, some, [], ◌∷◌, ◌++◌}
use zapd.Text.{Str, lit}
use zapd.Text.Equal.{str_eq}
use zapd.Text.Utf8.{is_utf8}
use zapd.Map.{get}
use zapd.Io.{ok}
use zapd.Frame.Envelope.{encode}
use zapd.Frame.Envelope.RoundTrip.{IsWellFormed}
use zapd.Frame.Envelope.Fits.{fits, fits-IsWellFormed}
use zapd.Router.{State}
use zapd.Node.Refused.{refusal}
use zapd.Node.Wire.{routed, heard}
use zapd.Node.{Inner}
use zapd.Router.Send.{reach}
use zapd.Router.Tests.{two, dev}
use zapd.Node.{ask, dropped}
use zapd.Node.Asks.{call_frame}
use zapd.Node.Tests.{ready}
use zapd.Python.{returns, raises, timeout_error, lookup_error, connection_error, role_of, call}
use zapd.Python.Errors.{call_raises}

abbrev away : Str
away = lit "cli/h/z"

dev_at : reach dev two ≡ some 0
unfolding reach get str_eq
dev_at = refl

not_there : reach away two ≡ none
unfolding reach get str_eq
not_there = refl

call_away-IsWellFormed : IsWellFormed (call_frame away [])
unfolding fits is_utf8 call_frame
call_away-IsWellFormed = fits-IsWellFormed (call_frame away []) refl

refusal-IsWellFormed : IsWellFormed (refusal dev away)
unfolding fits is_utf8
refusal-IsWellFormed = fits-IsWellFormed (refusal dev away) refl

call_raises_example :
    ((ask (call_frame away []) away ready).sent ≡ [] ++ (encode (call_frame away []) ∷ []))
    × ((t : State) × (routed dev (encode (call_frame away [])) two ≡ some (ok tt, t))
        × (t.queue 0 ≡ [] ++ (encode (refusal dev away) ∷ [])))
    × ((m : Inner) × (heard (encode (refusal dev away)) (ask (call_frame away []) away ready)
          ≡ some (ok tt, m))
        × (call away (m.replies 0) ≡ raises lookup_error))
    × (call away ((dropped (ask (call_frame away []) away ready)).replies 0)
        ≡ raises connection_error)
    × (call away none ≡ raises timeout_error)
call_raises_example =
    call_raises dev away [] 0 two ready (λ e. cc) dev_at not_there refl refl call_away-IsWellFormed
      refusal-IsWellFormed

joined_as : role_of (lit "provider") ≡ returns 1
unfolding role_of str_eq
joined_as = refl
