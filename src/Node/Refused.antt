-- ===== src/Node/Refused.antt =====
-- The answer of a call whose callee is not there, or whose connection drops.
use zapd.Prelude.{◌≡◌, refl, some, ◌++◌, update_self}
use zapd.Text.{Str, lit}
use zapd.Text.Equal.{str_eq_refl}
use zapd.Text.Utf8.{IsUtf8, is_utf8, from_utf8_lossy, from_utf8_lossy-eq, append-IsUtf8}
use zapd.Text.Split.{strip_prefix-append}
use zapd.Io.{fail, not_found}
use zapd.Frame.Envelope.{Frame, new, error}
use zapd.Router.{router_name}
use zapd.Node.{Inner, answered, settle, no_route, dropped, router_changed}
use zapd.Node.Replies.{asked}

abbrev pub refusal : Str → Str → Frame
refusal me to = new error router_name me (lit "no_route:" ++ to)

-- What the refusal says, to a node.
said : (to : Str) → IsUtf8 to → from_utf8_lossy (lit "no_route:" ++ to) ≡ lit "no_route:" ++ to
said to h =
    from_utf8_lossy-eq (lit "no_route:" ++ to)
      (append-IsUtf8 (lit "no_route:") to (unfold is_utf8 in refl) h)

pub refused :
    (me to : Str) (f : Frame) (n : Inner)
    → IsUtf8 to
    → (answered (refusal me to) (asked f to n)).replies n.next_call
      ≡ some (fail not_found (lit "no_route:" ++ to))
unfolding answered no_route settle
refused me to f n h =
    rw
      (
        said to h,
        answered,
        strip_prefix-append (lit "no_route:") to,
        no_route,
        settle,
        str_eq_refl to,
        said to h,
      )
      (update_self n.replies n.next_call (some (fail not_found (lit "no_route:" ++ to))))

pub lost :
    (to : Str) (f : Frame) (n : Inner)
    → (dropped (asked f to n)).replies n.next_call ≡ some router_changed
unfolding dropped
lost to f n = update_self n.replies n.next_call (some router_changed)
