-- ===== src/Router/Tasks/Reachable.antt =====
-- The invariant holds in every reachable state.
use zapd.Prelude.{ℕ, ◌≡◌, refl, sym, subst, Bool, true, false, Option, none, some, update}
use zapd.Text.{Str}
use zapd.Map.{get}
use zapd.Frame.Control.{Descriptor}
use zapd.Router.{Peer, State, register, evict_old, remove_current}
use zapd.Router.Send.{OnlyQueues-refl, send-OnlyQueues}
use zapd.Router.Broadcast.{broadcast-OnlyQueues}
use zapd.Router.Registry.{register-eq_some}
use zapd.Router.Halves.{first_half-OnlyQueues, answer_half-OnlyQueues}
use zapd.Router.Tasks.Numbers.{writer-waits}
use zapd.Router.Tasks.{
  Phase, peer_of, after_removal, Move, System, Step, pick, start, Reach, here, later, evicting,
  welcoming, opened, leaving, hear, turn_away, refuse, open_channels, bounce, enter, evict_previous,
  greet_back, announce_arrival, relay, relay_half, answer, break_writer, end_stream, obey,
  remove_own, announce_departure, abort_writer,
}
use zapd.Router.Tasks.Invariant.{Inv}
use zapd.Router.Tasks.Invariant.Quiet.{Quiet, Quiet-Inv, OnlyQueues-Quiet, receiving-Quiet}
use zapd.Router.Tasks.Invariant.Enter.{opened-Inv, entered-Inv}
use zapd.Router.Tasks.Invariant.Leave.{told-Inv, gone-Inv}

module _ (s : State) (tasks : ℕ → Phase) (k : ℕ) (h : Inv s tasks) where
  quiet : {s' : State} {p p' : Phase} → tasks k ≡ p → Quiet s p s' p' → Inv s' (update tasks k p')
  quiet {s'} {p} {p'} e q = Quiet-Inv s s' tasks k p' (subst (λ r. Quiet s r s' p') (sym e) q) h

  enter-Inv :
      (t : Bool) (id : Str) (desc : Descriptor) (c token : ℕ) (s' : State) (old : Option Peer)
      → tasks k ≡ opened t id desc c token
      → register t id (peer_of desc c token) s ≡ some (s', old)
      → Inv s' (update tasks k (evicting id c token old))
  enter-Inv t id desc c token s' old e r =
      let (se, oe, _) = register-eq_some t id (peer_of desc c token) s s' old r in
      subst (λ o. Inv s' (update tasks k (evicting id c token o))) (sym oe)
        (subst (λ u. Inv u (update tasks k (evicting id c token (get s.peers id)))) (sym se)
          (entered-Inv s tasks k h t id desc c token e))

  evict-Inv :
      (id : Str) (c token : ℕ) (old : Option Peer)
      → tasks k ≡ evicting id c token old
      → Inv (evict_old old s) (update tasks k (welcoming id c token))
  unfolding evict_old
  evict-Inv id c token none e = quiet e (OnlyQueues-Quiet (OnlyQueues-refl s) refl (λ x f. f) refl)
  evict-Inv id c token (some old) e = told-Inv s tasks k h id c token old e

  remove-Inv :
      (id : Str) (c token : ℕ) (b : Bool)
      → tasks k ≡ leaving id c token
      → Inv (remove_current id token s).0 (update tasks k (after_removal id c b))
  remove-Inv id c token true e = gone-Inv s tasks k h id c token e _ refl refl
  remove-Inv id c token false e = gone-Inv s tasks k h id c token e _ refl refl

  Move-Inv : {p p' : Phase} {s' : State} → tasks k ≡ p → Move s p s' p' → Inv s' (update tasks k p')
  Move-Inv e (hear rd rd' g) = quiet e (OnlyQueues-Quiet (OnlyQueues-refl s) refl (λ x f. f) refl)
  Move-Inv e (turn_away rd g) = quiet e (OnlyQueues-Quiet (OnlyQueues-refl s) refl (λ x f. f) refl)
  Move-Inv e (refuse rd out x g) =
      quiet e (OnlyQueues-Quiet (OnlyQueues-refl s) refl (λ x f. f) refl)
  Move-Inv e (open_channels {t} {id} {desc}) = opened-Inv s tasks k h t id desc e
  Move-Inv e (bounce {c} r) = quiet e (receiving-Quiet s c refl (λ x f. cc) refl)
  Move-Inv e (enter {t} {id} {desc} {c} {token} {s'} {old} r) =
      enter-Inv t id desc c token s' old e r
  Move-Inv e (evict_previous {id} {c} {token} {old}) = evict-Inv id c token old e
  Move-Inv e (greet_back {id} {c}) =
      quiet e (OnlyQueues-Quiet (send-OnlyQueues c _ s) refl (λ x f. f) refl)
  Move-Inv e (announce_arrival {id}) =
      quiet e (OnlyQueues-Quiet (broadcast-OnlyQueues id _ _ s) refl (λ x f. f) refl)
  Move-Inv e (relay {id} f n) =
      quiet e (OnlyQueues-Quiet (first_half-OnlyQueues id f s) refl (λ x f. f) refl)
  Move-Inv e (relay_half {id} f a p) =
      quiet e (OnlyQueues-Quiet (first_half-OnlyQueues id f s) refl (λ x f. f) refl)
  Move-Inv e (answer {id} {a = a}) =
      quiet e (OnlyQueues-Quiet (answer_half-OnlyQueues id a s) refl (λ x f. f) refl)
  Move-Inv e (break_writer {p} {c} w) =
      quiet e (receiving-Quiet s c refl (λ x f. f) (writer-waits p c w))
  Move-Inv e end_stream = quiet e (OnlyQueues-Quiet (OnlyQueues-refl s) refl (λ x f. f) refl)
  Move-Inv e (obey t) = quiet e (OnlyQueues-Quiet (OnlyQueues-refl s) refl (λ x f. f) refl)
  Move-Inv e (remove_own {id} {c} {token}) = remove-Inv id c token (remove_current id token s).1 e
  Move-Inv e (announce_departure {id}) =
      quiet e (OnlyQueues-Quiet (broadcast-OnlyQueues id _ _ s) refl (λ x f. f) refl)
  Move-Inv e (abort_writer {c}) = quiet e (receiving-Quiet s c refl (λ x f. f) refl)

pub Step-Inv : {x y : System} → Step x y → Inv x.state x.tasks → Inv y.state y.tasks
Step-Inv {x} (pick k mv) h = Move-Inv x.state x.tasks k h refl mv

start-Inv : (host : Str) (may : ℕ → Bool) → Inv (start host may).state (start host may).tasks
unfolding get
start-Inv host may = record {
  sound = record {
    distinct = tt;
    own_tx = λ j k p q e. absurd (cc);
    opened = λ j p e. absurd (cc);
    issued = λ j p e. absurd (cc);
  };
  own_evict = λ j p e. absurd (cc);
  seated = λ j p e. absurd (cc);
  given = λ k c t e. absurd (cc);
  alone = λ k l c t d u e. absurd (cc);
  told = λ k id c t e. absurd (cc);
}

pub Reach-Inv :
    {host : Str} {may : ℕ → Bool} {x : System} → Reach (start host may) x → Inv x.state x.tasks
Reach-Inv {host} {may} here = start-Inv host may
Reach-Inv (later r st) = Step-Inv st (Reach-Inv r)
