-- ===== src/Router/Tasks/Runs.antt =====
-- `handle`, with no other connection at work meanwhile, is a run of the connection's moves.
use zapd.Prelude.{
  ℕ, zero, suc, ◌≡◌, inl, inr, refl, sym, ap, ◌∙◌, subst, Bool, true, false, Option, none, some,
  List, length, Option-cases, if◌then◌else◌, update,
}
use zapd.Text.{Bytes, Str}
use zapd.Io.{Result, Result-cases}
use zapd.Frame.Envelope.{Frame, Stream, read, peer_disconnected}
use zapd.Frame.Control.{Descriptor, encode_peer}
use zapd.Router.{
  Peer, State, Hello, gone, refused, greeted, greet, open_conn, register, evict_old, announce,
  route_frame, route_loop, remove_current, depart, serve, taken, admit, handle, broadcast,
}
use zapd.Router.Life.{newcomer, serve_inv, handle_total}
use zapd.Router.Halves.{first_half, answer_half, finish, route_frame-halves}
use zapd.Router.Tasks.{
  Phase, fresh, named, opened, evicting, relaying, leaving, done, after_removal, Move, hear,
  turn_away, refuse, open_channels, bounce, enter, evict_previous, greet_back, announce_arrival,
  relay, relay_half, answer, end_stream, remove_own, announce_departure, abort_writer,
}

pub data Run : State → Phase → State → Phase → Type 0 where
  stop : {s : State} {p : Phase} → Run s p s p
  move : {s t u : State} {p q r : Phase} → Move s p t q → Run t q u r → Run s p u r

Run-trans : {s t u : State} {p q r : Phase} → Run s p t q → Run t q u r → Run s p u r
Run-trans stop b = b
Run-trans (move m a) b = move m (Run-trans a b)

frame-Run :
    (s : State) (id : Str) (c token : ℕ) (f : Frame)
    → Run s (relaying id c token) (route_frame id f s) (relaying id c token)
frame-Run s id c token f =
    let Ends : State → Type 0 = λ t. Run s (relaying id c token) t (relaying id c token) in
    let halves = route_frame-halves id f s in
    elim (Option-cases (first_half id f s).1) [
      | inl n ↦
          let e : route_frame id f s ≡ (first_half id f s).0 =
            halves ∙ ap (λ o. finish id ((first_half id f s).0, o)) n in
          subst Ends (sym e) (move (relay f n) stop)
      | inr (a, p) ↦
          let e : route_frame id f s ≡ answer_half id a (first_half id f s).0 =
            halves ∙ ap (λ o. finish id ((first_half id f s).0, o)) p in
          subst Ends (sym e) (move (relay_half f a p) (move answer stop))
    ]

loop-Run :
    (fuel : ℕ) (rd : Stream) (id : Str) (c token : ℕ) (s t : State) (r : Result (Unit {0}))
    → route_loop fuel rd id s ≡ some (r, t)
    → Run s (relaying id c token) t (relaying id c token)
unfolding route_loop
loop-Run zero rd id c token s t r e = absurd (cc)
loop-Run (suc fuel) rd id c token s t r e = elim (Result-cases (read rd)) [
  | inl ((some f, rd'), q) ↦
      Run-trans (frame-Run s id c token f)
        (loop-Run fuel rd' id c token (route_frame id f s) t r (rw (q, route_loop) at e))
  | inl ((none, rd'), q) ↦
      let e' = rw (q, route_loop) at e in
      subst (λ u. Run s (relaying id c token) u (relaying id c token)) (cc) stop
  | inr (x, q) ↦
      let e' = rw (q, route_loop) at e in
      subst (λ u. Run s (relaying id c token) u (relaying id c token)) (cc) stop
]

-- The state without the receiver of a connection.
abbrev without : ℕ → State → State
without c s = record s { receiving = update s.receiving c false }

removed-Run :
    (u : State) (id : Str) (c : ℕ) (b : Bool)
    → Run u
        (after_removal id c b)
        (without c (if b then broadcast id peer_disconnected (encode_peer id) u else u))
        done
removed-Run u id c true = move announce_departure (move abort_writer stop)
removed-Run u id c false = move abort_writer stop

depart-Run :
    (s : State) (id : Str) (c token : ℕ) → Run s (leaving id c token) (depart id token c s) done
unfolding depart
depart-Run s id c token =
    let (u, b) = remove_current id token s in move remove_own (removed-Run u id c b)

arrive-Run :
    (s : State) (id : Str) (c token : ℕ) (old : Option Peer)
    → Run s (evicting id c token old) (announce id c (evict_old old s)) (relaying id c token)
unfolding announce
arrive-Run s id c token old = move evict_previous (move greet_back (move announce_arrival stop))

serve-Run :
    (id : Str) (c token : ℕ) (rd : Stream) (old : Option Peer) (s t : State)
    (x : List Bytes × Result (Unit {0}))
    → serve id c token rd old s ≡ some (x, t)
    → Run s (evicting id c token old) t done
serve-Run id c token rd old s t x e =
    let (u, r, l, te) = serve_inv id c token rd old s x t e in
    subst (λ v. Run s (evicting id c token old) v done) (sym te)
      (Run-trans (arrive-Run s id c token old) (
        Run-trans
          (loop-Run (suc (length rd.bytes)) rd id c token (announce id c (evict_old old s)) u r l)
          (move end_stream (depart-Run u id c token))))

taken-state : (id : Str) (c : ℕ) (s : State) → (taken id c s).1 ≡ without c s
unfolding taken
taken-state id c s = refl

admit-Run :
    (id : Str) (desc : Descriptor) (rd : Stream) (take_over : Bool) (s t : State)
    (x : List Bytes × Result (Unit {0}))
    → admit id desc rd take_over s ≡ some (x, t)
    → Run s (named take_over id desc) t done
unfolding admit open_conn
admit-Run id desc rd take_over s t x e =
    move open_channels
      (elim (Option-cases (register take_over id (newcomer desc s) (open_conn s).0)) [
        | inl q ↦
            let e' = rw (q, admit) at e in
            let same : taken id s.next_conn (open_conn s).0 ≡ (x, t) = cc in
            subst
              (λ u. Run (open_conn s).0 (opened take_over id desc s.next_conn s.next_token) u done)
              (sym (taken-state id s.next_conn (open_conn s).0) ∙ ap (λ y. y.1) same)
              (move (bounce q) stop)
        | inr ((s', old), q) ↦
            move (enter q)
              (serve-Run id s.next_conn s.next_token rd old s' t x (rw (q, admit) at e))
      ])

outcome-Run :
    (rd : Stream) (take_over : Bool) (s t : State) (x : List Bytes × Result (Unit {0}))
    → handle rd take_over s ≡ some (x, t)
    → Run s (fresh take_over) t done
unfolding handle
outcome-Run rd take_over s t x e = by_hello (greet s.host rd) refl
  where
    by_hello : (h : Hello) → greet s.host rd ≡ h → Run s (fresh take_over) t done
    by_hello gone q =
        let e' = rw (q, handle) at e in
        subst (λ u. Run s (fresh take_over) u done) (cc) (move (turn_away rd q) stop)
    by_hello (refused out y) q =
        let e' = rw (q, handle) at e in
        subst (λ u. Run s (fresh take_over) u done) (cc) (move (refuse rd out y q) stop)
    by_hello (greeted id desc rd') q =
        let e' = rw (q, handle) at e in
        move (hear rd rd' q) (admit-Run id desc rd' take_over s t x e')

-- `handle` always comes to an outcome, and that is one to which the moves of a single connection come,
-- from its `hello` to its end.
pub handle-Run :
    (rd : Stream) (take_over : Bool) (s : State)
    → (x : List Bytes × Result (Unit {0})) × (t : State) × (handle rd take_over s ≡ some (x, t))
      × Run s (fresh take_over) t done
handle-Run rd take_over s = elim (Option-cases (handle rd take_over s)) [
  | inl n ↦ absurd (handle_total rd take_over s n)
  | inr ((x, t), e) ↦ (x, t, e, outcome-Run rd take_over s t x e)
]
