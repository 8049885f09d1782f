-- ===== src/Node/Successor.antt =====
-- An answer that the router owes to a connection which was replaced meanwhile: it is sent to the id, and
-- so to the connection that took it over.
use zapd.Prelude.{
  ℕ, Bool, Option, ◌≡◌, ◌≢◌, inl, refl, sym, ap, ◌∙◌, subst, true, false, some, [], ◌∷◌, ◌++◌,
  arith, ◌==◌, if◌then◌else◌, ==_iff,
}
use zapd.Text.{Str, lit}
use zapd.Text.Utf8.{IsUtf8}
use zapd.Io.{fail, not_found}
use zapd.Map.{get}
use zapd.Frame.Envelope.{Frame, encode}
use zapd.Router.{Peer, State}
use zapd.Router.Send.{reach, reach_of, grown, queue-send_to}
use zapd.Router.Halves.{Answer, unrouted, answer_frame, answer_half}
use zapd.Router.Tasks.{System, Step, pick, start, Reach, answering, Move, answer, relaying}
use zapd.Router.Tasks.Numbers.{numbers, seat-numbers}
use zapd.Router.Tasks.Reachable.{Reach-Inv}
use zapd.Node.{Inner, answered}
use zapd.Node.Replies.{asked}
use zapd.Node.Refused.{refusal, refused}

module _ (s : State) (id : Str) (p : Peer) (held : get s.peers id ≡ some p)
    (up : s.receiving p.tx ≡ true) (a : Answer) where
  reached : reach id s ≡ some p.tx
  unfolding reach reach_of
  reached = rw (held, reach, reach_of, up) refl

  answered_queue :
      (d : ℕ)
      → (answer_half id a s).queue d
        ≡ (if p.tx == d then s.queue d ++ (encode (answer_frame id a) ∷ []) else s.queue d)
  unfolding answer_half
  answered_queue d =
      queue-send_to id (encode (answer_frame id a)) s d
      ∙ ap (λ o. grown o d (encode (answer_frame id a)) (s.queue d)) reached

-- The numbers of the registered connection are not those of one that it replaced.
successor_apart :
    {host : Str} {may : ℕ → Bool} {x : System} (r : Reach (start host may) x) (k : ℕ) (id : Str)
    (c t : ℕ) (a : Answer) (p : Peer)
    → x.tasks k ≡ answering id c t a
    → get x.state.peers id ≡ some p
    → p.token ≢ t
    → p.tx ≢ c
successor_apart {x} r k id c t a p e held ne same =
    let h = Reach-Inv r in
    let (l, at) = h.seated id p held in
    let mine : numbers (x.tasks k) ≡ some (c, t) = ap numbers e in
    let theirs = seat-numbers (x.tasks l) id p.tx p.token at in
    let one : k ≡ l = h.alone k l c t p.tx p.token mine theirs (inl (sym same)) in
    let both : ◌≡◌ {A = Option (ℕ × ℕ)} (some (c, t)) (some (p.tx, p.token)) =
      sym mine ∙ ap (λ i. numbers (x.tasks i)) one ∙ theirs in
    ne (cc)

-- Where a connection has found no node under the name that it called, and another has taken over
-- its id before it tells its own node so: the next step of the replaced one puts the refusal into the
-- queue of the other and nothing into its own, and a node there that has called the same name by then
-- is told that its call failed.
pub refusal_misled :
    {host : Str} {may : ℕ → Bool} {x : System} (r : Reach (start host may) x) (k : ℕ)
    (id dest : Str) (c t : ℕ) (p : Peer) (f : Frame) (n : Inner)
    → x.tasks k ≡ answering id c t (unrouted dest)
    → get x.state.peers id ≡ some p
    → p.token ≢ t
    → x.state.receiving p.tx ≡ true
    → IsUtf8 dest
    → (y : System) × Step x y
      × (y.state.queue p.tx ≡ x.state.queue p.tx ++ (encode (refusal id dest) ∷ []))
      × (y.state.queue c ≡ x.state.queue c)
      × ((answered (refusal id dest) (asked f dest n)).replies n.next_call
          ≡ some (fail not_found (lit "no_route:" ++ dest)))
unfolding answer_frame
refusal_misled {x} r k id dest c t p f n e held ne up utf8 =
    let s = x.state in
    let apart = successor_apart r k id c t (unrouted dest) p e held ne in
    let here : (p.tx == p.tx) ≡ true = (==_iff p.tx p.tx).1 refl in
    let there : (p.tx == c) ≡ false = ground (arith, apart) in
    (
      _,
      pick k (
          subst (λ q. Move s q (answer_half id (unrouted dest) s) (relaying id c t)) (sym e)
            answer),
      answered_queue s id p held up (unrouted dest) p.tx ∙ rw here refl,
      answered_queue s id p held up (unrouted dest) c ∙ rw there refl,
      refused id dest f n utf8,
    )
