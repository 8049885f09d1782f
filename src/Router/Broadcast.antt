-- ===== src/Router/Broadcast.antt =====
-- `broadcast`: one frame to every registered peer but the subject.
use zapd.Prelude.{
  ℕ, ◌≡◌, ◌≢◌, refl, sym, ap, subst, ◌∙◌, true, false, some, [], ◌∷◌, ◌++◌, arith, if◌then◌else◌,
  Bool-cases, inl, inr,
}
use zapd.Text.{Bytes, Str}
use zapd.Text.Equal.{str_eq, str_eq_iff}
use zapd.Map.{Map, get, Distinct, get-cons, get-cons_self}
use zapd.Frame.Envelope.{new, encode}
use zapd.Router.{Peer, State, send, router_name, broadcast_loop, broadcast}
use zapd.Router.Send.{OnlyQueues, OnlyQueues-refl, OnlyQueues-trans, send-OnlyQueues, queue-send}

-- No two ids are served on one channel.
abbrev pub OwnTx : Map Peer → Type 0
OwnTx m = (j k : Str) (p q : Peer) → get m j ≡ some p → get m k ≡ some q → p.tx ≡ q.tx → j ≡ k

-- Nobody but `except` is served on `d`.
abbrev Avoids : Map Peer → Str → ℕ → Type 0
Avoids m except d = (j : Str) (q : Peer) → get m j ≡ some q → j ≢ except → q.tx ≢ d

head_eq :
    (pid : Str) (q : Peer) (m : Map Peer) (id : Str) (p : Peer)
    → pid ≡ id
    → get ((pid, q) ∷ m) id ≡ some p
    → q ≡ p
unfolding get
head_eq pid q m id p same e = ground (arith, str_eq_iff pid id)

tail_eq :
    (pid : Str) (q : Peer) (m : Map Peer) (id : Str) (p : Peer)
    → str_eq pid id ≡ false
    → get ((pid, q) ∷ m) id ≡ some p
    → get m id ≡ some p
unfolding get
tail_eq pid q m id p f e = ground arith

module _ (except : Str) (typ : ℕ) (payload : Bytes) where
  -- What one round of the loop does.
  round : Str → Peer → State → State
  round pid p s =
      if str_eq pid except then s else (send p.tx (encode (new typ router_name pid payload)) s).0

  round-OnlyQueues : (pid : Str) (p : Peer) (s : State) → OnlyQueues s (round pid p s)
  unfolding round
  round-OnlyQueues pid p s = elim (Bool-cases (str_eq pid except)) [
    | inl e ↦ rw e (OnlyQueues-refl s)
    | inr e ↦ rw e (send-OnlyQueues p.tx _ s)
  ]

  queue-round_ne :
      (pid : Str) (p : Peer) (s : State) (d : ℕ)
      → (pid ≢ except → p.tx ≢ d)
      → (round pid p s).queue d ≡ s.queue d
  unfolding round
  queue-round_ne pid p s d h = elim (Bool-cases (str_eq pid except)) [
    | inl e ↦ rw e
    | inr e ↦
        let ne : pid ≢ except = λ q. cc ((str_eq_iff pid except).1 q, e) in
        let tx : p.tx ≢ d = h ne in rw e (queue-send p.tx _ s d ∙ ground arith)
  ]

  queue-round_self :
      (pid : Str) (p : Peer) (s : State)
      → pid ≢ except
      → s.receiving p.tx ≡ true
      → (round pid p s).queue p.tx ≡ s.queue p.tx ++ (encode (new typ router_name pid payload) ∷ [])
  unfolding round
  queue-round_self pid p s ne live = elim (Bool-cases (str_eq pid except)) [
    | inl e ↦ absurd (ne ((str_eq_iff pid except).0 e))
    | inr e ↦ rw e (queue-send p.tx _ s p.tx ∙ ground arith)
  ]

  loop-OnlyQueues :
      (m : Map Peer) (s : State) → OnlyQueues s (broadcast_loop m except typ payload s)
  unfolding broadcast_loop round
  loop-OnlyQueues [] s = OnlyQueues-refl s
  loop-OnlyQueues ((pid, p) ∷ m) s =
      OnlyQueues-trans (round-OnlyQueues pid p s) (loop-OnlyQueues m (round pid p s))

  queue-loop_ne :
      (m : Map Peer) (s : State) (d : ℕ)
      → Distinct m
      → Avoids m except d
      → (broadcast_loop m except typ payload s).queue d ≡ s.queue d
  unfolding broadcast_loop round
  queue-loop_ne [] s d h a = refl
  queue-loop_ne ((pid, p) ∷ m) s d h a =
      queue-loop_ne m (round pid p s) d h.1 (λ j q e. a j q (get-cons pid p m j q h e))
      ∙ queue-round_ne pid p s d (a pid p (get-cons_self pid p m))

  queue-loop_self :
      (m : Map Peer) (s : State) (id : Str) (p : Peer)
      → Distinct m
      → OwnTx m
      → get m id ≡ some p
      → id ≢ except
      → s.receiving p.tx ≡ true
      → (broadcast_loop m except typ payload s).queue p.tx
        ≡ s.queue p.tx ++ (encode (new typ router_name id payload) ∷ [])
  unfolding round broadcast_loop
  queue-loop_self [] s id p h own e ne live = unfold get in cc
  queue-loop_self ((pid, q) ∷ m) s id p h own e ne live = elim (Bool-cases (str_eq pid id)) [
    | inl t ↦
        let same : pid ≡ id = (str_eq_iff pid id).0 t in
        let q_eq : q ≡ p = head_eq pid q m id p same e in
        let avoid : Avoids m except p.tx = λ j r er _ tx.
          cc (h.0, er, ap (get m) (own j id r p (get-cons pid q m j r h er) e tx ∙ sym same)) in
        queue-loop_ne m (round pid q s) p.tx h.1 avoid
        ∙ subst
            (λ r.
              (round pid r s).queue p.tx
              ≡ s.queue p.tx ++ (encode (new typ router_name id payload) ∷ []))
            (sym q_eq)
            (subst
              (λ k.
                (round k p s).queue p.tx
                ≡ s.queue p.tx ++ (encode (new typ router_name id payload) ∷ []))
              (sym same) (queue-round_self id p s ne live))
    | inr f ↦
        let tail : get m id ≡ some p = tail_eq pid q m id p f e in
        let other : q.tx ≢ p.tx =
          λ tx. cc ((str_eq_iff pid id).1 (own pid id q p (get-cons_self pid q m) e tx), f) in
        queue-loop_self m (round pid q s) id p h.1
          (λ j k a b ea eb. own j k a b (get-cons pid q m j a h ea) (get-cons pid q m k b h eb))
          tail ne (ap (λ r. r p.tx) (round-OnlyQueues pid q s).receiving ∙ live)
        ∙ ap (λ x. x ++ (encode (new typ router_name id payload) ∷ []))
            (queue-round_ne pid q s p.tx (λ _. other))
  ]

module _ (except : Str) (typ : ℕ) (payload : Bytes) (s : State) where
  pub broadcast-OnlyQueues : OnlyQueues s (broadcast except typ payload s)
  unfolding broadcast
  broadcast-OnlyQueues = loop-OnlyQueues except typ payload s.peers s

  -- Every registered peer but the subject gets the frame, once, behind what it was sent before.
  pub queue-broadcast_self :
      (id : Str) (p : Peer)
      → Distinct s.peers
      → OwnTx s.peers
      → get s.peers id ≡ some p
      → id ≢ except
      → s.receiving p.tx ≡ true
      → (broadcast except typ payload s).queue p.tx
        ≡ s.queue p.tx ++ (encode (new typ router_name id payload) ∷ [])
  unfolding broadcast
  queue-broadcast_self id p h own e ne live =
      queue-loop_self except typ payload s.peers s id p h own e ne live

  -- And nobody else does.
  pub queue-broadcast_ne :
      (d : ℕ)
      → Distinct s.peers
      → ((j : Str) (q : Peer) → get s.peers j ≡ some q → j ≢ except → q.tx ≢ d)
      → (broadcast except typ payload s).queue d ≡ s.queue d
  unfolding broadcast
  queue-broadcast_ne d h a = queue-loop_ne except typ payload s.peers s d h a
