-- ===== src/Router/Tasks/Race.antt =====
-- A departure that is announced late: the removal and the broadcast of `handle` are under two locks.
use zapd.Prelude.{
  ℕ, ◌≡◌, ◌≢◌, inl, refl, sym, ap, ◌∙◌, subst, Bool, true, false, not, ◌&&◌, none, some, [], ◌∷◌,
  ◌++◌, arith, ◌==◌, update, update_self, update_ne,
}
use zapd.Text.{Bytes, Str}
use zapd.Map.{
  get, insert, remove, contains_key, get-remove_self, get-remove_ne, get-insert_self, get-insert_ne,
}
use zapd.Frame.Envelope.{new, encode, welcome, peer_connected, peer_disconnected}
use zapd.Frame.Control.{encode_peer, Descriptor}
use zapd.Router.{Peer, State, register, evict_old, send, router_name, broadcast}
use zapd.Router.Send.{OnlyQueues, OnlyQueues-trans, send-OnlyQueues, queue-send}
use zapd.Router.Broadcast.{broadcast-OnlyQueues, queue-broadcast_self}
use zapd.Router.Handle.{remove_current_holds}
use zapd.Router.Tasks.{
  Phase, peer_of, after_removal, Move, System, Step, pick, start, Reach, later, opened, evicting,
  welcoming, announcing, relaying, leaving, departing, aborting, enter, evict_previous, greet_back,
  announce_arrival, remove_own, announce_departure,
}
use zapd.Router.Tasks.Numbers.{seat, numbers, seat-numbers}
use zapd.Router.Tasks.Reachable.{Reach-Inv}

no_bar : (b : Bool) → (not b && false) ≡ false
no_bar true = refl
no_bar false = refl

ne_false : (m n : ℕ) → m ≢ n → (m == n) ≡ false
ne_false m n h = ground arith

step_at :
    (x : System) (k : ℕ) {s' : State} {p p' : Phase}
    → x.tasks k ≡ p
    → Move x.state p s' p'
    → Step x (record { state = s'; tasks = update x.tasks k p' })
step_at x k {s'} {p} {p'} e mv = pick k (subst (λ r. Move x.state r s' p') (sym e) mv)

module _ (s : State) (id : Str) (p : Peer) (held : get s.peers id ≡ some p) where
  abbrev freed : State
  freed = record s { peers = remove s.peers id }

  remove-Move : (c : ℕ) → Move s (leaving id c p.token) freed (departing id c)
  remove-Move c =
      subst (λ y. Move s (leaving id c p.token) y.0 (after_removal id c y.1))
        (remove_current_holds id p s held) remove_own

  module _ (b : Bool) (desc : Descriptor) (d u : ℕ) where
    abbrev joined : State
    joined = record freed { peers = (insert freed.peers id (peer_of desc d u)).0 }

    register-freed : register b id (peer_of desc d u) freed ≡ some (joined, none)
    unfolding register contains_key insert
    register-freed = rw (get-remove_self s.peers id, no_bar b) refl

    enter-Move : Move freed (opened b id desc d u) joined (evicting id d u none)
    enter-Move = enter register-freed

    skip-Move : Move joined (evicting id d u none) joined (welcoming id d u)
    unfolding evict_old
    skip-Move = evict_previous

-- Two connections under one id and an observer: the first has left its loop and holds the id, the
-- second has not registered yet.
module _ {host : Str} {may : ℕ → Bool} {x : System} (r : Reach (start host may) x) (k m : ℕ)
    (other : k ≢ m) (id : Str) (c d u : ℕ) (b : Bool) (desc : Descriptor) (p : Peer)
    (held : get x.state.peers id ≡ some p) (first : x.tasks k ≡ leaving id c p.token)
    (second : x.tasks m ≡ opened b id desc d u) (j : Str) (q : Peer) (ne : j ≢ id)
    (present : get x.state.peers j ≡ some q) (live : x.state.receiving q.tx ≡ true) where
  abbrev s2 : State
  s2 = joined x.state id p held b desc d u

  abbrev s4 : State
  s4 = (send d (encode (new welcome router_name id [])) s2).0

  abbrev s5 : State
  s5 = broadcast id peer_connected (encode_peer id) s4

  abbrev s6 : State
  s6 = broadcast id peer_disconnected (encode_peer id) s5

  abbrev x1 : System
  x1 = record { state = freed x.state id p held; tasks = update x.tasks k (departing id c) }

  abbrev x2 : System
  x2 = record { state = s2; tasks = update x1.tasks m (evicting id d u none) }

  abbrev x3 : System
  x3 = record { state = s2; tasks = update x2.tasks m (welcoming id d u) }

  abbrev x4 : System
  x4 = record { state = s4; tasks = update x3.tasks m (announcing id d u) }

  abbrev x5 : System
  x5 = record { state = s5; tasks = update x4.tasks m (relaying id d u) }

  abbrev x6 : System
  x6 = record { state = s6; tasks = update x5.tasks k (aborting c) }

  other' : m ≢ k
  other' e = other (sym e)

  waiting : x5.tasks k ≡ departing id c
  waiting =
      update_ne x4.tasks m _ k other'
      ∙ update_ne x3.tasks m _ k other'
      ∙ update_ne x2.tasks m _ k other'
      ∙ update_ne x1.tasks m _ k other'
      ∙ update_self x.tasks k _

  joined-Reach : Reach (start host may) x2
  joined-Reach = later (later r (step_at x k first (remove-Move x.state id p held c))) (
      step_at x1 m (update_ne x.tasks k _ m other ∙ second)
        (enter-Move x.state id p held b desc d u))

  welcomed-Reach : Reach (start host may) x4
  welcomed-Reach =
      later
        (later joined-Reach
          (step_at x2 m (update_self x1.tasks m _) (skip-Move x.state id p held b desc d u)))
        (step_at x3 m (update_self x2.tasks m _) greet_back)

  announced-Reach : Reach (start host may) x5
  announced-Reach = later welcomed-Reach (step_at x4 m (update_self x3.tasks m _) announce_arrival)

  welcomed : OnlyQueues s2 s4
  welcomed = send-OnlyQueues d (encode (new welcome router_name id [])) s2

  told : OnlyQueues s2 s5
  told = OnlyQueues-trans welcomed (broadcast-OnlyQueues id peer_connected (encode_peer id) s4)

  stays : get s2.peers j ≡ some q
  stays =
      get-insert_ne (remove x.state.peers id) id j (peer_of desc d u) ne
      ∙ get-remove_ne x.state.peers id j ne
      ∙ present

  -- The second connection's queue is not the observer's.
  apart : d ≢ q.tx
  apart e =
      let h = Reach-Inv r in
      let (l, f) = h.seated j q present in
      let same : m ≡ l =
        h.alone m l d u q.tx q.token (ap numbers second) (seat-numbers (x.tasks l) j q.tx q.token f)
          (inl e) in
      cc (ap seat second, ap (λ i. seat (x.tasks i)) same, f)

  not_welcomed : s4.queue q.tx ≡ x.state.queue q.tx
  not_welcomed =
      queue-send d (encode (new welcome router_name id [])) s2 q.tx
      ∙ rw (ne_false d q.tx apart) refl

  abbrev arrived : Bytes
  arrived = encode (new peer_connected router_name j (encode_peer id))

  abbrev departed : Bytes
  departed = encode (new peer_disconnected router_name j (encode_peer id))

  hears_arrival : s5.queue q.tx ≡ x.state.queue q.tx ++ (arrived ∷ [])
  hears_arrival =
      let h = (Reach-Inv welcomed-Reach).sound in
      queue-broadcast_self id peer_connected (encode_peer id) s4 j q h.distinct h.own_tx
        (ap (λ m. get m j) welcomed.peers ∙ stays) ne (ap (λ f. f q.tx) welcomed.receiving ∙ live)
      ∙ ap (λ l. l ++ (arrived ∷ [])) not_welcomed

  hears_departure : s6.queue q.tx ≡ (x.state.queue q.tx ++ (arrived ∷ [])) ++ (departed ∷ [])
  hears_departure =
      let h = (Reach-Inv announced-Reach).sound in
      queue-broadcast_self id peer_disconnected (encode_peer id) s5 j q h.distinct h.own_tx
        (ap (λ m. get m j) told.peers ∙ stays) ne (ap (λ f. f q.tx) told.receiving ∙ live)
      ∙ ap (λ l. l ++ (departed ∷ [])) hears_arrival

  newcomer_stays : get s6.peers id ≡ some (peer_of desc d u)
  newcomer_stays =
      ap (λ m. get m id) (broadcast-OnlyQueues id peer_disconnected (encode_peer id) s5).peers
      ∙ ap (λ m. get m id) told.peers
      ∙ get-insert_self (remove x.state.peers id) id (peer_of desc d u)

  -- Where the connection that holds an id has left its loop while another under the same id is about
  -- to register, the two can go on so that an observer is told of the arrival first and of the
  -- departure last, while the id stays registered to the second connection.
  pub late_departure :
      (y : System) × Reach (start host may) y
      × (get y.state.peers id ≡ some (peer_of desc d u))
      × (y.state.queue q.tx ≡ (x.state.queue q.tx ++ (arrived ∷ [])) ++ (departed ∷ []))
  late_departure = (
    x6,
    later announced-Reach (step_at x5 k waiting announce_departure),
    newcomer_stays,
    hears_departure,
  )
