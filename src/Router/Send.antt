-- ===== src/Router/Send.antt =====
-- `send` and `send_to`: which queue grows, and what stays.
use zapd.Prelude.{
  ℕ, ◌≡◌, refl, ◌∙◌, inl, inr, Bool-cases, Bool, true, false, ◌&&◌, Option, none, some, List, [],
  ◌∷◌, ◌++◌, arith, ◌==◌, if◌then◌else◌,
}
use zapd.Text.{Bytes, Str}
use zapd.Map.{get}
use zapd.Router.{Peer, State, send, send_peer, send_to}

-- Between the two states only the queues differ.
pub record OnlyQueues (s t : State) : Type 0 where
  pub peers : t.peers ≡ s.peers
  pub host : t.host ≡ s.host
  pub next_token : t.next_token ≡ s.next_token
  pub next_conn : t.next_conn ≡ s.next_conn
  pub receiving : t.receiving ≡ s.receiving
  pub evicted : t.evicted ≡ s.evicted

pub OnlyQueues-refl : (s : State) → OnlyQueues s s
OnlyQueues-refl s = record {
  peers = refl;
  host = refl;
  next_token = refl;
  next_conn = refl;
  receiving = refl;
  evicted = refl;
}

pub OnlyQueues-trans : {s t u : State} → OnlyQueues s t → OnlyQueues t u → OnlyQueues s u
OnlyQueues-trans h k = record {
  peers = k.peers ∙ h.peers;
  host = k.host ∙ h.host;
  next_token = k.next_token ∙ h.next_token;
  next_conn = k.next_conn ∙ h.next_conn;
  receiving = k.receiving ∙ h.receiving;
  evicted = k.evicted ∙ h.evicted;
}

-- A state with other queues.
pub OnlyQueues-queue : (s : State) (q : ℕ → List Bytes) → OnlyQueues s (record s { queue = q })
OnlyQueues-queue s q = record {
  peers = refl;
  host = refl;
  next_token = refl;
  next_conn = refl;
  receiving = refl;
  evicted = refl;
}

module _ (c : ℕ) (bytes : Bytes) (s : State) where
  pub send-OnlyQueues : OnlyQueues s (send c bytes s).0
  unfolding send
  send-OnlyQueues = elim (Bool-cases (s.receiving c)) [
    | inl e ↦ rw e (OnlyQueues-queue s _)
    | inr e ↦ rw e (OnlyQueues-refl s)
  ]

  pub queue-send :
      (d : ℕ)
      → (send c bytes s).0.queue d
        ≡ (if (c == d) && s.receiving c then s.queue d ++ (bytes ∷ []) else s.queue d)
  unfolding send
  queue-send d = ground arith

  pub sent-send : (send c bytes s).1 ≡ s.receiving c
  unfolding send
  sent-send = ground arith

-- The channel that an id is served on, if it is registered and its receiver is there.
unfoldable pub reach_of : (ℕ → Bool) → Option Peer → Option ℕ
reach_of receiving none = none
reach_of receiving (some p) = if receiving p.tx then some p.tx else none

unfoldable pub reach : Str → State → Option ℕ
unfolding reach_of
reach id s = reach_of s.receiving (get s.peers id)

pub reach-OnlyQueues : {s t : State} (id : Str) → OnlyQueues s t → reach id t ≡ reach id s
unfolding reach
reach-OnlyQueues id q = rw (q.receiving, q.peers)

abbrev pub grown : Option ℕ → ℕ → Bytes → List Bytes → List Bytes
grown none d bytes q = q
grown (some c) d bytes q = if c == d then q ++ (bytes ∷ []) else q

abbrev pub is_some : Option ℕ → Bool
is_some none = false
is_some (some c) = true

module _ (bytes : Bytes) (s : State) where
  send_peer-OnlyQueues : (p : Option Peer) → OnlyQueues s (send_peer p bytes s).0
  unfolding send_peer
  send_peer-OnlyQueues none = OnlyQueues-refl s
  send_peer-OnlyQueues (some p) = send-OnlyQueues p.tx bytes s

  queue-send_peer :
      (p : Option Peer) (d : ℕ)
      → (send_peer p bytes s).0.queue d ≡ grown (reach_of s.receiving p) d bytes (s.queue d)
  unfolding send_peer reach_of
  queue-send_peer none d = refl
  queue-send_peer (some p) d = ground (arith, queue-send p.tx bytes s d)

  sent-send_peer : (p : Option Peer) → (send_peer p bytes s).1 ≡ is_some (reach_of s.receiving p)
  unfolding send_peer reach_of
  sent-send_peer none = refl
  sent-send_peer (some p) = ground (arith, sent-send p.tx bytes s)

module _ (id : Str) (bytes : Bytes) (s : State) where
  pub send_to-OnlyQueues : OnlyQueues s (send_to id bytes s).0
  unfolding send_to
  send_to-OnlyQueues = send_peer-OnlyQueues bytes s (get s.peers id)

  pub queue-send_to :
      (d : ℕ) → (send_to id bytes s).0.queue d ≡ grown (reach id s) d bytes (s.queue d)
  unfolding send_to reach
  queue-send_to = queue-send_peer bytes s (get s.peers id)

  pub sent-send_to : (send_to id bytes s).1 ≡ is_some (reach id s)
  unfolding send_to reach
  sent-send_to = sent-send_peer bytes s (get s.peers id)
