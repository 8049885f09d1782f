-- ===== src/Router/Handle.antt =====
-- The life of a connection: registration, arrival, departure, and `handle` as a whole.
use zapd.Prelude.{
  ℕ, ◌≡◌, ◌≢◌, ◌↔◌, sym, ap, ◌∙◌, Bool, true, false, Option, none, some, [], ◌∷◌, ◌++◌, arith, ◌==◌,
  if◌then◌else◌, Option-cases, inl, inr, update,
}
use zapd.Text.{Str}
use zapd.Text.Equal.{str_eq}
use zapd.Map.{get, contains_key, remove, get-insert, get-remove_self, get-remove_ne}
use zapd.Frame.Envelope.{new, encode, welcome, peer_connected, peer_disconnected}
use zapd.Frame.Control.{encode_peer}
use zapd.Router.{Peer, State, send, router_name, register, announce, remove_current, depart}
use zapd.Router.Send.{send-OnlyQueues, queue-send}
use zapd.Router.Broadcast.{broadcast-OnlyQueues, queue-broadcast_self, queue-broadcast_ne}
use zapd.Router.Registry.{IsSound, OnlyQueues-IsSound, register-eq_some, remove-IsSound}

-- A `hello` is refused exactly if it may not take over and its id is registered.
pub register_iff :
    (take_over : Bool) (id : Str) (p : Peer) (s : State)
    → (register take_over id p s ≡ none) ↔ ((take_over ≡ false) × (get s.peers id ≢ none))
unfolding register contains_key
register_iff take_over id p s = (λ e. ground arith, λ (b, n). ground arith)

-- A registration gives the id to the newcomer, hands back the entry that it replaces, and touches no
-- other id.
pub register_ok :
    (take_over : Bool) (id : Str) (p : Peer) (s t : State) (old : Option Peer) (j : Str)
    → register take_over id p s ≡ some (t, old)
    → (get t.peers j ≡ (if str_eq id j then some p else get s.peers j)) × (old ≡ get s.peers id)
register_ok take_over id p s t old j e =
    let (te, oe, _) = register-eq_some take_over id p s t old e in
    (rw te (get-insert s.peers id j p), oe)

pub remove_current_holds :
    (id : Str) (p : Peer) (s : State)
    → get s.peers id ≡ some p
    → remove_current id p.token s ≡ (record s { peers = remove s.peers id }, true)
unfolding remove_current
remove_current_holds id p s e = rw e (ground arith)

-- When the connection that holds its id ends, the id is free, every other peer stays registered and
-- is told, once.
pub depart_current :
    (id : Str) (c : ℕ) (p : Peer) (s : State) (j : Str) (q : Peer)
    → IsSound s
    → get s.peers id ≡ some p
    → get s.peers j ≡ some q
    → j ≢ id
    → s.receiving q.tx ≡ true
    → (get (depart id p.token c s).peers id ≡ none)
      × (get (depart id p.token c s).peers j ≡ some q)
      × ((depart id p.token c s).queue q.tx
          ≡ s.queue q.tx ++ (encode (new peer_disconnected router_name j (encode_peer id)) ∷ []))
unfolding depart
depart_current id c p s j q h e ej ne live =
    let s' : State = record s { peers = remove s.peers id } in
    let h' : IsSound s' = remove-IsSound s h id in
    let stays : get s'.peers j ≡ some q = get-remove_ne s.peers id j ne ∙ ej in
    let only = broadcast-OnlyQueues id peer_disconnected (encode_peer id) s' in
    rw (remove_current_holds id p s e, depart)
      (
        ap (λ m. get m id) only.peers ∙ get-remove_self s.peers id,
        ap (λ m. get m j) only.peers ∙ stays,
        queue-broadcast_self id peer_disconnected (encode_peer id) s' j q h'.distinct h'.own_tx
            stays ne live,
      )

token_ne : (m n : ℕ) → m ≢ n → (m == n) ≡ false
token_ne m n h = ground arith

remove_current_stale :
    (id : Str) (token : ℕ) (s : State)
    → ((p : Peer) → get s.peers id ≡ some p → p.token ≢ token)
    → remove_current id token s ≡ (s, false)
unfolding remove_current
remove_current_stale id token s n = elim (Option-cases (get s.peers id)) [
  | inl e ↦ rw e
  | inr (p, e) ↦
      let other : (p.token == token) ≡ false = token_ne p.token token (n p e) in rw (e, other)
]

-- When a connection ends whose id a newer one took over, or that nobody holds, the registry stays as
-- it is, nobody is told anything, and only its own receiver is dropped.
pub depart_stale :
    (id : Str) (token c : ℕ) (s : State)
    → ((p : Peer) → get s.peers id ≡ some p → p.token ≢ token)
    → depart id token c s ≡ record s { receiving = update s.receiving c false }
unfolding depart
depart_stale id token c s n = rw (remove_current_stale id token s n, depart)

-- On arrival the newcomer is welcomed by its full id, before anything else, and every other peer is
-- told of it, once.
pub announce_lem :
    (id : Str) (p : Peer) (s : State) (j : Str) (q : Peer)
    → IsSound s
    → get s.peers id ≡ some p
    → s.receiving p.tx ≡ true
    → get s.peers j ≡ some q
    → j ≢ id
    → s.receiving q.tx ≡ true
    → ((announce id p.tx s).queue p.tx
        ≡ s.queue p.tx ++ (encode (new welcome router_name id []) ∷ []))
      × ((announce id p.tx s).queue q.tx
          ≡ s.queue q.tx ++ (encode (new peer_connected router_name j (encode_peer id)) ∷ []))
unfolding announce
announce_lem id p s j q h e live ej ne livej =
    let bytes = encode (new welcome router_name id []) in
    let s' : State = (send p.tx bytes s).0 in
    let only = send-OnlyQueues p.tx bytes s in
    let h' : IsSound s' = OnlyQueues-IsSound only h in
    let at : (k : Str) → get s'.peers k ≡ get s.peers k = λ k. ap (λ m. get m k) only.peers in
    let apart : p.tx ≢ q.tx = λ t. ne (h.own_tx j id q p ej e (sym t)) in
    let alone : (k : Str) (r : Peer) → get s'.peers k ≡ some r → k ≢ id → r.tx ≢ p.tx =
      λ k r er nk t. nk (h.own_tx k id r p (sym (at k) ∙ er) e t) in
    (
      queue-broadcast_ne id peer_connected (encode_peer id) s' p.tx h'.distinct alone
          ∙ queue-send p.tx bytes s p.tx
          ∙ ground arith,
      queue-broadcast_self id peer_connected (encode_peer id) s' j q h'.distinct h'.own_tx
            (at j ∙ ej) ne (ap (λ r. r q.tx) only.receiving ∙ livej)
          ∙ ap (λ x. x ++ (encode (new peer_connected router_name j (encode_peer id)) ∷ []))
              (queue-send p.tx bytes s q.tx ∙ ground arith),
    )
