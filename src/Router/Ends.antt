-- ===== src/Router/Ends.antt =====
-- What a connection that has come and gone leaves in the registry.
use zapd.Prelude.{
  ℕ, ◌≡◌, ◌≢◌, ◌⊎◌, refl, sym, ap, subst, ◌∙◌, Bool, true, false, none, some, List, arith,
  Bool-cases, inl, inr,
}
use zapd.Text.{Bytes, Str}
use zapd.Text.Equal.{str_eq, str_eq_iff}
use zapd.Io.{Result}
use zapd.Map.{get, insert, get-insert_ne, get-insert_self, get-remove_self, get-remove_ne}
use zapd.Frame.Envelope.{Stream, peer_disconnected}
use zapd.Frame.Control.{Descriptor, encode_peer}
use zapd.Router.{
  Peer, State, greeted, greet, open_conn, holds_token, remove_current, depart, taken, admit, handle,
}
use zapd.Router.Broadcast.{broadcast-OnlyQueues}
use zapd.Router.Registry.{
  IsSound, open_conn-IsSound, insert-IsSound, register-eq_some, remove_current-IsSound,
}
use zapd.Router.Handle.{remove_current_holds}
use zapd.Router.Life.{
  SameRegistry, SameRegistry-IsSound, loop-same, newcomer, serve_inv, admit_inv, handle_inv,
}

-- The registry after a departure is that after the removal.
depart-same :
    (id : Str) (token c : ℕ) (s : State)
    → SameRegistry (remove_current id token s).0 (depart id token c s)
unfolding depart
depart-same id token c s = elim (Bool-cases (remove_current id token s).1) [
  | inl e ↦
      let only =
        broadcast-OnlyQueues id peer_disconnected (encode_peer id) (remove_current id token s).0 in
      rw e (record { peers = only.peers; next_token = only.next_token; next_conn = only.next_conn })
  | inr e ↦ rw e (record { peers = refl; next_token = refl; next_conn = refl })
]

pub depart-IsSound :
    (id : Str) (token c : ℕ) (s : State) → IsSound s → IsSound (depart id token c s)
depart-IsSound id token c s h =
    SameRegistry-IsSound (depart-same id token c s) (remove_current-IsSound s h id token)

remove_current_ne :
    (id : Str) (token : ℕ) (s : State) (j : Str)
    → j ≢ id
    → get (remove_current id token s).0.peers j ≡ get s.peers j
unfolding remove_current
remove_current_ne id token s j ne = elim (Bool-cases (holds_token (get s.peers id) token)) [
  | inl e ↦ rw e (get-remove_ne s.peers id j ne)
  | inr e ↦ rw e
]

taken-same : (id : Str) (c : ℕ) (s : State) → SameRegistry s (taken id c s).1
unfolding taken
taken-same id c s = record { peers = refl; next_token = refl; next_conn = refl }

-- The state after a registration that succeeds.
registered : Str → Descriptor → State → State
registered id desc s = record (open_conn s).0 { peers = (insert s.peers id (newcomer desc s)).0 }

registered-IsSound :
    (id : Str) (desc : Descriptor) (s : State) → IsSound s → IsSound (registered id desc s)
unfolding registered open_conn
registered-IsSound id desc s h =
    insert-IsSound (open_conn s).0 (open_conn-IsSound s h) id (newcomer desc s) (omega arith)
      (omega arith) (λ j q e t. absurd (omega (arith, h.opened j q e)))

module _ (id : Str) (desc : Descriptor) (rd : Stream) (take_over : Bool) (s : State) where
  -- An admitted connection either was refused its id, and the registry is as it was, or departs from
  -- a state with the registry of its registration.
  admit-ends :
      (x : List Bytes × Result (Unit {0})) (t : State)
      → admit id desc rd take_over s ≡ some (x, t)
      → SameRegistry (open_conn s).0 t
        ⊎ ((u : State) × SameRegistry (registered id desc s) u
            × (t ≡ depart id s.next_token s.next_conn u)
            × ((take_over ≡ true) ⊎ (get s.peers id ≡ none)))
  unfolding registered open_conn
  admit-ends x t e = elim (admit_inv id desc rd take_over s x t e) [
    | inl q ↦ inl (
        subst (λ u. SameRegistry (open_conn s).0 u) (sym (ap (λ y. y.1) q))
          (taken-same id s.next_conn (open_conn s).0))
    | inr (s', old, q, sv) ↦
        let (se, _, ok_) = register-eq_some take_over id (newcomer desc s) _ s' old q in
        let (u, r, l, te) = serve_inv id s.next_conn s.next_token rd old s' x t sv in
        inr (
          u,
          subst (λ v. SameRegistry v u) se (loop-same _ rd id s.next_conn old s' u r l),
          te,
          ok_,
        )
  ]

  admit-IsSound :
      (x : List Bytes × Result (Unit {0})) (t : State)
      → IsSound s
      → admit id desc rd take_over s ≡ some (x, t)
      → IsSound t
  admit-IsSound x t h e = elim (admit-ends x t e) [
    | inl same ↦ SameRegistry-IsSound same (open_conn-IsSound s h)
    | inr (u, same, te, _) ↦ rw te (
        depart-IsSound id s.next_token s.next_conn u
          (SameRegistry-IsSound same (registered-IsSound id desc s h)))
  ]

-- `handle` keeps the registry's invariant, however it ends.
pub handle-IsSound :
    (rd : Stream) (take_over : Bool) (s : State) (x : List Bytes × Result (Unit {0})) (t : State)
    → IsSound s
    → handle rd take_over s ≡ some (x, t)
    → IsSound t
handle-IsSound rd take_over s x t h e = elim (handle_inv rd take_over s x t e) [
  | inl same ↦ rw same h
  | inr (id, desc, rd', _, a) ↦ admit-IsSound id desc rd' take_over s x t h a
]

get-registered_ne :
    (id : Str) (desc : Descriptor) (s : State) (j : Str)
    → j ≢ id
    → get (registered id desc s).peers j ≡ get s.peers j
unfolding registered
get-registered_ne id desc s j ne = get-insert_ne s.peers id j (newcomer desc s) ne

get-departed_ne :
    (id : Str) (desc : Descriptor) (s u : State) (j : Str) (token c : ℕ)
    → SameRegistry (registered id desc s) u
    → j ≢ id
    → get (depart id token c u).peers j ≡ get s.peers j
get-departed_ne id desc s u j token c same ne =
    ap (λ m. get m j) (depart-same id token c u).peers
    ∙ remove_current_ne id token u j ne
    ∙ ap (λ m. get m j) same.peers
    ∙ get-registered_ne id desc s j ne

get-opened : (s : State) → (open_conn s).0.peers ≡ s.peers
unfolding open_conn
get-opened s = refl

-- A connection that may not take over, as every browser's, leaves each registered node registered
-- with its own connection, from its first frame to its end.
pub handle_no_take_over :
    (rd : Stream) (s : State) (x : List Bytes × Result (Unit {0})) (t : State) (j : Str) (q : Peer)
    → handle rd false s ≡ some (x, t)
    → get s.peers j ≡ some q
    → get t.peers j ≡ some q
handle_no_take_over rd s x t j q e r = elim (handle_inv rd false s x t e) [
  | inl same ↦ rw same r
  | inr (id, desc, rd', _, a) ↦ elim (admit-ends id desc rd' false s x t a) [
    | inl same ↦ ap (λ m. get m j) (same.peers ∙ get-opened s) ∙ r
    | inr (u, same, te, free) ↦
        let free' : get s.peers id ≡ none = ground arith in
        let ne : j ≢ id = λ k. cc (ap (get s.peers) k, r, free') in
        rw te (get-departed_ne id desc s u j s.next_token s.next_conn same ne ∙ r)
  ]
]

get-departed_self :
    (id : Str) (desc : Descriptor) (s u : State)
    → SameRegistry (registered id desc s) u
    → get (depart id s.next_token s.next_conn u).peers id ≡ none
unfolding registered
get-departed_self id desc s u same =
    let here : get u.peers id ≡ some (newcomer desc s) =
      ap (λ m. get m id) same.peers ∙ get-insert_self s.peers id (newcomer desc s) in
    ap (λ m. get m id) (depart-same id s.next_token s.next_conn u).peers
    ∙ rw (remove_current_holds id (newcomer desc s) u here) (get-remove_self u.peers id)

-- A connection that has come and gone, with no other at work meanwhile, leaves every id as it was,
-- but that it may leave free the one that its `hello` was stamped with.
pub handle_leaves :
    (rd : Stream) (take_over : Bool) (s : State) (x : List Bytes × Result (Unit {0})) (t : State)
    (j : Str)
    → handle rd take_over s ≡ some (x, t)
    → (get t.peers j ≡ get s.peers j)
      ⊎ ((get t.peers j ≡ none)
          × ((desc : Descriptor) × (rd' : Stream) × (greet s.host rd ≡ greeted j desc rd')))
handle_leaves rd take_over s x t j e = elim (handle_inv rd take_over s x t e) [
  | inl same ↦ inl (ap (λ (u : State). get u.peers j) same)
  | inr (id, desc, rd', g, a) ↦ elim (admit-ends id desc rd' take_over s x t a) [
    | inl same ↦ inl (ap (λ m. get m j) (same.peers ∙ get-opened s))
    | inr (u, same, te, _) ↦ elim (Bool-cases (str_eq j id)) [
      | inl k ↦
          let eq : j ≡ id = (str_eq_iff j id).0 k in
          inr (
            rw (te, eq) (get-departed_self id desc s u same),
            (desc, rd', g ∙ ap (λ k. greeted k desc rd') (sym eq)),
          )
      | inr n ↦
          let ne : j ≢ id = λ k. cc ((str_eq_iff j id).1 k, n) in
          inl (rw te (get-departed_ne id desc s u j s.next_token s.next_conn same ne))
    ]
  ]
]
