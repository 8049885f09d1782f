-- ===== src/Router/Registry.antt =====
-- The registry's invariant, and what each operation does to it.
use zapd.Prelude.{
  ℕ, ◌<◌, ◌≡◌, ◌≢◌, ◌⊎◌, sym, ap, ◌∙◌, Bool, true, Option, none, some, arith, Bool-cases, inl, inr,
}
use zapd.Text.{Str}
use zapd.Map.{
  get, contains_key, insert, remove, Distinct, insert-Distinct, remove-Distinct, get-insert_inv,
  get-remove_inv,
}
use zapd.Router.{Peer, State, open_conn, register, holds_token, remove_current}
use zapd.Router.Send.{OnlyQueues}
use zapd.Router.Broadcast.{OwnTx}

-- Each registered peer has a channel of its own, of a connection that was opened, and a token that
-- was given out.
pub record IsSound (s : State) : Type 0 where
  pub distinct : Distinct s.peers
  pub own_tx : OwnTx s.peers
  pub opened : (j : Str) (p : Peer) → get s.peers j ≡ some p → p.tx < s.next_conn
  pub issued : (j : Str) (p : Peer) → get s.peers j ≡ some p → p.token < s.next_token

pub OnlyQueues-IsSound : {s t : State} → OnlyQueues s t → IsSound s → IsSound t
OnlyQueues-IsSound {s} {t} q h = record {
  distinct = rw q.peers h.distinct;
  own_tx = rw q.peers h.own_tx;
  opened = λ j p e. rw q.next_conn (h.opened j p (ap (λ m. get m j) (sym q.peers) ∙ e));
  issued = λ j p e. rw q.next_token (h.issued j p (ap (λ m. get m j) (sym q.peers) ∙ e));
}

module _ (s : State) (h : IsSound s) where
  pub open_conn-IsSound : IsSound (open_conn s).0
  unfolding open_conn
  open_conn-IsSound = record {
    distinct = h.distinct;
    own_tx = h.own_tx;
    opened = λ j p e. omega (arith, h.opened j p e);
    issued = λ j p e. omega (arith, h.issued j p e);
  }

  pub insert-IsSound :
      (id : Str) (p : Peer)
      → p.tx < s.next_conn
      → p.token < s.next_token
      → ((j : Str) (q : Peer) → get s.peers j ≡ some q → q.tx ≢ p.tx)
      → IsSound (record s { peers = (insert s.peers id p).0 })
  insert-IsSound id p tx token fresh = record {
    distinct = insert-Distinct s.peers id p h.distinct;
    own_tx = λ j k a b ea eb t. elim (get-insert_inv s.peers id j p a ea) [
      | inl (ja, pa) ↦ elim (get-insert_inv s.peers id k p b eb) [
        | inl (kb, _) ↦ ja ∙ sym kb
        | inr (_, gb) ↦ absurd (fresh k b gb (sym t ∙ ap (λ (x : Peer). x.tx) pa))
      ]
      | inr (_, ga) ↦ elim (get-insert_inv s.peers id k p b eb) [
        | inl (_, pb) ↦ absurd (fresh j a ga (t ∙ ap (λ (x : Peer). x.tx) pb))
        | inr (_, gb) ↦ h.own_tx j k a b ga gb t
      ]
    ];
    opened = λ j a e. elim (get-insert_inv s.peers id j p a e) [
      | inl (_, pa) ↦ rw pa tx
      | inr (_, g) ↦ h.opened j a g
    ];
    issued = λ j a e. elim (get-insert_inv s.peers id j p a e) [
      | inl (_, pa) ↦ rw pa token
      | inr (_, g) ↦ h.issued j a g
    ];
  }

  pub remove-IsSound : (id : Str) → IsSound (record s { peers = remove s.peers id })
  remove-IsSound id = record {
    distinct = remove-Distinct s.peers id h.distinct;
    own_tx = λ j k a b ea eb.
        h.own_tx j k a b (get-remove_inv s.peers id j a ea).1 (get-remove_inv s.peers id k b eb).1;
    opened = λ j a e. h.opened j a (get-remove_inv s.peers id j a e).1;
    issued = λ j a e. h.issued j a (get-remove_inv s.peers id j a e).1;
  }

  pub remove_current-IsSound : (id : Str) (token : ℕ) → IsSound (remove_current id token s).0
  unfolding remove_current
  remove_current-IsSound id token = elim (Bool-cases (holds_token (get s.peers id) token)) [
    | inl t ↦ rw t (remove-IsSound id)
    | inr f ↦ rw f h
  ]

-- What a registration that succeeds does, and when it does.
pub register-eq_some :
    (take_over : Bool) (id : Str) (p : Peer) (s t : State) (old : Option Peer)
    → register take_over id p s ≡ some (t, old)
    → (t ≡ record s { peers = (insert s.peers id p).0 })
      × (old ≡ get s.peers id)
      × ((take_over ≡ true) ⊎ (get s.peers id ≡ none))
unfolding register insert contains_key
register-eq_some take_over id p s t old e = ground arith
