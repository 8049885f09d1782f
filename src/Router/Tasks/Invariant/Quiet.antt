-- ===== src/Router/Tasks/Invariant/Quiet.antt =====
-- The moves that change neither the registry nor the signals.
use zapd.Prelude.{
  ℕ, ◌<◌, ◌≡◌, ◌≢◌, inl, inr, refl, sym, ap, ◌∙◌, subst, false, none, some, update, update_ne,
  update_all,
}
use zapd.Text.{Str}
use zapd.Map.{get}
use zapd.Router.{State}
use zapd.Router.Registry.{IsSound, OnlyQueues-IsSound}
use zapd.Router.Send.{OnlyQueues}
use zapd.Router.Tasks.{Phase}
use zapd.Router.Tasks.Numbers.{seat, numbers, waits}
use zapd.Router.Tasks.Invariant.{Told, Inv}

-- A task that keeps its seat, if it has one, while the registry and the signals stay.
pub record Quiet (s : State) (p : Phase) (s' : State) (p' : Phase) : Type 0 where
  pub sound : IsSound s → IsSound s'
  pub peers : s'.peers ≡ s.peers
  pub next_conn : s'.next_conn ≡ s.next_conn
  pub next_token : s'.next_token ≡ s.next_token
  pub evicted : s'.evicted ≡ s.evicted
  pub seat : seat p' ≡ seat p
  pub numbers : (x : ℕ × ℕ) → numbers p' ≡ some x → numbers p ≡ some x
  pub waits : waits p ≡ none

module _ (s s' : State) (tasks : ℕ → Phase) (k : ℕ) (p' : Phase) (q : Quiet s (tasks k) s' p') where
  abbrev pub after : ℕ → Phase
  after = update tasks k p'

  seat_same : (l : ℕ) → seat (after l) ≡ seat (tasks l)
  seat_same = update_all tasks k p' (λ l r. seat r ≡ seat (tasks l)) q.seat (λ l n. refl)

  pub numbers_before : (l : ℕ) (x : ℕ × ℕ) → numbers (after l) ≡ some x → numbers (tasks l) ≡ some x
  numbers_before =
      update_all tasks k p' (λ l r. (x : ℕ × ℕ) → numbers r ≡ some x → numbers (tasks l) ≡ some x)
        q.numbers (λ l n x e. e)

  pub waits_after : (l c : ℕ) → waits (tasks l) ≡ some c → waits (after l) ≡ some c
  waits_after l c e =
      let other : k ≢ l = λ same. cc (q.waits, ap (λ i. waits (tasks i)) same, e) in
      ap waits (update_ne tasks k p' l other) ∙ e

  told_after : (c : ℕ) → Told s tasks c → Told s' after c
  told_after c (inl e) = inl (ap (λ f. f c) q.evicted ∙ e)
  told_after c (inr (l, e)) = inr (l, waits_after l c e)

  at : (j : Str) → get s'.peers j ≡ get s.peers j
  at j = ap (λ m. get m j) q.peers

  pub Quiet-Inv : Inv s tasks → Inv s' after
  Quiet-Inv h = record {
    sound = q.sound h.sound;
    own_evict = λ j p e. h.own_evict j p (sym (at j) ∙ e);
    seated = λ j p e. let (l, f) = h.seated j p (sym (at j) ∙ e) in (l, seat_same l ∙ f);
    given = λ l c t e.
        let (a, b) = h.given l c t (numbers_before l (c, t) e) in
        (subst (λ n. c < n) (sym q.next_conn) a, subst (λ n. t < n) (sym q.next_token) b);
    alone = λ l m c t d u e f o.
        h.alone l m c t d u (numbers_before l (c, t) e) (numbers_before m (d, u) f) o;
    told = λ l id c t e. elim (h.told l id c t (sym (seat_same l) ∙ e)) [
      | inl (p, g, o, u) ↦ inl (p, at id ∙ g, o, u)
      | inr o ↦ inr (told_after c o)
    ];
  }

-- A move that only sends.
pub OnlyQueues-Quiet :
    {s s' : State} {p p' : Phase}
    → OnlyQueues s s'
    → seat p' ≡ seat p
    → ((x : ℕ × ℕ) → numbers p' ≡ some x → numbers p ≡ some x)
    → waits p ≡ none
    → Quiet s p s' p'
OnlyQueues-Quiet only e f g = record {
  sound = OnlyQueues-IsSound only;
  peers = only.peers;
  next_conn = only.next_conn;
  next_token = only.next_token;
  evicted = only.evicted;
  seat = e;
  numbers = f;
  waits = g;
}

-- A move that drops a receiver.
pub receiving-Quiet :
    (s : State) (c : ℕ) {p p' : Phase}
    → seat p' ≡ seat p
    → ((x : ℕ × ℕ) → numbers p' ≡ some x → numbers p ≡ some x)
    → waits p ≡ none
    → Quiet s p (record s { receiving = update s.receiving c false }) p'
receiving-Quiet s c e f g = record {
  sound = λ h. record {
    distinct = h.distinct;
    own_tx = h.own_tx;
    opened = h.opened;
    issued = h.issued;
  };
  peers = refl;
  next_conn = refl;
  next_token = refl;
  evicted = refl;
  seat = e;
  numbers = f;
  waits = g;
}
