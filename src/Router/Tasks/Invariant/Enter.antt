-- ===== src/Router/Tasks/Invariant/Enter.antt =====
-- The moves by which a connection gets its numbers and its entry.
use zapd.Prelude.{
  ℕ, ◌<◌, ◌≡◌, ◌≢◌, ◌⊎◌, inl, inr, refl, sym, ap, ◌∙◌, subst, Bool, Option, some, arith, Bool-cases,
  update, update_self, update_ne, update_all, update_cases,
}
use zapd.Text.{Str}
use zapd.Text.Equal.{str_eq, str_eq_iff}
use zapd.Map.{get, insert, get-insert_inv, get-insert_self, get-insert_ne}
use zapd.Frame.Control.{Descriptor}
use zapd.Router.{Peer, State, open_conn}
use zapd.Router.Registry.{open_conn-IsSound, insert-IsSound}
use zapd.Router.Tasks.{Phase, peer_of, named, opened, evicting}
use zapd.Router.Tasks.Numbers.{seat, numbers, waits, seat-numbers}
use zapd.Router.Tasks.Invariant.{Holds, Told, Inv}

module _ (s : State) (tasks : ℕ → Phase) (k : ℕ) (h : Inv s tasks) where
  -- A task without a seat takes numbers that nobody was given.
  module _ (t : Bool) (id : Str) (desc : Descriptor) (p : tasks k ≡ named t id desc) where
    abbrev newly : ℕ → Phase
    newly = update tasks k (opened t id desc s.next_conn s.next_token)

    newly-numbers :
        (l c u : ℕ)
        → numbers (newly l) ≡ some (c, u)
        → ((k ≡ l) × (c ≡ s.next_conn) × (u ≡ s.next_token))
          ⊎ ((numbers (tasks l) ≡ some (c, u)) × (c < s.next_conn) × (u < s.next_token))
    newly-numbers l c u e =
        elim (update_cases tasks k (opened t id desc s.next_conn s.next_token) l) [
          | inl (same, v) ↦
              let eq : ◌≡◌ {A = Option (ℕ × ℕ)} (some (s.next_conn, s.next_token)) (some (c, u)) =
                sym (ap numbers v) ∙ e in
              inl (same, cc, cc)
          | inr (n, v) ↦
              let f = sym (ap numbers v) ∙ e in let (a, b) = h.given l c u f in inr (f, a, b)
        ]

    newly-seat : (l : ℕ) → seat (newly l) ≡ seat (tasks l)
    newly-seat =
        update_all tasks k _ (λ l r. seat r ≡ seat (tasks l)) (sym (ap seat p)) (λ l n. refl)

    newly-told : (c : ℕ) → c < s.next_conn → Told s tasks c → Told (open_conn s).0 newly c
    unfolding open_conn
    newly-told c lt (inl e) = inl (ground arith)
    newly-told c lt (inr (l, e)) =
        let other : k ≢ l = λ same. cc (ap waits p, ap (λ i. waits (tasks i)) same, e) in
        inr (l, ap waits (update_ne tasks k _ l other) ∙ e)

    newly-alone :
        (l m c u d v : ℕ)
        → numbers (newly l) ≡ some (c, u)
        → numbers (newly m) ≡ some (d, v)
        → (c ≡ d) ⊎ (u ≡ v)
        → l ≡ m
    newly-alone l m c u d v e f o = elim (newly-numbers l c u e) [
      | inl (kl, ce, ue) ↦ elim (newly-numbers m d v f) [
        | inl (km, _, _) ↦ sym kl ∙ km
        | inr (_, a, b) ↦ absurd (ground arith)
      ]
      | inr (g, a, b) ↦ elim (newly-numbers m d v f) [
        | inl (km, de, ve) ↦ absurd (ground arith)
        | inr (g', _, _) ↦ h.alone l m c u d v g g' o
      ]
    ]

    pub opened-Inv : Inv (open_conn s).0 newly
    unfolding open_conn
    opened-Inv = record {
      sound = open_conn-IsSound s h.sound;
      own_evict = h.own_evict;
      seated = λ j q e. let (l, f) = h.seated j q e in (l, newly-seat l ∙ f);
      given = λ l c u e. elim (newly-numbers l c u e) [
        | inl (_, ce, ue) ↦ (omega arith, omega arith)
        | inr (_, a, b) ↦ (omega arith, omega arith)
      ];
      alone = newly-alone;
      told = λ l j c u e.
          let f = sym (newly-seat l) ∙ e in
          let (a, b) = h.given l c u (seat-numbers (tasks l) j c u f) in
          elim (h.told l j c u f) [ inl o ↦ inl o | inr o ↦ inr (newly-told c a o) ];
    }

  module _ (t : Bool) (id : Str) (desc : Descriptor) (c token : ℕ)
      (p : tasks k ≡ opened t id desc c token) where
    mine : numbers (tasks k) ≡ some (c, token)
    mine = ap numbers p

    abbrev entered : State
    entered = record s { peers = (insert s.peers id (peer_of desc c token)).0 }

    abbrev tasks' : ℕ → Phase
    tasks' = update tasks k (evicting id c token (get s.peers id))

    unseated : (l : ℕ) (x : Str × ℕ × ℕ) → seat (tasks l) ≡ some x → k ≢ l
    unseated l x e same = cc (ap seat p, ap (λ i. seat (tasks i)) same, e)

    other_tx : (j : Str) (q : Peer) → get s.peers j ≡ some q → q.tx ≢ c
    other_tx j q e tx =
        let (l, f) = h.seated j q e in
        unseated l (j, q.tx, q.token) f
          (h.alone k l c token q.tx q.token mine (seat-numbers (tasks l) j q.tx q.token f)
            (inl (sym tx)))

    entered-numbers : (l : ℕ) (x : ℕ × ℕ) → numbers (tasks' l) ≡ some x → numbers (tasks l) ≡ some x
    entered-numbers =
        update_all tasks k _ (λ l r. (x : ℕ × ℕ) → numbers r ≡ some x → numbers (tasks l) ≡ some x)
          (λ x e. mine ∙ e) (λ l n x e. e)

    entered-told : (d : ℕ) → Told s tasks d → Told entered tasks' d
    entered-told d (inl e) = inl e
    entered-told d (inr (l, e)) =
        let other : k ≢ l = λ same. cc (ap waits p, ap (λ i. waits (tasks i)) same, e) in
        inr (l, ap waits (update_ne tasks k _ l other) ∙ e)

    replaced : (q : Peer) → get s.peers id ≡ some q → waits (tasks' k) ≡ some q.tx
    replaced q e =
        ap waits (update_self tasks k _)
        ∙ ap (λ o. waits (evicting id c token o)) e
        ∙ ap some (h.own_evict id q e)

    entered-seat :
        (l : ℕ) (j : Str) (d u : ℕ)
        → seat (tasks' l) ≡ some (j, d, u)
        → Holds entered j d u ⊎ Told entered tasks' d
    entered-seat l j d u e = elim (update_cases tasks k (evicting id c token (get s.peers id)) l) [
      | inl (same, v) ↦
          let eq : ◌≡◌ {A = Option (Str × ℕ × ℕ)} (some (id, c, token)) (some (j, d, u)) =
            sym (ap seat v) ∙ e in
          let ids : id ≡ j = cc in
          let conns : c ≡ d = cc in
          let tokens : token ≡ u = cc in
          inl (
            peer_of desc c token,
            subst (λ i. get entered.peers i ≡ some (peer_of desc c token)) ids
                (get-insert_self s.peers id (peer_of desc c token)),
            conns,
            tokens,
          )
      | inr (n, v) ↦ elim (h.told l j d u (sym (ap seat v) ∙ e)) [
        | inl (q, g, x, y) ↦ elim (Bool-cases (str_eq j id)) [
          | inl t ↦
              let ids : j ≡ id = (str_eq_iff j id).0 t in
              inr (inr (k, replaced q (ap (get s.peers) (sym ids) ∙ g) ∙ ap some x))
          | inr t ↦
              let ne : j ≢ id = λ i. cc ((str_eq_iff j id).1 i, t) in
              inl (q, get-insert_ne s.peers id j (peer_of desc c token) ne ∙ g, x, y)
        ]
        | inr o ↦ inr (entered-told d o)
      ]
    ]

    pub entered-Inv : Inv entered tasks'
    entered-Inv = record {
      sound =
          let (a, b) = h.given k c token mine in
          insert-IsSound s h.sound id (peer_of desc c token) a b other_tx;
      own_evict = λ j q e. elim (get-insert_inv s.peers id j (peer_of desc c token) q e) [
        | inl (_, same) ↦ rw same refl
        | inr (_, g) ↦ h.own_evict j q g
      ];
      seated = λ j q e. elim (get-insert_inv s.peers id j (peer_of desc c token) q e) [
        | inl (same_id, same) ↦ (k, ap seat (update_self tasks k _) ∙ rw (same_id, same) refl)
        | inr (_, g) ↦
            let (l, f) = h.seated j q g in (l, ap seat (update_ne tasks k _ l (unseated l _ f)) ∙ f)
      ];
      given = λ l d u e. h.given l d u (entered-numbers l (d, u) e);
      alone = λ l m d u d' u' e f o.
          h.alone l m d u d' u' (entered-numbers l (d, u) e) (entered-numbers m (d', u') f) o;
      told = entered-seat;
    }
