-- ===== src/Router/Tasks/Invariant/Leave.antt =====
-- The moves by which a connection tells another to go, and removes its own entry.
use zapd.Prelude.{
  ℕ, ◌<◌, ◌≡◌, ◌≢◌, ◌⊎◌, inl, inr, refl, sym, ap, ◌∙◌, subst, true, false, Option, none, some,
  arith, ◌==◌, ==_iff, Bool-cases, update, update_ne, update_all, update_cases,
}
use zapd.Text.{Str}
use zapd.Map.{Map, get, remove, get-remove_inv, get-remove_ne}
use zapd.Router.{Peer, State, holds_token, remove_current}
use zapd.Router.Registry.{remove_current-IsSound}
use zapd.Router.Tasks.{Phase, evicting, welcoming, leaving}
use zapd.Router.Tasks.Numbers.{seat, numbers, waits, seat-numbers}
use zapd.Router.Tasks.Invariant.{Told, Inv}

module _ (s : State) (tasks : ℕ → Phase) (k : ℕ) (h : Inv s tasks) where
  -- The signal to the connection that was replaced.
  module _ (id : Str) (c token : ℕ) (old : Peer)
      (p : tasks k ≡ evicting id c token (some old)) where
    abbrev signalled : State
    signalled = record s { evicted = update s.evicted old.evict true }

    abbrev tasks_told : ℕ → Phase
    tasks_told = update tasks k (welcoming id c token)

    told-seat : (l : ℕ) → seat (tasks_told l) ≡ seat (tasks l)
    told-seat =
        update_all tasks k _ (λ l r. seat r ≡ seat (tasks l)) (sym (ap seat p)) (λ l n. refl)

    told-numbers : (l : ℕ) → numbers (tasks_told l) ≡ numbers (tasks l)
    told-numbers =
        update_all tasks k _ (λ l r. numbers r ≡ numbers (tasks l)) (sym (ap numbers p))
          (λ l n. refl)

    told-told : (d : ℕ) → Told s tasks d → Told signalled tasks_told d
    told-told d (inl e) = inl (ground arith)
    told-told d (inr (l, e)) = elim (update_cases tasks k (welcoming id c token) l) [
      | inl (same, _) ↦
          let eq : some old.evict ≡ some d =
            sym (ap waits p) ∙ (ap (λ i. waits (tasks i)) same ∙ e) in
          let d_eq : old.evict ≡ d = cc in inl (rw ((==_iff old.evict d).1 d_eq) refl)
      | inr (n, v) ↦ inr (l, ap waits v ∙ e)
    ]

    pub told-Inv : Inv signalled tasks_told
    told-Inv = record {
      sound = record {
        distinct = h.sound.distinct;
        own_tx = h.sound.own_tx;
        opened = h.sound.opened;
        issued = h.sound.issued;
      };
      own_evict = h.own_evict;
      seated = λ j q e. let (l, f) = h.seated j q e in (l, told-seat l ∙ f);
      given = λ l d u e. h.given l d u (sym (told-numbers l) ∙ e);
      alone = λ l m d u d' u' e f o.
          h.alone l m d u d' u' (sym (told-numbers l) ∙ e) (sym (told-numbers m) ∙ f) o;
      told = λ l j d u e. elim (h.told l j d u (sym (told-seat l) ∙ e)) [
        | inl o ↦ inl o
        | inr o ↦ inr (told-told d o)
      ];
    }

  -- A connection that removes its own entry, if the entry is its own.
  module _ (id : Str) (c token : ℕ) (p : tasks k ≡ leaving id c token) (p' : Phase)
      (no_seat : seat p' ≡ none) (no_numbers : numbers p' ≡ none) where
    abbrev gone_state : State
    gone_state = (remove_current id token s).0

    abbrev tasks_gone : ℕ → Phase
    tasks_gone = update tasks k p'

    removal_cases :
        ((remove_current id token s ≡ (record s { peers = remove s.peers id }, true))
          × (holds_token (get s.peers id) token ≡ true))
        ⊎ ((remove_current id token s ≡ (s, false)) × (holds_token (get s.peers id) token ≡ false))
    unfolding remove_current
    removal_cases = elim (Bool-cases (holds_token (get s.peers id) token)) [
      | inl t ↦ inl (rw (t, remove_current) refl, t)
      | inr f ↦ inr (rw (f, remove_current) refl, f)
    ]

    entry_stays :
        (j : Str) (q : Peer)
        → get gone_state.peers j ≡ some q
        → (get s.peers j ≡ some q) × ((j ≡ id) → q.token ≢ token)
    entry_stays j q e = elim removal_cases [
      | inl (r, t) ↦
          let (ne, g) = get-remove_inv s.peers id j q (sym (ap (λ y. get y.0.peers j) r) ∙ e) in
          (g, λ same _. ne same)
      | inr (r, f) ↦
          let g : get s.peers j ≡ some q = sym (ap (λ y. get y.0.peers j) r) ∙ e in
          (
            g,
            λ same tok.
                let held : holds_token (get s.peers id) token ≡ true =
                  ap (λ o. holds_token o token) (ap (get s.peers) (sym same) ∙ g)
                  ∙ (==_iff q.token token).1 tok in
                cc (held, f),
          )
    ]

    stays_entry :
        (j : Str) (q : Peer)
        → get s.peers j ≡ some q
        → q.token ≢ token
        → get gone_state.peers j ≡ some q
    stays_entry j q g ne = elim removal_cases [
      | inl (r, t) ↦
          let other : j ≢ id = λ same.
            let held : (q.token == token) ≡ true =
              sym (ap (λ o. holds_token o token) (ap (get s.peers) (sym same) ∙ g)) ∙ t in
            ne ((==_iff q.token token).0 held) in
          ap (λ y. get y.0.peers j) r ∙ (get-remove_ne s.peers id j other ∙ g)
      | inr (r, f) ↦ ap (λ y. get y.0.peers j) r ∙ g
    ]

    -- Nothing but the registry changes.
    gone_keeps :
        {A : Type 0} (f : State → A)
        → ((m : Map Peer) → f (record s { peers = m }) ≡ f s)
        → f gone_state ≡ f s
    gone_keeps f same = elim removal_cases [
      | inl (r, _) ↦ ap (λ y. f y.0) r ∙ same (remove s.peers id)
      | inr (r, _) ↦ ap (λ y. f y.0) r
    ]

    own : numbers (tasks k) ≡ some (c, token)
    own = ap numbers p

    gone-numbers :
        (l : ℕ) (x : ℕ × ℕ)
        → numbers (tasks_gone l) ≡ some x
        → (k ≢ l) × (numbers (tasks l) ≡ some x)
    gone-numbers l x e = elim (update_cases tasks k p' l) [
      | inl (_, v) ↦ cc (no_numbers, e)
      | inr (n, v) ↦ (n, sym (ap numbers v) ∙ e)
    ]

    gone-seat :
        (l : ℕ) (x : Str × ℕ × ℕ)
        → seat (tasks_gone l) ≡ some x
        → (k ≢ l) × (seat (tasks l) ≡ some x)
    gone-seat l x e = elim (update_cases tasks k p' l) [
      | inl (_, v) ↦ cc (no_seat, e)
      | inr (n, v) ↦ (n, sym (ap seat v) ∙ e)
    ]

    gone-told : (d : ℕ) → Told s tasks d → Told gone_state tasks_gone d
    gone-told d (inl e) = inl (gone_keeps (λ t. t.evicted d) (λ _. refl) ∙ e)
    gone-told d (inr (l, e)) =
        let other : k ≢ l = λ same. cc (ap waits p, ap (λ i. waits (tasks i)) same, e) in
        inr (l, ap waits (update_ne tasks k p' l other) ∙ e)

    pub gone-Inv : Inv gone_state tasks_gone
    gone-Inv = record {
      sound = remove_current-IsSound s h.sound id token;
      own_evict = λ j q e. h.own_evict j q (entry_stays j q e).0;
      seated = λ j q e.
          let (g, ne) = entry_stays j q e in
          let (l, f) = h.seated j q g in
          let other : k ≢ l = λ same.
            let eq : ◌≡◌ {A = Option (Str × ℕ × ℕ)} (some (id, c, token))
                (some (j, q.tx, q.token)) =
              sym (ap seat p) ∙ (ap (λ i. seat (tasks i)) same ∙ f) in
            let ids : j ≡ id = cc in ne ids (cc) in
          (l, ap seat (update_ne tasks k p' l other) ∙ f);
      given = λ l d u e.
          let (a, b) = h.given l d u (gone-numbers l _ e).1 in
          (
            subst (λ n. d < n) (sym (gone_keeps (λ t. t.next_conn) (λ _. refl))) a,
            subst (λ n. u < n) (sym (gone_keeps (λ t. t.next_token) (λ _. refl))) b,
          );
      alone = λ l m d u d' u' e f o.
          h.alone l m d u d' u' (gone-numbers l _ e).1 (gone-numbers m _ f).1 o;
      told = λ l j d u e.
          let (n, f) = gone-seat l _ e in
          elim (h.told l j d u f) [
            | inl (q, g, x, y) ↦
                let other : q.token ≢ token = λ t. n (
                  h.alone k l c token d u own (seat-numbers (tasks l) j d u f) (inr (sym t ∙ y))) in
                inl (q, stays_entry j q g other, x, y)
            | inr o ↦ inr (gone-told d o)
          ];
    }
