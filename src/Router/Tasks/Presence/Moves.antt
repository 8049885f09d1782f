-- ===== src/Router/Tasks/Presence/Moves.antt =====
-- Every move of a connection of src/router.rs is a change of the table that this connection may make.
use zapd.Prelude.{
  ℕ, ◌≡◌, inl, inr, refl, sym, ap, ◌∙◌, Bool, true, false, Option, none, some, if◌then◌else◌,
  Bool-cases, Option-cases, ==_iff, update, update_self, update_cases, subst,
}
use zapd.Text.{Str}
use zapd.Text.Equal.{str_eq, str_eq_iff}
use zapd.Map.{get, remove, get-insert, get-remove}
use zapd.Frame.Control.{Descriptor}
use zapd.Router.{Peer, State, open_conn, register, evict_old, remove_current, holds_token}
use zapd.Router.Send.{send-OnlyQueues}
use zapd.Router.Broadcast.{broadcast-OnlyQueues}
use zapd.Router.Registry.{register-eq_some}
use zapd.Router.Halves.{first_half-OnlyQueues, answer_half-OnlyQueues}
use zapd.Router.Tasks.{
  Phase, opened, evicting, leaving, departing, aborting, after_removal, peer_of, Move, System, pick,
  start, Reach, here, later, hear, turn_away, refuse, open_channels, bounce, enter, evict_previous,
  greet_back, announce_arrival, relay, relay_half, answer, break_writer, end_stream, obey,
  remove_own, announce_departure, abort_writer,
}
use zapd.Router.Tasks.Numbers.{seat, seat-numbers}
use zapd.Router.Tasks.Invariant.{Inv}
use zapd.Router.Tasks.Reachable.{Reach-Inv}
use zapd.Router.Tasks.Browsers.{Flag, Reach-Flag}
use zapd.Router.Tasks.Presence.{
  Table, Change, stays, joins, leaves, Shows, Refines, Shows-map, Shows-holder, Shows-none,
}

opened_peers : (s : State) → (open_conn s).0.peers ≡ s.peers
unfolding open_conn
opened_peers s = refl

evicted_peers : (old : Option Peer) (s : State) → (evict_old old s).peers ≡ s.peers
unfolding evict_old
evicted_peers none s = refl
evicted_peers (some old) s = refl

-- A connection whose token the entry for the id has holds it.
own_token :
    (id : Str) (token : ℕ) (q : Peer) (s : State)
    → get s.peers id ≡ some q
    → token ≡ q.token
    → holds_token (get s.peers id) token ≡ true
own_token id token q s g t = rw (g, t) ((==_iff q.token q.token).1 refl)

-- A registered connection stays seated.
abbrev KeepsSeat : Phase → Phase → Type 0
KeepsSeat p p' = (j : Str) (c t : ℕ) → seat p ≡ some (j, c, t) → seat p' ≡ some (j, c, t)

module _ (may : Bool) (s : State) (tasks : ℕ → Phase) (k : ℕ) (a : Table) (h : Inv s tasks)
    (r : Refines s tasks a) where
  -- What a move of `k` to this state and phase does to the table.
  abbrev Simulates : State → Phase → Type 0
  Simulates s' p' = (b : Table) × Change may k (tasks k) a b × Refines s' (update tasks k p') b

  kept_seat :
      (p' : Phase) (l : ℕ) (j : Str) (c t : ℕ)
      → (k ≡ l → seat p' ≡ some (j, c, t))
      → seat (tasks l) ≡ some (j, c, t)
      → seat (update tasks k p' l) ≡ some (j, c, t)
  kept_seat p' l j c t f e = elim (update_cases tasks k p' l) [
    | inl (same, v) ↦ ap seat v ∙ f same
    | inr (n, v) ↦ ap seat v ∙ e
  ]

  unchanged :
      (s' : State) (p p' : Phase)
      → tasks k ≡ p
      → s'.peers ≡ s.peers
      → KeepsSeat p p'
      → Simulates s' p'
  unchanged s' p p' e same keeps = (
    a,
    stays (λ j. refl),
    λ j.
        subst (λ m. Shows (update tasks k p') j (get m j) (a j)) (sym same)
          (Shows-map tasks (update tasks k p') j (get s.peers j) (a j)
            (λ q _ l st.
              kept_seat p' l j q.tx q.token
                (λ n. keeps j q.tx q.token (sym (ap seat e) ∙ (ap (λ i. seat (tasks i)) n ∙ st)))
                st)
            (r j)),
  )

  -- The connection of the entry for `id` has gone, or none was there before.
  other_seat :
      (id : Str) (p' : Phase) (j : Str) (c t : ℕ) (l : ℕ)
      → ((d u : ℕ) → seat (tasks k) ≡ some (j, d, u) → id ≡ j)
      → str_eq id j ≡ false
      → seat (tasks l) ≡ some (j, c, t)
      → seat (update tasks k p' l) ≡ some (j, c, t)
  other_seat id p' j c t l f ne e =
      kept_seat p' l j c t
        (λ n. absurd (let t' = (str_eq_iff id j).1 (f c t (ap (λ i. seat (tasks i)) n ∙ e)) in cc))
        e

  others :
      (id : Str) (p' : Phase) (j : Str) (o : Option Peer) (q : Option (ℕ × Descriptor))
      → ((d u : ℕ) → seat (tasks k) ≡ some (j, d, u) → id ≡ j)
      → str_eq id j ≡ false
      → Shows tasks j o q
      → Shows (update tasks k p') j o q
  others id p' j o q f ne =
      Shows-map tasks (update tasks k p') j o q
        (λ p _ l st. other_seat id p' j p.tx p.token l f ne st)

  entered :
      (id : Str) (desc : Descriptor) (c token : ℕ) (s' : State) (old : Option Peer)
      → tasks k ≡ opened may id desc c token
      → register may id (peer_of desc c token) s ≡ some (s', old)
      → Simulates s' (evicting id c token old)
  entered id desc c token s' old e reg =
      let (se, _, free) = register-eq_some may id (peer_of desc c token) s s' old reg in
      let p' = evicting id c token old in
      let b : Table = λ j. if str_eq id j then some (k, desc) else a j in
      let none_there = Shows-none tasks id (get s.peers id) (a id) in
      (
        b,
        joins id desc c token e (elim free [ inl m ↦ inl m | inr n ↦ inr (none_there n (r id)) ])
            (λ j. refl),
        λ j.
            subst (λ o. Shows (update tasks k p') j o (b j))
              (sym (
                ap (λ (u : State). get u.peers j) se
                ∙ get-insert s.peers id j (peer_of desc c token)))
              (elim (Bool-cases (str_eq id j)) [
                | inl t ↦ rw t (
                  k,
                  refl,
                  ap seat (update_self tasks k p')
                      ∙ ap (λ i. some (i, c, token)) ((str_eq_iff id j).0 t),
                )
                | inr n ↦ rw n (
                    others id p' j (get s.peers j) (a j)
                      (λ d u f. absurd (let f' = sym (ap seat e) ∙ f in cc)) n (r j))
              ]),
      )

  removed :
      (id : Str) (c token : ℕ) (p' : Phase) (p : Peer)
      → tasks k ≡ leaving id c token
      → get s.peers id ≡ some p
      → p.token ≡ token
      → Simulates (record s { peers = remove s.peers id }) p'
  removed id c token p' p e g pt =
      let b : Table = λ j. if str_eq id j then none else a j in
      let (l, al, st) = Shows-holder tasks id p (get s.peers id) (a id) g (r id) in
      let own : k ≡ l =
        h.alone k l c token p.tx p.token (seat-numbers (tasks k) id c token (ap seat e))
          (seat-numbers (tasks l) id p.tx p.token st) (inr (sym pt)) in
      (
        b,
        leaves id p.desc c token e (al ∙ ap (λ i. some (i, p.desc)) (sym own)) (λ j. refl),
        λ j.
            subst (λ o. Shows (update tasks k p') j o (b j)) (sym (get-remove s.peers id j))
              (elim (Bool-cases (str_eq id j)) [
                | inl t ↦ rw t refl
                | inr n ↦ rw n (
                    others id p' j (get s.peers j) (a j)
                      (λ d u f. let f' = sym (ap seat e) ∙ f in cc) n (r j))
              ]),
      )

  stale :
      (id : Str) (c token : ℕ) (p' : Phase)
      → tasks k ≡ leaving id c token
      → holds_token (get s.peers id) token ≡ false
      → Simulates s p'
  stale id c token p' e f = (
    a,
    stays (λ j. refl),
    λ j.
        Shows-map tasks (update tasks k p') j (get s.peers j) (a j)
          (λ q g l st.
            kept_seat p' l j q.tx q.token
              (λ n.
                let f' = sym (ap seat e) ∙ (ap (λ i. seat (tasks i)) n ∙ st) in
                let at : id ≡ j = cc in
                let same : token ≡ q.token = cc in
                let held = own_token id token q s (ap (get s.peers) at ∙ g) same in absurd (cc))
              st)
          (r j),
  )

  left :
      (id : Str) (c token : ℕ)
      → tasks k ≡ leaving id c token
      → Simulates (remove_current id token s).0 (after_removal id c (remove_current id token s).1)
  unfolding remove_current
  left id c token e = elim (Bool-cases (holds_token (get s.peers id) token)) [
    | inr f ↦ rw f (stale id c token (aborting c) e f)
    | inl t ↦ elim (Option-cases (get s.peers id)) [
      | inl n ↦ let t' = rw n at t in absurd (cc)
      | inr (p, g) ↦
          rw t (removed id c token (departing id c) p e g ((==_iff p.token token).0 (rw g at t)))
    ]
  ]

  Move-Simulates :
      {s' : State} {p p' : Phase} → tasks k ≡ p → Flag may p → Move s p s' p' → Simulates s' p'
  Move-Simulates {s'} {p} {p'} e fl (hear rd rd' g) =
      unchanged s' p p' e refl (λ j c t f. absurd (cc))
  Move-Simulates {s'} {p} {p'} e fl (turn_away rd g) =
      unchanged s' p p' e refl (λ j c t f. absurd (cc))
  Move-Simulates {s'} {p} {p'} e fl (refuse rd out x g) =
      unchanged s' p p' e refl (λ j c t f. absurd (cc))
  Move-Simulates {s'} {p} {p'} e fl open_channels =
      unchanged s' p p' e (opened_peers s) (λ j c t f. absurd (cc))
  Move-Simulates {s'} {p} {p'} e fl (bounce r) = unchanged s' p p' e refl (λ j c t f. absurd (cc))
  Move-Simulates {s'} {p} {p'} e fl (enter {t} {id} {desc} {c} {token} {old = old} reg) =
      entered id desc c token s' old (e ∙ ap (λ t. opened t id desc c token) fl)
        (subst (λ t. register t id (peer_of desc c token) s ≡ some (s', old)) fl reg)
  Move-Simulates {s'} {p} {p'} e fl (evict_previous {old}) =
      unchanged s' p p' e (evicted_peers old s) (λ j c t f. f)
  Move-Simulates {s'} {p} {p'} e fl (greet_back {c}) =
      unchanged s' p p' e (send-OnlyQueues c _ s).peers (λ j c t f. f)
  Move-Simulates {s'} {p} {p'} e fl (announce_arrival {id}) =
      unchanged s' p p' e (broadcast-OnlyQueues id _ _ s).peers (λ j c t f. f)
  Move-Simulates {s'} {p} {p'} e fl (relay {id} f n) =
      unchanged s' p p' e (first_half-OnlyQueues id f s).peers (λ j c t f. f)
  Move-Simulates {s'} {p} {p'} e fl (relay_half {id} f x q) =
      unchanged s' p p' e (first_half-OnlyQueues id f s).peers (λ j c t f. f)
  Move-Simulates {s'} {p} {p'} e fl (answer {id} {a = x}) =
      unchanged s' p p' e (answer_half-OnlyQueues id x s).peers (λ j c t f. f)
  Move-Simulates {s'} {p} {p'} e fl (break_writer w) = unchanged s' p p' e refl (λ j c t f. f)
  Move-Simulates {s'} {p} {p'} e fl end_stream = unchanged s' p p' e refl (λ j c t f. f)
  Move-Simulates {s'} {p} {p'} e fl (obey t) = unchanged s' p p' e refl (λ j c t f. f)
  Move-Simulates e fl (remove_own {id} {c} {token}) = left id c token e
  Move-Simulates {s'} {p} {p'} e fl (announce_departure {id}) =
      unchanged s' p p' e (broadcast-OnlyQueues id _ _ s).peers (λ j c t f. absurd (cc))
  Move-Simulates {s'} {p} {p'} e fl abort_writer = unchanged s' p p' e refl (λ j c t f. absurd (cc))

simulates :
    {host : Str} {may : ℕ → Bool} {x : System} {s : State} {p : Phase}
    → Reach (start host may) x
    → (k : ℕ) → Move x.state (x.tasks k) s p
    → (a : Table) → Refines x.state x.tasks a
    → (b : Table) × Change (may k) k (x.tasks k) a b × Refines s (update x.tasks k p) b
simulates {may} {x} r k mv a h =
    Move-Simulates (may k) x.state x.tasks k a (Reach-Inv r) h refl (Reach-Flag r k) mv

Reach-Refines :
    {host : Str} {may : ℕ → Bool} {x : System}
    → Reach (start host may) x
    → (a : Table) × Refines x.state x.tasks a
unfolding get
Reach-Refines here = ((λ j. none), λ j. refl)
Reach-Refines (later r (pick k mv)) =
    let (a, h) = Reach-Refines r in let (b, _, h') = simulates r k mv a h in (b, h')

-- However connections interleave, the registry implements a table of the ids that are present, each with
-- the connection that holds it: a move of a connection leaves the table, or enters the id and the
-- descriptor of that connection's own HELLO, which is free or which the connection may take over, or
-- frees the id of that connection when it leaves, which it held.
pub Move-Refines :
    {host : Str} {may : ℕ → Bool} {x : System} {s : State} {p : Phase}
    → Reach (start host may) x
    → (k : ℕ) → Move x.state (x.tasks k) s p
    → (a : Table) × (b : Table) × Refines x.state x.tasks a
      × Change (may k) k (x.tasks k) a b
      × Refines s (update x.tasks k p) b
Move-Refines r k mv =
    let (a, h) = Reach-Refines r in let (b, c, h') = simulates r k mv a h in (a, b, h, c, h')
