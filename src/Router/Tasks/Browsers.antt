-- ===== src/Router/Tasks/Browsers.antt =====
-- A connection that may not take over, as those of the browser door: it closes no other and takes no
-- id from one.
use zapd.Prelude.{
  ℕ, ◌≡◌, ◌≢◌, ◌⊎◌, inl, inr, refl, sym, ap, ◌∙◌, subst, Bool, true, false, Option, none, some,
  ◌==◌, ==_iff, Bool-cases, update_all,
}
use zapd.Text.{Str}
use zapd.Text.Equal.{str_eq, str_eq_iff}
use zapd.Map.{get, get-remove, get-insert_ne}
use zapd.Router.{Peer, State, open_conn, register, evict_old, remove_current, holds_token}
use zapd.Router.Send.{OnlyQueues, send-OnlyQueues}
use zapd.Router.Broadcast.{broadcast-OnlyQueues}
use zapd.Router.Registry.{register-eq_some}
use zapd.Router.Halves.{first_half-OnlyQueues, answer_half-OnlyQueues}
use zapd.Router.Tasks.{
  Phase, fresh, named, opened, evicting, leaving, peer_of, after_removal, Move, System, pick, start,
  Reach, here, later, hear, turn_away, refuse, open_channels, bounce, enter, evict_previous,
  greet_back, announce_arrival, relay, relay_half, answer, break_writer, end_stream, obey,
  remove_own, announce_departure, abort_writer,
}

-- The phase carries this permission, and replaces an entry only with it.
abbrev pub Flag : Bool → Phase → Type 0
Flag b (fresh t) = t ≡ b
Flag b (named t id desc) = t ≡ b
Flag b (opened t id desc c token) = t ≡ b
Flag b (evicting id c token old) = (b ≡ true) ⊎ (old ≡ none)
Flag b _ = Unit

removed-Flag : (b gone : Bool) (id : Str) (c : ℕ) → Flag b (after_removal id c gone)
removed-Flag b true id c = tt
removed-Flag b false id c = tt

Move-Flag : {s s' : State} {p p' : Phase} (b : Bool) → Move s p s' p' → Flag b p → Flag b p'
Move-Flag b (hear rd rd' g) h = h
Move-Flag b (turn_away rd g) h = tt
Move-Flag b (refuse rd out e g) h = tt
Move-Flag b open_channels h = h
Move-Flag b (bounce r) h = tt
Move-Flag {s} b (enter {t} {id} {desc} {c} {token} {s'} {old} r) h =
    let (_, e, free) = register-eq_some t id (peer_of desc c token) s s' old r in
    elim free [ inl m ↦ inl (sym h ∙ m) | inr n ↦ inr (e ∙ n) ]
Move-Flag b evict_previous h = tt
Move-Flag b greet_back h = tt
Move-Flag b announce_arrival h = tt
Move-Flag b (relay f n) h = tt
Move-Flag b (relay_half f a p) h = tt
Move-Flag b answer h = tt
Move-Flag b (break_writer w) h = h
Move-Flag b end_stream h = tt
Move-Flag b (obey t) h = tt
Move-Flag {s} b (remove_own {id} {c} {token}) h = removed-Flag b (remove_current id token s).1 id c
Move-Flag b announce_departure h = tt
Move-Flag b abort_writer h = tt

pub Reach-Flag :
    {host : Str} {may : ℕ → Bool} {x : System}
    → Reach (start host may) x
    → (k : ℕ) → Flag (may k) (x.tasks k)
Reach-Flag here l = refl
Reach-Flag {may} (later {y} r (pick k {s} {p} mv)) l =
    update_all y.tasks k p (λ l q. Flag (may l) q) (Move-Flag (may k) mv (Reach-Flag r k))
      (λ l ne. Reach-Flag r l) l

-- What the move leaves: the entries but the connection's own, and who was told to go.
module _ (s : State) (p : Phase) (s' : State) where
  record Spares : Type 0 where
    pub entries :
        (j : Str) (q : Peer)
        → get s.peers j ≡ some q
        → (get s'.peers j ≡ some q) ⊎ ((c : ℕ) × (p ≡ leaving j c q.token))
    pub told : (c : ℕ) → s'.evicted c ≡ true → s.evicted c ≡ true

  same-Spares : s'.peers ≡ s.peers → s'.evicted ≡ s.evicted → Spares
  same-Spares e f = record {
    entries = λ j q g. inl (ap (λ m. get m j) e ∙ g);
    told = λ c t. sym (ap (λ h. h c) f) ∙ t;
  }

  queues-Spares : OnlyQueues s s' → Spares
  queues-Spares o = same-Spares o.peers o.evicted

opened-Spares : (s : State) (p : Phase) → Spares s p (open_conn s).0
unfolding open_conn
opened-Spares s p = record {
  entries = λ j q g. inl g;
  told = λ c t. elim (Bool-cases (s.next_conn == c)) [
    | inl e ↦ let t' = rw e at t in absurd (cc)
    | inr n ↦ rw n at t
  ];
}

own_entry :
    (s : State) (id j : Str) (c token : ℕ) (q : Peer)
    → holds_token (get s.peers id) token ≡ true
    → get s.peers j ≡ some q
    → id ≡ j
    → leaving id c token ≡ leaving j c q.token
unfolding holds_token
own_entry s id j c token q t g e =
    let held : get s.peers id ≡ some q = ap (get s.peers) e ∙ g in
    let t' : (q.token == token) ≡ true = rw held at t in
    let same : q.token ≡ token = (==_iff q.token token).0 t' in
    ap (λ i. leaving i c token) e ∙ ap (leaving j c) (sym same)

removed-Spares :
    (s : State) (id : Str) (c token : ℕ)
    → Spares s (leaving id c token) (remove_current id token s).0
unfolding remove_current
removed-Spares s id c token = elim (Bool-cases (holds_token (get s.peers id) token)) [
  | inr f ↦ rw f (same-Spares s (leaving id c token) s refl refl)
  | inl t ↦ rw t (record {
    entries = λ j q g. elim (Bool-cases (str_eq id j)) [
      | inl e ↦ inr (c, own_entry s id j c token q t g ((str_eq_iff id j).0 e))
      | inr n ↦ inl (get-remove s.peers id j ∙ rw n g)
    ];
    told = λ d h. h;
  })
]

entered-Spares :
    (s s' : State) (id : Str) (p : Peer) (b : Phase) (old : Option Peer)
    → register false id p s ≡ some (s', old)
    → Spares s b s'
entered-Spares s s' id p b old r =
    let (se, _, free) = register-eq_some false id p s s' old r in
    let unheld : get s.peers id ≡ none = elim free [ inl e ↦ absurd (cc) | inr n ↦ n ] in
    record {
      entries = λ j q g.
          let ne : j ≢ id = λ e. cc (ap (get s.peers) e, g, unheld) in
          inl (ap (λ (u : State). get u.peers j) se ∙ get-insert_ne s.peers id j p ne ∙ g);
      told = λ c t. sym (ap (λ (u : State). u.evicted c) se) ∙ t;
    }

Move-Spares : {s s' : State} {p p' : Phase} → Move s p s' p' → Flag false p → Spares s p s'
unfolding evict_old
Move-Spares {s} {s'} {p} (hear rd rd' g) h = same-Spares s p s' refl refl
Move-Spares {s} {s'} {p} (turn_away rd g) h = same-Spares s p s' refl refl
Move-Spares {s} {s'} {p} (refuse rd out e g) h = same-Spares s p s' refl refl
Move-Spares {s} {s'} {p} open_channels h = opened-Spares s p
Move-Spares {s} {s'} {p} (bounce r) h = same-Spares s p s' refl refl
Move-Spares {s} {s'} {p} (enter {t} {id} {desc} {c} {token} {old = old} r) h =
    entered-Spares s s' id (peer_of desc c token) p old
      (subst (λ t. register t id (peer_of desc c token) s ≡ some (s', old)) h r)
Move-Spares {s} {s'} {p} (evict_previous {old = none}) h = same-Spares s p s' refl refl
Move-Spares {s} {s'} {p} (evict_previous {old = some old}) h = elim h [
  | inl e ↦ absurd (cc)
  | inr e ↦ absurd (cc)
]
Move-Spares {s} {s'} {p} (greet_back {c}) h = queues-Spares s p s' (send-OnlyQueues c _ s)
Move-Spares {s} {s'} {p} (announce_arrival {id}) h =
    queues-Spares s p s' (broadcast-OnlyQueues id _ _ s)
Move-Spares {s} {s'} {p} (relay {id} f n) h = queues-Spares s p s' (first_half-OnlyQueues id f s)
Move-Spares {s} {s'} {p} (relay_half {id} f a q) h =
    queues-Spares s p s' (first_half-OnlyQueues id f s)
Move-Spares {s} {s'} {p} (answer {id} {a = a}) h =
    queues-Spares s p s' (answer_half-OnlyQueues id a s)
Move-Spares {s} {s'} {p} (break_writer w) h = same-Spares s p s' refl refl
Move-Spares {s} {s'} {p} end_stream h = same-Spares s p s' refl refl
Move-Spares {s} {s'} {p} (obey t) h = same-Spares s p s' refl refl
Move-Spares {s} (remove_own {id} {c} {token}) h = removed-Spares s id c token
Move-Spares {s} {s'} {p} (announce_departure {id}) h =
    queues-Spares s p s' (broadcast-OnlyQueues id _ _ s)
Move-Spares {s} {s'} {p} abort_writer h = same-Spares s p s' refl refl

-- However connections interleave, a move of one that may not take over, as each that comes through
-- the browser door, leaves every registered entry but its own, which it removes when it leaves, and
-- tells no connection to go: none is told after the move that was not told before.
pub browser_spares :
    {host : Str} {may : ℕ → Bool} {x : System} {s : State} {p : Phase}
    → Reach (start host may) x
    → (k : ℕ) → may k ≡ false
    → Move x.state (x.tasks k) s p
    → (j : Str) (q : Peer) (c : ℕ) → get x.state.peers j ≡ some q
    → ((get s.peers j ≡ some q) ⊎ ((d : ℕ) × (x.tasks k ≡ leaving j d q.token)))
      × ((s.evicted c ≡ false) ⊎ (x.state.evicted c ≡ true))
browser_spares {x} {s} r k b mv j q c g =
    let h = Move-Spares mv (subst (λ b. Flag b (x.tasks k)) b (Reach-Flag r k)) in
    (h.entries j q g, elim (Bool-cases (s.evicted c)) [ inl t ↦ inr (h.told c t) | inr n ↦ inl n ])
