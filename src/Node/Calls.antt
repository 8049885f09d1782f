-- ===== src/Node/Calls.antt =====
-- The calls of a node over its events: each has one answer, and a stale response can be the answer.
use zapd.Prelude.{
  ℕ, ◌≤◌, ◌<◌, ◌≡◌, ◌⊎◌, inl, inr, refl, sym, ap, ◌∙◌, subst, Bool, true, false, ◌&&◌, Option, none,
  some, List, [], ◌∷◌, arith, ◌==◌, if◌then◌else◌, Bool-cases, Option-cases, update, update_ne,
}
use zapd.Text.{Str, lit}
use zapd.Text.Equal.{str_eq}
use zapd.Text.Utf8.{from_utf8_lossy}
use zapd.Text.Split.{strip_prefix}
use zapd.Io.{Result, ok, fail, not_found}
use zapd.Frame.Envelope.{Frame, providers, response, error, welcome}
use zapd.Node.{
  joined, is_none, Inner, zapd_name, settle, answered, router_changed, ask, dropped, Event, frame,
  drop, dialed, broken, call, done, step, run,
}

-- Calls are numbered below `next_call`, none above has an answer, and the one that is waited for has
-- none yet.
pub record IsSound (s : Inner) : Type 0 where
  pub fresh : (n : ℕ) → s.next_call ≤ n → s.replies n ≡ none
  pub awaited :
      (who : Str) (n : ℕ) → s.waiting ≡ some (who, n) → (n < s.next_call) × (s.replies n ≡ none)

-- The outstanding call gets its answer, and nothing is waited for any more.
resolve :
    (s : Inner) (who : Str) (m : ℕ) (a : Result Frame)
    → s.waiting ≡ some (who, m)
    → IsSound s
    → IsSound (record s { waiting = none; replies = update s.replies m (some a) })
resolve s who m a q h = record {
  fresh = λ n le.
      let (lt, r) = h.awaited who m q in
      update_ne s.replies m (some a) n (λ e. absurd (omega arith)) ∙ h.fresh n le;
  awaited = λ w n e. absurd (cc);
}

settle-IsSound : (s : Inner) (from : Str) (a : Result Frame) → IsSound s → IsSound (settle from a s)
unfolding settle
settle-IsSound s from a h = elim (Option-cases s.waiting) [
  | inl q ↦ let e : settle from a s ≡ s = rw (q, settle) refl in subst IsSound (sym e) h
  | inr ((who, m), q) ↦ elim (Bool-cases (str_eq who from)) [
    | inl t ↦
        let e : settle from a s
            ≡ record s { waiting = none; replies = update s.replies m (some a) } =
          rw (q, settle, t) refl in
        subst IsSound (sym e) (resolve s who m a q h)
    | inr f ↦ let e : settle from a s ≡ s = rw (q, settle, f) refl in subst IsSound (sym e) h
  ]
]

dropped-IsSound : (s : Inner) → IsSound s → IsSound (dropped s)
unfolding dropped
dropped-IsSound s h = elim (Option-cases s.waiting) [
  | inl q ↦
      let e : dropped s ≡ record s { tx = false; writing = false; up = false } =
        rw (q, dropped) refl in
      subst IsSound (sym e) (record { fresh = h.fresh; awaited = h.awaited })
  | inr ((who, m), q) ↦
      let dead : Inner = record s { tx = false; writing = false; up = false } in
      let e : dropped s
          ≡ record dead { waiting = none; replies = update s.replies m (some router_changed) } =
        rw (q, dropped) refl in
      subst IsSound (sym e)
        (resolve dead who m router_changed q (record { fresh = h.fresh; awaited = h.awaited }))
]

ask-IsSound : (f : Frame) (answerer : Str) (s : Inner) → IsSound s → IsSound (ask f answerer s)
unfolding ask
ask-IsSound f answerer s h = elim (Bool-cases (s.tx && s.writing)) [
  | inl t ↦
      rw (t, ask)
        (record {
          fresh = λ n le. h.fresh n (omega arith);
          awaited =
              λ who n e. let same : s.next_call ≡ n = cc in (omega arith, h.fresh n (omega arith));
        })
  | inr t ↦
      rw (t, ask)
        (record {
          fresh = λ n le.
              update_ne s.replies s.next_call (some router_changed) n (λ e. absurd (omega arith))
              ∙ h.fresh n (omega arith);
          awaited = λ who n e. absurd (cc);
        })
]

-- What a frame does to a node: it learns its id, an answer comes in, or nothing happens.
pub answered_cases :
    (s : Inner) (f : Frame)
    → (answered f s ≡ record s { id = f.to; tx = true; up = true })
      ⊎ (answered f s ≡ s)
      ⊎ ((from : Str) × (a : Result Frame) × (answered f s ≡ settle from a s))
unfolding answered
answered_cases s f = elim (Bool-cases (f.typ == welcome)) [
  | inl t ↦ inl (rw (t, answered) refl)
  | inr w ↦ elim (Bool-cases (f.typ == providers)) [
    | inl t ↦ inr (inr (zapd_name, ok f, rw (w, answered, t) refl))
    | inr p ↦ elim (Bool-cases (f.typ == response)) [
      | inl t ↦ inr (inr (f.from, ok f, rw (w, answered, p, t) refl))
      | inr o ↦ elim (Bool-cases (f.typ == error)) [
        | inl t ↦ elim (Option-cases (strip_prefix (lit "no_route:") (from_utf8_lossy f.payload))) [
          | inl x ↦ inr (inl (rw (w, answered, p, o, t, x) refl))
          | inr (dest, x) ↦ inr (
              inr (
                dest,
                fail not_found (from_utf8_lossy f.payload),
                rw (w, answered, p, o, t, x) refl,
              ))
        ]
        | inr x ↦ inr (inl (rw (w, answered, p, o, x) refl))
      ]
    ]
  ]
]

answered-IsSound : (s : Inner) (f : Frame) → IsSound s → IsSound (answered f s)
answered-IsSound s f h = elim (answered_cases s f) [
  | inl e ↦ subst IsSound (sym e) (record { fresh = h.fresh; awaited = h.awaited })
  | inr (inl e) ↦ subst IsSound (sym e) h
  | inr (inr (from, a, e)) ↦ subst IsSound (sym e) (settle-IsSound s from a h)
]

call_cases :
    (t : Option ℕ) (up : Bool) (f : Frame) (answerer : Str) (s : Inner)
    → IsSound s
    → IsSound (if is_none t then (if up then ask f answerer s else s) else s)
unfolding is_none
call_cases none true f answerer s h = ask-IsSound f answerer s h
call_cases none false f answerer s h = h
call_cases (some n) up f answerer s h = h

pub step-IsSound : (e : Event) (s : Inner) → IsSound s → IsSound (step e s)
unfolding step
step-IsSound (frame f) s h = answered-IsSound s f h
step-IsSound drop s h = dropped-IsSound s h
step-IsSound dialed s h = record { fresh = h.fresh; awaited = h.awaited }
step-IsSound broken s h = record { fresh = h.fresh; awaited = h.awaited }
step-IsSound (call f answerer) s h = call_cases s.turn s.up f answerer s h
step-IsSound done s h = record { fresh = h.fresh; awaited = h.awaited }

-- Whatever the router sends, the connection does and the callers do, no call above the newest has an
-- answer, and the outstanding one is among those made and has none.
pub run-IsSound : (es : List Event) (s : Inner) → IsSound s → IsSound (run es s)
unfolding run
run-IsSound [] s h = h
run-IsSound (e ∷ es) s h = run-IsSound es (step e s) (step-IsSound e s h)

module _ (n : ℕ) (x : Result Frame) where
  pub settle_keeps :
      (s : Inner) (from : Str) (a : Result Frame)
      → IsSound s
      → s.replies n ≡ some x
      → (settle from a s).replies n ≡ some x
  unfolding settle
  settle_keeps s from a h r = elim (Option-cases s.waiting) [
    | inl q ↦ rw (q, settle) r
    | inr ((who, m), q) ↦ elim (Bool-cases (str_eq who from)) [
      | inl t ↦
          let (lt, none_yet) = h.awaited who m q in
          rw (q, settle, t)
            (update_ne s.replies m (some a) n
                (λ e. let c : none ≡ some x = sym none_yet ∙ (ap s.replies e ∙ r) in absurd (cc))
              ∙ r)
      | inr f ↦ rw (q, settle, f) r
    ]
  ]

  pub dropped_keeps :
      (s : Inner) → IsSound s → s.replies n ≡ some x → (dropped s).replies n ≡ some x
  unfolding dropped
  dropped_keeps s h r = elim (Option-cases s.waiting) [
    | inl q ↦ rw (q, dropped) r
    | inr ((who, m), q) ↦
        let (lt, none_yet) = h.awaited who m q in
        rw (q, dropped)
          (update_ne s.replies m (some router_changed) n
              (λ e. let c : none ≡ some x = sym none_yet ∙ (ap s.replies e ∙ r) in absurd (cc))
            ∙ r)
  ]

  pub ask_keeps :
      (f : Frame) (answerer : Str) (s : Inner)
      → IsSound s
      → s.replies n ≡ some x
      → (ask f answerer s).replies n ≡ some x
  unfolding ask
  ask_keeps f answerer s h r = elim (Bool-cases (s.tx && s.writing)) [
    | inl t ↦ rw (t, ask) r
    | inr t ↦
        rw (t, ask)
          (update_ne s.replies s.next_call (some router_changed) n
              (λ e. let c : none ≡ some x = sym (h.fresh n (omega arith)) ∙ r in absurd (cc))
            ∙ r)
  ]

-- Whatever its connections bring, no call of a node has an answer before it is made, and the one that
-- is waited for has none yet.
pub joined-IsSound : (id : Str) (es : List Event) → IsSound (run es (joined id))
unfolding joined
joined-IsSound id es =
    run-IsSound es (joined id) (record { fresh = λ n le. refl; awaited = λ who n e. absurd (cc) })
