-- ===== src/Node/Answers.antt =====
-- Which call an answer settles.
use zapd.Prelude.{
  ℕ, ◌≡◌, ◌≢◌, ◌⊎◌, inl, inr, refl, ap, ◌∙◌, some, ◌++◌, ◌==◌, ==_iff, Bool-cases, Option-cases,
}
use zapd.Text.{Str, lit}
use zapd.Text.Equal.{str_eq, str_eq_iff}
use zapd.Text.Utf8.{from_utf8_lossy}
use zapd.Text.Split.{strip_prefix, strip_prefix-eq}
use zapd.Io.{Result, ok, fail, not_found}
use zapd.Frame.Envelope.{Frame, providers, response, error, welcome}
use zapd.Node.{Inner, zapd_name, settle, answered}

settle_answer :
    (s : Inner) (from : Str) (a : Result Frame) (n : ℕ)
    → (settle from a s).replies n ≢ s.replies n
    → (s.waiting ≡ some (from, n)) × ((settle from a s).replies n ≡ some a)
unfolding settle
settle_answer s from a n h = elim (Option-cases s.waiting) [
  | inl q ↦ absurd (h (rw (q, settle) refl))
  | inr ((who, m), q) ↦ elim (Bool-cases (str_eq who from)) [
    | inl t ↦ elim (Bool-cases (m == n)) [
      | inl u ↦
          let w : who ≡ from = (str_eq_iff who from).0 t in
          let v : m ≡ n = (==_iff m n).0 u in
          (q ∙ (ap (λ w. some (w, m)) w ∙ ap (λ k. some (from, k)) v), rw (q, settle, t, u) refl)
      | inr u ↦ absurd (h (rw (q, settle, t, u) refl))
    ]
    | inr f ↦ absurd (h (rw (q, settle, f) refl))
  ]
]

-- A frame that changes the answer of a call gives it the answer of the node that the call awaits: the
-- list of the router, a response, or the refusal of the route.
pub answered_settles :
    (s : Inner) (f : Frame) (n : ℕ)
    → (answered f s).replies n ≢ s.replies n
    → (who : Str) × (s.waiting ≡ some (who, n))
      × (((f.typ ≡ providers) × (who ≡ zapd_name) × ((answered f s).replies n ≡ some (ok f)))
          ⊎ ((f.typ ≡ response) × (who ≡ f.from) × ((answered f s).replies n ≡ some (ok f)))
          ⊎ ((f.typ ≡ error)
              × (from_utf8_lossy f.payload ≡ lit "no_route:" ++ who)
              × ((answered f s).replies n ≡ some (fail not_found (from_utf8_lossy f.payload)))))
unfolding answered
answered_settles s f n h = elim (Bool-cases (f.typ == welcome)) [
  | inl t ↦ absurd (h (rw (t, answered) refl))
  | inr w ↦ elim (Bool-cases (f.typ == providers)) [
    | inl t ↦
        let e : answered f s ≡ settle zapd_name (ok f) s = rw (w, answered, t) refl in
        let (q, r) = settle_answer s zapd_name (ok f) n (rw (e) at h) in
        (zapd_name, q, inl ((==_iff f.typ providers).0 t, refl, rw (e) r))
    | inr p ↦ elim (Bool-cases (f.typ == response)) [
      | inl t ↦
          let e : answered f s ≡ settle f.from (ok f) s = rw (w, answered, p, t) refl in
          let (q, r) = settle_answer s f.from (ok f) n (rw (e) at h) in
          (f.from, q, inr (inl ((==_iff f.typ response).0 t, refl, rw (e) r)))
      | inr o ↦ elim (Bool-cases (f.typ == error)) [
        | inl t ↦ elim (Option-cases (strip_prefix (lit "no_route:") (from_utf8_lossy f.payload))) [
          | inl x ↦ absurd (h (rw (w, answered, p, o, t, x) refl))
          | inr (dest, x) ↦
              let a = fail not_found (from_utf8_lossy f.payload) in
              let e : answered f s ≡ settle dest a s = rw (w, answered, p, o, t, x) refl in
              let (q, r) = settle_answer s dest a n (rw (e) at h) in
              (dest, q, inr (inr ((==_iff f.typ error).0 t, strip_prefix-eq _ _ _ x, rw (e) r)))
        ]
        | inr x ↦ absurd (h (rw (w, answered, p, o, x) refl))
      ]
    ]
  ]
]
