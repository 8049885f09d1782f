-- ===== src/Node/Dial.antt =====
-- Whom a node talks to, and how long it waits before it dials again.
use zapd.Prelude.{
  ℕ, zero, suc, ◌*◌, ◌^◌, min, ◌≡◌, ◌↔◌, refl, sym, ◌∙◌, Option, none, some, arith, ◌==◌, ==_iff,
  true, Bool-cases, inl, inr,
}
use zapd.Io.{Result, ok, err}
use zapd.Node.{next_backoff, backoff, dial}

-- A connection is taken exactly if its door is served by the process that holds the router lock.
pub dial_iff :
    {A : Type 0} (r : Result (A × Option ℕ)) (holder : Option ℕ) (s : A)
    → (dial r holder ≡ ok s) ↔ ((p : ℕ) × (r ≡ ok (s, some p)) × (holder ≡ some p))
unfolding dial
dial_iff (err e) holder s = (λ h. absurd (cc), λ (p, q, h). absurd (cc))
dial_iff (ok (t, none)) holder s = (λ h. absurd (cc), λ (p, q, h). absurd (cc))
dial_iff (ok (t, some p)) none s = (λ h. absurd (cc), λ (p', q, h). absurd (cc))
dial_iff (ok (t, some p)) (some h) s = (
  λ e. elim (Bool-cases (p == h)) [
    | inl b ↦ let e' = rw (b, dial) at e in let same : p ≡ h = (==_iff p h).0 b in (p, cc, cc)
    | inr b ↦ let e' = rw (b, dial) at e in absurd (cc)
  ],
  λ (p', q, g).
      let u : p ≡ p' = cc in
      let v : h ≡ p' = cc in
      let w : t ≡ s = cc in
      let b : (p == h) ≡ true = (==_iff p h).1 (u ∙ sym v) in rw (b, dial, w) refl,
)

-- The wait doubles from 50 ms at each failure and stops at 1 s.
pub backoff_lem : (n : ℕ) → backoff n ≡ min (50 * 2 ^ n) 1000
unfolding backoff next_backoff
backoff_lem zero = refl
backoff_lem (suc n) = ground (arith, backoff_lem n)
