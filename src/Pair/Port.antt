-- ===== src/Pair/Port.antt =====
-- The port of a new pairing.
use zapd.Prelude.{
  ℕ, zero, suc, ◌+◌, ◌≤◌, ◌≡◌, ◌⊎◌, inl, inr, sym, ap, ◌∙◌, Bool, true, some, List, [], ◌∷◌, arith,
  Bool-cases, Option-cases,
}
use zapd.Text.{Bytes}
use zapd.Io.{Result, ok, Result-cases}
use zapd.Pair.{well_known, first_free, random_port, draw, free_port}

abbrev pub IsIn : ℕ → List ℕ → Type 0
IsIn p [] = ⊥
IsIn p (q ∷ qs) = (p ≡ q) ⊎ IsIn p qs

first_free-some :
    (free : ℕ → Bool) (ps : List ℕ) (p : ℕ)
    → first_free free ps ≡ some p
    → IsIn p ps × (free p ≡ true)
unfolding first_free
first_free-some free [] p e = absurd (cc)
first_free-some free (q ∷ qs) p e = elim (Bool-cases (free q)) [
  | inl t ↦
      let e' = rw (t, first_free) at e in
      let same : q ≡ p = cc in (inl (sym same), ap free (sym same) ∙ t)
  | inr f ↦ let (i, t) = first_free-some free qs p (rw (f, first_free) at e) in (inr i, t)
]

random_port_range : (r : Bytes) → (20000 ≤ random_port r) × (random_port r ≤ 29999)
unfolding random_port
random_port_range r = omega arith

draw_ok :
    (free : ℕ → Bool) (random : ℕ → Result Bytes) (rounds i p : ℕ)
    → draw free random rounds i ≡ ok p
    → (20000 ≤ p) × (p ≤ 29999) × (free p ≡ true)
unfolding draw
draw_ok free random zero i p e = absurd (cc)
draw_ok free random (suc rounds) i p e = elim (Result-cases (random i)) [
  | inl (r, q) ↦ elim (Bool-cases (free (random_port r))) [
    | inl t ↦
        let e' = rw (q, draw, t) at e in
        let same : random_port r ≡ p = cc in
        let (lo, hi) = random_port_range r in rw (← same) (lo, hi, t)
    | inr f ↦ draw_ok free random rounds (i + 1) p (rw (q, draw, f) at e)
  ]
  | inr (x, q) ↦ let e' = rw (q, draw) at e in absurd (cc)
]

-- A port that is chosen can be bound, and is a well-known one or lies in 20000 to 29999.
pub free_port_ok :
    (free : ℕ → Bool) (random : ℕ → Result Bytes) (p : ℕ)
    → free_port free random ≡ ok p
    → (free p ≡ true) × (IsIn p well_known ⊎ ((20000 ≤ p) × (p ≤ 29999)))
unfolding free_port
free_port_ok free random p e = elim (Option-cases (first_free free well_known)) [
  | inl q ↦
      let (lo, hi, t) = draw_ok free random 100 0 p (rw (q, free_port) at e) in (t, inr (lo, hi))
  | inr (n, q) ↦
      let e' = rw (q, free_port) at e in
      let same : n ≡ p = cc in
      let (i, t) = first_free-some free well_known n q in rw (← same) (t, inl i)
]
