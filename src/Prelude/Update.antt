-- ===== src/Prelude/Update.antt =====
-- A function on the numbers with one value replaced: the numbered things of a state.
use Prim.Native.Nat.{ℕ}
use mathlib.Core.Path.{◌≡◌, refl, subst}
use mathlib.Core.Logic.{◌≢◌, ◌⊎◌, inl, inr}
use zapd.Prelude.Tests.{◌==◌, ==_iff, if◌then◌else◌, Bool-cases}

abbrev pub update {ℓ} : {A : Type ℓ} → (ℕ → A) → ℕ → A → ℕ → A
update f c a d = if c == d then a else f d

module _ {ℓ} {A : Type ℓ} (f : ℕ → A) (k : ℕ) (a : A) where
  pub update_self : update f k a k ≡ a
  update_self = rw ((==_iff k k).1 refl) refl

  pub update_ne : (l : ℕ) → k ≢ l → update f k a l ≡ f l
  update_ne l h = elim (Bool-cases (k == l)) [
    | inl t ↦ absurd (h ((==_iff k l).0 t))
    | inr n ↦ rw n refl
  ]

  -- What holds of the task that moved and of each other task holds of all.
  pub update_all {κ} :
      (P : ℕ → A → Type κ) → P k a → ((l : ℕ) → k ≢ l → P l (f l)) → (l : ℕ) → P l (update f k a l)
  update_all P h o l = elim (Bool-cases (k == l)) [
    | inl t ↦ let e : k ≡ l = (==_iff k l).0 t in rw t (subst (λ i. P i a) e h)
    | inr n ↦ rw n (o l (λ e. cc ((==_iff k l).1 e, n)))
  ]

  pub update_cases : (l : ℕ) → ((k ≡ l) × (update f k a l ≡ a)) ⊎ ((k ≢ l) × (update f k a l ≡ f l))
  update_cases l = elim (Bool-cases (k == l)) [
    | inl t ↦ inl ((==_iff k l).0 t, rw t refl)
    | inr n ↦ let h : k ≢ l = λ e. cc ((==_iff k l).1 e, n) in inr (h, rw n refl)
  ]
