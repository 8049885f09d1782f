-- ===== src/Text/Split.antt =====
-- `str::split` at an ASCII character, `strip_prefix` and `contains` of a list, with their laws.
use zapd.Prelude.{
  ℕ, ◌≡◌, ◌≢◌, refl, subst, inl, inr, Bool, true, false, ◌||◌, Option, none, some, List, [], ◌∷◌,
  ◌++◌, arith, ◌==◌, if◌then◌else◌, All, Bool-cases,
}
use zapd.Text.Equal.{str_eq, str_eq_iff}

abbrev onto_first : ℕ → List (List ℕ) → List (List ℕ)
onto_first c [] = (c ∷ []) ∷ []
onto_first c (p ∷ ps) = (c ∷ p) ∷ ps

unfoldable pub split : ℕ → List ℕ → List (List ℕ)
split sep [] = [] ∷ []
split sep (c ∷ cs) = if c == sep then [] ∷ split sep cs else onto_first c (split sep cs)

-- `.split(c).next().unwrap_or("")`
abbrev pub first_part : List (List ℕ) → List ℕ
first_part [] = []
first_part (p ∷ ps) = p

unfoldable pub strip_prefix : List ℕ → List ℕ → Option (List ℕ)
strip_prefix [] s = some s
strip_prefix (p ∷ ps) [] = none
strip_prefix (p ∷ ps) (c ∷ cs) = if p == c then strip_prefix ps cs else none

unfoldable pub contains : List (List ℕ) → List ℕ → Bool
contains [] s = false
contains (x ∷ xs) s = str_eq x s || contains xs s

-- Text in which `sep` does not occur.
abbrev pub Lacks : ℕ → List ℕ → Type 0
Lacks sep = All (λ c. c ≢ sep)

pub split-eq_single : (sep : ℕ) (a : List ℕ) → Lacks sep a → split sep a ≡ a ∷ []
unfolding split
split-eq_single sep [] h = refl
split-eq_single sep (c ∷ cs) (n, h) = ground (arith, split-eq_single sep cs h)

pub split_sep :
    (sep : ℕ) (a b : List ℕ) → Lacks sep a → split sep (a ++ (sep ∷ b)) ≡ a ∷ split sep b
unfolding split
split_sep sep [] b h = ground arith
split_sep sep (c ∷ cs) b (n, h) = ground (arith, split_sep sep cs b h)

-- The parts put together again.
unfoldable pub join : ℕ → List (List ℕ) → List ℕ
join sep [] = []
join sep (p ∷ []) = p
join sep (p ∷ q ∷ ps) = p ++ (sep ∷ join sep (q ∷ ps))

join-onto_first : (sep c : ℕ) (ps : List (List ℕ)) → join sep (onto_first c ps) ≡ c ∷ join sep ps
unfolding join
join-onto_first sep c [] = refl
join-onto_first sep c (p ∷ []) = refl
join-onto_first sep c (p ∷ q ∷ ps) = refl

join-nil : (sep : ℕ) (ps : List (List ℕ)) → ps ≢ [] → join sep ([] ∷ ps) ≡ sep ∷ join sep ps
unfolding join
join-nil sep [] h = absurd (h refl)
join-nil sep (p ∷ ps) h = refl

onto_first-ne-nil : (c : ℕ) (ps : List (List ℕ)) → onto_first c ps ≢ []
onto_first-ne-nil c [] e = cc
onto_first-ne-nil c (p ∷ ps) e = cc

pub split-ne-nil : (sep : ℕ) (s : List ℕ) → split sep s ≢ []
unfolding split
split-ne-nil sep [] = λ e. cc
split-ne-nil sep (c ∷ cs) = elim (Bool-cases (c == sep)) [
  | inl e ↦ rw e (λ f. cc)
  | inr n ↦ rw n (onto_first-ne-nil c (split sep cs))
]

pub join-split : (sep : ℕ) (s : List ℕ) → join sep (split sep s) ≡ s
unfolding split
join-split sep [] = unfold join in refl
join-split sep (c ∷ cs) = ground (
  arith,
  join-split sep cs,
  join-nil sep (split sep cs) (split-ne-nil sep cs),
  join-onto_first sep c (split sep cs),
)

onto_first-Lacks :
    (sep c : ℕ) (ps : List (List ℕ))
    → c ≢ sep
    → All (Lacks sep) ps
    → All (Lacks sep) (onto_first c ps)
onto_first-Lacks sep c [] n h = ((n, tt), tt)
onto_first-Lacks sep c (p ∷ ps) n (hp, h) = ((n, hp), h)

pub split-Lacks : (sep : ℕ) (s : List ℕ) → All (Lacks sep) (split sep s)
unfolding split
split-Lacks sep [] = (tt, tt)
split-Lacks sep (c ∷ cs) = elim (Bool-cases (c == sep)) [
  | inl e ↦ rw e (tt, split-Lacks sep cs)
  | inr n ↦ rw n (onto_first-Lacks sep c (split sep cs) (ground arith) (split-Lacks sep cs))
]

pub strip_prefix-append : (p s : List ℕ) → strip_prefix p (p ++ s) ≡ some s
unfolding strip_prefix
strip_prefix-append [] s = refl
strip_prefix-append (p ∷ ps) s = ground (arith, strip_prefix-append ps s)

pub strip_prefix-eq : (p s r : List ℕ) → strip_prefix p s ≡ some r → s ≡ p ++ r
unfolding strip_prefix
strip_prefix-eq [] s r h = cc
strip_prefix-eq (p ∷ ps) [] r h = cc
strip_prefix-eq (p ∷ ps) (c ∷ cs) r h = ground (arith, strip_prefix-eq ps cs r)

-- What holds of every item holds of a contained one.
pub contains-All {ℓ} :
    (P : List ℕ → Type ℓ) (xs : List (List ℕ)) (s : List ℕ) → All P xs → contains xs s ≡ true → P s
unfolding contains
contains-All P [] s h e = absurd (ground arith)
contains-All P (x ∷ xs) s (p, h) e = elim (Bool-cases (str_eq x s)) [
  | inl t ↦ subst P ((str_eq_iff x s).0 t) p
  | inr f ↦ contains-All P xs s h (rw f at e)
]
