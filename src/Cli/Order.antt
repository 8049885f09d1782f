-- ===== src/Cli/Order.antt =====
-- The order in which the router names the nodes, which is that of a hash map, does not show in `ls`.
use zapd.Prelude.{
  ◌≡◌, ◌≢◌, inl, inr, refl, ap, sym, ◌∙◌, true, false, List, [], ◌∷◌, arith, All, if◌then◌else◌,
  Bool-cases,
}
use zapd.Text.{Str}
use zapd.Text.Equal.{str_eq}
use zapd.Frame.Control.{Entry}
use zapd.Cli.{str_le, retain, insert, sort, shown}
use zapd.Cli.Listing.{str_le_total}

str_le_antisym : (s t : Str) → str_le s t ≡ true → str_le t s ≡ true → s ≡ t
unfolding str_le
str_le_antisym [] [] e f = refl
str_le_antisym [] (y ∷ ys) e f = absurd (cc)
str_le_antisym (x ∷ xs) [] e f = absurd (cc)
str_le_antisym (x ∷ xs) (y ∷ ys) e f = ground (arith, str_le_antisym xs ys)

str_le_trans : (s t u : Str) → str_le s t ≡ true → str_le t u ≡ true → str_le s u ≡ true
unfolding str_le
str_le_trans [] t u e f = refl
str_le_trans (x ∷ xs) [] u e f = absurd (cc)
str_le_trans (x ∷ xs) (y ∷ ys) [] e f = absurd (cc)
str_le_trans (x ∷ xs) (y ∷ ys) (z ∷ zs) e f = ground (arith, str_le_trans xs ys zs)

str_lt : (s t : Str) → s ≢ t → str_le s t ≡ true → str_le t s ≡ false
str_lt s t n e = elim (Bool-cases (str_le t s)) [
  | inl f ↦ absurd (n (str_le_antisym s t e f))
  | inr f ↦ f
]

-- Two nodes of two ids go into their places in either order.
insert-insert :
    (a b : Entry) (l : List Entry) → a.id ≢ b.id → insert a (insert b l) ≡ insert b (insert a l)
unfolding insert
insert-insert a b [] n = elim (Bool-cases (str_le a.id b.id)) [
  | inl t ↦ rw (t, insert, str_lt a.id b.id n t) refl
  | inr f ↦ rw (f, insert, str_le_total a.id b.id f) refl
]
insert-insert a b (m ∷ l) n = elim (Bool-cases (str_le a.id m.id)) [
  | inl p ↦ elim (Bool-cases (str_le b.id m.id)) [
    | inl q ↦ elim (Bool-cases (str_le a.id b.id)) [
      | inl t ↦ rw (p, insert, q, t, str_lt a.id b.id n t) refl
      | inr f ↦ rw (p, insert, q, f, str_le_total a.id b.id f, p) refl
    ]
    | inr q ↦ elim (Bool-cases (str_le b.id a.id)) [
      | inl t ↦ absurd (cc (str_le_trans b.id a.id m.id t p, q))
      | inr f ↦ rw (p, insert, q, f, p) refl
    ]
  ]
  | inr p ↦ elim (Bool-cases (str_le b.id m.id)) [
    | inl q ↦ elim (Bool-cases (str_le a.id b.id)) [
      | inl t ↦ absurd (cc (str_le_trans a.id b.id m.id t q, p))
      | inr f ↦ rw (p, insert, q, f, p) refl
    ]
    | inr q ↦ rw (p, insert, q, p) (ap (◌∷◌ m) (insert-insert a b l n))
  ]
]

-- One round of both: what `ls` does with a node.
abbrev place : Str → Entry → List Entry → List Entry
place me n nodes = if str_eq n.id me then nodes else insert n nodes

shown-cons :
    (me : Str) (n : Entry) (nodes : List Entry) → shown me (n ∷ nodes) ≡ place me n (shown me nodes)
unfolding shown retain sort
shown-cons me n nodes = elim (Bool-cases (str_eq n.id me)) [
  | inl t ↦ rw (t, retain) refl
  | inr f ↦ rw (f, retain) refl
]

place-place :
    (me : Str) (a b : Entry) (l : List Entry)
    → a.id ≢ b.id
    → place me a (place me b l) ≡ place me b (place me a l)
place-place me a b l n = elim (Bool-cases (str_eq a.id me)) [
  | inl p ↦ rw p refl
  | inr p ↦ elim (Bool-cases (str_eq b.id me)) [
    | inl q ↦ rw (p, q) refl
    | inr q ↦ rw (p, q) (insert-insert a b l n)
  ]
]

-- The same nodes in another order.
pub data Shuffle : List Entry → List Entry → Type 0 where
  nothing : Shuffle [] []
  keep : (n : Entry) {l m : List Entry} → Shuffle l m → Shuffle (n ∷ l) (n ∷ m)
  swap : (a b : Entry) (l : List Entry) → Shuffle (a ∷ b ∷ l) (b ∷ a ∷ l)
  chain : {k l m : List Entry} → Shuffle k l → Shuffle l m → Shuffle k m

abbrev pub IsApart : Entry → Entry → Type 0
IsApart n m = n.id ≢ m.id

-- No id stands twice, as in the keys of a map.
abbrev pub Distinct : List Entry → Type 0
Distinct [] = Unit
Distinct (n ∷ nodes) = All (IsApart n) nodes × Distinct nodes

Shuffle-All : (P : Entry → Type 0) {l m : List Entry} → Shuffle l m → All P l → All P m
Shuffle-All P nothing h = tt
Shuffle-All P (keep n s) (p, h) = (p, Shuffle-All P s h)
Shuffle-All P (swap a b l) (p, (q, h)) = (q, (p, h))
Shuffle-All P (chain s t) h = Shuffle-All P t (Shuffle-All P s h)

Shuffle-Distinct : {l m : List Entry} → Shuffle l m → Distinct l → Distinct m
Shuffle-Distinct nothing h = tt
Shuffle-Distinct (keep n s) (p, h) = (Shuffle-All (IsApart n) s p, Shuffle-Distinct s h)
Shuffle-Distinct (swap a b l) ((n, p), (q, h)) = (((λ e. n (sym e)), q), (p, h))
Shuffle-Distinct (chain s t) h = Shuffle-Distinct t (Shuffle-Distinct s h)

-- `ls` shows the same list in whatever order the router names the nodes: no id stands twice in what
-- the router names.
pub shown-Shuffle :
    (me : Str) {nodes nodes' : List Entry}
    → Shuffle nodes nodes'
    → Distinct nodes
    → shown me nodes ≡ shown me nodes'
shown-Shuffle me nothing h = refl
shown-Shuffle me (keep n {l} {m} s) (p, h) =
    shown-cons me n l ∙ ap (place me n) (shown-Shuffle me s h) ∙ sym (shown-cons me n m)
shown-Shuffle me (swap a b l) ((n, p), h) =
    shown-cons me a (b ∷ l)
    ∙ ap (place me a) (shown-cons me b l)
    ∙ place-place me a b (shown me l) n
    ∙ sym (shown-cons me b (a ∷ l) ∙ ap (place me b) (shown-cons me a l))
shown-Shuffle me (chain s t) h = shown-Shuffle me s h ∙ shown-Shuffle me t (Shuffle-Distinct s h)
