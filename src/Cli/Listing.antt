-- ===== src/Cli/Listing.antt =====
-- What `ls` shows: every other node once, in the order of the ids.
use mathlib.Core.List.{Perm, perm_middle}
use mathlib.Core.List.Perm
use zapd.Prelude.{
  ◌≡◌, ◌≢◌, inl, inr, refl, true, false, List, [], ◌∷◌, ◌++◌, map, arith, All, Bool-cases,
}
use zapd.Text.{Str, lit}
use zapd.Io.{Result, ok}
use zapd.Pair.{Pairing}
use zapd.Text.Equal.{str_eq, str_eq_iff}
use zapd.Frame.Control.{Entry}
use zapd.Cli.{str_le, retain, insert, sort, shown, main, command, exit_of, line}

-- Of two strings one is not above the other.
pub str_le_total : (s t : Str) → str_le s t ≡ false → str_le t s ≡ true
unfolding str_le
str_le_total [] t e = absurd (cc)
str_le_total (x ∷ xs) [] e = refl
str_le_total (x ∷ xs) (y ∷ ys) e = ground (arith, str_le_total xs ys)

abbrev pub IsBelow : Entry → List Entry → Type 0
IsBelow n [] = Unit
IsBelow n (m ∷ nodes) = str_le n.id m.id ≡ true

-- Each id is at most the next one.
abbrev pub IsSorted : List Entry → Type 0
IsSorted [] = Unit
IsSorted (n ∷ nodes) = IsBelow n nodes × IsSorted nodes

insert-IsBelow :
    (m n : Entry) (nodes : List Entry)
    → str_le m.id n.id ≡ true
    → IsBelow m nodes
    → IsBelow m (insert n nodes)
unfolding insert
insert-IsBelow m n [] e h = e
insert-IsBelow m n (o ∷ nodes) e h = elim (Bool-cases (str_le n.id o.id)) [
  | inl t ↦ rw (t, insert) e
  | inr f ↦ rw (f, insert) h
]

insert-IsSorted : (n : Entry) (nodes : List Entry) → IsSorted nodes → IsSorted (insert n nodes)
unfolding insert
insert-IsSorted n [] h = (tt, tt)
insert-IsSorted n (m ∷ nodes) (b, h) = elim (Bool-cases (str_le n.id m.id)) [
  | inl t ↦ rw (t, insert) (t, (b, h))
  | inr f ↦
      rw (f, insert)
        (insert-IsBelow m n nodes (str_le_total n.id m.id f) b, insert-IsSorted n nodes h)
]

sort-IsSorted : (nodes : List Entry) → IsSorted (sort nodes)
unfolding sort
sort-IsSorted [] = tt
sort-IsSorted (n ∷ nodes) = insert-IsSorted n (sort nodes) (sort-IsSorted nodes)

insert-Perm : (n : Entry) (nodes : List Entry) → Perm (insert n nodes) (n ∷ nodes)
unfolding insert
insert-Perm n [] = Perm.rfl
insert-Perm n (m ∷ nodes) = elim (Bool-cases (str_le n.id m.id)) [
  | inl t ↦ rw (t, insert) Perm.rfl
  | inr f ↦ rw (f, insert) (Perm.trans (Perm.cons m (insert-Perm n nodes)) (Perm.swap n m nodes))
]

sort-Perm : (nodes : List Entry) → Perm (sort nodes) nodes
unfolding sort
sort-Perm [] = Perm.rfl
sort-Perm (n ∷ nodes) = Perm.trans (insert-Perm n (sort nodes)) (Perm.cons n (sort-Perm nodes))

abbrev pub IsOther : Str → Entry → Type 0
IsOther me n = n.id ≢ me

abbrev pub IsOwn : Str → Entry → Type 0
IsOwn me n = n.id ≡ me

retain-IsOther : (me : Str) (nodes : List Entry) → All (IsOther me) (retain me nodes)
unfolding retain
retain-IsOther me [] = tt
retain-IsOther me (n ∷ nodes) = elim (Bool-cases (str_eq n.id me)) [
  | inl t ↦ rw (t, retain) (retain-IsOther me nodes)
  | inr f ↦ rw (f, retain) ((λ e. cc ((str_eq_iff n.id me).1 e, f)), retain-IsOther me nodes)
]

-- What is not retained is the node itself.
retain-Perm :
    (me : Str) (nodes : List Entry)
    → (own : List Entry) × All (IsOwn me) own × Perm nodes (own ++ retain me nodes)
unfolding retain
retain-Perm me [] = ([], tt, Perm.rfl)
retain-Perm me (n ∷ nodes) =
    let (own, h, p) = retain-Perm me nodes in
    elim (Bool-cases (str_eq n.id me)) [
      | inl t ↦ (n ∷ own, ((str_eq_iff n.id me).0 t, h), rw (t, retain) (Perm.cons n p))
      | inr f ↦ (
        own,
        h,
        rw (f, retain) (Perm.trans (Perm.cons n p) (Perm.symm (perm_middle own (retain me nodes)))),
      )
    ]

insert-All :
    (P : Entry → Type 0) (n : Entry) (nodes : List Entry)
    → P n
    → All P nodes
    → All P (insert n nodes)
unfolding insert
insert-All P n [] p h = (p, tt)
insert-All P n (m ∷ nodes) p (q, h) = elim (Bool-cases (str_le n.id m.id)) [
  | inl t ↦ rw (t, insert) (p, (q, h))
  | inr f ↦ rw (f, insert) (q, insert-All P n nodes p h)
]

sort-All : (P : Entry → Type 0) (nodes : List Entry) → All P nodes → All P (sort nodes)
unfolding sort
sort-All P [] h = tt
sort-All P (n ∷ nodes) (p, h) = insert-All P n (sort nodes) p (sort-All P nodes h)

-- Where `nodes` returned the list `nodes`, `ls` prints a line for each of `shown me nodes` and exits
-- with 0. These are in the order of their ids, none of them is the tool's own, and together with
-- entries under the tool's own id they are `nodes`, each as often as there.
pub ls_lem :
    (loaded reset : Result Pairing) (me : Str) (nodes : List Entry) (release : Str)
    → (main (lit "ls" ∷ []) loaded reset me (ok nodes) release ≡ (map line (shown me nodes), 0))
      × IsSorted (shown me nodes)
      × All (IsOther me) (shown me nodes)
      × ((own : List Entry) × All (IsOwn me) own × Perm nodes (own ++ shown me nodes))
unfolding main command exit_of shown str_eq
ls_lem loaded reset me nodes release =
    let (own, h, p) = retain-Perm me nodes in
    (
      refl,
      sort-IsSorted (retain me nodes),
      sort-All (IsOther me) (retain me nodes) (retain-IsOther me nodes),
      (own, h, Perm.trans p (Perm.append_left own (Perm.symm (sort-Perm (retain me nodes))))),
    )
