-- ===== src/Os/Windows/Sddl.antt =====
-- The access list that `Descriptor::private` writes: whom it admits, by a reader of its own.
use zapd.Prelude.{
  ℕ, zero, suc, ◌≤◌, ◌≡◌, ◌≢◌, refl, sym, ap, ◌∙◌, Bool, false, Option, none, some, List, [], ◌∷◌,
  ◌++◌, append_assoc, append-nil, foldl, length, length-append, arith, All, All-append, ◌==◌,
  if◌then◌else◌,
}
use zapd.Text.{Str, lit}
use zapd.Text.Split.{strip_prefix, strip_prefix-append}
use zapd.Os.Windows.{ace, flags_of, sddl}

-- The text before the next `)`, and what follows it.
abbrev pub closing : Str → Option (Str × Str)
closing [] = none
closing (c ∷ s) =
    if c == b')'
    then some ([], s)
    else elim (closing s) [ none ↦ none | some (sid, rest) ↦ some (c ∷ sid, rest) ]

abbrev pub cons_to : Str → Option (List Str) → Option (List Str)
cons_to sid none = none
cons_to sid (some sids) = some (sid ∷ sids)

-- The trustees of a list of entries that each give all access, with these flags; `none` if anything
-- else stands in it.
abbrev pub trustees : ℕ → Str → Str → Option (List Str)
trustees fuel flags [] = some []
trustees zero flags (c ∷ s) = none
trustees (suc fuel) flags (c ∷ s) =
    elim (strip_prefix (lit "(A;" ++ (flags ++ lit ";GA;;;")) (c ∷ s)) [
      | none ↦ none
      | some t ↦ elim (closing t) [
        | none ↦ none
        | some (sid, rest) ↦ cons_to sid (trustees fuel flags rest)
      ]
    ]

-- A protected access list.
unfoldable pub read_sddl : Bool → Str → Option (List Str)
read_sddl inherit s = elim (strip_prefix (lit "D:P") s) [
  | none ↦ none
  | some list ↦ trustees (length list) (flags_of inherit) list
]

abbrev pub IsSid : Str → Type 0
IsSid = All (λ c. c ≢ b')')

closing-append : (sid rest : Str) → IsSid sid → closing (sid ++ (b')' ∷ rest)) ≡ some (sid, rest)
closing-append [] rest h = refl
closing-append (c ∷ sid) rest (p, h) =
    let n : (c == b')') ≡ false = ground arith in rw (n, closing-append sid rest h) refl

abbrev aces : Str → List Str → Str
aces flags [] = []
aces flags (sid ∷ sids) = ace flags sid ++ aces flags sids

foldl-aces :
    (flags : Str) (sids : List Str) (s : Str)
    → foldl (λ s sid. s ++ ace flags sid) s sids ≡ s ++ aces flags sids
foldl-aces flags [] s = sym (append-nil s)
foldl-aces flags (sid ∷ sids) s =
    foldl-aces flags sids (s ++ ace flags sid) ∙ append_assoc s (ace flags sid) (aces flags sids)

abbrev opening : Str → Str
opening flags = lit "(A;" ++ (flags ++ lit ";GA;;;")

ace-append :
    (flags sid rest : Str) → ace flags sid ++ rest ≡ opening flags ++ (sid ++ (b')' ∷ rest))
unfolding ace
ace-append flags sid rest = simp append_assoc refl

strip-ace :
    (flags sid rest : Str)
    → strip_prefix (opening flags) (ace flags sid ++ rest) ≡ some (sid ++ (b')' ∷ rest))
strip-ace flags sid rest =
    ap (strip_prefix (opening flags)) (ace-append flags sid rest)
    ∙ strip_prefix-append (opening flags) (sid ++ (b')' ∷ rest))

count-aces : (flags : Str) (sids : List Str) → length sids ≤ length (aces flags sids)
unfolding ace
count-aces flags [] = omega arith
count-aces flags (sid ∷ sids) =
    omega (arith, length-append (ace flags sid) (aces flags sids), count-aces flags sids)

trustees_step :
    (fuel : ℕ) (flags s t sid rest : Str)
    → s ≢ []
    → strip_prefix (opening flags) s ≡ some t
    → closing t ≡ some (sid, rest)
    → trustees (suc fuel) flags s ≡ cons_to sid (trustees fuel flags rest)
trustees_step fuel flags [] t sid rest n e f = absurd (n refl)
trustees_step fuel flags (c ∷ s) t sid rest n e f = rw (e, trustees, f) refl

trustees-aces :
    (fuel : ℕ) (flags : Str) (sids : List Str)
    → All IsSid sids
    → length sids ≤ fuel
    → trustees fuel flags (aces flags sids) ≡ some sids
unfolding ace
trustees-aces zero flags [] h k = refl
trustees-aces (suc fuel) flags [] h k = refl
trustees-aces zero flags (sid ∷ sids) h k = absurd (omega arith)
trustees-aces (suc fuel) flags (sid ∷ sids) (p, h) k =
    trustees_step fuel flags (ace flags sid ++ aces flags sids) (sid ++ (b')' ∷ aces flags sids))
      sid (aces flags sids) (λ e. cc) (strip-ace flags sid (aces flags sids))
      (closing-append sid (aces flags sids) p)
    ∙ ap (cons_to sid) (trustees-aces fuel flags sids h (omega arith))

-- The access list of a directory or a pipe admits exactly the owners that it was made for and SYSTEM,
-- each with all access and nothing besides, and inherits no entry.
pub read_sddl-sddl :
    (inherit : Bool) (sids : List Str)
    → All IsSid sids
    → read_sddl inherit (sddl inherit sids) ≡ some (sids ++ (lit "SY" ∷ []))
unfolding read_sddl sddl
read_sddl-sddl inherit sids h =
    let all : List Str = sids ++ (lit "SY" ∷ []) in
    let flags = flags_of inherit in
    let list = aces flags all in
    let good : All IsSid all =
      All-append IsSid sids (lit "SY" ∷ []) h (((omega arith, (omega arith, tt))), tt) in
    rw (foldl-aces flags all (lit "D:P"), read_sddl, strip_prefix-append (lit "D:P") list)
      (trustees-aces (length list) flags all good (count-aces flags all))
