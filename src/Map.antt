-- ===== src/Map.antt =====
-- `std::collections::HashMap<String, V>`: its entries, one for each key. The order of iteration is
-- not specified; here it is that of insertion.
use zapd.Prelude.{
  ◌≡◌, ◌≢◌, refl, sym, subst, ◌⊎◌, Bool, true, false, Option, none, some, List, [], ◌∷◌, arith,
  if◌then◌else◌, Bool-cases, inl, inr,
}
use zapd.Text.{Str}
use zapd.Text.Equal.{str_eq, str_eq_iff, str_eq_refl}

abbrev pub Map {ℓ} : Type ℓ → Type ℓ
Map V = List (Str × V)

module _ {ℓ} {V : Type ℓ} where
  unfoldable pub get : Map V → Str → Option V
  get [] k = none
  get ((j, v) ∷ m) k = if str_eq j k then some v else get m k

  abbrev is_some : Option V → Bool
  is_some none = false
  is_some (some v) = true

  unfoldable pub contains_key : Map V → Str → Bool
  contains_key m k = is_some (get m k)

  -- `insert` returns what the key held.
  put : Map V → Str → V → Map V
  put [] k v = (k, v) ∷ []
  put ((j, w) ∷ m) k v = if str_eq j k then (k, v) ∷ m else (j, w) ∷ put m k v

  unfoldable pub insert : Map V → Str → V → Map V × Option V
  unfolding put
  insert m k v = (put m k v, get m k)

  unfoldable pub remove : Map V → Str → Map V
  remove [] k = []
  remove ((j, v) ∷ m) k = let rest = remove m k in if str_eq j k then rest else (j, v) ∷ rest

  pub get-insert :
      (m : Map V) (k j : Str) (v : V)
      → get (insert m k v).0 j ≡ (if str_eq k j then some v else get m j)
  unfolding insert get
  get-insert [] k j v = refl
  get-insert ((i, w) ∷ m) k j v =
      ground (arith, str_eq_iff i k, str_eq_iff i j, str_eq_iff k j, get-insert m k j v)

  pub get-remove :
      (m : Map V) (k j : Str) → get (remove m k) j ≡ (if str_eq k j then none else get m j)
  unfolding remove get
  get-remove [] k j = ground arith
  get-remove ((i, w) ∷ m) k j =
      ground (arith, str_eq_iff i k, str_eq_iff i j, str_eq_iff k j, get-remove m k j)

  -- No key stands twice.
  abbrev pub Distinct : Map V → Type ℓ
  Distinct [] = Unit
  Distinct ((k, v) ∷ m) = (get m k ≡ none) × Distinct m

  put-Distinct : (m : Map V) (k : Str) (v : V) → Distinct m → Distinct (put m k v)
  unfolding put get insert
  put-Distinct [] k v h = (refl, tt)
  put-Distinct ((j, w) ∷ m) k v (n, h) = elim (Bool-cases (str_eq j k)) [
    | inl e ↦ rw e (subst (λ t. get m t ≡ none) ((str_eq_iff j k).0 e) n, h)
    | inr e ↦
        rw e
          (ground (arith, get-insert m k j v, str_eq_iff j k, str_eq_iff k j), put-Distinct m k v h)
  ]

  pub insert-Distinct : (m : Map V) (k : Str) (v : V) → Distinct m → Distinct (insert m k v).0
  unfolding insert
  insert-Distinct = put-Distinct

  pub remove-Distinct : (m : Map V) (k : Str) → Distinct m → Distinct (remove m k)
  unfolding remove get
  remove-Distinct [] k h = tt
  remove-Distinct ((j, w) ∷ m) k (n, h) = elim (Bool-cases (str_eq j k)) [
    | inl e ↦ rw e (remove-Distinct m k h)
    | inr e ↦ rw e (ground (arith, get-remove m k j), remove-Distinct m k h)
  ]

  -- What the rest of the entries holds, the map holds.
  pub get-cons :
      (k : Str) (v : V) (m : Map V) (j : Str) (w : V)
      → Distinct ((k, v) ∷ m)
      → get m j ≡ some w
      → get ((k, v) ∷ m) j ≡ some w
  unfolding get
  get-cons k v m j w (n, h) e = elim (Bool-cases (str_eq k j)) [
    | inl t ↦ cc (subst (λ t. get m t ≡ none) ((str_eq_iff k j).0 t) n, e)
    | inr f ↦ rw f e
  ]

  pub get-cons_self : (k : Str) (v : V) (m : Map V) → get ((k, v) ∷ m) k ≡ some v
  unfolding get
  get-cons_self k v m = rw (str_eq_refl k)

  -- Where an entry found after an insertion or a removal comes from.
  pub get-insert_inv :
      (m : Map V) (k j : Str) (v w : V)
      → get (insert m k v).0 j ≡ some w
      → ((j ≡ k) × (w ≡ v)) ⊎ ((j ≢ k) × (get m j ≡ some w))
  get-insert_inv m k j v w e = elim (Bool-cases (str_eq k j)) [
    | inl t ↦ inl (sym ((str_eq_iff k j).0 t), ground (arith, get-insert m k j v))
    | inr f ↦ inr (λ q. cc ((str_eq_iff k j).1 (sym q), f), ground (arith, get-insert m k j v))
  ]

  pub get-remove_inv :
      (m : Map V) (k j : Str) (w : V) → get (remove m k) j ≡ some w → (j ≢ k) × (get m j ≡ some w)
  get-remove_inv m k j w e = elim (Bool-cases (str_eq k j)) [
    | inl t ↦ absurd (ground (arith, get-remove m k j))
    | inr f ↦ (λ q. cc ((str_eq_iff k j).1 (sym q), f), ground (arith, get-remove m k j))
  ]

  pub get-insert_self : (m : Map V) (k : Str) (v : V) → get (insert m k v).0 k ≡ some v
  get-insert_self m k v = rw (get-insert m k k v, str_eq_refl k)

  pub get-remove_self : (m : Map V) (k : Str) → get (remove m k) k ≡ none
  get-remove_self m k = rw (get-remove m k k, str_eq_refl k)

  pub get-insert_ne : (m : Map V) (k j : Str) (v : V) → j ≢ k → get (insert m k v).0 j ≡ get m j
  get-insert_ne m k j v n = elim (Bool-cases (str_eq k j)) [
    | inl t ↦ absurd (n (sym ((str_eq_iff k j).0 t)))
    | inr f ↦ rw (get-insert m k j v, f)
  ]

  pub get-remove_ne : (m : Map V) (k j : Str) → j ≢ k → get (remove m k) j ≡ get m j
  get-remove_ne m k j n = elim (Bool-cases (str_eq k j)) [
    | inl t ↦ absurd (n (sym ((str_eq_iff k j).0 t)))
    | inr f ↦ rw (get-remove m k j, f)
  ]
