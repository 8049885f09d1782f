-- ===== src/Router/Listing.antt =====
-- What `list` answers.
use zapd.Prelude.{
  ◌≡◌, ◌⊎◌, ◌↔◌, refl, sym, ap, subst, ◌∙◌, Bool, true, false, ◌||◌, some, List, [], ◌∷◌, arith,
  if◌then◌else◌, Bool-cases, inl, inr,
}
use zapd.Text.{Str}
use zapd.Text.Equal.{str_eq, str_eq_iff}
use zapd.Map.{Map, get, Distinct, get-cons, get-cons_self}
use zapd.Frame.Control.{Descriptor, Entry}
use zapd.Router.{Peer, State, is_empty, list_loop, list}

-- The entry stands in the answer.
abbrev pub Listed : Entry → List Entry → Type 0
Listed e [] = ⊥
Listed e (x ∷ xs) = (x ≡ e) ⊎ Listed e xs

-- The filter admits the brand: it is empty, or the same.
abbrev pub Admits : Str → Str → Type 0
Admits brand_filter brand = (brand_filter ≡ []) ⊎ (brand ≡ brand_filter)

abbrev admits : Str → Str → Bool
admits brand_filter brand = is_empty brand_filter || str_eq brand brand_filter

admits-Admits : (f b : Str) → admits f b ≡ true → Admits f b
unfolding is_empty
admits-Admits [] b h = inl refl
admits-Admits (c ∷ f) b h = inr ((str_eq_iff b (c ∷ f)).0 h)

Admits-admits : (f b : Str) → Admits f b → admits f b ≡ true
unfolding is_empty
Admits-admits [] b h = refl
Admits-admits (c ∷ f) b (inl h) = cc
Admits-admits (c ∷ f) b (inr h) = (str_eq_iff b (c ∷ f)).1 h

abbrev IsHeld : Map Peer → Str → Entry → Type 0
IsHeld m f e = (p : Peer) × (get m e.id ≡ some p) × (p.desc ≡ e.desc) × Admits f e.desc.brand

Listed-IsHeld :
    (m : Map Peer) (f : Str) (e : Entry) → Distinct m → Listed e (list_loop m f) → IsHeld m f e
unfolding list_loop
Listed-IsHeld [] f e h l = absurd l
Listed-IsHeld ((k, p) ∷ m) f e h l = elim (Bool-cases (admits f p.desc.brand)) [
  | inl t ↦
      let l' : Listed e (record { id = k; desc = p.desc } ∷ list_loop m f) = rw t at l in
      elim l' [
        | inl eq ↦
            subst (λ x. IsHeld ((k, p) ∷ m) f x) eq
              (p, get-cons_self k p m, refl, admits-Admits f p.desc.brand t)
        | inr r ↦
            let (q, g, d, a) = Listed-IsHeld m f e h.1 r in (q, get-cons k p m e.id q h g, d, a)
      ]
  | inr n ↦
      let (q, g, d, a) = Listed-IsHeld m f e h.1 (rw n at l) in (q, get-cons k p m e.id q h g, d, a)
]

-- The entry of a head that the filter admits.
same_head :
    (k : Str) (p q : Peer) (m : Map Peer) (e : Entry)
    → str_eq k e.id ≡ true
    → get ((k, p) ∷ m) e.id ≡ some q
    → q.desc ≡ e.desc
    → (p.desc ≡ e.desc) × (record { id = k; desc = p.desc } ≡ e)
unfolding get
same_head k p q m e t g d =
    let pq : p ≡ q = ground arith in
    let pd : p.desc ≡ e.desc = ap (λ (x : Peer). x.desc) pq ∙ d in
    let ke : k ≡ e.id = (str_eq_iff k e.id).0 t in (pd, λ i. record { id = ke i; desc = pd i })

other_head :
    (k : Str) (p q : Peer) (m : Map Peer) (j : Str)
    → str_eq k j ≡ false
    → get ((k, p) ∷ m) j ≡ some q
    → get m j ≡ some q
unfolding get
other_head k p q m j n g = ground arith

Listed-if :
    (b : Bool) (e x : Entry) (xs : List Entry) → Listed e xs → Listed e (if b then x ∷ xs else xs)
Listed-if true e x xs h = inr h
Listed-if false e x xs h = h

IsHeld-Listed : (m : Map Peer) (f : Str) (e : Entry) → IsHeld m f e → Listed e (list_loop m f)
unfolding list_loop
IsHeld-Listed [] f e (q, g, d, a) = unfold get in cc
IsHeld-Listed ((k, p) ∷ m) f e (q, g, d, a) = elim (Bool-cases (str_eq k e.id)) [
  | inl t ↦
      let (pd, eq) = same_head k p q m e t g d in
      let ok_ : admits f p.desc.brand ≡ true =
        Admits-admits f p.desc.brand (subst (λ (x : Descriptor). Admits f x.brand) (sym pd) a) in
      rw ok_ (inl eq)
  | inr n ↦
      Listed-if (admits f p.desc.brand) e (record { id = k; desc = p.desc }) (list_loop m f)
        (IsHeld-Listed m f e (q, other_head k p q m e.id n g, d, a))
]

-- `list` answers exactly the registered nodes, each with its own descriptor, whose brand the filter
-- admits.
pub list_iff :
    (brand_filter : Str) (s : State) (e : Entry)
    → Distinct s.peers
    → Listed e (list brand_filter s) ↔ (
        (p : Peer) × (get s.peers e.id ≡ some p)
        × (p.desc ≡ e.desc)
        × Admits brand_filter e.desc.brand)
unfolding list
list_iff brand_filter s e h =
    (Listed-IsHeld s.peers brand_filter e h, IsHeld-Listed s.peers brand_filter e)
