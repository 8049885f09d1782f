-- ===== src/Door/Check.antt =====
-- What the upgrade of a connection lets through.
use zapd.Prelude.{
  ℕ, ◌<◌, ◌≡◌, ◌⊎◌, ◌↔◌, inl, inr, refl, sym, ap, ◌∙◌, Bool, true, false, ◌||◌, Option, none, some,
  List, [], ◌∷◌, ◌++◌, arith, length, length-append, subst, Bool-cases, Option-cases,
}
use zapd.Text.{Str, lit}
use zapd.Text.Equal.{str_eq, str_eq_iff, str_eq_refl}
use zapd.Text.Split.{strip_prefix, strip_prefix-append, strip_prefix-eq, contains}
use zapd.Text.Decimal.{to_decimal}
use zapd.Door.{
  blink_origins, random_origins, host_ok, starts_past, random_origin, origin_ok, is_some_and, check,
}

abbrev blink : Str
blink = lit "chrome-extension://biingenefmanpecedoafkfajbnlgdmbl"

-- The origins of the list `ps`: one of them, and at least one character more.
abbrev pub Starts : List Str → Str → Type 0
Starts [] o = ⊥
Starts (p ∷ ps) o = ((c : ℕ) × (id : Str) × (o ≡ p ++ (c ∷ id))) ⊎ Starts ps o

-- An extension's origin: the Blink extension's, or a per-install one.
abbrev pub IsExtension : Str → Type 0
IsExtension o =
    (o ≡ lit "chrome-extension://biingenefmanpecedoafkfajbnlgdmbl") ⊎ Starts random_origins o

abbrev pub IsLoopback : Str → ℕ → Type 0
IsLoopback h port =
    (h ≡ lit "127.0.0.1:" ++ to_decimal port) ⊎ (h ≡ lit "localhost:" ++ to_decimal port)

longer : (p r : Str) → length p < length (p ++ r) → (c : ℕ) × (id : Str) × (r ≡ c ∷ id)
longer p [] h = absurd (omega (arith, length-append p []))
longer p (c ∷ id) h = (c, id, refl)

starts_past-Starts :
    (p o : Str) → starts_past p o ≡ true → (c : ℕ) × (id : Str) × (o ≡ p ++ (c ∷ id))
unfolding starts_past
starts_past-Starts p o e = elim (Option-cases (strip_prefix p o)) [
  | inl q ↦ let e' = rw (q, starts_past) at e in absurd (cc)
  | inr (r, q) ↦
      let o_eq : o ≡ p ++ r = strip_prefix-eq p o r q in
      let e' = rw (q, starts_past) at e in
      let lt : length p < length o = ground arith in
      let (c, id, r_eq) = longer p r (rw (o_eq) at lt) in (c, id, o_eq ∙ ap (λ t. p ++ t) r_eq)
]

starts_past_lem : (p : Str) (c : ℕ) (id : Str) → starts_past p (p ++ (c ∷ id)) ≡ true
unfolding starts_past
starts_past_lem p c id =
    rw (strip_prefix-append p (c ∷ id), starts_past) (ground (arith, length-append p (c ∷ id)))

or_true : (a b : Bool) → (a || b) ≡ true → (a ≡ true) ⊎ (b ≡ true)
or_true true b h = inl refl
or_true false b h = inr h

or_right : (a : Bool) → (a || true) ≡ true
or_right true = refl
or_right false = refl

or_iff :
    (a b : Bool) {P Q : Type 0} → ((a ≡ true) ↔ P) → ((b ≡ true) ↔ Q) → ((a || b) ≡ true) ↔ (P ⊎ Q)
or_iff a b p q = (
  λ h. elim (or_true a b h) [ inl x ↦ inl (p.0 x) | inr y ↦ inr (q.0 y) ],
  λ h. elim h [ inl x ↦ rw (p.1 x) refl | inr y ↦ rw (q.1 y) (or_right a) ],
)

random_origin_iff : (ps : List Str) (o : Str) → (random_origin ps o ≡ true) ↔ Starts ps o
unfolding random_origin
random_origin_iff [] o = (λ e. absurd (cc), λ h. absurd h)
random_origin_iff (p ∷ ps) o = (
  λ e. elim (Bool-cases (starts_past p o)) [
    | inl t ↦ inl (starts_past-Starts p o t)
    | inr f ↦ inr ((random_origin_iff ps o).0 (rw (f, random_origin) at e))
  ],
  λ h. elim h [
    | inl (c, id, q) ↦ rw (q, starts_past_lem p c id) refl
    | inr t ↦ rw ((random_origin_iff ps o).1 t) (or_right (starts_past p o))
  ],
)

blink_iff :
    (o : Str)
    → (contains blink_origins o ≡ true)
      ↔ (o ≡ lit "chrome-extension://biingenefmanpecedoafkfajbnlgdmbl")
unfolding contains
blink_iff o = (
  λ h. elim (or_true (str_eq blink o) false h) [
    | inl t ↦ sym ((str_eq_iff blink o).0 t)
    | inr f ↦ absurd (cc)
  ],
  λ e. rw (e, str_eq_refl blink) refl,
)

origin_iff : (o : Str) → (origin_ok (some o) ≡ true) ↔ IsExtension o
unfolding origin_ok contains
origin_iff o = or_iff _ _ (blink_iff o) (random_origin_iff random_origins o)

host_iff : (h : Str) (port : ℕ) → (host_ok h port ≡ true) ↔ IsLoopback h port
unfolding host_ok
host_iff h port =
    or_iff _ _ (str_eq_iff h (lit "127.0.0.1:" ++ to_decimal port))
      (str_eq_iff h (lit "localhost:" ++ to_decimal port))

origin_none : origin_ok none ≡ false
unfolding origin_ok
origin_none = refl

-- The upgrade passes exactly if the request names this loopback port as its host and an extension's
-- origin: the Blink extension's, or a per-install one with at least one character of its own.
pub check_iff :
    (origin host : Option Str) (port : ℕ)
    → (check origin host port ≡ none) ↔ (
        ((o : Str) × (origin ≡ some o) × IsExtension o)
        × ((h : Str) × (host ≡ some h) × IsLoopback h port))
unfolding check is_some_and
check_iff none none port = (λ e. absurd (cc), λ h. absurd (cc))
check_iff (some o) none port = (λ e. absurd (cc), λ h. absurd (cc))
check_iff none (some h) port = (
  λ e. elim (Bool-cases (host_ok h port)) [
    | inl t ↦ let e' = rw (t, check, origin_none) at e in absurd (cc)
    | inr f ↦ let e' = rw (f, check) at e in absurd (cc)
  ],
  λ ((o, q, x), y). absurd (cc),
)
check_iff (some o) (some h) port = (
  λ e. elim (Bool-cases (host_ok h port)) [
    | inl t ↦ elim (Bool-cases (origin_ok (some o))) [
      | inl u ↦ ((o, refl, (origin_iff o).0 u), (h, refl, (host_iff h port).0 t))
      | inr f ↦ let e' = rw (t, check, f) at e in absurd (cc)
    ]
    | inr f ↦ let e' = rw (f, check) at e in absurd (cc)
  ],
  λ ((o', q, x), (h', r, y)).
      let o_eq : o' ≡ o = cc in
      let h_eq : h' ≡ h = cc in
      let t : origin_ok (some o) ≡ true = (origin_iff o).1 (subst IsExtension o_eq x) in
      let u : host_ok h port ≡ true = (host_iff h port).1 (subst (λ h. IsLoopback h port) h_eq y) in
      rw (u, check, t) refl,
)
