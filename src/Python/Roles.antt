-- ===== src/Python/Roles.antt =====
-- What Python is told of the nodes.
use zapd.Prelude.{
  ℕ, ◌≡◌, inl, inr, refl, sym, ap, ◌∙◌, Option, none, some, List, [], ◌∷◌, foldl, if◌then◌else◌,
  Bool-cases,
}
use zapd.Text.{Str, lit}
use zapd.Text.Equal.{str_eq, str_eq_iff}
use zapd.Map.{Map, get, get-insert}
use zapd.Frame.Control.{Entry}
use zapd.Python.{returns, role_of, role_name, put_attr, dict}

-- The value that stands last under a key.
abbrev pub last_value : List (Str × Str) → Str → Option Str → Option Str
last_value [] k found = found
last_value ((j, v) ∷ attrs) k found = last_value attrs k (if str_eq j k then some v else found)

get-foldl :
    (attrs : List (Str × Str)) (m : Map Str) (k : Str)
    → get (foldl put_attr m attrs) k ≡ last_value attrs k (get m k)
get-foldl [] m k = refl
get-foldl ((j, v) ∷ attrs) m k =
    get-foldl attrs (put_attr m (j, v)) k ∙ ap (last_value attrs k) (get-insert m j k v)

role_name-role_of : (s : Str) (r : ℕ) → role_of s ≡ returns r → role_name r ≡ s
unfolding role_of role_name
role_name-role_of s r e = elim (Bool-cases (str_eq s (lit "provider"))) [
  | inl t ↦
      let e' = rw (t, role_of) at e in
      let same : 1 ≡ r = cc in rw (sym same) (sym ((str_eq_iff s (lit "provider")).0 t))
  | inr f ↦ elim (Bool-cases (str_eq s (lit "consumer"))) [
    | inl t ↦
        let e' = rw (f, role_of, t) at e in
        let same : 2 ≡ r = cc in rw (sym same) (sym ((str_eq_iff s (lit "consumer")).0 t))
    | inr g ↦ let e' = rw (f, role_of, g) at e in absurd (cc)
  ]
]

-- A node that Python joined with a role is shown to Python with that role, whatever else its entry
-- says, and a key of its attributes is shown with the value that stands last under it.
pub dict_lem :
    (role : Str) (n : Entry) (k : Str)
    → role_of role ≡ returns n.desc.role
    → ((dict n).role ≡ role) × (get (dict n).attrs k ≡ last_value n.desc.attrs k none)
unfolding dict get
dict_lem role n k e = (role_name-role_of role n.desc.role e, get-foldl n.desc.attrs [] k)
