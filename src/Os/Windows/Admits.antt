-- ===== src/Os/Windows/Admits.antt =====
-- Whom a directory that `protect` guarded admits.
use zapd.Prelude.{
  ℕ, Option-cases, ◌≡◌, refl, Bool, true, Option, some, List, [], ◌∷◌, ◌++◌, All, Bool-cases, inl,
  inr, subst, ◌∙◌, ◌==◌, ==_iff,
}
use zapd.Text.{Str, lit}
use zapd.Text.Equal.{str_eq}
use zapd.Text.Utf16.{from_utf16_lossy}
use zapd.Io.{Result, ok, err, first_ok}
use zapd.Os.Windows.{mine, one_or_both, sddl}
use zapd.Os.Windows.Sddl.{IsSid, read_sddl, read_sddl-sddl}
use zapd.Os.Windows.Calls.{
  Security, wide, until_nul, TokenClass, token_sid, sid_string, this_user, descriptor, dacl,
  succeeded, protect,
}

-- What Windows documents of its SIDs and descriptors: a SID's text has no `)`, and the access list of
-- a descriptor gives what its text says.
pub record Documented {P D A : Type 0} (os : Security P D A) : Type 0 where
  pub sid_text :
      (p : P) (units : List ℕ)
      → os.convert_sid p ≡ ok units
      → IsSid (from_utf16_lossy (until_nul units))
  -- the trustees that an access list gives all access, with or without what is made inside
  pub trustees : Bool → A → Option (List Str)
  pub descriptor_text :
      (inherit : Bool) (text : Str) (sd : D) (a : A)
      → os.convert_descriptor (wide text) ≡ ok sd
      → os.descriptor_dacl sd ≡ some a
      → trustees inherit a ≡ read_sddl inherit text

one_or_both-IsSid :
    (user owner : Str) → IsSid user → IsSid owner → All IsSid (one_or_both user owner)
unfolding one_or_both
one_or_both-IsSid user owner u o = elim (Bool-cases (str_eq owner user)) [
  | inl t ↦ rw (t, one_or_both) (u, tt)
  | inr f ↦ rw (f, one_or_both) ((u, (o, tt)))
]

module _ {P D A : Type 0} (os : Security P D A) (doc : Documented os) where
  sid_string-IsSid : (p : P) (s : Str) → sid_string os p ≡ ok s → IsSid s
  unfolding sid_string
  sid_string-IsSid p s e =
      let (units, c, q) = first_ok (os.convert_sid p) e in
      let same : from_utf16_lossy (until_nul units) ≡ s = cc in
      subst IsSid same (doc.sid_text p units c)

  token_sid-IsSid : (class : TokenClass) (s : Str) → token_sid os class ≡ ok s → IsSid s
  unfolding token_sid
  token_sid-IsSid class s e =
      let (t, o, e') = first_ok os.open_process_token e in
      let (p, i, e2) = first_ok (os.token_information class) e' in sid_string-IsSid p s e2

  mine-IsSid :
      (user owner : Result Str) (sids : List Str)
      → ((s : Str) → user ≡ ok s → IsSid s)
      → ((s : Str) → owner ≡ ok s → IsSid s)
      → mine user owner ≡ ok sids
      → All IsSid sids
  unfolding mine
  mine-IsSid (err e) owner sids h g q = absurd (cc)
  mine-IsSid (ok user) (err e) sids h g q = absurd (cc)
  mine-IsSid (ok user) (ok owner) sids h g q =
      let same : one_or_both user owner ≡ sids = cc in
      subst (All IsSid) same (one_or_both-IsSid user owner (h user refl) (g owner refl))

  this_user-IsSid : (sids : List Str) → this_user os ≡ ok sids → All IsSid sids
  unfolding this_user
  this_user-IsSid sids e = mine-IsSid _ _ sids (token_sid-IsSid _) (token_sid-IsSid _) e

  dacl-ok : (sd : D) (a : A) → dacl os sd ≡ ok a → os.descriptor_dacl sd ≡ some a
  unfolding dacl
  dacl-ok sd a e = elim (Option-cases (os.descriptor_dacl sd)) [
    | inl n ↦ let e' = rw (n, dacl) at e in absurd (cc)
    | inr (b, p) ↦ let e' = rw (p, dacl) at e in cc
  ]

  succeeded-ok : (rc : ℕ) → succeeded os rc ≡ ok tt → rc ≡ 0
  unfolding succeeded
  succeeded-ok rc e = elim (Bool-cases (rc == 0)) [
    | inl t ↦ (==_iff rc 0).0 t
    | inr f ↦ let e' = rw (f, succeeded) at e in absurd (cc)
  ]

  -- Where `protect` returns without an error, the access list that it set on the directory gives all
  -- access to this user, to the owner of what it makes, and to SYSTEM, for the directory and for what
  -- is made in it, and none to anyone else.
  pub protect_admits :
      (dir : List ℕ)
      → protect os dir ≡ ok tt
      → (sids : List Str) × (a : A) × (this_user os ≡ ok sids)
        × (os.set_named_dacl (wide dir) a ≡ 0)
        × (doc.trustees true a ≡ some (sids ++ (lit "SY" ∷ [])))
  unfolding protect descriptor
  protect_admits dir e =
      let (sd, d, e1) = first_ok (descriptor os true) e in
      let (a, l, e2) = first_ok (dacl os sd) e1 in
      let (sids, u, c) = first_ok (this_user os) d in
      (
        sids,
        a,
        u,
        succeeded-ok _ e2,
        doc.descriptor_text true (sddl true sids) sd a c (dacl-ok sd a l)
            ∙ read_sddl-sddl true sids (this_user-IsSid sids u),
      )
