-- ===== src/Os/Private.antt =====
-- What a path that passes `private`, or that `private_dir` made so, is.
use zapd.Prelude.{
  ℕ, ◌%◌, ◌≡◌, ◌↔◌, inl, inr, refl, ap, subst, Bool, true, ◌==◌, ==_iff, if◌then◌else◌, arith,
  Bool-cases,
}
use zapd.Io.{Result, ok, err, Result-cases}
use zapd.Os.{
  Metadata, is_dir, is_file, open_to_others, private_metadata, private, set_700, tighten,
  private_dir_metadata, private_dir,
}

-- A path of the kind asked for, this user's, with no permission bit for the group or others.
pub record IsPrivate (me : ℕ) (dir : Bool) (m : Metadata) : Type 0 where
  pub kind : (if dir then is_dir m.file_type else is_file m.file_type) ≡ true
  pub own : m.uid ≡ me
  pub shut : m.mode % 64 ≡ 0

private_metadata_iff :
    (me : ℕ) (dir : Bool) (m : Metadata) → (private_metadata me dir m ≡ ok tt) ↔ IsPrivate me dir m
unfolding private_metadata open_to_others
private_metadata_iff me dir m = (
  λ e. elim (Bool-cases (if dir then is_dir m.file_type else is_file m.file_type)) [
    | inl k ↦ elim (Bool-cases (m.uid == me)) [
      | inl u ↦ elim (Bool-cases (m.mode % 64 == 0)) [
        | inl z ↦ record {
          kind = k;
          own = (==_iff m.uid me).0 u;
          shut = (==_iff (m.mode % 64) 0).0 z;
        }
        | inr z ↦ let e' = rw (k, private_metadata, u, z) at e in absurd (cc)
      ]
      | inr u ↦ let e' = rw (k, private_metadata, u) at e in absurd (cc)
    ]
    | inr k ↦ let e' = rw (k, private_metadata) at e in absurd (cc)
  ],
  λ h.
      rw (h.kind, private_metadata, (==_iff m.uid me).1 h.own, (==_iff (m.mode % 64) 0).1 h.shut)
        refl,
)

-- A path passes exactly if it can be looked at and is a directory, or a file, as asked, of this user,
-- and closed to the group and others. A link is neither.
pub private_iff :
    (me : ℕ) (dir : Bool) (stat : Result Metadata)
    → (private me dir stat ≡ ok tt) ↔ ((m : Metadata) × (stat ≡ ok m) × IsPrivate me dir m)
unfolding private
private_iff me dir (ok m) = (
  λ e. (m, refl, (private_metadata_iff me dir m).0 e),
  λ (m', q, h).
      let same : m' ≡ m = cc in (private_metadata_iff me dir m).1 (subst (IsPrivate me dir) same h),
)
private_iff me dir (err x) = (λ e. absurd (cc), λ (m, q, h). absurd (cc))

-- What is read back after the mode was set, if it had to be.
tighten-IsPrivate :
    (me : ℕ) (chmod : Result (Unit {0})) (m : Metadata) (stat' : Result Metadata)
    → is_dir m.file_type ≡ true
    → m.uid ≡ me
    → tighten chmod m ≡ (ok tt, stat')
    → private me true stat' ≡ ok tt
unfolding tighten private open_to_others set_700
tighten-IsPrivate me chmod m stat' k u e = elim (Bool-cases (m.mode % 64 == 0)) [
  | inl z ↦
      let e' = rw (z, tighten) at e in
      let q : ok m ≡ stat' = ap (λ p. p.1) e' in
      subst (λ t. private me true t ≡ ok tt) q
        ((private_metadata_iff me true m).1
          (record { kind = k; own = u; shut = (==_iff (m.mode % 64) 0).0 z }))
  | inr z ↦ elim (Result-cases chmod) [
    | inl (t, c) ↦
        let e' = rw (z, tighten, c) at e in
        let q : ok (set_700 m) ≡ stat' = ap (λ p. p.1) e' in
        subst (λ t. private me true t ≡ ok tt) q
          ((private_metadata_iff me true (set_700 m)).1
            (record { kind = k; own = u; shut = omega arith }))
    | inr (x, c) ↦ let e' = rw (z, tighten, c) at e in absurd (cc)
  ]
]

-- A directory that `private_dir` accepts passes `private` afterwards, also where it was open before.
pub private-private_dir :
    (me : ℕ) (made chmod : Result (Unit {0})) (stat stat' : Result Metadata)
    → private_dir me made stat chmod ≡ (ok tt, stat')
    → private me true stat' ≡ ok tt
unfolding private_dir private_dir_metadata
private-private_dir me (err x) chmod stat stat' e = absurd (cc)
private-private_dir me (ok t) chmod (err x) stat' e = absurd (cc)
private-private_dir me (ok t) chmod (ok m) stat' e = elim (Bool-cases (is_dir m.file_type)) [
  | inl k ↦ elim (Bool-cases (m.uid == me)) [
    | inl u ↦
        tighten-IsPrivate me chmod m stat' k ((==_iff m.uid me).0 u)
          (rw (k, private_dir_metadata, u) at e)
    | inr u ↦ let e' = rw (k, private_dir_metadata, u) at e in absurd (cc)
  ]
  | inr k ↦ let e' = rw (k, private_dir_metadata) at e in absurd (cc)
]
