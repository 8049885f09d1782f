-- ===== src/Elect/LockFile.antt =====
-- One handle on the lock file for the whole life of a process.
use zapd.Prelude.{
  ℕ, ◌≡◌, inl, inr, refl, ap, ◌∙◌, subst, none, some, [], ◌∷◌, ◌++◌, Option-cases, Bool-cases,
}
use zapd.Text.{Str}
use zapd.Text.Equal.{str_eq, str_eq_refl}
use zapd.Io.{Result, ok, Result-cases}
use zapd.Map.{Map, get}
use zapd.Elect.{lock_file, open_push}

get-append_none :
    (files : Map ℕ) (path : Str) (f : ℕ)
    → get files path ≡ none
    → get (files ++ ((path, f) ∷ [])) path ≡ some f
unfolding get
get-append_none [] path f e = rw (str_eq_refl path, get) refl
get-append_none ((j, v) ∷ files) path f e = elim (Bool-cases (str_eq j path)) [
  | inl t ↦ let e' = rw (t, get) at e in absurd (cc)
  | inr n ↦ rw (n, get) (get-append_none files path f (rw (n, get) at e))
]

get-append_some :
    (files : Map ℕ) (path other : Str) (f g : ℕ)
    → get files path ≡ some f
    → get (files ++ ((other, g) ∷ [])) path ≡ some f
unfolding get
get-append_some [] path other f g e = absurd (cc)
get-append_some ((j, v) ∷ files) path other f g e = elim (Bool-cases (str_eq j path)) [
  | inl t ↦ rw (t, get) (rw (t, get) at e)
  | inr n ↦ rw (n, get) (get-append_some files path other f g (rw (n, get) at e))
]

lock_file-keeps :
    (path other : Str) (runtime : Result (Unit {0})) (opened : Result ℕ) (files : Map ℕ) (f : ℕ)
    → get files path ≡ some f
    → get (lock_file other runtime opened files).1 path ≡ some f
unfolding lock_file open_push
lock_file-keeps path other runtime opened files f e = elim (Option-cases (get files other)) [
  | inl q ↦ elim (Result-cases runtime) [
    | inl (u, r) ↦ elim (Result-cases opened) [
      | inl (g, o) ↦ rw (q, lock_file, r, o) (get-append_some files path other f g e)
      | inr (x, o) ↦ rw (q, lock_file, r, o) e
    ]
    | inr (x, r) ↦ rw (q, lock_file, r) e
  ]
  | inr (g, q) ↦ rw (q, lock_file) e
]

lock_file-holds :
    (path : Str) (runtime : Result (Unit {0})) (opened : Result ℕ) (files files' : Map ℕ) (f : ℕ)
    → lock_file path runtime opened files ≡ (ok f, files')
    → get files' path ≡ some f
unfolding lock_file open_push
lock_file-holds path runtime opened files files' f e = elim (Option-cases (get files path)) [
  | inl q ↦ elim (Result-cases runtime) [
    | inl (u, r) ↦ elim (Result-cases opened) [
      | inl (g, o) ↦
          let e' = rw (q, lock_file, r, o) at e in
          let same : g ≡ f = cc in
          subst (λ m. get m path ≡ some f) (ap (λ p. p.1) e')
            (get-append_none files path g q ∙ ap (λ g. some g) same)
      | inr (x, o) ↦ let e' = rw (q, lock_file, r, o) at e in absurd (cc)
    ]
    | inr (x, r) ↦ let e' = rw (q, lock_file, r) at e in absurd (cc)
  ]
  | inr (g, q) ↦
      let e' = rw (q, lock_file) at e in
      let same : g ≡ f = cc in
      subst (λ m. get m path ≡ some f) (ap (λ p. p.1) e') (q ∙ ap (λ g. some g) same)
]

lock_file-held :
    (path : Str) (runtime : Result (Unit {0})) (opened : Result ℕ) (files : Map ℕ) (f : ℕ)
    → get files path ≡ some f
    → lock_file path runtime opened files ≡ (ok f, files)
unfolding lock_file
lock_file-held path runtime opened files f e = rw (e, lock_file) refl

-- After a call that gave a handle on the lock file at a path, and a call for any path, a call for the
-- first path gives the same handle, whatever the operating system answers, and leaves the handles
-- as they are.
pub lock_file_again :
    (path other : Str) (runtime runtime' runtime2 : Result (Unit {0}))
    (opened opened' opened2 : Result ℕ) (files files' : Map ℕ) (f : ℕ)
    → lock_file path runtime opened files ≡ (ok f, files')
    → lock_file path runtime2 opened2 (lock_file other runtime' opened' files').1
      ≡ (ok f, (lock_file other runtime' opened' files').1)
lock_file_again path other runtime runtime' runtime2 opened opened' opened2 files files' f e =
    lock_file-held path runtime2 opened2 (lock_file other runtime' opened' files').1 f (
      lock_file-keeps path other runtime' opened' files' f
        (lock_file-holds path runtime opened files files' f e))
