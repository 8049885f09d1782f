-- ===== src/Io.antt =====
-- `std::io`: an error is its kind and its message, and a fallible call returns a `Result`.
use zapd.Prelude.{◌≡◌, ◌⊎◌, inl, inr, refl}
use zapd.Text.{Str}

-- The kinds that the program makes or tests.
pub data ErrorKind : Type 0 where
  invalid_data unexpected_eof not_found permission_denied addr_in_use : ErrorKind
  timed_out connection_reset connection_refused other : ErrorKind

pub record Error : Type 0 where
  pub kind : ErrorKind
  pub message : Str

pub data Result {ℓ} (A : Type ℓ) : Type ℓ where
  ok : A → Result A
  err : Error → Result A

-- `Error::new`
abbrev pub fail {ℓ} : {A : Type ℓ} → ErrorKind → Str → Result A
fail k m = err (record { kind = k; message = m })

pub Result-cases {ℓ} :
    {A : Type ℓ} (r : Result A) → ((a : A) × (r ≡ ok a)) ⊎ ((e : Error) × (r ≡ err e))
Result-cases (ok a) = inl (a, refl)
Result-cases (err e) = inr (e, refl)

-- `is_err`
abbrev pub IsErr {ℓ} : {A : Type ℓ} → Result A → Type ℓ
IsErr {A} r = (e : Error) × (r ≡ err e)

-- `?` on a call that returns nothing, and on one whose value is used.
infixl 5 ◌>>◌ ◌>>=◌
abbrev pub ◌>>◌ {ℓ} : {A : Type ℓ} → Result (Unit {0}) → Result A → Result A
call >> rest = elim call [ ok _ ↦ rest | err e ↦ err e ]

abbrev pub ◌>>=◌ {ℓ κ} : {A : Type κ} {B : Type ℓ} → Result A → (A → Result B) → Result B
call >>= rest = elim call [ ok a ↦ rest a | err e ↦ err e ]

-- A chain that succeeds: what its first call returned, and the rest from there.
pub first_ok {ℓ κ} :
    {A : Type κ} {B : Type ℓ} (call : Result A) {rest : A → Result B} {b : B}
    → (call >>= rest) ≡ ok b
    → (a : A) × (call ≡ ok a) × (rest a ≡ ok b)
first_ok (err e) h = absurd (cc)
first_ok (ok a) h = (a, refl, h)
