-- ===== src/Os/Windows/Pipes.antt =====
-- The router's pipe of src/os/windows.rs: `Listener`, and the loop of `dial`. What the pipes do is a
-- parameter.
use zapd.Prelude.{ℕ, Bool, true, false, Option, none, some, List, [], ◌∷◌, ◌==◌, if◌then◌else◌}
use zapd.Text.{Str}
use zapd.Io.{Error, Result, ok, err, ◌>>=◌}
use zapd.Os.Windows.{address}

-- The state `S` of the pipes of the machine: an instance `U` of a name is made with a descriptor `D`,
-- as the first of its name or beside others, and waits for a client.
pub record Pipes (S U D : Type 0) : Type 0 where
  pub create : Str → D → Bool → S → Result U × S
  pub connect : U → S → Result (Unit {0}) × S

pub record Listener (U D : Type 0) : Type 0 where
  pub name : Str
  pub sd : D
  pub next : U

listening : {S U D : Type 0} → Str → D → Result U × S → Result (Listener U D) × S
listening name sd (ok next, s) = (ok (record { name = name; sd = sd; next = next }), s)
listening name sd (err e, s) = (err e, s)

module _ {S U D : Type 0} (os : Pipes S U D) where
  -- `user` and `descriptor` are the answers of `token_sid` and `Descriptor::private(false)`.
  unfoldable pub listener_bind : Result Str → Result D → List ℕ → S → Result (Listener U D) × S
  unfolding listening
  listener_bind user (err e) dir s = (err e, s)
  listener_bind user (ok sd) dir s =
      let name = address user dir in listening name sd (os.create name sd true s)

  -- The instance that has a client, the listener afterwards, and the pipes.
  accepted : Listener U D → Result U × S → (Result U × Listener U D) × S
  accepted l (ok fresh, s) = ((ok l.next, record l { next = fresh }), s)
  accepted l (err e, s) = ((err e, l), s)

  connected : Listener U D → Result (Unit {0}) × S → (Result U × Listener U D) × S
  connected l (err e, s) = ((err e, l), s)
  connected l (ok _, s) = accepted l (os.create l.name l.sd false s)

  unfoldable pub listener_accept : Listener U D → S → (Result U × Listener U D) × S
  unfolding connected accepted
  listener_accept l s = connected l (os.connect l.next s)

-- What `ClientOptions::open` answers at one attempt: a client, or an error number.
pub data Opened (C : Type 0) : Type 0 where
  client : C → Opened C
  cannot : ℕ → Opened C

abbrev pub error_pipe_busy : ℕ
error_pipe_busy = 231

-- `none` while every attempt met a busy pipe; the loop sleeps 20 ms after each of those.
unfoldable pub open_client : {C : Type 0} → (ℕ → Error) → List (Opened C) → Option (Result C)
open_client os_error [] = none
open_client os_error (client c ∷ rest) = some (ok c)
open_client os_error (cannot e ∷ rest) =
    let again = open_client os_error rest in
    if e == error_pipe_busy then again else some (err (os_error e))

-- `server` is what `GetNamedPipeServerProcessId` answers for a client.
unfoldable pub dial :
    {C : Type 0} → (ℕ → Error) → (C → Option ℕ) → List (Opened C) → Option (Result (C × Option ℕ))
dial os_error server attempts = elim (open_client os_error attempts) [
  | none ↦ none
  | some r ↦ some (r >>= λ c. ok (c, server c))
]
