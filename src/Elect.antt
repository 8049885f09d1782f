-- ===== src/Elect.antt =====
-- `lock_file` and `holder` of src/elect.rs. The answers of the operating system are parameters.
pub mod BrowserDoor
pub mod LockFile
pub mod Processes
pub mod Serve
mod Tests
use zapd.Prelude.{ℕ, Bool, true, false, Option, none, some, List, [], ◌∷◌, ◌++◌}
use zapd.Text.{Str}
use zapd.Io.{Result, ok, err}
use zapd.Map.{Map, get}

open_push : Str → Result ℕ → Map ℕ → Result ℕ × Map ℕ
open_push path (ok f) files = (ok f, files ++ ((path, f) ∷ []))
open_push path (err e) files = (err e, files)

-- `files` holds the handles that this process has opened, by their paths: `private_runtime` and
-- `open_lock` are asked only for a path that it does not hold.
unfoldable pub lock_file : Str → Result (Unit {0}) → Result ℕ → Map ℕ → Result ℕ × Map ℕ
unfolding open_push
lock_file path runtime opened files = elim (get files path) [
  | some f ↦ (ok f, files)
  | none ↦ elim runtime [ ok _ ↦ open_push path opened files | err e ↦ (err e, files) ]
]

os_holder : (ℕ → Option ℕ) → Result ℕ → Option ℕ
os_holder asked (ok f) = asked f
os_holder asked (err e) = none

-- `elected`: this process holds the lock. `asked` is `os::holder` of a handle.
unfoldable pub holder : Bool → ℕ → (ℕ → Option ℕ) → Result ℕ → Option ℕ
unfolding os_holder
holder true pid asked file = some pid
holder false pid asked file = os_holder asked file
