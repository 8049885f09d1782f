-- ===== src/Os/Unix/Door.antt =====
-- The door of src/os/unix.rs as `Listener::bind` leaves it, whatever was at its path.
use zapd.Prelude.{ℕ, ◌≡◌, refl, Option, none, some}
use zapd.Text.{Str}
use zapd.Io.{ok}
use zapd.Os.Unix.{Sockets, address, listener_bind, bound_at, shut}

-- What POSIX documents of a directory that only this user can write: `mode` is that of what stands at
-- a path, if anything does.
pub record Documented {S U : Type 0} (os : Sockets S U) : Type 0 where
  pub mode : Str → S → Option ℕ
  -- unlink(2) leaves nothing at the path
  pub removed : (path : Str) (s : S) → mode path (os.remove_file path s).1 ≡ none
  -- bind(2) makes a socket where nothing is
  pub bound :
      (path : Str) (s : S)
      → mode path s ≡ none
      → (uds : U) × (s' : S) × (os.bind path s ≡ (ok uds, s')) × ((m : ℕ) × (mode path s' ≡ some m))
  -- chmod(2)
  pub changed :
      (path : Str) (m n : ℕ) (s : S)
      → mode path s ≡ some m
      → (s' : S) × (os.set_permissions path n s ≡ (ok tt, s')) × (mode path s' ≡ some n)

module _ {S U : Type 0} (os : Sockets S U) (doc : Documented os) where
  listener_bind-ok :
      (dir : Str) (s s1 s2 : S) (uds : U)
      → os.bind (address dir) (os.remove_file (address dir) s).1 ≡ (ok uds, s1)
      → os.set_permissions (address dir) 0o600 s1 ≡ (ok tt, s2)
      → listener_bind os dir s ≡ (ok uds, s2)
  unfolding listener_bind bound_at shut
  listener_bind-ok dir s s1 s2 uds b c = rw (listener_bind, b, bound_at, c) refl

  -- The router's door is bound also where a router that was killed left its socket, and then it is
  -- this user's alone.
  pub listener_bind_stale :
      (dir : Str) (s : S)
      → (uds : U) × (s' : S) × (listener_bind os dir s ≡ (ok uds, s'))
        × (doc.mode (address dir) s' ≡ some 0o600)
  listener_bind_stale dir s =
      let path = address dir in
      let (uds, s1, b, (m, e)) = doc.bound path (os.remove_file path s).1 (doc.removed path s) in
      let (s2, c, p) = doc.changed path m 0o600 s1 e in
      (uds, s2, listener_bind-ok dir s s1 s2 uds b c, p)
