-- ===== src/Os/Unix.antt =====
-- src/os/unix.rs, the rest: the door's path, the loop of `lock` over `fcntl`, `holder`, `Listener`,
-- `dial` and `hostname`. The system calls and the message of an error number are parameters.
pub mod Records
pub mod Door
use zapd.Prelude.{
  ℕ, zero, suc, Bool, true, false, not, ◌&&◌, Option, none, some, List, [], ◌∷◌, ◌==◌,
  if◌then◌else◌,
}
use zapd.Text.{Bytes, Str, lit}
use zapd.Text.Split.{split, first_part}
use zapd.Text.Utf8.{from_utf8_lossy}
use zapd.Text.Path.{join}
use zapd.Io.{Error, Result, ok, err, ◌>>=◌, ◌>>◌}

unfoldable pub address : Str → Str
address dir = join dir (lit "zapd.sock")

-- F_SETLKW, F_SETLK and F_GETLK.
pub data Cmd : Type 0 where
  set_wait set get : Cmd

-- F_RDLCK, F_WRLCK and F_UNLCK.
pub data LockType : Type 0 where
  reading writing unlocked : LockType

-- `struct flock`; a length of 0 is the whole file. A process id is a `pid_t` that is not negative, which
-- `as u32` leaves as it is, here and in `dial`.
pub record Flock : Type 0 where
  pub l_type : LockType
  pub l_start : ℕ
  pub l_len : ℕ
  pub l_pid : ℕ

-- What `fcntl` answers: 0 and the struct as it left it, or -1 with this in `errno`.
pub data Answer : Type 0 where
  done : Flock → Answer
  failed : ℕ → Answer

abbrev pub eintr : ℕ
eintr = 4

-- The whole file, from SEEK_SET.
unfoldable pub flock : LockType → Flock
flock t = record { l_type = t; l_start = 0; l_len = 0; l_pid = 0 }

unfoldable pub lock_cmd : Bool → Cmd
lock_cmd take = if take then set_wait else set

unfoldable pub lock_type : Bool → LockType
lock_type take = if take then writing else unlocked

unfoldable pub is_unlocked : LockType → Bool
is_unlocked unlocked = true
is_unlocked _ = false

-- How far a call of `lock` comes: it returns, is still in `fcntl`, or ran out of fuel.
pub data Locking (W : Type 0) : Type 0 where
  returned : Result (Unit {0}) → W → Locking W
  waiting : W → Locking W
  cut : Locking W

unfoldable pub named_holder : Option Answer → Option ℕ
named_holder none = none
named_holder (some (failed e)) = none
named_holder (some (done l)) = if not (is_unlocked l.l_type) then some l.l_pid else none

-- `W` is what `fcntl` acts on; it answers nothing while it waits.
module _ {W : Type 0} (fcntl : Cmd → Flock → W → Option (Answer × W)) where
  module _ (os_error : ℕ → Error) where
    lock_answered : (W → Locking W) → Answer × W → Locking W
    lock_answered again (done l, w) = returned (ok tt) w
    lock_answered again (failed e, w) =
        if not (e == eintr) then returned (err (os_error e)) w else again w

    -- With fuel for that many calls of `fcntl`.
    unfoldable pub lock : Bool → ℕ → W → Locking W
    unfolding lock_answered
    lock take zero w = cut
    lock take (suc n) w = elim (fcntl (lock_cmd take) (flock (lock_type take)) w) [
      | none ↦ waiting w
      | some p ↦ lock_answered (lock take n) p
    ]

  unfoldable pub holder : W → Option ℕ
  holder w = named_holder (elim (fcntl get (flock writing) w) [ none ↦ none | some p ↦ some p.0 ])

-- `announce` records nothing.
unfoldable pub announce : Result (Unit {0})
announce = ok tt

-- What the file system and the sockets do at a path: `S` is their state, `U` a listening socket.
pub record Sockets (S U : Type 0) : Type 0 where
  pub remove_file : Str → S → Result (Unit {0}) × S
  pub bind : Str → S → Result U × S
  pub set_permissions : Str → ℕ → S → Result (Unit {0}) × S

shut : {U S : Type 0} → U → Result (Unit {0}) × S → Result U × S
shut uds (ok _, s) = (ok uds, s)
shut uds (err e, s) = (err e, s)

bound_at : {S U : Type 0} → Sockets S U → Str → Result U × S → Result U × S
bound_at os path (err e, s) = (err e, s)
bound_at os path (ok uds, s) = shut uds (os.set_permissions path 0o600 s)

-- `Listener::bind`; what the removal answers is not looked at.
unfoldable pub listener_bind : {S U : Type 0} → Sockets S U → Str → S → Result U × S
unfolding bound_at shut
listener_bind os dir s =
    let path = address dir in bound_at os path (os.bind path (os.remove_file path s).1)

-- `accepted` is the connection and its address.
unfoldable pub listener_accept {ℓ} : {S A : Type ℓ} → Result (S × A) → Result S
listener_accept accepted = accepted >>= λ p. ok p.0

-- `connect` is asked at the door's path, `peer_cred` of the connection.
unfoldable pub dial {ℓ} :
    {S : Type ℓ} → Str → (Str → Result S) → (S → Result (Option ℕ)) → Result (S × Option ℕ)
dial dir connect peer_cred = do s ← connect (address dir); pid ← peer_cred s; ok (s, pid)

-- `buf` is the 256 bytes that `gethostname` left, where it answered 0.
unfoldable pub hostname : Option Bytes → Str
hostname none = []
hostname (some buf) = from_utf8_lossy (first_part (split 0 buf))

-- `std::fs::OpenOptions`, and `std::fs::DirBuilder`.
pub record OpenOptions : Type 0 where
  pub read : Bool
  pub write : Bool
  pub create : Bool
  pub truncate : Bool
  pub mode : ℕ
  -- O_NOFOLLOW: a link at the path is refused
  pub no_follow : Bool

pub record DirBuilder : Type 0 where
  pub recursive : Bool
  pub mode : ℕ

unfoldable pub make_dir : (DirBuilder → Str → Result (Unit {0})) → Str → Result (Unit {0})
make_dir os_create dir = os_create (record { recursive = true; mode = 0o700 }) dir

unfoldable pub create_private : {F : Type 0} → (OpenOptions → Str → Result F) → Str → Result F
create_private os_open path =
    os_open
      (record {
        read = false;
        write = true;
        create = true;
        truncate = true;
        mode = 0o600;
        no_follow = false;
      })
      path

-- The lock file is not cut.
unfoldable pub open_lock : {F : Type 0} → (OpenOptions → Str → Result F) → Str → Result F
open_lock os_open path =
    os_open
      (record {
        read = true;
        write = true;
        create = true;
        truncate = false;
        mode = 0o600;
        no_follow = true;
      })
      path
