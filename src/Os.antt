-- ===== src/Os.antt =====
-- `private` and `private_dir` of src/os/unix.rs, over what `symlink_metadata` answers for a path. The
-- user id and the answers of the system calls are parameters.
pub mod Private
pub mod Unix
pub mod Windows
mod Tests
use zapd.Prelude.{ℕ, ◌+◌, ◌-◌, ◌%◌, Bool, true, false, ◌&&◌, ◌||◌, not, ◌==◌, if◌then◌else◌}
use zapd.Text.{lit}
use zapd.Io.{Result, ok, err, fail, permission_denied}

pub data FileType : Type 0 where
  directory regular symlink special : FileType

pub record Metadata : Type 0 where
  pub file_type : FileType
  pub uid : ℕ
  -- The type bits and the permission bits, as `st_mode`.
  pub mode : ℕ

unfoldable pub is_dir : FileType → Bool
is_dir FileType.directory = true
is_dir _ = false

unfoldable pub is_file : FileType → Bool
is_file FileType.regular = true
is_file _ = false

-- `m.mode() & 0o077 != 0`: one of the six lowest bits.
unfoldable pub open_to_others : Metadata → Bool
open_to_others m = not (m.mode % 64 == 0)

private_metadata : ℕ → Bool → Metadata → Result (Unit {0})
private_metadata me dir m =
    if not (if dir then is_dir m.file_type else is_file m.file_type)
      || not (m.uid == me)
      || open_to_others m
    then fail permission_denied (lit "must be owned by this user with no group or other access")
    else ok tt

-- `stat` is the answer of `symlink_metadata`.
unfoldable pub private : ℕ → Bool → Result Metadata → Result (Unit {0})
unfolding private_metadata
private me dir stat = elim stat [ ok m ↦ private_metadata me dir m | err e ↦ err e ]

-- `set_permissions(dir, 0o700)`, which is 448: the twelve permission bits are replaced.
unfoldable pub set_700 : Metadata → Metadata
set_700 m = record m { mode = m.mode - m.mode % 4096 + 448 }

tighten : Result (Unit {0}) → Metadata → Result (Unit {0}) × Result Metadata
tighten chmod m =
    if open_to_others m
    then (elim chmod [ ok _ ↦ (ok tt, ok (set_700 m)) | err e ↦ (err e, ok m) ])
    else (ok tt, ok m)

private_dir_metadata : ℕ → Result (Unit {0}) → Metadata → Result (Unit {0}) × Result Metadata
private_dir_metadata me chmod m =
    if not (is_dir m.file_type) || not (m.uid == me)
    then (fail permission_denied (lit "must be a directory owned by this user"), ok m)
    else tighten chmod m

-- `made` is the answer of `make_dir`, `stat` that of `symlink_metadata` after it, and `chmod` that of
-- `set_permissions`. The second result is what `symlink_metadata` answers afterwards.
unfoldable pub private_dir :
    ℕ
    → Result (Unit {0})
    → Result Metadata
    → Result (Unit {0})
    → Result (Unit {0}) × Result Metadata
unfolding private_dir_metadata tighten
private_dir me made stat chmod = elim made [
  | ok _ ↦ elim stat [ ok m ↦ private_dir_metadata me chmod m | err e ↦ (err e, err e) ]
  | err e ↦ (err e, stat)
]
