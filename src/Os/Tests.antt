-- ===== src/Os/Tests.antt =====
-- The theorems on src/os/unix.rs at directories of user 1000.
use zapd.Prelude.{◌≡◌, refl}
use zapd.Io.{ok}
use zapd.Os.{FileType, Metadata, is_dir, open_to_others, private_dir, set_700}

-- 0o40755, a directory that others may read.
abbrev loose : Metadata
loose = record { file_type = FileType.directory; uid = 1000; mode = 16877 }

tightened : private_dir 1000 (ok tt) (ok loose) (ok tt) ≡ (ok tt, ok (set_700 loose))
unfolding private_dir is_dir open_to_others
tightened = refl
