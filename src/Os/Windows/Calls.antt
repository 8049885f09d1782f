-- ===== src/Os/Windows/Calls.antt =====
-- src/os/windows.rs, the calls of the system: the SIDs of the token, the owner of a path, the
-- descriptor and where it is set, and the lock file. What the system answers is a parameter.
use zapd.Prelude.{
  ℕ, Bool, true, false, not, Option, none, some, List, [], ◌∷◌, ◌++◌, ◌==◌, if◌then◌else◌,
}
use zapd.Text.{Str}
use zapd.Text.Utf16.{from_utf16_lossy}
use zapd.Io.{Error, Result, ok, err, ◌>>=◌, ◌>>◌}
use zapd.Os.{FileType}
use zapd.Os.Windows.{mine, sddl, is_symlink, private, refused}

-- `encode_wide` with the 0 that ends it, of the units of a text.
unfoldable pub wide : List ℕ → List ℕ
wide units = units ++ (0 ∷ [])

-- `take_while(|&i| *s.add(i) != 0)`
unfoldable pub until_nul : List ℕ → List ℕ
until_nul [] = []
until_nul (u ∷ us) = let rest = until_nul us in if u == 0 then [] else u ∷ rest

-- TokenUser and TokenOwner.
pub data TokenClass : Type 0 where
  token_user token_owner : TokenClass

-- What the calls on the token, a SID, a path and a descriptor answer: `P` is a SID, `D` a security
-- descriptor and `A` its access list. An error number of a call is 0 where it succeeds.
pub record Security (P D A : Type 0) : Type 0 where
  pub os_error : ℕ → Error
  -- the units from the pointer on
  pub convert_sid : P → Result (List ℕ)
  pub open_process_token : Result (Unit {0})
  pub token_information : TokenClass → Result P
  pub convert_descriptor : List ℕ → Result D
  -- whether one is present, and the error number that stands where none is
  pub descriptor_dacl : D → Option A
  pub last_error : ℕ
  pub named_owner : List ℕ → ℕ × P
  pub set_named_dacl : List ℕ → A → ℕ

module _ {P D A : Type 0} (os : Security P D A) where
  unfoldable pub sid_string : P → Result Str
  sid_string sid = os.convert_sid sid >>= λ units. ok (from_utf16_lossy (until_nul units))

  unfoldable pub token_sid : TokenClass → Result Str
  token_sid class = do os.open_process_token; sid ← os.token_information class; sid_string sid

  unfoldable pub this_user : Result (List Str)
  this_user = mine (token_sid token_user) (token_sid token_owner)

  -- `Descriptor::private`; the text is ASCII, whose bytes are its units.
  unfoldable pub descriptor : Bool → Result D
  descriptor inherit = do sids ← this_user; os.convert_descriptor (wide (sddl inherit sids))

  unfoldable pub dacl : D → Result A
  dacl sd = elim (os.descriptor_dacl sd) [ none ↦ err (os.os_error os.last_error) | some a ↦ ok a ]

  -- `ERROR_SUCCESS` is 0.
  unfoldable pub succeeded : ℕ → Result (Unit {0})
  succeeded rc = if not (rc == 0) then err (os.os_error rc) else ok tt

  unfoldable pub owner : List ℕ → Result Str
  owner path = do let answer = os.named_owner (wide path); succeeded answer.0; sid_string answer.1

  unfoldable pub protect : List ℕ → Result (Unit {0})
  protect dir = do
    sd ← descriptor true
    access ← dacl sd
    succeeded (os.set_named_dacl (wide dir) access)

  -- `created` is the answer of `create_dir_all`.
  unfoldable pub make_dir : List ℕ → Result (Unit {0}) → Result (Unit {0})
  make_dir dir created = created >> protect dir

  -- `private` and `private_dir` over these calls.
  unfoldable pub private_path : List ℕ → Bool → Result FileType → Result (Unit {0})
  private_path path dir stat = private dir stat this_user (owner path)

-- `std::fs::OpenOptions`
pub record OpenOptions : Type 0 where
  pub read : Bool
  pub write : Bool
  pub create : Bool
  pub truncate : Bool

unfoldable pub create_private : {F : Type 0} → (OpenOptions → List ℕ → Result F) → List ℕ → Result F
create_private os_open path =
    os_open (record { read = false; write = true; create = true; truncate = true }) path

open_kept : {F : Type 0} → (OpenOptions → List ℕ → Result F) → List ℕ → Result F
open_kept os_open path =
    os_open (record { read = true; write = true; create = true; truncate = false }) path

-- `stat` is the answer of `symlink_metadata`.
unfoldable pub open_lock :
    {F : Type 0} → (OpenOptions → List ℕ → Result F) → Result FileType → List ℕ → Result F
unfolding is_symlink open_kept
open_lock os_open (err e) path = open_kept os_open path
open_lock os_open (ok t) path = if is_symlink t then refused else open_kept os_open path

-- `LockFileEx` and `UnlockFileEx`, 0 where they fail.
unfoldable pub lock : ℕ → ℕ → Error → Bool → Result (Unit {0})
lock locked unlocked last_error take =
    if (if take then locked else unlocked) == 0 then err last_error else ok tt

-- `COMPUTERNAME`
unfoldable pub hostname : Option Str → Str
hostname none = []
hostname (some name) = name
