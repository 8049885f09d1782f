-- ===== src/Os/Windows.antt =====
-- src/os/windows.rs: the name of the pipe, the security descriptor, the checks of a path, the record
-- of the router and the dial. The answers of the system calls are parameters.
pub mod Xor
pub mod Calls
pub mod Admits
pub mod Pipes
pub mod PipeName
pub mod Sddl
pub mod Paths
pub mod Pid
mod Tests
use Prim.Native.Nat.{bit_xor}
use zapd.Prelude.{
  ℕ, zero, suc, ◌+◌, ◌*◌, ◌/◌, ◌%◌, ◌^◌, Bool, true, false, not, ◌&&◌, ◌||◌, Option, none, some,
  List, [], ◌∷◌, ◌++◌, ◌==◌, if◌then◌else◌, foldl,
}
use zapd.Text.{Bytes, Str, lit}
use zapd.Text.Equal.{str_eq}
use zapd.Text.Split.{contains}
use zapd.Text.Trim.{trim}
use zapd.Text.Decimal.{to_decimal, parse_u32}
use zapd.Io.{Result, ok, err, fail, permission_denied}
use zapd.Frame.LittleEndian.{to_le_bytes}
use zapd.Pair.Hex.{hex_digit}
use zapd.Os.{FileType, symlink, is_dir, is_file}

-- `h ^= u64::from(b); h = h.wrapping_mul(0x100000001b3);`
unfoldable pub fnv_byte : ℕ → ℕ → ℕ
fnv_byte h b = bit_xor h b * 0x100000001b3 % 2 ^ 64

unfoldable pub fnv_unit : ℕ → ℕ → ℕ
fnv_unit h unit = foldl fnv_byte h (to_le_bytes 2 unit)

-- The hash of the UTF-16 units of the directory.
unfoldable pub fnv : List ℕ → ℕ
fnv units = foldl fnv_unit 0xcbf29ce484222325 units

-- `{:0wx}` of a number that has no more than `w` digits.
unfoldable pub hex_padded : ℕ → ℕ → Str
hex_padded zero n = []
hex_padded (suc w) n = hex_padded w (n / 16) ++ (hex_digit (n % 16) ∷ [])

known : Result Str → Str
known (ok user) = user
known (err e) = lit "unknown"

-- `user` is the answer of `token_sid`, `units` are those of the runtime directory.
unfoldable pub address : Result Str → List ℕ → Str
unfolding known
address user units =
    lit "\\\\.\\pipe\\zapd-" ++ (known user ++ (lit "-" ++ hex_padded 16 (fnv units)))

one_or_both : Str → Str → List Str
one_or_both user owner = if str_eq owner user then user ∷ [] else user ∷ owner ∷ []

-- `user` and `owner` are the answers of `token_sid` for the two.
unfoldable pub mine : Result Str → Result Str → Result (List Str)
unfolding one_or_both
mine (err e) owner = err e
mine (ok user) (err e) = err e
mine (ok user) (ok owner) = ok (one_or_both user owner)

-- `format!("(A;{flags};GA;;;{sid})")`
unfoldable pub ace : Str → Str → Str
ace flags sid = lit "(A;" ++ (flags ++ (lit ";GA;;;" ++ (sid ++ lit ")")))

abbrev pub flags_of : Bool → Str
flags_of true = lit "OICI"
flags_of false = []

-- The text that `Descriptor::private` builds for these owners.
unfoldable pub sddl : Bool → List Str → Str
sddl inherit sids =
    foldl (λ s sid. s ++ ace (flags_of inherit) sid) (lit "D:P") (sids ++ (lit "SY" ∷ []))

abbrev pub refused {ℓ} : {A : Type ℓ} → Result A
refused = fail permission_denied (lit "must be what this user owns, and no link")

is_symlink : FileType → Bool
is_symlink FileType.symlink = true
is_symlink _ = false

owned : Result (List Str) → Result Str → Result (Unit {0})
owned (err e) owner = err e
owned (ok sids) (err e) = err e
owned (ok sids) (ok sid) = if contains sids sid then ok tt else refused

-- `stat` is the answer of `symlink_metadata`, `mine` of the function above, `owner` of that of the path.
unfoldable pub private : Bool → Result FileType → Result (List Str) → Result Str → Result (Unit {0})
unfolding owned is_symlink
private dir (err e) mine owner = err e
private dir (ok t) mine owner =
    if not (if dir then is_dir t else is_file t) || is_symlink t then refused else owned mine owner

-- `made` is the answer of `create_dir_all`, `checked` of `private`, `set` of `protect`.
unfoldable pub private_dir :
    Result (Unit {0}) → Result (Unit {0}) → Result (Unit {0}) → Result (Unit {0})
private_dir (err e) checked set = err e
private_dir (ok _) (err e) set = err e
private_dir (ok _) (ok _) set = set

-- What `announce` meets: whether the new file is made, written and moved over `zapd.pid`.
pub record Fs : Type 0 where
  pub created : Result (Unit {0})
  pub written : Result (Unit {0})
  pub renamed : Result (Unit {0})

-- `recorded` is what `read_to_string` answers for `zapd.pid`, before and after.
unfoldable pub announce : ℕ → Fs → Result Str → Result (Unit {0}) × Result Str
announce pid fs recorded = elim fs.created [
  | err e ↦ (err e, recorded)
  | ok _ ↦ elim fs.written [
    | err e ↦ (err e, recorded)
    | ok _ ↦ elim fs.renamed [ err e ↦ (err e, recorded) | ok _ ↦ (ok tt, ok (to_decimal pid)) ]
  ]
]

unfoldable pub holder : Result Str → Option ℕ
holder (err e) = none
holder (ok text) = parse_u32 (trim text)
