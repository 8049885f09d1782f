-- ===== src/Pair.antt =====
-- src/pair.rs: the pairing, its code, the proofs under its key, and the choice of a door port. The
-- file that keeps the code is in `Pair.Keep`.
pub mod Hex
pub mod Code
pub mod Port
pub mod Proof
pub mod Keep
mod Tests
mod Suite
use zapd.Prelude.{
  ℕ, zero, suc, ◌+◌, ◌%◌, Bool, true, false, Option, none, some, List, [], ◌∷◌, ◌++◌, ◌==◌,
  if◌then◌else◌, get_or,
}
use zapd.Text.{Bytes, Str, lit}
use zapd.Text.Equal.{str_eq}
use zapd.Text.Split.{strip_prefix}
use zapd.Text.Path.{join}
use zapd.Text.Trim.{trim}
use zapd.Text.Decimal.{to_decimal, parse_u16}
use zapd.Io.{Result, ok, err, fail, invalid_data, addr_in_use, other}
use zapd.Frame.LittleEndian.{from_le_bytes}
use Hex.{hex, unhex}

abbrev pub nonce : ℕ
nonce = 32

abbrev pub proof_len : ℕ
proof_len = 32

abbrev pub router : Bytes
router = lit "zap router"

abbrev pub client : Bytes
client = lit "zap client"

pub record Pairing : Type 0 where
  pub port : ℕ
  pub key : Bytes

-- `format!("ws://127.0.0.1:{}/#{}", port, hex(key))`
unfoldable pub code : Pairing → Str
code p = lit "ws://127.0.0.1:" ++ (to_decimal p.port ++ (lit "/#" ++ hex p.key))

-- `split_once`: the text before the first occurrence, and after it.
unfoldable pub split_once : Str → Str → Option (Str × Str)
split_once pat [] = elim (strip_prefix pat []) [ some r ↦ some ([], r) | none ↦ none ]
split_once pat (c ∷ cs) =
    let more = split_once pat cs in
    elim (strip_prefix pat (c ∷ cs)) [
      | some r ↦ some ([], r)
      | none ↦ elim more [ some (a, b) ↦ some (c ∷ a, b) | none ↦ none ]
    ]

abbrev pub bad {ℓ} : {A : Type ℓ} → Result A
bad = fail invalid_data (lit "zapd: not a pairing code")

parse_key : ℕ → Option Bytes → Result Pairing
parse_key port none = bad
parse_key port (some key) = ok (record { port = port; key = key })

parse_port : Option ℕ → Str → Result Pairing
parse_port none key = bad
parse_port (some port) key = if port == 0 then bad else parse_key port (unhex key)

parse_parts : Option (Str × Str) → Result Pairing
parse_parts none = bad
parse_parts (some (port, key)) = parse_port (parse_u16 port) key

parse_rest : Option Str → Result Pairing
parse_rest none = bad
parse_rest (some rest) = parse_parts (split_once (lit "/#") rest)

unfoldable pub parse : Str → Result Pairing
unfolding parse_rest parse_parts parse_port parse_key
parse code = parse_rest (strip_prefix (lit "ws://127.0.0.1:") (trim code))

-- What `mac` feeds to the HMAC, one piece after the other.
unfoldable pub mac_input : Bytes → Bytes → Bytes → Bytes
mac_input label nc ns = label ++ (nc ++ ns)

-- `hmac` is HMAC-SHA256 of the key and the message.
module _ (hmac : Bytes → Bytes → Bytes) where
  unfoldable pub proof : Pairing → Bytes → Bytes → Bytes → Bytes
  proof p label nc ns = hmac p.key (mac_input label nc ns)

  -- `verify_slice`: the whole tag is compared.
  unfoldable pub verify : Pairing → Bytes → Bytes → Bytes → Bytes → Bool
  verify p label nc ns proof = str_eq (hmac p.key (mac_input label nc ns)) proof

abbrev pub well_known : List ℕ
well_known = 9998 ∷ 21000 ∷ 21001 ∷ 21002 ∷ 21003 ∷ 21004 ∷ 21005 ∷ 21006 ∷ 21007 ∷ []

-- The first port of the list that can be bound.
first_free : (ℕ → Bool) → List ℕ → Option ℕ
first_free free [] = none
first_free free (p ∷ ps) = if free p then some p else first_free free ps

-- `20000 + u16::from_le_bytes([r[0], r[1]]) % 10000`
random_port : Bytes → ℕ
random_port r = 20000 + from_le_bytes (get_or r 0 0 ∷ get_or r 1 0 ∷ []) % 10000

-- `i` counts the draws that were made.
draw : (ℕ → Bool) → (ℕ → Result Bytes) → ℕ → ℕ → Result ℕ
draw free random zero i = fail addr_in_use (lit "zapd: no free door port in 20000-29999")
draw free random (suc rounds) i =
    let more = draw free random rounds (i + 1) in
    elim (random i) [
      | ok r ↦ if free (random_port r) then ok (random_port r) else more
      | err e ↦ err e
    ]

-- `free p`: the port can be bound. `random i` is the i-th draw from the system.
unfoldable pub free_port : (ℕ → Bool) → (ℕ → Result Bytes) → Result ℕ
unfolding first_free random_port draw
free_port free random = elim (first_free free well_known) [
  | some p ↦ ok p
  | none ↦ draw free random 100 0
]

-- `getrandom::fill`, whose error the message names; `nonce` is one draw.
unfoldable pub random : Result Bytes → Result Bytes
random (ok k) = ok k
random (err e) = fail other (lit "zapd: no randomness: " ++ e.message)

-- `xdg` is `$XDG_STATE_HOME`; `base` the state directory, if there is one, and the local data directory,
-- where `BaseDirs` knows them.
unfoldable pub state_base : Option Str → Option (Option Str × Str) → Option Str
state_base (some s) base = some s
state_base none none = none
state_base none (some (none, data_local)) = some data_local
state_base none (some (some state, data_local)) = some state

unfoldable pub path : Option Str → Option (Option Str × Str) → Str
path xdg base =
    join (join (elim (state_base xdg base) [ none ↦ lit "." | some s ↦ s ]) (lit "zap"))
      (lit "pair")
