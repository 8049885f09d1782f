-- ===== src/Python.antt =====
-- python/src/lib.rs: the classes of its errors, the role of a node, `pair`, `call` and `nodes`.
pub mod Errors
pub mod Roles
mod Tests
use zapd.Prelude.{
  ℕ, ◌≡◌, Bool, true, false, Option, none, some, List, [], ◌∷◌, map, foldl, ◌==◌, if◌then◌else◌,
}
use zapd.Text.{Bytes, Str, lit}
use zapd.Text.Equal.{str_eq}
use zapd.Io.{Error, ErrorKind, Result, ok, err}
use zapd.Map.{Map, insert}
use zapd.Pair.{Pairing, code}
use zapd.Frame.Envelope.{Frame, role_provider, role_consumer}
use zapd.Frame.Control.{Entry}
use zapd.Elect.Serve
use zapd.Node.Asks.{call_end, nodes_end}

-- The exceptions that it raises.
pub data PyErr : Type 0 where
  timeout_error lookup_error connection_error permission_error os_error value_error : PyErr

pub data PyResult {ℓ} (A : Type ℓ) : Type ℓ where
  returns : A → PyResult A
  raises : PyErr → PyResult A

unfoldable pub class_of : ErrorKind → PyErr
class_of ErrorKind.timed_out = timeout_error
class_of ErrorKind.not_found = lookup_error
class_of ErrorKind.connection_reset = connection_error
class_of ErrorKind.permission_denied = permission_error
class_of _ = os_error

-- `map_err(err)`
unfoldable pub map_err {ℓ} : {A : Type ℓ} → Result A → PyResult A
map_err (ok a) = returns a
map_err (err e) = raises (class_of e.kind)

map_ok {ℓ κ} : {A : Type ℓ} {B : Type κ} → (A → B) → PyResult A → PyResult B
map_ok f (returns a) = returns (f a)
map_ok f (raises e) = raises e

unfoldable pub pair : Bool → Result Pairing → Result Pairing → PyResult Str
unfolding map_ok
pair reset loaded minted = map_ok code (map_err (if reset then minted else loaded))

-- The role that `Node(..)` is given, as a number.
unfoldable pub role_of : Str → PyResult ℕ
role_of role =
    if str_eq role (lit "provider")
    then returns role_provider
    else if str_eq role (lit "consumer")
    then returns role_consumer
    else raises value_error

unfoldable pub role_name : ℕ → Str
role_name role =
    if role == role_provider
    then lit "provider"
    else if role == role_consumer
    then lit "consumer"
    else lit "router"

-- `call`, of what `Node::call` comes to.
unfoldable pub call : Str → Option (Result Frame) → PyResult Bytes
call to answer = map_err (call_end to answer)

-- The dictionary of a node; a key of `attrs` that comes again replaces the value.
pub record Dict : Type 0 where
  pub id : Str
  pub role : Str
  pub brand : Str
  pub caps : List Str
  pub attrs : Map Str

abbrev pub put_attr : Map Str → Str × Str → Map Str
put_attr m (k, v) = (insert m k v).0

unfoldable pub dict : Entry → Dict
dict n = record {
  id = n.id;
  role = role_name n.desc.role;
  brand = n.desc.brand;
  caps = n.desc.caps;
  attrs = foldl put_attr [] n.desc.attrs;
}

unfoldable pub nodes : Option (Result Frame) → PyResult (List Dict)
unfolding map_ok
nodes answer = map_ok (map dict) (map_err (nodes_end answer))

-- `Node(id, role, brand, caps)`: `join` is `zapd::Node::join`, asked only with a role that is one.
unfoldable pub new_node {ℓ} :
    {N : Type ℓ} → (Str → ℕ → Str → List Str → N) → Str → Str → Str → List Str → PyResult N
unfolding map_ok
new_node join id role brand caps = map_ok (λ r. join id r brand caps) (role_of role)

abbrev pub default_role : Str
default_role = lit "consumer"

abbrev pub default_brand : Str
default_brand = lit "hanzo"

-- The functions and the class of the module.
abbrev pub module_names : List Str
module_names = lit "embed" ∷ lit "pair" ∷ lit "host" ∷ lit "socket_path" ∷ lit "Node" ∷ []

-- `filter` is `$ZAP_LOG` where it can be read; what `try_init` answers is dropped.
unfoldable pub log_filter : Option Str → Str
log_filter none = lit "zapd=info"
log_filter (some filter) = filter

-- `started` is `STARTED` of `zapd::embed`. The filter of the log, whether this call starts the thread,
-- and `STARTED` after it.
unfoldable pub embed : Option Str → Bool → Str × (Bool × Bool)
embed zap_log started = (log_filter zap_log, Serve.embed started)

-- What a call with a timeout comes to. `Duration::from_secs_f64` panics, here `none`, on seconds that
-- are negative, not finite or too many, and then the call raises a `PanicException`.
pub data PyOutcome {ℓ} (A : Type ℓ) : Type ℓ where
  completes : PyResult A → PyOutcome A
  panics : PyOutcome A

unfoldable pub within {ℓ κ} :
    {F : Type κ} {A : Type ℓ} → (F → Option ℕ) → F → (ℕ → PyResult A) → PyOutcome A
within from_secs timeout run = elim (from_secs timeout) [
  | none ↦ panics
  | some duration ↦ completes (run duration)
]
