-- ===== src/Elect/Serve.antt =====
-- `runtime_dir`, `socket_path`, `private_runtime`, `serve` and the start of `embed` of src/elect.rs. The
-- environment and the answers of `os` and of the doors are parameters.
use zapd.Prelude.{Bool, true, false, Option, none, some, List, [], ◌∷◌}
use zapd.Text.{Str, lit}
use zapd.Text.Path.{join}
use zapd.Io.{Error, Result, ok, err, ◌>>=◌, ◌>>◌}
use zapd.Os.Unix.{address}

home_or_here : Option Str → Str
home_or_here none = lit "."
home_or_here (some home) = home

-- `xdg` is `$XDG_RUNTIME_DIR`, `home` the home directory where `BaseDirs` knows one.
unfoldable pub runtime_dir : Option Str → Option Str → Str
unfolding home_or_here
runtime_dir (some r) home = join r (lit "zap")
runtime_dir none home = join (join (home_or_here home) (lit ".zap")) (lit "run")

-- On Unix.
unfoldable pub socket_path : Option Str → Option Str → Str
socket_path xdg home = address (runtime_dir xdg home)

-- `private_dir` is `os::private_dir`.
unfoldable pub private_runtime : (Str → Result (Unit {0})) → Str → Result Str
private_runtime private_dir dir = private_dir dir >> ok dir

-- What `serve` does for what `accept` answers: a task that runs `router::handle`, or a warning.
pub data Served (S : Type 0) : Type 0 where
  handled : S → Served S
  warned : Error → Served S

unfoldable pub served : {S : Type 0} → Result S → Served S
served (ok stream) = handled stream
served (err e) = warned e

-- What it did until now: it bound the doors, and then took each answer of `accept`. The task of the
-- browser door starts before the first.
pub record Serving (L S : Type 0) : Type 0 where
  pub doors : L
  pub browser_door : Bool
  pub done : List (Served S)

serve_all : {S : Type 0} → List (Result S) → List (Served S)
serve_all [] = []
serve_all (r ∷ rs) = served r ∷ serve_all rs

-- `bind` is `os::Listener::bind`. It returns an error, or serves what comes.
unfoldable pub serve :
    {L S : Type 0} → Result Str → (Str → Result L) → List (Result S) → Result (Serving L S)
unfolding serve_all
serve runtime bind accepts = do
  dir ← runtime
  doors ← bind dir
  ok (record { doors = doors; browser_door = true; done = serve_all accepts })

-- `STARTED`: whether this call starts the thread, and the flag after it.
unfoldable pub embed : Bool → Bool × Bool
embed started = (elim started [ true ↦ false | false ↦ true ], true)
