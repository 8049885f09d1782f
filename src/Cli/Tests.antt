-- ===== src/Cli/Tests.antt =====
-- Runs of the command, and what `ls` shows of three nodes.
use mathlib.Core.List.{Perm}
use zapd.Prelude.{◌≡◌, refl, [], ◌∷◌, ◌++◌, List, map, All}
use zapd.Text.{Str, lit}
use zapd.Text.Equal.{str_eq}
use zapd.Io.{Result, ok, fail, timed_out}
use zapd.Pair.{Pairing}
use zapd.Frame.Control.{Descriptor, Entry}
use zapd.Cli.{command, main, exit_of, line, join, role_name, str_le, retain, insert, sort, shown}
use zapd.Cli.Listing.{IsSorted, IsOther, IsOwn, ls_lem}

abbrev desc : Descriptor
desc = record {
  role = 1;
  brand = lit "hanzo";
  caps = lit "a" ∷ lit "b" ∷ [];
  attrs = (lit "k", lit "v") ∷ [];
}

abbrev node : Str → Entry
node id = record { id = id; desc = desc }

abbrev me : Str
me = lit "cli/h/7"

abbrev named : List Entry
named = node (lit "mcp/h/x") ∷ node me ∷ node (lit "browser/h/b") ∷ []

abbrev lines : List Str
lines = lit "browser/h/b\tprovider\thanzo\ta,b\tk=v" ∷ lit "mcp/h/x\tprovider\thanzo\ta,b\tk=v" ∷ []

no_pairing : Result Pairing
no_pairing = fail timed_out []

ls_run : main (lit "ls" ∷ []) no_pairing no_pairing me (ok named) (lit "0") ≡ (lines, 0)
unfolding main command exit_of shown sort insert retain str_le str_eq line join role_name
ls_run = refl

usage_run : main (lit "serve" ∷ []) no_pairing no_pairing me (ok named) (lit "0") ≡ ([], 2)
unfolding main command str_eq
usage_run = refl

ls_lem_example :
    (main (lit "ls" ∷ []) no_pairing no_pairing me (ok named) (lit "0")
      ≡ (map line (shown me named), 0))
    × IsSorted (shown me named)
    × All (IsOther me) (shown me named)
    × ((own : List Entry) × All (IsOwn me) own × Perm named (own ++ shown me named))
ls_lem_example = ls_lem no_pairing no_pairing me named (lit "0")
