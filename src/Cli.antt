-- ===== src/Cli.antt =====
-- src/main.rs: the operator's command. What it prints on its standard output and its exit code.
pub mod Listing
pub mod Order
mod Tests
use zapd.Prelude.{
  ℕ, Bool, true, false, not, ◌&&◌, ◌||◌, List, [], ◌∷◌, ◌++◌, map, ltb, ◌==◌, if◌then◌else◌,
}
use zapd.Text.{Str, lit}
use zapd.Text.Equal.{str_eq}
use zapd.Text.Decimal.{to_decimal}
use zapd.Io.{Result, ok, err}
use zapd.Pair.{Pairing, code}
use zapd.Frame.Envelope.{role_provider, role_consumer, role_router}
use zapd.Frame.Control.{Descriptor, Entry}

pub data Command : Type 0 where
  pair pair_reset ls version usage : Command

option : Str → Command
option arg =
    if str_eq arg (lit "pair")
    then pair
    else if str_eq arg (lit "ls")
    then ls
    else if str_eq arg (lit "--version") || str_eq arg (lit "-V")
    then version
    else usage

-- The arguments after the program's name.
unfoldable pub command : List Str → Command
unfolding option
command (arg ∷ []) = option arg
command (arg ∷ more ∷ []) =
    if str_eq arg (lit "pair") && str_eq more (lit "--reset") then pair_reset else usage
command _ = usage

-- `<[String]>::join`
unfoldable pub join : Str → List Str → Str
join sep [] = []
join sep (s ∷ []) = s
join sep (s ∷ t ∷ ss) = s ++ (sep ++ join sep (t ∷ ss))

unfoldable pub role_name : ℕ → Str
role_name role =
    if role == role_provider
    then lit "provider"
    else if role == role_consumer
    then lit "consumer"
    else if role == role_router
    then lit "router"
    else lit "?"

attr : Str × Str → Str
attr (k, v) = k ++ (lit "=" ++ v)

-- A line of `ls`, without its end.
unfoldable pub line : Entry → Str
unfolding attr
line n =
    n.id
    ++ (lit "\t"
        ++ (role_name n.desc.role
            ++ (lit "\t"
                ++ (n.desc.brand
                    ++ (lit "\t"
                        ++ (join (lit ",") n.desc.caps
                            ++ (lit "\t" ++ join (lit ",") (map attr n.desc.attrs))))))))

-- The order of strings, by their bytes.
unfoldable pub str_le : Str → Str → Bool
str_le [] t = true
str_le (x ∷ xs) [] = false
str_le (x ∷ xs) (y ∷ ys) = ltb x y || x == y && str_le xs ys

-- `nodes.retain(|n| n.id != me)`
unfoldable pub retain : Str → List Entry → List Entry
retain me [] = []
retain me (n ∷ nodes) = let rest = retain me nodes in if str_eq n.id me then rest else n ∷ rest

unfoldable pub insert : Entry → List Entry → List Entry
insert n [] = n ∷ []
insert n (m ∷ nodes) =
    let rest = insert n nodes in if str_le n.id m.id then n ∷ m ∷ nodes else m ∷ rest

-- `sort_by` on the ids, which is stable.
unfoldable pub sort : List Entry → List Entry
sort [] = []
sort (n ∷ nodes) = insert n (sort nodes)

-- What `ls` lists of the nodes that `nodes` returned, `me` being its own id by then.
unfoldable pub shown : Str → List Entry → List Entry
shown me nodes = sort (retain me nodes)

-- What a run prints on its standard output, and its exit code.
abbrev pub Output : Type 0
Output = List Str × ℕ

unfoldable pub exit_of : Result (List Str) → Output
exit_of (ok lines) = (lines, 0)
exit_of (err e) = ([], 1)

abbrev pub code_line : Result Pairing → Result (List Str)
code_line (ok p) = ok (code p ∷ [])
code_line (err e) = err e

abbrev pub node_lines : Str → Result (List Entry) → Result (List Str)
node_lines me (ok nodes) = ok (map line (shown me nodes))
node_lines me (err e) = err e

-- `main`: the answers of `pair::load`, `pair::reset` and `nodes`, the id of its node and the version.
unfoldable pub main :
    List Str → Result Pairing → Result Pairing → Str → Result (List Entry) → Str → Output
main args loaded reset me nodes release = elim (command args) [
  | pair ↦ exit_of (code_line loaded)
  | pair_reset ↦ exit_of (code_line reset)
  | ls ↦ exit_of (node_lines me nodes)
  | version ↦ ((lit "zapd " ++ release) ∷ [], 0)
  | usage ↦ ([], 2)
]
