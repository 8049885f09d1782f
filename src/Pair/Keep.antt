-- ===== src/Pair/Keep.antt =====
-- `load`, `reset`, `read` and `publish` of src/pair.rs over the file `<state>/zap/pair`. The system's
-- answers are parameters: whether the directory is private, what the file system makes of the
-- temporary file, what another process does to the file before this one links its own, the ports and
-- the random draws.
use zapd.Prelude.{ℕ, ◌≡◌, inl, inr, refl, Bool, true, false, [], ◌∷◌, ◌++◌, if◌then◌else◌}
use zapd.Text.{Bytes, Str, lit}
use zapd.Io.{
  Error, ErrorKind, Result, ok, err, fail, not_found, permission_denied, other, Result-cases,
}
use zapd.Pair.{Pairing, code, parse, free_port}
use zapd.Pair.Code.{IsPairing, parse-code}

-- The path of the pairing: nothing there; something that `os::private` refuses (a link, another
-- user's, one that others may open); or this user's own file and its text.
pub data PairFile : Type 0 where
  missing : PairFile
  exposed : PairFile
  kept : Str → PairFile

unfoldable pub read : PairFile → Result Pairing
read missing = fail not_found (lit "No such file or directory")
read exposed = fail permission_denied (lit "must be a file with no group or other access")
read (kept text) = parse text

pub record System : Type 0 where
  -- `make_dir` and `private` of the directory
  pub directory : Result (Unit {0})
  -- creating, writing and syncing the temporary file
  pub temporary : Result (Unit {0})
  -- what else happens to the path before the temporary file is moved there
  pub meanwhile : PairFile → PairFile
  pub free : ℕ → Bool
  pub random : ℕ → Result Bytes

-- `rename` replaces whatever is there; `hard_link` fails where something is.
unfoldable pub move : Bool → Str → PairFile → Result (Unit {0}) × PairFile
move true text file = (ok tt, kept text)
move false text missing = (ok tt, kept text)
move false text file = (fail other (lit "File exists"), file)

unfoldable pub publish : System → Pairing → Bool → PairFile → Result (Unit {0}) × PairFile
publish sys pairing replace file = elim sys.temporary [
  | ok _ ↦ move replace (code pairing ++ (10 ∷ [])) (sys.meanwhile file)
  | err e ↦ (err e, sys.meanwhile file)
]

-- `Pairing { port: free_port()?, key: random()? }`; the draw of the key follows those of the port.
unfoldable pub mint : System → Result Pairing
mint sys = elim (free_port sys.free sys.random) [
  | ok port ↦ elim (sys.random 100) [
    | ok key ↦ ok (record { port = port; key = key })
    | err e ↦ err e
  ]
  | err e ↦ err e
]

is_not_found : Error → Bool
is_not_found e = elim e.kind [ ErrorKind.not_found ↦ true | _ ↦ false ]

-- The result of `publish` is dropped: what is read afterwards tells.
mint_missing : System → PairFile → Result Pairing × PairFile
mint_missing sys file = elim (mint sys) [
  | ok pairing ↦ (let file' = (publish sys pairing false file).1 in (read file', file'))
  | err e ↦ (err e, file)
]

load_file : System → PairFile → Result Pairing × PairFile
load_file sys file = elim (read file) [
  | ok p ↦ (ok p, file)
  | err e ↦ if is_not_found e then mint_missing sys file else (err e, file)
]

unfoldable pub load : System → PairFile → Result Pairing × PairFile
unfolding load_file mint_missing publish move mint is_not_found read
load sys file = elim sys.directory [ ok _ ↦ load_file sys file | err e ↦ (err e, file) ]

-- `reset`: the mint may draw from `sys'`, the system as it is by then.
reset_minted : System → System → PairFile → Result Pairing × PairFile
reset_minted sys' sys'' file = elim (mint sys') [
  | ok pairing ↦
      (let (r, file') = publish sys' pairing true file in
        elim r [ ok _ ↦ load sys'' file' | err e ↦ (err e, file') ])
  | err e ↦ (err e, file)
]

unfoldable pub reset : System → System → System → PairFile → Result Pairing × PairFile
unfolding reset_minted
reset sys sys' sys'' file =
    let (r, file') = load sys file in
    elim r [ ok _ ↦ reset_minted sys' sys'' file' | err e ↦ (err e, file') ]

read_kept : (p : Pairing) → IsPairing p → read (kept (code p ++ (10 ∷ []))) ≡ ok p
unfolding read
read_kept p h = (parse-code p h).1

publish_lost :
    (sys : System) (mine : Pairing) (text : Str)
    → sys.meanwhile missing ≡ kept text
    → (publish sys mine false missing).1 ≡ kept text
unfolding publish move
publish_lost sys mine text race = elim (Result-cases sys.temporary) [
  | inl (u, q) ↦ rw (q, publish, race) refl
  | inr (e, q) ↦ rw (q, publish, race) refl
]

publish_first :
    (sys : System) (mine : Pairing)
    → sys.temporary ≡ ok tt
    → sys.meanwhile missing ≡ missing
    → (publish sys mine false missing).1 ≡ kept (code mine ++ (10 ∷ []))
unfolding publish move
publish_first sys mine t alone = rw (t, publish, alone) refl

-- A first load that mints returns the pairing that it then reads back from the file.
load_mint :
    (sys : System) (mine p : Pairing)
    → sys.directory ≡ ok tt
    → mint sys ≡ ok mine
    → IsPairing p
    → (publish sys mine false missing).1 ≡ kept (code p ++ (10 ∷ []))
    → load sys missing ≡ (ok p, kept (code p ++ (10 ∷ [])))
unfolding load
load_mint sys mine p d m h q = rw (d, load, load_file, mint_missing, m, q, read_kept p h) refl

-- Where another process minted first, its pairing is the one: this one's mint loses, and the file
-- stays as the winner wrote it.
pub load_race :
    (sys : System) (mine winner : Pairing)
    → sys.directory ≡ ok tt
    → mint sys ≡ ok mine
    → sys.meanwhile missing ≡ kept (code winner ++ (10 ∷ []))
    → IsPairing winner
    → load sys missing ≡ (ok winner, kept (code winner ++ (10 ∷ [])))
load_race sys mine winner d m race h =
    load_mint sys mine winner d m h (publish_lost sys mine (code winner ++ (10 ∷ [])) race)

-- Alone, a first load mints: the file then holds the code of the pairing that is returned.
pub load_mints :
    (sys : System) (mine : Pairing)
    → sys.directory ≡ ok tt
    → sys.temporary ≡ ok tt
    → mint sys ≡ ok mine
    → sys.meanwhile missing ≡ missing
    → IsPairing mine
    → load sys missing ≡ (ok mine, kept (code mine ++ (10 ∷ [])))
load_mints sys mine d t m alone h = load_mint sys mine mine d m h (publish_first sys mine t alone)
