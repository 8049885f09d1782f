-- ===== src/Pair/Tests.antt =====
-- The theorems on src/pair.rs at a pairing of port 21000 with a key of nines.
use zapd.Prelude.{ℕ, ◌≡◌, ◌≢◌, refl, Bool, true, [], ◌∷◌, ◌++◌, ◌==◌, arith}
use zapd.Text.{Bytes, Str, lit}
use zapd.Text.Equal.{str_eq}
use zapd.Io.{Result, ok, fail, other}
use zapd.Pair.{Pairing, code, parse, router, client, mac_input, proof, verify, free_port}
use zapd.Pair.Code.{IsPairing, parse-code}
use zapd.Pair.Proof.{verify_reflected}
use zapd.Pair.Keep.{missing, kept, System, mint, load, load_race}

abbrev eight : ℕ → Bytes
eight n = n ∷ n ∷ n ∷ n ∷ n ∷ n ∷ n ∷ n ∷ []

abbrev key_of : ℕ → Bytes
key_of n = eight n ++ (eight n ++ (eight n ++ eight n))

abbrev nines : Pairing
nines = record { port = 21000; key = key_of 9 }

nines-IsPairing : IsPairing nines
nines-IsPairing = record { low = omega arith; high = omega arith; long = refl; bytes = omega arith }

parse-code_example : (parse (code nines) ≡ ok nines) × (parse (code nines ++ (10 ∷ [])) ≡ ok nines)
parse-code_example = parse-code nines nines-IsPairing

abbrev constant : Bytes → Bytes → Bytes
constant k m = []

reflected :
    verify constant nines client
      (key_of 1)
      (key_of 2)
      (proof constant nines router (key_of 3) (key_of 4))
    ≡ true
unfolding verify proof str_eq
reflected = refl

verify_reflected_example :
    (constant nines.key (mac_input client (key_of 1) (key_of 2))
      ≡ constant nines.key (mac_input router (key_of 3) (key_of 4)))
    × (mac_input client (key_of 1) (key_of 2) ≢ mac_input router (key_of 3) (key_of 4))
verify_reflected_example =
    verify_reflected constant nines (key_of 1) (key_of 2) (key_of 3) (key_of 4) refl refl reflected

-- 9998 is taken.
abbrev free : ℕ → Bool
free p = p == 21000

abbrev no_random : ℕ → Result Bytes
no_random i = fail other (lit "zapd: no randomness")

second_port : free_port free no_random ≡ ok 21000
unfolding free_port
second_port = refl

abbrev text : Str
text = code nines ++ (10 ∷ [])

-- Another process writes `nines` first.
abbrev racing : System
racing = record {
  directory = ok tt;
  temporary = ok tt;
  meanwhile = λ _. kept text;
  free = free;
  random = λ i. ok (key_of 7);
}

abbrev sevens : Pairing
sevens = record { port = 21000; key = key_of 7 }

minted : mint racing ≡ ok sevens
unfolding mint free_port
minted = refl

load_race_example : load racing missing ≡ (ok nines, kept text)
load_race_example = load_race racing sevens nines refl minted refl nines-IsPairing
