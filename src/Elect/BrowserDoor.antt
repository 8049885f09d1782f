-- ===== src/Elect/BrowserDoor.antt =====
-- `browser_door` of src/elect.rs: the retries until the port of the pairing can be bound. What the
-- pairing file holds and what can be bound at each attempt are parameters.
use zapd.Prelude.{
  ℕ, ◌+◌, ◌*◌, ◌≤◌, ◌≡◌, refl, inl, inr, Bool, true, false, not, ◌&&◌, Option, none, some, List, [],
  ◌∷◌, min, arith, leb, if◌then◌else◌, All, Bool-cases,
}
use zapd.Io.{Result, ok, err, Result-cases}
use zapd.Pair.{Pairing}

-- What the loop meets on one of its turns: the pairing, and whether a port can be bound.
abbrev pub Attempt : Type 0
Attempt = Result Pairing × (ℕ → Result (Unit {0}))

-- What it does on the way: it reports a missing pairing, reports a port that is held, and sleeps, in
-- milliseconds.
pub data Act : Type 0 where
  no_pairing : Act
  held : ℕ → Act
  sleep : ℕ → Act

-- The acts, and the port that it serves in the end, `none` while the attempts do not suffice.
abbrev pub Outcome : Type 0
Outcome = List Act × Option ℕ

after : List Act → Outcome → Outcome
after [] o = o
after (a ∷ acts) o = let (done, port) = after acts o in (a ∷ done, port)

must_warn : Bool → ℕ → Bool
must_warn warned wait = not warned && leb 1000 wait

sleeping : ℕ → Bool → ℕ → List Act
sleeping port warn wait = if warn then held port ∷ sleep wait ∷ [] else sleep wait ∷ []

retry : ℕ → Bool → List Attempt → Outcome
unfolding after must_warn sleeping
retry wait warned [] = ([], none)
retry wait warned ((loaded, bind) ∷ attempts) = elim loaded [
  | err e ↦ after (no_pairing ∷ sleep 5000 ∷ []) (retry wait warned attempts)
  | ok p ↦ elim (bind p.port) [
    | ok _ ↦ ([], some p.port)
    | err e ↦
        let warn = must_warn warned wait in
        after (sleeping p.port warn wait)
          (retry (min (wait * 2) 2000) (if warn then true else warned) attempts)
  ]
]

unfoldable pub browser_door : List Attempt → Outcome
unfolding retry
browser_door = retry 50 false

-- The port of the first attempt at which the pairing can be read and its port can be bound.
abbrev pub first_open : List Attempt → Option ℕ
first_open [] = none
first_open ((loaded, bind) ∷ attempts) = elim loaded [
  | err e ↦ first_open attempts
  | ok p ↦ elim (bind p.port) [ ok _ ↦ some p.port | err e ↦ first_open attempts ]
]

-- How often a held port is reported.
abbrev pub warnings : List Act → ℕ
warnings [] = 0
warnings (held port ∷ acts) = 1 + warnings acts
warnings (_ ∷ acts) = warnings acts

-- A sleep is between 50 ms and 2 s, or 5 s where there is no pairing.
abbrev pub Rests : Act → Type 0
Rests (sleep ms) = (50 ≤ ms) × (ms ≤ 5000)
Rests _ = Unit

abbrev most : Bool → ℕ
most true = 0
most false = 1

-- What is proved of the loop, from any wait in its bounds.
record Sound (warned : Bool) (attempts : List Attempt) (o : Outcome) : Type 0 where
  pub port : o.1 ≡ first_open attempts
  pub few : warnings o.0 ≤ most warned
  pub rests : All Rests o.0

warns_once : (warned : Bool) (wait : ℕ) → must_warn warned wait ≡ true → most warned ≡ 1
unfolding must_warn
warns_once true wait e = absurd (cc)
warns_once false wait e = refl

retry-Sound :
    (wait : ℕ) (warned : Bool) (attempts : List Attempt)
    → 50 ≤ wait
    → wait ≤ 2000
    → Sound warned attempts (retry wait warned attempts)
unfolding retry after must_warn sleeping
retry-Sound wait warned [] lo hi = record { port = refl; few = omega arith; rests = tt }
retry-Sound wait warned ((err e, bind) ∷ attempts) lo hi =
    let h = retry-Sound wait warned attempts lo hi in
    record { port = h.port; few = h.few; rests = (tt, ((omega arith, omega arith), h.rests)) }
retry-Sound wait warned ((ok p, bind) ∷ attempts) lo hi = elim (Result-cases (bind p.port)) [
  | inl (u, b) ↦ rw b (record { port = rw b refl; few = omega arith; rests = tt })
  | inr (e, b) ↦ elim (Bool-cases (must_warn warned wait)) [
    | inl w ↦
        let h = retry-Sound (min (wait * 2) 2000) true attempts (omega arith) (omega arith) in
        rw (b, w)
          (record {
            port = rw b h.port;
            few = omega (arith, h.few, warns_once warned wait w);
            rests = (tt, ((omega arith, omega arith), h.rests));
          })
    | inr n ↦
        let h = retry-Sound (min (wait * 2) 2000) warned attempts (omega arith) (omega arith) in
        rw (b, n)
          (record {
            port = rw b h.port;
            few = h.few;
            rests = ((omega arith, omega arith), h.rests);
          })
  ]
]

-- Whatever the attempts meet, the loop ends at the first one at which the pairing can be read and its
-- port can be bound, and serves that port; it reports a held port at most once, and each of its
-- sleeps is between 50 ms and 5 s.
pub browser_door_lem :
    (attempts : List Attempt)
    → ((browser_door attempts).1 ≡ first_open attempts)
      × (warnings (browser_door attempts).0 ≤ 1)
      × All Rests (browser_door attempts).0
unfolding browser_door
browser_door_lem attempts =
    let h = retry-Sound 50 false attempts (omega arith) (omega arith) in (h.port, h.few, h.rests)
