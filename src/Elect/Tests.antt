-- ===== src/Elect/Tests.antt =====
-- The lock file of a process that has not opened it yet, the retries of the browser door, and two
-- processes that stand for election.
use zapd.Prelude.{
  ℕ, ◌≤◌, ◌≡◌, ◌≢◌, refl, ap, inl, inr, true, false, Option, none, some, List, [], ◌∷◌, All, arith,
  ◌==◌, ==_iff, if◌then◌else◌, Bool-cases, update,
}
use zapd.Text.{Str, lit}
use zapd.Io.{ok, fail, not_found, addr_in_use}
use zapd.Map.{Map, get}
use zapd.Pair.{Pairing}
use zapd.Elect.{lock_file, holder}
use zapd.Elect.BrowserDoor.{
  Attempt, Act, no_pairing, held, sleep, browser_door, warnings, Rests, browser_door_lem,
}
use zapd.Elect.Processes.{
  Lock, standing, granted, announced, serving, System, pick, start, Reach, here, later, win,
  announce, elect,
}
use zapd.Elect.Processes.Holder.{Asks, one_router}
use zapd.Elect.Processes.Recorded.{Announcing, begin, next, recorded_router, stale_record}
use zapd.Elect.Processes.Takeover.{Alone, exited, takeover}

abbrev path : Str
path = lit "/run/zap/zapd.lock"

abbrev files : Map ℕ
files = (path, 3) ∷ []

opened : lock_file path (ok tt) (ok 3) [] ≡ (ok 3, files)
unfolding lock_file get
opened = refl

-- The pairing is missing, then its port is held six times, then it is free.
abbrev pairing : Pairing
pairing = record { port = 9998; key = [] }

abbrev missing : Attempt
missing = (fail not_found [], λ p. ok tt)

abbrev busy : Attempt
busy = (ok pairing, λ p. fail addr_in_use [])

abbrev free_again : Attempt
free_again = (ok pairing, λ p. ok tt)

abbrev attempts : List Attempt
attempts = missing ∷ busy ∷ busy ∷ busy ∷ busy ∷ busy ∷ busy ∷ busy ∷ free_again ∷ busy ∷ []

abbrev acts : List Act
acts =
    no_pairing
    ∷ sleep 5000
    ∷ sleep 50
    ∷ sleep 100
    ∷ sleep 200
    ∷ sleep 400
    ∷ sleep 800
    ∷ held 9998
    ∷ sleep 1600
    ∷ sleep 2000
    ∷ []

attempts_run : browser_door attempts ≡ (acts, some 9998)
unfolding browser_door
attempts_run = refl

browser_door_lem_example :
    ((browser_door attempts).1 ≡ some 9998)
    × (warnings (browser_door attempts).0 ≤ 1)
    × All Rests (browser_door attempts).0
browser_door_lem_example = browser_door_lem attempts

-- The lock as the number of the process that holds it.
abbrev drop_lock : Option ℕ → ℕ → Option ℕ
drop_lock none k = none
drop_lock (some j) k = if j == k then none else some j

abbrev take_lock : Option ℕ → ℕ → Option (Option ℕ)
take_lock none k = some (some k)
take_lock (some j) k = if j == k then some (some k) else none

abbrev ask_lock : Option ℕ → ℕ → Option ℕ
ask_lock none k = none
ask_lock (some j) k = if j == k then none else some j

take_lock-owner : (k : ℕ) (l l' : Option ℕ) → take_lock l k ≡ some l' → l' ≡ some k
take_lock-owner k none l' e = cc
take_lock-owner k (some j) l' e = ground arith

take_lock_free : (k : ℕ) (l : Option ℕ) → l ≡ none → take_lock l k ≢ none
take_lock_free k none e f = absurd (cc)
take_lock_free k (some j) e f = absurd (cc)

take_lock_held : (k j : ℕ) (l l' : Option ℕ) → l ≡ some j → take_lock l k ≡ some l' → j ≡ k
take_lock_held k j none l' e f = absurd (cc)
take_lock_held k j (some i) l' e f = ground arith

drop_lock_own : (k : ℕ) (l : Option ℕ) → l ≡ some k → drop_lock l k ≡ none
drop_lock_own k none e = refl
drop_lock_own k (some j) e = ground arith

drop_lock_other : (k : ℕ) (l : Option ℕ) → l ≢ some k → drop_lock l k ≡ l
drop_lock_other k none e = refl
drop_lock_other k (some j) e = elim (Bool-cases (j == k)) [
  | inl t ↦ absurd (e (ap (λ i. some i) ((==_iff j k).0 t)))
  | inr n ↦ rw n refl
]

ask_lock_other : (k j : ℕ) (l : Option ℕ) → l ≡ some j → k ≢ j → ask_lock l k ≡ some j
ask_lock_other k j none e ne = absurd (cc)
ask_lock_other k j (some i) e ne = ground arith

ask_lock_owner : (k j : ℕ) (l : Option ℕ) → ask_lock l k ≡ some j → l ≡ some j
ask_lock_owner k j none e = absurd (cc)
ask_lock_owner k j (some i) e = ground arith

abbrev process_lock : Lock (Option ℕ)
process_lock = record {
  owner = λ l. l;
  free = none;
  take = λ k l. take_lock l k;
  release = λ k l. drop_lock l k;
  owner-free = refl;
  owner-take = take_lock-owner;
  take_free = take_lock_free;
  take_held = take_lock_held;
  release_own = drop_lock_own;
  release_other = drop_lock_other;
}

abbrev asks : Asks process_lock
asks = record { ask = λ k l. ask_lock l k; ask_other = ask_lock_other; ask_owner = ask_lock_owner }

-- Process 4 is elected while process 7 waits.
abbrev four_serves : System (Option ℕ)
four_serves = record {
  shared = record { lock = some 4; elected = update (λ k. false) 4 true; recorded = some 4 };
  phases = update (update (update (λ k. standing) 4 granted) 4 announced) 4 serving;
}

four_elected : Reach process_lock (start process_lock none) four_serves
four_elected =
    later (later (later here (pick 4 (win (some 4) refl))) (pick 4 announce)) (pick 4 elect)

one_router_example : ◌≡◌ {A = ℕ} 4 4
one_router_example = one_router process_lock none four_elected 4 4 refl refl

takeover_example :
    (y : System (Option ℕ)) × Alone process_lock 7 (exited process_lock 4 four_serves) y
    × (y.shared.elected 7 ≡ true)
    × ((i : ℕ) → holder (y.shared.elected i) i (λ f. asks.ask i y.shared.lock) (ok 3) ≡ some 7)
takeover_example =
    takeover process_lock none asks 3 four_elected 4 7 (λ e. absurd (omega arith)) (λ e. cc) refl
      refl

four_announced : Announcing process_lock (start process_lock (some 9)) four_serves
four_announced =
    next {k = 4} (next {k = 4} (next {k = 4} begin (win (some 4) refl) refl) announce refl) elect
      refl

recorded_router_example :
    holder (four_serves.shared.elected 7) 7 (λ f. four_serves.shared.recorded) (ok 3) ≡ some 4
recorded_router_example = recorded_router process_lock (some 9) four_announced 4 7 3 refl

-- Process 4 is the router, and the record is of process 9.
stale_record_example :
    (x : System (Option ℕ)) × Reach process_lock (start process_lock (some 9)) x
    × (x.shared.elected 4 ≡ true)
    × ((k f : ℕ) → k ≢ 4 → holder (x.shared.elected k) k (λ f. x.shared.recorded) (ok f) ≡ some 9)
stale_record_example = stale_record process_lock 9 4
