-- ===== src/Elect/Processes/Unix/Tests.antt =====
-- The lock of a file as the number of the process that has it, and process 4 elected with it while
-- process 7 dials.
use zapd.Prelude.{
  ℕ, ◌≡◌, ◌≢◌, ◌⊎◌, inl, inr, refl, sym, ap, true, false, Bool, Option, none, some, [], ◌∙◌, ◌==◌,
  ==_iff, if◌then◌else◌, Bool-cases, update,
}
use zapd.Text.{lit}
use zapd.Io.{Error, Result, ok, other}
use zapd.Node.{dial}
use zapd.Os.Unix
use zapd.Os.Unix.{
  Cmd, set_wait, set, get, LockType, writing, unlocked, Flock, flock, Answer, done, failed, eintr,
  is_unlocked, lock,
}
use zapd.Os.Unix.Records.{Posix, fcntl_of}
use zapd.Elect.{holder}
use zapd.Elect.Processes.{
  standing, granted, announced, serving, System, pick, start, Reach, here, later, win, announce,
  elect,
}
use zapd.Elect.Processes.Unix.{unix_lock, named, named_router, dial_owner, take, taken}

abbrev wait_for : ℕ → Bool → Flock → Option ℕ → Option (Answer × Option ℕ)
wait_for k signal f none = some (done f, some k)
wait_for k signal f (some j) =
    if j == k then some (done f, some k) else if signal then some (failed eintr, some j) else none

abbrev drop : ℕ → Option ℕ → Option ℕ
drop k none = none
drop k (some j) = if j == k then none else some j

abbrev tell : ℕ → Flock → Option ℕ → Flock
tell k f none = flock unlocked
tell k f (some j) = if j == k then flock unlocked else record f { l_pid = j }

abbrev fcntl : ℕ → Bool → Cmd → Flock → Option ℕ → Option (Answer × Option ℕ)
fcntl k signal set_wait f l = wait_for k signal f l
fcntl k signal set f l = some (done f, drop k l)
fcntl k signal get f l = some (done (tell k f l), l)

other_not : (k j : ℕ) → k ≢ j → (j == k) ≡ false
other_not k j ne = elim (Bool-cases (j == k)) [
  | inl t ↦ absurd (ne (sym ((==_iff j k).0 t)))
  | inr f ↦ f
]

fcntl_grants :
    (k : ℕ) (signal : Bool) (l : Option ℕ)
    → (l ≡ none) ⊎ (l ≡ some k)
    → (f : Flock) × (l' : Option ℕ) × (fcntl k signal set_wait (flock writing) l
        ≡ some (done f, l'))
      × (l' ≡ some k)
fcntl_grants k signal none h = (flock writing, some k, refl, refl)
fcntl_grants k signal (some j) (inl e) = absurd (cc)
fcntl_grants k signal (some j) (inr e) =
    let same : j ≡ k = cc in (flock writing, some k, rw ((==_iff j k).1 same) refl, refl)

drop_own : (k : ℕ) (l : Option ℕ) → l ≡ some k → drop k l ≡ none
drop_own k none e = refl
drop_own k (some j) e = let same : j ≡ k = cc in rw ((==_iff j k).1 same) refl

drop_other : (k : ℕ) (l : Option ℕ) → l ≢ some k → drop k l ≡ l
drop_other k none e = refl
drop_other k (some j) e = rw (other_not k j (λ q. e (ap some (sym q)))) refl

fcntl_names :
    (k j : ℕ) (signal : Bool) (l : Option ℕ)
    → l ≡ some j
    → k ≢ j
    → (f : Flock) × (l' : Option ℕ) × (fcntl k signal get (flock writing) l ≡ some (done f, l'))
      × (is_unlocked f.l_type ≡ false)
      × (f.l_pid ≡ j)
unfolding flock is_unlocked
fcntl_names k j signal none e ne = absurd (cc)
fcntl_names k j signal (some i) e ne =
    let same : i ≡ j = cc in
    (
      record (flock writing) { l_pid = i },
      some i,
      rw (other_not k i (λ q. ne (q ∙ same))) refl,
      refl,
      same,
    )

fcntl_names_none :
    (k : ℕ) (signal : Bool) (l : Option ℕ)
    → (l ≡ none) ⊎ (l ≡ some k)
    → (f : Flock) × (l' : Option ℕ) × (fcntl k signal get (flock writing) l ≡ some (done f, l'))
      × (is_unlocked f.l_type ≡ true)
unfolding flock is_unlocked
fcntl_names_none k signal none h = (flock unlocked, none, refl, refl)
fcntl_names_none k signal (some j) (inl e) = absurd (cc)
fcntl_names_none k signal (some j) (inr e) =
    let same : j ≡ k = cc in (flock unlocked, some j, rw ((==_iff j k).1 same) refl, refl)

held_waits :
    (k j : ℕ) (l : Option ℕ) → l ≡ some j → k ≢ j → fcntl k false set_wait (flock writing) l ≡ none
held_waits k j none e ne = absurd (cc)
held_waits k j (some i) e ne = let same : i ≡ j = cc in rw (other_not k i (λ q. ne (q ∙ same))) refl

held_interrupted :
    (k j : ℕ) (l : Option ℕ)
    → l ≡ some j
    → k ≢ j
    → fcntl k true set_wait (flock writing) l ≡ some (failed eintr, l)
held_interrupted k j none e ne = absurd (cc)
held_interrupted k j (some i) e ne =
    let same : i ≡ j = cc in rw (other_not k i (λ q. ne (q ∙ same))) refl

abbrev posix : Posix (Option ℕ)
posix = record {
  owner = λ l. l;
  free = none;
  fcntl = fcntl;
  ends = drop;
  owner-free = refl;
  held_waits = held_waits;
  held_interrupted = held_interrupted;
  grants = fcntl_grants;
  drops = λ k signal l. (flock unlocked, drop k l, refl, drop_own k l, drop_other k l);
  names = fcntl_names;
  names_none = fcntl_names_none;
  ends_own = drop_own;
  ends_other = drop_other;
}

abbrev os_error : ℕ → Error
os_error e = record { kind = other; message = [] }

-- Process 7 waits through three signals.
seven_waits : lock (fcntl_of posix 7) os_error true 4 (some 4, 3) ≡ Unix.waiting (some 4, 0)
unfolding lock fcntl_of Unix.lock_cmd Unix.lock_type flock
seven_waits = refl

abbrev four_serves : System (Option ℕ)
four_serves = record {
  shared = record { lock = some 4; elected = update (λ k. false) 4 true; recorded = some 4 };
  phases = update (update (update (λ k. standing) 4 granted) 4 announced) 4 serving;
}

four_elected : Reach (unix_lock posix os_error) (start (unix_lock posix os_error) none) four_serves
unfolding unix_lock take taken lock fcntl_of Unix.lock_cmd
four_elected =
    later (later (later here (pick 4 (win (some 4) refl))) (pick 4 announce)) (pick 4 elect)

named_router_example :
    ((j : ℕ)
      → four_serves.shared.elected j ≡ true
      → named posix os_error none four_elected 7 3 ≡ some j)
    × ((j : ℕ) → named posix os_error none four_elected 7 3 ≡ some j → (some 4) ≡ some j)
named_router_example = named_router posix os_error none four_elected 7 3

-- The door's path serves connection 12, whose peer is process 4.
dialled :
    dial {A = ℕ}
      (Unix.dial (lit "/run/zap") (λ path. ok 12) (λ s. ok (some 4)))
      (named posix os_error none four_elected 7 3)
    ≡ ok 12
unfolding dial Unix.dial holder Unix.holder Unix.named_holder fcntl_of is_unlocked flock
dialled = refl

dial_owner_example :
    (p : ℕ) × (◌≡◌ {A = Result (Option ℕ)} (ok (some 4)) (ok (some p))) × (some 4 ≡ some p)
dial_owner_example =
    dial_owner posix os_error none four_elected (lit "/run/zap") (λ path. ok 12) (λ s. ok (some 4))
      7 3 12 dialled
