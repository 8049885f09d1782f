-- ===== src/Elect/Processes/Unix.antt =====
-- The election on Unix: `lock` and `holder` of src/os/unix.rs fill the interfaces of the processes.
mod Tests
use zapd.Prelude.{
  ℕ, ◌≡◌, ◌≢◌, inl, inr, refl, sym, ap, ◌∙◌, true, false, Option, none, some, Option-cases,
  Bool-cases, ◌==◌, ==_iff, arith,
}
use zapd.Text.{Str}
use zapd.Io.{Error, Result, ok, err, Result-cases}
use zapd.Node.{dial}
use zapd.Node.Dial.{dial_iff}
use zapd.Os.Unix
use zapd.Os.Unix.{Locking, returned, waiting, cut, lock}
use zapd.Os.Unix.Records.{
  Posix, Waits, fcntl_of, lock_grants, lock_waits, lock_drops, holder_other, holder-owner,
}
use zapd.Elect.{holder}
use zapd.Elect.Processes.{Lock, System, start, Reach}
use zapd.Elect.Processes.Holder.{Asks, one_router, holder_elected, holder_owner}

-- The lock that a call of `lock(f, true)` returns with.
taken : {L : Type 0} → Locking (Waits L) → Option L
taken (returned (ok _) w) = some w.0
taken (returned (err e) w) = none
taken (waiting w) = none
taken cut = none

-- The lock after a call of `lock(f, false)`.
dropped : {L : Type 0} → L → Locking (Waits L) → L
dropped l (returned r w) = w.0
dropped l (waiting w) = w.0
dropped l cut = l

dial_peer :
    {S : Type 0} (dir : Str) (connect : Str → Result S) (peer_cred : S → Result (Option ℕ)) (s : S)
    (q : ℕ)
    → Unix.dial dir connect peer_cred ≡ ok (s, some q)
    → (p : ℕ) × (peer_cred s ≡ ok (some p)) × (q ≡ p)
unfolding Unix.dial
dial_peer dir connect peer_cred s q e = elim (Result-cases (connect (Unix.address dir))) [
  | inr (x, c) ↦ let e' = rw (c, Unix.dial) at e in absurd (cc)
  | inl (t, c) ↦ elim (Result-cases (peer_cred t)) [
    | inr (x, d) ↦ let e' = rw (c, Unix.dial, d) at e in absurd (cc)
    | inl (none, d) ↦ let e' = rw (c, Unix.dial, d) at e in absurd (cc)
    | inl (some p, d) ↦
        let e' = rw (c, Unix.dial, d) at e in
        let same : t ≡ s = cc in (p, ap peer_cred (sym same) ∙ d, cc)
  ]
]

module _ {L : Type 0} (os : Posix L) (os_error : ℕ → Error) where
  take : ℕ → L → Option L
  take k l = taken (lock (fcntl_of os k) os_error true 1 (l, 0))

  release : ℕ → L → L
  release k l = dropped l (lock (fcntl_of os k) os_error false 1 (l, 0))

  take_held : (k j : ℕ) (l l' : L) → os.owner l ≡ some j → take k l ≡ some l' → j ≡ k
  unfolding take taken
  take_held k j l l' o e = elim (Bool-cases (k == j)) [
    | inl t ↦ sym ((==_iff k j).0 t)
    | inr f ↦
        let w = lock_waits os k os_error 1 0 j l (omega arith) o (λ q. cc ((==_iff k j).1 q, f)) in
        let e' = rw (take, w, taken) at e in absurd (cc)
  ]

  take_free : (k : ℕ) (l : L) → os.owner l ≡ none → take k l ≢ none
  unfolding take taken
  take_free k l o e =
      let (l', s, g, o') = lock_grants os k os_error 0 0 l (inl o) in
      let e' = rw (take, g, taken) at e in absurd (cc)

  take_granted :
      (k : ℕ) (l l' : L)
      → ((l2 : L) × (take k l ≡ some l2) × (os.owner l2 ≡ some k))
      → take k l ≡ some l'
      → os.owner l' ≡ some k
  take_granted k l l' (l2, t, o) e = let same : l2 ≡ l' = cc in ap os.owner (sym same) ∙ o

  owner-take : (k : ℕ) (l l' : L) → take k l ≡ some l' → os.owner l' ≡ some k
  unfolding take taken
  owner-take k l l' e = elim (Option-cases (os.owner l)) [
    | inl n ↦
        let (l2, s, g, o) = lock_grants os k os_error 0 0 l (inl n) in
        take_granted k l l' (l2, rw (take, g) refl, o) e
    | inr (j, h) ↦
        let (l2, s, g, o) =
          lock_grants os k os_error 0 0 l (inr (h ∙ ap some (take_held k j l l' h e))) in
        take_granted k l l' (l2, rw (take, g) refl, o) e
  ]

  release_own : (k : ℕ) (l : L) → os.owner l ≡ some k → os.owner (release k l) ≡ none
  unfolding release dropped
  release_own k l o = let (l', s, g, a, b) = lock_drops os k os_error 0 0 l in rw (release, g) (a o)

  release_other : (k : ℕ) (l : L) → os.owner l ≢ some k → os.owner (release k l) ≡ os.owner l
  unfolding release dropped
  release_other k l n =
      let (l', s, g, a, b) = lock_drops os k os_error 0 0 l in rw (release, g) (b n)

  -- The interface of the election's lock.
  pub unix_lock : Lock L
  unix_lock = record {
    owner = os.owner;
    free = os.free;
    take = take;
    release = release;
    owner-free = os.owner-free;
    owner-take = owner-take;
    take_free = take_free;
    take_held = take_held;
    release_own = release_own;
    release_other = release_other;
  }

  pub unix_asks : Asks unix_lock
  unfolding unix_lock
  unix_asks = record {
    ask = λ k l. Unix.holder (fcntl_of os k) (l, 0);
    ask_other = λ k j l o ne. holder_other os k j l o ne;
    ask_owner = λ k j l e. holder-owner os k j l e;
  }

  module _ (left : Option ℕ) {x : System L} (r : Reach unix_lock (start unix_lock left) x) where
    -- Whom `holder` names in a process that has the lock file open.
    abbrev pub named : ℕ → ℕ → Option ℕ
    named k f =
        holder (x.shared.elected k) k (λ f. Unix.holder (fcntl_of os k) (x.shared.lock, 0)) (ok f)

    -- On Unix, in every state of the election: while a process is the router, every process that has
    -- the lock file open is told its pid, itself included; and whomever a process is told, that process
    -- has the lock.
    pub named_router :
        (k f : ℕ)
        → ((j : ℕ) → x.shared.elected j ≡ true → named k f ≡ some j)
          × ((j : ℕ) → named k f ≡ some j → os.owner x.shared.lock ≡ some j)
    unfolding unix_lock unix_asks
    named_router k f = (
      λ j e. holder_elected unix_lock left r unix_asks f j k e,
      λ j e. holder_owner unix_lock left r unix_asks f j k e,
    )

    -- On Unix a node that takes a connection takes one whose peer has the router's lock, whoever else
    -- has bound the door's path.
    pub dial_owner :
        {S : Type 0} (dir : Str) (connect : Str → Result S) (peer_cred : S → Result (Option ℕ))
        (k f : ℕ) (s : S)
        → dial (Unix.dial dir connect peer_cred) (named k f) ≡ ok s
        → (p : ℕ) × (peer_cred s ≡ ok (some p)) × (os.owner x.shared.lock ≡ some p)
    dial_owner dir connect peer_cred k f s e =
        let (q, d, h) = (dial_iff (Unix.dial dir connect peer_cred) (named k f) s).0 e in
        let (p, c, same) = dial_peer dir connect peer_cred s q d in
        (p, c, (named_router k f).1 q h ∙ ap some same)
