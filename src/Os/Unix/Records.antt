-- ===== src/Os/Unix/Records.antt =====
-- What POSIX promises of `fcntl` on the lock of one whole file, and what the loop of `lock` then does
-- under signals that interrupt it.
use zapd.Prelude.{
  ℕ, zero, suc, ◌<◌, ◌≡◌, ◌≢◌, ◌⊎◌, inl, inr, refl, sym, ap, ◌∙◌, Bool, true, false, Option, none,
  some, arith, ◌==◌, ==_iff, Bool-cases, Option-cases,
}
use zapd.Io.{Error, ok}
use zapd.Os.Unix.{
  Cmd, set_wait, set, get, writing, unlocked, Flock, flock, Answer, done, failed, eintr, lock_cmd,
  lock_type, is_unlocked, returned, waiting, lock, lock_answered, holder, named_holder,
}

-- `L` is the lock's state, whose owner is a process id. `fcntl k s` is a call of process `k`, where
-- `s` says whether a signal comes while it waits; it answers nothing if it goes on waiting.
pub record Posix (L : Type 0) : Type 0 where
  pub owner : L → Option ℕ
  pub free : L
  pub fcntl : ℕ → Bool → Cmd → Flock → L → Option (Answer × L)
  pub ends : ℕ → L → L
  pub owner-free : owner free ≡ none
  -- F_SETLKW of a write lock waits while another process has it, and only a signal ends the wait
  pub held_waits :
      (k j : ℕ) (l : L) → owner l ≡ some j → k ≢ j → fcntl k false set_wait (flock writing) l ≡ none
  pub held_interrupted :
      (k j : ℕ) (l : L)
      → owner l ≡ some j
      → k ≢ j
      → fcntl k true set_wait (flock writing) l ≡ some (failed eintr, l)
  -- and is granted where no other process has it
  pub grants :
      (k : ℕ) (signal : Bool) (l : L)
      → (owner l ≡ none) ⊎ (owner l ≡ some k)
      → (f : Flock) × (l' : L) × (fcntl k signal set_wait (flock writing) l ≡ some (done f, l'))
        × (owner l' ≡ some k)
  -- F_SETLK drops the process's own lock and no other
  pub drops :
      (k : ℕ) (signal : Bool) (l : L)
      → (f : Flock) × (l' : L) × (fcntl k signal set (flock unlocked) l ≡ some (done f, l'))
        × (owner l ≡ some k → owner l' ≡ none)
        × (owner l ≢ some k → owner l' ≡ owner l)
  -- F_GETLK names another process that has it, and says so where there is none
  pub names :
      (k j : ℕ) (signal : Bool) (l : L)
      → owner l ≡ some j
      → k ≢ j
      → (f : Flock) × (l' : L) × (fcntl k signal get (flock writing) l ≡ some (done f, l'))
        × (is_unlocked f.l_type ≡ false)
        × (f.l_pid ≡ j)
  pub names_none :
      (k : ℕ) (signal : Bool) (l : L)
      → (owner l ≡ none) ⊎ (owner l ≡ some k)
      → (f : Flock) × (l' : L) × (fcntl k signal get (flock writing) l ≡ some (done f, l'))
        × (is_unlocked f.l_type ≡ true)
  -- the end of a process drops its lock
  pub ends_own : (k : ℕ) (l : L) → owner l ≡ some k → owner (ends k l) ≡ none
  pub ends_other : (k : ℕ) (l : L) → owner l ≢ some k → owner (ends k l) ≡ owner l

-- The lock and the signals that are still to come, one for each wait that one ends.
abbrev pub Waits : Type 0 → Type 0
Waits L = L × ℕ

module _ {L : Type 0} (os : Posix L) (k : ℕ) where
  -- The calls of process `k` as it meets the signals.
  unfoldable pub fcntl_of : Cmd → Flock → Waits L → Option (Answer × Waits L)
  fcntl_of cmd f (l, zero) = elim (os.fcntl k false cmd f l) [
    | none ↦ none
    | some p ↦ some (p.0, (p.1, zero))
  ]
  fcntl_of cmd f (l, suc s) = elim (os.fcntl k true cmd f l) [
    | none ↦ none
    | some p ↦ some (p.0, (p.1, s))
  ]

  module _ (os_error : ℕ → Error) where
    -- Where no other process has it, `lock` returns with the lock at the first call.
    pub lock_grants :
        (n s : ℕ) (l : L)
        → (os.owner l ≡ none) ⊎ (os.owner l ≡ some k)
        → (l' : L) × (s' : ℕ) × (lock (fcntl_of) os_error true (suc n) (l, s)
            ≡ returned (ok tt) (l', s'))
          × (os.owner l' ≡ some k)
    unfolding lock lock_answered lock_cmd lock_type fcntl_of
    lock_grants n zero l h =
        let (f, l', e, o) = os.grants k false l h in (l', zero, rw (lock, fcntl_of, e) refl, o)
    lock_grants n (suc s) l h =
        let (f, l', e, o) = os.grants k true l h in (l', s, rw (lock, fcntl_of, e) refl, o)

    -- Where another process has it, `lock` is back in its wait after however many signals.
    pub lock_waits :
        (n s j : ℕ) (l : L)
        → s < n
        → os.owner l ≡ some j
        → k ≢ j
        → lock (fcntl_of) os_error true n (l, s) ≡ waiting (l, 0)
    unfolding lock lock_answered lock_cmd lock_type fcntl_of
    lock_waits zero s j l lt o ne = absurd (omega arith)
    lock_waits (suc n) zero j l lt o ne = rw (lock, fcntl_of, os.held_waits k j l o ne) refl
    lock_waits (suc n) (suc s) j l lt o ne =
        rw (lock, fcntl_of, os.held_interrupted k j l o ne) (lock_waits n s j l (omega arith) o ne)

    -- `lock(f, false)` drops the lock of this process at the first call and leaves that of another.
    pub lock_drops :
        (n s : ℕ) (l : L)
        → (l' : L) × (s' : ℕ) × (lock (fcntl_of) os_error false (suc n) (l, s)
            ≡ returned (ok tt) (l', s'))
          × (os.owner l ≡ some k → os.owner l' ≡ none)
          × (os.owner l ≢ some k → os.owner l' ≡ os.owner l)
    unfolding lock lock_answered lock_cmd lock_type fcntl_of
    lock_drops n zero l =
        let (f, l', e, a, b) = os.drops k false l in (l', zero, rw (lock, fcntl_of, e) refl, a, b)
    lock_drops n (suc s) l =
        let (f, l', e, a, b) = os.drops k true l in (l', s, rw (lock, fcntl_of, e) refl, a, b)

  -- `holder` names the process that has the lock where it is another.
  pub holder_other :
      (j : ℕ) (l : L) → os.owner l ≡ some j → k ≢ j → holder (fcntl_of) (l, 0) ≡ some j
  unfolding holder named_holder fcntl_of
  holder_other j l o ne =
      let (f, l', e, u, p) = os.names k j false l o ne in
      rw (holder, fcntl_of, e, named_holder, u, p) refl

  pub holder_unheld :
      (l : L) → (os.owner l ≡ none) ⊎ (os.owner l ≡ some k) → holder (fcntl_of) (l, 0) ≡ none
  unfolding holder named_holder fcntl_of
  holder_unheld l o =
      let (f, l', e, u) = os.names_none k false l o in
      rw (holder, fcntl_of, e, named_holder, u) refl

  pub holder-owner : (j : ℕ) (l : L) → holder (fcntl_of) (l, 0) ≡ some j → os.owner l ≡ some j
  holder-owner j l e = elim (Option-cases (os.owner l)) [
    | inl n ↦ absurd (cc (holder_unheld l (inl n), e))
    | inr (i, o) ↦ elim (Bool-cases (k == i)) [
      | inl t ↦
          let own : os.owner l ≡ some k = o ∙ ap some (sym ((==_iff k i).0 t)) in
          absurd (cc (holder_unheld l (inr own), e))
      | inr f ↦ o ∙ sym (holder_other i l o (λ q. cc ((==_iff k i).1 q, f))) ∙ e
    ]
  ]
