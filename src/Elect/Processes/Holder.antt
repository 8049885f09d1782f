-- ===== src/Elect/Processes/Holder.antt =====
-- One router at a time, and what `holder` of src/elect.rs tells each process.
use zapd.Prelude.{ℕ, ◌≡◌, ◌≢◌, sym, ◌∙◌, true, Option, some, inl, inr, Bool-cases}
use zapd.Io.{ok}
use zapd.Elect.{holder, os_holder}
use zapd.Elect.Processes.{Lock, System, start, Reach}
use zapd.Elect.Processes.Invariant.{elected-holds, Reach-Inv}

-- The lock names its holder to every other process, as `F_GETLK` does.
pub record Asks {L : Type 0} (os : Lock L) : Type 0 where
  pub ask : ℕ → L → Option ℕ
  pub ask_other : (k j : ℕ) (l : L) → os.owner l ≡ some j → k ≢ j → ask k l ≡ some j
  pub ask_owner : (k j : ℕ) (l : L) → ask k l ≡ some j → os.owner l ≡ some j

module _ {L : Type 0} (os : Lock L) (left : Option ℕ) {x : System L}
    (r : Reach os (start os left) x) where
  elected-owner : (j : ℕ) → x.shared.elected j ≡ true → os.owner x.shared.lock ≡ some j
  elected-owner j e =
      let h = Reach-Inv os left r in h.own j (elected-holds (x.phases j) (sym (h.told j) ∙ e))

  -- However the processes of a user interleave, exit and crash, and whichever calls fail, no two of
  -- them are the router at once.
  pub one_router : (j k : ℕ) → x.shared.elected j ≡ true → x.shared.elected k ≡ true → j ≡ k
  one_router j k e f = cc (elected-owner j e, elected-owner k f)

  module _ (a : Asks os) (f : ℕ) where
    -- What a process is told, which has the lock file open.
    abbrev pub answer : ℕ → Option ℕ
    answer k = holder (x.shared.elected k) k (λ f. a.ask k x.shared.lock) (ok f)

    -- While a process is the router, `holder` names it in every process that has the lock file open,
    -- itself included.
    pub holder_elected : (j k : ℕ) → x.shared.elected j ≡ true → answer k ≡ some j
    unfolding holder os_holder
    holder_elected j k e = elim (Bool-cases (x.shared.elected k)) [
      | inl t ↦ let same = one_router j k e t in rw t (cc)
      | inr n ↦ rw n (a.ask_other k j x.shared.lock (elected-owner j e) (λ q. cc (e, n, q)))
    ]

    -- Whom `holder` names in a process, that process has the lock.
    pub holder_owner : (j k : ℕ) → answer k ≡ some j → os.owner x.shared.lock ≡ some j
    unfolding holder os_holder
    holder_owner j k e = elim (Bool-cases (x.shared.elected k)) [
      | inl t ↦
          let e' : some k ≡ some j = rw t at e in let same : k ≡ j = cc in elected-owner k t ∙ cc
      | inr n ↦ a.ask_owner k j x.shared.lock (rw n at e)
    ]
