-- ===== src/Elect/Processes.antt =====
-- The processes that stand for election: the loop of `embed` of src/elect.rs in each, over one lock.
-- A move is what one process does at once, and any of them can end at any point.
pub mod Invariant
pub mod Holder
pub mod Takeover
pub mod Unix
pub mod Recorded
use zapd.Prelude.{ℕ, ◌≡◌, ◌≢◌, ◌⊎◌, Bool, true, false, Option, none, some, update}

-- What the operating system promises of the lock on one file, whose holder is a process: POSIX record
-- locks and `LockFileEx` both do. `L` is the lock's state.
pub record Lock (L : Type 0) : Type 0 where
  pub owner : L → Option ℕ
  pub free : L
  -- a process gets it, `none` while it would wait; and drops it, or ends, which drops it too
  pub take : ℕ → L → Option L
  pub release : ℕ → L → L
  pub owner-free : owner free ≡ none
  pub owner-take : (k : ℕ) (l l' : L) → take k l ≡ some l' → owner l' ≡ some k
  pub take_free : (k : ℕ) (l : L) → owner l ≡ none → take k l ≢ none
  pub take_held : (k j : ℕ) (l l' : L) → owner l ≡ some j → take k l ≡ some l' → j ≡ k
  pub release_own : (k : ℕ) (l : L) → owner l ≡ some k → owner (release k l) ≡ none
  pub release_other : (k : ℕ) (l : L) → owner l ≢ some k → owner (release k l) ≡ owner l

-- Where the loop of a process stands.
pub data Phase : Type 0 where
  -- in `os::lock(f, true)`
  standing : Phase
  -- with the lock, before and after `os::announce`
  granted : Phase
  announced : Phase
  -- in `serve`
  serving : Phase
  -- `serve` returned
  failed : Phase
  resigning : Phase
  -- in `sleep(1 s)`
  resting : Phase
  gone : Phase

pub record Shared (L : Type 0) : Type 0 where
  pub lock : L
  -- `ELECTED` of each process
  pub elected : ℕ → Bool
  -- what `announce` recorded, where the system keeps it beside the lock
  pub recorded : Option ℕ

module _ {L : Type 0} (os : Lock L) where
  pub data Move (k : ℕ) (s : Shared L) : Phase → Shared L → Phase → Type 0 where
    -- `lock_file` or `os::lock` fails
    cannot_lock : Move k s standing s resting
    win : (l : L) → os.take k s.lock ≡ some l → Move k s standing (record s { lock = l }) granted
    announce : Move k s granted (record s { recorded = some k }) announced
    cannot_announce : Move k s granted s announced
    elect : Move k s announced (record s { elected = update s.elected k true }) serving
    fail : Move k s serving s failed
    resign : Move k s failed (record s { elected = update s.elected k false }) resigning
    unlock : Move k s resigning (record s { lock = os.release k s.lock }) resting
    -- its error is dropped
    cannot_unlock : Move k s resigning s resting
    stand_again : Move k s resting s standing
    -- a clean exit, a crash or SIGKILL
    exit :
        (p : Phase)
        → p ≢ gone
        → Move k s p
            (record s { lock = os.release k s.lock; elected = update s.elected k false })
            gone

pub record System (L : Type 0) : Type 0 where
  pub shared : Shared L
  pub phases : ℕ → Phase

module _ {L : Type 0} (os : Lock L) where
  pub data Step (x : System L) : System L → Type 0 where
    pick :
        (k : ℕ) {s : Shared L} {p : Phase}
        → Move os k x.shared (x.phases k) s p
        → Step x (record { shared = s; phases = update x.phases k p })

  -- Any process may call `embed`; `recorded` may be left from before.
  abbrev pub start : Option ℕ → System L
  start left = record {
    shared = record { lock = os.free; elected = λ k. false; recorded = left };
    phases = λ k. standing;
  }

  pub data Reach (x : System L) : System L → Type 0 where
    here : Reach x x
    later : {y z : System L} → Reach x y → Step y z → Reach x z
