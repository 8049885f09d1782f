-- ===== src/Router/Tasks/Invariant.antt =====
-- What every move keeps: who is seated, with which numbers, and who is told to go.
pub mod Quiet
pub mod Enter
pub mod Leave
use zapd.Prelude.{ℕ, ◌+◌, ◌<◌, ◌≡◌, ◌⊎◌, Bool, true, false, Option, none, some}
use zapd.Text.{Str}
use zapd.Map.{get}
use zapd.Router.{Peer, State}
use zapd.Router.Registry.{IsSound}
use zapd.Router.Tasks.{Phase}
use zapd.Router.Tasks.Numbers.{seat, numbers, waits}

-- The registry's entry for the id is that of the connection with these numbers.
abbrev pub Holds : State → Str → ℕ → ℕ → Type 0
Holds s id c token = (p : Peer) × (get s.peers id ≡ some p) × (p.tx ≡ c) × (p.token ≡ token)

-- The connection with these channels was told to go, or another is about to tell it.
abbrev pub Told : State → (ℕ → Phase) → ℕ → Type 0
Told s tasks c = (s.evicted c ≡ true) ⊎ ((l : ℕ) × (waits (tasks l) ≡ some c))

pub record Inv (s : State) (tasks : ℕ → Phase) : Type 0 where
  pub sound : IsSound s
  pub own_evict : (j : Str) (p : Peer) → get s.peers j ≡ some p → p.evict ≡ p.tx
  pub seated :
      (j : Str) (p : Peer)
      → get s.peers j ≡ some p
      → (k : ℕ) × (seat (tasks k) ≡ some (j, p.tx, p.token))
  pub given : (k c t : ℕ) → numbers (tasks k) ≡ some (c, t) → (c < s.next_conn) × (t < s.next_token)
  pub alone :
      (k l c t d u : ℕ)
      → numbers (tasks k) ≡ some (c, t)
      → numbers (tasks l) ≡ some (d, u)
      → (c ≡ d) ⊎ (t ≡ u)
      → k ≡ l
  pub told :
      (k : ℕ) (id : Str) (c t : ℕ)
      → seat (tasks k) ≡ some (id, c, t)
      → Holds s id c t ⊎ Told s tasks c
