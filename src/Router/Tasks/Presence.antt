-- ===== src/Router/Tasks/Presence.antt =====
-- What the registry promises, without channels, tokens and the order of entries: a table of the ids that
-- are present, each with the connection that holds it and its descriptor.
pub mod Moves
use zapd.Prelude.{ℕ, ◌≡◌, ◌⊎◌, refl, subst, Bool, true, Option, none, some, if◌then◌else◌}
use zapd.Text.{Str}
use zapd.Text.Equal.{str_eq}
use zapd.Map.{get}
use zapd.Frame.Control.{Descriptor}
use zapd.Router.{Peer, State}
use zapd.Router.Tasks.{Phase, opened, leaving}
use zapd.Router.Tasks.Numbers.{seat}

-- The holder, by the number of its accept, and the descriptor.
abbrev pub Table : Type 0
Table = Str → Option (ℕ × Descriptor)

-- What the connection `k` may do to the table, where it stands at `p`.
pub data Change (may : Bool) (k : ℕ) (p : Phase) (a b : Table) : Type 0 where
  stays : ((j : Str) → b j ≡ a j) → Change may k p a b
  -- It joins with the id and the descriptor of its own HELLO: the id is free, or it may take over.
  joins :
      (id : Str) (desc : Descriptor) (c token : ℕ)
      → p ≡ opened may id desc c token
      → (may ≡ true) ⊎ (a id ≡ none)
      → ((j : Str) → b j ≡ (if str_eq id j then some (k, desc) else a j))
      → Change may k p a b
  -- It leaves, and the id was its own.
  leaves :
      (id : Str) (desc : Descriptor) (c token : ℕ)
      → p ≡ leaving id c token
      → a id ≡ some (k, desc)
      → ((j : Str) → b j ≡ (if str_eq id j then none else a j))
      → Change may k p a b

-- What the table has of an id, against the registry: the descriptor of the entry, and the connection
-- that was registered with its channels and its token and has not removed itself yet.
abbrev pub Shows : (ℕ → Phase) → Str → Option Peer → Option (ℕ × Descriptor) → Type 0
Shows tasks j none o = o ≡ none
Shows tasks j (some p) o =
    (k : ℕ) × (o ≡ some (k, p.desc)) × (seat (tasks k) ≡ some (j, p.tx, p.token))

abbrev pub Refines : State → (ℕ → Phase) → Table → Type 0
Refines s tasks a = (j : Str) → Shows tasks j (get s.peers j) (a j)

pub Shows-map :
    (tasks tasks' : ℕ → Phase) (j : Str) (o : Option Peer) (q : Option (ℕ × Descriptor))
    → ((p : Peer)
        → o ≡ some p
        → (l : ℕ) → seat (tasks l) ≡ some (j, p.tx, p.token)
        → seat (tasks' l) ≡ some (j, p.tx, p.token))
    → Shows tasks j o q
    → Shows tasks' j o q
Shows-map tasks tasks' j none q f h = h
Shows-map tasks tasks' j (some p) q f (k, e, st) = (k, e, f p refl k st)

pub Shows-holder :
    (tasks : ℕ → Phase) (j : Str) (p : Peer) (o : Option Peer) (q : Option (ℕ × Descriptor))
    → o ≡ some p
    → Shows tasks j o q
    → (k : ℕ) × (q ≡ some (k, p.desc)) × (seat (tasks k) ≡ some (j, p.tx, p.token))
Shows-holder tasks j p o q e h = subst (λ o. Shows tasks j o q) e h

pub Shows-none :
    (tasks : ℕ → Phase) (j : Str) (o : Option Peer) (q : Option (ℕ × Descriptor))
    → o ≡ none
    → Shows tasks j o q
    → q ≡ none
Shows-none tasks j o q e h = subst (λ o. Shows tasks j o q) e h
