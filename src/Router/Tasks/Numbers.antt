-- ===== src/Router/Tasks/Numbers.antt =====
-- What a phase tells: the seat of a registered connection, the numbers that it was given, and the
-- connection that it is about to close.
use zapd.Prelude.{ℕ, ◌≡◌, refl, Option, none, some}
use zapd.Text.{Str}
use zapd.Router.Tasks.{
  Phase, fresh, named, opened, evicting, welcoming, announcing, relaying, answering, leaving,
  departing, aborting, done, writer,
}

-- From its registration to its removal: the id, the number of its channels and its token.
abbrev pub seat : Phase → Option (Str × ℕ × ℕ)
seat (fresh t) = none
seat (named t id desc) = none
seat (opened t id desc c token) = none
seat (evicting id c token old) = some (id, c, token)
seat (welcoming id c token) = some (id, c, token)
seat (announcing id c token) = some (id, c, token)
seat (relaying id c token) = some (id, c, token)
seat (answering id c token a) = some (id, c, token)
seat (leaving id c token) = some (id, c, token)
seat (departing id c) = none
seat (aborting c) = none
seat done = none

-- The number of its channels and its token, while it may still be registered with them.
abbrev pub numbers : Phase → Option (ℕ × ℕ)
numbers (fresh t) = none
numbers (named t id desc) = none
numbers (opened t id desc c token) = some (c, token)
numbers (evicting id c token old) = some (c, token)
numbers (welcoming id c token) = some (c, token)
numbers (announcing id c token) = some (c, token)
numbers (relaying id c token) = some (c, token)
numbers (answering id c token a) = some (c, token)
numbers (leaving id c token) = some (c, token)
numbers (departing id c) = none
numbers (aborting c) = none
numbers done = none

-- The channels whose connection it is about to tell to go.
abbrev pub waits : Phase → Option ℕ
waits (evicting id c token none) = none
waits (evicting id c token (some old)) = some old.evict
waits _ = none

pub seat-numbers :
    (p : Phase) (id : Str) (c token : ℕ)
    → seat p ≡ some (id, c, token)
    → numbers p ≡ some (c, token)
seat-numbers (fresh t) id c token e = absurd (cc)
seat-numbers (named t j desc) id c token e = absurd (cc)
seat-numbers (opened t j desc d u) id c token e = absurd (cc)
seat-numbers (evicting j d u old) id c token e = cc
seat-numbers (welcoming j d u) id c token e = cc
seat-numbers (announcing j d u) id c token e = cc
seat-numbers (relaying j d u) id c token e = cc
seat-numbers (answering j d u a) id c token e = cc
seat-numbers (leaving j d u) id c token e = cc
seat-numbers (departing j d) id c token e = absurd (cc)
seat-numbers (aborting d) id c token e = absurd (cc)
seat-numbers done id c token e = absurd (cc)

-- A connection has a writer only after it told the old one to go.
pub writer-waits : (p : Phase) (c : ℕ) → writer p ≡ some c → waits p ≡ none
writer-waits (fresh t) c e = absurd (cc)
writer-waits (named t j desc) c e = absurd (cc)
writer-waits (opened t j desc d u) c e = absurd (cc)
writer-waits (evicting j d u old) c e = absurd (cc)
writer-waits (welcoming j d u) c e = refl
writer-waits (announcing j d u) c e = refl
writer-waits (relaying j d u) c e = refl
writer-waits (answering j d u a) c e = refl
writer-waits (leaving j d u) c e = refl
writer-waits (departing j d) c e = refl
writer-waits (aborting d) c e = refl
writer-waits done c e = absurd (cc)
