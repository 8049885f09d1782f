-- ===== src/Router/Tasks/Progress.antt =====
-- A connection that was told to go, or whose loop has ended, gets to its end by itself: it waits for
-- nothing that others do and for nothing on its stream.
use zapd.Prelude.{ℕ, ◌≡◌, ap, ◌∙◌, Bool, true, false, Option, none, some, [], arith}
use zapd.Text.{Str}
use zapd.Frame.Envelope.{new, encode, welcome, peer_connected}
use zapd.Frame.Control.{encode_peer}
use zapd.Router.{Peer, State, evict_old, router_name}
use zapd.Router.Send.{send-OnlyQueues}
use zapd.Router.Broadcast.{broadcast-OnlyQueues}
use zapd.Router.Halves.{Answer, answer_half-OnlyQueues}
use zapd.Router.Tasks.{
  Phase, fresh, named, opened, after_removal, Move, evicting, welcoming, announcing, relaying,
  leaving, departing, aborting, done, answering, hear, relay, relay_half, answer, break_writer,
  end_stream, evict_previous, greet_back, announce_arrival, obey, remove_own, announce_departure,
  abort_writer,
}
use zapd.Router.Tasks.Numbers.{seat}

-- A move for which the stream, or its writer, is not needed.
abbrev pub IsInternal : {s s' : State} {p p' : Phase} → Move s p s' p' → Type 0
IsInternal (hear rd rd' g) = ⊥
IsInternal (relay f n) = ⊥
IsInternal (relay_half f a p) = ⊥
IsInternal (break_writer w) = ⊥
IsInternal end_stream = ⊥
IsInternal _ = Unit

-- The connection gets to its end by internal moves of its own.
pub data Ends : State → Phase → Type 0 where
  ended : {s : State} → Ends s done
  moves :
      {s s' : State} {p p' : Phase} (mv : Move s p s' p') → IsInternal mv → Ends s' p' → Ends s p

aborting-Ends : (s : State) (c : ℕ) → Ends s (aborting c)
aborting-Ends s c = moves abort_writer tt ended

departing-Ends : (s : State) (id : Str) (c : ℕ) → Ends s (departing id c)
departing-Ends s id c = moves announce_departure tt (aborting-Ends _ c)

removed-Ends : (s : State) (id : Str) (c : ℕ) (b : Bool) → Ends s (after_removal id c b)
removed-Ends s id c true = departing-Ends s id c
removed-Ends s id c false = aborting-Ends s c

leaving-Ends : (s : State) (id : Str) (c t : ℕ) → Ends s (leaving id c t)
leaving-Ends s id c t = moves remove_own tt (removed-Ends _ id c _)

relaying-Ends : (s : State) (id : Str) (c t : ℕ) → s.evicted c ≡ true → Ends s (relaying id c t)
relaying-Ends s id c t e = moves (obey e) tt (leaving-Ends s id c t)

answering-Ends :
    (s : State) (id : Str) (c t : ℕ) (a : Answer) → s.evicted c ≡ true → Ends s (answering id c t a)
answering-Ends s id c t a e =
    moves answer tt
      (relaying-Ends _ id c t (ap (λ f. f c) (answer_half-OnlyQueues id a s).evicted ∙ e))

announcing-Ends : (s : State) (id : Str) (c t : ℕ) → s.evicted c ≡ true → Ends s (announcing id c t)
announcing-Ends s id c t e = moves announce_arrival tt (
    relaying-Ends _ id c t
      (ap (λ f. f c) (broadcast-OnlyQueues id peer_connected (encode_peer id) s).evicted ∙ e))

welcoming-Ends : (s : State) (id : Str) (c t : ℕ) → s.evicted c ≡ true → Ends s (welcoming id c t)
welcoming-Ends s id c t e = moves greet_back tt (
    announcing-Ends _ id c t
      (ap (λ f. f c) (send-OnlyQueues c (encode (new welcome router_name id [])) s).evicted ∙ e))

still_told :
    (s : State) (old : Option Peer) (c : ℕ)
    → s.evicted c ≡ true
    → (evict_old old s).evicted c ≡ true
unfolding evict_old
still_told s none c e = e
still_told s (some old) c e = ground arith

evicting-Ends :
    (s : State) (id : Str) (c t : ℕ) (old : Option Peer)
    → s.evicted c ≡ true
    → Ends s (evicting id c t old)
evicting-Ends s id c t old e =
    moves evict_previous tt (welcoming-Ends _ id c t (still_told s old c e))

told_as :
    (s : State) (j id : Str) (d c u t : ℕ)
    → ◌≡◌ {A = Option (Str × ℕ × ℕ)} (some (j, d, u)) (some (id, c, t))
    → s.evicted c ≡ true
    → s.evicted d ≡ true
told_as s j id d c u t e h = let same : d ≡ c = cc in ap s.evicted same ∙ h

-- A connection that was told to go gets to its end by moves of its own for which it needs neither its
-- stream nor another connection, wherever it stands.
pub told-Ends :
    (s : State) (p : Phase) (id : Str) (c t : ℕ)
    → seat p ≡ some (id, c, t)
    → s.evicted c ≡ true
    → Ends s p
told-Ends s (evicting j d u old) id c t e h = evicting-Ends s j d u old (told_as s j id d c u t e h)
told-Ends s (welcoming j d u) id c t e h = welcoming-Ends s j d u (told_as s j id d c u t e h)
told-Ends s (announcing j d u) id c t e h = announcing-Ends s j d u (told_as s j id d c u t e h)
told-Ends s (relaying j d u) id c t e h = relaying-Ends s j d u (told_as s j id d c u t e h)
told-Ends s (answering j d u a) id c t e h = answering-Ends s j d u a (told_as s j id d c u t e h)
told-Ends s (leaving j d u) id c t e h = leaving-Ends s j d u
told-Ends s (fresh b) id c t e h = absurd (cc)
told-Ends s (named b j desc) id c t e h = absurd (cc)
told-Ends s (opened b j desc d u) id c t e h = absurd (cc)
told-Ends s (departing j d) id c t e h = absurd (cc)
told-Ends s (aborting d) id c t e h = absurd (cc)
told-Ends s done id c t e h = absurd (cc)
