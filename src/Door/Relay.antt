-- ===== src/Door/Relay.antt =====
-- The loop of `admit` in src/door.rs: one browser's socket piped into the router. A turn is what
-- one `select!` finds ready, at a time in milliseconds.
use zapd.Prelude.{
  ℕ, zero, suc, ◌+◌, ◌≤◌, ◌≡◌, ◌⊎◌, inl, inr, refl, sym, ap, true, false, Option, none, some, List,
  [], ◌∷◌, ◌++◌, arith, leb, if◌then◌else◌, All, All-append, Bool-cases,
}
use zapd.Text.{Bytes, lit}
use zapd.Io.{Result, ok, err, fail, timed_out, other, Result-cases}
use zapd.Frame.Envelope.{Frame, new, encode, decode, error}
use zapd.Door.{
  binary, ping, pong, rest, Next, message, failed, ended, Socket, send, originates, idle,
}

pub data Ready : Type 0 where
  -- `ws.next()`
  browser : Next → Ready
  -- `Frame::read(&mut rd)`, of what the router writes
  router : Result (Option Frame) → Ready
  -- the timer is polled
  timer : Ready

-- The messages written to the router (`wr`), how many more writes work, and the deadline of `quiet`.
pub record Pipe : Type 0 where
  pub socket : Socket
  pub written : List Bytes
  pub room : ℕ
  pub deadline : ℕ

-- What a turn does: the loop goes on, or it returns.
pub data Flow : Type 0 where
  continues : Pipe → Flow
  returns : Result (Unit {0}) → Pipe → Flow

-- `ws.send(...).await.map_err(Error::other)?`
reply : Bytes → Pipe → Flow
reply b p =
    let (r, ws) = send b p.socket in
    elim r [
      | ok _ ↦ continues (record p { socket = ws })
      | err e ↦ returns (err e) (record p { socket = ws })
    ]

-- `wr.write_all(&b).await?`
write_all : Bytes → Pipe → Flow
write_all b p = elim p.room [
  | zero ↦ returns (fail other (lit "broken pipe")) p
  | suc n ↦ continues (record p { written = p.written ++ (b ∷ []); room = n })
]

unfoldable pub browser_frame : Bytes → Frame → Pipe → Flow
unfolding reply write_all
browser_frame b f p =
    if originates f
    then reply (encode (new error (lit "zapd") [] (lit "forbidden:" ++ f.to))) p
    else write_all b p

browser_turn : ℕ → Next → Pipe → Flow
browser_turn now (message (binary b)) p =
    let p' = record p { deadline = now + idle } in
    elim (decode b) [ ok f ↦ browser_frame b f p' | err e ↦ returns (err e) p' ]
browser_turn now (message ping) p = continues p
browser_turn now (message pong) p = continues p
browser_turn now (message rest) p = returns (ok tt) p
browser_turn now failed p = returns (ok tt) p
browser_turn now ended p = returns (ok tt) p

router_turn : Result (Option Frame) → Pipe → Flow
router_turn (ok (some f)) p = reply (encode f) p
router_turn (ok none) p = returns (ok tt) p
router_turn (err e) p = returns (err e) p

unfoldable pub turn : ℕ → Ready → Pipe → Flow
unfolding browser_turn router_turn reply
turn now (browser n) p = browser_turn now n p
turn now (router f) p = router_turn f p
turn now timer p =
    if leb p.deadline now
    then returns (fail timed_out (lit "browser went quiet")) p
    else continues p

-- The turns one after the other, until the loop returns.
unfoldable pub relay_loop : List (ℕ × Ready) → Pipe → Flow
relay_loop [] p = continues p
relay_loop ((now, r) ∷ ts) p = elim (turn now r p) [
  | continues p' ↦ relay_loop ts p'
  | returns x p' ↦ returns x p'
]

unfoldable pub pipe_of : Flow → Pipe
pipe_of (continues p) = p
pipe_of (returns x p) = p

count_cases : (n : ℕ) → (n ≡ zero) ⊎ ((m : ℕ) × (n ≡ suc m))
count_cases zero = inl refl
count_cases (suc m) = inr (m, refl)

-- A message that may pass: one whole frame that does not originate.
abbrev pub Passes : Bytes → Type 0
Passes b = (f : Frame) × (decode b ≡ ok f) × (originates f ≡ false)

abbrev AllPass : Flow → Type 0
AllPass w = All Passes (pipe_of w).written

reply-Passes : (b : Bytes) (p : Pipe) → All Passes p.written → AllPass (reply b p)
unfolding reply pipe_of
reply-Passes b p h = elim (Result-cases (send b p.socket).0) [
  | inl (u, q) ↦ rw (q, reply) h
  | inr (e, q) ↦ rw (q, reply) h
]

write-Passes : (b : Bytes) (p : Pipe) → Passes b → All Passes p.written → AllPass (write_all b p)
unfolding write_all pipe_of
write-Passes b p v h = elim (count_cases p.room) [
  | inl q ↦ rw (q, write_all) h
  | inr (n, q) ↦ rw (q, write_all) (All-append Passes p.written (b ∷ []) h (v, tt))
]

browser_frame-Passes :
    (b : Bytes) (f : Frame) (p : Pipe)
    → decode b ≡ ok f
    → All Passes p.written
    → AllPass (browser_frame b f p)
unfolding browser_frame
browser_frame-Passes b f p d h = elim (Bool-cases (originates f)) [
  | inl t ↦ rw (t, browser_frame) (reply-Passes _ p h)
  | inr n ↦ rw (n, browser_frame) (write-Passes b p (f, d, n) h)
]

turn-Passes : (now : ℕ) (r : Ready) (p : Pipe) → All Passes p.written → AllPass (turn now r p)
unfolding turn pipe_of
turn-Passes now (browser (message (binary b))) p h = elim (Result-cases (decode b)) [
  | inl (f, d) ↦
      rw (d, turn, browser_turn) (browser_frame-Passes b f (record p { deadline = now + idle }) d h)
  | inr (e, d) ↦ rw (d, turn, browser_turn) h
]
turn-Passes now (browser (message ping)) p h = h
turn-Passes now (browser (message pong)) p h = h
turn-Passes now (browser (message rest)) p h = h
turn-Passes now (browser failed) p h = h
turn-Passes now (browser ended) p h = h
turn-Passes now (router (ok (some f))) p h = reply-Passes (encode f) p h
turn-Passes now (router (ok none)) p h = h
turn-Passes now (router (err e)) p h = h
turn-Passes now timer p h = elim (Bool-cases (leb p.deadline now)) [
  | inl t ↦ rw (t, turn) h
  | inr n ↦ rw (n, turn) h
]

flow_cases :
    (w : Flow)
    → ((p : Pipe) × (w ≡ continues p)) ⊎ ((x : Result (Unit {0})) × (p : Pipe) × (w ≡ returns x p))
flow_cases (continues p) = inl (p, refl)
flow_cases (returns x p) = inr (x, p, refl)

-- Whatever the browser sends and whenever it ends, each message that the loop wrote to the router is
-- one whole frame that does not originate, if each was before.
pub relay_loop-Passes :
    (ts : List (ℕ × Ready)) (p : Pipe)
    → All Passes p.written
    → All Passes (pipe_of (relay_loop ts p)).written
unfolding relay_loop pipe_of
relay_loop-Passes [] p h = h
relay_loop-Passes ((now, r) ∷ ts) p h = elim (flow_cases (turn now r p)) [
  | inl (p', q) ↦
      rw (q, relay_loop) (relay_loop-Passes ts p' (rw (q, pipe_of) at (turn-Passes now r p h)))
  | inr (x, p', q) ↦ rw (q, relay_loop) (rw (q, pipe_of) at (turn-Passes now r p h))
]

-- Not a binary message of the browser.
abbrev pub Silent : ℕ × Ready → Type 0
Silent (now, browser (message (binary b))) = ⊥
Silent _ = Unit

deadline-eq : (p p' : Pipe) → continues p ≡ continues p' → p'.deadline ≡ p.deadline
deadline-eq p p' e = let same : p ≡ p' = cc in ap (λ (p : Pipe). p.deadline) (sym same)

reply_deadline : (b : Bytes) (p p' : Pipe) → reply b p ≡ continues p' → p'.deadline ≡ p.deadline
unfolding reply
reply_deadline b p p' e = elim (Result-cases (send b p.socket).0) [
  | inl (u, q) ↦ deadline-eq _ p' (rw (q, reply) at e)
  | inr (x, q) ↦ let e' = rw (q, reply) at e in absurd (cc)
]

turn_deadline :
    (now : ℕ) (r : Ready) (p p' : Pipe)
    → Silent (now, r)
    → turn now r p ≡ continues p'
    → p'.deadline ≡ p.deadline
unfolding turn
turn_deadline now (browser (message (binary b))) p p' v e = absurd v
turn_deadline now (browser (message ping)) p p' v e = deadline-eq p p' e
turn_deadline now (browser (message pong)) p p' v e = deadline-eq p p' e
turn_deadline now (browser (message rest)) p p' v e = absurd (cc)
turn_deadline now (browser failed) p p' v e = absurd (cc)
turn_deadline now (browser ended) p p' v e = absurd (cc)
turn_deadline now (router (ok (some f))) p p' v e = reply_deadline (encode f) p p' e
turn_deadline now (router (ok none)) p p' v e = absurd (cc)
turn_deadline now (router (err x)) p p' v e = absurd (cc)
turn_deadline now timer p p' v e = elim (Bool-cases (leb p.deadline now)) [
  | inl t ↦ let e' = rw (t, turn) at e in absurd (cc)
  | inr n ↦ deadline-eq p p' (rw (n, turn) at e)
]

-- While the browser sends no binary message the deadline stays, pings and pongs and what the router
-- writes notwithstanding, and the first poll of the timer from the deadline on ends the connection.
pub relay_loop_idle :
    (ts more : List (ℕ × Ready)) (p p' : Pipe) (now : ℕ)
    → All Silent ts
    → relay_loop ts p ≡ continues p'
    → p.deadline ≤ now
    → relay_loop (ts ++ ((now, timer) ∷ more)) p
      ≡ returns (fail timed_out (lit "browser went quiet")) p'
unfolding relay_loop turn
relay_loop_idle [] more p p' now v e late =
    let same : p ≡ p' = cc in
    let due : leb p.deadline now ≡ true = ground arith in rw (due, relay_loop, turn, same)
relay_loop_idle ((at, r) ∷ ts) more p p' now (q, v) e late = elim (flow_cases (turn at r p)) [
  | inl (u, t) ↦
      let d = turn_deadline at r p u q t in
      rw (t, relay_loop)
        (relay_loop_idle ts more u p' now v (rw (t, relay_loop) at e) (omega (arith, d)))
  | inr (x, u, t) ↦ let e' = rw (t, relay_loop) at e in absurd (cc)
]
