-- ===== src/Node/Replies.antt =====
-- The answer of a call: it is final, and it can be the answer to an earlier one.
use zapd.Prelude.{
  ℕ, ◌+◌, ◌≡◌, inl, inr, refl, sym, ap, ◌∙◌, Bool, true, false, Option, none, some, List, [], ◌∷◌,
  ◌++◌, if◌then◌else◌, update, update_self,
}
use zapd.Text.{Str}
use zapd.Text.Equal.{str_eq_refl}
use zapd.Io.{Result, ok}
use zapd.Frame.Envelope.{Frame, response, encode}
use zapd.Node.{
  Inner, is_none, settle, answered, ask, Event, frame, drop, dialed, broken, call, done, step, run,
}
use zapd.Node.Calls.{IsSound, step-IsSound, settle_keeps, dropped_keeps, ask_keeps, answered_cases}

answered_keeps :
    (n : ℕ) (x : Result Frame) (s : Inner) (f : Frame)
    → IsSound s
    → s.replies n ≡ some x
    → (answered f s).replies n ≡ some x
answered_keeps n x s f h r = elim (answered_cases s f) [
  | inl e ↦ ap (λ (s : Inner). s.replies n) e ∙ r
  | inr (inl e) ↦ ap (λ (s : Inner). s.replies n) e ∙ r
  | inr (inr (from, a, e)) ↦ ap (λ (s : Inner). s.replies n) e ∙ settle_keeps n x s from a h r
]

call_keeps :
    (n : ℕ) (x : Result Frame) (t : Option ℕ) (up : Bool) (f : Frame) (answerer : Str) (s : Inner)
    → IsSound s
    → s.replies n ≡ some x
    → (if is_none t then (if up then ask f answerer s else s) else s).replies n ≡ some x
unfolding is_none
call_keeps n x none true f answerer s h r = ask_keeps n x f answerer s h r
call_keeps n x none false f answerer s h r = r
call_keeps n x (some m) up f answerer s h r = r

step_keeps :
    (n : ℕ) (x : Result Frame) (e : Event) (s : Inner)
    → IsSound s
    → s.replies n ≡ some x
    → (step e s).replies n ≡ some x
unfolding step
step_keeps n x (frame f) s h r = answered_keeps n x s f h r
step_keeps n x drop s h r = dropped_keeps n x s h r
step_keeps n x dialed s h r = r
step_keeps n x broken s h r = r
step_keeps n x (call f answerer) s h r = call_keeps n x s.turn s.up f answerer s h r
step_keeps n x done s h r = r

-- A call has one answer: whatever happens after it, the answer stays what it is.
pub run_keeps :
    (n : ℕ) (x : Result Frame) (es : List Event) (s : Inner)
    → IsSound s
    → s.replies n ≡ some x
    → (run es s).replies n ≡ some x
unfolding run
run_keeps n x [] s h r = r
run_keeps n x (e ∷ es) s h r =
    run_keeps n x es (step e s) (step-IsSound e s h) (step_keeps n x e s h r)

-- A call of a node that is up, when no other has the turn.
abbrev pub asked : Frame → Str → Inner → Inner
asked f who s = record s {
  waiting = some (who, s.next_call);
  turn = some s.next_call;
  next_call = s.next_call + 1;
  sent = s.sent ++ (encode f ∷ []);
}

step-call :
    (f : Frame) (who : Str) (s : Inner)
    → s.tx ≡ true
    → s.writing ≡ true
    → s.up ≡ true
    → s.turn ≡ none
    → step (call f who) s ≡ asked f who s
unfolding step is_none ask
step-call f who s t b u v = rw (v, u, t, b) refl

pub answered-response :
    (s : Inner) (late : Frame) (n : ℕ)
    → late.typ ≡ response
    → s.waiting ≡ some (late.from, n)
    → (answered late s).replies n ≡ some (ok late)
unfolding answered settle
answered-response s late n k q =
    let e : answered late s
        ≡ record s { waiting = none; replies = update s.replies n (some (ok late)) } =
      rw (k, answered, q, settle, str_eq_refl late.from) refl in
    ap (λ (s : Inner). s.replies n) e ∙ update_self s.replies n (some (ok late))

-- The response of a node to a call that gave up is the answer of the next call, if that asks the same
-- node before the response comes in: the node is up and
-- its writer at work, whatever the two frames and the response are.
pub run_stale :
    (s : Inner) (f g late : Frame) (who : Str)
    → s.tx ≡ true
    → s.writing ≡ true
    → s.up ≡ true
    → s.turn ≡ none
    → late.typ ≡ response
    → late.from ≡ who
    → (run (call f who ∷ done ∷ call g who ∷ frame late ∷ []) s).replies (s.next_call + 1)
      ≡ some (ok late)
unfolding run step
run_stale s f g late who t b u v k w =
    let second : Inner = asked g who (record (asked f who s) { turn = none }) in
    let e : step (call g who) (record (step (call f who) s) { turn = none }) ≡ second =
      ap (λ s. step (call g who) (record s { turn = none })) (step-call f who s t b u v)
      ∙ step-call g who (record (asked f who s) { turn = none }) t b u refl in
    ap (λ t. (answered late t).replies (s.next_call + 1)) e
    ∙ answered-response second late (s.next_call + 1) k
        (ap (λ w. some (w, s.next_call + 1)) (sym w))
