-- ===== src/Door/Gate.antt =====
-- `serve` of src/door.rs: the connections of the door side by side, and the gate of `ADMITTING`
-- permits that they pass. Each holds its permit from its accept to the end of its admission.
use zapd.Prelude.{
  ℕ, zero, suc, ◌+◌, ◌≡◌, sym, ap, ◌∙◌, subst, Bool, List, [], ◌∷◌, ◌++◌, append-nil, arith, All,
  All-append,
}
use zapd.Text.{Bytes}
use zapd.Io.{Error, Result, ok, err}
use zapd.Id.{kind}
use zapd.Frame.Envelope.{Frame, decode, hello}
use zapd.Pair.{Pairing}
use zapd.Door.{Socket, browser}
use zapd.Door.Admit.{Request, admit, admit_ok}

abbrev pub max_admitting : ℕ
max_admitting = 8

pub data Phase : Type 0 where
  -- in `admit`, with its permit
  admitting : Phase
  -- admitted with this hello, its permit dropped: it is piped into the router
  piped : Bytes → Phase
  finished : Phase
  -- past the gate: closed on accept
  closed : Phase

pub record Gate : Type 0 where
  pub permits : ℕ
  pub tasks : List Phase

module _ (hmac : Bytes → Bytes → Bytes) (port : ℕ) where
  pub data Step (g : Gate) : Gate → Type 0 where
    accept :
        (n : ℕ)
        → g.permits ≡ suc n
        → Step g (record { permits = n; tasks = g.tasks ++ (admitting ∷ []) })
    turn_away :
        g.permits ≡ zero → Step g (record { permits = zero; tasks = g.tasks ++ (closed ∷ []) })
    -- `drop(permit)`
    pass :
        (a c : List Phase) (loaded : Result Pairing) (draw : Result Bytes) (in_time : Bool)
        (req : Request) (shake : Result (Unit {0})) (ws ws' : Socket) (b : Bytes)
        → g.tasks ≡ a ++ (admitting ∷ c)
        → admit hmac loaded draw in_time req port shake ws ≡ (ok b, ws')
        → Step g (record { permits = suc g.permits; tasks = a ++ (piped b ∷ c) })
    -- the permit is dropped with the task
    refuse :
        (a c : List Phase) (loaded : Result Pairing) (draw : Result Bytes) (in_time : Bool)
        (req : Request) (shake : Result (Unit {0})) (ws ws' : Socket) (e : Error)
        → g.tasks ≡ a ++ (admitting ∷ c)
        → admit hmac loaded draw in_time req port shake ws ≡ (err e, ws')
        → Step g (record { permits = suc g.permits; tasks = a ++ (finished ∷ c) })
    finish :
        (a c : List Phase) (b : Bytes)
        → g.tasks ≡ a ++ (piped b ∷ c)
        → Step g (record { permits = g.permits; tasks = a ++ (finished ∷ c) })

  pub data Reach : Gate → Type 0 where
    start : Reach (record { permits = max_admitting; tasks = [] })
    later : {g h : Gate} → Reach g → Step g h → Reach h

  abbrev pub busy : List Phase → ℕ
  busy [] = 0
  busy (admitting ∷ tasks) = suc (busy tasks)
  busy (_ ∷ tasks) = busy tasks

  -- What a connection that is piped into the router says first.
  abbrev pub IsBrowser : Phase → Type 0
  IsBrowser (piped b) = (f : Frame) × (decode b ≡ ok f) × (f.typ ≡ hello) × (kind f.from ≡ browser)
  IsBrowser _ = Unit

  abbrev weight : Phase → ℕ
  weight admitting = 1
  weight _ = 0

  busy-cons : (p : Phase) (c : List Phase) → busy (p ∷ c) ≡ weight p + busy c
  busy-cons admitting c = omega arith
  busy-cons (piped b) c = omega arith
  busy-cons finished c = omega arith
  busy-cons closed c = omega arith

  busy-append :
      (a : List Phase) (p : Phase) (c : List Phase) → busy (a ++ (p ∷ c)) ≡ weight p + busy (a ++ c)
  busy-append [] p c = busy-cons p c
  busy-append (q ∷ a) p c =
      omega (arith, busy-cons q (a ++ (p ∷ c)), busy-cons q (a ++ c), busy-append a p c)

  module _ (P : Phase → Type 0) where
    All-swap :
        (a : List Phase) (p q : Phase) (c : List Phase)
        → (P p → P q)
        → All P (a ++ (p ∷ c))
        → All P (a ++ (q ∷ c))
    All-swap [] p q c k (h, t) = (k h, t)
    All-swap (r ∷ a) p q c k (h, t) = (h, All-swap a p q c k t)

  record Sound (g : Gate) : Type 0 where
    pub count : g.permits + busy g.tasks ≡ 8
    pub browsers : All IsBrowser g.tasks

  -- The connection at this place has its permit back at the gate, or had none.
  count-swap :
      (m n : ℕ) (a c : List Phase) (p q : Phase)
      → m + busy (a ++ (p ∷ c)) ≡ 8
      → m + weight p ≡ n + weight q
      → n + busy (a ++ (q ∷ c)) ≡ 8
  count-swap m n a c p q h e = omega (arith, h, e, busy-append a p c, busy-append a q c)

  busy-snoc : (a : List Phase) (p : Phase) → busy (a ++ (p ∷ [])) ≡ weight p + busy a
  busy-snoc a p = busy-append a p [] ∙ ap (λ l. weight p + busy l) (append-nil a)

  Step-Sound : {g h : Gate} → Step g h → Sound g → Sound h
  Step-Sound {g} (accept n e) s = record {
    count = omega (arith, s.count, e, busy-snoc g.tasks admitting);
    browsers = All-append IsBrowser g.tasks (admitting ∷ []) s.browsers (tt, tt);
  }
  Step-Sound {g} (turn_away e) s = record {
    count = omega (arith, s.count, e, busy-snoc g.tasks closed);
    browsers = All-append IsBrowser g.tasks (closed ∷ []) s.browsers (tt, tt);
  }
  Step-Sound {g} (pass a c loaded draw in_time req shake ws ws' b e t) s =
      let (_, _, hello) = admit_ok hmac loaded draw in_time req port shake ws ws' b t in
      record {
        count =
            count-swap g.permits (suc g.permits) a c admitting (piped b)
              (ap (λ l. g.permits + busy l) (sym e) ∙ s.count) (omega arith);
        browsers =
            All-swap IsBrowser a admitting (piped b) c (λ _. hello)
              (subst (All IsBrowser) e s.browsers);
      }
  Step-Sound {g} (refuse a c loaded draw in_time req shake ws ws' x e t) s = record {
    count =
        count-swap g.permits (suc g.permits) a c admitting finished
          (ap (λ l. g.permits + busy l) (sym e) ∙ s.count) (omega arith);
    browsers =
        All-swap IsBrowser a admitting finished c (λ h. h) (subst (All IsBrowser) e s.browsers);
  }
  Step-Sound {g} (finish a c b e) s = record {
    count =
        count-swap g.permits g.permits a c (piped b) finished
          (ap (λ l. g.permits + busy l) (sym e) ∙ s.count) (omega arith);
    browsers =
        All-swap IsBrowser a (piped b) finished c (λ _. tt) (subst (All IsBrowser) e s.browsers);
  }

  reached : {g : Gate} → Reach g → Sound g
  reached start = record { count = omega arith; browsers = tt }
  reached (later r st) = Step-Sound st (reached r)

  -- However connections come, are admitted, are refused and end, each of the eight permits is at the
  -- gate or with one connection that is being admitted, and each connection that is piped into the
  -- router says there the HELLO of a browser.
  pub gate_lem : {g : Gate} → Reach g → (g.permits + busy g.tasks ≡ 8) × All IsBrowser g.tasks
  gate_lem r = ((reached r).count, (reached r).browsers)
