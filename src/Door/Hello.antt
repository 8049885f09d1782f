-- ===== src/Door/Hello.antt =====
-- What the door lets through to the router, and what the router makes of it.
use zapd.Prelude.{
  ◌≡◌, inl, inr, refl, sym, ap, ◌∙◌, true, ◌&&◌, Option, some, ◌++◌, ◌==◌, ==_iff, Bool-cases,
  and_true,
}
use zapd.Text.{Bytes, Str}
use zapd.Text.Equal.{str_eq, str_eq_iff}
use zapd.Io.{Error, ok, Result-cases}
use zapd.Id.{kind}
use zapd.Id.Stamp.{kind-stamp}
use zapd.Frame.Envelope.{Frame, Stream, decode, hello}
use zapd.Frame.Envelope.Whole.{read-decode}
use zapd.Frame.Control.{Descriptor}
use zapd.Door.{
  Socket, Next, message, binary, ping, pong, rest, failed, ended, next, hello_frame, hello_message,
  browser_hello, browser,
}
use zapd.Router.{greet, greeted}
use zapd.Router.Life.{greet_iff}

ok_inj : {A : Type 0} {a b : A} → ok a ≡ ok b → a ≡ b
ok_inj e = cc

some_inj : {A : Type 0} {a b : A} → some a ≡ some b → a ≡ b
some_inj e = cc

hello_frame_ok :
    (b x : Bytes) (f : Frame) (ws ws' : Socket)
    → hello_frame b f ws ≡ (ok x, ws')
    → (f.typ ≡ hello) × (kind f.from ≡ browser) × (x ≡ b) × (ws' ≡ ws)
unfolding hello_frame
hello_frame_ok b x f ws ws' e = elim (Bool-cases (f.typ == hello && str_eq (kind f.from) browser)) [
  | inl t ↦
      let e' = rw (t, hello_frame) at e in
      let (u, v) = and_true _ _ t in
      let same : x ≡ b = sym (ok_inj (ap (λ p. p.0) e')) in
      (
        (==_iff f.typ hello).0 u,
        (str_eq_iff (kind f.from) browser).0 v,
        same,
        sym (ap (λ p. p.1) e'),
      )
  | inr n ↦ let e' = rw (n, hello_frame) at e in absurd (cc)
]

hello_message_ok :
    (m : Next) (x : Bytes) (ws ws' : Socket)
    → hello_message m ws ≡ (ok x, ws')
    → (f : Frame) × (m ≡ message (binary x))
      × (decode x ≡ ok f)
      × (f.typ ≡ hello)
      × (kind f.from ≡ browser)
unfolding hello_message
hello_message_ok (message (binary b)) x ws ws' e = elim (Result-cases (decode b)) [
  | inl (f, d) ↦
      let (t, k, q, r) = hello_frame_ok b x f ws ws' (rw (d, hello_message) at e) in
      (f, ap (λ b. message (binary b)) (sym q), ap decode q ∙ d, t, k)
  | inr (y, d) ↦ let e' = rw (d, hello_message) at e in absurd (cc)
]
hello_message_ok (message ping) x ws ws' e = absurd (cc)
hello_message_ok (message pong) x ws ws' e = absurd (cc)
hello_message_ok (message rest) x ws ws' e = absurd (cc)
hello_message_ok failed x ws ws' e = absurd (cc)
hello_message_ok ended x ws ws' e = absurd (cc)

-- A hello that the door lets through is the next message, as it came, and that message is one whole
-- HELLO frame whose id has the kind `browser`.
pub browser_hello_ok :
    (ws ws' : Socket) (b : Bytes)
    → browser_hello ws ≡ (ok b, ws')
    → ((next ws).0 ≡ message (binary b))
      × ((f : Frame) × (decode b ≡ ok f) × (f.typ ≡ hello) × (kind f.from ≡ browser))
unfolding browser_hello
browser_hello_ok ws ws' b e =
    let (f, m, d, t, k) = hello_message_ok (next ws).0 b (next ws).1 ws' e in (m, (f, d, t, k))

hello_frame_passes :
    (b : Bytes) (f : Frame) (ws : Socket)
    → f.typ ≡ hello
    → kind f.from ≡ browser
    → hello_frame b f ws ≡ (ok b, ws)
unfolding hello_frame
hello_frame_passes b f ws t k =
    let u : str_eq (kind f.from) browser ≡ true = (str_eq_iff (kind f.from) browser).1 k in
    rw ((==_iff f.typ hello).1 t, hello_frame, u) refl

pub browser_hello_passes :
    (b : Bytes) (f : Frame) (ws : Socket)
    → (next ws).0 ≡ message (binary b)
    → decode b ≡ ok f
    → f.typ ≡ hello
    → kind f.from ≡ browser
    → browser_hello ws ≡ (ok b, (next ws).1)
unfolding browser_hello
browser_hello_passes b f ws m d t k =
    rw (m, browser_hello, d, hello_message, hello_frame_passes b f (next ws).1 t k) refl

-- A hello from the door, at the router: whatever follows it in the stream, the id that is registered
-- is a browser's.
pub greet-browser_hello :
    (ws ws' : Socket) (b more : Bytes) (fault : Option Error) (host id : Str) (desc : Descriptor)
    (rd : Stream)
    → browser_hello ws ≡ (ok b, ws')
    → greet host (record { bytes = b ++ more; fault = fault }) ≡ greeted id desc rd
    → kind id ≡ browser
greet-browser_hello ws ws' b more fault host id desc rd h g =
    let (m, (f, d, t, k)) = browser_hello_ok ws ws' b h in
    let (f', q, t', st, dd) =
      (greet_iff host (record { bytes = b ++ more; fault = fault }) rd id desc).0 g in
    let r = read-decode b more fault f d in
    let same : f' ≡ f = some_inj (ap (λ p. p.0) (ok_inj (sym q ∙ r))) in
    kind-stamp f'.from host id st ∙ ap (λ (f : Frame). kind f.from) same ∙ k
