-- ===== src/Door/Admit.antt =====
-- The first half of `admit` in src/door.rs: the upgrade, the proof and the hello, in at most `ADMIT`.
use zapd.Prelude.{
  ℕ, ◌≡◌, ◌⊎◌, inl, inr, refl, sym, ap, ◌∙◌, [], ◌++◌, Bool, true, false, Option, none, some, ◌==◌,
  ==_iff, length, if◌then◌else◌, Bool-cases, Option-cases,
}
use zapd.Text.{Bytes, Str, lit}
use zapd.Io.{Result, ok, err, fail, permission_denied, timed_out, Result-cases}
use zapd.Id.{kind}
use zapd.Frame.Envelope.{Frame, decode, encode, new, auth, hello}
use zapd.Pair.{Pairing, nonce, client, router, proof, verify}
use zapd.Door.{
  Next, message, binary, ping, pong, rest, failed, ended, Socket, next, send, check, is_blink,
  read_auth, auth_message, auth_payload, prove, prove_key, prove_nonce, prove_router, prove_client,
  browser_hello, browser,
}
use zapd.Door.Hello.{browser_hello_ok}

-- The headers of the upgrade request, where they are text.
pub record Request : Type 0 where
  pub origin : Option Str
  pub host : Option Str

-- The upgrade: its own answer is that of the WebSocket library where the callback passes.
upgrade : Request → ℕ → Result (Unit {0}) → Result (Unit {0})
upgrade req port shake = elim (check req.origin req.host port) [
  | none ↦ shake
  | some _ ↦ fail permission_denied (lit "HTTP error: 403 Forbidden")
]

module _ (hmac : Bytes → Bytes → Bytes) (loaded : Result Pairing) (draw : Result Bytes) where
  -- `if !blink.load(..) { prove(&mut ws).await?; }`
  identify : Request → Socket → Result (Unit {0}) × Socket
  identify req ws = if is_blink req.origin then (ok tt, ws) else prove hmac loaded draw ws

  admit_hello : Request → Socket → Result Bytes × Socket
  admit_hello req ws =
      let (r, ws') = identify req ws in elim r [ ok _ ↦ browser_hello ws' | err e ↦ (err e, ws') ]

  -- `in_time`: the whole of it took less than `ADMIT`.
  unfoldable pub admit : Bool → Request → ℕ → Result (Unit {0}) → Socket → Result Bytes × Socket
  unfolding upgrade admit_hello identify
  admit in_time req port shake ws =
      if in_time
      then (elim (upgrade req port shake) [ ok _ ↦ admit_hello req ws | err e ↦ (err e, ws) ])
      else (fail timed_out (lit "admission timed out"), ws)

-- The next message of the socket is an AUTH frame with this payload.
abbrev pub IsAuth : Socket → Bytes → Type 0
IsAuth ws payload =
    (b : Bytes) × (f : Frame) × ((next ws).0 ≡ message (binary b))
    × (decode b ≡ ok f)
    × (f.typ ≡ auth)
    × (f.payload ≡ payload)

auth_payload_ok : (f : Frame) (p : Bytes) → auth_payload f ≡ ok p → (f.typ ≡ auth) × (f.payload ≡ p)
unfolding auth_payload
auth_payload_ok f p e = elim (Bool-cases (f.typ == auth)) [
  | inl t ↦ let e' = rw (t, auth_payload) at e in ((==_iff f.typ auth).0 t, cc)
  | inr n ↦ let e' = rw (n, auth_payload) at e in absurd (cc)
]

auth_message_ok :
    (m : Next) (p : Bytes)
    → auth_message m ≡ ok p
    → (b : Bytes) × (f : Frame) × (m ≡ message (binary b))
      × (decode b ≡ ok f)
      × (f.typ ≡ auth)
      × (f.payload ≡ p)
unfolding auth_message
auth_message_ok (message (binary b)) p e = elim (Result-cases (decode b)) [
  | inl (f, d) ↦
      let (t, q) = auth_payload_ok f p (rw (d, auth_message) at e) in (b, f, refl, d, t, q)
  | inr (y, d) ↦ let e' = rw (d, auth_message) at e in absurd (cc)
]
auth_message_ok (message ping) p e = absurd (cc)
auth_message_ok (message pong) p e = absurd (cc)
auth_message_ok (message rest) p e = absurd (cc)
auth_message_ok failed p e = absurd (cc)
auth_message_ok ended p e = absurd (cc)

read_auth_ok : (ws : Socket) (p : Bytes) → (read_auth ws).0 ≡ ok p → IsAuth ws p
unfolding read_auth
read_auth_ok ws p e = auth_message_ok (next ws).0 p e

read_auth_rest : (ws : Socket) → (read_auth ws).1 ≡ (next ws).1
unfolding read_auth
read_auth_rest ws = refl

-- What a proved connection showed, by the pairing that the file holds: two AUTH frames, the first a
-- nonce, the second the client's proof of it and of the router's nonce, which was sent before.
pub record Proved (hmac : Bytes → Bytes → Bytes) (loaded : Result Pairing) (draw : Result Bytes)
    (ws : Socket) : Type 0 where
  pub key : Pairing
  pub nc : Bytes
  pub ns : Bytes
  pub answer : Bytes
  pub ws2 : Socket
  pub load : loaded ≡ ok key
  pub drawn : draw ≡ ok ns
  pub first : IsAuth ws nc
  pub long : length nc ≡ nonce
  pub replied :
      send (encode (new auth [] [] (ns ++ proof hmac key router nc ns))) (next ws).1 ≡ (ok tt, ws2)
  pub second : IsAuth ws2 answer
  pub verified : verify hmac key client nc ns answer ≡ true

module _ (hmac : Bytes → Bytes → Bytes) where
  prove_client_ok :
      (key : Pairing) (nc ns : Bytes) (ws ws' : Socket)
      → prove_client hmac key nc ns ws ≡ (ok tt, ws')
      → (p : Bytes) × IsAuth ws p × (verify hmac key client nc ns p ≡ true)
  unfolding prove_client
  prove_client_ok key nc ns ws ws' e = elim (Result-cases (read_auth ws).0) [
    | inl (p, a) ↦ elim (Bool-cases (verify hmac key client nc ns p)) [
      | inl t ↦ (p, read_auth_ok ws p a, t)
      | inr f ↦ let e' = rw (a, prove_client, f) at e in absurd (cc)
    ]
    | inr (y, a) ↦ let e' = rw (a, prove_client) at e in absurd (cc)
  ]

  prove_router_ok :
      (key : Pairing) (nc ns : Bytes) (ws ws' : Socket)
      → prove_router hmac key nc ns ws ≡ (ok tt, ws')
      → (ws2 : Socket) × (send (encode (new auth [] [] (ns ++ proof hmac key router nc ns))) ws
          ≡ (ok tt, ws2))
        × ((p : Bytes) × IsAuth ws2 p × (verify hmac key client nc ns p ≡ true))
  unfolding prove_router
  prove_router_ok key nc ns ws ws' e =
      let reply = encode (new auth [] [] (ns ++ proof hmac key router nc ns)) in
      elim (Result-cases (send reply ws).0) [
        | inl (u, q) ↦ (
          (send reply ws).1,
          ap (λ r. (r, (send reply ws).1)) q,
          prove_client_ok key nc ns (send reply ws).1 ws' (rw (q, prove_router) at e),
        )
        | inr (y, q) ↦ let e' = rw (q, prove_router) at e in absurd (cc)
      ]

  prove_key_ok :
      (key : Pairing) (loaded : Result Pairing) (draw : Result Bytes) (ws ws' : Socket)
      → loaded ≡ ok key
      → prove_key hmac key draw ws ≡ (ok tt, ws')
      → Proved hmac loaded draw ws
  unfolding prove_key prove_nonce
  prove_key_ok key loaded draw ws ws' l e = elim (Result-cases (read_auth ws).0) [
    | inl (nc, a) ↦ elim (Bool-cases (length nc == nonce)) [
      | inl n ↦ elim (Result-cases draw) [
        | inl (ns, d) ↦
            let (ws2, q, (p, x, v)) =
              prove_router_ok key nc ns (read_auth ws).1 ws' (rw (a, prove_key, n, d) at e) in
            record {
              key = key;
              nc = nc;
              ns = ns;
              answer = p;
              ws2 = ws2;
              load = l;
              drawn = d;
              first = read_auth_ok ws nc a;
              long = (==_iff (length nc) nonce).0 n;
              replied = ap (send _) (sym (read_auth_rest ws)) ∙ q;
              second = x;
              verified = v;
            }
        | inr (y, d) ↦ let e' = rw (a, prove_key, n, d) at e in absurd (cc)
      ]
      | inr f ↦ let e' = rw (a, prove_key, f) at e in absurd (cc)
    ]
    | inr (y, a) ↦ let e' = rw (a, prove_key) at e in absurd (cc)
  ]

module _ (hmac : Bytes → Bytes → Bytes) (loaded : Result Pairing) (draw : Result Bytes) where
  prove_ok :
      (ws ws' : Socket) → prove hmac loaded draw ws ≡ (ok tt, ws') → Proved hmac loaded draw ws
  unfolding prove
  prove_ok ws ws' e = elim (Result-cases loaded) [
    | inl (key, l) ↦ prove_key_ok hmac key loaded draw ws ws' l (rw (l, prove) at e)
    | inr (y, l) ↦ let e' = rw (l, prove) at e in absurd (cc)
  ]

  identify_ok :
      (req : Request) (ws ws' : Socket)
      → identify hmac loaded draw req ws ≡ (ok tt, ws')
      → (is_blink req.origin ≡ true) ⊎ Proved hmac loaded draw ws
  unfolding identify
  identify_ok req ws ws' e = elim (Bool-cases (is_blink req.origin)) [
    | inl t ↦ inl t
    | inr f ↦ inr (prove_ok ws ws' (rw (f, identify) at e))
  ]

  admit_hello_ok :
      (req : Request) (ws ws' : Socket) (b : Bytes)
      → admit_hello hmac loaded draw req ws ≡ (ok b, ws')
      → ((is_blink req.origin ≡ true) ⊎ Proved hmac loaded draw ws)
        × ((f : Frame) × (decode b ≡ ok f) × (f.typ ≡ hello) × (kind f.from ≡ browser))
  unfolding admit_hello
  admit_hello_ok req ws ws' b e = elim (Result-cases (identify hmac loaded draw req ws).0) [
    | inl (u, q) ↦
        let ws1 = (identify hmac loaded draw req ws).1 in
        (
          identify_ok req ws ws1 (ap (λ r. (r, ws1)) q),
          (browser_hello_ok ws1 ws' b (rw (q, admit_hello) at e)).1,
        )
    | inr (y, q) ↦ let e' = rw (q, admit_hello) at e in absurd (cc)
  ]

-- A connection that is admitted passed the check of its headers, came from the Blink extension or
-- proved that it holds the pairing key, and said a HELLO as a browser.
pub admit_ok :
    (hmac : Bytes → Bytes → Bytes) (loaded : Result Pairing) (draw : Result Bytes) (in_time : Bool)
    (req : Request) (port : ℕ) (shake : Result (Unit {0})) (ws ws' : Socket) (b : Bytes)
    → admit hmac loaded draw in_time req port shake ws ≡ (ok b, ws')
    → (check req.origin req.host port ≡ none)
      × ((is_blink req.origin ≡ true) ⊎ Proved hmac loaded draw ws)
      × ((f : Frame) × (decode b ≡ ok f) × (f.typ ≡ hello) × (kind f.from ≡ browser))
unfolding admit
admit_ok hmac loaded draw false req port shake ws ws' b e = absurd (cc)
admit_ok hmac loaded draw true req port shake ws ws' b e =
    elim (Option-cases (check req.origin req.host port)) [
      | inl c ↦ elim (Result-cases shake) [
        | inl (u, k) ↦
            let (i, h) =
              admit_hello_ok hmac loaded draw req ws ws' b (rw (c, admit, upgrade, k) at e) in
            (c, i, h)
        | inr (y, k) ↦ let e' = rw (c, admit, upgrade, k) at e in absurd (cc)
      ]
      | inr (y, c) ↦ let e' = rw (c, admit, upgrade) at e in absurd (cc)
    ]
