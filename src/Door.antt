-- ===== src/Door.antt =====
-- src/door.rs: the browser door. The WebSocket library's answers are parameters: what each poll of a
-- socket gives, and how many more messages it can send.
pub mod Check
pub mod Hello
pub mod Relay
pub mod Admit
pub mod Gate
mod Tests
mod Suite
use zapd.Prelude.{
  ℕ, zero, suc, ◌+◌, ◌*◌, Bool, true, false, ◌&&◌, ◌||◌, Option, none, some, List, [], ◌∷◌, ◌++◌,
  ◌==◌, ltb, leb, if◌then◌else◌, length,
}
use zapd.Text.{Bytes, Str, lit}
use zapd.Text.Equal.{str_eq}
use zapd.Text.Split.{strip_prefix, contains}
use zapd.Text.Decimal.{to_decimal}
use zapd.Io.{Error, Result, ok, err, fail, permission_denied, timed_out, other}
use zapd.Id.{kind}
use zapd.Frame.Envelope.{Frame, new, encode, decode, hello, error, auth, response}
use zapd.Pair.{Pairing, nonce, router, client, proof, verify}

abbrev pub blink_origins : List Str
blink_origins = lit "chrome-extension://biingenefmanpecedoafkfajbnlgdmbl" ∷ []

abbrev pub random_origins : List Str
random_origins = lit "moz-extension://" ∷ lit "safari-web-extension://" ∷ []

abbrev pub admitting : ℕ
admitting = 8

-- In milliseconds.
abbrev pub idle : ℕ
idle = 60 * 1000

-- `h == format!("127.0.0.1:{port}") || h == format!("localhost:{port}")`
unfoldable pub host_ok : Str → ℕ → Bool
host_ok h port =
    str_eq h (lit "127.0.0.1:" ++ to_decimal port) || str_eq h (lit "localhost:" ++ to_decimal port)

-- `o.starts_with(p) && o.len() > p.len()`
unfoldable pub starts_past : Str → Str → Bool
starts_past p o = elim (strip_prefix p o) [ some _ ↦ ltb (length p) (length o) | none ↦ false ]

-- The same for some `p` of the list.
unfoldable pub random_origin : List Str → Str → Bool
random_origin [] o = false
random_origin (p ∷ ps) o = starts_past p o || random_origin ps o

unfoldable pub is_blink : Option Str → Bool
is_blink none = false
is_blink (some o) = contains blink_origins o

unfoldable pub origin_ok : Option Str → Bool
origin_ok none = false
origin_ok (some o) = contains blink_origins o || random_origin random_origins o

unfoldable pub is_some_and : (Str → Bool) → Option Str → Bool
is_some_and p none = false
is_some_and p (some s) = p s

pub data Refusal : Type 0 where
  origin host : Refusal

-- The Origin and the Host of the upgrade request: `none` where nothing refuses it.
unfoldable pub check : Option Str → Option Str → ℕ → Option Refusal
check o h port =
    if is_some_and (λ h. host_ok h port) h
    then (if origin_ok o then none else some Refusal.origin)
    else some Refusal.host

pub data Message : Type 0 where
  binary : Bytes → Message
  ping pong : Message
  -- a text, a close or a raw frame
  rest : Message

-- What a poll of the socket gives: `Some(Ok(m))`, `Some(Err(_))` or `None`.
pub data Next : Type 0 where
  message : Message → Next
  failed ended : Next

-- What the socket will give, what was sent over it, and how many sends still work.
pub record Socket : Type 0 where
  pub incoming : List Next
  pub sent : List Bytes
  pub room : ℕ

unfoldable pub next : Socket → Next × Socket
next ws = elim ws.incoming [ [] ↦ (ended, ws) | m ∷ ms ↦ (m, record ws { incoming = ms }) ]

-- `ws.send(Message::Binary(b)).await.map_err(Error::other)`
unfoldable pub send : Bytes → Socket → Result (Unit {0}) × Socket
send b ws = elim ws.room [
  | zero ↦ (fail other (lit "closed"), ws)
  | suc n ↦ (ok tt, record ws { sent = ws.sent ++ (b ∷ []); room = n })
]

abbrev expected_auth {ℓ} : {A : Type ℓ} → Result A
expected_auth = fail permission_denied (lit "expected AUTH")

auth_payload : Frame → Result Bytes
auth_payload f = if f.typ == auth then ok f.payload else expected_auth

auth_message : Next → Result Bytes
auth_message (message (binary b)) = elim (decode b) [ ok f ↦ auth_payload f | err e ↦ err e ]
auth_message _ = expected_auth

-- `auth` of the source.
unfoldable pub read_auth : Socket → Result Bytes × Socket
unfolding auth_message auth_payload
read_auth ws = let (m, ws') = next ws in (auth_message m, ws')

abbrev proof_failed {ℓ} : {A : Type ℓ} → Result A
proof_failed = fail permission_denied (lit "pairing proof failed")

-- `originates`: it addresses another node and does not answer a call.
unfoldable pub originates : Frame → Bool
originates f = elim f.to [ [] ↦ false | _ ∷ _ ↦ if f.typ == response then false else true ]

module _ (hmac : Bytes → Bytes → Bytes) where
  -- Whether what follows the router's proof is the browser's.
  prove_client : Pairing → Bytes → Bytes → Socket → Result (Unit {0}) × Socket
  prove_client key nc ns ws =
      let (r, ws') = read_auth ws in
      (
        elim r [
          | ok p ↦ if verify hmac key client nc ns p then ok tt else proof_failed
          | err e ↦ err e
        ],
        ws',
      )

  prove_router : Pairing → Bytes → Bytes → Socket → Result (Unit {0}) × Socket
  prove_router key nc ns ws =
      let (r, ws') = send (encode (new auth [] [] (ns ++ proof hmac key router nc ns))) ws in
      elim r [ ok _ ↦ prove_client key nc ns ws' | err e ↦ (err e, ws') ]

  prove_nonce : Pairing → Result Bytes → Bytes → Socket → Result (Unit {0}) × Socket
  prove_nonce key draw nc ws =
      if length nc == nonce
      then (elim draw [ ok ns ↦ prove_router key nc ns ws | err e ↦ (err e, ws) ])
      else (proof_failed, ws)

  prove_key : Pairing → Result Bytes → Socket → Result (Unit {0}) × Socket
  prove_key key draw ws =
      let (r, ws') = read_auth ws in
      elim r [ ok nc ↦ prove_nonce key draw nc ws' | err e ↦ (err e, ws') ]

  -- `loaded` is the answer of `pair::load`, and `draw` that of `pair::nonce`.
  unfoldable pub prove : Result Pairing → Result Bytes → Socket → Result (Unit {0}) × Socket
  unfolding prove_key prove_nonce prove_router prove_client
  prove loaded draw ws = elim loaded [ ok key ↦ prove_key key draw ws | err e ↦ (err e, ws) ]

abbrev pub browser : Str
browser = lit "browser"

abbrev expected_hello {ℓ} : {A : Type ℓ} → Result A
expected_hello = fail permission_denied (lit "door: expected HELLO")

hello_frame : Bytes → Frame → Socket → Result Bytes × Socket
hello_frame b f ws = if f.typ == hello && str_eq (kind f.from) browser then (ok b, ws) else (
  fail permission_denied (lit "door: only browser nodes come through the door"),
  (send (encode (new error (lit "zapd") [] (lit "browser_only:" ++ f.from))) ws).1,
)

hello_message : Next → Socket → Result Bytes × Socket
hello_message (message (binary b)) ws = elim (decode b) [
  | ok f ↦ hello_frame b f ws
  | err e ↦ (err e, ws)
]
hello_message _ ws = (expected_hello, ws)

unfoldable pub browser_hello : Socket → Result Bytes × Socket
unfolding hello_message hello_frame
browser_hello ws = let (m, ws') = next ws in hello_message m ws'
