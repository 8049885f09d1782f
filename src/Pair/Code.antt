-- ===== src/Pair/Code.antt =====
-- The pairing code is read back as it was printed, and nothing but a pairing is read.
use zapd.Prelude.{
  ℕ, ◌≤◌, ◌≡◌, refl, Option, none, some, [], ◌∷◌, ◌++◌, arith, ◌==◌, length, All, All-append,
  Option-cases, Bool-cases, inl, inr,
}
use zapd.Text.{Str, IsByte, lit}
use zapd.Text.Split.{Lacks, strip_prefix, strip_prefix-append}
use zapd.Text.Trim.{trim, IsVisible, trim_visible, to_decimal-IsVisible}
use zapd.Text.Decimal.{
  to_decimal, to_decimal_digits, parse_u16, parse_uint-to_decimal, parse_uint-le,
}
use zapd.Io.{ok}
use zapd.Pair.Hex.{hex, unhex, hex_visible, unhex-hex, unhex_key}
use zapd.Pair.{Pairing, code, split_once, parse_key, parse_port, parse_parts, parse_rest, parse}

-- A port that can be bound, and a key of 32 bytes.
pub record IsPairing (p : Pairing) : Type 0 where
  pub low : 1 ≤ p.port
  pub high : p.port ≤ 65535
  pub long : length p.key ≡ 32
  pub bytes : All IsByte p.key

abbrev slash_hash : Str
slash_hash = lit "/#"

split_once-append :
    (a b : Str) → Lacks b'/' a → split_once slash_hash (a ++ (slash_hash ++ b)) ≡ some (a, b)
unfolding split_once strip_prefix
split_once-append [] b h = refl
split_once-append (c ∷ cs) b (n, h) = ground (arith, split_once-append cs b h)

digits_Lacks : (s : Str) → All (λ c. (b'0' ≤ c) × (c ≤ b'9')) s → Lacks b'/' s
digits_Lacks [] h = tt
digits_Lacks (c ∷ cs) (p, h) = (omega arith, digits_Lacks cs h)

-- The code without its scheme and host.
abbrev tail : Pairing → Str
tail p = to_decimal p.port ++ (slash_hash ++ hex p.key)

parse_tail : (p : Pairing) → IsPairing p → parse_rest (some (tail p)) ≡ ok p
unfolding parse_rest parse_parts parse_port parse_key
parse_tail p h =
    rw
      (
        split_once-append (to_decimal p.port) (hex p.key)
            (digits_Lacks (to_decimal p.port) (to_decimal_digits p.port)),
        parse_rest,
        parse_parts,
        parse_uint-to_decimal 65535 p.port h.high,
        unhex-hex p.key h.bytes h.long,
      )
      (ground arith)

code-IsVisible : (p : Pairing) → IsPairing p → All IsVisible (code p)
unfolding code
code-IsVisible p h = All-append IsVisible (lit "ws://127.0.0.1:") (tail p) (omega arith) (
    All-append IsVisible (to_decimal p.port) (slash_hash ++ hex p.key) (to_decimal-IsVisible p.port)
      (All-append IsVisible slash_hash (hex p.key) (omega arith) (hex_visible p.key h.bytes)))

module _ (p : Pairing) (h : IsPairing p) where
  trimmed : (trim (code p) ≡ code p) × (trim (code p ++ (10 ∷ [])) ≡ code p)
  unfolding code
  trimmed = trim_visible b'w' (lit "s://127.0.0.1:" ++ tail p) (code-IsVisible p h)

  stripped : parse_rest (strip_prefix (lit "ws://127.0.0.1:") (code p)) ≡ ok p
  unfolding code
  stripped = rw (strip_prefix-append (lit "ws://127.0.0.1:") (tail p)) (parse_tail p h)

  -- A pairing is read back from its code, and from the code with the newline that the file has.
  pub parse-code : (parse (code p) ≡ ok p) × (parse (code p ++ (10 ∷ [])) ≡ ok p)
  unfolding parse
  parse-code = (rw trimmed.0 stripped, rw trimmed.1 stripped)

parse_port-IsPairing :
    (o : Option ℕ) (key : Str) (p : Pairing)
    → ((n : ℕ) → o ≡ some n → n ≤ 65535)
    → parse_port o key ≡ ok p
    → IsPairing p
unfolding parse_port parse_key
parse_port-IsPairing none key p h e = absurd (cc)
parse_port-IsPairing (some n) key p h e = elim (Bool-cases (n == 0)) [
  | inl t ↦ let e' = rw (t, parse_port) at e in absurd (cc)
  | inr f ↦ elim (Option-cases (unhex key)) [
    | inl u ↦ let e' = rw (f, parse_port, u, parse_key) at e in absurd (cc)
    | inr (k, u) ↦
        let e' = rw (f, parse_port, u, parse_key) at e in
        let same : record { port = n; key = k } ≡ p = cc in
        let (long, bytes) = unhex_key key k u in
        rw (← same) (record { low = ground arith; high = h n refl; long = long; bytes = bytes })
  ]
]

-- Whatever is read as a code has a port from 1 to 65535 and a key of 32 bytes.
pub parse-IsPairing : (s : Str) (p : Pairing) → parse s ≡ ok p → IsPairing p
unfolding parse parse_rest parse_parts
parse-IsPairing s p e = elim (Option-cases (strip_prefix (lit "ws://127.0.0.1:") (trim s))) [
  | inl q ↦ let e' = rw (q, parse_rest) at e in absurd (cc)
  | inr (rest, q) ↦ elim (Option-cases (split_once slash_hash rest)) [
    | inl r ↦ let e' = rw (q, parse_rest, r, parse_parts) at e in absurd (cc)
    | inr ((port, key), r) ↦
        parse_port-IsPairing (parse_u16 port) key p (parse_uint-le 65535 port)
          (rw (q, parse_rest, r, parse_parts) at e)
  ]
]
