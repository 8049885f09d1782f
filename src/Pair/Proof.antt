-- ===== src/Pair/Proof.antt =====
-- What the labels and the nonces of a proof rule out.
use zapd.Prelude.{ℕ, ◌≡◌, ◌≢◌, refl, ap, get_or, true, [], ◌∷◌, ◌++◌, arith, length}
use zapd.Text.{Bytes}
use zapd.Text.Equal.{str_eq_iff, str_eq_refl}
use zapd.Pair.{Pairing, nonce, router, client, mac_input, proof, verify}

append_injective : (a b c d : Bytes) → length a ≡ length c → (a ++ b) ≡ (c ++ d) → (a ≡ c) × (b ≡ d)
append_injective [] b [] d n e = (refl, e)
append_injective [] b (y ∷ c) d n e = absurd (omega arith)
append_injective (x ∷ a) b [] d n e = absurd (omega arith)
append_injective (x ∷ a) b (y ∷ c) d n e =
    let (p, q) = append_injective a b c d (omega arith) (cc) in (cc, q)

-- The message under the HMAC determines the label and both nonces, where labels are of one length
-- and the browser's nonces too.
pub mac_input_injective :
    (l nc ns l' nc' ns' : Bytes)
    → length l ≡ length l'
    → length nc ≡ length nc'
    → mac_input l nc ns ≡ mac_input l' nc' ns'
    → (l ≡ l') × (nc ≡ nc') × (ns ≡ ns')
unfolding mac_input
mac_input_injective l nc ns l' nc' ns' n m e =
    let (p, q) = append_injective l (nc ++ ns) l' (nc' ++ ns') n e in
    let (r, t) = append_injective nc ns nc' ns' m q in (p, r, t)

-- A proof passes for its own label and nonces, under whatever key.
pub verify-proof :
    (hmac : Bytes → Bytes → Bytes) (p : Pairing) (label nc ns : Bytes)
    → verify hmac p label nc ns (proof hmac p label nc ns) ≡ true
unfolding verify proof
verify-proof hmac p label nc ns = str_eq_refl _

client-ne-router : client ≢ router
client-ne-router e =
    let c : ◌≡◌ {A = ℕ} b'c' b'r' = ap (λ (l : Bytes). get_or l 4 0) e in absurd (omega arith)

-- A router's proof, for whatever nonces, passes as a browser's only where the HMAC gives two
-- different messages one tag: neither proof can be reflected as the other.
pub verify_reflected :
    (hmac : Bytes → Bytes → Bytes) (p : Pairing) (nc ns nc' ns' : Bytes)
    → length nc ≡ nonce
    → length nc' ≡ nonce
    → verify hmac p client nc ns (proof hmac p router nc' ns') ≡ true
    → (hmac p.key (mac_input client nc ns) ≡ hmac p.key (mac_input router nc' ns'))
      × (mac_input client nc ns ≢ mac_input router nc' ns')
unfolding verify proof
verify_reflected hmac p nc ns nc' ns' n n' v = (
  (str_eq_iff _ _).0 v,
  λ e. client-ne-router (mac_input_injective client nc ns router nc' ns' refl (omega arith) e).0,
)
