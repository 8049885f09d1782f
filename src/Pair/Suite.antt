-- ===== src/Pair/Suite.antt =====
-- The unit tests of src/pair.rs: each as what it asserts, and that it passes. HMAC-SHA256 and the
-- file system's answers stay parameters.
use zapd.Prelude.{
  ℕ, zero, suc, ◌≤◌, ◌≡◌, ◌≢◌, ◌⊎◌, refl, inl, inr, Bool, true, false, [], ◌∷◌, ◌++◌, All,
  Bool-cases,
}
use zapd.Text.{Bytes, Str, lit}
use zapd.Text.Equal.{str_eq, str_eq_refl, str_eq_iff}
use zapd.Text.Split.{strip_prefix, contains}
use zapd.Text.Trim.{trim}
use zapd.Text.Decimal.{to_decimal, parse_u16, parse_uint}
use zapd.Io.{Error, IsErr, Result, permission_denied, ok, err}
use zapd.Os.{FileType, is_dir, is_file, open_to_others, private}
use zapd.Os.Windows
use zapd.Pair.{
  Pairing, code, parse, split_once, router, client, mac_input, proof, verify, free_port, well_known,
}
use zapd.Pair.Hex.{hex, unhex, hex_digit}
use zapd.Pair.Port.{IsIn, free_port_ok}
use zapd.Pair.Keep.{missing, System, read, publish, move}

abbrev repeat : ℕ → Bytes → Bytes
repeat zero s = []
repeat (suc n) s = s ++ repeat n s

abbrev pairing : Pairing
pairing = record { port = 21000; key = repeat 32 (9 ∷ []) }

abbrev CodeRoundtrips : Type 0
CodeRoundtrips =
    (code pairing ≡ lit "ws://127.0.0.1:21000/#" ++ repeat 32 (lit "09"))
    × (parse (code pairing) ≡ ok pairing)
    × (parse (lit "  " ++ (code pairing ++ (10 ∷ []))) ≡ ok pairing)

code_roundtrips : CodeRoundtrips
unfolding code to_decimal hex hex_digit parse trim strip_prefix split_once parse_u16 parse_uint
    unhex
code_roundtrips = (refl, refl, refl)

abbrev CodeIsLoopbackOnly : Type 0
CodeIsLoopbackOnly =
    let key = repeat 32 (lit "09") in
    All (λ bad. IsErr (parse bad))
      ((lit "ws://evil.example:21000/#" ++ key)
        ∷ (lit "ws://localhost:21000/#" ++ key)
        ∷ (lit "wss://127.0.0.1:21000/#" ++ key)
        ∷ (lit "ws://127.0.0.1:0/#" ++ key)
        ∷ (lit "ws://127.0.0.1:21000/#" ++ repeat 32 (lit "0A"))
        ∷ lit "ws://127.0.0.1:21000/#short"
        ∷ lit "ws://127.0.0.1:21000/"
        ∷ [])

code_is_loopback_only : CodeIsLoopbackOnly
unfolding parse trim strip_prefix split_once parse_u16 parse_uint unhex
code_is_loopback_only =
    ((_, refl), ((_, refl), ((_, refl), ((_, refl), ((_, refl), ((_, refl), ((_, refl), tt)))))))

abbrev other : Pairing
other = record { port = 21000; key = repeat 32 (8 ∷ []) }

abbrev ones : Bytes
ones = repeat 32 (1 ∷ [])

abbrev twos : Bytes
twos = repeat 32 (2 ∷ [])

abbrev ProofsAreLabelled : (Bytes → Bytes → Bytes) → Type 0
ProofsAreLabelled hmac =
    let r = proof hmac pairing router ones twos in
    (verify hmac pairing router ones twos r ≡ true)
    × (verify hmac pairing client ones twos r ≡ false)
    × (verify hmac other router ones twos r ≡ false)

differs : (s t : Bytes) → s ≢ t → str_eq s t ≡ false
differs s t h = elim (Bool-cases (str_eq s t)) [
  | inl e ↦ absurd (h ((str_eq_iff s t).0 e))
  | inr f ↦ f
]

-- Where the three tags that the test compares differ, as those of HMAC-SHA256 do.
proofs_are_labelled :
    (hmac : Bytes → Bytes → Bytes)
    → hmac pairing.key (mac_input client ones twos) ≢ hmac pairing.key (mac_input router ones twos)
    → hmac other.key (mac_input router ones twos) ≢ hmac pairing.key (mac_input router ones twos)
    → ProofsAreLabelled hmac
unfolding proof verify
proofs_are_labelled hmac h k = (str_eq_refl _, differs _ _ h, differs _ _ k)

abbrev ANewDoorPortIsFree : (ℕ → Bool) → ℕ → Type 0
ANewDoorPortIsFree free p = (IsIn p well_known ⊎ ((20000 ≤ p) × (p ≤ 29999))) × (free p ≡ true)

a_new_door_port_is_free :
    (free : ℕ → Bool) (random : ℕ → Result Bytes) (p : ℕ)
    → free_port free random ≡ ok p
    → ANewDoorPortIsFree free p
a_new_door_port_is_free free random p e = let (a, b) = free_port_ok free random p e in (b, a)

abbrev threes : Pairing
threes = record { port = 21000; key = repeat 32 (3 ∷ []) }

abbrev fours : Pairing
fours = record { port = 21000; key = repeat 32 (4 ∷ []) }

-- The error's kind is `PermissionDenied`.
abbrev IsDenied : {A : Type 0} → Result A → Type 0
IsDenied r = (e : Error) × (r ≡ err e) × (e.kind ≡ permission_denied)

-- Both tests of the file: on Unix with modes 0o640, 0o600 and 0o755 and a link, on Windows with the
-- user `sid`.
abbrev RefusesAReadableOrPlantedToken : System → ℕ → Type 0
RefusesAReadableOrPlantedToken sys me =
    let minted = publish sys threes false missing in
    (minted.0 ≡ ok tt)
    × (read minted.1 ≡ ok threes)
    × IsErr (publish sys fours false minted.1).0
    × IsDenied
        (private me false (ok (record { file_type = FileType.regular; uid = me; mode = 0o100640 })))
    × (private me false (ok (record { file_type = FileType.regular; uid = me; mode = 0o100600 }))
        ≡ ok tt)
    × IsDenied
        (private me false (ok (record { file_type = FileType.symlink; uid = me; mode = 0o120777 })))
    × IsDenied
        (private me true (ok (record { file_type = FileType.directory; uid = me; mode = 0o40755 })))

abbrev ATokenIsThisUsersAndMintedOnce : System → Str → Type 0
ATokenIsThisUsersAndMintedOnce sys sid =
    let minted = publish sys threes false missing in
    (Windows.private true (ok FileType.directory) (Windows.mine (ok sid) (ok sid)) (ok sid) ≡ ok tt)
    × (minted.0 ≡ ok tt)
    × (read minted.1 ≡ ok threes)
    × IsErr (publish sys fours false minted.1).0
    × IsDenied
        (Windows.private true (ok FileType.regular) (Windows.mine (ok sid) (ok sid)) (ok sid))

-- A system whose temporary file can be written, with no other process at the path.
abbrev alone : System
alone = record {
  directory = ok tt;
  temporary = ok tt;
  meanwhile = λ file. file;
  free = λ p. true;
  random = λ i. ok [];
}

refuses_a_readable_or_planted_token : RefusesAReadableOrPlantedToken alone 1000
unfolding publish move read private is_dir is_file open_to_others code to_decimal hex hex_digit
    parse trim strip_prefix split_once parse_u16 parse_uint unhex
refuses_a_readable_or_planted_token =
    (refl, refl, (_, refl), (_, refl, refl), refl, (_, refl, refl), (_, refl, refl))

a_token_is_this_users_and_minted_once : ATokenIsThisUsersAndMintedOnce alone (lit "S-1-5-21-7")
unfolding publish move read is_dir is_file Windows.private Windows.mine code to_decimal hex
    hex_digit parse trim strip_prefix split_once parse_u16 parse_uint unhex str_eq contains
a_token_is_this_users_and_minted_once = (refl, refl, refl, (_, refl), (_, refl, refl))
