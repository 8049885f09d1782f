-- ===== src/Os/Windows/Tests.antt =====
-- Two runtime directories, the owners of a process and an access list.
use zapd.Prelude.{
  ℕ, Bool, List, sym, ap, subst, ◌∙◌, ◌≡◌, ◌≢◌, refl, true, false, some, [], ◌∷◌, ◌++◌, arith,
}
use zapd.Text.{Str, lit}
use zapd.Text.Equal.{str_eq}
use zapd.Text.Utf16.{encode_utf8, from_utf16_lossy}
use zapd.Io.{ok, other}
use zapd.Frame.LittleEndian.{to_le_bytes}
use zapd.Pair.Hex.{hex_digit}
use zapd.Os.Windows.{fnv_byte, fnv_unit, fnv, hex_padded, address, mine, ace, sddl}
use zapd.Os.Windows.PipeName.{address_apart}
use zapd.Os.Windows.Sddl.{IsSid, read_sddl}
use zapd.Os.Windows.Calls.{
  Security, wide, until_nul, token_sid, sid_string, this_user, descriptor, dacl, succeeded, protect,
}
use zapd.Os.Windows.Admits.{Documented, protect_admits}

abbrev user : Str
user = lit "S-1-5-21-7"

abbrev admins : Str
admins = lit "S-1-5-32-544"

-- FNV-1a of the bytes 61 00.
short_name : address (ok user) (b'a' ∷ []) ≡ lit "\\\\.\\pipe\\zapd-S-1-5-21-7-089be207b544f1e4"
unfolding address fnv fnv_unit fnv_byte to_le_bytes hex_padded hex_digit
short_name = refl

owners : mine (ok user) (ok admins) ≡ ok (user ∷ admins ∷ [])
unfolding mine str_eq
owners = refl

pipe_text : sddl false (user ∷ []) ≡ lit "D:P(A;;GA;;;S-1-5-21-7)(A;;GA;;;SY)"
unfolding sddl ace
pipe_text = refl

address_apart_example :
    address (ok user) (lit "C:\\Users\\a" ++ (b'1' ∷ lit "\\zap"))
    ≢ address (ok user) (lit "C:\\Users\\a" ++ (b'2' ∷ lit "\\zap"))
address_apart_example =
    address_apart (ok user) (lit "C:\\Users\\a") (lit "\\zap") b'1' b'2' (omega arith) (omega arith)
      (λ e. absurd (omega arith))

-- A system with one SID, whose descriptors are their texts.
abbrev unwide : List ℕ → List ℕ
unwide [] = []
unwide (u ∷ []) = []
unwide (u ∷ v ∷ us) = u ∷ unwide (v ∷ us)

unwide-wide : (text : Str) → unwide (wide text) ≡ text
unfolding wide
unwide-wide [] = refl
unwide-wide (c ∷ []) = refl
unwide-wide (c ∷ d ∷ text) = ap (λ t. c ∷ t) (unwide-wide (d ∷ text))

abbrev os : Security (Unit {0}) Str Str
os = record {
  os_error = λ e. record { kind = other; message = [] };
  convert_sid = λ p. ok (user ++ (0 ∷ []));
  open_process_token = ok tt;
  token_information = λ class. ok tt;
  convert_descriptor = λ units. ok (unwide units);
  descriptor_dacl = λ sd. some sd;
  last_error = 0;
  named_owner = λ path. (0, tt);
  set_named_dacl = λ path access. 0;
}

plain_user :
    (p : Unit {0}) (units : List ℕ)
    → os.convert_sid p ≡ ok units
    → IsSid (from_utf16_lossy (until_nul units))
unfolding from_utf16_lossy encode_utf8 until_nul
plain_user p units e =
    let same : user ++ (0 ∷ []) ≡ units = cc in
    let good : IsSid (from_utf16_lossy (until_nul (user ++ (0 ∷ [])))) = omega arith in
    subst (λ us. IsSid (from_utf16_lossy (until_nul us))) same good

descriptor_text :
    (inherit : Bool) (text sd access : Str)
    → os.convert_descriptor (wide text) ≡ ok sd
    → os.descriptor_dacl sd ≡ some access
    → read_sddl inherit access ≡ read_sddl inherit text
descriptor_text inherit text sd access e f =
    let p : unwide (wide text) ≡ sd = cc in
    let q : sd ≡ access = cc in ap (read_sddl inherit) (sym q ∙ sym p ∙ unwide-wide text)

abbrev documented : Documented os
documented = record {
  sid_text = plain_user;
  trustees = read_sddl;
  descriptor_text = descriptor_text;
}

protected : protect os (lit "C:\\run") ≡ ok tt
unfolding protect descriptor this_user token_sid sid_string mine dacl succeeded
protected = refl

protect_admits_example :
    (sids : List Str) × (access : Str) × (this_user os ≡ ok sids)
    × (os.set_named_dacl (wide (lit "C:\\run")) access ≡ 0)
    × (read_sddl true access ≡ some (sids ++ (lit "SY" ∷ [])))
protect_admits_example = protect_admits os documented (lit "C:\\run") protected
