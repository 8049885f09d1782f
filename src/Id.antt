-- ===== src/Id.antt =====
-- src/id.rs: node ids `<kind>/<host>/<name>`.
pub mod Stamp
pub mod Label
mod Tests
mod Suite
use zapd.Prelude.{
  ℕ, ◌+◌, Bool, true, false, not, ◌&&◌, ◌||◌, Option, none, some, List, [], ◌∷◌, ◌++◌, map, leb,
  ◌==◌, if◌then◌else◌, length, take,
}
use zapd.Text.{Str, lit}
use zapd.Text.Split.{split, first_part, contains}

abbrev pub kinds : List Str
kinds =
    lit "agent"
    ∷ lit "browser"
    ∷ lit "cli"
    ∷ lit "desktop"
    ∷ lit "dev"
    ∷ lit "engine"
    ∷ lit "gpu"
    ∷ lit "host"
    ∷ lit "ide"
    ∷ lit "mcp"
    ∷ lit "router"
    ∷ lit "sandbox"
    ∷ []

abbrev pub slash : ℕ
slash = b'/'

abbrev pub dash : ℕ
dash = b'-'

abbrev pub is_lower : ℕ → Bool
is_lower c = leb b'a' c && leb c b'z'

abbrev pub is_digit : ℕ → Bool
is_digit c = leb b'0' c && leb c b'9'

-- Of a host label or a name.
abbrev pub label_char : ℕ → Bool
label_char c = is_lower c || is_digit c || c == dash

-- A character stands as its first byte: that is the character where it is ASCII, and is above the
-- ASCII characters where it is not. `chars` leaves the continuation bytes out.
chars : Str → List ℕ
chars [] = []
chars (c ∷ cs) = if leb 0x80 c && leb c 0xBF then chars cs else c ∷ chars cs

to_ascii_lowercase : ℕ → ℕ
to_ascii_lowercase c = if leb b'A' c && leb c b'Z' then c + 32 else c

-- The closure of the second `map`.
clean : ℕ → ℕ
clean c = if label_char c then c else dash

non_empty : Str → Str
non_empty [] = lit "local"
non_empty (c ∷ cs) = c ∷ cs

-- The host label of a hostname. (`host` applies it to the machine's.)
pub label : Str → Str
unfolding chars to_ascii_lowercase clean non_empty
label hostname =
    let first = first_part (split b'.' hostname) in
    non_empty (take 16 (map clean (map to_ascii_lowercase (chars first))))

all_label : Str → Bool
all_label [] = true
all_label (c ∷ cs) = label_char c && all_label cs

-- `b[0]` is read only if there is one.
starts_ok : Str → Bool
starts_ok [] = false
starts_ok (c ∷ cs) = is_lower c || is_digit c

unfoldable pub name_ok : Str → Bool
unfolding all_label starts_ok
name_ok n = leb 1 (length n) && leb (length n) 16 && starts_ok n && all_label n

-- `format!("{kind}/{host}/{name}")`
abbrev pub full_id : Str → Str → Str → Str
full_id kind host name = kind ++ (slash ∷ (host ++ (slash ∷ name)))

stamp_parts : Str → Str → Str → Option Str
stamp_parts kind host name =
    if contains kinds kind && name_ok name then some (full_id kind host name) else none

-- The match on the slice of parts.
stamp_split : List Str → Str → Option Str
unfolding stamp_parts
stamp_split (kind ∷ name ∷ []) host = stamp_parts kind host name
stamp_split (kind ∷ _ ∷ name ∷ []) host = stamp_parts kind host name
stamp_split _ host = none

unfoldable pub stamp : Str → Str → Option Str
unfolding stamp_split
stamp proposed host = stamp_split (split slash proposed) host

-- The kind of an id.
unfoldable pub kind : Str → Str
kind id = first_part (split slash id)
