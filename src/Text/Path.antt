-- ===== src/Text/Path.antt =====
-- `std::path::Path::join` on a system whose separator is `/`, of a name or an absolute path.
use zapd.Prelude.{ℕ, Bool, true, false, [], ◌∷◌, ◌++◌, ◌==◌, if◌then◌else◌}
use zapd.Text.{Str}

abbrev pub separator : ℕ
separator = b'/'

-- Whether the path starts with the separator, and ends with one.
abbrev pub is_absolute : Str → Bool
is_absolute [] = false
is_absolute (c ∷ s) = c == separator

abbrev pub ends_open : Str → Bool
ends_open [] = true
ends_open (c ∷ []) = c == separator
ends_open (c ∷ d ∷ s) = ends_open (d ∷ s)

unfoldable pub join : Str → Str → Str
join dir name =
    if is_absolute name
    then name
    else if ends_open dir
    then dir ++ name
    else dir ++ (separator ∷ name)
