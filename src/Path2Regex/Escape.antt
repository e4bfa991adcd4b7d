-- ===== src/Path2Regex/Escape.antt =====
-- `escape_group` and `escape_string` of web/restinio/restinio/path2regex/path2regex.hpp.
use prj.Prelude.{ℕ, Bool, false, ◌||◌, [], ◌∷◌, Bytes, ◌==◌, if◌then◌else◌, codes}

-- Whether a character is one of these.
abbrev pub is_one_of : Bytes → ℕ → Bool
is_one_of [] c = false
is_one_of (x ∷ xs) c = (x == c) || is_one_of xs c

-- A string with a backslash before each character that asks for one.
unfoldable pub escape_by : (ℕ → Bool) → Bytes → Bytes
escape_by special [] = []
escape_by special (c ∷ s) =
    let rest = escape_by special s in if special c then b'\\' ∷ c ∷ rest else c ∷ rest

abbrev pub in_group : ℕ → Bool
in_group = is_one_of (codes "=!:$/()")

unfoldable pub escape_group : Bytes → Bytes
unfolding escape_by
escape_group group = escape_by in_group group

abbrev pub in_regex : ℕ → Bool
in_regex = is_one_of (codes ".+*?=^:${}()[]|\\/")

unfoldable pub escape_string : Bytes → Bytes
unfolding escape_by
escape_string group = escape_by in_regex group

-- What a regular expression of escaped and plain characters stands for.
abbrev pub unescape : Bytes → Bytes
unescape [] = []
unescape (c ∷ []) = c ∷ []
unescape (c ∷ d ∷ s) =
    let after = unescape s in
    let next = unescape (d ∷ s) in if c == b'\\' then d ∷ after else c ∷ next
