-- ===== src/Path2Regex/Scan.antt =====
-- The matches of `path_regex_str` in a route, as `std::cregex_iterator` gives them. Each branch of the
-- expression is read by a function; none of them can be matched in a second way, so that a regex
-- engine would find nothing else by going back.
use prj.Prelude.{
  ℕ, zero, suc, Bool, ◌&&◌, ◌||◌, Option, none, some, List, [], ◌∷◌, Bytes, leb, ◌==◌,
  if◌then◌else◌, codes,
}
use prj.Path2Regex.Escape.{is_one_of}

-- The five groups of a match. A group that took no part is empty, as its `str()` is.
pub record Groups : Type 0 where
  pub escaped : Bytes
  pub name : Bytes
  pub capture : Bytes
  pub group : Bytes
  pub modifier : Bytes

-- What `.` does not match.
abbrev pub is_line_end : ℕ → Bool
is_line_end = is_one_of (10 ∷ 13 ∷ [])

-- `\w`.
abbrev pub is_word : ℕ → Bool
is_word c =
    (leb b'a' c && leb c b'z')
    || ((leb b'A' c && leb c b'Z') || ((leb b'0' c && leb c b'9') || (c == b'_')))

-- `\w*`, as long as it goes.
unfoldable pub read_word : Bytes → Bytes × Bytes
read_word [] = ([], [])
read_word (c ∷ s) =
    let (word, rest) = read_word s in if is_word c then (c ∷ word, rest) else ([], c ∷ s)

-- `(?:\\.|[^\\()])*`, as long as it goes.
unfoldable pub read_items : Bytes → Bytes × Bytes
read_items [] = ([], [])
read_items (c ∷ []) = if is_one_of (codes "\\()") c then ([], c ∷ []) else (c ∷ [], [])
read_items (c ∷ d ∷ s) =
    let (after, rest) = read_items s in
    let (items, rest') = read_items (d ∷ s) in
    if c == b'\\'
    then (if is_line_end d then ([], c ∷ d ∷ s) else (c ∷ d ∷ after, rest))
    else (if is_one_of (codes "()") c then ([], c ∷ d ∷ s) else (c ∷ items, rest'))

-- The items and the bracket after them: at least one item.
close_group : Bytes × Bytes → Option (Bytes × Bytes)
close_group ([], rest) = none
close_group (c ∷ items, []) = none
close_group (c ∷ items, d ∷ rest) = if d == b')' then some (c ∷ items, rest) else none

-- `\(((?:\\.|[^\\()])+)\)`.
unfoldable pub read_group : Bytes → Option (Bytes × Bytes)
unfolding read_items close_group
read_group [] = none
read_group (c ∷ s) = if c == b'(' then close_group (read_items s) else none

-- `([+*?])?`.
unfoldable pub read_modifier : Bytes → Bytes × Bytes
read_modifier [] = ([], [])
read_modifier (c ∷ s) = if is_one_of (codes "+*?") c then (c ∷ [], s) else ([], c ∷ s)

-- The named branch after `:(\w+)`.
after_name : Bytes → Bytes → Groups × Bytes
unfolding read_group read_modifier
after_name word rest = elim (read_group rest) [
  | none ↦
      let (modifier, left) = read_modifier rest in
      (record { escaped = []; name = word; capture = []; group = []; modifier = modifier }, left)
  | some (body, rest') ↦
      let (modifier, left) = read_modifier rest' in
      (record { escaped = []; name = word; capture = body; group = []; modifier = modifier }, left)
]

named : Bytes × Bytes → Option (Groups × Bytes)
unfolding after_name
named ([], rest) = none
named (c ∷ word, rest) = some (after_name (c ∷ word) rest)

unnamed : Option (Bytes × Bytes) → Option (Groups × Bytes)
unfolding read_modifier
unnamed none = none
unnamed (some (body, rest)) =
    let (modifier, left) = read_modifier rest in
    some (record { escaped = []; name = []; capture = []; group = body; modifier = modifier }, left)

escape_at : Bytes → Option (Groups × Bytes)
escape_at [] = none
escape_at (d ∷ s) =
    if is_line_end d
    then none
    else some
        (record { escaped = b'\\' ∷ d ∷ []; name = []; capture = []; group = []; modifier = [] }, s)

-- The whole expression, at this place.
unfoldable pub match_at : Bytes → Option (Groups × Bytes)
unfolding read_word read_group named unnamed escape_at
match_at [] = none
match_at (c ∷ s) =
    if c == b'\\'
    then escape_at s
    else (if c == b':' then named (read_word s) else unnamed (read_group (c ∷ s)))

-- A match with what stands before it, after the match before, and all that follows.
pub record Match : Type 0 where
  pub prefix : Bytes
  pub groups : Groups
  pub suffix : Bytes

-- The first place from here on at which the expression matches.
unfoldable pub search_from : Bytes → Option Match
unfolding match_at
search_from [] = none
search_from (c ∷ s) =
    let later = search_from s in
    elim (match_at (c ∷ s)) [
      | some (groups, rest) ↦ some (record { prefix = []; groups = groups; suffix = rest })
      | none ↦ elim later [
        | none ↦ none
        | some m ↦ some (record { prefix = c ∷ m.prefix; groups = m.groups; suffix = m.suffix })
      ]
    ]

-- All matches. A match takes at least one character, so the length of the text is fuel enough.
unfoldable pub matches : ℕ → Bytes → List Match
unfolding search_from
matches zero text = []
matches (suc fuel) text = elim (search_from text) [ none ↦ [] | some m ↦ m ∷ matches fuel m.suffix ]
