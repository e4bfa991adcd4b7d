-- ===== src/Path2Regex/Parse.antt =====
-- `check_no_unescaped_brackets`, `handle_param_token` and `parse` of
-- web/restinio/restinio/path2regex/path2regex.hpp. Positions, which only the texts of the exceptions
-- show, are left out. A string that has been moved from is empty.
use prj.Prelude.{
  ℕ, Bool, true, false, not, ◌&&◌, ◌||◌, List, [], ◌∷◌, ◌++◌, Bytes, str_eq, if◌then◌else◌, length,
  take, codes,
}
use prj.Prelude.Outcome.{Outcome, ok, throws}
use prj.Prelude.Throwing.{◌>>=◌}
use prj.Path2Regex.Escape.{escape_string, escape_group, is_one_of}
use prj.Path2Regex.Options.{Options, make_delimiter}
use prj.Path2Regex.Token.{Token, add_named, add_indexed, back, create_plain, create_parameter}
use prj.Path2Regex.Scan.{Groups, Match, matches}

abbrev pub is_empty : Bytes → Bool
is_empty [] = true
is_empty (c ∷ s) = false

-- `strv.find( c ) != npos`.
abbrev pub holds : ℕ → Bytes → Bool
holds c s = is_one_of s c

unfoldable pub check_no_unescaped_brackets : Bytes → Outcome Bytes
check_no_unescaped_brackets strv =
    if holds b'(' strv then throws else (if holds b')' strv then throws else ok strv)

-- All but the last character.
abbrev pub drop_back : Bytes → Bytes
drop_back [] = []
drop_back (c ∷ []) = []
drop_back (c ∷ d ∷ s) = c ∷ drop_back (d ∷ s)

-- The variables of the loop of `parse`.
pub record Parsing : Type 0 where
  pub path : Bytes
  pub path_escaped : Bool
  pub tokens : List Token

-- The lambda `create_pattern`.
unfoldable pub create_pattern : Bytes → Bytes → Bytes
unfolding escape_group escape_string
create_pattern delimiter pattern =
    if not (is_empty pattern)
    then escape_group pattern
    else codes "[^" ++ (escape_string delimiter ++ codes "]+?")

-- The first `if` of `handle_param_token`: whether the last character of the path is the prefix.
abbrev pub has_prefix : Options → Parsing → Bool
has_prefix options st =
    (not st.path_escaped && not (is_empty st.path))
    && is_one_of options.path_delimiters (back st.path)

-- The second: what has been read of a plain string becomes a token.
unfoldable pub push_path : Parsing → Parsing
unfolding create_plain
push_path st =
    if not (is_empty st.path)
    then record { path = []; path_escaped = false; tokens = st.tokens ++ create_plain st.path ∷ [] }
    else st

-- The token of a match.
unfoldable pub param_token : Options → Match → Bytes → Token
unfolding create_pattern create_parameter
param_token options m prefix =
    let g : Groups = m.groups in
    let next : Bytes = take 1 m.suffix in
    let partial : Bool =
      (not (is_empty prefix) && not (is_empty next)) && not (str_eq prefix next) in
    let optional : Bool = str_eq g.modifier (codes "?") || str_eq g.modifier (codes "*") in
    let repeat : Bool = str_eq g.modifier (codes "+") || str_eq g.modifier (codes "*") in
    let delimiter : Bytes = make_delimiter prefix options in
    if not (is_empty g.name)
    then create_parameter (add_named g.name) prefix delimiter optional repeat partial
        (create_pattern delimiter g.capture)
    else create_parameter add_indexed prefix delimiter optional repeat partial
        (create_pattern delimiter g.group)

unfoldable pub handle_param_token : Options → Match → Parsing → Parsing
unfolding push_path param_token
handle_param_token options m st =
    let prefix : Bytes = if has_prefix options st then back st.path ∷ [] else [] in
    let cut : Parsing =
      if has_prefix options st then record st { path = drop_back st.path } else st in
    let pushed : Parsing = push_path cut in
    record pushed { tokens = pushed.tokens ++ param_token options m prefix ∷ [] }

-- `if( !escaped.empty() ) … else handle_param_token( … )`.
unfoldable pub take_match : Options → Match → Bytes → Parsing → Parsing
unfolding handle_param_token
take_match options m [] st = handle_param_token options m st
take_match options m (c ∷ []) st = handle_param_token options m st
take_match options m (c ∷ d ∷ s) st = record st { path = st.path ++ d ∷ []; path_escaped = true }

-- The `while` loop over the matches; after the last one the rest of the route is added to the path.
unfoldable pub parse_loop : Options → List Match → Parsing → Outcome Parsing
unfolding check_no_unescaped_brackets take_match
parse_loop options [] st = ok st
parse_loop options (m ∷ []) st = do
  prefix ← check_no_unescaped_brackets m.prefix
  let read = take_match options m m.groups.escaped (record st { path = st.path ++ prefix })
  suffix ← check_no_unescaped_brackets m.suffix
  ok (record read { path = read.path ++ suffix })
parse_loop options (m ∷ m' ∷ ms) st = do
  prefix ← check_no_unescaped_brackets m.prefix
  parse_loop options (m' ∷ ms)
      (take_match options m m.groups.escaped (record st { path = st.path ++ prefix }))

abbrev pub start : Bytes → Parsing
start path = record { path = path; path_escaped = false; tokens = [] }

-- What stands before the loop.
unfoldable pub parse_matches : Options → Bytes → List Match → Outcome Parsing
unfolding parse_loop check_no_unescaped_brackets
parse_matches options route [] = do path ← check_no_unescaped_brackets route; ok (start path)
parse_matches options route (m ∷ ms) = parse_loop options (m ∷ ms) (start [])

unfoldable pub parse : Bytes → Options → Outcome (List Token)
unfolding parse_matches matches push_path
parse route options = do
  st ← parse_matches options route (matches (length route) route)
  ok (push_path st).tokens
