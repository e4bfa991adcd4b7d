-- ===== src/Path2Regex/Compile.antt =====
-- `tokens2regexp` and `path2regex` of web/restinio/restinio/path2regex/path2regex.hpp. The regex engine is a template parameter of the source, and one of
-- the model.
use prj.Prelude.{
  ℕ, Bool, true, not, Option, none, some, List, [], ◌∷◌, ◌++◌, Bytes, ltb, str_eq, if◌then◌else◌,
  length, codes,
}
use prj.Prelude.Outcome.{Outcome, ok, throws}
use prj.Prelude.Throwing.{◌>>=◌}
use prj.Path2Regex.Escape.{escape_string}
use prj.Path2Regex.Options.{Options, make_ends_with}
use prj.Path2Regex.Token.{Token, Appender, is_end_delimited, Built, append_self_to}
use prj.Path2Regex.Parse.{parse}

-- `Regex_Engine`: a match is the list of the begin and end positions of all groups, the whole first.
pub record RegexEngine : Type 1 where
  pub Regex : Type 0
  pub max_capture_groups : ℕ
  pub compile_regex : Bytes → Bool → Option Regex
  pub try_match : Bytes → Regex → Option (List (ℕ × ℕ))

-- The loop over the tokens.
unfoldable pub append_all : ℕ → List Token → Built → Outcome Built
unfolding append_self_to
append_all capacity [] b = ok b
append_all capacity (t ∷ ts) b = do b' ← append_self_to capacity t b; append_all capacity ts b'

-- Whether the last token ends with a delimiter.
abbrev pub last_delimited : List Token → Bytes → Bool
last_delimited [] delimiters = true
last_delimited (t ∷ []) delimiters = is_end_delimited t delimiters
last_delimited (t ∷ t' ∷ ts) delimiters = last_delimited (t' ∷ ts) delimiters

-- What the expression gets after the tokens.
unfoldable pub finish_route : Options → List Token → Bytes → Bytes
unfolding make_ends_with escape_string
finish_route options tokens route =
    let delimiter : Bytes = escape_string options.path_delimiter in
    let ends_with : Bytes = make_ends_with options in
    if options.is_ending
    then (let tail : Bytes =
          if not options.is_strict then codes "(?:" ++ (delimiter ++ codes ")?") else [] in
        route
        ++ (tail
            ++ (if str_eq ends_with (codes "$")
                then codes "$"
                else codes "(?=" ++ (ends_with ++ codes ")"))))
    else (let tail : Bytes =
          if not options.is_strict
          then codes "(?:" ++ (delimiter ++ (codes "(?=" ++ (ends_with ++ codes "))?")))
          else [] in
        route
        ++ (tail
            ++ (if not (last_delimited tokens options.path_delimiters)
                then codes "(?=" ++ (delimiter ++ (codes "|" ++ (ends_with ++ codes ")")))
                else [])))

-- The text of the expression and the appenders. The buffer of names has at least the capacity that is
-- asked for, the length of the path.
unfoldable pub route_text : ℕ → Bytes → List Token → Options → Outcome (Bytes × List Appender)
unfolding append_all finish_route
route_text max_groups path tokens options = do
  b ← append_all (length path) tokens (record { route = []; appenders = []; names = 0; groups = 1 })
  (if ltb max_groups b.groups
      then throws
      else ok (codes "^" ++ finish_route options tokens b.route, b.appenders))

module _ (engine : RegexEngine) where
  open engine use {Regex, max_capture_groups, compile_regex}

  unfoldable pub tokens2regexp : Bytes → List Token → Options → Outcome (Regex × List Appender)
  unfolding route_text
  tokens2regexp path tokens options = do
    (text, appenders) ← route_text max_capture_groups path tokens options
    (elim (compile_regex text options.is_sensitive) [
      | none ↦ throws
      | some regex ↦ ok (regex, appenders)
    ])

  unfoldable pub path2regex : Bytes → Options → Outcome (Regex × List Appender)
  unfolding parse tokens2regexp
  path2regex path options = do tokens ← parse path options; tokens2regexp path tokens options
