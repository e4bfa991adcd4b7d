-- ===== src/Path2Regex/Token.antt =====
-- The tokens of web/restinio/restinio/path2regex/path2regex.hpp, and what each adds to an expression.
use prj.Prelude.{
  ℕ, ◌+◌, ◌-◌, Bool, false, List, [], ◌∷◌, ◌++◌, Bytes, ltb, if◌then◌else◌, length, codes,
}
use prj.Prelude.Outcome.{Outcome, ok, throws}
use prj.Path2Regex.Escape.{escape_string, is_one_of}

-- What is done with a capture: `make_param_setter` at a name and at an index.
pub data Appender : Type 0 where
  add_named : Bytes → Appender
  add_indexed : Appender

-- `plain_string_token_t` with its escaped path and its last character, and `parameter_token_t`.
pub data Token : Type 0 where
  plain_string : Bytes → ℕ → Token
  parameter :
      (setter : Appender) (escaped_prefix delimiter : Bytes) (optional repeat partial : Bool)
      (pattern : Bytes)
      → Token

-- `std::string::back`; it is not called on an empty path.
abbrev pub back : Bytes → ℕ
back [] = 0
back (c ∷ []) = c
back (c ∷ d ∷ s) = back (d ∷ s)

unfoldable pub create_plain : Bytes → Token
unfolding escape_string
create_plain path = plain_string (escape_string path) (back path)

unfoldable pub create_parameter : Appender → Bytes → Bytes → Bool → Bool → Bool → Bytes → Token
unfolding escape_string
create_parameter setter prefix delimiter optional repeat partial pattern =
    parameter setter (escape_string prefix) delimiter optional repeat partial pattern

-- The virtual function `is_end_delimited`.
abbrev pub is_end_delimited : Token → Bytes → Bool
is_end_delimited (plain_string path last) delimiters = is_one_of delimiters last
is_end_delimited (parameter _ _ _ _ _ _ _) delimiters = false

-- What the regular expression gets for a parameter.
unfoldable pub capture : Bytes → Bool → Bool → Bool → Bytes → Bytes
capture prefix optional repeat partial pattern =
    let basic : Bytes = codes "(?:" ++ (pattern ++ codes ")") in
    let repeated : Bytes =
      if repeat then basic ++ (codes "(?:" ++ (prefix ++ (basic ++ codes ")*"))) else basic in
    if optional
    then (if partial
        then prefix ++ (codes "(" ++ (repeated ++ codes ")?"))
        else codes "(?:" ++ (prefix ++ (codes "(" ++ (repeated ++ codes "))?"))))
    else prefix ++ (codes "(" ++ (repeated ++ codes ")"))

-- The state of the loop over the tokens: the expression, the appenders, how many bytes of names the
-- buffer holds, and the number of capture groups.
pub record Built : Type 0 where
  pub route : Bytes
  pub appenders : List Appender
  pub names : ℕ
  pub groups : ℕ

-- `append_name`, into a buffer of this capacity: the number of bytes that it holds afterwards.
unfoldable pub append_name : ℕ → Appender → ℕ → Outcome ℕ
append_name capacity (add_named name) used =
    if ltb (capacity - used) (length name) then throws else ok (used + length name)
append_name capacity add_indexed used = ok used

-- `append_self_to` and the count of the groups.
unfoldable pub append_self_to : ℕ → Token → Built → Outcome Built
unfolding capture append_name
append_self_to capacity (plain_string path last) b = ok (record b { route = b.route ++ path })
append_self_to capacity (parameter setter prefix delimiter optional repeat partial pattern) b =
    elim (append_name capacity setter b.names) [
      | ok used ↦ ok (record {
        route = b.route ++ capture prefix optional repeat partial pattern;
        appenders = b.appenders ++ setter ∷ [];
        names = used;
        groups = b.groups + 1;
      })
      | _ ↦ throws
    ]
