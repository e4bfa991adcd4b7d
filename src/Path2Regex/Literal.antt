-- ===== src/Path2Regex/Literal.antt =====
-- Escaping, routes without parameters and the captures of routes, in
-- web/restinio/restinio/path2regex/path2regex.hpp.
use prj.Prelude.{
  ℕ, zero, suc, ◌+◌, ◌≤◌, ◌≡◌, refl, ap, ◌∙◌, ◌≢◌, Bool, true, false, none, List, [], ◌∷◌, ◌++◌,
  arith, Bytes, ltb, str_eq, if◌then◌else◌, Bool-cases, inl, inr, length, length-append, codes, All,
}
use prj.Prelude.Outcome.{ok, throws}
use prj.Prelude.Throwing.{◌>>=◌, >>=-eq-ok}
use prj.Path2Regex.Escape.{escape_by, in_regex, escape_string, unescape}
use prj.Path2Regex.Options.{Options, default_options}
use prj.Path2Regex.Token.{Appender, Token, plain_string, parameter, Built, append_self_to}
use prj.Path2Regex.Scan.{match_at, search_from, matches}
use prj.Path2Regex.Parse.{
  holds, check_no_unescaped_brackets, start, push_path, parse_matches, parse,
}
use prj.Path2Regex.Compile.{append_all, route_text}

unescape-cons : (c : ℕ) (s : Bytes) → c ≢ b'\\' → unescape (c ∷ s) ≡ c ∷ unescape s
unescape-cons c [] h = refl
unescape-cons c (d ∷ s) h = ground arith

unescape-escape_by :
    (special : ℕ → Bool) (s : Bytes) → special b'\\' ≡ true → unescape (escape_by special s) ≡ s
unfolding escape_by
unescape-escape_by special [] h = refl
unescape-escape_by special (c ∷ s) h = elim (Bool-cases (special c)) [
  | inl t ↦ rw t (ap (◌∷◌ c) (unescape-escape_by special s h))
  | inr f ↦ rw f (
      unescape-cons c (escape_by special s) (λ e. let k = rw e at f in cc)
      ∙ ap (◌∷◌ c) (unescape-escape_by special s h))
]

-- Taking the backslashes out again gives back any string that `escape_string` has escaped.
pub unescape-escape_string : (s : Bytes) → unescape (escape_string s) ≡ s
unfolding escape_string
unescape-escape_string s = unescape-escape_by in_regex s refl

-- A character that starts no parameter, no group and no escape.
abbrev pub IsBare : ℕ → Type 0
IsBare c = (c ≢ b'\\') × (c ≢ b':') × (c ≢ b'(')

match_at_bare : (c : ℕ) (s : Bytes) → IsBare c → match_at (c ∷ s) ≡ none
unfolding match_at
match_at_bare c s h = ground arith

search_from_bare : (s : Bytes) → All IsBare s → search_from s ≡ none
unfolding search_from
search_from_bare [] h = refl
search_from_bare (c ∷ s) h = rw (match_at_bare c s h.0, search_from_bare s h.1, search_from) refl

matches_bare : (fuel : ℕ) (s : Bytes) → All IsBare s → matches fuel s ≡ []
unfolding matches
matches_bare zero s h = refl
matches_bare (suc fuel) s h = rw (search_from_bare s h, matches) refl

holds_bare : (s : Bytes) → All IsBare s → holds b'(' s ≡ false
holds_bare [] h = refl
holds_bare (c ∷ s) h = ground (arith, holds_bare s h.1)

check_bare :
    (s : Bytes)
    → All IsBare s
    → check_no_unescaped_brackets s ≡ (if holds b')' s then throws else ok s)
unfolding check_no_unescaped_brackets
check_bare s h = rw (holds_bare s h, check_no_unescaped_brackets) refl

-- A route with no backslash, colon or opening bracket is refused if it has a closing one, and is else
-- one token, or none if it is empty.
parse_bare :
    (route : Bytes) (o : Options)
    → All IsBare route
    → parse route o ≡ (if holds b')' route then throws else ok (push_path (start route)).tokens)
unfolding parse parse_matches
parse_bare route o h =
    rw (parse, matches_bare (length route) route h, check_bare route h)
      (elim (Bool-cases (holds b')' route)) [ inl t ↦ rw t refl | inr f ↦ rw f refl ])

-- How many of the tokens capture.
abbrev pub captures : List Token → ℕ
captures [] = 0
captures (plain_string path last ∷ ts) = captures ts
captures (parameter _ _ _ _ _ _ _ ∷ ts) = suc (captures ts)

captures-cons : (t : Token) (ts : List Token) → captures (t ∷ ts) ≡ captures (t ∷ []) + captures ts
captures-cons (plain_string path last) ts = omega arith
captures-cons (parameter _ _ _ _ _ _ _) ts = omega arith

self-captures :
    (capacity : ℕ) (t : Token) (b b' : Built)
    → append_self_to capacity t b ≡ ok b'
    → (length b'.appenders ≡ length b.appenders + captures (t ∷ []))
      × (b'.groups ≡ b.groups + captures (t ∷ []))
unfolding append_self_to
self-captures capacity (plain_string path last) b b' e = ground arith
self-captures capacity (parameter setter p d opt rep part pat) b b' e =
    ground (arith, length-append b.appenders (setter ∷ []))

append_all-captures :
    (capacity : ℕ) (ts : List Token) (b b' : Built)
    → append_all capacity ts b ≡ ok b'
    → (length b'.appenders ≡ length b.appenders + captures ts)
      × (b'.groups ≡ b.groups + captures ts)
unfolding append_all
append_all-captures capacity [] b b' e = ground arith
append_all-captures capacity (t ∷ ts) b b' e =
    let (next, one, more) = >>=-eq-ok (append_self_to capacity t b) (append_all capacity ts) e in
    let (more_appenders, more_groups) = append_all-captures capacity ts next b' more in
    let (one_appender, one_group) = self-captures capacity t b next one in
    (omega (arith, captures-cons t ts), omega (arith, captures-cons t ts))

-- A route that compiles has one appender for each token that captures, and no more captures, the whole
-- match counted, than the engine allows.
route_text-captures :
    (max_groups : ℕ) (path : Bytes) (tokens : List Token) (o : Options) (text : Bytes)
    (appenders : List Appender)
    → route_text max_groups path tokens o ≡ ok (text, appenders)
    → (length appenders ≡ captures tokens) × (length appenders + 1 ≤ max_groups)
unfolding route_text
route_text-captures max_groups path tokens o text appenders e =
    let (b, built, rest) =
      >>=-eq-ok
        (append_all (length path) tokens
          (record { route = []; appenders = []; names = 0; groups = 1 }))
        _ e in
    let (count, groups) = append_all-captures (length path) tokens _ b built in ground arith

enough_groups : (max_groups : ℕ) → 1 ≤ max_groups → ltb max_groups 1 ≡ false
enough_groups max_groups m = ground arith

-- The expression of a route that is one plain token, or none.
abbrev pub literal_text : Bytes → Bytes
literal_text route = codes "^" ++ (escape_string route ++ codes "(?:\\/)?$")

route_text_plain :
    (max_groups : ℕ) (route : Bytes)
    → 1 ≤ max_groups
    → route_text max_groups route (push_path (start route)).tokens default_options
      ≡ ok (literal_text route, [])
unfolding route_text push_path escape_string str_eq
route_text_plain max_groups [] m = rw (enough_groups max_groups m) refl
route_text_plain max_groups (c ∷ s) m = rw (enough_groups max_groups m) refl

-- A route with no backslash, colon or bracket becomes the anchored expression of its escaped
-- characters, with an optional slash at the end, and captures nothing.
pub route_text_bare :
    (max_groups : ℕ) (route : Bytes)
    → All IsBare route
    → holds b')' route ≡ false
    → 1 ≤ max_groups
    → (parse route default_options >>= λ tokens. route_text max_groups route tokens default_options)
      ≡ ok (literal_text route, [])
route_text_bare max_groups route h k m =
    rw (parse_bare route default_options h, k) (route_text_plain max_groups route m)
