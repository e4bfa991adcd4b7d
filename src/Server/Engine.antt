-- ===== src/Server/Engine.antt =====
-- What the routes of web/restinio/sample/express_router/main.cpp rely on in a regex engine, and the
-- entries that `add_handler` makes of them.
use prj.Prelude.{
  ℕ, ◌+◌, ◌-◌, ◌≤◌, ◌≡◌, refl, Bool, true, false, ◌&&◌, ◌||◌, none, some, List, [], ◌∷◌, ◌++◌, map,
  Bytes, All, leb, ltb, arith, str_eq, if◌then◌else◌, Bool-cases, inl, inr, length, codes, take,
  take_all,
}
use prj.Prelude.Outcome.{ok}
use prj.Prelude.Throwing.{◌>>=◌, >>=-eq-ok}
use prj.RouteParams.{RouteParams}
use prj.MethodMatcher.{MethodId, Matcher, match, null, Holder, holder_match}
use prj.MethodMatcher.Holding.{assign-match}
use prj.Path2Regex.Options.{default_options}
use prj.Path2Regex.Token.{Appender, add_named}
use prj.Path2Regex.Parse.{holds, parse}
use prj.Path2Regex.Compile.{RegexEngine, route_text, tokens2regexp, path2regex}
use prj.Path2Regex.Literal.{IsBare, literal_text, route_text_bare}
use prj.Express.{
  RouteEntry, Router, add_submatches, add_empty, submatch, matched, match_route, entry_match,
  add_handler,
}

-- Case is ignored, and a slash at the end is optional.
abbrev pub lower : ℕ → ℕ
lower c = if leb b'A' c && leb c b'Z' then c + 32 else c

unfoldable pub same_path : Bytes → Bytes → Bool
same_path route target =
    str_eq (map lower target) (map lower route)
    || str_eq (map lower target) (map lower (route ++ codes "/"))

-- A route that has no parameters.
abbrev pub IsLiteral : Bytes → Type 0
IsLiteral route = All IsBare route × (holds b')' route ≡ false)

abbrev pub author_route : Bytes
author_route = codes "/author/:author"

abbrev pub author_text : Bytes
author_text = codes "^\\/author\\/((?:[^\\/]+?))(?:\\/)?$"

-- The documented behaviour of an engine on the expressions that the application has. The expression of
-- a route without parameters matches as a whole the targets that are the route.
pub record Documented (engine : RegexEngine) : Type 0 where
  pub enough : 2 ≤ engine.max_capture_groups
  pub regex_of : Bytes → engine.Regex
  pub compiles :
      (path : Bytes)
      → IsLiteral path
      → engine.compile_regex (literal_text path) false ≡ some (regex_of path)
  pub matches :
      (path target : Bytes)
      → IsLiteral path
      → engine.try_match target (regex_of path)
        ≡ (if same_path path target then some ((0, length target) ∷ []) else none)
  pub author : engine.Regex
  pub author_compiles : engine.compile_regex author_text false ≡ some author

route_text_author :
    (n : ℕ)
    → 2 ≤ n
    → (parse author_route default_options >>= λ tokens.
        route_text n author_route tokens default_options)
      ≡ ok (author_text, add_named (codes "author") ∷ [])
unfolding parse route_text str_eq
route_text_author n h = let t : ltb n 2 ≡ false = ground arith in rw t refl

module _ (engine : RegexEngine) where
  open engine use {Regex, compile_regex, max_capture_groups}

  compiled :
      (path text : Bytes) (appenders : List Appender) (r : Regex)
      → (parse path default_options >>= λ tokens.
          route_text max_capture_groups path tokens default_options)
        ≡ ok (text, appenders)
      → compile_regex text false ≡ some r
      → path2regex engine path default_options ≡ ok (r, appenders)
  unfolding path2regex tokens2regexp
  compiled path text appenders r e c =
      let (tokens, parsed, built) = >>=-eq-ok (parse path default_options) _ e in
      rw (parsed, built, c) refl

  module _ (doc : Documented engine) where
    pub path2regex-literal :
        (path : Bytes)
        → IsLiteral path
        → path2regex engine path default_options ≡ ok (doc.regex_of path, [])
    path2regex-literal path h =
        compiled path (literal_text path) [] (doc.regex_of path)
          (route_text_bare max_capture_groups path h.0 h.1 (let k = doc.enough in omega arith))
          (doc.compiles path h)

    pub path2regex-author :
        path2regex engine author_route default_options
        ≡ ok (doc.author, add_named (codes "author") ∷ [])
    path2regex-author =
        compiled author_route author_text _ doc.author
          (route_text_author max_capture_groups doc.enough) doc.author_compiles

-- The parameters of a match of a route that has none.
abbrev pub bare_params : Bytes → RouteParams
bare_params target = record {
  request_target = target;
  match = target;
  named_parameters = [];
  indexed_parameters = [];
}

matched-whole :
    (target : Bytes) → matched target [] ((0, length target) ∷ []) ≡ ok (bare_params target)
unfolding matched submatch add_submatches add_empty
matched-whole target =
    let t : leb (length target) (length target) ≡ true = ground arith in
    let all : take (length target) target ≡ target =
      take_all (length target) target (omega arith) in
    let z : leb 0 (length target) ≡ true = ground arith in
    let n : length target - 0 ≡ length target = omega arith in rw (z, t, n, all) refl

-- An entry that takes the requests that its matcher and its route, which has no parameters, match.
pub record IsEntry (engine : RegexEngine) {H : Type 0} (matcher : Matcher) (path : Bytes) (h : H)
    (entry : RouteEntry engine.Regex H) : Type 0 where
  pub takes :
      (m : MethodId) (target : Bytes)
      → entry_match engine entry m target ≡ (
          if match matcher m && same_path path target
          then ok (some (bare_params target))
          else ok none)
  pub has_handler : entry.route_handler ≡ h

module _ (engine : RegexEngine) (doc : Documented engine) {H : Type 0} (path : Bytes) (h : H) where
  literal-match_route :
      (holder : Holder) (target : Bytes)
      → IsLiteral path
      → match_route engine
          (record {
            method_matcher = holder;
            route_regex = doc.regex_of path;
            appenders = [];
            route_handler = h;
          })
          target
        ≡ (if same_path path target then ok (some (bare_params target)) else ok none)
  unfolding match_route
  literal-match_route holder target l = elim (Bool-cases (same_path path target)) [
    | inl t ↦ rw (match_route, doc.matches path target l, t, matched-whole target) refl
    | inr f ↦ rw (match_route, doc.matches path target l, f) refl
  ]

  literal-IsEntry :
      (matcher : Matcher) (holder : Holder)
      → IsLiteral path
      → ((m : MethodId) → holder_match holder m ≡ ok (match matcher m))
      → IsEntry engine matcher path h (record {
        method_matcher = holder;
        route_regex = doc.regex_of path;
        appenders = [];
        route_handler = h;
      })
  unfolding entry_match
  literal-IsEntry matcher holder l answers = record {
    takes = λ m target. elim (Bool-cases (match matcher m)) [
      | inl t ↦ rw (answers m, t, literal-match_route holder target l) refl
      | inr f ↦ rw (answers m, f) refl
    ];
    has_handler = refl;
  }

  module _ {N : Type 0} (size_of : Matcher → ℕ) (buffer_size : ℕ) (matcher : Matcher) where
    -- A route without parameters is added at the end.
    pub add_handler-IsEntry :
        (router : Router engine.Regex H N)
        → IsLiteral path
        → (entry : RouteEntry engine.Regex H) × (add_handler engine size_of buffer_size matcher path
              default_options h router
            ≡ ok (record router { handlers = router.handlers ++ entry ∷ [] }))
          × IsEntry engine matcher path h entry
    unfolding add_handler
    add_handler-IsEntry router l =
        let (holder, stored, answers) = assign-match size_of buffer_size null matcher (λ e. cc) in
        (
          record {
            method_matcher = holder;
            route_regex = doc.regex_of path;
            appenders = [];
            route_handler = h;
          },
          rw (path2regex-literal engine doc path l, stored) refl,
          literal-IsEntry matcher holder l answers,
        )
