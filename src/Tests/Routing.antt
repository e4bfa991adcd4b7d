-- ===== src/Tests/Routing.antt =====
-- Instances of the theorems on routes and on the router, with an engine that matches routes without
-- parameters.
use prj.Prelude.{
  str_eq, ℕ, ◌-◌, ◌≡◌, refl, ◌↔◌, true, none, some, [], ◌∷◌, Bytes, All, codes, length, take, drop,
  take-append, length-append, arith, if◌then◌else◌,
}
use prj.Prelude.Outcome.{ok}
use prj.Prelude.Throwing.{◌>>=◌}
use prj.RouteParams.{RouteParams}
use prj.MethodMatcher.{match, simple, live, http_method_get, http_method_post}
use prj.Path2Regex.Escape.{escape_string, unescape}
use prj.Path2Regex.Options.{default_options}
use prj.Path2Regex.Token.{add_named, add_indexed}
use prj.Path2Regex.Parse.{parse}
use prj.Path2Regex.Compile.{RegexEngine, route_text}
use prj.Path2Regex.Literal.{IsBare, literal_text, unescape-escape_string, route_text_bare}
use prj.Express.{RouteEntry, first_match}
use prj.Express.Choosing.{Chooses, first_match_iff}
use prj.Server.{game_post, App, call, rejected, reply_of, serve, server_handler}
use prj.Server.Engine.{Documented, same_path, author_text}
use prj.Server.Table.{lookup}
use prj.Server.Routes.{server_handler-serves, server_handler-rejects}
use prj.Tests.{toy_json, world, ask}

-- The route that an expression stands for.
abbrev stripped : Bytes → Bytes
stripped text = unescape (take (length text - 9) (drop 1 text))

stripped-literal_text : (route : Bytes) → stripped (literal_text route) ≡ route
stripped-literal_text route =
    let e : length (literal_text route) - 9 ≡ length (escape_string route) =
      omega (arith, length-append (escape_string route) (codes "(?:\\/)?$")) in
    rw (e, take-append (escape_string route) (codes "(?:\\/)?$")) (unescape-escape_string route)

abbrev toy_engine : RegexEngine
toy_engine = record {
  Regex = Bytes;
  max_capture_groups = 10;
  compile_regex = λ text is_sensitive. some text;
  try_match = λ target text.
      if same_path (stripped text) target then some ((0, length target) ∷ []) else none;
}

toy_engine-Documented : Documented toy_engine
toy_engine-Documented = record {
  enough = omega arith;
  regex_of = literal_text;
  compiles = λ path h. refl;
  matches = λ path target h. rw (stripped-literal_text path) refl;
  author = author_text;
  author_compiles = refl;
}

server_handler-serves_example :
    (router : App toy_engine) × (server_handler toy_engine (λ k. 1) 4 ≡ ok router)
    × (serve toy_engine toy_json router http_method_post
          (codes "/GAME/")
          (ask (codes "500") 1)
          (world none true)
        ≡ reply_of (call toy_json game_post (ask (codes "500") 1) (world none true)))
unfolding lookup same_path match str_eq
server_handler-serves_example =
    server_handler-serves toy_engine toy_engine-Documented (λ k. 1) 4 (codes "/GAME/")
      (omega arith, (omega arith, (omega arith, (omega arith, (omega arith, (omega arith, tt))))))
      toy_json (ask (codes "500") 1) (world none true) http_method_post game_post refl

server_handler-rejects_example :
    (router : App toy_engine) × (server_handler toy_engine (λ k. 1) 4 ≡ ok router)
    × (serve toy_engine toy_json router http_method_get (codes "/x") (ask [] 1) (world none true)
        ≡ (ok rejected, world none true))
unfolding lookup same_path match str_eq
server_handler-rejects_example =
    server_handler-rejects toy_engine toy_engine-Documented (λ k. 1) 4 (codes "/x")
      (omega arith, (omega arith, tt)) toy_json (ask [] 1) (world none true) refl

abbrev entry : Bytes → RouteEntry Bytes ℕ
entry path = record {
  method_matcher = live (simple http_method_get);
  route_regex = literal_text path;
  appenders = [];
  route_handler = length path;
}

abbrev whole : Bytes → RouteParams
whole target = record {
  request_target = target;
  match = target;
  named_parameters = [];
  indexed_parameters = [];
}

first_match_iff_example :
    (first_match toy_engine
        (entry (codes "/a") ∷ entry (codes "/b") ∷ [])
        http_method_get
        (codes "/b")
      ≡ ok (some (2, whole (codes "/b"))))
    ↔ Chooses toy_engine http_method_get
        (codes "/b")
        (entry (codes "/a") ∷ entry (codes "/b") ∷ [])
        2
        (whole (codes "/b"))
first_match_iff_example =
    first_match_iff toy_engine http_method_get (codes "/b")
      (entry (codes "/a") ∷ entry (codes "/b") ∷ []) 2 (whole (codes "/b"))

-- An engine of one answer: a whole match and one capture.
abbrev one_capture : RegexEngine
one_capture = record {
  Regex = Unit {0};
  max_capture_groups = 10;
  compile_regex = λ text is_sensitive. some tt;
  try_match = λ target regex. some ((0, 3) ∷ (1, 3) ∷ []);
}

abbrev two_params : RouteEntry (Unit {0}) ℕ
two_params = record {
  method_matcher = live (simple http_method_get);
  route_regex = tt;
  appenders = add_named (codes "id") ∷ add_indexed ∷ [];
  route_handler = 1;
}

abbrev captured : RouteParams
captured = record {
  request_target = codes "/ab";
  match = codes "/ab";
  named_parameters = (codes "id", codes "ab") ∷ [];
  indexed_parameters = [] ∷ [];
}

ab-IsBare : All IsBare (codes "/a")
ab-IsBare = ((omega arith, omega arith, omega arith), ((omega arith, omega arith, omega arith), tt))

route_text_bare_example :
    (parse (codes "/a") default_options >>= λ tokens.
    route_text 5 (codes "/a") tokens default_options)
    ≡ ok (codes "^\\/a(?:\\/)?$", [])
unfolding escape_string
route_text_bare_example = route_text_bare 5 (codes "/a") ab-IsBare refl (omega arith)
