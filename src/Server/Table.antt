-- ===== src/Server/Table.antt =====
-- The table of routes of `server_handler` in web/restinio/sample/express_router/main.cpp.
use prj.Prelude.{
  ◌≡◌, refl, Bool, true, not, ◌||◌, ◌==◌, ◌&&◌, Option, none, some, List, [], ◌∷◌, Bytes,
  if◌then◌else◌, codes, arith,
}
use prj.MethodMatcher.{
  MethodId, Matcher, match, simple, none_of_methods, http_method_get, http_method_post,
  http_method_options,
}
use prj.Path2Regex.Literal.{IsBare}
use prj.Server.{
  Endpoint, home, set_game, set_players, start_game, settings, players_post, game_post,
  options_call, not_allowed,
}
use prj.Server.Engine.{same_path, IsLiteral}

-- A row of the table of routes: these methods on this path go there.
pub record Row : Type 0 where
  pub methods : Matcher
  pub path : Bytes
  pub endpoint : Endpoint

abbrev pub row : Matcher → Bytes → Endpoint → Row
row methods path endpoint = record { methods = methods; path = path; endpoint = endpoint }

-- The table of the application.
abbrev pub rows : List Row
rows =
    row (simple http_method_get) (codes "/") home
    ∷ row (simple http_method_get) (codes "/game") set_game
    ∷ row (simple http_method_get) (codes "/players") set_players
    ∷ row (simple http_method_get) (codes "/startgame") start_game
    ∷ row (simple http_method_get) (codes "/settings") settings
    ∷ row (simple http_method_post) (codes "/players") players_post
    ∷ row (simple http_method_post) (codes "/game") game_post
    ∷ row (simple http_method_options) (codes "/") options_call
    ∷ row (none_of_methods (http_method_get ∷ http_method_post ∷ [])) (codes "/api") not_allowed
    ∷ []

-- The first row that a request fits.
unfoldable pub lookup : List Row → MethodId → Bytes → Option Endpoint
lookup [] m target = none
lookup (r ∷ rs) m target =
    if match r.methods m && same_path r.path target then some r.endpoint else lookup rs m target

unfoldable pub is_bare : Bytes → Bool
is_bare [] = true
is_bare (c ∷ s) = not ((c == b'\\') || ((c == b':') || ((c == b'(') || (c == b')')))) && is_bare s

pub literal : (path : Bytes) → is_bare path ≡ true → IsLiteral path
unfolding is_bare
literal [] e = (tt, refl)
literal (c ∷ s) e =
    let rest : is_bare s ≡ true = ground arith in
    let (bare, closed) = literal s rest in
    let c_bare : IsBare c = ground arith in ((c_bare, bare), ground arith)
