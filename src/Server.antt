-- ===== src/Server.antt =====
-- `server_handler` of web/restinio/sample/express_router/main.cpp: the routes of the application, and
-- a request on its way from the router to a handler.

pub mod Engine
pub mod Table
pub mod Building
pub mod Routes
use prj.Prelude.{ℕ, Bool, Option, none, some, List, [], ◌∷◌, Bytes, codes}
use prj.Prelude.Outcome.{Outcome, ok, throws, undefined, unfinished, M}
use prj.Prelude.Throwing.{◌>>=◌}
use prj.RouteParams.{RouteParams}
use prj.MethodMatcher.{
  MethodId, Matcher, simple, none_of_methods, http_method_get, http_method_post,
  http_method_options,
}
use prj.Path2Regex.Options.{default_options}
use prj.Path2Regex.Compile.{RegexEngine}
use prj.Settings.{JsonDto}
use prj.Headers.Message.{status_method_not_allowed}
use prj.Response.{create_response, connection_close, on_header, Sent}
use prj.Handlers.{
  Request, World, Handler, finish, on_set_players, on_set_game, on_settings, on_home,
  on_players_post, on_game_post, on_start_game, options,
}
use prj.Express.{
  Router, Routed, handle, non_matched, not_handled, no_routes, route, add_handler, http_get,
  http_post,
}

-- The lambda `method_not_allowed`.
unfoldable pub method_not_allowed : Handler
method_not_allowed req w =
    finish
      (on_header connection_close
        (create_response status_method_not_allowed req.keep_alive req.request_id))
      w

-- The functions that `server_handler` hands to the router.
pub data Endpoint : Type 0 where
  home set_game set_players start_game settings players_post game_post options_call : Endpoint
  not_allowed : Endpoint

abbrev pub call : JsonDto → Endpoint → Handler
call json home = on_home json
call json set_game = on_set_game
call json set_players = on_set_players
call json start_game = on_start_game json
call json settings = on_settings
call json players_post = on_players_post json
call json game_post = on_game_post json
call json options_call = options
call json not_allowed = method_not_allowed

-- What becomes of a request: a response, or the router leaves it to the server.
pub data Reply : Type 0 where
  answered : Sent → Reply
  rejected : Reply

abbrev pub reply_of : Outcome Sent × World → Outcome Reply × World
reply_of (ok sent, w) = (ok (answered sent), w)
reply_of (throws, w) = (throws, w)
reply_of (undefined, w) = (undefined, w)
reply_of (unfinished, w) = (unfinished, w)

-- The call of the chosen handler. The application sets none for requests that match no route.
unfoldable pub dispatched : JsonDto → Request → Outcome (Routed Endpoint (Unit {0})) → M World Reply
dispatched json req (ok (handle endpoint params)) w = reply_of (call json endpoint req w)
dispatched json req (ok (non_matched _)) w = (ok rejected, w)
dispatched json req (ok not_handled) w = (ok rejected, w)
dispatched json req throws w = (throws, w)
dispatched json req undefined w = (undefined, w)
dispatched json req unfinished w = (unfinished, w)

abbrev pub App : RegexEngine → Type 0
App engine = Router engine.Regex Endpoint (Unit {0})

module _ (engine : RegexEngine) (size_of : Matcher → ℕ) (buffer_size : ℕ) where
  get : Bytes → Endpoint → App engine → Outcome (App engine)
  unfolding add_handler
  get path h router = http_get engine size_of buffer_size path default_options h router

  post : Bytes → Endpoint → App engine → Outcome (App engine)
  unfolding add_handler
  post path h router = http_post engine size_of buffer_size path default_options h router

  other : Matcher → Bytes → Endpoint → App engine → Outcome (App engine)
  unfolding add_handler
  other matcher path h router =
      add_handler engine size_of buffer_size matcher path default_options h router

  -- `server_handler`.
  unfoldable pub server_handler : Outcome (App engine)
  unfolding get post other
  server_handler =
      get (codes "/") home no_routes
      >>= get (codes "/game") set_game
      >>= get (codes "/players") set_players
      >>= get (codes "/startgame") start_game
      >>= get (codes "/settings") settings
      >>= post (codes "/players") players_post
      >>= post (codes "/game") game_post
      >>= other (simple http_method_options) (codes "/") options_call
      >>= other (none_of_methods (http_method_get ∷ http_method_post ∷ [])) (codes "/api")
          not_allowed
      >>= other (none_of_methods (http_method_get ∷ [])) (codes "/author/:author") not_allowed

-- A request with this method and path.
unfoldable pub serve :
    (engine : RegexEngine) → JsonDto → App engine → MethodId → Bytes → Request → M World Reply
unfolding route dispatched
serve engine json router method_id path req w =
    dispatched json req (route engine router method_id path) w
