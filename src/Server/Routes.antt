-- ===== src/Server/Routes.antt =====
-- `server_handler` of web/restinio/sample/express_router/main.cpp: which handler a request gets to.
use prj.Prelude.{ℕ, ◌≡◌, refl, ◌∙◌, none, some, [], ◌∷◌, ◌++◌, Bytes}
use prj.Prelude.Outcome.{ok}
use prj.RouteParams.{RouteParams}
use prj.MethodMatcher.{MethodId, Matcher, http_method_get}
use prj.Path2Regex.Compile.{RegexEngine}
use prj.Uri.Normalizing.{HasNoPercent, target_path_plain}
use prj.Settings.{JsonDto}
use prj.Handlers.{Request, World}
use prj.Express.{first_match, route}
use prj.Express.Choosing.{first_match-none_iff, skip-first_match}
use prj.Server.{Endpoint, call, rejected, reply_of, dispatched, App, server_handler, serve}
use prj.Server.Table.{rows, lookup}
use prj.Server.Engine.{Documented, bare_params}
use prj.Server.Building.{first_match-lookup, before-first_match, server_handler-entries}

-- A router that hands each request that fits a row of the table to the handler of the first such row,
-- and leaves every other GET request to the server.
record IsWired (engine : RegexEngine) (router : App engine) : Type 0 where
  answers :
      (m : MethodId) (path : Bytes) (e : Endpoint)
      → HasNoPercent path
      → lookup rows m path ≡ some e
      → (json : JsonDto) (req : Request) (w : World)
      → serve engine json router m path req w ≡ reply_of (call json e req w)
  rejects :
      (path : Bytes)
      → HasNoPercent path
      → lookup rows http_method_get path ≡ none
      → (json : JsonDto) (req : Request) (w : World)
      → serve engine json router http_method_get path req w ≡ (ok rejected, w)

module _ (engine : RegexEngine) (router : App engine)
    (none_set : router.non_matched_handler ≡ none) where
  serve-handle :
      (m : MethodId) (path : Bytes) (e : Endpoint) (p : RouteParams)
      → HasNoPercent path
      → first_match engine router.handlers m path ≡ ok (some (e, p))
      → (json : JsonDto) (req : Request) (w : World)
      → serve engine json router m path req w ≡ reply_of (call json e req w)
  unfolding serve route dispatched
  serve-handle m path e p h found json req w = rw (target_path_plain path h, found) refl

  serve-rejected :
      (m : MethodId) (path : Bytes)
      → HasNoPercent path
      → first_match engine router.handlers m path ≡ ok none
      → (json : JsonDto) (req : Request) (w : World)
      → serve engine json router m path req w ≡ (ok rejected, w)
  unfolding serve route dispatched
  serve-rejected m path h found json req w = rw (target_path_plain path h, found, none_set) refl

server_handler-IsWired :
    (engine : RegexEngine) (doc : Documented engine) (size_of : Matcher → ℕ) (buffer_size : ℕ)
    → (router : App engine) × (server_handler engine size_of buffer_size ≡ ok router)
      × IsWired engine router
server_handler-IsWired engine doc size_of buffer_size =
    let (before, entry, built, s, none_set, misses) =
      server_handler-entries engine doc size_of buffer_size in
    let router : App engine = record before { handlers = before.handlers ++ entry ∷ [] } in
    (
      router,
      built,
      record {
        answers = λ m path e h row_of.
            serve-handle engine router none_set m path e (bare_params path) h (
              before-first_match engine before.handlers (entry ∷ []) m path e (bare_params path)
                (first_match-lookup engine before.handlers rows m path s ∙ rw row_of refl));
        rejects = λ path h no_row. serve-rejected engine router none_set http_method_get path h (
            skip-first_match engine http_method_get path before.handlers (entry ∷ []) (
              (first_match-none_iff engine http_method_get path before.handlers).0 (
                first_match-lookup engine before.handlers rows http_method_get path s
                ∙ rw no_row refl))
            ∙ (first_match-none_iff engine http_method_get path (entry ∷ [])).1 (misses path, tt));
      },
    )

module _ (engine : RegexEngine) (doc : Documented engine) (size_of : Matcher → ℕ) (buffer_size : ℕ)
    (path : Bytes) (no_percent : HasNoPercent path) (json : JsonDto) (req : Request)
    (w : World) where
  -- With an engine that does what its documentation says, `server_handler` builds a router without an
  -- error, and a request whose method and path, which has no percent sign, fit a row of the table gets
  -- what the handler of the first such row makes of it.
  pub server_handler-serves :
      (m : MethodId) (e : Endpoint)
      → lookup rows m path ≡ some e
      → (router : App engine) × (server_handler engine size_of buffer_size ≡ ok router)
        × (serve engine json router m path req w ≡ reply_of (call json e req w))
  server_handler-serves m e h =
      let (router, built, wired) = server_handler-IsWired engine doc size_of buffer_size in
      (router, built, wired.answers m path e no_percent h json req w)

  -- With an engine that does what its documentation says, `server_handler` builds a router without an
  -- error, and a GET request whose path, which has no percent sign, fits no row of the table is left to
  -- the server and changes nothing.
  pub server_handler-rejects :
      lookup rows http_method_get path ≡ none
      → (router : App engine) × (server_handler engine size_of buffer_size ≡ ok router)
        × (serve engine json router http_method_get path req w ≡ (ok rejected, w))
  server_handler-rejects h =
      let (router, built, wired) = server_handler-IsWired engine doc size_of buffer_size in
      (router, built, wired.rejects path no_percent h json req w)
