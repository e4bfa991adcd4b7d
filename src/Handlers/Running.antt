-- ===== src/Handlers/Running.antt =====
-- Runs of the handlers of web/restinio/sample/express_router/main.cpp, and what they are to make of the
-- selection.
use prj.Prelude.{
  ◌≡◌, [], ◌∷◌, Bool, true, false, Option, none, some, List, Bytes, leb, length, not, ◌||◌,
  if◌then◌else◌,
}
use prj.Prelude.Outcome.{Outcome, ok, throws, undefined, unfinished, M}
use prj.Psoc.{message_temp, c_str, format}
use prj.Settings.{Selected, Store, JsonDto}
use prj.Response.{Sent}
use prj.Handlers.{
  Request, World, Handler, on_set_players, on_set_game, on_settings, on_home, on_players_post,
  on_game_post, on_start_game, options,
}
use prj.Handlers.Posting.{with_game, with_players}

-- The requests that the application answers, by handler.
pub data Action : Type 0 where
  home set_game set_players settings start_game game_post players_post options_call : Action

abbrev pub handler : JsonDto → Action → Handler
handler json home = on_home json
handler json set_game = on_set_game
handler json set_players = on_set_players
handler json settings = on_settings
handler json start_game = on_start_game json
handler json game_post = on_game_post json
handler json players_post = on_players_post json
handler json options_call = options

-- The outcome of a run after a request: an exception that leaves a handler ends only its connection,
-- while nothing can be said behind undefined behaviour.
unfoldable pub proceed : M World (Unit {0}) → Outcome Sent × World → Outcome (Unit {0}) × World
proceed rest (ok _, w) = rest w
proceed rest (throws, w) = rest w
proceed rest (undefined, w) = (undefined, w)
proceed rest (unfinished, w) = (unfinished, w)

-- A run of the application on one thread: each request is handled to its end before the next.
unfoldable pub run : JsonDto → List (Action × Request) → M World (Unit {0})
unfolding proceed
run json [] w = (ok tt, w)
run json ((a, req) ∷ calls) w = proceed (run json calls) (handler json a req w)

-- A message that does not fit into the array of `startSpil`, or that `sprintf` cannot take.
abbrev pub is_none : Option Bytes → Bool
is_none none = true
is_none (some _) = false

unfoldable pub overruns : Selected → Bool
unfolding message_temp c_str format
overruns s =
    let message : Bytes = c_str (message_temp s.game.game s.players.players) in
    not (leb (length message) 4) || is_none (format message)

-- What a request makes of the selection; `none` is undefined behaviour.
unfoldable pub select : JsonDto → Action → Request → Selected → Option Selected
unfolding overruns
select json game_post req s = elim (json.from_json_game req.body) [
  | none ↦ some s
  | some g ↦ some (with_game g s)
]
select json players_post req s = elim (json.from_json_players req.body) [
  | none ↦ some s
  | some p ↦ some (with_players p s)
]
select json start_game req s = if overruns s then none else some s
select json _ req s = some s

unfoldable pub select_all : JsonDto → List (Action × Request) → Selected → Option Selected
unfolding select
select_all json [] s = some s
select_all json ((a, req) ∷ calls) s = elim (select json a req s) [
  | none ↦ none
  | some s' ↦ select_all json calls s'
]

-- The settings file holds the selection in memory, and can be written.
pub record IsSaved (json : JsonDto) (s : Store) : Type 0 where
  pub same : s.disk.settings ≡ some (json.to_json s.selected)
  pub writable : s.disk.writable ≡ true

-- With undefined behaviour exactly where that is foretold, and else to its end, the selection in memory
-- and in the settings file as foretold.
pub data Agrees (json : JsonDto) : Option Selected → Outcome (Unit {0}) × World → Type 0 where
  overrun : {w : World} → Agrees json none (undefined, w)
  in_step : {w : World} → IsSaved json w.store → Agrees json (some w.store.selected) (ok tt, w)
