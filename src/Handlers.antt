-- ===== src/Handlers.antt =====
-- The class `selected_handler_t` of web/restinio/sample/express_router/main.cpp. A handler gets the
-- request and the world, and its outcome is the response that it sends, or an exception that leaves
-- it. The route parameters, which no handler reads, are left out, and so is the console output.
pub mod Answers
pub mod Wire
pub mod Delivered
pub mod Pages
pub mod Posting
pub mod Running
pub mod Storing
pub mod Starting
use prj.Prelude.{ℕ, ◌≡◌, Bool, Option, none, some, List, Bytes, codes}
use prj.Prelude.Outcome.{Outcome, ok, throws, undefined, unfinished, M}
use prj.Psoc.{Psoc, start_spil}
use prj.Settings.{
  Selected, Store, JsonDto, FileName, home_html, set_game_html, set_players_html, start_game_html,
  settings_txt, read_file, retrieve_selected, save_selected,
}
use prj.Headers.FieldId.{HttpField}
use prj.Headers.Fields.ById
use prj.Headers.Message.{ResponseHeader, status_ok, status_bad_request}
use prj.Response.{
  Builder, create_response, append_header, append_header_date_field, set_status_line, on_header,
  set_body, Sent, done,
}

-- What a handler reads of a request: its body, its id, whether the connection is to be kept, and the
-- time at which it is handled, as a date field shows it.
pub record Request : Type 0 where
  pub body : Bytes
  pub request_id : ℕ
  pub keep_alive : Bool
  pub now : Bytes

-- The members of the handler: `m_selected` with the disk under `m_RPIdata`, and `m_PSoCcom`.
pub record World : Type 0 where
  pub store : Store
  pub psoc : Psoc

abbrev pub Handler : Type 0
Handler = Request → M World Sent

-- `init_resp`.
unfoldable pub init_fields : Bytes → ResponseHeader → ResponseHeader
unfolding ById.add_field ById.set_field
init_fields now h = append_header HttpField.access_control_allow_origin (codes "*") (
    append_header HttpField.content_type (codes "text/html; charset=utf-8") (
      append_header_date_field now
        (append_header HttpField.server (codes "RESTinio sample server /v.0.6") h)))

unfoldable pub init_resp : Bytes → Builder → Builder
unfolding init_fields
init_resp now resp = on_header (init_fields now) resp

-- `mark_as_bad_request`.
abbrev pub mark_as_bad_request : Builder → Builder
mark_as_bad_request resp = on_header (set_status_line status_bad_request) resp

-- `init_resp( req->create_response() )`.
abbrev pub begin : Request → Builder
begin req = init_resp req.now (create_response status_ok req.keep_alive req.request_id)

-- `return resp.done()`.
abbrev pub finish : Builder → M World Sent
finish resp w = ((done none resp).0, w)

-- The end of a handler whose `try` block came to this outcome: the response that the block has made,
-- or the one it had before the call that threw, marked as a bad request.
unfoldable pub caught : Outcome Builder → Builder → M World Sent
caught (ok resp) before w = finish resp w
caught throws before w = finish (mark_as_bad_request before) w
caught undefined before w = (undefined, w)
caught unfinished before w = (unfinished, w)

-- A handler that shows a file, and a `try` block around it in which nothing throws.
unfoldable pub show_file : FileName → Handler
unfolding caught
show_file name req w =
    caught (ok (set_body (read_file name w.store.disk) (begin req))) (begin req) w

unfoldable pub on_set_players : Handler
unfolding show_file
on_set_players req w = show_file set_players_html req w

unfoldable pub on_set_game : Handler
unfolding show_file
on_set_game req w = show_file set_game_html req w

unfoldable pub on_settings : Handler
unfolding show_file
on_settings req w = show_file settings_txt req w

-- `m_RPIdata->retrieveSelected()` and the rest of the `try` block of `on_home`.
after_retrieve : JsonDto → Builder → Outcome (Unit {0}) → World → Outcome Builder
after_retrieve json resp (ok _) w = ok (set_body (json.to_json w.store.selected) resp)
after_retrieve json resp throws w = throws
after_retrieve json resp undefined w = undefined
after_retrieve json resp unfinished w = unfinished

module _ (json : JsonDto) where
  unfoldable pub on_home : Handler
  unfolding after_retrieve caught
  on_home req w =
      let page : Builder = set_body (read_file home_html w.store.disk) (begin req) in
      let (r, store) = retrieve_selected json w.store in
      let w' : World = record w { store = store } in caught (after_retrieve json page r w') page w'

  -- A POST handler after `from_json`, which stands outside every `try` block: an exception leaves
  -- the handler, and no response is sent.
  saved : Request → Store → M World Sent
  saved req store w = finish (begin req) (record w { store = (save_selected json store).1 })

  unfoldable pub on_players_post : Handler
  unfolding saved
  on_players_post req w =
      let store : Store = w.store in
      let selected : Selected = store.selected in
      elim (json.from_json_players req.body) [
        | none ↦ (throws, w)
        | some p ↦ saved req (record store { selected = record selected { players = p } }) w
      ]

  unfoldable pub on_game_post : Handler
  unfolding saved
  on_game_post req w =
      let store : Store = w.store in
      let selected : Selected = store.selected in
      elim (json.from_json_game req.body) [
        | none ↦ (throws, w)
        | some p ↦ saved req (record store { selected = record selected { game = p } }) w
      ]

-- The `try` block of `on_start_game` after `startSpil`.
after_start : Request → Outcome (Unit {0}) → World → Outcome Builder
after_start req (ok _) w = ok (set_body (read_file start_game_html w.store.disk) (begin req))
after_start req throws w = throws
after_start req undefined w = undefined
after_start req unfinished w = unfinished

-- The `try` block of `on_start_game` after `retrieveSelected`.
pub start_selected : Request → Outcome (Unit {0}) → M World Builder
unfolding after_start
start_selected req (ok _) w =
    let (r, psoc) = start_spil w.store.selected.game.game w.store.selected.players.players w.psoc in
    let w' : World = record w { psoc = psoc } in (after_start req r w', w')
start_selected req throws w = (throws, w)
start_selected req undefined w = (undefined, w)
start_selected req unfinished w = (unfinished, w)

unfoldable pub on_start_game : JsonDto → Handler
unfolding start_selected caught
on_start_game json req w =
    let (r, store) = retrieve_selected json w.store in
    let w' : World = record w { store = store } in
    let (r', w'') = start_selected req r w' in caught r' (begin req) w''

-- The fields that `options` appends.
unfoldable pub preflight_fields : ResponseHeader → ResponseHeader
unfolding ById.add_field
preflight_fields h = append_header HttpField.access_control_max_age (codes "86400") (
    append_header HttpField.access_control_allow_headers (codes "content-type") (
      append_header HttpField.access_control_allow_methods
        (codes "OPTIONS, GET, POST, PATCH, DELETE") h))

unfoldable pub options : Handler
unfolding preflight_fields
options req w = finish (on_header preflight_fields (begin req)) w
