-- ===== src/Handlers/Pages.antt =====
-- The handlers of GET and OPTIONS of web/restinio/sample/express_router/main.cpp.
use prj.Prelude.{◌≡◌, refl, none, some, [], ◌∷◌, ◌++◌, codes}
use prj.Settings.{
  Selected, Store, JsonDto, FileName, home_html, set_game_html, set_players_html, settings_txt,
  read_file, retrieve_selected,
}
use prj.Headers.FieldId.{HttpField}
use prj.Headers.Fields.{of_id}
use prj.Headers.Message.{status_ok, status_bad_request}
use prj.Handlers.{
  Request, World, show_file, on_set_players, on_set_game, on_settings, on_home, preflight_fields,
  options,
}
use prj.Handlers.Answers.{
  Answers, common_fields, begin-Stands, set_body-Stands, bad_request-Stands, on_header-Stands,
  finish-Answers,
}

pub show_file-Answers :
    (name : FileName) (req : Request) (w : World)
    → Answers
        (show_file name req w).0
        req
        status_ok
        (common_fields req)
        (read_file name w.store.disk)
      × ((show_file name req w).1 ≡ w)
unfolding show_file
show_file-Answers name req w =
    (finish-Answers (set_body-Stands (begin-Stands req) (read_file name w.store.disk)) w, refl)

-- GET of `/players`, `/game` and `/settings` answers 200 with the content of its file, an empty body
-- if the file does not open, with the common fields, and changes nothing.
pub show_pages :
    (req : Request) (w : World)
    → (Answers
          (on_set_players req w).0
          req
          status_ok
          (common_fields req)
          (read_file set_players_html w.store.disk)
        × ((on_set_players req w).1 ≡ w))
      × (Answers
            (on_set_game req w).0
            req
            status_ok
            (common_fields req)
            (read_file set_game_html w.store.disk)
          × ((on_set_game req w).1 ≡ w))
      × (Answers
            (on_settings req w).0
            req
            status_ok
            (common_fields req)
            (read_file settings_txt w.store.disk)
          × ((on_settings req w).1 ≡ w))
unfolding on_set_players on_set_game on_settings
show_pages req w = (
  show_file-Answers set_players_html req w,
  show_file-Answers set_game_html req w,
  show_file-Answers settings_txt req w,
)

module _ (json : JsonDto) (req : Request) (w : World) where
  -- GET of `/` with readable settings answers 200 with the JSON of what the settings file says, not
  -- with the home page, and makes that the selection in memory.
  pub on_home-Answers :
      (s : Selected)
      → json.from_json_selected (read_file settings_txt w.store.disk) ≡ some s
      → let store : Store = w.store in
        Answers (on_home json req w).0 req status_ok (common_fields req) (json.to_json s)
        × ((on_home json req w).1 ≡ record w { store = record store { selected = s } })
  unfolding on_home retrieve_selected
  on_home-Answers s e =
      let store : Store = w.store in
      let w' : World = record w { store = record store { selected = s } } in
      rw (on_home, retrieve_selected, e)
        (
          finish-Answers
              (set_body-Stands
                (set_body-Stands (begin-Stands req) (read_file home_html w.store.disk))
                (json.to_json s))
              w',
          refl,
        )

  -- GET of `/` with settings that do not parse answers 400, with the home page for a body, and changes
  -- nothing.
  pub on_home_bad_settings :
      json.from_json_selected (read_file settings_txt w.store.disk) ≡ none
      → Answers
          (on_home json req w).0
          req
          status_bad_request
          (common_fields req)
          (read_file home_html w.store.disk)
        × ((on_home json req w).1 ≡ w)
  unfolding on_home retrieve_selected
  on_home_bad_settings e =
      rw (on_home, retrieve_selected, e)
        (
          finish-Answers
              (bad_request-Stands
                (set_body-Stands (begin-Stands req) (read_file home_html w.store.disk)))
              w,
          refl,
        )

-- OPTIONS of `/` answers 200 with no body and, after the common fields, what a browser asks for
-- before a request from another site; it changes nothing.
pub options-Answers :
    (req : Request) (w : World)
    → Answers
        (options req w).0
        req
        status_ok
        (common_fields req
          ++ of_id HttpField.access_control_allow_methods
              (codes "OPTIONS, GET, POST, PATCH, DELETE")
            ∷ of_id HttpField.access_control_allow_headers (codes "content-type")
            ∷ of_id HttpField.access_control_max_age (codes "86400")
            ∷ [])
        []
      × ((options req w).1 ≡ w)
unfolding options preflight_fields
options-Answers req w =
    (finish-Answers (on_header-Stands (begin-Stands req) preflight_fields status_ok _ refl) w, refl)
