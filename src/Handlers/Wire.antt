-- ===== src/Handlers/Wire.antt =====
-- The responses of the handlers of web/restinio/sample/express_router/main.cpp as a client reads them.
use prj.Prelude.{◌+◌, ◌≡◌, ap, ◌∙◌, some, Bytes, length, arith}
use prj.Prelude.Outcome.{Outcome, ok}
use prj.Headers.FieldName.Printed.{field_to_string}
use prj.Headers.Fields.{Fields}
use prj.Headers.Message.{StatusLine, status_ok}
use prj.Headers.Text.{add_content_length}
use prj.Headers.Text.Reading.{
  OneLine, CleanFields, header_lines, read_lines, read_lines-create_header_string,
}
use prj.Settings.{JsonDto, Selected, settings_txt, set_game_html, set_players_html, read_file}
use prj.Response.{Sent}
use prj.Response.Sizes.{joined}
use prj.Handlers.{Request, World, on_home, on_set_game, on_set_players, on_settings}
use prj.Handlers.Answers.{Answers, common_fields, header_of}
use prj.Handlers.Pages.{show_pages, on_home-Answers}

-- The items that are handed to the connection read as the lines of this header and then this body.
pub record Reads (r : Outcome Sent) (req : Request) (status : StatusLine) (fields : Fields)
    (body : Bytes) : Type 0 where
  pub sent : Sent
  pub outcome : r ≡ ok sent
  pub read :
      read_lines (4 + length fields) (joined sent.group.items)
      ≡ some (header_lines (header_of req status fields (length body)) add_content_length, body)

-- A client reads what is sent for such a response.
pub read_answer :
    {r : Outcome Sent} {req : Request} {status : StatusLine} {fields : Fields} {body : Bytes}
    (a : Answers r req status fields body)
    → OneLine status.reason_phrase
    → CleanFields fields
    → read_lines (4 + length fields) (joined a.sent.group.items)
      ≡ some (header_lines (header_of req status fields (length body)) add_content_length, body)
read_answer {req = req} {status = status} {fields = fields} {body = body} a reason clean =
    ap (read_lines (4 + length fields)) a.written
    ∙ read_lines-create_header_string (header_of req status fields (length body)) add_content_length
        body (4 + length fields)
        (record { reason = reason; fields = clean; major = omega arith; minor = omega arith })
        (omega arith)

Answers-Reads :
    {r : Outcome Sent} {req : Request} {status : StatusLine} {fields : Fields} {body : Bytes}
    → Answers r req status fields body
    → OneLine status.reason_phrase
    → CleanFields fields
    → Reads r req status fields body
Answers-Reads a reason clean = record {
  sent = a.sent;
  outcome = a.outcome;
  read = read_answer a reason clean;
}

pub common_fields-CleanFields : (req : Request) → OneLine req.now → CleanFields (common_fields req)
unfolding field_to_string
common_fields-CleanFields req now =
    (omega arith, ((omega arith, now), (omega arith, (omega arith, tt))))

pub ok-OneLine : OneLine status_ok.reason_phrase
ok-OneLine = omega arith

-- A client that reads what GET of `/players`, `/game` and `/settings` sends, at a time whose text is one
-- line, gets the status line 200 OK, whether the connection is kept, the length of the body and the
-- common fields, each on a line of its own, and then the content of the file and nothing more.
pub pages-Reads :
    (req : Request) (w : World)
    → OneLine req.now
    → Reads
        (on_set_players req w).0
        req
        status_ok
        (common_fields req)
        (read_file set_players_html w.store.disk)
      × Reads
          (on_set_game req w).0
          req
          status_ok
          (common_fields req)
          (read_file set_game_html w.store.disk)
      × Reads
          (on_settings req w).0
          req
          status_ok
          (common_fields req)
          (read_file settings_txt w.store.disk)
pages-Reads req w now =
    let clean = common_fields-CleanFields req now in
    let (players, game, settings) = show_pages req w in
    (
      Answers-Reads players.0 ok-OneLine clean,
      Answers-Reads game.0 ok-OneLine clean,
      Answers-Reads settings.0 ok-OneLine clean,
    )

-- Likewise for GET of `/` with readable settings, whose body is their JSON.
on_home-Reads :
    (json : JsonDto) (req : Request) (w : World) (s : Selected)
    → OneLine req.now
    → json.from_json_selected (read_file settings_txt w.store.disk) ≡ some s
    → Reads (on_home json req w).0 req status_ok (common_fields req) (json.to_json s)
on_home-Reads json req w s now e =
    Answers-Reads (on_home-Answers json req w s e).0 ok-OneLine (common_fields-CleanFields req now)
