-- ===== src/Handlers/Delivered.antt =====
-- A response of web/restinio/sample/express_router/main.cpp all the way: from its handler through a
-- connection to a client that reads it.
use prj.Prelude.{ℕ, ◌+◌, ◌<◌, ◌≡◌, ap, ◌∙◌, Bool, some, [], ◌∷◌, ◌++◌, List, Bytes, length, arith}
use prj.Prelude.Outcome.{Outcome, ok, ◌>>◌}
use prj.Headers.Fields.{Fields}
use prj.Headers.Message.{StatusLine, ResponseHeader, status_ok}
use prj.Headers.Text.{ContentLengthPresence, add_content_length, create_header_string, status_text}
use prj.Headers.Text.Reading.{CleanFields, OneLine, header_lines, read_lines}
use prj.Settings.{JsonDto, Selected, settings_txt, read_file}
use prj.Response.{Sent}
use prj.Response.Sizes.{joined}
use prj.Connection.{Connection, new_connection, step, request, accepted}
use prj.Connection.Delivery.{handed_over, writes, first_is_delivered}
use prj.Handlers.{Request, World, on_home}
use prj.Handlers.Answers.{Answers, common_fields, header_of}
use prj.Handlers.Pages.{on_home-Answers}
use prj.Handlers.Wire.{read_answer, ok-OneLine, common_fields-CleanFields}

-- The response is handed to a new connection as the answer to its first request, some write operations
-- end well, and what the connection has handed over by then reads as the lines of this header and
-- then this body.
pub record Receives (max_iov_len : ℕ) (r : Outcome Sent) (req : Request) (status : StatusLine)
    (fields : Fields) (body : Bytes) : Type 0 where
  pub sent : Sent
  pub outcome : r ≡ ok sent
  pub addressed : sent.request_id ≡ 0
  pub operations : ℕ
  pub connection : Connection
  pub run :
      (step max_iov_len (request ((sent.flags, sent.group) ∷ []) accepted)
          >> writes max_iov_len operations)
        (new_connection 1)
      ≡ (ok tt, connection)
  pub read :
      read_lines (4 + length fields) (joined (handed_over connection.events))
      ≡ some (header_lines (header_of req status fields (length body)) add_content_length, body)

-- The text of a header is not empty.
has_items :
    (items : List Bytes) (h : ResponseHeader) (presence : ContentLengthPresence) (body : Bytes)
    → joined items ≡ create_header_string h presence ++ body
    → 0 < length items
unfolding create_header_string status_text
has_items [] h presence body e = cc
has_items (item ∷ items) h presence body e = omega arith

Answers-Receives :
    {r : Outcome Sent} {req : Request} {status : StatusLine} {fields : Fields} {body : Bytes}
    (max_iov_len : ℕ)
    → 0 < max_iov_len
    → req.request_id ≡ 0
    → Answers r req status fields body
    → OneLine status.reason_phrase
    → CleanFields fields
    → Receives max_iov_len r req status fields body
Answers-Receives {fields = fields} max_iov_len room first a reason clean =
    let (n, d, done, items) =
      first_is_delivered max_iov_len a.sent.flags.connection_close a.sent.group room
        (has_items a.sent.group.items _ _ _ a.written) in
    record {
      sent = a.sent;
      outcome = a.outcome;
      addressed = a.addressed ∙ first;
      operations = n;
      connection = d;
      run =
          ap
            (λ (b : Bool).
              (step max_iov_len (
                    request
                      ((
                        record {
                          final_parts = b;
                          connection_close = a.sent.flags.connection_close;
                        },
                        a.sent.group,
                      )
                        ∷ [])
                      accepted)
                  >> writes max_iov_len n)
                (new_connection 1))
            a.final_parts
          ∙ done;
      read =
          ap (λ all. read_lines (4 + length fields) (joined all)) items
          ∙ read_answer a reason clean;
    }

-- GET of `/` with readable settings as the first request of a connection, at a time whose text is one line:
-- the client gets the status line 200 OK, whether the connection is kept, the length of the body and the
-- common fields, each on a line of its own, and then the JSON of the settings and nothing more, however
-- many buffers a write operation takes, if it is at least one and the operations end well.
pub home_is_received :
    (json : JsonDto) (req : Request) (w : World) (s : Selected) (max_iov_len : ℕ)
    → 0 < max_iov_len
    → req.request_id ≡ 0
    → OneLine req.now
    → json.from_json_selected (read_file settings_txt w.store.disk) ≡ some s
    → Receives max_iov_len (on_home json req w).0 req status_ok (common_fields req) (json.to_json s)
home_is_received json req w s max_iov_len room first now e =
    Answers-Receives max_iov_len room first (on_home-Answers json req w s e).0 ok-OneLine
      (common_fields-CleanFields req now)
