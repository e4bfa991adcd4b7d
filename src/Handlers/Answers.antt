-- ===== src/Handlers/Answers.antt =====
-- The responses of the handlers of web/restinio/sample/express_router/main.cpp.
use prj.Prelude.{
  ℕ, ◌≡◌, refl, ap, ◌∙◌, Bool, true, false, not, [], ◌∷◌, ◌++◌, none, Bytes, codes, length,
}
use prj.Prelude.Outcome.{Outcome, ok}
use prj.Headers.FieldId.{HttpField}
use prj.Headers.Fields.{Fields, of_id}
use prj.Headers.Message.{
  StatusLine, status_ok, status_bad_request, ResponseHeader, connection_for, is_keep_alive,
  should_keep_alive,
}
use prj.Headers.Text.{create_header_string, add_content_length}
use prj.Response.{Builder, set_status_line, on_header, set_body, Sent}
use prj.Response.Sizes.{joined, HasBody, set_body-HasBody, done-HasBody}
use prj.Handlers.{Request, World, init_resp, begin, finish, mark_as_bad_request}

-- The fields that `init_resp` sets.
abbrev pub common_fields : Request → Fields
common_fields req =
    of_id HttpField.server (codes "RESTinio sample server /v.0.6")
    ∷ of_id HttpField.date req.now
    ∷ of_id HttpField.content_type (codes "text/html; charset=utf-8")
    ∷ of_id HttpField.access_control_allow_origin (codes "*")
    ∷ []

-- The header of a response to this request with this status, these fields and a body of this length.
abbrev pub header_of : Request → StatusLine → Fields → ℕ → ResponseHeader
header_of req status fields content_length = record {
  status_line = status;
  fields = fields;
  http_major = 1;
  http_minor = 1;
  content_length = content_length;
  connection = connection_for req.keep_alive;
}

-- The outcome is a response to this request with this status, these fields and this body: the text of
-- its header, which announces the length of the body, then the body, and no more parts.
pub record Answers (r : Outcome Sent) (req : Request) (status : StatusLine) (fields : Fields)
    (body : Bytes) : Type 0 where
  pub sent : Sent
  pub outcome : r ≡ ok sent
  pub written :
      joined sent.group.items
      ≡ create_header_string (header_of req status fields (length body)) add_content_length ++ body
  pub addressed : sent.request_id ≡ req.request_id
  pub final_parts : sent.flags.final_parts ≡ true
  pub closes : sent.flags.connection_close ≡ not req.keep_alive

-- A builder that stands for such a response.
pub record Stands (b : Builder) (req : Request) (status : StatusLine) (fields : Fields)
    (body : Bytes) : Type 0 where
  pub has_body : HasBody b body
  pub headed : b.header ≡ header_of req status fields 0
  pub addressed : b.request_id ≡ req.request_id

pub begin-Stands : (req : Request) → Stands (begin req) req status_ok (common_fields req) []
unfolding init_resp
begin-Stands req = record {
  has_body = record { laid_out = refl; sized = refl; open_connection = refl };
  headed = refl;
  addressed = refl;
}

keep_for : (keep : Bool) → is_keep_alive (connection_for keep) ≡ keep
keep_for true = refl
keep_for false = refl

module _ {b : Builder} {req : Request} {status : StatusLine} {fields : Fields} {body : Bytes}
    (v : Stands b req status fields body) where
  pub set_body-Stands : (new : Bytes) → Stands (set_body new b) req status fields new
  unfolding set_body
  set_body-Stands new = record {
    has_body = set_body-HasBody b body v.has_body new;
    headed = v.headed;
    addressed = v.addressed;
  }

  -- A change of the header leaves the body.
  pub on_header-Stands :
      (change : ResponseHeader → ResponseHeader) (status' : StatusLine) (fields' : Fields)
      → change (header_of req status fields 0) ≡ header_of req status' fields' 0
      → Stands (on_header change b) req status' fields' body
  on_header-Stands change status' fields' e = record {
    has_body = record {
      laid_out = v.has_body.laid_out;
      sized = v.has_body.sized;
      open_connection = v.has_body.open_connection;
    };
    headed = ap change v.headed ∙ e;
    addressed = v.addressed;
  }

  pub bad_request-Stands : Stands (mark_as_bad_request b) req status_bad_request fields body
  bad_request-Stands =
      on_header-Stands (set_status_line status_bad_request) status_bad_request fields refl

  pub finish-Answers : (w : World) → Answers (finish b w).0 req status fields body
  finish-Answers w =
      let s = done-HasBody none b body v.has_body in
      record {
        sent = s.sent;
        outcome = s.outcome;
        written =
            s.written
            ∙ ap (λ h. create_header_string h add_content_length ++ body)
                (ap (λ (h : ResponseHeader). record h { content_length = b.body_size }) v.headed
                  ∙ ap (header_of req status fields) v.has_body.sized);
        addressed = s.addressed ∙ v.addressed;
        final_parts = s.final_parts;
        closes =
            s.connection_close
            ∙ ap (λ (h : ResponseHeader). not (should_keep_alive h)) v.headed
            ∙ ap not (keep_for req.keep_alive);
      }
