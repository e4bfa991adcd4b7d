-- ===== src/Response.antt =====
-- The response builder that the handlers use, `response_builder_t<restinio_controlled_output_t>` and
-- its base class, of web/restinio/restinio/message_builders.hpp. A writable item is its bytes.
pub mod Sizes
pub mod UserControlled
pub mod Chunked
use prj.Prelude.{
  ℕ, ◌+◌, Bool, true, false, not, List, [], ◌∷◌, ◌++◌, Option, Bytes, ltb, if◌then◌else◌, length,
  take, set,
}
use prj.Prelude.Outcome.{Outcome, ok, throws}
use prj.Headers.FieldId.{HttpField}
use prj.Headers.Fields.{HeaderField}
use prj.Headers.Fields.ByName
use prj.Headers.Fields.ById
use prj.Headers.Message.{
  StatusLine, ResponseHeader, response_header, should_keep_alive, set_keep_alive,
}
use prj.Headers.Text.{create_header_string, add_content_length}
use prj.Contexts.{WriteGroup, OutputFlags}

-- `m_connection` is kept as whether it is set.
pub record Builder : Type 0 where
  pub header : ResponseHeader
  pub connected : Bool
  pub request_id : ℕ
  pub body_size : ℕ
  pub parts : List Bytes

-- The header that `base_response_builder_t` starts with.
abbrev pub initial_header : StatusLine → Bool → ResponseHeader
initial_header status_line keep_alive = set_keep_alive keep_alive (response_header status_line)

-- `req->create_response( status_line )`.
abbrev pub create_response : StatusLine → Bool → ℕ → Builder
create_response status_line keep_alive request_id = record {
  header = initial_header status_line keep_alive;
  connected = true;
  request_id = request_id;
  body_size = 0;
  parts = [];
}

-- The overloads of `append_header`, on the header of a builder.
abbrev pub append_header : HttpField → Bytes → ResponseHeader → ResponseHeader
append_header field_id value h = record h { fields = ById.add_field field_id value h.fields }

abbrev pub append_named_header : Bytes → Bytes → ResponseHeader → ResponseHeader
append_named_header name value h = record h { fields = ByName.add_field name value h.fields }

abbrev pub append_header_field : HeaderField → ResponseHeader → ResponseHeader
append_header_field field h = record h { fields = h.fields ++ field ∷ [] }

-- `append_header_date_field`, at the text of a time point.
abbrev pub append_header_date_field : Bytes → ResponseHeader → ResponseHeader
append_header_date_field now h = record h { fields = ById.set_field HttpField.date now h.fields }

abbrev pub connection_close : ResponseHeader → ResponseHeader
connection_close h = set_keep_alive false h

-- `connection_keep_alive` calls `should_keep_alive()`, which reads the member and changes nothing.
abbrev pub connection_keep_alive : ResponseHeader → ResponseHeader
connection_keep_alive h = h

-- `header().status_line( … )`.
abbrev pub set_status_line : StatusLine → ResponseHeader → ResponseHeader
set_status_line status_line h = record h { status_line = status_line }

abbrev pub set_content_length : ℕ → ResponseHeader → ResponseHeader
set_content_length n h = record h { content_length = n }

-- A call of a method of the base class.
abbrev pub on_header : (ResponseHeader → ResponseHeader) → Builder → Builder
on_header change b = record b { header = change b.header }

-- `calculate_status_line_size`.
abbrev pub calculate_status_line_size : ResponseHeader → ℕ
calculate_status_line_size h = 8 + 1 + 3 + 1 + length h.status_line.reason_phrase

-- `if_neccessary_reserve_first_element_for_header`.
abbrev pub reserve_header : List Bytes → List Bytes
reserve_header [] = [] ∷ []
reserve_header (p ∷ parts) = p ∷ parts

-- `set_body`.
unfoldable pub set_body : Bytes → Builder → Builder
set_body body b =
    let first : List Bytes = take 1 (reserve_header b.parts) in
    record b {
      parts = if ltb 0 (length body) then first ++ body ∷ [] else first;
      body_size = length body;
    }

-- `append_body`.
unfoldable pub append_body : Bytes → Builder → Builder
append_body body b =
    let parts : List Bytes = reserve_header b.parts in
    if ltb 0 (length body)
    then record b { parts = parts ++ body ∷ []; body_size = b.body_size + length body }
    else record b { parts = parts }

-- What a call of `write_response_parts` hands to the connection.
pub record Sent : Type 0 where
  pub request_id : ℕ
  pub flags : OutputFlags
  pub group : WriteGroup

-- `done( wscb )`: it moves the connection out of the builder, so that a second call throws.
unfoldable pub done : Option ℕ → Builder → Outcome Sent × Builder
done wscb b =
    let header : ResponseHeader = set_content_length b.body_size b.header in
    let sent : Sent = record {
      request_id = b.request_id;
      flags = record { final_parts = true; connection_close = not (should_keep_alive header) };
      group = record {
        items = set (reserve_header b.parts) 0 (create_header_string header add_content_length);
        status_line_size = calculate_status_line_size header;
        after_write_notificator = wscb;
      };
    } in
    if b.connected
    then (ok sent, record b { header = header; parts = []; connected = false })
    else (throws, b)
