-- ===== src/Response/UserControlled.antt =====
-- `response_builder_t<user_controlled_output_t>` of web/restinio/restinio/message_builders.hpp: a body
-- that is sent in parts, and a header that goes out with the first of them.
pub mod Written
use prj.Prelude.{
  ℕ, Bool, true, false, not, ◌||◌, List, [], ◌∷◌, ◌++◌, Option, none, some, Bytes, ltb,
  if◌then◌else◌, length, take, set,
}
use prj.Prelude.Outcome.{Outcome, ok, throws}
use prj.Headers.Message.{StatusLine, ResponseHeader, should_keep_alive}
use prj.Headers.Text.{create_header_string, add_content_length}
use prj.Response.{initial_header, calculate_status_line_size, reserve_header, Sent}

pub record UserBuilder : Type 0 where
  pub header : ResponseHeader
  pub connected : Bool
  pub request_id : ℕ
  pub header_was_sent : Bool
  pub keep_alive_when_header_was_sent : Bool
  pub parts : List Bytes

abbrev pub create_user_response : StatusLine → Bool → ℕ → UserBuilder
create_user_response status_line keep_alive request_id = record {
  header = initial_header status_line keep_alive;
  connected = true;
  request_id = request_id;
  header_was_sent = false;
  keep_alive_when_header_was_sent = true;
  parts = [];
}

-- `set_content_length`, and the methods of the base class.
abbrev pub change_header : (ResponseHeader → ResponseHeader) → UserBuilder → UserBuilder
change_header change b = record b { header = change b.header }

-- `if_neccessary_reserve_first_element_for_header`.
abbrev pub reserve_if_unsent : UserBuilder → List Bytes
reserve_if_unsent b = if b.header_was_sent then b.parts else reserve_header b.parts

-- `set_body`.
unfoldable pub set_body : Bytes → UserBuilder → UserBuilder
set_body body b =
    let kept : List Bytes = if b.header_was_sent then [] else take 1 (reserve_if_unsent b) in
    record b { parts = if ltb 0 (length body) then kept ++ body ∷ [] else kept }

-- `append_body`.
unfoldable pub append_body : Bytes → UserBuilder → UserBuilder
append_body body b =
    if ltb 0 (length body) then record b { parts = reserve_if_unsent b ++ body ∷ [] } else b

-- `send_ready_data` up to its test whether there is something to send.
abbrev pub with_header : UserBuilder → UserBuilder
with_header b = if b.header_was_sent then b else record b {
  keep_alive_when_header_was_sent = should_keep_alive b.header;
  parts = set (reserve_header b.parts) 0 (create_header_string b.header add_content_length);
  header_was_sent = true;
}

abbrev pub is_empty : List Bytes → Bool
is_empty [] = true
is_empty (p ∷ parts) = false

abbrev pub is_some : Option ℕ → Bool
is_some none = false
is_some (some cb) = true

-- `send_ready_data`: what is handed to the connection, if anything.
unfoldable pub send_ready_data : Bool → Option ℕ → UserBuilder → Option Sent × UserBuilder
send_ready_data final wscb b =
    let b' : UserBuilder = with_header b in
    let sent : Sent = record {
      request_id = b.request_id;
      flags = record {
        final_parts = final;
        connection_close = not b'.keep_alive_when_header_was_sent;
      };
      group = record {
        items = b'.parts;
        status_line_size = if b.header_was_sent then 0 else calculate_status_line_size b.header;
        after_write_notificator = wscb;
      };
    } in
    if not (is_empty b'.parts) || (is_some wscb || final)
    then (some sent, record b' { parts = [] })
    else (none, b')

-- `flush( wscb )`.
unfoldable pub flush : Option ℕ → UserBuilder → Option Sent × UserBuilder
unfolding send_ready_data
flush wscb b = if b.connected then send_ready_data false wscb b else (none, b)

-- `done( wscb )`.
unfoldable pub done : Option ℕ → UserBuilder → Outcome (Option Sent) × UserBuilder
unfolding send_ready_data
done wscb b =
    let (sent, b') = send_ready_data true wscb (record b { connected = false }) in
    if b.connected then (ok sent, b') else (throws, b)
