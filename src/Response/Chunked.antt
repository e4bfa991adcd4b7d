-- ===== src/Response/Chunked.antt =====
-- `response_builder_t<chunked_output_t>` of web/restinio/restinio/message_builders.hpp: a body of
-- chunks. The hexadecimal digits that `fmt::format` makes of a size are a parameter.
pub mod Decoding
pub mod Written
pub mod Encoding
use prj.Prelude.{
  ℕ, Bool, true, false, not, ◌||◌, List, [], ◌∷◌, ◌++◌, Option, none, some, Bytes, codes, ltb, ◌==◌,
  if◌then◌else◌, length,
}
use prj.Prelude.Outcome.{Outcome, ok, throws}
use prj.Headers.FieldId.{HttpField}
use prj.Headers.Fields.{Fields}
use prj.Headers.Fields.ById
use prj.Headers.Message.{StatusLine, ResponseHeader, should_keep_alive}
use prj.Headers.Text.{create_header_string, skip_content_length, cr_lf}
use prj.Response.{initial_header, calculate_status_line_size, Sent}
use prj.Response.UserControlled.{is_empty, is_some}

pub record ChunkedBuilder : Type 0 where
  pub header : ResponseHeader
  pub connected : Bool
  pub request_id : ℕ
  pub header_was_sent : Bool
  pub keep_alive_when_header_was_sent : Bool
  pub chunks : List Bytes

abbrev pub create_chunked_response : StatusLine → Bool → ℕ → ChunkedBuilder
create_chunked_response status_line keep_alive request_id = record {
  header = initial_header status_line keep_alive;
  connected = true;
  request_id = request_id;
  header_was_sent = false;
  keep_alive_when_header_was_sent = true;
  chunks = [];
}

abbrev pub change_header : (ResponseHeader → ResponseHeader) → ChunkedBuilder → ChunkedBuilder
change_header change b = record b { header = change b.header }

-- `append_chunk`.
unfoldable pub append_chunk : Bytes → ChunkedBuilder → ChunkedBuilder
append_chunk chunk b = if length chunk == 0 then b else record b { chunks = b.chunks ++ chunk ∷ [] }

-- A text begins with another one, and `std::string::find` finds it somewhere.
unfoldable pub starts_with : Bytes → Bytes → Bool
starts_with [] text = true
starts_with (c ∷ value) [] = false
starts_with (c ∷ value) (d ∷ text) = if c == d then starts_with value text else false

unfoldable pub finds : Bytes → Bytes → Bool
unfolding starts_with
finds value [] = starts_with value []
finds value (d ∷ text) = starts_with value (d ∷ text) || finds value text

-- The field that `prepare_header_for_sending` leaves in the header. `get_field` cannot throw here.
unfoldable pub with_chunked : Option Bytes → Fields → Fields
unfolding ById.add_field ById.append_field finds
with_chunked none fields = ById.add_field HttpField.transfer_encoding (codes "chunked") fields
with_chunked (some value) fields =
    if finds (codes "chunked") value
    then fields
    else ById.append_field HttpField.transfer_encoding (codes ",chunked") fields

unfoldable pub prepare_header_for_sending : ResponseHeader → ResponseHeader
unfolding with_chunked ById.try_get_field
prepare_header_for_sending h = record h {
  fields = with_chunked (ById.try_get_field HttpField.transfer_encoding h.fields) h.fields;
}

-- The end of the last chunk and the zero chunk, as far as they are wanted.
unfoldable pub appendix : Bool → List Bytes → Bytes
appendix add_zero_chunk chunks =
    (if is_empty chunks then [] else cr_lf) ++ (if add_zero_chunk then codes "0\r\n\r\n" else [])

unfoldable pub appendix_bufs : Bytes → List Bytes
appendix_bufs [] = []
appendix_bufs (c ∷ text) = (c ∷ text) ∷ []

-- The builder when its header is prepared, if it has not been sent.
unfoldable pub prepared : ChunkedBuilder → ChunkedBuilder
unfolding prepare_header_for_sending
prepared b = if b.header_was_sent then b else record b {
  keep_alive_when_header_was_sent = should_keep_alive b.header;
  header = prepare_header_for_sending b.header;
}

module _ (hex : ℕ → Bytes) where
  -- The loop of `create_bufs`: the size of each chunk, behind the end of the one before it, and the
  -- chunk.
  unfoldable pub chunk_bufs : Bytes → List Bytes → List Bytes
  chunk_bufs before [] = []
  chunk_bufs before (chunk ∷ chunks) =
      (before ++ (hex (length chunk) ++ cr_lf)) ∷ chunk ∷ chunk_bufs cr_lf chunks

  -- `create_bufs`.
  unfoldable pub create_bufs : Bool → ChunkedBuilder → List Bytes
  unfolding chunk_bufs appendix appendix_bufs
  create_bufs add_zero_chunk b =
      (if b.header_was_sent then [] else create_header_string b.header skip_content_length ∷ [])
      ++ (chunk_bufs [] b.chunks ++ appendix_bufs (appendix add_zero_chunk b.chunks))

  -- `send_ready_data`.
  unfoldable pub send_ready_data : Bool → Option ℕ → ChunkedBuilder → Option Sent × ChunkedBuilder
  unfolding create_bufs prepared
  send_ready_data final wscb b =
      let b' : ChunkedBuilder = prepared b in
      let bufs : List Bytes = create_bufs final b' in
      let sent : Sent = record {
        request_id = b.request_id;
        flags = record {
          final_parts = final;
          connection_close = not b'.keep_alive_when_header_was_sent;
        };
        group = record {
          items = bufs;
          status_line_size = if b.header_was_sent then 0 else calculate_status_line_size b.header;
          after_write_notificator = wscb;
        };
      } in
      let after : ChunkedBuilder = record b' { chunks = []; header_was_sent = true } in
      if not (is_empty bufs) || is_some wscb then (some sent, after) else (none, after)

  -- `flush( wscb )`.
  unfoldable pub flush : Option ℕ → ChunkedBuilder → Option Sent × ChunkedBuilder
  unfolding send_ready_data
  flush wscb b = if b.connected then send_ready_data false wscb b else (none, b)

  -- `done( wscb )`.
  unfoldable pub done : Option ℕ → ChunkedBuilder → Outcome (Option Sent) × ChunkedBuilder
  unfolding send_ready_data
  done wscb b =
      let (sent, b') = send_ready_data true wscb (record b { connected = false }) in
      if b.connected then (ok sent, b') else (throws, b)
