-- ===== src/Headers/Message.antt =====
-- The status line, the common part of headers and the response header of
-- web/restinio/restinio/http_headers.hpp.
use prj.Prelude.{ℕ, ◌==◌, Bool, true, false, not, [], Bytes, codes, ltb, if◌then◌else◌}
use prj.Headers.Fields.{Fields}

-- `http_connection_header_t`.
pub data ConnectionHeader : Type 0 where
  keep_alive close upgrade : ConnectionHeader

-- `http_status_line_t`; an `http_status_code_t` is its raw code.
pub record StatusLine : Type 0 where
  pub status_code : ℕ
  pub reason_phrase : Bytes

abbrev pub status_ok : StatusLine
status_ok = record { status_code = 200; reason_phrase = codes "OK" }

abbrev pub status_bad_request : StatusLine
status_bad_request = record { status_code = 400; reason_phrase = codes "Bad Request" }

abbrev pub status_method_not_allowed : StatusLine
status_method_not_allowed = record { status_code = 405; reason_phrase = codes "Method Not Allowed" }

-- The operators `==`, `!=` and `<` of `http_status_code_t`: the last two compare their argument with
-- itself.
abbrev code_eq : ℕ → ℕ → Bool
code_eq this sc = this == sc

abbrev code_ne : ℕ → ℕ → Bool
code_ne this sc = not (sc == sc)

abbrev code_lt : ℕ → ℕ → Bool
code_lt this sc = ltb sc sc

-- `http_response_header_t`, with the members of its base classes.
pub record ResponseHeader : Type 0 where
  pub status_line : StatusLine
  pub fields : Fields
  pub http_major : ℕ
  pub http_minor : ℕ
  pub content_length : ℕ
  pub connection : ConnectionHeader

-- `http_response_header_t( status_line )`.
abbrev pub response_header : StatusLine → ResponseHeader
response_header status_line = record {
  status_line = status_line;
  fields = [];
  http_major = 1;
  http_minor = 1;
  content_length = 0;
  connection = close;
}

abbrev pub is_keep_alive : ConnectionHeader → Bool
is_keep_alive keep_alive = true
is_keep_alive close = false
is_keep_alive upgrade = false

-- `should_keep_alive()` and `should_keep_alive( keep_alive )`.
abbrev pub should_keep_alive : ResponseHeader → Bool
should_keep_alive h = is_keep_alive h.connection

abbrev pub connection_for : Bool → ConnectionHeader
connection_for keep = if keep then keep_alive else close

abbrev pub set_keep_alive : Bool → ResponseHeader → ResponseHeader
set_keep_alive keep h = record h { connection = connection_for keep }
