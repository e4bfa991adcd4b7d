-- ===== src/Headers/Text.antt =====
-- `create_header_string` and its buffer size, of web/restinio/restinio/impl/header_helpers.hpp.
pub mod Reading
pub mod Sizes
use prj.Prelude.{
  ℕ, zero, suc, ◌+◌, ◌/◌, ◌%◌, List, [], ◌∷◌, ◌++◌, Bytes, codes, ltb, if◌then◌else◌, length,
}
use prj.Headers.Fields.{HeaderField, Fields}
use prj.Headers.Message.{ConnectionHeader, keep_alive, close, upgrade, ResponseHeader}

-- The decimal digits of a number below 10 to the power of the fuel.
unfoldable pub digits : ℕ → ℕ → Bytes
digits zero n = []
digits (suc fuel) n = if ltb n 10 then (48 + n) ∷ [] else digits fuel (n / 10) ++ (48 + n % 10) ∷ []

-- `%llu`: an unsigned integer of 64 bits has at most 20 digits.
unfoldable pub print_unsigned : ℕ → Bytes
unfolding digits
print_unsigned n = digits 20 n

abbrev pub cr_lf : Bytes
cr_lf = 13 ∷ 10 ∷ []

unfoldable pub connection_line : ConnectionHeader → Bytes
connection_line keep_alive = codes "Connection: keep-alive"
connection_line close = codes "Connection: close"
connection_line upgrade = codes "Connection: Upgrade"

-- The digits of a status code, and the status line.
unfoldable pub code_digits : ℕ → Bytes
code_digits sc = (48 + (sc / 100) % 10) ∷ (48 + (sc / 10) % 10) ∷ (48 + sc % 10) ∷ []

unfoldable pub status_text : ResponseHeader → Bytes
unfolding code_digits
status_text h =
    codes "HTTP/"
    ++ ((48 + h.http_major) % 256)
      ∷ b'.'
      ∷ ((48 + h.http_minor) % 256)
      ∷ b' '
      ∷ (code_digits h.status_line.status_code ++ b' ' ∷ h.status_line.reason_phrase)

unfoldable pub length_line : ℕ → Bytes
unfolding print_unsigned
length_line content_length = codes "Content-Length: " ++ print_unsigned content_length

unfoldable pub field_line : HeaderField → Bytes
field_line f = f.name ++ (codes ": " ++ f.value)

-- The loop over the fields.
unfoldable pub field_lines : Fields → Bytes
unfolding field_line
field_lines [] = []
field_lines (f ∷ fields) = field_line f ++ (cr_lf ++ field_lines fields)

-- `content_length_field_presence_t`.
pub data ContentLengthPresence : Type 0 where
  add_content_length skip_content_length : ContentLengthPresence

unfoldable pub length_part : ContentLengthPresence → ℕ → Bytes
unfolding length_line
length_part add_content_length n = length_line n ++ cr_lf
length_part skip_content_length n = []

-- `create_header_string`.
unfoldable pub create_header_string : ResponseHeader → ContentLengthPresence → Bytes
unfolding status_text connection_line length_part field_lines
create_header_string h presence =
    status_text h
    ++ (cr_lf
        ++ (connection_line h.connection
            ++ (cr_lf
                ++ (length_part presence h.content_length ++ (field_lines h.fields ++ cr_lf)))))

-- The sum over the fields in `calculate_approx_buffer_size_for_header`.
unfoldable pub fields_size : Fields → ℕ
fields_size [] = 0
fields_size (f ∷ fields) = length f.name + 2 + length f.value + 2 + fields_size fields

unfoldable pub calculate_approx_buffer_size_for_header : ResponseHeader → ℕ
unfolding fields_size
calculate_approx_buffer_size_for_header h =
    13 + (length h.status_line.reason_phrase + 2) + 26 + (20 + 18) + 2 + fields_size h.fields

-- The answers of the server itself, `create_not_implemented_resp` and `create_timeout_resp`.
abbrev pub create_not_implemented_resp : List Bytes
create_not_implemented_resp =
    codes "HTTP/1.1 501 Not Implemented\r\nConnection: close\r\nContent-Length: 0\r\n\r\n" ∷ []

abbrev pub create_timeout_resp : List Bytes
create_timeout_resp =
    codes "HTTP/1.1 504 Gateway Time-out\r\nConnection: close\r\nContent-Length: 0\r\n\r\n" ∷ []
