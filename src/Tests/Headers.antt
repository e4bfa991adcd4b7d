-- ===== src/Tests/Headers.antt =====
-- Instances of the theorems on header fields, on the text of a header, and on the builders that send it
-- in parts.
use prj.Prelude.{
  ◌≡◌, refl, sym, ◌∙◌, ◌≢◌, ◌↔◌, ◌+◌, ◌≤◌, Bool, true, false, none, some, List, [], ◌∷◌, ◌++◌,
  Bytes, All, codes, length, arith, if◌then◌else◌,
}
use prj.Headers.FieldId.{HttpField}
use prj.Headers.Caseless.{to_lower_case, is_equal_caseless}
use prj.Headers.Caseless.Lowered.{is_equal_caseless_iff}
use prj.Headers.FieldName.{string_to_field}
use prj.Headers.FieldName.Printed.{field_to_string}
use prj.Headers.FieldName.Agreement.{string_to_field_iff}
use prj.Headers.Fields.{Fields, of_name}
use prj.Headers.Fields.ByName.{
  has_field, set_field, add_field, append_field, try_get_field, remove_all_of, for_each_value_of,
}
use prj.Headers.Fields.ById
use prj.Headers.Fields.ByName
use prj.Headers.Fields.Built.{Built, start, adds_name, sets_name, IsConsistent, Built-IsConsistent}
use prj.Headers.Fields.Lookup.{by_name-eq-by_id}
use prj.Headers.Fields.Laws.{appended_to, or_else, value_after_change, remove_all_of-removes}
use prj.Headers.Message.{ResponseHeader, response_header, status_ok, set_keep_alive}
use prj.Headers.Text.{
  add_content_length, skip_content_length, create_header_string,
  calculate_approx_buffer_size_for_header,
}
use prj.Headers.Text.Reading.{read_lines, header_lines, IsClean, read_lines-create_header_string}
use prj.Headers.Text.Sizes.{length-create_header_string}
use prj.Response.{initial_header}
use prj.Response.UserControlled.{create_user_response}
use prj.Response.UserControlled.Written.{UserCall, written, message_of, user_controlled-message_of}
use prj.Response.UserControlled.Written as User
use prj.Response.Chunked.{create_chunked_response, prepare_header_for_sending}
use prj.Response.Chunked.Decoding.{decode}
use prj.Response.Chunked.Decoding.Printing.{upper_hex, upper_hex-PrintsHex}
use prj.Response.Chunked.Written.{ChunkCall, first_header, body_of, chunked-decodes}
use prj.Response.Chunked.Written as Chunk

specified : HttpField.host ≢ HttpField.field_unspecified
specified e = cc

string_to_field_iff_example :
    (string_to_field (codes "hOsT") ≡ HttpField.host)
    ↔ (is_equal_caseless (codes "hOsT") (field_to_string HttpField.host) ≡ true)
string_to_field_iff_example = string_to_field_iff (codes "hOsT") HttpField.host specified

abbrev hosts : Fields
hosts =
    ByName.set_field (codes "HOST") (codes "b")
      (ByName.add_field (codes "X") (codes "1") (ByName.add_field (codes "Host") (codes "a") []))

hosts-Built : Built hosts
hosts-Built =
    sets_name (codes "HOST") (codes "b")
      (adds_name (codes "X") (codes "1") (adds_name (codes "Host") (codes "a") start))

Built-IsConsistent_example : All IsConsistent hosts
Built-IsConsistent_example = Built-IsConsistent hosts-Built

known : string_to_field (codes "hOsT") ≢ HttpField.field_unspecified
unfolding field_to_string to_lower_case
known e =
    let caseless = (is_equal_caseless_iff (codes "hOsT") (codes "Host")).1 refl in
    specified (sym (string_to_field_iff_example.1 caseless) ∙ e)

by_name-eq-by_id_example :
    (ByName.has_field (codes "hOsT") hosts ≡ ById.has_field (string_to_field (codes "hOsT")) hosts)
    × (ByName.get_field (codes "hOsT") hosts
        ≡ ById.get_field (string_to_field (codes "hOsT")) hosts)
    × (ByName.try_get_field (codes "hOsT") hosts
        ≡ ById.try_get_field (string_to_field (codes "hOsT")) hosts)
    × (ByName.get_field_or (codes "hOsT") (codes "z") hosts
        ≡ ById.get_field_or (string_to_field (codes "hOsT")) (codes "z") hosts)
    × (ByName.remove_field (codes "hOsT") hosts
        ≡ ById.remove_field (string_to_field (codes "hOsT")) hosts)
    × (ByName.remove_all_of (codes "hOsT") hosts
        ≡ ById.remove_all_of (string_to_field (codes "hOsT")) hosts)
by_name-eq-by_id_example =
    by_name-eq-by_id (codes "hOsT") (codes "z") {fields = hosts} known hosts-Built

value_after_change_example :
    (try_get_field (codes "hOsT") (set_field (codes "host") (codes "c") hosts) ≡ (
      if is_equal_caseless (codes "host") (codes "hOsT")
      then some (codes "c")
      else try_get_field (codes "hOsT") hosts))
    × (try_get_field (codes "hOsT") (append_field (codes "host") (codes "c") hosts) ≡ (
        if is_equal_caseless (codes "host") (codes "hOsT")
        then some (appended_to (try_get_field (codes "host") hosts) (codes "c"))
        else try_get_field (codes "hOsT") hosts))
    × (try_get_field (codes "hOsT") (add_field (codes "host") (codes "c") hosts)
        ≡ or_else
            (try_get_field (codes "hOsT") hosts)
            (if is_equal_caseless (codes "host") (codes "hOsT") then some (codes "c") else none))
value_after_change_example = value_after_change (codes "host") (codes "c") (codes "hOsT") hosts

abbrev collect : Bytes → List Bytes → List Bytes × Bool
collect value values = (values ++ value ∷ [], true)

remove_all_of-removes_example :
    (has_field (codes "host") (remove_all_of (codes "host") hosts).0 ≡ false)
    × (try_get_field (codes "x") (remove_all_of (codes "host") hosts).0 ≡ (
        if is_equal_caseless (codes "host") (codes "x")
        then none
        else try_get_field (codes "x") hosts))
    × (for_each_value_of (codes "x") collect (remove_all_of (codes "host") hosts).0 [] ≡ (
        if is_equal_caseless (codes "host") (codes "x")
        then []
        else for_each_value_of (codes "x") collect hosts []))
    × (length (remove_all_of (codes "host") hosts).0 + (remove_all_of (codes "host") hosts).1
        ≡ length hosts)
remove_all_of-removes_example = remove_all_of-removes (codes "host") (codes "x") hosts collect []

abbrev answer : ResponseHeader
answer = record (response_header status_ok) {
  fields = of_name (codes "Server") (codes "RESTinio") ∷ [];
  content_length = 2;
}

answer-IsClean : IsClean answer
answer-IsClean = record {
  reason = omega arith;
  fields = ((omega arith, omega arith), tt);
  major = omega arith;
  minor = omega arith;
}

read_lines-create_header_string_example :
    read_lines 5 (create_header_string answer add_content_length ++ codes "hi")
    ≡ some (header_lines answer add_content_length, codes "hi")
read_lines-create_header_string_example =
    read_lines-create_header_string answer add_content_length (codes "hi") 5 answer-IsClean
      (omega arith)

length-create_header_string_example :
    length (create_header_string answer add_content_length)
    ≤ calculate_approx_buffer_size_for_header answer
length-create_header_string_example = length-create_header_string answer add_content_length

-- A body that is set twice, a flush, a change of the header that comes too late, and another part.
abbrev user_calls : List UserCall
user_calls =
    User.sets (codes "x")
    ∷ User.sets (codes "a")
    ∷ User.flushes (some 1)
    ∷ User.heads (set_keep_alive false)
    ∷ User.appends (codes "bc")
    ∷ []

user_controlled-message_of_example :
    written (User.run user_calls none (create_user_response status_ok true 7))
    ≡ message_of (initial_header status_ok true) [] user_calls
user_controlled-message_of_example = user_controlled-message_of status_ok true 7 user_calls none

abbrev chunk_calls : List ChunkCall
chunk_calls =
    Chunk.appends (codes "ab")
    ∷ Chunk.flushes none
    ∷ Chunk.appends []
    ∷ Chunk.appends (codes "c")
    ∷ []

chunked-decodes_example :
    (chunks : Bytes) × (written
        (Chunk.run upper_hex chunk_calls none (create_chunked_response status_ok true 7))
      ≡ create_header_string
          (prepare_header_for_sending (first_header (initial_header status_ok true) chunk_calls))
          skip_content_length
        ++ chunks)
    × (decode 5 chunks ≡ some (body_of chunk_calls, []))
chunked-decodes_example =
    chunked-decodes upper_hex status_ok true 7 chunk_calls none 5 upper_hex-PrintsHex (omega arith)
