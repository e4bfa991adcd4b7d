-- ===== src/Headers/Fields/ById.antt =====
-- The methods of `http_header_fields_t` of web/restinio/restinio/http_headers.hpp that take the id of
-- a field.
use prj.Prelude.{ℕ, Bool, false, Option, none, ◌++◌, [], ◌∷◌, Bytes, if◌then◌else◌}
use prj.Prelude.Outcome.{Outcome, throws}
use prj.Headers.FieldId.{HttpField, same_field}
use prj.Headers.Fields.{
  Fields, of_id, assign_value, append_value, has_id, find, change, erase, erase_all, is_found,
  value_found, value_or_throw, value_or, for_each_value,
}

-- `http_field_t::field_unspecified == field_id`.
abbrev pub is_unspecified : HttpField → Bool
is_unspecified field_id = same_field field_id HttpField.field_unspecified

unfoldable pub has_field : HttpField → Fields → Bool
unfolding find has_id is_found
has_field field_id fields = is_found (find (has_id field_id) fields)

unfoldable pub set_field : HttpField → Bytes → Fields → Fields
unfolding change has_id same_field
set_field field_id field_value fields =
    if is_unspecified field_id
    then fields
    else change (has_id field_id) (assign_value field_value) (of_id field_id field_value) fields

unfoldable pub add_field : HttpField → Bytes → Fields → Fields
unfolding same_field
add_field field_id field_value fields =
    if is_unspecified field_id then fields else fields ++ of_id field_id field_value ∷ []

unfoldable pub append_field : HttpField → Bytes → Fields → Fields
unfolding change has_id same_field
append_field field_id field_value fields =
    if is_unspecified field_id
    then fields
    else change (has_id field_id) (append_value field_value) (of_id field_id field_value) fields

unfoldable pub get_field : HttpField → Fields → Outcome Bytes
unfolding find has_id same_field value_or_throw
get_field field_id fields =
    if is_unspecified field_id then throws else value_or_throw (find (has_id field_id) fields)

unfoldable pub try_get_field : HttpField → Fields → Option Bytes
unfolding find has_id same_field value_found
try_get_field field_id fields =
    if is_unspecified field_id then none else value_found (find (has_id field_id) fields)

unfoldable pub get_field_or : HttpField → Bytes → Fields → Bytes
unfolding find has_id same_field value_or
get_field_or field_id default_value fields =
    if is_unspecified field_id
    then default_value
    else value_or default_value (find (has_id field_id) fields)

unfoldable pub remove_field : HttpField → Fields → Fields × Bool
unfolding erase has_id same_field
remove_field field_id fields =
    if is_unspecified field_id then (fields, false) else erase (has_id field_id) fields

unfoldable pub remove_all_of : HttpField → Fields → Fields × ℕ
unfolding erase_all has_id same_field
remove_all_of field_id fields =
    if is_unspecified field_id then (fields, 0) else erase_all (has_id field_id) fields

abbrev pub value_of : HttpField → Fields → Outcome Bytes
value_of field_id fields = get_field field_id fields

abbrev pub opt_value_of : HttpField → Fields → Option Bytes
opt_value_of field_id fields = try_get_field field_id fields

unfoldable pub for_each_value_of {ℓ} :
    {S : Type ℓ} → HttpField → (Bytes → S → S × Bool) → Fields → S → S
unfolding for_each_value has_id
for_each_value_of field_id lambda fields s = for_each_value (has_id field_id) lambda fields s
