-- ===== src/Headers/Fields/ByName.antt =====
-- The methods of `http_header_fields_t` of web/restinio/restinio/http_headers.hpp that take the name
-- of a field.
use prj.Prelude.{ℕ, Bool, Option, ◌++◌, [], ◌∷◌, Bytes}
use prj.Prelude.Outcome.{Outcome}
use prj.Headers.Fields.{
  Fields, of_name, rename, assign_value, append_value, has_name, find, change, erase, erase_all,
  is_found, value_found, value_or_throw, value_or, for_each_value,
}

unfoldable pub has_field : Bytes → Fields → Bool
unfolding find has_name is_found
has_field field_name fields = is_found (find (has_name field_name) fields)

unfoldable pub set_field : Bytes → Bytes → Fields → Fields
unfolding change has_name
set_field field_name field_value fields =
    change (has_name field_name) (λ f. assign_value field_value (rename field_name f))
      (of_name field_name field_value) fields

unfoldable pub add_field : Bytes → Bytes → Fields → Fields
add_field field_name field_value fields = fields ++ of_name field_name field_value ∷ []

unfoldable pub append_field : Bytes → Bytes → Fields → Fields
unfolding change has_name
append_field field_name field_value fields =
    change (has_name field_name) (append_value field_value) (of_name field_name field_value) fields

unfoldable pub get_field : Bytes → Fields → Outcome Bytes
unfolding find has_name value_or_throw
get_field field_name fields = value_or_throw (find (has_name field_name) fields)

unfoldable pub try_get_field : Bytes → Fields → Option Bytes
unfolding find has_name value_found
try_get_field field_name fields = value_found (find (has_name field_name) fields)

unfoldable pub get_field_or : Bytes → Bytes → Fields → Bytes
unfolding find has_name value_or
get_field_or field_name default_value fields =
    value_or default_value (find (has_name field_name) fields)

unfoldable pub remove_field : Bytes → Fields → Fields × Bool
unfolding erase has_name
remove_field field_name fields = erase (has_name field_name) fields

unfoldable pub remove_all_of : Bytes → Fields → Fields × ℕ
unfolding erase_all has_name
remove_all_of field_name fields = erase_all (has_name field_name) fields

abbrev pub value_of : Bytes → Fields → Outcome Bytes
value_of name fields = get_field name fields

abbrev pub opt_value_of : Bytes → Fields → Option Bytes
opt_value_of name fields = try_get_field name fields

unfoldable pub for_each_value_of {ℓ} :
    {S : Type ℓ} → Bytes → (Bytes → S → S × Bool) → Fields → S → S
unfolding for_each_value has_name
for_each_value_of field_name lambda fields s = for_each_value (has_name field_name) lambda fields s
