-- ===== src/Headers/Fields.antt =====
-- The classes `http_header_field_t` and `http_header_fields_t` of
-- web/restinio/restinio/http_headers.hpp. The overloads that take a name stand in ByName, those that
-- take an id in ById.
pub mod ByName
pub mod ById
pub mod Built
pub mod Lookup
pub mod Laws
use prj.Prelude.{
  ℕ, suc, Bool, true, false, Option, none, some, List, [], ◌∷◌, ◌++◌, Bytes, if◌then◌else◌, length,
}
use prj.Prelude.Outcome.{Outcome, ok, throws, undefined}
use prj.Headers.FieldId.{HttpField, same_field}
use prj.Headers.Caseless.{is_equal_caseless}
use prj.Headers.FieldName.{string_to_field}
use prj.Headers.FieldName.Printed.{field_to_string}

pub record HeaderField : Type 0 where
  pub name : Bytes
  pub value : Bytes
  pub field_id : HttpField

-- `http_header_field_t()`.
abbrev pub empty_field : HeaderField
empty_field = record { name = []; value = []; field_id = HttpField.field_unspecified }

-- `http_header_field_t( name, value )`.
abbrev pub of_name : Bytes → Bytes → HeaderField
of_name name value = record { name = name; value = value; field_id = string_to_field name }

-- `http_header_field_t( field_id, value )`.
abbrev pub of_id : HttpField → Bytes → HeaderField
of_id field_id value = record {
  name = field_to_string field_id;
  value = value;
  field_id = field_id;
}

-- `name( n )`, `value( v )`, `append_value( v )` and `field_id( field_id )`.
abbrev pub rename : Bytes → HeaderField → HeaderField
rename n f = record f { name = n; field_id = string_to_field n }

abbrev pub assign_value : Bytes → HeaderField → HeaderField
assign_value v f = record f { value = v }

abbrev pub append_value : Bytes → HeaderField → HeaderField
append_value v f = record f { value = f.value ++ v }

abbrev pub assign_id : HttpField → HeaderField → HeaderField
assign_id field_id f = record f { name = field_to_string field_id; field_id = field_id }

abbrev pub Fields : Type 0
Fields = List HeaderField

-- The tests of `find( field_name )` and `find( field_id )`.
unfoldable pub has_name : Bytes → HeaderField → Bool
has_name field_name f = is_equal_caseless f.name field_name

unfoldable pub has_id : HttpField → HeaderField → Bool
has_id field_id f = same_field f.field_id field_id

-- `std::find_if`: the first field that passes a test.
unfoldable pub find : (HeaderField → Bool) → Fields → Option HeaderField
find p [] = none
find p (f ∷ fields) = if p f then some f else find p fields

-- What the methods make of the place that `find` gives.
unfoldable pub is_found : Option HeaderField → Bool
is_found none = false
is_found (some f) = true

unfoldable pub value_found : Option HeaderField → Option Bytes
value_found none = none
value_found (some f) = some f.value

unfoldable pub value_or_throw : Option HeaderField → Outcome Bytes
value_or_throw none = throws
value_or_throw (some f) = ok f.value

unfoldable pub value_or : Bytes → Option HeaderField → Bytes
value_or default none = default
value_or default (some f) = f.value

-- The field that `find` finds is changed in place; where it finds none, a new one is added.
unfoldable pub change :
    (HeaderField → Bool) → (HeaderField → HeaderField) → HeaderField → Fields → Fields
change p g new [] = new ∷ []
change p g new (f ∷ fields) = if p f then g f ∷ fields else f ∷ change p g new fields

-- The field that `find` finds is erased, and whether there was one.
unfoldable pub erase : (HeaderField → Bool) → Fields → Fields × Bool
erase p [] = ([], false)
erase p (f ∷ fields) = if p f then (fields, true) else (f ∷ (erase p fields).0, (erase p fields).1)

-- The loop of `remove_all_of`.
unfoldable pub erase_all : (HeaderField → Bool) → Fields → Fields × ℕ
erase_all p [] = ([], 0)
erase_all p (f ∷ fields) =
    if p f
    then ((erase_all p fields).0, suc ((erase_all p fields).1))
    else (f ∷ (erase_all p fields).0, (erase_all p fields).1)

-- The loop of `for_each_value_of` over a state of the lambda, which says whether to go on.
unfoldable pub for_each_value {ℓ} :
    {S : Type ℓ} → (HeaderField → Bool) → (Bytes → S → S × Bool) → Fields → S → S
for_each_value p lambda [] s = s
for_each_value p lambda (f ∷ fields) s =
    let (s', go_on) = lambda f.value s in
    let rest = for_each_value p lambda fields in
    if p f then (if go_on then rest s' else s') else rest s

-- `for_each_field`.
unfoldable pub for_each_field {ℓ} : {S : Type ℓ} → (HeaderField → S → S) → Fields → S → S
for_each_field lambda [] s = s
for_each_field lambda (f ∷ fields) s = for_each_field lambda fields (lambda f s)

-- `set_field( http_header_field )`.
unfoldable pub set_field : HeaderField → Fields → Fields
unfolding change has_name has_id
set_field new fields =
    if same_field new.field_id HttpField.field_unspecified
    then change (has_name new.name) (λ _. new) new fields
    else change (has_id new.field_id) (λ _. new) new fields

-- `add_field( http_header_field )`.
abbrev pub add_field : HeaderField → Fields → Fields
add_field new fields = fields ++ new ∷ []

abbrev pub fields_count : Fields → ℕ
fields_count fields = length fields

-- `append_last_field`: undefined where there is no field.
unfoldable pub append_last_field : Bytes → Fields → Outcome Fields
append_last_field v [] = undefined
append_last_field v (f ∷ []) = ok (append_value v f ∷ [])
append_last_field v (f ∷ g ∷ fields) = elim (append_last_field v (g ∷ fields)) [
  | ok rest ↦ ok (f ∷ rest)
  | other ↦ other
]
