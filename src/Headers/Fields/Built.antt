-- ===== src/Headers/Fields/Built.antt =====
-- What the interface of `http_header_fields_t` of web/restinio/restinio/http_headers.hpp can build, and
-- that the id of each field in it is that of its name.
use prj.Prelude.{
  ◌≡◌, refl, sym, subst, inl, inr, Bool, true, false, [], ◌∷◌, ◌++◌, Bytes, if◌then◌else◌, All,
  All-append, Bool-cases,
}
use prj.Prelude.Outcome.{Outcome, ok, throws, undefined, unfinished}
use prj.Headers.FieldId.{HttpField}
use prj.Headers.FieldName.{string_to_field}
use prj.Headers.FieldName.Printed.{field_to_string}
use prj.Headers.FieldName.Agreement.{string_to_field-field_to_string}
use prj.Headers.Fields.{
  HeaderField, Fields, empty_field, of_name, of_id, rename, assign_value, append_value, assign_id,
  change, erase, erase_all, set_field, add_field, append_last_field,
}
use prj.Headers.Fields.ByName
use prj.Headers.Fields.ById

-- The objects that the constructors and the setters of `http_header_field_t` make.
pub data Made : HeaderField → Type 0 where
  empty : Made empty_field
  by_name : (name value : Bytes) → Made (of_name name value)
  by_id : (field_id : HttpField) (value : Bytes) → Made (of_id field_id value)
  renamed : {f : HeaderField} (name : Bytes) → Made f → Made (rename name f)
  assigned : {f : HeaderField} (value : Bytes) → Made f → Made (assign_value value f)
  appended : {f : HeaderField} (value : Bytes) → Made f → Made (append_value value f)
  identified : {f : HeaderField} (field_id : HttpField) → Made f → Made (assign_id field_id f)

-- The containers that the methods make.
pub data Built : Fields → Type 0 where
  start : Built []
  sets : {f : HeaderField} {fields : Fields} → Made f → Built fields → Built (set_field f fields)
  sets_name :
      {fields : Fields} (name value : Bytes)
      → Built fields
      → Built (ByName.set_field name value fields)
  sets_id :
      {fields : Fields} (field_id : HttpField) (value : Bytes)
      → Built fields
      → Built (ById.set_field field_id value fields)
  adds : {f : HeaderField} {fields : Fields} → Made f → Built fields → Built (add_field f fields)
  adds_name :
      {fields : Fields} (name value : Bytes)
      → Built fields
      → Built (ByName.add_field name value fields)
  adds_id :
      {fields : Fields} (field_id : HttpField) (value : Bytes)
      → Built fields
      → Built (ById.add_field field_id value fields)
  appends_name :
      {fields : Fields} (name value : Bytes)
      → Built fields
      → Built (ByName.append_field name value fields)
  appends_id :
      {fields : Fields} (field_id : HttpField) (value : Bytes)
      → Built fields
      → Built (ById.append_field field_id value fields)
  removes_name :
      {fields : Fields} (name : Bytes) → Built fields → Built (ByName.remove_field name fields).0
  removes_id :
      {fields : Fields} (field_id : HttpField)
      → Built fields
      → Built (ById.remove_field field_id fields).0
  removes_all_name :
      {fields : Fields} (name : Bytes) → Built fields → Built (ByName.remove_all_of name fields).0
  removes_all_id :
      {fields : Fields} (field_id : HttpField)
      → Built fields
      → Built (ById.remove_all_of field_id fields).0
  appends_last :
      {fields result : Fields} (value : Bytes)
      → Built fields
      → append_last_field value fields ≡ ok result
      → Built result

-- The id of a field is that of its name.
pub record IsConsistent (f : HeaderField) : Type 0 where
  pub same : f.field_id ≡ string_to_field f.name

Made-IsConsistent : {f : HeaderField} → Made f → IsConsistent f
unfolding field_to_string
Made-IsConsistent empty = record {
  same = sym (string_to_field-field_to_string HttpField.field_unspecified);
}
Made-IsConsistent (by_name name value) = record { same = refl }
Made-IsConsistent (by_id field_id value) = record {
  same = sym (string_to_field-field_to_string field_id);
}
Made-IsConsistent (renamed name m) = record { same = refl }
Made-IsConsistent (assigned value m) = record { same = (Made-IsConsistent m).same }
Made-IsConsistent (appended value m) = record { same = (Made-IsConsistent m).same }
Made-IsConsistent (identified field_id m) = record {
  same = sym (string_to_field-field_to_string field_id);
}

module _ {κ} (P : HeaderField → Type κ) (p : HeaderField → Bool) where
  change-All :
      (g : HeaderField → HeaderField) (new : HeaderField) (fields : Fields)
      → P new
      → ((f : HeaderField) → P f → P (g f))
      → All P fields
      → All P (change p g new fields)
  unfolding change
  change-All g new [] h k all = (h, tt)
  change-All g new (f ∷ fields) h k all = elim (Bool-cases (p f)) [
    | inl e ↦ rw e (k f all.0, all.1)
    | inr e ↦ rw e (all.0, change-All g new fields h k all.1)
  ]

  erase-All : (fields : Fields) → All P fields → All P (erase p fields).0
  unfolding erase
  erase-All [] all = tt
  erase-All (f ∷ fields) all = elim (Bool-cases (p f)) [
    | inl e ↦ rw e all.1
    | inr e ↦ rw e (all.0, erase-All fields all.1)
  ]

  erase_all-All : (fields : Fields) → All P fields → All P (erase_all p fields).0
  unfolding erase_all
  erase_all-All [] all = tt
  erase_all-All (f ∷ fields) all = elim (Bool-cases (p f)) [
    | inl e ↦ rw e (erase_all-All fields all.1)
    | inr e ↦ rw e (all.0, erase_all-All fields all.1)
  ]

longer :
    (f : HeaderField) (r : Outcome Fields) {result : Fields}
    → elim r [ ok rest ↦ ok (f ∷ rest) | other ↦ other ] ≡ ok result
    → (rest : Fields) × (r ≡ ok rest) × (f ∷ rest ≡ result)
longer f (ok rest) e = (rest, refl, cc)
longer f throws e = cc
longer f undefined e = cc
longer f unfinished e = cc

single : (f g : HeaderField) {fields : Fields} → ok (f ∷ []) ≡ ok fields → f ∷ [] ≡ fields
single f g e = cc

append_last-IsConsistent :
    (value : Bytes) (fields : Fields) {result : Fields}
    → append_last_field value fields ≡ ok result
    → All IsConsistent fields
    → All IsConsistent result
unfolding append_last_field
append_last-IsConsistent value [] e all = cc
append_last-IsConsistent value (f ∷ []) e all =
    subst (All IsConsistent) (single (append_value value f) f e) (record { same = all.0.same }, tt)
append_last-IsConsistent value (f ∷ g ∷ fields) e all =
    let (rest, made, joined) = longer f (append_last_field value (g ∷ fields)) e in
    subst (All IsConsistent) joined (all.0, append_last-IsConsistent value (g ∷ fields) made all.1)

at_end :
    (f : HeaderField) (fields : Fields)
    → IsConsistent f
    → All IsConsistent fields
    → All IsConsistent (fields ++ f ∷ [])
at_end f fields h all = All-append IsConsistent fields (f ∷ []) all (h, tt)

-- An operation by id does nothing for the unspecified field.
guarded :
    (b : Bool) (fields changed : Fields)
    → All IsConsistent fields
    → All IsConsistent changed
    → All IsConsistent (if b then fields else changed)
guarded true fields changed h k = h
guarded false fields changed h k = k

module _ {A : Type 0} where
  guarded_first :
      (b : Bool) (kept changed : Fields × A)
      → All IsConsistent kept.0
      → All IsConsistent changed.0
      → All IsConsistent (if b then kept else changed).0
  guarded_first true kept changed h k = h
  guarded_first false kept changed h k = k

-- Every field of a container has the id of its name, whatever built the container.
pub Built-IsConsistent : {fields : Fields} → Built fields → All IsConsistent fields
unfolding set_field ByName.set_field ById.set_field ByName.add_field ById.add_field
    ByName.append_field ById.append_field ByName.remove_field ById.remove_field ByName.remove_all_of
    ById.remove_all_of
Built-IsConsistent start = tt
Built-IsConsistent (sets m b) =
    guarded _ _ _
      (change-All IsConsistent _ _ _ _ (Made-IsConsistent m) (λ _ _. Made-IsConsistent m)
        (Built-IsConsistent b))
      (change-All IsConsistent _ _ _ _ (Made-IsConsistent m) (λ _ _. Made-IsConsistent m)
        (Built-IsConsistent b))
Built-IsConsistent (sets_name name value b) =
    change-All IsConsistent _ _ _ _ (record { same = refl }) (λ _ _. record { same = refl })
      (Built-IsConsistent b)
Built-IsConsistent (sets_id i value b) = guarded _ _ _ (Built-IsConsistent b) (
    change-All IsConsistent _ _ _ _ (Made-IsConsistent (by_id i value))
      (λ f h. record { same = h.same }) (Built-IsConsistent b))
Built-IsConsistent (adds m b) = at_end _ _ (Made-IsConsistent m) (Built-IsConsistent b)
Built-IsConsistent (adds_name name value b) =
    at_end _ _ (record { same = refl }) (Built-IsConsistent b)
Built-IsConsistent (adds_id i value b) =
    guarded _ _ _ (Built-IsConsistent b)
      (at_end _ _ (Made-IsConsistent (by_id i value)) (Built-IsConsistent b))
Built-IsConsistent (appends_name name value b) =
    change-All IsConsistent _ _ _ _ (record { same = refl }) (λ f h. record { same = h.same })
      (Built-IsConsistent b)
Built-IsConsistent (appends_id i value b) = guarded _ _ _ (Built-IsConsistent b) (
    change-All IsConsistent _ _ _ _ (Made-IsConsistent (by_id i value))
      (λ f h. record { same = h.same }) (Built-IsConsistent b))
Built-IsConsistent (removes_name name b) = erase-All IsConsistent _ _ (Built-IsConsistent b)
Built-IsConsistent (removes_id i b) =
    guarded_first _ _ _ (Built-IsConsistent b) (erase-All IsConsistent _ _ (Built-IsConsistent b))
Built-IsConsistent (removes_all_name name b) = erase_all-All IsConsistent _ _ (Built-IsConsistent b)
Built-IsConsistent (removes_all_id i b) =
    guarded_first _ _ _ (Built-IsConsistent b)
      (erase_all-All IsConsistent _ _ (Built-IsConsistent b))
Built-IsConsistent (appends_last {fields = fields} value b e) =
    append_last-IsConsistent value fields e (Built-IsConsistent b)
