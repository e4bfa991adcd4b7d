-- ===== src/Headers/Fields/Lookup.antt =====
-- Finding fields by name and by id, in `http_header_fields_t` of
-- web/restinio/restinio/http_headers.hpp.
use prj.Prelude.{
  suc, ◌≡◌, refl, sym, ap, ◌∙◌, ◌≢◌, Bool, true, some, [], ◌∷◌, Bytes, if◌then◌else◌, All,
}
use prj.Headers.FieldId.{HttpField, same_field_iff, eq_of_same_field}
use prj.Headers.Caseless.Lowered.{is_equal_caseless_iff}
use prj.Headers.Caseless.Equivalence.{Bool-ext}
use prj.Headers.FieldName.{string_to_field}
use prj.Headers.FieldName.Agreement.{string_to_field_caseless, recognised, distinct}
use prj.Headers.Fields.{HeaderField, Fields, has_name, has_id, find, erase, erase_all}
use prj.Headers.Fields.ByName
use prj.Headers.Fields.ById
use prj.Headers.Fields.Built.{IsConsistent, Built, Built-IsConsistent}

-- At a field whose id is that of its name, both tests are the same for a name that is known.
has_name-eq-has_id :
    (name : Bytes) (f : HeaderField)
    → string_to_field name ≢ HttpField.field_unspecified
    → IsConsistent f
    → has_name name f ≡ has_id (string_to_field name) f
unfolding has_name has_id
has_name-eq-has_id name f known c = Bool-ext _ _ (
  λ h.
      (same_field_iff _ _).1
        (c.same ∙ string_to_field_caseless f.name name ((is_equal_caseless_iff f.name name).0 h)),
  λ h.
      let e = sym c.same ∙ eq_of_same_field _ _ h in
      (is_equal_caseless_iff f.name name).1 (
        recognised f.name (string_to_field name) (distinct _ known) e
        ∙ sym (recognised name (string_to_field name) (distinct _ known) refl)),
)

module _ (p q : HeaderField → Bool) where
  -- The two tests say the same of every field of a container.
  abbrev pub Agree : Fields → Type 0
  Agree fields = All (λ f. p f ≡ q f) fields

  pub find-Agree : (fields : Fields) → Agree fields → find p fields ≡ find q fields
  unfolding find
  find-Agree [] a = refl
  find-Agree (f ∷ fields) a = rw (a.0) (ap (λ r. if q f then some f else r) (find-Agree fields a.1))

  erase-Agree : (fields : Fields) → Agree fields → erase p fields ≡ erase q fields
  unfolding erase
  erase-Agree [] a = refl
  erase-Agree (f ∷ fields) a =
      rw (a.0) (ap (λ r. if q f then (fields, true) else (f ∷ r.0, r.1)) (erase-Agree fields a.1))

  erase_all-Agree : (fields : Fields) → Agree fields → erase_all p fields ≡ erase_all q fields
  unfolding erase_all
  erase_all-Agree [] a = refl
  erase_all-Agree (f ∷ fields) a =
      rw (a.0)
        (ap (λ r. if q f then (r.0, suc (r.1)) else (f ∷ r.0, r.1)) (erase_all-Agree fields a.1))

agree_on :
    (name : Bytes) (fields : Fields)
    → string_to_field name ≢ HttpField.field_unspecified
    → All IsConsistent fields
    → All (λ f. has_name name f ≡ has_id (string_to_field name) f) fields
agree_on name [] known all = tt
agree_on name (f ∷ fields) known all =
    (has_name-eq-has_id name f known all.0, agree_on name fields known all.1)

-- For a name that is known, in any case of its letters, the methods that take a name and those that
-- take its id find the same field, give the same value, and remove the same fields, whatever has built
-- the container.
pub by_name-eq-by_id :
    (name default : Bytes) {fields : Fields}
    → string_to_field name ≢ HttpField.field_unspecified
    → Built fields
    → (ByName.has_field name fields ≡ ById.has_field (string_to_field name) fields)
      × (ByName.get_field name fields ≡ ById.get_field (string_to_field name) fields)
      × (ByName.try_get_field name fields ≡ ById.try_get_field (string_to_field name) fields)
      × (ByName.get_field_or name default fields
          ≡ ById.get_field_or (string_to_field name) default fields)
      × (ByName.remove_field name fields ≡ ById.remove_field (string_to_field name) fields)
      × (ByName.remove_all_of name fields ≡ ById.remove_all_of (string_to_field name) fields)
unfolding ByName.has_field ById.has_field ByName.get_field ById.get_field ByName.try_get_field
    ById.try_get_field ByName.get_field_or ById.get_field_or ByName.remove_field ById.remove_field
    ByName.remove_all_of ById.remove_all_of
by_name-eq-by_id name default {fields = fields} known b =
    let all = agree_on name fields known (Built-IsConsistent b) in
    let found = find-Agree (has_name name) (has_id (string_to_field name)) fields all in
    let specified = distinct _ known in
    (
      rw found refl,
      rw (found, specified) refl,
      rw (found, specified) refl,
      rw (found, specified) refl,
      rw specified (erase-Agree _ _ fields all),
      rw specified (erase_all-Agree _ _ fields all),
    )
