-- ===== src/Headers/FieldName/Agreement.antt =====
-- `string_to_field` and `field_to_string` of web/restinio/restinio/http_headers.hpp agree.
use prj.Prelude.{
  ◌≡◌, refl, sym, ap, ◌∙◌, ◌≢◌, ◌↔◌, inl, inr, true, false, List, [], ◌∷◌, map, Bytes,
  if◌then◌else◌, length, All, str_eq, Bool-cases,
}
use prj.Headers.FieldId.{HttpField, same_field, same_field_self, eq_of_same_field}
use prj.Headers.Caseless.{to_lower_case, equal_caseless, is_equal_caseless}
use prj.Headers.Caseless.Lowered.{
  equal_caseless-eq-str_eq, equal_caseless_iff, is_equal_caseless_iff, same_length,
}
use prj.Headers.FieldName.{check_for_field, string_to_field}
use prj.Headers.FieldName.Printed.{field_to_string}
use prj.Headers.FieldName.Candidates.{candidates}
use prj.Headers.FieldName.Suits.{Suits, candidates-Suits}

-- The name of every field is recognised.
pub string_to_field-field_to_string : (f : HttpField) → string_to_field (field_to_string f) ≡ f
unfolding string_to_field field_to_string
string_to_field-field_to_string HttpField.a_im = refl
string_to_field-field_to_string _ = refl

false_is_not_true : false ≡ true → ⊥
false_is_not_true h = cc

-- What the checks of one case find is the name of the field.
check_for_field_sound :
    (name : Bytes) (list : List (HttpField × Bytes)) (f : HttpField)
    → All (Suits (length name)) list
    → same_field f HttpField.field_unspecified ≡ false
    → check_for_field name list ≡ f
    → map to_lower_case name ≡ map to_lower_case (field_to_string f)
unfolding check_for_field
check_for_field_sound name [] f h specified e = absurd (
    false_is_not_true (
      sym specified
      ∙ ap (λ g. same_field g HttpField.field_unspecified) (sym e)
      ∙ same_field_self HttpField.field_unspecified))
check_for_field_sound name ((g, candidate) ∷ others) f h specified e =
    elim (Bool-cases (equal_caseless (length name) name candidate)) [
      | inl same ↦
          (equal_caseless_iff name candidate (sym h.0.sized)).0 same
          ∙ ap (map to_lower_case) (sym h.0.named)
          ∙ ap (λ x. map to_lower_case (field_to_string x)) (rw same at e)
      | inr differs ↦ check_for_field_sound name others f h.1 specified (rw differs at e)
    ]

pub recognised :
    (name : Bytes) (f : HttpField)
    → same_field f HttpField.field_unspecified ≡ false
    → string_to_field name ≡ f
    → map to_lower_case name ≡ map to_lower_case (field_to_string f)
unfolding string_to_field
recognised name f specified e =
    check_for_field_sound name (candidates (length name)) f (candidates-Suits (length name))
      specified e

pub distinct :
    (f : HttpField)
    → f ≢ HttpField.field_unspecified
    → same_field f HttpField.field_unspecified ≡ false
distinct f h = elim (Bool-cases (same_field f HttpField.field_unspecified)) [
  | inl e ↦ absurd (h (eq_of_same_field f HttpField.field_unspecified e))
  | inr e ↦ e
]

same_outcome :
    (a b candidate : Bytes)
    → map to_lower_case a ≡ map to_lower_case b
    → length candidate ≡ length a
    → equal_caseless (length a) a candidate ≡ equal_caseless (length b) b candidate
same_outcome a b candidate e sized =
    equal_caseless-eq-str_eq a candidate (sym sized)
    ∙ ap (λ r. str_eq r (map to_lower_case candidate)) e
    ∙ sym (equal_caseless-eq-str_eq b candidate (sym (same_length a b e) ∙ sym sized))

-- Names that agree but for the case of their letters pass the same checks.
check_for_field_caseless :
    (a b : Bytes) (list : List (HttpField × Bytes))
    → map to_lower_case a ≡ map to_lower_case b
    → All (Suits (length a)) list
    → check_for_field a list ≡ check_for_field b list
unfolding check_for_field
check_for_field_caseless a b [] e h = refl
check_for_field_caseless a b ((g, candidate) ∷ others) e h =
    rw (same_outcome a b candidate e h.0.sized) (
      ap (λ r. if equal_caseless (length b) b candidate then g else r)
        (check_for_field_caseless a b others e h.1))

pub string_to_field_caseless :
    (a b : Bytes)
    → map to_lower_case a ≡ map to_lower_case b
    → string_to_field a ≡ string_to_field b
unfolding string_to_field
string_to_field_caseless a b e =
    check_for_field_caseless a b (candidates (length a)) e (candidates-Suits (length a))
    ∙ ap (λ n. check_for_field b (candidates n)) (same_length a b e)

-- `string_to_field` takes a name for a field, other than for the unspecified one, exactly if it is the
-- name of the field but for the case of letters.
pub string_to_field_iff :
    (name : Bytes) (f : HttpField)
    → f ≢ HttpField.field_unspecified
    → (string_to_field name ≡ f) ↔ (is_equal_caseless name (field_to_string f) ≡ true)
string_to_field_iff name f specified = (
  λ e.
      (is_equal_caseless_iff name (field_to_string f)).1
        (recognised name f (distinct f specified) e),
  λ h.
      string_to_field_caseless name (field_to_string f)
        ((is_equal_caseless_iff name (field_to_string f)).0 h)
      ∙ string_to_field-field_to_string f,
)
