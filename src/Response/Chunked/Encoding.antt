-- ===== src/Response/Chunked/Encoding.antt =====
-- The transfer encoding that `prepare_header_for_sending` of
-- web/restinio/restinio/message_builders.hpp leaves in the header.
use prj.Prelude.{
  ◌≡◌, refl, sym, ap, ◌∙◌, inl, inr, Bool, true, false, ◌||◌, Option, none, some, [], ◌∷◌, ◌++◌,
  append_assoc, Bytes, codes, arith, Bool-cases, Option-cases,
}
use prj.Headers.FieldId.{HttpField}
use prj.Headers.Fields.{HeaderField, Fields, of_id, append_value, has_id, find, value_found}
use prj.Headers.Fields.ById.{try_get_field, append_field}
use prj.Headers.Fields.Laws.{find-change_same, changed}
use prj.Headers.Message.{ResponseHeader}
use prj.Response.Chunked.{starts_with, finds, with_chunked, prepare_header_for_sending}

starts_with_self : (text : Bytes) → starts_with text text ≡ true
unfolding starts_with
starts_with_self [] = refl
starts_with_self (c ∷ text) = ground (arith, starts_with_self text)

finds_self : (text : Bytes) → finds text text ≡ true
unfolding finds
finds_self [] = refl
finds_self (c ∷ text) = ap (λ b. b || finds (c ∷ text) text) (starts_with_self (c ∷ text))

or_true : (b : Bool) → (b || true) ≡ true
or_true true = refl
or_true false = refl

-- A text that ends with the one looked for.
finds-append : (before text : Bytes) → finds text (before ++ text) ≡ true
unfolding finds
finds-append [] text = finds_self text
finds-append (c ∷ before) text =
    ap (λ b. starts_with text ((c ∷ before) ++ text) || b) (finds-append before text) ∙ or_true _

find_added :
    (p : HeaderField → Bool) (fields : Fields) (new : HeaderField)
    → p new ≡ true
    → find p fields ≡ none
    → find p (fields ++ new ∷ []) ≡ some new
unfolding find
find_added p [] new h e = rw h refl
find_added p (f ∷ fields) new h e = elim (Bool-cases (p f)) [
  | inl t ↦ let k = rw t at e in cc
  | inr t ↦ rw t (find_added p fields new h (rw t at e))
]

value_none : (o : Option HeaderField) → value_found o ≡ none → o ≡ none
unfolding value_found
value_none none e = refl
value_none (some f) e = cc

value_some :
    (o : Option HeaderField) {v : Bytes}
    → value_found o ≡ some v
    → (f : HeaderField) × (o ≡ some f) × (f.value ≡ v)
unfolding value_found
value_some none e = cc
value_some (some f) e = (f, refl, cc)

abbrev pub encoding : HttpField
encoding = HttpField.transfer_encoding

-- The header has a transfer encoding in which `chunked` is found.
abbrev pub IsChunked : Fields → Type 0
IsChunked fields =
    (value : Bytes) × (try_get_field encoding fields ≡ some value)
    × (finds (codes "chunked") value ≡ true)

added :
    (fields : Fields) → try_get_field encoding fields ≡ none → IsChunked (with_chunked none fields)
unfolding with_chunked try_get_field value_found
added fields e = (
  codes "chunked",
  ap value_found (
      find_added (has_id encoding) fields (of_id encoding (codes "chunked")) refl (value_none _ e)),
  finds_self (codes "chunked"),
)

appended :
    (fields : Fields) (value : Bytes)
    → try_get_field encoding fields ≡ some value
    → IsChunked (with_chunked (some value) fields)
unfolding with_chunked try_get_field value_found has_id append_field
appended fields value e = elim (Bool-cases (finds (codes "chunked") value)) [
  | inl t ↦ rw t (value, e, t)
  | inr t ↦
      let (f, found, same) = value_some _ e in
      rw t (
        f.value ++ codes ",chunked",
        ap value_found (
            find-change_same (has_id encoding) (has_id encoding) (append_value (codes ",chunked"))
              (of_id encoding (codes ",chunked")) fields (λ g. refl) (λ g h. h) refl
            ∙ ap
                (λ o.
                  some (
                    changed (append_value (codes ",chunked")) (of_id encoding (codes ",chunked"))
                      o))
                found),
        ap (finds (codes "chunked")) (sym (append_assoc f.value (codes ",") (codes "chunked")))
            ∙ finds-append (f.value ++ codes ",") (codes "chunked"),
      )
]

-- Whatever transfer encoding the header had, the one that is sent names `chunked`.
prepare_header-IsChunked : (h : ResponseHeader) → IsChunked (prepare_header_for_sending h).fields
unfolding prepare_header_for_sending with_chunked
prepare_header-IsChunked h = elim (Option-cases (try_get_field encoding h.fields)) [
  | inl e ↦ rw e (added h.fields e)
  | inr (value, e) ↦ rw e (appended h.fields value e)
]
