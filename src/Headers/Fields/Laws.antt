-- ===== src/Headers/Fields/Laws.antt =====
-- What a change of a field does to later look-ups by name, in `http_header_fields_t` of
-- web/restinio/restinio/http_headers.hpp.
use prj.Prelude.{
  ◌+◌, ◌≡◌, refl, sym, ap, ◌∙◌, inl, inr, Bool, true, false, Option, none, some, [], ◌∷◌, ◌++◌,
  Bytes, arith, if◌then◌else◌, length, All, Bool-cases,
}
use prj.Headers.Caseless.{is_equal_caseless}
use prj.Headers.Caseless.Equivalence.{is_equal_caseless_left, is_equal_caseless_right}
use prj.Headers.Fields.{
  HeaderField, Fields, of_name, rename, assign_value, append_value, has_name, find, is_found,
  value_found, change, erase_all, for_each_value,
}
use prj.Headers.Fields.Lookup.{find-Agree}
use prj.Headers.Fields.ByName.{
  set_field, add_field, append_field, try_get_field, remove_all_of, has_field, for_each_value_of,
}

-- The field after the change of the one that was found, or the new one.
abbrev pub changed : (HeaderField → HeaderField) → HeaderField → Option HeaderField → HeaderField
changed g new none = new
changed g new (some f) = g f

module _ (p q : HeaderField → Bool) (g : HeaderField → HeaderField) (new : HeaderField) where
  -- The changed field is the one that is found.
  pub find-change_same :
      (fields : Fields)
      → ((f : HeaderField) → q f ≡ p f)
      → ((f : HeaderField) → p f ≡ true → q (g f) ≡ true)
      → q new ≡ true
      → find q (change p g new fields) ≡ some (changed g new (find p fields))
  unfolding find change
  find-change_same [] same kept found = rw found
  find-change_same (f ∷ fields) same kept found = elim (Bool-cases (p f)) [
    | inl e ↦ rw e (rw (kept f e))
    | inr e ↦ rw e (rw (same f, e) (find-change_same fields same kept found))
  ]

  -- A change elsewhere.
  find-change_other :
      (fields : Fields)
      → ((f : HeaderField) → p f ≡ true → q f ≡ false)
      → ((f : HeaderField) → p f ≡ true → q (g f) ≡ false)
      → q new ≡ false
      → find q (change p g new fields) ≡ find q fields
  unfolding find change
  find-change_other [] apart kept missed = rw missed
  find-change_other (f ∷ fields) apart kept missed = elim (Bool-cases (p f)) [
    | inl e ↦ rw e (rw (kept f e, apart f e))
    | inr e ↦
        rw e (ap (λ r. if q f then some f else r) (find-change_other fields apart kept missed))
  ]

module _ (name other : Bytes) where
  -- The tests for two names are the same, or exclude each other.
  same_test :
      is_equal_caseless name other ≡ true → (f : HeaderField) → has_name other f ≡ has_name name f
  unfolding has_name
  same_test e f = sym (is_equal_caseless_right f.name name other e)

  all_same :
      is_equal_caseless name other ≡ true
      → (fields : Fields) → All (λ f. has_name other f ≡ has_name name f) fields
  all_same e [] = tt
  all_same e (f ∷ fields) = (same_test e f, all_same e fields)

  apart_test :
      is_equal_caseless name other ≡ false
      → (f : HeaderField) → has_name name f ≡ true
      → has_name other f ≡ false
  unfolding has_name
  apart_test e f h = is_equal_caseless_left f.name name other h ∙ e

-- What an append makes of the value that a name has.
abbrev pub appended_to : Option Bytes → Bytes → Bytes
appended_to none v = v
appended_to (some old) v = old ++ v

abbrev pub or_else : Option Bytes → Option Bytes → Option Bytes
or_else none o = o
or_else (some v) o = some v

module _ (name v : Bytes) where
  set_value :
      (o : Option HeaderField)
      → value_found (some (changed (λ f. assign_value v (rename name f)) (of_name name v) o))
        ≡ some v
  unfolding value_found
  set_value none = refl
  set_value (some f) = refl

  appended_value :
      (o : Option HeaderField)
      → value_found (some (changed (append_value v) (of_name name v) o))
        ≡ some (appended_to (value_found o) v)
  unfolding value_found
  appended_value none = refl
  appended_value (some f) = refl

module _ (name v other : Bytes) (fields : Fields) where
  value-set_field :
      try_get_field other (set_field name v fields)
      ≡ (if is_equal_caseless name other then some v else try_get_field other fields)
  unfolding set_field has_name try_get_field
  value-set_field = elim (Bool-cases (is_equal_caseless name other)) [
    | inl e ↦ rw e (
        ap value_found (
          find-change_same (has_name name) (has_name other) (λ f. assign_value v (rename name f))
            (of_name name v) fields (same_test name other e) (λ f _. e) e)
        ∙ set_value name v (find (has_name name) fields))
    | inr e ↦ rw e (
        ap value_found (
          find-change_other (has_name name) (has_name other) (λ f. assign_value v (rename name f))
            (of_name name v) fields (apart_test name other e) (λ f h. e) e))
  ]

  value-append_field : try_get_field other (append_field name v fields) ≡ (
      if is_equal_caseless name other
      then some (appended_to (try_get_field name fields) v)
      else try_get_field other fields)
  unfolding append_field has_name try_get_field
  value-append_field = elim (Bool-cases (is_equal_caseless name other)) [
    | inl e ↦ rw e (
        ap value_found (
          find-change_same (has_name name) (has_name other) (append_value v) (of_name name v) fields
            (same_test name other e) (λ f h. same_test name other e f ∙ h) e)
        ∙ appended_value name v (find (has_name name) fields))
    | inr e ↦ rw e (
        ap value_found (
          find-change_other (has_name name) (has_name other) (append_value v) (of_name name v)
            fields (apart_test name other e) (λ f h. apart_test name other e f h) e))
  ]

module _ (name v other : Bytes) where
  value-add_field :
      (fields : Fields)
      → try_get_field other (add_field name v fields)
        ≡ or_else
            (try_get_field other fields)
            (if is_equal_caseless name other then some v else none)
  unfolding add_field has_name try_get_field find value_found
  value-add_field [] = elim (Bool-cases (is_equal_caseless name other)) [
    | inl e ↦ rw e refl
    | inr e ↦ rw e refl
  ]
  value-add_field (f ∷ rest) = elim (Bool-cases (is_equal_caseless f.name other)) [
    | inl e ↦ rw e refl
    | inr e ↦ rw e (value-add_field rest)
  ]

-- A value that is set or appended is found under the name in any case of its letters, an appended one
-- behind the value that was there; an added one only if there was none. No other name is affected.
pub value_after_change :
    (name v other : Bytes) (fields : Fields)
    → (try_get_field other (set_field name v fields)
        ≡ (if is_equal_caseless name other then some v else try_get_field other fields))
      × (try_get_field other (append_field name v fields) ≡ (
          if is_equal_caseless name other
          then some (appended_to (try_get_field name fields) v)
          else try_get_field other fields))
      × (try_get_field other (add_field name v fields)
          ≡ or_else
              (try_get_field other fields)
              (if is_equal_caseless name other then some v else none))
value_after_change name v other fields = (
  value-set_field name v other fields,
  value-append_field name v other fields,
  value-add_field name v other fields,
)

find-erase_all_self :
    (p : HeaderField → Bool) (fields : Fields) → find p (erase_all p fields).0 ≡ none
unfolding find erase_all
find-erase_all_self p [] = refl
find-erase_all_self p (f ∷ fields) = elim (Bool-cases (p f)) [
  | inl e ↦ rw e (find-erase_all_self p fields)
  | inr e ↦ rw (e, e) (find-erase_all_self p fields)
]

find-erase_all_other :
    (p q : HeaderField → Bool) (fields : Fields)
    → ((f : HeaderField) → p f ≡ true → q f ≡ false)
    → find q (erase_all p fields).0 ≡ find q fields
unfolding find erase_all
find-erase_all_other p q [] apart = refl
find-erase_all_other p q (f ∷ fields) apart = elim (Bool-cases (p f)) [
  | inl e ↦ rw (e, apart f e) (find-erase_all_other p q fields apart)
  | inr e ↦ rw e (ap (λ r. if q f then some f else r) (find-erase_all_other p q fields apart))
]

length-erase_all :
    (p : HeaderField → Bool) (fields : Fields)
    → length (erase_all p fields).0 + (erase_all p fields).1 ≡ length fields
unfolding erase_all
length-erase_all p [] = omega arith
length-erase_all p (f ∷ fields) = elim (Bool-cases (p f)) [
  | inl e ↦ rw e (omega (arith, length-erase_all p fields))
  | inr e ↦ rw e (omega (arith, length-erase_all p fields))
]

module _ {S : Type 0} (p : HeaderField → Bool) (lambda : Bytes → S → S × Bool) where
  for_each_value-erase_all_self :
      (q : HeaderField → Bool) (fields : Fields) (s : S)
      → ((f : HeaderField) → q f ≡ p f)
      → for_each_value q lambda (erase_all p fields).0 s ≡ s
  unfolding for_each_value erase_all
  for_each_value-erase_all_self q [] s same = refl
  for_each_value-erase_all_self q (f ∷ fields) s same = elim (Bool-cases (p f)) [
    | inl e ↦ rw e (for_each_value-erase_all_self q fields s same)
    | inr e ↦ rw (e, same f, e) (for_each_value-erase_all_self q fields s same)
  ]

  for_each_value-erase_all_other :
      (q : HeaderField → Bool) (fields : Fields) (s : S)
      → ((f : HeaderField) → p f ≡ true → q f ≡ false)
      → for_each_value q lambda (erase_all p fields).0 s ≡ for_each_value q lambda fields s
  unfolding for_each_value erase_all
  for_each_value-erase_all_other q [] s apart = refl
  for_each_value-erase_all_other q (f ∷ fields) s apart =
      let ih : (s : S)
          → for_each_value q lambda (erase_all p fields).0 s ≡ for_each_value q lambda fields s =
        λ s. for_each_value-erase_all_other q fields s apart in
      elim (Bool-cases (p f)) [
        | inl e ↦ rw (e, apart f e) (ih s)
        | inr e ↦ rw (e, ih (lambda f.value s).0, ih s) refl
      ]

-- `remove_all_of` leaves no field of the name, whatever the case of its letters; for another name it
-- leaves the first value, and what `for_each_value_of` makes of the values with any function, so that all
-- of them are kept, in their order; its result is the number of fields that it has removed.
pub remove_all_of-removes :
    {S : Type 0} (name other : Bytes) (fields : Fields) (lambda : Bytes → S → S × Bool) (s : S)
    → (has_field name (remove_all_of name fields).0 ≡ false)
      × (try_get_field other (remove_all_of name fields).0
          ≡ (if is_equal_caseless name other then none else try_get_field other fields))
      × (for_each_value_of other lambda (remove_all_of name fields).0 s
          ≡ (if is_equal_caseless name other then s else for_each_value_of other lambda fields s))
      × (length (remove_all_of name fields).0 + (remove_all_of name fields).1 ≡ length fields)
unfolding remove_all_of has_field try_get_field for_each_value_of has_name is_found value_found
remove_all_of-removes name other fields lambda s = (
  ap is_found (find-erase_all_self (has_name name) fields),
  elim (Bool-cases (is_equal_caseless name other)) [
    | inl e ↦ rw e (
        ap value_found (
          find-Agree (has_name other) (has_name name) _
            (all_same name other e (erase_all (has_name name) fields).0)
          ∙ find-erase_all_self (has_name name) fields))
    | inr e ↦ rw e (
        ap value_found
          (find-erase_all_other (has_name name) (has_name other) fields (apart_test name other e)))
  ],
  elim (Bool-cases (is_equal_caseless name other)) [
    | inl e ↦ rw e (
        for_each_value-erase_all_self (has_name name) lambda (has_name other) fields s
          (same_test name other e))
    | inr e ↦ rw e (
        for_each_value-erase_all_other (has_name name) lambda (has_name other) fields s
          (apart_test name other e))
  ],
  length-erase_all (has_name name) fields,
)
