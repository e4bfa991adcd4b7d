-- ===== src/Headers/FieldName/Suits.antt =====
-- The cases of `string_to_field` of web/restinio/restinio/http_headers.hpp hold the names of their
-- fields, at the size of the case.
use prj.Prelude.{
  ℕ, ◌≡◌, refl, sym, inl, inr, Bool, true, false, not, ◌&&◌, List, [], ◌∷◌, Bytes, ◌==◌, ==_iff,
  if◌then◌else◌, length, All, str_eq, str_eq_iff, Bool-cases,
}
use prj.Headers.FieldId.{HttpField, same_field}
use prj.Headers.FieldName.Printed.{field_to_string}
use prj.Headers.FieldName.Candidates.{
  candidates, candidates_of_2_to_9, candidates_of_10_to_13, candidates_of_14_to_17,
  candidates_of_18_to_32,
}

-- A candidate of a case: its size, and its name.
pub record Suits (size : ℕ) (candidate : HttpField × Bytes) : Type 0 where
  pub sized : length candidate.1 ≡ size
  pub named : field_to_string candidate.0 ≡ candidate.1
  pub specified : same_field candidate.0 HttpField.field_unspecified ≡ false

abbrev AllSuit : ℕ → List (HttpField × Bytes) → Type 0
AllSuit size = All (Suits size)

suit : ℕ → List (HttpField × Bytes) → Bool
unfolding same_field str_eq field_to_string
suit size [] = true
suit size ((field, name) ∷ others) =
    (length name == size)
    && (str_eq (field_to_string field) name
        && (not (same_field field HttpField.field_unspecified) && suit size others))

and_left : (a b : Bool) → (a && b) ≡ true → a ≡ true
and_left true b h = refl
and_left false b h = h

and_right : (a b : Bool) → (a && b) ≡ true → b ≡ true
and_right true b h = h
and_right false b h = cc

untrue : (a : Bool) → not a ≡ true → a ≡ false
untrue true h = sym h
untrue false h = refl

suit_sound :
    (size : ℕ) (list : List (HttpField × Bytes)) → suit size list ≡ true → AllSuit size list
unfolding suit
suit_sound size [] h = tt
suit_sound size ((field, name) ∷ others) h =
    let later = and_right _ _ h in
    let last = and_right _ _ later in
    (
      record {
        sized = (==_iff _ _).0 (and_left _ _ h);
        named = (str_eq_iff _ _).0 (and_left _ _ later);
        specified = untrue _ (and_left _ _ last);
      },
      suit_sound size others (and_right _ _ last),
    )

case :
    (size k : ℕ) (list others : List (HttpField × Bytes))
    → suit k list ≡ true
    → AllSuit size others
    → AllSuit size (if size == k then list else others)
case size k list others h rest = elim (Bool-cases (size == k)) [
  | inl e ↦ rw e (rw ((==_iff size k).0 e) (suit_sound k list h))
  | inr n ↦ rw n rest
]

suits_of_18_to_32 : (size : ℕ) → AllSuit size (candidates_of_18_to_32 size)
unfolding candidates_of_18_to_32 suit
suits_of_18_to_32 size = case size 18 _ _ refl (
    case size 19 _ _ refl (
      case size 20 _ _ refl (
        case size 21 _ _ refl (
          case size 22 _ _ refl (
            case size 23 _ _ refl (
              case size 24 _ _ refl (
                case size 25 _ _ refl (
                  case size 27 _ _ refl (
                    case size 28 _ _ refl (
                      case size 29 _ _ refl
                        (case size 30 _ _ refl (case size 32 _ _ refl (tt)))))))))))))

suits_of_14_to_17 : (size : ℕ) → AllSuit size (candidates_of_14_to_17 size)
unfolding candidates_of_14_to_17 suit
suits_of_14_to_17 size =
    case size 14 _ _ refl (
      case size 15 _ _ refl
        (case size 16 _ _ refl (case size 17 _ _ refl (suits_of_18_to_32 size))))

suits_of_10_to_13 : (size : ℕ) → AllSuit size (candidates_of_10_to_13 size)
unfolding candidates_of_10_to_13 suit
suits_of_10_to_13 size =
    case size 10 _ _ refl (
      case size 11 _ _ refl
        (case size 12 _ _ refl (case size 13 _ _ refl (suits_of_14_to_17 size))))

suits_of_2_to_9 : (size : ℕ) → AllSuit size (candidates_of_2_to_9 size)
unfolding candidates_of_2_to_9 suit
suits_of_2_to_9 size = case size 2 _ _ refl (
    case size 3 _ _ refl (
      case size 4 _ _ refl (
        case size 5 _ _ refl (
          case size 6 _ _ refl (
            case size 7 _ _ refl
              (case size 8 _ _ refl (case size 9 _ _ refl (suits_of_10_to_13 size))))))))

pub candidates-Suits : (size : ℕ) → All (Suits size) (candidates size)
unfolding candidates
candidates-Suits size = suits_of_2_to_9 size
