-- ===== src/RouteParams.antt =====
-- `route_params_t` of web/restinio/restinio/router/express.hpp: the values that a route has taken out
-- of a request target. A `string_view_t` is kept as the bytes that it shows.
pub mod Finding
use prj.Prelude.{
  ℕ, zero, suc, ◌≡◌, Bool, true, false, Option, none, some, List, [], ◌∷◌, Bytes, leb, str_eq,
  if◌then◌else◌, length, get_elem?,
}
use prj.Prelude.Outcome.{Outcome, ok, throws, undefined}

pub record RouteParams : Type 0 where
  pub request_target : Bytes
  pub match : Bytes
  pub named_parameters : List (Bytes × Bytes)
  pub indexed_parameters : List Bytes

abbrev pub no_params : RouteParams
no_params = record {
  request_target = [];
  match = [];
  named_parameters = [];
  indexed_parameters = [];
}

-- `find_named_parameter`: the first with this key; `none` is the end iterator.
find_named_parameter : Bytes → List (Bytes × Bytes) → Option (Bytes × Bytes)
find_named_parameter key [] = none
find_named_parameter key ((k, v) ∷ ps) =
    if str_eq key k then some (k, v) else find_named_parameter key ps

-- `find_named_parameter_with_check`.
find_named_parameter_with_check : Bytes → RouteParams → Outcome (Bytes × Bytes)
unfolding find_named_parameter
find_named_parameter_with_check key params =
    elim (find_named_parameter key params.named_parameters) [ none ↦ throws | some p ↦ ok p ]

-- `operator [] ( string_view_t key )`.
pub get_by_key : RouteParams → Bytes → Outcome Bytes
unfolding find_named_parameter_with_check
get_by_key params key = elim (find_named_parameter_with_check key params) [
  | ok (k, v) ↦ ok v
  | _ ↦ throws
]

-- `has`.
pub has : RouteParams → Bytes → Bool
unfolding find_named_parameter
has params key = elim (find_named_parameter key params.named_parameters) [
  | none ↦ false
  | some p ↦ true
]

-- `get_param`.
pub get_param : RouteParams → Bytes → Option Bytes
unfolding find_named_parameter
get_param params key = elim (find_named_parameter key params.named_parameters) [
  | none ↦ none
  | some (k, v) ↦ some v
]

-- `operator [] ( std::size_t i )`; `vector::at` throws too.
pub get_by_index : RouteParams → ℕ → Outcome Bytes
get_by_index params i =
    if leb (length params.indexed_parameters) i
    then throws
    else (elim (get_elem? params.indexed_parameters i) [ none ↦ throws | some v ↦ ok v ])

named_parameters_size : RouteParams → ℕ
named_parameters_size params = length params.named_parameters

unfoldable pub indexed_parameters_size : RouteParams → ℕ
indexed_parameters_size params = length params.indexed_parameters
