-- ===== src/RouteParams/Finding.antt =====
-- The ways to ask `route_params_t` of web/restinio/restinio/router/express.hpp for a parameter.
use native.Mathlib.Decide.{dec_lt}
use prj.Prelude.{
  ◌≤◌, leb, ℕ, zero, suc, ◌<◌, ◌≡◌, refl, ◌≢◌, ◌↔◌, inl, inr, true, false, Option, none, some, List,
  [], ◌∷◌, arith, Bytes, leb, str_eq, str_eq_iff, eq_of_str_eq, Bool-cases, subst, sym, length,
  get_elem?, Option-cases,
}
use prj.Prelude.Outcome.{ok, throws}
use prj.RouteParams.{
  RouteParams, find_named_parameter, find_named_parameter_with_check, get_by_key, has, get_param,
  get_by_index, indexed_parameters_size,
}

-- The value that stands with a key, after entries with other keys.
pub data First (key : Bytes) (v : Bytes) : List (Bytes × Bytes) → Type 0 where
  here : {k : Bytes} {ps : List (Bytes × Bytes)} → key ≡ k → First key v ((k, v) ∷ ps)
  later :
      {k w : Bytes} {ps : List (Bytes × Bytes)}
      → key ≢ k
      → First key v ps
      → First key v ((k, w) ∷ ps)

find_sound :
    (key : Bytes) (ps : List (Bytes × Bytes)) (k v : Bytes)
    → find_named_parameter key ps ≡ some (k, v)
    → First key v ps
unfolding find_named_parameter
find_sound key [] k v e = cc
find_sound key ((j, w) ∷ ps) k v e = elim (Bool-cases (str_eq key j)) [
  | inl same ↦
      let hit : ◌≡◌ {A = Option (Bytes × Bytes)} (some (j, w)) (some (k, v)) = rw same at e in
      let value : w ≡ v = cc in
      subst (λ u. First key v ((j, u) ∷ ps)) (sym value) (here (eq_of_str_eq key j same))
  | inr other ↦
      let ih = find_sound key ps k v (rw other at e) in
      later (λ q. let t = (str_eq_iff key j).1 q in cc) ih
]

find_complete :
    (key v : Bytes) (ps : List (Bytes × Bytes))
    → First key v ps
    → (k : Bytes) × (find_named_parameter key ps ≡ some (k, v))
unfolding find_named_parameter
find_complete key v [] f = elim f [ ]
find_complete key v ((k, w) ∷ ps) (here e) = (k, rw ((str_eq_iff key k).1 e) refl)
find_complete key v ((k, w) ∷ ps) (later n f) =
    let (j, found) = find_complete key v ps f in
    elim (Bool-cases (str_eq key k)) [
      | inl same ↦ absurd (n (eq_of_str_eq key k same))
      | inr other ↦ (j, rw other found)
    ]

get_param_sound :
    (key : Bytes) (params : RouteParams) (v : Bytes)
    → get_param params key ≡ some v
    → First key v params.named_parameters
unfolding get_param
get_param_sound key params v e =
    elim (Option-cases (find_named_parameter key params.named_parameters)) [
      | inl missing ↦
          let q : ◌≡◌ {A = Option Bytes} none (some v) = rw (missing, get_param) at e in cc
      | inr ((k, w), found) ↦
          let q : ◌≡◌ {A = Option Bytes} (some w) (some v) = rw (found, get_param) at e in
          let value : w ≡ v = cc in
          find_sound key params.named_parameters k v (
            subst (λ u. find_named_parameter key params.named_parameters ≡ some (k, u)) value found)
    ]

-- `get_param` finds the value of the first parameter with the key and nothing else; `has` says
-- whether there is one; `operator []` gives the same value, and throws exactly if there is none.
get_param-agrees :
    (params : RouteParams) (key : Bytes)
    → ((v : Bytes) → (get_param params key ≡ some v) ↔ First key v params.named_parameters)
      × ((has params key ≡ true) ↔ (get_param params key ≢ none))
      × (get_by_key params key ≡ (elim (get_param params key) [ none ↦ throws | some v ↦ ok v ]))
unfolding get_param has get_by_key find_named_parameter_with_check
get_param-agrees params key = (
  λ v. (
    λ e. get_param_sound key params v e,
    λ f. let (k, e) = find_complete key v params.named_parameters f in ground arith,
  ),
  ground arith,
  ground arith,
)

get_elem?_of_lt :
    (xs : List Bytes) (i : ℕ) → i < length xs → (v : Bytes) × (get_elem? xs i ≡ some v)
get_elem?_of_lt [] i h = elim h [ ]
get_elem?_of_lt (x ∷ xs) zero h = (x, refl)
get_elem?_of_lt (x ∷ xs) (suc i) h = get_elem?_of_lt xs i (omega arith)

get_elem?_lt : (xs : List Bytes) (i : ℕ) (v : Bytes) → get_elem? xs i ≡ some v → i < length xs
get_elem?_lt [] i v e = cc
get_elem?_lt (x ∷ xs) zero v e = omega arith
get_elem?_lt (x ∷ xs) (suc i) v e = omega (arith, get_elem?_lt xs i v e)

-- `operator []` on an index gives the parameter at that index, and throws exactly if the index is not
-- below the number of indexed parameters.
get_by_index-total :
    (params : RouteParams) (i : ℕ)
    → ((get_by_index params i ≡ throws) ↔ (indexed_parameters_size params ≤ i))
      × ((v : Bytes)
          → (get_by_index params i ≡ ok v) ↔ (get_elem? params.indexed_parameters i ≡ some v))
unfolding get_by_index indexed_parameters_size
get_by_index-total params i = elim (dec_lt i (length params.indexed_parameters)) [
  | yes h ↦
      let (v, e) = get_elem?_of_lt params.indexed_parameters i h in
      let t : leb (length params.indexed_parameters) i ≡ false = ground arith in
      rw (t, e) ((λ k. cc, λ k. absurd (omega arith)), λ u. (λ k. cc, λ k. cc))
  | no h ↦
      let t : leb (length params.indexed_parameters) i ≡ true = ground arith in
      rw t (
        (λ k. omega arith, λ k. refl),
        λ u. (λ k. cc, λ k. absurd (h (get_elem?_lt params.indexed_parameters i u k))),
      )
]
