-- ===== src/MethodMatcher.antt =====
-- The method matchers of web/restinio/restinio/router/method_matcher.hpp, and the method ids of
-- web/restinio/restinio/http_headers.hpp that they compare.
pub mod Matching
pub mod Holding
use prj.Prelude.{
  ℕ, suc, ◌≡◌, Bool, true, false, not, ◌||◌, Option, none, some, List, [], ◌∷◌, ◌++◌, leb, ◌==◌,
  if◌then◌else◌, length,
}
use prj.Prelude.Outcome.{Outcome, ok, undefined}

-- `http_method_id_t`, by its raw id; `unknown_method` is -1.
pub data MethodId : Type 0 where
  unknown_method : MethodId
  raw_id : ℕ → MethodId

abbrev pub method_eq : MethodId → MethodId → Bool
method_eq unknown_method unknown_method = true
method_eq (raw_id a) (raw_id b) = a == b
method_eq _ _ = false

-- The codes come from the HTTP parser, in the order of its methods.
abbrev pub http_method_delete : MethodId
http_method_delete = raw_id 0

abbrev pub http_method_get : MethodId
http_method_get = raw_id 1

abbrev pub http_method_head : MethodId
http_method_head = raw_id 2

abbrev pub http_method_post : MethodId
http_method_post = raw_id 3

abbrev pub http_method_put : MethodId
http_method_put = raw_id 4

abbrev pub http_method_options : MethodId
http_method_options = raw_id 6

-- The classes derived from `method_matcher_t`.
pub data Matcher : Type 0 where
  simple : MethodId → Matcher
  fixed_size_any_of : List MethodId → Matcher
  fixed_size_none_of : List MethodId → Matcher
  dynamic_any_of : List MethodId → Matcher
  dynamic_none_of : List MethodId → Matcher
  allocated_proxy : Matcher → Matcher

-- `for( const auto & m : m_methods ) if( m == method ) return true; return false;`
any_loop : List MethodId → MethodId → Bool
any_loop [] method = false
any_loop (m ∷ methods) method = if method_eq m method then true else any_loop methods method

-- `for( const auto & m : m_methods ) if( m == method ) return false; return true;`
none_loop : List MethodId → MethodId → Bool
none_loop [] method = true
none_loop (m ∷ methods) method = if method_eq m method then false else none_loop methods method

-- The virtual function `match`.
unfoldable pub match : Matcher → MethodId → Bool
unfolding any_loop none_loop
match (simple m) method = method_eq m method
match (fixed_size_any_of methods) method = any_loop methods method
match (fixed_size_none_of methods) method = not (any_loop methods method)
match (dynamic_any_of methods) method = any_loop methods method
match (dynamic_none_of methods) method = none_loop methods method
match (allocated_proxy matcher) method = match matcher method

abbrev pub any_of_methods : List MethodId → Matcher
any_of_methods args = fixed_size_any_of args

abbrev pub none_of_methods : List MethodId → Matcher
none_of_methods args = fixed_size_none_of args

-- The vector of the two dynamic matchers: `add`, `size` and `empty`.
pub add : MethodId → List MethodId → List MethodId
add m methods = methods ++ m ∷ []

pub size : List MethodId → ℕ
size methods = length methods

pub is_empty : List MethodId → Bool
is_empty [] = true
is_empty (m ∷ methods) = false

-- `buffered_matcher_holder_t`: `m_matcher` is null, points to an object in the buffer, or to one that
-- has been destroyed.
pub data Holder : Type 0 where
  null : Holder
  live : Matcher → Holder
  destroyed : Holder

-- `cleanup`, which leaves the pointer as it is. A second destruction is undefined.
cleanup : Holder → Outcome Holder
cleanup null = ok null
cleanup (live matcher) = ok destroyed
cleanup destroyed = undefined

-- `move_from( other )` on this holder and the other.
move_from : Holder → Holder → Outcome (Holder × Holder)
move_from this null = ok (this, null)
move_from this (live matcher) = ok (live matcher, null)
move_from this destroyed = undefined

-- The destructor.
destroy : Holder → Outcome Holder
unfolding cleanup
destroy this = cleanup this

-- The move constructor.
pub move_construct : Holder → Outcome (Holder × Holder)
unfolding move_from
move_construct other = move_from null other

-- The move assignment, between two different holders.
pub move_assign : Holder → Holder → Outcome (Holder × Holder)
unfolding move_from cleanup
move_assign this other = elim (cleanup this) [
  | ok cleaned ↦ move_from cleaned other
  | _ ↦ undefined
]

-- `assign`: a matcher that is too large for the buffer goes behind a proxy. Sizes of classes are the
-- compiler's.
module _ (size_of : Matcher → ℕ) (buffer_size : ℕ) where
  pub assign : Holder → Matcher → Outcome Holder
  unfolding cleanup
  assign this target = elim (cleanup this) [
    | ok _ ↦
        if leb (size_of target) buffer_size
        then ok (live target)
        else ok (live (allocated_proxy target))
    | _ ↦ undefined
  ]

-- `m_matcher->match( method )`.
pub holder_match : Holder → MethodId → Outcome Bool
holder_match null m = undefined
holder_match (live matcher) m = ok (match matcher m)
holder_match destroyed m = undefined
