-- ===== src/MethodMatcher/Matching.antt =====
-- The functions `match` of web/restinio/restinio/router/method_matcher.hpp, and what is added to the
-- dynamic matchers.
use prj.Prelude.{
  suc, ◌≡◌, refl, ◌↔◌, Bool, true, false, not, ◌&&◌, ◌||◌, List, [], ◌∷◌, ◌++◌, arith, ==_iff, ◌⊎◌,
  length-append,
}
use prj.MethodMatcher.{
  MethodId, unknown_method, raw_id, method_eq, Matcher, simple, fixed_size_any_of,
  fixed_size_none_of, dynamic_any_of, dynamic_none_of, allocated_proxy, any_loop, none_loop, match,
  add, size, is_empty,
}

method_eq_iff : (a b : MethodId) → (method_eq a b ≡ true) ↔ (a ≡ b)
method_eq_iff unknown_method unknown_method = (λ _. refl, λ _. refl)
method_eq_iff (raw_id a) (raw_id b) = ground (arith, ==_iff a b)
method_eq_iff unknown_method (raw_id b) = (λ h. cc, λ h. cc)
method_eq_iff (raw_id a) unknown_method = (λ h. cc, λ h. cc)

-- The method is one of these.
abbrev pub Among : MethodId → List MethodId → Type 0
Among m [] = ⊥
Among m (x ∷ ms) = (x ≡ m) ⊎ Among m ms

-- The methods that a matcher is meant to let through.
abbrev pub Allows : Matcher → MethodId → Type 0
Allows (simple x) m = x ≡ m
Allows (fixed_size_any_of ms) m = Among m ms
Allows (fixed_size_none_of ms) m = ¬ Among m ms
Allows (dynamic_any_of ms) m = Among m ms
Allows (dynamic_none_of ms) m = ¬ Among m ms
Allows (allocated_proxy k) m = Allows k m

none_loop-not : (ms : List MethodId) (m : MethodId) → none_loop ms m ≡ not (any_loop ms m)
unfolding none_loop any_loop
none_loop-not [] m = refl
none_loop-not (x ∷ ms) m = ground (arith, none_loop-not ms m)

any_loop_iff : (ms : List MethodId) (m : MethodId) → (any_loop ms m ≡ true) ↔ Among m ms
unfolding any_loop
any_loop_iff [] m = (λ h. cc, λ h. absurd h)
any_loop_iff (x ∷ ms) m = ground (arith, method_eq_iff x m, any_loop_iff ms m)

not-true_iff : (b : Bool) {P : Type 0} → ((b ≡ true) ↔ P) → (not b ≡ true) ↔ (¬ P)
not-true_iff true iff = (λ h. cc, λ n. absurd (n (iff.0 refl)))
not-true_iff false iff = (λ _ p. let h = iff.1 p in cc, λ _. refl)

-- Every matcher lets through exactly the methods that it is meant to: `match` of a list is
-- membership, of an excluded list its negation, in the fixed and in the dynamic classes alike, and a
-- proxy says what its matcher says.
pub match_iff : (k : Matcher) (m : MethodId) → (match k m ≡ true) ↔ Allows k m
unfolding match
match_iff (simple x) m = method_eq_iff x m
match_iff (fixed_size_any_of ms) m = any_loop_iff ms m
match_iff (fixed_size_none_of ms) m = not-true_iff (any_loop ms m) (any_loop_iff ms m)
match_iff (dynamic_any_of ms) m = any_loop_iff ms m
match_iff (dynamic_none_of ms) m =
    rw (match, none_loop-not ms m) (not-true_iff (any_loop ms m) (any_loop_iff ms m))
match_iff (allocated_proxy k) m = match_iff k m

any_loop-add :
    (ms : List MethodId) (a m : MethodId)
    → any_loop (ms ++ a ∷ []) m ≡ (any_loop ms m || method_eq a m)
unfolding any_loop
any_loop-add [] a m = ground arith
any_loop-add (x ∷ ms) a m = ground (arith, any_loop-add ms a m)

is_empty-add : (ms : List MethodId) (a : MethodId) → is_empty (ms ++ a ∷ []) ≡ false
unfolding is_empty
is_empty-add [] a = refl
is_empty-add (x ∷ ms) a = refl

-- Adding a method to a dynamic matcher: the one that allows lets that method through as well, the one
-- that forbids lets it through no more, and neither changes its answer for another method.
match-add :
    (ms : List MethodId) (a m : MethodId)
    → (match (dynamic_any_of (add a ms)) m ≡ (match (dynamic_any_of ms) m || method_eq a m))
      × (match (dynamic_none_of (add a ms)) m
          ≡ (match (dynamic_none_of ms) m && not (method_eq a m)))
      × (size (add a ms) ≡ suc (size ms))
      × (is_empty (add a ms) ≡ false)
unfolding match add size is_empty
match-add ms a m = (
  any_loop-add ms a m,
  ground (arith, none_loop-not (ms ++ a ∷ []) m, none_loop-not ms m, any_loop-add ms a m),
  omega (arith, length-append ms (a ∷ [])),
  is_empty-add ms a,
)
