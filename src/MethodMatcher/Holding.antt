-- ===== src/MethodMatcher/Holding.antt =====
-- `buffered_matcher_holder_t` of web/restinio/restinio/router/method_matcher.hpp from its construction
-- to its destruction.
use prj.Prelude.{
  ℕ, ◌≡◌, refl, ap, inl, inr, ◌≢◌, leb, Bool, Bool-cases, Option, none, some, List, [], ◌∷◌, ◌++◌,
}
use prj.Prelude.Outcome.{Outcome, ok, throws, undefined, unfinished}
use prj.MethodMatcher.{
  MethodId, Matcher, allocated_proxy, match, Holder, null, live, destroyed, cleanup, destroy,
  move_from, move_construct, move_assign, assign, holder_match,
}

module _ (size_of : Matcher → ℕ) (buffer_size : ℕ) where
  -- An assignment to a holder whose matcher is not destroyed succeeds, and then the holder has a matcher
  -- that answers as the given one does, whether it lies in the buffer or behind a proxy.
  assign-live :
      (this : Holder) (target : Matcher)
      → this ≢ destroyed
      → (k : Matcher) × (assign size_of buffer_size this target ≡ ok (live k))
        × ((m : MethodId) → match k m ≡ match target m)
  unfolding assign cleanup match
  assign-live null target u = elim (Bool-cases (leb (size_of target) buffer_size)) [
    | inl small ↦ (target, rw small refl, λ m. refl)
    | inr large ↦ (allocated_proxy target, rw large refl, λ m. refl)
  ]
  assign-live (live x) target u = elim (Bool-cases (leb (size_of target) buffer_size)) [
    | inl small ↦ (target, rw small refl, λ m. refl)
    | inr large ↦ (allocated_proxy target, rw large refl, λ m. refl)
  ]
  assign-live destroyed target u = absurd (u refl)

  pub assign-match :
      (this : Holder) (target : Matcher)
      → this ≢ destroyed
      → (h : Holder) × (assign size_of buffer_size this target ≡ ok h)
        × ((m : MethodId) → holder_match h m ≡ ok (match target m))
  unfolding holder_match
  assign-match this target u =
      let (k, e, same) = assign-live this target u in (live k, e, λ m. ap ok (same m))

-- What is done with a holder, from its default construction to its destruction: `moves k` is a move
-- assignment from another holder that has been assigned `k`, `moves_empty` one from a holder that has
-- not been assigned to, and `relocates` goes on with a holder that is move-constructed from this one; the
-- source of a move is then destroyed.
pub data HolderOp : Type 0 where
  assigns : Matcher → HolderOp
  moves : Matcher → HolderOp
  moves_empty relocates : HolderOp
  asks : MethodId → HolderOp

abbrev and_then : {A B : Type 0} → Outcome A → (A → Outcome B) → Outcome B
and_then (ok a) f = f a
and_then throws f = throws
and_then undefined f = undefined
and_then unfinished f = unfinished

-- The result of a move, once its source is destroyed.
after_move : Outcome (Holder × Holder) → Outcome (Holder × List Bool)
unfolding destroy
after_move moved = and_then moved (λ r. and_then (destroy r.1) (λ _. ok (r.0, [])))

move_in : Holder → Holder → Outcome (Holder × List Bool)
unfolding move_assign after_move
move_in this other = after_move (move_assign this other)

module _ (size_of : Matcher → ℕ) (buffer_size : ℕ) where
  -- One use of the holder, with the answer to a question.
  use_holder : HolderOp → Holder → Outcome (Holder × List Bool)
  unfolding assign holder_match move_in after_move move_construct
  use_holder (assigns k) h = and_then (assign size_of buffer_size h k) (λ h'. ok (h', []))
  use_holder (moves k) h = and_then (assign size_of buffer_size null k) (move_in h)
  use_holder moves_empty h = move_in h null
  use_holder relocates h = after_move (move_construct h)
  use_holder (asks m) h = and_then (holder_match h m) (λ b. ok (h, b ∷ []))

  -- All uses of a holder and its destruction, with the answers.
  pub lifetime : List HolderOp → Holder → Outcome (List Bool)
  unfolding use_holder destroy
  lifetime [] h = and_then (destroy h) (λ _. ok [])
  lifetime (op ∷ ops) h =
      and_then (use_holder op h) (λ r. and_then (lifetime ops r.0) (λ answers. ok (r.1 ++ answers)))

abbrev answered : Bool → Option (List Bool) → Option (List Bool)
answered b none = none
answered b (some answers) = some (b ∷ answers)

-- The answers of the matcher that was given last; none if an empty holder is asked, or one with a matcher is
-- move-assigned from an empty one.
unfoldable pub expected : Option Matcher → List HolderOp → Option (List Bool)
expected o [] = some []
expected o (assigns k ∷ ops) = expected (some k) ops
expected o (moves k ∷ ops) = expected (some k) ops
expected none (moves_empty ∷ ops) = expected none ops
expected (some k) (moves_empty ∷ ops) = none
expected o (relocates ∷ ops) = expected o ops
expected none (asks m ∷ ops) = none
expected (some k) (asks m ∷ ops) = answered (match k m) (expected (some k) ops)

abbrev pub defined_if : Option (List Bool) → Outcome (List Bool)
defined_if none = undefined
defined_if (some answers) = ok answers

-- A holder that is empty, or has a matcher that answers as the given one.
data Holds : Holder → Option Matcher → Type 0 where
  holds_none : Holds null none
  holds_some :
      (k target : Matcher)
      → ((m : MethodId) → match k m ≡ match target m)
      → Holds (live k) (some target)

Holds-usable : {h : Holder} {o : Option Matcher} → Holds h o → h ≢ destroyed
Holds-usable holds_none e = cc
Holds-usable (holds_some k target same) e = cc

unanswered :
    (r : Option (List Bool)) → and_then (defined_if r) (λ answers. ok answers) ≡ defined_if r
unanswered none = refl
unanswered (some answers) = refl

one_answer :
    (b : Bool) (r : Option (List Bool))
    → and_then (defined_if r) (λ answers. ok (b ∷ answers)) ≡ defined_if (answered b r)
one_answer b none = refl
one_answer b (some answers) = refl

module _ (size_of : Matcher → ℕ) (buffer_size : ℕ) where
  -- Nothing is defined for a holder whose matcher is destroyed, the destructor neither.
  lifetime_destroyed :
      (ops : List HolderOp) → lifetime size_of buffer_size ops destroyed ≡ undefined
  unfolding lifetime use_holder move_in after_move destroy assign move_assign move_construct
      move_from cleanup holder_match
  lifetime_destroyed [] = refl
  lifetime_destroyed (assigns k ∷ ops) = refl
  lifetime_destroyed (moves k ∷ ops) =
      let (k', e, same) = assign-live size_of buffer_size null k (λ e. cc) in rw e refl
  lifetime_destroyed (moves_empty ∷ ops) = refl
  lifetime_destroyed (relocates ∷ ops) = refl
  lifetime_destroyed (asks m ∷ ops) = refl

  -- A matcher is moved into a holder whose matcher is not destroyed.
  move_in-live : (h : Holder) (k : Matcher) → h ≢ destroyed → move_in h (live k) ≡ ok (live k, [])
  unfolding move_in after_move destroy move_assign cleanup move_from
  move_in-live null k u = refl
  move_in-live (live x) k u = refl
  move_in-live destroyed k u = absurd (u refl)

  lifetime-Holds :
      (ops : List HolderOp) {h : Holder} {o : Option Matcher}
      → Holds h o
      → lifetime size_of buffer_size ops h ≡ defined_if (expected o ops)
  unfolding lifetime use_holder move_in after_move destroy move_assign move_construct cleanup
      move_from holder_match expected
  lifetime-Holds [] holds_none = refl
  lifetime-Holds [] (holds_some k target same) = refl
  lifetime-Holds (assigns k ∷ ops) {h} {o} v =
      let (k', e, same) = assign-live size_of buffer_size h k (Holds-usable v) in
      rw (e, lifetime-Holds ops (holds_some k' k same)) (unanswered (expected (some k) ops))
  lifetime-Holds (moves k ∷ ops) {h} {o} v =
      let (k', e, same) = assign-live size_of buffer_size null k (λ e. cc) in
      rw (e, move_in-live h k' (Holds-usable v), lifetime-Holds ops (holds_some k' k same))
        (unanswered (expected (some k) ops))
  lifetime-Holds (moves_empty ∷ ops) holds_none =
      rw (lifetime-Holds ops holds_none) (unanswered (expected none ops))
  lifetime-Holds (moves_empty ∷ ops) (holds_some k target same) = rw (lifetime_destroyed ops) refl
  lifetime-Holds (relocates ∷ ops) holds_none =
      rw (lifetime-Holds ops holds_none) (unanswered (expected none ops))
  lifetime-Holds (relocates ∷ ops) (holds_some k target same) =
      rw (lifetime-Holds ops (holds_some k target same)) (unanswered (expected (some target) ops))
  lifetime-Holds (asks m ∷ ops) holds_none = refl
  lifetime-Holds (asks m ∷ ops) (holds_some k target same) =
      rw (same m, lifetime-Holds ops (holds_some k target same))
        (one_answer (match target m) (expected (some target) ops))

-- From its construction to its destruction, whatever is done in between, a holder answers every question
-- as the matcher that it was given last, by an assignment or by a move from another holder, also when it
-- has been moved on to a new holder in between; exactly if it is asked while it is empty, or is
-- move-assigned from an empty holder while it has a matcher, its life is undefined behaviour.
pub lifetime-expected :
    (size_of : Matcher → ℕ) (buffer_size : ℕ) (ops : List HolderOp)
    → lifetime size_of buffer_size ops null ≡ defined_if (expected none ops)
lifetime-expected size_of buffer_size ops = lifetime-Holds size_of buffer_size ops holds_none
