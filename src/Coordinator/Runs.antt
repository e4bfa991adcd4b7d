-- ===== src/Coordinator/Runs.antt =====
-- Runs of `response_coordinator_t` in web/restinio/restinio/impl/response_coordinator.hpp: calls in any
-- order, and the requests whose parts they give out.
use prj.Prelude.{
  ℕ, ◌+◌, ◌≤◌, ◌<◌, ◌≡◌, refl, ap, sym, subst, ◌∙◌, ◌⊎◌, inl, inr, false, Option, none, some, List,
  [], ◌∷◌, ◌++◌, arith, Bool-cases, if_true, if_false,
}
use prj.Prelude.Outcome.{Outcome, ok, throws, undefined, unfinished}
use prj.Contexts.{WriteGroup, OutputFlags, Context, is_empty_table}
use prj.Coordinator.{
  Coordinator, register_new_request, append_response, pop_groups, pop_ready_buffers,
}
use prj.Coordinator.Order.{IsCoordinator, front-some}
use prj.Coordinator.Popping.{Next, goes_on, is_over, pop-groups, after_pop-Next}
use prj.Coordinator.Invariant.{register-IsCoordinator, append-IsCoordinator}

-- The id of the request, if a call of `pop_ready_buffers` has given something out.
abbrev pub given : Outcome (Option (WriteGroup × ℕ)) → List ℕ
given (ok (some (g, id))) = id ∷ []
given (ok none) = []
given throws = []
given undefined = []
given unfinished = []

-- A run from one coordinator to another, with the ids of what is given out on the way.
pub data Run : Coordinator → List ℕ → Coordinator → Type 0 where
  stop : (c : Coordinator) → Run c [] c
  register :
      {c d : Coordinator} {ids : List ℕ}
      → c.request_id_counter + 1 < 4294967296
      → Run (register_new_request c).1 ids d
      → Run c ids d
  append :
      {c d : Coordinator} {ids : List ℕ} (id : ℕ) (flags : OutputFlags) (wg : WriteGroup)
      → Run (append_response id flags wg c).1 ids d
      → Run c ids d
  pop :
      {c d : Coordinator} {ids : List ℕ}
      → Run (pop_ready_buffers c).1 ids d
      → Run c (given (pop_ready_buffers c).0 ++ ids) d

-- The numbers do not decrease, and none is below the bound.
abbrev pub IsSortedFrom : ℕ → List ℕ → Type 0
IsSortedFrom low [] = Unit
IsSortedFrom low (id ∷ ids) = (low ≤ id) × IsSortedFrom id ids

lower-IsSortedFrom :
    (low low' : ℕ) (ids : List ℕ) → low ≤ low' → IsSortedFrom low' ids → IsSortedFrom low ids
lower-IsSortedFrom low low' [] h s = tt
lower-IsSortedFrom low low' (id ∷ ids) h s = (let k = s.0 in omega arith, s.1)

-- The result of a pop: the oldest open request is the same or a later one, and what is given out is for
-- the one that was the oldest.
abbrev pub Gives : ℕ → Outcome (Option (WriteGroup × ℕ)) × Coordinator → Type 0
Gives base r =
    (base' : ℕ) × IsCoordinator r.1 base'
    × (base ≤ base')
    × ((given r.0 ≡ []) ⊎ (given r.0 ≡ base ∷ []))

module _ (c : Coordinator) (base : ℕ) (v : IsCoordinator c base) where
  Next-oldest :
      (d : Coordinator) (gs : List WriteGroup) (flags : OutputFlags)
      → Next d base gs flags
      → (base' : ℕ) × IsCoordinator d base' × (base ≤ base')
  Next-oldest d gs flags (goes_on t w o f) = (base, w, omega arith)
  Next-oldest d gs flags (is_over e f w o) = (base + 1, w, omega arith)

  groups-Gives :
      (ctx : Context) (gs : List WriteGroup)
      → c.closed ≡ false
      → base < c.request_id_counter
      → ctx.request_id ≡ base
      → Gives base (pop_groups ctx gs c)
  unfolding pop_groups
  groups-Gives ctx [] open_ some_ id = (base, v, omega arith, inl refl)
  groups-Gives ctx (g ∷ gs) open_ some_ id =
      let (base', w, le) = Next-oldest _ gs _ (after_pop-Next c base v open_ some_ ctx id gs) in
      (base', w, le, inr (ap (λ n. n ∷ []) id))

  pub pop-Gives : Gives base (pop_ready_buffers c)
  unfolding pop_ready_buffers
  pop-Gives = elim (Bool-cases c.closed) [
    | inl t ↦ subst (Gives base) (sym (if_true c.closed _ _ t)) (base, v, omega arith, inl refl)
    | inr open_ ↦ elim (Bool-cases (is_empty_table c.context_table)) [
      | inl e ↦
          subst (Gives base)
            (sym (if_false c.closed _ _ open_ ∙ if_true (is_empty_table c.context_table) _ _ e))
            (base, v, omega arith, inl refl)
      | inr e ↦
          let k = v.counter in
          let (ctx, at, id) = front-some c.context_table base v.table (ground arith) in
          subst (Gives base) (sym (pop-groups c ctx open_ e at))
            (groups-Gives ctx ctx.write_groups open_ (ground arith) id)
    ]
  ]

prepend-IsSortedFrom :
    (base base' : ℕ) (now ids : List ℕ)
    → base ≤ base'
    → ((now ≡ []) ⊎ (now ≡ base ∷ []))
    → IsSortedFrom base' ids
    → IsSortedFrom base (now ++ ids)
prepend-IsSortedFrom base base' now ids le (inl e) s = rw e (lower-IsSortedFrom base base' ids le s)
prepend-IsSortedFrom base base' now ids le (inr e) s =
    rw e (omega arith, lower-IsSortedFrom base base' ids le s)

-- In every run, whatever the order in which responses are appended and whatever is refused, the parts of
-- responses are given out in the order of their requests, as long as the request ids do not wrap around,
-- and the coordinator stays well formed.
pub run-IsSortedFrom :
    (c d : Coordinator) (base : ℕ) (ids : List ℕ)
    → IsCoordinator c base
    → Run c ids d
    → IsSortedFrom base ids × ((base' : ℕ) × IsCoordinator d base')
run-IsSortedFrom c _ base _ v (stop _) = (tt, (base, v))
run-IsSortedFrom c d base ids v (register small r) =
    run-IsSortedFrom _ d base ids (register-IsCoordinator c base v small) r
run-IsSortedFrom c d base ids v (append id flags wg r) =
    run-IsSortedFrom _ d base ids (append-IsCoordinator c base v id flags wg) r
run-IsSortedFrom c d base _ v (pop {ids = ids} r) =
    let (base', w, le, now) = pop-Gives c base v in
    let (sorted, end) = run-IsSortedFrom _ d base' ids w r in
    (prepend-IsSortedFrom base base' (given (pop_ready_buffers c).0) ids le now sorted, end)
