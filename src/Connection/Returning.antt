-- ===== src/Connection/Returning.antt =====
-- How the calls of web/restinio/restinio/impl/response_coordinator.hpp return that a connection makes.
use native.Mathlib.Decide.{dec_lt}
use prj.Prelude.{
  ℕ, zero, suc, ◌≡◌, refl, sym, ap, subst, ◌∙◌, ◌⊎◌, inl, inr, false, Option, none, some, List, [],
  ◌∷◌, arith, Bool-cases, if_true, if_false, length, get_elem?, set,
}
use prj.Prelude.Outcome.{Outcome, ok, throws}
use prj.Contexts.{WriteGroup, OutputFlags, Context, is_empty_table, is_complete, front}
use prj.Coordinator.{
  Coordinator, append_to, append_response, after_pop, pop_groups, pop_ready_buffers,
}
use prj.Coordinator.Order.{IsCoordinator, unknown, context_of, front-some}
use prj.Coordinator.Invariant.{if_both}
use prj.Coordinator.Popping.{pop-groups}
use prj.Connection.{queued}

-- A part of a response is queued, or refused.
abbrev pub Returns : Outcome (Unit {0}) × Coordinator → Type 0
Returns r = ((r.0 ≡ ok tt) × (r.1.closed ≡ false)) ⊎ (r.0 ≡ throws)

pub append-Returns :
    (c : Coordinator) (base : ℕ)
    → IsCoordinator c base
    → c.closed ≡ false
    → (id : ℕ) (flags : OutputFlags) (wg : WriteGroup) → Returns (append_response id flags wg c)
unfolding append_response append_to
append-Returns c base v open_ id flags wg = if_both Returns c.closed _ _ (inr refl) (
    let k = v.counter in
    elim (dec_lt id base) [
      | yes l ↦ rw (unknown c.context_table base v.table id (inl l)) (inr refl)
      | no ge ↦ elim (dec_lt id c.request_id_counter) [
        | yes lt ↦
            let (ctx, found, at, is) = context_of c base v id (omega arith) lt in
            rw (found, append_to, at)
              (if_both Returns ctx.output_flags.final_parts _ _ (inr refl) (inl (refl, open_)))
        | no le ↦ rw (unknown c.context_table base v.table id (inr (omega arith))) (inr refl)
      ]
    ])

-- One group fewer.
queued-set :
    (contexts : List Context) (i : ℕ) (x y : Context)
    → get_elem? contexts i ≡ some x
    → length x.write_groups ≡ suc (length y.write_groups)
    → suc (queued (set contexts i y)) ≡ queued contexts
queued-set [] i x y at less = cc
queued-set (ctx ∷ contexts) zero x y at less =
    let same : ctx ≡ x = cc in
    let size : length ctx.write_groups ≡ length x.write_groups =
      ap (λ (k : Context). length k.write_groups) same in
    omega arith
queued-set (ctx ∷ contexts) (suc i) x y at less =
    let rest = queued-set contexts i x y at less in omega arith

-- Nothing is given out and nothing changes, or a group is given out and one fewer waits.
abbrev pub Popped : Coordinator → Outcome (Option (WriteGroup × ℕ)) × Coordinator → Type 0
Popped c r =
    (r ≡ (ok none, c))
    ⊎ ((g : WriteGroup) × (id : ℕ) × (d : Coordinator) × (r ≡ (ok (some (g, id)), d))
        × (suc (queued d.context_table.contexts) ≡ queued c.context_table.contexts))

pop_groups-Popped :
    (c : Coordinator) (ctx : Context) (gs : List WriteGroup)
    → front c.context_table ≡ some ctx
    → ctx.write_groups ≡ gs
    → Popped c (pop_groups ctx gs c)
unfolding pop_groups
pop_groups-Popped c ctx [] at e = inl refl
pop_groups-Popped c ctx (g ∷ gs) at e =
    let rest : Context = record ctx { write_groups = gs } in
    let fewer =
      queued-set c.context_table.contexts c.context_table.first_element_index ctx rest at
        (ap length e) in
    inr (
      g,
      ctx.request_id,
      after_pop c rest,
      refl,
      if_both
          (λ (d : Coordinator).
            suc (queued d.context_table.contexts) ≡ queued c.context_table.contexts)
          (is_complete rest) _ _ fewer fewer,
    )

pub pop-Popped :
    (c : Coordinator) (base : ℕ)
    → IsCoordinator c base
    → c.closed ≡ false
    → Popped c (pop_ready_buffers c)
unfolding pop_ready_buffers
pop-Popped c base v open_ = elim (Bool-cases (is_empty_table c.context_table)) [
  | inl e ↦ inl (if_false c.closed _ _ open_ ∙ if_true (is_empty_table c.context_table) _ _ e)
  | inr e ↦
      let (ctx, at, id) = front-some c.context_table base v.table (ground arith) in
      subst (Popped c) (sym (pop-groups c ctx open_ e at))
        (pop_groups-Popped c ctx ctx.write_groups at refl)
]
