-- ===== src/Coordinator/Popping.antt =====
-- `pop_ready_buffers` of web/restinio/restinio/impl/response_coordinator.hpp.
use prj.Prelude.{
  if_false, ℕ, ◌+◌, ◌-◌, ◌<◌, ◌≡◌, refl, ap, sym, subst, ◌∙◌, inl, inr, true, false, ◌&&◌, none,
  some, List, [], ◌∷◌, arith, if◌then◌else◌, Bool-cases, get_elem?, set, get_elem?-set_self,
}
use prj.Prelude.Outcome.{ok, throws}
use prj.Contexts.{
  WriteGroup, OutputFlags, Context, is_complete, ContextTable, is_empty_table, front,
  pop_response_context_nonchecked,
}
use prj.Coordinator.{Coordinator, pop_ready_buffers, pop_groups, pop_front, after_pop}
use prj.Contexts.Ring.{slot}
use prj.Contexts.Table.{IsTable, put-IsTable, pop-IsTable}
use prj.Coordinator.Order.{IsCoordinator, Finds, some_inj, ctx_inj, first-slot, known, context_of}

module _ (c : Coordinator) (ctx : Context) where
  pub pop-groups :
      c.closed ≡ false
      → is_empty_table c.context_table ≡ false
      → front c.context_table ≡ some ctx
      → pop_ready_buffers c ≡ pop_groups ctx ctx.write_groups c
  unfolding pop_ready_buffers pop_front
  pop-groups open_ some_ at =
      if_false c.closed (throws, c) _ open_
      ∙ (if_false (is_empty_table c.context_table) (ok none, c) _ some_
          ∙ ap (λ o. pop_front o c) at)

module _ (c : Coordinator) (base : ℕ) (v : IsCoordinator c base) (open_ : c.closed ≡ false)
    (some_ : base < c.request_id_counter) (groups : List WriteGroup) (flags : OutputFlags)
    (x : Finds c base groups flags) where
  oldest :
      (ctx : Context) × (front c.context_table ≡ some ctx)
      × (ctx.request_id ≡ base)
      × (ctx.write_groups ≡ groups)
      × (ctx.output_flags ≡ flags)
  oldest =
      let t : ContextTable = c.context_table in
      let (ctx, found, at, is) = context_of c base v base (omega arith) some_ in
      let here : slot t (base - base) ≡ t.first_element_index =
        ap (slot t) (omega arith) ∙ first-slot t base v.table in
      let same_place : x.index ≡ slot t (base - base) = some_inj _ _ (sym x.found ∙ found) in
      let same : x.ctx ≡ ctx =
        ctx_inj _ _ (sym x.at ∙ (ap (get_elem? t.contexts) same_place ∙ at)) in
      (
        ctx,
        ap (get_elem? t.contexts) (sym here) ∙ at,
        is ∙ omega arith,
        sym (ap (λ (y : Context). y.write_groups) same) ∙ x.same_groups,
        sym (ap (λ (y : Context). y.output_flags) same) ∙ x.same_flags,
      )

  pop-oldest :
      (ctx : Context) × (pop_ready_buffers c ≡ pop_groups ctx groups c)
      × (ctx.request_id ≡ base)
      × (ctx.output_flags ≡ flags)
  pop-oldest =
      let (ctx, at, id, same_groups, same_flags) = oldest in
      let k = v.counter in
      (
        ctx,
        pop-groups c ctx open_ (ground arith) at ∙ ap (λ gs. pop_groups ctx gs c) same_groups,
        id,
        same_flags,
      )

-- While the oldest open request has nothing to send, nothing is given out, whatever later requests have.
pop_ready_buffers-waits :
    (c : Coordinator) (base : ℕ) (flags : OutputFlags)
    → IsCoordinator c base
    → c.closed ≡ false
    → base < c.request_id_counter
    → Finds c base [] flags
    → pop_ready_buffers c ≡ (ok none, c)
unfolding pop_groups
pop_ready_buffers-waits c base flags v open_ some_ x =
    let (ctx, popped, id, same) = pop-oldest c base v open_ some_ [] flags x in popped

-- The response goes on, since there is more of it or its last part is still to come; or it is over, so
-- that the next request is the oldest one, and the connection is closed if the response says so.
pub data Next (c : Coordinator) (base : ℕ) (gs : List WriteGroup) (flags : OutputFlags)
    : Type 0 where
  goes_on :
      (gs ≡ [] → flags.final_parts ≡ false)
      → IsCoordinator c base
      → c.closed ≡ false
      → Finds c base gs flags
      → Next c base gs flags
  is_over :
      gs ≡ []
      → flags.final_parts ≡ true
      → IsCoordinator c (base + 1)
      → c.closed ≡ flags.connection_close
      → Next c base gs flags

no_groups :
    (ctx : Context) (gs : List WriteGroup)
    → is_complete (record ctx { write_groups = gs }) ≡ true
    → (gs ≡ []) × (ctx.output_flags.final_parts ≡ true)
no_groups ctx [] h = (refl, h)
no_groups ctx (g ∷ gs) h = cc

not_final :
    (ctx : Context) (gs : List WriteGroup)
    → is_complete (record ctx { write_groups = gs }) ≡ false
    → gs ≡ []
    → ctx.output_flags.final_parts ≡ false
not_final ctx [] h e = h
not_final ctx (g ∷ gs) h e = cc

module _ (c : Coordinator) (base : ℕ) (v : IsCoordinator c base) (open_ : c.closed ≡ false)
    (some_ : base < c.request_id_counter) (ctx : Context) (id : ctx.request_id ≡ base)
    (gs : List WriteGroup) where
  abbrev remaining : Context
  remaining = record ctx { write_groups = gs }

  abbrev remaining_table : ContextTable
  remaining_table =
      let t : ContextTable = c.context_table in
      record t { contexts = set t.contexts t.first_element_index remaining }

  abbrev continued : Coordinator
  continued = record c { context_table = remaining_table }

  abbrev finished : Coordinator
  finished = record c {
    closed = ctx.output_flags.final_parts && ctx.output_flags.connection_close;
    context_table = pop_response_context_nonchecked remaining_table;
  }

  remaining_table-IsTable : IsTable remaining_table base
  remaining_table-IsTable =
      let t : ContextTable = c.context_table in
      let k = v.counter in
      subst (λ p. IsTable (record t { contexts = set t.contexts p remaining }) base)
        (first-slot t base v.table)
        (put-IsTable t base v.table 0 remaining (omega arith) (id ∙ omega arith))

  front-remaining_table :
      get_elem? remaining_table.contexts remaining_table.first_element_index ≡ some remaining
  front-remaining_table =
      get_elem?-set_self c.context_table.contexts c.context_table.first_element_index remaining
        v.table.first_inside

  continued-Next : is_complete remaining ≡ false → Next continued base gs ctx.output_flags
  continued-Next f =
      let k = v.counter in
      goes_on (not_final ctx gs f) (record { table = remaining_table-IsTable; counter = k }) open_
        (record {
          index = slot remaining_table (base - base);
          ctx = remaining;
          found =
              known remaining_table base remaining_table-IsTable base (omega arith) (omega arith);
          at =
              ap (get_elem? remaining_table.contexts) (
                ap (slot remaining_table) (omega arith)
                ∙ first-slot remaining_table base remaining_table-IsTable)
              ∙ front-remaining_table;
          same_groups = refl;
          same_flags = refl;
        })

  finished-Next : is_complete remaining ≡ true → Next finished base gs ctx.output_flags
  finished-Next t =
      let k = v.counter in
      let (none_left, final) = no_groups ctx gs t in
      is_over none_left final
        (record {
          table =
              pop-IsTable remaining_table base remaining_table-IsTable remaining (omega arith)
                front-remaining_table none_left;
          counter = omega arith;
        })
        (ap (λ b. b && ctx.output_flags.connection_close) final)

  pub after_pop-Next : Next (after_pop c remaining) base gs ctx.output_flags
  after_pop-Next = elim (Bool-cases (is_complete remaining)) [
    | inl t ↦
        subst (λ d. Next d base gs ctx.output_flags)
          (sym (ap (λ b. if b then finished else continued) t)) (finished-Next t)
    | inr f ↦
        subst (λ d. Next d base gs ctx.output_flags)
          (sym (ap (λ b. if b then finished else continued) f)) (continued-Next f)
  ]

-- What is given out is the first group of the oldest open request, with its id. If groups of that
-- request remain, or its last part has not come yet, it stays the oldest one, with the groups that remain,
-- and the coordinator stays open. Otherwise the next request is the oldest one, and the coordinator counts
-- as closed exactly if the response says so.
pub pop_ready_buffers-Next :
    (c : Coordinator) (base : ℕ) (g : WriteGroup) (gs : List WriteGroup) (flags : OutputFlags)
    → IsCoordinator c base
    → c.closed ≡ false
    → base < c.request_id_counter
    → Finds c base (g ∷ gs) flags
    → (c' : Coordinator) × (pop_ready_buffers c ≡ (ok (some (g, base)), c')) × Next c' base gs flags
unfolding pop_groups
pop_ready_buffers-Next c base g gs flags v open_ some_ x =
    let (ctx, popped, id, same) = pop-oldest c base v open_ some_ (g ∷ gs) flags x in
    (
      after_pop c (record ctx { write_groups = gs }),
      popped ∙ ap (λ n. (ok (some (g, n)), after_pop c (record ctx { write_groups = gs }))) id,
      subst (Next (after_pop c (record ctx { write_groups = gs })) base gs) same
          (after_pop-Next c base v open_ some_ ctx id gs),
    )
