-- ===== src/Coordinator.antt =====
-- `response_coordinator_t` of web/restinio/restinio/impl/response_coordinator.hpp.
pub mod Order
pub mod Popping
pub mod Invariant
pub mod Runs
pub mod Refusing
pub mod Resetting
use prj.Prelude.{
  ℕ, zero, suc, ◌+◌, ◌-◌, ◌%◌, Bool, true, false, not, ◌&&◌, ◌||◌, Option, none, some, List, [],
  ◌∷◌, ◌++◌, Bytes, ltb, leb, ◌==◌, if◌then◌else◌, length, get_elem?, set,
}
use prj.Prelude.Outcome.{Outcome, ok, throws, undefined, unfinished, M}
use prj.Prelude.Throwing.{◌>>=◌}
use prj.Contexts.{
  WriteGroup, merge, OutputFlags, Context, initial_flags, new_context, reinit, has_notificator,
  enqueue_group, has_no_groups, is_complete, ContextTable, new_contexts, new_table, is_empty_table,
  is_full, front, back_context, get_by_req_id, push_response_context,
  pop_response_context_nonchecked, pop_response_context, callbacks,
}

-- `response_coordinator_t`.
pub record Coordinator : Type 0 where
  pub request_id_counter : ℕ
  pub closed : Bool
  pub context_table : ContextTable

abbrev pub new_coordinator : ℕ → Coordinator
new_coordinator max_req_count = record {
  request_id_counter = 0;
  closed = false;
  context_table = new_table max_req_count;
}

abbrev pub is_able_to_get_more_messages : Coordinator → Bool
is_able_to_get_more_messages c = not c.closed && not (is_full c.context_table)

-- `register_new_request`. A request id is an `unsigned int` of 32 bits.
unfoldable pub register_new_request : M Coordinator ℕ
register_new_request c = elim (push_response_context c.request_id_counter c.context_table) [
  | ok t ↦ (
    ok c.request_id_counter,
    record c { context_table = t; request_id_counter = (c.request_id_counter + 1) % 4294967296 },
  )
  | throws ↦ (throws, c)
  | undefined ↦ (undefined, c)
  | unfinished ↦ (unfinished, c)
]

-- The end of `append_response`, on the context at this index.
unfoldable pub append_to : ℕ → OutputFlags → WriteGroup → M Coordinator (Unit {0})
append_to index flags wg c =
    let t : ContextTable = c.context_table in
    elim (get_elem? t.contexts index) [
      | none ↦ (undefined, c)
      | some ctx ↦ if ctx.output_flags.final_parts then (throws, c) else (
        ok tt,
        record c {
          context_table = record t {
            contexts = set t.contexts index (record ctx {
              output_flags = flags;
              write_groups = enqueue_group wg ctx.write_groups;
            });
          };
        },
      )
    ]

-- `append_response`.
unfoldable pub append_response : ℕ → OutputFlags → WriteGroup → M Coordinator (Unit {0})
append_response req_id flags wg c =
    if c.closed then (throws, c) else elim (get_by_req_id req_id c.context_table) [
      | ok (some index) ↦ append_to index flags wg c
      | ok none ↦ (throws, c)
      | throws ↦ (throws, c)
      | undefined ↦ (undefined, c)
      | unfinished ↦ (unfinished, c)
    ]

-- The coordinator when the first group of the first context has been taken, which leaves this context.
abbrev pub after_pop : Coordinator → Context → Coordinator
after_pop c rest =
    let t : ContextTable = c.context_table in
    let t' : ContextTable = record t { contexts = set t.contexts t.first_element_index rest } in
    if is_complete rest
    then record c {
      closed = rest.output_flags.final_parts && rest.output_flags.connection_close;
      context_table = pop_response_context_nonchecked t';
    }
    else record c { context_table = t' }

-- `pop_ready_buffers` on the groups of the first context.
unfoldable pub pop_groups : Context → List WriteGroup → M Coordinator (Option (WriteGroup × ℕ))
pop_groups ctx [] c = (ok none, c)
pop_groups ctx (g ∷ gs) c =
    (ok (some (g, ctx.request_id)), after_pop c (record ctx { write_groups = gs }))

unfoldable pub pop_front : Option Context → M Coordinator (Option (WriteGroup × ℕ))
unfolding pop_groups
pop_front none c = (undefined, c)
pop_front (some ctx) c = pop_groups ctx ctx.write_groups c

-- `pop_ready_buffers`: the first group of the first context, with the id of its request.
unfoldable pub pop_ready_buffers : M Coordinator (Option (WriteGroup × ℕ))
unfolding pop_front
pop_ready_buffers c =
    if c.closed
    then (throws, c)
    else if is_empty_table c.context_table
    then (ok none, c)
    else pop_front (front c.context_table) c

-- The loop of `reset`, which runs once for each context: the callbacks that it invokes with an error.
unfoldable pub reset_table : ℕ → ContextTable → Outcome (List ℕ × ContextTable)
reset_table zero t = ok ([], t)
reset_table (suc n) t = elim (front t) [
  | none ↦ undefined
  | some ctx ↦
      let drained : Context = record ctx { write_groups = [] } in
      let t' : ContextTable = record t {
        contexts = set t.contexts t.first_element_index drained;
      } in
      reset_table n (pop_response_context_nonchecked t') >>= λ r.
      ok (callbacks ctx.write_groups ++ r.0, r.1)
]

-- `reset`.
unfoldable pub reset_coordinator : Coordinator → Outcome (List ℕ × Coordinator)
reset_coordinator c = reset_table c.context_table.elements_exists c.context_table >>= λ r.
    ok (r.0, record c { context_table = r.1 })
