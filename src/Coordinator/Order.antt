-- ===== src/Coordinator/Order.antt =====
-- `register_new_request` and `append_response` of
-- web/restinio/restinio/impl/response_coordinator.hpp.
use native.Mathlib.Nat.{mod-eq_of_lt}
use prj.Prelude.{
  if_false, ℕ, ◌+◌, ◌-◌, ◌%◌, ◌≤◌, ◌<◌, ◌≡◌, refl, ap, sym, ◌∙◌, ◌⊎◌, inl, inr, true, false, ◌||◌,
  Option, none, some, List, [], arith, ltb, Bool-cases, length, get_elem?, set,
}
use prj.Prelude.Outcome.{Outcome, ok, throws, undefined, unfinished}
use prj.Contexts.{
  WriteGroup, OutputFlags, Context, initial_flags, reinit, enqueue_group, ContextTable,
  is_empty_table, is_full, get_by_req_id, push_response_context,
}
use prj.Coordinator.{Coordinator, register_new_request, append_to, append_response}
use prj.Contexts.Ring.{slot, put, get-put_self}
use prj.Contexts.Table.{IsTable, pushed, push-IsTable, put-IsTable}

-- The coordinator has open requests from `base` up to its counter.
pub record IsCoordinator (c : Coordinator) (base : ℕ) : Type 0 where
  pub table : IsTable c.context_table base
  pub counter : c.request_id_counter ≡ base + c.context_table.elements_exists

module _ (t : ContextTable) (base : ℕ) (v : IsTable t base) where
  pub first-slot : slot t 0 ≡ t.first_element_index
  first-slot = ap (λ n. n % length t.contexts) (omega arith) ∙ mod-eq_of_lt v.first_inside

  -- The first context, of a table that is not empty.
  pub front-some :
      0 < t.elements_exists
      → (ctx : Context) × (get_elem? t.contexts t.first_element_index ≡ some ctx)
        × (ctx.request_id ≡ base)
  front-some h =
      let (ctx, at, is) = v.ids 0 h in
      (ctx, ap (get_elem? t.contexts) (sym first-slot) ∙ at, is ∙ omega arith)

  pub known :
      (id : ℕ)
      → base ≤ id
      → id < base + t.elements_exists
      → get_by_req_id id t ≡ ok (some (slot t (id - base)))
  unfolding get_by_req_id
  known id ge lt =
      let (f, at_front, first) = front-some (omega arith) in
      let (b, at_back, last) = v.ids (t.elements_exists - 1) (omega arith) in
      let e : is_empty_table t ≡ false = ground arith in
      let inside : (ltb id f.request_id || ltb b.request_id id) ≡ false = ground arith in
      rw (get_by_req_id, e, at_front, at_back, inside, first) refl

  pub unknown :
      (id : ℕ) → ((id < base) ⊎ (base + t.elements_exists ≤ id)) → get_by_req_id id t ≡ ok none
  unfolding get_by_req_id
  unknown id h = elim (Bool-cases (is_empty_table t)) [
    | inl e ↦ rw (get_by_req_id, e) refl
    | inr e ↦
        let (f, at_front, first) = front-some (ground arith) in
        let (b, at_back, last) = v.ids (t.elements_exists - 1) (ground arith) in
        let outside : (ltb id f.request_id || ltb b.request_id id) ≡ true = ground arith in
        rw (get_by_req_id, e, at_front, at_back, outside) refl
  ]

pub some_inj : (i j : ℕ) → ◌≡◌ {A = Outcome (Option ℕ)} (ok (some i)) (ok (some j)) → i ≡ j
some_inj i j e = cc

pub ctx_inj : (x y : Context) → ◌≡◌ {A = Option Context} (some x) (some y) → x ≡ y
ctx_inj x y e = cc

pub append_response-open :
    (id index : ℕ) (flags : OutputFlags) (wg : WriteGroup) (c : Coordinator)
    → c.closed ≡ false
    → get_by_req_id id c.context_table ≡ ok (some index)
    → append_response id flags wg c ≡ append_to index flags wg c
unfolding append_response
append_response-open id index flags wg c open_ found =
    let step : append_response id flags wg c ≡ (elim (get_by_req_id id c.context_table) [
      | ok (some i) ↦ append_to i flags wg c
      | ok none ↦ (throws, c)
      | throws ↦ (throws, c)
      | undefined ↦ (undefined, c)
      | unfinished ↦ (unfinished, c)
    ]) =
      if_false c.closed (throws, c) _ open_ in
    step ∙ rw found refl

pub append_to-some :
    (index : ℕ) (flags : OutputFlags) (wg : WriteGroup) (c : Coordinator) (ctx : Context)
    → get_elem? c.context_table.contexts index ≡ some ctx
    → ctx.output_flags.final_parts ≡ false
    → let t : ContextTable = c.context_table in
      append_to index flags wg c ≡ (
        ok tt,
        record c {
          context_table = record t {
            contexts = set t.contexts index (record ctx {
              output_flags = flags;
              write_groups = enqueue_group wg ctx.write_groups;
            });
          };
        },
      )
unfolding append_to
append_to-some index flags wg c ctx at more = rw (append_to, at, more) refl

-- The coordinator has a context for the request, with these groups and these flags.
pub record Finds (c : Coordinator) (id : ℕ) (groups : List WriteGroup) (flags : OutputFlags)
    : Type 0 where
  pub index : ℕ
  pub ctx : Context
  pub found : get_by_req_id id c.context_table ≡ ok (some index)
  pub at : get_elem? c.context_table.contexts index ≡ some ctx
  pub same_groups : ctx.write_groups ≡ groups
  pub same_flags : ctx.output_flags ≡ flags

module _ (c : Coordinator) (base : ℕ) (v : IsCoordinator c base) where
  -- A coordinator that is not full gives a new request the next id, and a context in which nothing is left
  -- of an earlier request; ids do not wrap around before 2 to the power of 32.
  pub register_new_request-Finds :
      c.context_table.elements_exists < length c.context_table.contexts
      → c.request_id_counter + 1 < 4294967296
      → (c' : Coordinator) × (register_new_request c ≡ (ok c.request_id_counter, c'))
        × IsCoordinator c' base
        × Finds c' c.request_id_counter [] initial_flags
  unfolding register_new_request
  register_new_request-Finds room small =
      let t : ContextTable = c.context_table in
      let n : ℕ = t.elements_exists in
      let (old, bare, done, table) = push-IsTable t base v.table room in
      let t' : ContextTable = pushed t (base + n) old in
      let c' : Coordinator = record c {
        context_table = t';
        request_id_counter = c.request_id_counter + 1;
      } in
      let e : (c.request_id_counter + 1) % 4294967296 ≡ c.request_id_counter + 1 =
        mod-eq_of_lt small in
      let k : c.request_id_counter ≡ base + n = v.counter in
      let done' : push_response_context c.request_id_counter t ≡ ok t' = rw k done in
      let (new, at, is) = table.ids n (omega arith) in
      (
        c',
        rw (register_new_request, done', e) refl,
        record { table = table; counter = omega arith },
        record {
          index = slot t' n;
          ctx = reinit (base + n) old;
          found =
              known t' base table c.request_id_counter (omega arith) (omega arith)
              ∙ ap (λ i. ok (some (slot t' i))) (omega arith);
          at = get-put_self t n (reinit (base + n) old) v.table.first_inside room;
          same_groups = bare;
          same_flags = refl;
        },
      )

  -- A full coordinator refuses a new request and stays as it is.
  pub register_new_request_full :
      c.context_table.elements_exists ≡ length c.context_table.contexts
      → register_new_request c ≡ (throws, c)
  unfolding register_new_request push_response_context
  register_new_request_full h =
      let full : is_full c.context_table ≡ true = ground arith in
      rw (register_new_request, push_response_context, full) refl

  -- The contexts of the open requests.
  pub context_of :
      (id : ℕ)
      → base ≤ id
      → id < c.request_id_counter
      → (ctx : Context) × (get_by_req_id id c.context_table
          ≡ ok (some (slot c.context_table (id - base))))
        × (get_elem? c.context_table.contexts (slot c.context_table (id - base)) ≡ some ctx)
        × (ctx.request_id ≡ base + (id - base))
  context_of id ge lt =
      let k = v.counter in
      let (ctx, at, is) = v.table.ids (id - base) (omega arith) in
      (ctx, known c.context_table base v.table id ge (omega arith), at, is)

  -- A part of a response to an open request that is not complete is queued behind what is there already,
  -- and its flags replace the earlier ones; the queue of requests stays.
  pub append_response-Finds :
      (id : ℕ) (flags old_flags : OutputFlags) (wg : WriteGroup) (groups : List WriteGroup)
      → c.closed ≡ false
      → base ≤ id
      → id < c.request_id_counter
      → Finds c id groups old_flags
      → old_flags.final_parts ≡ false
      → (c' : Coordinator) × (append_response id flags wg c ≡ (ok tt, c'))
        × IsCoordinator c' base
        × Finds c' id (enqueue_group wg groups) flags
  append_response-Finds id flags old_flags wg groups open_ ge lt x more =
      let t : ContextTable = c.context_table in
      let (ctx, found, at, is) = context_of id ge lt in
      let place : ℕ = slot t (id - base) in
      let same_place : x.index ≡ place = some_inj _ _ (sym x.found ∙ found) in
      let same : x.ctx ≡ ctx =
        ctx_inj _ _ (sym x.at ∙ (ap (get_elem? t.contexts) same_place ∙ at)) in
      let ctx' : Context = record ctx {
        output_flags = flags;
        write_groups = enqueue_group wg ctx.write_groups;
      } in
      let k = v.counter in
      let before : id - base < t.elements_exists = omega arith in
      let table : IsTable (put t (id - base) ctx') base =
        put-IsTable t base v.table (id - base) ctx' before is in
      let not_final : ctx.output_flags.final_parts ≡ false =
        sym (ap (λ (y : Context). y.output_flags.final_parts) same)
        ∙ (ap (λ (y : OutputFlags). y.final_parts) x.same_flags ∙ more) in
      (
        record c { context_table = put t (id - base) ctx' },
        append_response-open id place flags wg c open_ found
            ∙ append_to-some place flags wg c ctx at not_final,
        record { table = table; counter = k },
        record {
          index = slot (put t (id - base) ctx') (id - base);
          ctx = ctx';
          found = known (put t (id - base) ctx') base table id ge (omega arith);
          at =
              get-put_self t (id - base) ctx' v.table.first_inside
                (let o = v.table.not_over in omega arith);
          same_groups =
              ap (enqueue_group wg)
                (sym (ap (λ (y : Context). y.write_groups) same) ∙ x.same_groups);
          same_flags = refl;
        },
      )
