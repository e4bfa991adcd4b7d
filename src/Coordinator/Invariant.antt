-- ===== src/Coordinator/Invariant.antt =====
-- The calls of web/restinio/restinio/impl/response_coordinator.hpp and the queue of open requests.
use native.Mathlib.Decide.{dec_lt}
use native.Mathlib.Nat.{mod-eq_of_lt}
use prj.Prelude.{
  ℕ, zero, suc, ◌+◌, ◌-◌, ◌%◌, ◌≤◌, ◌<◌, ◌≡◌, refl, ap, sym, subst, ◌∙◌, inl, inr, Bool, true,
  false, some, arith, if◌then◌else◌, length, get_elem?,
}
use prj.Prelude.Outcome.{Outcome}
use prj.Contexts.{WriteGroup, OutputFlags, Context, new_context, new_contexts, enqueue_group}
use prj.Coordinator.{Coordinator, new_coordinator, register_new_request, append_to, append_response}
use prj.Contexts.Ring.{slot}
use prj.Contexts.Table.{put-IsTable}
use prj.Coordinator.Order.{
  IsCoordinator, known, unknown, context_of, register_new_request-Finds, register_new_request_full,
}

pub if_both :
    {A : Type 0} (P : A → Type 0) (b : Bool) (x y : A) → P x → P y → P (if b then x else y)
if_both P true x y p q = p
if_both P false x y p q = q

module _ (c : Coordinator) (base : ℕ) (v : IsCoordinator c base) where
  append_to-IsCoordinator :
      (id : ℕ) (flags : OutputFlags) (wg : WriteGroup)
      → base ≤ id
      → id < c.request_id_counter
      → IsCoordinator (append_to (slot c.context_table (id - base)) flags wg c).1 base
  unfolding append_to
  append_to-IsCoordinator id flags wg ge lt =
      let (ctx, found, at, is) = context_of c base v id ge lt in
      let k = v.counter in
      let ctx' : Context = record ctx {
        output_flags = flags;
        write_groups = enqueue_group wg ctx.write_groups;
      } in
      rw (append_to, at)
        (if_both (λ (r : Outcome (Unit {0}) × Coordinator). IsCoordinator r.1 base)
          ctx.output_flags.final_parts _ _ v
          (record {
            table = put-IsTable c.context_table base v.table (id - base) ctx' (omega arith) is;
            counter = k;
          }))

  pub append-IsCoordinator :
      (id : ℕ) (flags : OutputFlags) (wg : WriteGroup)
      → IsCoordinator (append_response id flags wg c).1 base
  unfolding append_response
  append-IsCoordinator id flags wg =
      if_both (λ (r : Outcome (Unit {0}) × Coordinator). IsCoordinator r.1 base) c.closed _ _ v
        (let k = v.counter in
          elim (dec_lt id base) [
            | yes l ↦ rw (unknown c.context_table base v.table id (inl l)) v
            | no ge ↦ elim (dec_lt id c.request_id_counter) [
              | yes lt ↦
                  rw (known c.context_table base v.table id (omega arith) (omega arith))
                    (append_to-IsCoordinator id flags wg (omega arith) lt)
              | no le ↦ rw (unknown c.context_table base v.table id (inr (omega arith))) v
            ]
          ])

  pub register-IsCoordinator :
      c.request_id_counter + 1 < 4294967296 → IsCoordinator (register_new_request c).1 base
  register-IsCoordinator small =
      elim (dec_lt c.context_table.elements_exists (length c.context_table.contexts)) [
        | yes room ↦
            let (c', e, w, found) = register_new_request-Finds c base v room small in
            subst (λ (r : Outcome ℕ × Coordinator). IsCoordinator r.1 base) (sym e) w
        | no full ↦
            let o = v.table.not_over in
            subst (λ (r : Outcome ℕ × Coordinator). IsCoordinator r.1 base)
              (sym (register_new_request_full c base v (omega arith))) v
      ]

length-new_contexts : (n : ℕ) → length (new_contexts n) ≡ n
length-new_contexts zero = refl
length-new_contexts (suc n) = ap suc (length-new_contexts n)

get_elem?-new_contexts : (n i : ℕ) → i < n → get_elem? (new_contexts n) i ≡ some new_context
get_elem?-new_contexts zero i h = elim h [ ]
get_elem?-new_contexts (suc n) zero h = refl
get_elem?-new_contexts (suc n) (suc i) h = get_elem?-new_contexts n i (omega arith)

-- A new coordinator with room for a request is such a coordinator.
pub new_coordinator-IsCoordinator : (n : ℕ) → 0 < n → IsCoordinator (new_coordinator n) 0
new_coordinator-IsCoordinator n h =
    let size : length (new_contexts n) ≡ n = length-new_contexts n in
    record {
      table = record {
        first_inside = omega arith;
        not_over = omega arith;
        ids = λ i l. absurd (omega arith);
        free = λ i le l.
            let inside : i < n = omega arith in
            let here : (0 + i) % length (new_contexts n) ≡ i =
              ap (λ m. m % length (new_contexts n)) (omega arith) ∙ mod-eq_of_lt l in
            (
              new_context,
              ap (get_elem? (new_contexts n)) here ∙ get_elem?-new_contexts n i inside,
              refl,
            );
      };
      counter = refl;
    }
