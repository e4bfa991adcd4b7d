-- ===== src/Coordinator/Resetting.antt =====
-- `reset` of web/restinio/restinio/impl/response_coordinator.hpp.
use prj.Prelude.{
  ℕ, zero, suc, ◌+◌, ◌%◌, ◌≤◌, ◌<◌, ◌≡◌, refl, ap, ap₂, sym, subst, ◌∙◌, Option, none, some, List,
  [], ◌++◌, arith, length, get_elem?, set, length-set, get_elem?-set_self,
}
use prj.Prelude.Outcome.{ok}
use prj.Contexts.{Context, ContextTable, callbacks, pop_response_context_nonchecked}
use prj.Contexts.Ring.{slot, put_other}
use prj.Contexts.Table.{IsTable, put-IsTable, pop-IsTable, next_index, next_index_lem}
use prj.Coordinator.{Coordinator, reset_table, reset_coordinator}
use prj.Coordinator.Order.{IsCoordinator, first-slot, front-some}

-- The callbacks that wait in the context at a place.
abbrev pub waiting_at : Option Context → List ℕ
waiting_at none = []
waiting_at (some ctx) = callbacks ctx.write_groups

-- The callbacks that wait in `n` contexts from the one that comes `i` after the first.
abbrev pub waiting : ContextTable → ℕ → ℕ → List ℕ
waiting t i zero = []
waiting t i (suc n) = waiting_at (get_elem? t.contexts (slot t i)) ++ waiting t (i + 1) n

-- The table when its first context has been drained and popped.
abbrev drained : ContextTable → Context → ContextTable
drained t ctx = pop_response_context_nonchecked (record t {
  contexts = set t.contexts t.first_element_index (record ctx { write_groups = [] });
})

module _ (t : ContextTable) (base : ℕ) (v : IsTable t base) (ctx : Context)
    (some_ : 0 < t.elements_exists) (id : ctx.request_id ≡ base) where
  abbrev emptied : Context
  emptied = record ctx { write_groups = [] }

  abbrev cleared : ContextTable
  cleared = record t { contexts = set t.contexts t.first_element_index emptied }

  cleared-IsTable : IsTable cleared base
  cleared-IsTable =
      subst (λ p. IsTable (record t { contexts = set t.contexts p emptied }) base)
        (first-slot t base v) (put-IsTable t base v 0 emptied some_ (id ∙ omega arith))

  drained-IsTable : IsTable (drained t ctx) (base + 1)
  drained-IsTable =
      pop-IsTable cleared base cleared-IsTable emptied some_
        (get_elem?-set_self t.contexts t.first_element_index emptied v.first_inside) refl

  slot-drained : (i : ℕ) → i < length t.contexts → slot (drained t ctx) i ≡ slot t (i + 1)
  unfolding next_index
  slot-drained i l =
      let same : length cleared.contexts ≡ length t.contexts =
        length-set t.contexts t.first_element_index emptied in
      (next_index_lem cleared base cleared-IsTable).1 i (subst (λ m. i < m) (sym same) l)
      ∙ ap (λ m. (t.first_element_index + (i + 1)) % m) same

  get-drained :
      (i : ℕ)
      → i + 1 < length t.contexts
      → get_elem? (drained t ctx).contexts (slot (drained t ctx) i)
        ≡ get_elem? t.contexts (slot t (i + 1))
  get-drained i l =
      ap (get_elem? cleared.contexts) (slot-drained i (omega arith))
      ∙ subst
          (λ p.
            get_elem? (set t.contexts p emptied) (slot t (i + 1))
            ≡ get_elem? t.contexts (slot t (i + 1)))
          (first-slot t base v)
          (put_other t 0 emptied v.first_inside (omega arith) (i + 1) l (λ e. absurd (omega arith)))

  waiting-drained :
      (n i : ℕ) → i + 1 + n ≤ length t.contexts → waiting (drained t ctx) i n ≡ waiting t (i + 1) n
  waiting-drained zero i l = refl
  waiting-drained (suc n) i l =
      ap₂ (λ o rest. waiting_at o ++ rest) (get-drained i (omega arith))
        (waiting-drained n (i + 1) (omega arith))

reset_table-empties :
    (n : ℕ) (t : ContextTable) (base : ℕ)
    → IsTable t base
    → t.elements_exists ≡ n
    → (t' : ContextTable) × (reset_table n t ≡ ok (waiting t 0 n, t'))
      × IsTable t' (base + n)
      × (t'.elements_exists ≡ 0)
unfolding reset_table
reset_table-empties zero t base v e = (t, refl, subst (IsTable t) (omega arith) v, e)
reset_table-empties (suc n) t base v e =
    let (ctx, at, id) = front-some t base v (omega arith) in
    let some_ : 0 < t.elements_exists = omega arith in
    let (t', done, w, none_left) =
      reset_table-empties n (drained t ctx) (base + 1) (drained-IsTable t base v ctx some_ id)
        (omega arith) in
    let o = v.not_over in
    let first : waiting_at (get_elem? t.contexts (slot t 0)) ≡ callbacks ctx.write_groups =
      ap (λ p. waiting_at (get_elem? t.contexts p)) (first-slot t base v) ∙ ap waiting_at at in
    let rest : waiting (drained t ctx) 0 n ≡ waiting t 1 n =
      waiting-drained t base v ctx some_ id n 0 (omega arith) in
    (
      t',
      rw (reset_table, at, done, rest, first) refl,
      subst (IsTable t') (omega arith) w,
      none_left,
    )

-- `reset` invokes every callback that still waits, in the order of the requests and once each, and leaves
-- a coordinator in which no request is open.
pub reset_coordinator-empties :
    (c : Coordinator) (base : ℕ)
    → IsCoordinator c base
    → (d : Coordinator) × (reset_coordinator c
        ≡ ok (waiting c.context_table 0 c.context_table.elements_exists, d))
      × IsCoordinator d c.request_id_counter
      × (d.context_table.elements_exists ≡ 0)
unfolding reset_coordinator
reset_coordinator-empties c base v =
    let k = v.counter in
    let (t', done, w, none_left) =
      reset_table-empties c.context_table.elements_exists c.context_table base v.table refl in
    (
      record c { context_table = t' },
      rw done refl,
      record { table = subst (IsTable t') (sym k) w; counter = omega arith },
      none_left,
    )
