-- ===== src/Tests/Coordination.antt =====
-- Instances of the theorems on the response coordinator.
use prj.Prelude.{
  ◌↔◌, ◌⊎◌, Bool, ◌<◌, ◌≤◌, ℕ, zero, suc, ◌+◌, ◌≡◌, refl, true, false, none, some, List, [], ◌∷◌,
  codes, arith, get_elem?,
}
use prj.Prelude.Outcome.{ok}
use prj.Contexts.{
  push_response_context, WriteGroup, OutputFlags, initial_flags, Context, ContextTable,
  enqueue_group, get_by_req_id,
}
use prj.Coordinator.{
  reset_coordinator, new_coordinator, append_to, pop_front, pop_groups, Coordinator,
  register_new_request, append_response, pop_ready_buffers,
}
use prj.Contexts.Ring.{slot}
use prj.Coordinator.Order.{IsCoordinator, Finds}
use prj.Coordinator.Popping.{Next, pop_ready_buffers-Next}
use prj.Prelude.Outcome.{throws}
use prj.Coordinator.Refusing.{IsFinal, append_response-throws_iff}
use prj.Coordinator.Resetting.{reset_coordinator-empties}
use prj.Coordinator.Runs.{Run, stop, register, append, pop}

abbrev head_part : WriteGroup
head_part = record { items = codes "ab" ∷ []; status_line_size = 1; after_write_notificator = none }

abbrev body_part : WriteGroup
body_part = record {
  items = codes "c" ∷ [];
  status_line_size = 0;
  after_write_notificator = some 7;
}

abbrev last_flags : OutputFlags
last_flags = record { final_parts = true; connection_close = true }

abbrev context : ℕ → List WriteGroup → OutputFlags → Context
context id groups flags = record { request_id = id; write_groups = groups; output_flags = flags }

-- Room for two, with one request open, at the second place of the ring.
abbrev one_open : OutputFlags → Coordinator
one_open flags = record {
  request_id_counter = 5;
  closed = false;
  context_table = record {
    contexts = context 3 [] last_flags ∷ context 4 (head_part ∷ []) flags ∷ [];
    first_element_index = 1;
    elements_exists = 1;
  };
}

-- Room for two, both open, and only the later one with something to send.
abbrev later_first : Coordinator
later_first = record {
  request_id_counter = 6;
  closed = false;
  context_table = record {
    contexts = context 5 (body_part ∷ []) last_flags ∷ context 4 [] initial_flags ∷ [];
    first_element_index = 1;
    elements_exists = 2;
  };
}

-- What `IsTable` asks of each place.
abbrev Holds : ContextTable → ℕ → ℕ → Type 0
Holds t base i =
    (ctx : Context) × (get_elem? t.contexts (slot t i) ≡ some ctx) × (ctx.request_id ≡ base + i)

abbrev IsFree : ContextTable → ℕ → Type 0
IsFree t i =
    (ctx : Context) × (get_elem? t.contexts (slot t i) ≡ some ctx) × (ctx.write_groups ≡ [])

one_open-Holds : (flags : OutputFlags) (i : ℕ) → i < 1 → Holds (one_open flags).context_table 4 i
one_open-Holds flags zero l = (context 4 (head_part ∷ []) flags, refl, refl)
one_open-Holds flags (suc i) l = absurd (omega arith)

one_open-IsFree :
    (flags : OutputFlags) (i : ℕ) → 1 ≤ i → i < 2 → IsFree (one_open flags).context_table i
one_open-IsFree flags zero le l = absurd (omega arith)
one_open-IsFree flags (suc zero) le l = (context 3 [] last_flags, refl, refl)
one_open-IsFree flags (suc (suc i)) le l = absurd (omega arith)

one_open-IsCoordinator : (flags : OutputFlags) → IsCoordinator (one_open flags) 4
one_open-IsCoordinator flags = record {
  table = record {
    first_inside = omega arith;
    not_over = omega arith;
    ids = one_open-Holds flags;
    free = one_open-IsFree flags;
  };
  counter = refl;
}

later_first-Holds : (i : ℕ) → i < 2 → Holds later_first.context_table 4 i
later_first-Holds zero l = (context 4 [] initial_flags, refl, refl)
later_first-Holds (suc zero) l = (context 5 (body_part ∷ []) last_flags, refl, refl)
later_first-Holds (suc (suc i)) l = absurd (omega arith)

later_first-IsCoordinator : IsCoordinator later_first 4
later_first-IsCoordinator = record {
  table = record {
    first_inside = omega arith;
    not_over = omega arith;
    ids = later_first-Holds;
    free = λ i le l. absurd (omega arith);
  };
  counter = refl;
}

one_open-Finds : (flags : OutputFlags) → Finds (one_open flags) 4 (head_part ∷ []) flags
unfolding get_by_req_id
one_open-Finds flags = record {
  index = 1;
  ctx = context 4 (head_part ∷ []) flags;
  found = refl;
  at = refl;
  same_groups = refl;
  same_flags = refl;
}

later_first-Finds : Finds later_first 4 [] initial_flags
unfolding get_by_req_id
later_first-Finds = record {
  index = 1;
  ctx = context 4 [] initial_flags;
  found = refl;
  at = refl;
  same_groups = refl;
  same_flags = refl;
}

pop_ready_buffers-Next_example :
    (c' : Coordinator) × (pop_ready_buffers (one_open last_flags) ≡ (ok (some (head_part, 4)), c'))
    × Next c' 4 [] last_flags
pop_ready_buffers-Next_example =
    pop_ready_buffers-Next (one_open last_flags) 4 head_part [] last_flags
      (one_open-IsCoordinator last_flags) refl (omega arith) (one_open-Finds last_flags)

abbrev whole_response : OutputFlags
whole_response = record { final_parts = true; connection_close = false }

-- Two requests, of which the second is answered first.
answered_in_order : (d : Coordinator) × Run (new_coordinator 2) (0 ∷ 1 ∷ []) d
unfolding register_new_request push_response_context append_response append_to get_by_req_id
    enqueue_group pop_ready_buffers pop_front pop_groups
answered_in_order = (
  _,
  register (omega arith) (
      register (omega arith) (
        append 1 whole_response head_part
          (pop (append 0 whole_response head_part (pop (pop (stop _))))))),
)

append_response-throws_iff_example :
    ((append_response 5 initial_flags body_part later_first).0 ≡ throws)
    ↔ ((◌≡◌ {A = Bool} false true) ⊎ ((5 < 4) ⊎ ((6 ≤ 5) ⊎ IsFinal later_first 5)))
append_response-throws_iff_example =
    append_response-throws_iff later_first 4 5 initial_flags body_part later_first-IsCoordinator

reset_coordinator-empties_example :
    (d : Coordinator) × (reset_coordinator later_first ≡ ok (7 ∷ [], d))
    × IsCoordinator d 6
    × (d.context_table.elements_exists ≡ 0)
reset_coordinator-empties_example =
    reset_coordinator-empties later_first 4 later_first-IsCoordinator
