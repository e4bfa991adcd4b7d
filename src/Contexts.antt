-- ===== src/Contexts.antt =====
-- `response_context_t` and `response_context_table_t` of
-- web/restinio/restinio/impl/response_coordinator.hpp, and the write groups of
-- web/restinio/restinio/buffers.hpp that they hold. A callback is kept as its number, and an item as its
-- bytes.
pub mod Groups
pub mod Ring
pub mod Table
use prj.Prelude.{
  ℕ, zero, suc, ◌+◌, ◌-◌, ◌%◌, Bool, true, false, not, ◌&&◌, ◌||◌, Option, none, some, List, [],
  ◌∷◌, ◌++◌, Bytes, ltb, leb, ◌==◌, if◌then◌else◌, length, get_elem?, set,
}
use prj.Prelude.Outcome.{Outcome, ok, throws, undefined, unfinished, M}
use prj.Prelude.Throwing.{◌>>=◌}

-- `write_group_t`.
pub record WriteGroup : Type 0 where
  pub items : List Bytes
  pub status_line_size : ℕ
  pub after_write_notificator : Option ℕ

-- `merge`.
abbrev pub merge : WriteGroup → WriteGroup → WriteGroup
merge first second = record first {
  items = first.items ++ second.items;
  after_write_notificator = second.after_write_notificator;
}

-- `response_output_flags_t`: whether the parts are final, and whether the connection is to be closed.
pub record OutputFlags : Type 0 where
  pub final_parts : Bool
  pub connection_close : Bool

pub record Context : Type 0 where
  pub request_id : ℕ
  pub write_groups : List WriteGroup
  pub output_flags : OutputFlags

abbrev pub initial_flags : OutputFlags
initial_flags = record { final_parts = false; connection_close = false }

abbrev pub new_context : Context
new_context = record { request_id = 0; write_groups = []; output_flags = initial_flags }

-- `reinit`, which leaves the groups.
abbrev pub reinit : ℕ → Context → Context
reinit request_id ctx = record ctx { request_id = request_id; output_flags = initial_flags }

abbrev pub has_notificator : WriteGroup → Bool
has_notificator g = elim g.after_write_notificator [ none ↦ false | some cb ↦ true ]

-- `enqueue_group`, on the vector of groups.
unfoldable pub enqueue_group : WriteGroup → List WriteGroup → List WriteGroup
enqueue_group wg [] = wg ∷ []
enqueue_group wg (g ∷ []) =
    if not (has_notificator g) && (wg.status_line_size == 0) then merge g wg ∷ [] else g ∷ wg ∷ []
enqueue_group wg (g ∷ h ∷ gs) = g ∷ enqueue_group wg (h ∷ gs)

abbrev pub has_no_groups : Context → Bool
has_no_groups ctx = elim ctx.write_groups [ [] ↦ true | g ∷ gs ↦ false ]

-- `is_complete`.
abbrev pub is_complete : Context → Bool
is_complete ctx = has_no_groups ctx && ctx.output_flags.final_parts

-- `response_context_table_t`.
pub record ContextTable : Type 0 where
  pub contexts : List Context
  pub first_element_index : ℕ
  pub elements_exists : ℕ

abbrev pub new_contexts : ℕ → List Context
new_contexts zero = []
new_contexts (suc n) = new_context ∷ new_contexts n

abbrev pub new_table : ℕ → ContextTable
new_table max_elements_count = record {
  contexts = new_contexts max_elements_count;
  first_element_index = 0;
  elements_exists = 0;
}

abbrev pub is_empty_table : ContextTable → Bool
is_empty_table t = t.elements_exists == 0

abbrev pub is_full : ContextTable → Bool
is_full t = length t.contexts == t.elements_exists

abbrev pub front : ContextTable → Option Context
front t = get_elem? t.contexts t.first_element_index

-- `back`; it is called on a table that is not empty.
abbrev pub back_context : ContextTable → Option Context
back_context t =
    get_elem? t.contexts ((t.first_element_index + (t.elements_exists - 1)) % length t.contexts)

-- `get_by_req_id`: the index of the context; `none` is a null pointer.
unfoldable pub get_by_req_id : ℕ → ContextTable → Outcome (Option ℕ)
get_by_req_id req_id t = if is_empty_table t then ok none else elim (front t) [
  | none ↦ undefined
  | some f ↦ elim (back_context t) [
    | none ↦ undefined
    | some b ↦
        if ltb req_id f.request_id || ltb b.request_id req_id
        then ok none
        else ok (some ((t.first_element_index + (req_id - f.request_id)) % length t.contexts))
  ]
]

-- `push_response_context`.
unfoldable pub push_response_context : ℕ → ContextTable → Outcome ContextTable
push_response_context req_id t =
    let next : ℕ = (t.first_element_index + t.elements_exists) % length t.contexts in
    if is_full t then throws else elim (get_elem? t.contexts next) [
      | none ↦ undefined
      | some ctx ↦ ok (record t {
        contexts = set t.contexts next (reinit req_id ctx);
        elements_exists = t.elements_exists + 1;
      })
    ]

-- `pop_response_context_nonchecked`; it is called on a table that is not empty.
abbrev pub pop_response_context_nonchecked : ContextTable → ContextTable
pop_response_context_nonchecked t =
    let next : ℕ = t.first_element_index + 1 in
    record t {
      elements_exists = t.elements_exists - 1;
      first_element_index = if length t.contexts == next then 0 else next;
    }

-- `pop_response_context`.
abbrev pub pop_response_context : ContextTable → Outcome ContextTable
pop_response_context t = if is_empty_table t then throws else ok (pop_response_context_nonchecked t)

-- The callbacks of these groups, in order.
abbrev pub callbacks : List WriteGroup → List ℕ
callbacks [] = []
callbacks (g ∷ gs) = elim g.after_write_notificator [
  | none ↦ callbacks gs
  | some cb ↦ cb ∷ callbacks gs
]
