-- ===== src/Tests/Connection.antt =====
-- Instances of the theorems on the write side of a connection.
use prj.Prelude.{ℕ, ◌+◌, ◌<◌, some, ◌≡◌, refl, true, false, none, [], ◌∷◌, All, codes, arith}
use prj.Contexts.{WriteGroup, OutputFlags, enqueue_group, push_response_context, get_by_req_id}
use prj.Coordinator.{
  register_new_request, append_response, append_to, pop_ready_buffers, pop_front, pop_groups,
}
use prj.Coordinator.Runs.{IsSortedFrom}
use prj.WriteOutput.{
  new_output, start_next_write_group, transmitting, extract_next_write_operation, extract_from,
}
use prj.Connection.{
  Connection, new_connection, guarded, write_if_necessary, handle_operation, written, accepted,
  request, response, handle_current_write_ctx, start_popped, init_write, init_write_if_necessary,
  after_append, write_response_parts_impl, write_response_parts, respond, handled, after_register,
  on_request_message_complete, after_write, step, closing_flags,
}
use prj.Connection.Started.{started}
use prj.Connection.Delivery.{writes, IsHandedOver, group_is_written}
use prj.Prelude.Outcome.{ok}
use prj.Connection.Ending.{nothing_after_last}
use prj.Connection.Order.{Run, stop, goes_on, run-starts_in_order}
use prj.Connection.Served.{Serves, Settles}
use prj.Connection.Serving.{response_is_served, write_end_is_served}
use prj.WriteOutput.Draining.{drain, concat, IsBatch, drain-start}

abbrev three_items : WriteGroup
three_items = record {
  items = codes "a" ∷ codes "b" ∷ codes "c" ∷ [];
  status_line_size = 0;
  after_write_notificator = none;
}

drain-start_example :
    (concat (drain 4 2 three_items (start_next_write_group three_items new_output)).0
      ≡ three_items.items)
    × All (IsBatch 2) (drain 4 2 three_items (start_next_write_group three_items new_output)).0
    × ((drain 4 2 three_items (start_next_write_group three_items new_output)).1 ≡ true)
drain-start_example = drain-start 2 three_items new_output (omega arith) refl

abbrev last_part : OutputFlags
last_part = record { final_parts = true; connection_close = false }

-- Two requests, of which the second is answered first.
answered : (c : Connection) × Run 4 (new_connection 2) c
unfolding step on_request_message_complete after_register register_new_request push_response_context
    respond handled guarded write_response_parts write_response_parts_impl append_response append_to
    get_by_req_id enqueue_group after_append init_write_if_necessary write_if_necessary init_write
    start_popped pop_ready_buffers pop_front pop_groups handle_current_write_ctx
    extract_next_write_operation extract_from handle_operation
answered = (
  _,
  goes_on (request [] accepted) (omega arith) (
      goes_on (request [] accepted) (omega arith) (
        goes_on (response 1 last_part three_items) (omega arith)
          (goes_on (response 0 last_part three_items) (omega arith) (stop _)))),
)

-- The first of them is being written.
answered_writes : transmitting answered.0.output ≡ true
unfolding step on_request_message_complete after_register register_new_request push_response_context
    respond handled guarded write_response_parts write_response_parts_impl append_response append_to
    get_by_req_id enqueue_group after_append init_write_if_necessary write_if_necessary init_write
    start_popped pop_ready_buffers pop_front pop_groups handle_current_write_ctx
    extract_next_write_operation extract_from handle_operation answered
answered_writes = refl

run-starts_in_order_example : IsSortedFrom 0 (started answered.0.events)
run-starts_in_order_example = run-starts_in_order 2 4 (omega arith) answered.1

response_is_served_example : Serves (write_response_parts 4 1 last_part three_items answered.0)
response_is_served_example = response_is_served 2 4 1 last_part three_items (omega arith) answered.1

write_end_is_served_example : Settles (after_write 4 written answered.0)
write_end_is_served_example =
    write_end_is_served 2 4 written (omega arith) answered.1 answered_writes (λ e. cc)

-- The first of three items has been handed over.
abbrev in_the_middle : Connection
in_the_middle = record (new_connection 2) {
  output = record { current = some three_items; next_item = 1 };
}

group_is_written_example :
    (n : ℕ) × (d : Connection) × (writes 1 n in_the_middle ≡ (ok tt, d))
    × IsHandedOver in_the_middle three_items d
group_is_written_example = group_is_written 1 in_the_middle three_items (omega arith) refl

-- A request whose response closes the connection.
ended : (c : Connection) × Run 4 (new_connection 2) c
ended = (_, goes_on (request ((closing_flags, three_items) ∷ []) accepted) (omega arith) (stop _))

ended_closed : ended.0.coordinator.closed ≡ true
unfolding step on_request_message_complete after_register register_new_request push_response_context
    respond handled guarded write_response_parts write_response_parts_impl append_response append_to
    get_by_req_id enqueue_group after_append init_write_if_necessary write_if_necessary init_write
    start_popped pop_ready_buffers pop_front pop_groups handle_current_write_ctx
    extract_next_write_operation extract_from handle_operation ended
ended_closed = refl

ended_small : ended.0.coordinator.request_id_counter + 1 < 4294967296
unfolding step on_request_message_complete after_register register_new_request push_response_context
    respond handled guarded write_response_parts write_response_parts_impl append_response append_to
    get_by_req_id enqueue_group after_append init_write_if_necessary write_if_necessary init_write
    start_popped pop_ready_buffers pop_front pop_groups handle_current_write_ctx
    extract_next_write_operation extract_from handle_operation ended
ended_small = omega arith

nothing_after_last_example :
    started (step 4 (response 1 last_part three_items) ended.0).1.events ≡ started ended.0.events
nothing_after_last_example =
    nothing_after_last 2 4 (omega arith) ended.1 ended_closed
      (goes_on (response 1 last_part three_items) ended_small (stop _))
