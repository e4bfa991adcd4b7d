-- ===== src/Connection.antt =====
-- The write side of `connection_t` of web/restinio/restinio/impl/connection.hpp: requests that have been
-- read, responses that come in, and write operations that end. Requests for an upgrade, files and
-- the scheduling of time limits are left out; a time limit that is reached closes the connection.
pub mod Started
pub mod Keeping
pub mod Order
pub mod Returning
pub mod Served
pub mod Serving
pub mod Delivery
pub mod Ending
use prj.Prelude.{
  ℕ, zero, suc, ◌+◌, Bool, true, false, not, ◌&&◌, Option, none, some, List, [], ◌∷◌, ◌++◌, map,
  Bytes, if◌then◌else◌, length,
}
use prj.Prelude.Outcome.{Outcome, ok, throws, undefined, unfinished, M, ◌>>=◌}
use prj.Contexts.{WriteGroup, OutputFlags, Context, is_full}
use prj.Coordinator.{
  Coordinator, new_coordinator, register_new_request, append_response, pop_ready_buffers,
  reset_coordinator, is_able_to_get_more_messages,
}
use prj.Headers.Text.{create_not_implemented_resp}
use prj.WriteOutput.{
  OutputCtx, new_output, transmitting, start_next_write_group, extract_next_write_operation,
  waiting_callback, finish_write_group, fail_write_group,
}

-- What a connection does to the outside: it starts to write the next group for a request, starts a write
-- operation, invokes a callback with success or an error, waits for the next request, or closes.
pub data Event : Type 0 where
  group_started : ℕ → Event
  write_started : List Bytes → Event
  notified : ℕ → Bool → Event
  read_started : Event
  closed_socket : Event

pub record Connection : Type 0 where
  pub coordinator : Coordinator
  pub socket_open : Bool
  pub output : OutputCtx
  pub init_read_after_this_write : Bool
  pub events : List Event

abbrev pub new_connection : ℕ → Connection
new_connection max_pipelined_requests = record {
  coordinator = new_coordinator max_pipelined_requests;
  socket_open = true;
  output = new_output;
  init_read_after_this_write = false;
  events = [];
}

abbrev pub add_events : List Event → Connection → Connection
add_events events c = record c { events = c.events ++ events }

-- A callback that is invoked, if there is one.
abbrev pub notify : Bool → Option ℕ → List Event
notify success none = []
notify success (some cb) = notified cb success ∷ []

-- `wait_for_http_message`.
abbrev pub wait_for_http_message : M Connection (Unit {0})
wait_for_http_message c = (ok tt, add_events (read_started ∷ []) c)

-- `close`: it ends with `reset` of the coordinator.
unfoldable pub after_reset :
    Connection → Outcome (List ℕ × Coordinator) → Outcome (Unit {0}) × Connection
after_reset c (ok (cbs, coordinator)) =
    (ok tt, add_events (map (λ cb. notified cb false) cbs) (record c { coordinator = coordinator }))
after_reset c throws = (throws, c)
after_reset c undefined = (undefined, c)
after_reset c unfinished = (unfinished, c)

unfoldable pub close : M Connection (Unit {0})
unfolding after_reset
close c =
    let closing : Connection = record c {
      socket_open = false;
      events = c.events ++ closed_socket ∷ [];
    } in
    after_reset closing (reset_coordinator c.coordinator)

-- `after_read` with an error: with EOF it closes the connection, and with any other error unless the
-- operation has been aborted, which only `close` does.
unfoldable pub after_read_error : Bool → M Connection (Unit {0})
unfolding close
after_read_error is_aborted c = if is_aborted then (ok tt, c) else close c

-- `handle_xxx_timeout`.
unfoldable pub handle_xxx_timeout : M Connection (Unit {0})
unfolding close
handle_xxx_timeout c = close c

-- A `try` block that ends in `trigger_error_and_close`.
unfoldable pub guarded : Outcome (Unit {0}) × Connection → Outcome (Unit {0}) × Connection
unfolding close
guarded (ok r, c) = (ok r, c)
guarded (throws, c) = close c
guarded (undefined, c) = (undefined, c)
guarded (unfinished, c) = (unfinished, c)

-- `init_write_if_necessary`, at what `init_write` does.
unfoldable pub write_if_necessary : M Connection (Unit {0}) → M Connection (Unit {0})
write_if_necessary init c = if transmitting c.output then (ok tt, c) else init c

-- `finish_handling_current_write_ctx`.
unfoldable pub finish_handling_current_write_ctx : M Connection (Unit {0}) → M Connection (Unit {0})
unfolding write_if_necessary close
finish_handling_current_write_ctx init c =
    let finished : Connection = record c {
      output = finish_write_group c.output;
      events = c.events ++ notify true (waiting_callback c.output.current);
    } in
    let resumed : Connection =
      if c.init_read_after_this_write then add_events (read_started ∷ []) finished else finished in
    if c.coordinator.closed then close finished else write_if_necessary init resumed

-- What `handle_current_write_ctx` does with the next operation.
unfoldable pub handle_operation :
    M Connection (Unit {0})
    → Connection
    → Outcome (Option (List Bytes) × OutputCtx)
    → Outcome (Unit {0}) × Connection
unfolding finish_handling_current_write_ctx
handle_operation init c (ok (some bufs, out)) =
    (ok tt, add_events (write_started bufs ∷ []) (record c { output = out }))
handle_operation init c (ok (none, out)) =
    finish_handling_current_write_ctx init (record c { output = out })
handle_operation init c throws = (throws, c)
handle_operation init c undefined = (undefined, c)
handle_operation init c unfinished = (unfinished, c)

-- The number of groups that wait in these contexts.
abbrev pub queued : List Context → ℕ
queued [] = 0
queued (ctx ∷ contexts) = length ctx.write_groups + queued contexts

-- How a write operation has ended: well, aborted, or with any other error.
pub data WriteResult : Type 0 where
  written aborted failed : WriteResult

-- `request_handling_status_t`, where a handler that throws is an outcome of its own.
pub data HandlingResult : Type 0 where
  accepted rejected exception : HandlingResult

-- What happens to a connection: a request has been read, a part of a response comes, a write operation
-- ends, a read operation fails, having been aborted or not, or a time limit is reached.
pub data Input : Type 0 where
  request : List (OutputFlags × WriteGroup) → HandlingResult → Input
  response : ℕ → OutputFlags → WriteGroup → Input
  write_ended : WriteResult → Input
  read_failed : Bool → Input
  timed_out : Input

-- The response to a request that its handler rejects.
abbrev pub closing_flags : OutputFlags
closing_flags = record { final_parts = true; connection_close = true }

abbrev pub not_implemented_group : WriteGroup
not_implemented_group = record {
  items = create_not_implemented_resp;
  status_line_size = 0;
  after_write_notificator = none;
}

-- The end of `after_write` with an error.
unfoldable pub fail_group : Outcome (Unit {0}) × Connection → Outcome (Unit {0}) × Connection
fail_group (r, c) = (
  r,
  record c {
    output = fail_write_group c.output;
    events = c.events ++ notify false (waiting_callback c.output.current);
  },
)

module _ (max_iov_len : ℕ) where
  -- `handle_current_write_ctx`.
  unfoldable pub handle_current_write_ctx : M Connection (Unit {0}) → M Connection (Unit {0})
  unfolding handle_operation guarded extract_next_write_operation
  handle_current_write_ctx init c =
      guarded (handle_operation init c (extract_next_write_operation max_iov_len c.output))

  -- `init_write` after `pop_ready_buffers`; with nothing to write only a time limit is set.
  unfoldable pub start_popped :
      M Connection (Unit {0})
      → Bool
      → Outcome (Option (WriteGroup × ℕ)) × Coordinator
      → M Connection (Unit {0})
  unfolding handle_current_write_ctx close
  start_popped init full_before (ok (some (g, id)), coordinator) c =
      handle_current_write_ctx init (record c {
        coordinator = coordinator;
        init_read_after_this_write = full_before && not (is_full coordinator.context_table);
        output = start_next_write_group g c.output;
        events = c.events ++ group_started id ∷ [];
      })
  start_popped init full_before (ok none, coordinator) c =
      let kept : Connection = record c { coordinator = coordinator } in
      if coordinator.closed then close kept else (ok tt, kept)
  start_popped init full_before (throws, coordinator) c =
      (throws, record c { coordinator = coordinator })
  start_popped init full_before (undefined, coordinator) c =
      (undefined, record c { coordinator = coordinator })
  start_popped init full_before (unfinished, coordinator) c =
      (unfinished, record c { coordinator = coordinator })

  -- `init_write`. It calls itself where a group has no items.
  unfoldable pub init_write : ℕ → M Connection (Unit {0})
  unfolding start_popped
  init_write zero c = (unfinished, c)
  init_write (suc fuel) c =
      start_popped (init_write fuel) (is_full c.coordinator.context_table)
        (pop_ready_buffers c.coordinator) c

  -- `init_write_if_necessary`. Each round takes a group, so this fuel is enough.
  unfoldable pub init_write_if_necessary : M Connection (Unit {0})
  unfolding init_write write_if_necessary
  init_write_if_necessary c =
      write_if_necessary (init_write (suc (queued c.coordinator.context_table.contexts))) c

  -- `write_response_parts_impl` after `append_response`.
  unfoldable pub after_append : Outcome (Unit {0}) × Coordinator → M Connection (Unit {0})
  unfolding init_write_if_necessary
  after_append (ok _, coordinator) c =
      init_write_if_necessary (record c { coordinator = coordinator })
  after_append (throws, coordinator) c = (throws, record c { coordinator = coordinator })
  after_append (undefined, coordinator) c = (undefined, record c { coordinator = coordinator })
  after_append (unfinished, coordinator) c = (unfinished, record c { coordinator = coordinator })

  -- `write_response_parts_impl`.
  unfoldable pub write_response_parts_impl : ℕ → OutputFlags → WriteGroup → M Connection (Unit {0})
  unfolding after_append
  write_response_parts_impl id flags wg c =
      let refused : Connection = add_events (notify false wg.after_write_notificator) c in
      let appended = after_append (append_response id flags wg c.coordinator) c in
      if c.socket_open
      then (if c.coordinator.closed then (ok tt, refused) else appended)
      else (ok tt, refused)

  -- `write_response_parts`.
  unfoldable pub write_response_parts : ℕ → OutputFlags → WriteGroup → M Connection (Unit {0})
  unfolding write_response_parts_impl guarded
  write_response_parts id flags wg c = guarded (write_response_parts_impl id flags wg c)

  -- What a handler makes of its request, before it returns: the parts that it hands over, one after the
  -- other.
  unfoldable pub respond : ℕ → List (OutputFlags × WriteGroup) → M Connection (Unit {0})
  unfolding write_response_parts
  respond id [] = λ c. (ok tt, c)
  respond id ((flags, wg) ∷ parts) = write_response_parts id flags wg >>= λ _. respond id parts

  -- The `switch` on the result of the handler.
  unfoldable pub handled : ℕ → HandlingResult → M Connection (Unit {0})
  unfolding write_response_parts_impl
  handled id accepted c =
      if is_able_to_get_more_messages c.coordinator then wait_for_http_message c else (ok tt, c)
  handled id rejected c = write_response_parts_impl id closing_flags not_implemented_group c
  handled id exception c = (throws, c)

  unfoldable pub after_register :
      List (OutputFlags × WriteGroup)
      → HandlingResult
      → Outcome ℕ × Coordinator
      → M Connection (Unit {0})
  unfolding respond handled
  after_register parts result (ok id, coordinator) c =
      (respond id parts >>= λ _. handled id result) (record c { coordinator = coordinator })
  after_register parts result (throws, coordinator) c =
      (throws, record c { coordinator = coordinator })
  after_register parts result (undefined, coordinator) c =
      (undefined, record c { coordinator = coordinator })
  after_register parts result (unfinished, coordinator) c =
      (unfinished, record c { coordinator = coordinator })

  -- `on_request_message_complete`, for a handler that hands over these parts and then returns or throws.
  unfoldable pub on_request_message_complete :
      List (OutputFlags × WriteGroup) → HandlingResult → M Connection (Unit {0})
  unfolding after_register guarded
  on_request_message_complete parts result c =
      guarded (after_register parts result (register_new_request c.coordinator) c)

  -- `after_write`.
  unfoldable pub after_write : WriteResult → M Connection (Unit {0})
  unfolding handle_current_write_ctx init_write_if_necessary fail_group close
  after_write written c =
      handle_current_write_ctx (init_write (suc (queued c.coordinator.context_table.contexts))) c
  after_write aborted c = fail_group (ok tt, c)
  after_write failed c = fail_group (close c)

  unfoldable pub step : Input → M Connection (Unit {0})
  unfolding on_request_message_complete write_response_parts after_write after_read_error
      handle_xxx_timeout
  step (request parts result) c = on_request_message_complete parts result c
  step (response id flags wg) c = write_response_parts id flags wg c
  step (write_ended result) c = after_write result c
  step (read_failed is_aborted) c = after_read_error is_aborted c
  step timed_out c = handle_xxx_timeout c
