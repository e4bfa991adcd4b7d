-- ===== src/Connection/Ending.antt =====
-- What a connection of web/restinio/restinio/impl/connection.hpp does behind the last response.
use prj.Prelude.{
  ℕ, suc, ◌+◌, ◌%◌, ◌<◌, ◌≡◌, refl, sym, ap, subst, ◌∙◌, Bool, true, false, Option, none, some,
  List, [], ◌∷◌, ◌++◌, Bytes, if_true, arith,
}
use prj.Prelude.Outcome.{Outcome, ok, throws, undefined, unfinished, M, continue}
use prj.Prelude.Throwing.{◌>>=◌}
use prj.Contexts.{WriteGroup, OutputFlags, ContextTable, push_response_context}
use prj.Coordinator.{
  Coordinator, register_new_request, reset_table, reset_coordinator, is_able_to_get_more_messages,
}
use prj.Coordinator.Resetting.{waiting, reset_coordinator-empties}
use prj.WriteOutput.{OutputCtx, extract_next_write_operation, finish_write_group, waiting_callback}
use prj.Connection.{
  write_started, read_started, closed_socket, Connection, new_connection, add_events, notify,
  after_reset, close, after_read_error, handle_xxx_timeout, guarded,
  finish_handling_current_write_ctx, handle_operation, queued, WriteResult, written, aborted,
  failed, HandlingResult, accepted, rejected, exception, Input, request, response, write_ended,
  read_failed, timed_out, closing_flags, not_implemented_group, fail_group,
  handle_current_write_ctx, init_write, write_response_parts_impl, write_response_parts, respond,
  handled, after_register, on_request_message_complete, after_write, step,
}
use prj.Coordinator.Order.{IsCoordinator}
use prj.Coordinator.Invariant.{if_both, register-IsCoordinator}
use prj.Connection.Keeping.{
  handle_operation-InOrder, init_write-Keeps, write_impl-Keeps, write_parts-Keeps,
  after_register-InOrder, step-Keeps,
}
use prj.Connection.Order.{Run, stop, goes_on, reached-InOrder}
use prj.Connection.Started.{
  moved, quiet, started, InOrder, started_quiet, started_callbacks, started-notify,
}

-- A reset leaves whether the coordinator is closed.
closed_of : Outcome (List ℕ × Coordinator) → Option Bool
closed_of (ok (cbs, d)) = some d.closed
closed_of throws = none
closed_of undefined = none
closed_of unfinished = none

with_table : Coordinator → Outcome (List ℕ × ContextTable) → Outcome (List ℕ × Coordinator)
with_table c o = o >>= λ r. ok (r.0, record c { context_table = r.1 })

with_table_closed :
    (c d : Coordinator) (cbs : List ℕ) (o : Outcome (List ℕ × ContextTable))
    → with_table c o ≡ ok (cbs, d)
    → d.closed ≡ c.closed
unfolding with_table closed_of
with_table_closed c d cbs (ok (now, t)) h =
    let same : some c.closed ≡ some d.closed = ap closed_of h in cc
with_table_closed c d cbs throws h = cc
with_table_closed c d cbs undefined h = cc
with_table_closed c d cbs unfinished h = cc

reset_closed :
    (c d : Coordinator) (cbs : List ℕ) → reset_coordinator c ≡ ok (cbs, d) → d.closed ≡ c.closed
unfolding reset_coordinator with_table
reset_closed c d cbs h =
    with_table_closed c d cbs (reset_table c.context_table.elements_exists c.context_table) h

register_closed : (c : Coordinator) → (register_new_request c).1.closed ≡ c.closed
unfolding register_new_request
register_closed c =
    elim (push_response_context c.request_id_counter c.context_table)
      as (λ o.
        (elim o as (λ _. Outcome ℕ × Coordinator) [
          | ok t ↦ (
            ok c.request_id_counter,
            record c {
              context_table = t;
              request_id_counter = (c.request_id_counter + 1) % 4294967296;
            },
          )
          | throws ↦ (throws, c)
          | undefined ↦ (undefined, c)
          | unfinished ↦ (unfinished, c)
        ]).1.closed
        ≡ c.closed) [ ok t ↦ refl | throws ↦ refl | undefined ↦ refl | unfinished ↦ refl ]

-- The coordinator stays closed, and no group has been started.
abbrev Ends : Connection → Outcome (Unit {0}) × Connection → Type 0
Ends c r = (r.1.coordinator.closed ≡ true) × (started r.1.events ≡ started c.events)

close-Ends : (c : Connection) → InOrder c → c.coordinator.closed ≡ true → Ends c (close c)
unfolding close after_reset
close-Ends c v shut =
    let (d, done, w, none_left) = reset_coordinator-empties c.coordinator v.base v.valid in
    rw done (
      reset_closed c.coordinator d _ done ∙ shut,
      started_quiet (c.events ++ closed_socket ∷ []) _ (
            started_callbacks
              (waiting c.coordinator.context_table 0 c.coordinator.context_table.elements_exists))
          ∙ started_quiet c.events (closed_socket ∷ []) refl,
    )

guarded-Ends :
    (c : Connection) (r : Outcome (Unit {0}) × Connection)
    → InOrder r.1
    → Ends c r
    → Ends c (guarded r)
unfolding guarded
guarded-Ends c (ok u, d) v e = e
guarded-Ends c (throws, d) v e = let (shut, same) = close-Ends d v (e.0) in (shut, same ∙ e.1)
guarded-Ends c (undefined, d) v e = e
guarded-Ends c (unfinished, d) v e = e

finish-Ends :
    (init : M Connection (Unit {0})) (c : Connection)
    → InOrder c
    → c.coordinator.closed ≡ true
    → Ends c (finish_handling_current_write_ctx init c)
unfolding finish_handling_current_write_ctx
finish-Ends init c v shut =
    let finished : Connection = record c {
      output = finish_write_group c.output;
      events = c.events ++ notify true (waiting_callback c.output.current);
    } in
    let same = started_quiet c.events _ (started-notify true (waiting_callback c.output.current)) in
    let (still, more) = close-Ends finished (quiet c finished v refl same) shut in
    subst (Ends c) (sym (if_true c.coordinator.closed _ _ shut)) (still, more ∙ same)

handle_operation-Ends :
    (init : M Connection (Unit {0})) (c : Connection)
    (o : Outcome (Option (List Bytes) × OutputCtx))
    → InOrder c
    → c.coordinator.closed ≡ true
    → Ends c (handle_operation init c o)
unfolding handle_operation
handle_operation-Ends init c (ok (some bufs, out)) v shut =
    (shut, started_quiet c.events (write_started bufs ∷ []) refl)
handle_operation-Ends init c (ok (none, out)) v shut =
    finish-Ends init (record c { output = out }) (quiet c (record c { output = out }) v refl refl)
      shut
handle_operation-Ends init c throws v shut = (shut, refl)
handle_operation-Ends init c undefined v shut = (shut, refl)
handle_operation-Ends init c unfinished v shut = (shut, refl)

continue-Ends :
    (c : Connection) (o : Outcome (Unit {0})) (d : Connection) (next : M Connection (Unit {0}))
    → Ends c (o, d)
    → (d.coordinator.closed ≡ true → Ends d (next d))
    → Ends c (continue (λ _. next) o d)
continue-Ends c (ok u) d next e h = let (shut, same) = h e.0 in (shut, same ∙ e.1)
continue-Ends c throws d next e h = e
continue-Ends c undefined d next e h = e
continue-Ends c unfinished d next e h = e

module _ (max_iov_len : ℕ) where
  write_impl-Ends :
      (id : ℕ) (flags : OutputFlags) (wg : WriteGroup) (c : Connection)
      → c.coordinator.closed ≡ true
      → Ends c (write_response_parts_impl max_iov_len id flags wg c)
  unfolding write_response_parts_impl
  write_impl-Ends id flags wg c shut =
      let refused : Ends c (ok tt, add_events (notify false wg.after_write_notificator) c) =
        (shut, started_quiet c.events _ (started-notify false wg.after_write_notificator)) in
      if_both (Ends c) c.socket_open _ _
        (subst (Ends c) (sym (if_true c.coordinator.closed _ _ shut)) refused) refused

  write_parts-Ends :
      (id : ℕ) (flags : OutputFlags) (wg : WriteGroup) (c : Connection)
      → InOrder c
      → c.coordinator.closed ≡ true
      → Ends c (write_response_parts max_iov_len id flags wg c)
  unfolding write_response_parts
  write_parts-Ends id flags wg c v shut =
      guarded-Ends c _ (write_impl-Keeps max_iov_len id flags wg c v)
        (write_impl-Ends id flags wg c shut)

  respond-Ends :
      (id : ℕ) (parts : List (OutputFlags × WriteGroup)) (c : Connection)
      → InOrder c
      → c.coordinator.closed ≡ true
      → Ends c (respond max_iov_len id parts c)
  unfolding respond
  respond-Ends id [] c v shut = (shut, refl)
  respond-Ends id ((flags, wg) ∷ parts) c v shut =
      continue-Ends c _ _ (respond max_iov_len id parts) (write_parts-Ends id flags wg c v shut)
        (respond-Ends id parts _ (write_parts-Keeps max_iov_len id flags wg c v))

  handled-Ends :
      (id : ℕ) (result : HandlingResult) (c : Connection)
      → c.coordinator.closed ≡ true
      → Ends c (handled max_iov_len id result c)
  unfolding handled
  handled-Ends id accepted c shut =
      if_both (Ends c) (is_able_to_get_more_messages c.coordinator) _ _
        (shut, started_quiet c.events (read_started ∷ []) refl) (shut, refl)
  handled-Ends id rejected c shut = write_impl-Ends id closing_flags not_implemented_group c shut
  handled-Ends id exception c shut = (shut, refl)

  after_register-Ends :
      (parts : List (OutputFlags × WriteGroup)) (result : HandlingResult)
      (r : Outcome ℕ × Coordinator) (c : Connection) (v : InOrder c)
      → IsCoordinator r.1 v.base
      → r.1.closed ≡ true
      → Ends c (after_register max_iov_len parts result r c)
  unfolding after_register
  after_register-Ends parts result (ok id, k) c v w shut =
      let registered : Connection = record c { coordinator = k } in
      continue-Ends c _ _ (handled max_iov_len id result)
        (respond-Ends id parts registered (moved c registered v v.base w (omega arith) refl) shut)
        (handled-Ends id result _)
  after_register-Ends parts result (throws, k) c v w shut = (shut, refl)
  after_register-Ends parts result (undefined, k) c v w shut = (shut, refl)
  after_register-Ends parts result (unfinished, k) c v w shut = (shut, refl)

  after_write-Ends :
      (result : WriteResult) (c : Connection)
      → InOrder c
      → c.coordinator.closed ≡ true
      → Ends c (after_write max_iov_len result c)
  unfolding after_write handle_current_write_ctx fail_group
  after_write-Ends written c v shut =
      let init = init_write max_iov_len (suc (queued c.coordinator.context_table.contexts)) in
      let o = extract_next_write_operation max_iov_len c.output in
      guarded-Ends c _
        (handle_operation-InOrder init
          (init_write-Keeps max_iov_len (suc (queued c.coordinator.context_table.contexts))) c o v)
        (handle_operation-Ends init c o v shut)
  after_write-Ends aborted c v shut =
      (shut, started_quiet c.events _ (started-notify false (waiting_callback c.output.current)))
  after_write-Ends failed c v shut =
      let (still, same) = close-Ends c v shut in
      let closing = (close c).1 in
      (
        still,
        started_quiet closing.events _
              (started-notify false (waiting_callback closing.output.current))
            ∙ same,
      )

  step-Ends :
      (input : Input) (c : Connection)
      → c.coordinator.request_id_counter + 1 < 4294967296
      → InOrder c
      → c.coordinator.closed ≡ true
      → Ends c (step max_iov_len input c)
  unfolding step on_request_message_complete after_read_error handle_xxx_timeout
  step-Ends (request parts result) c small v shut =
      let w = register-IsCoordinator c.coordinator v.base v.valid small in
      guarded-Ends c _
        (after_register-InOrder max_iov_len parts result (register_new_request c.coordinator) c v w)
        (after_register-Ends parts result (register_new_request c.coordinator) c v w
          (register_closed c.coordinator ∙ shut))
  step-Ends (response id flags wg) c small v shut = write_parts-Ends id flags wg c v shut
  step-Ends (write_ended result) c small v shut = after_write-Ends result c v shut
  step-Ends (read_failed is_aborted) c small v shut =
      if_both (Ends c) is_aborted _ _ (shut, refl) (close-Ends c v shut)
  step-Ends timed_out c small v shut = close-Ends c v shut

  run-Ends :
      {c d : Connection}
      → Run max_iov_len c d
      → InOrder c
      → c.coordinator.closed ≡ true
      → started d.events ≡ started c.events
  run-Ends (stop _) v shut = refl
  run-Ends {c} (goes_on input small r) v shut =
      let (still, same) = step-Ends input c small v shut in
      run-Ends r (step-Keeps max_iov_len input c small v) still ∙ same

-- Once a response that closes the connection has been given out to the end, whatever else happens, the
-- connection does not start to write for any request again, as long as the request ids do not wrap
-- around.
pub nothing_after_last :
    (max_pipelined_requests max_iov_len : ℕ) {c d : Connection}
    → 0 < max_pipelined_requests
    → Run max_iov_len (new_connection max_pipelined_requests) c
    → c.coordinator.closed ≡ true
    → Run max_iov_len c d
    → started d.events ≡ started c.events
nothing_after_last n max_iov_len some_ before shut after =
    run-Ends max_iov_len after (reached-InOrder n max_iov_len some_ before) shut
