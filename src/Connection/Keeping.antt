-- ===== src/Connection/Keeping.antt =====
-- The operations of web/restinio/restinio/impl/connection.hpp keep the order of what is started.
use prj.Prelude.{
  ℕ, zero, suc, ◌+◌, ◌<◌, refl, ◌∙◌, Bool, true, false, Option, none, some, List, [], ◌∷◌, ◌++◌,
  arith, Bytes, not, ◌&&◌,
}
use prj.Prelude.Outcome.{Outcome, ok, throws, undefined, unfinished, M, continue}
use prj.Contexts.{WriteGroup, OutputFlags, is_full}
use prj.Coordinator.{
  Coordinator, register_new_request, append_response, pop_ready_buffers,
  is_able_to_get_more_messages,
}
use prj.Coordinator.Order.{IsCoordinator}
use prj.Coordinator.Invariant.{if_both, register-IsCoordinator, append-IsCoordinator}
use prj.Coordinator.Resetting.{waiting, reset_coordinator-empties}
use prj.Coordinator.Runs.{Gives, pop-Gives}
use prj.WriteOutput.{
  OutputCtx, extract_next_write_operation, transmitting, start_next_write_group, finish_write_group,
  waiting_callback,
}
use prj.Connection.{
  Event, group_started, write_started, read_started, closed_socket, Connection, add_events, notify,
  after_reset, close, guarded, write_if_necessary, finish_handling_current_write_ctx,
  handle_operation, queued, WriteResult, written, aborted, failed, HandlingResult, accepted,
  rejected, exception, Input, request, response, write_ended, timed_out, read_failed,
  after_read_error, handle_xxx_timeout, fail_group, closing_flags, not_implemented_group,
  handle_current_write_ctx, start_popped, init_write, init_write_if_necessary, after_append,
  write_response_parts_impl, write_response_parts, respond, handled, after_register,
  on_request_message_complete, after_write, step,
}
use prj.Connection.Started.{
  started_quiet, started_callbacks, started-notify, InOrder, InOrderAfter, Keeps, moved, quiet,
  add_events-Keeps, given_id, started-InOrder,
}

close-Keeps : Keeps close
unfolding close after_reset
close-Keeps c v =
    let k = v.valid.counter in
    let (d, done, w, none_left) = reset_coordinator-empties c.coordinator v.base v.valid in
    rw done (
      moved c _ v c.coordinator.request_id_counter w (omega arith) (
        started_quiet (c.events ++ closed_socket ∷ []) _ (
          started_callbacks
            (waiting c.coordinator.context_table 0 c.coordinator.context_table.elements_exists))
        ∙ started_quiet c.events (closed_socket ∷ []) refl))

guarded-InOrder : (r : Outcome (Unit {0}) × Connection) → InOrder r.1 → InOrder (guarded r).1
unfolding guarded
guarded-InOrder (ok r, c) v = v
guarded-InOrder (throws, c) v = close-Keeps c v
guarded-InOrder (undefined, c) v = v
guarded-InOrder (unfinished, c) v = v

write_if_necessary-Keeps :
    (init : M Connection (Unit {0})) → Keeps init → Keeps (write_if_necessary init)
unfolding write_if_necessary
write_if_necessary-Keeps init keeps c v =
    if_both (λ (r : Outcome (Unit {0}) × Connection). InOrder r.1) (transmitting c.output) _ _ v
      (keeps c v)

finish-Keeps :
    (init : M Connection (Unit {0})) → Keeps init → Keeps (finish_handling_current_write_ctx init)
unfolding finish_handling_current_write_ctx
finish-Keeps init keeps c v =
    let finished : Connection = record c {
      output = finish_write_group c.output;
      events = c.events ++ notify true (waiting_callback c.output.current);
    } in
    let vf : InOrder finished =
      quiet c finished v refl
        (started_quiet c.events _ (started-notify true (waiting_callback c.output.current))) in
    if_both InOrderAfter c.coordinator.closed _ _ (close-Keeps finished vf) (
      write_if_necessary-Keeps init keeps _ (
        if_both InOrder c.init_read_after_this_write _ _
          (add_events-Keeps finished (read_started ∷ []) refl vf) vf))

pub handle_operation-InOrder :
    (init : M Connection (Unit {0}))
    → Keeps init
    → (c : Connection) (o : Outcome (Option (List Bytes) × OutputCtx)) → InOrder c
    → InOrderAfter (handle_operation init c o)
unfolding handle_operation
handle_operation-InOrder init keeps c (ok (some bufs, out)) v =
    quiet c _ v refl (started_quiet c.events (write_started bufs ∷ []) refl)
handle_operation-InOrder init keeps c (ok (none, out)) v =
    finish-Keeps init keeps (record c { output = out }) (quiet c _ v refl refl)
handle_operation-InOrder init keeps c throws v = v
handle_operation-InOrder init keeps c undefined v = v
handle_operation-InOrder init keeps c unfinished v = v

fail_group-InOrder :
    (r : Outcome (Unit {0}) × Connection) → InOrderAfter r → InOrderAfter (fail_group r)
unfolding fail_group
fail_group-InOrder (r, c) v =
    quiet c _ v refl
      (started_quiet c.events _ (started-notify false (waiting_callback c.output.current)))

continue-InOrder :
    (o : Outcome (Unit {0})) (c : Connection) (next : Unit {0} → M Connection (Unit {0}))
    → ((u : Unit {0}) → Keeps (next u))
    → InOrder c
    → InOrderAfter (continue next o c)
continue-InOrder (ok u) c next keeps v = keeps u c v
continue-InOrder throws c next keeps v = v
continue-InOrder undefined c next keeps v = v
continue-InOrder unfinished c next keeps v = v

module _ (max_iov_len : ℕ) where
  handle_current-Keeps :
      (init : M Connection (Unit {0}))
      → Keeps init
      → Keeps (handle_current_write_ctx max_iov_len init)
  unfolding handle_current_write_ctx
  handle_current-Keeps init keeps c v =
      guarded-InOrder _ (
        handle_operation-InOrder init keeps c (extract_next_write_operation max_iov_len c.output) v)

  start_popped-InOrder :
      (init : M Connection (Unit {0}))
      → Keeps init
      → (full : Bool) (r : Outcome (Option (WriteGroup × ℕ)) × Coordinator) (c : Connection)
        (v : InOrder c)
      → Gives v.base r
      → InOrderAfter (start_popped max_iov_len init full r c)
  unfolding start_popped
  start_popped-InOrder init keeps full (ok (some (g, id)), k) c v (base, w, l, now) =
      let begun : Connection = record c {
        coordinator = k;
        init_read_after_this_write = full && not (is_full k.context_table);
        output = start_next_write_group g c.output;
        events = c.events ++ group_started id ∷ [];
      } in
      handle_current-Keeps init keeps begun
        (started-InOrder c begun v base id w l (given_id id v.base now) refl)
  start_popped-InOrder init keeps full (ok none, k) c v (base, w, l, now) =
      let kept : Connection = record c { coordinator = k } in
      let vk : InOrder kept = moved c kept v base w l refl in
      if_both InOrderAfter k.closed _ _ (close-Keeps kept vk) vk
  start_popped-InOrder init keeps full (throws, k) c v (base, w, l, now) = moved c _ v base w l refl
  start_popped-InOrder init keeps full (undefined, k) c v (base, w, l, now) =
      moved c _ v base w l refl
  start_popped-InOrder init keeps full (unfinished, k) c v (base, w, l, now) =
      moved c _ v base w l refl

  pub init_write-Keeps : (fuel : ℕ) → Keeps (init_write max_iov_len fuel)
  unfolding init_write
  init_write-Keeps zero c v = v
  init_write-Keeps (suc fuel) c v =
      start_popped-InOrder (init_write max_iov_len fuel) (init_write-Keeps fuel)
        (is_full c.coordinator.context_table) (pop_ready_buffers c.coordinator) c v
        (pop-Gives c.coordinator v.base v.valid)

  init_write_if_necessary-Keeps : Keeps (init_write_if_necessary max_iov_len)
  unfolding init_write_if_necessary
  init_write_if_necessary-Keeps c v =
      write_if_necessary-Keeps
        (init_write max_iov_len (suc (queued c.coordinator.context_table.contexts)))
        (init_write-Keeps (suc (queued c.coordinator.context_table.contexts))) c v

  after_append-InOrder :
      (r : Outcome (Unit {0}) × Coordinator) (c : Connection) (v : InOrder c)
      → IsCoordinator r.1 v.base
      → InOrderAfter (after_append max_iov_len r c)
  unfolding after_append
  after_append-InOrder (ok u, k) c v w =
      init_write_if_necessary-Keeps _ (moved c _ v v.base w (omega arith) refl)
  after_append-InOrder (throws, k) c v w = moved c _ v v.base w (omega arith) refl
  after_append-InOrder (undefined, k) c v w = moved c _ v v.base w (omega arith) refl
  after_append-InOrder (unfinished, k) c v w = moved c _ v v.base w (omega arith) refl

  pub write_impl-Keeps :
      (id : ℕ) (flags : OutputFlags) (wg : WriteGroup)
      → Keeps (write_response_parts_impl max_iov_len id flags wg)
  unfolding write_response_parts_impl
  write_impl-Keeps id flags wg c v =
      let cbs : List Event = notify false wg.after_write_notificator in
      let refused : InOrder (add_events cbs c) =
        add_events-Keeps c cbs (started-notify false wg.after_write_notificator) v in
      if_both InOrderAfter c.socket_open _ _
        (if_both InOrderAfter c.coordinator.closed _ _ refused (
          after_append-InOrder (append_response id flags wg c.coordinator) c v
            (append-IsCoordinator c.coordinator v.base v.valid id flags wg)))
        refused

  pub write_parts-Keeps :
      (id : ℕ) (flags : OutputFlags) (wg : WriteGroup)
      → Keeps (write_response_parts max_iov_len id flags wg)
  unfolding write_response_parts
  write_parts-Keeps id flags wg c v = guarded-InOrder _ (write_impl-Keeps id flags wg c v)

  respond-Keeps :
      (id : ℕ) (parts : List (OutputFlags × WriteGroup)) → Keeps (respond max_iov_len id parts)
  unfolding respond
  respond-Keeps id [] c v = v
  respond-Keeps id ((flags, wg) ∷ parts) c v =
      continue-InOrder _ _ (λ _. respond max_iov_len id parts) (λ _. respond-Keeps id parts)
        (write_parts-Keeps id flags wg c v)

  handled-Keeps : (id : ℕ) (result : HandlingResult) → Keeps (handled max_iov_len id result)
  unfolding handled
  handled-Keeps id accepted c v =
      if_both InOrderAfter (is_able_to_get_more_messages c.coordinator) _ _
        (add_events-Keeps c (read_started ∷ []) refl v) v
  handled-Keeps id rejected c v = write_impl-Keeps id closing_flags not_implemented_group c v
  handled-Keeps id exception c v = v

  pub after_register-InOrder :
      (parts : List (OutputFlags × WriteGroup)) (result : HandlingResult)
      (r : Outcome ℕ × Coordinator) (c : Connection) (v : InOrder c)
      → IsCoordinator r.1 v.base
      → InOrderAfter (after_register max_iov_len parts result r c)
  unfolding after_register
  after_register-InOrder parts result (ok id, k) c v w =
      continue-InOrder _ _ (λ _. handled max_iov_len id result) (λ _. handled-Keeps id result)
        (respond-Keeps id parts _ (moved c _ v v.base w (omega arith) refl))
  after_register-InOrder parts result (throws, k) c v w = moved c _ v v.base w (omega arith) refl
  after_register-InOrder parts result (undefined, k) c v w = moved c _ v v.base w (omega arith) refl
  after_register-InOrder parts result (unfinished, k) c v w =
      moved c _ v v.base w (omega arith) refl

  after_write-Keeps : (result : WriteResult) → Keeps (after_write max_iov_len result)
  unfolding after_write
  after_write-Keeps written c v =
      handle_current-Keeps
        (init_write max_iov_len (suc (queued c.coordinator.context_table.contexts)))
        (init_write-Keeps (suc (queued c.coordinator.context_table.contexts))) c v
  after_write-Keeps aborted c v = fail_group-InOrder (ok tt, c) v
  after_write-Keeps failed c v = fail_group-InOrder (close c) (close-Keeps c v)

  read_error-Keeps : (is_aborted : Bool) → Keeps (after_read_error is_aborted)
  unfolding after_read_error
  read_error-Keeps is_aborted c v = if_both InOrderAfter is_aborted _ _ v (close-Keeps c v)

  pub step-Keeps :
      (input : Input) (c : Connection)
      → c.coordinator.request_id_counter + 1 < 4294967296
      → InOrder c
      → InOrderAfter (step max_iov_len input c)
  unfolding step on_request_message_complete handle_xxx_timeout
  step-Keeps (request parts result) c small v = guarded-InOrder _ (
      after_register-InOrder parts result (register_new_request c.coordinator) c v
        (register-IsCoordinator c.coordinator v.base v.valid small))
  step-Keeps (response id flags wg) c small v = write_parts-Keeps id flags wg c v
  step-Keeps (write_ended result) c small v = after_write-Keeps result c v
  step-Keeps (read_failed is_aborted) c small v = read_error-Keeps is_aborted c v
  step-Keeps timed_out c small v = close-Keeps c v
