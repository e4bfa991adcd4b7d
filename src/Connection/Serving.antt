-- ===== src/Connection/Serving.antt =====
-- That a connection of web/restinio/restinio/impl/connection.hpp leaves nothing lying that it can write.
use prj.Prelude.{
  ℕ, zero, suc, ◌<◌, ◌≡◌, refl, sym, ap, subst, ◌∙◌, inl, inr, Bool, true, false, not, ◌&&◌, Option,
  some, [], ◌∷◌, ◌++◌, arith,
}
use prj.Prelude.Outcome.{Outcome, ok, throws, undefined, unfinished, M}
use prj.Contexts.{WriteGroup, OutputFlags, is_full}
use prj.Coordinator.{Coordinator, append_response, pop_ready_buffers}
use prj.Coordinator.Order.{IsCoordinator}
use prj.Coordinator.Invariant.{append-IsCoordinator}
use prj.Coordinator.Runs.{Gives, pop-Gives}
use prj.WriteOutput.{transmitting, start_next_write_group}
use prj.Connection.{
  group_started, Connection, new_connection, guarded, write_if_necessary, handle_operation, queued,
  WriteResult, written, aborted, failed, fail_group, handle_current_write_ctx, start_popped,
  init_write, init_write_if_necessary, after_append, write_response_parts_impl,
  write_response_parts, after_write,
}
use prj.Connection.Started.{InOrder, moved, given_id, started-InOrder}
use prj.Connection.Order.{Run, reached-InOrder}
use prj.Connection.Returning.{Returns, append-Returns, Popped, pop-Popped}
use prj.Connection.Served.{
  Serves, Settles, Settles-Serves, closes, close-Settles, guarded-Settles, guarded-Serves, Starts,
  if_known, extracted-Settles, some_group, extract_at, is_shut, is_ending, is_writing, is_waiting,
  is_settled,
}

module _ (max_iov_len : ℕ) where
  handle_current-Settles :
      (init : M Connection (Unit {0})) (c : Connection)
      → (c.coordinator.closed ≡ false → Starts init c.coordinator)
      → InOrder c
      → (g : WriteGroup) → c.output.current ≡ some g
      → Settles (handle_current_write_ctx max_iov_len init c)
  unfolding handle_current_write_ctx
  handle_current-Settles init c starts v g at = guarded-Settles _ (
      subst (λ o. Settles (handle_operation init c o)) (sym (extract_at max_iov_len c.output g at))
        (extracted-Settles max_iov_len init c g starts v at))

  -- With enough fuel for the groups that wait.
  start_popped-Settles :
      (init : M Connection (Unit {0})) (full : Bool) (c : Connection) (v : InOrder c)
      (r : Outcome (Option (WriteGroup × ℕ)) × Coordinator)
      → Popped c.coordinator r
      → Gives v.base r
      → ((d : Connection)
          → InOrder d
          → d.coordinator.closed ≡ false
          → suc (queued d.coordinator.context_table.contexts)
            ≡ queued c.coordinator.context_table.contexts
          → Settles (init d))
      → r ≡ pop_ready_buffers c.coordinator
      → Settles (start_popped max_iov_len init full r c)
  unfolding start_popped
  start_popped-Settles init full c v r (inl e) gives starts popped =
      subst (λ r. Settles (start_popped max_iov_len init full r c)) (sym e)
        (if_known Settles c.coordinator.closed _ _ (λ _. close-Settles c v)
          (λ _. (refl, is_waiting (sym popped ∙ e))))
  start_popped-Settles init full c v r (inr (g, id, k, e, fewer)) gives starts popped =
      let (base, w, l, now) = subst (Gives v.base) e gives in
      let begun : Connection = record c {
        coordinator = k;
        init_read_after_this_write = full && not (is_full k.context_table);
        output = start_next_write_group g c.output;
        events = c.events ++ group_started id ∷ [];
      } in
      subst (λ r. Settles (start_popped max_iov_len init full r c)) (sym e)
        (handle_current-Settles init begun
          (λ open_ d vd same.
            starts d vd (ap (λ (j : Coordinator). j.closed) same ∙ open_)
              (ap (λ (j : Coordinator). suc (queued j.context_table.contexts)) same ∙ fewer))
          (started-InOrder c begun v base id w l (given_id id v.base now) refl) g refl)

  init_write-Settles :
      (fuel : ℕ) (c : Connection)
      → InOrder c
      → c.coordinator.closed ≡ false
      → queued c.coordinator.context_table.contexts < fuel
      → Settles (init_write max_iov_len fuel c)
  unfolding init_write
  init_write-Settles zero c v open_ h = absurd (omega arith)
  init_write-Settles (suc fuel) c v open_ h =
      start_popped-Settles (init_write max_iov_len fuel) (is_full c.coordinator.context_table) c v
        (pop_ready_buffers c.coordinator) (pop-Popped c.coordinator v.base v.valid open_)
        (pop-Gives c.coordinator v.base v.valid)
        (λ d vd still fewer. init_write-Settles fuel d vd still (omega arith)) refl

  if_necessary-Settles :
      (c : Connection)
      → InOrder c
      → c.coordinator.closed ≡ false
      → Settles (init_write_if_necessary max_iov_len c)
  unfolding init_write_if_necessary write_if_necessary
  if_necessary-Settles c v open_ =
      if_known Settles (transmitting c.output) _ _ (λ e. (refl, is_writing e))
        (λ _.
          init_write-Settles (suc (queued c.coordinator.context_table.contexts)) c v open_
            (omega arith))

  -- What `write_response_parts_impl` makes of a part that has been appended, or refused.
  appended-Serves :
      (c : Connection) (v : InOrder c) (r : Outcome (Unit {0}) × Coordinator)
      → Returns r
      → IsCoordinator r.1 v.base
      → Serves (guarded (after_append max_iov_len r c))
  unfolding after_append guarded
  appended-Serves c v (ok tt, k) (inl (e, open_)) w =
      guarded-Serves _
        (Settles-Serves _ (if_necessary-Settles _ (moved c _ v v.base w (omega arith) refl) open_))
  appended-Serves c v (ok tt, k) (inr e) w = cc
  appended-Serves c v (throws, k) h w =
      Settles-Serves _
        (close-Settles (record c { coordinator = k }) (moved c _ v v.base w (omega arith) refl))
  appended-Serves c v (undefined, k) (inl (e, open_)) w = cc
  appended-Serves c v (undefined, k) (inr e) w = cc
  appended-Serves c v (unfinished, k) (inl (e, open_)) w = cc
  appended-Serves c v (unfinished, k) (inr e) w = cc

  part-Serves :
      (id : ℕ) (flags : OutputFlags) (wg : WriteGroup) (c : Connection)
      → InOrder c
      → Serves (write_response_parts max_iov_len id flags wg c)
  unfolding write_response_parts write_response_parts_impl
  part-Serves id flags wg c v =
      let guards : Outcome (Unit {0}) × Connection → Type 0 = λ r. Serves (guarded r) in
      if_known guards c.socket_open _ _
        (λ _.
          if_known guards c.coordinator.closed _ _ (λ e. guarded-Serves _ (refl, is_ending e))
            (λ open_.
              appended-Serves c v (append_response id flags wg c.coordinator)
                (append-Returns c.coordinator v.base v.valid open_ id flags wg)
                (append-IsCoordinator c.coordinator v.base v.valid id flags wg)))
        (λ e. guarded-Serves _ (refl, is_settled (is_shut e)))

  end-Settles :
      (result : WriteResult) (c : Connection)
      → InOrder c
      → transmitting c.output ≡ true
      → (result ≡ aborted → c.socket_open ≡ false)
      → Settles (after_write max_iov_len result c)
  unfolding after_write fail_group
  end-Settles written c v busy h =
      let (g, at) = some_group c.output.current busy in
      handle_current-Settles
        (init_write max_iov_len (suc (queued c.coordinator.context_table.contexts))) c
        (λ open_ d vd same.
          let waiting = ap (λ (j : Coordinator). queued j.context_table.contexts) same in
          init_write-Settles (suc (queued c.coordinator.context_table.contexts)) d vd
            (ap (λ (j : Coordinator). j.closed) same ∙ open_) (omega arith))
        v g at
  end-Settles aborted c v busy h = (refl, is_shut (h refl))
  end-Settles failed c v busy h = let (returned, shut) = closes c v in (returned, is_shut shut)

-- In whatever way a connection that takes at least one request at a time has come about, without its
-- request ids wrapping around, a part of a response that is handed to it makes a call
-- that returns, and after it the socket is closed, or the coordinator counts as closed, or a group is
-- being written, or the oldest open request has nothing to be written.
pub response_is_served :
    (max_pipelined_requests max_iov_len : ℕ) {c : Connection} (id : ℕ) (flags : OutputFlags)
    (wg : WriteGroup)
    → 0 < max_pipelined_requests
    → Run max_iov_len (new_connection max_pipelined_requests) c
    → Serves (write_response_parts max_iov_len id flags wg c)
response_is_served n max_iov_len id flags wg some_ r =
    part-Serves max_iov_len id flags wg _ (reached-InOrder n max_iov_len some_ r)

-- In whatever way a connection that takes at least one request at a time has come about, without its
-- request ids wrapping around, when its write operation ends, well or with an error, the call that handles
-- it returns, and after it the socket is closed, or a group is being written, or the oldest open request
-- has nothing to be written in a coordinator that is still open, if an operation is only aborted where the
-- socket is closed.
pub write_end_is_served :
    (max_pipelined_requests max_iov_len : ℕ) {c : Connection} (result : WriteResult)
    → 0 < max_pipelined_requests
    → Run max_iov_len (new_connection max_pipelined_requests) c
    → transmitting c.output ≡ true
    → (result ≡ aborted → c.socket_open ≡ false)
    → Settles (after_write max_iov_len result c)
write_end_is_served n max_iov_len result some_ r busy only =
    end-Settles max_iov_len result _ (reached-InOrder n max_iov_len some_ r) busy only
