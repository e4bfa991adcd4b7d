-- ===== src/Connection/Order.antt =====
-- The order in which a connection of web/restinio/restinio/impl/connection.hpp starts to write.
use prj.Prelude.{ℕ, ◌+◌, ◌<◌}
use prj.Coordinator.Invariant.{new_coordinator-IsCoordinator}
use prj.Coordinator.Runs.{IsSortedFrom}
use prj.Connection.{Connection, new_connection, Input, step}
use prj.Connection.Started.{started, InOrder}
use prj.Connection.Keeping.{step-Keeps}

-- A run of a connection, in which the ids of requests have not wrapped around.
pub data Run (max_iov_len : ℕ) : Connection → Connection → Type 0 where
  stop : (c : Connection) → Run max_iov_len c c
  goes_on :
      {c d : Connection} (input : Input)
      → c.coordinator.request_id_counter + 1 < 4294967296
      → Run max_iov_len (step max_iov_len input c).1 d
      → Run max_iov_len c d

run-InOrder : (max_iov_len : ℕ) {c d : Connection} → Run max_iov_len c d → InOrder c → InOrder d
run-InOrder max_iov_len (stop _) v = v
run-InOrder max_iov_len (goes_on input small r) v =
    run-InOrder max_iov_len r (step-Keeps max_iov_len input _ small v)

pub reached-InOrder :
    (max_pipelined_requests max_iov_len : ℕ) {c : Connection}
    → 0 < max_pipelined_requests
    → Run max_iov_len (new_connection max_pipelined_requests) c
    → InOrder c
reached-InOrder n max_iov_len some_ r =
    run-InOrder max_iov_len r
      (record { base = 0; valid = new_coordinator-IsCoordinator n some_; sorted = tt; below = tt })

-- A connection starts to write the groups of its responses in the order of the requests, whatever
-- order the responses come in, and whatever handlers refuse, reads or writes fail or time limits are
-- reached on the way, as long as the request ids do not wrap around.
pub run-starts_in_order :
    (max_pipelined_requests max_iov_len : ℕ) {c : Connection}
    → 0 < max_pipelined_requests
    → Run max_iov_len (new_connection max_pipelined_requests) c
    → IsSortedFrom 0 (started c.events)
run-starts_in_order n max_iov_len some_ r =
    let v = reached-InOrder n max_iov_len some_ r in v.sorted
