-- ===== src/Connection/Served.antt =====
-- Connections of web/restinio/restinio/impl/connection.hpp that leave nothing lying, and what one
-- operation makes of them.
use prj.Prelude.{
  ℕ, ◌≡◌, refl, ap, Bool, true, false, Option, none, some, ltb, length, List, [], ◌∷◌, ◌++◌, Bytes,
  if◌then◌else◌,
}
use prj.Prelude.Outcome.{Outcome, ok, throws, undefined, unfinished, M}
use prj.Contexts.{WriteGroup}
use prj.Coordinator.{Coordinator, pop_ready_buffers}
use prj.Coordinator.Resetting.{reset_coordinator-empties}
use prj.WriteOutput.{
  OutputCtx, extract_from, extract_next_write_operation, transmitting, is_set, finish_write_group,
  waiting_callback,
}
use prj.Connection.{
  read_started, Connection, notify, after_reset, close, guarded, write_if_necessary,
  finish_handling_current_write_ctx, handle_operation,
}
use prj.Connection.Started.{started_quiet, started-notify, InOrder, quiet, add_events-Keeps}

-- The socket is closed; a group is being written; or the oldest open request has nothing to be written.
pub data Settled (c : Connection) : Type 0 where
  is_shut : c.socket_open ≡ false → Settled c
  is_writing : transmitting c.output ≡ true → Settled c
  is_waiting : pop_ready_buffers c.coordinator ≡ (ok none, c.coordinator) → Settled c

-- That, or the coordinator counts as closed, behind the last response.
pub data Served (c : Connection) : Type 0 where
  is_settled : Settled c → Served c
  is_ending : c.coordinator.closed ≡ true → Served c

-- The call has returned, with the connection settled, or at least served.
abbrev pub Settles : Outcome (Unit {0}) × Connection → Type 0
Settles r = (r.0 ≡ ok tt) × Settled r.1

abbrev pub Serves : Outcome (Unit {0}) × Connection → Type 0
Serves r = (r.0 ≡ ok tt) × Served r.1

pub Settles-Serves : (r : Outcome (Unit {0}) × Connection) → Settles r → Serves r
Settles-Serves r (returned, s) = (returned, is_settled s)

pub closes :
    (c : Connection) → InOrder c → ((close c).0 ≡ ok tt) × ((close c).1.socket_open ≡ false)
unfolding close after_reset
closes c v =
    let (d, done, w, none_left) = reset_coordinator-empties c.coordinator v.base v.valid in
    rw done (refl, refl)

pub close-Settles : (c : Connection) → InOrder c → Settles (close c)
close-Settles c v = let (returned, shut) = closes c v in (returned, is_shut shut)

pub guarded-Settles : (r : Outcome (Unit {0}) × Connection) → Settles r → Settles (guarded r)
unfolding guarded
guarded-Settles (ok tt, c) s = s
guarded-Settles (throws, c) s = cc
guarded-Settles (undefined, c) s = cc
guarded-Settles (unfinished, c) s = cc

pub guarded-Serves : (r : Outcome (Unit {0}) × Connection) → Serves r → Serves (guarded r)
unfolding guarded
guarded-Serves (ok tt, c) s = s
guarded-Serves (throws, c) s = cc
guarded-Serves (undefined, c) s = cc
guarded-Serves (unfinished, c) s = cc

-- What starts to write settles a connection whose coordinator this is.
abbrev pub Starts : M Connection (Unit {0}) → Coordinator → Type 0
Starts init k = (c : Connection) → InOrder c → c.coordinator ≡ k → Settles (init c)

-- A connection with this coordinator, which writes nothing.
abbrev Rests : Coordinator → Connection → Type 0
Rests k c = InOrder c × (c.coordinator ≡ k) × (transmitting c.output ≡ false)

write_if_necessary-Settles :
    (init : M Connection (Unit {0})) (k : Coordinator)
    → Starts init k
    → (c : Connection) → Rests k c
    → Settles (write_if_necessary init c)
unfolding write_if_necessary
write_if_necessary-Settles init k starts c (v, same, idle) = rw idle (starts c v same)

pub if_known :
    {A : Type 0} (P : A → Type 0) (b : Bool) (x y : A)
    → (b ≡ true → P x)
    → (b ≡ false → P y)
    → P (if b then x else y)
if_known P true x y p q = p refl
if_known P false x y p q = q refl

finish-Settles :
    (init : M Connection (Unit {0})) (c : Connection)
    → (c.coordinator.closed ≡ false → Starts init c.coordinator)
    → InOrder c
    → Settles (finish_handling_current_write_ctx init c)
unfolding finish_handling_current_write_ctx
finish-Settles init c starts v =
    let finished : Connection = record c {
      output = finish_write_group c.output;
      events = c.events ++ notify true (waiting_callback c.output.current);
    } in
    let vf : InOrder finished =
      quiet c finished v refl
        (started_quiet c.events _ (started-notify true (waiting_callback c.output.current))) in
    if_known Settles c.coordinator.closed _ _ (λ _. close-Settles finished vf)
      (λ open_. write_if_necessary-Settles init c.coordinator (starts open_) _ (
        if_known (Rests c.coordinator) c.init_read_after_this_write _ _
          (λ _. (add_events-Keeps finished (read_started ∷ []) refl vf, refl, refl))
          (λ _. (vf, refl, refl))))

-- What an operation, or the end of the group, makes of a group that is being written.
pub extracted-Settles :
    (max_iov_len : ℕ) (init : M Connection (Unit {0})) (c : Connection) (g : WriteGroup)
    → (c.coordinator.closed ≡ false → Starts init c.coordinator)
    → InOrder c
    → c.output.current ≡ some g
    → Settles (handle_operation init c (ok (extract_from max_iov_len g c.output)))
unfolding handle_operation extract_from
extracted-Settles max_iov_len init c g starts v at =
    if_known (λ (e : Option (List Bytes) × OutputCtx). Settles (handle_operation init c (ok e)))
      (ltb c.output.next_item (length g.items)) _ _ (λ _. (refl, is_writing (ap is_set at)))
      (λ _. finish-Settles init c starts v)

pub some_group : (o : Option WriteGroup) → is_set o ≡ true → (g : WriteGroup) × (o ≡ some g)
some_group none e = cc
some_group (some g) e = (g, refl)

pub extract_at :
    (max_iov_len : ℕ) (out : OutputCtx) (g : WriteGroup)
    → out.current ≡ some g
    → extract_next_write_operation max_iov_len out ≡ ok (extract_from max_iov_len g out)
unfolding extract_next_write_operation
extract_at max_iov_len out g at =
    ap
      (λ (o : Option WriteGroup). elim o as (λ _. Outcome (Option (List Bytes) × OutputCtx)) [
        | none ↦ undefined
        | some h ↦ ok (extract_from max_iov_len h out)
      ])
      at
