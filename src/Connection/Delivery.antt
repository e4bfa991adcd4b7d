-- ===== src/Connection/Delivery.antt =====
-- What a connection of web/restinio/restinio/impl/connection.hpp hands to the socket while write
-- operations end well.
use prj.Prelude.{
  ℕ, zero, suc, ◌+◌, ◌-◌, ◌<◌, ◌≤◌, ◌≡◌, refl, sym, ap, subst, ◌∙◌, inl, inr, true, false, Bool,
  Option, some, List, [], ◌∷◌, ◌++◌, append-nil, append_assoc, arith, Bytes, ltb, ltb→lt, ltb→le,
  length, take, drop, length-take, length-drop, Bool-cases, if_true,
}
use prj.Prelude.Outcome.{Outcome, ok, throws, undefined, unfinished, M, continue, ◌>>◌, give}
use prj.Contexts.{WriteGroup, OutputFlags, enqueue_group, push_response_context, get_by_req_id}
use prj.Coordinator.{
  register_new_request, append_response, append_to, pop_ready_buffers, pop_front, pop_groups,
}
use prj.WriteOutput.{extract_from, extract_next_write_operation}
use prj.WriteOutput.Draining.{drop-drop, take-drop_rest, drop_all}
use prj.Connection.{
  Event, group_started, write_started, notified, read_started, closed_socket, Connection,
  new_connection, guarded, handle_operation, written, accepted, request, write_if_necessary,
  start_popped, init_write_if_necessary, after_append, write_response_parts_impl,
  write_response_parts, respond, handled, after_register, on_request_message_complete, step,
  handle_current_write_ctx, after_write, queued, init_write,
}
use prj.Connection.Served.{extract_at}

-- The buffers of the write operations.
abbrev pub handed_over : List Event → List Bytes
handed_over [] = []
handed_over (group_started id ∷ events) = handed_over events
handed_over (write_started bufs ∷ events) = bufs ++ handed_over events
handed_over (notified cb success ∷ events) = handed_over events
handed_over (read_started ∷ events) = handed_over events
handed_over (closed_socket ∷ events) = handed_over events

handed_over-append :
    (xs ys : List Event) → handed_over (xs ++ ys) ≡ handed_over xs ++ handed_over ys
handed_over-append [] ys = refl
handed_over-append (group_started id ∷ xs) ys = handed_over-append xs ys
handed_over-append (write_started bufs ∷ xs) ys =
    ap (◌++◌ bufs) (handed_over-append xs ys)
    ∙ sym (append_assoc bufs (handed_over xs) (handed_over ys))
handed_over-append (notified cb success ∷ xs) ys = handed_over-append xs ys
handed_over-append (read_started ∷ xs) ys = handed_over-append xs ys
handed_over-append (closed_socket ∷ xs) ys = handed_over-append xs ys

-- All items of the group have been handed over, and the coordinator is as it was.
pub record IsHandedOver (c : Connection) (g : WriteGroup) (d : Connection) : Type 0 where
  pub same_coordinator : d.coordinator ≡ c.coordinator
  pub same_group : d.output.current ≡ some g
  pub none_left : length g.items ≤ d.output.next_item
  pub rest : handed_over d.events ≡ handed_over c.events ++ drop c.output.next_item g.items

module _ (max_iov_len : ℕ) where
  -- So many write operations end well, one after the other.
  pub writes : ℕ → M Connection (Unit {0})
  writes zero = give tt
  writes (suc n) = after_write max_iov_len written >> writes n

  -- One of them, while items of the group are left.
  write_goes_on :
      (c : Connection) (g : WriteGroup)
      → c.output.current ≡ some g
      → c.output.next_item < length g.items
      → let bufs = take max_iov_len (drop c.output.next_item g.items) in
        after_write max_iov_len written c ≡ (
          ok tt,
          record c {
            output = record c.output { next_item = c.output.next_item + length bufs };
            events = c.events ++ write_started bufs ∷ [];
          },
        )
  unfolding after_write handle_current_write_ctx guarded handle_operation extract_from
  write_goes_on c g at more =
      let test : ltb c.output.next_item (length g.items) ≡ true = ground arith in
      let init = init_write max_iov_len (suc (queued c.coordinator.context_table.contexts)) in
      ap (λ o. guarded (handle_operation init c o))
        (extract_at max_iov_len c.output g at ∙ ap ok (if_true _ _ _ test))

  batch :
      (i : ℕ) (items rest : List Bytes)
      → let bufs = take max_iov_len (drop i items) in
        (rest ++ (bufs ++ [])) ++ drop (i + length bufs) items ≡ rest ++ drop i items
  batch i items rest =
      let bufs = take max_iov_len (drop i items) in
      append_assoc rest (bufs ++ []) (drop (i + length bufs) items)
      ∙ ap (◌++◌ rest) (
          ap (λ xs. xs ++ drop (i + length bufs) items) (append-nil bufs)
          ∙ ap (◌++◌ bufs) (sym (drop-drop i (length bufs) items))
          ∙ take-drop_rest max_iov_len (drop i items))

  rest_in_time :
      (fuel : ℕ) (c : Connection) (g : WriteGroup)
      → 0 < max_iov_len
      → c.output.current ≡ some g
      → length g.items - c.output.next_item < fuel
      → (n : ℕ) × (d : Connection) × (writes n c ≡ (ok tt, d)) × IsHandedOver c g d
  unfolding writes
  rest_in_time zero c g room at h = absurd (omega arith)
  rest_in_time (suc fuel) c g room at h =
      elim (Bool-cases (ltb c.output.next_item (length g.items))) [
        | inr e ↦ (
          0,
          c,
          refl,
          record {
            same_coordinator = refl;
            same_group = at;
            none_left = ltb→le _ _ e;
            rest =
                sym (append-nil (handed_over c.events))
                ∙ ap (◌++◌ (handed_over c.events))
                    (drop_all c.output.next_item g.items (ltb→le _ _ e));
          },
        )
        | inl e ↦
            let bufs = take max_iov_len (drop c.output.next_item g.items) in
            let c' : Connection = record c {
              output = record c.output { next_item = c.output.next_item + length bufs };
              events = c.events ++ write_started bufs ∷ [];
            } in
            let more = ltb→lt c.output.next_item (length g.items) e in
            let (n, d, done, over) = rest_in_time fuel c' g room at (
              omega (
                arith,
                length-take max_iov_len (drop c.output.next_item g.items),
                length-drop c.output.next_item g.items,
              )) in
            (
              suc n,
              d,
              ap (λ r. continue (λ _. writes n) r.0 r.1) (write_goes_on c g at more) ∙ done,
              record {
                same_coordinator = over.same_coordinator;
                same_group = over.same_group;
                none_left = over.none_left;
                rest =
                    over.rest
                    ∙ ap (λ xs. xs ++ drop (c.output.next_item + length bufs) g.items)
                        (handed_over-append c.events (write_started bufs ∷ []))
                    ∙ batch c.output.next_item g.items (handed_over c.events);
              },
            )
      ]

-- While a group is being written and its write operations, which take at least one buffer, end well, the
-- connection comes to have handed
-- over all items of the group that were left, each once and in order, and nothing else: meanwhile the
-- coordinator gives nothing out.
pub group_is_written :
    (max_iov_len : ℕ) (c : Connection) (g : WriteGroup)
    → 0 < max_iov_len
    → c.output.current ≡ some g
    → (n : ℕ) × (d : Connection) × (writes max_iov_len n c ≡ (ok tt, d)) × IsHandedOver c g d
group_is_written max_iov_len c g room at =
    rest_in_time max_iov_len (suc (length g.items)) c g room at (omega arith)

abbrev pub whole : Bool → OutputFlags
whole connection_close = record { final_parts = true; connection_close = connection_close }

-- A new connection begins with the response to its first request.
first_response :
    (m : ℕ) (connection_close : Bool) (item : Bytes) (items : List Bytes) (size : ℕ) (cb : Option ℕ)
    → let g : WriteGroup = record {
      items = item ∷ items;
      status_line_size = size;
      after_write_notificator = cb;
    } in
      let r =
        step (suc m) (request ((whole connection_close, g) ∷ []) accepted) (new_connection 1) in
      (r.0 ≡ ok tt)
      × (r.1.output.current ≡ some g)
      × (handed_over r.1.events ++ drop r.1.output.next_item g.items ≡ g.items)
unfolding step on_request_message_complete after_register register_new_request push_response_context
    respond handled guarded write_response_parts write_response_parts_impl append_response append_to
    get_by_req_id enqueue_group after_append init_write_if_necessary write_if_necessary init_write
    start_popped pop_ready_buffers pop_front pop_groups handle_current_write_ctx
    extract_next_write_operation extract_from handle_operation
first_response m true item items size cb =
    let test : ltb 0 (suc (length items)) ≡ true = ground arith in
    rw test (refl, refl, batch (suc m) 0 (item ∷ items) [])
first_response m false item items size cb =
    let test : ltb 0 (suc (length items)) ≡ true = ground arith in
    rw test (refl, refl, batch (suc m) 0 (item ∷ items) [])

at_least_one :
    (items : List Bytes)
    → 0 < length items
    → (item : Bytes) × (rest : List Bytes) × (items ≡ item ∷ rest)
at_least_one [] h = absurd (omega arith)
at_least_one (item ∷ rest) h = (item, rest, refl)

-- A new connection whose first request is answered with this group comes to have handed over exactly its
-- items, if its write operations end well.
abbrev pub Delivers : ℕ → Bool → WriteGroup → Type 0
Delivers max_iov_len connection_close g =
    (n : ℕ) × (d : Connection) × ((step max_iov_len
            (request ((whole connection_close, g) ∷ []) accepted)
          >> writes max_iov_len n)
        (new_connection 1)
      ≡ (ok tt, d))
    × (handed_over d.events ≡ g.items)

continued :
    (o : Outcome (Unit {0})) (next : M Connection (Unit {0})) (c : Connection)
    → o ≡ ok tt
    → continue (λ _. next) o c ≡ next c
continued (ok tt) next c e = refl
continued throws next c e = cc
continued undefined next c e = cc
continued unfinished next c e = cc

literal_is_delivered :
    (m : ℕ) (connection_close : Bool) (item : Bytes) (items : List Bytes) (size : ℕ) (cb : Option ℕ)
    → Delivers
        (suc m)
        connection_close
        (record { items = item ∷ items; status_line_size = size; after_write_notificator = cb })
literal_is_delivered m connection_close item items size cb =
    let g : WriteGroup = record {
      items = item ∷ items;
      status_line_size = size;
      after_write_notificator = cb;
    } in
    let begun =
      step (suc m) (request ((whole connection_close, g) ∷ []) accepted) (new_connection 1) in
    let (returned, current, same) = first_response m connection_close item items size cb in
    let (n, d, done, over) = group_is_written (suc m) begun.1 g (omega arith) current in
    (n, d, continued begun.0 (writes (suc m) n) begun.1 returned ∙ done, over.rest ∙ same)

-- That is so for every group of at least one item, whether the connection is to be closed or not.
pub first_is_delivered :
    (max_iov_len : ℕ) (connection_close : Bool) (g : WriteGroup)
    → 0 < max_iov_len
    → 0 < length g.items
    → Delivers max_iov_len connection_close g
first_is_delivered zero connection_close g room some_ = absurd (omega arith)
first_is_delivered (suc m) connection_close g room some_ =
    let (item, items, e) = at_least_one g.items some_ in
    subst (λ all. Delivers (suc m) connection_close (record g { items = all })) (sym e)
      (literal_is_delivered m connection_close item items g.status_line_size
        g.after_write_notificator)
