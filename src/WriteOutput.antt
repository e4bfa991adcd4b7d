-- ===== src/WriteOutput.antt =====
-- `write_group_output_ctx_t` of web/restinio/restinio/impl/write_group_output_ctx.hpp, on groups whose
-- items are all in memory: files that are sent from disk are left out, as no handler sends one.
pub mod Draining
use prj.Prelude.{
  ℕ, zero, suc, ◌+◌, Bool, true, false, Option, none, some, List, [], ◌∷◌, Bytes, ltb,
  if◌then◌else◌, length, take, drop,
}
use prj.Prelude.Outcome.{Outcome, ok, undefined}
use prj.Contexts.{WriteGroup}

-- `m_current_wg` and `m_next_writable_item_index`.
pub record OutputCtx : Type 0 where
  pub current : Option WriteGroup
  pub next_item : ℕ

abbrev pub new_output : OutputCtx
new_output = record { current = none; next_item = 0 }

abbrev pub is_set : Option WriteGroup → Bool
is_set none = false
is_set (some g) = true

-- `transmitting`.
abbrev pub transmitting : OutputCtx → Bool
transmitting out = is_set out.current

-- `start_next_write_group`.
abbrev pub start_next_write_group : WriteGroup → OutputCtx → OutputCtx
start_next_write_group g out = record out { current = some g }

-- `extract_next_write_operation` on a group, with the most buffers that one operation takes: the buffers
-- of a trivial operation, or none.
unfoldable pub extract_from : ℕ → WriteGroup → OutputCtx → Option (List Bytes) × OutputCtx
extract_from max_iov_len g out =
    let bufs : List Bytes = take max_iov_len (drop out.next_item g.items) in
    if ltb out.next_item (length g.items)
    then (some bufs, record out { next_item = out.next_item + length bufs })
    else (none, out)

-- With no group, it is an access to an empty optional.
unfoldable pub extract_next_write_operation :
    ℕ → OutputCtx → Outcome (Option (List Bytes) × OutputCtx)
unfolding extract_from
extract_next_write_operation max_iov_len out = elim out.current [
  | none ↦ undefined
  | some g ↦ ok (extract_from max_iov_len g out)
]

-- The callback that a group has waiting, if there is a group.
abbrev pub waiting_callback : Option WriteGroup → Option ℕ
waiting_callback none = none
waiting_callback (some g) = g.after_write_notificator

-- `reset_write_group`, at the end of `finish_write_group`. The callback before it does not throw.
abbrev pub finish_write_group : OutputCtx → OutputCtx
finish_write_group out = new_output

-- `fail_write_group`, which leaves the index.
abbrev pub fail_write_group : OutputCtx → OutputCtx
fail_write_group out = record out { current = none }
