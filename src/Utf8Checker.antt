-- ===== src/Utf8Checker.antt =====
-- `utf8_checker_t` of web/restinio/restinio/utils/utf8_checker.hpp. Masks of a byte are written as
-- quotients and remainders: `(byte & 0xC0) == 0x80` is `byte / 64 == 2`.
pub mod Decoding
use prj.Prelude.{
  ℕ, zero, suc, ◌+◌, ◌-◌, ◌*◌, ◌/◌, ◌%◌, ◌≡◌, Bool, true, false, ◌&&◌, ◌||◌, ltb, leb, ◌==◌,
  if◌then◌else◌,
}

pub data State : Type 0 where
  valid invalid may_be_overlong overlong : State

-- `m_current_symbol`, `m_current_symbol_rest_bytes` and `m_state`.
pub record Checker : Type 0 where
  pub current_symbol : ℕ
  pub rest_bytes : ℕ
  pub state : State

abbrev pub fresh : Checker
fresh = record { current_symbol = 0; rest_bytes = 0; state = valid }

abbrev pub is_may_be_overlong : State → Bool
is_may_be_overlong may_be_overlong = true
is_may_be_overlong _ = false

-- The state that `check_overlong` leaves.
unfoldable pub check_overlong : Checker → ℕ → State
check_overlong ch byte =
    if ltb 0 ch.rest_bytes && is_may_be_overlong ch.state
    then (if (ch.rest_bytes == 2) && (byte / 32 == 4)
        then overlong
        else if (ch.rest_bytes == 3) && (byte / 16 == 8)
        then overlong
        else if (ch.rest_bytes == 4) && (byte / 8 == 16)
        then overlong
        else if (ch.rest_bytes == 5) && (byte / 4 == 32)
        then overlong
        else valid)
    else (if (byte == 0xC0) || (byte == 0xC1)
        then overlong
        else if byte == 0xE0
        then may_be_overlong
        else if byte == 0xF0
        then may_be_overlong
        else if byte == 0xF8
        then may_be_overlong
        else if byte == 0xFC
        then may_be_overlong
        else ch.state)

-- `validate_current_symbol`, on the symbol and the state.
unfoldable pub validate_current_symbol : ℕ → State → State
validate_current_symbol symbol state =
    if (leb 0xD800 symbol && leb symbol 0xDFFF) || leb 0x110000 symbol then invalid else state

-- A byte after the first of a symbol, with `rest + 1` bytes to come; the symbol has 32 bits.
unfoldable pub continue_symbol : ℕ → ℕ → State → ℕ → Checker
unfolding validate_current_symbol
continue_symbol symbol rest state byte =
    let next : ℕ = (symbol * 64 + byte % 64) % 4294967296 in
    if byte / 64 == 2
    then record {
      current_symbol = next;
      rest_bytes = rest;
      state = if rest == 0 then validate_current_symbol next state else state;
    }
    else record { current_symbol = symbol; rest_bytes = suc rest; state = invalid }

-- The first byte of a symbol.
unfoldable pub start_symbol : State → ℕ → Checker
start_symbol state byte =
    if byte / 128 == 0
    then record { current_symbol = byte; rest_bytes = 0; state = state }
    else if byte / 32 == 6
    then record { current_symbol = byte % 32; rest_bytes = 1; state = state }
    else if byte / 16 == 14
    then record { current_symbol = byte % 16; rest_bytes = 2; state = state }
    else if byte / 8 == 30
    then record { current_symbol = byte % 8; rest_bytes = 3; state = state }
    else if byte / 4 == 62
    then record { current_symbol = byte % 4; rest_bytes = 4; state = state }
    else if byte / 2 == 126
    then record { current_symbol = byte % 2; rest_bytes = 5; state = state }
    else record { current_symbol = byte; rest_bytes = 0; state = invalid }

-- `return m_state == state_t::valid || m_state == state_t::may_be_overlong`.
abbrev pub accepts : State → Bool
accepts valid = true
accepts may_be_overlong = true
accepts invalid = false
accepts overlong = false

step_with : ℕ → ℕ → State → ℕ → Checker
unfolding continue_symbol start_symbol
step_with symbol zero state byte = start_symbol state byte
step_with symbol (suc rest) state byte = continue_symbol symbol rest state byte

-- `process_byte`: the checker afterwards, and whether the byte is accepted.
unfoldable pub process_byte : Checker → ℕ → Checker × Bool
unfolding check_overlong step_with
process_byte ch byte =
    let after : Checker = step_with ch.current_symbol ch.rest_bytes (check_overlong ch byte) byte in
    (after, accepts after.state)

abbrev pub finalized : Checker → Bool
finalized ch = ch.rest_bytes == 0

abbrev pub reset : Checker → Checker
reset ch = record ch { current_symbol = 0; rest_bytes = 0 }
