-- ===== src/Serial.antt =====
-- The class `Serial` of Serial.hpp, over a serial port of boost::asio. The port is the environment's:
-- what its reads deliver and how many bytes its writes accept are lists that it consumes.
pub mod Reading
pub mod Writing
use Prim.Native.Nat.{min}
use prj.Prelude.{
  ℕ, zero, suc, ◌+◌, ◌-◌, ◌≡◌, Bool, true, false, not, ◌&&◌, Option, none, some, List, [], ◌∷◌,
  ◌++◌, Bytes, ltb, leb, ◌==◌, if◌then◌else◌, length, take, drop, get_elem?,
}
use prj.Prelude.Outcome.{Outcome, ok, throws, undefined, unfinished, M, ◌>>=◌, ◌>>◌, give, lift}

-- `serial_port`: a pending byte, or `none` where a read comes back empty; for each write to come,
-- the most bytes that it accepts; the bytes sent so far. A list that has run out is an I/O error.
pub record Port : Type 0 where
  pub baud_rate : ℕ
  pub input : List (Option ℕ)
  pub room : List ℕ
  pub sent : Bytes

-- The constructor: `none` is a device that cannot be opened.
unfoldable pub open_serial : Option Port → ℕ → Outcome Port
open_serial none baud_rate = throws
open_serial (some port) baud_rate = ok (record port { baud_rate = baud_rate })

-- `std::copy` into an array at an offset. A write past the end is undefined.
unfoldable pub store : Bytes → ℕ → Bytes → Outcome Bytes
store buf at bytes =
    if leb (at + length bytes) (length buf)
    then ok (take at buf ++ (bytes ++ drop (length bytes) (drop at buf)))
    else undefined

-- The bytes at hand, at most `n`, and what is left.
ready : ℕ → List (Option ℕ) → Bytes × List (Option ℕ)
ready zero input = ([], input)
ready (suc n) [] = ([], [])
ready (suc n) (none ∷ input) = ([], none ∷ input)
ready (suc n) (some b ∷ input) = let (bytes, rest) = ready n input in (b ∷ bytes, rest)

-- What one `read_some` of at most `n` bytes delivers.
receive : ℕ → M Port Bytes
unfolding ready
receive zero port = (ok [], port)
receive (suc n) port = elim port.input [
  | [] ↦ (throws, port)
  | none ∷ input ↦ (ok [], record port { input = input })
  | some b ∷ input ↦ (ok (b ∷ (ready n input).0), record port { input = (ready n input).1 })
]

-- `readSome(buf + at, n)`: the number of bytes read, and the buffer.
pub read_some : Bytes → ℕ → ℕ → M Port (ℕ × Bytes)
unfolding receive store
read_some buf at n = do
  bytes ← receive n
  filled ← lift (store buf at bytes)
  give (length bytes, filled)

-- The test of the loop of `readCString`, after a read that brought `r` bytes: `buf[n]` is read only
-- if `r == 1`.
go_on : ℕ → Bytes → ℕ → ℕ → Outcome Bool
go_on r buf n max_size =
    if r == 1
    then elim (get_elem? buf n) [ none ↦ undefined | some c ↦ ok (not (c == 0) && ltb n max_size) ]
    else ok false

-- The loop of `readCString`, on as many rounds as there is fuel. Its body does not change `n`.
pub read_loop : ℕ → Bytes → ℕ → ℕ → M Port (ℕ × Bytes)
unfolding go_on
read_loop zero buf n max_size = lift unfinished
read_loop (suc fuel) buf n max_size = do
  (r, filled) ← read_some buf n 1
  again ← lift (go_on r filled n max_size)
  (elim again [ true ↦ read_loop fuel filled n max_size | false ↦ give (r, filled) ])

-- Zero termination: `if(n == maxSize) buf[n-1] = '\0'`, with `n - 1` on `size_t`.
terminate : Bytes → ℕ → ℕ → Outcome Bytes
unfolding store
terminate buf n max_size =
    if n == max_size then elim n [ zero ↦ undefined | suc k ↦ store buf k (0 ∷ []) ] else ok buf

-- `readCString`. Each round takes an entry from the port's input, and a read behind the last one is an
-- I/O error, so this fuel is enough. A line that never stops delivering bytes other than 0 is not a finite
-- input: what the loop does on it is what it does on all of its beginnings.
pub read_c_string : Bytes → ℕ → M Port (ℕ × Bytes)
read_c_string buf max_size port =
    (do
      (r, filled) ← read_loop (suc (length port.input)) buf 0 max_size
      done ← lift (terminate filled 0 max_size)
      give ((if r == 1 then 0 else r), done))
      port

-- What one `write_some` of these bytes does: the number of bytes accepted.
transmit : Bytes → M Port ℕ
transmit bytes port = elim port.room [
  | [] ↦ (throws, port)
  | c ∷ room ↦ (
    ok (min c (length bytes)),
    record port { room = room; sent = port.sent ++ take (min c (length bytes)) bytes },
  )
]

-- `writeSome(buf, n)`: reading past the end of the buffer is undefined.
unfoldable pub write_some : Bytes → ℕ → M Port ℕ
unfolding transmit
write_some buf n port = if leb n (length buf) then transmit (take n buf) port else (undefined, port)

-- `strlen`: `none` if the array holds no terminator.
strlen : Bytes → Option ℕ
strlen [] = none
strlen (zero ∷ buf) = some 0
strlen (suc c ∷ buf) = elim (strlen buf) [ none ↦ none | some n ↦ some (suc n) ]

-- `writeSome(buf, incZero)` for zero-terminated strings.
pub write_c_string : Bytes → Bool → M Port ℕ
unfolding strlen write_some
write_c_string buf inc_zero port = elim (strlen buf) [
  | none ↦ (undefined, port)
  | some n ↦ write_some buf (if inc_zero then suc n else n) port
]
