-- ===== src/UartTest.antt =====
-- `main` of UARTTEST/Version1/UARTTEST.cpp: lines of at most four bytes from the console go to the
-- serial line. The class `Serial` there is the one of Serial.hpp.
pub mod Rounds
use prj.Prelude.{ℕ, zero, suc, Bool, true, false, [], ◌∷◌, ◌++◌, Bytes, ◌==◌, if◌then◌else◌}
use prj.Prelude.Outcome.{Outcome, ok, throws, undefined, unfinished, M, ◌>>◌, give}
use prj.Serial.{Port, write_some}
use prj.Psoc.{c_str, format, print_to}

-- `std::cin`: what is still to be read, and whether no error bit is set.
pub record Console : Type 0 where
  pub text : Bytes
  pub good : Bool

-- The extraction of `getline`: the bytes stored, what is left, and whether it ended at a line end. At
-- the end of the text an error bit is set, and so it is before a byte that has no place.
unfoldable pub extract : ℕ → Bytes → Bytes × Bytes × Bool
extract places [] = ([], [], false)
extract zero (c ∷ text) = if c == 10 then ([], text, true) else ([], c ∷ text, false)
extract (suc places) (c ∷ text) =
    let (line, rest, ended) = extract places text in
    if c == 10 then ([], text, true) else (c ∷ line, rest, ended)

-- `std::cin.getline(besked, 5)`: with an error bit set it stores nothing but a terminator.
unfoldable pub getline : Console → Bytes × Console
unfolding extract
getline cin =
    let (line, rest, ended) = extract 4 cin.text in
    if cin.good then (line, record { text = rest; good = ended }) else ([], cin)

-- `s` and `buf`, with the console.
pub record Machine : Type 0 where
  pub console : Console
  pub port : Port
  pub buf : Bytes

-- The number of bytes that `writeSome` returns is not used.
unfoldable pub unit_of : Outcome ℕ → Outcome (Unit {0})
unit_of (ok k) = ok tt
unit_of throws = throws
unit_of undefined = undefined
unit_of unfinished = unfinished

module _ (sync : Bytes → Bytes) where
  -- `std::cin.sync()`, which does nothing with an error bit set; what it leaves of the text is up to
  -- the implementation.
  unfoldable pub synced : Console → Console
  synced cin = if cin.good then record cin { text = sync cin.text } else cin

  -- The end of a round, with what `sprintf` has made of the line.
  unfoldable pub after_print : Console → Outcome (ℕ × Bytes) → M Machine (Unit {0})
  unfolding synced unit_of
  after_print cin (ok (n, buf)) m =
      let (r, port) = write_some buf n m.port in
      let after : Machine = record { console = synced cin; port = port; buf = buf } in
      (unit_of r, after)
  after_print cin throws m = (throws, m)
  after_print cin undefined m = (undefined, m)
  after_print cin unfinished m = (unfinished, m)

  -- A round after `getline`.
  unfoldable pub after_read : Bytes × Console → M Machine (Unit {0})
  unfolding after_print
  after_read (line, cin) m =
      after_print cin (print_to m.buf (format (c_str line))) (record m { console = cin })

  -- One round of the loop.
  unfoldable pub round : M Machine (Unit {0})
  unfolding after_read getline
  round m = after_read (getline m.console) m

  -- The first rounds of the loop, which has no end.
  unfoldable pub rounds : ℕ → M Machine (Unit {0})
  unfolding round
  rounds zero = give tt
  rounds (suc n) = round >> rounds n
