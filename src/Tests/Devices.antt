-- ===== src/Tests/Devices.antt =====
-- Instances of the theorems on the serial port and on the frames for the dealer.
use prj.Prelude.{
  All, str_eq, ◌≡◌, refl, ◌≢◌, ◌↔◌, ◌⊎◌, ◌<◌, true, none, some, [], ◌∷◌, ◌++◌, Bytes, codes, length,
  map, arith,
}
use prj.Prelude.Outcome.{ok, undefined, unfinished}
use prj.Serial.{Port, read_loop, read_c_string}
use prj.Serial.Reading.{Goes, read_loop_unfinished_iff, read_c_string_of_string}
use prj.Psoc.{
  fisk, start_spil, message_temp, c_str, format, send, print_message, str_copy, print_to, spil_code,
}
use prj.Psoc.Frames.{start_spil_undefined_iff}
use prj.UartTest.{Machine, rounds}
use prj.UartTest.Rounds.{overlong_line_ends}
use prj.Tests.{port, dealer}

abbrev hello : Port
hello = record port { input = map some (codes "hi") ++ some 0 ∷ none ∷ [] }

abbrev three : Bytes
three = 9 ∷ 9 ∷ 9 ∷ []

hi_plain : All (λ c. c ≢ 0) (codes "hi")
hi_plain = (omega arith, (omega arith, tt))

read_loop_unfinished_iff_example :
    ((read_loop 2 three 0 1 hello).0 ≡ unfinished) ↔ ((0 < 1) × Goes 2 hello.input)
read_loop_unfinished_iff_example = read_loop_unfinished_iff 1 three 1 hello (omega arith)

read_c_string_of_string_example :
    read_c_string three 3 hello ≡ (ok (0, 0 ∷ 9 ∷ 9 ∷ []), record hello { input = none ∷ [] })
read_c_string_of_string_example =
    read_c_string_of_string three 3 hello (codes "hi") (none ∷ []) (omega arith) (omega arith)
      hi_plain refl

start_spil_undefined_iff_example : ((start_spil fisk (codes "%") dealer).0 ≡ undefined) ↔ (
    (4 < length (c_str (message_temp fisk (codes "%"))))
    ⊎ (format (c_str (message_temp fisk (codes "%"))) ≡ none))
start_spil_undefined_iff_example = start_spil_undefined_iff fisk (codes "%") dealer

-- The same message, and one that is too long.
overflows :
    ((start_spil fisk (codes "%") dealer).0 ≡ undefined)
    × ((start_spil fisk (codes "12") dealer).0 ≡ undefined)
unfolding start_spil message_temp c_str send print_message str_copy print_to format spil_code str_eq
overflows = (refl, refl)

-- A line that fits, and one that does not.
abbrev typed : Bytes → Machine
typed text = record {
  console = record { text = text; good = true };
  port = port;
  buf = 7 ∷ 7 ∷ 7 ∷ 7 ∷ 7 ∷ [];
}

abbrev kept : Bytes → Bytes
kept text = text

overlong_line_ends_example :
    (rounds kept 3 (typed (codes "abcde\nfg\n"))).1.port.sent ≡ codes "xabcd"
overlong_line_ends_example =
    overlong_line_ends kept (codes "abcd") (codes "\nfg\n") b'e' 2 (typed (codes "abcde\nfg\n")) 4
      (2 ∷ []) (omega arith) (omega arith) (omega arith) (omega arith) refl refl (omega arith)
