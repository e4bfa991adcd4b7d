-- ===== src/Psoc.antt =====
-- The class `PSoCcom` of PSoCcom.hpp: the start frame that goes to the card dealer over the UART.
-- The two `char` arrays have five elements; a write past their end is undefined.
pub mod Frames
use prj.Prelude.{
  ℕ, zero, suc, ◌+◌, ◌≡◌, Bool, Option, none, some, List, [], ◌∷◌, ◌++◌, Bytes, leb, ◌==◌, str_eq,
  if◌then◌else◌, length, drop, codes,
}
use prj.Prelude.Outcome.{Outcome, ok, throws, undefined, unfinished, M}
use prj.Serial.{Port, open_serial, write_some}

-- `mySerial_` and `buf`.
pub record Psoc : Type 0 where
  pub port : Port
  pub buf : Bytes

-- `sizeof` of `message` and of `buf`.
abbrev pub buf_size : ℕ
buf_size = 5

-- The constructor, with the default arguments of `Serial`. The array is not initialised.
pub init : Option Port → Bytes → Outcome Psoc
unfolding open_serial
init device garbage = elim (open_serial device 57600) [
  | ok port ↦ ok (record { port = port; buf = garbage })
  | throws ↦ throws
  | undefined ↦ undefined
  | unfinished ↦ unfinished
]

-- The games that the pages offer, as UTF-8.
abbrev pub fisk : Bytes
fisk = codes "Fisk"

abbrev pub five_hundred : Bytes
five_hundred = codes "500"

abbrev pub roevhul : Bytes
roevhul = b'R' ∷ 0xC3 ∷ 0xB8 ∷ codes "vhul"

-- `spilTemp` after the three `if`s.
unfoldable pub spil_code : Bytes → Bytes
unfolding str_eq
spil_code spil =
    let first : Bytes = if str_eq spil fisk then codes "1" else [] in
    let second : Bytes = if str_eq spil five_hundred then codes "2" else first in
    if str_eq spil roevhul then codes "3" else second

-- `message_temp`.
unfoldable pub message_temp : Bytes → Bytes → Bytes
unfolding spil_code
message_temp spil antal_spillere = codes "R" ++ (spil_code spil ++ (antal_spillere ++ codes "C"))

-- What `c_str()` shows to a C function: the bytes before the first NUL.
unfoldable pub c_str : Bytes → Bytes
c_str [] = []
c_str (zero ∷ s) = []
c_str (suc c ∷ s) = suc c ∷ c_str s

-- `strcpy` into an array of `size` bytes: the bytes copied, if they fit with their terminator.
unfoldable pub str_copy : ℕ → Bytes → Outcome Bytes
str_copy size s = if leb (length s + 1) size then ok s else undefined

-- What `sprintf` makes of a format string with no arguments: `%%` is a percent sign, and any other
-- conversion asks for an argument that is not there.
unfoldable pub format : Bytes → Option Bytes
format [] = some []
format (c ∷ []) = if c == b'%' then none else some (c ∷ [])
format (c ∷ d ∷ s) =
    let rest = format (d ∷ s) in
    let after = format s in
    if c == b'%'
    then (if d == b'%' then elim after [ none ↦ none | some t ↦ some (b'%' ∷ t) ] else none)
    else (elim rest [ none ↦ none | some t ↦ some (c ∷ t) ])

-- `sprintf(buf, message)`: the text and its terminator, written over the front of `buf`.
unfoldable pub print_to : Bytes → Option Bytes → Outcome (ℕ × Bytes)
print_to buf none = undefined
print_to buf (some text) =
    if leb (length text + 1) buf_size
    then ok (length text, text ++ 0 ∷ drop (length text + 1) buf)
    else undefined

-- The end of `startSpil`: `writeSome(buf, n)`.
unfoldable pub send : Outcome (ℕ × Bytes) → M Psoc (Unit {0})
send (ok (n, buf)) psoc =
    let (r, port) = write_some buf n psoc.port in
    let after : Psoc = record { port = port; buf = buf } in
    elim r [
      | ok k ↦ (ok tt, after)
      | throws ↦ (throws, after)
      | undefined ↦ (undefined, after)
      | unfinished ↦ (unfinished, after)
    ]
send throws psoc = (throws, psoc)
send undefined psoc = (undefined, psoc)
send unfinished psoc = (unfinished, psoc)

unfoldable pub print_message : Bytes → Outcome Bytes → Outcome (ℕ × Bytes)
unfolding print_to format
print_message buf (ok message) = print_to buf (format message)
print_message buf throws = throws
print_message buf undefined = undefined
print_message buf unfinished = unfinished

-- `startSpil`.
unfoldable pub start_spil : Bytes → Bytes → M Psoc (Unit {0})
start_spil spil antal_spillere psoc =
    send (print_message psoc.buf (str_copy buf_size (c_str (message_temp spil antal_spillere))))
      psoc
