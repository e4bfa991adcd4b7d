-- ===== src/Psoc/Frames.antt =====
-- `PSoCcom::startSpil` of PSoCcom.hpp: the frames that it sends, and the bounds of its arrays.
use native.Mathlib.Decide.{dec_lt}
use prj.Prelude.{
  ℕ, zero, suc, ◌+◌, ◌≤◌, ◌<◌, ◌≡◌, refl, ◌≢◌, ◌↔◌, ◌⊎◌, inl, inr, none, some, List, [], ◌∷◌, ◌++◌,
  ap, arith, Bytes, Option-cases, length, drop, length-append, take-append, All,
}
use prj.Prelude.Outcome.{Outcome, ok, throws, undefined, unfinished}
use prj.Serial.Writing.{write_some_whole, write_some_defined, write_some_finishes}
use prj.Psoc.{
  Psoc, buf_size, fisk, five_hundred, roevhul, spil_code, message_temp, c_str, str_copy, format,
  print_to, send, print_message, start_spil,
}

-- A byte that `c_str` and `sprintf` pass on as it is.
abbrev pub IsPlain : ℕ → Type 0
IsPlain c = (c ≢ 0) × (c ≢ b'%')

pub c_str_of_plain : (s : Bytes) → All IsPlain s → c_str s ≡ s
unfolding c_str
c_str_of_plain [] h = refl
c_str_of_plain (zero ∷ s) h = absurd (h.0.0 refl)
c_str_of_plain (suc c ∷ s) h = ap (◌∷◌ (suc c)) (c_str_of_plain s h.1)

pub format_of_plain : (s : Bytes) → All IsPlain s → format s ≡ some s
unfolding format
format_of_plain [] h = refl
format_of_plain (c ∷ []) h = ground arith
format_of_plain (c ∷ d ∷ s) h = ground (arith, format_of_plain (d ∷ s) h.1)

format-length_cons :
    (c d : ℕ) (s t : Bytes)
    → format (c ∷ d ∷ s) ≡ some t
    → ((u : Bytes) → format (d ∷ s) ≡ some u → length u ≤ suc (length s))
    → ((u : Bytes) → format s ≡ some u → length u ≤ length s)
    → length t ≤ suc (suc (length s))
unfolding format
format-length_cons c d s t h ih ih' = elim (Option-cases (format (d ∷ s))) [
  | inl e ↦ elim (Option-cases (format s)) [
    | inl e' ↦ ground arith
    | inr (v, e') ↦ ground (arith, ih' v e')
  ]
  | inr (u, e) ↦ elim (Option-cases (format s)) [
    | inl e' ↦ ground (arith, ih u e)
    | inr (v, e') ↦ ground (arith, ih u e, ih' v e')
  ]
]

-- `sprintf` without arguments never makes a text longer.
format-length : (s t : Bytes) → format s ≡ some t → length t ≤ length s
unfolding format
format-length [] t h = ground arith
format-length (c ∷ []) t h = ground arith
format-length (c ∷ d ∷ s) t h =
    format-length_cons c d s t h (format-length (d ∷ s)) (format-length s)

send_defined :
    (n : ℕ) (buf : Bytes) (psoc : Psoc) → n ≤ length buf → (send (ok (n, buf)) psoc).0 ≢ undefined
unfolding send
send_defined n buf psoc h = ground (arith, write_some_defined buf n psoc.port)

-- The array after a text has been printed over its front.
abbrev printed : Bytes → Bytes → Bytes
printed buf text = text ++ 0 ∷ drop (length text + 1) buf

length-printed : (buf text : Bytes) → length text ≤ length (printed buf text)
length-printed buf text = omega (arith, length-append text (0 ∷ drop (length text + 1) buf))

print_message_fits :
    (buf message text : Bytes)
    → length message ≤ 4
    → format message ≡ some text
    → print_message buf (str_copy buf_size message) ≡ ok (length text, printed buf text)
unfolding print_message print_to str_copy
print_message_fits buf message text h e =
    ground (arith, format-length message text e, ap (print_to buf) e)

print_message_too_long :
    (buf message : Bytes)
    → 4 < length message
    → print_message buf (str_copy buf_size message) ≡ undefined
unfolding print_message str_copy
print_message_too_long buf message h = ground arith

print_message_bad :
    (buf message : Bytes)
    → format message ≡ none
    → print_message buf (str_copy buf_size message) ≡ undefined
unfolding print_message print_to str_copy
print_message_bad buf message e = ground (arith, ap (print_to buf) e)

send_message_defined :
    (psoc : Psoc) (message text : Bytes)
    → length message ≤ 4
    → format message ≡ some text
    → (send (print_message psoc.buf (str_copy buf_size message)) psoc).0 ≢ undefined
send_message_defined psoc message text h e =
    rw (print_message_fits psoc.buf message text h e)
      (send_defined (length text) (printed psoc.buf text) psoc (length-printed psoc.buf text))

send_undefined_iff :
    (psoc : Psoc) (message : Bytes)
    → ((send (print_message psoc.buf (str_copy buf_size message)) psoc).0 ≡ undefined)
      ↔ ((4 < length message) ⊎ (format message ≡ none))
unfolding send
send_undefined_iff psoc message = (
  λ h. elim (dec_lt 4 (length message)) [
    | yes long ↦ inl long
    | no short ↦ elim (Option-cases (format message)) [
      | inl e ↦ inr e
      | inr (text, e) ↦ absurd (send_message_defined psoc message text (omega arith) e h)
    ]
  ],
  λ h. elim h [
    | inl long ↦ rw (print_message_too_long psoc.buf message long) refl
    | inr bad ↦ rw (print_message_bad psoc.buf message bad) refl
  ],
)

-- `startSpil` runs into undefined behaviour exactly when its message has more than four bytes before
-- the first NUL, or holds a `%` that `sprintf` takes for a conversion.
pub start_spil_undefined_iff :
    (spil antal : Bytes) (psoc : Psoc)
    → ((start_spil spil antal psoc).0 ≡ undefined) ↔ (
        (4 < length (c_str (message_temp spil antal)))
        ⊎ (format (c_str (message_temp spil antal)) ≡ none))
unfolding start_spil
start_spil_undefined_iff spil antal psoc = send_undefined_iff psoc (c_str (message_temp spil antal))

print_message_finishes :
    (buf message : Bytes) → print_message buf (str_copy buf_size message) ≢ unfinished
print_message_finishes buf message = elim (dec_lt 4 (length message)) [
  | yes long ↦ rw (print_message_too_long buf message long) (λ e. cc)
  | no short ↦ elim (Option-cases (format message)) [
    | inl bad ↦ rw (print_message_bad buf message bad) (λ e. cc)
    | inr (text, e) ↦ rw (print_message_fits buf message text (omega arith) e) (λ e. cc)
  ]
]

send_finishes :
    (r : Outcome (ℕ × Bytes)) (psoc : Psoc) → r ≢ unfinished → (send r psoc).0 ≢ unfinished
unfolding send
send_finishes (ok (n, buf)) psoc h = ground (arith, write_some_finishes buf n psoc.port)
send_finishes throws psoc h = λ e. cc
send_finishes undefined psoc h = λ e. cc
send_finishes unfinished psoc h = absurd (h refl)

-- There is no loop in `startSpil` that could go on.
pub start_spil_finishes :
    (spil antal : Bytes) (psoc : Psoc) → (start_spil spil antal psoc).0 ≢ unfinished
unfolding start_spil
start_spil_finishes spil antal psoc =
    send_finishes _ psoc (print_message_finishes psoc.buf (c_str (message_temp spil antal)))

-- The number that stands for a game in a frame.
pub data IsGame : Bytes → ℕ → Type 0 where
  is_fisk : IsGame fisk b'1'
  is_five_hundred : IsGame five_hundred b'2'
  is_roevhul : IsGame roevhul b'3'

IsGame-code : {spil : Bytes} {d : ℕ} → IsGame spil d → (spil_code spil ≡ d ∷ []) × IsPlain d
unfolding spil_code
IsGame-code is_fisk = (refl, omega arith)
IsGame-code is_five_hundred = (refl, omega arith)
IsGame-code is_roevhul = (refl, omega arith)

-- The frame for the game with number `d` and the players' byte `p`.
abbrev pub frame : ℕ → ℕ → Bytes
frame d p = b'R' ∷ d ∷ p ∷ b'C' ∷ []

message_temp_of_game :
    (spil : Bytes) (d p : ℕ) → IsGame spil d → message_temp spil (p ∷ []) ≡ frame d p
unfolding message_temp
message_temp_of_game spil d p g = rw ((IsGame-code g).0)

send_whole :
    (text : Bytes) (c : ℕ) (more : List ℕ) (psoc : Psoc)
    → psoc.port.room ≡ c ∷ more
    → length text ≤ c
    → ((send (ok (length text, printed psoc.buf text)) psoc).0 ≡ ok tt)
      × ((send (ok (length text, printed psoc.buf text)) psoc).1.port
          ≡ record psoc.port { room = more; sent = psoc.port.sent ++ text })
unfolding send
send_whole text c more psoc r f =
    let e =
      write_some_whole (printed psoc.buf text) text (length text) c more psoc.port
        (take-append text (0 ∷ drop (length text + 1) psoc.buf)) (length-printed psoc.buf text) r
        f in
    rw (send, e) (refl, ap (λ w. w.1) e)

-- For a game that the pages offer and a number of players of one byte that is neither NUL nor `%`,
-- when the port takes four bytes, `startSpil` returns and has sent `R`, the number of the game, the
-- byte for the players and `C`, in this order and nothing else.
pub start_spil_sends :
    (spil : Bytes) (d p c : ℕ) (more : List ℕ) (psoc : Psoc)
    → IsGame spil d
    → IsPlain p
    → psoc.port.room ≡ c ∷ more
    → 4 ≤ c
    → ((start_spil spil (p ∷ []) psoc).0 ≡ ok tt)
      × ((start_spil spil (p ∷ []) psoc).1.port
          ≡ record psoc.port { room = more; sent = psoc.port.sent ++ frame d p })
unfolding start_spil
start_spil_sends spil d p c more psoc g h r f =
    let plain : All IsPlain (frame d p) =
      (omega arith, ((IsGame-code g).1, (h, (omega arith, tt)))) in
    rw
      (
        start_spil,
        message_temp_of_game spil d p g,
        c_str_of_plain (frame d p) plain,
        print_message_fits psoc.buf (frame d p) (frame d p) (omega arith)
            (format_of_plain (frame d p) plain),
      )
      (send_whole (frame d p) c more psoc r f)
