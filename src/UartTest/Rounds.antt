-- ===== src/UartTest/Rounds.antt =====
-- What the loop of UARTTEST/Version1/UARTTEST.cpp sends.
use prj.Prelude.{
  ℕ, zero, suc, ◌+◌, ◌≤◌, ◌≡◌, refl, sym, ap, ◌∙◌, ◌≢◌, Bool, true, false, List, [], ◌∷◌, ◌++◌,
  arith, Bytes, ◌==◌, if◌then◌else◌, if_false, leb, length, length-append, take-append, drop, All,
}
use prj.Prelude.Outcome.{Outcome, ok, throws, undefined, unfinished, continue}
use prj.Serial.Writing.{write_some_none, write_some_whole}
use prj.Psoc.Frames.{IsPlain, c_str_of_plain, format_of_plain}
use prj.Psoc.{c_str, format, print_to}
use prj.UartTest.{
  Console, Machine, extract, getline, unit_of, synced, after_print, after_read, round, rounds,
}

-- No line end in it.
abbrev pub OneLine : Bytes → Type 0
OneLine = All (λ c. c ≢ 10)

no_line_end : (c : ℕ) → c ≢ 10 → (c == 10) ≡ false
no_line_end c h = ground arith

-- A line that has a place for each of its bytes is taken with its end.
extract_line :
    (places : ℕ) (line rest : Bytes)
    → OneLine line
    → length line ≤ places
    → extract places (line ++ 10 ∷ rest) ≡ (line, rest, true)
unfolding extract
extract_line zero [] rest h fits = refl
extract_line zero (c ∷ line) rest h fits = absurd (omega arith)
extract_line (suc places) [] rest h fits = refl
extract_line (suc places) (c ∷ line) rest h fits = rw (no_line_end c h.0) (
    ap (λ (e : Bytes × Bytes × Bool). (c ∷ e.0, e.1, e.2))
      (extract_line places line rest h.1 (omega arith)))

-- Of a line that is longer, as many bytes as there are places are taken, and an error bit is set.
extract_long :
    (line : Bytes) (c : ℕ) (rest : Bytes)
    → OneLine line
    → c ≢ 10
    → extract (length line) (line ++ c ∷ rest) ≡ (line, c ∷ rest, false)
unfolding extract
extract_long [] c rest h n = rw (no_line_end c n) refl
extract_long (d ∷ line) c rest h n =
    rw (no_line_end d h.0)
      (ap (λ (e : Bytes × Bytes × Bool). (d ∷ e.0, e.1, e.2)) (extract_long line c rest h.1 n))

-- The buffer with a text and its terminator in front.
abbrev printed : Bytes → Bytes → Bytes
printed buf text = text ++ 0 ∷ drop (length text + 1) buf

print_plain :
    (buf line : Bytes)
    → All IsPlain line
    → length line ≤ 4
    → print_to buf (format (c_str line)) ≡ ok (length line, printed buf line)
unfolding print_to
print_plain buf line h fits =
    rw (c_str_of_plain line h) (rw (format_of_plain line h) (fitting (length line) fits _))
  where
    fitting :
        (n : ℕ) {A : Type 0}
        → n ≤ 4
        → (x : Outcome A) → (if leb (n + 1) 5 then x else undefined) ≡ x
    fitting n h x = ground arith

getline_line :
    (line rest : Bytes)
    → OneLine line
    → length line ≤ 4
    → getline (record { text = line ++ 10 ∷ rest; good = true })
      ≡ (line, record { text = rest; good = true })
unfolding getline
getline_line line rest h fits =
    ap (λ (e : Bytes × Bytes × Bool). (e.0, record { text = e.1; good = e.2 }))
      (extract_line 4 line rest h fits)

getline_long :
    (line : Bytes) (c : ℕ) (rest : Bytes)
    → OneLine line
    → length line ≡ 4
    → c ≢ 10
    → getline (record { text = line ++ c ∷ rest; good = true })
      ≡ (line, record { text = c ∷ rest; good = false })
unfolding getline
getline_long line c rest h size n =
    ap (λ (e : Bytes × Bytes × Bool). (e.0, record { text = e.1; good = e.2 }))
      (ap (λ k. extract k (line ++ c ∷ rest)) (sym size) ∙ extract_long line c rest h n)

getline_bad : (cin : Console) → cin.good ≡ false → getline cin ≡ ([], cin)
unfolding getline
getline_bad cin bad = if_false cin.good _ _ bad

module _ (sync : Bytes → Bytes) where
  -- What is sent for a line that `getline` has taken whole or in part.
  after_print_plain :
      (cin : Console) (line : Bytes) (m : Machine) (place : ℕ) (more : List ℕ)
      → All IsPlain line
      → length line ≤ 4
      → m.port.room ≡ place ∷ more
      → length line ≤ place
      → after_print sync cin (print_to m.buf (format (c_str line))) m ≡ (
        ok tt,
        record {
          console = synced sync cin;
          port = record m.port { room = more; sent = m.port.sent ++ line };
          buf = printed m.buf line;
        },
      )
  unfolding after_print unit_of
  after_print_plain cin line m place more h fits r room = rw (print_plain m.buf line h fits) (
      rw
        (write_some_whole (printed m.buf line) line (length line) place more m.port
          (take-append line _)
          (omega (arith, length-append line (0 ∷ drop (length line + 1) m.buf))) r room)
        refl)

  -- A line of at most four plain bytes is sent as it is, and the next line is the next round's.
  pub round-sends :
      (line rest : Bytes) (m : Machine) (place : ℕ) (more : List ℕ)
      → All IsPlain line
      → OneLine line
      → length line ≤ 4
      → m.console ≡ record { text = line ++ 10 ∷ rest; good = true }
      → m.port.room ≡ place ∷ more
      → length line ≤ place
      → round sync m ≡ (
        ok tt,
        record {
          console = record { text = sync rest; good = true };
          port = record m.port { room = more; sent = m.port.sent ++ line };
          buf = printed m.buf line;
        },
      )
  unfolding round after_read synced
  round-sends line rest m place more h o fits e r room =
      let cin : Console = record { text = rest; good = true } in
      ap (λ c. after_read sync c m) (ap getline e ∙ getline_line line rest o fits)
      ∙ after_print_plain cin line (record m { console = cin }) place more h fits r room

  -- With an error bit set, a round sends nothing, and the bit stays.
  stuck_print :
      (cin : Console) (m : Machine)
      → cin.good ≡ false
      → ((after_read sync ([], cin) m).1.port.sent ≡ m.port.sent)
        × ((after_read sync ([], cin) m).1.console.good ≡ false)
  unfolding after_read after_print format c_str print_to synced
  stuck_print cin m bad = (write_some_none (0 ∷ drop 1 m.buf) m.port, rw bad refl)

  round_stuck :
      (m : Machine)
      → m.console.good ≡ false
      → ((round sync m).1.port.sent ≡ m.port.sent) × ((round sync m).1.console.good ≡ false)
  unfolding round
  round_stuck m bad = rw (getline_bad m.console bad) (stuck_print m.console m bad)

  rounds-sent :
      (n : ℕ) (r : Outcome (Unit {0})) (m : Machine) (sent : Bytes)
      → m.port.sent ≡ sent
      → (rounds sync n m).1.port.sent ≡ sent
      → (continue (λ _. rounds sync n) r m).1.port.sent ≡ sent
  rounds-sent n (ok _) m sent e h = h
  rounds-sent n throws m sent e h = e
  rounds-sent n undefined m sent e h = e
  rounds-sent n unfinished m sent e h = e

  rounds_stuck :
      (n : ℕ) (m : Machine) → m.console.good ≡ false → (rounds sync n m).1.port.sent ≡ m.port.sent
  unfolding rounds
  rounds_stuck zero m bad = refl
  rounds_stuck (suc n) m bad =
      let (same, still) = round_stuck m bad in
      rounds-sent n (round sync m).0 (round sync m).1 m.port.sent same
        (rounds_stuck n (round sync m).1 still ∙ same)

  -- Of a line that has more than four bytes, of which the first four are neither NUL nor `%`, these four
  -- are sent, if the port takes them, and then nothing is ever sent again, however many rounds follow
  -- and whatever else is typed: the error bit is never cleared.
  pub overlong_line_ends :
      (line rest : Bytes) (c n : ℕ) (m : Machine) (place : ℕ) (more : List ℕ)
      → All IsPlain line
      → OneLine line
      → length line ≡ 4
      → c ≢ 10
      → m.console ≡ record { text = line ++ c ∷ rest; good = true }
      → m.port.room ≡ place ∷ more
      → 4 ≤ place
      → (rounds sync (suc n) m).1.port.sent ≡ m.port.sent ++ line
  unfolding rounds round after_read synced
  overlong_line_ends line rest c n m place more h o size over e r room =
      let cin : Console = record { text = c ∷ rest; good = false } in
      let first =
        ap (λ k. after_read sync k m) (ap getline e ∙ getline_long line c rest o size over)
        ∙ after_print_plain cin line (record m { console = cin }) place more h (omega arith) r
            (omega arith) in
      rw first (
        rounds_stuck n
          (record {
            console = cin;
            port = record m.port { room = more; sent = m.port.sent ++ line };
            buf = printed m.buf line;
          })
          refl)
