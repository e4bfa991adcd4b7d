-- ===== src/Serial/Reading.antt =====
-- `readSome` and `readCString` of Serial.hpp.
use mathlib.Core.List.{tail}
use prj.Prelude.{
  ℕ, zero, suc, ◌≤◌, ◌<◌, ◌≡◌, refl, ◌≢◌, ◌↔◌, true, not, ◌&&◌, Option, none, some, List, [], ◌∷◌,
  ◌++◌, map, ap, ◌∙◌, arith, Bytes, ltb, ◌==◌, if◌then◌else◌, length, take, drop, set, length-set,
  take-append-drop, All, inl, inr, Bool-cases,
}
use prj.Prelude.Outcome.{Outcome, ok, throws, unfinished, >>=-eq-ok, lift}
use prj.Serial.{Port, store, ready, receive, read_some, go_on, read_loop, terminate, read_c_string}

splice :
    (buf : Bytes) (at b : ℕ)
    → at < length buf
    → take at buf ++ b ∷ drop 1 (drop at buf) ≡ set buf at b
splice [] at b h = elim h [ ]
splice (x ∷ buf) zero b h = refl
splice (x ∷ buf) (suc at) b h = ap (◌∷◌ x) (splice buf at b (omega arith))

store_one : (buf : Bytes) (at b : ℕ) → at < length buf → store buf at (b ∷ []) ≡ ok (set buf at b)
unfolding store
store_one buf at b h = ground (arith, splice buf at b)

store_nothing : (buf : Bytes) (at : ℕ) → at ≤ length buf → store buf at [] ≡ ok buf
unfolding store
store_nothing buf at h = ground (arith, take-append-drop at buf)

module _ (buf : Bytes) (at : ℕ) (port : Port) where
  read_some_end : port.input ≡ [] → read_some buf at 1 port ≡ (throws, port)
  unfolding read_some receive
  read_some_end e = ground arith

  read_some-none :
      (rest : List (Option ℕ))
      → at ≤ length buf
      → port.input ≡ none ∷ rest
      → read_some buf at 1 port ≡ (ok (0, buf), record port { input = rest })
  unfolding read_some receive
  read_some-none rest h e = ground (arith, store_nothing buf at h)

  read_some_byte :
      (b : ℕ) (rest : List (Option ℕ))
      → at < length buf
      → port.input ≡ some b ∷ rest
      → read_some buf at 1 port ≡ (ok (1, set buf at b), record port { input = rest })
  unfolding read_some receive ready
  read_some_byte b rest h e = ground (arith, store_one buf at b)

-- The test of the loop after a read that brought nothing, and after one that brought `c`.
go_on_byte :
    (buf : Bytes) (c max_size : ℕ)
    → 0 < length buf
    → go_on 1 (set buf 0 c) 0 max_size ≡ ok (not (c == 0) && ltb 0 max_size)
unfolding go_on
go_on_byte [] c max_size h = elim h [ ]
go_on_byte (x ∷ buf) c max_size h = refl

go_on_true : (c max_size : ℕ) → c ≢ 0 → 0 < max_size → (not (c == 0) && ltb 0 max_size) ≡ true
go_on_true c max_size h m = ground arith

set-set : (buf : Bytes) (c : ℕ) → set (set buf 0 c) 0 0 ≡ set buf 0 0
set-set [] c = refl
set-set (x ∷ buf) c = refl

-- The first so many reads of the input bring a byte each, none of which is 0.
pub data Goes : ℕ → List (Option ℕ) → Type 0 where
  no_rounds : {input : List (Option ℕ)} → Goes zero input
  one_more : {k b : ℕ} {rest : List (Option ℕ)} → b ≢ 0 → Goes k rest → Goes (suc k) (some b ∷ rest)

first_byte :
    {k : ℕ} {input : List (Option ℕ)}
    → Goes (suc k) input
    → (b : ℕ) × (rest : List (Option ℕ)) × (input ≡ some b ∷ rest)
first_byte (one_more {b = b} {rest = rest} nz goes) = (b, rest, refl)

module _ (max_size : ℕ) where
  -- The loop by the next entry of the input.
  loop_byte :
      (fuel : ℕ) (buf : Bytes) (port : Port) (b : ℕ) (rest : List (Option ℕ))
      → 0 < length buf
      → port.input ≡ some b ∷ rest
      → read_loop (suc fuel) buf 0 max_size port ≡ (
          if not (b == 0) && ltb 0 max_size
          then read_loop fuel (set buf 0 b) 0 max_size (record port { input = rest })
          else (ok (1, set buf 0 b), record port { input = rest }))
  unfolding read_loop
  loop_byte fuel buf port b rest h e =
      rw (read_some_byte buf 0 port b rest h e, go_on_byte buf b max_size h)
        (elim (Bool-cases (not (b == 0) && ltb 0 max_size)) [
          | inl t ↦ rw t refl
          | inr f ↦ rw f refl
        ])

  loop_none :
      (fuel : ℕ) (buf : Bytes) (port : Port) (rest : List (Option ℕ))
      → port.input ≡ none ∷ rest
      → read_loop (suc fuel) buf 0 max_size port ≡ (ok (0, buf), record port { input = rest })
  unfolding read_loop go_on
  loop_none fuel buf port rest e = rw (read_some-none buf 0 port rest (omega arith) e)

  loop_end :
      (fuel : ℕ) (buf : Bytes) (port : Port)
      → port.input ≡ []
      → read_loop (suc fuel) buf 0 max_size port ≡ (throws, port)
  unfolding read_loop
  loop_end fuel buf port e = rw (read_some_end buf 0 port e)

  -- With its fuel used up, the loop has had a non-zero byte in every round.
  unfinished-Goes :
      (rounds : ℕ) (buf : Bytes) (port : Port) (input : List (Option ℕ))
      → 0 < length buf
      → port.input ≡ input
      → (read_loop rounds buf 0 max_size port).0 ≡ unfinished
      → Goes rounds input
  unfinished-Goes zero buf port input h e u = no_rounds
  unfinished-Goes (suc k) buf port [] h e u =
      let u' : ◌≡◌ {A = Outcome (ℕ × Bytes)} throws unfinished = rw (loop_end k buf port e) at u in
      cc
  unfinished-Goes (suc k) buf port (none ∷ rest) h e u =
      let u' : ◌≡◌ {A = Outcome (ℕ × Bytes)} (ok (0, buf)) unfinished =
        rw (loop_none k buf port rest e) at u in
      cc
  unfinished-Goes (suc k) buf port (some b ∷ rest) h e u =
      let u' = rw (loop_byte k buf port b rest h e) at u in
      elim (Bool-cases (not (b == 0) && ltb 0 max_size)) [
        | inl t ↦ one_more (ground arith) (
            unfinished-Goes k (set buf 0 b) (record port { input = rest }) rest
              (omega (arith, length-set buf 0 b)) refl (rw t at u'))
        | inr f ↦
            let q : ◌≡◌ {A = Outcome (ℕ × Bytes)} (ok (1, set buf 0 b)) unfinished = rw f at u' in
            cc
      ]

  -- A limit of 0 ends the loop with its first round.
  unfinished-pos :
      (k : ℕ) (buf : Bytes) (port : Port)
      → 0 < length buf
      → Goes (suc k) port.input
      → (read_loop (suc k) buf 0 max_size port).0 ≡ unfinished
      → 0 < max_size
  unfinished-pos k buf port h goes u =
      let (b, rest, e) = first_byte goes in
      let u' = rw (loop_byte k buf port b rest h e) at u in
      elim (Bool-cases (not (b == 0) && ltb 0 max_size)) [
        | inl t ↦ ground arith
        | inr f ↦
            let q : ◌≡◌ {A = Outcome (ℕ × Bytes)} (ok (1, set buf 0 b)) unfinished = rw f at u' in
            cc
      ]

  Goes-unfinished :
      {rounds : ℕ} (buf : Bytes) (port : Port) {input : List (Option ℕ)}
      → 0 < length buf
      → 0 < max_size
      → port.input ≡ input
      → Goes rounds input
      → (read_loop rounds buf 0 max_size port).0 ≡ unfinished
  unfolding read_loop
  Goes-unfinished buf port h m e no_rounds = refl
  Goes-unfinished buf port h m e (one_more {k} {b} {rest} nz goes) =
      rw (loop_byte k buf port b rest h e, go_on_true b max_size nz m)
        (Goes-unfinished (set buf 0 b) (record port { input = rest })
          (omega (arith, length-set buf 0 b)) m refl goes)

  loop_byte_result :
      (fuel : ℕ) (buf : Bytes) (port : Port) (b : ℕ) (rest : List (Option ℕ)) (r : ℕ) (out : Bytes)
      → 0 < length buf
      → port.input ≡ some b ∷ rest
      → (read_loop (suc fuel) buf 0 max_size port).0 ≡ ok (r, out)
      → ((read_loop fuel (set buf 0 b) 0 max_size (record port { input = rest })).0 ≡ ok (r, out)
          → (r ≤ 1) × (length out ≡ length (set buf 0 b)))
      → (r ≤ 1) × (length out ≡ length buf)
  loop_byte_result fuel buf port b rest r out h e k ih =
      let k' = rw (loop_byte fuel buf port b rest h e) at k in
      elim (Bool-cases (not (b == 0) && ltb 0 max_size)) [
        | inl t ↦ let (one, same) = ih (rw t at k') in (one, same ∙ length-set buf 0 b)
        | inr f ↦
            let q : ◌≡◌ {A = Outcome (ℕ × Bytes)} (ok (1, set buf 0 b)) (ok (r, out)) =
              rw f at k' in
            ground (arith, length-set buf 0 b)
      ]

  -- What the loop returns is the number of bytes of its last read, at most one, and the buffer
  -- keeps its length.
  read_loop_result :
      (fuel : ℕ) (buf : Bytes) (port : Port) (input : List (Option ℕ)) (r : ℕ) (out : Bytes)
      → 0 < length buf
      → port.input ≡ input
      → (read_loop fuel buf 0 max_size port).0 ≡ ok (r, out)
      → (r ≤ 1) × (length out ≡ length buf)
  unfolding read_loop
  read_loop_result zero buf port input r out h e k = cc
  read_loop_result (suc fuel) buf port [] r out h e k =
      let k' : ◌≡◌ {A = Outcome (ℕ × Bytes)} throws (ok (r, out)) =
        rw (loop_end fuel buf port e) at k in
      cc
  read_loop_result (suc fuel) buf port (none ∷ rest) r out h e k =
      let k' : ◌≡◌ {A = Outcome (ℕ × Bytes)} (ok (0, buf)) (ok (r, out)) =
        rw (loop_none fuel buf port rest e) at k in
      ground arith
  read_loop_result (suc fuel) buf port (some b ∷ rest) r out h e k =
      loop_byte_result fuel buf port b rest r out h e k (
        read_loop_result fuel (set buf 0 b) (record port { input = rest }) rest r out
          (omega (arith, length-set buf 0 b)) refl)

-- A string and its terminator are read to the end, each byte over the one before.
read_loop_string :
    (fuel max_size : ℕ) (s : Bytes) (buf : Bytes) (port : Port) (rest : List (Option ℕ))
    → 0 < length buf
    → 0 < max_size
    → All (λ c. c ≢ 0) s
    → port.input ≡ map some s ++ some 0 ∷ rest
    → length s < fuel
    → read_loop fuel buf 0 max_size port ≡ (ok (1, set buf 0 0), record port { input = rest })
read_loop_string zero max_size s buf port rest h m z e l = absurd (omega arith)
read_loop_string (suc fuel) max_size [] buf port rest h m z e l =
    rw (loop_byte max_size fuel buf port 0 rest h e) refl
read_loop_string (suc fuel) max_size (c ∷ s) buf port rest h m (nz, z) e l = rw (
  loop_byte max_size fuel buf port c (map some s ++ some 0 ∷ rest) h e,
  go_on_true c max_size nz m,
  read_loop_string fuel max_size s (set buf 0 c)
      (record port { input = map some s ++ some 0 ∷ rest }) rest (omega (arith, length-set buf 0 c))
      m z refl (omega arith),
  set-set buf c,
)

longer :
    (s : Bytes) (input rest : List (Option ℕ))
    → input ≡ map some s ++ some 0 ∷ rest
    → length s < suc (length input)
longer [] input rest e = omega (arith, ap length e)
longer (c ∷ s) [] rest e = cc
longer (c ∷ s) (x ∷ input) rest e = omega (arith, longer s input rest (ap tail e))

-- The loop of `readCString`, into an array that is not empty, goes on after any number of rounds exactly
-- if the limit is not 0 and each of these rounds has read a byte other than 0: no limit but 0 ends it,
-- and it ends at the first byte 0, at a read that comes back empty, or at an I/O error.
pub read_loop_unfinished_iff :
    (k : ℕ) (buf : Bytes) (max_size : ℕ) (port : Port)
    → 0 < length buf
    → ((read_loop (suc k) buf 0 max_size port).0 ≡ unfinished)
      ↔ ((0 < max_size) × Goes (suc k) port.input)
read_loop_unfinished_iff k buf max_size port h = (
  λ u.
      let goes = unfinished-Goes max_size (suc k) buf port port.input h refl u in
      (unfinished-pos max_size k buf port h goes u, goes),
  λ p. Goes-unfinished max_size buf port h p.0 refl p.1,
)

-- With `n` at 0, the termination writes nothing, and writes before the array if the limit is 0.
terminate_result :
    (buf : Bytes) (max_size : ℕ) (out : Bytes)
    → terminate buf 0 max_size ≡ ok out
    → (0 < max_size) × (out ≡ buf)
unfolding terminate
terminate_result buf max_size out h = ground arith

-- When `readCString` returns, its size limit was not 0, the array has kept its length, and the
-- value that it returns is 0, whatever it has read.
read_c_string-eq-zero :
    (buf : Bytes) (max_size : ℕ) (port : Port) (n : ℕ) (out : Bytes)
    → 0 < length buf
    → (read_c_string buf max_size port).0 ≡ ok (n, out)
    → (0 < max_size) × (n ≡ 0) × (length out ≡ length buf)
unfolding read_c_string
read_c_string-eq-zero buf max_size port n out h k =
    let ((r, filled), looped, k') =
      >>=-eq-ok (read_loop (suc (length port.input)) buf 0 max_size) _ port k in
    let (one, same) =
      read_loop_result max_size (suc (length port.input)) buf port port.input r filled h refl
        looped in
    let (done, ended, k'') = >>=-eq-ok (lift (terminate filled 0 max_size)) _ _ k' in
    let (pos, kept) = terminate_result filled max_size done ended in
    (pos, ground arith, ground arith)

-- For a string of non-zero bytes and its terminator at the front of the input, an array that is not
-- empty and a limit that is not 0, `readCString` takes all of it from the input, returns 0, and leaves
-- only the terminator in the array, at its start.
pub read_c_string_of_string :
    (buf : Bytes) (max_size : ℕ) (port : Port) (s : Bytes) (rest : List (Option ℕ))
    → 0 < length buf
    → 0 < max_size
    → All (λ c. c ≢ 0) s
    → port.input ≡ map some s ++ some 0 ∷ rest
    → read_c_string buf max_size port ≡ (ok (0, set buf 0 0), record port { input = rest })
unfolding read_c_string terminate
read_c_string_of_string buf max_size port s rest h m z e =
    rw
      (read_loop_string (suc (length port.input)) max_size s buf port rest h m z e
        (longer s port.input rest e))
      (ground arith)
