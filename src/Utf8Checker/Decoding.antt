-- ===== src/Utf8Checker/Decoding.antt =====
-- `utf8_checker_t` of web/restinio/restinio/utils/utf8_checker.hpp on the encoding of a code point.
use native.Mathlib.Decide.{dec_lt}
use prj.Prelude.{
  ℕ, suc, ◌+◌, ◌*◌, ◌/◌, ◌%◌, ◌≤◌, ◌<◌, ◌≡◌, refl, ◌⊎◌, inl, inr, Bool, true, false, List, [], ◌∷◌,
  arith, ltb, ◌==◌, Bool-cases, if◌then◌else◌,
}
use prj.Utf8Checker.{Checker, State, valid, may_be_overlong, fresh, process_byte}

-- RFC 3629.
abbrev pub encode : ℕ → List ℕ
encode cp =
    if ltb cp 0x80
    then cp ∷ []
    else if ltb cp 0x800
    then (0xC0 + cp / 64) ∷ (0x80 + cp % 64) ∷ []
    else if ltb cp 0x10000
    then (0xE0 + cp / 4096) ∷ (0x80 + cp / 64 % 64) ∷ (0x80 + cp % 64) ∷ []
    else (0xF0 + cp / 262144)
      ∷ (0x80 + cp / 4096 % 64)
      ∷ (0x80 + cp / 64 % 64)
      ∷ (0x80 + cp % 64)
      ∷ []

-- A run of bytes through the checker, as long as they are accepted.
abbrev pub run : Checker → List ℕ → Checker × Bool
run ch [] = (ch, true)
run ch (b ∷ bs) =
    let (next, good) = process_byte ch b in
    let rest = run next bs in if good then rest else (next, false)

-- A code point that may be encoded.
abbrev pub IsScalar : ℕ → Type 0
IsScalar cp = (cp < 0xD800) ⊎ ((0xDFFF < cp) × (cp < 0x110000))

abbrev pub at : ℕ → ℕ → State → Checker
at symbol rest state = record { current_symbol = symbol; rest_bytes = rest; state = state }

module _ (x : ℕ) where
  start_one : x < 0x80 → process_byte fresh x ≡ (at x 0 valid, true)
  unfolding process_byte
  start_one h = ground arith

  start_two : 2 ≤ x → x < 32 → process_byte fresh (0xC0 + x) ≡ (at x 1 valid, true)
  unfolding process_byte
  start_two h k = ground arith

  start_three :
      x < 16
      → process_byte fresh (0xE0 + x) ≡ (at x 2 (if x == 0 then may_be_overlong else valid), true)
  unfolding process_byte
  start_three k = ground arith

  start_four :
      x < 8
      → process_byte fresh (0xF0 + x) ≡ (at x 3 (if x == 0 then may_be_overlong else valid), true)
  unfolding process_byte
  start_four k = ground arith

module _ (symbol x : ℕ) (h : symbol < 0x8000) (k : x < 64) where
  -- A middle byte, when nothing is in doubt.
  middle :
      (r : ℕ)
      → process_byte (at symbol (suc (suc r)) valid) (0x80 + x)
        ≡ (at (symbol * 64 + x) (suc r) valid, true)
  unfolding process_byte
  middle r = ground arith

  last :
      IsScalar (symbol * 64 + x)
      → process_byte (at symbol 1 valid) (0x80 + x) ≡ (at (symbol * 64 + x) 0 valid, true)
  unfolding process_byte
  last s = ground arith

  -- The second byte after one that a too long encoding could start with.
  middle_three :
      32 ≤ x
      → process_byte (at symbol 2 may_be_overlong) (0x80 + x) ≡ (at (symbol * 64 + x) 1 valid, true)
  unfolding process_byte
  middle_three l = ground arith

  middle_four :
      16 ≤ x
      → process_byte (at symbol 3 may_be_overlong) (0x80 + x) ≡ (at (symbol * 64 + x) 2 valid, true)
  unfolding process_byte
  middle_four l = ground arith

encode_one : (cp : ℕ) → cp < 0x80 → run fresh (encode cp) ≡ (at cp 0 valid, true)
encode_one cp h = let t : ltb cp 0x80 ≡ true = ground arith in rw (t, start_one cp h) refl

encode_two : (cp : ℕ) → 0x80 ≤ cp → cp < 0x800 → run fresh (encode cp) ≡ (at cp 0 valid, true)
encode_two cp l h =
    let f : ltb cp 0x80 ≡ false = ground arith in
    let t : ltb cp 0x800 ≡ true = ground arith in
    let whole : cp / 64 * 64 + cp % 64 ≡ cp = omega arith in
    let scalar : IsScalar (cp / 64 * 64 + cp % 64) = inl (omega arith) in
    rw
      (
        f,
        t,
        start_two (cp / 64) (omega arith) (omega arith),
        last (cp / 64) (cp % 64) (omega arith) (omega arith) scalar,
        whole,
      )
      refl

encode_three :
    (cp : ℕ)
    → 0x800 ≤ cp
    → cp < 0x10000
    → IsScalar cp
    → run fresh (encode cp) ≡ (at cp 0 valid, true)
encode_three cp l h sc =
    let f : ltb cp 0x80 ≡ false = ground arith in
    let f' : ltb cp 0x800 ≡ false = ground arith in
    let t : ltb cp 0x10000 ≡ true = ground arith in
    let first = start_three (cp / 4096) (omega arith) in
    let half : cp / 4096 * 64 + cp / 64 % 64 ≡ cp / 64 = omega arith in
    let whole : cp / 64 * 64 + cp % 64 ≡ cp = omega arith in
    let end = last (cp / 64) (cp % 64) (omega arith) (omega arith) (rw whole sc) in
    elim (Bool-cases (cp / 4096 == 0)) [
      | inl z ↦
          rw
            (
              f,
              f',
              t,
              first,
              z,
              middle_three (cp / 4096) (cp / 64 % 64) (omega arith) (omega arith) (ground arith),
              half,
              end,
              whole,
            )
            refl
      | inr n ↦
          rw
            (
              f,
              f',
              t,
              first,
              n,
              middle (cp / 4096) (cp / 64 % 64) (omega arith) (omega arith) 0,
              half,
              end,
              whole,
            )
            refl
    ]

encode_four :
    (cp : ℕ) → 0x10000 ≤ cp → cp < 0x110000 → run fresh (encode cp) ≡ (at cp 0 valid, true)
encode_four cp l h =
    let f : ltb cp 0x80 ≡ false = ground arith in
    let f' : ltb cp 0x800 ≡ false = ground arith in
    let f'' : ltb cp 0x10000 ≡ false = ground arith in
    let first = start_four (cp / 262144) (omega arith) in
    let third : cp / 262144 * 64 + cp / 4096 % 64 ≡ cp / 4096 = omega arith in
    let half : cp / 4096 * 64 + cp / 64 % 64 ≡ cp / 64 = omega arith in
    let whole : cp / 64 * 64 + cp % 64 ≡ cp = omega arith in
    let next = middle (cp / 4096) (cp / 64 % 64) (omega arith) (omega arith) 0 in
    let sc : IsScalar cp = inr (omega arith, h) in
    let end = last (cp / 64) (cp % 64) (omega arith) (omega arith) (rw whole sc) in
    elim (Bool-cases (cp / 262144 == 0)) [
      | inl z ↦
          rw
            (
              f,
              f',
              f'',
              first,
              z,
              middle_four (cp / 262144) (cp / 4096 % 64) (omega arith) (omega arith) (ground arith),
              third,
              next,
              half,
              end,
              whole,
            )
            refl
      | inr n ↦
          rw
            (
              f,
              f',
              f'',
              first,
              n,
              middle (cp / 262144) (cp / 4096 % 64) (omega arith) (omega arith) 1,
              third,
              next,
              half,
              end,
              whole,
            )
            refl
    ]

-- Every byte of the UTF-8 encoding of a code point that is no surrogate is accepted, and at the end
-- the checker holds the code point, is finalized and stands as a new one would.
pub run-encode : (cp : ℕ) → IsScalar cp → run fresh (encode cp) ≡ (at cp 0 valid, true)
run-encode cp sc = elim (dec_lt cp 0x80) [
  | yes one ↦ encode_one cp one
  | no a ↦ elim (dec_lt cp 0x800) [
    | yes two ↦ encode_two cp (omega arith) two
    | no b ↦ elim (dec_lt cp 0x10000) [
      | yes three ↦ encode_three cp (omega arith) three sc
      | no c ↦ encode_four cp (omega arith) (omega arith)
    ]
  ]
]
