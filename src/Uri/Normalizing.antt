-- ===== src/Uri/Normalizing.antt =====
-- The normalization of web/restinio/restinio/utils/percent_encoding.hpp, and the use that
-- `target_path_holder_t` makes of it.
use prj.Prelude.{
  subst, map, ℕ, ◌≤◌, ◌≡◌, refl, sym, ap, ◌∙◌, ◌≢◌, Bool, true, false, List, [], ◌∷◌, arith, Bytes,
  ◌==◌, if◌then◌else◌, not, Bool-cases, inl, inr, length, All,
}
use prj.Prelude.Outcome.{Outcome, ok, throws, undefined, unfinished}
use prj.Prelude.Throwing.{◌>>=◌, >>=-eq-ok}
use prj.Utf8Checker.{Checker, fresh}
use prj.Uri.{
  decoded_byte, prepend, Chunk, one_byte, three_bytes, is_replaced, normalization_loop, capacity_of,
  bytes_of, estimate_required_capacity, normalize_to, target_path,
}

-- The bytes that these chunks stand for are no more than the path has, and are the path if they are as
-- many.
Shrinks : List Chunk → Bytes → Type 0
Shrinks chunks s =
    (capacity_of chunks ≤ length s) × (capacity_of chunks ≡ length s → bytes_of chunks ≡ s)

module _ (chunks : List Chunk) (s : Bytes) (h : Shrinks chunks s) (c : ℕ) where
  one-Shrinks : Shrinks (one_byte c ∷ chunks) (c ∷ s)
  unfolding Shrinks
  one-Shrinks = (omega (arith, h.0), λ e. ap (◌∷◌ c) (h.1 (omega arith)))

  three-Shrinks : (d1 d2 : ℕ) → Shrinks (three_bytes c d1 d2 ∷ chunks) (c ∷ d1 ∷ d2 ∷ s)
  unfolding Shrinks
  three-Shrinks d1 d2 = (omega (arith, h.0), λ e. ap (λ r. c ∷ d1 ∷ d2 ∷ r) (h.1 (omega arith)))

  replaced-Shrinks : (x d1 d2 : ℕ) → Shrinks (one_byte x ∷ chunks) (c ∷ d1 ∷ d2 ∷ s)
  unfolding Shrinks
  replaced-Shrinks x d1 d2 = let k = h.0 in (omega arith, λ e. absurd (omega arith))

prepend-eq-ok :
    (a : Chunk) (r : Outcome (List Chunk)) (chunks : List Chunk)
    → prepend a r ≡ ok chunks
    → (rest : List Chunk) × (r ≡ ok rest) × (a ∷ rest ≡ chunks)
prepend-eq-ok a (ok rest) chunks e = (rest, refl, cc)
prepend-eq-ok a throws chunks e = cc
prepend-eq-ok a undefined chunks e = cc
prepend-eq-ok a unfinished chunks e = cc

nil-Shrinks : Shrinks [] []
unfolding Shrinks
nil-Shrinks = (omega arith, λ e. refl)

none_left : (chunks : List Chunk) → ◌≡◌ {A = Outcome (List Chunk)} (ok []) (ok chunks) → chunks ≡ []
none_left [] e = refl
none_left (chunk ∷ chunks) e = cc

-- A byte outside an escape sequence.
plain-Shrinks :
    (c : ℕ) (s : Bytes) (expect : Bool) (r : Outcome (List Chunk)) (chunks : List Chunk)
    → ((rest : List Chunk) → r ≡ ok rest → Shrinks rest s)
    → (if expect then throws else prepend (one_byte c) r) ≡ ok chunks
    → Shrinks chunks (c ∷ s)
plain-Shrinks c s true r chunks h e = cc
plain-Shrinks c s false r chunks h e =
    let (rest, one, all) = prepend-eq-ok (one_byte c) r chunks e in
    subst (λ l. Shrinks l (c ∷ s)) all (one-Shrinks rest s (h rest one) c)

-- An escape sequence, replaced or not.
escaped-Shrinks :
    (c d1 d2 x : ℕ) (s : Bytes) (replaced : Bool) (r : Outcome (List Chunk)) (chunks : List Chunk)
    → ((rest : List Chunk) → r ≡ ok rest → Shrinks rest s)
    → prepend (if replaced then one_byte x else three_bytes c d1 d2) r ≡ ok chunks
    → Shrinks chunks (c ∷ d1 ∷ d2 ∷ s)
escaped-Shrinks c d1 d2 x s true r chunks h e =
    let (rest, one, all) = prepend-eq-ok (one_byte x) r chunks e in
    subst (λ l. Shrinks l (c ∷ d1 ∷ d2 ∷ s)) all (replaced-Shrinks rest s (h rest one) c x d1 d2)
escaped-Shrinks c d1 d2 x s false r chunks h e =
    let (rest, one, all) = prepend-eq-ok (three_bytes c d1 d2) r chunks e in
    subst (λ l. Shrinks l (c ∷ d1 ∷ d2 ∷ s)) all (three-Shrinks rest s (h rest one) c d1 d2)

loop-Shrinks :
    (ch : Checker) (expect : Bool) (s : Bytes) (chunks : List Chunk)
    → normalization_loop ch expect s ≡ ok chunks
    → Shrinks chunks s
unfolding normalization_loop
loop-Shrinks ch true [] chunks e = cc
loop-Shrinks ch false [] chunks e = subst (λ l. Shrinks l []) (sym (none_left chunks e)) nil-Shrinks
loop-Shrinks ch expect (c ∷ []) chunks e = elim (Bool-cases (c == b'%')) [
  | inl t ↦ let e' = rw t at e in cc
  | inr f ↦ plain-Shrinks c [] expect _ chunks (loop-Shrinks ch expect []) (rw f at e)
]
loop-Shrinks ch expect (c ∷ d1 ∷ []) chunks e = elim (Bool-cases (c == b'%')) [
  | inl t ↦ let e' = rw t at e in cc
  | inr f ↦ plain-Shrinks c (d1 ∷ []) expect _ chunks (loop-Shrinks ch expect (d1 ∷ [])) (rw f at e)
]
loop-Shrinks ch expect (c ∷ d1 ∷ d2 ∷ s) chunks e = elim (Bool-cases (c == b'%')) [
  | inl t ↦
      let (r, byte, more) = >>=-eq-ok (decoded_byte ch d1 d2) _ (rw t at e) in
      escaped-Shrinks c d1 d2 r.2 s (is_replaced r.1 r.2) _ chunks (loop-Shrinks r.0 r.1 s) more
  | inr f ↦
      plain-Shrinks c (d1 ∷ d2 ∷ s) expect _ chunks (loop-Shrinks ch expect (d1 ∷ d2 ∷ s))
        (rw f at e)
]

length-bytes_of : (chunks : List Chunk) → length (bytes_of chunks) ≡ capacity_of chunks
length-bytes_of [] = refl
length-bytes_of (one_byte c ∷ chunks) = omega (arith, length-bytes_of chunks)
length-bytes_of (three_bytes c1 c2 c3 ∷ chunks) = omega (arith, length-bytes_of chunks)

module _ (path : Bytes) where
  -- A path that is normalized has the length that was estimated, and is not longer than the original.
  pub length-normalize_to :
      (out : Bytes)
      → normalize_to path ≡ ok out
      → (estimate_required_capacity path ≡ ok (length out)) × (length out ≤ length path)
  unfolding normalize_to estimate_required_capacity Shrinks
  length-normalize_to out e =
      let (chunks, loop, same) = >>=-eq-ok (normalization_loop fresh false path) _ e in
      let bytes : bytes_of chunks ≡ out = cc in
      let (fits, same_path) : Shrinks chunks path = loop-Shrinks fresh false path chunks loop in
      let size : capacity_of chunks ≡ length out = sym (length-bytes_of chunks) ∙ ap length bytes in
      (rw (loop, size) refl, subst (λ n. n ≤ length path) size fits)

  copy_or_normalize :
      (r : Outcome (List Chunk))
      → ((chunks : List Chunk) → r ≡ ok chunks → Shrinks chunks path)
      → ((r >>= λ chunks. ok (capacity_of chunks)) >>= λ size.
          if not (size == length path) then (r >>= λ chunks. ok (bytes_of chunks)) else ok path)
        ≡ (r >>= λ chunks. ok (bytes_of chunks))
  unfolding Shrinks
  copy_or_normalize (ok chunks) h = elim (Bool-cases (capacity_of chunks == length path)) [
    | inl t ↦ rw t (ap ok (sym ((h chunks refl).1 (ground arith))))
    | inr f ↦ rw f refl
  ]
  copy_or_normalize throws h = refl
  copy_or_normalize undefined h = refl
  copy_or_normalize unfinished h = refl

  -- The path that the router matches is the normalized one also where the constructor copies the
  -- original, because the estimated size is that of the original.
  pub target_path-normalize_to : target_path path ≡ normalize_to path
  unfolding target_path normalize_to estimate_required_capacity
  target_path-normalize_to =
      copy_or_normalize (normalization_loop fresh false path) (loop-Shrinks fresh false path)

-- A path of which no byte is a percent sign.
abbrev pub HasNoPercent : Bytes → Type 0
HasNoPercent path = All (λ c. c ≢ b'%') path

unescaped : (c : ℕ) → c ≢ b'%' → (c == b'%') ≡ false
unescaped c h = ground arith

loop_plain :
    (ch : Checker) (s : Bytes)
    → HasNoPercent s
    → normalization_loop ch false s ≡ ok (map one_byte s)
unfolding normalization_loop
loop_plain ch [] h = refl
loop_plain ch (c ∷ []) h = rw (unescaped c h.0) refl
loop_plain ch (c ∷ d1 ∷ []) h = rw (unescaped c h.0, loop_plain ch (d1 ∷ []) h.1) refl
loop_plain ch (c ∷ d1 ∷ d2 ∷ s) h = rw (unescaped c h.0, loop_plain ch (d1 ∷ d2 ∷ s) h.1) refl

bytes_of-map : (s : Bytes) → bytes_of (map one_byte s) ≡ s
bytes_of-map [] = refl
bytes_of-map (c ∷ s) = ap (◌∷◌ c) (bytes_of-map s)

-- A path without a percent sign is matched as it is.
pub target_path_plain : (path : Bytes) → HasNoPercent path → target_path path ≡ ok path
unfolding normalize_to
target_path_plain path h =
    target_path-normalize_to path
    ∙ rw (normalize_to, loop_plain fresh path h, bytes_of-map path) refl
