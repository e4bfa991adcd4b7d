-- ===== src/Response/Chunked/Decoding/Printing.antt =====
-- A function that prints sizes in hexadecimal, as `fmt::format` does for the builder of chunked output in
-- web/restinio/restinio/message_builders.hpp.
use prj.Prelude.{
  ℕ, zero, suc, ◌+◌, ◌/◌, ◌%◌, ◌<◌, ◌≡◌, ◌≢◌, refl, ap, ◌∙◌, inl, inr, Option, none, some, [], ◌∷◌,
  ◌++◌, arith, Bytes, ltb, ltb→lt, ltb→le, All-append, Bool-cases, if◌then◌else◌,
}
use prj.Headers.Text.Reading.{OneLine}
use prj.Response.Chunked.Decoding.{PrintsHex, hex_value, shifted, hex_from, read_hex}

upper_digit : ℕ → ℕ
upper_digit d = if ltb d 10 then 48 + d else 55 + d

hex_digits : ℕ → ℕ → Bytes
unfolding upper_digit
hex_digits zero n = []
hex_digits (suc fuel) n =
    if ltb n 16 then upper_digit n ∷ [] else hex_digits fuel (n / 16) ++ upper_digit (n % 16) ∷ []

-- As many digits as the number needs.
pub upper_hex : ℕ → Bytes
unfolding hex_digits
upper_hex n = hex_digits (suc n) n

hex_value-upper_digit : (d : ℕ) → d < 16 → hex_value (upper_digit d) ≡ some d
unfolding hex_value upper_digit
hex_value-upper_digit d h = ground arith

hex_from_nil : (o : Option ℕ) → hex_from o [] ≡ o
unfolding hex_from
hex_from_nil none = refl
hex_from_nil (some acc) = refl

hex_from-append :
    (o : Option ℕ) (text : Bytes) (c k : ℕ)
    → hex_from o text ≡ some k
    → hex_from o (text ++ c ∷ []) ≡ shifted k (hex_value c)
unfolding hex_from shifted
hex_from-append none [] c k e = cc
hex_from-append none (d ∷ text) c k e = cc
hex_from-append (some acc) [] c k e =
    let same : acc ≡ k = cc in
    hex_from_nil (shifted acc (hex_value c)) ∙ ap (λ j. shifted j (hex_value c)) same
hex_from-append (some acc) (d ∷ text) c k e = hex_from-append (shifted acc (hex_value d)) text c k e

read_hex-append :
    (text : Bytes) (c k : ℕ)
    → read_hex text ≡ some k
    → read_hex (text ++ c ∷ []) ≡ shifted k (hex_value c)
unfolding read_hex
read_hex-append [] c k e = cc
read_hex-append (d ∷ text) c k e = hex_from-append (hex_value d) text c k e

read_hex-hex_digits : (fuel n : ℕ) → n < fuel → read_hex (hex_digits fuel n) ≡ some n
unfolding hex_digits read_hex hex_from shifted
read_hex-hex_digits zero n h = absurd (omega arith)
read_hex-hex_digits (suc fuel) n h = elim (Bool-cases (ltb n 16)) [
  | inl e ↦ rw e (rw (hex_value-upper_digit n (ltb→lt n 16 e)) refl)
  | inr e ↦
      let last : shifted (n / 16) (hex_value (upper_digit (n % 16))) ≡ some n =
        rw (hex_value-upper_digit (n % 16) (omega arith)) (ap some (omega arith)) in
      rw e (
        read_hex-append (hex_digits fuel (n / 16)) (upper_digit (n % 16)) (n / 16)
          (read_hex-hex_digits fuel (n / 16) (omega (arith, ltb→le n 16 e)))
        ∙ last)
]

upper_digit_ne_return : (d : ℕ) → upper_digit d ≢ 13
unfolding upper_digit
upper_digit_ne_return d = ground arith

hex_digits-OneLine : (fuel n : ℕ) → OneLine (hex_digits fuel n)
unfolding hex_digits
hex_digits-OneLine zero n = tt
hex_digits-OneLine (suc fuel) n = elim (Bool-cases (ltb n 16)) [
  | inl e ↦ rw e (upper_digit_ne_return n, tt)
  | inr e ↦ rw e (
      All-append (λ c. c ≢ 13) (hex_digits fuel (n / 16)) (upper_digit (n % 16) ∷ [])
        (hex_digits-OneLine fuel (n / 16)) (upper_digit_ne_return (n % 16), tt))
]

pub upper_hex-PrintsHex : PrintsHex upper_hex
unfolding upper_hex
upper_hex-PrintsHex = record {
  reads = λ n. read_hex-hex_digits (suc n) n (omega arith);
  one_line = λ n. hex_digits-OneLine (suc n) n;
}
