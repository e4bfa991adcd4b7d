-- ===== src/Uri/Unescaping.antt =====
-- `escape_percent_encoding` and `unescape_percent_encoding` of
-- web/restinio/restinio/utils/percent_encoding.hpp, one after the other.
use prj.Prelude.{
  ℕ, ◌/◌, ◌%◌, ◌<◌, ◌≡◌, refl, true, false, [], ◌∷◌, arith, Bytes, ◌==◌, Bool-cases, inl, inr, All,
}
use prj.Prelude.Outcome.{ok}
use prj.Utf8Checker.{valid, fresh, process_byte}
use prj.Uri.{
  ordinary_char, is_hexdigit, hex_value, extract_escaped_char, hex_digit, decoded_byte, collected,
  prepend, unescape_loop, unescape_percent_encoding, escape_percent_encoding,
}

digit-is_hexdigit : (n : ℕ) → n < 16 → is_hexdigit (hex_digit n) ≡ true
unfolding is_hexdigit
digit-is_hexdigit n h = ground arith

hex_value-digit : (n : ℕ) → n < 16 → hex_value (hex_digit n) ≡ n
unfolding hex_value
hex_value-digit n h = ground arith

extract-digits :
    (c : ℕ) → c < 256 → extract_escaped_char (hex_digit (c / 16)) (hex_digit (c % 16)) ≡ c
unfolding extract_escaped_char
extract-digits c h =
    rw (hex_value-digit (c / 16) (omega arith), hex_value-digit (c % 16) (omega arith))
      (omega arith)

one_byte_symbol :
    (c : ℕ)
    → c < 0x80
    → process_byte fresh c ≡ (record { current_symbol = c; rest_bytes = 0; state = valid }, true)
unfolding process_byte
one_byte_symbol c h = ground arith

decoded-digits :
    (c : ℕ)
    → c < 0x80
    → decoded_byte fresh (hex_digit (c / 16)) (hex_digit (c % 16)) ≡ ok (fresh, false, c)
unfolding decoded_byte
decoded-digits c h =
    rw
      (
        decoded_byte,
        extract-digits c (omega arith),
        one_byte_symbol c h,
        digit-is_hexdigit (c / 16) (omega arith),
        digit-is_hexdigit (c % 16) (omega arith),
      )
      refl

ordinary_not_special :
    (c : ℕ) → ordinary_char c ≡ true → ((c == b'%') ≡ false) × ((c == b'+') ≡ false)
unfolding ordinary_char
ordinary_not_special c h = ground arith

collected-ordinary : (c : ℕ) → ordinary_char c ≡ true → collected c ≡ ok c
unfolding collected
collected-ordinary c h = rw ((ordinary_not_special c h).1, h) refl

loop-ordinary :
    (c : ℕ) (s : Bytes)
    → ordinary_char c ≡ true
    → unescape_loop fresh false (c ∷ s) ≡ prepend c (unescape_loop fresh false s)
unfolding unescape_loop
loop-ordinary c [] h = rw ((ordinary_not_special c h).0, collected-ordinary c h) refl
loop-ordinary c (d1 ∷ []) h = rw ((ordinary_not_special c h).0, collected-ordinary c h) refl
loop-ordinary c (d1 ∷ d2 ∷ s) h = rw ((ordinary_not_special c h).0, collected-ordinary c h) refl

loop-escaped :
    (c : ℕ) (s : Bytes)
    → c < 0x80
    → unescape_loop fresh false (b'%' ∷ hex_digit (c / 16) ∷ hex_digit (c % 16) ∷ s)
      ≡ prepend c (unescape_loop fresh false s)
unfolding unescape_loop
loop-escaped c s h = rw (decoded-digits c h, extract-digits c (omega arith)) refl

-- Unescaping gives back any ASCII text that has been escaped.
pub unescape-escape_percent_encoding :
    (s : Bytes)
    → All (λ c. c < 0x80) s
    → unescape_percent_encoding (escape_percent_encoding s) ≡ ok s
unfolding unescape_percent_encoding escape_percent_encoding
unescape-escape_percent_encoding [] h = refl
unescape-escape_percent_encoding (c ∷ s) h = elim (Bool-cases (ordinary_char c)) [
  | inl t ↦
      rw (t, loop-ordinary c (escape_percent_encoding s) t, unescape-escape_percent_encoding s h.1)
        refl
  | inr f ↦
      rw (f, loop-escaped c (escape_percent_encoding s) h.0, unescape-escape_percent_encoding s h.1)
        refl
]
