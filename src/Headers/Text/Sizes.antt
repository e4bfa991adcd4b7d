-- ===== src/Headers/Text/Sizes.antt =====
-- Numbers in the text of a header, and the size that `calculate_approx_buffer_size_for_header` of
-- web/restinio/restinio/impl/header_helpers.hpp reserves for it.
use prj.Prelude.{
  ℕ, zero, suc, ◌+◌, ◌*◌, ◌-◌, ◌/◌, ◌%◌, ◌<◌, ◌≤◌, ◌≡◌, refl, inl, inr, [], ◌∷◌, ◌++◌, arith, Bytes,
  codes, ltb, length, length-append, Bool-cases,
}
use prj.Headers.Fields.{Fields}
use prj.Headers.Message.{ConnectionHeader, keep_alive, close, upgrade, ResponseHeader}
use prj.Headers.Text.{
  digits, print_unsigned, cr_lf, connection_line, code_digits, status_text, length_line, field_line,
  field_lines, ContentLengthPresence, add_content_length, skip_content_length, length_part,
  create_header_string, fields_size, calculate_approx_buffer_size_for_header,
}

-- A number read from its decimal digits.
read_decimal : ℕ → Bytes → ℕ
read_decimal acc [] = acc
read_decimal acc (c ∷ text) = read_decimal (acc * 10 + (c - 48)) text

abbrev pub power_of_ten : ℕ → ℕ
power_of_ten zero = 1
power_of_ten (suc k) = 10 * power_of_ten k

read_decimal-append :
    (acc : ℕ) (text : Bytes) (c : ℕ)
    → read_decimal acc (text ++ c ∷ []) ≡ read_decimal acc text * 10 + (c - 48)
unfolding read_decimal
read_decimal-append acc [] c = refl
read_decimal-append acc (d ∷ text) c = read_decimal-append (acc * 10 + (d - 48)) text c

read_decimal-digits : (fuel n : ℕ) → n < power_of_ten fuel → read_decimal 0 (digits fuel n) ≡ n
unfolding digits read_decimal
read_decimal-digits zero n h = omega arith
read_decimal-digits (suc fuel) n h = elim (Bool-cases (ltb n 10)) [
  | inl e ↦ rw e (omega arith)
  | inr e ↦ rw e (
      rw (read_decimal-append 0 (digits fuel (n / 10)) (48 + n % 10))
        (rw (read_decimal-digits fuel (n / 10) (omega arith)) (omega arith)))
]

-- A number of 64 bits is read back from what is printed for it.
read_decimal-print_unsigned :
    (n : ℕ) → n < 18446744073709551616 → read_decimal 0 (print_unsigned n) ≡ n
unfolding print_unsigned
read_decimal-print_unsigned n h = read_decimal-digits 20 n (omega arith)

length-digits : (fuel n : ℕ) → length (digits fuel n) ≤ fuel
unfolding digits
length-digits zero n = omega arith
length-digits (suc fuel) n = elim (Bool-cases (ltb n 10)) [
  | inl e ↦ rw e (omega arith)
  | inr e ↦ rw e (
      omega (
        arith,
        length-digits fuel (n / 10),
        length-append (digits fuel (n / 10)) ((48 + n % 10) ∷ []),
      ))
]

length-connection_line : (c : ConnectionHeader) → length (connection_line c) ≤ 22
unfolding connection_line
length-connection_line keep_alive = omega arith
length-connection_line close = omega arith
length-connection_line upgrade = omega arith

length-field_lines : (fields : Fields) → length (field_lines fields) ≡ fields_size fields
unfolding field_lines field_line fields_size
length-field_lines [] = omega arith
length-field_lines (f ∷ fields) = omega (
  arith,
  length-field_lines fields,
  length-append (f.name ++ (codes ": " ++ f.value)) (cr_lf ++ field_lines fields),
  length-append f.name (codes ": " ++ f.value),
)

length-length_part :
    (presence : ContentLengthPresence) (n : ℕ) → length (length_part presence n) ≤ 38
unfolding length_part length_line print_unsigned
length-length_part add_content_length n = omega (
  arith,
  length-digits 20 n,
  length-append (codes "Content-Length: " ++ digits 20 n) cr_lf,
  length-append (codes "Content-Length: ") (digits 20 n),
)
length-length_part skip_content_length n = omega arith

length-status_text :
    (h : ResponseHeader) → length (status_text h) ≡ 13 + length h.status_line.reason_phrase
unfolding status_text code_digits
length-status_text h = omega arith

-- The text of a header fits into the buffer that is reserved for it, whatever its fields.
pub length-create_header_string :
    (h : ResponseHeader) (presence : ContentLengthPresence)
    → length (create_header_string h presence) ≤ calculate_approx_buffer_size_for_header h
unfolding create_header_string calculate_approx_buffer_size_for_header
length-create_header_string h presence =
    let line = connection_line h.connection in
    let part = length_part presence h.content_length in
    let text = field_lines h.fields in
    omega (
      arith,
      length-status_text h,
      length-connection_line h.connection,
      length-length_part presence h.content_length,
      length-field_lines h.fields,
      length-append (status_text h) (cr_lf ++ (line ++ (cr_lf ++ (part ++ (text ++ cr_lf))))),
      length-append line (cr_lf ++ (part ++ (text ++ cr_lf))),
      length-append part (text ++ cr_lf),
      length-append text cr_lf,
    )
