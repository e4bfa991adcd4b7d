-- ===== src/Headers/Text/Reading.antt =====
-- The text of a header, of web/restinio/restinio/impl/header_helpers.hpp, as a client reads it.
use prj.Prelude.{
  ℕ, zero, suc, ◌+◌, ◌<◌, ◌/◌, ◌%◌, ◌≡◌, refl, ap, ◌∙◌, ◌≢◌, inl, inr, false, Option, none, some,
  List, [], ◌∷◌, ◌++◌, append_assoc, map, arith, Bytes, codes, ltb, ◌==◌, if◌then◌else◌, length,
  All, All-append, Bool-cases,
}
use prj.Headers.Fields.{HeaderField, Fields}
use prj.Headers.Message.{ConnectionHeader, keep_alive, close, upgrade, ResponseHeader}
use prj.Headers.Text.{
  digits, print_unsigned, cr_lf, connection_line, code_digits, status_text, length_line, field_line,
  field_lines, ContentLengthPresence, add_content_length, skip_content_length, length_part,
  create_header_string,
}

with_byte : ℕ → Option (Bytes × Bytes) → Option (Bytes × Bytes)
with_byte c none = none
with_byte c (some (line, rest)) = some (c ∷ line, rest)

-- A line is what stands before the next carriage return and line feed.
unfoldable pub read_line : Bytes → Option (Bytes × Bytes)
unfolding with_byte
read_line [] = none
read_line (c ∷ []) = none
read_line (c ∷ d ∷ text) =
    if c == 13
    then (if d == 10 then some ([], text) else none)
    else with_byte c (read_line (d ∷ text))

with_line : Bytes → Option (List Bytes × Bytes) → Option (List Bytes × Bytes)
with_line line none = none
with_line line (some (lines, body)) = some (line ∷ lines, body)

next_line :
    (Bytes → Option (List Bytes × Bytes)) → Option (Bytes × Bytes) → Option (List Bytes × Bytes)
unfolding with_line
next_line read none = none
next_line read (some ([], rest)) = some ([], rest)
next_line read (some (c ∷ line, rest)) = with_line (c ∷ line) (read rest)

-- The lines up to the first empty one, and what stands behind it: the body.
unfoldable pub read_lines : ℕ → Bytes → Option (List Bytes × Bytes)
unfolding next_line
read_lines zero text = none
read_lines (suc fuel) text = next_line (read_lines fuel) (read_line text)

-- A text with no carriage return.
abbrev pub OneLine : Bytes → Type 0
OneLine = All (λ c. c ≢ 13)

not_return : (c : ℕ) → c ≢ 13 → (c == 13) ≡ false
not_return c h = ground arith

pub read_line_joined :
    (line rest : Bytes) → OneLine line → read_line (line ++ (cr_lf ++ rest)) ≡ some (line, rest)
unfolding read_line
read_line_joined [] rest h = refl
read_line_joined (c ∷ []) rest h = rw (not_return c h.0) refl
read_line_joined (c ∷ d ∷ line) rest h =
    rw (not_return c h.0) (ap (with_byte c) (read_line_joined (d ∷ line) rest h.1))

abbrev IsFilled : Bytes → Type 0
IsFilled [] = ⊥
IsFilled (c ∷ line) = Unit

-- A line and what follows it.
read_lines-cons :
    (fuel : ℕ) (line rest : Bytes) {lines : List Bytes} {body : Bytes}
    → OneLine line
    → IsFilled line
    → read_lines fuel rest ≡ some (lines, body)
    → read_lines (suc fuel) (line ++ (cr_lf ++ rest)) ≡ some (line ∷ lines, body)
unfolding read_lines
read_lines-cons fuel [] rest h filled e = absurd filled
read_lines-cons fuel (c ∷ line) rest h filled e =
    ap (next_line (read_lines fuel)) (read_line_joined (c ∷ line) rest h)
    ∙ ap (with_line (c ∷ line)) e

-- The end of a header, the body behind it.
read_lines_end : (fuel : ℕ) (body : Bytes) → read_lines (suc fuel) (cr_lf ++ body) ≡ some ([], body)
unfolding read_lines read_line
read_lines_end fuel body = refl

-- Names and values with no carriage return.
abbrev pub CleanFields : Fields → Type 0
CleanFields = All (λ f. OneLine f.name × OneLine f.value)

colon-OneLine : OneLine (codes ": ")
colon-OneLine = omega arith

field_line-OneLine : (f : HeaderField) → OneLine f.name → OneLine f.value → OneLine (field_line f)
unfolding field_line
field_line-OneLine f n v =
    All-append _ f.name _ n (All-append _ (codes ": ") f.value colon-OneLine v)

append-IsFilled : (xs : Bytes) (c : ℕ) (ys : Bytes) → IsFilled (xs ++ c ∷ ys)
append-IsFilled [] c ys = tt
append-IsFilled (x ∷ xs) c ys = tt

field_line-IsFilled : (f : HeaderField) → IsFilled (field_line f)
unfolding field_line
field_line-IsFilled f = append-IsFilled f.name _ _

read_fields :
    (fuel : ℕ) (fields : Fields) (body : Bytes)
    → CleanFields fields
    → length fields < fuel
    → read_lines fuel (field_lines fields ++ (cr_lf ++ body)) ≡ some (map field_line fields, body)
unfolding field_lines
read_fields zero fields body h less = absurd (omega arith)
read_fields (suc fuel) [] body h less = read_lines_end fuel body
read_fields (suc fuel) (f ∷ fields) body h less =
    ap (read_lines (suc fuel)) (regroup (field_line f) (field_lines fields) body)
    ∙ read_lines-cons fuel (field_line f) (field_lines fields ++ (cr_lf ++ body))
        (field_line-OneLine f h.0.0 h.0.1) (field_line-IsFilled f)
        (read_fields fuel fields body h.1 (omega arith))
  where
    regroup :
        (line text body : Bytes)
        → (line ++ (cr_lf ++ text)) ++ (cr_lf ++ body)
          ≡ line ++ (cr_lf ++ (text ++ (cr_lf ++ body)))
    regroup line text body = append_assoc line (cr_lf ++ text) (cr_lf ++ body)

digits-OneLine : (fuel n : ℕ) → OneLine (digits fuel n)
unfolding digits
digits-OneLine zero n = tt
digits-OneLine (suc fuel) n = elim (Bool-cases (ltb n 10)) [
  | inl e ↦ rw e (λ h. absurd (omega arith), tt)
  | inr e ↦ rw e (
      All-append _ (digits fuel (n / 10)) ((48 + n % 10) ∷ []) (digits-OneLine fuel (n / 10))
        (λ h. absurd (omega arith), tt))
]

length_line-OneLine : (n : ℕ) → OneLine (length_line n)
unfolding length_line print_unsigned
length_line-OneLine n =
    All-append _ (codes "Content-Length: ") (digits 20 n) (omega arith) (digits-OneLine 20 n)

connection_line-OneLine : (c : ConnectionHeader) → OneLine (connection_line c)
unfolding connection_line
connection_line-OneLine keep_alive = omega arith
connection_line-OneLine close = omega arith
connection_line-OneLine upgrade = omega arith

connection_line-IsFilled : (c : ConnectionHeader) → IsFilled (connection_line c)
unfolding connection_line
connection_line-IsFilled keep_alive = tt
connection_line-IsFilled close = tt
connection_line-IsFilled upgrade = tt

-- A header whose texts stay on their lines.
pub record IsClean (h : ResponseHeader) : Type 0 where
  pub reason : OneLine h.status_line.reason_phrase
  pub fields : CleanFields h.fields
  pub major : h.http_major < 10
  pub minor : h.http_minor < 10

digit_ne_return : (n : ℕ) → 48 + n % 10 ≢ 13
digit_ne_return n e = omega arith

version_ne_return : (n : ℕ) → n < 10 → (48 + n) % 256 ≢ 13
version_ne_return n h e = omega arith

code_digits-OneLine : (sc : ℕ) → OneLine (code_digits sc)
unfolding code_digits
code_digits-OneLine sc =
    (digit_ne_return (sc / 100), (digit_ne_return (sc / 10), (digit_ne_return sc, tt)))

protocol-OneLine : OneLine (codes "HTTP/")
protocol-OneLine = omega arith

status_text-OneLine : (h : ResponseHeader) → IsClean h → OneLine (status_text h)
unfolding status_text
status_text-OneLine h clean =
    let dot_ne : b'.' ≢ 13 = omega arith in
    let space_ne : b' ' ≢ 13 = omega arith in
    let code = h.status_line.status_code in
    let reason = h.status_line.reason_phrase in
    let behind : OneLine (code_digits code ++ b' ' ∷ reason) =
      All-append _ (code_digits code) (b' ' ∷ reason) (code_digits-OneLine code)
        (space_ne, clean.reason) in
    All-append _ (codes "HTTP/")
      (((48 + h.http_major) % 256)
        ∷ b'.'
        ∷ ((48 + h.http_minor) % 256)
        ∷ b' '
        ∷ (code_digits code ++ b' ' ∷ reason))
      protocol-OneLine
      (
        version_ne_return h.http_major clean.major,
        (dot_ne, (version_ne_return h.http_minor clean.minor, (space_ne, behind))),
      )

status_text-IsFilled : (h : ResponseHeader) → IsFilled (status_text h)
unfolding status_text
status_text-IsFilled h = tt

-- The lines of a header.
abbrev pub length_lines : ContentLengthPresence → ℕ → List Bytes
length_lines add_content_length n = length_line n ∷ []
length_lines skip_content_length n = []

abbrev pub header_lines : ResponseHeader → ContentLengthPresence → List Bytes
header_lines h presence =
    status_text h
    ∷ connection_line h.connection
    ∷ (length_lines presence h.content_length ++ map field_line h.fields)

read_length :
    (presence : ContentLengthPresence) (fuel n : ℕ) (fields : Fields) (body : Bytes)
    → CleanFields fields
    → suc (length fields) < fuel
    → read_lines fuel (length_part presence n ++ (field_lines fields ++ (cr_lf ++ body)))
      ≡ some (length_lines presence n ++ map field_line fields, body)
unfolding length_part
read_length presence zero n fields body h less = absurd (omega arith)
read_length add_content_length (suc fuel) n fields body h less =
    ap (read_lines (suc fuel)) (append_assoc (length_line n) cr_lf _)
    ∙ read_lines-cons fuel (length_line n) _ (length_line-OneLine n) tt
        (read_fields fuel fields body h (omega arith))
read_length skip_content_length (suc fuel) n fields body h less =
    read_fields (suc fuel) fields body h (omega arith)

-- A client that reads the text of a header and what follows it, with enough fuel for its lines, gets the
-- status line, the connection, the length if it is there, a line for each field in order, and then
-- exactly what follows, if no text in the header holds a carriage return.
pub read_lines-create_header_string :
    (h : ResponseHeader) (presence : ContentLengthPresence) (body : Bytes) (fuel : ℕ)
    → IsClean h
    → 3 + length h.fields < fuel
    → read_lines fuel (create_header_string h presence ++ body)
      ≡ some (header_lines h presence, body)
unfolding create_header_string
read_lines-create_header_string h presence body zero clean less = absurd (omega arith)
read_lines-create_header_string h presence body (suc zero) clean less = absurd (omega arith)
read_lines-create_header_string h presence body (suc (suc fuel)) clean less =
    let text = field_lines h.fields in
    let part = length_part presence h.content_length in
    let line = connection_line h.connection in
    ap (read_lines (suc (suc fuel))) (regroup (status_text h) line part text)
    ∙ read_lines-cons (suc fuel) (status_text h) _ (status_text-OneLine h clean)
        (status_text-IsFilled h)
        (read_lines-cons fuel line _ (connection_line-OneLine h.connection)
          (connection_line-IsFilled h.connection)
          (read_length presence fuel h.content_length h.fields body clean.fields (omega arith)))
  where
    regroup :
        (status line part text : Bytes)
        → (status ++ (cr_lf ++ (line ++ (cr_lf ++ (part ++ (text ++ cr_lf)))))) ++ body
          ≡ status ++ (cr_lf ++ (line ++ (cr_lf ++ (part ++ (text ++ (cr_lf ++ body))))))
    regroup status line part text = simp append_assoc
