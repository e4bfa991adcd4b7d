-- ===== src/Uri.antt =====
-- The URI part of web/restinio/restinio/utils/percent_encoding.hpp: escaping, unescaping and the
-- normalization of unreserved characters; and `target_path_holder_t` of
-- web/restinio/restinio/router/impl/target_path_holder.hpp. A `char` is kept as its byte.
pub mod Normalizing
pub mod Unescaping
use prj.Prelude.{
  ℕ, zero, suc, ◌+◌, ◌-◌, ◌*◌, ◌%◌, ◌/◌, ◌≡◌, Bool, true, false, not, ◌&&◌, ◌||◌, List, [], ◌∷◌,
  ◌++◌, Bytes, ltb, leb, ◌==◌, if◌then◌else◌, length, codes,
}
use prj.Prelude.Outcome.{Outcome, ok, throws}
use prj.Prelude.Throwing.{◌>>=◌}
use prj.Utf8Checker.{Checker, fresh, process_byte, finalized, reset}

-- `restinio_default_unescape_traits::ordinary_char`.
unfoldable pub ordinary_char : ℕ → Bool
ordinary_char c =
    (leb b'0' c && leb c b'9')
    || ((leb b'a' c && leb c b'z')
        || ((leb b'A' c && leb c b'Z')
            || ((c == b'-') || ((c == b'.') || ((c == b'~') || (c == b'_'))))))

abbrev pub is_unreserved_char : ℕ → Bool
is_unreserved_char c = ordinary_char c

unfoldable pub is_hexdigit : ℕ → Bool
is_hexdigit c =
    (leb b'0' c && leb c b'9') || ((leb b'a' c && leb c b'f') || (leb b'A' c && leb c b'F'))

-- `c |= 0x20`: bit 5 is set.
abbrev pub set_bit_5 : ℕ → ℕ
set_bit_5 c = if c / 32 % 2 == 0 then c + 32 else c

-- One half of `extract_escaped_char`; it is called on hexadecimal digits only, so that nothing is
-- taken from a smaller number.
unfoldable pub hex_value : ℕ → ℕ
hex_value c = if leb b'0' c && leb c b'9' then c - b'0' else 10 + set_bit_5 c - b'a'

unfoldable pub extract_escaped_char : ℕ → ℕ → ℕ
unfolding hex_value
extract_escaped_char c1 c2 = (hex_value c1 * 16 + hex_value c2) % 256

-- The checker after a percent-encoded byte that it accepts, as both loops below use it: its symbol, if
-- that is complete, and whether a further byte is expected. A complete symbol resets it.
unfoldable pub decoded_byte : Checker → ℕ → ℕ → Outcome (Checker × Bool × ℕ)
decoded_byte checker d1 d2 =
    let (next, good) = process_byte checker (extract_escaped_char d1 d2) in
    let last : Checker = if finalized next then reset next else next in
    if is_hexdigit d1 && is_hexdigit d2
    then (if good then ok (last, not (finalized next), next.current_symbol) else throws)
    else throws

-- A character that stands for itself, `+` for a space; no other may come outside an escape sequence.
unfoldable pub collected : ℕ → Outcome ℕ
unfolding ordinary_char
collected c = if c == b'+' then ok b' ' else (if ordinary_char c then ok c else throws)

abbrev pub prepend {ℓ} : {A : Type ℓ} → A → Outcome (List A) → Outcome (List A)
prepend a r = r >>= λ rest. ok (a ∷ rest)

-- `do_unescape_percent_encoding` with the default traits: what the collector gets. An error is
-- `throws`, without its description.
unfoldable pub unescape_loop : Checker → Bool → Bytes → Outcome Bytes
unfolding decoded_byte collected
unescape_loop checker expect [] = if expect then throws else ok []
unescape_loop checker expect (c ∷ []) =
    if c == b'%'
    then throws
    else (if expect
        then throws
        else collected c >>= (λ ch. prepend ch (unescape_loop checker expect [])))
unescape_loop checker expect (c ∷ d1 ∷ []) =
    if c == b'%'
    then throws
    else (if expect
        then throws
        else collected c >>= (λ ch. prepend ch (unescape_loop checker expect (d1 ∷ []))))
unescape_loop checker expect (c ∷ d1 ∷ d2 ∷ s) =
    if c == b'%'
    then decoded_byte checker d1 d2
      >>= (λ r. prepend (extract_escaped_char d1 d2) (unescape_loop r.0 r.1 s))
    else (if expect
        then throws
        else collected c >>= (λ ch. prepend ch (unescape_loop checker expect (d1 ∷ d2 ∷ s))))

-- `unescape_percent_encoding`.
unfoldable pub unescape_percent_encoding : Bytes → Outcome Bytes
unfolding unescape_loop
unescape_percent_encoding what = unescape_loop fresh false what

-- A digit of the format `{:02X}`.
abbrev pub hex_digit : ℕ → ℕ
hex_digit n = if ltb n 10 then b'0' + n else b'A' + (n - 10)

-- The second loop of `escape_percent_encoding`, which its first branch agrees with where nothing is
-- to be escaped. The two digits are those of a byte below 0x80; above, `char` may be signed.
unfoldable pub escape_percent_encoding : Bytes → Bytes
unfolding ordinary_char
escape_percent_encoding [] = []
escape_percent_encoding (c ∷ s) =
    let rest = escape_percent_encoding s in
    if ordinary_char c then c ∷ rest else b'%' ∷ hex_digit (c / 16) ∷ hex_digit (c % 16) ∷ rest

-- What the handlers of `run_normalization_algo` are called with, in order.
pub data Chunk : Type 0 where
  one_byte : ℕ → Chunk
  three_bytes : ℕ → ℕ → ℕ → Chunk

-- Whether a percent-encoded byte is replaced: it completes a symbol of the unreserved set.
abbrev pub is_replaced : Bool → ℕ → Bool
is_replaced expect symbol = (not expect && ltb symbol 0x80) && is_unreserved_char symbol

-- `run_normalization_algo`.
unfoldable pub normalization_loop : Checker → Bool → Bytes → Outcome (List Chunk)
unfolding decoded_byte ordinary_char
normalization_loop checker expect [] = if expect then throws else ok []
normalization_loop checker expect (c ∷ []) =
    if c == b'%'
    then throws
    else (if expect then throws else prepend (one_byte c) (normalization_loop checker expect []))
normalization_loop checker expect (c ∷ d1 ∷ []) =
    if c == b'%'
    then throws
    else (if expect
        then throws
        else prepend (one_byte c) (normalization_loop checker expect (d1 ∷ [])))
normalization_loop checker expect (c ∷ d1 ∷ d2 ∷ s) =
    if c == b'%'
    then decoded_byte checker d1 d2 >>= (λ r.
      prepend (if is_replaced r.1 r.2 then one_byte r.2 else three_bytes c d1 d2)
        (normalization_loop r.0 r.1 s))
    else (if expect
        then throws
        else prepend (one_byte c) (normalization_loop checker expect (d1 ∷ d2 ∷ s)))

-- `calculated_capacity` after the handlers of `estimate_required_capacity`.
abbrev pub capacity_of : List Chunk → ℕ
capacity_of [] = 0
capacity_of (one_byte c ∷ chunks) = 1 + capacity_of chunks
capacity_of (three_bytes c1 c2 c3 ∷ chunks) = 3 + capacity_of chunks

-- What the handlers of `normalize_to` write at `dest`.
abbrev pub bytes_of : List Chunk → Bytes
bytes_of [] = []
bytes_of (one_byte c ∷ chunks) = c ∷ bytes_of chunks
bytes_of (three_bytes c1 c2 c3 ∷ chunks) = c1 ∷ c2 ∷ c3 ∷ bytes_of chunks

unfoldable pub estimate_required_capacity : Bytes → Outcome ℕ
unfolding normalization_loop
estimate_required_capacity what =
    normalization_loop fresh false what >>= λ chunks. ok (capacity_of chunks)

unfoldable pub normalize_to : Bytes → Outcome Bytes
unfolding normalization_loop
normalize_to what = normalization_loop fresh false what >>= λ chunks. ok (bytes_of chunks)

-- The constructor of `target_path_holder_t`: the value that `view()` shows.
unfoldable pub target_path : Bytes → Outcome Bytes
unfolding estimate_required_capacity normalize_to
target_path original_path = estimate_required_capacity original_path >>= λ size.
    if not (size == length original_path) then normalize_to original_path else ok original_path
