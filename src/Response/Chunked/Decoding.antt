-- ===== src/Response/Chunked/Decoding.antt =====
-- The stream of chunks that web/restinio/restinio/message_builders.hpp writes, as a client decodes it.
pub mod Printing
use prj.Prelude.{
  ℕ, zero, suc, ◌+◌, ◌*◌, ◌-◌, ◌<◌, ◌≡◌, refl, sym, ap, ap₂, ◌∙◌, Bool, false, Option, none, some,
  List, [], ◌∷◌, ◌++◌, append-nil, append_assoc, arith, Bytes, codes, leb, ◌&&◌, ◌==◌,
  if◌then◌else◌, length, take, take-append, drop, drop-append, All,
}
use prj.Headers.Text.{cr_lf}
use prj.Headers.Text.Reading.{read_line, read_line_joined, OneLine}
use prj.Response.Sizes.{joined, joined-append}
use prj.Response.UserControlled.{is_empty}
use prj.Response.Chunked.{chunk_bufs, appendix, appendix_bufs}

-- The value of a hexadecimal digit in upper case.
pub hex_value : ℕ → Option ℕ
hex_value c =
    if leb b'0' c && leb c b'9'
    then some (c - b'0')
    else if leb b'A' c && leb c b'F'
    then some (c - 55)
    else none

pub shifted : ℕ → Option ℕ → Option ℕ
shifted acc none = none
shifted acc (some d) = some (acc * 16 + d)

pub hex_from : Option ℕ → Bytes → Option ℕ
hex_from none text = none
hex_from (some acc) [] = some acc
hex_from (some acc) (c ∷ text) = hex_from (shifted acc (hex_value c)) text

-- A number in hexadecimal digits, of which there is at least one.
pub read_hex : Bytes → Option ℕ
unfolding hex_from shifted hex_value
read_hex [] = none
read_hex (c ∷ text) = hex_from (hex_value c) text

with_chunk : Bytes → Option (Bytes × Bytes) → Option (Bytes × Bytes)
with_chunk chunk none = none
with_chunk chunk (some (body, rest)) = some (chunk ++ body, rest)

-- What stands behind an empty line.
behind : Option (Bytes × Bytes) → Option Bytes
behind (some ([], rest)) = some rest
behind _ = none

then_chunk : (Bytes → Option (Bytes × Bytes)) → Bytes → Option Bytes → Option (Bytes × Bytes)
unfolding with_chunk
then_chunk read chunk none = none
then_chunk read chunk (some rest) = with_chunk chunk (read rest)

then_end : Option Bytes → Option (Bytes × Bytes)
then_end none = none
then_end (some rest) = some ([], rest)

sized_chunk : (Bytes → Option (Bytes × Bytes)) → Option ℕ → Bytes → Option (Bytes × Bytes)
unfolding then_chunk then_end behind
sized_chunk read none text = none
sized_chunk read (some zero) text = then_end (behind (read_line text))
sized_chunk read (some (suc k)) text =
    then_chunk read (take (suc k) text) (behind (read_line (drop (suc k) text)))

next_chunk : (Bytes → Option (Bytes × Bytes)) → Option (Bytes × Bytes) → Option (Bytes × Bytes)
unfolding sized_chunk
next_chunk read none = none
next_chunk read (some (line, text)) = sized_chunk read (read_hex line) text

-- A body of chunks: for each its size, on a line of its own, and its bytes, which a line end follows;
-- a size of zero ends it. The result is the body, and what stands behind it.
pub decode : ℕ → Bytes → Option (Bytes × Bytes)
unfolding next_chunk
decode zero text = none
decode (suc fuel) text = next_chunk (decode fuel) (read_line text)

-- `fmt::format` prints a size in upper case hexadecimal digits.
pub record PrintsHex (hex : ℕ → Bytes) : Type 0 where
  pub reads : (n : ℕ) → read_hex (hex n) ≡ some n
  pub one_line : (n : ℕ) → OneLine (hex n)

line_end : (rest : Bytes) → behind (read_line (cr_lf ++ rest)) ≡ some rest
unfolding behind read_line
line_end rest = refl

abbrev pub last_chunk : Bytes
last_chunk = codes "0\r\n\r\n"

decode_last : (fuel : ℕ) (rest : Bytes) → decode (suc fuel) (last_chunk ++ rest) ≡ some ([], rest)
unfolding decode read_line read_hex
decode_last fuel rest = refl

abbrev pub ending : Bool → Bytes
ending add_zero_chunk = if add_zero_chunk then last_chunk else []

abbrev pub IsFilled : Bytes → Type 0
IsFilled chunk = (length chunk == 0) ≡ false

module _ (hex : ℕ → Bytes) where
  -- A chunk with its size.
  abbrev pub encoded : Bytes → Bytes
  encoded chunk = hex (length chunk) ++ (cr_lf ++ (chunk ++ cr_lf))

  abbrev pub stream : List Bytes → Bytes
  stream [] = []
  stream (chunk ∷ chunks) = encoded chunk ++ stream chunks

  module _ (prints : PrintsHex hex) where
    decode_chunk :
        (fuel : ℕ) (chunk rest : Bytes)
        → (length chunk == 0) ≡ false
        → decode (suc fuel) (hex (length chunk) ++ (cr_lf ++ (chunk ++ (cr_lf ++ rest))))
          ≡ with_chunk chunk (decode fuel rest)
    unfolding decode
    decode_chunk fuel [] rest h = cc
    decode_chunk fuel (c ∷ chunk) rest h =
        let n = length (c ∷ chunk) in
        ap (next_chunk (decode fuel))
          (read_line_joined (hex n) ((c ∷ chunk) ++ (cr_lf ++ rest)) (prints.one_line n))
        ∙ ap (λ s. sized_chunk (decode fuel) s ((c ∷ chunk) ++ (cr_lf ++ rest))) (prints.reads n)
        ∙ ap₂ (then_chunk (decode fuel)) (take-append (c ∷ chunk) (cr_lf ++ rest)) (
            ap (λ t. behind (read_line t)) (drop-append (c ∷ chunk) (cr_lf ++ rest))
            ∙ line_end rest)

    -- A client that decodes a stream of chunks that are not empty, and its end, gets their bytes.
    pub decode-stream :
        (chunks : List Bytes) (fuel : ℕ) (rest : Bytes)
        → All IsFilled chunks
        → length chunks < fuel
        → decode fuel (stream chunks ++ (last_chunk ++ rest)) ≡ some (joined chunks, rest)
    unfolding with_chunk
    decode-stream chunks zero rest h less = absurd (omega arith)
    decode-stream [] (suc fuel) rest h less = decode_last fuel rest
    decode-stream (chunk ∷ chunks) (suc fuel) rest h less =
        ap (decode (suc fuel))
          (regroup (hex (length chunk)) chunk (stream chunks) (last_chunk ++ rest))
        ∙ decode_chunk fuel chunk (stream chunks ++ (last_chunk ++ rest)) h.0
        ∙ ap (with_chunk chunk) (decode-stream chunks fuel rest h.1 (omega arith))
      where
        regroup :
            (size chunk text after : Bytes)
            → ((size ++ (cr_lf ++ (chunk ++ cr_lf))) ++ text) ++ after
              ≡ size ++ (cr_lf ++ (chunk ++ (cr_lf ++ (text ++ after))))
        regroup size chunk text after = simp append_assoc

  -- The end of the last chunk, where there is one.
  abbrev ended : List Bytes → Bytes
  ended chunks = if is_empty chunks then [] else cr_lf

  between :
      (before size chunk end text : Bytes)
      → before ++ (size ++ (end ++ (chunk ++ (end ++ text))))
        ≡ before ++ ((size ++ (end ++ (chunk ++ end))) ++ text)
  between before size chunk end text = simp append_assoc

  gathered :
      (before size chunk end text : Bytes)
      → ((before ++ (size ++ end)) ++ (chunk ++ text)) ++ end
        ≡ before ++ (size ++ (end ++ (chunk ++ (text ++ end))))
  gathered before size chunk end text = simp append_assoc

  joined-chunk_bufs :
      (before : Bytes) (chunks : List Bytes)
      → joined (chunk_bufs hex before chunks) ++ ended chunks
        ≡ (if is_empty chunks then [] else before ++ stream chunks)
  unfolding chunk_bufs
  joined-chunk_bufs before [] = refl
  joined-chunk_bufs before (chunk ∷ []) = simp append_assoc
  joined-chunk_bufs before (chunk ∷ next ∷ chunks) =
      let size = hex (length chunk) in
      gathered before size chunk cr_lf (joined (chunk_bufs hex cr_lf (next ∷ chunks)))
      ∙ ap (λ text. before ++ (size ++ (cr_lf ++ (chunk ++ text))))
          (joined-chunk_bufs cr_lf (next ∷ chunks))
      ∙ between before size chunk cr_lf (stream (next ∷ chunks))

  joined-appendix_bufs : (text : Bytes) → joined (appendix_bufs text) ≡ text
  unfolding appendix_bufs
  joined-appendix_bufs [] = refl
  joined-appendix_bufs (c ∷ text) = append-nil (c ∷ text)

  -- The buffers that are made of the chunks at hand hold them, each with its size.
  pub joined-bufs :
      (add_zero_chunk : Bool) (chunks : List Bytes)
      → joined (chunk_bufs hex [] chunks ++ appendix_bufs (appendix add_zero_chunk chunks))
        ≡ stream chunks ++ ending add_zero_chunk
  unfolding appendix
  joined-bufs add_zero_chunk chunks =
      joined-append (chunk_bufs hex [] chunks) (appendix_bufs (appendix add_zero_chunk chunks))
      ∙ ap (λ t. joined (chunk_bufs hex [] chunks) ++ t)
          (joined-appendix_bufs (appendix add_zero_chunk chunks))
      ∙ sym
          (append_assoc (joined (chunk_bufs hex [] chunks)) (ended chunks) (ending add_zero_chunk))
      ∙ ap (λ t. t ++ ending add_zero_chunk) (joined-chunk_bufs [] chunks ∙ whole chunks)
    where
      whole :
          (chunks : List Bytes) → (if is_empty chunks then [] else stream chunks) ≡ stream chunks
      whole [] = refl
      whole (chunk ∷ chunks) = refl

  pub stream-append : (xs ys : List Bytes) → stream (xs ++ ys) ≡ stream xs ++ stream ys
  stream-append [] ys = refl
  stream-append (chunk ∷ xs) ys =
      ap (◌++◌ (encoded chunk)) (stream-append xs ys)
      ∙ sym (append_assoc (encoded chunk) (stream xs) (stream ys))

  -- What a flush has sent and what follows make one stream.
  pub stream-flushed :
      (xs ys : List Bytes) (rest : Bytes)
      → (stream xs ++ []) ++ (stream ys ++ rest) ≡ stream (xs ++ ys) ++ rest
  stream-flushed xs ys rest =
      ap (λ t. t ++ (stream ys ++ rest)) (append-nil (stream xs))
      ∙ sym (append_assoc (stream xs) (stream ys) rest)
      ∙ ap (λ t. t ++ rest) (sym (stream-append xs ys))
