-- ===== src/Response/Chunked/Written.antt =====
-- What the chunked builder of web/restinio/restinio/message_builders.hpp writes.
use prj.Prelude.{
  ℕ, suc, ◌<◌, ◌≡◌, refl, sym, ap, ap₂, ◌∙◌, inl, inr, Bool, true, false, not, ◌||◌, List, [], ◌∷◌,
  ◌++◌, append-nil, append_assoc, Option, some, arith, Bytes, ◌==◌, length, All, Bool-cases,
}
use prj.Headers.Message.{StatusLine, ResponseHeader}
use prj.Headers.Text.{create_header_string, skip_content_length}
use prj.Response.{initial_header, Sent}
use prj.Response.Sizes.{joined}
use prj.Response.UserControlled.{is_empty, is_some}
use prj.Response.UserControlled.Written.{sends_of, sends_of_done, written, written-append}
use prj.Response.Chunked.{
  ChunkedBuilder, create_chunked_response, change_header, append_chunk, prepare_header_for_sending,
  prepared, create_bufs, send_ready_data, flush, done,
}
use prj.Response.Chunked.Decoding.{
  PrintsHex, decode, stream, last_chunk, ending, joined-bufs, decode-stream, stream-flushed,
  IsFilled,
}

-- The calls on a builder before `done`.
pub data ChunkCall : Type 0 where
  heads : (ResponseHeader → ResponseHeader) → ChunkCall
  appends : Bytes → ChunkCall
  flushes : Option ℕ → ChunkCall

module _ (hex : ℕ → Bytes) where
  pub call : ChunkCall → ChunkedBuilder → List Sent × ChunkedBuilder
  call (heads change) b = ([], change_header change b)
  call (appends chunk) b = ([], append_chunk chunk b)
  call (flushes wscb) b = (sends_of (flush hex wscb b).0, (flush hex wscb b).1)

  -- All that the calls and the `done` after them hand to the connection.
  pub run : List ChunkCall → Option ℕ → ChunkedBuilder → List Sent
  unfolding call
  run [] wscb b = sends_of_done (done hex wscb b).0
  run (c ∷ calls) wscb b = (call c b).0 ++ run calls wscb (call c b).1

-- The header as it is at the first flush, or at the end.
abbrev pub first_header : ResponseHeader → List ChunkCall → ResponseHeader
first_header h [] = h
first_header h (heads change ∷ calls) = first_header (change h) calls
first_header h (appends chunk ∷ calls) = first_header h calls
first_header h (flushes wscb ∷ calls) = h

-- The body: all chunks in order.
abbrev pub body_of : List ChunkCall → Bytes
body_of [] = []
body_of (heads change ∷ calls) = body_of calls
body_of (appends chunk ∷ calls) = chunk ++ body_of calls
body_of (flushes wscb ∷ calls) = body_of calls

-- The chunks that are not empty.
abbrev kept_chunk : Bytes → List Bytes
kept_chunk [] = []
kept_chunk (c ∷ chunk) = (c ∷ chunk) ∷ []

abbrev chunks_of : List ChunkCall → List Bytes
chunks_of [] = []
chunks_of (heads change ∷ calls) = chunks_of calls
chunks_of (appends chunk ∷ calls) = kept_chunk chunk ++ chunks_of calls
chunks_of (flushes wscb ∷ calls) = chunks_of calls

joined-chunks_of : (calls : List ChunkCall) → joined (chunks_of calls) ≡ body_of calls
joined-chunks_of [] = refl
joined-chunks_of (heads change ∷ calls) = joined-chunks_of calls
joined-chunks_of (appends [] ∷ calls) = joined-chunks_of calls
joined-chunks_of (appends (c ∷ chunk) ∷ calls) = ap (◌++◌ (c ∷ chunk)) (joined-chunks_of calls)
joined-chunks_of (flushes wscb ∷ calls) = joined-chunks_of calls

not_zero : (chunk : Bytes) → (suc (length chunk) == 0) ≡ false
not_zero chunk = ground arith

chunks_of-IsFilled : (calls : List ChunkCall) → All IsFilled (chunks_of calls)
chunks_of-IsFilled [] = tt
chunks_of-IsFilled (heads change ∷ calls) = chunks_of-IsFilled calls
chunks_of-IsFilled (appends [] ∷ calls) = chunks_of-IsFilled calls
chunks_of-IsFilled (appends (c ∷ chunk) ∷ calls) = (not_zero chunk, chunks_of-IsFilled calls)
chunks_of-IsFilled (flushes wscb ∷ calls) = chunks_of-IsFilled calls

length-chunks_of : (calls : List ChunkCall) → length (chunks_of calls) < suc (length calls)
length-chunks_of [] = omega arith
length-chunks_of (heads change ∷ calls) = omega (arith, length-chunks_of calls)
length-chunks_of (appends [] ∷ calls) = omega (arith, length-chunks_of calls)
length-chunks_of (appends (c ∷ chunk) ∷ calls) = omega (arith, length-chunks_of calls)
length-chunks_of (flushes wscb ∷ calls) = omega (arith, length-chunks_of calls)

append_chunk-chunks :
    (chunk : Bytes) (b : ChunkedBuilder)
    → (append_chunk chunk b).chunks ≡ b.chunks ++ kept_chunk chunk
unfolding append_chunk
append_chunk-chunks [] b = sym (append-nil b.chunks)
append_chunk-chunks (c ∷ chunk) b = rw (not_zero chunk) refl

-- An appended chunk changes nothing else.
abbrev Same : ChunkedBuilder → ChunkedBuilder → Type 0
Same b b' =
    (b'.header ≡ b.header) × (b'.connected ≡ b.connected) × (b'.header_was_sent ≡ b.header_was_sent)

append_chunk-Same : (chunk : Bytes) (b : ChunkedBuilder) → Same b (append_chunk chunk b)
unfolding append_chunk
append_chunk-Same [] b = (refl, refl, refl)
append_chunk-Same (c ∷ chunk) b = rw (not_zero chunk) (refl, refl, refl)

nothing_written :
    (bufs : List Bytes) (b : Bool) → (not (is_empty bufs) || b) ≡ false → joined bufs ≡ []
nothing_written [] b h = refl
nothing_written (p ∷ bufs) b h = cc

prepared-connected : (b : ChunkedBuilder) → (prepared b).connected ≡ b.connected
unfolding prepared
prepared-connected b = elim (Bool-cases b.header_was_sent) [ inl e ↦ rw e refl | inr e ↦ rw e refl ]

module _ (hex : ℕ → Bytes) (final : Bool) (wscb : Option ℕ) (b : ChunkedBuilder) where
  -- What one send makes of a builder.
  abbrev Sends : Bytes → Type 0
  Sends bytes =
      (written (sends_of (send_ready_data hex final wscb b).0) ≡ bytes)
      × ((send_ready_data hex final wscb b).1.header_was_sent ≡ true)
      × ((send_ready_data hex final wscb b).1.chunks ≡ [])
      × ((send_ready_data hex final wscb b).1.connected ≡ b.connected)

  send-Sends : Sends (joined (create_bufs hex final (prepared b)))
  unfolding send_ready_data
  send-Sends =
      let bufs = create_bufs hex final (prepared b) in
      elim (Bool-cases (not (is_empty bufs) || is_some wscb)) [
        | inl e ↦ rw e (append-nil (joined bufs), refl, refl, prepared-connected b)
        | inr e ↦ rw e (sym (nothing_written bufs _ e), refl, refl, prepared-connected b)
      ]

  bufs_under_way :
      b.header_was_sent ≡ true
      → joined (create_bufs hex final (prepared b)) ≡ stream hex b.chunks ++ ending final
  unfolding create_bufs prepared
  bufs_under_way h = rw h (joined-bufs hex final b.chunks)

  bufs_first :
      b.header_was_sent ≡ false
      → joined (create_bufs hex final (prepared b))
        ≡ create_header_string (prepare_header_for_sending b.header) skip_content_length
          ++ (stream hex b.chunks ++ ending final)
  unfolding create_bufs prepared
  bufs_first h = rw h (
      ap (◌++◌ (create_header_string (prepare_header_for_sending b.header) skip_content_length))
        (joined-bufs hex final b.chunks))

module _ (hex : ℕ → Bytes) (wscb : Option ℕ) where
  done-sends :
      (b : ChunkedBuilder)
      → b.connected ≡ true
      → sends_of_done (done hex wscb b).0
        ≡ sends_of (send_ready_data hex true wscb (record b { connected = false })).0
  unfolding done
  done-sends b h = rw h refl

  flush-sends :
      (cb : Option ℕ) (b : ChunkedBuilder)
      → b.connected ≡ true
      → flush hex cb b ≡ send_ready_data hex false cb b
  unfolding flush
  flush-sends cb b h = rw h refl

  -- Once the header is out, the chunks go out.
  run-stream :
      (calls : List ChunkCall) (b : ChunkedBuilder)
      → b.connected ≡ true
      → b.header_was_sent ≡ true
      → written (run hex calls wscb b) ≡ stream hex (b.chunks ++ chunks_of calls) ++ last_chunk
  unfolding run
  run-stream [] b c out =
      ap written (done-sends b c)
      ∙ (send-Sends hex true wscb (record b { connected = false })).0
      ∙ bufs_under_way hex true wscb (record b { connected = false }) out
      ∙ ap (λ l. stream hex l ++ last_chunk) (sym (append-nil b.chunks))
  run-stream (heads change ∷ calls) b c out = run-stream calls (change_header change b) c out
  run-stream (appends chunk ∷ calls) b c out =
      let (headed, same, sent) = append_chunk-Same chunk b in
      run-stream calls (append_chunk chunk b) (same ∙ c) (sent ∙ out)
      ∙ ap (λ l. stream hex l ++ last_chunk)
          (ap (λ l. l ++ chunks_of calls) (append_chunk-chunks chunk b)
            ∙ append_assoc b.chunks (kept_chunk chunk) (chunks_of calls))
  run-stream (flushes cb ∷ calls) b c out =
      let (bytes, sent, chunks, same) = send-Sends hex false cb b in
      rw (flush-sends cb b c) (
        written-append (sends_of (send_ready_data hex false cb b).0) _
        ∙ ap₂ ◌++◌ (bytes ∙ bufs_under_way hex false cb b out) (
            run-stream calls (send_ready_data hex false cb b).1 (same ∙ c) sent
            ∙ ap (λ l. stream hex (l ++ chunks_of calls) ++ last_chunk) chunks)
        ∙ stream-flushed hex b.chunks (chunks_of calls) last_chunk)

  -- The text of the header goes out before them.
  abbrev head_text : ResponseHeader → List ChunkCall → Bytes
  head_text h calls =
      create_header_string (prepare_header_for_sending (first_header h calls)) skip_content_length

  run-message :
      (calls : List ChunkCall) (b : ChunkedBuilder)
      → b.connected ≡ true
      → b.header_was_sent ≡ false
      → written (run hex calls wscb b)
        ≡ head_text b.header calls ++ (stream hex (b.chunks ++ chunks_of calls) ++ last_chunk)
  unfolding run
  run-message [] b c inside =
      ap written (done-sends b c)
      ∙ (send-Sends hex true wscb (record b { connected = false })).0
      ∙ bufs_first hex true wscb (record b { connected = false }) inside
      ∙ ap (λ l. head_text b.header [] ++ (stream hex l ++ last_chunk)) (sym (append-nil b.chunks))
  run-message (heads change ∷ calls) b c inside =
      run-message calls (change_header change b) c inside
  run-message (appends chunk ∷ calls) b c inside =
      let (headed, same, sent) = append_chunk-Same chunk b in
      run-message calls (append_chunk chunk b) (same ∙ c) (sent ∙ inside)
      ∙ ap₂ (λ h l. head_text h calls ++ (stream hex l ++ last_chunk)) headed
          (ap (λ l. l ++ chunks_of calls) (append_chunk-chunks chunk b)
            ∙ append_assoc b.chunks (kept_chunk chunk) (chunks_of calls))
  run-message (flushes cb ∷ calls) b c inside =
      let (bytes, sent, chunks, same) = send-Sends hex false cb b in
      let text = head_text b.header (flushes cb ∷ calls) in
      rw (flush-sends cb b c) (
        written-append (sends_of (send_ready_data hex false cb b).0) _
        ∙ ap₂ ◌++◌ (bytes ∙ bufs_first hex false cb b inside) (
            run-stream calls (send_ready_data hex false cb b).1 (same ∙ c) sent
            ∙ ap (λ l. stream hex (l ++ chunks_of calls) ++ last_chunk) chunks)
        ∙ append_assoc text (stream hex b.chunks ++ []) (stream hex (chunks_of calls) ++ last_chunk)
        ∙ ap (◌++◌ text) (stream-flushed hex b.chunks (chunks_of calls) last_chunk))

-- After any calls on a new response and `done`, all that has been handed to the connection is the text
-- of the header as it stood at the first flush, or at the end, with its transfer encoding and no length,
-- and then a stream that a client decodes to exactly the chunks in order, if `fmt::format` prints sizes
-- in hexadecimal.
pub chunked-decodes :
    (hex : ℕ → Bytes) (status : StatusLine) (keep : Bool) (request_id : ℕ) (calls : List ChunkCall)
    (wscb : Option ℕ) (fuel : ℕ)
    → PrintsHex hex
    → length calls < fuel
    → (chunks : Bytes) × (written
          (run hex calls wscb (create_chunked_response status keep request_id))
        ≡ create_header_string
            (prepare_header_for_sending (first_header (initial_header status keep) calls))
            skip_content_length
          ++ chunks)
      × (decode fuel chunks ≡ some (body_of calls, []))
chunked-decodes hex status keep request_id calls wscb fuel prints less = (
  stream hex (chunks_of calls) ++ last_chunk,
  run-message hex wscb calls (create_chunked_response status keep request_id) refl refl,
  ap (λ t. decode fuel (stream hex (chunks_of calls) ++ t)) (sym (append-nil last_chunk))
      ∙ decode-stream hex prints (chunks_of calls) fuel [] (chunks_of-IsFilled calls)
          (omega (arith, length-chunks_of calls))
      ∙ ap (λ b. some (b, [])) (joined-chunks_of calls),
)
