-- ===== src/Serial/Writing.antt =====
-- The two functions `writeSome` of Serial.hpp.
use Prim.Native.Nat.{min}
use prj.Prelude.{
  ◌∙◌, append-nil, leb, ℕ, zero, suc, ◌+◌, ◌≤◌, ◌≡◌, refl, ◌≢◌, true, false, some, List, [], ◌∷◌,
  ◌++◌, ap, arith, Bytes, length, take, take_all, take-take, length-take, take-append,
  length-append, All,
}
use prj.Prelude.Outcome.{ok, undefined, unfinished}
use prj.Serial.{Port, transmit, write_some, strlen, write_c_string}

transmit_room :
    (bytes : Bytes) (port : Port) (c : ℕ) (more : List ℕ)
    → port.room ≡ c ∷ more
    → transmit bytes port ≡ (
      ok (min c (length bytes)),
      record port { room = more; sent = port.sent ++ take (min c (length bytes)) bytes },
    )
unfolding transmit
transmit_room bytes port c more e = ground arith

transmit_prefix :
    (bytes : Bytes) (port : Port) (room : List ℕ) (k : ℕ)
    → port.room ≡ room
    → (transmit bytes port).0 ≡ ok k
    → (k ≤ length bytes)
      × ((transmit bytes port).1.sent ≡ port.sent ++ take k bytes)
      × ((transmit bytes port).1.input ≡ port.input)
unfolding transmit
transmit_prefix bytes port [] k e h = ground arith
transmit_prefix bytes port (c ∷ more) k e h = ground arith

pub write_some_finishes :
    (buf : Bytes) (n : ℕ) (port : Port) → (write_some buf n port).0 ≢ unfinished
unfolding write_some transmit
write_some_finishes buf n port = ground arith

pub write_some_defined :
    (buf : Bytes) (n : ℕ) (port : Port) → n ≤ length buf → (write_some buf n port).0 ≢ undefined
unfolding write_some
write_some_defined buf n port h = ground arith

-- A write of `n` bytes that returns `k` has put the first `k` bytes of the buffer on the line, after
-- what was sent before, with `k` at most `n`, and leaves the input alone.
write_some_prefix :
    (buf : Bytes) (n k : ℕ) (port : Port)
    → (write_some buf n port).0 ≡ ok k
    → (n ≤ length buf)
      × (k ≤ n)
      × ((write_some buf n port).1.sent ≡ port.sent ++ take k buf)
      × ((write_some buf n port).1.input ≡ port.input)
unfolding write_some
write_some_prefix buf n k port h =
    ground
      (arith, transmit_prefix (take n buf) port port.room k, length-take n buf, take-take k n buf)

-- With room for it, the whole of a write goes out.
pub write_some_whole :
    (buf out : Bytes) (n c : ℕ) (more : List ℕ) (port : Port)
    → take n buf ≡ out
    → n ≤ length buf
    → port.room ≡ c ∷ more
    → n ≤ c
    → write_some buf n port ≡ (ok n, record port { room = more; sent = port.sent ++ out })
unfolding write_some
write_some_whole buf out n c more port t h r f =
    let size : min c (length out) ≡ n = omega (arith, ap length t, length-take n buf) in
    let sent = transmit_room out port c more r in
    rw (t) (ground (arith, sent, size, take_all n out, ap length t, length-take n buf))

strlen_of_string : (s rest : Bytes) → All (λ c. c ≢ 0) s → strlen (s ++ 0 ∷ rest) ≡ some (length s)
unfolding strlen
strlen_of_string [] rest z = refl
strlen_of_string (zero ∷ s) rest z = absurd (z.0 refl)
strlen_of_string (suc c ∷ s) rest z = rw (strlen_of_string s rest z.1)

take_string : (s rest : Bytes) → take (suc (length s)) (s ++ 0 ∷ rest) ≡ s ++ 0 ∷ []
take_string [] rest = refl
take_string (c ∷ s) rest = ap (◌∷◌ c) (take_string s rest)

long : (s rest : Bytes) → suc (length s) ≤ length (s ++ 0 ∷ rest)
long s rest = omega (arith, length-append s (0 ∷ rest))

-- `writeSome` of a zero-terminated string puts the string on the line, with its terminator if that
-- is asked for, when the port has room for it.
write_c_string_sends :
    (s rest : Bytes) (port : Port) (room : ℕ) (more : List ℕ)
    → All (λ c. c ≢ 0) s
    → port.room ≡ room ∷ more
    → length s + 1 ≤ room
    → (write_c_string (s ++ 0 ∷ rest) true port
        ≡ (ok (suc (length s)), record port { room = more; sent = port.sent ++ (s ++ 0 ∷ []) }))
      × (write_c_string (s ++ 0 ∷ rest) false port
          ≡ (ok (length s), record port { room = more; sent = port.sent ++ s }))
unfolding write_c_string write_some
write_c_string_sends s rest port room more z r h = (
  rw (strlen_of_string s rest z, write_c_string)
      (write_some_whole (s ++ 0 ∷ rest) (s ++ 0 ∷ []) (suc (length s)) room more port
        (take_string s rest) (long s rest) r (omega arith)),
  rw (strlen_of_string s rest z, write_c_string)
      (write_some_whole (s ++ 0 ∷ rest) s (length s) room more port (take-append s (0 ∷ rest))
        (omega (arith, long s rest)) r (omega arith)),
)

take-nil : (n : ℕ) → ◌≡◌ {A = Bytes} (take n []) []
take-nil zero = refl
take-nil (suc n) = refl

transmit_none :
    (port : Port) (room : List ℕ) → port.room ≡ room → (transmit [] port).1.sent ≡ port.sent
unfolding transmit
transmit_none port [] e = rw (e, transmit) refl
transmit_none port (c ∷ more) e =
    rw (transmit_room [] port c more e)
      (ap (λ t. port.sent ++ t) (take-nil (min c 0)) ∙ append-nil port.sent)

zero_leb : (n : ℕ) → leb 0 n ≡ true
zero_leb n = ground arith

-- A write of nothing sends nothing.
pub write_some_none : (buf : Bytes) (port : Port) → (write_some buf 0 port).1.sent ≡ port.sent
unfolding write_some
write_some_none buf port = rw (zero_leb (length buf)) (transmit_none port port.room refl)
