-- ===== src/Response/UserControlled/Written.antt =====
-- What the user controlled builder of web/restinio/restinio/message_builders.hpp writes.
use prj.Prelude.{
  ℕ, ◌≡◌, refl, sym, ap, ap₂, ◌∙◌, inl, inr, Bool, true, false, not, ◌||◌, List, [], ◌∷◌, ◌++◌,
  append-nil, append_assoc, Option, none, some, arith, Bytes, ltb, length, set, Bool-cases,
}
use prj.Prelude.Outcome.{Outcome, ok}
use prj.Headers.Message.{StatusLine, ResponseHeader}
use prj.Headers.Text.{create_header_string, add_content_length}
use prj.Response.{initial_header, reserve_header, Sent}
use prj.Response.Sizes.{
  joined, joined-append, IsLaidOut, laid_out_items, set-IsLaidOut, append-IsLaidOut,
}
use prj.Response.UserControlled.{
  UserBuilder, create_user_response, change_header, set_body, append_body, flush, done,
  send_ready_data, is_empty, is_some,
}

-- The calls on a builder before `done`.
pub data UserCall : Type 0 where
  heads : (ResponseHeader → ResponseHeader) → UserCall
  sets appends : Bytes → UserCall
  flushes : Option ℕ → UserCall

-- What one call hands to the connection.
abbrev pub sends_of : Option Sent → List Sent
sends_of none = []
sends_of (some sent) = sent ∷ []

pub call : UserCall → UserBuilder → List Sent × UserBuilder
call (heads change) b = ([], change_header change b)
call (sets body) b = ([], set_body body b)
call (appends body) b = ([], append_body body b)
call (flushes wscb) b = (sends_of (flush wscb b).0, (flush wscb b).1)

abbrev pub sends_of_done : Outcome (Option Sent) → List Sent
sends_of_done (ok sent) = sends_of sent
sends_of_done _ = []

-- All that the calls and the `done` after them hand to the connection.
pub run : List UserCall → Option ℕ → UserBuilder → List Sent
unfolding call
run [] wscb b = sends_of_done (done wscb b).0
run (c ∷ calls) wscb b = (call c b).0 ++ run calls wscb (call c b).1

-- The bytes of it.
abbrev pub written : List Sent → Bytes
written [] = []
written (sent ∷ sents) = joined sent.group.items ++ written sents

-- What is to be written once the header is out: what is pending at each flush and at the end.
abbrev pub parts_of : Bytes → List UserCall → Bytes
parts_of pending [] = pending
parts_of pending (heads change ∷ calls) = parts_of pending calls
parts_of pending (sets body ∷ calls) = parts_of body calls
parts_of pending (appends body ∷ calls) = parts_of (pending ++ body) calls
parts_of pending (flushes wscb ∷ calls) = pending ++ parts_of [] calls

-- What is to be written in all: the header as it is at the first flush or at the end, and the parts.
abbrev pub message_of : ResponseHeader → Bytes → List UserCall → Bytes
message_of h pending [] = create_header_string h add_content_length ++ pending
message_of h pending (heads change ∷ calls) = message_of (change h) pending calls
message_of h pending (sets body ∷ calls) = message_of h body calls
message_of h pending (appends body ∷ calls) = message_of h (pending ++ body) calls
message_of h pending (flushes wscb ∷ calls) =
    create_header_string h add_content_length ++ (pending ++ parts_of [] calls)

pub written-append : (xs ys : List Sent) → written (xs ++ ys) ≡ written xs ++ written ys
written-append [] ys = refl
written-append (sent ∷ xs) ys =
    ap (◌++◌ (joined sent.group.items)) (written-append xs ys)
    ∙ sym (append_assoc (joined sent.group.items) (written xs) (written ys))

nothing_left : (parts : List Bytes) (b : Bool) → (not (is_empty parts) || b) ≡ false → parts ≡ []
nothing_left [] b h = refl
nothing_left (p ∷ parts) b h = cc

never_empty :
    (parts : List Bytes) (text : Bytes) → is_empty (set (reserve_header parts) 0 text) ≡ false
never_empty [] text = refl
never_empty (p ∷ parts) text = refl

-- What one send makes of a builder.
abbrev Sends : Bool → Option ℕ → UserBuilder → Bytes → Type 0
Sends final wscb b bytes =
    (written (sends_of (send_ready_data final wscb b).0) ≡ bytes)
    × ((send_ready_data final wscb b).1.header_was_sent ≡ true)
    × (joined (send_ready_data final wscb b).1.parts ≡ [])
    × ((send_ready_data final wscb b).1.connected ≡ b.connected)

module _ (final : Bool) (wscb : Option ℕ) (b : UserBuilder) where
  send_under_way :
      (pending : Bytes)
      → b.header_was_sent ≡ true
      → joined b.parts ≡ pending
      → Sends final wscb b pending
  unfolding send_ready_data
  send_under_way pending out waiting =
      elim (Bool-cases (not (is_empty b.parts) || (is_some wscb || final))) [
        | inl e ↦ rw out (rw e (append-nil _ ∙ waiting, refl, refl, refl))
        | inr e ↦
            let left = ap joined (nothing_left b.parts _ e) in
            rw out (rw e (sym left ∙ waiting, refl, left, refl))
      ]

  send_first :
      (pending : Bytes)
      → b.header_was_sent ≡ false
      → IsLaidOut b.parts pending
      → Sends final wscb b (create_header_string b.header add_content_length ++ pending)
  unfolding send_ready_data
  send_first pending inside laid =
      let text = create_header_string b.header add_content_length in
      rw inside (
        rw (never_empty b.parts text)
          (append-nil _ ∙ laid_out_items b.parts pending text laid, refl, refl, refl))

-- How a builder stands before a call: its header is out, and these bytes are pending.
pub record IsUnderWay (b : UserBuilder) (pending : Bytes) : Type 0 where
  pub open_connection : b.connected ≡ true
  pub out : b.header_was_sent ≡ true
  pub waiting : joined b.parts ≡ pending

-- Its header is not out yet.
pub record IsStarting (b : UserBuilder) (pending : Bytes) : Type 0 where
  pub open_connection : b.connected ≡ true
  pub inside : b.header_was_sent ≡ false
  pub laid_out : IsLaidOut b.parts pending

zero_ltb : (c : ℕ) (body : Bytes) → ltb 0 (length (c ∷ body)) ≡ true
zero_ltb c body = ground arith

module _ (b : UserBuilder) (pending : Bytes) where
  set_body-IsUnderWay : (body : Bytes) → IsUnderWay b pending → IsUnderWay (set_body body b) body
  unfolding set_body
  set_body-IsUnderWay [] v =
      rw (v.out) (record { open_connection = v.open_connection; out = refl; waiting = refl })
  set_body-IsUnderWay (c ∷ body) v =
      rw (v.out, zero_ltb c body)
        (record {
          open_connection = v.open_connection;
          out = refl;
          waiting = append-nil (c ∷ body);
        })

  append_body-IsUnderWay :
      (body : Bytes) → IsUnderWay b pending → IsUnderWay (append_body body b) (pending ++ body)
  unfolding append_body
  append_body-IsUnderWay [] v = record {
    open_connection = v.open_connection;
    out = v.out;
    waiting = v.waiting ∙ sym (append-nil pending);
  }
  append_body-IsUnderWay (c ∷ body) v = rw (zero_ltb c body) (
      rw (v.out) (record {
        open_connection = v.open_connection;
        out = refl;
        waiting =
            joined-append b.parts ((c ∷ body) ∷ []) ∙ ap₂ ◌++◌ v.waiting (append-nil (c ∷ body));
      }))

  set_body-IsStarting : (body : Bytes) → IsStarting b pending → IsStarting (set_body body b) body
  unfolding set_body
  set_body-IsStarting body v = rw (v.inside) (record {
    open_connection = v.open_connection;
    inside = refl;
    laid_out = set-IsLaidOut b.parts body;
  })

  append_body-IsStarting :
      (body : Bytes) → IsStarting b pending → IsStarting (append_body body b) (pending ++ body)
  unfolding append_body
  append_body-IsStarting [] v = record {
    open_connection = v.open_connection;
    inside = v.inside;
    laid_out = rw (append-nil pending) v.laid_out;
  }
  append_body-IsStarting (c ∷ body) v = rw (zero_ltb c body) (
      rw (v.inside) (record {
        open_connection = v.open_connection;
        inside = refl;
        laid_out = rw (zero_ltb c body) at (append-IsLaidOut b.parts pending (c ∷ body) v.laid_out);
      }))

set_body-header : (body : Bytes) (b : UserBuilder) → (set_body body b).header ≡ b.header
unfolding set_body
set_body-header body b = refl

append_body-header : (body : Bytes) (b : UserBuilder) → (append_body body b).header ≡ b.header
unfolding append_body
append_body-header [] b = refl
append_body-header (c ∷ body) b = rw (zero_ltb c body) refl

module _ (wscb : Option ℕ) where
  -- `done` on a builder with its connection hands over what `send_ready_data` makes final.
  done-sends :
      (b : UserBuilder)
      → b.connected ≡ true
      → sends_of_done (done wscb b).0
        ≡ sends_of (send_ready_data true wscb (record b { connected = false })).0
  unfolding done
  done-sends b h = rw h refl

  flush-sends :
      (cb : Option ℕ) (b : UserBuilder)
      → b.connected ≡ true
      → flush cb b ≡ send_ready_data false cb b
  unfolding flush
  flush-sends cb b h = rw h refl

  run-parts_of :
      (calls : List UserCall) (b : UserBuilder) (pending : Bytes)
      → IsUnderWay b pending
      → written (run calls wscb b) ≡ parts_of pending calls
  unfolding run
  run-parts_of [] b pending v =
      ap written (done-sends b v.open_connection)
      ∙ (send_under_way true wscb (record b { connected = false }) pending v.out v.waiting).0
  run-parts_of (heads change ∷ calls) b pending v =
      run-parts_of calls (change_header change b) pending
        (record { open_connection = v.open_connection; out = v.out; waiting = v.waiting })
  run-parts_of (sets body ∷ calls) b pending v =
      run-parts_of calls (set_body body b) body (set_body-IsUnderWay b pending body v)
  run-parts_of (appends body ∷ calls) b pending v =
      run-parts_of calls (append_body body b) (pending ++ body)
        (append_body-IsUnderWay b pending body v)
  run-parts_of (flushes cb ∷ calls) b pending v =
      let (bytes, out, waiting, same) = send_under_way false cb b pending v.out v.waiting in
      rw (flush-sends cb b v.open_connection) (
        written-append (sends_of (send_ready_data false cb b).0) _
        ∙ ap₂ ◌++◌ bytes (
            run-parts_of calls (send_ready_data false cb b).1 [] (record {
              open_connection = same ∙ v.open_connection;
              out = out;
              waiting = waiting;
            })))

  run-message_of :
      (calls : List UserCall) (b : UserBuilder) (pending : Bytes)
      → IsStarting b pending
      → written (run calls wscb b) ≡ message_of b.header pending calls
  unfolding run
  run-message_of [] b pending v =
      ap written (done-sends b v.open_connection)
      ∙ (send_first true wscb (record b { connected = false }) pending v.inside v.laid_out).0
  run-message_of (heads change ∷ calls) b pending v =
      run-message_of calls (change_header change b) pending
        (record { open_connection = v.open_connection; inside = v.inside; laid_out = v.laid_out })
  run-message_of (sets body ∷ calls) b pending v =
      run-message_of calls (set_body body b) body (set_body-IsStarting b pending body v)
      ∙ ap (λ h. message_of h body calls) (set_body-header body b)
  run-message_of (appends body ∷ calls) b pending v =
      run-message_of calls (append_body body b) (pending ++ body)
        (append_body-IsStarting b pending body v)
      ∙ ap (λ h. message_of h (pending ++ body) calls) (append_body-header body b)
  run-message_of (flushes cb ∷ calls) b pending v =
      let (bytes, out, waiting, same) = send_first false cb b pending v.inside v.laid_out in
      rw (flush-sends cb b v.open_connection) (
        written-append (sends_of (send_ready_data false cb b).0) _
        ∙ ap₂ ◌++◌ bytes (
            run-parts_of calls (send_ready_data false cb b).1 []
              (record { open_connection = same ∙ v.open_connection; out = out; waiting = waiting }))
        ∙ append_assoc _ pending (parts_of [] calls))

-- After any calls on a new response and `done`, all that has been handed to the connection is the text
-- of the header as it stood at the first flush, or at the end, and then the body: a body that is set
-- replaces what has not been flushed yet, and changes of the header after the first flush are lost.
pub user_controlled-message_of :
    (status : StatusLine) (keep : Bool) (request_id : ℕ) (calls : List UserCall) (wscb : Option ℕ)
    → written (run calls wscb (create_user_response status keep request_id))
      ≡ message_of (initial_header status keep) [] calls
user_controlled-message_of status keep request_id calls wscb =
    run-message_of wscb calls (create_user_response status keep request_id) []
      (record { open_connection = refl; inside = refl; laid_out = refl })
