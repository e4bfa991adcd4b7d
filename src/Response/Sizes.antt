-- ===== src/Response/Sizes.antt =====
-- The body and the announced length in web/restinio/restinio/message_builders.hpp.
use prj.Prelude.{
  ℕ, suc, ◌≡◌, refl, not, Bool, true, List, [], ◌∷◌, ◌++◌, append-nil, append_assoc, Option, arith,
  Bytes, length, length-append, set, ap, ap₂, sym, ◌∙◌, ltb, take, if◌then◌else◌,
}
use prj.Prelude.Outcome.{ok, throws}
use prj.Headers.Message.{StatusLine, ResponseHeader, should_keep_alive}
use prj.Headers.Text.{create_header_string, add_content_length}
use prj.Response.{
  create_response, Builder, Sent, set_content_length, calculate_status_line_size, set_body,
  append_body, done, reserve_header,
}

-- The bytes of items that are written one after the other.
abbrev pub joined : List Bytes → Bytes
joined [] = []
joined (bytes ∷ items) = bytes ++ joined items

-- The parts stand as the builder keeps them, none yet or the header's place and then data, and their
-- data is this body.
abbrev pub IsLaidOut : List Bytes → Bytes → Type 0
IsLaidOut [] body = body ≡ []
IsLaidOut (header ∷ items) body = joined items ≡ body

pub record HasBody (b : Builder) (body : Bytes) : Type 0 where
  pub laid_out : IsLaidOut b.parts body
  pub sized : b.body_size ≡ length body
  pub open_connection : b.connected ≡ true

pub joined-append : (xs ys : List Bytes) → joined (xs ++ ys) ≡ joined xs ++ joined ys
joined-append [] ys = refl
joined-append (bytes ∷ xs) ys =
    ap (◌++◌ bytes) (joined-append xs ys) ∙ sym (append_assoc bytes (joined xs) (joined ys))

zero_ltb : (n : ℕ) → ltb 0 (suc n) ≡ true
zero_ltb n = ground arith

pub set-IsLaidOut :
    (parts : List Bytes) (body : Bytes)
    → IsLaidOut
        (if ltb 0 (length body)
          then take 1 (reserve_header parts) ++ body ∷ []
          else take 1 (reserve_header parts))
        body
set-IsLaidOut [] [] = refl
set-IsLaidOut [] (c ∷ body) = rw (zero_ltb (length body)) (append-nil (c ∷ body))
set-IsLaidOut (header ∷ parts) [] = refl
set-IsLaidOut (header ∷ parts) (c ∷ body) = rw (zero_ltb (length body)) (append-nil (c ∷ body))

pub append-IsLaidOut :
    (parts : List Bytes) (old body : Bytes)
    → IsLaidOut parts old
    → IsLaidOut
        (if ltb 0 (length body) then reserve_header parts ++ body ∷ [] else reserve_header parts)
        (old ++ body)
append-IsLaidOut [] old [] h = rw h refl
append-IsLaidOut [] old (c ∷ body) h = rw (zero_ltb (length body), h) (append-nil (c ∷ body))
append-IsLaidOut (header ∷ parts) old [] h = h ∙ sym (append-nil old)
append-IsLaidOut (header ∷ parts) old (c ∷ body) h =
    rw (zero_ltb (length body))
      (joined-append parts ((c ∷ body) ∷ []) ∙ ap₂ ◌++◌ h (append-nil (c ∷ body)))

module _ (b : Builder) (body : Bytes) (v : HasBody b body) where
  pub set_body-HasBody : (new : Bytes) → HasBody (set_body new b) new
  unfolding set_body
  set_body-HasBody new = record {
    laid_out = set-IsLaidOut b.parts new;
    sized = refl;
    open_connection = v.open_connection;
  }

  pub append_body-HasBody : (new : Bytes) → HasBody (append_body new b) (body ++ new)
  unfolding append_body
  append_body-HasBody [] = record {
    laid_out = append-IsLaidOut b.parts body [] v.laid_out;
    sized = omega (arith, v.sized, length-append body []);
    open_connection = v.open_connection;
  }
  append_body-HasBody (c ∷ new) = rw (zero_ltb (length new)) (record {
    laid_out = rw (zero_ltb (length new)) at (append-IsLaidOut b.parts body (c ∷ new) v.laid_out);
    sized = omega (arith, v.sized, length-append body (c ∷ new));
    open_connection = v.open_connection;
  })

-- The calls that a handler makes on the body of a response.
pub data BodyCall : Type 0 where
  sets appends : Bytes → BodyCall

pub build : Builder → List BodyCall → Builder
build b [] = b
build b (sets body ∷ calls) = build (set_body body b) calls
build b (appends body ∷ calls) = build (append_body body b) calls

-- What the calls mean: the last body set, with all that has been appended since.
abbrev pub intended : Bytes → List BodyCall → Bytes
intended body [] = body
intended body (sets new ∷ calls) = intended new calls
intended body (appends new ∷ calls) = intended (body ++ new) calls

build-HasBody :
    (b : Builder) (body : Bytes) (calls : List BodyCall)
    → HasBody b body
    → HasBody (build b calls) (intended body calls)
unfolding build
build-HasBody b body [] v = v
build-HasBody b body (sets new ∷ calls) v =
    build-HasBody (set_body new b) new calls (set_body-HasBody b body v new)
build-HasBody b body (appends new ∷ calls) v =
    build-HasBody (append_body new b) (body ++ new) calls (append_body-HasBody b body v new)

-- The header that goes out.
abbrev pub announced : Builder → ResponseHeader
announced b = set_content_length b.body_size b.header

pub laid_out_items :
    (parts : List Bytes) (body header : Bytes)
    → IsLaidOut parts body
    → joined (set (reserve_header parts) 0 header) ≡ header ++ body
laid_out_items [] body header l = ap (◌++◌ header) (sym l)
laid_out_items (place ∷ parts) body header l = ap (◌++◌ header) l

-- What `done()` sends for a builder that holds a body: the text of the header, and then the body.
pub record Sends (wscb : Option ℕ) (b : Builder) (body : Bytes) : Type 0 where
  pub sent : Sent
  pub outcome : (done wscb b).0 ≡ ok sent
  pub written :
      joined sent.group.items ≡ create_header_string (announced b) add_content_length ++ body
  pub length_announced : (announced b).content_length ≡ length body
  pub status_line_size : sent.group.status_line_size ≡ calculate_status_line_size b.header
  pub notificator : sent.group.after_write_notificator ≡ wscb
  pub addressed : sent.request_id ≡ b.request_id
  pub final_parts : sent.flags.final_parts ≡ true
  pub connection_close : sent.flags.connection_close ≡ not (should_keep_alive b.header)
  pub twice : (done wscb (done wscb b).1).0 ≡ throws

pub done-HasBody :
    (wscb : Option ℕ) (b : Builder) (body : Bytes) → HasBody b body → Sends wscb b body
unfolding done
done-HasBody wscb b body v = rw (v.open_connection) (record {
  sent = _;
  outcome = refl;
  written = laid_out_items b.parts body _ v.laid_out;
  length_announced = v.sized;
  status_line_size = refl;
  notificator = refl;
  addressed = refl;
  final_parts = refl;
  connection_close = refl;
  twice = refl;
})

-- After any calls on a new response, `done()` sends the text of the header, which announces the length
-- of the intended body, and then exactly this body, as final parts for its request, with the connection
-- to be closed unless it is kept alive. A second `done()` throws.
pub done-build :
    (status : StatusLine) (request_id : ℕ) (keep : Bool) (calls : List BodyCall) (wscb : Option ℕ)
    → Sends wscb (build (create_response status keep request_id) calls) (intended [] calls)
done-build status request_id keep calls wscb =
    done-HasBody wscb (build (create_response status keep request_id) calls) (intended [] calls) (
      build-HasBody (create_response status keep request_id) [] calls
        (record { laid_out = refl; sized = refl; open_connection = refl }))
