-- ===== src/Coordinator/Refusing.antt =====
-- The exceptions of web/restinio/restinio/impl/response_coordinator.hpp.
use native.Mathlib.Decide.{dec_lt}
use prj.Prelude.{
  ℕ, ◌-◌, ◌≤◌, ◌<◌, ◌≡◌, ◌≢◌, ◌↔◌, refl, ap, sym, ◌∙◌, ◌⊎◌, inl, inr, Bool, true, false, none, some,
  List, arith, Bool-cases, if_true, if_false, get_elem?,
}
use prj.Prelude.Outcome.{Outcome, ok, throws, undefined, unfinished}
use prj.Contexts.{WriteGroup, OutputFlags, Context, get_by_req_id}
use prj.Contexts.Ring.{slot}
use prj.Coordinator.{Coordinator, append_to, append_response}
use prj.Coordinator.Order.{
  IsCoordinator, Finds, some_inj, ctx_inj, unknown, context_of, append_response-open,
  append_to-some,
}

-- A response to this request is complete but for what is still to be given out.
abbrev pub IsFinal : Coordinator → ℕ → Type 0
IsFinal c id =
    (groups : List WriteGroup) × (flags : OutputFlags) × Finds c id groups flags
    × (flags.final_parts ≡ true)

refused-unknown :
    (id : ℕ) (flags : OutputFlags) (wg : WriteGroup) (c : Coordinator)
    → c.closed ≡ false
    → get_by_req_id id c.context_table ≡ ok none
    → append_response id flags wg c ≡ (throws, c)
unfolding append_response
refused-unknown id flags wg c open_ missing =
    let step : append_response id flags wg c ≡ (elim (get_by_req_id id c.context_table) [
      | ok (some i) ↦ append_to i flags wg c
      | ok none ↦ (throws, c)
      | throws ↦ (throws, c)
      | undefined ↦ (undefined, c)
      | unfinished ↦ (unfinished, c)
    ]) =
      if_false c.closed (throws, c) _ open_ in
    step ∙ rw missing refl

refused-final :
    (index : ℕ) (flags : OutputFlags) (wg : WriteGroup) (c : Coordinator) (ctx : Context)
    → get_elem? c.context_table.contexts index ≡ some ctx
    → ctx.output_flags.final_parts ≡ true
    → append_to index flags wg c ≡ (throws, c)
unfolding append_to
refused-final index flags wg c ctx at final = rw (append_to, at, final) refl

refused-closed :
    (id : ℕ) (flags : OutputFlags) (wg : WriteGroup) (c : Coordinator)
    → c.closed ≡ true
    → append_response id flags wg c ≡ (throws, c)
unfolding append_response
refused-closed id flags wg c e = if_true c.closed _ _ e

returned : (r : Outcome (Unit {0})) → r ≡ throws → r ≢ ok tt
returned r h e = let k : ◌≡◌ {A = Outcome (Unit {0})} throws (ok tt) = sym h ∙ e in cc

both : (b : Bool) → b ≡ true → b ≢ false
both b t f = let k : ◌≡◌ {A = Bool} true false = sym t ∙ f in cc

-- For an open request of a coordinator that is not closed.
open_iff :
    (c : Coordinator) (base id : ℕ) (flags : OutputFlags) (wg : WriteGroup)
    → IsCoordinator c base
    → c.closed ≡ false
    → base ≤ id
    → id < c.request_id_counter
    → ((append_response id flags wg c).0 ≡ throws)
      ↔ ((c.closed ≡ true) ⊎ ((id < base) ⊎ ((c.request_id_counter ≤ id) ⊎ IsFinal c id)))
open_iff c base id flags wg v open_ ge lt =
    let (ctx, found, at, is) = context_of c base v id ge lt in
    let place : ℕ = slot c.context_table (id - base) in
    let start = append_response-open id place flags wg c open_ found in
    elim (Bool-cases ctx.output_flags.final_parts) [
      | inl t ↦ (
        λ h. inr (
            inr (
              inr (
                ctx.write_groups,
                ctx.output_flags,
                record {
                  index = place;
                  ctx = ctx;
                  found = found;
                  at = at;
                  same_groups = refl;
                  same_flags = refl;
                },
                t,
              ))),
        λ h. ap (λ r. r.0) (start ∙ refused-final place flags wg c ctx at t),
      )
      | inr f ↦ (
        λ h.
            absurd
              (returned _ h (ap (λ r. r.0) (start ∙ append_to-some place flags wg c ctx at f))),
        λ h. elim h [
          | inl t ↦ absurd (both c.closed t open_)
          | inr (inl early) ↦ absurd (omega arith)
          | inr (inr (inl late)) ↦ absurd (omega arith)
          | inr (inr (inr (groups, fl, x, final))) ↦
              let same : x.ctx ≡ ctx = ctx_inj _ _ (
                sym x.at
                ∙ (ap (get_elem? c.context_table.contexts) (some_inj _ _ (sym x.found ∙ found))
                    ∙ at)) in
              let t : ctx.output_flags.final_parts ≡ true =
                sym (ap (λ (y : Context). y.output_flags.final_parts) same)
                ∙ (ap (λ (y : OutputFlags). y.final_parts) x.same_flags ∙ final) in
              absurd (both ctx.output_flags.final_parts t f)
        ],
      )
    ]

-- A part of a response is refused exactly if the coordinator is closed, if the request is not open, or if
-- its response has had its final part.
pub append_response-throws_iff :
    (c : Coordinator) (base id : ℕ) (flags : OutputFlags) (wg : WriteGroup)
    → IsCoordinator c base
    → ((append_response id flags wg c).0 ≡ throws)
      ↔ ((c.closed ≡ true) ⊎ ((id < base) ⊎ ((c.request_id_counter ≤ id) ⊎ IsFinal c id)))
append_response-throws_iff c base id flags wg v = elim (Bool-cases c.closed) [
  | inl t ↦ (λ h. inl t, λ h. ap (λ r. r.0) (refused-closed id flags wg c t))
  | inr open_ ↦ elim (dec_lt id base) [
    | yes early ↦ (
      λ h. inr (inl early),
      λ h.
          ap (λ r. r.0)
            (refused-unknown id flags wg c open_
              (unknown c.context_table base v.table id (inl early))),
    )
    | no ge ↦ elim (dec_lt id c.request_id_counter) [
      | no late ↦ (
        λ h. inr (inr (inl (omega arith))),
        λ h.
            ap (λ r. r.0)
              (refused-unknown id flags wg c open_
                (unknown c.context_table base v.table id (inr (let k = v.counter in omega arith)))),
      )
      | yes lt ↦ open_iff c base id flags wg v open_ (omega arith) lt
    ]
  ]
]
