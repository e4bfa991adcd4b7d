-- ===== src/Contexts/Table.antt =====
-- `response_context_table_t` of web/restinio/restinio/impl/response_coordinator.hpp as a queue.
use native.Mathlib.Decide.{dec_lt}
use native.Mathlib.Nat.{mod-eq_of_lt, mod-eq-sub-mod}
use prj.Prelude.{
  ℕ, ◌+◌, ◌-◌, ◌%◌, ◌≤◌, ◌<◌, ◌≡◌, refl, ap, sym, subst, ◌∙◌, ◌≢◌, inl, inr, false, some, [], arith,
  ◌==◌, if◌then◌else◌, Bool-cases, length, get_elem?, set, length-set,
}
use prj.Prelude.Outcome.{ok}
use prj.Contexts.{
  Context, reinit, ContextTable, is_full, push_response_context, pop_response_context_nonchecked,
}
use prj.Contexts.Ring.{slot, put, get-put_self, get-put_other}

-- The table holds contexts for `elements_exists` requests from `base` on, in order, and the contexts that
-- stand for no request hold no write groups.
pub record IsTable (t : ContextTable) (base : ℕ) : Type 0 where
  pub first_inside : t.first_element_index < length t.contexts
  pub not_over : t.elements_exists ≤ length t.contexts
  pub ids :
      (i : ℕ)
      → i < t.elements_exists
      → (ctx : Context) × (get_elem? t.contexts (slot t i) ≡ some ctx) × (ctx.request_id ≡ base + i)
  pub free :
      (i : ℕ)
      → t.elements_exists ≤ i
      → i < length t.contexts
      → (ctx : Context) × (get_elem? t.contexts (slot t i) ≡ some ctx) × (ctx.write_groups ≡ [])

-- The table with one more context, for the request with this id.
abbrev pub pushed : ContextTable → ℕ → Context → ContextTable
pushed t req_id ctx =
    let t' : ContextTable = put t t.elements_exists (reinit req_id ctx) in
    record t' { elements_exists = t.elements_exists + 1 }

module _ (t : ContextTable) (base : ℕ) (v : IsTable t base)
    (room : t.elements_exists < length t.contexts) (old : Context)
    (bare : old.write_groups ≡ []) where
  pushed-IsTable : IsTable (pushed t (base + t.elements_exists) old) base
  pushed-IsTable =
      let n : ℕ = t.elements_exists in
      let ctx : Context = reinit (base + n) old in
      let same : length (set t.contexts (slot t n) ctx) ≡ length t.contexts =
        length-set t.contexts (slot t n) ctx in
      record {
        first_inside = subst (λ m. t.first_element_index < m) (sym same) v.first_inside;
        not_over = subst (λ m. n + 1 ≤ m) (sym same) (omega arith);
        ids = λ i l. elim (dec_lt i n) [
          | yes before ↦
              let (c, at, is) = v.ids i before in
              (
                c,
                get-put_other t n ctx v.first_inside room i (omega arith)
                      (λ e. absurd (omega arith))
                    ∙ at,
                is,
              )
          | no after ↦
              let e : n ≡ i = omega arith in
              (
                ctx,
                subst (λ j. get_elem? (put t n ctx).contexts (slot (put t n ctx) j) ≡ some ctx) e
                    (get-put_self t n ctx v.first_inside room),
                ap (λ j. base + j) e,
              )
        ];
        free = λ i le l.
            let inside : i < length t.contexts = subst (λ m. i < m) same l in
            let (c, at, is) = v.free i (omega arith) inside in
            (
              c,
              get-put_other t n ctx v.first_inside room i inside (λ e. absurd (omega arith)) ∙ at,
              is,
            );
      }

-- A push on a table that is not full succeeds and adds the request at the end of the queue.
pub push-IsTable :
    (t : ContextTable) (base : ℕ)
    → IsTable t base
    → t.elements_exists < length t.contexts
    → (old : Context) × (old.write_groups ≡ [])
      × (push_response_context (base + t.elements_exists) t
          ≡ ok (pushed t (base + t.elements_exists) old))
      × IsTable (pushed t (base + t.elements_exists) old) base
unfolding push_response_context
push-IsTable t base v room =
    let (old, at, bare) = v.free t.elements_exists (omega arith) room in
    let open_ : is_full t ≡ false = ground arith in
    (old, bare, rw (push_response_context, open_, at) refl, pushed-IsTable t base v room old bare)

-- The table after a change of one of its contexts.
module _ (t : ContextTable) (base : ℕ) (v : IsTable t base) where
  pub put-IsTable :
      (k : ℕ) (ctx : Context)
      → k < t.elements_exists
      → ctx.request_id ≡ base + k
      → IsTable (put t k ctx) base
  put-IsTable k ctx h named =
      let same : length (set t.contexts (slot t k) ctx) ≡ length t.contexts =
        length-set t.contexts (slot t k) ctx in
      let inside : k < length t.contexts = let o = v.not_over in omega arith in
      record {
        first_inside = subst (λ m. t.first_element_index < m) (sym same) v.first_inside;
        not_over = subst (λ m. t.elements_exists ≤ m) (sym same) v.not_over;
        ids = λ i l. elim (Bool-cases (k == i)) [
          | inl t' ↦
              let e : k ≡ i = ground arith in
              (
                ctx,
                subst (λ j. get_elem? (put t k ctx).contexts (slot (put t k ctx) j) ≡ some ctx) e
                    (get-put_self t k ctx v.first_inside inside),
                subst (λ j. ctx.request_id ≡ base + j) e named,
              )
          | inr f ↦
              let ne : k ≢ i = ground arith in
              let (c, at, is) = v.ids i l in
              (
                c,
                get-put_other t k ctx v.first_inside inside i (let o = v.not_over in omega arith) ne
                    ∙ at,
                is,
              )
        ];
        free = λ i le l.
            let within : i < length t.contexts = subst (λ m. i < m) same l in
            let (c, at, is) = v.free i le within in
            (
              c,
              get-put_other t k ctx v.first_inside inside i within (λ e. absurd (omega arith)) ∙ at,
              is,
            );
      }

  unfoldable pub next_index : ℕ
  next_index =
      if length t.contexts == t.first_element_index + 1 then 0 else t.first_element_index + 1

  pub next_index_lem :
      (next_index < length t.contexts)
      × ((i : ℕ)
          → i < length t.contexts
          → (next_index + i) % length t.contexts
            ≡ (t.first_element_index + (i + 1)) % length t.contexts)
  unfolding next_index
  next_index_lem = elim (Bool-cases (length t.contexts == t.first_element_index + 1)) [
    | inl t' ↦
        let last : length t.contexts ≡ t.first_element_index + 1 = ground arith in
        rw t' (
          (let f = v.first_inside in omega arith),
          λ i l.
              let ge : length t.contexts ≤ t.first_element_index + (i + 1) = omega arith in
              let e : t.first_element_index + (i + 1) - length t.contexts ≡ 0 + i = omega arith in
              sym (mod-eq-sub-mod ge ∙ ap (λ m. m % length t.contexts) e),
        )
    | inr f' ↦
        let more : length t.contexts ≢ t.first_element_index + 1 = ground arith in
        rw f' (
          (let f = v.first_inside in omega arith),
          λ i l. ap (λ m. m % length t.contexts) (omega arith),
        )
  ]

  -- A pop of a context whose groups have all been taken leaves the later requests in their order.
  pub pop-IsTable :
      (ctx : Context)
      → 0 < t.elements_exists
      → get_elem? t.contexts t.first_element_index ≡ some ctx
      → ctx.write_groups ≡ []
      → IsTable (pop_response_context_nonchecked t) (base + 1)
  unfolding next_index
  pop-IsTable ctx some_ at bare =
      let (inside, moved) = next_index_lem in
      record {
        first_inside = inside;
        not_over = let o = v.not_over in omega arith;
        ids = λ i l.
            let within : i < length t.contexts = let o = v.not_over in omega arith in
            let (c, found, is) = v.ids (i + 1) (omega arith) in
            (c, rw (moved i within) found, is ∙ omega arith);
        free = λ i le l. elim (dec_lt (i + 1) (length t.contexts)) [
          | yes within ↦
              let (c, found, is) = v.free (i + 1) (omega arith) within in
              (c, rw (moved i l) found, is)
          | no beyond ↦
              let f = v.first_inside in
              let ge : length t.contexts ≤ t.first_element_index + (i + 1) = omega arith in
              let e : t.first_element_index + (i + 1) - length t.contexts ≡ t.first_element_index =
                omega arith in
              let around : (t.first_element_index + (i + 1)) % length t.contexts
                  ≡ t.first_element_index =
                mod-eq-sub-mod ge ∙ (ap (λ m. m % length t.contexts) e ∙ mod-eq_of_lt f) in
              (ctx, rw (moved i l, around) at, bare)
        ];
      }
