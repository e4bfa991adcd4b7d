-- ===== src/Contexts/Ring.antt =====
-- Places in the ring of `response_context_table_t` in
-- web/restinio/restinio/impl/response_coordinator.hpp.
use native.Mathlib.Decide.{dec_lt}
use native.Mathlib.Nat.{mod-eq_of_lt, mod-eq-sub-mod, mod-lt}
use prj.Prelude.{
  ℕ, ◌+◌, ◌-◌, ◌%◌, ◌≤◌, ◌<◌, ◌≡◌, ap, ◌∙◌, ◌≢◌, ◌⊎◌, inl, inr, some, arith, length, get_elem?, set,
  length-set, get_elem?-set_self, get_elem?-set_ne,
}
use prj.Contexts.{Context, ContextTable}

-- The place of the context that comes `i` after the first.
abbrev pub slot : ContextTable → ℕ → ℕ
slot t i = (t.first_element_index + i) % length t.contexts

wrap :
    (first i n : ℕ)
    → first < n
    → i < n
    → (((first + i) < n) × ((first + i) % n ≡ first + i))
      ⊎ ((n ≤ first + i) × ((first + i) % n ≡ first + i - n))
wrap first i n f h = elim (dec_lt (first + i) n) [
  | yes l ↦ inl (l, mod-eq_of_lt l)
  | no l ↦
      let ge : n ≤ first + i = omega arith in
      let lt : first + i - n < n = omega arith in inr (ge, mod-eq-sub-mod ge ∙ mod-eq_of_lt lt)
]

slot_injective :
    (first i j n : ℕ) → first < n → i < n → j < n → (first + i) % n ≡ (first + j) % n → i ≡ j
slot_injective first i j n f h k e = elim (wrap first i n f h) [
  | inl (a, p) ↦ elim (wrap first j n f k) [
    | inl (b, q) ↦ omega (arith, e, p, q)
    | inr (b, q) ↦ omega (arith, e, p, q)
  ]
  | inr (a, p) ↦ elim (wrap first j n f k) [
    | inl (b, q) ↦ omega (arith, e, p, q)
    | inr (b, q) ↦ omega (arith, e, p, q)
  ]
]

-- The table after a context has been put `k` after the first.
abbrev pub put : ContextTable → ℕ → Context → ContextTable
put t k ctx = record t { contexts = set t.contexts (slot t k) ctx }

module _ (t : ContextTable) (k : ℕ) (ctx : Context) (f : t.first_element_index < length t.contexts)
    (h : k < length t.contexts) where
  put_self : get_elem? (set t.contexts (slot t k) ctx) (slot t k) ≡ some ctx
  put_self = get_elem?-set_self t.contexts (slot t k) ctx (mod-lt _ (omega arith))

  pub put_other :
      (i : ℕ)
      → i < length t.contexts
      → k ≢ i
      → get_elem? (set t.contexts (slot t k) ctx) (slot t i) ≡ get_elem? t.contexts (slot t i)
  put_other i l ne =
      get_elem?-set_ne t.contexts ctx
        (λ e. ne (slot_injective t.first_element_index k i (length t.contexts) f h l e))

  slot-put : (i : ℕ) → slot (put t k ctx) i ≡ slot t i
  slot-put i = ap (λ n. (t.first_element_index + i) % n) (length-set t.contexts (slot t k) ctx)

  pub get-put_self : get_elem? (put t k ctx).contexts (slot (put t k ctx) k) ≡ some ctx
  get-put_self = rw (slot-put k) put_self

  pub get-put_other :
      (i : ℕ)
      → i < length t.contexts
      → k ≢ i
      → get_elem? (put t k ctx).contexts (slot (put t k ctx) i) ≡ get_elem? t.contexts (slot t i)
  get-put_other i l ne = rw (slot-put i) (put_other i l ne)
