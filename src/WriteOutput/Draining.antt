-- ===== src/WriteOutput/Draining.antt =====
-- The loop of write operations over a group, as web/restinio/restinio/impl/write_group_output_ctx.hpp
-- describes it.
use prj.Prelude.{
  ltb→lt, ltb→le, ℕ, zero, suc, ◌+◌, ◌-◌, ◌<◌, ◌≤◌, ◌≡◌, refl, sym, ap, ◌∙◌, inl, inr, Bool, true,
  false, Option, none, some, List, [], ◌∷◌, ◌++◌, arith, Bytes, ltb, length, length-take,
  length-drop, take, drop, All, Bool-cases,
}
use prj.Contexts.{WriteGroup}
use prj.WriteOutput.{OutputCtx, extract_from, start_next_write_group}

drain_on :
    (OutputCtx → List (List Bytes) × Bool)
    → Option (List Bytes) × OutputCtx
    → List (List Bytes) × Bool
drain_on loop (none, out) = ([], true)
drain_on loop (some bufs, out) = (bufs ∷ (loop out).0, (loop out).1)

-- The write operations of the loop, one after the other, and whether it came to its end.
pub drain : ℕ → ℕ → WriteGroup → OutputCtx → List (List Bytes) × Bool
unfolding drain_on
drain zero max_iov_len g out = ([], false)
drain (suc fuel) max_iov_len g out =
    drain_on (drain fuel max_iov_len g) (extract_from max_iov_len g out)

abbrev pub concat : List (List Bytes) → List Bytes
concat [] = []
concat (op ∷ ops) = op ++ concat ops

drop-nil : (n : ℕ) → ◌≡◌ {A = List Bytes} (drop n []) []
drop-nil zero = refl
drop-nil (suc n) = refl

pub drop-drop : (n k : ℕ) (xs : List Bytes) → drop k (drop n xs) ≡ drop (n + k) xs
drop-drop zero k xs = ap (λ m. drop m xs) (omega arith)
drop-drop (suc n) k [] = drop-nil k ∙ sym (drop-nil (suc n + k))
drop-drop (suc n) k (x ∷ xs) =
    let shifted : suc (n + k) ≡ suc n + k = omega arith in
    drop-drop n k xs ∙ ap (λ m. drop m (x ∷ xs)) shifted

pub take-drop_rest : (m : ℕ) (xs : List Bytes) → take m xs ++ drop (length (take m xs)) xs ≡ xs
take-drop_rest zero xs = refl
take-drop_rest (suc m) [] = refl
take-drop_rest (suc m) (x ∷ xs) = ap (◌∷◌ x) (take-drop_rest m xs)

pub drop_all : (n : ℕ) (xs : List Bytes) → length xs ≤ n → [] ≡ drop n xs
drop_all zero [] h = refl
drop_all zero (x ∷ xs) h = absurd (omega arith)
drop_all (suc n) [] h = refl
drop_all (suc n) (x ∷ xs) h = drop_all n xs (omega arith)

-- An operation takes at least one buffer, and no more than it may.
abbrev pub IsBatch : ℕ → List Bytes → Type 0
IsBatch max_iov_len op = (0 < length op) × (length op ≤ max_iov_len)

module _ (max_iov_len : ℕ) (g : WriteGroup) (room : 0 < max_iov_len) where
  drain-items :
      (fuel : ℕ) (out : OutputCtx)
      → length g.items - out.next_item < fuel
      → (concat (drain fuel max_iov_len g out).0 ≡ drop out.next_item g.items)
        × All (IsBatch max_iov_len) (drain fuel max_iov_len g out).0
        × ((drain fuel max_iov_len g out).1 ≡ true)
  unfolding drain extract_from
  drain-items zero out less = absurd (omega arith)
  drain-items (suc fuel) out less = elim (Bool-cases (ltb out.next_item (length g.items))) [
    | inl e ↦
        let bufs = take max_iov_len (drop out.next_item g.items) in
        let size = length-take max_iov_len (drop out.next_item g.items) in
        let left = length-drop out.next_item g.items in
        let before = ltb→lt _ _ e in
        let (same, batches, ended) =
          drain-items fuel (record out { next_item = out.next_item + length bufs }) (omega arith) in
        rw e (
          ap (λ t. bufs ++ t) (same ∙ sym (drop-drop out.next_item (length bufs) g.items))
              ∙ take-drop_rest max_iov_len (drop out.next_item g.items),
          ((omega arith, omega arith), batches),
          ended,
        )
    | inr e ↦ rw e (drop_all out.next_item g.items (ltb→le _ _ e), tt, refl)
  ]

-- The loop over a group that has been started writes all its items in order, in operations that take at
-- least one buffer and no more than they may, and comes to its end in as many rounds as the group has
-- items and one more.
pub drain-start :
    (max_iov_len : ℕ) (g : WriteGroup) (out : OutputCtx)
    → 0 < max_iov_len
    → out.next_item ≡ 0
    → let d = drain (suc (length g.items)) max_iov_len g (start_next_write_group g out) in
      (concat d.0 ≡ g.items) × All (IsBatch max_iov_len) d.0 × (d.1 ≡ true)
drain-start max_iov_len g out room start =
    let (same, batches, ended) =
      drain-items max_iov_len g room (suc (length g.items)) (start_next_write_group g out)
        (omega arith) in
    (same ∙ ap (λ n. drop n g.items) start, batches, ended)
