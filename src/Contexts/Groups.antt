-- ===== src/Contexts/Groups.antt =====
-- `enqueue_group` of web/restinio/restinio/impl/response_coordinator.hpp.
use prj.Prelude.{
  append-nil, append_assoc, list_laws, ℕ, ◌≡◌, refl, ap, sym, ◌∙◌, Bool, true, false, not, ◌&&◌,
  Option, none, some, List, [], ◌∷◌, ◌++◌, arith, Bytes, ◌==◌, if◌then◌else◌, Bool-cases,
  Option-cases, inl, inr,
}
use prj.Contexts.{WriteGroup, merge, has_notificator, enqueue_group, callbacks}

abbrev pub all_items : List WriteGroup → List Bytes
all_items [] = []
all_items (g ∷ gs) = g.items ++ all_items gs

-- The sizes of the status lines, one for each response header.
abbrev pub status_lines : List WriteGroup → List ℕ
status_lines [] = []
status_lines (g ∷ gs) =
    if g.status_line_size == 0 then status_lines gs else g.status_line_size ∷ status_lines gs

-- What the groups hold before and after.
abbrev Keeps : List WriteGroup → List WriteGroup → WriteGroup → Type 0
Keeps after before wg =
    (all_items after ≡ all_items before ++ wg.items)
    × (callbacks after ≡ callbacks before ++ callbacks (wg ∷ []))
    × (status_lines after ≡ status_lines before ++ status_lines (wg ∷ []))

callbacks-cons :
    (o : Option ℕ) (xs ys zs : List ℕ)
    → xs ≡ ys ++ zs
    → (elim o [ none ↦ xs | some cb ↦ cb ∷ xs ]) ≡ (elim o [ none ↦ ys | some cb ↦ cb ∷ ys ]) ++ zs
callbacks-cons none xs ys zs e = e
callbacks-cons (some cb) xs ys zs e = ap (◌∷◌ cb) e

status_lines-cons :
    (b : Bool) (n : ℕ) (xs ys zs : List ℕ)
    → xs ≡ ys ++ zs
    → (if b then xs else n ∷ xs) ≡ (if b then ys else n ∷ ys) ++ zs
status_lines-cons true n xs ys zs e = e
status_lines-cons false n xs ys zs e = ap (◌∷◌ n) e

cons-Keeps :
    (g : WriteGroup) (after before : List WriteGroup) (wg : WriteGroup)
    → Keeps after before wg
    → Keeps (g ∷ after) (g ∷ before) wg
cons-Keeps g after before wg k = (
  ap (λ l. g.items ++ l) (k.0) ∙ sym (append_assoc g.items (all_items before) wg.items),
  callbacks-cons g.after_write_notificator _ _ _ (k.1),
  status_lines-cons (g.status_line_size == 0) g.status_line_size _ _ _ (k.2),
)

no_notificator : (g : WriteGroup) → has_notificator g ≡ false → g.after_write_notificator ≡ none
no_notificator g h = elim (Option-cases g.after_write_notificator) [
  | inl e ↦ e
  | inr (cb, e) ↦ let k = rw e at h in cc
]

merged-Keeps :
    (g wg : WriteGroup)
    → (not (has_notificator g) && (wg.status_line_size == 0)) ≡ true
    → Keeps (merge g wg ∷ []) (g ∷ []) wg
merged-Keeps g wg h =
    let free : has_notificator g ≡ false = ground arith in
    let bare : (wg.status_line_size == 0) ≡ true = ground arith in
    (simp list_laws, rw (no_notificator g free) refl, rw bare (simp list_laws))

apart-Keeps : (g wg : WriteGroup) → Keeps (g ∷ wg ∷ []) (g ∷ []) wg
apart-Keeps g wg = cons-Keeps g (wg ∷ []) [] wg (append-nil wg.items, refl, refl)

-- Queueing a write group, whether it is merged with the last one or not, keeps all items in order, every
-- callback, and every mark of a status line.
enqueue_group-keeps :
    (wg : WriteGroup) (gs : List WriteGroup)
    → (all_items (enqueue_group wg gs) ≡ all_items gs ++ wg.items)
      × (callbacks (enqueue_group wg gs) ≡ callbacks gs ++ callbacks (wg ∷ []))
      × (status_lines (enqueue_group wg gs) ≡ status_lines gs ++ status_lines (wg ∷ []))
unfolding enqueue_group
enqueue_group-keeps wg [] = (append-nil wg.items, refl, refl)
enqueue_group-keeps wg (g ∷ []) =
    elim (Bool-cases (not (has_notificator g) && (wg.status_line_size == 0))) [
      | inl t ↦ rw t (merged-Keeps g wg t)
      | inr f ↦ rw f (apart-Keeps g wg)
    ]
enqueue_group-keeps wg (g ∷ h ∷ gs) =
    cons-Keeps g (enqueue_group wg (h ∷ gs)) (h ∷ gs) wg (enqueue_group-keeps wg (h ∷ gs))
