-- ===== src/Headers/Caseless/Lowered.antt =====
-- What `is_equal_caseless` of web/restinio/restinio/impl/string_caseless_compare.hpp decides.
use prj.Prelude.{
  ℕ, zero, suc, ◌+◌, ◌<◌, ◌≡◌, refl, sym, ap, ◌∙◌, ◌↔◌, inl, inr, true, false, List, [], ◌∷◌, ◌&&◌,
  map, arith, Bytes, leb, get_elem?, some, ◌==◌, ==_iff, if◌then◌else◌, length, str_eq, str_eq_iff,
  Bool-cases,
}
use prj.Headers.Caseless.{to_lower_lut, to_lower_case, equal_caseless, is_equal_caseless}

-- The letters of the alphabet in lower case, and every other byte as it is.
abbrev pub lowered : ℕ → ℕ
lowered c = if leb 65 c && leb c 90 then c + 32 else c

-- The lower case of so many bytes from this one on.
lowered_from : ℕ → ℕ → Bytes
lowered_from start zero = []
lowered_from start (suc size) = lowered start ∷ lowered_from (suc start) size

get-lowered_from :
    (start size i : ℕ)
    → i < size
    → get_elem? (lowered_from start size) i ≡ some (lowered (start + i))
unfolding lowered_from
get-lowered_from start zero i h = absurd (omega arith)
get-lowered_from start (suc size) zero h =
    let same : start ≡ start + 0 = omega arith in ap (λ c. some (lowered c)) same
get-lowered_from start (suc size) (suc i) h =
    let same : suc start + i ≡ start + suc i = omega arith in
    get-lowered_from (suc start) size i (omega arith) ∙ ap (λ c. some (lowered c)) same

to_lower_lut-lowered : to_lower_lut ≡ lowered_from 0 256
unfolding lowered_from to_lower_lut
to_lower_lut-lowered = refl

to_lower_case-eq-lowered : (c : ℕ) → c < 256 → to_lower_case c ≡ lowered c
unfolding to_lower_case
to_lower_case-eq-lowered c h =
    let plain : 0 + c ≡ c = omega arith in
    let entry : get_elem? to_lower_lut c ≡ some (lowered c) =
      ap (λ table. get_elem? table c) to_lower_lut-lowered
      ∙ get-lowered_from 0 256 c h
      ∙ ap (λ b. some (lowered b)) plain in
    rw entry refl

length-map {ℓ κ} :
    {A : Type ℓ} {B : Type κ} (f : A → B) (xs : List A) → length (map f xs) ≡ length xs
length-map f [] = refl
length-map f (x ∷ xs) = ap suc (length-map f xs)

pub equal_caseless-eq-str_eq :
    (a b : Bytes)
    → length a ≡ length b
    → equal_caseless (length a) a b ≡ str_eq (map to_lower_case a) (map to_lower_case b)
unfolding equal_caseless str_eq
equal_caseless-eq-str_eq [] [] h = refl
equal_caseless-eq-str_eq [] (y ∷ b) h = absurd (omega arith)
equal_caseless-eq-str_eq (x ∷ a) [] h = absurd (omega arith)
equal_caseless-eq-str_eq (x ∷ a) (y ∷ b) h =
    ap (λ r. (to_lower_case x == to_lower_case y) && r) (equal_caseless-eq-str_eq a b (omega arith))

-- At names of one size, the loop tells whether they agree but for the case of their letters.
pub equal_caseless_iff :
    (a b : Bytes)
    → length a ≡ length b
    → (equal_caseless (length a) a b ≡ true) ↔ (map to_lower_case a ≡ map to_lower_case b)
equal_caseless_iff a b h = rw (equal_caseless-eq-str_eq a b h) (str_eq_iff _ _)

pub same_length : (a b : Bytes) → map to_lower_case a ≡ map to_lower_case b → length a ≡ length b
same_length a b h = sym (length-map to_lower_case a) ∙ ap length h ∙ length-map to_lower_case b

pub is_equal_caseless_iff :
    (a b : Bytes) → (is_equal_caseless a b ≡ true) ↔ (map to_lower_case a ≡ map to_lower_case b)
unfolding is_equal_caseless
is_equal_caseless_iff a b = elim (Bool-cases (length a == length b)) [
  | inl e ↦ rw e (equal_caseless_iff a b ((==_iff _ _).0 e))
  | inr n ↦ rw n ((λ h. cc), (λ h. n_contra a b n (same_length a b h)))
]
  where
    n_contra : (a b : Bytes) → (length a == length b) ≡ false → length a ≡ length b → false ≡ true
    n_contra a b n e = sym n ∙ (==_iff (length a) (length b)).1 e
