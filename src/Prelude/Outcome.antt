-- ===== src/Prelude/Outcome.antt =====
-- What a call of C++ code comes to, and the monad of calls on a state. The state of a call that
-- throws is what the code had made of it by then.
use mathlib.Core.Path.{◌≡◌, refl}

-- `undefined` is undefined behaviour, such as a write past the end of an array; `unfinished` says
-- that the fuel of a loop ran out.
pub data Outcome {ℓ} (A : Type ℓ) : Type ℓ where
  ok : A → Outcome A
  throws : Outcome A
  undefined : Outcome A
  unfinished : Outcome A

abbrev pub M : Type 0 → Type 0 → Type 0
M S A = S → Outcome A × S

abbrev pub continue : {S A B : Type 0} → (A → M S B) → Outcome A → M S B
continue f (ok a) s = f a s
continue f throws s = (throws, s)
continue f undefined s = (undefined, s)
continue f unfinished s = (unfinished, s)

infixl 5 ◌>>=◌ ◌>>◌
abbrev pub ◌>>=◌ : {S A B : Type 0} → M S A → (A → M S B) → M S B
◌>>=◌ m f s = continue f (m s).0 (m s).1

abbrev pub ◌>>◌ : {S B : Type 0} → M S (Unit {0}) → M S B → M S B
m >> k = m >>= λ _. k

abbrev pub give : {S A : Type 0} → A → M S A
give a s = (ok a, s)

abbrev pub raise : {S A : Type 0} → Outcome A → M S A
raise r s = (r, s)

abbrev pub lift : {S A : Type 0} → Outcome A → M S A
lift r s = (r, s)

continue-eq-ok :
    {S A B : Type 0} (f : A → M S B) (r : Outcome A) (s : S) {b : B}
    → (continue f r s).0 ≡ ok b
    → (a : A) × (r ≡ ok a) × ((f a s).0 ≡ ok b)
continue-eq-ok f (ok a) s h = (a, refl, h)
continue-eq-ok f throws s h = cc
continue-eq-ok f undefined s h = cc
continue-eq-ok f unfinished s h = cc

-- Inversion of a bind that returns.
pub >>=-eq-ok :
    {S A B : Type 0} (m : M S A) (f : A → M S B) (s : S) {b : B}
    → ((m >>= f) s).0 ≡ ok b
    → (a : A) × ((m s).0 ≡ ok a) × ((f a (m s).1).0 ≡ ok b)
>>=-eq-ok m f s h = continue-eq-ok f (m s).0 (m s).1 h
