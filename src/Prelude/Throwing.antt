-- ===== src/Prelude/Throwing.antt =====
-- `do` blocks over code that throws and keeps no state.
use mathlib.Core.Path.{◌≡◌, refl}
use prj.Prelude.Outcome.{Outcome, ok, throws, undefined, unfinished}

infixl 5 ◌>>=◌ ◌>>◌
abbrev pub ◌>>=◌ {ℓ κ} : {A : Type ℓ} {B : Type κ} → Outcome A → (A → Outcome B) → Outcome B
ok value >>= next = next value
throws >>= next = throws
undefined >>= next = undefined
unfinished >>= next = unfinished

abbrev pub ◌>>◌ {ℓ} : {B : Type ℓ} → Outcome (Unit {0}) → Outcome B → Outcome B
ok _ >> after = after
throws >> after = throws
undefined >> after = undefined
unfinished >> after = unfinished

-- Inversion of a bind that returns.
pub >>=-eq-ok {ℓ κ} :
    {A : Type ℓ} {B : Type κ} (r : Outcome A) (next : A → Outcome B) {result : B}
    → (r >>= next) ≡ ok result
    → (value : A) × (r ≡ ok value) × (next value ≡ ok result)
>>=-eq-ok (ok value) next e = (value, refl, e)
>>=-eq-ok throws next e = cc
>>=-eq-ok undefined next e = cc
>>=-eq-ok unfinished next e = cc
