-- ===== src/Headers/Caseless/Equivalence.antt =====
-- Equality but for the case of letters is an equivalence.
use prj.Prelude.{◌≡◌, refl, sym, ◌∙◌, ◌↔◌, Bool, true, false, Bytes}
use prj.Headers.Caseless.{is_equal_caseless}
use prj.Headers.Caseless.Lowered.{is_equal_caseless_iff}

pub Bool-ext : (a b : Bool) → (a ≡ true) ↔ (b ≡ true) → a ≡ b
Bool-ext true b h = sym (h.0 refl)
Bool-ext false true h = h.1 refl
Bool-ext false false h = refl

is_equal_caseless_self : (a : Bytes) → is_equal_caseless a a ≡ true
is_equal_caseless_self a = (is_equal_caseless_iff a a).1 refl

is_equal_caseless_comm : (a b : Bytes) → is_equal_caseless a b ≡ is_equal_caseless b a
is_equal_caseless_comm a b = Bool-ext _ _ (
  λ h. (is_equal_caseless_iff b a).1 (sym ((is_equal_caseless_iff a b).0 h)),
  λ h. (is_equal_caseless_iff a b).1 (sym ((is_equal_caseless_iff b a).0 h)),
)

pub is_equal_caseless_right :
    (a b c : Bytes) → is_equal_caseless b c ≡ true → is_equal_caseless a b ≡ is_equal_caseless a c
is_equal_caseless_right a b c h =
    let bc = (is_equal_caseless_iff b c).0 h in
    Bool-ext _ _ (
      λ k. (is_equal_caseless_iff a c).1 ((is_equal_caseless_iff a b).0 k ∙ bc),
      λ k. (is_equal_caseless_iff a b).1 ((is_equal_caseless_iff a c).0 k ∙ sym bc),
    )

pub is_equal_caseless_left :
    (a b c : Bytes) → is_equal_caseless a b ≡ true → is_equal_caseless a c ≡ is_equal_caseless b c
is_equal_caseless_left a b c h =
    is_equal_caseless_comm a c ∙ is_equal_caseless_right c a b h ∙ is_equal_caseless_comm c b
