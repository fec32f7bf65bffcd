-- ===== src/Text/Laws.antt =====
-- Equality of strings.
use jev_routing.Prelude.{◌≡◌, refl, ◌↔◌, true, ◌∷◌, arith}
use jev_routing.Text.{Str, str_eq}

pub str_eq_iff : (a b : Str) → (str_eq a b ≡ true) ↔ (a ≡ b)
unfolding str_eq
str_eq_iff (x ∷ a) (y ∷ b) = ground (arith, str_eq_iff a b)
str_eq_iff _ _ = ground arith

pub str_eq_refl : (a : Str) → str_eq a a ≡ true
str_eq_refl a = (str_eq_iff a a).1 refl
