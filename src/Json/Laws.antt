-- ===== src/Json/Laws.antt =====
-- Reading a member that was written, and one beside it.
use jev_routing.Prelude.{refl, ◌≡◌, false, none, some, Bool-cases, inl, inr, arith}
use jev_routing.Text.{Str, str_eq}
use jev_routing.Text.Laws.{str_eq_iff, str_eq_refl}
use jev_routing.Json.{Json, Members, end, member, get, set, remove}

pub get-set : (key : Str) (v : Json) (ms : Members) → get key (set key v ms) ≡ some v
unfolding get set
get-set key v end = rw (str_eq_refl key)
get-set key v (member k w ms) = elim (Bool-cases (str_eq k key)) [
  | inl here ↦ rw here (rw (get, here))
  | inr later ↦ rw later (rw (get, later) (get-set key v ms))
]

pub get-set_other :
    (key other : Str) (v : Json) (ms : Members)
    → str_eq key other ≡ false
    → get other (set key v ms) ≡ get other ms
unfolding get set
get-set_other key other v end h = rw h
get-set_other key other v (member k w ms) h =
    ground (arith, get-set_other key other v ms, str_eq_iff k key)

pub get-remove : (key : Str) (ms : Members) → get key (remove key ms) ≡ none
unfolding get remove
get-remove key end = refl
get-remove key (member k v ms) = elim (Bool-cases (str_eq k key)) [
  | inl here ↦ rw here (get-remove key ms)
  | inr later ↦ rw later (rw (get, later) (get-remove key ms))
]

pub get-remove_other :
    (key other : Str) (ms : Members)
    → str_eq key other ≡ false
    → get other (remove key ms) ≡ get other ms
unfolding get remove
get-remove_other key other end h = refl
get-remove_other key other (member k v ms) h =
    ground (arith, get-remove_other key other ms, str_eq_iff k key)
