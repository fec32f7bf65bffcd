-- ===== src/Ask/Shrink/Kept.antt =====
-- What FitInputCopy returns.
use jev_routing.Prelude.{
  ℕ, ◌<◌, ◌≡◌, refl, sym, ap, ◌∙◌, ◌⊎◌, inl, inr, Bool, true, false, List, [], ◌∷◌, ◌++◌, ltb, leb,
  if◌then◌else◌, length, take, append_assoc, append-nil, Bool-cases, arith,
}
use jev_routing.Text.{Str}
use jev_routing.Text.Runes.{runes, concat-runes}
use jev_routing.Json.{Json, null, boolean, number, string, array, object}
use jev_routing.Ask.{AskQuestion}
use jev_routing.Ask.Shrink.{
  input_budget, Marshaller, joint_tokens, shrink_strings, fill, cut_runes, within_budget,
  shrink_string, shrink_loop, shrink_any, fit_input_copy,
}
use jev_routing.Ask.Shrink.Masked.{mask, mask-fill, strings-fill}

-- Each string is the front of the one that it stands for, cut between characters.
unfoldable pub CutAll : List Str → List Str → Type 0
CutAll [] [] = Unit
CutAll (s ∷ ss) (t ∷ ts) = ((n : ℕ) × (t ≡ cut_runes (runes s) n)) × CutAll ss ts
CutAll _ _ = ⊥

take-all : (rs : List Str) → take (length rs) rs ≡ rs
take-all [] = refl
take-all (r ∷ rs) = ap (λ x. r ∷ x) (take-all rs)

uncut : (s : Str) → s ≡ cut_runes (runes s) (length (runes s))
unfolding cut_runes
uncut s = rw (take-all (runes s)) (sym (concat-runes s))

CutAll-refl : (ss : List Str) → CutAll ss ss
unfolding CutAll
CutAll-refl [] = tt
CutAll-refl (s ∷ ss) = ((length (runes s), uncut s), CutAll-refl ss)

length-CutAll : (ss ts : List Str) → CutAll ss ts → length ts ≡ length ss
unfolding CutAll
length-CutAll [] [] c = refl
length-CutAll [] (t ∷ ts) c = absurd c
length-CutAll (s ∷ ss) [] c = absurd c
length-CutAll (s ∷ ss) (t ∷ ts) (n, c) = omega (arith, length-CutAll ss ts c)

module _ (m : Marshaller) (qs : List AskQuestion) (root : Json) where
  shrink_string-cut :
      (front : List Str) (s : Str) (back : List Str)
      → (n : ℕ) × (shrink_string m qs root front s back ≡ cut_runes (runes s) n)
  unfolding shrink_string
  shrink_string-cut front s back = (_, refl)

  shrink_loop-CutAll :
      (front back : List Str)
      → (ts : List Str) × (shrink_loop m qs root front back ≡ front ++ ts) × CutAll back ts
  unfolding shrink_loop CutAll
  shrink_loop-CutAll front [] = ([], sym (append-nil front), CutAll-refl [])
  shrink_loop-CutAll front (s ∷ back) =
      elim (Bool-cases (within_budget m qs root (front ++ (s ∷ back)))) [
        | inl fits ↦ rw fits (s ∷ back, refl, CutAll-refl (s ∷ back))
        | inr over ↦
            let cut = shrink_string m qs root front s back in
            let (ts, e, c) = shrink_loop-CutAll (front ++ (cut ∷ [])) back in
            rw over
              (cut ∷ ts, e ∙ append_assoc front (cut ∷ []) ts, (shrink_string-cut front s back, c))
      ]

-- All but the strings that may be cut is the same, and each of those is a front of what it was.
unfoldable pub Trims : Json → Json → Type 0
Trims state out = (mask out ≡ mask state) × CutAll (shrink_strings state) (shrink_strings out)

Trims-refl : (state : Json) → Trims state state
unfolding Trims
Trims-refl state = (refl, CutAll-refl (shrink_strings state))

if-Trims :
    (state : Json) (b : Bool) (x y : Json)
    → Trims state x
    → Trims state y
    → Trims state (if b then x else y)
if-Trims state true x y f g = f
if-Trims state false x y f g = g

fill-Trims :
    (state : Json) (ts : List Str) → CutAll (shrink_strings state) ts → Trims state (fill state ts)
unfolding Trims
fill-Trims state ts c =
    let n = length-CutAll (shrink_strings state) ts c in
    let e : shrink_strings (fill state ts) ≡ ts =
      strings-fill state ts (omega (arith, n)) ∙ (rw (sym n) (take-all ts)) in
    (mask-fill state ts, rw e c)

shrink_any-Trims :
    (m : Marshaller) (qs : List AskQuestion) (state : Json) → Trims state (shrink_any m qs state)
unfolding shrink_any
shrink_any-Trims m qs null = Trims-refl null
shrink_any-Trims m qs (boolean b) = Trims-refl (boolean b)
shrink_any-Trims m qs (number n e) = Trims-refl (number n e)
shrink_any-Trims m qs (string s) = Trims-refl (string s)
shrink_any-Trims m qs (array xs) = Trims-refl (array xs)
shrink_any-Trims m qs (object ms) =
    let (ts, e, c) = shrink_loop-CutAll m qs (object ms) [] (shrink_strings (object ms)) in
    if-Trims (object ms) (leb (joint_tokens m qs (object ms)) input_budget) _ _
      (Trims-refl (object ms)) (rw e (fill-Trims (object ms) ts c))

-- FitInputCopy changes nothing of a state but strings that are not protected, which it cuts between
-- characters; it reports ErrOverBudget exactly when what it returns is over the budget, and it
-- changes nothing at all where the state is within it.
pub fit_input_copy-Trims :
    (m : Marshaller) (qs : List AskQuestion) (state : Json)
    → let f = fit_input_copy m qs state in
      Trims state f.state
      × (f.over ≡ ltb input_budget (joint_tokens m qs f.state))
      × ((f.state ≡ state) ⊎ (input_budget < joint_tokens m qs state))
unfolding fit_input_copy
fit_input_copy-Trims m qs state = elim (Bool-cases (leb (joint_tokens m qs state) input_budget)) [
  | inl small ↦ rw small (Trims-refl state, ground arith, inl refl)
  | inr large ↦ rw large (shrink_any-Trims m qs state, ground arith, inr (ground arith))
]
