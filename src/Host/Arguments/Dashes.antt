-- ===== src/Host/Arguments/Dashes.antt =====
-- What CommandArgs does with the arguments behind `--`.
use jev_routing.Prelude.{
  ◌≡◌, ap, Bool, true, false, ◌&&◌, List, [], ◌∷◌, ◌++◌, ltb, if◌then◌else◌, length, All,
  append_assoc, Bool-cases, ◌⊎◌, inl, inr,
}
use jev_routing.Text.{Str, lit, str_eq, has_prefix}
use jev_routing.Text.Laws.{str_eq_refl}
use jev_routing.Host.{codex}
use jev_routing.Host.Arguments.{
  dashes, child_args, trim_prefix, is_config, Sorted, add_config, add_rest, sort_one, sort_args,
  command_args,
}

abbrev pub NoDashes : List Str → Type 0
NoDashes xs = All (λ x. str_eq x dashes ≡ false) xs

-- `tail` ends the arguments that are no overrides.
abbrev Ends : List Str → Sorted → Type 0
Ends tail s = (front : List Str) × (s.rest ≡ front ++ tail)

add_config-Ends :
    (c : Str) (tail : List Str) (s : Sorted) → Ends tail s → Ends tail (add_config c s)
add_config-Ends c tail s e = e

add_rest-Ends :
    (arg : Str) (tail : List Str) (s : Sorted) → Ends tail s → Ends tail (add_rest arg s)
add_rest-Ends arg tail s (front, e) = (arg ∷ front, ap (◌∷◌ arg) e)

sort_one-Ends :
    (arg : Str) (tail : List Str) (s : Sorted) → Ends tail s → Ends tail (sort_one arg s)
unfolding sort_one
sort_one-Ends arg tail s e = elim (Bool-cases (has_prefix arg (lit "--config="))) [
  | inl long ↦ rw long e
  | inr other ↦ rw other (short (Bool-cases (has_prefix arg (lit "-c") && ltb 2 (length arg))))
]
  where
    short :
        (has_prefix arg (lit "-c") && ltb 2 (length arg) ≡ true)
          ⊎ (has_prefix arg (lit "-c") && ltb 2 (length arg) ≡ false)
        → Ends tail (
            if has_prefix arg (lit "-c") && ltb 2 (length arg)
            then add_config (trim_prefix (trim_prefix arg (lit "-c")) (lit "=")) s
            else add_rest arg s)
    short (inl glued) = rw glued e
    short (inr plain) = rw plain (add_rest-Ends arg tail s e)

sort_args-dashes : (ys : List Str) → (sort_args (dashes ∷ ys)).rest ≡ dashes ∷ ys
unfolding sort_args
sort_args-dashes [] = rw (str_eq_refl dashes)
sort_args-dashes (y ∷ ys) = rw (str_eq_refl dashes)

choose_config :
    (b : Bool) (c arg : Str) (tail : List Str) (behind later : Sorted)
    → Ends tail behind
    → Ends tail later
    → Ends tail (if b then add_config c behind else sort_one arg later)
choose_config true c arg tail behind later e f = e
choose_config false c arg tail behind later e f = sort_one-Ends arg tail later f

sort_args-Ends :
    (xs ys : List Str) → NoDashes xs → Ends (dashes ∷ ys) (sort_args (xs ++ (dashes ∷ ys)))
unfolding sort_args
sort_args-Ends [] ys n = ([], sort_args-dashes ys)
sort_args-Ends (x ∷ []) ys n = elim (Bool-cases (is_config x)) [
  | inl flag ↦
      rw (n.0, str_eq_refl dashes, flag)
        (sort_one-Ends x (dashes ∷ ys) (sort_args (dashes ∷ ys)) ([], sort_args-dashes ys))
  | inr plain ↦
      rw (n.0, plain)
        (sort_one-Ends x (dashes ∷ ys) (sort_args (dashes ∷ ys)) ([], sort_args-dashes ys))
]
sort_args-Ends (x ∷ y ∷ xs) ys n =
    rw (n.0, n.1.0)
      (choose_config (is_config x && true) y x (dashes ∷ ys) (sort_args (xs ++ (dashes ∷ ys)))
        (sort_args (y ∷ (xs ++ (dashes ∷ ys)))) (sort_args-Ends xs ys n.1.1)
        (sort_args-Ends (y ∷ xs) ys n.1))

-- Codex gets the first `--` of its arguments, and all arguments behind it, unchanged and at the
-- end, also where `-c` or `--config` stands in front of it.
command_args-dashes :
    (quote : Str → Str) (listen : Str) (xs ys : List Str)
    → NoDashes xs
    → (front : List Str) × (command_args quote codex listen (xs ++ (dashes ∷ ys))
        ≡ front ++ (dashes ∷ ys))
unfolding command_args
command_args-dashes quote listen xs ys n =
    let args = xs ++ (dashes ∷ ys) in
    let (front, e) = sort_args-Ends xs ys n in
    let a = (sort_args args).configs in
    let b = child_args quote codex listen in
    (a ++ (b ++ front), rw e (rw (append_assoc, append_assoc)))
