-- ===== src/Steer/Names.antt =====
-- The names of the tools that codexToolsFrom collects.
use jev_routing.Prelude.{
  ◌≡◌, refl, ◌∙◌, inl, inr, Bool, true, false, not, ◌&&◌, Option, none, some, List, [], ◌∷◌, ◌++◌,
  if◌then◌else◌, Bool-cases, arith,
}
use jev_routing.Text.{Str, lit, str_eq, is_blank}
use jev_routing.Text.Laws.{str_eq_iff}
use jev_routing.Json.{
  Json, Elements, Members, null, boolean, number, string, array, object, nil, cons, end, member,
  text_at,
}
use jev_routing.Host.{one_of}
use jev_routing.Steer.{
  SteerTool, Declared, has_name, overwrite, add_named, add_hosted, add_leaf, add_tool, add_nested,
  add_value, add_elements, add_tools, tools_from,
}

unfoldable pub Unique : List SteerTool → Type 0
Unique [] = Unit
Unique (t ∷ ts) = (has_name t.name ts ≡ false) × Unique ts

str_eq_swap : (a b : Str) → str_eq a b ≡ false → str_eq b a ≡ false
str_eq_swap a b h = ground (arith, str_eq_iff a b, str_eq_iff b a)

has_name-append :
    (n : Str) (ts : List SteerTool) (t : SteerTool)
    → has_name n ts ≡ false
    → str_eq t.name n ≡ false
    → has_name n (ts ++ (t ∷ [])) ≡ false
unfolding has_name
has_name-append n [] t h e = rw e
has_name-append n (u ∷ us) t h e = ground (arith, has_name-append n us t)

Unique-append :
    (ts : List SteerTool) (t : SteerTool)
    → Unique ts
    → has_name t.name ts ≡ false
    → Unique (ts ++ (t ∷ []))
unfolding Unique has_name
Unique-append [] t u fresh = (refl, tt)
Unique-append (x ∷ xs) t u fresh =
    let apart : str_eq x.name t.name ≡ false = ground arith in
    let later : has_name t.name xs ≡ false = ground arith in
    (
      has_name-append x.name xs t u.0 (str_eq_swap x.name t.name apart),
      Unique-append xs t u.1 later,
    )

has_name-overwrite :
    (n : Str) (t : SteerTool) (us : List SteerTool) → has_name n (overwrite t us) ≡ has_name n us
unfolding has_name overwrite
has_name-overwrite n t [] = refl
has_name-overwrite n t (u ∷ us) = elim (Bool-cases (str_eq u.name t.name)) [
  | inl same ↦ rw same (rw ((str_eq_iff u.name t.name).0 same) refl)
  | inr other ↦ rw other (rw (has_name-overwrite n t us) refl)
]

overwrite-Unique : (t : SteerTool) (us : List SteerTool) → Unique us → Unique (overwrite t us)
unfolding Unique overwrite
overwrite-Unique t [] u = tt
overwrite-Unique t (x ∷ xs) u = elim (Bool-cases (str_eq x.name t.name)) [
  | inl same ↦ rw same (rw ((str_eq_iff x.name t.name).0 same) at u.0, u.1)
  | inr other ↦ rw other (has_name-overwrite x.name t xs ∙ u.0, overwrite-Unique t xs u.1)
]

abbrev Fine : Declared → Type 0
Fine d = Unique d.tools

add_named-Fine : (t : SteerTool) (d : Declared) → Fine d → Fine (add_named t d)
unfolding add_named
add_named-Fine t d f = elim (Bool-cases (has_name t.name d.tools)) [
  | inl taken ↦ rw taken (overwrite-Unique t d.tools f)
  | inr fresh ↦ rw fresh (Unique-append d.tools t f fresh)
]

add_hosted-Fine : (t : SteerTool) (d : Declared) → Fine d → Fine (add_hosted t d)
unfolding add_hosted
add_hosted-Fine t d f = elim (Bool-cases (has_name t.name d.tools)) [
  | inl taken ↦ rw taken f
  | inr fresh ↦ rw fresh (Unique-append d.tools t f fresh)
]

if-Fine : (b : Bool) (x y : Declared) → Fine x → Fine y → Fine (if b then x else y)
if-Fine true x y f g = f
if-Fine false x y f g = g

add_leaf-Fine :
    (namespace : Option Members) (tool : Members) (d : Declared)
    → Fine d
    → Fine (add_leaf namespace tool d)
unfolding add_leaf
add_leaf-Fine namespace tool d f =
    if-Fine
      (one_of (text_at "type" tool) ("function" ∷ "custom" ∷ [])
        && not (is_blank (text_at "name" tool)))
      _ _ (add_named-Fine _ d f)
      (if-Fine (not (is_blank (text_at "type" tool))) _ _ (add_hosted-Fine _ d f) f)

mutual
  unfolding add_tool

  add_tool-Fine :
      (x : Json) (namespace : Option Members) (d : Declared)
      → Fine d
      → Fine (add_tool x namespace d)
  add_tool-Fine (object tool) namespace d f =
      if-Fine (str_eq (text_at "type" tool) (lit "namespace")) _ _ (add_nested-Fine tool tool d f)
        (add_leaf-Fine namespace tool d f)
  add_tool-Fine null namespace d f = f
  add_tool-Fine (boolean b) namespace d f = f
  add_tool-Fine (number m e) namespace d f = f
  add_tool-Fine (string s) namespace d f = f
  add_tool-Fine (array xs) namespace d f = f

  add_nested-Fine :
      (ms namespace : Members) (d : Declared) → Fine d → Fine (add_nested ms namespace d)
  add_nested-Fine end namespace d f = f
  add_nested-Fine (member key v ms) namespace d f =
      if-Fine (str_eq key (lit "tools")) _ _ (add_value-Fine v namespace d f)
        (add_nested-Fine ms namespace d f)

  add_value-Fine :
      (x : Json) (namespace : Members) (d : Declared) → Fine d → Fine (add_value x namespace d)
  add_value-Fine (array xs) namespace d f = add_elements-Fine xs namespace d f
  add_value-Fine null namespace d f = f
  add_value-Fine (boolean b) namespace d f = f
  add_value-Fine (number m e) namespace d f = f
  add_value-Fine (string s) namespace d f = f
  add_value-Fine (object ms) namespace d f = f

  add_elements-Fine :
      (xs : Elements) (namespace : Members) (d : Declared)
      → Fine d
      → Fine (add_elements xs namespace d)
  add_elements-Fine nil namespace d f = f
  add_elements-Fine (cons x xs) namespace d f =
      add_elements-Fine xs namespace (add_tool x (some namespace) d)
        (add_tool-Fine x (some namespace) d f)

add_tools-Fine : (xs : List Json) (d : Declared) → Fine d → Fine (add_tools xs d)
unfolding add_tools
add_tools-Fine [] d f = f
add_tools-Fine (x ∷ xs) d f = add_tools-Fine xs (add_tool x none d) (add_tool-Fine x none d f)

-- The tools that codexToolsFrom returns have distinct names, whatever the request declares and
-- whether or not it reports a duplicate.
tools_from-Unique : (raw : List Json) → Unique (tools_from raw).tools
unfolding tools_from Unique
tools_from-Unique raw = add_tools-Fine raw (record { tools = []; duplicate = false }) tt
