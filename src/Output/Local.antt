-- ===== src/Output/Local.antt =====
-- The items that applyCodexToolOutputMax walks over, one by one.
use jev_routing.Prelude.{
  ℕ, suc, ◌+◌, ◌≡◌, refl, sym, ap, ◌∙◌, Bool, true, false, Option, none, some, List, [], ◌∷◌, map,
  if◌then◌else◌, arith,
}
use native.Mathlib.Nat.{zero-add, add-zero}
use jev_routing.Text.{Str, str_eq}
use jev_routing.Json.{
  Json, Elements, Members, null, boolean, number, string, array, object, nil, cons, elements, get,
  set, text_at,
}
use jev_routing.Json.Laws.{get-set, get-set_other}
use jev_routing.Output.{
  truncate_middle, truncatable, Cut, no_cut, add_cut, Walked, cut_text, text_key, output_key,
  cut_part, cut_parts, cut_output, cut_item, cut_items, input_key, cut_input, apply_output_max,
}

module _ {A : Type 0} where
  -- What a walk finds does not depend on what was found before, which is added to it.
  unfoldable pub Shifts : (Cut → Walked A) → Type 0
  Shifts f =
      (c : Cut)
      → ((f c).value ≡ (f no_cut).value)
        × ((f c).cut.truncated ≡ c.truncated + (f no_cut).cut.truncated)
        × ((f c).cut.bytes_cut ≡ c.bytes_cut + (f no_cut).cut.bytes_cut)

  kept-Shifts : (v : A) → Shifts (λ c. record { value = v; cut = c })
  unfolding Shifts
  kept-Shifts v c = (refl, sym (add-zero _), sym (add-zero _))

  added-Shifts : (v : A) (n : ℕ) → Shifts (λ c. record { value = v; cut = add_cut n c })
  unfolding Shifts
  added-Shifts v n c = (refl, omega arith, omega arith)

  if-Shifts :
      (b : Bool) (f g : Cut → Walked A) → Shifts f → Shifts g → Shifts (λ c. if b then f c else g c)
  if-Shifts true f g sf sg = sf
  if-Shifts false f g sf sg = sg

-- A walk whose value is wrapped.
abbrev wrapped : {A B : Type 0} → (A → B) → (Cut → Walked A) → Cut → Walked B
wrapped w f c = let r = f c in record { value = w r.value; cut = r.cut }

wrapped-Shifts : {A B : Type 0} (w : A → B) (f : Cut → Walked A) → Shifts f → Shifts (wrapped w f)
unfolding Shifts
wrapped-Shifts w f s c = let (v, t, b) = s c in (ap w v, t, b)

cut_text-Shifts : (limit : ℕ) (key text : Str) (v : Members) → Shifts (cut_text limit key text v)
unfolding cut_text
cut_text-Shifts limit key text v =
    let r = truncate_middle text limit in
    if-Shifts r.did _ _ (added-Shifts (set key (string r.out) v) r.omitted) (kept-Shifts v)

cut_part-Shifts : (limit : ℕ) (part : Json) → Shifts (cut_part limit part)
unfolding cut_part
cut_part-Shifts limit null = kept-Shifts _
cut_part-Shifts limit (boolean b) = kept-Shifts _
cut_part-Shifts limit (number n e) = kept-Shifts _
cut_part-Shifts limit (string s) = kept-Shifts _
cut_part-Shifts limit (array xs) = kept-Shifts _
cut_part-Shifts limit (object pm) = by_text (get text_key pm)
  where
    by_text :
        (o : Option Json)
        → Shifts (λ c. elim o as (λ x. Walked Json) [
          | none ↦ record { value = object pm; cut = c }
          | some v ↦ elim v as (λ x. Walked Json) [
            | string text ↦
                let r = cut_text limit text_key text pm c in
                record { value = object r.value; cut = r.cut }
            | _ ↦ record { value = object pm; cut = c }
          ]
        ])
    by_text none = kept-Shifts _
    by_text (some null) = kept-Shifts _
    by_text (some (boolean b)) = kept-Shifts _
    by_text (some (number n e)) = kept-Shifts _
    by_text (some (array xs)) = kept-Shifts _
    by_text (some (object ms)) = kept-Shifts _
    by_text (some (string text)) = wrapped-Shifts object _ (cut_text-Shifts limit text_key text pm)

-- Two walks one after the other.
abbrev then_walk :
    {A B C : Type 0} → (A → B → C) → (Cut → Walked A) → (Cut → Walked B) → Cut → Walked C
then_walk join f g c =
    let first = f c in
    let rest = g first.cut in record { value = join first.value rest.value; cut = rest.cut }

then_walk-Shifts :
    {A B C : Type 0} (join : A → B → C) (f : Cut → Walked A) (g : Cut → Walked B)
    → Shifts f
    → Shifts g
    → Shifts (then_walk join f g)
unfolding Shifts
then_walk-Shifts join f g sf sg c =
    let (v, t, b) = sf c in
    let (w, u, d) = sg (f c).cut in
    let (w', u', d') = sg (f no_cut).cut in
    ((λ i. join (v i) ((w ∙ sym w') i)), omega (arith, t, u, u'), omega (arith, b, d, d'))

cut_parts-Shifts : (limit : ℕ) (parts : Elements) → Shifts (cut_parts limit parts)
unfolding cut_parts
cut_parts-Shifts limit nil = kept-Shifts nil
cut_parts-Shifts limit (cons part parts) =
    then_walk-Shifts cons _ _ (cut_part-Shifts limit part) (cut_parts-Shifts limit parts)

cut_output-Shifts : (limit : ℕ) (m : Members) (o : Option Json) → Shifts (cut_output limit m o)
unfolding cut_output
cut_output-Shifts limit m none = kept-Shifts m
cut_output-Shifts limit m (some null) = kept-Shifts m
cut_output-Shifts limit m (some (boolean b)) = kept-Shifts m
cut_output-Shifts limit m (some (number n e)) = kept-Shifts m
cut_output-Shifts limit m (some (object ms)) = kept-Shifts m
cut_output-Shifts limit m (some (string out)) = cut_text-Shifts limit output_key out m
cut_output-Shifts limit m (some (array parts)) =
    wrapped-Shifts (λ xs. set output_key (array xs) m) _ (cut_parts-Shifts limit parts)

cut_item-Shifts : (limit : ℕ) (item : Json) → Shifts (cut_item limit item)
unfolding cut_item
cut_item-Shifts limit null = kept-Shifts _
cut_item-Shifts limit (boolean b) = kept-Shifts _
cut_item-Shifts limit (number n e) = kept-Shifts _
cut_item-Shifts limit (string s) = kept-Shifts _
cut_item-Shifts limit (array xs) = kept-Shifts _
cut_item-Shifts limit (object m) =
    if-Shifts (truncatable (text_at "type" m)) _ _
      (wrapped-Shifts object _ (cut_output-Shifts limit m (get output_key m)))
      (kept-Shifts (object m))

-- One item, cut by itself.
abbrev pub cut_alone : ℕ → Json → Json
cut_alone limit item = (cut_item limit item no_cut).value

unfoldable pub cuts_of : ℕ → List Json → ℕ
cuts_of limit [] = 0
cuts_of limit (item ∷ items) = (cut_item limit item no_cut).cut.truncated + cuts_of limit items

cut_items-alone :
    (limit : ℕ) (items : Elements) (c : Cut)
    → (elements (cut_items limit items c).value ≡ map (cut_alone limit) (elements items))
      × ((cut_items limit items c).cut.truncated ≡ c.truncated + cuts_of limit (elements items))
unfolding cut_items elements cuts_of Shifts
cut_items-alone limit nil c = (refl, sym (add-zero _))
cut_items-alone limit (cons item items) c =
    let (v, t, b) = cut_item-Shifts limit item c in
    let (later, count) = cut_items-alone limit items (cut_item limit item c).cut in
    ((λ i. v i ∷ later i), omega (arith, t, count))

abbrev pub input_of : Option Json → List Json
input_of (some (array items)) = elements items
input_of _ = []

applied :
    (limit : ℕ) (root : Members) (items : Elements)
    → get input_key root ≡ some (array items)
    → apply_output_max (suc limit) root
      ≡ wrapped (λ xs. set input_key (array xs) root) (cut_items (suc limit) items) no_cut
unfolding apply_output_max cut_input
applied limit root items e = ap (cut_input (suc limit) root) e

-- Cutting the tool outputs of a request changes no member of it but `input`; it gives each item of
-- a list there what it gives the item alone, so the bytes of an item do not depend on those around
-- it, and it counts one cut for each one of the items.
pub apply_output_max-alone :
    (limit : ℕ) (root : Members) (items : Elements)
    → get input_key root ≡ some (array items)
    → let r = apply_output_max (suc limit) root in
      ((key : Str) → str_eq input_key key ≡ false → get key r.value ≡ get key root)
      × (input_of (get input_key r.value) ≡ map (cut_alone (suc limit)) (elements items))
      × (r.cut.truncated ≡ cuts_of (suc limit) (elements items))
apply_output_max-alone limit root items e =
    let (later, count) = cut_items-alone (suc limit) items no_cut in
    rw (applied limit root items e) (
      (λ key other. get-set_other input_key key _ root other),
      rw (get-set input_key (array (cut_items (suc limit) items no_cut).value) root) later,
      count ∙ zero-add _,
    )
