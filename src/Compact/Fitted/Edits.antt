-- ===== src/Compact/Fitted/Edits.antt =====
-- The edits of rows that the loops of FitState make.
use jev_routing.Prelude.{ℕ, zero, suc, Bool, Option, none, some, List, [], ◌∷◌, if◌then◌else◌}
use jev_routing.Text.{Str, is_blank}
use jev_routing.Compact.{Kind, text, tool_call, tool_result, summary, Item}
use jev_routing.Compact.Candidates.{Indexed}
use jev_routing.Compact.Fitted.{
  ShownRow, is_short, source_text, collapse_text, abridge_row, collapse_row, compact_row,
}
use jev_routing.Compact.Fitted.Stages.{edit_at, onto, behind}
use jev_routing.Compact.Fitted.Shown.{Shows, ShowAll}

-- The row that is given, if one is, is about the item.
unfoldable pub ShowsNew : Item → Option ShownRow → Type 0
ShowsNew it none = Unit
ShowsNew it (some r) = Shows it r

unfoldable pub ShowAllNew : List Indexed → Option (List ShownRow) → Type 0
ShowAllNew xs none = Unit
ShowAllNew xs (some rs) = ShowAll xs rs

-- An edit leaves rows with the ID, the kind and the number of characters that they have.
abbrev pub Keeps : (ShownRow → Option ShownRow) → Type 0
Keeps edit = (it : Item) (r : ShownRow) → Shows it r → ShowsNew it (edit r)

if-ShowsNew :
    (it : Item) (b : Bool) (x y : Option ShownRow)
    → ShowsNew it x
    → ShowsNew it y
    → ShowsNew it (if b then x else y)
if-ShowsNew it Bool.true x y f g = f
if-ShowsNew it Bool.false x y f g = g

preview-Shows :
    (it : Item) (r : ShownRow) (p : Option Str) → Shows it r → Shows it (record r { preview = p })
unfolding Shows
preview-Shows it r p s = s

new_preview-ShowsNew :
    (it : Item) (r : ShownRow) (p : Option Str)
    → Shows it r
    → ShowsNew it (some (record r { preview = p }))
unfolding ShowsNew
new_preview-ShowsNew it r p s = preview-Shows it r p s

no-ShowsNew : (it : Item) → ShowsNew it none
unfolding ShowsNew
no-ShowsNew it = tt

pub abridge_row-Keeps : (k : Kind) (i : Item) → Keeps (abridge_row k i)
unfolding abridge_row
abridge_row-Keeps text i it r s =
    if-ShowsNew it (is_short (source_text i)) _ _ (no-ShowsNew it) (new_preview-ShowsNew it r _ s)
abridge_row-Keeps tool_call i it r s = no-ShowsNew it
abridge_row-Keeps tool_result i it r s = no-ShowsNew it
abridge_row-Keeps summary i it r s = no-ShowsNew it

collapse_text-ShowsNew :
    (i it : Item) (r : ShownRow) (p : Option Str) → Shows it r → ShowsNew it (collapse_text i r p)
unfolding collapse_text
collapse_text-ShowsNew i it r none s = no-ShowsNew it
collapse_text-ShowsNew i it r (some p) s =
    if-ShowsNew it (is_blank (source_text i)) _ _ (no-ShowsNew it) (new_preview-ShowsNew it r _ s)

pub collapse_row-Keeps : (k : Kind) (i : Item) → Keeps (collapse_row k i)
unfolding collapse_row
collapse_row-Keeps text i it r s = collapse_text-ShowsNew i it r r.preview s
collapse_row-Keeps tool_call i it r s = no-ShowsNew it
collapse_row-Keeps tool_result i it r s = no-ShowsNew it
collapse_row-Keeps summary i it r s = no-ShowsNew it

pub compact_row-Keeps : (k : Kind) (i : Item) → Keeps (compact_row k i)
unfolding compact_row ShowsNew Shows
compact_row-Keeps text i it r s = tt
compact_row-Keeps tool_call i it r s = s
compact_row-Keeps tool_result i it r s = s
compact_row-Keeps summary i it r s = tt

onto-ShowAllNew :
    (x : Indexed) (xs : List Indexed) (q : Option ShownRow) (rs : List ShownRow)
    → ShowsNew x.item q
    → ShowAll xs rs
    → ShowAllNew (x ∷ xs) (onto q rs)
unfolding ShowsNew ShowAllNew ShowAll
onto-ShowAllNew x xs none rs h s = tt
onto-ShowAllNew x xs (some q) rs h s = (h, s)

behind-ShowAllNew :
    (x : Indexed) (xs : List Indexed) (r : ShownRow) (qs : Option (List ShownRow))
    → Shows x.item r
    → ShowAllNew xs qs
    → ShowAllNew (x ∷ xs) (behind r qs)
unfolding ShowAllNew ShowAll
behind-ShowAllNew x xs r none h s = tt
behind-ShowAllNew x xs r (some qs) h s = (h, s)

pub edit_at-ShowAllNew :
    (n : ℕ) (edit : ShownRow → Option ShownRow) (xs : List Indexed) (rs : List ShownRow)
    → Keeps edit
    → ShowAll xs rs
    → ShowAllNew xs (edit_at n edit rs)
unfolding edit_at ShowAllNew ShowAll
edit_at-ShowAllNew n edit xs [] k s = tt
edit_at-ShowAllNew n edit [] (r ∷ rs) k s = absurd s
edit_at-ShowAllNew zero edit (x ∷ xs) (r ∷ rs) k (h, s) =
    onto-ShowAllNew x xs (edit r) rs (k x.item r h) s
edit_at-ShowAllNew (suc n) edit (x ∷ xs) (r ∷ rs) k (h, s) =
    behind-ShowAllNew x xs r (edit_at n edit rs) h (edit_at-ShowAllNew n edit xs rs k s)
