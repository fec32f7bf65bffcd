-- ===== src/Compact/Fitted.antt =====
-- The history that the classifier is shown, internal/compact/state.go: renderRows and FitState.
pub mod Stages
pub mod Shown
pub mod Edits
pub mod Omitted
pub mod Bounded
use jev_routing.Prelude.{
  ℕ, ◌+◌, ◌-◌, Bool, true, false, not, ◌&&◌, ◌||◌, Option, none, some, List, [], ◌∷◌, ◌++◌, ltb,
  leb, ◌==◌, if◌then◌else◌, length, take, drop,
}
use jev_routing.Text.{Str, lit, is_blank, is_space, join, decimal}
use jev_routing.Compact.{Kind, text, tool_call, tool_result, summary, Item}
use jev_routing.Compact.Candidates.{is_pinned}
use jev_routing.Compact.Apply.{clip}

-- A row of the history. A key that the row does not have is `none`.
pub record ShownRow : Type 0 where
  pub id : Str
  pub kind : Kind
  pub chars : ℕ
  pub tool : Option Str
  pub result : Option Str
  pub preview : Option Str

abbrev pub if_any : Str → Option Str
if_any [] = none
if_any (b ∷ s) = some (b ∷ s)

-- `src := it.Body; if src == "" { src = it.Preview }`
unfoldable pub source_text : Item → Str
source_text it = if is_blank it.body then it.preview else it.body

unfoldable pub shown_input : Item → ℕ → Str
shown_input it limit = clip (source_text it) limit

unfoldable pub omitted_note : ℕ → Str
omitted_note n = lit "[… " ++ (decimal n ++ lit " chars omitted …]")

-- `len(text) <= textHead+textTail+40`
unfoldable pub is_short : Str → Bool
is_short s = leb (length s) 590

-- abridge, with the 400 and 150 bytes that every call gives
unfoldable pub abridge : Str → Str
abridge s =
    if is_short s
    then s
    else take 400 s
      ++ (lit "\n" ++ (omitted_note (length s - 550) ++ (lit "\n" ++ drop (length s - 150) s)))

-- The `preview` of a message.
unfoldable pub text_preview : Bool → Bool → ℕ → ℕ → Item → Option Str
text_preview abridged collapsed index total it =
    let s = source_text it in
    if collapsed && not (is_pinned index total 0)
    then some s
    else if abridged && not (is_short s)
    then some (abridge s)
    else if_any s

unfoldable pub kind_preview : Kind → ℕ → Bool → Bool → ℕ → ℕ → Item → Option Str
kind_preview tool_call limit abridged collapsed index total it = if_any (shown_input it limit)
kind_preview text limit abridged collapsed index total it =
    text_preview abridged collapsed index total it
kind_preview _ limit abridged collapsed index total it = none

unfoldable pub kind_result : Kind → Item → Option Str
kind_result tool_result it = some (lit "ok, " ++ (decimal it.chars ++ lit " chars (omitted)"))
kind_result _ it = none

unfoldable pub render_row : ℕ → Bool → Bool → ℕ → ℕ → Item → ShownRow
render_row limit abridged collapsed index total it = record {
  id = it.id;
  kind = it.kind;
  chars = it.chars;
  tool = if_any it.tool;
  result = kind_result it.kind it;
  preview = kind_preview it.kind limit abridged collapsed index total it;
}

unfoldable pub render_loop : ℕ → Bool → Bool → ℕ → ℕ → List Item → List ShownRow
render_loop limit abridged collapsed index total [] = []
render_loop limit abridged collapsed index total (it ∷ items) =
    render_row limit abridged collapsed index total it
    ∷ render_loop limit abridged collapsed (index + 1) total items

-- renderRows
unfoldable pub render_rows : List Item → ℕ → Bool → Bool → List ShownRow
render_rows items limit abridged collapsed =
    render_loop limit abridged collapsed 0 (length items) items

-- Preview
unfoldable pub preview_rows : List Item → List ShownRow
preview_rows items = render_rows items 1000 false false

abbrev opens_word : Str → Bool
opens_word [] = false
opens_word (b ∷ s) = not (is_space b)

abbrev onto_word : ℕ → List Str → List Str
onto_word b [] = (b ∷ []) ∷ []
onto_word b (w ∷ ws) = (b ∷ w) ∷ ws

-- `strings.Fields`
unfoldable pub split_fields : Str → List Str
split_fields [] = []
split_fields (b ∷ s) =
    let rest = split_fields s in
    if is_space b then rest else if opens_word s then onto_word b rest else (b ∷ []) ∷ rest

-- What a round of each of the three loops writes into the row of an item, `none` where the round is
-- skipped.
unfoldable pub abridge_row : Kind → Item → ShownRow → Option ShownRow
abridge_row text it r =
    if is_short (source_text it)
    then none
    else some (record r { preview = some (abridge (source_text it)) })
abridge_row _ it r = none

unfoldable pub collapse_text : Item → ShownRow → Option Str → Option ShownRow
collapse_text it r none = none
collapse_text it r (some p) =
    if is_blank (source_text it)
    then none
    else some (record r { preview = some (omitted_note (length (source_text it))) })

unfoldable pub collapse_row : Kind → Item → ShownRow → Option ShownRow
collapse_row text it r = collapse_text it r r.preview
collapse_row _ it r = none

unfoldable pub call_line : Item → Str
call_line it =
    let input = join (lit " ") (split_fields (shown_input it 60)) in
    if not (is_blank input) && ltb (length input) 40
    then clip (it.id ++ (lit " " ++ (it.tool ++ (lit " " ++ input)))) 80
    else clip (it.id ++ (lit " " ++ (it.tool ++ (lit " → ok " ++ (decimal it.chars ++ lit "ch")))))
        60

unfoldable pub compact_row : Kind → Item → ShownRow → Option ShownRow
compact_row tool_call it r = some (record r { preview = some (call_line it) })
compact_row tool_result it r =
    some (record r { preview = none; result = some (lit "ok " ++ (decimal it.chars ++ lit "ch")) })
compact_row _ it r = none
