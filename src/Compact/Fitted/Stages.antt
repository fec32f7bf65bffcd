-- ===== src/Compact/Fitted/Stages.antt =====
-- The stages of FitState, internal/compact/state.go. `tokens` is rowsTokens, an estimate of the rows
-- as encoding/json prints them.
use jev_routing.Prelude.{
  ℕ, zero, suc, ◌+◌, Bool, true, false, ◌||◌, Option, none, some, List, [], ◌∷◌, ◌++◌, leb, ◌==◌,
  if◌then◌else◌, length,
}
use jev_routing.Text.{Str}
use jev_routing.Compact.{Kind, tool_call, tool_result, Item, Options, resolve, resolve_recent}
use jev_routing.Compact.Candidates.{Indexed, indexed, is_pinned}
use jev_routing.Compact.Tokens.{Tables, estimate_tokens}
use jev_routing.Compact.Fitted.{ShownRow, render_rows, abridge_row, collapse_row, compact_row}

-- `inputs n` is "inputs<=n".
pub data Stage : Type 0 where
  full texts_abridged messages_collapsed calls_compacted messages_left_out too_large : Stage
  inputs : ℕ → Stage

pub record FittedState : Type 0 where
  pub history : List ShownRow
  pub tokens : ℕ
  pub stage : Stage

-- rowsTokens, with `json.Marshal` as a parameter that gives `none` for an error
unfoldable pub rows_tokens : Tables → (List ShownRow → Option Str) → List ShownRow → ℕ
rows_tokens t marshal rows = elim (marshal rows) [ none ↦ 0 | some s ↦ estimate_tokens t s ]

-- The function has returned, or goes on with these rows.
pub data Progress : Type 0 where
  fitted : FittedState → Progress
  going : List ShownRow → Progress

abbrev pub onto : Option ShownRow → List ShownRow → Option (List ShownRow)
onto none rs = none
onto (some r) rs = some (r ∷ rs)

abbrev pub behind : ShownRow → Option (List ShownRow) → Option (List ShownRow)
behind r none = none
behind r (some rs) = some (r ∷ rs)

-- `rows[i]` is edited; `none` where the edit leaves it.
unfoldable pub edit_at : ℕ → (ShownRow → Option ShownRow) → List ShownRow → Option (List ShownRow)
edit_at n edit [] = none
edit_at zero edit (r ∷ rs) = onto (edit r) rs
edit_at (suc n) edit (r ∷ rs) = behind r (edit_at n edit rs)

-- `items[i].Kind == KindCall || items[i].Kind == KindResult`
unfoldable pub is_tool : Kind → Bool
is_tool tool_call = true
is_tool tool_result = true
is_tool _ = false

unfoldable pub among : ℕ → List ℕ → Bool
among n [] = false
among n (k ∷ ks) = k == n || among n ks

-- The rows whose index is not in `omitted`.
unfoldable pub rows_left : List ℕ → ℕ → List ShownRow → List ShownRow
rows_left omitted j [] = []
rows_left omitted j (r ∷ rs) =
    let rest = rows_left omitted (j + 1) rs in if among j omitted then rest else r ∷ rest

-- `order` and `pinnedIdx`, each index with its item
unfoldable pub with_pin : Bool → ℕ → ℕ → List Indexed → List Indexed
with_pin b total recent [] = []
with_pin true total recent (x ∷ xs) =
    let rest = with_pin true total recent xs in
    if is_pinned x.index total recent then x ∷ rest else rest
with_pin false total recent (x ∷ xs) =
    let rest = with_pin false total recent xs in
    if is_pinned x.index total recent then rest else x ∷ rest

-- The rows of the pinned items, which the function returns when nothing fits.
unfoldable pub pinned_rows : ℕ → ℕ → ℕ → List ShownRow → List ShownRow
pinned_rows total recent j [] = []
pinned_rows total recent j (r ∷ rs) =
    let rest = pinned_rows total recent (j + 1) rs in
    if is_pinned j total recent then r ∷ rest else rest

module _ (tokens : List ShownRow → ℕ) (limit : ℕ) where
  unfoldable pub as_fitted : Stage → List ShownRow → FittedState
  as_fitted stage rs = record { history = rs; tokens = tokens rs; stage = stage }

  -- `fit`, and the rows to go on with where they are too many
  unfoldable pub fit : Stage → List ShownRow → Progress
  fit stage rs = if leb (tokens rs) limit then fitted (as_fitted stage rs) else going rs

  abbrev pub or_next : Progress → (List ShownRow → Progress) → Progress
  or_next (fitted f) next = fitted f
  or_next (going rs) next = next rs

  -- The rows to go on with where an edit was skipped are `rs`.
  abbrev pub after_edit : Stage → Option (List ShownRow) → List ShownRow → Progress
  after_edit stage none rs = going rs
  after_edit stage (some qs) rs = fit stage qs

  -- A loop that edits one row after another until the rows fit.
  unfoldable pub edit_loop :
      Stage → (Kind → Item → ShownRow → Option ShownRow) → List Indexed → List ShownRow → Progress
  edit_loop stage edit [] rs = going rs
  edit_loop stage edit (x ∷ xs) rs =
      or_next (after_edit stage (edit_at x.index (edit x.item.kind x.item) rs) rs)
        (λ qs. edit_loop stage edit xs qs)

  -- The loop that leaves messages out.
  unfoldable pub omit_loop : List ℕ → List Indexed → List ShownRow → Progress
  omit_loop omitted [] rs = going rs
  omit_loop omitted (x ∷ xs) rs =
      let skipped = omit_loop omitted xs rs in
      let later = omit_loop (x.index ∷ omitted) xs rs in
      if is_tool x.item.kind
      then skipped
      else or_next (fit messages_left_out (rows_left (x.index ∷ omitted) 0 rs)) (λ ps. later)

  unfoldable pub give_up : ℕ → ℕ → List ShownRow → FittedState
  give_up total recent rs = as_fitted too_large (pinned_rows total recent 0 rs)

  abbrev pub finally : ℕ → ℕ → Progress → FittedState
  finally total recent (fitted f) = f
  finally total recent (going rs) = give_up total recent rs

  -- The stages that follow the limits on the inputs, on the rows as rendered with the last one.
  unfoldable pub shrink_rows : List Item → ℕ → List ShownRow → Progress
  shrink_rows items recent rendered =
      let all = indexed 0 items in
      let order = with_pin false (length items) recent all in
      let pinned = with_pin true (length items) recent all in
      or_next (edit_loop texts_abridged abridge_row (order ++ pinned) rendered) (λ abridged.
        or_next (edit_loop messages_collapsed collapse_row order abridged) (λ collapsed.
          or_next (edit_loop calls_compacted compact_row order collapsed)
            (λ compacted. omit_loop [] order compacted)))

  unfoldable pub fit_stages : List Item → ℕ → FittedState
  fit_stages items recent = finally (length items) recent (
      or_next (fit full (render_rows items 1000 false false)) (λ _.
        or_next (fit (inputs 200) (render_rows items 200 false false)) (λ _.
          or_next (fit (inputs 60) (render_rows items 60 false false))
            (λ _. shrink_rows items recent (render_rows items 60 false false)))))

-- FitState
unfoldable pub fit_state : Tables → (List ShownRow → Option Str) → List Item → Options → FittedState
fit_state t marshal items o =
    fit_stages (rows_tokens t marshal) (resolve o).max_state_tokens items
      (resolve_recent o.preserve_recent)
