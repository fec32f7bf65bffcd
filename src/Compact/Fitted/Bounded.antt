-- ===== src/Compact/Fitted/Bounded.antt =====
-- What FitState returns.
use jev_routing.Prelude.{
  ℕ, ◌≤◌, ◌<◌, ◌≡◌, refl, ◌⊎◌, inl, inr, false, Option, none, some, List, [], ◌∷◌, leb, length, All,
  Bool-cases, arith,
}
use jev_routing.Text.{Str}
use jev_routing.Compact.{Kind, Item, Options, resolve, resolve_recent}
use jev_routing.Compact.Tokens.{Tables}
use jev_routing.Compact.Candidates.{Indexed, indexed, is_pinned}
use jev_routing.Compact.Fitted.{ShownRow, render_rows, abridge_row, collapse_row, compact_row}
use jev_routing.Compact.Fitted.Stages.{
  Stage, full, texts_abridged, messages_collapsed, calls_compacted, messages_left_out, too_large,
  inputs, FittedState, Progress, fitted, going, is_tool, with_pin, as_fitted, fit, or_next,
  after_edit, edit_loop, omit_loop, give_up, finally, shrink_rows, fit_stages, rows_tokens,
  fit_state,
}
use jev_routing.Compact.Fitted.Shown.{
  ShowAll, Covers, render-ShowAll, all-Covers, pinned_rows-Covers, Allowed, rows_left-Covers,
}
use jev_routing.Compact.Fitted.Edits.{
  Keeps, ShowAllNew, abridge_row-Keeps, collapse_row-Keeps, compact_row-Keeps, edit_at-ShowAllNew,
}
use jev_routing.Compact.Fitted.Omitted.{Agrees, indexed-Agrees, allow_more, no_index-Allowed}

module _ (tokens : List ShownRow → ℕ) (limit : ℕ) (items : List Item) (recent : ℕ) where
  -- The state is within the limit, or is that of the last stage, its number of tokens is right, and
  -- its rows cover the items.
  pub record IsFitted (f : FittedState) : Type 0 where
    pub counted : f.tokens ≡ tokens f.history
    pub within : (f.stage ≡ too_large) ⊎ (f.tokens ≤ limit)
    pub covers : Covers (length items) recent f.stage (indexed 0 items) f.history

  unfoldable IsSound : Progress → Type 0
  IsSound (fitted f) = IsFitted f
  IsSound (going rs) = ShowAll (indexed 0 items) rs

  fit-IsSound :
      (stage : Stage) (rs : List ShownRow)
      → Covers (length items) recent stage (indexed 0 items) rs
      → ShowAll (indexed 0 items) rs
      → IsSound (fit tokens limit stage rs)
  unfolding fit IsSound as_fitted
  fit-IsSound stage rs c s = elim (Bool-cases (leb (tokens rs) limit)) [
    | inl small ↦ rw small (record { counted = refl; within = inr (ground arith); covers = c })
    | inr large ↦ rw large s
  ]

  or_next-IsSound :
      (p : Progress) (next : List ShownRow → Progress)
      → IsSound p
      → ((rs : List ShownRow) → ShowAll (indexed 0 items) rs → IsSound (next rs))
      → IsSound (or_next tokens limit p next)
  unfolding IsSound
  or_next-IsSound (fitted f) next s n = s
  or_next-IsSound (going rs) next s n = n rs s

  after_edit-IsSound :
      (stage : Stage) (qs : Option (List ShownRow)) (rs : List ShownRow)
      → ShowAllNew (indexed 0 items) qs
      → ShowAll (indexed 0 items) rs
      → IsSound (after_edit tokens limit stage qs rs)
  unfolding ShowAllNew IsSound
  after_edit-IsSound stage none rs n s = s
  after_edit-IsSound stage (some qs) rs n s =
      fit-IsSound stage qs (all-Covers (length items) recent stage _ qs n) n

  edit_loop-IsSound :
      (stage : Stage) (edit : Kind → Item → ShownRow → Option ShownRow) (xs : List Indexed)
      (rs : List ShownRow)
      → ((k : Kind) (i : Item) → Keeps (edit k i))
      → ShowAll (indexed 0 items) rs
      → IsSound (edit_loop tokens limit stage edit xs rs)
  unfolding edit_loop IsSound
  edit_loop-IsSound stage edit [] rs k s = s
  edit_loop-IsSound stage edit (x ∷ xs) rs k s =
      or_next-IsSound _ _
        (after_edit-IsSound stage _ rs
          (edit_at-ShowAllNew x.index _ (indexed 0 items) rs (k x.item.kind x.item) s) s)
        (λ qs t. edit_loop-IsSound stage edit xs qs k t)

  abbrev MayLeave : Indexed → Type 0
  MayLeave x = (is_pinned x.index (length items) recent ≡ false) × Agrees (indexed 0 items) x

  left-IsSound :
      (kept : List ShownRow) (p : Progress)
      → IsSound p
      → Covers (length items) recent messages_left_out (indexed 0 items) kept
      → IsSound (or_next tokens limit (fit tokens limit messages_left_out kept) (λ ps. p))
  unfolding fit IsSound as_fitted
  left-IsSound kept p s c = elim (Bool-cases (leb (tokens kept) limit)) [
    | inl small ↦ rw small (record { counted = refl; within = inr (ground arith); covers = c })
    | inr large ↦ rw large s
  ]

  omit_loop-IsSound :
      (omitted : List ℕ) (xs : List Indexed) (rs : List ShownRow)
      → All (Allowed (length items) recent omitted) (indexed 0 items)
      → All MayLeave xs
      → ShowAll (indexed 0 items) rs
      → IsSound (omit_loop tokens limit omitted xs rs)
  unfolding omit_loop IsSound
  omit_loop-IsSound omitted [] rs o a s = s
  omit_loop-IsSound omitted (x ∷ xs) rs o ((free, agrees), a) s =
      elim (Bool-cases (is_tool x.item.kind)) [
        | inl tool ↦ rw tool (omit_loop-IsSound omitted xs rs o a s)
        | inr message ↦
            let more = allow_more (length items) recent omitted x _ free message agrees o in
            rw message (
              left-IsSound _ _ (omit_loop-IsSound (x.index ∷ omitted) xs rs more a s)
                (rows_left-Covers (length items) recent (x.index ∷ omitted) 0 items rs more s))
      ]

  unpinned-MayLeave :
      (xs : List Indexed)
      → All (Agrees (indexed 0 items)) xs
      → All MayLeave (with_pin false (length items) recent xs)
  unfolding with_pin
  unpinned-MayLeave [] a = tt
  unpinned-MayLeave (x ∷ xs) (h, a) = elim (Bool-cases (is_pinned x.index (length items) recent)) [
    | inl pin ↦ rw pin (unpinned-MayLeave xs a)
    | inr free ↦ rw free ((free, h), unpinned-MayLeave xs a)
  ]

  shrink_rows-IsSound :
      (rs : List ShownRow)
      → ShowAll (indexed 0 items) rs
      → IsSound (shrink_rows tokens limit items recent rs)
  unfolding shrink_rows
  shrink_rows-IsSound rs s =
      or_next-IsSound _ _ (edit_loop-IsSound texts_abridged abridge_row _ rs abridge_row-Keeps s)
        (λ as_ s.
          or_next-IsSound _ _
            (edit_loop-IsSound messages_collapsed collapse_row _ as_ collapse_row-Keeps s)
            (λ bs s.
              or_next-IsSound _ _
                (edit_loop-IsSound calls_compacted compact_row _ bs compact_row-Keeps s)
                (λ cs s.
                  omit_loop-IsSound [] _ cs (no_index-Allowed (length items) recent _)
                    (unpinned-MayLeave (indexed 0 items) (indexed-Agrees 0 items)) s)))

  finally-IsFitted :
      (p : Progress) → IsSound p → IsFitted (finally tokens limit (length items) recent p)
  unfolding IsSound give_up as_fitted
  finally-IsFitted (fitted f) s = s
  finally-IsFitted (going rs) s = record {
    counted = refl;
    within = inl refl;
    covers = pinned_rows-Covers (length items) recent 0 items rs s;
  }

  rendered-ShowAll : (n : ℕ) → ShowAll (indexed 0 items) (render_rows items n false false)
  unfolding render_rows
  rendered-ShowAll n = render-ShowAll n false false 0 (length items) items

  first-IsSound :
      (stage : Stage) (n : ℕ) → IsSound (fit tokens limit stage (render_rows items n false false))
  first-IsSound stage n =
      let s = rendered-ShowAll n in
      fit-IsSound stage _ (all-Covers (length items) recent stage (indexed 0 items) _ s) s

  pub fit_stages-IsFitted : IsFitted (fit_stages tokens limit items recent)
  unfolding fit_stages
  fit_stages-IsFitted = finally-IsFitted _ (
      or_next-IsSound _ _ (first-IsSound full 1000) (λ _ _.
        or_next-IsSound _ _ (first-IsSound (inputs 200) 200) (λ _ _.
          or_next-IsSound _ _ (first-IsSound (inputs 60) 60)
            (λ _ _. shrink_rows-IsSound _ (rendered-ShowAll 60)))))

  -- Rows are only shortened or left out where the rows in full are too many.
  pub shrunk-needed :
      ((fit_stages tokens limit items recent).stage ≡ full)
      ⊎ (limit < tokens (render_rows items 1000 false false))
  unfolding fit_stages fit as_fitted
  shrunk-needed = elim (Bool-cases (leb (tokens (render_rows items 1000 false false)) limit)) [
    | inl small ↦ rw small (inl refl)
    | inr large ↦ inr (ground arith)
  ]

-- FitState returns a state whose tokens are within the limit or that has the stage "too_large"; its
-- rows stand for the items in their order, with the ID, kind and length of each. A row is left out
-- only for an item that is neither the first nor one of the recent ones (FitState does not read the
-- field Pinned), and only for a message or summary at "old messages left out" or at "too_large". The
-- stage is "full" unless the full rows are over the limit.
pub fit_state-IsFitted :
    (t : Tables) (marshal : List ShownRow → Option Str) (items : List Item) (o : Options)
    → let f = fit_state t marshal items o in
      let tokens = rows_tokens t marshal in
      let limit = (resolve o).max_state_tokens in
      IsFitted tokens limit items (resolve_recent o.preserve_recent) f
      × ((f.stage ≡ full) ⊎ (limit < tokens (render_rows items 1000 false false)))
unfolding fit_state
fit_state-IsFitted t marshal items o = (fit_stages-IsFitted _ _ items _, shrunk-needed _ _ items _)
