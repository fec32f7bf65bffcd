-- ===== src/Compact/Fitted/Shown.antt =====
-- The rows that FitState returns.
use jev_routing.Prelude.{
  ℕ, ◌+◌, ◌≡◌, refl, inl, inr, Bool, true, false, List, [], ◌∷◌, All, Bool-cases,
}
use jev_routing.Compact.{Kind, Item}
use jev_routing.Compact.Candidates.{Indexed, indexed, is_pinned}
use jev_routing.Compact.Fitted.{ShownRow, render_row, render_loop}
use jev_routing.Compact.Fitted.Stages.{
  Stage, messages_left_out, too_large, is_tool, among, rows_left, pinned_rows,
}

-- The row is about the item.
unfoldable pub Shows : Item → ShownRow → Type 0
Shows it r = (r.id ≡ it.id) × (r.kind ≡ it.kind) × (r.chars ≡ it.chars)

unfoldable pub ShowAll : List Indexed → List ShownRow → Type 0
ShowAll [] [] = Unit
ShowAll (x ∷ xs) (r ∷ rs) = Shows x.item r × ShowAll xs rs
ShowAll _ _ = ⊥

-- What a stage may leave out: messages and summaries, or, at the last stage, anything.
unfoldable pub MayOmit : Stage → Kind → Type 0
MayOmit too_large k = Unit
MayOmit messages_left_out k = is_tool k ≡ false
MayOmit _ k = ⊥

-- The rows are those of the items in their order, of which only those are left out that isPinned does
-- not pin by their position and that the stage may omit.
pub data Covers (total recent : ℕ) (stage : Stage) : List Indexed → List ShownRow → Type 0 where
  nothing : Covers total recent stage [] []
  shown :
      {x : Indexed} {xs : List Indexed} {r : ShownRow} {rs : List ShownRow}
      → Shows x.item r
      → Covers total recent stage xs rs
      → Covers total recent stage (x ∷ xs) (r ∷ rs)
  left_out :
      {x : Indexed} {xs : List Indexed} {rs : List ShownRow}
      → is_pinned x.index total recent ≡ false
      → MayOmit stage x.item.kind
      → Covers total recent stage xs rs
      → Covers total recent stage (x ∷ xs) rs

pub render-ShowAll :
    (limit : ℕ) (a c : Bool) (index total : ℕ) (items : List Item)
    → ShowAll (indexed index items) (render_loop limit a c index total items)
unfolding ShowAll Shows indexed render_loop render_row
render-ShowAll limit a c index total [] = tt
render-ShowAll limit a c index total (it ∷ items) =
    ((refl, refl, refl), render-ShowAll limit a c (index + 1) total items)

pub all-Covers :
    (total recent : ℕ) (stage : Stage) (xs : List Indexed) (rs : List ShownRow)
    → ShowAll xs rs
    → Covers total recent stage xs rs
unfolding ShowAll
all-Covers total recent stage [] [] s = Covers.nothing
all-Covers total recent stage [] (r ∷ rs) s = absurd s
all-Covers total recent stage (x ∷ xs) [] s = absurd s
all-Covers total recent stage (x ∷ xs) (r ∷ rs) (h, s) =
    Covers.shown h (all-Covers total recent stage xs rs s)

pub pinned_rows-Covers :
    (total recent j : ℕ) (items : List Item) (rs : List ShownRow)
    → ShowAll (indexed j items) rs
    → Covers total recent too_large (indexed j items) (pinned_rows total recent j rs)
unfolding ShowAll indexed pinned_rows MayOmit
pinned_rows-Covers total recent j [] [] s = Covers.nothing
pinned_rows-Covers total recent j [] (r ∷ rs) s = absurd s
pinned_rows-Covers total recent j (it ∷ items) [] s = absurd s
pinned_rows-Covers total recent j (it ∷ items) (r ∷ rs) (h, s) =
    elim (Bool-cases (is_pinned j total recent)) [
      | inl pin ↦ rw pin (Covers.shown h (pinned_rows-Covers total recent (j + 1) items rs s))
      | inr free ↦
          rw free (Covers.left_out free tt (pinned_rows-Covers total recent (j + 1) items rs s))
    ]

-- The items of the omitted indices are unpinned messages or summaries.
unfoldable pub Allowed : ℕ → ℕ → List ℕ → Indexed → Type 0
Allowed total recent omitted x =
    among x.index omitted ≡ true
    → (is_pinned x.index total recent ≡ false) × (is_tool x.item.kind ≡ false)

pub rows_left-Covers :
    (total recent : ℕ) (omitted : List ℕ) (j : ℕ) (items : List Item) (rs : List ShownRow)
    → All (Allowed total recent omitted) (indexed j items)
    → ShowAll (indexed j items) rs
    → Covers total recent messages_left_out (indexed j items) (rows_left omitted j rs)
unfolding ShowAll indexed rows_left MayOmit Allowed
rows_left-Covers total recent omitted j [] [] a s = Covers.nothing
rows_left-Covers total recent omitted j [] (r ∷ rs) a s = absurd s
rows_left-Covers total recent omitted j (it ∷ items) [] a s = absurd s
rows_left-Covers total recent omitted j (it ∷ items) (r ∷ rs) (ok, a) (h, s) =
    let rest = rows_left-Covers total recent omitted (j + 1) items rs a s in
    elim (Bool-cases (among j omitted)) [
      | inl out ↦ rw out (Covers.left_out (ok out).0 (ok out).1 rest)
      | inr in_place ↦ rw in_place (Covers.shown h rest)
    ]
