-- ===== src/Plan/Subagent/Recovery.antt =====
-- RecoverSubagent finds the latest item.
use jev_routing.Prelude.{◌≡◌, refl, true, false, none, some, List, [], ◌∷◌, ◌++◌, All}
use jev_routing.Text.{Str, str_eq}
use jev_routing.Plan.Subagent.{HistoryItem, recover_subagent}

-- No item belongs to the assignment.
abbrev pub NoneOf : Str → List HistoryItem → Type 0
NoneOf id hs = All (λ h. str_eq h.assignment_id id ≡ false) hs

unrelated : (hs : List HistoryItem) (id : Str) → NoneOf id hs → recover_subagent hs id ≡ none
unfolding recover_subagent
unrelated [] id n = refl
unrelated (h ∷ hs) id n = rw (unrelated hs id n.1, n.0)

-- RecoverSubagent returns the last item of an assignment, whatever comes in front of it and
-- whichever items of other assignments follow, and nothing where the assignment has no item.
recover-latest :
    (before after : List HistoryItem) (h : HistoryItem) (id : Str)
    → str_eq h.assignment_id id ≡ true
    → NoneOf id after
    → (recover_subagent (before ++ (h ∷ after)) id ≡ some h) × (recover_subagent after id ≡ none)
unfolding recover_subagent
recover-latest [] after h id same n = (rw (unrelated after id n, same), unrelated after id n)
recover-latest (x ∷ before) after h id same n =
    let later = recover-latest before after h id same n in (rw (later.0), later.1)
