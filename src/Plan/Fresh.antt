-- ===== src/Plan/Fresh.antt =====
-- The goals that Remaining leaves.
use jev_routing.Prelude.{◌≡◌, false, List, All}
use jev_routing.Text.{Str}
use jev_routing.Plan.Goals.{any_done}

abbrev pub AllOpen : List Str → List (List Str) → Type 0
AllOpen done goals = All (λ g. any_done done g ≡ false) goals
