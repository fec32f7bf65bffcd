-- ===== src/Tests/Gates.antt =====
-- The clear gate on a store with one conversation.
use jev_routing.Prelude.{◌≡◌, refl, [], ◌∷◌, true, arith}
use jev_routing.Text.{lit}
use jev_routing.Gate.{undecided, clear, observe, observes, Entry, Store, enter_gate, enters}
use jev_routing.Gate.Entries.{IsSound, AllMove}
use jev_routing.Gate.Settled.{moves_along}
use jev_routing.Gate.Runs.{rests, goes_on, Run-decision}

abbrev seen : Entry
seen = record { last_ctx = 5000; observed = true; decision = undecided; reason = [] }

abbrev store : Store
store = record {
  conv = record { key = lit "k"; address = 0 } ∷ [];
  order = lit "k" ∷ [];
  heap = λ a. seen;
  free = 1;
  pending = [];
}

store-IsSound : IsSound store
store-IsSound = record { allocated = (omega arith, tt); asked = tt; one_each = tt }

moves_along_example :
    IsSound (enter_gate 100 10 50 (lit "k") store).store
    × AllMove store (enter_gate 100 10 50 (lit "k") store).store
moves_along_example =
    moves_along store (enter_gate 100 10 50 (lit "k") store).store store-IsSound
      (enters 100 10 50 (lit "k"))

abbrev cleared : Store
cleared = record store { heap = λ a. record seen { decision = clear } }

cleared-IsSound : IsSound cleared
cleared-IsSound = record { allocated = (omega arith, tt); asked = tt; one_each = tt }

Run-decision_example :
    ((enter_gate 100 10 50 (lit "k") (observe (lit "k") 9000 cleared)).store.heap 0).decision
    ≡ clear
Run-decision_example =
    Run-decision cleared _ 0 cleared-IsSound
      (goes_on (observes (lit "k") 9000) (goes_on (enters 100 10 50 (lit "k")) rests)) (omega arith)
      refl
