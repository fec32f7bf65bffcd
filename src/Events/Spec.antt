-- ===== src/Events/Spec.antt =====
-- What the event log stands for: everything that was added, and a counter.
use jev_routing.Prelude.{
  ℕ, ◌+◌, ◌-◌, ◌≡◌, List, [], ◌∷◌, ◌++◌, map, ◌==◌, if◌then◌else◌, length, drop,
}
use jev_routing.Text.{Str}
use jev_routing.Events.{Event, Log, next_seq, stamp, add_event, update}

pub record History : Type 0 where
  pub seq : ℕ
  pub all : List Event

-- The calls that change a log.
pub data Call : Type 0 where
  reserve : Call
  add : ℕ → Event → Call
  change : ℕ → (Event → Event) → Call

-- An event is added without a number, and an update leaves the number.
unfoldable pub Allowed : Call → Type 0
Allowed reserve = Unit
Allowed (add now e) = e.seq ≡ 0
Allowed (change seq f) = (e : Event) → (f e).seq ≡ e.seq

unfoldable pub called : Call → Log → Log
called reserve l = next_seq l
called (add now e) l = add_event now e l
called (change seq f) l = update seq f l

abbrev pub changed_at : ℕ → (Event → Event) → Event → Event
changed_at seq f e = if e.seq == seq then f e else e

unfoldable pub noted : Str → Call → History → History
noted id reserve h = record h { seq = h.seq + 1 }
noted id (add now e) h = record {
  seq = h.seq + 1;
  all = h.all ++ (stamp id now (h.seq + 1) e ∷ []);
}
noted id (change seq f) h = record h { all = map (changed_at seq f) h.all }

unfoldable pub run_calls : List Call → Log → Log
run_calls [] l = l
run_calls (c ∷ cs) l = run_calls cs (called c l)

unfoldable pub run_record : Str → List Call → History → History
run_record id [] h = h
run_record id (c ∷ cs) h = run_record id cs (noted id c h)

abbrev pub no_history : History
no_history = record { seq = 0; all = [] }

-- The last `n` of `xs`.
abbrev pub newest : ℕ → List Event → List Event
newest n xs = drop (length xs - n) xs
