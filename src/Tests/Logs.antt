-- ===== src/Tests/Logs.antt =====
-- The event log with two events.
use jev_routing.Prelude.{◌≡◌, refl, [], ◌∷◌, List, All, false, arith}
use jev_routing.Text.{Str, lit, is_blank}
use jev_routing.Events.{
  Event, Log, new_log, later_than, snapshot, next_seq, add_event, update, update_first, keep_recent,
  stamp,
}
use jev_routing.Events.Spec.{
  Call, reserve, add, change, Allowed, called, run_calls, run_record, no_history,
}
use jev_routing.Events.Refine.{Holds, run_calls-Holds}
use jev_routing.Events.Polling.{snapshot-later_than}

abbrev fresh : Event
fresh = record {
  seq = 0;
  instance_id = [];
  ts = 0;
  chosen = lit "Read";
  reason = [];
  source = lit "jev";
  applied = [];
  original_model = [];
  sent_model = [];
  method = lit "POST";
  content_type = [];
  jev_calls = 1;
  jev_cached = 0;
  jev_failed = 0;
  connect_status = [];
}

abbrev failed_once : Event → Event
failed_once e = record e { jev_failed = 1 }

abbrev history : List Call
history = add 7 fresh ∷ reserve ∷ add 8 fresh ∷ change 3 failed_once ∷ []

history-Allowed : All Allowed history
unfolding Allowed
history-Allowed = (refl, (tt, (refl, ((λ e. refl), tt))))

abbrev id : Str
id = lit "a1"

numbers : (run_calls history (new_log id)).seq ≡ 3
unfolding run_calls called next_seq add_event update
numbers = refl

run_calls-Holds_example :
    Holds id (run_calls history (new_log id)) (run_record id history no_history)
run_calls-Holds_example = run_calls-Holds id history history-Allowed

nothing_lost : (snapshot 1 (run_calls history (new_log id))).truncated ≡ false
unfolding snapshot run_calls called next_seq add_event update update_first keep_recent stamp
nothing_lost = refl

snapshot-later_than_example :
    (snapshot 1 (run_calls history (new_log id))).events
    ≡ later_than 1 (run_record id history no_history).all
snapshot-later_than_example =
    snapshot-later_than id history 1 history-Allowed (omega arith) nothing_lost

from_jev : is_blank (lit "jev") ≡ false
unfolding lit
from_jev = refl

abbrev two_events : Log
two_events = record (new_log id) { items = fresh ∷ fresh ∷ [] }
