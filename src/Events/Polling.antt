-- ===== src/Events/Polling.antt =====
-- Snapshot beside the history.
use jev_routing.Prelude.{
  ℕ, zero, suc, ◌-◌, ◌≤◌, ◌<◌, ◌≡◌, refl, ap, ◌∙◌, false, ◌&&◌, List, [], ◌∷◌, ltb, length, drop,
  length-drop, All, arith,
}
use jev_routing.Text.{Str}
use jev_routing.Events.{Event, event_limit, new_log, later_than, oldest_of, snapshot}
use jev_routing.Events.Spec.{Call, Allowed, run_calls, run_record, no_history, newest}
use jev_routing.Events.Rising.{Rising, Rises}
use jev_routing.Events.Refine.{run_calls-Holds}

Rising-oldest :
    (n low top : ℕ) (es : List Event)
    → Rising low top es
    → 0 < length (drop n es)
    → low < oldest_of (drop n es)
unfolding Rising
Rising-oldest zero low top [] r h = absurd (omega arith)
Rising-oldest zero low top (e ∷ es) r h = r.0
Rising-oldest (suc n) low top [] r h = absurd (omega arith)
Rising-oldest (suc n) low top (e ∷ es) r h =
    let later = Rising-oldest n e.seq top es r.1 h in omega (arith, r.0)

later_than-drop :
    (since n low top : ℕ) (es : List Event)
    → Rising low top es
    → 0 < length (drop n es)
    → oldest_of (drop n es) ≤ since
    → later_than since (drop n es) ≡ later_than since es
unfolding Rising later_than
later_than-drop since zero low top es r h old = refl
later_than-drop since (suc n) low top [] r h old = refl
later_than-drop since (suc n) low top (e ∷ es) r h old =
    let over = Rising-oldest n e.seq top es r.1 h in
    let seen : ltb since e.seq ≡ false = ground arith in
    rw seen (later_than-drop since n e.seq top es r.1 h old)

later_than-newest :
    (since top : ℕ) (es : List Event)
    → Rises top es
    → 0 < since
    → (ltb 0 since
        && (ltb 0 (length (newest event_limit es))
            && ltb since (oldest_of (newest event_limit es))))
      ≡ false
    → later_than since (newest event_limit es) ≡ later_than since es
unfolding Rises
later_than-newest since top [] r h whole = refl
later_than-newest since top (e ∷ es) r h whole =
    let size = length-drop (length (e ∷ es) - event_limit) (e ∷ es) in
    later_than-drop since _ 0 top (e ∷ es) r (omega arith) (ground arith)

-- Where Snapshot does not report a truncation to a client that has seen a number already, it gives
-- the client every event ever added with a later number, however many were taken from the log.
pub snapshot-later_than :
    (id : Str) (cs : List Call) (since : ℕ)
    → All Allowed cs
    → 0 < since
    → (snapshot since (run_calls cs (new_log id))).truncated ≡ false
    → (snapshot since (run_calls cs (new_log id))).events
      ≡ later_than since (run_record id cs no_history).all
unfolding snapshot
snapshot-later_than id cs since ok seen whole =
    let s = run_calls-Holds id cs ok in
    ap (later_than since) s.held ∙ later_than-newest since _ _ s.rises seen (rw s.held at whole)
