-- ===== src/Events/Refine.antt =====
-- The event log beside the history that it stands for.
use jev_routing.Prelude.{
  ℕ, zero, suc, ◌+◌, ◌-◌, ◌≤◌, ◌≡◌, refl, sym, ap, ◌∙◌, true, List, [], ◌∷◌, ◌++◌, map, leb, ◌==◌,
  length, drop, length-append, length-drop, drop-append, All, arith, Bool-cases, inl, inr,
}
use jev_routing.Text.{Str}
use jev_routing.Events.{
  Event, Log, event_limit, new_log, next_seq, stamp, rest_of, keep_recent, add_event, update_first,
  update,
}
use jev_routing.Events.Spec.{
  History, Call, reserve, add, change, Allowed, called, changed_at, noted, run_calls, run_record,
  no_history, newest,
}
use jev_routing.Events.Rising.{
  Rising, Rises, Rising-weak, Rising-append, Rising-changed, update_first-changed, Rising-drop,
}

map-drop : (g : Event → Event) (n : ℕ) (es : List Event) → map g (drop n es) ≡ drop n (map g es)
map-drop g zero es = refl
map-drop g (suc n) [] = refl
map-drop g (suc n) (e ∷ es) = map-drop g n es

length-map : (g : Event → Event) (es : List Event) → length (map g es) ≡ length es
length-map g [] = refl
length-map g (e ∷ es) = ap suc (length-map g es)

rest_of-drop : (n : ℕ) (es : List Event) → rest_of (drop n es) ≡ drop (suc n) es
rest_of-drop zero [] = refl
rest_of-drop zero (e ∷ es) = refl
rest_of-drop (suc n) [] = refl
rest_of-drop (suc n) (e ∷ es) = rest_of-drop n es

keep_recent-newest :
    (es : List Event) (e : Event)
    → keep_recent (newest event_limit es) e ≡ newest event_limit (es ++ (e ∷ []))
unfolding keep_recent
keep_recent-newest es e = elim (Bool-cases (leb event_limit (length (newest event_limit es)))) [
  | inl full ↦
      let more : length (es ++ (e ∷ [])) - event_limit ≡ suc (length es - event_limit) =
        ground (arith, length-append es (e ∷ []), length-drop (length es - event_limit) es) in
      let within : suc (length es - event_limit) ≤ length es =
        ground (arith, length-drop (length es - event_limit) es) in
      rw (full, more, rest_of-drop (length es - event_limit) es)
        (sym (drop-append _ es (e ∷ []) within))
  | inr room ↦
      let none_old : length es - event_limit ≡ 0 =
        ground (arith, length-drop (length es - event_limit) es) in
      let none_new : length (es ++ (e ∷ [])) - event_limit ≡ 0 =
        ground (arith, length-append es (e ∷ []), length-drop (length es - event_limit) es) in
      rw (room, none_old, none_new)
]

newest-map :
    (n : ℕ) (g : Event → Event) (es : List Event) → newest n (map g es) ≡ map g (newest n es)
newest-map n g es = rw (length-map g es) (sym (map-drop g (length es - n) es))

-- The log `l` holds the newest events of the history `h`.
pub record Holds (id : Str) (l : Log) (h : History) : Type 0 where
  pub named : l.instance_id ≡ id
  pub counted : l.seq ≡ h.seq
  pub held : l.items ≡ newest event_limit h.all
  pub rises : Rises h.seq h.all

add_event-fresh :
    (now : ℕ) (e : Event) (l : Log)
    → e.seq ≡ 0
    → add_event now e l ≡ record l {
      seq = l.seq + 1;
      items = keep_recent l.items (stamp l.instance_id now (l.seq + 1) e);
    }
unfolding add_event
add_event-fresh now e l fresh = let unset : (e.seq == 0) ≡ true = ground arith in rw unset

stamped :
    (id : Str) (now : ℕ) (e : Event) (l : Log) (h : History)
    → Holds id l h
    → stamp l.instance_id now (l.seq + 1) e ≡ stamp id now (h.seq + 1) e
stamped id now e l h s = λ i. stamp (s.named i) now (s.counted i + 1) e

add-Holds :
    (id : Str) (now : ℕ) (e : Event) (l : Log) (h : History)
    → e.seq ≡ 0
    → Holds id l h
    → Holds id (add_event now e l) (noted id (add now e) h)
unfolding noted Rises stamp
add-Holds id now e l h fresh s = rw (add_event-fresh now e l fresh) (record {
  named = s.named;
  counted = ap (λ n. n + 1) s.counted;
  held =
      (λ i. keep_recent (s.held i) (stamped id now e l h s i))
      ∙ keep_recent-newest h.all (stamp id now (h.seq + 1) e);
  rises = Rising-append 0 h.seq h.all (stamp id now (h.seq + 1) e) s.rises refl;
})

called-Holds :
    (id : Str) (c : Call) (l : Log) (h : History)
    → Allowed c
    → Holds id l h
    → Holds id (called c l) (noted id c h)
unfolding called noted Allowed next_seq Rises update
called-Holds id reserve l h ok s = record {
  named = s.named;
  counted = ap (λ n. n + 1) s.counted;
  held = s.held;
  rises = Rising-weak 0 h.seq h.all s.rises;
}
called-Holds id (add now e) l h ok s = add-Holds id now e l h ok s
called-Holds id (change seq f) l h ok s = record {
  named = s.named;
  counted = s.counted;
  held =
      let (low, r) = Rising-drop (length h.all - event_limit) 0 h.seq h.all s.rises in
      ap (update_first seq f) s.held
      ∙ (update_first-changed low h.seq seq f _ r
          ∙ sym (newest-map event_limit (changed_at seq f) h.all));
  rises = Rising-changed 0 h.seq seq f h.all ok s.rises;
}

run-Holds :
    (id : Str) (cs : List Call) (l : Log) (h : History)
    → All Allowed cs
    → Holds id l h
    → Holds id (run_calls cs l) (run_record id cs h)
unfolding run_calls run_record
run-Holds id [] l h ok s = s
run-Holds id (c ∷ cs) l h ok s =
    run-Holds id cs (called c l) (noted id c h) ok.1 (called-Holds id c l h ok.0 s)

-- After any calls of NextSeq, Add and Update on a new log, it has handed out as many numbers as the
-- history of the calls, and holds the newest thousand events of all that were added, each as the
-- last update left it, with rising numbers. Events are added without a number, and an update
-- leaves the number.
pub run_calls-Holds :
    (id : Str) (cs : List Call)
    → All Allowed cs
    → Holds id (run_calls cs (new_log id)) (run_record id cs no_history)
unfolding Rises Rising
run_calls-Holds id cs ok =
    run-Holds id cs (new_log id) no_history ok
      (record { named = refl; counted = refl; held = refl; rises = omega arith })
