-- ===== src/Events.antt =====
-- The event log, internal/proxy/events.go. A call holds the lock until it returns, so it is one
-- step. The fields of Event that the log neither reads nor sets are left out; a time is a number, 0
-- the zero time; sequence numbers and counts are not negative and do not overflow.
pub mod Spec
pub mod Rising
pub mod Refine
pub mod Polling
pub mod Tally
use jev_routing.Prelude.{
  ℕ, ◌+◌, Bool, true, false, not, ◌&&◌, List, [], ◌∷◌, ◌++◌, ltb, leb, ◌==◌, if◌then◌else◌, length,
  take,
}
use jev_routing.Text.{Str, lit, str_eq, is_blank}

pub record Event : Type 0 where
  pub seq : ℕ
  pub instance_id : Str
  pub ts : ℕ
  pub chosen : Str
  pub reason : Str
  pub source : Str
  pub applied : Str
  pub original_model : Str
  pub sent_model : Str
  pub method : Str
  pub content_type : Str
  pub jev_calls : ℕ
  pub jev_cached : ℕ
  pub jev_failed : ℕ
  pub connect_status : Str

-- EventLog, without its lock and start time.
pub record Log : Type 0 where
  pub instance_id : Str
  pub seq : ℕ
  pub items : List Event

abbrev pub event_limit : ℕ
event_limit = 1000

abbrev pub event_str_max : ℕ
event_str_max = 200

-- newEventLog
abbrev pub new_log : Str → Log
new_log id = record { instance_id = id; seq = 0; items = [] }

-- clipEvent
abbrev pub clip_event : Str → Str
clip_event s = if leb (length s) event_str_max then s else take event_str_max s

-- NextSeq; the number it returns is the `seq` of the new log.
unfoldable pub next_seq : Log → Log
next_seq l = record l { seq = l.seq + 1 }

-- What Add writes into an event whose number is `seq`; `now` is the clock.
unfoldable pub stamp : Str → ℕ → ℕ → Event → Event
stamp id now seq e = record e {
  seq = seq;
  instance_id = id;
  ts = if e.ts == 0 then now else e.ts;
  chosen = clip_event e.chosen;
  reason = clip_event e.reason;
  source = clip_event e.source;
  applied = clip_event e.applied;
  original_model = clip_event e.original_model;
  sent_model = clip_event e.sent_model;
  method = clip_event e.method;
  content_type = clip_event e.content_type;
}

-- `items[1:]`
abbrev pub rest_of : List Event → List Event
rest_of [] = []
rest_of (e ∷ es) = es

-- The items after `append`, from which the oldest was taken where there were as many as the limit.
unfoldable pub keep_recent : List Event → Event → List Event
keep_recent items e = (if leb event_limit (length items) then rest_of items else items) ++ (e ∷ [])

-- Add; the event it returns is the last of the items.
unfoldable pub add_event : ℕ → Event → Log → Log
add_event now e l =
    let seq = (if e.seq == 0 then l.seq + 1 else e.seq) in
    record l {
      seq = if e.seq == 0 then l.seq + 1 else l.seq;
      items = keep_recent l.items (stamp l.instance_id now seq e);
    }

unfoldable pub update_first : ℕ → (Event → Event) → List Event → List Event
update_first seq f [] = []
update_first seq f (e ∷ es) = if e.seq == seq then f e ∷ es else e ∷ update_first seq f es

-- Update
unfoldable pub update : ℕ → (Event → Event) → Log → Log
update seq f l = record l { items = update_first seq f l.items }

unfoldable pub later_than : ℕ → List Event → List Event
later_than since [] = []
later_than since (e ∷ es) =
    let later = later_than since es in if ltb since e.seq then e ∷ later else later

pub record Snapshot : Type 0 where
  pub events : List Event
  pub recorded : ℕ
  pub oldest : ℕ
  pub truncated : Bool

abbrev pub oldest_of : List Event → ℕ
oldest_of [] = 0
oldest_of (e ∷ es) = e.seq

-- Snapshot
unfoldable pub snapshot : ℕ → Log → Snapshot
snapshot since l =
    let recorded = length l.items in
    let oldest = oldest_of l.items in
    record {
      events = later_than since l.items;
      recorded = recorded;
      oldest = oldest;
      truncated = ltb 0 since && (ltb 0 recorded && ltb since oldest);
    }

-- The map that Counts returns.
pub record Count : Type 0 where
  pub key : Str
  pub value : ℕ

-- `out[key] += n`
unfoldable pub bump : Str → ℕ → List Count → List Count
bump key n [] = record { key = key; value = n } ∷ []
bump key n (c ∷ cs) =
    if str_eq c.key key then record c { value = c.value + n } ∷ cs else c ∷ bump key n cs

abbrev pub bump_named : Str → Str → List Count → List Count
bump_named prefix name out = if is_blank name then out else bump (prefix ++ name) 1 out

unfoldable pub count_event : Event → List Count → List Count
count_event e out =
    let out = bump (lit "total") 1 out in
    let out = bump_named (lit "source_") e.source out in
    let out = bump_named (lit "apply_") e.applied out in
    let out = bump (lit "jev_calls") e.jev_calls out in
    let out = bump (lit "jev_cached") e.jev_cached out in
    let out = bump (lit "jev_failed") e.jev_failed out in
    bump_named (lit "connect_") e.connect_status out

unfoldable pub count_events : List Event → List Count → List Count
count_events [] out = out
count_events (e ∷ es) out = count_events es (count_event e out)

-- Counts
unfoldable pub counts : Log → List Count
counts l = count_events l.items []
