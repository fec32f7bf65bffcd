-- ===== src/Compact/Apply.antt =====
-- TruncateBody, Apply, Reduction, Compact and KeepAll of internal/compact/compact.go.
use jev_routing.Prelude.{
  ℕ, ◌+◌, ◌-◌, Bool, true, false, Option, none, some, List, [], ◌∷◌, ◌++◌, ltb, leb, if◌then◌else◌,
  length, take, Go, ok, ◌>>=◌,
}
use jev_routing.Text.{Str, lit, str_eq, is_blank, decimal}
use jev_routing.Compact.{
  Action, keep, truncate, discard, Item, Decision, Candidate, Options, Answers, is_text, decision,
  named, decide_call, resolve, resolve_recent,
}
use jev_routing.Compact.Candidates.{add_some, collect_candidates}

-- `byID[id]`: of several decisions with one ID the last is found.
unfoldable pub decision_of : List Decision → Str → Option Decision
decision_of [] id = none
decision_of (d ∷ ds) id = elim (decision_of ds id) [
  | some e ↦ some e
  | none ↦ if str_eq d.id id then some d else none
]

unfoldable pub clip : Str → ℕ → Str
clip s n = if leb (length s) n then s else take n s

-- TruncateBody, of a head from 0 to 2^63 - 121: `head+120` does not wrap around then, and `text[:head]`
-- is in range where it is reached.
unfoldable pub truncate_body : Str → Bool → ℕ → Str
truncate_body text is_error head =
    if leb (length text) (head + 120)
    then text
    else (if ltb 0 head then take head text ++ lit "\n" else [])
      ++ (lit "[jev-compaction truncated "
          ++ (decimal (length text - head)
              ++ (lit " chars of this tool result"
                  ++ ((if is_error then lit " (error)" else [])
                      ++ lit "; re-run the tool if needed]"))))

-- The body that a truncated item gets.
unfoldable pub shortened : Item → ℕ → Str
shortened i head =
    let body = truncate_body i.body false head in
    if is_blank body then truncate_body i.preview false head else body

-- What Apply does with one item under the decision found for it.
unfoldable pub apply_action : ℕ → Item → Action → Option Item
apply_action head i keep = some i
apply_action head i discard = none
apply_action head i truncate =
    let body = shortened i head in
    some (record i { body = body; preview = clip body 200; chars = length body })

unfoldable pub action_for : List Decision → Item → Action
action_for decisions i = elim (decision_of decisions i.id) [ none ↦ keep | some d ↦ d.action ]

unfoldable pub apply : List Item → List Decision → ℕ → List Item
apply [] decisions head = []
apply (i ∷ is) decisions head =
    add_some (apply_action head i (action_for decisions i)) (apply is decisions head)

unfoldable pub chars_after : Item → Action → ℕ → ℕ
chars_after i keep head = i.chars
chars_after i discard head = 0
chars_after i truncate head = if ltb i.chars head then i.chars else head

pub record Stats : Type 0 where
  pub chars_before : ℕ
  pub chars_after : ℕ
  pub chars_dropped : ℕ
  pub kept : ℕ
  pub truncated : ℕ
  pub dropped : ℕ
  pub pinned : ℕ
  pub items : ℕ

abbrev pub one_if : Bool → ℕ
one_if true = 1
one_if false = 0

abbrev pub is_keep : Action → Bool
is_keep keep = true
is_keep _ = false

abbrev pub is_truncate : Action → Bool
is_truncate truncate = true
is_truncate _ = false

abbrev pub is_drop : Action → Bool
is_drop discard = true
is_drop _ = false

abbrev pub pinned_for : List Decision → Item → Bool
pinned_for decisions i = elim (decision_of decisions i.id) [ none ↦ false | some d ↦ d.pinned ]

-- The loop of Reduction, and what it adds for one item.
unfoldable pub count_item : Stats → Item → Action → Bool → ℕ → Stats
unfolding chars_after
count_item s i a pinned head = record s {
  chars_before = s.chars_before + i.chars;
  chars_after = s.chars_after + chars_after i a head;
  kept = s.kept + one_if (is_keep a);
  truncated = s.truncated + one_if (is_truncate a);
  dropped = s.dropped + one_if (is_drop a);
  pinned = s.pinned + one_if pinned;
}

unfoldable pub reduction_loop : Stats → List Item → List Decision → ℕ → Stats
reduction_loop s [] decisions head = s
reduction_loop s (i ∷ is) decisions head =
    reduction_loop (count_item s i (action_for decisions i) (pinned_for decisions i) head) is
      decisions head

abbrev pub no_stats : ℕ → Stats
no_stats n = record {
  chars_before = 0;
  chars_after = 0;
  chars_dropped = 0;
  kept = 0;
  truncated = 0;
  dropped = 0;
  pinned = 0;
  items = n;
}

unfoldable pub reduction : List Item → List Decision → ℕ → Stats
reduction items decisions head =
    let s = reduction_loop (no_stats (length items)) items decisions head in
    record s { chars_dropped = s.chars_before - s.chars_after }

pub record Result : Type 0 where
  pub decisions : List Decision
  pub items : List Item
  pub stats : Stats

abbrev pub result_with : List Item → List Decision → ℕ → Result
result_with items decisions head = record {
  decisions = decisions;
  items = apply items decisions head;
  stats = reduction items decisions head;
}

unfoldable pub keep_decisions : List Item → List Decision
keep_decisions [] = []
keep_decisions (i ∷ is) =
    let rest = keep_decisions is in if is_text i.kind then rest else decision (named i) keep ∷ rest

unfoldable pub keep_all : List Item → Options → Result
keep_all items o = result_with items (keep_decisions items) (resolve o).truncate_head_chars

-- The loop of Compact over the candidates.
unfoldable pub decide_all : List Candidate → Answers → ℕ → Go (List Decision)
decide_all [] answers threshold = ok []
decide_all (c ∷ cs) answers threshold = do
  ds ← decide_call c answers threshold
  rest ← decide_all cs answers threshold
  ok (ds ++ rest)

unfoldable pub compact : List Item → Answers → Options → Go Result
compact items answers o = do
  decisions ←
      decide_all (collect_candidates items (resolve_recent o.preserve_recent)) answers
        (resolve o).keep_threshold
  ok (result_with items decisions (resolve o).truncate_head_chars)
