-- ===== src/Ask/Compaction/Whole.antt =====
-- AskCompactContext of internal/jev/jev.go.
use jev_routing.Prelude.{
  ℕ, Option, none, some, List, [], ◌∷◌, ◌++◌, map, if◌then◌else◌, Go, ok, ◌>>=◌, length,
}
use jev_routing.Text.{Str}
use jev_routing.Compact.{Item, Options, resolve, resolve_recent, Candidate}
use jev_routing.Compact.Candidates.{collect_candidates}
use jev_routing.Compact.Apply.{Result, compact}
use jev_routing.Compact.Local.{compact_local}
use jev_routing.Compact.Fitted.Stages.{FittedState, fit_state}
use jev_routing.Compact.Batches.{batch_candidates}
use jev_routing.Ask.Cache.{Client, Attempt, AskError, is_live}
use jev_routing.Ask.Compaction.{CompactWorld, compaction_state, unpinned}
use jev_routing.Ask.Compaction.Batched.{
  Gathered, gather, nothing_gathered, BatchRun, ask_batch, MergedAnswers, merge_runs, all_attempts,
}

-- What AskCompactContext returns, with the fields of Stats that it sets, the attempts and the client.
pub record CompactAsked : Type 0 where
  pub result : Result
  pub requests : ℕ
  pub fitted : Option FittedState
  pub err : Option AskError
  pub attempts : List Attempt
  pub client : Client

abbrev pub local_asked : Client → Result → CompactAsked
local_asked c r = record {
  result = r;
  requests = 0;
  fitted = none;
  err = none;
  attempts = [];
  client = c;
}

abbrev pub cached_asked : Client → FittedState → Gathered → Result → CompactAsked
cached_asked c fitted g r = record {
  result = r;
  requests = 0;
  fitted = some fitted;
  err = none;
  attempts = g.attempts;
  client = c;
}

abbrev pub remote_asked :
    Client → FittedState → Gathered → List BatchRun → MergedAnswers → Result → CompactAsked
remote_asked c fitted g runs m r = record {
  result = r;
  requests = length runs;
  fitted = some fitted;
  err = m.first_err;
  attempts = g.attempts ++ all_attempts runs;
  client = record c { decided = m.decided };
}

abbrev pub merge_start : Client → Gathered → MergedAnswers
merge_start c g = record { answers = g.answers; decided = c.decided; first_err = none }

-- Without the classifier.
unfoldable pub answer_locally : Client → List Item → Options → Go CompactAsked
answer_locally c items o = do r ← compact_local items o; ok (local_asked c r)

-- The requests of the batches.
unfoldable pub batch_runs :
    CompactWorld → Client → Str → Options → FittedState → List Candidate → List BatchRun
batch_runs w c goal o fitted uncached =
    map (ask_batch w c (compaction_state goal fitted.history))
      (batch_candidates w.world.marshaller.tables w.marshal_questions uncached fitted.tokens o)

-- Where a candidate is not decided yet.
unfoldable pub answer_remotely :
    CompactWorld
    → Client
    → Str
    → Options
    → List Item
    → FittedState
    → Gathered
    → List BatchRun
    → Go CompactAsked
answer_remotely w c goal o items fitted g runs =
    let m = merge_runs w c goal o items runs (merge_start c g) in
    do r ← compact items m.answers o; ok (remote_asked c fitted g runs m r)

unfoldable pub answer_from_cache :
    Client → Options → List Item → FittedState → Gathered → Go CompactAsked
answer_from_cache c o items fitted g = do
  r ← compact items g.answers o
  ok (cached_asked c fitted g r)

abbrev pub by_uncached : List Candidate → Go CompactAsked → Go CompactAsked → Go CompactAsked
by_uncached [] cached remote = cached
by_uncached (cand ∷ cands) cached remote = remote

unfoldable pub answer_live : CompactWorld → Client → Str → Options → List Item → Go CompactAsked
answer_live w c goal o items =
    let cands = unpinned (collect_candidates items (resolve_recent o.preserve_recent)) in
    let r = resolve o in
    let fitted = fit_state w.world.marshaller.tables w.marshal_rows items r in
    let g = gather w c goal r items cands nothing_gathered in
    by_uncached g.uncached (answer_from_cache c r items fitted g)
      (answer_remotely w c goal r items fitted g (batch_runs w c goal r fitted g.uncached))

-- AskCompactContext
unfoldable pub ask_compact : CompactWorld → Client → Str → Options → List Item → Go CompactAsked
ask_compact w c goal o items =
    if is_live c then answer_live w c goal o items else answer_locally c items (resolve o)
