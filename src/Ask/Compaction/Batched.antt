-- ===== src/Ask/Compaction/Batched.antt =====
-- The answers that AskCompactContext gathers from its maps and batches, internal/jev/jev.go.
use jev_routing.Prelude.{
  ℕ, true, false, Option, none, some, List, [], ◌∷◌, ◌++◌, map, if◌then◌else◌, length,
}
use jev_routing.Text.{Str, lit}
use jev_routing.Json.{Json}
use jev_routing.Compact.{Item, Options, Candidate, Answers}
use jev_routing.Compact.Local.{Question, questions_for, put_question}
use jev_routing.Ask.{Float, AskQuestion, Response, Noul, Decoder, parse_noul}
use jev_routing.Ask.Cache.{
  NoulScore, DecidedAnswers, Client, Attempt, no_kind, AskError, AskResult, answered, refused,
  do_ask,
}
use jev_routing.Ask.Compaction.{
  CompactWorld, compact_key, score_at, decided_at, put_decided, complete_answers, put_scores,
}

-- The variables that the first loop fills.
pub record Gathered : Type 0 where
  pub answers : Answers
  pub attempts : List Attempt
  pub uncached : List Candidate

abbrev pub decided_attempt : ℕ → Attempt
decided_attempt n = record {
  purpose = lit "compact";
  ok = true;
  cached = true;
  status = 0;
  err_kind = no_kind;
  usage = none;
  questions = n;
}

unfoldable pub gather_one : Candidate → Option (List NoulScore) → Gathered → Gathered
gather_one cand none g = record g { uncached = g.uncached ++ (cand ∷ []) }
gather_one cand (some scores) g =
    if complete_answers cand scores
    then record g {
      answers = put_scores scores g.answers;
      attempts = g.attempts ++ (decided_attempt (length scores) ∷ []);
    }
    else record g { uncached = g.uncached ++ (cand ∷ []) }

unfoldable pub gather :
    CompactWorld → Client → Str → Options → List Item → List Candidate → Gathered → Gathered
gather w c goal o items [] g = g
gather w c goal o items (cand ∷ cands) g =
    gather w c goal o items cands
      (gather_one cand (decided_at (compact_key w c goal o items cand) c.decided) g)

abbrev pub nothing_gathered : Gathered
nothing_gathered = record { answers = λ id. none; attempts = []; uncached = [] }

unfoldable pub put_questions : List Question → List Question → List Question
put_questions [] qs = qs
put_questions (q ∷ more) qs = put_questions more (put_question q qs)

-- `jq` of a batch
unfoldable pub batch_questions : List Candidate → List Question → List Question
batch_questions [] qs = qs
batch_questions (cand ∷ batch) qs = batch_questions batch (put_questions (questions_for cand) qs)

abbrev pub as_asked : Question → AskQuestion
as_asked q = record {
  id = q.key;
  type_name = lit "noul";
  instructions = q.instructions;
  criteria = [];
  optional = false;
}

abbrev pub add_noul : Str → Option Noul → List NoulScore → List NoulScore
add_noul id none ss = ss
add_noul id (some n) ss = record { id = id; score = n.noul } ∷ ss

-- `got`
unfoldable pub got_scores : Decoder → Response → List Question → List NoulScore
got_scores d r [] = []
got_scores d r (q ∷ qs) = add_noul q.key (parse_noul d r q.key) (got_scores d r qs)

-- `results[i]` or `errs[i]`
pub data BatchOutcome : Type 0 where
  scored : List NoulScore → BatchOutcome
  unanswered : AskError → BatchOutcome

unfoldable pub batch_outcome : Decoder → List Question → AskResult → BatchOutcome
batch_outcome d qs (answered r) = scored (got_scores d r qs)
batch_outcome d qs (refused e) = unanswered e

pub record BatchRun : Type 0 where
  pub batch : List Candidate
  pub outcome : BatchOutcome
  pub attempts : List Attempt

unfoldable pub ask_batch : CompactWorld → Client → Json → List Candidate → BatchRun
ask_batch w c state batch =
    let qs = batch_questions batch [] in
    let a = do_ask w.world c (lit "compact") state (map as_asked qs) false in
    record {
      batch = batch;
      outcome = batch_outcome w.world.decoder qs a.result;
      attempts = a.attempts;
    }

-- The variables that the last loop fills.
pub record MergedAnswers : Type 0 where
  pub answers : Answers
  pub decided : List DecidedAnswers
  pub first_err : Option AskError

abbrev pub first_of : Option AskError → AskError → Option AskError
first_of none e = some e
first_of (some d) e = some d

abbrev pub add_score : Str → Option Float → List NoulScore → List NoulScore
add_score id none ss = ss
add_score id (some s) ss = record { id = id; score = s } ∷ ss

unfoldable pub subset : List Question → List NoulScore → List NoulScore
subset [] ss = []
subset (q ∷ qs) ss = add_score q.key (score_at q.key ss) (subset qs ss)

module _ (w : CompactWorld) (c : Client) (goal : Str) (o : Options) (items : List Item) where
  unfoldable pub decide_batch :
      List Candidate → List NoulScore → List DecidedAnswers → List DecidedAnswers
  decide_batch [] ss ds = ds
  decide_batch (cand ∷ batch) ss ds =
      let entry : DecidedAnswers = record {
        key = compact_key w c goal o items cand;
        scores = subset (questions_for cand) ss;
      } in
      decide_batch batch ss (if complete_answers cand ss then put_decided entry ds else ds)

  unfoldable pub merge_outcome : List Candidate → BatchOutcome → MergedAnswers → MergedAnswers
  merge_outcome batch (unanswered e) m = record m { first_err = first_of m.first_err e }
  merge_outcome batch (scored ss) m = record m {
    answers = put_scores ss m.answers;
    decided = decide_batch batch ss m.decided;
  }

  unfoldable pub merge_runs : List BatchRun → MergedAnswers → MergedAnswers
  merge_runs [] m = m
  merge_runs (r ∷ rs) m = merge_runs rs (merge_outcome r.batch r.outcome m)

abbrev pub all_attempts : List BatchRun → List Attempt
all_attempts [] = []
all_attempts (r ∷ rs) = r.attempts ++ all_attempts rs
