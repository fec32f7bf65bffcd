-- ===== src/Ask/Compaction.antt =====
-- AskCompactContext of internal/jev/jev.go. The requests of the batches run side by side in the source;
-- each writes a result of its own, and they are read in the order of the batches.
pub mod Batched
pub mod Whole
pub mod Failing
pub mod Down
use jev_routing.Prelude.{
  ℕ, ◌+◌, Bool, true, false, not, ◌&&◌, Option, none, some, List, [], ◌∷◌, ◌++◌, map, any,
  if◌then◌else◌, ℤ, pos, Go, ok, ◌>>=◌, length,
}
use jev_routing.Text.{Str, lit, str_eq, is_blank}
use jev_routing.Json.{Json, number, string, array, object, Elements, end, member, Members, of_list}
use jev_routing.Compact.{
  Kind, text, tool_call, tool_result, summary, Item, Options, resolve, resolve_recent, Candidate,
  Answers,
}
use jev_routing.Compact.Candidates.{collect_candidates}
use jev_routing.Compact.Apply.{Result, compact}
use jev_routing.Compact.Local.{Question, questions_for, put_question, put_answer, compact_local}
use jev_routing.Compact.Fitted.{ShownRow}
use jev_routing.Compact.Fitted.Stages.{Stage, FittedState, fit_state}
use jev_routing.Compact.Batches.{batch_candidates}
use jev_routing.Ask.{Float, finite, AskQuestion, Response, Noul, Decoder, parse_noul}
use jev_routing.Ask.Cache.{
  NoulScore, DecidedAnswers, Client, Attempt, AskError, AskResult, answered, refused, AskOutcome,
  World, is_live, cached_attempt, do_ask,
}

-- StateContext of internal/compact/state.go
abbrev pub state_context : Str
state_context =
    lit
      "A coding assistant conversation is being compacted to free context. `history` is the whole conversation so far, oldest first; tool outputs are replaced by a short `result` note and long texts may be abridged. Each question asks whether one tool call, or the full output of that call, still needs to stay in the history verbatim. Whatever is not kept is deleted permanently, but the assistant can always re-run a tool or re-read a file."

abbrev pub kind_string : Kind → Str
kind_string text = lit "text"
kind_string tool_call = lit "tool_call"
kind_string tool_result = lit "tool_result"
kind_string summary = lit "summary"

abbrev pub optional_member : Str → Option Str → Members → Members
optional_member k none ms = ms
optional_member k (some s) ms = member k (string s) ms

abbrev pub row_json : ShownRow → Json
row_json r = object (
    member (lit "id") (string r.id) (
      member (lit "kind") (string (kind_string r.kind)) (
        member (lit "chars") (number (pos r.chars) (pos 0)) (
          optional_member (lit "tool") r.tool (
            optional_member (lit "result") r.result
              (optional_member (lit "preview") r.preview end))))))

-- The state that every batch is sent with.
unfoldable pub compaction_state : Str → List ShownRow → Json
compaction_state goal rows = object (
    member (lit "context") (string state_context) (
      member (lit "goal") (string goal)
        (member (lit "history") (array (of_list (map row_json rows))) end)))

-- What compactKey makes the key of a candidate from.
pub record KeyRow : Type 0 where
  pub id : Str
  pub kind : Kind
  pub tool : Str
  pub body : Str
  pub pair_id : Str

pub record CompactPayload : Type 0 where
  pub goal : Str
  pub history : List KeyRow
  pub candidate : List KeyRow
  pub questions : List Question
  pub options : Options
  pub model : Str
  pub url : Str

-- The libraries, beside those of doAsk.
pub record CompactWorld : Type 0 where
  pub world : World
  pub marshal_key : CompactPayload → Option Str
  pub marshal_rows : List ShownRow → Option Str
  pub marshal_questions : List Question → Option Str

abbrev pub key_row : Item → KeyRow
key_row i = record { id = i.id; kind = i.kind; tool = i.tool; body = i.body; pair_id = i.pair_id }

-- compactKey
unfoldable pub compact_key : CompactWorld → Client → Str → Options → List Item → Candidate → Str
compact_key w c goal o items cand =
    elim (w.marshal_key (record {
      goal = goal;
      history = map key_row items;
      candidate = map key_row cand.items;
      questions = questions_for cand;
      options = o;
      model = c.model;
      url = c.base_url;
    })) [ none ↦ [] | some b ↦ w.world.digest b ]

unfoldable pub score_at : Str → List NoulScore → Option Float
score_at id [] = none
score_at id (s ∷ ss) = if str_eq s.id id then some s.score else score_at id ss

unfoldable pub decided_at : Str → List DecidedAnswers → Option (List NoulScore)
decided_at key [] = none
decided_at key (d ∷ ds) = if str_eq d.key key then some d.scores else decided_at key ds

unfoldable pub put_decided : DecidedAnswers → List DecidedAnswers → List DecidedAnswers
put_decided d [] = d ∷ []
put_decided d (x ∷ xs) = if str_eq x.key d.key then d ∷ xs else x ∷ put_decided d xs

unfoldable pub has_score : List NoulScore → Question → Bool
has_score ss q = elim (score_at q.key ss) [ none ↦ false | some s ↦ true ]

abbrev pub for_all : (Question → Bool) → List Question → Bool
for_all p [] = true
for_all p (q ∷ qs) = p q && for_all p qs

-- completeAnswers, of an entry that is there
unfoldable pub complete_answers : Candidate → List NoulScore → Bool
complete_answers cand scores = for_all (has_score scores) (questions_for cand)

-- A validated score in millionths; it is finite and not negative.
unfoldable pub millionths : Float → ℕ
millionths (finite (pos n)) = n
millionths _ = 0

-- `for k, v := range cached { answers[k] = v }`
unfoldable pub put_scores : List NoulScore → Answers → Answers
put_scores [] answers = answers
put_scores (s ∷ ss) answers = put_scores ss (put_answer s.id (millionths s.score) answers)

-- `unPinnedCandidates`
unfoldable pub unpinned : List Candidate → List Candidate
unpinned [] = []
unpinned (c ∷ cs) = let rest = unpinned cs in if c.pinned then rest else c ∷ rest
