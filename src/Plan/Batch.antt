-- ===== src/Plan/Batch.antt =====
-- RouteBatch of internal/plan/batch.go. `expired` is whether the deadline has passed when the item of
-- that index is reached. A map is the list of its entries, one for each key.
pub mod Items
use jev_routing.Prelude.{
  ℕ, zero, suc, ◌+◌, Bool, true, false, not, Option, none, some, List, [], ◌∷◌, ◌++◌, if◌then◌else◌,
  String,
}
use jev_routing.Text.{Str, lit, str_eq, is_blank}
use jev_routing.Plan.Catalog.{eligible_of}
use jev_routing.Plan.Route.{
  RouteRequest, RouteOutcome, route_selected, no_decision, RouteResult, Answer, Criterion,
  ChoiceAsker, Runtime, no_match, criteria_of, refuse, route,
}

pub record BatchItem : Type 0 where
  pub id : Str
  pub request : RouteRequest

pub record BatchResult : Type 0 where
  pub id : Str
  pub route : RouteResult
  pub asked : Bool
  pub cached : Bool
  pub fallback : Bool
  pub missing : Bool
  pub input_tok : Option ℕ
  pub output_tok : Option ℕ

-- One entry of `questions`.
pub record BatchQuestion : Type 0 where
  pub id : Str
  pub criteria : List Criterion

pub record BatchAnswer : Type 0 where
  pub id : Str
  pub choice : Str
  pub confidence : ℕ

-- What the asker returns; a confidence that is missing is 0.
pub record BatchReply : Type 0 where
  pub answers : List BatchAnswer
  pub usage_in : Option ℕ
  pub usage_out : Option ℕ
  pub cached : Bool
  pub failed : Bool
  pub out_of_time : Bool

abbrev pub BatchAsker : Type 0
BatchAsker = List BatchQuestion → BatchReply

-- One entry of `pending`.
pub record Pending : Type 0 where
  pub id : Str
  pub index : ℕ

-- `out`, `questions` and `pending`.
pub record Prepared : Type 0 where
  pub out : List BatchResult
  pub questions : List BatchQuestion
  pub pending : List Pending

abbrev pub local_result : Str → RouteResult → BatchResult
local_result id r = record {
  id = id;
  route = r;
  asked = false;
  cached = false;
  fallback = false;
  missing = false;
  input_tok = none;
  output_tok = none;
}

abbrev pub fall_back : BatchResult → String → BatchResult
fall_back b reason = record b { fallback = true; route = refuse b.route (lit reason) }

-- `questions[q.id] = q` and `pending[p.id] = p.index`
unfoldable pub set_question : BatchQuestion → List BatchQuestion → List BatchQuestion
set_question q [] = q ∷ []
set_question q (x ∷ xs) = if str_eq x.id q.id then q ∷ xs else x ∷ set_question q xs

unfoldable pub set_pending : Pending → List Pending → List Pending
set_pending p [] = p ∷ []
set_pending p (x ∷ xs) = if str_eq x.id p.id then p ∷ xs else x ∷ set_pending p xs

abbrev pub is_selected : RouteOutcome → Bool
is_selected route_selected = true
is_selected no_decision = false

unfoldable pub question_for : BatchItem → BatchQuestion
question_for item = record {
  id = item.id;
  criteria =
      record { id = no_match; text = lit "none of the candidates fit" }
      ∷ criteria_of (eligible_of item.request.catalog.items);
}

-- One round of the first loop.
unfoldable pub prepare : Runtime → (ℕ → Bool) → ℕ → BatchItem → Prepared → Prepared
prepare t expired i item p =
    let b = local_result item.id (route t item.request none) in
    if is_selected b.route.outcome
    then record p { out = p.out ++ (b ∷ []) }
    else if expired i
    then record p { out = p.out ++ (fall_back b "ask_timeout" ∷ []) }
    else record {
      out = p.out ++ (b ∷ []);
      questions = set_question (question_for item) p.questions;
      pending = set_pending (record { id = item.id; index = i }) p.pending;
    }

unfoldable pub prepare_all : Runtime → (ℕ → Bool) → ℕ → List BatchItem → Prepared → Prepared
prepare_all t expired i [] p = p
prepare_all t expired i (item ∷ items) p =
    prepare_all t expired (i + 1) items (prepare t expired i item p)

unfoldable pub answer_to : Str → List BatchAnswer → Option BatchAnswer
answer_to id [] = none
answer_to id (a ∷ rest) = if str_eq a.id id then some a else answer_to id rest

-- The asker that Route gets: it gives the answer of the batch.
abbrev pub given : BatchAnswer → ChoiceAsker
given a text criteria = some (record { choice = a.choice; confidence = a.confidence })

unfoldable pub take_answer : Runtime → BatchItem → BatchResult → Option BatchAnswer → BatchResult
take_answer t item b none = fall_back (record b { missing = true }) "missing_answer"
take_answer t item b (some a) =
    let got = route t item.request (some (given a)) in
    if is_blank a.choice
    then fall_back (record b { missing = true }) "missing_answer"
    else record b { route = got; fallback = not (is_selected got.outcome) }

-- One round of the second loop, on the item and result of its index.
unfoldable pub conclude : Runtime → BatchReply → BatchItem → BatchResult → BatchResult
conclude t r item b =
    let asked = record b {
      asked = true;
      cached = r.cached;
      input_tok = r.usage_in;
      output_tok = r.usage_out;
    } in
    if r.failed
    then fall_back asked (if r.out_of_time then "ask_timeout" else "ask_failed")
    else take_answer t item asked (answer_to item.id r.answers)

-- `out[idx]` is replaced; the lists are as long as each other.
unfoldable pub conclude_at :
    Runtime → BatchReply → ℕ → List BatchItem → List BatchResult → List BatchResult
conclude_at t r zero (item ∷ items) (b ∷ out) = conclude t r item b ∷ out
conclude_at t r (suc n) (item ∷ items) (b ∷ out) = b ∷ conclude_at t r n items out
conclude_at t r n items out = out

unfoldable pub conclude_all :
    Runtime → BatchReply → List Pending → List BatchItem → List BatchResult → List BatchResult
conclude_all t r [] items out = out
conclude_all t r (p ∷ ps) items out = conclude_all t r ps items (conclude_at t r p.index items out)

abbrev pub nothing_prepared : Prepared
nothing_prepared = record { out = []; questions = []; pending = [] }

abbrev pub no_pending : List Pending → Bool
no_pending [] = true
no_pending (p ∷ ps) = false

unfoldable pub ask_pending :
    Runtime → Option BatchAsker → List BatchItem → Prepared → List BatchResult
ask_pending t none items p = p.out
ask_pending t (some ask) items p =
    if no_pending p.pending then p.out else conclude_all t (ask p.questions) p.pending items p.out

-- RouteBatch
unfoldable pub route_batch :
    Runtime → (ℕ → Bool) → List BatchItem → Option BatchAsker → List BatchResult
route_batch t expired items ask =
    ask_pending t ask items (prepare_all t expired 0 items nothing_prepared)
