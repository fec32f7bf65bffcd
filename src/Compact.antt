-- ===== src/Compact.antt =====
-- History compaction, internal/compact/compact.go: the data, and the decision for one candidate.
-- A score is a number of millionths, so every constant of the source is exact; scores are only
-- compared.
pub mod Candidates
pub mod Apply
pub mod Truncation
pub mod Totals
pub mod Pairs
pub mod Kept
pub mod Local
pub mod Tokens
pub mod Fitted
pub mod Batches
use jev_routing.Prelude.{
  ℕ, zero, suc, ◌+◌, Bool, true, false, not, ◌&&◌, ◌||◌, Option, none, some, List, [], ◌∷◌, ◌++◌,
  map, leb, if◌then◌else◌, Go, ok, panic, stuck, ℤ, pos, negsuc,
}
use jev_routing.Text.{Str, lit}

pub data Kind : Type 0 where
  text tool_call tool_result summary : Kind

pub data Action : Type 0 where
  keep truncate discard : Action

pub record Item : Type 0 where
  pub id : Str
  pub kind : Kind
  pub chars : ℕ
  pub pair_id : Str
  pub tool : Str
  pub preview : Str
  pub pinned : Bool
  pub body : Str

pub record Decision : Type 0 where
  pub id : Str
  pub action : Action
  pub pinned : Bool
  pub tool : Str

-- `Goal` is not read by the functions below. The lengths and token limits are not negative, and the
-- head is below 2^63 - 120, so that `head+120` is no negative int: the program itself leaves them 0.
pub record Options : Type 0 where
  pub keep_threshold : ℕ
  pub preserve_recent : ℤ
  pub truncate_head_chars : ℕ
  pub max_state_tokens : ℕ
  pub max_request_tokens : ℕ

abbrev pub or_default : ℕ → ℕ → ℕ
or_default zero d = d
or_default (suc n) d = suc n

-- 0 is replaced by the default, and a negative value by 0.
abbrev pub resolve_recent : ℤ → ℕ
resolve_recent (pos zero) = 6
resolve_recent (pos (suc n)) = suc n
resolve_recent (negsuc n) = 0

unfoldable pub resolve : Options → Options
resolve o = record {
  keep_threshold = or_default o.keep_threshold 500000;
  preserve_recent = pos (resolve_recent o.preserve_recent);
  truncate_head_chars = or_default o.truncate_head_chars 300;
  max_state_tokens = or_default o.max_state_tokens 25000;
  max_request_tokens = or_default o.max_request_tokens 30000;
}

pub record Candidate : Type 0 where
  pub items : List Item
  pub pinned : Bool

-- `answers[id]`; a nil map has no entry.
abbrev pub Answers : Type 0
Answers = Str → Option ℕ

abbrev pub is_call : Kind → Bool
is_call tool_call = true
is_call _ = false

abbrev pub is_summary : Kind → Bool
is_summary summary = true
is_summary _ = false

abbrev pub is_text : Kind → Bool
is_text text = true
is_text _ = false

abbrev pub is_result : Kind → Bool
is_result tool_result = true
is_result _ = false

-- The ID and tool of the variables `call` and `result`, which start as the zero Item.
pub record Named : Type 0 where
  pub id : Str
  pub tool : Str

abbrev pub decision : Named → Action → Decision
decision n a = record { id = n.id; action = a; pinned = false; tool = n.tool }

abbrev pub named : Item → Named
named i = record { id = i.id; tool = i.tool }

abbrev pub no_item : Named
no_item = record { id = []; tool = [] }

-- The loop that tells the call of a pair from its result.
unfoldable pub call_of : List Item → Named → Named
call_of [] n = n
call_of (i ∷ is) n = call_of is (if is_call i.kind then named i else n)

unfoldable pub result_of : List Item → Named → Named
result_of [] n = n
result_of (i ∷ is) n = result_of is (if is_call i.kind then n else named i)

-- The two answers on a pair: a missing one keeps both.
unfoldable pub decide_scores : ℕ → Named → Named → Option ℕ → Option ℕ → List Decision
decide_scores threshold call result (some r) (some c) =
    if leb threshold r
    then decision call keep ∷ decision result keep ∷ []
    else if leb threshold c
    then decision call keep ∷ decision result truncate ∷ []
    else decision call discard ∷ decision result discard ∷ []
decide_scores threshold call result _ _ = decision call keep ∷ decision result keep ∷ []

unfoldable pub decide_pair : ℕ → Answers → Named → Named → List Decision
decide_pair threshold answers call result =
    decide_scores threshold call result (answers (lit "result_" ++ result.id))
      (answers (lit "call_" ++ call.id))

-- The key of an item that stands alone.
abbrev pub single_key : Item → Str
single_key i = (if is_summary i.kind then lit "summary_" else lit "result_") ++ i.id

unfoldable pub decide_single_score : ℕ → Item → Option ℕ → List Decision
decide_single_score threshold i none = decision (named i) keep ∷ []
decide_single_score threshold i (some score) =
    if leb threshold score
    then decision (named i) keep ∷ []
    else if is_summary i.kind
    then decision (named i) discard ∷ []
    else decision (named i) truncate ∷ []

unfoldable pub keep_pinned : Item → Decision
keep_pinned i = record { id = i.id; action = keep; pinned = true; tool = i.tool }

-- DecideCall. `c.Items[0]` of an empty candidate is a panic.
unfoldable pub decide_items : List Item → Answers → ℕ → Go (List Decision)
decide_items [] answers threshold = panic
decide_items (i ∷ []) answers threshold =
    ok (decide_single_score threshold i (answers (single_key i)))
decide_items (i ∷ j ∷ []) answers threshold =
    let pair = i ∷ j ∷ [] in
    ok (decide_pair threshold answers (call_of pair no_item) (result_of pair no_item))
decide_items (i ∷ j ∷ k ∷ is) answers threshold =
    ok (decide_single_score threshold i (answers (single_key i)))

unfoldable pub decide_call : Candidate → Answers → ℕ → Go (List Decision)
unfolding decide_items decide_pair decide_scores decide_single_score keep_pinned
decide_call c answers threshold =
    if c.pinned then ok (map keep_pinned c.items) else decide_items c.items answers threshold
