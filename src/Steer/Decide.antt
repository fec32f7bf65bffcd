-- ===== src/Steer/Decide.antt =====
-- rewriteCodexSteer of internal/proxy/codex_steer.go. Scores are in millionths. The body that is
-- sent is the decoded object, since `json.Marshal` does not fail on it.
use jev_routing.Prelude.{
  ℕ, Bool, true, false, not, pos, Option, none, some, List, [], ◌∷◌, ◌++◌, map, ltb, if◌then◌else◌,
  String,
}
use jev_routing.Text.{Str, lit, str_eq, is_blank}
use jev_routing.Json.{Json, Members, null, boolean, number, string, object, end, member, get, set}
use jev_routing.Steer.{ToolKind, custom, hosted, SteerTool, declared_tools, tools_from}
use jev_routing.Steer.Turns.{Turn, Conversation, turns_from}
use jev_routing.Steer.Turns.Limits.{State, build_state, ToolCriterion, tool_criteria}

-- The classifier's two answers, checked: `none` is one that is missing or invalid.
pub record Picked : Type 0 where
  pub choice : Str
  pub confidence : ℕ

pub record SteerAnswers : Type 0 where
  pub picked : Option Picked
  pub needs : Option ℕ

-- A call of the classifier; `none` is an error. It stands for the one call that a request makes: what
-- is stated of two requests takes a classifier for each.
abbrev pub Classifier : Type 0
Classifier = State → List ToolCriterion → Option SteerAnswers

-- `json.Marshal`, the order in which Go visits a map, and the client, `none` where it is not live.
pub record Services : Type 0 where
  pub marshal : Json → Str
  pub visit : List Str → List Str
  pub client : Option Classifier

pub data Apply : Type 0 where
  unapplied forced codex_none : Apply

-- The result, with the fields of RewriteStats that are set.
pub record Steered : Type 0 where
  pub out : Members
  pub asked : Bool
  pub failed : Bool
  pub changed : Bool
  pub apply : Apply
  pub reason : Str
  pub chosen : Str
  pub forced_tool : Str
  pub candidate_names : List Str

-- jsonTruthy
unfoldable pub json_truthy : Option Json → Bool
json_truthy none = false
json_truthy (some null) = false
json_truthy (some (boolean b)) = b
json_truthy (some (string s)) = not (is_blank s)
json_truthy (some (number (pos m) e)) = ltb 0 m
json_truthy (some v) = true

pub data ToolChoice : Type 0 where
  auto required decided : ToolChoice

-- codexToolChoiceState
unfoldable pub tool_choice_state : Option Json → ToolChoice
tool_choice_state none = auto
tool_choice_state (some null) = auto
tool_choice_state (some (string s)) =
    if str_eq s (lit "auto") then auto else if str_eq s (lit "required") then required else decided
tool_choice_state (some v) = decided

unfoldable pub find_tool : List SteerTool → Str → Option SteerTool
find_tool [] name = none
find_tool (t ∷ ts) name = if str_eq t.name name then some t else find_tool ts name

-- The result before anything is decided.
abbrev pub untouched : Members → Steered
untouched root = record {
  out = root;
  asked = false;
  failed = false;
  changed = false;
  apply = unapplied;
  reason = [];
  chosen = [];
  forced_tool = [];
  candidate_names = [];
}

-- The closure `passthrough`.
abbrev pub pass_through : Steered → String → Steered
pass_through s reason = record s { reason = lit reason; chosen = lit "passthrough:" ++ lit reason }

abbrev pub choice_key : Str
choice_key = lit "tool_choice"

abbrev pub no_tool : Str
no_tool = lit "no_tool_needed"

abbrev pub kind_name : ToolKind → Str
kind_name custom = lit "custom"
kind_name _ = lit "function"

abbrev pub is_hosted : ToolKind → Bool
is_hosted hosted = true
is_hosted _ = false

unfoldable pub forced_choice : SteerTool → Str → Json
forced_choice t name =
    object (member (lit "type") (string (kind_name t.kind)) (member (lit "name") (string name) end))

abbrev pub tool_steered : Steered → SteerTool → Str → Steered
tool_steered s t name = record s {
  out = set choice_key (forced_choice t name) s.out;
  changed = true;
  apply = forced;
  chosen = name;
  forced_tool = name;
}

unfoldable pub force : Steered → Str → Option SteerTool → Steered
force s name none = pass_through s "jev_unknown_tool"
force s name (some t) =
    if is_hosted t.kind
    then pass_through s "hosted_tool_selected"
    else if t.namespaced
    then pass_through s "namespaced_tool_selected"
    else tool_steered s t name

abbrev pub no_tool_steered : Steered → Steered
no_tool_steered s = record s {
  out = set choice_key (string (lit "none")) s.out;
  changed = true;
  apply = codex_none;
  chosen = no_tool;
}

-- Whether the two answers contradict each other.
unfoldable pub disagree : Bool → ℕ → Bool
disagree wants_tool needs = if wants_tool then ltb needs 300000 else ltb 700000 needs

-- What follows two valid answers.
unfoldable pub weigh : Steered → List SteerTool → Picked → ℕ → Steered
weigh s tools p needs =
    let wants = not (str_eq p.choice no_tool) in
    if ltb p.confidence 700000
    then pass_through s "low_confidence"
    else if disagree wants needs
    then pass_through s "jev_answers_disagree"
    else if wants
    then force s p.choice (find_tool tools p.choice)
    else no_tool_steered s

unfoldable pub steer_answers : Steered → List SteerTool → Option SteerAnswers → Steered
steer_answers s tools none = pass_through (record s { failed = true }) "call_failed"
steer_answers s tools (some a) = elim a.picked [
  | none ↦ pass_through s "jev_unexpected_answer"
  | some p ↦ elim a.needs [
    | none ↦ pass_through s "jev_unexpected_answer"
    | some n ↦ weigh s tools p n
  ]
]

abbrev pub allows_none : ToolChoice → Bool
allows_none required = false
allows_none _ = true

abbrev pub no_tool_criterion : ToolCriterion
no_tool_criterion = record {
  name = no_tool;
  text =
      lit
        "No tool call is needed right now: the assistant should reply to the user in plain text (answer directly, ask a clarifying question, or report results that tools already returned).";
}

-- The criteria of other names: the map has one entry for a name.
unfoldable pub without : Str → List ToolCriterion → List ToolCriterion
without name [] = []
without name (c ∷ cs) = let rest = without name cs in if str_eq c.name name then rest else c ∷ rest

abbrev pub with_none : Bool → List ToolCriterion → List ToolCriterion
with_none true cs = without no_tool cs ++ (no_tool_criterion ∷ [])
with_none false cs = cs

unfoldable pub steer_client :
    Services → Members → List SteerTool → Conversation → Steered → Option Classifier → Steered
steer_client v root tools c s none = pass_through s "key_missing"
steer_client v root tools c s (some ask) =
    let allow = allows_none (tool_choice_state (get choice_key root)) in
    steer_answers (record s { asked = true }) tools
      (ask (build_state v.marshal c.system c.turns) (with_none allow (tool_criteria v.visit tools)))

abbrev pub no_turns : List Turn → Bool
no_turns [] = true
no_turns (t ∷ ts) = false

unfoldable pub steer_tools : Services → Members → List SteerTool → Steered
steer_tools v root tools =
    let s = record (untouched root) { candidate_names = map (λ (t : SteerTool). t.name) tools } in
    let c = turns_from v.marshal root in
    if c.agent
    then pass_through s "agent_message"
    else if no_turns c.turns
    then pass_through s "no_messages"
    else steer_client v root tools c s v.client

abbrev pub no_tools : List SteerTool → Bool
no_tools [] = true
no_tools (t ∷ ts) = false

abbrev pub is_decided : ToolChoice → Bool
is_decided decided = true
is_decided _ = false

unfoldable pub steer : Services → Members → Steered
steer v root =
    let d = tools_from (declared_tools root) in
    if json_truthy (get (lit "previous_response_id") root)
    then pass_through (untouched root) "previous_response_id"
    else if is_decided (tool_choice_state (get choice_key root))
    then pass_through (untouched root) "tool_choice_already_decided"
    else if d.duplicate
    then pass_through (untouched root) "duplicate_tool_names"
    else if no_tools d.tools
    then pass_through (untouched root) "no_tools"
    else steer_tools v root d.tools
