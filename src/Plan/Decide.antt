-- ===== src/Plan/Decide.antt =====
-- DecideSpecs of internal/plan/plan.go. A confidence is in ten-thousandths; the fields of Decision
-- that DecideSpecs never sets are left out.
use jev_routing.Prelude.{
  ℕ, ◌+◌, ◌*◌, min, Bool, true, false, not, ◌&&◌, ◌||◌, none, some, List, [], ◌∷◌, ◌++◌, map, leb,
  ◌==◌, if◌then◌else◌, String,
}
use jev_routing.Text.{Str, lit, is_blank}
use jev_routing.Host.{HostId, native}
use jev_routing.Plan.{Action, Spec, host_meta, is_agent, is_agent_tool, prefer_locate_tool}
use jev_routing.Plan.Request.{task_text, sequential_locate, explicit_shell_ask}
use jev_routing.Plan.Goals.{
  Visit, alias_in, remaining, goal_available, action_used, Rank, Pick, decide_from_goals,
}
use jev_routing.Plan.Scoring.{Best, score_catalog}

-- the constants for Outcome and ReasonCode
pub data Outcome : Type 0 where
  selected excluded defer : Outcome

pub data Reason : Type 0 where
  pending_agent agent_streak sequential word_match catalog_score unknown : Reason

pub record Decision : Type 0 where
  pub tool : Str
  pub confidence : ℕ
  pub done : ℕ
  pub passthrough : Bool
  pub top : List Rank
  pub outcome : Outcome
  pub reason : Reason
  pub excluded : List Str

unfoldable pub has_pending_agent : List Action → Bool
has_pending_agent [] = false
has_pending_agent (a ∷ actions) = (a.pending && is_agent a.tool) || has_pending_agent actions

-- Whether all actions are agents, and the length of the streak at the end.
pub record Streak : Type 0 where
  pub unbroken : Bool
  pub count : ℕ

unfoldable pub streak_of : List Action → Streak
streak_of [] = record { unbroken = true; count = 0 }
streak_of (a ∷ actions) =
    let s = streak_of actions in
    if s.unbroken && is_agent_tool a.tool
    then record { unbroken = true; count = s.count + 1 }
    else record { unbroken = false; count = s.count }

unfoldable pub agent_streak_of : List Action → ℕ
agent_streak_of actions = (streak_of actions).count

abbrev pub respond : Str
respond = lit "respond_to_user"

abbrev pub pass : ℕ → Outcome → Reason → List Str → Decision
pass confidence outcome reason left_out = record {
  tool = respond;
  confidence = confidence;
  done = 0;
  passthrough = true;
  top = [];
  outcome = outcome;
  reason = reason;
  excluded = left_out;
}

abbrev pub choose : Str → ℕ → List Rank → Outcome → Reason → List Str → Decision
choose tool confidence top outcome reason left_out = record {
  tool = tool;
  confidence = confidence;
  done = 800;
  passthrough = false;
  top = top;
  outcome = outcome;
  reason = reason;
  excluded = left_out;
}

-- `available`, whose names are `set`, and `excluded`.
unfoldable pub offered : List Spec → List Str
offered [] = []
offered (s ∷ specs) =
    let rest = offered specs in if is_blank s.name || host_meta s.name then rest else s.name ∷ rest

unfoldable pub left_out_of : List Spec → List Str
left_out_of [] = []
left_out_of (s ∷ specs) =
    let rest = left_out_of specs in
    if not (is_blank s.name) && host_meta s.name then s.name ∷ rest else rest

abbrev pub bare : HostId → String → Spec
bare h n = record { name = native h (lit n); desc = [] }

unfoldable pub default_available : HostId → List Spec
default_available h = map (bare h) (
    "Read" ∷ "Edit" ∷ "Write" ∷ "Bash" ∷ "Glob" ∷ "Grep" ∷ "Agent" ∷ "github_get_pr"
    ∷ "github_pr_review" ∷ "github_comment" ∷ "github_create_pr" ∷ "playwright_navigate"
    ∷ "playwright_snapshot" ∷ "sentry_get_issue" ∷ "sentry_resolve" ∷ [])

abbrev pub no_names : List Str → Bool
no_names [] = true
no_names (n ∷ names) = false

unfoldable pub without_meta : List Spec → List Spec
without_meta [] = []
without_meta (s ∷ specs) =
    let rest = without_meta specs in if host_meta s.name then rest else s ∷ rest

-- `specs` after the default tools are added to a catalog that offers none.
unfoldable pub with_defaults : HostId → List Spec → List Spec
with_defaults h specs =
    if no_names (offered specs) then specs ++ without_meta (default_available h) else specs

-- The end of the function: the best tool by score, or none.
unfoldable pub by_score : Bool → List Spec → List Str → Best → Decision
by_score locate specs left_out best =
    let alt = prefer_locate_tool specs in
    let poor = is_agent best.name || (is_blank best.name || best.score == 0) in
    if locate && (poor && not (is_blank alt))
    then choose alt 8600 [] selected sequential left_out
    else if not (is_blank best.name) && leb 1 best.score
    then choose best.name (min 10000 (best.score * 625)) [] defer catalog_score left_out
    else pass 2000 defer unknown left_out

-- What a step-by-step request does when none of its goals is at hand.
unfoldable pub without_goal :
    Visit → List Action → List Spec → List Str → List Str → List (List Str) → Decision → Decision
without_goal visit actions specs set left_out goals scored =
    let alt = prefer_locate_tool specs in
    if not (goal_available visit goals set)
    then (if not (is_blank alt) && not (action_used visit actions alt)
        then choose alt 8600 [] selected sequential left_out
        else pass 2000 defer unknown left_out)
    else if not (is_blank alt)
    then choose alt 8600 [] selected sequential left_out
    else scored

abbrev pub from_pick : Pick → Outcome → Reason → List Str → Decision
from_pick p outcome reason left_out = choose p.tool p.confidence p.top outcome reason left_out

-- The part behind the explicit shell request.
unfoldable pub by_goals :
    Visit → Str → List Action → List Spec → List Str → List Str → HostId → Decision
by_goals visit request actions specs set left_out h =
    let goals = remaining request actions h in
    let locate = sequential_locate request in
    let picked = decide_from_goals visit locate specs set goals in
    let scored = by_score locate specs left_out (score_catalog request actions specs) in
    if locate
    then elim picked [
      | some p ↦ from_pick p selected sequential left_out
      | none ↦ without_goal visit actions specs set left_out goals scored
    ]
    else elim picked [ some p ↦ from_pick p defer word_match left_out | none ↦ scored ]

unfoldable pub decide_task : Visit → Str → List Action → List Spec → List Str → HostId → Decision
decide_task visit request actions specs left_out h =
    let set = offered specs in
    let shell = alias_in visit set (lit "Bash") in
    if explicit_shell_ask request && not (is_blank shell)
    then choose shell 9000 [] selected catalog_score left_out
    else by_goals visit request actions specs set left_out h

unfoldable pub decide_specs : Visit → Str → List Action → List Spec → HostId → Decision
decide_specs visit text actions specs h =
    if has_pending_agent actions
    then pass 9000 selected pending_agent []
    else if leb 2 (agent_streak_of actions)
    then pass 9000 selected agent_streak []
    else decide_task visit (task_text text) actions (with_defaults h specs) (left_out_of specs) h
