-- ===== src/Plan/Subagent.antt =====
-- RouteSubagent, RecoverSubagent and ChildCommandAllowed of internal/plan/subagent.go. A confidence
-- is in ten-thousandths.
pub mod Delegated
pub mod Recovery
use jev_routing.Prelude.{
  ℕ, zero, suc, Bool, true, false, not, ◌&&◌, ◌||◌, Option, none, some, List, [], ◌∷◌, ◌++◌, ltb,
  if◌then◌else◌,
}
use jev_routing.Text.{Str, lit, str_eq, is_blank, trim_space, join}
use jev_routing.Plan.Goals.{in_set}
use jev_routing.Plan.Catalog.{Capability, Catalog, installed, kind_subagent, no_items}
use jev_routing.Plan.Route.{
  RouteOutcome, route_selected, no_decision, Answer, Criterion, ChoiceAsker, no_match, lookup,
}

pub record SubagentRequest : Type 0 where
  pub text : Str
  pub brief : Str
  pub catalog : Catalog
  pub explicit_roles : List Str
  pub running_roles : List Str
  pub forbid_delegate : Bool
  pub adopt_confidence : ℕ

pub record SubagentResult : Type 0 where
  pub outcome : RouteOutcome
  pub capability_id : Str
  pub role : Str
  pub launcher : Str
  pub brief : Str
  pub reason_code : Str
  pub asked : Bool

pub record HistoryItem : Type 0 where
  pub message_id : Str
  pub assignment_id : Str
  pub kind : Str
  pub body : Str

abbrev pub nothing : Str → Str → Bool → SubagentResult
nothing brief reason asked = record {
  outcome = no_decision;
  capability_id = [];
  role = [];
  launcher = [];
  brief = brief;
  reason_code = reason;
  asked = asked;
}

unfoldable pub selected_sub : Capability → Str → Str → SubagentResult
selected_sub item brief reason = record {
  outcome = route_selected;
  capability_id = item.id;
  role = item.name;
  launcher = item.target.subagent_launcher;
  brief = brief;
  reason_code = reason;
  asked = false;
}

-- The guards of the loop that collects the candidates.
unfoldable pub is_candidate : List Str → Capability → Bool
is_candidate running item =
    str_eq item.kind kind_subagent
    && (str_eq item.availability installed
        && (not (is_blank item.target.subagent_launcher) && not (in_set running item.name)))

unfoldable pub candidates_of : List Str → List Capability → List Capability
candidates_of running [] = []
candidates_of running (c ∷ cs) =
    let rest = candidates_of running cs in if is_candidate running c then c ∷ rest else rest

-- The first candidate whose name or ID is one of the roles.
unfoldable pub find_role : List Str → List Capability → Option Capability
find_role roles [] = none
find_role roles (c ∷ cs) =
    if in_set roles c.name || in_set roles c.id then some c else find_role roles cs

unfoldable pub adopt_at : ℕ → ℕ
adopt_at zero = 8500
adopt_at (suc n) = suc n

unfoldable pub sub_criteria : List Capability → List Criterion
sub_criteria [] = []
sub_criteria (c ∷ cs) =
    record { id = c.id; text = c.name ++ (lit " " ++ c.description) } ∷ sub_criteria cs

-- What follows the answer.
unfoldable pub sub_answer : SubagentRequest → Option Answer → SubagentResult
sub_answer r none = nothing r.brief (lit "ask_failed") true
sub_answer r (some a) =
    if is_blank (trim_space a.choice)
    then nothing r.brief (if is_blank a.choice then lit "missing_answer" else lit "ask_failed") true
    else if str_eq a.choice no_match
    then nothing r.brief no_match true
    else if ltb a.confidence (adopt_at r.adopt_confidence)
    then nothing r.brief (lit "low_confidence") true
    else elim (lookup r.catalog.items a.choice) [
      | none ↦ nothing r.brief (lit "invalid_id") true
      | some c ↦
          if not (str_eq c.kind kind_subagent)
          then nothing r.brief (lit "invalid_id") true
          else selected_sub c r.brief (lit "jev")
    ]

unfoldable pub sub_ask : SubagentRequest → List Capability → Option ChoiceAsker → SubagentResult
sub_ask r candidates none = nothing r.brief no_match false
sub_ask r candidates (some ask) =
    sub_answer r
      (ask r.text (record { id = no_match; text = lit "no subagent" } ∷ sub_criteria candidates))

unfoldable pub sub_pick : SubagentRequest → List Capability → Option ChoiceAsker → SubagentResult
sub_pick r [] ask = nothing r.brief no_match false
sub_pick r (c ∷ []) ask = selected_sub c r.brief (lit "local_selected")
sub_pick r (c ∷ d ∷ cs) ask = sub_ask r (c ∷ d ∷ cs) ask

unfoldable pub sub_roles : SubagentRequest → Option Capability → SubagentResult
sub_roles r none = nothing r.brief no_match false
sub_roles r (some c) = selected_sub c r.brief (lit "explicit")

unfoldable pub route_subagent : SubagentRequest → Option ChoiceAsker → SubagentResult
route_subagent r ask =
    let candidates = candidates_of r.running_roles r.catalog.items in
    if r.forbid_delegate
    then nothing r.brief (lit "forbid_delegate") false
    else if is_blank (trim_space r.brief)
    then nothing r.brief (lit "missing_brief") false
    else if not (no_items r.explicit_roles)
    then sub_roles r (find_role r.explicit_roles candidates)
    else sub_pick r candidates ask

-- RecoverSubagent: the last item of the assignment; `none` is the zero Recovered.
unfoldable pub recover_subagent : List HistoryItem → Str → Option HistoryItem
recover_subagent [] id = none
recover_subagent (h ∷ hs) id = elim (recover_subagent hs id) [
  | some later ↦ some later
  | none ↦ if str_eq h.assignment_id id then some h else none
]

unfoldable pub approves : Str → Str → List Str → Bool
approves joined first [] = false
approves joined first (a ∷ approved) =
    (str_eq joined a || str_eq first a) || approves joined first approved

-- ChildCommandAllowed; an error is false.
unfoldable pub child_command_allowed : List Str → List Str → Bool
child_command_allowed [] approved = false
child_command_allowed (c ∷ cmd) approved = approves (join (lit " ") (c ∷ cmd)) c approved
