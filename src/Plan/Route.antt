-- ===== src/Plan/Route.antt =====
-- Route and Lookup of internal/plan/routing.go. `hash8` and `hash12` are the first 8 and 12 bytes of
-- `sha256`, in hexadecimal digits. A map is the list of its entries as they are written: the last
-- entry of a key counts.
use jev_routing.Prelude.{
  ℕ, Bool, true, false, not, ◌&&◌, ◌||◌, Option, none, some, List, [], ◌∷◌, ◌++◌, map,
  if◌then◌else◌,
}
use jev_routing.Text.{Str, lit, str_eq, is_blank, trim_space}
use jev_routing.Host.{HostId, claude, codex, grok, devin, other}
use jev_routing.Plan.{Action, Spec}
use jev_routing.Plan.Goals.{Visit}
use jev_routing.Plan.Decide.{Outcome, selected, decide_specs}
use jev_routing.Plan.Catalog.{
  Capability, Catalog, installed, kind_skill, kind_plugin, kind_model, is_bound, eligible_of,
  compute_revision, no_items,
}

pub record RouteRequest : Type 0 where
  pub request_id : Str
  pub text : Str
  pub host : HostId
  pub catalog : Catalog
  pub expected_revision : Str
  pub wanted : List Str
  pub actions : List Action
  pub new_request : Bool

pub data RouteOutcome : Type 0 where
  route_selected no_decision : RouteOutcome

pub record RouteResult : Type 0 where
  pub decision_id : Str
  pub outcome : RouteOutcome
  pub source : Str
  pub reason_code : Str
  pub capability_id : Str
  pub catalog_revision : Str
  pub policy_revision : Str

-- An answer is a choice with its confidence; an error is `none`.
pub record Answer : Type 0 where
  pub choice : Str
  pub confidence : ℕ

pub record Criterion : Type 0 where
  pub id : Str
  pub text : Str

abbrev pub ChoiceAsker : Type 0
ChoiceAsker = Str → List Criterion → Option Answer

-- The digests, and the order in which a map is visited.
pub record Runtime : Type 0 where
  pub hash8 : Str → Str
  pub hash12 : Str → Str
  pub visit : Visit

abbrev pub host_name : HostId → Str
host_name claude = lit "claude"
host_name codex = lit "codex"
host_name grok = lit "grok"
host_name devin = lit "devin"
host_name (other s) = s

unfoldable pub request_key : Runtime → RouteRequest → Str
request_key t r =
    if not (is_blank r.request_id)
    then r.request_id
    else if r.new_request
    then []
    else t.hash8 (r.text ++ (lit "\n" ++ r.catalog.revision))

unfoldable pub decision_id_for : Runtime → RouteRequest → Str
decision_id_for t r =
    let k = request_key t r in
    if is_blank k
    then t.hash12 (
        lit "new:"
        ++ (r.text ++ (lit ":" ++ (r.catalog.revision ++ (lit ":" ++ host_name r.host)))))
    else t.hash12 (k ++ (lit ":" ++ r.catalog.revision))

-- `byID[id]`
unfoldable pub by_id : List Capability → Str → Option Capability
by_id [] id = none
by_id (c ∷ cs) id = elim (by_id cs id) [
  | some d ↦ some d
  | none ↦ if str_eq c.id id then some c else none
]

unfoldable pub is_valid_id : List Capability → Str → Bool
is_valid_id items id = elim (by_id items id) [
  | none ↦ false
  | some c ↦ str_eq c.availability installed && is_bound c.target c.kind
]

unfoldable pub all_valid : List Capability → List Str → Bool
all_valid items [] = true
all_valid items (id ∷ ids) = is_valid_id items id && all_valid items ids

unfoldable pub is_scored : Capability → Bool
is_scored c =
    not (str_eq c.kind kind_skill || (str_eq c.kind kind_plugin || str_eq c.kind kind_model))

unfoldable pub scored_of : List Capability → List Capability
scored_of [] = []
scored_of (c ∷ cs) = let rest = scored_of cs in if is_scored c then c ∷ rest else rest

abbrev pub spec_of : Capability → Spec
spec_of c = record { name = c.name; desc = c.description }

-- `nameID[name]`; a missing name has the empty ID.
unfoldable pub find_name : List Capability → Str → Option Str
find_name [] name = none
find_name (c ∷ cs) name = elim (find_name cs name) [
  | some id ↦ some id
  | none ↦ if str_eq c.name name then some c.id else none
]

unfoldable pub id_of_name : List Capability → Str → Str
id_of_name cs name = elim (find_name cs name) [ none ↦ [] | some id ↦ id ]

unfoldable pub criteria_of : List Capability → List Criterion
criteria_of [] = []
criteria_of (c ∷ cs) =
    record { id = c.id; text = if is_blank c.description then c.name else c.description }
    ∷ criteria_of cs

abbrev pub no_match : Str
no_match = lit "no_match"

abbrev pub refuse : RouteResult → Str → RouteResult
refuse out reason = record out { reason_code = reason }

abbrev pub settle : RouteResult → Str → Str → Str → RouteResult
settle out source reason id = record out {
  outcome = route_selected;
  source = source;
  reason_code = reason;
  capability_id = id;
}

-- What follows the classifier's answer.
unfoldable pub route_answer : List Capability → RouteResult → Option Answer → RouteResult
route_answer items out none = refuse out (lit "ask_failed")
route_answer items out (some a) =
    if is_blank (trim_space a.choice)
    then refuse out (lit "missing_answer")
    else if str_eq a.choice no_match
    then refuse out no_match
    else elim (by_id items a.choice) [
      | none ↦ refuse out (lit "invalid_id")
      | some c ↦
          if not (str_eq c.availability installed)
          then refuse out (lit "invalid_id")
          else settle out (lit "jev") (lit "jev") a.choice
    ]

unfoldable pub route_ask : RouteRequest → RouteResult → Option ChoiceAsker → RouteResult
route_ask r out none = refuse out no_match
route_ask r out (some ask) =
    let eligible = eligible_of r.catalog.items in
    route_answer r.catalog.items out (
      ask r.text
        (record { id = no_match; text = lit "none of the candidates fit" } ∷ criteria_of eligible))

-- `d.Outcome == OutcomeSelected && !d.Passthrough`, and the ID then.
unfoldable pub local_choice : Outcome → Bool → Str → Str
local_choice selected false id = id
local_choice _ _ id = []

-- The ID of the tool that DecideSpecs selects, or the empty string.
unfoldable pub local_id : Runtime → RouteRequest → List Capability → Str
local_id t r scored =
    let d = decide_specs t.visit r.text r.actions (map spec_of scored) r.host in
    local_choice d.outcome d.passthrough (id_of_name scored d.tool)

unfoldable pub route_local : Runtime → RouteRequest → RouteResult → Option ChoiceAsker → RouteResult
route_local t r out ask =
    let scored = scored_of (eligible_of r.catalog.items) in
    let id = (if no_items scored then [] else local_id t r scored) in
    if is_blank id then route_ask r out ask else settle out (lit "local") (lit "local_selected") id

abbrev pub route_open : Runtime → RouteRequest → RouteResult → Option ChoiceAsker → RouteResult
route_open t r out ask =
    if no_items (eligible_of r.catalog.items)
    then refuse out (lit "ineligible")
    else route_local t r out ask

unfoldable pub route_explicit : List Capability → RouteResult → Str → List Str → RouteResult
route_explicit items out id ids =
    if all_valid items (id ∷ ids)
    then settle out (lit "local") (lit "explicit") id
    else refuse out (lit "invalid_id")

unfoldable pub route_wanted :
    Runtime → RouteRequest → RouteResult → Option ChoiceAsker → List Str → RouteResult
route_wanted t r out ask [] = route_open t r out ask
route_wanted t r out ask (id ∷ ids) = route_explicit r.catalog.items out id ids

unfoldable pub revision_of : Runtime → RouteRequest → Str
revision_of t r =
    if is_blank r.catalog.revision
    then compute_revision t.hash8 r.catalog.items
    else r.catalog.revision

-- `out` at the start of Route.
unfoldable pub undecided_result : Runtime → RouteRequest → RouteResult
undecided_result t r = record {
  decision_id = decision_id_for t r;
  outcome = no_decision;
  source = [];
  reason_code = [];
  capability_id = [];
  catalog_revision = revision_of t r;
  policy_revision = lit "route-v1";
}

unfoldable pub is_stale : Runtime → RouteRequest → Bool
is_stale t r =
    not (is_blank r.expected_revision) && not (str_eq r.expected_revision (revision_of t r))

unfoldable pub route : Runtime → RouteRequest → Option ChoiceAsker → RouteResult
route t r ask =
    let out = undecided_result t r in
    if is_stale t r
    then refuse out (lit "catalog_version_changed")
    else route_wanted t r out ask r.wanted

unfoldable pub lookup : List Capability → Str → Option Capability
lookup [] id = none
lookup (c ∷ cs) id = if str_eq c.id id then some c else lookup cs id
