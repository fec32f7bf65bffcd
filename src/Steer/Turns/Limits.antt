-- ===== src/Steer/Turns/Limits.antt =====
-- The state and the criteria for the classifier, internal/proxy/codex_steer.go: codexBuildState and
-- codexToolCriteria. `marshal` is `json.Marshal`, and `visit` the order in which Go visits a map.
use jev_routing.Prelude.{
  ℕ, zero, suc, ◌+◌, ◌-◌, ◌/◌, min, Bool, true, false, not, ◌&&◌, Option, none, some, List, [], ◌∷◌,
  ◌++◌, ltb, if◌then◌else◌, length, take, concat,
}
use jev_routing.Text.{Str, lit, is_blank, trim_space, join}
use jev_routing.Text.Runes.{runes}
use jev_routing.Json.{Json, Members, end, member, get, as_object}
use jev_routing.Steer.{SteerTool}
use jev_routing.Steer.Turns.{Turn, turn_json}

abbrev pub max_state : ℕ
max_state = 60000

abbrev pub none_kept : List Turn → Bool
none_kept [] = true
none_kept (t ∷ ts) = false

-- The loop of codexBuildState over the turns, newest first. `used` is what is taken from the
-- budget, which is below 0 where `used` is over the limit.
unfoldable pub keep_loop : (Turn → ℕ) → ℕ → List Turn → List Turn → List Turn
keep_loop size used [] kept = kept
keep_loop size used (t ∷ ts) kept =
    let used' = used + size t in
    let later = keep_loop size used' ts (t ∷ kept) in
    if ltb max_state used' && not (none_kept kept) then kept else later

unfoldable pub reversed_onto : List Turn → List Turn → List Turn
reversed_onto [] acc = acc
reversed_onto (t ∷ ts) acc = reversed_onto ts (t ∷ acc)

abbrev pub turn_size : (Json → Str) → Turn → ℕ
turn_size marshal t = length (marshal (turn_json t))

-- The turns that codexBuildState keeps.
unfoldable pub kept_turns : (Json → Str) → Str → List Turn → List Turn
kept_turns marshal system turns =
    keep_loop (turn_size marshal) (length system) (reversed_onto turns []) []

pub record State : Type 0 where
  pub instructions : Str
  pub omitted : ℕ
  pub conversation : List Turn

-- codexBuildState; an empty instruction and an omission of 0 are left out of its JSON.
unfoldable pub build_state : (Json → Str) → Str → List Turn → State
build_state marshal system turns =
    let kept = kept_turns marshal system turns in
    record { instructions = system; omitted = length turns - length kept; conversation = kept }

unfoldable pub keys : Members → List Str
keys end = []
keys (member k v ms) = k ∷ keys ms

abbrev pub parameter_keys : Option Members → List Str
parameter_keys none = []
parameter_keys (some p) = elim (as_object (get (lit "properties") p)) [
  | none ↦ []
  | some ps ↦ keys ps
]

abbrev pub no_strs : List Str → Bool
no_strs [] = true
no_strs (s ∷ ss) = false

-- The description of one criterion, cut to `limit` characters where it has more bytes.
unfoldable pub criterion : (List Str → List Str) → ℕ → SteerTool → Str
criterion visit limit c =
    let given = trim_space c.description in
    let desc = (if ltb limit (length given) then concat (take limit (runes given)) else given) in
    let names = visit (parameter_keys c.parameters) in
    if is_blank desc && not (no_strs (parameter_keys c.parameters))
    then lit "Parameters: " ++ join (lit ", ") names
    else desc

pub record ToolCriterion : Type 0 where
  pub name : Str
  pub text : Str

unfoldable pub criteria_with : (List Str → List Str) → ℕ → List SteerTool → List ToolCriterion
criteria_with visit limit [] = []
criteria_with visit limit (c ∷ cs) =
    record { name = c.name; text = criterion visit limit c } ∷ criteria_with visit limit cs

abbrev pub over : ℕ → ℕ → ℕ
over n zero = 0
over n (suc k) = n / suc k

-- codexToolCriteria
unfoldable pub tool_criteria : (List Str → List Str) → List SteerTool → List ToolCriterion
tool_criteria visit tools = criteria_with visit (min (over 48000 (length tools)) 1024) tools
