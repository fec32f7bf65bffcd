-- ===== src/Plan/Goals.antt =====
-- Remaining, AliasIn and decideFromGoals of internal/plan/plan.go. A map from names to `true` is the
-- list of its names. Go visits a map in no fixed order: `visit` is the order of one visit.
use jev_routing.Prelude.{
  ℕ, Bool, false, not, ◌&&◌, ◌||◌, ◌/◌, Option, none, some, List, [], ◌∷◌, map, if◌then◌else◌, any,
  String,
}
use jev_routing.Text.{Str, lit, str_eq, is_blank, lower}
use jev_routing.Host.{HostId, native}
use jev_routing.Plan.{Action, Spec, is_agent, prefer_locate_tool}
use jev_routing.Plan.Request.{task_text, extract, Signals, sequential_locate}

-- `set[n]`
unfoldable pub in_set : List Str → Str → Bool
in_set [] n = false
in_set (x ∷ xs) n = str_eq x n || in_set xs n

-- `alts[want]`
unfoldable pub alternatives : Str → List String
alternatives want =
    if str_eq want (lit "Agent")
    then "Task" ∷ "task" ∷ "spawn_agent" ∷ "spawn_subagent" ∷ []
    else if str_eq want (lit "Task")
    then "Agent" ∷ "spawn_agent" ∷ "spawn_subagent" ∷ "task" ∷ []
    else if str_eq want (lit "spawn_subagent")
    then "Agent" ∷ "Task" ∷ "task" ∷ "spawn_agent" ∷ []
    else if str_eq want (lit "Grep")
    then "grep" ∷ "grep_search" ∷ "grep_files" ∷ []
    else if str_eq want (lit "Read")
    then "read_file" ∷ []
    else if str_eq want (lit "Edit")
    then "search_replace" ∷ "apply_patch" ∷ []
    else if str_eq want (lit "Bash")
    then "run_terminal_cmd" ∷ "run_terminal_command" ∷ "exec_command" ∷ "shell" ∷ "shell_command"
      ∷ "exec" ∷ []
    else if str_eq want (lit "run_terminal_cmd")
    then "run_terminal_command" ∷ "exec_command" ∷ "shell" ∷ "shell_command" ∷ "Bash" ∷ []
    else if str_eq want (lit "run_terminal_command")
    then "run_terminal_cmd" ∷ "exec_command" ∷ "shell" ∷ "shell_command" ∷ "Bash" ∷ []
    else if str_eq want (lit "exec_command")
    then "shell" ∷ "shell_command" ∷ "run_terminal_command" ∷ "Bash" ∷ []
    else []

-- The first name of `names` in the set, and the first of the set that is `low` in lower case; the
-- empty string where there is none.
unfoldable pub first_alias : List Str → List String → Str
first_alias set [] = []
first_alias set (a ∷ names) = if in_set set (lit a) then lit a else first_alias set names

unfoldable pub first_lower : List Str → Str → Str
first_lower [] low = []
first_lower (n ∷ set) low = if str_eq (lower n) low then n else first_lower set low

abbrev pub Visit : Type 0
Visit = List Str → List Str

unfoldable pub alias_in : Visit → List Str → Str → Str
alias_in visit set want =
    if in_set set want
    then want
    else (let a = first_alias set (alternatives want) in
        if is_blank a then first_lower (visit set) (lower want) else a)

-- The closure `add` of Remaining: a goal with a name that is done is left out.
unfoldable pub any_done : List Str → List Str → Bool
any_done done [] = false
any_done done (n ∷ names) = in_set done n || any_done done names

unfoldable pub add_goal : HostId → List Str → List String → List (List Str) → List (List Str)
add_goal h done names goals =
    let natives = map (λ (n : String). native h (lit n)) names in
    if any_done done natives then goals else natives ∷ goals

-- One call of `add`, and the condition that it stands under.
pub record Wanted : Type 0 where
  pub asked : Bool
  pub names : List String

abbrev pub want : Bool → List String → Wanted
want asked names = record { asked = asked; names = names }

unfoldable pub add_goals : HostId → List Str → List Wanted → List (List Str)
add_goals h done [] = []
add_goals h done (w ∷ ws) =
    let later = add_goals h done ws in if w.asked then add_goal h done w.names later else later

-- The calls of `add` in the order of the source.
unfoldable pub goals_of : Signals → Bool → List Wanted
goals_of s locate =
    let broken = s.typo || (s.failing_test || (s.sentry || s.health)) in
    want locate ("Grep" ∷ [])
    ∷ want locate ("Read" ∷ [])
    ∷ want (not locate && s.explore) ("Agent" ∷ [])
    ∷ want s.sentry ("sentry_get_issue" ∷ [])
    ∷ want s.pr_review ("github_get_pr" ∷ [])
    ∷ want (s.e2e && not locate) ("playwright_navigate" ∷ "playwright_snapshot" ∷ [])
    ∷ want broken ("Grep" ∷ "Glob" ∷ [])
    ∷ want s.pr_review ("Read" ∷ "github_get_file" ∷ [])
    ∷ want (not s.pr_review && (broken || (s.e2e && not locate))) ("Read" ∷ [])
    ∷ want (not locate && s.health) ("Write" ∷ [])
    ∷ want (not locate && (s.health || (s.typo || (s.failing_test || (s.sentry || s.e2e)))))
        ("Edit" ∷ [])
    ∷ want s.pr_review ("github_pr_review" ∷ "github_comment" ∷ [])
    ∷ want (not locate && (s.run_tests || (s.failing_test || (s.health || (s.e2e || s.sentry)))))
        ("Bash" ∷ [])
    ∷ []

unfoldable pub used_tools : List Action → List Str
used_tools [] = []
used_tools (a ∷ actions) = a.tool ∷ used_tools actions

unfoldable pub remaining : Str → List Action → HostId → List (List Str)
remaining text actions h =
    let request = task_text text in
    add_goals h (used_tools actions) (goals_of (extract request) (sequential_locate request))

unfoldable pub goal_available : Visit → List (List Str) → List Str → Bool
goal_available visit [] set = false
goal_available visit (g ∷ goals) set =
    any (λ n. not (is_blank (alias_in visit set n))) g || goal_available visit goals set

unfoldable pub action_used : Visit → List Action → Str → Bool
action_used visit actions name = not (is_blank (alias_in visit (used_tools actions) name))

-- A probability in 2 ^ 10 parts of a tenth, so that the halvings of `ranks` are exact on ten names.
pub record Rank : Type 0 where
  pub name : Str
  pub p : ℕ

unfoldable pub ranks_from : ℕ → List Str → List Rank
ranks_from p [] = []
ranks_from p (n ∷ names) = record { name = n; p = p } ∷ ranks_from (p / 2) names

unfoldable pub ranks : List Str → List Rank
ranks names = ranks_from 7168 names

-- The tool of a decision from the goals, its confidence in ten-thousandths, and `Top`.
pub record Pick : Type 0 where
  pub tool : Str
  pub confidence : ℕ
  pub top : List Rank

-- A subagent is replaced by a locating tool where the request locates step by step.
unfoldable pub pick : Bool → List Spec → List Str → Str → ℕ → Pick
pick locate specs goal n confidence =
    let alt = prefer_locate_tool specs in
    if locate && (is_agent n && not (is_blank alt))
    then record { tool = alt; confidence = confidence; top = ranks goal }
    else record { tool = n; confidence = confidence; top = ranks goal }

unfoldable pub pick_in_goal :
    Visit → Bool → List Spec → List Str → List Str → List Str → Option Pick
pick_in_goal visit locate specs set goal [] = none
pick_in_goal visit locate specs set goal (n ∷ names) =
    let later = pick_in_goal visit locate specs set goal names in
    let a = alias_in visit set n in
    if in_set set n
    then some (pick locate specs goal n 8600)
    else if not (is_blank a)
    then some (pick locate specs goal a 8000)
    else later

unfoldable pub decide_from_goals :
    Visit → Bool → List Spec → List Str → List (List Str) → Option Pick
decide_from_goals visit locate specs set [] = none
decide_from_goals visit locate specs set (g ∷ goals) =
    elim (pick_in_goal visit locate specs set g g) [
      | some p ↦ some p
      | none ↦ decide_from_goals visit locate specs set goals
    ]
