-- ===== src/Host.antt =====
-- Hosts and their names for tools, internal/host/host.go.
pub mod Arguments
use jev_routing.Prelude.{
  Bool, true, false, ◌||◌, Option, none, some, List, [], ◌∷◌, if◌then◌else◌, any, String,
}
use jev_routing.Text.{Str, lit, str_eq, lower, trim_space}

-- A value of the string type ID that is none of the constants is `other`.
pub data HostId : Type 0 where
  claude codex grok devin : HostId
  other : Str → HostId

unfoldable pub one_of : Str → List String → Bool
one_of s [] = false
one_of s (x ∷ xs) = str_eq s (lit x) || one_of s xs

-- Parse. An error is `none`.
unfoldable pub parse_host : Str → Option HostId
parse_host s =
    let t = lower (trim_space s) in
    if one_of t ("claude" ∷ "claude-code" ∷ "anthropic" ∷ [])
    then some claude
    else if one_of t ("codex" ∷ "openai" ∷ [])
    then some codex
    else if one_of t ("grok" ∷ "grok-build" ∷ "xai" ∷ [])
    then some grok
    else if one_of t ("devin" ∷ "devin-cli" ∷ "cognition" ∷ [])
    then some devin
    else none

unfoldable pub binary : HostId → Str
binary claude = lit "claude"
binary codex = lit "codex"
binary devin = lit "devin"
binary _ = lit "grok"

unfoldable pub label : HostId → Str
label claude = lit "Claude Code"
label codex = lit "Codex"
label devin = lit "Devin CLI"
label _ = lit "Grok Build"

-- A row of a name table, Claude's name first.
pub record Row : Type 0 where
  pub key : String
  pub value : String

abbrev pub row : String → String → Row
row k v = record { key = k; value = v }

unfoldable pub find_row : List Row → Str → Str
find_row [] name = name
find_row (r ∷ rs) name = if str_eq (lit r.key) name then lit r.value else find_row rs name

abbrev pub to_codex : List Row
to_codex =
    row "Read" "read_file"
    ∷ row "Edit" "apply_patch"
    ∷ row "Write" "add_file"
    ∷ row "Bash" "exec_command"
    ∷ row "Glob" "list_dir"
    ∷ row "Grep" "grep_files"
    ∷ row "Agent" "spawn_agent"
    ∷ row "Skill" "skill"
    ∷ row "WebFetch" "web_fetch"
    ∷ row "WebSearch" "web_search"
    ∷ row "TodoWrite" "update_plan"
    ∷ row "LSP" "lsp"
    ∷ row "AskUserQuestion" "request_user_input"
    ∷ row "EnterPlanMode" "switch_plan_mode"
    ∷ row "ExitPlanMode" "propose_plan"
    ∷ row "Monitor" "wait"
    ∷ []

abbrev pub to_grok : List Row
to_grok =
    row "Read" "read_file"
    ∷ row "Edit" "search_replace"
    ∷ row "Write" "write"
    ∷ row "Bash" "run_terminal_cmd"
    ∷ row "Glob" "list_dir"
    ∷ row "Grep" "grep_search"
    ∷ row "Agent" "task"
    ∷ row "ToolSearch" "search_tool"
    ∷ row "WebFetch" "web_fetch"
    ∷ row "WebSearch" "web_search"
    ∷ row "TodoWrite" "todo_write"
    ∷ row "LSP" "lsp"
    ∷ row "Monitor" "get_task_output"
    ∷ row "TaskStop" "kill_task"
    ∷ []

abbrev pub to_devin : List Row
to_devin =
    row "Read" "read"
    ∷ row "Edit" "edit"
    ∷ row "Write" "write"
    ∷ row "Bash" "exec"
    ∷ row "Glob" "glob"
    ∷ row "Grep" "grep"
    ∷ row "Agent" "run_subagent"
    ∷ row "WebSearch" "web_search"
    ∷ row "WebFetch" "webfetch"
    ∷ row "NotebookEdit" "notebook_edit"
    ∷ row "TaskOutput" "read_subagent"
    ∷ row "ReadMcpResourceTool" "mcp_read_resource"
    ∷ row "TodoWrite" "todo_write"
    ∷ row "AskUserQuestion" "ask_user_question"
    ∷ row "EnterPlanMode" "write_plan"
    ∷ row "ExitPlanMode" "exit_plan_mode"
    ∷ []

-- Native
unfoldable pub native : HostId → Str → Str
native codex name = find_row to_codex name
native grok name = find_row to_grok name
native devin name = find_row to_devin name
native _ name = name
