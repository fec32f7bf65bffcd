-- ===== src/Plan.antt =====
-- Tool choice, internal/plan/plan.go: the data, and what a tool's name tells.
pub mod Request
pub mod Goals
pub mod Fresh
pub mod Scoring
pub mod Decide
pub mod Catalog
pub mod Build
pub mod Unique
pub mod Route
pub mod Selected
pub mod Batch
pub mod Subagent
use jev_routing.Prelude.{
  ℕ, Bool, true, false, not, ◌&&◌, ◌||◌, List, [], ◌∷◌, ◌++◌, if◌then◌else◌, any, String,
}
use jev_routing.Text.{Str, lit, str_eq, is_blank, lower, contains}
use jev_routing.Host.{one_of}

pub record Action : Type 0 where
  pub tool : Str
  pub result : Str
  pub input : Str
  pub pending : Bool

pub record Spec : Type 0 where
  pub name : Str
  pub desc : Str

unfoldable pub has_any : Str → List String → Bool
has_any t [] = false
has_any t (n ∷ ns) = contains t (lit n) || has_any t ns

unfoldable pub host_meta : Str → Bool
host_meta name = one_of (lower name) ("send_feedback" ∷ "session_title" ∷ [])

unfoldable pub is_agent : Str → Bool
is_agent name =
    let n = lower name in
    one_of n ("agent" ∷ "task" ∷ "spawn_agent" ∷ "spawn_subagent" ∷ [])
    || contains n (lit "subagent")

unfoldable pub is_grep : Str → Bool
is_grep name =
    let n = lower name in one_of n ("grep" ∷ "grep_files" ∷ []) || contains n (lit "search")

unfoldable pub is_read : Str → Bool
is_read name = one_of (lower name) ("read" ∷ "read_file" ∷ [])

unfoldable pub is_edit : Str → Bool
is_edit name = one_of (lower name) ("edit" ∷ "search_replace" ∷ "apply_patch" ∷ [])

unfoldable pub is_exec : Str → Bool
is_exec name =
    let n = lower name in
    one_of n ("exec" ∷ "exec_command" ∷ "bash" ∷ [])
    || (contains n (lit "terminal") || contains n (lit "shell"))

unfoldable pub is_agent_tool : Str → Bool
is_agent_tool name = one_of name ("Agent" ∷ "spawn_subagent" ∷ "task" ∷ []) || is_agent name

unfoldable pub phase_of : Spec → Str
phase_of s =
    let n = lower s.name in
    if has_any n ("edit" ∷ "write" ∷ "create" ∷ "patch" ∷ [])
    then lit "modify"
    else if has_any n ("bash" ∷ "exec" ∷ "run" ∷ "shell" ∷ "command" ∷ [])
    then lit "execute"
    else if has_any n ("grep" ∷ "glob" ∷ "search" ∷ "list" ∷ "find" ∷ [])
    then lit "locate"
    else if has_any n ("read" ∷ "fetch" ∷ "get" ∷ "view" ∷ [])
    then lit "read"
    else []

-- The variables `grep`, `read` and `exec` of preferLocateTool.
pub record Located : Type 0 where
  pub grep : Str
  pub read : Str
  pub exec : Str

abbrev pub or_else : Str → Str → Str
or_else a b = if is_blank a then b else a

unfoldable pub locate_loop : Located → List Spec → Located
locate_loop l [] = l
locate_loop l (s ∷ specs) =
    let next =
      (if one_of (lower s.name) ("grep" ∷ "grep_files" ∷ [])
        then record l { grep = or_else l.grep s.name }
        else if is_read s.name
        then record l { read = or_else l.read s.name }
        else if is_exec s.name
        then record l { exec = or_else l.exec s.name }
        else l) in
    locate_loop next specs

unfoldable pub prefer_locate_tool : List Spec → Str
prefer_locate_tool specs =
    let l = locate_loop (record { grep = []; read = []; exec = [] }) specs in
    or_else l.grep (or_else l.read l.exec)
