-- ===== src/Steer/Turns.antt =====
-- The conversation of a request, internal/proxy/codex_steer.go: codexTextOf and codexTurnsFrom.
-- `marshal` is `json.Marshal`.
pub mod Limits
use jev_routing.Prelude.{
  ℕ, zero, suc, ◌+◌, ◌-◌, ◌/◌, min, Bool, true, false, not, ◌&&◌, Option, none, some, List, [], ◌∷◌,
  ◌++◌, map, ltb, leb, if◌then◌else◌, length, drop, take, concat,
}
use jev_routing.Text.{Str, lit, str_eq, is_blank, trim_space, join}
use jev_routing.Text.Runes.{runes, truncate_runes}
use jev_routing.Json.{
  Json, Members, null, string, array, object, end, member, elements, of_list, get, text_at, present,
  as_string, as_array, as_object, list_of, objects,
}
use jev_routing.Host.{one_of}
use jev_routing.Steer.{SteerTool, str_or, qualified_name, input_items}

pub record ToolCall : Type 0 where
  pub tool : Str
  pub arguments : Str

pub record Turn : Type 0 where
  pub role : Str
  pub text : Str
  pub tool_calls : List ToolCall
  pub tool : Str
  pub content : Str

abbrev pub turn : Str → Str → Turn
turn role text = record { role = role; text = text; tool_calls = []; tool = []; content = [] }

abbrev pub call_turn : Str → Str → Turn
call_turn tool arguments = record (turn (lit "assistant") []) {
  tool_calls = record { tool = tool; arguments = arguments } ∷ [];
}

abbrev pub result_turn : Str → Str → Turn
result_turn tool content = record (turn (lit "tool_result") []) { tool = tool; content = content }

-- toJSON
unfoldable pub call_json : List ToolCall → List Json
call_json [] = []
call_json (c ∷ cs) =
    object (member (lit "tool") (string c.tool) (member (lit "arguments") (string c.arguments) end))
    ∷ call_json cs

abbrev pub no_calls : List ToolCall → Bool
no_calls [] = true
no_calls (c ∷ cs) = false

unfoldable pub turn_json : Turn → Json
turn_json t =
    let result =
      (if str_eq t.role (lit "tool_result")
        then member (lit "tool") (string t.tool) (member (lit "content") (string t.content) end)
        else end) in
    let calls =
      (if no_calls t.tool_calls
        then result
        else member (lit "tool_calls") (array (of_list (call_json t.tool_calls))) result) in
    let text = (if is_blank t.text then calls else member (lit "text") (string t.text) calls) in
    object (member (lit "role") (string t.role) text)

-- The text of one content part.
unfoldable pub part_text : Json → Str
part_text (object m) = elim (as_string (get (lit "text") m)) [
  | some t ↦ t
  | none ↦ lit "[" ++ (str_or (text_at "type" m) (lit "attachment") ++ lit "]")
]
part_text _ = lit "[attachment]"

-- codexTextOf; `none` is nil.
unfoldable pub text_of : (Json → Str) → Option Json → Str
text_of marshal none = []
text_of marshal (some null) = []
text_of marshal (some (string s)) = s
text_of marshal (some (array xs)) = join (lit "\n") (map part_text (elements xs))
text_of marshal (some v) = marshal v

abbrev pub max_message : ℕ
max_message = 4000

-- `toolNameByCallID`, the newest entry first.
pub record CallName : Type 0 where
  pub call_id : Str
  pub name : Str

unfoldable pub call_name : List CallName → Str → Str
call_name [] id = []
call_name (c ∷ cs) id = if str_eq c.call_id id then c.name else call_name cs id

-- `systemParts`, `turns`, `toolNameByCallID` and `hasAgentMessage`.
pub record Reading : Type 0 where
  pub system : List Str
  pub turns : List Turn
  pub names : List CallName
  pub agent : Bool

abbrev pub add_turn : Turn → Reading → Reading
add_turn t r = record r { turns = r.turns ++ (t ∷ []) }

abbrev pub name_call : Str → Str → Reading → Reading
name_call id name r =
    if is_blank id then r else record r { names = record { call_id = id; name = name } ∷ r.names }

unfoldable pub read_message : (Json → Str) → Members → Reading → Reading
read_message marshal m r =
    let role = text_at "role" m in
    let text = truncate_runes (text_of marshal (get (lit "content") m)) max_message in
    if one_of role ("system" ∷ "developer" ∷ [])
    then (if is_blank text then r else record r { system = r.system ++ (text ∷ []) })
    else add_turn (turn (str_or role (lit "user")) text) r

-- `m["arguments"]`, or `m["input"]` where it is nil.
unfoldable pub arguments_of : Members → Option Json
arguments_of m = if present "arguments" m then get (lit "arguments") m else get (lit "input") m

unfoldable pub read_call : (Json → Str) → Members → Reading → Reading
read_call marshal m r =
    let name = qualified_name (text_at "namespace" m) (str_or (text_at "name" m) (lit "unknown")) in
    add_turn (call_turn name (truncate_runes (text_of marshal (arguments_of m)) max_message))
      (name_call (text_at "call_id" m) name r)

unfoldable pub strings_in : List Json → List Str
strings_in [] = []
strings_in (string s ∷ xs) = s ∷ strings_in xs
strings_in (x ∷ xs) = strings_in xs

abbrev pub command_of : Option Members → List Str
command_of none = []
command_of (some action) = strings_in (list_of (as_array (get (lit "command") action)))

unfoldable pub read_shell : Members → Reading → Reading
read_shell m r =
    let command = command_of (as_object (get (lit "action") m)) in
    add_turn (call_turn (lit "local_shell") (truncate_runes (join (lit " ") command) max_message))
      (name_call (text_at "call_id" m) (lit "local_shell") r)

unfoldable pub read_output : (Json → Str) → Members → Reading → Reading
read_output marshal m r =
    let tool = str_or (call_name r.names (text_at "call_id" m)) (lit "unknown") in
    add_turn
      (result_turn tool (truncate_runes (text_of marshal (get (lit "output") m)) max_message)) r

-- `strings.HasSuffix`
unfoldable pub has_suffix : Str → Str → Bool
has_suffix s suffix =
    leb (length suffix) (length s) && str_eq (drop (length s - length suffix) s) suffix

-- `typ`, where a missing type with a role is a message.
unfoldable pub item_type : Members → Str
item_type m =
    let typ = text_at "type" m in if is_blank typ && present "role" m then lit "message" else typ

unfoldable pub read_item : (Json → Str) → Members → Reading → Reading
read_item marshal m r =
    let typ = item_type m in
    if str_eq typ (lit "agent_message")
    then record r { agent = true }
    else if str_eq typ (lit "message")
    then read_message marshal m r
    else if one_of typ ("function_call" ∷ "custom_tool_call" ∷ [])
    then read_call marshal m r
    else if str_eq typ (lit "local_shell_call")
    then read_shell m r
    else if has_suffix typ (lit "_call_output")
    then read_output marshal m r
    else r

unfoldable pub read_items : (Json → Str) → List Members → Reading → Reading
read_items marshal [] r = r
read_items marshal (m ∷ ms) r = read_items marshal ms (read_item marshal m r)

pub record Conversation : Type 0 where
  pub system : Str
  pub turns : List Turn
  pub agent : Bool

unfoldable pub turns_from : (Json → Str) → Members → Conversation
turns_from marshal root =
    let instructions = text_at "instructions" root in
    let start : Reading = record {
      system = if is_blank instructions then [] else instructions ∷ [];
      turns = [];
      names = [];
      agent = false;
    } in
    let r = read_items marshal (objects (input_items root)) start in
    record {
      system = truncate_runes (join (lit "\n\n") r.system) max_message;
      turns = r.turns;
      agent = r.agent;
    }
