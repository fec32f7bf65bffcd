-- ===== src/Tools/History.antt =====
-- Which histories RewriteWith reads, internal/proxy/rewrite.go. An empty reason is none.
use jev_routing.Prelude.{
  Bool, true, false, not, ◌&&◌, ◌||◌, Option, none, some, List, [], ◌∷◌, if◌then◌else◌, String,
}
use jev_routing.Text.{Str, lit, str_eq}
use jev_routing.Host.{one_of}
use jev_routing.Json.{
  Json, boolean, number, string, array, object, Elements, nil, cons, Members, end, member, get,
  as_array, text_at,
}
use jev_routing.Tools.{is_present}

abbrev pub has_key : String → Members → Bool
has_key key m = is_present (get (lit key) m)

abbrev pub array_at : String → Members → Option Elements
array_at key m = as_array (get (lit key) m)

abbrev pub is_string : Option Json → Bool
is_string (some (string s)) = true
is_string _ = false

abbrev pub has_array : Option Elements → Bool
has_array none = false
has_array (some xs) = true

-- isOpaqueAgentMessage of an object
unfoldable pub is_opaque : Members → Bool
is_opaque m = has_key "encrypted_content" m || has_array (array_at "content" m)

abbrev pub is_known_part : Str → Bool
is_known_part typ = one_of typ (
    "text" ∷ "output_text" ∷ "input_text" ∷ "tool_use" ∷ "tool_result" ∷ "thinking"
    ∷ "redacted_thinking" ∷ "tool_reference" ∷ "tool_addition" ∷ "tool_removal" ∷ "" ∷ "image"
    ∷ "image_url" ∷ "input_image" ∷ "image_file" ∷ "encrypted_content" ∷ [])

-- The first reason, if there is one.
abbrev pub or_reason : Str → Str → Str
or_reason [] later = later
or_reason (b ∷ s) later = b ∷ s

-- contentReason. `part_reason` is that of the `content` of a part.
unfoldable mutual
  pub content_reason : Json → Str
  content_reason (boolean b) = lit "unknown_history"
  content_reason (number m e) = lit "unknown_history"
  content_reason (array parts) = parts_reason parts
  content_reason v = []

  pub parts_reason : Elements → Str
  parts_reason nil = []
  parts_reason (cons (object p) parts) =
      let inner = part_reason p in
      let later = parts_reason parts in
      if is_known_part (text_at "type" p)
      then or_reason inner later
      else if has_key "text" p
      then later
      else lit "unknown_history"
  parts_reason (cons v parts) = lit "unknown_history"

  pub part_reason : Members → Str
  part_reason end = []
  part_reason (member k v ms) =
      let here = content_reason v in
      let later = part_reason ms in if str_eq k (lit "content") then here else later

abbrev pub is_known_item : Str → Bool
is_known_item typ = one_of typ (
    "function_call" ∷ "function_call_output" ∷ "custom_tool_call" ∷ "custom_tool_call_output"
    ∷ "local_shell_call" ∷ "local_shell_call_output" ∷ "tool_search_call" ∷ "web_search_call"
    ∷ "file_search_call" ∷ "computer_call" ∷ "computer_call_output" ∷ "image_generation_call"
    ∷ "code_interpreter_call" ∷ "shell_call" ∷ "shell_call_output" ∷ "apply_patch_call"
    ∷ "apply_patch_call_output" ∷ "mcp_call" ∷ "mcp_call_output" ∷ "message" ∷ "reasoning"
    ∷ "item_reference" ∷ "" ∷ [])

abbrev pub reason_at : Option Json → Str
reason_at none = []
reason_at (some v) = content_reason v

unfoldable pub contents_reason : Members → Str
contents_reason m =
    or_reason (reason_at (get (lit "content") m))
      (or_reason (reason_at (get (lit "output") m)) (reason_at (get (lit "input") m)))

-- messageReason
unfoldable pub message_reason : Members → Str
message_reason m =
    let typ = text_at "type" m in
    if str_eq typ (lit "agent_message")
    then if has_key "text" m && not (is_string (get (lit "text") m))
      then lit "unknown_history"
      else if is_opaque m
      then []
      else contents_reason m
    else if is_known_item typ || has_key "role" m
    then contents_reason m
    else lit "unrecognized_format"

-- historyReason
unfoldable pub history_reason : List Json → Str
history_reason [] = []
history_reason (object m ∷ msgs) = or_reason (message_reason m) (history_reason msgs)
history_reason (v ∷ msgs) = lit "unrecognized_format"
