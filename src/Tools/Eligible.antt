-- ===== src/Tools/Eligible.antt =====
-- Which requests RewriteWith may change, internal/proxy/rewrite.go: inspectRequest and what it calls but
-- historyShape, which only collects labels for a report. An empty reason is none.
use jev_routing.Prelude.{
  Bool, true, false, not, ◌&&◌, ◌||◌, Option, none, some, List, [], ◌∷◌, ◌++◌, if◌then◌else◌, any,
}
use jev_routing.Text.{Str, lit, str_eq, is_blank}
use jev_routing.Host.{one_of}
use jev_routing.Json.{
  Json, null, string, object, Elements, Members, elements, get, as_object, text_at, list_of,
}
use jev_routing.Plan.Goals.{in_set}
use jev_routing.Tools.{
  tool_name_of, is_true, is_sticky, is_external_namespace, is_mcp_namespace, slice_at,
  flatten_catalog, filterable_tools, is_catalog, catalogs_in,
}
use jev_routing.Tools.History.{has_key, array_at, is_string, has_array, history_reason}

unfoldable pub first_catalog : Option Elements → List Json → Option Elements → List Json
first_catalog (some t) extra functions = elements t ++ extra
first_catalog none extra functions = list_of functions

-- extractRawTools
unfoldable pub extract_raw_tools : Members → List Json
extract_raw_tools root =
    let extra = slice_at "additional_tools" root in
    if any is_catalog (slice_at "input" root)
    then slice_at "tools" root ++ (extra ++ catalogs_in (slice_at "input" root))
    else first_catalog (array_at "tools" root) extra (array_at "functions" root)

-- extractTools, whose tools are those of extractRawTools flattened
unfoldable pub extract_tools : Members → List Json
extract_tools root = flatten_catalog (extract_raw_tools root)

unfoldable pub catalog_key : Option Elements → Option Elements → Str
catalog_key (some t) functions = lit "tools"
catalog_key none (some f) = lit "functions"
catalog_key none none = lit "tools"

-- The key that extractTools gives.
unfoldable pub tools_key : Members → Str
tools_key root =
    if any is_catalog (slice_at "input" root)
    then lit "responses_lite"
    else catalog_key (array_at "tools" root) (array_at "functions" root)

abbrev pub any_tool : List Json → Bool
any_tool [] = false
any_tool (t ∷ tools) = true

-- looksPromptChat
unfoldable pub looks_prompt_chat : Members → Bool
looks_prompt_chat root =
    (is_string (get (lit "prompt") root) || is_string (get (lit "message") root))
    && any_tool (filterable_tools (extract_tools root))

-- streamTrue
unfoldable pub stream_true : Members → Bool
stream_true root = is_true (get (lit "stream") root)

abbrev pub thinks : Option Members → Bool
thinks none = false
thinks (some th) =
    not (is_blank (text_at "type" th)) && not (str_eq (text_at "type" th) (lit "disabled"))

-- thinkingEnabled
unfoldable pub thinking_enabled : Members → Bool
thinking_enabled root = thinks (as_object (get (lit "thinking") root))

abbrev pub is_cached_block : Json → Bool
is_cached_block (object m) = has_key "cache_control" m
is_cached_block _ = false

-- hasCacheControl
unfoldable pub has_cache_control : Members → Bool
has_cache_control root =
    has_key "cache_control" root || any is_cached_block (slice_at "system" root)

abbrev pub is_anthropic_tool : Json → Bool
is_anthropic_tool (object m) = not (has_key "function" m) && has_key "name" m
is_anthropic_tool _ = false

-- looksAnthropic
unfoldable pub looks_anthropic : Members → Bool
looks_anthropic root =
    has_key "thinking" root
    || ((has_key "system" root && has_array (array_at "messages" root))
        && any is_anthropic_tool (slice_at "tools" root))

-- toolChoiceReason of `v`
unfoldable pub tool_choice_reason : Option Json → Str
tool_choice_reason none = []
tool_choice_reason (some null) = []
tool_choice_reason (some (string s)) =
    if one_of s ("" ∷ "auto" ∷ []) then [] else lit "explicit_tool_choice"
tool_choice_reason (some (object m)) =
    if one_of (text_at "type" m) ("" ∷ "auto" ∷ []) then [] else lit "explicit_tool_choice"
tool_choice_reason (some v) = lit "explicit_tool_choice"

abbrev pub sticky_reason_of : Members → Str
sticky_reason_of m =
    if is_external_namespace m || is_mcp_namespace m
    then lit "namespaced_tools"
    else lit "provider_executed"

abbrev pub no_name : List Str → Bool
no_name [] = true
no_name (n ∷ ns) = false

-- The loop of catalogReason. `seen` has the names of the tools that are counted; a tool that is not
-- sticky has a name.
unfoldable pub catalog_loop : List Json → List Str → Str → Str
catalog_loop [] seen sticky = if no_name seen then sticky else []
catalog_loop (object m ∷ tools) seen sticky =
    let first = catalog_loop tools seen (if is_blank sticky then sticky_reason_of m else sticky) in
    let next = catalog_loop tools (tool_name_of m ∷ seen) sticky in
    if is_sticky m
    then first
    else if in_set seen (tool_name_of m)
    then lit "duplicate_names"
    else next
catalog_loop (v ∷ tools) seen sticky = catalog_loop tools seen sticky

-- catalogReason
unfoldable pub catalog_reason : List Json → Str
catalog_reason tools = catalog_loop tools [] []

pub data Protocol : Type 0 where
  no_protocol legacy responses chat prompt anthropic : Protocol

-- eligibility, without the labels for a report
pub record Eligibility : Type 0 where
  pub ok : Bool
  pub forced_ok : Bool
  pub reason : Str
  pub protocol : Protocol

abbrev pub ineligible : Str → Protocol → Eligibility
ineligible reason p = record { ok = false; forced_ok = false; reason = reason; protocol = p }

-- `hist`
unfoldable pub history_of : Option Elements → Option Elements → List Json
history_of (some messages) input = elements messages
history_of none input = list_of input

unfoldable pub protocol_of : Members → Protocol
protocol_of root =
    if not (has_key "messages" root || has_key "input" root)
    then if looks_prompt_chat root then prompt else no_protocol
    else if has_key "input" root && not (has_key "messages" root)
    then responses
    else if looks_anthropic root
    then anthropic
    else chat

abbrev pub is_forced_ok : Protocol → Members → Bool
is_forced_ok chat root = true
is_forced_ok responses root = true
is_forced_ok anthropic root = not (thinking_enabled root || has_cache_control root)
is_forced_ok _ root = false

-- The checks after the protocol is known.
unfoldable pub check_request : Protocol → Members → Eligibility
check_request p root =
    let choice = tool_choice_reason (get (lit "tool_choice") root) in
    let catalog = catalog_reason (extract_tools root) in
    let history = history_reason (history_of (array_at "messages" root) (array_at "input" root)) in
    if not (is_blank choice)
    then ineligible choice p
    else if not (is_blank catalog)
    then ineligible catalog p
    else if not (is_blank history)
    then ineligible history p
    else record { ok = true; forced_ok = is_forced_ok p root; reason = []; protocol = p }

abbrev pub check_protocol : Protocol → Members → Eligibility
check_protocol no_protocol root = ineligible (lit "not_chat") no_protocol
check_protocol p root = check_request p root

-- inspectRequest
unfoldable pub inspect_request : Members → Eligibility
inspect_request root =
    if has_key "functions" root && not (has_array (array_at "tools" root))
    then ineligible (lit "legacy_functions") legacy
    else if not (is_blank (text_at "previous_response_id" root))
    then ineligible (lit "previous_response_id") responses
    else check_protocol (protocol_of root) root
