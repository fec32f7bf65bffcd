-- ===== src/Tests/Catalogs.antt =====
-- Narrowing the catalog of a request with three tools.
use jev_routing.Prelude.{◌≡◌, refl, true, false, some, List, [], ◌∷◌, All, any}
use jev_routing.Text.{Str, lit, str_eq}
use jev_routing.Json.{
  Json, string, array, object, Elements, nil, cons, Members, end, member, elements, get,
}
use jev_routing.Plan.Goals.{Visit}
use jev_routing.Tools.{object_of, slice_at, is_catalog, flatten_catalog}
use jev_routing.Tools.Narrow.{names_of, resolve_names, narrow_catalog}
use jev_routing.Tools.Chosen.{required, permitted, pick_tools, AreAmong}
use jev_routing.Tools.Kept.{any_wanted, narrow_catalog-keeps}
use jev_routing.Tools.History.{array_at}
use jev_routing.Tools.Eligible.{inspect_request, extract_tools}
use jev_routing.Tools.Distinct.{IsOpen, inspect-IsOpen}
use jev_routing.Tools.Written.{write_catalog, extract-write_catalog}

abbrev function_tool : Str → Json
function_tool n =
    object (member (lit "type") (string (lit "function")) (member (lit "name") (string n) end))

abbrev hosted : Json
hosted = object (member (lit "type") (string (lit "web_search")) end)

abbrev declared : Elements
declared = cons (function_tool (lit "Read")) (cons (function_tool (lit "Edit")) (cons hosted nil))

abbrev catalog : List Json
catalog = function_tool (lit "Read") ∷ function_tool (lit "Edit") ∷ hosted ∷ []

abbrev message : Json
message =
    object
      (member (lit "role") (string (lit "user")) (member (lit "content") (string (lit "go")) end))

abbrev request : Members
request =
    member (lit "tools") (array declared) (member (lit "messages") (array (cons message nil)) end)

abbrev in_order : Visit
in_order = λ names. names

abbrev only_read : List Json
only_read = function_tool (lit "Read") ∷ hosted ∷ []

read_wanted :
    any_wanted
      (resolve_names in_order (names_of (flatten_catalog catalog)) (lit "Read" ∷ []))
      (flatten_catalog catalog)
    ≡ true
unfolding any_wanted jev_routing.Host.one_of jev_routing.Json.text_at get lit str_eq elements
    jev_routing.Plan.Goals.in_set jev_routing.Text.lower jev_routing.Text.lower_byte
    jev_routing.Text.trim_left jev_routing.Text.trim_right jev_routing.Text.trim_space
    flatten_catalog slice_at jev_routing.Tools.flatten_one jev_routing.Tools.is_local_wrapper
    jev_routing.Tools.is_sticky jev_routing.Tools.tool_name_of
    jev_routing.Tools.is_provider_executed jev_routing.Tools.is_external_namespace
    jev_routing.Tools.unknown_hosted_type jev_routing.Tools.namespace_string
    jev_routing.Tools.local_namespace jev_routing.Plan.Goals.alias_in
    jev_routing.Plan.Goals.alternatives jev_routing.Plan.Goals.first_alias
    jev_routing.Plan.Goals.first_lower resolve_names names_of
    jev_routing.Tools.Narrow.catalog_alias_in
read_wanted = refl

narrowed_to_read : narrow_catalog in_order false catalog (lit "Read" ∷ []) [] ≡ some only_read
unfolding narrow_catalog jev_routing.Host.one_of jev_routing.Json.text_at get lit str_eq elements
    jev_routing.Plan.Goals.in_set jev_routing.Text.lower jev_routing.Text.lower_byte
    jev_routing.Text.trim_left jev_routing.Text.trim_right jev_routing.Text.trim_space
    flatten_catalog slice_at jev_routing.Tools.flatten_one jev_routing.Tools.is_local_wrapper
    jev_routing.Tools.is_sticky jev_routing.Tools.tool_name_of
    jev_routing.Tools.is_provider_executed jev_routing.Tools.is_external_namespace
    jev_routing.Tools.unknown_hosted_type jev_routing.Tools.namespace_string
    jev_routing.Tools.local_namespace jev_routing.Plan.Goals.alias_in
    jev_routing.Plan.Goals.alternatives jev_routing.Plan.Goals.first_alias
    jev_routing.Plan.Goals.first_lower resolve_names names_of
    jev_routing.Tools.Narrow.catalog_alias_in jev_routing.Tools.Narrow.filter_tools
    jev_routing.Tools.Narrow.partition_tools jev_routing.Tools.Narrow.place_tool
    jev_routing.Tools.Narrow.keep_locate_pair jev_routing.Tools.Narrow.add_located
    jev_routing.Tools.Narrow.located jev_routing.Tools.Narrow.locate_pair_name
    jev_routing.Tools.Narrow.inner_tools jev_routing.Tools.Narrow.kept_name
    jev_routing.Tools.Narrow.kept_names jev_routing.Tools.Narrow.rebuild
    jev_routing.Tools.Narrow.rebuild_one jev_routing.Tools.Narrow.reconstruct_catalog
    jev_routing.Tools.Narrow.stays jev_routing.Json.of_list jev_routing.Json.set
narrowed_to_read = refl

narrow_catalog-keeps_example :
    let tools = flatten_catalog catalog in
    let want = resolve_names in_order (names_of tools) (lit "Read" ∷ []) in
    AreAmong (flatten_catalog only_read) tools
    × (pick_tools (required want []) (flatten_catalog only_read)
        ≡ pick_tools (required want []) tools)
    × All (λ t. permitted false want [] (object_of t) ≡ true) (flatten_catalog only_read)
narrow_catalog-keeps_example =
    narrow_catalog-keeps in_order false catalog (lit "Read" ∷ []) [] only_read read_wanted
      narrowed_to_read

eligible : (inspect_request request).ok ≡ true
unfolding inspect_request jev_routing.Host.one_of jev_routing.Json.text_at get lit str_eq elements
    jev_routing.Plan.Goals.in_set jev_routing.Text.lower jev_routing.Text.lower_byte
    jev_routing.Text.trim_left jev_routing.Text.trim_right jev_routing.Text.trim_space
    flatten_catalog slice_at jev_routing.Tools.flatten_one jev_routing.Tools.is_local_wrapper
    jev_routing.Tools.is_sticky jev_routing.Tools.tool_name_of
    jev_routing.Tools.is_provider_executed jev_routing.Tools.is_external_namespace
    jev_routing.Tools.unknown_hosted_type jev_routing.Tools.namespace_string
    jev_routing.Tools.local_namespace jev_routing.Tools.Eligible.protocol_of
    jev_routing.Tools.Eligible.looks_anthropic jev_routing.Tools.Eligible.check_request
    jev_routing.Tools.Eligible.tool_choice_reason jev_routing.Tools.Eligible.catalog_reason
    jev_routing.Tools.Eligible.catalog_loop jev_routing.Tools.Eligible.extract_raw_tools
    jev_routing.Tools.Eligible.first_catalog jev_routing.Tools.Eligible.has_cache_control
    jev_routing.Tools.Eligible.history_of jev_routing.Tools.Eligible.looks_prompt_chat
    jev_routing.Tools.Eligible.thinking_enabled jev_routing.Tools.History.content_reason
    jev_routing.Tools.History.contents_reason jev_routing.Tools.History.history_reason
    jev_routing.Tools.History.is_opaque jev_routing.Tools.History.message_reason
    jev_routing.Tools.catalogs_in jev_routing.Tools.filterable_tools
    jev_routing.Tools.is_mcp_namespace jev_routing.Tools.mcp_prefixed extract_tools
    jev_routing.Text.has_prefix
eligible = refl

inspect-IsOpen_example : IsOpen request
inspect-IsOpen_example = inspect-IsOpen request eligible

no_catalog : any is_catalog (slice_at "input" request) ≡ false
unfolding slice_at get str_eq lit
no_catalog = refl

apart_from_messages : str_eq (lit "tools") (lit "messages") ≡ false
unfolding str_eq lit
apart_from_messages = refl

extract-write_catalog_example :
    let w = write_catalog false only_read request in
    (extract_tools w ≡ flatten_catalog only_read)
    × (get (lit "messages") w ≡ get (lit "messages") request)
unfolding str_eq lit get
extract-write_catalog_example =
    extract-write_catalog false only_read request declared (lit "messages") no_catalog refl refl
      refl refl
