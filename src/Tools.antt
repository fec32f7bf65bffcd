-- ===== src/Tools.antt =====
-- The tools of a request, internal/proxy/rewrite.go: which tools may be removed, and the catalog without
-- the others. A tool is a decoded JSON value.
pub mod Narrow
pub mod Rebuilt
pub mod Chosen
pub mod Narrowed
pub mod Kept
pub mod History
pub mod Eligible
pub mod Distinct
pub mod Written
use jev_routing.Prelude.{
  ℕ, Bool, true, false, not, ◌&&◌, ◌||◌, Option, none, some, List, [], ◌∷◌, ◌++◌, if◌then◌else◌,
  String,
}
use jev_routing.Text.{Str, lit, str_eq, is_blank, lower, trim_space, has_prefix}
use jev_routing.Host.{one_of}
use jev_routing.Json.{
  Json, null, boolean, number, string, array, object, Elements, Members, elements, of_list, get,
  set, as_string, as_array, as_object, or_empty, text_at, list_of,
}

-- The object of a value, `raw.(map[string]any)`.
abbrev pub object_of : Json → Option Members
object_of (object ms) = some ms
object_of _ = none

abbrev pub function_name : Option Members → Str
function_name none = []
function_name (some fn) = text_at "name" fn

-- toolNameOf
unfoldable pub tool_name_of : Members → Str
tool_name_of m =
    let n = text_at "name" m in
    if is_blank n then function_name (as_object (get (lit "function") m)) else n

abbrev pub is_present : Option Json → Bool
is_present none = false
is_present (some v) = true

-- isProviderExecuted
unfoldable pub is_provider_executed : Members → Bool
is_provider_executed m =
    one_of (text_at "type" m) (
      "web_search" ∷ "file_search" ∷ "code_interpreter" ∷ "computer" ∷ "computer_use" ∷ "hosted"
      ∷ "server_tool" ∷ "mcp" ∷ "tool_search" ∷ "local_shell" ∷ "image_generation"
      ∷ "tool_search_tool_regex_20251119" ∷ "tool_search_tool_bm25_20251119" ∷ [])
    || is_present (get (lit "server_label") m)

-- unknownHostedType
unfoldable pub unknown_hosted_type : Members → Bool
unknown_hosted_type m =
    let typ = text_at "type" m in
    is_blank (tool_name_of m)
    && not (is_blank typ || (str_eq typ (lit "function") || str_eq typ (lit "custom")))

-- localNamespace
unfoldable pub local_namespace : Str → Bool
local_namespace ns = one_of (lower (trim_space ns)) ("" ∷ "functions" ∷ "default" ∷ [])

-- mcpPrefixed
unfoldable pub mcp_prefixed : Str → Bool
mcp_prefixed s = let t = lower s in has_prefix t (lit "mcp__") || has_prefix t (lit "mcp.")

abbrev pub namespace_text : Option Json → Str
namespace_text (some (string s)) = s
namespace_text (some (object ms)) = text_at "name" ms
namespace_text _ = []

-- namespaceString
unfoldable pub namespace_string : Members → Str
namespace_string m = namespace_text (get (lit "namespace") m)

-- isLocalNamespaceWrapper
unfoldable pub is_local_wrapper : Members → Bool
is_local_wrapper m =
    str_eq (text_at "type" m) (lit "namespace") && local_namespace (text_at "name" m)

-- isExternalNamespace
unfoldable pub is_external_namespace : Members → Bool
is_external_namespace m =
    str_eq (text_at "type" m) (lit "namespace") && not (local_namespace (text_at "name" m))

-- isMCPNamespace
unfoldable pub is_mcp_namespace : Members → Bool
is_mcp_namespace m =
    mcp_prefixed (text_at "name" m)
    || (mcp_prefixed (namespace_string m) || is_external_namespace m)

abbrev pub is_true : Option Json → Bool
is_true (some (boolean b)) = b
is_true _ = false

-- isSticky
unfoldable pub is_sticky : Members → Bool
is_sticky m =
    let ns = namespace_string m in
    is_true (get (lit "defer_loading") m)
    || (str_eq (tool_name_of m) (lit "ToolSearch")
        || (is_provider_executed m
            || (is_external_namespace m
                || (unknown_hosted_type m
                    || ((not (is_blank ns) && not (local_namespace ns))
                        || is_blank (tool_name_of m))))))

-- The elements of `asSlice(m[key])`.
unfoldable pub slice_at : String → Members → List Json
slice_at key m = list_of (as_array (get (lit key) m))

-- The tools that one entry of a catalog stands for.
unfoldable pub flatten_one : Json → Option Members → List Json
flatten_one raw none = raw ∷ []
flatten_one raw (some m) = if is_local_wrapper m then slice_at "tools" m else raw ∷ []

-- flattenCatalog
unfoldable pub flatten_catalog : List Json → List Json
flatten_catalog [] = []
flatten_catalog (raw ∷ tools) = flatten_one raw (object_of raw) ++ flatten_catalog tools

abbrev pub may_filter : Option Members → Bool
may_filter none = false
may_filter (some m) = not (is_sticky m)

-- filterableTools
unfoldable pub filterable_tools : List Json → List Json
filterable_tools [] = []
filterable_tools (t ∷ tools) =
    let rest = filterable_tools tools in if may_filter (object_of t) then t ∷ rest else rest

-- `input` entries of type "additional_tools"
abbrev pub is_catalog : Json → Bool
is_catalog (object m) = str_eq (text_at "type" m) (lit "additional_tools")
is_catalog _ = false

-- inputToolCatalogs, the tools of each
unfoldable pub catalogs_in : List Json → List Json
catalogs_in [] = []
catalogs_in (object m ∷ items) =
    let rest = catalogs_in items in
    if is_catalog (object m) then slice_at "tools" m ++ rest else rest
catalogs_in (v ∷ items) = catalogs_in items
