-- ===== src/Tools/Narrow.antt =====
-- filterTools, keepLocatePair and reconstructCatalog of internal/proxy/rewrite.go. A set of names is a
-- list of them, and `visit` is the order in which a loop over a set visits it.
use jev_routing.Prelude.{
  Bool, true, false, not, ◌&&◌, ◌||◌, Option, none, some, List, [], ◌∷◌, ◌++◌, if◌then◌else◌,
}
use jev_routing.Text.{Str, lit, str_eq, is_blank, lower}
use jev_routing.Host.{one_of}
use jev_routing.Json.{Json, array, object, Members, of_list, set}
use jev_routing.Plan.Goals.{in_set, Visit, alias_in}
use jev_routing.Tools.{
  object_of, tool_name_of, is_sticky, is_local_wrapper, slice_at, flatten_catalog,
}

-- `available`
unfoldable pub names_of : List Json → List Str
names_of [] = []
names_of (object m ∷ tools) = tool_name_of m ∷ names_of tools
names_of (v ∷ tools) = names_of tools

-- catalogAliasIn
unfoldable pub catalog_alias_in : Visit → List Str → Str → Str
catalog_alias_in visit available want =
    let alias = alias_in visit available want in
    if not (is_blank alias)
    then alias
    else if str_eq want (lit "grep_search")
    then alias_in visit available (lit "Grep")
    else if str_eq want (lit "task")
    then alias_in visit available (lit "Agent")
    else []

-- `want`
unfoldable pub resolve_names : Visit → List Str → List Str → List Str
resolve_names visit available [] = []
resolve_names visit available (n ∷ names) =
    let rest = resolve_names visit available names in
    let resolved = catalog_alias_in visit available n in
    if is_blank resolved then rest else resolved ∷ rest

-- `kept` and `sticky`
pub record Partition : Type 0 where
  pub kept : List Json
  pub sticky : List Json

abbrev pub keep_tool : Json → Partition → Partition
keep_tool t p = record p { kept = t ∷ p.kept }

abbrev pub stick_tool : Json → Partition → Partition
stick_tool t p = record p { sticky = t ∷ p.sticky }

unfoldable pub place_tool : List Str → List Str → Json → Option Members → Partition → Partition
place_tool want referenced t none p = p
place_tool want referenced t (some m) p =
    if is_sticky m
    then stick_tool t p
    else if in_set want (tool_name_of m)
    then keep_tool t p
    else if in_set referenced (tool_name_of m)
    then stick_tool t p
    else p

unfoldable pub partition_tools : List Str → List Str → List Json → Partition
partition_tools want referenced [] = record { kept = []; sticky = [] }
partition_tools want referenced (t ∷ tools) =
    place_tool want referenced t (object_of t) (partition_tools want referenced tools)

-- Where no tool is kept, none is.
abbrev pub joined : List Json → List Json → List Json
joined [] sticky = []
joined (t ∷ kept) sticky = t ∷ (kept ++ sticky)

-- The tools that filterTools keeps, and whether a name was resolved.
pub record FilteredTools : Type 0 where
  pub tools : List Json
  pub resolved : Bool

abbrev pub any_name : List Str → Bool
any_name [] = false
any_name (n ∷ ns) = true

-- filterTools
unfoldable pub filter_tools : Visit → List Json → List Str → List Str → FilteredTools
filter_tools visit tools names referenced =
    let want = resolve_names visit (names_of tools) names in
    let p = partition_tools want referenced tools in
    if any_name want
    then record { tools = joined p.kept p.sticky; resolved = true }
    else record { tools = tools; resolved = false }

-- locatePairName
unfoldable pub locate_pair_name : Str → Bool
locate_pair_name n =
    one_of (lower n) ("grep" ∷ "grep_search" ∷ "grep_files" ∷ "read" ∷ "read_file" ∷ [])

unfoldable pub add_located : Json → Option Members → List Str → Bool
add_located t none have = false
add_located t (some m) have = let n = tool_name_of m in locate_pair_name n && not (in_set have n)

abbrev pub name_of : Option Members → Str
name_of none = []
name_of (some m) = tool_name_of m

-- The loop of keepLocatePair, which gives what is appended to `kept`.
unfoldable pub located : List Json → List Str → List Json
located [] have = []
located (t ∷ tools) have =
    let more = t ∷ located tools (name_of (object_of t) ∷ have) in
    let rest = located tools have in if add_located t (object_of t) have then more else rest

-- keepLocatePair; the name of a tool without one is no name of the pair.
unfoldable pub keep_locate_pair : List Json → List Json → List Json
keep_locate_pair tools kept = kept ++ located tools (names_of kept)

unfoldable pub kept_name : Option Members → List Str → List Str
kept_name none names = names
kept_name (some m) names = if is_sticky m then names else tool_name_of m ∷ names

-- `keep` of reconstructCatalog; a tool that is not sticky has a name.
unfoldable pub kept_names : List Json → List Str
kept_names [] = []
kept_names (t ∷ kept) = kept_name (object_of t) (kept_names kept)

-- Whether a tool stays, given the names of the tools that are kept.
unfoldable pub stays : List Str → Option Members → Bool
stays keep none = false
stays keep (some m) = is_sticky m || in_set keep (tool_name_of m)

unfoldable pub inner_tools : List Str → List Json → List Json
inner_tools keep [] = []
inner_tools keep (t ∷ tools) =
    let rest = inner_tools keep tools in if stays keep (object_of t) then t ∷ rest else rest

abbrev pub rewrap : Members → List Json → List Json
rewrap m [] = []
rewrap m (t ∷ inner) = object (set (lit "tools") (array (of_list (t ∷ inner))) m) ∷ []

-- What is left of one entry of the catalog.
unfoldable pub rebuild_one : List Str → Json → Option Members → List Json
rebuild_one keep raw none = []
rebuild_one keep raw (some m) =
    if is_local_wrapper m
    then rewrap m (inner_tools keep (slice_at "tools" m))
    else if stays keep (some m)
    then raw ∷ []
    else []

unfoldable pub rebuild : List Str → List Json → List Json
rebuild keep [] = []
rebuild keep (raw ∷ original) = rebuild_one keep raw (object_of raw) ++ rebuild keep original

-- reconstructCatalog
unfoldable pub reconstruct_catalog : List Json → List Json → List Json
reconstruct_catalog [] kept = kept
reconstruct_catalog (t ∷ original) kept = rebuild (kept_names kept) (t ∷ original)

abbrev pub unless_empty : List Json → List Json → Option (List Json)
unless_empty [] out = none
unless_empty (t ∷ kept) out = some out

-- The catalog that RewriteWith writes, from the one of the request: `none` where it leaves the request
-- as it is. `locate` is whether the user asks for a search and then a read.
unfoldable pub narrow_catalog : Visit → Bool → List Json → List Str → List Str → Option (List Json)
narrow_catalog visit locate raw names referenced =
    let tools = flatten_catalog raw in
    let f = filter_tools visit tools names referenced in
    let kept = (if locate then keep_locate_pair tools f.tools else f.tools) in
    if f.resolved then unless_empty kept (reconstruct_catalog raw kept) else none
