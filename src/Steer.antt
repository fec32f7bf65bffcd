-- ===== src/Steer.antt =====
-- Codex tool steering, internal/proxy/codex_steer.go: the data, and the tools that a request
-- declares. A request is its decoded JSON object.
pub mod Names
pub mod Turns
pub mod Window
pub mod Decide
pub mod Untouched
pub mod Again
use jev_routing.Prelude.{
  ℕ, Bool, true, false, not, ◌&&◌, ◌||◌, Option, none, some, List, [], ◌∷◌, ◌++◌, if◌then◌else◌,
  String,
}
use jev_routing.Text.{Str, lit, str_eq, is_blank, trim_space}
use jev_routing.Json.{
  Json, Elements, Members, null, boolean, number, string, array, object, nil, cons, end, member,
  elements, get, text_at, as_string, as_array, as_object, list_of, objects, or_empty,
}
use jev_routing.Host.{one_of}

pub data ToolKind : Type 0 where
  function custom hosted : ToolKind

pub record SteerTool : Type 0 where
  pub kind : ToolKind
  pub name : Str
  pub description : Str
  pub parameters : Option Members
  pub namespaced : Bool

unfoldable pub str_or : Str → Str → Str
str_or s fallback = if is_blank s then fallback else s

unfoldable pub qualified_name : Str → Str → Str
qualified_name namespace name =
    if not (is_blank namespace) && not (str_eq namespace (lit "functions"))
    then namespace ++ (lit "." ++ name)
    else name

unfoldable pub input_items : Members → List Json
input_items root = elim (get (lit "input") root) [
  | none ↦ []
  | some v ↦ elim v [
    | string s ↦
        object (member (lit "role") (string (lit "user")) (member (lit "content") (string s) end))
        ∷ []
    | array xs ↦ elements xs
    | _ ↦ []
  ]
]

-- The tools of the `additional_tools` items.
unfoldable pub additional_tools : List Members → List Json
additional_tools [] = []
additional_tools (m ∷ ms) =
    let rest = additional_tools ms in
    if str_eq (text_at "type" m) (lit "additional_tools")
    then list_of (as_array (get (lit "tools") m)) ++ rest
    else rest

unfoldable pub declared_tools : Members → List Json
declared_tools root =
    list_of (as_array (get (lit "tools") root)) ++ additional_tools (objects (input_items root))

-- `order` with `byName`, as one list, and `duplicate`.
pub record Declared : Type 0 where
  pub tools : List SteerTool
  pub duplicate : Bool

unfoldable pub has_name : Str → List SteerTool → Bool
has_name name [] = false
has_name name (t ∷ ts) = str_eq t.name name || has_name name ts

-- `byName[name] = t`, where `name` is in the map.
unfoldable pub overwrite : SteerTool → List SteerTool → List SteerTool
overwrite t [] = []
overwrite t (u ∷ us) = if str_eq u.name t.name then t ∷ us else u ∷ overwrite t us

unfoldable pub add_named : SteerTool → Declared → Declared
add_named t d =
    if has_name t.name d.tools
    then record { tools = overwrite t d.tools; duplicate = true }
    else record d { tools = d.tools ++ (t ∷ []) }

unfoldable pub add_hosted : SteerTool → Declared → Declared
add_hosted t d = if has_name t.name d.tools then d else record d { tools = d.tools ++ (t ∷ []) }

abbrev pub web_description : Str
web_description =
    lit "Search the web for up-to-date information the assistant does not already have."

-- `codexHostedDescriptions[typ]`
unfoldable pub hosted_description : Str → Str
hosted_description typ =
    if one_of typ ("web_search" ∷ "web_search_preview" ∷ [])
    then web_description
    else if str_eq typ (lit "local_shell")
    then lit "Run a shell command on the user's machine."
    else if str_eq typ (lit "image_generation")
    then lit "Generate an image."
    else if str_eq typ (lit "code_interpreter")
    then lit "Run Python code in a sandbox."
    else if str_eq typ (lit "file_search")
    then lit "Search the user's uploaded files."
    else []

unfoldable pub hosted_tool : Str → Members → SteerTool
hosted_tool typ tool =
    let given = text_at "description" tool in
    record {
      kind = hosted;
      name = typ;
      description =
          str_or (hosted_description typ)
            (str_or given (lit "The built-in " ++ (typ ++ lit " tool.")));
      parameters = none;
      namespaced = false;
    }

abbrev pub group_of : Option Members → Str
group_of none = []
group_of (some ns) = trim_space (text_at "description" ns)

abbrev pub namespace_of : Option Members → Str
namespace_of none = []
namespace_of (some ns) = text_at "name" ns

-- The description of a namespaced tool starts with that of its namespace.
unfoldable pub with_group : Bool → Str → Str → Str
with_group namespaced group desc =
    if namespaced && not (is_blank group)
    then lit "[" ++ (group ++ (if is_blank desc then lit "]" else lit "] " ++ desc))
    else desc

unfoldable pub named_tool : Bool → Str → Members → Option Members → SteerTool
named_tool is_function name tool namespace =
    let qualified = qualified_name (namespace_of namespace) name in
    let namespaced = not (str_eq qualified name) in
    record {
      kind = if is_function then function else custom;
      name = qualified;
      description = with_group namespaced (group_of namespace) (text_at "description" tool);
      parameters = if is_function then as_object (get (lit "parameters") tool) else none;
      namespaced = namespaced;
    }

-- What `add` does with a tool that is no namespace.
unfoldable pub add_leaf : Option Members → Members → Declared → Declared
add_leaf namespace tool d =
    let typ = text_at "type" tool in
    let name = text_at "name" tool in
    if one_of typ ("function" ∷ "custom" ∷ []) && not (is_blank name)
    then add_named (named_tool (str_eq typ (lit "function")) name tool namespace) d
    else if not (is_blank typ)
    then add_hosted (hosted_tool typ tool) d
    else d

-- The closure `add` of codexToolsFrom. A namespace adds the objects in its `tools`, which
-- `add_nested` looks up.
unfoldable mutual
  pub add_tool : Json → Option Members → Declared → Declared
  add_tool (object tool) namespace d =
      if str_eq (text_at "type" tool) (lit "namespace")
      then add_nested tool tool d
      else add_leaf namespace tool d
  add_tool _ namespace d = d

  pub add_nested : Members → Members → Declared → Declared
  add_nested end namespace d = d
  add_nested (member key v ms) namespace d =
      if str_eq key (lit "tools") then add_value v namespace d else add_nested ms namespace d

  pub add_value : Json → Members → Declared → Declared
  add_value (array xs) namespace d = add_elements xs namespace d
  add_value _ namespace d = d

  pub add_elements : Elements → Members → Declared → Declared
  add_elements nil namespace d = d
  add_elements (cons x xs) namespace d = add_elements xs namespace (add_tool x (some namespace) d)

unfoldable pub add_tools : List Json → Declared → Declared
add_tools [] d = d
add_tools (x ∷ xs) d = add_tools xs (add_tool x none d)

unfoldable pub tools_from : List Json → Declared
tools_from raw = add_tools raw (record { tools = []; duplicate = false })
