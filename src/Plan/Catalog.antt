-- ===== src/Plan/Catalog.antt =====
-- The catalog of capabilities, internal/plan/capability.go. A hash is `sha256` with hexadecimal
-- digits, cut as the source cuts it.
use jev_routing.Prelude.{
  ℕ, zero, suc, Bool, true, false, not, ◌&&◌, ◌||◌, Option, none, some, List, [], ◌∷◌, ◌++◌, map,
  ltb, leb, ◌==◌, if◌then◌else◌,
}
use jev_routing.Text.{Str, lit, str_eq, is_blank, contains, trim_space, join}
use jev_routing.Host.{HostId}
use jev_routing.Plan.{Spec}

pub record ModelEffort : Type 0 where
  pub model : Str
  pub effort : Str

pub record Target : Type 0 where
  pub skill_body_ref : Str
  pub mcp_conn : Str
  pub mcp_tool : Str
  pub cli_command : Str
  pub cli_args : List Str
  pub plugin_children : List Str
  pub subagent_launcher : Str
  pub model_pairs : List ModelEffort

abbrev pub no_target : Target
no_target = record {
  skill_body_ref = [];
  mcp_conn = [];
  mcp_tool = [];
  cli_command = [];
  cli_args = [];
  plugin_children = [];
  subagent_launcher = [];
  model_pairs = [];
}

pub record Capability : Type 0 where
  pub id : Str
  pub kind : Str
  pub name : Str
  pub description : Str
  pub validation_spec : Str
  pub provider : Str
  pub hosts : List HostId
  pub input_schema : Str
  pub availability : Str
  pub permission : Str
  pub version : Str
  pub target : Target
  pub is_explicit : Bool

pub record Catalog : Type 0 where
  pub revision : Str
  pub items : List Capability

abbrev pub installed : Str
installed = lit "installed"

abbrev pub kind_skill : Str
kind_skill = lit "skill"

abbrev pub kind_mcp : Str
kind_mcp = lit "mcp_tool"

abbrev pub kind_cli : Str
kind_cli = lit "cli"

abbrev pub kind_plugin : Str
kind_plugin = lit "plugin"

abbrev pub kind_subagent : Str
kind_subagent = lit "subagent"

abbrev pub kind_model : Str
kind_model = lit "model"

abbrev pub no_items {ℓ} : {A : Type ℓ} → List A → Bool
no_items [] = true
no_items (x ∷ xs) = false

unfoldable pub is_bound : Target → Str → Bool
is_bound t kind =
    if str_eq kind kind_skill
    then not (is_blank t.skill_body_ref)
    else if str_eq kind kind_mcp
    then not (is_blank t.mcp_conn) && not (is_blank t.mcp_tool)
    else if str_eq kind kind_cli
    then not (is_blank t.cli_command)
    else if str_eq kind kind_plugin
    then not (no_items t.plugin_children)
    else if str_eq kind kind_subagent
    then not (is_blank t.subagent_launcher)
    else if str_eq kind kind_model
    then not (no_items t.model_pairs)
    else false

unfoldable pub capability_id : Str → Str → Str → Str → Str
capability_id kind provider name version =
    kind ++ (lit ":" ++ (provider ++ (lit ":" ++ (name ++ (lit "@" ++ version)))))

-- The first `n` characters of a text in UTF-8: a byte that is no continuation byte starts one.
unfoldable pub take_runes : ℕ → Str → Str
take_runes n [] = []
take_runes zero (b ∷ s) = if leb 128 b && leb b 191 then b ∷ take_runes zero s else []
take_runes (suc n) (b ∷ s) = b ∷ take_runes (if leb 128 b && leb b 191 then suc n else n) s

unfoldable pub judgment_desc : Str → Str
judgment_desc text =
    let s = trim_space text in
    if contains s (lit "Bearer ") || (contains s (lit "sk-") || contains s (lit "PRIVATE_"))
    then []
    else take_runes 240 s

abbrev pub with_id : Capability → Capability
with_id item =
    if is_blank item.id
    then record item { id = capability_id item.kind item.provider item.name item.version }
    else item

unfoldable pub has_id : List Capability → Str → Bool
has_id [] id = false
has_id (item ∷ items) id = str_eq item.id id || has_id items id

-- Add on the items; an error is `none`.
unfoldable pub add : List Capability → Capability → Option (List Capability)
add items given =
    let item = with_id given in
    if is_blank given.kind
      || (is_blank given.name || (is_blank given.provider || is_blank given.version))
    then none
    else if not (is_bound item.target item.kind)
    then none
    else if has_id items item.id
    then none
    else some (items ++ (record item { description = judgment_desc item.description } ∷ []))

unfoldable pub add_unique : List Capability → Capability → Option (List Capability)
add_unique items given =
    let item = with_id given in if has_id items item.id then some items else add items item

abbrev pub or_items : Option (List Capability) → List Capability → List Capability
or_items none items = items
or_items (some new) items = new

-- The loop of Merge, which drops the errors.
unfoldable pub merge_loop : List Capability → List Capability → List Capability
merge_loop items [] = items
merge_loop items (c ∷ cs) = merge_loop (or_items (add_unique items c) items) cs

unfoldable pub is_eligible : Capability → Bool
is_eligible item = str_eq item.availability installed && is_bound item.target item.kind

unfoldable pub eligible_of : List Capability → List Capability
eligible_of [] = []
eligible_of (item ∷ items) =
    let rest = eligible_of items in if is_eligible item then item ∷ rest else rest

unfoldable pub catalog_specs : List Capability → List Spec
catalog_specs items =
    map (λ (c : Capability). record { name = c.name; desc = c.description }) (eligible_of items)

-- The order of `sort.Strings`.
unfoldable pub str_le : Str → Str → Bool
str_le [] t = true
str_le (x ∷ s) [] = false
str_le (x ∷ s) (y ∷ t) = ltb x y || (x == y && str_le s t)

unfoldable pub insert_str : Str → List Str → List Str
insert_str x [] = x ∷ []
insert_str x (y ∷ ys) = if str_le x y then x ∷ y ∷ ys else y ∷ insert_str x ys

unfoldable pub sort_strs : List Str → List Str
sort_strs [] = []
sort_strs (x ∷ xs) = insert_str x (sort_strs xs)

unfoldable pub compute_revision : (Str → Str) → List Capability → Str
compute_revision hash items =
    hash (join (lit "\n") (sort_strs (map (λ (c : Capability). c.id) items)))

unfoldable pub merge : (Str → Str) → Catalog → List Capability → Catalog
merge hash c new =
    let items = merge_loop c.items new in
    record { revision = compute_revision hash items; items = items }
