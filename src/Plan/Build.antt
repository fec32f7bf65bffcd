-- ===== src/Plan/Build.antt =====
-- BuildCatalog of internal/plan/capability.go. The list of errors is their number.
use jev_routing.Prelude.{
  ℕ, ◌+◌, Bool, true, false, not, ◌&&◌, ◌||◌, none, some, List, [], ◌∷◌, ◌++◌, if◌then◌else◌,
}
use jev_routing.Text.{Str, lit, str_eq, is_blank, lower, contains, has_prefix, trim_space}
use jev_routing.Host.{HostId}
use jev_routing.Plan.{Spec, host_meta, is_agent, is_exec}
use jev_routing.Plan.Catalog.{
  ModelEffort, Target, no_target, Capability, Catalog, installed, kind_skill, kind_mcp, kind_cli,
  kind_plugin, kind_subagent, kind_model, capability_id, judgment_desc, add, add_unique,
  compute_revision,
}

pub record SkillIn : Type 0 where
  pub name : Str
  pub provider : Str
  pub version : Str
  pub body_ref : Str
  pub description : Str
  pub hosts : List HostId
  pub is_explicit : Bool
  pub available : Bool
  pub permission : Str

pub record CliIn : Type 0 where
  pub name : Str
  pub provider : Str
  pub version : Str
  pub command : Str
  pub description : Str
  pub args : List Str
  pub hosts : List HostId
  pub available : Bool
  pub permission : Str

pub record PluginIn : Type 0 where
  pub name : Str
  pub provider : Str
  pub version : Str
  pub description : Str
  pub hosts : List HostId
  pub available : Bool
  pub children : List Capability

pub record ModelIn : Type 0 where
  pub name : Str
  pub provider : Str
  pub version : Str
  pub description : Str
  pub hosts : List HostId
  pub pairs : List ModelEffort
  pub available : Bool

pub record SubagentIn : Type 0 where
  pub name : Str
  pub provider : Str
  pub version : Str
  pub launcher : Str
  pub description : Str
  pub hosts : List HostId
  pub available : Bool

pub record Inventory : Type 0 where
  pub tools : List Spec
  pub skills : List SkillIn
  pub clis : List CliIn
  pub plugins : List PluginIn
  pub models : List ModelIn
  pub subagents : List SubagentIn

abbrev pub availability_of : Bool → Str
availability_of true = installed
availability_of false = lit "missing"

abbrev pub perm_unknown : Str
perm_unknown = lit "unknown"

unfoldable pub perm_or_unknown : Str → Str
perm_or_unknown p = if is_blank (trim_space p) then perm_unknown else p

-- A capability with the fields that every literal of BuildCatalog sets.
abbrev pub capability :
    Str → Str → Str → Str → Str → List HostId → Bool → Str → Bool → Target → Capability
capability kind provider name version description hosts available permission chosen target =
    record {
      id = capability_id kind provider name version;
      kind = kind;
      name = name;
      description = description;
      validation_spec = [];
      provider = provider;
      hosts = hosts;
      input_schema = [];
      availability = availability_of available;
      permission = permission;
      version = version;
      target = target;
      is_explicit = chosen;
    }

abbrev pub host_capability : Str → Str → Target → Spec → HostId → Capability
host_capability kind provider target s h =
    capability kind provider s.name (lit "host") (judgment_desc s.desc) (h ∷ []) true perm_unknown
      false target

-- capabilityFromSpec
unfoldable pub capability_from_spec : Spec → HostId → Capability
capability_from_spec s h =
    let n = lower s.name in
    let mcp = record no_target { mcp_conn = lit "host-catalog"; mcp_tool = s.name } in
    if has_prefix n (lit "mcp__") || contains n (lit "mcp")
    then host_capability kind_mcp (lit "mcp") mcp s h
    else if is_agent s.name
    then host_capability kind_subagent (lit "host")
        (record no_target { subagent_launcher = s.name }) s h
    else if has_prefix n (lit "skill") && not (str_eq n (lit "skill"))
    then host_capability kind_skill (lit "host")
        (record no_target { skill_body_ref = lit "host-skill:" ++ s.name }) s h
    else if is_exec s.name
    then host_capability kind_cli (lit "host") (record no_target { cli_command = s.name }) s h
    else host_capability kind_mcp (lit "host") mcp s h

unfoldable pub capabilities_from_specs : List Spec → HostId → List Capability
capabilities_from_specs [] h = []
capabilities_from_specs (s ∷ specs) h =
    let rest = capabilities_from_specs specs h in
    if is_blank s.name || host_meta s.name then rest else capability_from_spec s h ∷ rest

-- The items so far, and the number of errors.
pub record Building : Type 0 where
  pub items : List Capability
  pub errors : ℕ

-- The closure `add` of BuildCatalog.
unfoldable pub add_to : Building → Capability → Building
add_to b item = elim (add b.items item) [
  | none ↦ record b { errors = b.errors + 1 }
  | some items ↦ record b { items = items }
]

unfoldable pub add_all : Building → List Capability → Building
add_all b [] = b
add_all b (item ∷ items) = add_all (add_to b item) items

unfoldable pub skill_capabilities : List SkillIn → List Capability
skill_capabilities [] = []
skill_capabilities (s ∷ ss) =
    capability kind_skill s.provider s.name s.version s.description s.hosts s.available
      (perm_or_unknown s.permission) s.is_explicit
      (record no_target { skill_body_ref = s.body_ref })
    ∷ skill_capabilities ss

unfoldable pub cli_capabilities : List CliIn → List Capability
cli_capabilities [] = []
cli_capabilities (s ∷ ss) =
    capability kind_cli s.provider s.name s.version s.description s.hosts s.available
      (perm_or_unknown s.permission) false
      (record no_target { cli_command = s.command; cli_args = s.args })
    ∷ cli_capabilities ss

unfoldable pub model_capabilities : List ModelIn → List Capability
model_capabilities [] = []
model_capabilities (s ∷ ss) =
    capability kind_model s.provider s.name s.version s.description s.hosts s.available perm_unknown
      false (record no_target { model_pairs = s.pairs })
    ∷ model_capabilities ss

unfoldable pub subagent_capabilities : List SubagentIn → List Capability
subagent_capabilities [] = []
subagent_capabilities (s ∷ ss) =
    capability kind_subagent s.provider s.name s.version s.description s.hosts s.available
      perm_unknown false (record no_target { subagent_launcher = s.launcher })
    ∷ subagent_capabilities ss

abbrev pub or_str : Str → Str → Str
or_str a b = if is_blank a then b else a

-- What the plugin loop sets on a child.
unfoldable pub adopt : PluginIn → Capability → Capability
adopt s child =
    let c = record child { provider = s.name; version = or_str child.version s.version } in
    record c {
      id = or_str c.id (capability_id c.kind c.provider c.name c.version);
      availability = or_str c.availability (availability_of s.available);
      permission = or_str c.permission perm_unknown;
    }

-- The loop over the children, with `childIDs`.
pub record Adopting : Type 0 where
  pub built : Building
  pub child_ids : List Str

unfoldable pub add_child : Adopting → Capability → Adopting
add_child a c = elim (add_unique a.built.items c) [
  | none ↦ record a { built = record { items = a.built.items; errors = a.built.errors + 1 } }
  | some items ↦ record {
    built = record { items = items; errors = a.built.errors };
    child_ids = a.child_ids ++ (c.id ∷ []);
  }
]

unfoldable pub add_children : PluginIn → Adopting → List Capability → Adopting
add_children s a [] = a
add_children s a (c ∷ cs) = add_children s (add_child a (adopt s c)) cs

unfoldable pub add_plugin : Building → PluginIn → Building
add_plugin b s =
    let a = add_children s (record { built = b; child_ids = [] }) s.children in
    add_to a.built (
      capability kind_plugin s.provider s.name s.version s.description s.hosts s.available
        perm_unknown false (record no_target { plugin_children = a.child_ids }))

unfoldable pub add_plugins : Building → List PluginIn → Building
add_plugins b [] = b
add_plugins b (s ∷ ss) = add_plugins (add_plugin b s) ss

unfoldable pub build_items : Inventory → HostId → Building
build_items inv h =
    let tools = add_all (record { items = []; errors = 0 }) (capabilities_from_specs inv.tools h) in
    let skills = add_all tools (skill_capabilities inv.skills) in
    let clis = add_all skills (cli_capabilities inv.clis) in
    let models = add_all clis (model_capabilities inv.models) in
    let subagents = add_all models (subagent_capabilities inv.subagents) in
    add_plugins subagents inv.plugins

-- The catalog, and the number of errors that the source reports as one error when it is not 0.
unfoldable pub build_catalog : (Str → Str) → Inventory → HostId → Catalog × ℕ
build_catalog hash inv h =
    let b = build_items inv h in
    (record { revision = compute_revision hash b.items; items = b.items }, b.errors)
