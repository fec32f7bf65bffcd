-- ===== src/Plan/Subagent/Delegated.antt =====
-- What RouteSubagent may select.
use jev_routing.Prelude.{◌≡◌, ◌⊎◌, true}
use jev_routing.Text.{lit, str_eq}
use jev_routing.Plan.Catalog.{Capability, kind_subagent}
use jev_routing.Plan.Route.{route_selected}
use jev_routing.Plan.Selected.{Member}
use jev_routing.Plan.Subagent.{SubagentRequest, SubagentResult, is_candidate}

-- The result names a subagent of the catalog with its launcher; unless the classifier chose it, it
-- is installed, has a launcher, and no agent of its name is running.
abbrev pub Delegates : SubagentRequest → SubagentResult → Type 0
Delegates r s =
    (c : Capability) × Member c r.catalog.items
    × (str_eq c.kind kind_subagent ≡ true)
    × (s.capability_id ≡ c.id)
    × (s.launcher ≡ c.target.subagent_launcher)
    × ((is_candidate r.running_roles c ≡ true) ⊎ (s.reason_code ≡ lit "jev"))

unfoldable pub Sound : SubagentRequest → SubagentResult → Type 0
Sound r s = s.outcome ≡ route_selected → Delegates r s
