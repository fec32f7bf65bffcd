-- ===== src/Tests/Plans.antt =====
-- Tool choice, catalogs, routes and subagents on concrete inputs.
use jev_routing.Plan.Batch.{BatchItem, BatchAsker, route_batch}
use jev_routing.Plan.Batch.Items.{ServeAll, route_batch-ServeAll}
use jev_routing.Prelude.{◌≡◌, refl, true, false, none, some, List, [], ◌∷◌, String}
use jev_routing.Text.{lit, str_eq, trim_space, trim_left, trim_right, lower, lower_byte}
use jev_routing.Host.{claude, codex, one_of, parse_host}
use jev_routing.Plan.{Action}
use jev_routing.Plan.Catalog.{
  Capability, Catalog, no_target, is_bound, installed, kind_subagent, has_id,
}
use jev_routing.Plan.Build.{Inventory, build_catalog}
use jev_routing.Plan.Unique.{IsCatalog, build_catalog-IsCatalog}
use jev_routing.Plan.Route.{RouteRequest, Runtime, route}
use jev_routing.Plan.Selected.{Selects, route-Selects}
use jev_routing.Plan.Subagent.{SubagentRequest, HistoryItem}

parse-openai : parse_host (lit " OpenAI") ≡ some codex
unfolding parse_host one_of str_eq lit trim_space trim_left trim_right lower lower_byte
parse-openai = refl

abbrev used : List Action
used = record { tool = lit "Grep"; result = []; input = []; pending = false } ∷ []

abbrev reviewer : Capability
reviewer = record {
  id = lit "subagent:host:reviewer@1";
  kind = kind_subagent;
  name = lit "reviewer";
  description = lit "reviews a change";
  validation_spec = [];
  provider = lit "host";
  hosts = [];
  input_schema = [];
  availability = installed;
  permission = lit "unknown";
  version = lit "1";
  target = record no_target { subagent_launcher = lit "task" };
  is_explicit = false;
}

abbrev sample : Catalog
sample = record { revision = lit "r1"; items = reviewer ∷ [] }

sample-IsCatalog : IsCatalog sample.items
unfolding IsCatalog is_bound has_id str_eq lit
sample-IsCatalog = (refl, (refl, tt))

abbrev inventory : Inventory
inventory = record {
  tools = record { name = lit "Bash"; desc = lit "runs a command" } ∷ [];
  skills = [];
  clis = [];
  plugins = [];
  models = [];
  subagents = [];
}

build_catalog-IsCatalog_example : IsCatalog (build_catalog (λ s. s) inventory claude).0.items
build_catalog-IsCatalog_example = build_catalog-IsCatalog (λ s. s) inventory claude

abbrev runtime : Runtime
runtime = record { hash8 = λ s. s; hash12 = λ s. s; visit = λ s. s }

abbrev request : RouteRequest
request = record {
  request_id = lit "q1";
  text = lit "review this";
  host = claude;
  catalog = sample;
  expected_revision = [];
  wanted = lit "subagent:host:reviewer@1" ∷ [];
  actions = [];
  new_request = true;
}

route-Selects_example : Selects request.catalog.items (route runtime request none)
route-Selects_example = route-Selects runtime request none

abbrev delegation : SubagentRequest
delegation = record {
  text = lit "review this";
  brief = lit "look";
  catalog = sample;
  explicit_roles = [];
  running_roles = [];
  forbid_delegate = false;
  adopt_confidence = 0;
}

abbrev message : String → String → HistoryItem
message id assignment = record {
  message_id = lit id;
  assignment_id = lit assignment;
  kind = lit "final";
  body = [];
}

same_assignment : str_eq (lit "a1") (lit "a1") ≡ true
unfolding str_eq lit
same_assignment = refl

other_assignment : str_eq (lit "a2") (lit "a1") ≡ false
unfolding str_eq lit
other_assignment = refl

abbrev batch : List BatchItem
batch =
    record { id = lit "a"; request = request }
    ∷ record { id = lit "b"; request = record request { wanted = [] } }
    ∷ []

abbrev batch_asker : BatchAsker
batch_asker questions = record {
  answers =
      record { id = lit "b"; choice = lit "subagent:host:reviewer@1"; confidence = 900000 } ∷ [];
  usage_in = none;
  usage_out = none;
  cached = false;
  failed = false;
  out_of_time = false;
}

route_batch-ServeAll_example :
    ServeAll batch (route_batch runtime (λ i. false) batch (some batch_asker))
route_batch-ServeAll_example = route_batch-ServeAll runtime (λ i. false) batch (some batch_asker)
