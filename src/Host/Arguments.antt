-- ===== src/Host/Arguments.antt =====
-- ChildArgs and CommandArgs of internal/host/host.go. `quote` is `strconv.Quote`.
pub mod Dashes
use jev_routing.Prelude.{
  ℕ, Bool, true, false, not, ◌&&◌, ◌||◌, List, [], ◌∷◌, ◌++◌, ltb, if◌then◌else◌, length, drop,
}
use jev_routing.Text.{Str, lit, str_eq, has_prefix}
use jev_routing.Host.{HostId, claude, codex, grok, devin, other}

abbrev pub config : Str
config = lit "--config"

abbrev pub dashes : Str
dashes = lit "--"

unfoldable pub codex_args : (Str → Str) → Str → List Str
codex_args quote listen =
    config
    ∷ lit "model_provider=\"jev\""
    ∷ config
    ∷ lit "model_providers.jev.name=\"jev-routing\""
    ∷ config
    ∷ (lit "model_providers.jev.base_url=" ++ quote (lit "http://" ++ (listen ++ lit "/v1")))
    ∷ config
    ∷ lit "model_providers.jev.wire_api=\"responses\""
    ∷ config
    ∷ lit "model_providers.jev.requires_openai_auth=true"
    ∷ []

unfoldable pub child_args : (Str → Str) → HostId → Str → List Str
child_args quote codex listen = codex_args quote listen
child_args quote _ listen = []

-- `strings.TrimPrefix`
unfoldable pub trim_prefix : Str → Str → Str
trim_prefix s pre = if has_prefix s pre then drop (length pre) s else s

-- `arg == "-c" || arg == "--config"`
unfoldable pub is_config : Str → Bool
is_config arg = str_eq arg (lit "-c") || str_eq arg config

-- The slices `configs` and `rest` of CommandArgs.
pub record Sorted : Type 0 where
  pub configs : List Str
  pub rest : List Str

abbrev pub add_config : Str → Sorted → Sorted
add_config c s = record s { configs = config ∷ c ∷ s.configs }

abbrev pub add_rest : Str → Sorted → Sorted
add_rest arg s = record s { rest = arg ∷ s.rest }

-- The cases of the switch that take one argument.
unfoldable pub sort_one : Str → Sorted → Sorted
sort_one arg s =
    if has_prefix arg (lit "--config=")
    then add_config (trim_prefix arg (lit "--config=")) s
    else if has_prefix arg (lit "-c") && ltb 2 (length arg)
    then add_config (trim_prefix (trim_prefix arg (lit "-c")) (lit "=")) s
    else add_rest arg s

-- The loop of CommandArgs. The rest of the arguments comes in the order of the source: what one
-- round appends stands in front of what the later rounds append.
unfoldable pub sort_args : List Str → Sorted
sort_args [] = record { configs = []; rest = [] }
sort_args (arg ∷ []) =
    if str_eq arg dashes
    then record { configs = []; rest = arg ∷ [] }
    else sort_one arg (record { configs = []; rest = [] })
sort_args (arg ∷ next ∷ args) =
    let behind = sort_args args in
    let later = sort_args (next ∷ args) in
    if str_eq arg dashes
    then record { configs = []; rest = arg ∷ next ∷ args }
    else if is_config arg && not (str_eq next dashes)
    then add_config next behind
    else sort_one arg later

unfoldable pub command_args : (Str → Str) → HostId → Str → List Str → List Str
command_args quote codex listen args =
    let s = sort_args args in s.configs ++ (child_args quote codex listen ++ s.rest)
command_args quote h listen args = child_args quote h listen ++ args
