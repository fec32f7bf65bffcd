-- ===== src/Tests/Steers.antt =====
-- Steering a request that declares one tool.
use jev_routing.Prelude.{◌≡◌, refl, [], ◌∷◌, ◌++◌, none, some, true, List, length, ◌<◌}
use jev_routing.Text.{str_eq, lit}
use jev_routing.Json.{Json, Members, string, array, object, nil, cons, end, member, get}
use jev_routing.Steer.{declared_tools, tools_from}
use jev_routing.Steer.Turns.{Turn, turn}
use jev_routing.Steer.Turns.Limits.{turn_size, build_state}
use jev_routing.Steer.Window.{Fits, build_state-window}
use jev_routing.Steer.Decide.{Services, choice_key, steer}
use jev_routing.Steer.Again.{LeftAlone, steer-steer}

abbrev run_tool : Members
run_tool =
    member (lit "type") (string (lit "function")) (member (lit "name") (string (lit "run")) end)

abbrev request : Members
request =
    member (lit "tools") (array (cons (object run_tool) nil))
      (member (lit "input") (string (lit "Run the tests")) end)

abbrev services : Services
services = record {
  marshal = λ v. lit "{}";
  visit = λ names. names;
  client = some (λ state criteria. some (record {
    picked = some (record { choice = lit "run"; confidence = 900000 });
    needs = some 800000;
  }));
}

changes : (steer services request).changed ≡ true
unfolding steer jev_routing.Steer.Decide.json_truthy get str_eq lit
    jev_routing.Steer.Decide.tool_choice_state tools_from jev_routing.Steer.add_tools declared_tools
    jev_routing.Json.elements jev_routing.Steer.additional_tools jev_routing.Json.objects
    jev_routing.Steer.input_items jev_routing.Json.text_at jev_routing.Steer.add_tool
    jev_routing.Steer.add_leaf jev_routing.Host.one_of jev_routing.Steer.add_named
    jev_routing.Json.set jev_routing.Steer.Decide.disagree jev_routing.Steer.Decide.find_tool
    jev_routing.Steer.Decide.force jev_routing.Steer.Decide.steer_answers
    jev_routing.Steer.Decide.steer_client jev_routing.Steer.Decide.steer_tools
    jev_routing.Steer.Decide.weigh jev_routing.Steer.Turns.item_type
    jev_routing.Steer.Turns.read_item jev_routing.Steer.Turns.read_items
    jev_routing.Steer.Turns.read_message jev_routing.Json.present jev_routing.Steer.Turns.turns_from
    jev_routing.Steer.has_name jev_routing.Steer.named_tool jev_routing.Steer.qualified_name
changes = refl

abbrev two_turns : List Turn
two_turns = turn (lit "user") (lit "a") ∷ turn (lit "assistant") (lit "b") ∷ []

abbrev failing : Services
failing = record services { client = some (λ state criteria. none) }

steer-steer_example :
    LeftAlone (steer services request).out (steer failing (steer services request).out)
steer-steer_example = steer-steer services failing request changes

build_state-window_example :
    let s = build_state (λ v. lit "{}") (lit "Be brief") two_turns in
    (front : List Turn) × (two_turns ≡ front ++ s.conversation)
    × (s.omitted ≡ length front)
    × (0 < length two_turns → 0 < length s.conversation)
    × Fits (turn_size (λ v. lit "{}")) (length (lit "Be brief")) s.conversation
build_state-window_example = build_state-window (λ v. lit "{}") (lit "Be brief") two_turns
