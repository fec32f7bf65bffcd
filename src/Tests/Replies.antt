-- ===== src/Tests/Replies.antt =====
-- A request to the classifier that is answered, cached or fails.
use jev_routing.Prelude.{◌≡◌, refl, true, false, none, some, List, [], ◌∷◌, pos}
use jev_routing.Text.{Str, lit, str_eq}
use jev_routing.Json.{null}
use jev_routing.Compact.{Kind, text, tool_result, Item, Options}
use jev_routing.Compact.Kept.Prose.{Apart}
use jev_routing.Ask.{
  finite, AskQuestion, Noul, Response, Decoder, answers_valid, is_answered, parse_noul, answer_at,
  check_noul, is_there, finite01,
}
use jev_routing.Ask.Shrink.{Marshaller, fit_input_copy, joint_tokens, longest_question}
use jev_routing.Ask.Cache.{
  Client, World, alive, no_reply, reply, answered, cached_attempt, do_ask, is_live, take_cached,
  lookup_cached, cached_at, send_fitted, send_body, take_reply, take_decoded,
}
use jev_routing.Ask.Cache.Kept.{IsKept, do_ask-IsKept}
use jev_routing.Ask.Cache.Again.{do_ask-again}
use jev_routing.Ask.Compaction.{CompactWorld}
use jev_routing.Ask.Compaction.Whole.{ask_compact}
use jev_routing.Ask.Compaction.Failing.{SparesProse, ask_compact-SparesProse}
use jev_routing.Ask.Compaction.Down.{Unharmed, ask_compact-Unharmed}

abbrev half_noul : Noul
half_noul = record {
  type_name = lit "noul";
  noul = finite (pos 500000);
  conf = finite (pos 900000);
}

abbrev sent_back : Response
sent_back = record {
  model = lit "jev-latest";
  answers = record { id = lit "q1"; raw = lit "0.5" } ∷ [];
  latency_ms = pos 3;
  usage = none;
}

abbrev decoder : Decoder
decoder = record {
  noul = λ s. some half_noul;
  noul_field = λ s. some (some (finite (pos 500000)));
  choice = λ s. none;
  confidence_field = λ s. none;
  response = λ s. some sent_back;
}

abbrev marshaller : Marshaller
marshaller = record {
  tables = record {
    is_digit = λ c. false;
    is_letter = λ c. false;
    is_white = λ c. false;
    ceil_sum = λ ts. 1;
  };
  json = λ j. none;
  question = λ q. none;
}

abbrev world : World
world = record {
  decoder = decoder;
  marshal_payload = λ p. some p.purpose;
  digest = λ s. s;
  marshaller = marshaller;
  body = λ c j qs. some (lit "body");
  send = λ c b. reply 200 b;
}

abbrev client : Client
client = record {
  api_key = lit "key";
  base_url = lit "url";
  model = lit "jev-latest";
  decided = [];
  ask_cache = [];
}

abbrev questions : List AskQuestion
questions =
    record {
      id = lit "q1";
      type_name = lit "noul";
      instructions = lit "keep it";
      criteria = [];
      optional = false;
    }
    ∷ []

do_ask-IsKept_example : IsKept world client (do_ask world client (lit "ask") null questions true)
do_ask-IsKept_example = do_ask-IsKept world client (lit "ask") null questions true tt

given_valid : answers_valid decoder sent_back questions ≡ true
unfolding answers_valid is_answered str_eq lit parse_noul answer_at check_noul is_there finite01
given_valid = refl

given_first : (do_ask world client (lit "ask") null questions true).result ≡ answered sent_back
unfolding do_ask is_live lit take_cached lookup_cached cached_at send_fitted fit_input_copy
    joint_tokens longest_question send_body take_reply take_decoded
given_first = refl

do_ask-again_example :
    let after = (do_ask world client (lit "ask") null questions true).client in
    do_ask (record world { send = λ c b. no_reply alive }) after (lit "ask") null questions true
    ≡ record {
      result = answered sent_back;
      attempts = cached_attempt (lit "ask") questions ∷ [];
      client = after;
    }
do_ask-again_example =
    do_ask-again world client (lit "ask") null questions sent_back given_valid given_first
      (λ c b. no_reply alive)

abbrev entry : Kind → Str → Item
entry kind id = record {
  id = id;
  kind = kind;
  chars = 4;
  pair_id = [];
  tool = lit "Read";
  preview = [];
  pinned = false;
  body = lit "data";
}

abbrev items : List Item
items = entry text (lit "u1") ∷ entry tool_result (lit "r1") ∷ entry text (lit "u2") ∷ []

items-Apart : Apart items
unfolding str_eq lit
items-Apart = (λ h. cc, ((λ h. (λ k. refl, (λ k. cc, (λ k. refl, tt)))), ((λ h. cc), tt)))

abbrev options : Options
options = record {
  keep_threshold = 0;
  preserve_recent = pos 1;
  truncate_head_chars = 0;
  max_state_tokens = 0;
  max_request_tokens = 0;
}

abbrev compact_world : CompactWorld
compact_world = record {
  world = world;
  marshal_key = λ p. none;
  marshal_rows = λ rs. none;
  marshal_questions = λ qs. none;
}

ask_compact-SparesProse_example :
    SparesProse items (ask_compact compact_world client (lit "goal") options items)
ask_compact-SparesProse_example =
    ask_compact-SparesProse compact_world client (lit "goal") options items items-Apart

abbrev dead_world : CompactWorld
dead_world = record compact_world { world = record world { send = λ c b. no_reply alive } }

ask_compact-Unharmed_example :
    Unharmed items (ask_compact dead_world client (lit "goal") options items)
unfolding is_live lit
ask_compact-Unharmed_example =
    ask_compact-Unharmed dead_world client (lit "goal") options items (λ b. (alive, refl)) refl refl
