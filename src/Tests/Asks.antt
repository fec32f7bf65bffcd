-- ===== src/Tests/Asks.antt =====
-- The requests to the classifier, and the state that they are sent with.
use jev_routing.Prelude.{
  ◌*◌, ◌<◌, ◌≡◌, refl, ◌⊎◌, false, none, some, List, [], ◌∷◌, ◌++◌, length, concat, All, pos, ltb,
}
use jev_routing.Text.{Str, lit, str_eq}
use jev_routing.Text.Runes.{runes}
use jev_routing.Json.{Json, string, object, member, end}
use jev_routing.Compact.{
  Kind, text, tool_call, tool_result, Item, Options, Candidate, resolve, resolve_recent,
}
use jev_routing.Compact.Local.{Question}
use jev_routing.Compact.Tokens.{Tables, estimate_tokens, terms, adds, opens}
use jev_routing.Compact.Batches.{
  batch_candidates, batch_candidates-fit, FitsRequest, question_tokens,
}
use jev_routing.Compact.Fitted.{ShownRow, render_rows}
use jev_routing.Compact.Fitted.Stages.{fit_state, rows_tokens, full}
use jev_routing.Compact.Fitted.Bounded.{IsFitted, fit_state-IsFitted}
use jev_routing.Ask.Shrink.{
  Marshaller, joint_tokens, input_budget, fit_input_copy, within_budget, shrink_string, cut_runes,
  shrink_strings, fill, shrinkable_field, one_name, protected_key, longest_question, shrink_any,
  shrink_loop, longest_fit, search,
}
use jev_routing.Ask.Shrink.Kept.{Trims, fit_input_copy-Trims}

-- Each character counts as a token of its own.
abbrev tables : Tables
tables = record {
  is_digit = λ c. false;
  is_letter = λ c. false;
  is_white = λ c. false;
  ceil_sum = length;
}

abbrev item : Kind → Str → Str → Item
item kind id body = record {
  id = id;
  kind = kind;
  chars = length body;
  pair_id = [];
  tool = lit "Read";
  preview = [];
  pinned = false;
  body = body;
}

abbrev items : List Item
items =
    item text (lit "u1") (lit "hello")
    ∷ item tool_call (lit "c1") (lit "file")
    ∷ item tool_result (lit "r1") (lit "data")
    ∷ item text (lit "u2") (lit "go on")
    ∷ []

abbrev options : Options
options = record {
  keep_threshold = 0;
  preserve_recent = pos 1;
  truncate_head_chars = 0;
  max_state_tokens = 3;
  max_request_tokens = 30;
}

-- the rows by their IDs
abbrev ids : List ShownRow → Str
ids [] = []
ids (r ∷ rs) = r.id ++ ids rs

abbrev key_list : List Question → Str
key_list [] = []
key_list (q ∷ qs) = q.key ++ key_list qs

fit_state-IsFitted_example :
    let f = fit_state tables (λ rs. some (ids rs)) items options in
    let tokens = rows_tokens tables (λ rs. some (ids rs)) in
    IsFitted tokens
      (resolve options).max_state_tokens
      items
      (resolve_recent options.preserve_recent)
      f
    × ((f.stage ≡ full)
        ⊎ ((resolve options).max_state_tokens < tokens (render_rows items 1000 false false)))
fit_state-IsFitted_example = fit_state-IsFitted tables (λ rs. some (ids rs)) items options

abbrev one : Str → Candidate
one id = record { items = item tool_result id (lit "data") ∷ []; pinned = false }

abbrev candidates : List Candidate
candidates = one (lit "a") ∷ one (lit "b") ∷ one (lit "c") ∷ []

batch_candidates-fit_example :
    let batches = batch_candidates tables (λ qs. some (key_list qs)) candidates 1 options in
    (concat batches ≡ candidates)
    × All
        (FitsRequest
          (question_tokens tables (λ qs. some (key_list qs)))
          (resolve options).max_request_tokens
          1)
        batches
batch_candidates-fit_example =
    batch_candidates-fit tables (λ qs. some (key_list qs)) candidates 1 options

-- Each character counts ten thousand tokens, and an object is printed as the strings that may be cut.
abbrev marshaller : Marshaller
marshaller = record {
  tables = record tables { ceil_sum = λ ts. 10000 * length ts };
  json = λ j. some (concat (shrink_strings j));
  question = λ q. none;
}

abbrev long_state : Json
long_state = object (
    member (lit "goal") (string (lit "a goal that is kept"))
      (member (lit "result") (string (lit "abcdef")) end))

fit_input_copy-Trims_example :
    let f = fit_input_copy marshaller [] long_state in
    Trims long_state f.state
    × (f.over ≡ ltb input_budget (joint_tokens marshaller [] f.state))
    × ((f.state ≡ long_state) ⊎ (input_budget < joint_tokens marshaller [] long_state))
fit_input_copy-Trims_example = fit_input_copy-Trims marshaller [] long_state

-- The string is cut to the three characters that keep the budget.
cut_to_budget : shrink_strings (fit_input_copy marshaller [] long_state).state ≡ lit "abc" ∷ []
unfolding within_budget joint_tokens estimate_tokens shrink_strings fill shrinkable_field one_name
    str_eq lit protected_key cut_runes longest_question runes terms adds opens fit_input_copy
    shrink_any shrink_loop longest_fit search shrink_string
cut_to_budget = refl
