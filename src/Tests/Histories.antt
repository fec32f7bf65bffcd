-- ===== src/Tests/Histories.antt =====
-- Compaction of a small history.
use jev_routing.Prelude.{
  String, ◌+◌, ◌≤◌, ◌≡◌, ◌≢◌, ◌↔◌, refl, List, [], ◌∷◌, some, true, false, ok, length, pos, negsuc,
}
use jev_routing.Text.{lit, str_eq}
use jev_routing.Compact.{
  Candidate, Decision, keep, Kind, text, tool_call, tool_result, Action, truncate, discard, Item,
  Options, resolve_recent, resolve, Answers, decision, named, decide_call,
}
use jev_routing.Compact.Apply.{truncate_body, apply, Result, compact, reduction}
use jev_routing.Compact.Truncation.{truncate_body_settles}
use jev_routing.Compact.Totals.{Tally, reduction_totals}
use jev_routing.Compact.Pairs.{result_first, pair_actions, BothLow}
use jev_routing.Compact.Kept.Prose.{prose-compact, prose, Apart}

abbrev entry : String → Kind → String → Item
entry id kind pair_id = record {
  id = lit id;
  kind = kind;
  chars = 4;
  pair_id = lit pair_id;
  tool = lit "Read";
  preview = [];
  pinned = false;
  body = lit "body";
}

abbrev history : List Item
history =
    entry "u1" text ""
    ∷ entry "c1" tool_call "p"
    ∷ entry "r1" tool_result "p"
    ∷ entry "u2" text ""
    ∷ []

-- every score is zero
abbrev all_low : Answers
all_low = λ id. some 0

abbrev options : Options
options = record {
  keep_threshold = 0;
  preserve_recent = pos 1;
  truncate_head_chars = 0;
  max_state_tokens = 0;
  max_request_tokens = 0;
}

-- The result is truncated, and the last decision about the call drops it.
abbrev verdicts : List Decision
verdicts =
    decision (named (entry "c1" tool_call "p")) keep
    ∷ decision (named (entry "c1" tool_call "p")) discard
    ∷ decision (named (entry "r1" tool_result "p")) truncate
    ∷ []

reduction_totals_example :
    let s = reduction history verdicts 3 in
    Tally verdicts 3 history s.kept s.truncated s.dropped s.chars_before s.chars_after
    × (s.chars_dropped + s.chars_after ≡ s.chars_before)
    × (s.kept + s.truncated ≡ length (apply history verdicts 3))
reduction_totals_example = reduction_totals history verdicts 3

abbrev reversed_pair : Candidate
reversed_pair = record {
  items = entry "r1" tool_result "p" ∷ entry "c1" tool_call "p" ∷ [];
  pinned = false;
}

pair_actions_example :
    let low = BothLow 500000 (some 0) (some 0) in
    let call = entry "c1" tool_call "p" in
    let result = entry "r1" tool_result "p" in
    (c r : Action) × (decide_call reversed_pair all_low 500000
      ≡ ok (decision (named call) c ∷ decision (named result) r ∷ []))
    × ((c ≡ discard) ↔ low)
    × ((r ≡ discard) ↔ low)
    × (c ≢ truncate)
pair_actions_example =
    pair_actions (entry "c1" tool_call "p") (entry "r1" tool_result "p") reversed_pair all_low
      500000 refl refl result_first refl

history-Apart : Apart history
unfolding str_eq lit
history-Apart = (
  λ h. cc,
  (
    λ h. (λ k. refl, (λ k. cc, (λ k. refl, (λ k. refl, tt)))),
    (λ h. (λ k. refl, (λ k. refl, (λ k. cc, (λ k. refl, tt)))), (λ h. cc, tt)),
  ),
)

prose-compact_example :
    (r : Result) × (compact history all_low options ≡ ok r) × (prose r.items ≡ prose history)
prose-compact_example = prose-compact history all_low options history-Apart

-- CompactLocal resolves the options twice, so that a negative number of recent items becomes the
-- default in the second round.
resolved_twice :
    resolve_recent (resolve (record options { preserve_recent = negsuc 0 })).preserve_recent ≡ 6
unfolding resolve
resolved_twice = refl

resolved_once : resolve_recent (negsuc 0) ≡ 0
resolved_once = refl

truncate_body_settles_example :
    let once = truncate_body (lit "a long result") true 3 in
    (length once ≤ length (lit "a long result")) × (truncate_body once false 3 ≡ once)
truncate_body_settles_example = truncate_body_settles (lit "a long result") true false 3
