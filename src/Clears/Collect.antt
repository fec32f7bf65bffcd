-- ===== src/Clears/Collect.antt =====
-- What a response says was cleared, internal/proxy/context_edit.go: extractClearEdits and the
-- collector that reads it from a body or a stream of events.
use jev_routing.Prelude.{
  ◌+◌, refl, Bool, true, false, ◌||◌, ℤ, pos, ◌+ℤ◌, Option, none, some, List, [], ◌∷◌, ◌++◌, ltb,
  if◌then◌else◌, length, drop,
}
use jev_routing.Text.{Str, lit, is_blank, lower, contains, has_prefix, trim_space}
use jev_routing.Json.{Json, Members, object, get, as_array, as_object, list_of}
use jev_routing.Stream.{parse_limit, Collector, Scan, feed}
use jev_routing.Usage.{as_int, looks_sse}
use jev_routing.Clears.{context_key, is_clear_edit}

-- intAny on what a map gives.
abbrev pub int_any : Option ℤ → ℤ
int_any none = pos 0
int_any (some n) = n

pub record Report : Type 0 where
  pub tool_uses : ℤ
  pub input_tokens : ℤ

unfoldable pub add_report : List Json → Option Report → Option Report
add_report [] r = r
add_report (object m ∷ es) r =
    let uses = int_any (as_int (get (lit "cleared_tool_uses") m)) in
    let tokens = int_any (as_int (get (lit "cleared_input_tokens") m)) in
    let later = (λ (old : Report). add_report es (
      some (record {
        tool_uses = old.tool_uses +ℤ uses;
        input_tokens = old.input_tokens +ℤ tokens;
      }))) in
    if is_clear_edit (object m)
    then elim r [
      | none ↦ later (record { tool_uses = pos 0; input_tokens = pos 0 })
      | some old ↦ later old
    ]
    else add_report es r
add_report (e ∷ es) r = add_report es r

-- extractClearEdits; `none` is that nothing was found.
unfoldable pub extract_clear_edits : Members → Option Report
extract_clear_edits obj = elim (as_object (get context_key obj)) [
  | none ↦ none
  | some cm ↦ add_report (list_of (as_array (get (lit "applied_edits") cm))) none
]

-- clearEditCollector; `sseBuf` is the buffer of the scan.
pub record Clearing : Type 0 where
  pub is_sse : Bool
  pub json_buf : Str
  pub event_buf : Str
  pub json_done : Bool
  pub limit_hit : Bool
  pub found : Option Report

-- newClearEditCollector
unfoldable pub new_clearing : Str → Scan Clearing
new_clearing content_type = record {
  buf = [];
  state = record {
    is_sse = contains (lower content_type) (lit "text/event-stream");
    json_buf = [];
    event_buf = [];
    json_done = false;
    limit_hit = false;
    found = none;
  };
}

abbrev pub last_report : Option Report → Option Report → Option Report
last_report old none = old
last_report old (some r) = some r

module _ (unmarshal : Str → Option Members) where
  unfoldable pub unmarshal_report : Str → Option Report
  unmarshal_report s = elim (unmarshal s) [ none ↦ none | some obj ↦ extract_clear_edits obj ]

  -- flushEvent
  unfoldable pub flush_report : Clearing → Clearing
  flush_report s =
      if is_blank s.event_buf
      then s
      else record s { event_buf = []; found = last_report s.found (unmarshal_report s.event_buf) }

  unfoldable pub take_report_line : Str → Clearing → Clearing
  take_report_line line s =
      let d = trim_space (drop 5 line) in
      if is_blank line
      then flush_report s
      else if has_prefix line (lit "data:")
      then record s {
        event_buf = if is_blank s.event_buf then d else s.event_buf ++ (lit "\n" ++ d);
      }
      else s

  abbrev pub clearing : Collector Clearing
  clearing = record {
    on_line = take_report_line;
    overflow = λ (s : Clearing). record s { limit_hit = true };
    stopped = λ (s : Clearing). s.limit_hit;
    stops = λ s. refl;
  }

  unfoldable pub keep_json : Str → Clearing → Clearing
  keep_json p s =
      if s.json_done || s.limit_hit
      then s
      else if ltb parse_limit (length s.json_buf + length p)
      then record s { limit_hit = true }
      else record s { json_buf = s.json_buf ++ p }

  -- Write
  unfoldable pub write_clearing : Str → Scan Clearing → Scan Clearing
  write_clearing p x =
      if x.state.is_sse || looks_sse p
      then feed clearing p (record x { state = record x.state { is_sse = true } })
      else record x { state = keep_json p x.state }

  unfoldable pub finish_report_json : Clearing → Clearing
  finish_report_json s =
      if s.json_done || is_blank s.json_buf
      then s
      else record s { json_done = true; found = last_report s.found (unmarshal_report s.json_buf) }

  -- Finish
  unfoldable pub finish_clearing : Scan Clearing → Clearing
  finish_clearing x =
      if x.state.is_sse
      then flush_report (if is_blank x.buf then x else feed clearing (lit "\n\n") x).state
      else finish_report_json x.state
