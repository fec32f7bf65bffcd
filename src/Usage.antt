-- ===== src/Usage.antt =====
-- The token usage that a provider reports, internal/proxy/usage.go. `unmarshal` is
-- `json.Unmarshal` into a map. The counts of a Connect response, `connect`, are not modelled.
pub mod Splits
use jev_routing.Prelude.{
  ℕ, zero, suc, ◌+◌, ◌≡◌, refl, Bool, true, false, not, ◌&&◌, ◌||◌, ℤ, whole_part, Option, none,
  some, List, [], ◌∷◌, ◌++◌, ltb, if◌then◌else◌, length, drop, String,
}
use jev_routing.Text.{Str, lit, str_eq, is_blank, lower, contains, has_prefix, trim_space}
use jev_routing.Json.{
  Json, Elements, Members, null, boolean, number, string, array, object, get, as_object,
}
use jev_routing.Stream.{parse_limit, Collector, Scan, feed}

-- NormalizedUsage, whose source is always "upstream".
pub record NormalizedUsage : Type 0 where
  pub input_tokens : Option ℤ
  pub output_tokens : Option ℤ
  pub cached_tokens : Option ℤ
  pub cache_write_tokens : Option ℤ
  pub reasoning_tokens : Option ℤ

abbrev pub as_int : Option Json → Option ℤ
as_int (some (number m e)) = some (whole_part m e)
as_int _ = none

-- intField, on a number that a float64 holds exactly
unfoldable pub int_field : Members → List String → Option ℤ
int_field m [] = none
int_field m (k ∷ ks) = elim (as_int (get (lit k) m)) [ some n ↦ some n | none ↦ int_field m ks ]

-- The `usage` of the first nested object that has one.
unfoldable pub nested_usage : Members → List String → Option Json
nested_usage obj [] = none
nested_usage obj (k ∷ ks) = elim (as_object (get (lit k) obj)) [
  | none ↦ nested_usage obj ks
  | some nested ↦ elim (get (lit "usage") nested) [
    | some raw ↦ some raw
    | none ↦ nested_usage obj ks
  ]
]

unfoldable pub raw_usage : Members → Option Json
raw_usage obj = elim (get (lit "usage") obj) [
  | some raw ↦ some raw
  | none ↦ nested_usage obj ("message" ∷ "delta" ∷ "response" ∷ [])
]

-- The field of the details, where they have it.
unfoldable pub detailed : Members → String → String → Option ℤ → Option ℤ
detailed m details key old = elim (as_object (get (lit details) m)) [
  | none ↦ old
  | some d ↦ elim (int_field d (key ∷ [])) [ none ↦ old | some v ↦ some v ]
]

unfoldable pub usage_of : Members → NormalizedUsage
usage_of m = record {
  input_tokens = int_field m ("prompt_tokens" ∷ "input_tokens" ∷ "inputTokens" ∷ []);
  output_tokens = int_field m ("completion_tokens" ∷ "output_tokens" ∷ "outputTokens" ∷ []);
  cached_tokens = detailed m "input_tokens_details" "cached_tokens" (
      detailed m "prompt_tokens_details" "cached_tokens"
        (int_field m ("cached_tokens" ∷ "cache_read_input_tokens" ∷ "cacheReadTokens" ∷ [])));
  cache_write_tokens =
      int_field m
        ("cache_creation_input_tokens" ∷ "cache_write_input_tokens" ∷ "cacheWriteTokens" ∷ []);
  reasoning_tokens = detailed m "output_tokens_details" "reasoning_tokens" (
      detailed m "completion_tokens_details" "reasoning_tokens"
        (int_field m ("reasoning_tokens" ∷ "reasoningTokens" ∷ [])));
}

abbrev pub is_some : Option ℤ → Bool
is_some none = false
is_some (some n) = true

unfoldable pub has_counts : NormalizedUsage → Bool
has_counts u =
    is_some u.input_tokens
    || (is_some u.output_tokens
        || (is_some u.cached_tokens
            || (is_some u.reasoning_tokens || is_some u.cache_write_tokens)))

-- extractUsage
unfoldable pub extract_usage : Members → Option NormalizedUsage
extract_usage obj = elim (as_object (raw_usage obj)) [
  | none ↦ none
  | some m ↦ if has_counts (usage_of m) then some (usage_of m) else none
]

-- usageCollector without `connect`; `sseBuf` is the buffer of the scan.
pub record Collected : Type 0 where
  pub usage : Option NormalizedUsage
  pub partial : Bool
  pub missing : Str
  pub json_buf : Str
  pub event_buf : Str
  pub is_sse : Bool
  pub sse_hint : Bool
  pub json_done : Bool
  pub limit_hit : Bool

abbrev pub limited : String → Collected → Collected
limited why s = record s { limit_hit = true; partial = true; missing = lit why }

-- newUsageCollector
unfoldable pub new_collector : Str → Scan Collected
new_collector content_type =
    let stream = contains (lower content_type) (lit "text/event-stream") in
    record {
      buf = [];
      state = record {
        usage = none;
        partial = false;
        missing = [];
        json_buf = [];
        event_buf = [];
        is_sse = stream;
        sse_hint = stream;
        json_done = false;
        limit_hit = false;
      };
    }

-- looksSSE
unfoldable pub looks_sse : Str → Bool
looks_sse p = contains p (lit "data:") || has_prefix p (lit "event:")

module _ (unmarshal : Str → Option Members) where
  abbrev pub last_usage : Option NormalizedUsage → Option NormalizedUsage → Option NormalizedUsage
  last_usage old none = old
  last_usage old (some u) = some u

  -- `extractUsage` of what is unmarshalled.
  unfoldable pub unmarshal_usage : Str → Option NormalizedUsage
  unmarshal_usage s = elim (unmarshal s) [ none ↦ none | some obj ↦ extract_usage obj ]

  -- flushSSEEvent
  unfoldable pub flush_event : Collected → Collected
  flush_event s =
      if is_blank s.event_buf
      then s
      else if str_eq s.event_buf (lit "[DONE]")
      then record s { event_buf = [] }
      else record s { event_buf = []; usage = last_usage s.usage (unmarshal_usage s.event_buf) }

  unfoldable pub add_data : Str → Collected → Collected
  add_data d s =
      if ltb parse_limit (length s.event_buf + length d + 1)
      then record (limited "sse_event_limit" s) { event_buf = [] }
      else record s {
        event_buf = if is_blank s.event_buf then d else s.event_buf ++ (lit "\n" ++ d);
      }

  unfoldable pub take_line : Str → Collected → Collected
  take_line line s =
      if is_blank line
      then flush_event s
      else if has_prefix line (lit "data:")
      then add_data (trim_space (drop 5 line)) s
      else s

  abbrev pub collector : Collector Collected
  collector = record {
    on_line = take_line;
    overflow = limited "sse_limit";
    stopped = λ (s : Collected). s.limit_hit;
    stops = λ s. refl;
  }

  -- feedJSON
  unfoldable pub feed_json : Str → Collected → Collected
  feed_json p s =
      if s.limit_hit
      then s
      else if ltb parse_limit (length s.json_buf + length p)
      then limited "json_limit" s
      else record s { json_buf = s.json_buf ++ p }

  -- Write
  unfoldable pub write : Str → Scan Collected → Scan Collected
  write p x =
      if x.state.is_sse || (x.state.sse_hint || looks_sse p)
      then feed collector p (record x { state = record x.state { is_sse = true } })
      else if x.state.json_done
      then x
      else record x { state = feed_json p x.state }

  unfoldable pub finish_json : Collected → Collected
  finish_json s = if s.json_done || is_blank s.json_buf then s else elim (unmarshal s.json_buf) [
    | none ↦ record s { json_done = true; missing = lit "invalid_json" }
    | some obj ↦ record s {
      json_done = true;
      usage = extract_usage obj;
      missing = elim (extract_usage obj) [ none ↦ lit "no_usage" | some u ↦ s.missing ];
    }
  ]

  unfoldable pub finish_stream : Scan Collected → Collected
  finish_stream x = flush_event (if is_blank x.buf then x else feed collector (lit "\n\n") x).state

  abbrev pub is_missing : Option NormalizedUsage → Bool
  is_missing none = true
  is_missing (some u) = false

  -- Finish; its results are in the state.
  unfoldable pub finish : Scan Collected → Collected
  finish x =
      let s = (if x.state.is_sse then finish_stream x else finish_json x.state) in
      if is_missing s.usage && is_blank s.missing then record s { missing = lit "no_usage" } else s
