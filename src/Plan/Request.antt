-- ===== src/Plan/Request.antt =====
-- The text of a request, internal/plan/plan.go: WorkRequest, taskText, the tests on the text, and
-- Extract. The regular expressions are written out as searches.
use jev_routing.Prelude.{
  ℕ, zero, suc, ◌+◌, Bool, true, false, not, ◌&&◌, ◌||◌, Option, none, some, List, [], ◌∷◌, ◌++◌,
  ltb, if◌then◌else◌, length, take, drop, String,
}
use jev_routing.Text.{Str, lit, is_blank, lower, contains, has_prefix, trim_space}
use jev_routing.Plan.{has_any}

-- `strings.Index` and `strings.LastIndex`, with `none` for -1.
unfoldable pub index_of : Str → Str → Option ℕ
index_of [] sub = if is_blank sub then some 0 else none
index_of (b ∷ s) sub =
    let later = index_of s sub in
    if has_prefix (b ∷ s) sub then some 0 else elim later [ none ↦ none | some i ↦ some (suc i) ]

unfoldable pub last_index_of : Str → Str → Option ℕ
last_index_of [] sub = if is_blank sub then some 0 else none
last_index_of (b ∷ s) sub = elim (last_index_of s sub) [
  | some i ↦ some (suc i)
  | none ↦ if has_prefix (b ∷ s) sub then some 0 else none
]

abbrev pub reminder_open : Str
reminder_open = lit "<system-reminder>"

abbrev pub reminder_close : Str
reminder_close = lit "</system-reminder>"

-- `systemReminder.ReplaceAllString(s, "")`: from each opening tag to the first closing tag behind
-- it. An opening tag that is never closed stays, with all that follows.
unfoldable pub strip_reminders : ℕ → Str → Str
strip_reminders zero s = s
strip_reminders (suc fuel) s = elim (index_of s reminder_open) [
  | none ↦ s
  | some i ↦
      let body = drop (i + length reminder_open) s in
      elim (index_of body reminder_close) [
        | none ↦ s
        | some j ↦ take i s ++ strip_reminders fuel (drop (j + length reminder_close) body)
      ]
]

-- Each match is longer than a byte, so the length of the text is fuel enough.
unfoldable pub work_request : Str → Str
work_request text =
    let s = strip_reminders (length text) text in
    elim (last_index_of s (lit "<user_query>")) [
      | none ↦ s
      | some i ↦
          let q = drop (i + length (lit "<user_query>")) s in
          trim_space (elim (index_of q (lit "</user_query>")) [ none ↦ q | some j ↦ take j q ])
    ]

unfoldable pub explicit_shell_ask : Str → Bool
explicit_shell_ask text =
    has_any (lower text) ("echo " ∷ "shell command" ∷ "exec tool" ∷ "run this exact" ∷ [])

unfoldable pub sequential_locate : Str → Bool
sequential_locate text =
    let t = lower text in
    let has = λ (p : String). contains t (lit p) in
    if explicit_shell_ask t
    then false
    else if has "検索" && has "読"
    then true
    else if has "定義を調べ" || has "定義を検索"
    then true
    else if has "並列化せず" || (has "順に" || has "個別のツール")
    then true
    else if has "do not parallel" || has "don't parallel"
    then true
    else has "sequential" && (has "search" && has "read")

unfoldable pub nested_agent : Str → Bool
nested_agent t =
    has_any t ("you are a subagent" ∷ "you are an agent" ∷ "you are a claude code" ∷ [])

-- `best`, with `none` for -1, after one candidate for it.
abbrev pub earlier : Option ℕ → Option ℕ → Option ℕ
earlier none best = best
earlier (some i) none = some i
earlier (some i) (some best) = some (if ltb i best then i else best)

unfoldable pub first_marker : Str → List String → Option ℕ → Option ℕ
first_marker low [] best = best
first_marker low (m ∷ ms) best = first_marker low ms (earlier (index_of low (lower (lit m))) best)

-- sequentialAskStart; `none` is -1.
unfoldable pub sequential_ask_start : Str → Option ℕ
sequential_ask_start s =
    let low = lower s in
    let marked =
      first_marker low
        ("定義を調べ" ∷ "定義を検索" ∷ "ファイルを変更せず" ∷ "並列化せず" ∷ "個別のツール" ∷ "do not parallel" ∷ "don't parallel"
          ∷ [])
        none in
    let searched =
      (if contains s (lit "読") then earlier (index_of s (lit "検索")) marked else marked) in
    let best =
      (if contains low (lit "sequential")
          && (contains low (lit "search") && contains low (lit "read"))
        then earlier (index_of low (lit "sequential")) searched
        else searched) in
    elim best [ none ↦ none | some i ↦ if ltb 0 i then some i else none ]

unfoldable pub task_text : Str → Str
task_text text =
    let s = work_request text in
    elim (sequential_ask_start s) [ none ↦ s | some i ↦ trim_space (drop i s) ]

unfoldable pub prefer_task_text : Str → Str → Str
prefer_task_text prev text =
    let next = trim_space text in
    if is_blank next
    then prev
    else if explicit_shell_ask next
    then next
    else if sequential_locate prev && not (sequential_locate next)
    then prev
    else next

pub record Signals : Type 0 where
  pub failing_test : Bool
  pub typo : Bool
  pub health : Bool
  pub pr_review : Bool
  pub e2e : Bool
  pub sentry : Bool
  pub run_tests : Bool
  pub explore : Bool

unfoldable pub extract : Str → Signals
extract text =
    let t = lower text in
    record {
      failing_test = has_any t ("failing test" ∷ "test is failing" ∷ "落ちている" ∷ []);
      typo = has_any t ("typo" ∷ "recieve" ∷ "誤字" ∷ []);
      health = has_any t ("/api/health" ∷ "health route" ∷ "health ルート" ∷ []);
      pr_review = has_any t ("pr 842" ∷ "pull request" ∷ "review github" ∷ "pr をレビュー" ∷ []);
      e2e = has_any t ("playwright" ∷ "flaky" ∷ "e2e" ∷ []);
      sentry = has_any t ("sentry" ∷ "auth-219" ∷ "production error" ∷ []);
      run_tests = has_any t ("re-run" ∷ "run the tests" ∷ "run typecheck" ∷ "再実行" ∷ []);
      explore =
          not (nested_agent t)
          && (not (sequential_locate t)
              && has_any t (
                  "explore" ∷ "subagent" ∷ "sub-agent" ∷ "parallel" ∷ "look through" ∷ "thoroughly"
                  ∷ "調査" ∷ "探索" ∷ []));
    }
