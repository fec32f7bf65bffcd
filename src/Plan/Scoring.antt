-- ===== src/Plan/Scoring.antt =====
-- words and scoreCatalog of internal/plan/plan.go. A score is counted in halves.
use jev_routing.Prelude.{
  ℕ, zero, suc, ◌+◌, ◌-◌, ◌*◌, Bool, not, ◌&&◌, ◌||◌, List, [], ◌∷◌, ◌++◌, ltb, leb, ◌==◌,
  if◌then◌else◌, length, take, drop, String,
}
use jev_routing.Text.{Str, lit, is_blank, lower, contains}
use jev_routing.Plan.{
  Action, Spec, has_any, host_meta, is_agent, is_grep, is_read, is_edit, is_exec,
}
use jev_routing.Plan.Request.{task_text, nested_agent, sequential_locate, explicit_shell_ask}
use jev_routing.Plan.Goals.{in_set, used_tools}

abbrev pub within : ℕ → ℕ → ℕ → Bool
within low high c = leb low c && leb c high

-- `[a-z0-9_]`
unfoldable pub is_word_byte : ℕ → Bool
is_word_byte b = within b'a' b'z' b || (within b'0' b'9' b || b == b'_')

-- `[ぁ-んァ-ン一-龯]`, as code points
unfoldable pub is_kana_or_kanji : ℕ → Bool
is_kana_or_kanji c = within 12353 12435 c || (within 12449 12531 c || within 19968 40879 c)

-- Which of the two classes the text starts with, 1 or 2, or neither, 0; the second class has
-- characters of three bytes only.
unfoldable pub class_at : Str → ℕ
class_at [] = 0
class_at (b ∷ []) = if is_word_byte b then 1 else 0
class_at (b ∷ c ∷ []) = if is_word_byte b then 1 else 0
class_at (b ∷ c ∷ d ∷ s) =
    if is_word_byte b
    then 1
    else if within 224 239 b
        && (within 128 191 c
            && (within 128 191 d
                && is_kana_or_kanji ((b - 224) * 4096 + (c - 128) * 64 + (d - 128))))
    then 2
    else 0

abbrev pub flush : Str → List Str → List Str
flush word rest = if is_blank word then rest else word ∷ rest

-- The longest runs of one class; `class` and `word` are those of the run read so far.
unfoldable pub tokens : ℕ → ℕ → Str → Str → List Str
tokens zero class word s = flush word []
tokens (suc fuel) class word [] = flush word []
tokens (suc fuel) class word (b ∷ s) =
    let k = class_at (b ∷ s) in
    let n = (if k == 2 then 3 else 1) in
    let piece = take n (b ∷ s) in
    let same = k == class && not (k == 0) in
    let next = (if k == 0 then [] else if same then word ++ piece else piece) in
    let later = tokens fuel k next (drop n (b ∷ s)) in if same then later else flush word later

-- Each round takes a byte at least.
unfoldable pub words : Str → List Str
words s = tokens (length s) 0 [] (lower s)

-- A score is `plus - minus`.
pub record Score : Type 0 where
  pub plus : ℕ
  pub minus : ℕ

unfoldable pub word_score : Str → List Str → ℕ
word_score search [] = 0
word_score search (w ∷ ws) =
    (if not (ltb (length w) 4) && contains search w then 2 else 0) + word_score search ws

abbrev pub gain : ℕ → Score → Score
gain n s = record s { plus = s.plus + n }

abbrev pub lose : ℕ → Score → Score
lose n s = record s { minus = s.minus + n }

abbrev pub reading_words : List String
reading_words =
    "find" ∷ "search" ∷ "grep" ∷ "where" ∷ "探" ∷ "検索" ∷ "read" ∷ "open" ∷ "show" ∷ "見て" ∷ "読" ∷ []

abbrev pub exploring_words : List String
exploring_words =
    "explore" ∷ "subagent" ∷ "sub-agent" ∷ "parallel" ∷ "look through" ∷ "codebase" ∷ "thoroughly"
    ∷ "delegate" ∷ "spawn" ∷ "調査" ∷ "探索" ∷ []

-- The switch on the kind of tool.
unfoldable pub kind_score : Str → Str → Score → Score
kind_score request name s =
    if is_agent name
    then (if nested_agent request
        then lose 16 s
        else if sequential_locate request
        then lose 3 s
        else if has_any request exploring_words
        then gain 10 s
        else lose 3 s)
    else if is_grep name
    then (if has_any request ("find" ∷ "search" ∷ "grep" ∷ "where" ∷ "探" ∷ "検索" ∷ [])
        then gain 6 s
        else s)
    else if is_read name
    then (if has_any request ("read" ∷ "open" ∷ "show" ∷ "見て" ∷ "読" ∷ []) then gain 4 s else s)
    else if is_edit name
    then (if has_any request ("fix" ∷ "edit" ∷ "patch" ∷ "replace" ∷ "直" ∷ []) then gain 4 s else s)
    else if is_exec name
    then (if explicit_shell_ask request
        then gain 10 s
        else if has_any request reading_words
        then lose 8 s
        else s)
    else s

unfoldable pub spec_score : Str → List Str → Spec → Score
spec_score request used spec =
    let name = spec.name in
    let search = lower (if is_agent name then name else name ++ (lit " " ++ spec.desc)) in
    let s =
      kind_score request name (record { plus = word_score search (words request); minus = 0 }) in
    if in_set used name && not (is_read name) then lose 6 s else s

-- `best` and `bestScore`; a best score is never below zero.
pub record Best : Type 0 where
  pub name : Str
  pub score : ℕ

unfoldable pub best_loop : Str → List Str → Best → List Spec → Best
best_loop request used best [] = best
best_loop request used best (spec ∷ specs) =
    let s = spec_score request used spec in
    let next =
      (if host_meta spec.name
        then best
        else if ltb (s.minus + best.score) s.plus
        then record { name = spec.name; score = s.plus - s.minus }
        else best) in
    best_loop request used next specs

unfoldable pub score_catalog : Str → List Action → List Spec → Best
score_catalog request actions specs =
    best_loop (lower (task_text request)) (used_tools actions) (record { name = []; score = 0 })
      specs
