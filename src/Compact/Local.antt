-- ===== src/Compact/Local.antt =====
-- Compaction without the classifier, internal/compact/compact.go: QuestionsFor, LocalAnswers,
-- CompactLocal and ReductionRatio. The fields of Stats that CompactLocal sets for the report of a
-- request are left out, with EstimateTokens, which only fills one of them.
use jev_routing.Prelude.{
  ℕ, ◌+◌, ◌*◌, ◌≡◌, Bool, not, ◌&&◌, ◌||◌, none, some, List, [], ◌∷◌, ◌++◌, any, drop, ltb,
  if◌then◌else◌, Go, ok, quotient,
}
use jev_routing.Text.{Str, lit, str_eq, is_blank, lower, contains, decimal}
use jev_routing.Compact.{
  Kind, tool_call, summary, Item, Options, resolve, resolve_recent, Candidate, Answers, is_call,
  is_result,
}
use jev_routing.Compact.Candidates.{collect_candidates}
use jev_routing.Compact.Apply.{Result, compact}
use jev_routing.Compact.Kept.Prose.{compact_total}

-- One entry of the map that QuestionsFor returns.
pub record Question : Type 0 where
  pub key : Str
  pub instructions : Str

unfoldable pub call_question : Item → Question
call_question i = record {
  key = lit "call_" ++ i.id;
  instructions =
      lit "Tool call "
      ++ (i.id
          ++ (lit " ("
              ++ (i.tool
                  ++ lit
                      ") should stay in the history: knowing this call was made, with its input, still matters for what the assistant does next")));
}

unfoldable pub result_question : Item → Question
result_question i = record {
  key = lit "result_" ++ i.id;
  instructions =
      lit "The full output of tool call "
      ++ (i.id
          ++ (lit " ("
              ++ (i.tool
                  ++ (lit ", "
                      ++ (decimal i.chars
                          ++ lit
                              " chars) should stay in the history verbatim: the assistant still needs its contents and re-running the tool would not do")))));
}

unfoldable pub question_of : Kind → Item → Question
question_of tool_call i = call_question i
question_of summary i = record {
  key = lit "summary_" ++ i.id;
  instructions = lit "Keep summary " ++ (i.id ++ lit ".");
}
question_of _ i = result_question i

-- `q[key] = question`
unfoldable pub put_question : Question → List Question → List Question
put_question q [] = q ∷ []
put_question q (x ∷ xs) = if str_eq x.key q.key then q ∷ xs else x ∷ put_question q xs

unfoldable pub ask_items : List Item → List Question → List Question
ask_items [] qs = qs
ask_items (i ∷ is) qs = ask_items is (put_question (question_of i.kind i) qs)

-- QuestionsFor
unfoldable pub questions_for : Candidate → List Question
questions_for c = ask_items c.items []

-- The last index of an item that passes the test; a map that has none gives 0.
unfoldable pub last_at : (Item → Bool) → ℕ → List Item → ℕ → ℕ
last_at p i [] found = found
last_at p i (x ∷ xs) found = last_at p (i + 1) xs (if p x then i else found)

abbrev pub last_of_tool : List Item → Str → ℕ
last_of_tool items tool = last_at (λ (x : Item). str_eq x.tool tool) 0 items 0

abbrev pub index_of_id : List Item → Str → ℕ
index_of_id items id = last_at (λ (x : Item). str_eq x.id id) 0 items 0

unfoldable pub edits_file : Item → Bool
edits_file x =
    let t = lower x.tool in
    contains t (lit "edit")
    || (contains t (lit "search_replace")
        || (contains t (lit "apply_patch") || contains t (lit "write")))

unfoldable pub is_superseded : List Item → Item → Bool
is_superseded items item =
    let idx = index_of_id items item.id in
    (not (is_blank item.tool) && ltb idx (last_of_tool items item.tool))
    || ((contains (lower (item.preview ++ item.tool)) (lit "read") || is_result item.kind)
        && any edits_file (drop (idx + 1) items))

-- `answers[key] = score`
abbrev pub put_answer : Str → ℕ → Answers → Answers
put_answer key score answers k = if str_eq k key then some score else answers k

unfoldable pub answer_item : List Item → Item → Answers → Answers
answer_item items item answers =
    let old = is_superseded items item in
    let kept = (if old then 120000 else 860000) in
    if is_call item.kind
    then put_answer (lit "call_" ++ item.id) (if old then 720000 else 880000) answers
    else put_answer (lit "summary_" ++ item.id) kept
        (put_answer (lit "result_" ++ item.id) kept answers)

unfoldable pub answer_items : List Item → List Item → Answers → Answers
answer_items items [] answers = answers
answer_items items (i ∷ is) answers = answer_items items is (answer_item items i answers)

unfoldable pub answer_candidates : List Item → List Candidate → Answers → Answers
answer_candidates items [] answers = answers
answer_candidates items (c ∷ cs) answers =
    answer_candidates items cs (if c.pinned then answers else answer_items items c.items answers)

-- LocalAnswers
unfoldable pub local_answers : List Item → List Candidate → Answers
local_answers items cands = answer_candidates items cands (λ k. none)

-- CompactLocal; Compact resolves the resolved options again.
unfoldable pub compact_local : List Item → Options → Go Result
compact_local items o =
    let cands = collect_candidates items (resolve_recent o.preserve_recent) in
    compact items (local_answers items cands) (resolve o)

-- ReductionRatio, in millionths, rounded down
unfoldable pub reduction_ratio : Result → ℕ
reduction_ratio r = quotient (r.stats.chars_dropped * 1000000) r.stats.chars_before

-- The same of CompactLocal: no candidate is empty when its first item is read.
compact_local_total :
    (items : List Item) (o : Options) → (r : Result) × (compact_local items o ≡ ok r)
unfolding compact_local
compact_local_total items o = compact_total items _ (resolve o)
