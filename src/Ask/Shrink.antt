-- ===== src/Ask/Shrink.antt =====
-- FitInputCopy of internal/jev/jev.go. A state is a decoded JSON value, as cloneAny gives it; the
-- members of an object stand in the order in which the loop over the map visits them.
pub mod Masked
pub mod Kept
use jev_routing.Prelude.{
  ℕ, zero, suc, ◌+◌, ◌-◌, ◌/◌, Bool, true, false, not, ◌||◌, Option, none, some, List, [], ◌∷◌,
  ◌++◌, ltb, leb, if◌then◌else◌, length, take, drop, concat, max, String,
}
use jev_routing.Text.{Str, lit, str_eq}
use jev_routing.Text.Runes.{runes}
use jev_routing.Json.{
  Json, null, boolean, number, string, array, object, Elements, nil, cons, Members, end, member,
}
use jev_routing.Compact.Tokens.{Tables, estimate_tokens}
use jev_routing.Ask.{AskQuestion}

abbrev pub input_budget : ℕ
input_budget = 32000

-- json.Marshal; `none` is an error
pub record Marshaller : Type 0 where
  pub tables : Tables
  pub json : Json → Option Str
  pub question : AskQuestion → Option Str

abbrev pub tokens_of : Tables → Option Str → ℕ
tokens_of t none = 0
tokens_of t (some s) = estimate_tokens t s

unfoldable pub longest_question : Marshaller → List AskQuestion → ℕ
longest_question m [] = 0
longest_question m (q ∷ qs) = max (tokens_of m.tables (m.question q)) (longest_question m qs)

-- JointTokens
unfoldable pub joint_tokens : Marshaller → List AskQuestion → Json → ℕ
joint_tokens m qs state = tokens_of m.tables (m.json state) + longest_question m qs

unfoldable pub one_name : Str → List String → Bool
one_name k [] = false
one_name k (x ∷ xs) = str_eq k (lit x) || one_name k xs

-- protectedKey
unfoldable pub protected_key : Str → Bool
protected_key k = one_name k (
    "goal" ∷ "user_request" ∷ "id" ∷ "call_id" ∷ "tool_call_id" ∷ "pairId" ∷ "pair_id" ∷ "tool"
    ∷ "name" ∷ "choice" ∷ "type" ∷ "kind" ∷ "instructions" ∷ "criteria" ∷ [])

-- shrinkableField
unfoldable pub shrinkable_field : Str → Bool
shrinkable_field k =
    one_name k (
      "Result" ∷ "result" ∷ "preview" ∷ "body" ∷ "Body" ∷ "output" ∷ "content" ∷ "text" ∷ "history"
      ∷ [])
    || not (protected_key k)

-- collectShrinkStrings: what the references read, in their order.
unfoldable mutual
  pub shrink_strings : Json → List Str
  shrink_strings (array xs) = element_strings xs
  shrink_strings (object ms) = member_strings ms
  shrink_strings _ = []

  pub element_strings : Elements → List Str
  element_strings nil = []
  element_strings (cons x xs) = shrink_strings x ++ element_strings xs

  pub member_strings : Members → List Str
  member_strings end = []
  member_strings (member k (string s) ms) =
      let rest = member_strings ms in if shrinkable_field k then s ∷ rest else rest
  member_strings (member k v ms) = shrink_strings v ++ member_strings ms

-- The first string of the list, and the one that stands if there is none.
abbrev pub first_or : Str → List Str → Str
first_or s [] = s
first_or s (t ∷ ts) = t

-- The value in which the references have been set to the strings.
unfoldable mutual
  pub fill : Json → List Str → Json
  fill (array xs) ss = array (fill_elements xs ss)
  fill (object ms) ss = object (fill_members ms ss)
  fill v ss = v

  pub fill_elements : Elements → List Str → Elements
  fill_elements nil ss = nil
  fill_elements (cons x xs) ss =
      cons (fill x ss) (fill_elements xs (drop (length (shrink_strings x)) ss))

  pub fill_members : Members → List Str → Members
  fill_members end ss = end
  fill_members (member k (string s) ms) ss =
      let cut = fill_members ms (drop 1 ss) in
      let rest = fill_members ms ss in
      if shrinkable_field k then member k (string (first_or s ss)) cut else member k (string s) rest
  fill_members (member k v ms) ss =
      member k (fill v ss) (fill_members ms (drop (length (shrink_strings v)) ss))

-- `string(runes[:n])`
unfoldable pub cut_runes : List Str → ℕ → Str
cut_runes rs n = concat (take n rs)

-- The binary search for `best`. `high` is `hi + 1`, which is not negative; the recursion is on fuel.
unfoldable pub search : (ℕ → Bool) → ℕ → ℕ → ℕ → ℕ → ℕ
search fits zero low high best = best
search fits (suc fuel) low high best =
    let mid = (low + (high - 1)) / 2 in
    let upper = search fits fuel (mid + 1) high mid in
    let lower = search fits fuel low mid best in
    if ltb low high then if fits mid then upper else lower else best

-- How much of a string stays, given which lengths fit.
unfoldable pub longest_fit : (ℕ → Bool) → ℕ → ℕ
longest_fit fits n = search fits (n + 1) 0 (n + 1) 0

module _ (m : Marshaller) (qs : List AskQuestion) (root : Json) where
  unfoldable pub within_budget : List Str → Bool
  within_budget ss = leb (joint_tokens m qs (fill root ss)) input_budget

  -- One round: the string behind those of `front`, before those of `back`.
  unfoldable pub shrink_string : List Str → Str → List Str → Str
  shrink_string front s back =
      let rs = runes s in
      cut_runes rs (longest_fit (λ n. within_budget (front ++ (cut_runes rs n ∷ back))) (length rs))

  -- The loop over the references, which returns at the first one before which the budget is kept.
  unfoldable pub shrink_loop : List Str → List Str → List Str
  shrink_loop front [] = front
  shrink_loop front (s ∷ back) =
      let cut = shrink_string front s back in
      let rest = shrink_loop (front ++ (cut ∷ [])) back in
      if within_budget (front ++ (s ∷ back)) then front ++ (s ∷ back) else rest

-- shrinkAny
unfoldable pub shrink_any : Marshaller → List AskQuestion → Json → Json
shrink_any m qs (object ms) =
    let shrunk = fill (object ms) (shrink_loop m qs (object ms) [] (shrink_strings (object ms))) in
    if leb (joint_tokens m qs (object ms)) input_budget then object ms else shrunk
shrink_any m qs v = v

-- The state that FitInputCopy returns, and whether it reports ErrOverBudget.
pub record FittedInput : Type 0 where
  pub state : Json
  pub over : Bool

-- FitInputCopy, the questions of which it returns a copy left out
unfoldable pub fit_input_copy : Marshaller → List AskQuestion → Json → FittedInput
fit_input_copy m qs state =
    let shrunk = shrink_any m qs state in
    if leb (joint_tokens m qs state) input_budget
    then record { state = state; over = false }
    else record { state = shrunk; over = not (leb (joint_tokens m qs shrunk) input_budget) }
