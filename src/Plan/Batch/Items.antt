-- ===== src/Plan/Batch/Items.antt =====
-- What RouteBatch returns for each item.
use jev_routing.Prelude.{
  ℕ, zero, suc, ◌+◌, ◌≡◌, refl, Bool, true, false, not, Option, none, some, List, [], ◌∷◌, ◌++◌,
  if◌then◌else◌, String, append_assoc, append-nil, Bool-cases, inl, inr,
}
use jev_routing.Text.{is_blank}
use jev_routing.Plan.Route.{Runtime, route}
use jev_routing.Plan.Selected.{Selects, route-Selects}
use jev_routing.Plan.Batch.{
  BatchItem, BatchResult, BatchReply, BatchAnswer, BatchAsker, Pending, Prepared, local_result,
  fall_back, is_selected, prepare, prepare_all, answer_to, given, take_answer, conclude,
  conclude_at, conclude_all, no_pending, nothing_prepared, ask_pending, route_batch,
}

-- The result is that of the item, and selects only what the item's catalog has.
unfoldable pub Serves : BatchItem → BatchResult → Type 0
Serves item b = (b.id ≡ item.id) × Selects item.request.catalog.items b.route

unfoldable pub ServeAll : List BatchItem → List BatchResult → Type 0
ServeAll [] [] = Unit
ServeAll (item ∷ items) (b ∷ out) = Serves item b × ServeAll items out
ServeAll _ _ = ⊥

if-Serves :
    (item : BatchItem) (c : Bool) (x y : BatchResult)
    → Serves item x
    → Serves item y
    → Serves item (if c then x else y)
if-Serves item true x y f g = f
if-Serves item false x y f g = g

fall_back-Serves :
    (item : BatchItem) (b : BatchResult) (reason : String)
    → Serves item b
    → Serves item (fall_back b reason)
unfolding Serves Selects
fall_back-Serves item b reason s = s

missed-Serves :
    (item : BatchItem) (b : BatchResult) → Serves item b → Serves item (record b { missing = true })
unfolding Serves
missed-Serves item b s = s

answered-Serves :
    (t : Runtime) (item : BatchItem) (b : BatchResult) (a : BatchAnswer)
    → Serves item b
    → let got = route t item.request (some (given a)) in
      Serves item (record b { route = got; fallback = not (is_selected got.outcome) })
unfolding Serves
answered-Serves t item b a s = (s.0, route-Selects t item.request (some (given a)))

take_answer-Serves :
    (t : Runtime) (item : BatchItem) (b : BatchResult) (a : Option BatchAnswer)
    → Serves item b
    → Serves item (take_answer t item b a)
unfolding take_answer
take_answer-Serves t item b none s = fall_back-Serves item _ _ (missed-Serves item b s)
take_answer-Serves t item b (some a) s =
    if-Serves item (is_blank a.choice) _ _ (fall_back-Serves item _ _ (missed-Serves item b s))
      (answered-Serves t item b a s)

asked-Serves :
    (item : BatchItem) (b : BatchResult) (r : BatchReply)
    → Serves item b
    → Serves item (record b {
      asked = true;
      cached = r.cached;
      input_tok = r.usage_in;
      output_tok = r.usage_out;
    })
unfolding Serves
asked-Serves item b r s = s

conclude-Serves :
    (t : Runtime) (r : BatchReply) (item : BatchItem) (b : BatchResult)
    → Serves item b
    → Serves item (conclude t r item b)
unfolding conclude
conclude-Serves t r item b s =
    let asked = record b {
      asked = true;
      cached = r.cached;
      input_tok = r.usage_in;
      output_tok = r.usage_out;
    } in
    let still : Serves item asked = asked-Serves item b r s in
    if-Serves item r.failed _ _ (fall_back-Serves item asked _ still)
      (take_answer-Serves t item asked (answer_to item.id r.answers) still)

conclude_at-ServeAll :
    (t : Runtime) (r : BatchReply) (n : ℕ) (items : List BatchItem) (out : List BatchResult)
    → ServeAll items out
    → ServeAll items (conclude_at t r n items out)
unfolding conclude_at ServeAll
conclude_at-ServeAll t r zero [] [] s = tt
conclude_at-ServeAll t r (suc n) [] [] s = tt
conclude_at-ServeAll t r n [] (b ∷ out) s = absurd s
conclude_at-ServeAll t r n (item ∷ items) [] s = absurd s
conclude_at-ServeAll t r zero (item ∷ items) (b ∷ out) s = (conclude-Serves t r item b s.0, s.1)
conclude_at-ServeAll t r (suc n) (item ∷ items) (b ∷ out) s =
    (s.0, conclude_at-ServeAll t r n items out s.1)

conclude_all-ServeAll :
    (t : Runtime) (r : BatchReply) (ps : List Pending) (items : List BatchItem)
    (out : List BatchResult)
    → ServeAll items out
    → ServeAll items (conclude_all t r ps items out)
unfolding conclude_all
conclude_all-ServeAll t r [] items out s = s
conclude_all-ServeAll t r (p ∷ ps) items out s =
    conclude_all-ServeAll t r ps items _ (conclude_at-ServeAll t r p.index items out s)

ServeAll-append :
    (items more : List BatchItem) (out outs : List BatchResult)
    → ServeAll items out
    → ServeAll more outs
    → ServeAll (items ++ more) (out ++ outs)
unfolding ServeAll
ServeAll-append [] more [] outs s m = m
ServeAll-append [] more (b ∷ out) outs s m = absurd s
ServeAll-append (item ∷ items) more [] outs s m = absurd s
ServeAll-append (item ∷ items) more (b ∷ out) outs s m =
    (s.0, ServeAll-append items more out outs s.1 m)

local-Serves :
    (t : Runtime) (item : BatchItem)
    → Serves item (local_result item.id (route t item.request none))
unfolding Serves
local-Serves t item = (refl, route-Selects t item.request none)

-- The first loop extends what it has by a result that serves the item.
prepare-out :
    (t : Runtime) (expired : ℕ → Bool) (i : ℕ) (item : BatchItem) (p : Prepared)
    → (b : BatchResult) × ((prepare t expired i item p).out ≡ p.out ++ (b ∷ [])) × Serves item b
unfolding prepare
prepare-out t expired i item p =
    let b = local_result item.id (route t item.request none) in
    let s = local-Serves t item in
    elim (Bool-cases (is_selected b.route.outcome)) [
      | inl chosen ↦ rw chosen (b, refl, s)
      | inr left ↦ elim (Bool-cases (expired i)) [
        | inl late ↦
            rw (left, late)
              (fall_back b "ask_timeout", refl, fall_back-Serves item b "ask_timeout" s)
        | inr timely ↦ rw (left, timely) (b, refl, s)
      ]
    ]

prepare_all-ServeAll :
    (t : Runtime) (expired : ℕ → Bool) (i : ℕ) (before items : List BatchItem) (p : Prepared)
    → ServeAll before p.out
    → ServeAll (before ++ items) (prepare_all t expired i items p).out
unfolding prepare_all ServeAll
prepare_all-ServeAll t expired i before [] p s = rw (append-nil before) s
prepare_all-ServeAll t expired i before (item ∷ items) p s =
    let (b, e, serves) = prepare-out t expired i item p in
    let one : ServeAll (before ++ (item ∷ [])) (prepare t expired i item p).out =
      rw e (ServeAll-append before (item ∷ []) p.out (b ∷ []) s (serves, tt)) in
    let later =
      prepare_all-ServeAll t expired (i + 1) (before ++ (item ∷ [])) items
        (prepare t expired i item p) one in
    rw (append_assoc before (item ∷ []) items) at later

-- RouteBatch returns one result for each item, in their order and with their IDs, and each selected
-- result names an installed item of the catalog of its own request, bound unless the classifier
-- chose it. This holds whatever the asker answers, and whenever the deadline passes.
pub route_batch-ServeAll :
    (t : Runtime) (expired : ℕ → Bool) (items : List BatchItem) (ask : Option BatchAsker)
    → ServeAll items (route_batch t expired items ask)
unfolding route_batch ask_pending ServeAll
route_batch-ServeAll t expired items none =
    prepare_all-ServeAll t expired 0 [] items nothing_prepared tt
route_batch-ServeAll t expired items (some ask) =
    let p = prepare_all t expired 0 items nothing_prepared in
    let s = prepare_all-ServeAll t expired 0 [] items nothing_prepared tt in
    elim (Bool-cases (no_pending p.pending)) [
      | inl idle ↦ rw idle s
      | inr waiting ↦ rw waiting (conclude_all-ServeAll t (ask p.questions) p.pending items p.out s)
    ]
