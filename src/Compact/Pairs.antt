-- ===== src/Compact/Pairs.antt =====
-- DecideCall on a call and its result.
use jev_routing.Prelude.{
  ℕ, ◌≡◌, ◌≢◌, refl, ◌↔◌, true, false, Option, none, some, List, [], ◌∷◌, ◌++◌, arith, leb, ◌<◌,
  if◌then◌else◌, ok, ap,
}
use jev_routing.Text.{lit}
use jev_routing.Compact.{
  Action, keep, truncate, discard, Item, Candidate, Answers, is_call, Named, decision, named,
  call_of, result_of, decide_scores, decide_pair, decide_items, decide_call,
}

-- The items are a call and its result, in either order.
pub data IsPair (call result : Item) : List Item → Type 0 where
  call_first : IsPair call result (call ∷ result ∷ [])
  result_first : IsPair call result (result ∷ call ∷ [])

-- The action on the call and on the result, by the result's score and the call's.
pub call_action : ℕ → Option ℕ → Option ℕ → Action
call_action t (some r) (some c) = if leb t r then keep else if leb t c then keep else discard
call_action t _ _ = keep

pub result_action : ℕ → Option ℕ → Option ℕ → Action
result_action t (some r) (some c) = if leb t r then keep else if leb t c then truncate else discard
result_action t _ _ = keep

pub decide_scores-actions :
    (t : ℕ) (call result : Named) (r c : Option ℕ)
    → decide_scores t call result r c
      ≡ decision call (call_action t r c) ∷ decision result (result_action t r c) ∷ []
unfolding decide_scores call_action result_action
decide_scores-actions t call result (some r) (some c) = ground arith
decide_scores-actions t call result (some r) none = refl
decide_scores-actions t call result none c = refl

-- Both scores are known and below the threshold.
abbrev pub BothLow : ℕ → Option ℕ → Option ℕ → Type 0
BothLow t (some r) (some c) = (r < t) × (c < t)
BothLow t _ _ = ⊥

actions_together :
    (t : ℕ) (r c : Option ℕ)
    → ((call_action t r c ≡ discard) ↔ BothLow t r c)
      × ((result_action t r c ≡ discard) ↔ BothLow t r c)
      × (call_action t r c ≢ truncate)
unfolding call_action result_action
actions_together t (some r) (some c) = (
  (λ h. ground arith, λ h. ground arith),
  (λ h. ground arith, λ h. ground arith),
  λ h. ground arith,
)
actions_together t (some r) none = ((λ h. cc, λ h. absurd h), (λ h. cc, λ h. absurd h), λ h. cc)
actions_together t none c = ((λ h. cc, λ h. absurd h), (λ h. cc, λ h. absurd h), λ h. cc)

decide_items-IsPair :
    (call result : Item) (is : List Item) (answers : Answers) (t : ℕ)
    → is_call call.kind ≡ true
    → is_call result.kind ≡ false
    → IsPair call result is
    → decide_items is answers t ≡ ok (decide_pair t answers (named call) (named result))
unfolding decide_items call_of result_of
decide_items-IsPair call result is answers t c r call_first = rw (c, r) refl
decide_items-IsPair call result is answers t c r result_first = rw (c, r) refl

-- On an unpinned candidate of a call and a result, in either order, DecideCall decides both, the call
-- before the result: the call is dropped exactly when the result is, which is exactly when both scores
-- are known and below the threshold, and a call is never truncated.
pub pair_actions :
    (call result : Item) (cand : Candidate) (answers : Answers) (threshold : ℕ)
    → is_call call.kind ≡ true
    → is_call result.kind ≡ false
    → IsPair call result cand.items
    → cand.pinned ≡ false
    → let low =
        BothLow threshold
          (answers (lit "result_" ++ result.id))
          (answers (lit "call_" ++ call.id)) in
      (c r : Action) × (decide_call cand answers threshold
        ≡ ok (decision (named call) c ∷ decision (named result) r ∷ []))
      × ((c ≡ discard) ↔ low)
      × ((r ≡ discard) ↔ low)
      × (c ≢ truncate)
unfolding decide_call decide_pair
pair_actions call result cand answers threshold is_a_call is_none is_pair free =
    let r = answers (lit "result_" ++ result.id) in
    let c = answers (lit "call_" ++ call.id) in
    let t = actions_together threshold r c in
    (
      call_action threshold r c,
      result_action threshold r c,
      rw
          (
            free,
            decide_items-IsPair call result cand.items answers threshold is_a_call is_none is_pair,
          )
          (ap ok (decide_scores-actions threshold (named call) (named result) r c)),
      t.0,
      t.1,
      t.2,
    )
