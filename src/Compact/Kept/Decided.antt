-- ===== src/Compact/Kept/Decided.antt =====
-- The decisions that DecideCall and the loop of Compact return for the candidates of a history.
use jev_routing.Prelude.{
  ℕ, ◌≡◌, refl, ◌⊎◌, inl, inr, true, false, not, Option, none, some, List, [], ◌∷◌, ◌++◌, map, leb,
  if◌then◌else◌, any, All, Go, ok, Bool-cases,
}
use jev_routing.Text.{Str, lit}
use jev_routing.Compact.{
  truncate, discard, Item, Decision, Candidate, Answers, is_call, is_summary, is_text, Named,
  decision, named, no_item, call_of, result_of, decide_pair, single_key, decide_single_score,
  keep_pinned, decide_items, decide_call,
}
use jev_routing.Compact.Candidates.{collect_candidates}
use jev_routing.Compact.Apply.{decide_all}
use jev_routing.Compact.Pairs.{decide_scores-actions}
use jev_routing.Compact.Kept.Shape.{IsShaped, AllShaped, collect-AllShaped}

-- `r` is a list of decisions that satisfy `P`.
abbrev pub Decides : (Decision → Type 0) → Go (List Decision) → Type 0
Decides P r = (ds : List Decision) × (r ≡ ok ds) × All P ds

module _ (P : Decision → Type 0) where
  All-append : (xs ys : List Decision) → All P xs → All P ys → All P (xs ++ ys)
  All-append [] ys a b = b
  All-append (d ∷ xs) ys a b = (a.0, All-append xs ys a.1 b)

  pub decide_all-Decides :
      (cs : List Candidate) (answers : Answers) (t : ℕ)
      → All (λ c. Decides P (decide_call c answers t)) cs
      → Decides P (decide_all cs answers t)
  unfolding decide_all
  decide_all-Decides [] answers t h = ([], refl, tt)
  decide_all-Decides (c ∷ cs) answers t h =
      let rest = decide_all-Decides cs answers t h.1 in
      (h.0.0 ++ rest.0, rw (h.0.1, rest.1), All-append h.0.0 rest.0 h.0.2 rest.2)

-- A decision carries the ID of an item of its candidate.
module _ (R : Str → Type 0) where
  call_of-id :
      (is : List Item) (n : Named)
      → All (λ i. R i.id) is
      → (any (λ i. is_call i.kind) is ≡ true) ⊎ R n.id
      → R (call_of is n).id
  unfolding call_of
  call_of-id [] n a (inl h) = cc
  call_of-id [] n a (inr r) = r
  call_of-id (i ∷ is) n a h = elim (Bool-cases (is_call i.kind)) [
    | inl same ↦ rw (same, call_of) (call_of-id is (named i) a.1 (inr a.0))
    | inr other ↦ rw (other, call_of) (call_of-id is n a.1 (rw other at h))
  ]

  result_of-id :
      (is : List Item) (n : Named)
      → All (λ i. R i.id) is
      → (any (λ i. not (is_call i.kind)) is ≡ true) ⊎ R n.id
      → R (result_of is n).id
  unfolding result_of
  result_of-id [] n a (inl h) = cc
  result_of-id [] n a (inr r) = r
  result_of-id (i ∷ is) n a h = elim (Bool-cases (is_call i.kind)) [
    | inl same ↦ rw (same, result_of) (result_of-id is n a.1 (rw same at h))
    | inr other ↦ rw (other, result_of) (result_of-id is (named i) a.1 (inr a.0))
  ]

  abbrev pub OfItem : Decision → Type 0
  OfItem d = R d.id

  single-OfItem :
      (t : ℕ) (i : Item) (o : Option ℕ) → R i.id → All OfItem (decide_single_score t i o)
  unfolding decide_single_score
  single-OfItem t i none r = (r, tt)
  single-OfItem t i (some score) r = elim (Bool-cases (leb t score)) [
    | inl high ↦ rw high (r, tt)
    | inr low ↦ rw low (by_kind (Bool-cases (is_summary i.kind)))
  ]
    where
      by_kind :
          (is_summary i.kind ≡ true) ⊎ (is_summary i.kind ≡ false)
          → All OfItem (
              if is_summary i.kind
              then decision (named i) discard ∷ []
              else decision (named i) truncate ∷ [])
      by_kind (inl short) = rw short (r, tt)
      by_kind (inr other) = rw other (r, tt)

  pair-OfItem :
      (t : ℕ) (answers : Answers) (call result : Named)
      → R call.id
      → R result.id
      → All OfItem (decide_pair t answers call result)
  unfolding decide_pair
  pair-OfItem t answers call result c r =
      let e =
        decide_scores-actions t call result (answers (lit "result_" ++ result.id))
          (answers (lit "call_" ++ call.id)) in
      rw e (c, (r, tt))

  pinned-OfItem : (is : List Item) → All (λ i. R i.id) is → All OfItem (map keep_pinned is)
  unfolding keep_pinned
  pinned-OfItem [] a = tt
  pinned-OfItem (i ∷ is) a = (a.0, pinned-OfItem is a.1)

  IsShaped-All : (is : List Item) → IsShaped (λ i. R i.id) is → All (λ i. R i.id) is
  IsShaped-All [] s = tt
  IsShaped-All (i ∷ []) s = (s, tt)
  IsShaped-All (i ∷ j ∷ is) s = s.0

  decide_items-Decides :
      (is : List Item) (answers : Answers) (t : ℕ)
      → IsShaped (λ i. R i.id) is
      → Decides OfItem (decide_items is answers t)
  unfolding decide_items
  decide_items-Decides [] answers t s = absurd s
  decide_items-Decides (i ∷ []) answers t s =
      (_, refl, single-OfItem t i (answers (single_key i)) s)
  decide_items-Decides (i ∷ j ∷ []) answers t s =
      let is = i ∷ j ∷ [] in
      (
        _,
        refl,
        pair-OfItem t answers (call_of is no_item) (result_of is no_item)
            (call_of-id is no_item s.0 (inl s.1.0)) (result_of-id is no_item s.0 (inl s.1.1)),
      )
  decide_items-Decides (i ∷ j ∷ k ∷ is) answers t s =
      (_, refl, single-OfItem t i (answers (single_key i)) s.0.0)

  pub decide_call-Decides :
      (c : Candidate) (answers : Answers) (t : ℕ)
      → IsShaped (λ i. R i.id) c.items
      → Decides OfItem (decide_call c answers t)
  unfolding decide_call
  decide_call-Decides c answers t s = elim (Bool-cases c.pinned) [
    | inl pinned ↦
        rw pinned (map keep_pinned c.items, refl, pinned-OfItem c.items (IsShaped-All c.items s))
    | inr free ↦ rw free (decide_items-Decides c.items answers t s)
  ]

  candidates-Decide :
      (cs : List Candidate) (answers : Answers) (t : ℕ)
      → AllShaped (λ i. R i.id) cs
      → All (λ c. Decides OfItem (decide_call c answers t)) cs
  candidates-Decide [] answers t a = tt
  candidates-Decide (c ∷ cs) answers t a =
      (decide_call-Decides c answers t a.0, candidates-Decide cs answers t a.1)

  -- Where the ID of every item that is no text satisfies `R`, so does the ID of every decision.
  pub collected-Decide :
      (items : List Item) (recent : ℕ) (answers : Answers) (t : ℕ)
      → All (λ i. is_text i.kind ≡ false → R i.id) items
      → Decides OfItem (decide_all (collect_candidates items recent) answers t)
  collected-Decide items recent answers t a =
      decide_all-Decides OfItem (collect_candidates items recent) answers t (
        candidates-Decide (collect_candidates items recent) answers t
          (collect-AllShaped (λ i. R i.id) items recent a))
