-- ===== src/Compact/Kept/Shape.antt =====
-- The candidates that CollectCandidates builds: an item alone, or a call with its result.
use jev_routing.Prelude.{
  ℕ, ◌+◌, ◌<◌, ◌≡◌, true, false, not, ◌&&◌, ◌||◌, Option, none, some, List, [], ◌∷◌, map, arith,
  ◌==◌, if◌then◌else◌, any, All, Bool-cases, ◌⊎◌, inl, inr, length,
}
use jev_routing.Text.{Str, str_eq}
use jev_routing.Compact.{Kind, Item, Candidate, is_call, is_result, is_text}
use jev_routing.Compact.Candidates.{
  Indexed, indexed, in_pair, group, count_kind, is_valid_group, first_index, pin_at, candidate_at,
  add_some, collect_loop, collect_candidates,
}

abbrev pub HasBoth : List Item → Type 0
HasBoth is = (any (λ i. is_call i.kind) is ≡ true) × (any (λ i. not (is_call i.kind)) is ≡ true)

-- Every item satisfies `Q`, and there is one item, or a call and something else.
abbrev pub IsShaped : (Item → Type 0) → List Item → Type 0
IsShaped Q [] = ⊥
IsShaped Q (i ∷ []) = Q i
IsShaped Q (i ∷ j ∷ is) = All Q (i ∷ j ∷ is) × HasBoth (i ∷ j ∷ is)

has_call :
    (g : List Indexed)
    → 0 < count_kind is_call g
    → any (λ i. is_call i.kind) (map (λ y. y.item) g) ≡ true
unfolding count_kind
has_call [] h = absurd (omega arith)
has_call (x ∷ g) h = ground (arith, has_call g)

kind_cases : (k : Kind) → is_result k ≡ true → is_call k ≡ false
kind_cases k h = ground arith

has_result :
    (g : List Indexed)
    → 0 < count_kind is_result g
    → any (λ i. not (is_call i.kind)) (map (λ y. y.item) g) ≡ true
unfolding count_kind
has_result [] h = absurd (omega arith)
has_result (x ∷ g) h = ground (arith, has_result g, kind_cases x.item.kind)

-- what is no text satisfies `Q`
abbrev pub Tools : (Item → Type 0) → List Indexed → Type 0
Tools Q g = All (λ y. is_text y.item.kind ≡ false → Q y.item) g

in_pair-tool : (i : Item) → in_pair i ≡ true → is_text i.kind ≡ false
unfolding in_pair
in_pair-tool i h = ground arith

module _ (Q : Item → Type 0) where
  group-All : (pair : Str) (g : List Indexed) → Tools Q g → All Q (map (λ y. y.item) (group pair g))
  unfolding group
  group-All pair [] t = tt
  group-All pair (x ∷ g) t = elim (Bool-cases (in_pair x.item && str_eq x.item.pair_id pair)) [
    | inl this ↦ rw this (t.0 (in_pair-tool x.item (ground arith)), group-All pair g t.1)
    | inr other ↦ rw other (group-All pair g t.1)
  ]

  IsShaped-both : (is : List Item) → All Q is → HasBoth is → IsShaped Q is
  IsShaped-both [] q b = cc
  IsShaped-both (i ∷ []) q b = q.0
  IsShaped-both (i ∷ j ∷ is) q b = (q, b)

  abbrev Fits : Option Candidate → Type 0
  Fits none = Unit
  Fits (some c) = IsShaped Q c.items

  candidate_at-Fits :
      (total recent : ℕ) (x : Indexed) (g : List Indexed)
      → (is_text x.item.kind ≡ false → Q x.item)
      → All Q (map (λ y. y.item) g)
      → Fits (candidate_at total recent x g)
  unfolding candidate_at is_valid_group
  candidate_at-Fits total recent x g alone q =
      elim (Bool-cases
        (in_pair x.item && (count_kind is_call g == 1 && count_kind is_result g == 1))) [
          | inl valid ↦
              rw valid (of_group g q (has_call g (ground arith)) (has_result g (ground arith)))
          | inr other ↦ rw other (of_one (Bool-cases (is_text x.item.kind || is_call x.item.kind)))
        ]
    where
      of_group :
          (h : List Indexed)
          → All Q (map (λ y. y.item) h)
          → any (λ i. is_call i.kind) (map (λ y. y.item) h) ≡ true
          → any (λ i. not (is_call i.kind)) (map (λ y. y.item) h) ≡ true
          → Fits (elim (first_index h) [
            | none ↦ none
            | some n ↦
                if n == x.index
                then some
                    (record { items = map (λ y. y.item) h; pinned = any (pin_at total recent) h })
                else none
          ])
      of_group [] a c r = tt
      of_group (y ∷ h) a c r = elim (Bool-cases (y.index == x.index)) [
        | inl first ↦ rw first (IsShaped-both (map (λ z. z.item) (y ∷ h)) a (c, r))
        | inr second ↦ rw second tt
      ]

      of_one :
          (is_text x.item.kind || is_call x.item.kind ≡ true)
            ⊎ (is_text x.item.kind || is_call x.item.kind ≡ false)
          → Fits (
              if is_text x.item.kind || is_call x.item.kind
              then none
              else some (record { items = x.item ∷ []; pinned = pin_at total recent x }))
      of_one (inl skipped) = rw skipped tt
      of_one (inr single) = rw single (alone (ground arith))

  abbrev pub AllShaped : List Candidate → Type 0
  AllShaped cs = All (λ c. IsShaped Q c.items) cs

  add_some-AllShaped :
      (o : Option Candidate) (cs : List Candidate)
      → Fits o
      → AllShaped cs
      → AllShaped (add_some o cs)
  add_some-AllShaped none cs f a = a
  add_some-AllShaped (some c) cs f a = (f, a)

  collect_loop-AllShaped :
      (total recent : ℕ) (all xs : List Indexed)
      → Tools Q all
      → Tools Q xs
      → AllShaped (collect_loop total recent all xs)
  unfolding collect_loop
  collect_loop-AllShaped total recent all [] ta t = tt
  collect_loop-AllShaped total recent all (x ∷ xs) ta t =
      add_some-AllShaped (candidate_at total recent x (group x.item.pair_id all)) _
        (candidate_at-Fits total recent x (group x.item.pair_id all) t.0
          (group-All x.item.pair_id all ta))
        (collect_loop-AllShaped total recent all xs ta t.1)

  indexed-Tools :
      (n : ℕ) (items : List Item)
      → All (λ i. is_text i.kind ≡ false → Q i) items
      → Tools Q (indexed n items)
  unfolding indexed
  indexed-Tools n [] a = tt
  indexed-Tools n (i ∷ is) a = (a.0, indexed-Tools (n + 1) is a.1)

  -- The candidates hold items that are no text, one each, or a call together with something else.
  pub collect-AllShaped :
      (items : List Item) (recent : ℕ)
      → All (λ i. is_text i.kind ≡ false → Q i) items
      → AllShaped (collect_candidates items recent)
  unfolding collect_candidates
  collect-AllShaped items recent a =
      collect_loop-AllShaped (length items) recent (indexed 0 items) (indexed 0 items)
        (indexed-Tools 0 items a) (indexed-Tools 0 items a)
