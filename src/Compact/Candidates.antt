-- ===== src/Compact/Candidates.antt =====
-- CollectCandidates of internal/compact/compact.go.
use jev_routing.Prelude.{
  ℕ, ◌+◌, Bool, not, ◌&&◌, ◌||◌, Option, none, some, List, [], ◌∷◌, map, leb, ◌==◌, if◌then◌else◌,
  length, any,
}
use jev_routing.Text.{Str, str_eq, is_blank}
use jev_routing.Compact.{Kind, Item, Candidate, is_call, is_result, is_text}

-- `index >= total-preserveRecent` over signed numbers.
unfoldable pub is_pinned : ℕ → ℕ → ℕ → Bool
is_pinned index total preserve_recent = index == 0 || leb total (index + preserve_recent)

-- An item with its index.
pub record Indexed : Type 0 where
  pub index : ℕ
  pub item : Item

unfoldable pub indexed : ℕ → List Item → List Indexed
indexed n [] = []
indexed n (i ∷ is) = record { index = n; item = i } ∷ indexed (n + 1) is

-- The condition under which an item goes into `byPair`.
unfoldable pub in_pair : Item → Bool
in_pair i = not (is_blank i.pair_id) && (is_call i.kind || is_result i.kind)

-- `byPair[pair]`, in the order of the items.
unfoldable pub group : Str → List Indexed → List Indexed
group pair [] = []
group pair (x ∷ xs) =
    if in_pair x.item && str_eq x.item.pair_id pair then x ∷ group pair xs else group pair xs

unfoldable pub count_kind : (Kind → Bool) → List Indexed → ℕ
count_kind p [] = 0
count_kind p (x ∷ xs) = (if p x.item.kind then 1 else 0) + count_kind p xs

-- One call and one result.
unfoldable pub is_valid_group : List Indexed → Bool
is_valid_group g = count_kind is_call g == 1 && count_kind is_result g == 1

-- A group is in the order of the items, so its first index is the `min` of the source.
abbrev pub first_index : List Indexed → Option ℕ
first_index [] = none
first_index (x ∷ xs) = some x.index

unfoldable pub pin_at : ℕ → ℕ → Indexed → Bool
unfolding is_pinned
pin_at total preserve_recent x = x.item.pinned || is_pinned x.index total preserve_recent

-- What the second loop does at one item, where `g` is the item's group: the candidate of a pair at
-- its first item, nothing at its second, a candidate of its own for another result or summary.
unfoldable pub candidate_at : ℕ → ℕ → Indexed → List Indexed → Option Candidate
candidate_at total preserve_recent x g =
    if in_pair x.item && is_valid_group g
    then elim (first_index g) [
      | none ↦ none
      | some n ↦
          if n == x.index
          then some (record {
            items = map (λ y. y.item) g;
            pinned = any (pin_at total preserve_recent) g;
          })
          else none
    ]
    else if is_text x.item.kind || is_call x.item.kind
    then none
    else some (record { items = x.item ∷ []; pinned = pin_at total preserve_recent x })

abbrev pub add_some {ℓ} : {A : Type ℓ} → Option A → List A → List A
add_some none l = l
add_some (some a) l = a ∷ l

unfoldable pub collect_loop : ℕ → ℕ → List Indexed → List Indexed → List Candidate
collect_loop total preserve_recent all [] = []
collect_loop total preserve_recent all (x ∷ xs) =
    add_some (candidate_at total preserve_recent x (group x.item.pair_id all))
      (collect_loop total preserve_recent all xs)

unfoldable pub collect_candidates : List Item → ℕ → List Candidate
collect_candidates items preserve_recent =
    let all = indexed 0 items in collect_loop (length items) preserve_recent all all
