-- ===== src/Compact/Totals.antt =====
-- What Reduction counts.
use jev_routing.Prelude.{
  ℕ, ◌+◌, ◌≤◌, ◌≡◌, refl, ap, ◌⊎◌, inl, inr, Bool, false, Option, none, some, List, [], ◌∷◌, ◌++◌,
  All, arith, length, ltb, if◌then◌else◌, Bool-cases,
}
use jev_routing.Text.{Str, str_eq}
use jev_routing.Text.Laws.{str_eq_iff}
use jev_routing.Compact.{Action, keep, truncate, discard, Item, Decision}
use jev_routing.Compact.Candidates.{add_some}
use jev_routing.Compact.Apply.{
  Stats, decision_of, action_for, pinned_for, apply_action, apply, count_item, reduction_loop,
  reduction, no_stats, chars_after,
}

-- No decision is about the ID.
abbrev pub Silent : List Decision → Str → Type 0
Silent ds id = All (λ (d : Decision). str_eq d.id id ≡ false) ds

-- What the decisions say of an ID: the last one about it counts, and without one it is kept.
pub data Settles (ds : List Decision) (id : Str) : Action → Type 0 where
  unsaid : Silent ds id → Settles ds id keep
  said :
      (front : List Decision) (d : Decision) (back : List Decision)
      → ds ≡ front ++ (d ∷ back)
      → d.id ≡ id
      → Silent back id
      → Settles ds id d.action

-- The items with the numbers of kept, truncated and dropped ones, and the characters before and after.
pub data Tally (ds : List Decision) (head : ℕ) : List Item → ℕ → ℕ → ℕ → ℕ → ℕ → Type 0 where
  nothing : Tally ds head [] 0 0 0 0 0
  one_kept :
      (i : Item) {is : List Item} {k t d b a : ℕ}
      → Settles ds i.id keep
      → Tally ds head is k t d b a
      → Tally ds head (i ∷ is) (k + 1) t d (b + i.chars) (a + i.chars)
  one_truncated :
      (i : Item) (n : ℕ) {is : List Item} {k t d b a : ℕ}
      → Settles ds i.id truncate
      → n ≤ i.chars
      → n ≤ head
      → (n ≡ i.chars) ⊎ (n ≡ head)
      → Tally ds head is k t d b a
      → Tally ds head (i ∷ is) k (t + 1) d (b + i.chars) (a + n)
  one_dropped :
      (i : Item) {is : List Item} {k t d b a : ℕ}
      → Settles ds i.id discard
      → Tally ds head is k t d b a
      → Tally ds head (i ∷ is) k t (d + 1) (b + i.chars) a

Found : List Decision → Str → Option Decision → Type 0
Found ds id none = Silent ds id
Found ds id (some d) =
    (front back : List Decision) × (ds ≡ front ++ (d ∷ back)) × (d.id ≡ id) × Silent back id

decision_of-Found : (ds : List Decision) (id : Str) → Found ds id (decision_of ds id)
unfolding decision_of Found
decision_of-Found [] id = tt
decision_of-Found (x ∷ ds) id = by_later (decision_of ds id) (decision_of-Found ds id)
  where
    by_later :
        (later : Option Decision)
        → Found ds id later
        → Found
            (x ∷ ds)
            id
            (elim later [ some e ↦ some e | none ↦ if str_eq x.id id then some x else none ])
    by_later (some d) (front, back, e, same, silent) =
        (x ∷ front, back, ap (λ r. x ∷ r) e, same, silent)
    by_later none silent = elim (Bool-cases (str_eq x.id id)) [
      | inl same ↦ rw same ([], ds, refl, (str_eq_iff x.id id).0 same, silent)
      | inr other ↦ rw other (other, silent)
    ]

action_for-Settles : (ds : List Decision) (i : Item) → Settles ds i.id (action_for ds i)
unfolding action_for Found
action_for-Settles ds i = by_found (decision_of ds i.id) (decision_of-Found ds i.id)
  where
    by_found :
        (found : Option Decision)
        → Found ds i.id found
        → Settles ds i.id (elim found [ none ↦ keep | some d ↦ d.action ])
    by_found none silent = unsaid silent
    by_found (some d) (front, back, e, same, silent) = said front d back e same silent

-- The loop from `s` on gives `r`, and adds what a tally of the items has.
Adds : List Item → List Decision → ℕ → Stats → Stats → Type 0
Adds items ds head s r =
    (k t d b a : ℕ) × Tally ds head items k t d b a
    × (r.kept ≡ s.kept + k)
    × (r.truncated ≡ s.truncated + t)
    × (r.dropped ≡ s.dropped + d)
    × (r.chars_before ≡ s.chars_before + b)
    × (r.chars_after ≡ s.chars_after + a)

truncated_chars :
    (i : Item) (head : ℕ)
    → let n = chars_after i truncate head in
      (n ≤ i.chars) × (n ≤ head) × ((n ≡ i.chars) ⊎ (n ≡ head))
unfolding chars_after
truncated_chars i head = elim (Bool-cases (ltb i.chars head)) [
  | inl short ↦ rw short (omega arith, ground arith, inl refl)
  | inr long ↦ rw long (ground arith, omega arith, inr refl)
]

count_item-Adds :
    (s r : Stats) (i : Item) (is : List Item) (act : Action) (pinned : Bool) (ds : List Decision)
    (head : ℕ)
    → Settles ds i.id act
    → Adds is ds head (count_item s i act pinned head) r
    → Adds (i ∷ is) ds head s r
unfolding Adds count_item
count_item-Adds s r i is keep pinned ds head z (k, t, d, b, a, y, e1, e2, e3, e4, e5) = (
  k + 1,
  t,
  d,
  b + i.chars,
  a + i.chars,
  one_kept i z y,
  omega arith,
  omega arith,
  omega arith,
  omega arith,
  omega arith,
)
count_item-Adds s r i is discard pinned ds head z (k, t, d, b, a, y, e1, e2, e3, e4, e5) = (
  k,
  t,
  d + 1,
  b + i.chars,
  a,
  one_dropped i z y,
  omega arith,
  omega arith,
  omega arith,
  omega arith,
  omega arith,
)
count_item-Adds s r i is truncate pinned ds head z (k, t, d, b, a, y, e1, e2, e3, e4, e5) =
    let n = chars_after i truncate head in
    let (whole, front, which) = truncated_chars i head in
    (
      k,
      t + 1,
      d,
      b + i.chars,
      a + n,
      one_truncated i n z whole front which y,
      omega arith,
      omega arith,
      omega arith,
      omega arith,
      omega arith,
    )

reduction_loop-Adds :
    (items : List Item) (s : Stats) (ds : List Decision) (head : ℕ)
    → Adds items ds head s (reduction_loop s items ds head)
unfolding reduction_loop Adds
reduction_loop-Adds [] s ds head =
    (0, 0, 0, 0, 0, nothing, omega arith, omega arith, omega arith, omega arith, omega arith)
reduction_loop-Adds (i ∷ is) s ds head =
    count_item-Adds s
      (reduction_loop (count_item s i (action_for ds i) (pinned_for ds i) head) is ds head) i is
      (action_for ds i) (pinned_for ds i) ds head (action_for-Settles ds i)
      (reduction_loop-Adds is (count_item s i (action_for ds i) (pinned_for ds i) head) ds head)

Tally-shrinks :
    {ds : List Decision} {head k t d b a : ℕ} {items : List Item}
    → Tally ds head items k t d b a
    → a ≤ b
Tally-shrinks nothing = omega arith
Tally-shrinks (one_kept i z y) = omega (arith, Tally-shrinks y)
Tally-shrinks (one_truncated i n z whole front which y) = omega (arith, Tally-shrinks y)
Tally-shrinks (one_dropped i z y) = omega (arith, Tally-shrinks y)

count_item-apply :
    (s : Stats) (i : Item) (act : Action) (pinned : Bool) (head : ℕ) (rest : List Item)
    → let c = count_item s i act pinned head in
      c.kept + c.truncated + length rest
      ≡ s.kept + s.truncated + length (add_some (apply_action head i act) rest)
unfolding count_item apply_action
count_item-apply s i keep pinned head rest = omega arith
count_item-apply s i truncate pinned head rest = omega arith
count_item-apply s i discard pinned head rest = omega arith

reduction_loop-apply :
    (items : List Item) (s : Stats) (ds : List Decision) (head : ℕ)
    → let r = reduction_loop s items ds head in
      r.kept + r.truncated ≡ s.kept + s.truncated + length (apply items ds head)
unfolding reduction_loop apply
reduction_loop-apply [] s ds head = omega arith
reduction_loop-apply (i ∷ is) s ds head = omega (
  arith,
  reduction_loop-apply is (count_item s i (action_for ds i) (pinned_for ds i) head) ds head,
  count_item-apply s i (action_for ds i) (pinned_for ds i) head (apply is ds head),
)

-- Reduction counts an item as kept, truncated or dropped by the last decision with its ID, and as kept
-- where there is none. Before are the characters of all items; after are those of the kept ones and of
-- each truncated one its characters or the head, whichever is less; dropped is the difference. Kept and
-- truncated items are as many as Apply leaves.
pub reduction_totals :
    (items : List Item) (decisions : List Decision) (head : ℕ)
    → let s = reduction items decisions head in
      Tally decisions head items s.kept s.truncated s.dropped s.chars_before s.chars_after
      × (s.chars_dropped + s.chars_after ≡ s.chars_before)
      × (s.kept + s.truncated ≡ length (apply items decisions head))
unfolding reduction Adds
reduction_totals items decisions head =
    let (k, t, d, b, a, y, e1, e2, e3, e4, e5) =
      reduction_loop-Adds items (no_stats (length items)) decisions head in
    let loop = reduction_loop (no_stats (length items)) items decisions head in
    let kept : loop.kept ≡ k = omega arith in
    let truncated : loop.truncated ≡ t = omega arith in
    let dropped : loop.dropped ≡ d = omega arith in
    let before : loop.chars_before ≡ b = omega arith in
    let after : loop.chars_after ≡ a = omega arith in
    (
      rw (kept, truncated, dropped, before, after) y,
      omega (arith, Tally-shrinks y),
      omega (arith, reduction_loop-apply items (no_stats (length items)) decisions head),
    )
