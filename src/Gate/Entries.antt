-- ===== src/Gate/Entries.antt =====
-- Looking up, adding and evicting entries of the store keeps its invariant.
use jev_routing.Prelude.{
  ℕ, ◌+◌, ◌<◌, ◌≤◌, ◌≡◌, refl, ap, ◌∙◌, inl, inr, true, false, some, List, [], ◌∷◌, ltb, ◌==◌,
  length, All, arith, Bool-cases, Option-cases,
}
use jev_routing.Text.{Str, str_eq}
use jev_routing.Gate.{
  Verdict, undecided, asking, Entry, Slot, Store, store_max, find_slot, delete_slot, set_entry,
  evict, trim_store, add_entry, entry, is_answer,
}

-- A verdict stays, or is asked for, or is answered.
pub data Moves : Verdict → Verdict → Type 0 where
  stays : {v : Verdict} → Moves v v
  starts : Moves undecided asking
  ends : {v : Verdict} → is_answer v ≡ true → Moves asking v

pub All-map : {P Q : ℕ → Type 0} (xs : List ℕ) → ((x : ℕ) → P x → Q x) → All P xs → All Q xs
All-map [] f a = tt
All-map (x ∷ xs) f a = (f x a.0, All-map xs f a.1)

abbrev pub Addressed : ℕ → List Slot → Type 0
Addressed n slots = All (λ x. x.address < n) slots

abbrev pub Distinct : List ℕ → Type 0
Distinct [] = Unit
Distinct (x ∷ xs) = All (λ y. (y == x) ≡ false) xs × Distinct xs

-- An entry that is being asked for.
abbrev pub Asked : Store → ℕ → Type 0
Asked s a = (a < s.free) × ((s.heap a).decision ≡ asking)

-- The addresses in use are allocated, and each pending one belongs to an entry that is being asked
-- for, by one request only.
pub record IsSound (s : Store) : Type 0 where
  pub allocated : Addressed s.free s.conv
  pub asked : All (Asked s) s.pending
  pub one_each : Distinct s.pending

-- `t` is `s` with new entries and other conversations.
pub record Extends (s t : Store) : Type 0 where
  pub old : (b : ℕ) → b < s.free → t.heap b ≡ s.heap b
  pub grows : s.free ≤ t.free
  pub held : t.pending ≡ s.pending
  pub named : Addressed t.free t.conv

delete-Addressed :
    (n : ℕ) (key : Str) (ss : List Slot) → Addressed n ss → Addressed n (delete_slot key ss)
unfolding delete_slot
delete-Addressed n key [] a = tt
delete-Addressed n key (s ∷ ss) a = elim (Bool-cases (str_eq s.key key)) [
  | inl gone ↦ rw gone (delete-Addressed n key ss a.1)
  | inr left ↦ rw left (a.0, delete-Addressed n key ss a.1)
]

weaken : (n : ℕ) (ss : List Slot) → Addressed n ss → Addressed (n + 1) ss
weaken n [] a = tt
weaken n (s ∷ ss) a = (omega (arith, a.0), weaken n ss a.1)

evict-Extends : (order : List Str) (s t : Store) → Extends s t → Extends s (evict order t)
unfolding evict
evict-Extends [] s t x = x
evict-Extends (oldest ∷ rest) s t x = record {
  old = x.old;
  grows = x.grows;
  held = x.held;
  named = delete-Addressed t.free oldest t.conv x.named;
}

trim-Extends : (s t : Store) → Extends s t → Extends s (trim_store t)
unfolding trim_store
trim-Extends s t x = elim (Bool-cases (ltb store_max (length t.order))) [
  | inl over ↦ rw over (evict-Extends t.order s t x)
  | inr fits ↦ rw fits x
]

below-differs : (b n : ℕ) → b < n → (b == n) ≡ false
below-differs b n h = ground arith

evict-free : (order : List Str) (t : Store) → (evict order t).free ≡ t.free
unfolding evict
evict-free [] t = refl
evict-free (x ∷ xs) t = refl

trim-free : (t : Store) → (trim_store t).free ≡ t.free
unfolding trim_store
trim-free t = elim (Bool-cases (ltb store_max (length t.order))) [
  | inl over ↦ rw over (evict-free t.order t)
  | inr fits ↦ rw fits
]

find-Addressed :
    (n : ℕ) (ss : List Slot) (key : Str) (a : ℕ)
    → Addressed n ss
    → find_slot ss key ≡ some a
    → a < n
unfolding find_slot
find-Addressed n [] key a h e = cc
find-Addressed n (s ∷ ss) key a h e = ground (arith, find-Addressed n ss key a, h.0, h.1)

add-Extends : (key : Str) (s : Store) → IsSound s → Extends s (add_entry key s)
unfolding add_entry set_entry
add-Extends key s i = trim-Extends s _ (record {
  old = λ b below. rw (below-differs b s.free below) refl;
  grows = omega arith;
  held = refl;
  named = (omega arith, weaken s.free s.conv i.allocated);
})

pub entry-Extends : (key : Str) (s : Store) → IsSound s → Extends s (entry key s).store
unfolding entry
entry-Extends key s i = elim (Option-cases (find_slot s.conv key)) [
  | inl fresh ↦ rw (fresh, entry) (add-Extends key s i)
  | inr (a, found) ↦
      rw (found, entry)
        (record { old = λ b h. refl; grows = omega arith; held = refl; named = i.allocated })
]

pub entry-allocated :
    (key : Str) (s : Store) → IsSound s → (entry key s).address < (entry key s).store.free
unfolding entry add_entry set_entry
entry-allocated key s i = elim (Option-cases (find_slot s.conv key)) [
  | inl fresh ↦ rw (fresh, entry) (rw (trim-free _) (omega arith))
  | inr (a, found) ↦ rw (found, entry) (find-Addressed s.free s.conv key a i.allocated found)
]

-- Where a store extends another, the invariant still holds.
extended : (s t : Store) → IsSound s → Extends s t → IsSound t
extended s t i x = record {
  allocated = x.named;
  asked = rw x.held (
      All-map s.pending
        (λ a h. (omega (arith, h.0, x.grows), ap (λ (e : Entry). e.decision) (x.old a h.0) ∙ h.1))
        i.asked);
  one_each = rw x.held i.one_each;
}

pub entry-IsSound : (key : Str) (s : Store) → IsSound s → IsSound (entry key s).store
entry-IsSound key s i = extended s (entry key s).store i (entry-Extends key s i)

-- Every entry of `s` has moved along.
abbrev pub AllMove : Store → Store → Type 0
AllMove s t = (a : ℕ) → a < s.free → Moves (s.heap a).decision (t.heap a).decision

Extends-AllMove : (s t : Store) → Extends s t → AllMove s t
Extends-AllMove s t x a h = rw (x.old a h) stays

-- what a step from `s` to `t` has to show
abbrev pub Good : Store → Store → Type 0
Good s t = IsSound t × AllMove s t
