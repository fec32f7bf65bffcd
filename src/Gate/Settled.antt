-- ===== src/Gate/Settled.antt =====
-- How the verdict of an entry moves, whatever order the requests' sections run in.
use jev_routing.Prelude.{
  ℕ, ◌<◌, ◌≡◌, refl, sym, ap, ◌∙◌, ◌⊎◌, inl, inr, true, false, List, [], ◌∷◌, ◌++◌, ◌==◌,
  if◌then◌else◌, All, arith, Bool-cases,
}
use jev_routing.Text.{Str, is_blank}
use jev_routing.Gate.{
  Verdict, undecided, asking, clear, keep_results, failed, Entry, Store, set_entry, entry, observe,
  too_early, open_gate, enter_gate, leave_gate, is_answer, Step, observes, enters, leaves,
}
use jev_routing.Gate.Entries.{
  Moves, stays, starts, ends, All-map, Distinct, Asked, IsSound, Extends, entry-Extends,
  entry-allocated, entry-IsSound, AllMove, Good,
}

same_address : (a b : ℕ) → (b == a) ≡ true → b ≡ a
same_address a b h = ground arith

set-AllMove :
    (s : Store) (a : ℕ) (e : Entry)
    → Moves (s.heap a).decision e.decision
    → AllMove s (set_entry a e s)
unfolding set_entry
set-AllMove s a e m b h = elim (Bool-cases (b == a)) [
  | inl this ↦ rw this (rw (same_address a b this) m)
  | inr other ↦ rw other stays
]

after-AllMove : (s t u : Store) → Extends s t → AllMove t u → AllMove s u
after-AllMove s t u x m a h =
    let moved : Moves (t.heap a).decision (u.heap a).decision = m a (omega (arith, x.grows)) in
    rw (x.old a h) at moved

-- Writing an entry that nobody asks for, or without a change of its verdict.
set-IsSound :
    (s : Store) (a : ℕ) (e : Entry)
    → All (λ b. (b == a) ≡ false) s.pending ⊎ (e.decision ≡ (s.heap a).decision)
    → IsSound s
    → IsSound (set_entry a e s)
unfolding set_entry
set-IsSound s a e (inl apart) i = record {
  allocated = i.allocated;
  asked = both s.pending apart i.asked;
  one_each = i.one_each;
}
  where
    both :
        (xs : List ℕ)
        → All (λ b. (b == a) ≡ false) xs
        → All (λ b. (b < s.free) × ((s.heap b).decision ≡ asking)) xs
        → All (λ b. (b < s.free) × ((if b == a then e else s.heap b).decision ≡ asking)) xs
    both [] p q = tt
    both (x ∷ xs) p q = ((q.0.0, rw p.0 q.0.1), both xs p.1 q.1)
set-IsSound s a e (inr same) i = record {
  allocated = i.allocated;
  asked =
      All-map s.pending
        (λ b h. (
          h.0,
          elim (Bool-cases (b == a)) [
            | inl this ↦
                rw this
                  (same ∙ (ap (λ (x : ℕ). (s.heap x).decision) (sym (same_address a b this)) ∙ h.1))
            | inr other ↦ rw other h.1
          ],
        ))
        i.asked;
  one_each = i.one_each;
}

drop-All :
    (P : ℕ → Type 0) (front back : List ℕ) (a : ℕ)
    → All P (front ++ (a ∷ back))
    → All P (front ++ back)
drop-All P [] back a h = h.1
drop-All P (x ∷ front) back a h = (h.0, drop-All P front back a h.1)

at-All : (P : ℕ → Type 0) (front back : List ℕ) (a : ℕ) → All P (front ++ (a ∷ back)) → P a
at-All P [] back a h = h.0
at-All P (x ∷ front) back a h = at-All P front back a h.1

flip_differs : (a b : ℕ) → (a == b) ≡ false → (b == a) ≡ false
flip_differs a b h = ground arith

drop-Distinct :
    (front back : List ℕ) (a : ℕ)
    → Distinct (front ++ (a ∷ back))
    → Distinct (front ++ back) × All (λ b. (b == a) ≡ false) (front ++ back)
drop-Distinct [] back a d = (d.1, d.0)
drop-Distinct (x ∷ front) back a d =
    let later = drop-Distinct front back a d.1 in
    (
      (drop-All (λ y. (y == x) ≡ false) front back a d.0, later.0),
      (flip_differs a x (at-All (λ y. (y == x) ≡ false) front back a d.0), later.1),
    )

observe-Good : (key : Str) (n : ℕ) (s : Store) → IsSound s → Good s (observe key n s)
unfolding observe
observe-Good key n s i = elim (Bool-cases (is_blank key)) [
  | inl none_given ↦ rw none_given (i, λ a h. stays)
  | inr given ↦
      let p = entry key s in
      let e = p.store.heap p.address in
      let e2 : Entry = record e { last_ctx = n; observed = true } in
      rw given (
        set-IsSound p.store p.address e2 (inr refl) (entry-IsSound key s i),
        after-AllMove s p.store (set_entry p.address e2 p.store) (entry-Extends key s i)
            (set-AllMove p.store p.address e2 stays),
      )
]

self_address : (a : ℕ) → (a == a) ≡ true
self_address a = ground arith

-- A request takes hold of an entry that it asks for.
hold :
    (s : Store) (a : ℕ) (e : Entry)
    → a < s.free
    → e.decision ≡ asking
    → All (λ b. (b == a) ≡ false) s.pending
    → IsSound (set_entry a e s)
    → IsSound (record (set_entry a e s) { pending = a ∷ s.pending })
unfolding set_entry
hold s a e below asks apart k = record {
  allocated = k.allocated;
  asked = ((below, rw (self_address a) asks), k.asked);
  one_each = (apart, k.one_each);
}

open_gate-Good :
    (trigger at_least eligible a : ℕ) (v : Verdict) (s : Store)
    → a < s.free
    → (s.heap a).decision ≡ v
    → IsSound s
    → Good s (open_gate trigger at_least eligible a (s.heap a) v s).store
unfolding open_gate
open_gate-Good trigger at_least eligible a clear s below is i = (i, λ b h. stays)
open_gate-Good trigger at_least eligible a keep_results s below is i = (i, λ b h. stays)
open_gate-Good trigger at_least eligible a failed s below is i = (i, λ b h. stays)
open_gate-Good trigger at_least eligible a asking s below is i = (i, λ b h. stays)
open_gate-Good trigger at_least eligible a undecided s below is i =
    elim (Bool-cases (too_early trigger at_least eligible (s.heap a))) [
      | inl early ↦ rw early (i, λ b h. stays)
      | inr due ↦ rw due (
        hold s a e below refl apart (set-IsSound s a e (inl apart) i),
        set-AllMove s a e (rw is starts),
      )
    ]
  where
    e : Entry
    e = record (s.heap a) { decision = asking }

    apart : All (λ b. (b == a) ≡ false) s.pending
    apart =
        All-map s.pending
          (λ b h. elim (Bool-cases (b == a)) [
            | inr other ↦ other
            | inl this ↦
                let k : asking ≡ undecided =
                  sym h.1 ∙ (ap (λ (x : ℕ). (s.heap x).decision) (same_address a b this) ∙ is) in
                cc
          ])
          i.asked

leave-Good :
    (front back : List ℕ) (a : ℕ) (verdict : Verdict) (reason : Str) (s : Store)
    → s.pending ≡ front ++ (a ∷ back)
    → is_answer verdict ≡ true
    → IsSound s
    → Good s (leave_gate a verdict reason (record s { pending = front ++ back }))
unfolding leave_gate
leave-Good front back a verdict reason s held answer i =
    let asked = rw held at i.asked in
    let one = drop-Distinct front back a (rw held at i.one_each) in
    let t : Store = record s { pending = front ++ back } in
    let e : Entry = record (s.heap a) { decision = verdict; reason = reason } in
    let was : (s.heap a).decision ≡ asking = (at-All (Asked s) front back a asked).1 in
    (
      set-IsSound t a e (inl one.1) (record {
        allocated = i.allocated;
        asked = drop-All (Asked s) front back a asked;
        one_each = one.0;
      }),
      set-AllMove t a e (rw was (ends answer)),
    )

enter-Good :
    (trigger at_least eligible : ℕ) (key : Str) (s : Store)
    → IsSound s
    → Good s (enter_gate trigger at_least eligible key s).store
unfolding enter_gate
enter-Good trigger at_least eligible key s i =
    let p = entry key s in
    let g =
      open_gate-Good trigger at_least eligible p.address (p.store.heap p.address).decision p.store
        (entry-allocated key s i) refl (entry-IsSound key s i) in
    (
      g.0,
      after-AllMove s p.store (enter_gate trigger at_least eligible key s).store
          (entry-Extends key s i) g.1,
    )

-- Every locked section, of whichever request, keeps the invariant of the store, and the verdict of
-- each entry that the store had before stays, or goes from undecided to asking, or from asking to
-- an answer.
pub moves_along : (s t : Store) → IsSound s → Step s t → IsSound t × AllMove s t
moves_along s _ i (observes key n) = observe-Good key n s i
moves_along s _ i (enters trigger at_least eligible key) =
    enter-Good trigger at_least eligible key s i
moves_along s _ i (leaves front back a verdict reason held answer) =
    leave-Good front back a verdict reason s held answer i
