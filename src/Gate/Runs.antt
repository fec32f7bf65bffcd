-- ===== src/Gate/Runs.antt =====
-- Any number of locked sections of the clear gate.
use jev_routing.Prelude.{
  ℕ, ◌≤◌, ◌<◌, ◌≡◌, refl, ◌∙◌, Bool, true, false, if◌then◌else◌, arith, Bool-cases, inl, inr,
}
use jev_routing.Text.{Str, is_blank}
use jev_routing.Gate.{
  Verdict, undecided, asking, clear, keep_results, failed, Entry, Store, set_entry, entry, observe,
  too_early, open_gate, enter_gate, leave_gate, is_answer, Step, observes, enters, leaves,
}
use jev_routing.Gate.Entries.{Moves, stays, starts, ends, IsSound, entry-Extends}
use jev_routing.Gate.Settled.{moves_along}

-- Any number of locked sections, of any requests.
pub data Run : Store → Store → Type 0 where
  rests : {s : Store} → Run s s
  goes_on : {s t u : Store} → Step s t → Run t u → Run s u

if-free : (n : ℕ) (b : Bool) (s t : Store) → n ≤ s.free → n ≤ t.free → n ≤ (if b then s else t).free
if-free n true s t hs ht = hs
if-free n false s t hs ht = ht

observe-free : (key : Str) (n : ℕ) (s : Store) → IsSound s → s.free ≤ (observe key n s).free
unfolding observe set_entry
observe-free key n s i =
    let x = entry-Extends key s i in if-free s.free (is_blank key) _ _ (omega arith) x.grows

open_gate-free :
    (trigger at_least eligible a : ℕ) (e : Entry) (v : Verdict) (s : Store)
    → s.free ≤ (open_gate trigger at_least eligible a e v s).store.free
unfolding open_gate set_entry
open_gate-free trigger at_least eligible a e clear s = omega arith
open_gate-free trigger at_least eligible a e keep_results s = omega arith
open_gate-free trigger at_least eligible a e failed s = omega arith
open_gate-free trigger at_least eligible a e asking s = omega arith
open_gate-free trigger at_least eligible a e undecided s =
    elim (Bool-cases (too_early trigger at_least eligible e)) [
      | inl early ↦ rw early (omega arith)
      | inr due ↦ rw due (omega arith)
    ]

Step-free : (s t : Store) → IsSound s → Step s t → s.free ≤ t.free
unfolding enter_gate leave_gate set_entry
Step-free s _ i (observes key n) = observe-free key n s i
Step-free s _ i (enters trigger at_least eligible key) =
    let x = entry-Extends key s i in
    let p = entry key s in
    let later =
      open_gate-free trigger at_least eligible p.address (p.store.heap p.address)
        (p.store.heap p.address).decision p.store in
    omega (arith, x.grows, later)
Step-free s _ i (leaves front back a verdict reason held answer) = omega arith

answer-stays : (v w : Verdict) → Moves v w → is_answer v ≡ true → w ≡ v
answer-stays v _ stays h = refl
answer-stays _ _ starts h = absurd (ground arith)
answer-stays _ w (ends answer) h = absurd (ground arith)

-- Once an entry of the store has an answer, clear or not, it has this answer after any further
-- locked sections of any requests.
pub Run-decision :
    (s t : Store) (a : ℕ)
    → IsSound s
    → Run s t
    → a < s.free
    → is_answer (s.heap a).decision ≡ true
    → (t.heap a).decision ≡ (s.heap a).decision
Run-decision s _ a i rests below answer = refl
Run-decision s u a i (goes_on {t = t} step run) below answer =
    let (sound, moved) = moves_along s t i step in
    let same = answer-stays _ _ (moved a below) answer in
    let grown = Step-free s t i step in
    Run-decision t u a sound run (omega (arith, grown)) (rw same answer) ∙ same
