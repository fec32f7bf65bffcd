-- ===== src/Compact/Kept/Prose.antt =====
-- What Compact returns: that it returns at all, and what stays of the history.
use jev_routing.Prelude.{
  ℕ, ◌≡◌, refl, ◌∙◌, ◌⊎◌, inl, inr, true, false, none, some, List, [], ◌∷◌, map, arith,
  if◌then◌else◌, All, ok, Bool-cases, Option-cases,
}
use jev_routing.Text.{Str, str_eq}
use jev_routing.Compact.{
  Action, keep, truncate, discard, Item, Decision, Candidate, Options, Answers, is_text,
  decide_scores, decide_pair, decide_single_score, keep_pinned, decide_items, decide_call, resolve,
  resolve_recent,
}
use jev_routing.Compact.Candidates.{add_some, collect_candidates}
use jev_routing.Compact.Apply.{
  decision_of, action_for, apply_action, apply, result_with, Result, compact,
}
use jev_routing.Compact.Kept.Shape.{IsShaped, AllShaped, collect-AllShaped}
use jev_routing.Compact.Kept.Decided.{Decides, decide_all-Decides, collected-Decide}

units : (is : List Item) → All (λ i. is_text i.kind ≡ false → Unit {0}) is
units [] = tt
units (i ∷ is) = (λ h. tt, units is)

-- For every history, all answers and all options, no candidate is empty when its first item is read.
pub compact_total :
    (items : List Item) (answers : Answers) (o : Options)
    → (r : Result) × (compact items answers o ≡ ok r)
unfolding compact
compact_total items answers o =
    let d =
      collected-Decide (λ s. Unit) items (resolve_recent o.preserve_recent) answers
        (resolve o).keep_threshold (units items) in
    (result_with items d.0 (resolve o).truncate_head_chars, rw (d.1) refl)

-- `strings` of a kind that a decision keeps
abbrev Keeps : Decision → Type 0
Keeps d = d.action ≡ keep

decision_of-Keeps :
    (ds : List Decision) (id : Str)
    → All Keeps ds
    → (d : Decision) → decision_of ds id ≡ some d
    → d.action ≡ keep
unfolding decision_of
decision_of-Keeps [] id a d e = cc
decision_of-Keeps (x ∷ ds) id a d e = ground (arith, decision_of-Keeps ds id a.1 d, a.0)

action_for-keep : (ds : List Decision) (i : Item) → All Keeps ds → action_for ds i ≡ keep
unfolding action_for
action_for-keep ds i a = elim (Option-cases (decision_of ds i.id)) [
  | inl missing ↦ rw (missing, action_for)
  | inr found ↦ rw (found.1, action_for) (decision_of-Keeps ds i.id a found.0 found.1)
]

apply-keep :
    (items : List Item) (ds : List Decision) (head : ℕ) → All Keeps ds → apply items ds head ≡ items
unfolding apply apply_action
apply-keep [] ds head a = refl
apply-keep (i ∷ is) ds head a = rw (action_for-keep ds i a, apply-keep is ds head a)

pinned-Keeps : (is : List Item) → All Keeps (map keep_pinned is)
unfolding keep_pinned
pinned-Keeps [] = tt
pinned-Keeps (i ∷ is) = (refl, pinned-Keeps is)

-- the map without an entry
abbrev pub no_answers : Answers
no_answers = λ id. none

unanswered :
    (is : List Item) (t : ℕ)
    → IsShaped (λ i. Unit) is
    → Decides Keeps (decide_items is no_answers t)
unfolding decide_items decide_pair decide_scores decide_single_score
unanswered [] t s = absurd s
unanswered (i ∷ []) t s = (_, refl, (refl, tt))
unanswered (i ∷ j ∷ []) t s = (_, refl, (refl, (refl, tt)))
unanswered (i ∷ j ∷ k ∷ is) t s = (_, refl, (refl, tt))

unanswered-Keeps :
    (cs : List Candidate) (t : ℕ)
    → AllShaped (λ i. Unit) cs
    → All (λ c. Decides Keeps (decide_call c no_answers t)) cs
unfolding decide_call
unanswered-Keeps [] t a = tt
unanswered-Keeps (c ∷ cs) t a = (one (Bool-cases c.pinned), unanswered-Keeps cs t a.1)
  where
    one :
        (c.pinned ≡ true) ⊎ (c.pinned ≡ false)
        → Decides Keeps
            (if c.pinned then ok (map keep_pinned c.items) else decide_items c.items no_answers t)
    one (inl pinned) = rw pinned (map keep_pinned c.items, refl, pinned-Keeps c.items)
    one (inr free) = rw free (unanswered c.items t a.0)

-- Where no candidate has an answer, Compact returns the history as it was.
pub compact_unanswered :
    (items : List Item) (o : Options)
    → (r : Result) × (compact items no_answers o ≡ ok r) × (r.items ≡ items)
unfolding compact
compact_unanswered items o =
    let cs = collect_candidates items (resolve_recent o.preserve_recent) in
    let t = (resolve o).keep_threshold in
    let d = decide_all-Decides Keeps cs no_answers t (
      unanswered-Keeps cs t
        (collect-AllShaped (λ i. Unit) items (resolve_recent o.preserve_recent) (units items))) in
    (
      result_with items d.0 (resolve o).truncate_head_chars,
      rw (d.1) refl,
      apply-keep items d.0 (resolve o).truncate_head_chars d.2,
    )

-- The messages of a history, in their order.
unfoldable pub prose : List Item → List Item
prose [] = []
prose (i ∷ is) = let rest = prose is in if is_text i.kind then i ∷ rest else rest

-- The ID of no message.
abbrev pub Foreign : List Item → Str → Type 0
Foreign is id = All (λ m. is_text m.kind ≡ true → str_eq id m.id ≡ false) is

-- No item that is no message has the ID of a message.
abbrev pub Apart : List Item → Type 0
Apart items = All (λ i. is_text i.kind ≡ false → Foreign items i.id) items

undecided :
    (ds : List Decision) (id : Str)
    → All (λ d. str_eq d.id id ≡ false) ds
    → decision_of ds id ≡ none
unfolding decision_of
undecided [] id a = refl
undecided (d ∷ ds) id a = rw (undecided ds id a.1, a.0)

action_for-undecided :
    (ds : List Decision) (i : Item)
    → All (λ d. str_eq d.id i.id ≡ false) ds
    → action_for ds i ≡ keep
unfolding action_for
action_for-undecided ds i a = rw (undecided ds i.id a, action_for)

-- the decisions do not name `m`
abbrev Spares : List Decision → Item → Type 0
Spares ds m = All (λ d. str_eq d.id m.id ≡ false) ds

spared :
    (is : List Item) (ds : List Decision)
    → All (λ d. Foreign is d.id) ds
    → All (λ m. is_text m.kind ≡ true → Spares ds m) is
spared [] ds a = tt
spared (m ∷ is) ds a = (λ h. first ds h a, spared is ds (later ds a))
  where
    first :
        (es : List Decision)
        → is_text m.kind ≡ true
        → All (λ d. Foreign (m ∷ is) d.id) es
        → Spares es m
    first [] h b = tt
    first (e ∷ es) h b = (b.0.0 h, first es h b.1)

    later :
        (es : List Decision) → All (λ d. Foreign (m ∷ is) d.id) es → All (λ d. Foreign is d.id) es
    later [] b = tt
    later (e ∷ es) b = (b.0.1, later es b.1)

apply_action-prose :
    (head : ℕ) (i : Item) (a : Action) (rest : List Item)
    → is_text i.kind ≡ false
    → prose (add_some (apply_action head i a) rest) ≡ prose rest
unfolding prose apply_action
apply_action-prose head i keep rest h = rw h refl
apply_action-prose head i truncate rest h = rw h refl
apply_action-prose head i discard rest h = refl

apply-prose :
    (is : List Item) (ds : List Decision) (head : ℕ)
    → All (λ m. is_text m.kind ≡ true → Spares ds m) is
    → prose (apply is ds head) ≡ prose is
unfolding apply prose apply_action
apply-prose [] ds head a = refl
apply-prose (i ∷ is) ds head a = elim (Bool-cases (is_text i.kind)) [
  | inl message ↦
      rw (action_for-undecided ds i (a.0 message), message, apply-prose is ds head a.1) refl
  | inr tool ↦
      apply_action-prose head i (action_for ds i) (apply is ds head) tool
      ∙ (apply-prose is ds head a.1 ∙ rw tool refl)
]

-- Where no tool item or summary shares its ID with a message, Compact returns every message
-- unchanged and in its order, whatever the answers are.
pub prose-compact :
    (items : List Item) (answers : Answers) (o : Options)
    → Apart items
    → (r : Result) × (compact items answers o ≡ ok r) × (prose r.items ≡ prose items)
unfolding compact
prose-compact items answers o apart =
    let d =
      collected-Decide (Foreign items) items (resolve_recent o.preserve_recent) answers
        (resolve o).keep_threshold apart in
    (
      result_with items d.0 (resolve o).truncate_head_chars,
      rw (d.1) refl,
      apply-prose items d.0 (resolve o).truncate_head_chars (spared items d.0 d.2),
    )
