-- ===== src/Steer/Again.antt =====
-- What rewriteCodexSteer does with its own result.
use jev_routing.Prelude.{◌≡◌, refl, inl, inr, true, false, some, arith, Bool-cases}
use jev_routing.Text.{lit, str_eq}
use jev_routing.Json.{Json, Members, string, get, set}
use jev_routing.Json.Laws.{get-set}
use jev_routing.Steer.{declared_tools, tools_from}
use jev_routing.Steer.Decide.{
  Services, Steered, tool_choice_state, choice_key, forced_choice, steer, is_decided, json_truthy,
}
use jev_routing.Steer.Untouched.{Kept, Abides, Answered, steer-Abides}

-- Nothing is changed, and the classifier is not asked.
abbrev pub LeftAlone : Members → Steered → Type 0
LeftAlone root s = Kept root s × (s.asked ≡ false)

decided-LeftAlone :
    (w : Services) (root : Members)
    → is_decided (tool_choice_state (get choice_key root)) ≡ true
    → LeftAlone root (steer w root)
unfolding steer
decided-LeftAlone w root h =
    elim (Bool-cases (json_truthy (get (lit "previous_response_id") root))) [
      | inl t ↦ rw t ((refl, refl, refl), refl)
      | inr t ↦ rw t (rw h ((refl, refl, refl), refl))
    ]

set-decided :
    (v : Json) (root out : Members)
    → is_decided (tool_choice_state (some v)) ≡ true
    → out ≡ set choice_key v root
    → is_decided (tool_choice_state (get choice_key out)) ≡ true
set-decided v root out h e = rw (e, get-set choice_key v root) h

none_decided : is_decided (tool_choice_state (some (string (lit "none")))) ≡ true
unfolding tool_choice_state str_eq lit
none_decided = refl

decided_by :
    (v w : Services) (root : Members) (s : Steered)
    → Abides (Answered v root) root (tools_from (declared_tools root)).tools s
    → s.changed ≡ true
    → LeftAlone s.out (steer w s.out)
unfolding Abides tool_choice_state forced_choice
decided_by v w root s (inl (a, c, e)) changed = absurd (ground arith)
decided_by v w root s (inr (inl (p, n, g, c, h, l, a, d, e))) changed =
    decided-LeftAlone w s.out (set-decided _ root s.out none_decided e)
decided_by v w root s (inr (inr (p, n, t, g, h, l, f, k, ns, a, d, c, e))) changed =
    decided-LeftAlone w s.out (set-decided _ root s.out refl e)

-- Where rewriteCodexSteer changed a request, a second call on its result, with whatever classifier,
-- order of maps and encoding it then finds, changes nothing and does not ask the classifier.
pub steer-steer :
    (v w : Services) (root : Members)
    → (steer v root).changed ≡ true
    → LeftAlone (steer v root).out (steer w (steer v root).out)
steer-steer v w root = decided_by v w root (steer v root) (steer-Abides v root)
