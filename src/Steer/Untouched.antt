-- ===== src/Steer/Untouched.antt =====
-- On what grounds rewriteCodexSteer changes a request.
use jev_routing.Prelude.{
  ℕ, ◌≤◌, ◌≡◌, refl, ap, ◌⊎◌, inl, inr, Bool, true, false, not, Option, none, some, List, map, ltb,
  if◌then◌else◌, arith, Option-cases, String,
}
use jev_routing.Text.{lit, str_eq}
use jev_routing.Json.{Members, string, get, set}
use jev_routing.Text.Laws.{str_eq_iff}
use jev_routing.Steer.{SteerTool, declared_tools, tools_from}
use jev_routing.Steer.Turns.{turns_from}
use jev_routing.Steer.Turns.Limits.{build_state, tool_criteria}
use jev_routing.Steer.Decide.{
  Picked, SteerAnswers, Classifier, Services, unapplied, forced, codex_none, Steered,
  tool_choice_state, find_tool, untouched, pass_through, choice_key, no_tool, is_hosted,
  forced_choice, force, no_tool_steered, tool_steered, disagree, weigh, steer_answers, allows_none,
  with_none, steer_client, steer_tools, steer, no_tools, is_decided, no_turns, json_truthy,
}

-- Nothing is changed.
abbrev pub Kept : Members → Steered → Type 0
Kept root s = (s.apply ≡ unapplied) × (s.changed ≡ false) × (s.out ≡ root)

-- The classifier said that no tool is needed, and the request asks for none.
abbrev pub Waived : (Picked → ℕ → Type 0) → Members → Steered → Type 0
Waived Given root s =
    (p : Picked) × (n : ℕ) × Given p n
    × (p.choice ≡ no_tool)
    × (700000 ≤ p.confidence)
    × (n ≤ 700000)
    × (s.apply ≡ codex_none)
    × (s.changed ≡ true)
    × (s.out ≡ set choice_key (string (lit "none")) root)

-- The classifier picked a tool, and the request asks for this tool.
abbrev pub Forced : (Picked → ℕ → Type 0) → Members → List SteerTool → Steered → Type 0
Forced Given root tools s =
    (p : Picked) × (n : ℕ) × (t : SteerTool) × Given p n
    × (700000 ≤ p.confidence)
    × (300000 ≤ n)
    × (find_tool tools p.choice ≡ some t)
    × (is_hosted t.kind ≡ false)
    × (t.namespaced ≡ false)
    × (s.apply ≡ forced)
    × (s.changed ≡ true)
    × (s.forced_tool ≡ p.choice)
    × (s.out ≡ set choice_key (forced_choice t p.choice) root)

unfoldable pub Abides : (Picked → ℕ → Type 0) → Members → List SteerTool → Steered → Type 0
Abides Given root tools s = Kept root s ⊎ (Waived Given root s ⊎ Forced Given root tools s)

module _ (Given : Picked → ℕ → Type 0) (root : Members) (tools : List SteerTool) where
  kept : (s : Steered) → Kept root s → Abides Given root tools s
  unfolding Abides
  kept s k = inl k

  if-Abides :
      (b : Bool) (x y : Steered)
      → (b ≡ true → Abides Given root tools x)
      → (b ≡ false → Abides Given root tools y)
      → Abides Given root tools (if b then x else y)
  if-Abides true x y f g = f refl
  if-Abides false x y f g = g refl

  module _ (s : Steered) (same : Kept root s) where
    pass-Abides : (reason : String) → Abides Given root tools (pass_through s reason)
    pass-Abides reason = kept (pass_through s reason) same

    waived :
        (p : Picked) (n : ℕ)
        → Given p n
        → ltb p.confidence 700000 ≡ false
        → ltb 700000 n ≡ false
        → not (str_eq p.choice no_tool) ≡ false
        → Abides Given root tools (no_tool_steered s)
    unfolding Abides
    waived p n g sure few plain = inr (
        inl (
          p,
          n,
          g,
          (str_eq_iff p.choice no_tool).0 (ground arith),
          ground arith,
          ground arith,
          refl,
          refl,
          ap (set choice_key (string (lit "none"))) same.2,
        ))

    taken :
        (p : Picked) (n : ℕ) (t : SteerTool)
        → Given p n
        → ltb p.confidence 700000 ≡ false
        → ltb n 300000 ≡ false
        → find_tool tools p.choice ≡ some t
        → is_hosted t.kind ≡ false
        → t.namespaced ≡ false
        → Abides Given root tools (tool_steered s t p.choice)
    unfolding Abides
    taken p n t g sure needed found own flat = inr (
        inr (
          p,
          n,
          t,
          g,
          ground arith,
          ground arith,
          found,
          own,
          flat,
          refl,
          refl,
          refl,
          ap (set choice_key (forced_choice t p.choice)) same.2,
        ))

    force-Abides :
        (p : Picked) (n : ℕ)
        → Given p n
        → ltb p.confidence 700000 ≡ false
        → ltb n 300000 ≡ false
        → Abides Given root tools (force s p.choice (find_tool tools p.choice))
    unfolding force
    force-Abides p n g sure needed = elim (Option-cases (find_tool tools p.choice)) [
      | inl missing ↦ rw missing (pass-Abides "jev_unknown_tool")
      | inr (t, found) ↦ rw found (
          if-Abides (is_hosted t.kind) _ _ (λ e. pass-Abides "hosted_tool_selected")
            (λ own.
              if-Abides t.namespaced _ _ (λ e. pass-Abides "namespaced_tool_selected")
                (taken p n t g sure needed found own)))
    ]

    weigh-Abides : (p : Picked) (n : ℕ) → Given p n → Abides Given root tools (weigh s tools p n)
    unfolding weigh disagree
    weigh-Abides p n g =
        if-Abides (ltb p.confidence 700000) _ _ (λ e. pass-Abides "low_confidence")
          (λ sure.
            if-Abides (disagree (not (str_eq p.choice no_tool)) n) _ _
              (λ e. pass-Abides "jev_answers_disagree")
              (λ agreed.
                if-Abides (not (str_eq p.choice no_tool)) _ _
                  (λ wants. force-Abides p n g sure (rw wants at agreed))
                  (λ plain. waived p n g sure (rw plain at agreed) plain)))

    answers-Abides :
        (o : Option SteerAnswers)
        → ((p : Picked) (n : ℕ) → o ≡ some (record { picked = some p; needs = some n }) → Given p n)
        → Abides Given root tools (steer_answers s tools o)
    unfolding steer_answers
    answers-Abides none given = kept _ same
    answers-Abides (some a) given = by_picked a.picked refl a.needs refl
      where
        by_picked :
            (op : Option Picked)
            → a.picked ≡ op
            → (on : Option ℕ) → a.needs ≡ on
            → Abides Given root tools (elim op [
              | none ↦ pass_through s "jev_unexpected_answer"
              | some p ↦ elim on [
                | none ↦ pass_through s "jev_unexpected_answer"
                | some n ↦ weigh s tools p n
              ]
            ])
        by_picked none e on h = pass-Abides "jev_unexpected_answer"
        by_picked (some p) e none h = pass-Abides "jev_unexpected_answer"
        by_picked (some p) e (some n) h =
            weigh-Abides p n (given p n (λ i. some (record { picked = e i; needs = h i })))

-- The client's answers to the question that this request gives.
abbrev pub Answered : Services → Members → Picked → ℕ → Type 0
Answered v root p n =
    let c = turns_from v.marshal root in
    let allow = allows_none (tool_choice_state (get choice_key root)) in
    (ask : Classifier) × (v.client ≡ some ask)
    × (ask (build_state v.marshal c.system c.turns)
          (with_none allow (tool_criteria v.visit (tools_from (declared_tools root)).tools))
        ≡ some (record { picked = some p; needs = some n }))

pub steer-Abides :
    (v : Services) (root : Members)
    → Abides (Answered v root) root (tools_from (declared_tools root)).tools (steer v root)
unfolding steer steer_tools steer_client
steer-Abides v root =
    let tools = (tools_from (declared_tools root)).tools in
    let s = record (untouched root) { candidate_names = map (λ (t : SteerTool). t.name) tools } in
    let c = turns_from v.marshal root in
    let still = if-Abides (Answered v root) root tools in
    let skip : (r : String)
        → Abides (Answered v root) root tools (pass_through (untouched root) r) =
      pass-Abides (Answered v root) root tools (untouched root) (refl, refl, refl) in
    let late : (r : String) → Abides (Answered v root) root tools (pass_through s r) =
      pass-Abides (Answered v root) root tools s (refl, refl, refl) in
    still (json_truthy (get (lit "previous_response_id") root)) _ _
      (λ e. skip "previous_response_id")
      (λ e.
        still (is_decided (tool_choice_state (get choice_key root))) _ _
          (λ e. skip "tool_choice_already_decided")
          (λ e.
            still (tools_from (declared_tools root)).duplicate _ _
              (λ e. skip "duplicate_tool_names")
              (λ e.
                still (no_tools tools) _ _ (λ e. skip "no_tools")
                  (λ e.
                    still c.agent _ _ (λ e. late "agent_message")
                      (λ e.
                        still (no_turns c.turns) _ _ (λ e. late "no_messages")
                          (λ e. by_client s (refl, refl, refl) v.client refl))))))
  where
    by_client :
        (s : Steered)
        → Kept root s
        → (client : Option Classifier) → v.client ≡ client
        → Abides (Answered v root) root (tools_from (declared_tools root)).tools (
            steer_client v root
              (tools_from (declared_tools root)).tools
              (turns_from v.marshal root)
              s
              client)
    by_client s same none e =
        pass-Abides (Answered v root) root (tools_from (declared_tools root)).tools s same
          "key_missing"
    by_client s same (some ask) e =
        answers-Abides (Answered v root) root (tools_from (declared_tools root)).tools
          (record s { asked = true }) same _ (λ p n h. (ask, e, h))
