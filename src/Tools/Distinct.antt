-- ===== src/Tools/Distinct.antt =====
-- What holds of a request that RewriteWith may change.
use jev_routing.Prelude.{
  ◌≡◌, refl, ◌⊎◌, inl, inr, Option, none, some, Bool, true, false, not, ◌&&◌, List, [], ◌∷◌,
  if◌then◌else◌, All, Bool-cases,
}
use jev_routing.Text.{Str, lit, str_eq, is_blank}
use jev_routing.Text.Laws.{str_eq_iff}
use jev_routing.Host.{one_of}
use jev_routing.Json.{Json, null, boolean, number, string, array, object, Members, get, text_at}
use jev_routing.Plan.Goals.{in_set}
use jev_routing.Tools.{tool_name_of, is_sticky, filterable_tools}
use jev_routing.Tools.Narrow.{names_of}
use jev_routing.Tools.Chosen.{no_flag}
use jev_routing.Tools.History.{
  has_key, has_array, array_at, or_reason, message_reason, history_reason,
}
use jev_routing.Tools.Eligible.{
  extract_tools, tool_choice_reason, catalog_loop, catalog_reason, Protocol, no_protocol, legacy,
  responses, chat, prompt, anthropic, Eligibility, ineligible, history_of, protocol_of,
  check_request, check_protocol, inspect_request,
}

-- Each name is none of those before it.
unfoldable pub AreFresh : List Str → List Str → Type 0
AreFresh seen [] = Unit
AreFresh seen (n ∷ ns) = (in_set seen n ≡ false) × AreFresh (n ∷ seen) ns

abbrev pub is_object : Json → Bool
is_object (object m) = true
is_object _ = false

duplicate_found : is_blank (lit "duplicate_names") ≡ true → ⊥
unfolding lit
duplicate_found h = no_flag h

catalog_loop-AreFresh :
    (tools : List Json) (seen : List Str) (sticky : Str)
    → is_blank (catalog_loop tools seen sticky) ≡ true
    → AreFresh seen (names_of (filterable_tools tools))
unfolding catalog_loop AreFresh names_of filterable_tools
catalog_loop-AreFresh [] seen sticky h = tt
catalog_loop-AreFresh (null ∷ tools) seen sticky h = catalog_loop-AreFresh tools seen sticky h
catalog_loop-AreFresh (boolean b ∷ tools) seen sticky h = catalog_loop-AreFresh tools seen sticky h
catalog_loop-AreFresh (number m e ∷ tools) seen sticky h = catalog_loop-AreFresh tools seen sticky h
catalog_loop-AreFresh (string s ∷ tools) seen sticky h = catalog_loop-AreFresh tools seen sticky h
catalog_loop-AreFresh (array xs ∷ tools) seen sticky h = catalog_loop-AreFresh tools seen sticky h
catalog_loop-AreFresh (object m ∷ tools) seen sticky h = elim (Bool-cases (is_sticky m)) [
  | inl stays ↦ rw stays (catalog_loop-AreFresh tools seen _ (rw stays at h))
  | inr free ↦ elim (Bool-cases (in_set seen (tool_name_of m))) [
    | inl again ↦ absurd (duplicate_found (rw (free, again) at h))
    | inr fresh ↦
        rw free (
          fresh,
          catalog_loop-AreFresh tools (tool_name_of m ∷ seen) sticky (rw (free, fresh) at h),
        )
  ]
]

no_format : is_blank (lit "unrecognized_format") ≡ true → ⊥
unfolding lit
no_format h = no_flag h

later_blank : (a b : Str) → is_blank (or_reason a b) ≡ true → is_blank b ≡ true
later_blank [] b h = h
later_blank (x ∷ a) b h = absurd (no_flag h)

history-objects :
    (msgs : List Json) → is_blank (history_reason msgs) ≡ true → All (λ v. is_object v ≡ true) msgs
unfolding history_reason
history-objects [] h = tt
history-objects (null ∷ msgs) h = absurd (no_format h)
history-objects (boolean b ∷ msgs) h = absurd (no_format h)
history-objects (number m e ∷ msgs) h = absurd (no_format h)
history-objects (string s ∷ msgs) h = absurd (no_format h)
history-objects (array xs ∷ msgs) h = absurd (no_format h)
history-objects (object m ∷ msgs) h =
    (refl, history-objects msgs (later_blank (message_reason m) (history_reason msgs) h))

-- The word lets the model choose, as a missing one does.
abbrev IsAuto : Str → Type 0
IsAuto s = (s ≡ []) ⊎ (s ≡ lit "auto")

-- `tool_choice` names no tool and requires or forbids none: it is missing, null, "" or "auto", or an
-- object with such a type or none.
pub data LeavesChoice : Option Json → Type 0 where
  missing : LeavesChoice none
  is_null : LeavesChoice (some null)
  word : {s : Str} → IsAuto s → LeavesChoice (some (string s))
  typed : {m : Members} → IsAuto (text_at "type" m) → LeavesChoice (some (object m))

explicit_found : is_blank (lit "explicit_tool_choice") ≡ true → ⊥
unfolding lit
explicit_found h = no_flag h

one_of-IsAuto : (s : Str) → one_of s ("" ∷ "auto" ∷ []) ≡ true → IsAuto s
unfolding one_of lit
one_of-IsAuto s h = elim (Bool-cases (str_eq s (lit ""))) [
  | inl e ↦ inl ((str_eq_iff s (lit "")).0 e)
  | inr n ↦ elim (Bool-cases (str_eq s (lit "auto"))) [
    | inl e ↦ inr ((str_eq_iff s (lit "auto")).0 e)
    | inr k ↦ absurd (no_flag (rw (n, k) at h))
  ]
]

word_reason-IsAuto :
    (s : Str)
    → is_blank (if one_of s ("" ∷ "auto" ∷ []) then [] else lit "explicit_tool_choice") ≡ true
    → IsAuto s
word_reason-IsAuto s h = elim (Bool-cases (one_of s ("" ∷ "auto" ∷ []))) [
  | inl auto ↦ one_of-IsAuto s auto
  | inr other ↦ absurd (explicit_found (rw other at h))
]

choice-LeavesChoice : (v : Option Json) → is_blank (tool_choice_reason v) ≡ true → LeavesChoice v
unfolding tool_choice_reason
choice-LeavesChoice none h = missing
choice-LeavesChoice (some null) h = is_null
choice-LeavesChoice (some (boolean b)) h = absurd (explicit_found h)
choice-LeavesChoice (some (number m e)) h = absurd (explicit_found h)
choice-LeavesChoice (some (string s)) h = word (word_reason-IsAuto s h)
choice-LeavesChoice (some (array xs)) h = absurd (explicit_found h)
choice-LeavesChoice (some (object m)) h = typed (word_reason-IsAuto (text_at "type" m) h)

module _ (root : Members) where
  -- The tools that may be removed have distinct names, `tool_choice` leaves the choice to the model,
  -- and the history consists of objects.
  pub record IsOpen : Type 0 where
    pub distinct : AreFresh [] (names_of (filterable_tools (extract_tools root)))
    pub free_choice : LeavesChoice (get (lit "tool_choice") root)
    pub objects :
        All
          (λ v. is_object v ≡ true)
          (history_of (array_at "messages" root) (array_at "input" root))

  unfoldable Opens : Eligibility → Type 0
  Opens e = e.ok ≡ true → IsOpen

  if-Opens : (b : Bool) (x y : Eligibility) → Opens x → Opens y → Opens (if b then x else y)
  if-Opens true x y f g = f
  if-Opens false x y f g = g

  ineligible-Opens : (reason : Str) (p : Protocol) → Opens (ineligible reason p)
  unfolding Opens
  ineligible-Opens reason p h = absurd (no_flag h)

  check_request-Opens : (p : Protocol) → Opens (check_request p root)
  unfolding check_request Opens catalog_reason
  check_request-Opens p h =
      let choice = tool_choice_reason (get (lit "tool_choice") root) in
      let catalog = catalog_reason (extract_tools root) in
      let history =
        history_reason (history_of (array_at "messages" root) (array_at "input" root)) in
      elim (Bool-cases (is_blank choice)) [
        | inr set ↦ absurd (no_flag (rw set at h))
        | inl auto ↦ elim (Bool-cases (is_blank catalog)) [
          | inr twice ↦ absurd (no_flag (rw (auto, twice) at h))
          | inl once ↦ elim (Bool-cases (is_blank history)) [
            | inr strange ↦ absurd (no_flag (rw (auto, once, strange) at h))
            | inl known ↦ record {
              distinct = catalog_loop-AreFresh (extract_tools root) [] [] once;
              free_choice = choice-LeavesChoice _ auto;
              objects = history-objects _ known;
            }
          ]
        ]
      ]

  check_protocol-Opens : (p : Protocol) → Opens (check_protocol p root)
  check_protocol-Opens no_protocol = ineligible-Opens _ _
  check_protocol-Opens legacy = check_request-Opens legacy
  check_protocol-Opens responses = check_request-Opens responses
  check_protocol-Opens chat = check_request-Opens chat
  check_protocol-Opens prompt = check_request-Opens prompt
  check_protocol-Opens anthropic = check_request-Opens anthropic

  inspect-Opens : Opens (inspect_request root)
  unfolding inspect_request
  inspect-Opens =
      if-Opens (has_key "functions" root && not (has_array (array_at "tools" root))) _ _
        (ineligible-Opens _ _)
        (if-Opens (not (is_blank (text_at "previous_response_id" root))) _ _ (ineligible-Opens _ _)
          (check_protocol-Opens (protocol_of root)))

  -- Where inspectRequest finds a request eligible, its tools that may be removed have distinct names,
  -- its `tool_choice` is missing, null, "" or "auto" or an object whose type is missing, "" or "auto",
  -- and its history consists of objects.
  pub inspect-IsOpen : (inspect_request root).ok ≡ true → IsOpen
  unfolding Opens
  inspect-IsOpen h = inspect-Opens h
