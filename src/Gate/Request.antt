-- ===== src/Gate/Request.antt =====
-- What the clear gate reads in a request, internal/proxy/clear_gate.go: clearGateKey, clearableTokens
-- and the start of gate; textOf is in internal/proxy/rewrite.go. `hash12` is the first 12 bytes of
-- `sha256`, in hexadecimal digits, and `unmarshal` is `json.Unmarshal` into a map.
use jev_routing.Prelude.{
  ℕ, ◌+◌, ◌-◌, ◌*◌, ◌/◌, ◌≡◌, refl, ◌⊎◌, inl, inr, Bool, false, not, ◌||◌, Option, none, some, List,
  [], ◌∷◌, ◌++◌, map, concat, drop, if◌then◌else◌, length, Bool-cases, Option-cases,
}
use jev_routing.Text.{Str, lit, str_eq, is_blank}
use jev_routing.Text.Runes.{runes}
use jev_routing.Json.{
  Json, Members, string, array, object, elements, get, text_at, present, as_array, list_of, objects,
  or_empty,
}
use jev_routing.Gate.{failed, Store, wait, refused, Gated, enter_gate, Step, enters}

-- The text of one part of a content.
abbrev pub text_in : Json → Str
text_in (object m) = text_at "text" m
text_in _ = []

-- `content`, or `output` where it is nil.
unfoldable pub content_of : Members → Option Json
content_of m = if present "content" m then get (lit "content") m else get (lit "output") m

-- textOf
unfoldable pub text_of_content : Members → Option Json → Str
text_of_content m (some (string s)) = s
text_of_content m (some (array parts)) = concat (map text_in (elements parts))
text_of_content m _ = text_at "output" m

unfoldable pub message_text : Members → Str
message_text m = text_of_content m (content_of m)

abbrev pub members_of : Json → Members
members_of (object m) = m
members_of _ = Members.end

abbrev pub messages_of : Members → List Json
messages_of root = list_of (as_array (get (lit "messages") root))

-- clearGateKey
unfoldable pub key_of_messages : (Str → Str) → Members → List Json → Str
key_of_messages hash12 root [] = []
key_of_messages hash12 root (first ∷ rest) =
    hash12 (text_at "model" root ++ (lit "\0" ++ message_text (members_of first)))

unfoldable pub gate_key : (Str → Str) → Members → Str
gate_key hash12 root = key_of_messages hash12 root (messages_of root)

-- `b["id"]` and `b["name"]` of a tool_use block.
pub record ToolUse : Type 0 where
  pub id : Str
  pub name : Str

unfoldable pub uses_in : List Members → List ToolUse
uses_in [] = []
uses_in (b ∷ bs) =
    let rest = uses_in bs in
    if str_eq (text_at "type" b) (lit "tool_use")
    then record { id = text_at "id" b; name = text_at "name" b } ∷ rest
    else rest

abbrev pub blocks_of : Members → List Members
blocks_of m = objects (list_of (as_array (get (lit "content") m)))

unfoldable pub uses_of : List Json → List ToolUse
uses_of [] = []
uses_of (raw ∷ msgs) =
    let rest = uses_of msgs in
    let m = members_of raw in
    if str_eq (text_at "role" m) (lit "assistant") then uses_in (blocks_of m) ++ rest else rest

-- `names[id]`, of which the last one written counts.
unfoldable pub use_name : List ToolUse → Str → Option Str
use_name [] id = none
use_name (u ∷ us) id = elim (use_name us id) [
  | some n ↦ some n
  | none ↦ if str_eq u.id id then some u.name else none
]

unfoldable pub is_among : Str → List Str → Bool
is_among s [] = false
is_among s (x ∷ xs) = str_eq x s || is_among s xs

-- The characters of the results that may be cleared, of the blocks of one message.
unfoldable pub chars_in : List ToolUse → List Str → List Str → List Members → ℕ
chars_in uses skip exclude [] = 0
chars_in uses skip exclude (b ∷ bs) =
    let rest = chars_in uses skip exclude bs in
    let id = text_at "tool_use_id" b in
    if not (str_eq (text_at "type" b) (lit "tool_result"))
      || (is_among id skip || is_among (or_empty (use_name uses id)) exclude)
    then rest
    else length (runes (message_text b)) + rest

unfoldable pub clearable_chars : List ToolUse → List Str → List Str → List Json → ℕ
clearable_chars uses skip exclude [] = 0
clearable_chars uses skip exclude (raw ∷ msgs) =
    let rest = clearable_chars uses skip exclude msgs in
    let m = members_of raw in
    if str_eq (text_at "role" m) (lit "user")
    then chars_in uses skip exclude (blocks_of m) + rest
    else rest

-- clearableTokens
unfoldable pub clearable_tokens : ℕ → List Str → Members → ℕ
clearable_tokens keep exclude root =
    let uses = uses_of (messages_of root) in
    let ids = map (λ (u : ToolUse). u.id) uses in
    let skip = drop (length ids - keep) ids in
    clearable_chars uses skip exclude (messages_of root) * 10 / 19

-- The options of the gate.
pub record GateOptions : Type 0 where
  pub trigger : ℕ
  pub at_least : ℕ
  pub keep : ℕ
  pub exclude : List Str

-- gate, up to the question.
unfoldable pub enter_with : (Str → Str) → GateOptions → Members → Store → Gated
enter_with hash12 opt root s =
    let key = gate_key hash12 root in
    if is_blank key
    then record { reply = wait; store = s }
    else enter_gate opt.trigger opt.at_least (clearable_tokens opt.keep opt.exclude root) key s

unfoldable pub enter_request :
    (Str → Str) → (Str → Option Members) → GateOptions → Str → Store → Gated
enter_request hash12 unmarshal opt raw s = elim (unmarshal raw) [
  | none ↦ record { reply = refused failed (lit "unparsed"); store = s }
  | some root ↦ enter_with hash12 opt root s
]

enter_with-Step :
    (hash12 : Str → Str) (opt : GateOptions) (root : Members) (s : Store)
    → ((enter_with hash12 opt root s).store ≡ s) ⊎ Step s (enter_with hash12 opt root s).store
unfolding enter_with
enter_with-Step hash12 opt root s = elim (Bool-cases (is_blank (gate_key hash12 root))) [
  | inl blank ↦ rw blank (inl refl)
  | inr given ↦ rw given (
      inr (
        enters opt.trigger opt.at_least (clearable_tokens opt.keep opt.exclude root)
          (gate_key hash12 root)))
]

-- A request leaves the store as it is or takes one step of it.
enter_request-Step :
    (hash12 : Str → Str) (unmarshal : Str → Option Members) (opt : GateOptions) (raw : Str)
    (s : Store)
    → ((enter_request hash12 unmarshal opt raw s).store ≡ s)
      ⊎ Step s (enter_request hash12 unmarshal opt raw s).store
unfolding enter_request
enter_request-Step hash12 unmarshal opt raw s = elim (Option-cases (unmarshal raw)) [
  | inl bad ↦ rw (enter_request, bad) (inl refl)
  | inr (root, good) ↦ rw (enter_request, good) (enter_with-Step hash12 opt root s)
]
