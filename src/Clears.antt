-- ===== src/Clears.antt =====
-- Clearing old tool uses on the server, internal/proxy/context_edit.go: the edit of the request and
-- the header that allows it. `unmarshal` is `json.Unmarshal`
-- into a map and `marshal` is `json.Marshal`, which does not fail on a decoded value.
pub mod Once
pub mod Collect
pub mod Reports
use jev_routing.Prelude.{
  ℕ, ◌+◌, ◌≡◌, refl, Bool, true, false, ◌&&◌, ◌||◌, ℤ, pos, ◌+ℤ◌, Option, none, some, List, [], ◌∷◌,
  ◌++◌, map, any, ltb, ◌==◌, if◌then◌else◌, length, drop, String,
}
use jev_routing.Text.{Str, lit, str_eq, is_blank, lower, contains, has_prefix, trim_space}
use jev_routing.Json.{
  Json, Elements, Members, null, boolean, number, string, array, object, end, member, of_list, get,
  set, text_at, as_array, as_object, list_of,
}
use jev_routing.Stream.{parse_limit, Collector, Scan, feed}
use jev_routing.Usage.{as_int, looks_sse}

-- The fields of Options that are read here.
pub record ClearOptions : Type 0 where
  pub enabled : Bool
  pub trigger : ℕ
  pub keep : ℕ
  pub at_least : ℕ
  pub exclude : List Str

abbrev pub edit_type : Str
edit_type = lit "clear_tool_uses_20250919"

abbrev pub edit_prefix : Str
edit_prefix = lit "clear_tool_uses_"

abbrev pub beta : Str
beta = lit "context-management-2025-06-27"

abbrev pub amount : String → ℕ → Json
amount typ n =
    object
      (member (lit "type") (string (lit typ)) (member (lit "value") (number (pos n) (pos 0)) end))

abbrev pub tools_excluded : List Str → Members
tools_excluded [] = end
tools_excluded (n ∷ ns) = member (lit "exclude_tools") (array (of_list (map string (n ∷ ns)))) end

-- clearToolUsesEdit
unfoldable pub clear_edit : ClearOptions → Json
clear_edit opt = object (
    member (lit "type") (string edit_type) (
      member (lit "trigger") (amount "input_tokens" opt.trigger) (
        member (lit "keep") (amount "tool_uses" opt.keep) (
          member (lit "clear_at_least") (amount "input_tokens" opt.at_least)
            (tools_excluded opt.exclude)))))

abbrev pub context_key : Str
context_key = lit "context_management"

abbrev pub edits_key : Str
edits_key = lit "edits"

abbrev pub is_clear_edit : Json → Bool
is_clear_edit (object m) = has_prefix (text_at "type" m) edit_prefix
is_clear_edit _ = false

-- `cm`, `none` where there is one that is no object.
abbrev pub context_of : Option Json → Option Members
context_of none = some end
context_of (some (object m)) = some m
context_of (some v) = none

abbrev pub edits_of : Members → List Json
edits_of cm = list_of (as_array (get edits_key cm))

abbrev pub with_edit : ClearOptions → Members → Members → Members
with_edit opt cm root =
    set context_key
      (object (set edits_key (array (of_list (edits_of cm ++ (clear_edit opt ∷ [])))) cm)) root

-- addClearToolUsesEdit; `none` is false, and the request stays as it is.
unfoldable pub add_edit_in : ClearOptions → Members → Option Members → Option Members
add_edit_in opt root none = none
add_edit_in opt root (some cm) =
    if any is_clear_edit (edits_of cm) then none else some (with_edit opt cm root)

unfoldable pub add_clear_edit : ClearOptions → Members → Option Members
add_clear_edit opt root = add_edit_in opt root (context_of (get context_key root))

-- `strings.Split(s, ",")`
abbrev pub onto_first : ℕ → List Str → List Str
onto_first b [] = (b ∷ []) ∷ []
onto_first b (p ∷ ps) = (b ∷ p) ∷ ps

unfoldable pub split_commas : Str → List Str
split_commas [] = [] ∷ []
split_commas (b ∷ s) =
    let rest = split_commas s in if b == b',' then [] ∷ rest else onto_first b rest

abbrev pub is_beta : Str → Bool
is_beta part = str_eq (trim_space part) beta

-- `header.Get`
abbrev pub first_value : List Str → Str
first_value [] = []
first_value (v ∷ vs) = v

-- addContextManagementBeta, on the values of the header `anthropic-beta`; `Set` leaves one value.
unfoldable pub add_beta : List Str → List Str
add_beta values =
    let existing = first_value values in
    if is_blank existing
    then beta ∷ []
    else if any is_beta (split_commas existing)
    then values
    else (existing ++ (lit "," ++ beta)) ∷ []

pub record Cleared : Type 0 where
  pub body : Str
  pub header : List Str
  pub changed : Bool

-- applyClaudeClearToolUses
unfoldable pub apply_clear :
    (Str → Option Members) → (Members → Str) → Str → List Str → ClearOptions → Cleared
apply_clear unmarshal marshal raw header opt =
    let same : Cleared = record { body = raw; header = header; changed = false } in
    if opt.enabled
    then elim (unmarshal raw) [
      | none ↦ same
      | some root ↦ elim (add_clear_edit opt root) [
        | none ↦ same
        | some r ↦ record { body = marshal r; header = add_beta header; changed = true }
      ]
    ]
    else same
