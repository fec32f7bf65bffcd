-- ===== src/Tools/Written.antt =====
-- setTools of internal/proxy/rewrite.go, and the rest of what RewriteWith does to a request for a
-- narrowed catalog.
use jev_routing.Prelude.{
  ◌≡◌, refl, ap, ◌∙◌, Bool, true, false, ◌&&◌, not, Option, none, some, List, map, if◌then◌else◌,
  any, String, append-nil, Bool-cases, inl, inr,
}
use jev_routing.Text.{Str, lit, str_eq}
use jev_routing.Json.{Json, array, object, Elements, Members, elements, of_list, get, set, remove}
use jev_routing.Json.Laws.{get-set, get-set_other, get-remove, get-remove_other}
use jev_routing.Tools.{is_present, slice_at, is_catalog, flatten_catalog}
use jev_routing.Tools.Narrow.{reconstruct_catalog}
use jev_routing.Tools.Rebuilt.{elements-of_list}
use jev_routing.Tools.History.{has_key, array_at}
use jev_routing.Tools.Eligible.{
  first_catalog, extract_raw_tools, extract_tools, catalog_key, tools_key,
}

-- An entry of `input`, its tools narrowed if it is a catalog.
unfoldable pub narrow_entry : List Json → Json → Json
narrow_entry tools (object m) =
    if is_catalog (object m)
    then object
        (set (lit "tools") (array (of_list (reconstruct_catalog (slice_at "tools" m) tools))) m)
    else object m
narrow_entry tools v = v

unfoldable pub narrow_input : List Json → Option Elements → Members → Members
narrow_input tools none root = root
narrow_input tools (some items) root =
    set (lit "input") (array (of_list (map (narrow_entry tools) (elements items)))) root

unfoldable pub narrow_field : List Json → String → Option Elements → Members → Members
narrow_field tools field none root = root
narrow_field tools field (some original) root =
    set (lit field) (array (of_list (reconstruct_catalog (elements original) tools))) root

-- setTools of the key "responses_lite"
unfoldable pub set_lite_tools : List Json → Members → Members
set_lite_tools tools root =
    let flat = flatten_catalog tools in
    let inside = narrow_input flat (array_at "input" root) root in
    let top = narrow_field flat "tools" (array_at "tools" root) inside in
    narrow_field flat "additional_tools" (array_at "additional_tools" root) top

-- setTools
unfoldable pub set_tools : Str → List Json → Members → Members
set_tools key tools root =
    if str_eq key (lit "responses_lite")
    then set_lite_tools tools root
    else set key (array (of_list tools)) root

abbrev pub drop_if : Bool → Str → Members → Members
drop_if true key root = remove key root
drop_if false key root = root

-- The request with the catalog `out`; a forced choice of a tool stays.
unfoldable pub write_catalog : Bool → List Json → Members → Members
write_catalog forced out root =
    let key = tools_key root in
    let w = set_tools key out root in
    drop_if (not forced) (lit "tool_choice") (
      drop_if (has_key "additional_tools" w && not (str_eq key (lit "responses_lite")))
        (lit "additional_tools") w)

get-drop_if :
    (b : Bool) (key other : Str) (root : Members)
    → str_eq key other ≡ false
    → get other (drop_if b key root) ≡ get other root
get-drop_if true key other root h = get-remove_other key other root h
get-drop_if false key other root h = refl

absent : (v : Option Json) → is_present v ≡ false → v ≡ none
absent none h = refl
absent (some v) h = cc

get-drop_present :
    (key : Str) (root : Members) → get key (drop_if (is_present (get key root)) key root) ≡ none
get-drop_present key root = elim (Bool-cases (is_present (get key root))) [
  | inl there ↦ rw there (get-remove key root)
  | inr away ↦ rw away (absent (get key root) away)
]

-- What is written for a catalog in `tools`.
abbrev finished : Bool → List Json → Members → Members
finished forced out root =
    let w = set (lit "tools") (array (of_list out)) root in
    drop_if (not forced) (lit "tool_choice")
      (drop_if (has_key "additional_tools" w) (lit "additional_tools") w)

get-finished :
    (forced : Bool) (out : List Json) (root : Members) (key : Str)
    → str_eq (lit "tools") key ≡ false
    → str_eq (lit "additional_tools") key ≡ false
    → str_eq (lit "tool_choice") key ≡ false
    → get key (finished forced out root) ≡ get key root
get-finished forced out root key t a c =
    get-drop_if (not forced) (lit "tool_choice") key _ c
    ∙ get-drop_if _ (lit "additional_tools") key _ a
    ∙ get-set_other (lit "tools") key (array (of_list out)) root t

get-finished_tools :
    (forced : Bool) (out : List Json) (root : Members)
    → get (lit "tools") (finished forced out root) ≡ some (array (of_list out))
unfolding lit str_eq
get-finished_tools forced out root =
    get-drop_if (not forced) (lit "tool_choice") (lit "tools") _ refl
    ∙ get-drop_if _ (lit "additional_tools") (lit "tools") _ refl
    ∙ get-set (lit "tools") (array (of_list out)) root

get-finished_extra :
    (forced : Bool) (out : List Json) (root : Members)
    → get (lit "additional_tools") (finished forced out root) ≡ none
unfolding lit str_eq
get-finished_extra forced out root =
    get-drop_if (not forced) (lit "tool_choice") (lit "additional_tools") _ refl
    ∙ get-drop_present (lit "additional_tools") (set (lit "tools") (array (of_list out)) root)

input_kept :
    (forced : Bool) (out : List Json) (root : Members)
    → get (lit "input") (finished forced out root) ≡ get (lit "input") root
unfolding lit str_eq
input_kept forced out root = get-finished forced out root (lit "input") refl refl refl

extract-finished :
    (forced : Bool) (out : List Json) (root : Members)
    → any is_catalog (slice_at "input" root) ≡ false
    → extract_tools (finished forced out root) ≡ flatten_catalog out
unfolding extract_tools extract_raw_tools slice_at first_catalog
extract-finished forced out root h =
    rw
      (
        input_kept forced out root,
        get-finished_tools forced out root,
        get-finished_extra forced out root,
        h,
        elements-of_list out,
        append-nil out,
      )
      refl

and_true : (b : Bool) → b && true ≡ b
and_true true = refl
and_true false = refl

write-finished :
    (forced : Bool) (out : List Json) (root : Members) (tools : Elements)
    → any is_catalog (slice_at "input" root) ≡ false
    → array_at "tools" root ≡ some tools
    → write_catalog forced out root ≡ finished forced out root
unfolding write_catalog tools_key set_tools catalog_key lit str_eq
write-finished forced out root tools h e =
    rw (h, e)
      (ap
        (λ b.
          drop_if (not forced) (lit "tool_choice")
            (drop_if b (lit "additional_tools") (set (lit "tools") (array (of_list out)) root)))
        (and_true (has_key "additional_tools" (set (lit "tools") (array (of_list out)) root))))

-- Where the catalog of a request is in `tools`, writing a new one gives a request whose catalog is the
-- new one, and that has each member but `tools`, `additional_tools` and `tool_choice` as before.
pub extract-write_catalog :
    (forced : Bool) (out : List Json) (root : Members) (tools : Elements) (key : Str)
    → any is_catalog (slice_at "input" root) ≡ false
    → array_at "tools" root ≡ some tools
    → str_eq (lit "tools") key ≡ false
    → str_eq (lit "additional_tools") key ≡ false
    → str_eq (lit "tool_choice") key ≡ false
    → let w = write_catalog forced out root in
      (extract_tools w ≡ flatten_catalog out) × (get key w ≡ get key root)
extract-write_catalog forced out root tools key h e t a c =
    rw (write-finished forced out root tools h e)
      (extract-finished forced out root h, get-finished forced out root key t a c)
