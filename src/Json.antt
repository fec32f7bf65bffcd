-- ===== src/Json.antt =====
-- Decoded JSON, as the `any` that encoding/json fills: an object is its list of members, of which
-- the first with a key counts. A number is a decimal, mantissa and exponent. A string is valid
-- UTF-8, since the decoder repairs what is not.
pub mod Laws
use jev_routing.Prelude.{
  ℕ, Bool, true, false, ℤ, Option, none, some, List, [], ◌∷◌, ◌++◌, if◌then◌else◌, String,
}
use jev_routing.Text.{Str, lit, str_eq}

mutual
  pub data Json : Type 0 where
    null : Json
    boolean : Bool → Json
    number : ℤ → ℤ → Json
    string : Str → Json
    array : Elements → Json
    object : Members → Json

  pub data Elements : Type 0 where
    nil : Elements
    cons : Json → Elements → Elements

  pub data Members : Type 0 where
    end : Members
    member : Str → Json → Members → Members

unfoldable pub elements : Elements → List Json
elements nil = []
elements (cons x xs) = x ∷ elements xs

unfoldable pub of_list : List Json → Elements
of_list [] = nil
of_list (x ∷ xs) = cons x (of_list xs)

-- `m[key]`
unfoldable pub get : Str → Members → Option Json
get key end = none
get key (member k v ms) = if str_eq k key then some v else get key ms

-- `m[key] = v`
unfoldable pub set : Str → Json → Members → Members
set key v end = member key v end
set key v (member k w ms) = if str_eq k key then member k v ms else member k w (set key v ms)

-- The assertions `v.(string)`, `v.([]any)` and `v.(map[string]any)` on what a map gives.
abbrev pub as_string : Option Json → Option Str
as_string (some (string s)) = some s
as_string _ = none

abbrev pub as_array : Option Json → Option Elements
as_array (some (array xs)) = some xs
as_array _ = none

abbrev pub as_object : Option Json → Option Members
as_object (some (object ms)) = some ms
as_object _ = none

abbrev pub or_empty : Option Str → Str
or_empty none = []
or_empty (some s) = s

-- `str(m[key])` of internal/proxy/proxy.go: the string, or the empty one.
unfoldable pub text_at : String → Members → Str
text_at key ms = or_empty (as_string (get (lit key) ms))

-- `m[key] != nil`
unfoldable pub present : String → Members → Bool
present key ms = elim (get (lit key) ms) [
  | none ↦ false
  | some v ↦ elim v [ null ↦ false | _ ↦ true ]
]

abbrev pub list_of : Option Elements → List Json
list_of none = []
list_of (some xs) = elements xs

-- The elements that are objects.
unfoldable pub objects : List Json → List Members
objects [] = []
objects (object ms ∷ xs) = ms ∷ objects xs
objects (x ∷ xs) = objects xs

-- `delete(m, key)`; every member with the key goes.
unfoldable pub remove : Str → Members → Members
remove key end = end
remove key (member k v ms) =
    let rest = remove key ms in if str_eq k key then rest else member k v rest
