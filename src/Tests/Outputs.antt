-- ===== src/Tests/Outputs.antt =====
-- Cutting tool outputs.
use jev_routing.Prelude.{◌≤◌, ◌<◌, ◌≡◌, refl, ◌++◌, map, some, true, false, length, arith}
use jev_routing.Text.{Str, lit, str_eq}
use jev_routing.Text.Utf8.{is_valid}
use jev_routing.Json.{
  Elements, Members, string, array, object, nil, cons, elements, end, member, get,
}
use jev_routing.Output.{truncate_middle, note, apply_output_max, input_key}
use jev_routing.Output.Cuts.{IsHead, truncate_middle-parts}
use jev_routing.Output.Local.{cut_alone, cuts_of, input_of, apply_output_max-alone}

abbrev long_text : Str
long_text = lit "Zwölf Boxkämpfer"

is_longer : 7 < length long_text
unfolding lit
is_longer = omega arith

truncate_middle-parts_example :
    let r = truncate_middle long_text 7 in
    (front : Str) × (middle : Str) × (back : Str) × (long_text ≡ front ++ (middle ++ back))
    × (r.out ≡ front ++ (note (length middle) (length long_text) ++ back))
    × (r.omitted ≡ length middle)
    × IsHead long_text 3 (length front)
    × (length back ≤ 3)
    × (is_valid front ≡ true)
    × (is_valid back ≡ true)
    × (is_valid r.out ≡ true)
    × (r.did ≡ true)
truncate_middle-parts_example = truncate_middle-parts long_text 7 is_longer

abbrev items : Elements
items =
    cons
      (object (
        member (lit "type") (string (lit "function_call_output"))
          (member (lit "output") (string long_text) end)))
      (cons (string long_text) nil)

abbrev request : Members
request = member (lit "model") (string (lit "m")) (member input_key (array items) end)

input_is : get input_key request ≡ some (array items)
unfolding get str_eq lit
input_is = refl

apply_output_max-alone_example :
    let r = apply_output_max 7 request in
    ((key : Str) → str_eq input_key key ≡ false → get key r.value ≡ get key request)
    × (input_of (get input_key r.value) ≡ map (cut_alone 7) (elements items))
    × (r.cut.truncated ≡ cuts_of 7 (elements items))
apply_output_max-alone_example = apply_output_max-alone 6 request items input_is
