-- ===== src/Tests/Clearings.antt =====
-- Clearing tool uses in a request without edits, and a stream that reports what was cleared.
use jev_routing.Prelude.{◌≡◌, refl, true, false, Option, some, none, [], ◌∷◌, ◌++◌, concat, List}
use jev_routing.Text.{Str, lit, str_eq, lower, contains}
use jev_routing.Json.{Members, string, end, member, get}
use jev_routing.Stream.Writes.{writes_by}
use jev_routing.Clears.{
  ClearOptions, context_key, edits_key, context_of, edits_of, clear_edit, with_edit, add_edit_in,
  add_clear_edit, is_beta, split_commas, first_value, add_beta,
}
use jev_routing.Clears.Collect.{new_clearing, write_clearing, finish_clearing}
use jev_routing.Clears.Reports.{finish_clearing-writes}
use jev_routing.Clears.Once.{add_clear_edit-added}

abbrev opt : ClearOptions
opt = record { enabled = true; trigger = 100000; keep = 3; at_least = 40000; exclude = [] }

abbrev plain : Members
plain = member (lit "model") (string (lit "m")) end

no_context : context_of (get context_key plain) ≡ some end
unfolding get str_eq lit
no_context = refl

is_added : add_clear_edit opt plain ≡ some (with_edit opt end plain)
unfolding add_clear_edit add_edit_in get str_eq lit
is_added = refl

add_clear_edit-added_example :
    let r = with_edit opt end plain in
    (add_clear_edit opt r ≡ none)
    × ((key : Str) → str_eq context_key key ≡ false → get key r ≡ get key plain)
    × ((cm' : Members) × (context_of (get context_key r) ≡ some cm')
        × (edits_of cm' ≡ edits_of end ++ (clear_edit opt ∷ []))
        × ((key : Str) → str_eq edits_key key ≡ false → get key cm' ≡ get key end))
add_clear_edit-added_example =
    add_clear_edit-added opt opt plain end (with_edit opt end plain) no_context is_added

abbrev flags : List Str
flags = lit "oauth-2025-04-20" ∷ []

abbrev events : Str
events = lit "text/event-stream"

abbrev parsed : Str → Option Members
parsed s = some plain

is_stream : contains (lower events) (lit "text/event-stream") ≡ true
unfolding lit lower contains
is_stream = refl

in_limit :
    (writes_by
      (write_clearing parsed)
      (lit "data: {" ∷ lit "}\n" ∷ [])
      (new_clearing events)).state.limit_hit
    ≡ false
unfolding lit writes_by write_clearing new_clearing contains lower jev_routing.Stream.feed
    jev_routing.Stream.lines_loop jev_routing.Stream.index_new_line
    jev_routing.Clears.Collect.take_report_line jev_routing.Stream.without_return
    jev_routing.Text.trim_space
in_limit = refl

finish_clearing-writes_example :
    finish_clearing parsed
      (writes_by (write_clearing parsed) (lit "data: {" ∷ lit "}\n" ∷ []) (new_clearing events))
    ≡ finish_clearing parsed
        (write_clearing parsed (lit "data: {" ++ concat (lit "}\n" ∷ [])) (new_clearing events))
finish_clearing-writes_example =
    finish_clearing-writes parsed events (lit "data: {") (lit "}\n" ∷ []) is_stream in_limit
