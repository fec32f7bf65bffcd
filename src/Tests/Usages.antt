-- ===== src/Tests/Usages.antt =====
-- The usage of a stream that arrives in two parts.
use jev_routing.Prelude.{◌≡◌, refl, true, false, Option, some, [], ◌∷◌, ◌++◌, concat, pos}
use jev_routing.Text.{Str, lit, lower, contains}
use jev_routing.Json.{Members, number, object, end, member}
use jev_routing.Usage.{new_collector, write, finish}
use jev_routing.Usage.Splits.{finish-writes}
use jev_routing.Stream.Writes.{writes_by}

abbrev events : Str
events = lit "text/event-stream"

abbrev parsed : Str → Option Members
parsed s =
    some
      (member (lit "usage") (object (member (lit "input_tokens") (number (pos 7) (pos 0)) end)) end)

is_stream : contains (lower events) (lit "text/event-stream") ≡ true
unfolding lit lower contains
is_stream = refl

in_limit :
    (writes_by
      (write parsed)
      (lit "data: {" ∷ lit "}\n" ∷ [])
      (new_collector events)).state.limit_hit
    ≡ false
unfolding lit writes_by write new_collector contains lower jev_routing.Stream.feed
    jev_routing.Stream.lines_loop jev_routing.Stream.index_new_line jev_routing.Usage.take_line
    jev_routing.Stream.without_return jev_routing.Usage.add_data jev_routing.Text.trim_space
in_limit = refl

finish-writes_example :
    finish parsed (writes_by (write parsed) (lit "data: {" ∷ lit "}\n" ∷ []) (new_collector events))
    ≡ finish parsed (write parsed (lit "data: {" ++ concat (lit "}\n" ∷ [])) (new_collector events))
finish-writes_example =
    finish-writes parsed events (lit "data: {") (lit "}\n" ∷ []) is_stream in_limit

-- A body of JSON with "data:" in a text is taken for a stream, and its usage is lost.
abbrev body : Str
body = lit "{\"text\":\"data: 1\",\"usage\":{\"input_tokens\":7}}"

misread :
    (finish parsed (write parsed body (new_collector (lit "application/json")))).missing
    ≡ lit "no_usage"
unfolding lit writes_by write new_collector contains lower jev_routing.Stream.feed
    jev_routing.Stream.lines_loop jev_routing.Stream.index_new_line jev_routing.Usage.take_line
    jev_routing.Stream.without_return jev_routing.Usage.add_data jev_routing.Text.trim_space finish
    jev_routing.Usage.finish_stream jev_routing.Usage.flush_event jev_routing.Usage.looks_sse
    jev_routing.Text.has_prefix
misread = refl
