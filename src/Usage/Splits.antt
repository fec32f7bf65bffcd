-- ===== src/Usage/Splits.antt =====
-- The usage of a stream that arrives in several writes.
use jev_routing.Prelude.{◌≡◌, refl, ap, true, false, Option, List, ◌∷◌, ◌++◌, concat, arith}
use jev_routing.Text.{Str, lit, lower, contains}
use jev_routing.Json.{Members}
use jev_routing.Stream.{Scan, feed}
use jev_routing.Stream.Writes.{writes_by, writes_by-feed}
use jev_routing.Usage.{
  Collected, new_collector, flush_event, add_data, take_line, collector, write, finish,
}

-- The collector reads a stream of events.
abbrev Streams : Collected → Type 0
Streams s = s.is_sse ≡ true

module _ (unmarshal : Str → Option Members) where
  take_line-Streams :
      (line : Str) (s : Collected) → Streams s → Streams (take_line unmarshal line s)
  unfolding take_line flush_event add_data
  take_line-Streams line s h = ground (arith, h)

  write-feed :
      (p : Str) (x : Scan Collected)
      → Streams x.state
      → write unmarshal p x ≡ feed (collector unmarshal) p x
  unfolding write
  write-feed p x h = rw h refl

  -- For a stream of events, Finish gives after any writes what it gives after one write of all their
  -- bytes, where no limit was hit.
  pub finish-writes :
      (content_type : Str) (p : Str) (ps : List Str)
      → contains (lower content_type) (lit "text/event-stream") ≡ true
      → (writes_by (write unmarshal) (p ∷ ps) (new_collector content_type)).state.limit_hit ≡ false
      → finish unmarshal (writes_by (write unmarshal) (p ∷ ps) (new_collector content_type))
        ≡ finish unmarshal (write unmarshal (p ++ concat ps) (new_collector content_type))
  unfolding new_collector
  finish-writes content_type p ps stream going = ap (finish unmarshal) (
      writes_by-feed (collector unmarshal) Streams take_line-Streams (λ s k. k) (write unmarshal)
        write-feed p ps (new_collector content_type) stream going)
