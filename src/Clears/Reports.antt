-- ===== src/Clears/Reports.antt =====
-- The report of a stream that arrives in several writes.
use jev_routing.Prelude.{◌≡◌, refl, ap, true, false, Option, List, ◌∷◌, ◌++◌, concat, arith}
use jev_routing.Text.{Str, lit, lower, contains}
use jev_routing.Json.{Members}
use jev_routing.Stream.{Scan, feed}
use jev_routing.Stream.Writes.{writes_by, writes_by-feed}
use jev_routing.Clears.Collect.{
  Clearing, new_clearing, flush_report, take_report_line, clearing, write_clearing, finish_clearing,
}

module _ (unmarshal : Str → Option Members) where
  -- A line leaves the collector reading a stream.
  take_report_line-is_sse :
      (line : Str) (s : Clearing)
      → s.is_sse ≡ true
      → (take_report_line unmarshal line s).is_sse ≡ true
  unfolding take_report_line flush_report
  take_report_line-is_sse line s h = ground (arith, h)

  write_clearing-feed :
      (p : Str) (x : Scan Clearing)
      → x.state.is_sse ≡ true
      → write_clearing unmarshal p x ≡ feed (clearing unmarshal) p x
  unfolding write_clearing
  write_clearing-feed p x h = rw h refl

  -- For a stream of events, Finish of the collector of clear edits gives after any writes what it
  -- gives after one write of all their bytes, where the limit was not hit.
  pub finish_clearing-writes :
      (content_type : Str) (p : Str) (ps : List Str)
      → contains (lower content_type) (lit "text/event-stream") ≡ true
      → (writes_by (write_clearing unmarshal) (p ∷ ps) (new_clearing content_type)).state.limit_hit
        ≡ false
      → finish_clearing unmarshal
          (writes_by (write_clearing unmarshal) (p ∷ ps) (new_clearing content_type))
        ≡ finish_clearing unmarshal
            (write_clearing unmarshal (p ++ concat ps) (new_clearing content_type))
  unfolding new_clearing
  finish_clearing-writes content_type p ps stream going = ap (finish_clearing unmarshal) (
      writes_by-feed (clearing unmarshal) (λ (s : Clearing). s.is_sse ≡ true)
        take_report_line-is_sse (λ s k. k) (write_clearing unmarshal) write_clearing-feed p ps
        (new_clearing content_type) stream going)
