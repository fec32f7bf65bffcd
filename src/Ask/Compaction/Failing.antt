-- ===== src/Ask/Compaction/Failing.antt =====
-- What AskCompactContext returns when its requests fail, and in any case.
use jev_routing.Prelude.{◌≡◌, refl, Bool, true, false, List, [], ◌∷◌, if◌then◌else◌, Go, ok}
use jev_routing.Text.{Str}
use jev_routing.Compact.{Item, Options, resolve, resolve_recent, Candidate}
use jev_routing.Compact.Candidates.{collect_candidates}
use jev_routing.Compact.Local.{local_answers, compact_local}
use jev_routing.Compact.Kept.Prose.{prose, Apart, prose-compact}
use jev_routing.Compact.Fitted.Stages.{FittedState}
use jev_routing.Ask.Cache.{Client, is_live}
use jev_routing.Ask.Compaction.{CompactWorld}
use jev_routing.Ask.Compaction.Batched.{Gathered, BatchRun, merge_runs}
use jev_routing.Ask.Compaction.Whole.{
  merge_start, local_asked, cached_asked, remote_asked, CompactAsked, answer_locally,
  answer_remotely, answer_from_cache, by_uncached, answer_live, ask_compact,
}

-- The call returns, and its result has the messages of the items.
unfoldable pub SparesProse : List Item → Go CompactAsked → Type 0
SparesProse items run = (a : CompactAsked) × (run ≡ ok a) × (prose a.result.items ≡ prose items)

module _ (items : List Item) (apart : Apart items) where
  local-SparesProse : (c : Client) (o : Options) → SparesProse items (answer_locally c items o)
  unfolding SparesProse answer_locally compact_local
  local-SparesProse c o =
      let (r, e, p) =
        prose-compact items
          (local_answers items (collect_candidates items (resolve_recent o.preserve_recent)))
          (resolve o) apart in
      (local_asked c r, rw e refl, p)

  cached-SparesProse :
      (c : Client) (o : Options) (f : FittedState) (g : Gathered)
      → SparesProse items (answer_from_cache c o items f g)
  unfolding SparesProse answer_from_cache
  cached-SparesProse c o f g =
      let (r, e, p) = prose-compact items g.answers o apart in (cached_asked c f g r, rw e refl, p)

  remote-SparesProse :
      (w : CompactWorld) (c : Client) (goal : Str) (o : Options) (f : FittedState) (g : Gathered)
      (runs : List BatchRun)
      → SparesProse items (answer_remotely w c goal o items f g runs)
  unfolding SparesProse answer_remotely
  remote-SparesProse w c goal o f g runs =
      let m = merge_runs w c goal o items runs (merge_start c g) in
      let (r, e, p) = prose-compact items m.answers o apart in
      (remote_asked c f g runs m r, rw e refl, p)

  by_uncached-SparesProse :
      (cands : List Candidate) (x y : Go CompactAsked)
      → SparesProse items x
      → SparesProse items y
      → SparesProse items (by_uncached cands x y)
  by_uncached-SparesProse [] x y f g = f
  by_uncached-SparesProse (c ∷ cs) x y f g = g

  if-SparesProse :
      (b : Bool) (x y : Go CompactAsked)
      → SparesProse items x
      → SparesProse items y
      → SparesProse items (if b then x else y)
  if-SparesProse true x y f g = f
  if-SparesProse false x y f g = g

  live-SparesProse :
      (w : CompactWorld) (c : Client) (goal : Str) (o : Options)
      → SparesProse items (answer_live w c goal o items)
  unfolding answer_live
  live-SparesProse w c goal o =
      by_uncached-SparesProse _ _ _ (cached-SparesProse c (resolve o) _ _)
        (remote-SparesProse w c goal (resolve o) _ _ _)

-- If no tool item or summary shares its ID with a message, AskCompactContext returns, whatever the
-- classifier answers and whatever fails, and the messages of its result are those of the input,
-- unchanged and in order.
pub ask_compact-SparesProse :
    (w : CompactWorld) (c : Client) (goal : Str) (o : Options) (items : List Item)
    → Apart items
    → SparesProse items (ask_compact w c goal o items)
unfolding ask_compact
ask_compact-SparesProse w c goal o items apart =
    if-SparesProse items apart (is_live c) _ _ (live-SparesProse items apart w c goal o)
      (local-SparesProse items apart c (resolve o))
