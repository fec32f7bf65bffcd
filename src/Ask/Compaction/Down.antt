-- ===== src/Ask/Compaction/Down.antt =====
-- AskCompactContext where no request gets a reply.
use jev_routing.Prelude.{
  ◌≡◌, refl, ap, ◌∙◌, ◌⊎◌, inl, inr, true, false, Option, none, some, List, [], ◌∷◌, ◌++◌, map, Go,
  ok, ◌>>=◌, length, Bool-cases,
}
use jev_routing.Text.{Str, lit}
use jev_routing.Json.{Json}
use jev_routing.Compact.{Item, Options, resolve, resolve_recent, Candidate}
use jev_routing.Compact.Candidates.{collect_candidates}
use jev_routing.Compact.Apply.{compact}
use jev_routing.Compact.Kept.Prose.{no_answers, compact_unanswered}
use jev_routing.Compact.Fitted.Stages.{FittedState}
use jev_routing.Ask.{AskQuestion}
use jev_routing.Ask.Shrink.{fit_input_copy}
use jev_routing.Ask.Cache.{
  Client, AskError, over_budget, bad_request, failed, refused, Context, no_reply, err_kind, is_live,
  take_reply, send_body, send_fitted, take_cached, do_ask,
}
use jev_routing.Ask.Compaction.{CompactWorld, compact_key, decided_at, unpinned}
use jev_routing.Ask.Compaction.Batched.{
  Gathered, gather_one, gather, unanswered, batch_outcome, batch_questions, as_asked, ask_batch,
  MergedAnswers, nothing_gathered, first_of, merge_outcome, merge_runs,
}
use jev_routing.Ask.Compaction.Whole.{
  merge_start, cached_asked, remote_asked, batch_runs, CompactAsked, answer_remotely,
  answer_from_cache, by_uncached, answer_live, ask_compact,
}

-- The items are what they were, the client too, and there is an error unless nothing was asked.
unfoldable pub Unharmed : List Item → Go CompactAsked → Type 0
Unharmed items run =
    (a : CompactAsked) × (run ≡ ok a)
    × (a.result.items ≡ items)
    × (a.client.decided ≡ [])
    × ((a.requests ≡ 0) ⊎ ((e : AskError) × (a.err ≡ some e)))

some_first : (o : Option AskError) (e : AskError) → (x : AskError) × (first_of o e ≡ some x)
some_first none e = (e, refl)
some_first (some d) e = (d, refl)

module _ (w : CompactWorld) (c : Client)
    (down : (b : Str) → (x : Context) × (w.world.send c b ≡ no_reply x)) where
  send_body-refused :
      (purpose : Str) (state : Json) (qs : List AskQuestion) (b : Option Str)
      → (e : AskError) × ((send_body w.world c purpose state qs false b).result ≡ refused e)
  unfolding send_body take_reply
  send_body-refused purpose state qs none = (bad_request, refl)
  send_body-refused purpose state qs (some b) =
      let (x, e) = down b in (failed (err_kind x), rw e refl)

  do_ask-refused :
      (purpose : Str) (state : Json) (qs : List AskQuestion)
      → is_live c ≡ true
      → (e : AskError) × ((do_ask w.world c purpose state qs false).result ≡ refused e)
  unfolding do_ask take_cached send_fitted
  do_ask-refused purpose state qs live =
      let f = fit_input_copy w.world.marshaller qs state in
      elim (Bool-cases f.over) [
        | inl over ↦ (over_budget, rw (live, over) refl)
        | inr fits ↦
            let (e, p) = send_body-refused purpose state qs (w.world.body c f.state qs) in
            (e, rw (live, fits) p)
      ]

  down-unanswered :
      (state : Json) (batch : List Candidate)
      → is_live c ≡ true
      → (e : AskError) × ((ask_batch w c state batch).outcome ≡ unanswered e)
  unfolding ask_batch batch_outcome batch_questions
  down-unanswered state batch live =
      let qs = batch_questions batch [] in
      let (e, p) = do_ask-refused (lit "compact") state (map as_asked qs) live in
      (e, ap (batch_outcome w.world.decoder qs) p)

  -- Nothing but the first error changes.
  merge-down :
      (goal : Str) (o : Options) (items : List Item) (state : Json)
      (batches : List (List Candidate)) (m : MergedAnswers)
      → is_live c ≡ true
      → let runs = map (ask_batch w c state) batches in
        let n = merge_runs w c goal o items runs m in
        (n.answers ≡ m.answers)
        × (n.decided ≡ m.decided)
        × (((e : AskError) × (n.first_err ≡ some e))
            ⊎ ((length runs ≡ 0) × (n.first_err ≡ m.first_err)))
  unfolding merge_runs merge_outcome
  merge-down goal o items state [] m live = (refl, refl, inr (refl, refl))
  merge-down goal o items state (b ∷ bs) m live =
      let (e, p) = down-unanswered state b live in
      let now : MergedAnswers = record m { first_err = first_of m.first_err e } in
      let (a, d, err) = merge-down goal o items state bs now live in
      let (x, q) = some_first m.first_err e in
      rw p (a, d, elim err [ inl found ↦ inl found | inr (none_left, f) ↦ inl (x, f ∙ q) ])

  undecided : (key : Str) → c.decided ≡ [] → decided_at key c.decided ≡ none
  unfolding decided_at
  undecided key h = rw h refl

  gather-undecided :
      (goal : Str) (o : Options) (items : List Item) (cands : List Candidate) (g : Gathered)
      → c.decided ≡ []
      → (gather w c goal o items cands g).answers ≡ g.answers
  unfolding gather gather_one
  gather-undecided goal o items [] g h = refl
  gather-undecided goal o items (cand ∷ cands) g h =
      ap (λ d. (gather w c goal o items cands (gather_one cand d g)).answers)
        (undecided (compact_key w c goal o items cand) h)
      ∙ gather-undecided goal o items cands (record g { uncached = g.uncached ++ (cand ∷ []) }) h

  cached-Unharmed :
      (o : Options) (items : List Item) (f : FittedState) (g : Gathered)
      → c.decided ≡ []
      → g.answers ≡ no_answers
      → Unharmed items (answer_from_cache c o items f g)
  unfolding Unharmed answer_from_cache
  cached-Unharmed o items f g d a =
      let (r, e, p) = compact_unanswered items o in
      (cached_asked c f g r, rw (a, e) refl, p, d, inl refl)

  remote-Unharmed :
      (goal : Str) (o : Options) (items : List Item) (f : FittedState) (g : Gathered) (state : Json)
      (batches : List (List Candidate))
      → is_live c ≡ true
      → c.decided ≡ []
      → g.answers ≡ no_answers
      → Unharmed items (answer_remotely w c goal o items f g (map (ask_batch w c state) batches))
  unfolding Unharmed answer_remotely
  remote-Unharmed goal o items f g state batches live d a =
      let runs = map (ask_batch w c state) batches in
      let m = merge_runs w c goal o items runs (merge_start c g) in
      let (same, still, err) = merge-down goal o items state batches (merge_start c g) live in
      let (r, e, p) = compact_unanswered items o in
      (
        remote_asked c f g runs m r,
        ap (λ y. y >>= λ s. ok (remote_asked c f g runs m s))
            (ap (λ y. compact items y o) (same ∙ a) ∙ e),
        p,
        still ∙ d,
        elim err [ inl found ↦ inr found | inr (none_left, f) ↦ inl none_left ],
      )

  by_uncached-Unharmed :
      (items : List Item) (cands : List Candidate) (x y : Go CompactAsked)
      → Unharmed items x
      → Unharmed items y
      → Unharmed items (by_uncached cands x y)
  by_uncached-Unharmed items [] x y f g = f
  by_uncached-Unharmed items (c ∷ cs) x y f g = g

  live-Unharmed :
      (goal : Str) (o : Options) (items : List Item)
      → is_live c ≡ true
      → c.decided ≡ []
      → Unharmed items (answer_live w c goal o items)
  unfolding answer_live batch_runs
  live-Unharmed goal o items live d =
      let cands = unpinned (collect_candidates items (resolve_recent o.preserve_recent)) in
      let a = gather-undecided goal (resolve o) items cands nothing_gathered d in
      by_uncached-Unharmed items _ _ _ (cached-Unharmed (resolve o) items _ _ d a)
        (remote-Unharmed goal (resolve o) items _ _ _ _ live d a)

-- If the transport gives no reply to any request and no candidate has been decided before,
-- AskCompactContext of a live client returns the items as they are, decides nothing, and reports an
-- error unless it sent no request.
pub ask_compact-Unharmed :
    (w : CompactWorld) (c : Client) (goal : Str) (o : Options) (items : List Item)
    → ((b : Str) → (x : Context) × (w.world.send c b ≡ no_reply x))
    → is_live c ≡ true
    → c.decided ≡ []
    → Unharmed items (ask_compact w c goal o items)
unfolding ask_compact
ask_compact-Unharmed w c goal o items down live d =
    rw live (live-Unharmed w c down goal o items live d)
