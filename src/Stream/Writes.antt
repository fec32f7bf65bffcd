-- ===== src/Stream/Writes.antt =====
-- Several writes to a collector.
use jev_routing.Prelude.{
  ℕ, zero, suc, ◌≡◌, refl, sym, ap, ◌∙◌, Bool, true, false, List, [], ◌∷◌, ◌++◌, append_assoc,
  append-nil, concat, ltb, if◌then◌else◌, length, Bool-cases, Option-cases, inl, inr,
}
use jev_routing.Text.{Str}
use jev_routing.Stream.{parse_limit, index_new_line, Collector, Scan, lines_loop, feed}
use jev_routing.Stream.Chunks.{
  next_scan, more_of, loop-none, loop-some, feed-loop, feed-stopped, feed-append,
}

-- The writes of a client, in their order.
unfoldable pub writes_by : {S : Type 0} → (Str → Scan S → Scan S) → List Str → Scan S → Scan S
writes_by write [] x = x
writes_by write (p ∷ ps) x = writes_by write ps (write p x)

module _ {S : Type 0} (c : Collector S) where
  unfoldable pub feeds : List Str → Scan S → Scan S
  feeds [] x = x
  feeds (p ∷ ps) x = feeds ps (feed c p x)

  feeds-stopped : (ps : List Str) (x : Scan S) → c.stopped x.state ≡ true → feeds ps x ≡ x
  unfolding feeds
  feeds-stopped [] x h = refl
  feeds-stopped (p ∷ ps) x h = rw (feed-stopped c p x h) (feeds-stopped ps x h)

  feeds-running :
      (ps : List Str) (x : Scan S)
      → c.stopped (feeds ps x).state ≡ false
      → c.stopped x.state ≡ false
  feeds-running ps x h = elim (Bool-cases (c.stopped x.state)) [
    | inl over ↦ let k : c.stopped x.state ≡ false = rw (feeds-stopped ps x over) at h in k
    | inr running ↦ running
  ]

  -- Any writes have the effect of one write of all their bytes, where the collector has not stopped.
  feeds-concat :
      (p : Str) (ps : List Str) (x : Scan S)
      → c.stopped (feeds (p ∷ ps) x).state ≡ false
      → feeds (p ∷ ps) x ≡ feed c (p ++ concat ps) x
  unfolding feeds
  feeds-concat p [] x going = ap (λ b. feed c b x) (sym (append-nil p))
  feeds-concat p (q ∷ ps) x going =
      let join = feed-append c p q x (feeds-running (q ∷ ps) (feed c p x) going) in
      let later : c.stopped (feeds ps (feed c q (feed c p x))).state ≡ false = going in
      ap (feeds ps) join
      ∙ (feeds-concat (p ++ q) ps x (rw join at later)
          ∙ ap (λ b. feed c b x) (append_assoc p q (concat ps)))

  module _ (P : S → Type 0) (line : (l : Str) (s : S) → P s → P (c.on_line l s))
      (over : (s : S) → P s → P (c.overflow s)) where
    lines_loop-keeps : (f : ℕ) (x : Scan S) → P x.state → P (lines_loop c f x).state
    unfolding lines_loop
    lines_loop-keeps zero x h = h
    lines_loop-keeps (suc f) x h = elim (Option-cases (index_new_line x.buf)) [
      | inl e ↦ rw (loop-none c f x e) (by_room (ltb parse_limit (length x.buf)))
      | inr (n, e) ↦
          rw (loop-some c f n x e) (lines_loop-keeps f (next_scan c n x) (line _ x.state h))
    ]
      where
        by_room :
            (b : Bool) → P (if b then record { buf = []; state = c.overflow x.state } else x).state
        by_room true = over x.state h
        by_room false = h

    feed-keeps : (p : Str) (x : Scan S) → P x.state → P (feed c p x).state
    feed-keeps p x h = elim (Bool-cases (c.stopped x.state)) [
      | inl done ↦ rw (feed-stopped c p x done) h
      | inr running ↦ rw (feed-loop c p x running) (lines_loop-keeps _ (more_of c p x) h)
    ]

    -- A client that writes by `feed` while it is in a state that lines keep.
    pub writes_by-feed :
        (write : Str → Scan S → Scan S)
        → ((p : Str) (x : Scan S) → P x.state → write p x ≡ feed c p x)
        → (p : Str) (ps : List Str) (x : Scan S) → P x.state
        → c.stopped (writes_by write (p ∷ ps) x).state ≡ false
        → writes_by write (p ∷ ps) x ≡ write (p ++ concat ps) x
    unfolding writes_by feeds
    writes_by-feed write same p ps x h going =
        let all = by_feeds (p ∷ ps) x h in
        all ∙ (feeds-concat p ps x (rw all at going) ∙ sym (same (p ++ concat ps) x h))
      where
        by_feeds : (ps : List Str) (x : Scan S) → P x.state → writes_by write ps x ≡ feeds ps x
        by_feeds [] x h = refl
        by_feeds (p ∷ ps) x h =
            ap (writes_by write ps) (same p x h) ∙ by_feeds ps (feed c p x) (feed-keeps p x h)
