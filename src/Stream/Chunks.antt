-- ===== src/Stream/Chunks.antt =====
-- Two writes to a collector, and one.
use jev_routing.Prelude.{
  ℕ, zero, suc, ◌+◌, ◌<◌, ◌⊎◌, ◌≡◌, sym, ap, ◌∙◌, true, false, none, some, [], ◌∷◌, ◌++◌,
  append_assoc, ltb, ◌==◌, if◌then◌else◌, length, length-append, length-drop, take, drop,
  drop-append, take-append, arith, Bool-cases, Option-cases, inl, inr,
}
use jev_routing.Text.{Str}
use jev_routing.Stream.{
  parse_limit, index_new_line, without_return, Collector, Scan, lines_loop, feed,
}

index_new_line-bound : (s : Str) (n : ℕ) → index_new_line s ≡ some n → n < length s
unfolding index_new_line
index_new_line-bound [] n e = absurd (ground arith)
index_new_line-bound (b ∷ s) n e = elim (Bool-cases (b == b'\n')) [
  | inl here ↦ let h : some 0 ≡ some n = rw here at e in ground (arith, h)
  | inr later ↦ elim (Option-cases (index_new_line s)) [
    | inl none_there ↦ absurd (ground (arith, rw (later, none_there) at e))
    | inr (k, found) ↦
        let h : some (k + 1) ≡ some n = rw (later, found) at e in
        ground (arith, h, index_new_line-bound s k found)
  ]
]

index_new_line-append :
    (s t : Str) (n : ℕ) → index_new_line s ≡ some n → index_new_line (s ++ t) ≡ some n
unfolding index_new_line
index_new_line-append [] t n e = absurd (ground arith)
index_new_line-append (b ∷ s) t n e = elim (Bool-cases (b == b'\n')) [
  | inl here ↦ rw here (rw here at e)
  | inr later ↦ elim (Option-cases (index_new_line s)) [
    | inl none_there ↦ absurd (ground (arith, rw (later, none_there) at e))
    | inr (k, found) ↦ rw (later, index_new_line-append s t k found) (rw (later, found) at e)
  ]
]

module _ {S : Type 0} (c : Collector S) where
  -- The scan after the line that ends at `n`.
  abbrev pub next_scan : ℕ → Scan S → Scan S
  next_scan n x = record {
    buf = drop (n + 1) x.buf;
    state = c.on_line (without_return (take n x.buf)) x.state;
  }

  -- The scan with more in its buffer.
  abbrev pub more_of : Str → Scan S → Scan S
  more_of q x = record x { buf = x.buf ++ q }

  pub loop-none :
      (fuel : ℕ) (x : Scan S)
      → index_new_line x.buf ≡ none
      → lines_loop c (suc fuel) x ≡ (
          if ltb parse_limit (length x.buf)
          then record { buf = []; state = c.overflow x.state }
          else x)
  unfolding lines_loop
  loop-none fuel x e = rw (lines_loop, e)

  pub loop-some :
      (fuel n : ℕ) (x : Scan S)
      → index_new_line x.buf ≡ some n
      → lines_loop c (suc fuel) x ≡ lines_loop c fuel (next_scan n x)
  unfolding lines_loop
  loop-some fuel n x e = rw (lines_loop, e)

  shorter :
      (n : ℕ) (x : Scan S)
      → index_new_line x.buf ≡ some n
      → length (next_scan n x).buf < length x.buf
  shorter n x e = omega (arith, index_new_line-bound x.buf n e, length-drop (n + 1) x.buf)

  loop-fuel :
      (f g : ℕ) (x : Scan S)
      → length x.buf < f
      → length x.buf < g
      → lines_loop c f x ≡ lines_loop c g x
  loop-fuel zero g x hf hg = absurd (omega arith)
  loop-fuel (suc f) zero x hf hg = absurd (omega arith)
  loop-fuel (suc f) (suc g) x hf hg = elim (Option-cases (index_new_line x.buf)) [
    | inl e ↦ loop-none f x e ∙ sym (loop-none g x e)
    | inr (n, e) ↦
        let less = shorter n x e in
        loop-some f n x e
        ∙ (loop-fuel f g (next_scan n x) (omega arith) (omega arith) ∙ sym (loop-some g n x e))
  ]

  next-more :
      (n : ℕ) (x : Scan S) (q : Str)
      → index_new_line x.buf ≡ some n
      → next_scan n (more_of q x) ≡ more_of q (next_scan n x)
  next-more n x q e =
      let bound = index_new_line-bound x.buf n e in
      λ i. record {
        buf = drop-append (n + 1) x.buf q (omega arith) i;
        state = c.on_line (without_return (take-append n x.buf q (omega arith) i)) x.state;
      }

  -- The loop ends since no line is complete.
  paused :
      (f g : ℕ) (x : Scan S) (q : Str)
      → index_new_line x.buf ≡ none
      → length (x.buf ++ q) < g
      → c.stopped (lines_loop c (suc f) x).state ≡ false
      → (ltb parse_limit (length x.buf) ≡ true) ⊎ (ltb parse_limit (length x.buf) ≡ false)
      → lines_loop c g (more_of q x)
        ≡ lines_loop c
            (suc (length ((lines_loop c (suc f) x).buf ++ q)))
            (more_of q (lines_loop c (suc f) x))
  paused f g x q e hg going (inl over) =
      let h : c.stopped (c.overflow x.state) ≡ false = rw (loop-none f x e, over) at going in
      absurd (ground (arith, h, c.stops x.state))
  paused f g x q e hg going (inr room) =
      let same : lines_loop c (suc f) x ≡ x = loop-none f x e ∙ rw room in
      rw same (loop-fuel g (suc (length (x.buf ++ q))) (more_of q x) hg (omega arith))

  loop-more :
      (f g : ℕ) (x : Scan S) (q : Str)
      → length x.buf < f
      → length (x.buf ++ q) < g
      → c.stopped (lines_loop c f x).state ≡ false
      → lines_loop c g (more_of q x)
        ≡ lines_loop c (suc (length ((lines_loop c f x).buf ++ q))) (more_of q (lines_loop c f x))
  loop-more zero g x q hf hg going = absurd (omega arith)
  loop-more (suc f) zero x q hf hg going = absurd (omega arith)
  loop-more (suc f) (suc g) x q hf hg going = elim (Option-cases (index_new_line x.buf)) [
    | inl e ↦
        paused f (suc g) x q e (omega arith) going (Bool-cases (ltb parse_limit (length x.buf)))
    | inr (n, e) ↦
        let less = shorter n x e in
        let after = loop-some f n x e in
        let size = length-append x.buf q in
        let size' = length-append (next_scan n x).buf q in
        loop-some g n (more_of q x) (index_new_line-append x.buf q n e)
        ∙ (ap (lines_loop c g) (next-more n x q e)
            ∙ (loop-more f g (next_scan n x) q (omega arith) (omega arith) (rw after at going)
                ∙ ap (λ (y : Scan S). lines_loop c (suc (length (y.buf ++ q))) (more_of q y))
                    (sym after)))
  ]

  pub feed-loop :
      (p : Str) (x : Scan S)
      → c.stopped x.state ≡ false
      → feed c p x ≡ lines_loop c (suc (length (x.buf ++ p))) (more_of p x)
  unfolding feed
  feed-loop p x h = rw h

  pub feed-stopped : (p : Str) (x : Scan S) → c.stopped x.state ≡ true → feed c p x ≡ x
  unfolding feed
  feed-stopped p x h = rw h

  -- Two writes have the same effect as one write of both, where the collector has not stopped after
  -- the first of them.
  pub feed-append :
      (p q : Str) (x : Scan S)
      → c.stopped (feed c p x).state ≡ false
      → feed c q (feed c p x) ≡ feed c (p ++ q) x
  feed-append p q x going = elim (Bool-cases (c.stopped x.state)) [
    | inl over ↦
        let h : c.stopped x.state ≡ false = rw (feed-stopped p x over) at going in
        absurd (ground (arith, over, h))
    | inr running ↦
        let first = feed-loop p x running in
        let size = suc (length (x.buf ++ p)) in
        feed-loop q (feed c p x) going
        ∙ (ap (λ (y : Scan S). lines_loop c (suc (length (y.buf ++ q))) (more_of q y)) first
            ∙ (sym (
                  loop-more size (suc (length ((x.buf ++ p) ++ q))) (more_of p x) q (omega arith)
                    (omega arith) (rw first at going))
                ∙ (ap (λ b. lines_loop c (suc (length b)) (record x { buf = b }))
                      (append_assoc x.buf p q)
                    ∙ sym (feed-loop (p ++ q) x running))))
  ]
