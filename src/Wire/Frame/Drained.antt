-- ===== src/Wire/Frame/Drained.antt =====
-- A reader that calls emitConnectFrame until it gets io.EOF.
use jev_routing.Prelude.{
  ℕ, zero, suc, ◌+◌, ◌<◌, ◌≡◌, refl, sym, ap, ◌∙◌, Bool, true, false, List, [], ◌∷◌, ◌++◌, All,
  if◌then◌else◌, length, take, arith, append-nil, length-append, Bool-cases, inl, inr,
}
use jev_routing.Wire.Varint.{Bytes}
use jev_routing.Wire.Frame.{
  read_payload, read_connect_frame, Emitter, Emitted, is_empty, emit_copy, or_frame, emit_fill,
  emit_connect_frame,
}
use jev_routing.Wire.Frame.Stream.{Pending, emit-Conserves}

-- A call gives a byte or reports the end.
abbrev Moves : Emitted → Type 0
Moves e = e.eof ≡ false → 0 < length e.out

taken : (room : ℕ) (x : ℕ) (b : Bytes) → 0 < room → 0 < length (take room (x ∷ b))
taken zero x b h = absurd (omega arith)
taken (suc n) x b h = omega arith

emit_copy-Moves :
    (room : ℕ) (s : Emitter) → 0 < room → is_empty s.buf ≡ false → Moves (emit_copy room s)
unfolding emit_copy
emit_copy-Moves room s h full eof = full_take s.buf full
  where
    full_take : (b : Bytes) → is_empty b ≡ false → 0 < length (take room b)
    full_take [] e = cc
    full_take (x ∷ b) e = taken room x b h

nonempty : (b : Bytes) → 0 < length b → is_empty b ≡ false
nonempty [] h = absurd (omega arith)
nonempty (x ∷ b) h = refl

-- A whole frame has a header.
read-nonempty :
    (src : Bytes)
    → (read_connect_frame src).complete ≡ true
    → is_empty (read_connect_frame src).frame ≡ false
unfolding read_connect_frame read_payload
read-nonempty [] h = cc
read-nonempty (a ∷ src) h = nonempty _ (ground arith)

or_frame-full : (out frame : Bytes) → is_empty frame ≡ false → is_empty (or_frame out frame) ≡ false
or_frame-full [] frame h = h
or_frame-full (x ∷ out) frame h = refl

module _ (rewrite : Bytes → Bytes) where
  last_copy-Moves :
      (room : ℕ) (b src : Bytes)
      → 0 < room
      → let s : Emitter = record { buf = b; ended = true; src = src } in
        Moves (if is_empty b then record { out = []; eof = true; next = s } else emit_copy room s)
  last_copy-Moves room [] src h eof = cc
  last_copy-Moves room (x ∷ b) src h eof = emit_copy-Moves room _ h refl eof

  emit_fill-Moves :
      (room : ℕ) (src : Bytes) → 0 < room → Moves (emit_fill rewrite room (read_connect_frame src))
  unfolding emit_fill
  emit_fill-Moves room src h = elim (Bool-cases (read_connect_frame src).complete) [
    | inl whole ↦ rw whole (
        emit_copy-Moves room _ h
          (or_frame-full (rewrite (read_connect_frame src).frame) _ (read-nonempty src whole)))
    | inr cut ↦ rw cut (last_copy-Moves room _ _ h)
  ]

  emit-Moves : (room : ℕ) (s : Emitter) → 0 < room → Moves (emit_connect_frame rewrite room s)
  unfolding emit_connect_frame
  emit-Moves room s h = elim (Bool-cases (is_empty s.buf)) [
    | inr full ↦ rw full (emit_copy-Moves room s h full)
    | inl empty ↦ elim (Bool-cases s.ended) [
      | inl over ↦ rw (empty, over) (λ eof. cc)
      | inr going ↦ rw (empty, going) (emit_fill-Moves room s.src h)
    ]
  ]

  -- What a reader has that calls with buffers of these sizes, at most until io.EOF, and whether it got
  -- io.EOF.
  unfoldable pub drain : List ℕ → Emitter → Bytes × Bool
  drain [] s = ([], false)
  drain (room ∷ rooms) s =
      let e = emit_connect_frame rewrite room s in
      let rest = drain rooms e.next in if e.eof then (e.out, true) else (e.out ++ rest.0, rest.1)

  -- On a stream of frames within the body limit, of which the last may be cut off, a reader with
  -- buffers that are not empty gets io.EOF from emitConnectFrame within as many calls as bytes are
  -- pending and one more, and by then all these bytes and no others.
  pub drain_lem :
      (rooms : List ℕ) (s : Emitter) (total : Bytes)
      → All (λ room. 0 < room) rooms
      → length total < length rooms
      → Pending rewrite s total
      → drain rooms s ≡ (total, true)
  unfolding drain
  drain_lem [] s total a enough p = absurd (omega arith)
  drain_lem (room ∷ rooms) s total a enough p =
      let e = emit_connect_frame rewrite room s in
      let (after, pending, split, ends) = emit-Conserves rewrite room s total p in
      elim (Bool-cases e.eof) [
        | inl eof ↦
            let whole : e.out ≡ total =
              sym (append-nil e.out) ∙ (ap (λ b. e.out ++ b) (sym (ends eof)) ∙ sym split) in
            rw (eof, whole) refl
        | inr more ↦
            let moved = emit-Moves room s a.0 more in
            let less : length total ≡ length e.out + length after =
              ap length split ∙ length-append e.out after in
            rw (more, drain_lem rooms e.next after a.1 (omega arith) pending, split) refl
      ]
