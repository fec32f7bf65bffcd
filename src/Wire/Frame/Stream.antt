-- ===== src/Wire/Frame/Stream.antt =====
-- Framing round trip, and what a reader of the rewritten stream sees.
use native.Mathlib.Nat.{mod-eq_of_lt}
use jev_routing.Prelude.{
  le→ltb, ℕ, ◌+◌, ◌%◌, ◌^◌, ◌≤◌, ◌<◌, ◌≡◌, refl, sym, ◌∙◌, Bool, true, false, [], ◌∷◌, ◌++◌,
  if◌then◌else◌, length, take, drop, arith, append_assoc, append-nil, take-append-drop,
  length-append, drop-length-append, take-length-append, length-drop, Bool-cases, ◌⊎◌, inl, inr,
}
use jev_routing.Wire.Varint.{Bytes}
use jev_routing.Wire.Frame.{
  max_request_body_bytes, put_uint32, uint32, connect_frame, read_payload, read_connect_frame,
  Emitter, Emitted, is_empty, emit_copy, or_frame, emit_fill, emit_connect_frame,
  looks_connect_frame,
}

uint32-put : (n : ℕ) → n < 2 ^ 32 → uint32 (put_uint32 n) ≡ n
unfolding uint32 put_uint32
uint32-put n h = omega arith

read_payload_whole :
    (hdr payload rest : Bytes)
    → length payload ≤ max_request_body_bytes
    → read_payload hdr (length payload) (payload ++ rest)
      ≡ record { frame = hdr ++ payload; complete = true; left = rest }
unfolding read_payload
read_payload_whole hdr [] rest small = ground (arith, append-nil hdr)
read_payload_whole hdr (b ∷ bs) rest small =
    rw (take-length-append (b ∷ bs) rest, drop-length-append (b ∷ bs) rest)
      (ground (arith, length-append (b ∷ bs) rest))

-- readConnectFrame reads back every frame that connectFrame built from a payload within the body
-- limit, and leaves what follows it in the reader.
read-connect_frame :
    (flags : ℕ) (payload rest : Bytes)
    → length payload ≤ max_request_body_bytes
    → read_connect_frame (connect_frame flags payload ++ rest)
      ≡ record { frame = connect_frame flags payload; complete = true; left = rest }
unfolding read_connect_frame connect_frame put_uint32
read-connect_frame flags payload rest small =
    let n : length payload % 2 ^ 32 ≡ length payload = mod-eq_of_lt (omega arith) in
    rw
      (
        uint32-put (length payload % 2 ^ 32) (omega arith),
        n,
        le→ltb (length (connect_frame flags payload ++ rest)) 5 (omega arith),
      )
      (read_payload_whole (flags ∷ put_uint32 (length payload)) payload rest small)

-- looksConnectFrame accepts what connectFrame builds with a flag byte up to 3.
looks-connect_frame :
    (flags : ℕ) (payload : Bytes)
    → flags ≤ 3
    → length payload < 2 ^ 32
    → looks_connect_frame (connect_frame flags payload) ≡ true
unfolding looks_connect_frame connect_frame put_uint32 uint32
looks-connect_frame flags payload small fits = ground arith

-- A frame that connectFrame builds with a flag byte up to 3 and a payload within the body limit is
-- recognised by looksConnectFrame, and readConnectFrame reads it back and leaves what follows it.
pub recognised-connect_frame :
    (flags : ℕ) (payload rest : Bytes)
    → flags ≤ 3
    → length payload ≤ max_request_body_bytes
    → (looks_connect_frame (connect_frame flags payload) ≡ true)
      × (read_connect_frame (connect_frame flags payload ++ rest)
          ≡ record { frame = connect_frame flags payload; complete = true; left = rest })
recognised-connect_frame flags payload rest small fits = (
  looks-connect_frame flags payload small (omega arith),
  read-connect_frame flags payload rest fits,
)

is_empty-nil : (b : Bytes) (ended : Bool) → (if is_empty b then ended else false) ≡ true → b ≡ []
is_empty-nil [] ended h = refl
is_empty-nil (x ∷ b) ended h = cc

take_header : (hdr b : Bytes) → length hdr ≡ 5 → take 5 (hdr ++ b) ≡ hdr
take_header hdr b h = rw (← h) (take-length-append hdr b)

drop_header : (hdr b : Bytes) → length hdr ≡ 5 → drop 5 (hdr ++ b) ≡ b
drop_header hdr b h = rw (← h) (drop-length-append hdr b)

-- The stream ends inside a frame: in its header, or in a payload within the body limit.
abbrev pub IsCut : Bytes → Type 0
IsCut src =
    (length src < 5)
    ⊎ ((5 ≤ length src)
        × (uint32 (drop 1 (take 5 src)) ≤ max_request_body_bytes)
        × (length src < 5 + uint32 (drop 1 (take 5 src))))

read-whole :
    (hdr payload rest : Bytes)
    → length hdr ≡ 5
    → uint32 (drop 1 hdr) ≡ length payload
    → length payload ≤ max_request_body_bytes
    → read_connect_frame (hdr ++ (payload ++ rest))
      ≡ record { frame = hdr ++ payload; complete = true; left = rest }
unfolding read_connect_frame
read-whole hdr payload rest five announced small =
    rw
      (
        take_header hdr (payload ++ rest) five,
        drop_header hdr (payload ++ rest) five,
        announced,
        le→ltb (length (hdr ++ (payload ++ rest))) 5
            (omega (arith, length-append hdr (payload ++ rest))),
      )
      (read_payload_whole hdr payload rest small)

read_payload_cut :
    (hdr rest : Bytes) (ln : ℕ)
    → ln ≤ max_request_body_bytes
    → length rest < ln
    → read_payload hdr ln rest ≡ record { frame = hdr ++ rest; complete = false; left = [] }
unfolding read_payload
read_payload_cut hdr rest ln small short = ground arith

read-cut :
    (src : Bytes)
    → IsCut src
    → read_connect_frame src ≡ record { frame = src; complete = false; left = [] }
unfolding read_connect_frame
read-cut src (inl short) = ground arith
read-cut src (inr (five, small, short)) =
    rw
      (
        le→ltb (length src) 5 five,
        read_payload_cut (take 5 src) (drop 5 src) (uint32 (drop 1 (take 5 src))) small
            (omega (arith, length-drop 5 src)),
        take-append-drop 5 src,
      )
      refl

module _ (rewrite : Bytes → Bytes) where
  -- What a reader of `src` is to get in the end: each whole frame rewritten, or as it was where the
  -- rewriting is empty, then all bytes of the frame in which the stream ends. A frame is a header of
  -- five bytes and as many bytes as it announces, at most the body limit.
  pub data Stream : Bytes → Bytes → Type 0 where
    cut : {src : Bytes} → IsCut src → Stream src src
    whole :
        (hdr payload : Bytes) {rest total : Bytes}
        → length hdr ≡ 5
        → uint32 (drop 1 hdr) ≡ length payload
        → length payload ≤ max_request_body_bytes
        → Stream rest total
        → Stream
            (hdr ++ (payload ++ rest))
            (or_frame (rewrite (hdr ++ payload)) (hdr ++ payload) ++ total)

  -- `total` is what calls from state `s` on will hand out.
  pub data Pending (s : Emitter) (total : Bytes) : Type 0 where
    at_end : s.ended ≡ true → total ≡ s.buf → Pending s total
    going_on :
        (rest : Bytes)
        → s.ended ≡ false
        → Stream s.src rest
        → total ≡ s.buf ++ rest
        → Pending s total

  abbrev pub Conserves : Bytes → Emitted → Type 0
  Conserves total e =
      (after : Bytes) × Pending e.next after
      × (total ≡ e.out ++ after)
      × (e.eof ≡ true → after ≡ [])

  emit_copy-Conserves :
      (room : ℕ) (s : Emitter) (total : Bytes)
      → Pending s total
      → Conserves total (emit_copy room s)
  unfolding emit_copy
  emit_copy-Conserves room s total (at_end e t) = (
    drop room s.buf,
    at_end e refl,
    rw t (sym (take-append-drop room s.buf)),
    is_empty-nil (drop room s.buf) s.ended,
  )
  emit_copy-Conserves room s total (going_on rest e st t) = (
    drop room s.buf ++ rest,
    going_on rest e st refl,
    rw (t, ← append_assoc, take-append-drop room s.buf),
    λ eof. absurd (ground arith),
  )

  last_copy :
      (room : ℕ) (b src : Bytes)
      → let s : Emitter = record { buf = b; ended = true; src = src } in
        Conserves b
          (if is_empty b then record { out = []; eof = true; next = s } else emit_copy room s)
  last_copy room [] src = ([], at_end refl refl, refl, λ _. refl)
  last_copy room (x ∷ b) src = emit_copy-Conserves room _ (x ∷ b) (at_end refl refl)

  emit_fill-Conserves :
      (room : ℕ) (src total : Bytes)
      → Stream src total
      → Conserves total (emit_fill rewrite room (read_connect_frame src))
  unfolding emit_fill
  emit_fill-Conserves room src total (cut c) = rw (read-cut src c) (last_copy room src [])
  emit_fill-Conserves room src total
        (whole hdr payload {rest} {total = after} five announced small st) =
      rw (read-whole hdr payload rest five announced small)
        (emit_copy-Conserves room _ _ (going_on after refl st refl))

  -- On a stream of frames within the body limit, of which the last may be cut off, each call of
  -- emitConnectFrame hands out the next bytes of the rewritten stream, whose end are the bytes of the
  -- frame that is cut off, unchanged: what the call copies, followed by what is pending behind it, is
  -- what was pending before, and io.EOF is reported only when nothing is left.
  pub emit-Conserves :
      (room : ℕ) (s : Emitter) (total : Bytes)
      → Pending s total
      → Conserves total (emit_connect_frame rewrite room s)
  unfolding emit_connect_frame
  emit-Conserves room s total p = elim (Bool-cases (is_empty s.buf)) [
    | inl empty ↦ rw empty (refill p (is_empty-nil s.buf true (rw empty)))
    | inr full ↦ rw full (emit_copy-Conserves room s total p)
  ]
    where
      refill :
          Pending s total
          → s.buf ≡ []
          → Conserves total (
              if s.ended
              then record { out = []; eof = true; next = s }
              else emit_fill rewrite room (read_connect_frame s.src))
      refill (at_end e t) none_left =
          rw e ([], at_end refl (sym none_left), t ∙ none_left, λ _. refl)
      refill (going_on rest e st t) none_left =
          rw (e, t, none_left) (emit_fill-Conserves room s.src rest st)
