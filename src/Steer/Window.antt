-- ===== src/Steer/Window.antt =====
-- The turns that codexBuildState sends.
use jev_routing.Prelude.{
  ℕ, ◌+◌, ◌≤◌, ◌<◌, ◌≡◌, refl, sym, ap, ◌∙◌, ◌⊎◌, inl, inr, Bool, true, false, not, ◌&&◌, List, [],
  ◌∷◌, ◌++◌, ltb, if◌then◌else◌, length, length-append, append_assoc, append-nil, arith, Bool-cases,
}
use jev_routing.Text.{Str}
use jev_routing.Json.{Json}
use jev_routing.Steer.Turns.{Turn}
use jev_routing.Steer.Turns.Limits.{
  max_state, none_kept, keep_loop, reversed_onto, turn_size, kept_turns, build_state,
}

module _ (size : Turn → ℕ) where
  unfoldable pub total : List Turn → ℕ
  total [] = 0
  total (t ∷ ts) = size t + total ts

  keep_loop-suffix :
      (ts kept : List Turn) (used : ℕ)
      → (front : List Turn) × (reversed_onto ts kept ≡ front ++ keep_loop size used ts kept)
  unfolding keep_loop reversed_onto
  keep_loop-suffix [] kept used = ([], refl)
  keep_loop-suffix (t ∷ ts) kept used =
      by_budget (ltb max_state (used + size t) && not (none_kept kept))
        (keep_loop-suffix ts (t ∷ kept) (used + size t))
    where
      pushed : (us acc : List Turn) → (front : List Turn) × (reversed_onto us acc ≡ front ++ acc)
      pushed [] acc = ([], refl)
      pushed (u ∷ us) acc =
          let (front, e) = pushed us (u ∷ acc) in
          (front ++ (u ∷ []), e ∙ sym (append_assoc front (u ∷ []) acc))

      by_budget :
          (b : Bool)
          → ((front : List Turn) × (reversed_onto ts (t ∷ kept)
                ≡ front ++ keep_loop size (used + size t) ts (t ∷ kept)))
          → (front : List Turn) × (reversed_onto ts (t ∷ kept)
              ≡ front ++ (if b then kept else keep_loop size (used + size t) ts (t ∷ kept)))
      by_budget false later = later
      by_budget true later =
          let (front, e) = pushed ts (t ∷ kept) in
          (front ++ (t ∷ []), e ∙ sym (append_assoc front (t ∷ []) kept))

  keep_loop-grows :
      (ts kept : List Turn) (used : ℕ) → length kept ≤ length (keep_loop size used ts kept)
  unfolding keep_loop
  keep_loop-grows [] kept used = omega arith
  keep_loop-grows (t ∷ ts) kept used = ground (arith, keep_loop-grows ts (t ∷ kept) (used + size t))

  keep_loop-nonempty :
      (ts : List Turn) (used : ℕ) → 0 < length ts → 0 < length (keep_loop size used ts [])
  unfolding keep_loop
  keep_loop-nonempty [] used h = h
  keep_loop-nonempty (t ∷ ts) used h = ground (arith, keep_loop-grows ts (t ∷ []) (used + size t))

  total-nil : (n : ℕ) → n ≡ n + total []
  unfolding total
  total-nil n = omega arith

  abbrev pub Fits : ℕ → List Turn → Type 0
  Fits start kept = (start + total kept ≤ max_state) ⊎ (length kept ≤ 1)

  keep_loop-Fits :
      (start : ℕ) (ts kept : List Turn) (used : ℕ)
      → used ≡ start + total kept
      → Fits start kept
      → Fits start (keep_loop size used ts kept)
  unfolding keep_loop total
  keep_loop-Fits start [] kept used e f = f
  keep_loop-Fits start (t ∷ ts) kept used e f =
      elim (Bool-cases (ltb max_state (used + size t) && not (none_kept kept))) [
        | inl spent ↦ rw spent f
        | inr room ↦
            rw room
              (keep_loop-Fits start ts (t ∷ kept) (used + size t) (omega arith) (more kept e room))
      ]
    where
      more :
          (old : List Turn)
          → used ≡ start + total old
          → (ltb max_state (used + size t) && not (none_kept old)) ≡ false
          → Fits start (t ∷ old)
      more [] d r = inr (omega arith)
      more (o ∷ old) d r = inl (ground arith)

reversed_twice :
    (xs acc ys : List Turn) → reversed_onto (reversed_onto xs acc) ys ≡ reversed_onto acc (xs ++ ys)
unfolding reversed_onto
reversed_twice [] acc ys = refl
reversed_twice (x ∷ xs) acc ys = reversed_twice xs (x ∷ acc) ys

reversed_onto-nonempty :
    (xs acc : List Turn) → (0 < length xs) ⊎ (0 < length acc) → 0 < length (reversed_onto xs acc)
unfolding reversed_onto
reversed_onto-nonempty [] acc (inl h) = omega arith
reversed_onto-nonempty [] acc (inr h) = h
reversed_onto-nonempty (x ∷ xs) acc h = reversed_onto-nonempty xs (x ∷ acc) (inr (omega arith))

-- The turns that codexBuildState sends are the last ones, in their order, behind exactly as many as
-- it reports omitted; there is at least one where the conversation has one; and together with the
-- instructions they are within the limit, unless a single turn is sent.
pub build_state-window :
    (marshal : Json → Str) (system : Str) (turns : List Turn)
    → let s = build_state marshal system turns in
      (front : List Turn) × (turns ≡ front ++ s.conversation)
      × (s.omitted ≡ length front)
      × (0 < length turns → 0 < length s.conversation)
      × Fits (turn_size marshal) (length system) s.conversation
unfolding build_state kept_turns reversed_onto
build_state-window marshal system turns =
    let size = turn_size marshal in
    let kept = keep_loop size (length system) (reversed_onto turns []) [] in
    let start : length system ≡ length system + total size [] = total-nil size (length system) in
    let (front, e) = keep_loop-suffix size (reversed_onto turns []) [] (length system) in
    let whole : turns ≡ front ++ kept =
      sym (append-nil turns) ∙ (sym (reversed_twice turns [] []) ∙ e) in
    (
      front,
      whole,
      ground (arith, ap length whole, length-append front kept),
      λ h.
          keep_loop-nonempty size (reversed_onto turns []) (length system)
            (reversed_onto-nonempty turns [] (inl h)),
      keep_loop-Fits size (length system) (reversed_onto turns []) [] (length system) start
          (inr (omega arith)),
    )
