-- ===== src/Compact/Batches.antt =====
-- BatchCandidates of internal/compact/state.go. `size` is the estimate of a candidate's questions.
use jev_routing.Prelude.{
  ℕ, ◌+◌, ◌≤◌, ◌≡◌, refl, ap, ◌∙◌, ◌⊎◌, inl, inr, Bool, true, false, not, ◌&&◌, Option, none, some,
  List, [], ◌∷◌, ◌++◌, ltb, if◌then◌else◌, length, concat, All, Bool-cases, append_assoc,
  length-append, arith,
}
use jev_routing.Text.{Str}
use jev_routing.Compact.{Options, resolve, Candidate}
use jev_routing.Compact.Local.{Question, questions_for}
use jev_routing.Compact.Tokens.{Tables, estimate_tokens}

-- `tokens` in a round of the loop, with `json.Marshal` as a parameter
unfoldable pub question_tokens : Tables → (List Question → Option Str) → Candidate → ℕ
question_tokens t marshal c = elim (marshal (questions_for c)) [
  | none ↦ 0
  | some s ↦ estimate_tokens t s
]

abbrev pub is_none : List Candidate → Bool
is_none [] = true
is_none (c ∷ cs) = false

module _ (size : Candidate → ℕ) (max_tokens state_tokens : ℕ) where
  -- The budget may be negative, so what it is less by stands on the other side.
  unfoldable pub is_over : ℕ → Bool
  is_over n = ltb max_tokens (n + state_tokens + 20)

  unfoldable pub batch_loop : List Candidate → ℕ → List Candidate → List (List Candidate)
  batch_loop current used [] = if is_none current then [] else current ∷ []
  batch_loop current used (c ∷ cs) =
      let next = batch_loop (c ∷ []) (size c) cs in
      let same = batch_loop (current ++ (c ∷ [])) (used + size c) cs in
      if not (is_none current) && is_over (used + size c) then current ∷ next else same

-- BatchCandidates
unfoldable pub batch_candidates :
    Tables → (List Question → Option Str) → List Candidate → ℕ → Options → List (List Candidate)
batch_candidates t marshal cands state_tokens o =
    batch_loop (question_tokens t marshal) (resolve o).max_request_tokens state_tokens [] 0 cands

module _ (size : Candidate → ℕ) where
  unfoldable pub total_size : List Candidate → ℕ
  total_size [] = 0
  total_size (c ∷ cs) = size c + total_size cs

  total-snoc :
      (cs : List Candidate) (c : Candidate) → total_size (cs ++ (c ∷ [])) ≡ total_size cs + size c
  unfolding total_size
  total-snoc [] c = omega arith
  total-snoc (d ∷ cs) c = omega (arith, total-snoc cs c)

  total-one : (c : Candidate) → size c ≡ total_size (c ∷ [])
  unfolding total_size
  total-one c = omega arith

module _ (size : Candidate → ℕ) (max_tokens state_tokens : ℕ) where
  -- A batch has one candidate, or several whose questions fit a request beside the state.
  unfoldable pub FitsRequest : List Candidate → Type 0
  FitsRequest batch =
      (length batch ≡ 1)
      ⊎ ((2 ≤ length batch) × (total_size size batch + state_tokens + 20 ≤ max_tokens))

  concat-batch_loop :
      (current : List Candidate) (used : ℕ) (cs : List Candidate)
      → concat (batch_loop size max_tokens state_tokens current used cs) ≡ current ++ cs
  unfolding batch_loop
  concat-batch_loop [] used [] = refl
  concat-batch_loop (d ∷ current) used [] = refl
  concat-batch_loop current used (c ∷ cs) =
      elim (Bool-cases
        (not (is_none current) && is_over size max_tokens state_tokens (used + size c))) [
          | inl split ↦ rw split (ap (λ r. current ++ r) (concat-batch_loop (c ∷ []) (size c) cs))
          | inr joined ↦ rw joined (
              concat-batch_loop (current ++ (c ∷ [])) (used + size c) cs
              ∙ append_assoc current (c ∷ []) cs)
        ]

  one-FitsRequest : (c : Candidate) → FitsRequest (c ∷ [])
  unfolding FitsRequest
  one-FitsRequest c = inl refl

  joined-FitsRequest :
      (current : List Candidate) (c : Candidate)
      → (not (is_none current)
          && is_over size max_tokens state_tokens (total_size size current + size c))
        ≡ false
      → FitsRequest (current ++ (c ∷ []))
  unfolding FitsRequest is_over
  joined-FitsRequest [] c h = inl refl
  joined-FitsRequest (d ∷ current) c h = inr (
    ground (arith, length-append (d ∷ current) (c ∷ [])),
    ground (arith, total-snoc size (d ∷ current) c),
  )

  some-FitsRequest :
      (cs : List Candidate) (b : Bool)
      → (not (is_none cs) && b) ≡ true
      → (is_none cs ≡ true) ⊎ FitsRequest cs
      → FitsRequest cs
  some-FitsRequest [] b h f = absurd (ground (arith, h))
  some-FitsRequest (c ∷ cs) b h (inl e) = absurd (ground (arith, e))
  some-FitsRequest (c ∷ cs) b h (inr fits) = fits

  batch_loop-FitsRequest :
      (current : List Candidate) (used : ℕ) (cs : List Candidate)
      → used ≡ total_size size current
      → (is_none current ≡ true) ⊎ FitsRequest current
      → All FitsRequest (batch_loop size max_tokens state_tokens current used cs)
  unfolding batch_loop
  batch_loop-FitsRequest [] used [] e f = tt
  batch_loop-FitsRequest (d ∷ current) used [] e (inl h) = absurd (ground arith)
  batch_loop-FitsRequest (d ∷ current) used [] e (inr f) = (f, tt)
  batch_loop-FitsRequest current used (c ∷ cs) e f =
      elim (Bool-cases
        (not (is_none current) && is_over size max_tokens state_tokens (used + size c))) [
          | inl split ↦ rw split (
            some-FitsRequest current _ split f,
            batch_loop-FitsRequest (c ∷ []) (size c) cs (total-one size c)
                (inr (one-FitsRequest c)),
          )
          | inr joined ↦
              let fits = joined-FitsRequest current c (rw e at joined) in
              rw joined (
                batch_loop-FitsRequest (current ++ (c ∷ [])) (used + size c) cs
                  (rw (e, total-snoc size current c)) (inr fits))
        ]

-- BatchCandidates puts every candidate into one batch, in order, and no batch is empty; of a batch
-- with several candidates the questions fit the request beside the state.
pub batch_candidates-fit :
    (t : Tables) (marshal : List Question → Option Str) (cands : List Candidate) (state_tokens : ℕ)
    (o : Options)
    → let batches = batch_candidates t marshal cands state_tokens o in
      (concat batches ≡ cands)
      × All
          (FitsRequest (question_tokens t marshal) (resolve o).max_request_tokens state_tokens)
          batches
unfolding batch_candidates total_size
batch_candidates-fit t marshal cands state_tokens o = (
  concat-batch_loop _ _ state_tokens [] 0 cands,
  batch_loop-FitsRequest _ _ state_tokens [] 0 cands refl (inl refl),
)
