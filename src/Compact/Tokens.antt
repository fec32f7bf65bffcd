-- ===== src/Compact/Tokens.antt =====
-- EstimateTokens of internal/compact/compact.go. The tables of package unicode and the sums of
-- floating-point numbers are parameters.
use jev_routing.Prelude.{ℕ, ◌+◌, ◌-◌, ◌/◌, Bool, List, [], ◌∷◌, if◌then◌else◌, max}
use jev_routing.Text.{Str, is_blank}
use jev_routing.Text.Runes.{runes}

-- What is added to the float64 `tokens`: half of a number, a whole number, or 0.9.
pub data Term : Type 0 where
  half : ℕ → Term
  whole : ℕ → Term
  nine_tenths : Term

pub record Tables : Type 0 where
  pub is_digit : Str → Bool
  pub is_letter : Str → Bool
  pub is_white : Str → Bool
  -- `math.Ceil` of the terms added up in their order, from 0
  pub ceil_sum : List Term → ℕ

-- Where the loop stands: between two runs, or behind `n` characters of a run.
pub data CharRun : Type 0 where
  between : CharRun
  in_digits : ℕ → CharRun
  in_letters : ℕ → CharRun

-- What the character behind a run opens.
unfoldable pub opens : Tables → Str → CharRun
opens t r = if t.is_digit r then in_digits 1 else if t.is_letter r then in_letters 1 else between

-- What such a character adds itself.
unfoldable pub adds : Tables → Str → List Term → List Term
adds t r rest =
    if t.is_digit r
    then rest
    else if t.is_letter r
    then rest
    else if t.is_white r
    then rest
    else nine_tenths ∷ rest

abbrev pub letters : ℕ → Term
letters n = whole (1 + (n - 1) / 6)

unfoldable pub terms : Tables → CharRun → List Str → List Term
terms t between [] = []
terms t (in_digits n) [] = half n ∷ []
terms t (in_letters n) [] = letters n ∷ []
terms t between (r ∷ rs) = let rest = terms t (opens t r) rs in adds t r rest
terms t (in_digits n) (r ∷ rs) =
    let longer = terms t (in_digits (n + 1)) rs in
    let rest = terms t (opens t r) rs in if t.is_digit r then longer else half n ∷ adds t r rest
terms t (in_letters n) (r ∷ rs) =
    let longer = terms t (in_letters (n + 1)) rs in
    let rest = terms t (opens t r) rs in if t.is_letter r then longer else letters n ∷ adds t r rest

-- EstimateTokens
unfoldable pub estimate_tokens : Tables → Str → ℕ
estimate_tokens t text =
    if is_blank text then 0 else max 1 (t.ceil_sum (terms t between (runes text)))
