-- ===== src/Text/Utf8.antt =====
-- `utf8.ValidString`. `ranges` are the bounds of the bytes that the current character still needs.
use jev_routing.Prelude.{
  ℕ, ◌<◌, ◌≡◌, refl, Bool, true, false, ◌&&◌, Option, none, some, List, [], ◌∷◌, ◌++◌, leb, ◌==◌,
  if◌then◌else◌, arith, Bool-cases, Option-cases, inl, inr, All,
}
use jev_routing.Text.{Str}

pub record Range : Type 0 where
  pub low : ℕ
  pub high : ℕ

abbrev pub within : Range → ℕ → Bool
within r b = leb r.low b && leb b r.high

abbrev pub tail_byte : Range
tail_byte = record { low = 128; high = 191 }

-- The bounds of the bytes after the first one, `none` for a byte that starts no character.
unfoldable pub after_first : ℕ → Option (List Range)
after_first b =
    if leb b 127
    then some []
    else if leb b 193
    then none
    else if leb b 223
    then some (tail_byte ∷ [])
    else if b == 224
    then some (record { low = 160; high = 191 } ∷ tail_byte ∷ [])
    else if b == 237
    then some (record { low = 128; high = 159 } ∷ tail_byte ∷ [])
    else if leb b 239
    then some (tail_byte ∷ tail_byte ∷ [])
    else if b == 240
    then some (record { low = 144; high = 191 } ∷ tail_byte ∷ tail_byte ∷ [])
    else if leb b 243
    then some (tail_byte ∷ tail_byte ∷ tail_byte ∷ [])
    else if b == 244
    then some (record { low = 128; high = 143 } ∷ tail_byte ∷ tail_byte ∷ [])
    else none

unfoldable pub valid_after : List Range → Str → Bool
valid_after [] [] = true
valid_after [] (b ∷ s) = elim (after_first b) [ none ↦ false | some ranges ↦ valid_after ranges s ]
valid_after (r ∷ rs) [] = false
valid_after (r ∷ rs) (b ∷ s) = within r b && valid_after rs s

abbrev pub is_valid : Str → Bool
is_valid s = valid_after [] s

no_flag : false ≡ true → ⊥
no_flag h = ground arith

-- A valid text after a valid text is valid.
pub valid-append :
    (ranges : List Range) (a b : Str)
    → valid_after ranges a ≡ true
    → is_valid b ≡ true
    → valid_after ranges (a ++ b) ≡ true
unfolding valid_after
valid-append [] [] b ha hb = hb
valid-append [] (x ∷ a) b ha hb = elim (Option-cases (after_first x)) [
  | inl none_such ↦ absurd (no_flag (rw (none_such, valid_after) at ha))
  | inr (rs, e) ↦ rw (e, valid_after) (valid-append rs a b (rw (e, valid_after) at ha) hb)
]
valid-append (r ∷ rs) [] b ha hb = absurd (ground arith)
valid-append (r ∷ rs) (x ∷ a) b ha hb = elim (Bool-cases (within r x)) [
  | inl inside ↦ rw inside (valid-append rs a b (rw inside at ha) hb)
  | inr outside ↦ absurd (ground (arith, rw outside at ha))
]

ascii-after_first : (b : ℕ) → b < 128 → after_first b ≡ some []
unfolding after_first
ascii-after_first b h = let low : leb b 127 ≡ true = ground arith in rw low

-- A text of ASCII characters is valid.
pub valid-ascii : (s : Str) → All (λ b. b < 128) s → is_valid s ≡ true
unfolding valid_after
valid-ascii [] h = refl
valid-ascii (b ∷ s) h =
    let low : leb b 127 ≡ true = ground (arith, h.0) in
    rw (ascii-after_first b h.0, valid_after) (valid-ascii s h.1)
