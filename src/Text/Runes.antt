-- ===== src/Text/Runes.antt =====
-- A string in UTF-8 as its characters, `[]rune(s)`; each is the list of its bytes. On valid UTF-8,
-- which decoded JSON is, the functions below are those of the program.
use jev_routing.Prelude.{
  ℕ, ◌+◌, ◌-◌, ◌*◌, ◌/◌, ◌≡◌, refl, Bool, false, ◌&&◌, List, [], ◌∷◌, ◌++◌, leb, if◌then◌else◌,
  length, take, drop, concat, arith,
}
use jev_routing.Text.{Str, lit}

-- The byte continues a character.
abbrev pub is_continuation : ℕ → Bool
is_continuation b = leb 128 b && leb b 191

abbrev pub continues : Str → Bool
continues [] = false
continues (b ∷ s) = is_continuation b

abbrev pub glue : ℕ → List Str → List Str
glue b [] = (b ∷ []) ∷ []
glue b (r ∷ rs) = (b ∷ r) ∷ rs

unfoldable pub runes : Str → List Str
runes [] = []
runes (b ∷ s) = let rest = runes s in if continues s then glue b rest else (b ∷ []) ∷ rest

-- clipRunes of internal/proxy/clear_gate.go
unfoldable pub clip_runes : Str → ℕ → Str
clip_runes s n = let rs = runes s in if leb (length rs) n then s else concat (take n rs)

abbrev pub marker : Str
marker = lit " …[truncated]… "

-- truncateRunes of internal/proxy/codex_steer.go. `keep` stops at 0.
unfoldable pub truncate_runes : Str → ℕ → Str
truncate_runes text max_runes =
    let rs = runes text in
    let keep = max_runes - length (runes marker) in
    let head = (keep * 6 + 9) / 10 in
    let tail = keep - head in
    if leb (length rs) max_runes
    then text
    else concat (take head rs) ++ (marker ++ concat (drop (length rs - tail) rs))

concat-glue : (b : ℕ) (rs : List Str) → concat (glue b rs) ≡ b ∷ concat rs
concat-glue b [] = refl
concat-glue b (r ∷ rs) = refl

-- The characters of a text make it up.
pub concat-runes : (s : Str) → concat (runes s) ≡ s
unfolding runes
concat-runes [] = refl
concat-runes (b ∷ s) = ground (arith, concat-glue b (runes s), concat-runes s)
