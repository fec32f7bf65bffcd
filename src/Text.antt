-- ===== src/Text.antt =====
-- Go strings as lists of bytes, with the operations of package `strings` that the program uses.
-- `lower` and `trim_space` act on ASCII: the bytes of other characters are left as they are.
pub mod Laws
pub mod Runes
pub mod Utf8
use Prim.Native.Char.{code}
use jev_routing.Prelude.{
  ℕ, zero, suc, ◌+◌, ◌-◌, ◌*◌, ◌/◌, ◌%◌, Bool, true, false, not, ◌&&◌, ◌||◌, List, [], ◌∷◌, ◌++◌,
  ltb, leb, ◌==◌, if◌then◌else◌, String, length, take, any,
}

abbrev pub Str : Type 0
Str = List ℕ

-- the UTF-8 bytes of a code point
abbrev pub utf8 : ℕ → Str
utf8 c =
    if ltb c 128
    then c ∷ []
    else if ltb c 2048
    then (192 + c / 64) ∷ (128 + c % 64) ∷ []
    else if ltb c 65536
    then (224 + c / 4096) ∷ (128 + c / 64 % 64) ∷ (128 + c % 64) ∷ []
    else (240 + c / 262144) ∷ (128 + c / 4096 % 64) ∷ (128 + c / 64 % 64) ∷ (128 + c % 64) ∷ []

-- a string literal of the source
unfoldable pub lit : String → Str
lit String.[] = []
lit (String.◌∷◌ c s) = utf8 (code c) ++ lit s

unfoldable pub str_eq : Str → Str → Bool
str_eq [] [] = true
str_eq (x ∷ xs) (y ∷ ys) = x == y && str_eq xs ys
str_eq _ _ = false

-- `s == ""`
abbrev pub is_blank : Str → Bool
is_blank [] = true
is_blank (b ∷ s) = false

unfoldable pub lower_byte : ℕ → ℕ
lower_byte b = if leb b'A' b && leb b b'Z' then b + 32 else b

-- `strings.ToLower`
unfoldable pub lower : Str → Str
unfolding lower_byte
lower [] = []
lower (b ∷ s) = lower_byte b ∷ lower s

-- `strings.HasPrefix`
unfoldable pub has_prefix : Str → Str → Bool
has_prefix s [] = true
has_prefix [] (y ∷ ys) = false
has_prefix (x ∷ s) (y ∷ ys) = x == y && has_prefix s ys

-- `strings.Contains`
unfoldable pub contains : Str → Str → Bool
unfolding has_prefix
contains [] sub = is_blank sub
contains (x ∷ s) sub = has_prefix (x ∷ s) sub || contains s sub

abbrev pub is_space : ℕ → Bool
is_space b = b == 32 || (leb 9 b && leb b 13)

unfoldable pub trim_left : Str → Str
trim_left [] = []
trim_left (b ∷ s) = if is_space b then trim_left s else b ∷ s

-- The longest front whose last byte is no space.
unfoldable pub trim_right : Str → Str
trim_right [] = []
trim_right (b ∷ s) = let rest = trim_right s in if is_blank rest && is_space b then [] else b ∷ rest

-- `strings.TrimSpace`
unfoldable pub trim_space : Str → Str
unfolding trim_left trim_right
trim_space s = trim_right (trim_left s)

-- `strings.Join`
unfoldable pub join : Str → List Str → Str
join sep [] = []
join sep (s ∷ []) = s
join sep (s ∷ t ∷ rest) = s ++ (sep ++ join sep (t ∷ rest))

-- The decimal digits of a number, as `%d` prints them, the last `fuel` of them.
unfoldable pub digits : ℕ → ℕ → Str
digits zero n = []
digits (suc fuel) n =
    let front = digits fuel (n / 10) in (if ltb n 10 then [] else front) ++ ((b'0' + n % 10) ∷ [])

-- A Go int has nineteen decimal digits at most.
unfoldable pub decimal : ℕ → Str
unfolding digits
decimal n = digits 19 n
