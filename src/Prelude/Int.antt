-- ===== src/Prelude/Int.antt =====
-- Signed integers over the native numbers.
use Prim.Native.Nat.{ℕ, zero, suc, ◌+◌, ◌-◌, ◌*◌, ◌/◌, ◌^◌}
use jev_routing.Prelude.Tests.{leb, if◌then◌else◌}

-- `negsuc n` is -(n + 1).
pub data ℤ : Type 0 where
  pos : ℕ → ℤ
  negsuc : ℕ → ℤ

-- The negation of a natural number.
abbrev neg : ℕ → ℤ
neg zero = pos 0
neg (suc n) = negsuc n

abbrev pub quotient : ℕ → ℕ → ℕ
quotient n zero = 0
quotient n (suc k) = n / suc k

abbrev scaled : ℤ → ℕ → ℤ
scaled (pos a) k = pos (a * k)
scaled (negsuc a) k = neg ((a + 1) * k)

abbrev shrunk : ℤ → ℕ → ℤ
shrunk (pos a) k = pos (quotient a k)
shrunk (negsuc a) k = neg (quotient (a + 1) k)

-- The whole part of `m * 10 ^ e`.
unfoldable pub whole_part : ℤ → ℤ → ℤ
whole_part m (pos e) = scaled m (10 ^ e)
whole_part m (negsuc e) = shrunk m (10 ^ (e + 1))

abbrev difference : ℕ → ℕ → ℤ
difference a b = if leb b a then pos (a - b) else negsuc (b - a - 1)

infixl 60 ◌+ℤ◌
abbrev pub ◌+ℤ◌ : ℤ → ℤ → ℤ
pos a +ℤ pos b = pos (a + b)
pos a +ℤ negsuc b = difference a (b + 1)
negsuc a +ℤ pos b = difference b (a + 1)
negsuc a +ℤ negsuc b = negsuc (a + b + 1)
