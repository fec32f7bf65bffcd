-- ===== src/Wire/Varint/Prefix.antt =====
-- What protoVarint reads is decided by the bytes it takes.
use native.Mathlib.Nat.{pow-le-pow_right, mod-le}
use native.Mathlib.Decide.{dec_lt}
use jev_routing.Prelude.{
  ℕ, zero, suc, ◌+◌, ◌*◌, ◌%◌, ◌^◌, ◌≤◌, ◌<◌, ◌≡◌, refl, [], ◌∷◌, ◌++◌, arith, length, take,
}
use jev_routing.Wire.Varint.{Bytes, varint_from, proto_varint, pow_at}

-- the value after one more group
abbrev grown : ℕ → ℕ → ℕ → ℕ
grown i x b = x + (b % 128) * 2 ^ (7 * i) % 2 ^ 64

-- A read that succeeds takes at least one byte and no more than there are.
varint_from_bounds :
    (bs : Bytes) (i x v n : ℕ) → varint_from i x bs ≡ (v, suc n) → (i ≤ n) × (suc n ≤ i + length bs)
unfolding varint_from
varint_from_bounds [] i x v n e = ground arith
varint_from_bounds (b ∷ bs) i x v n e =
    ground (arith, varint_from_bounds bs (i + 1) (grown i x b) v n)

varint_from-take :
    (bs rest : Bytes) (i x v k : ℕ)
    → varint_from i x bs ≡ (v, i + suc k)
    → varint_from i x (take (suc k) bs ++ rest) ≡ (v, i + suc k)
unfolding varint_from
varint_from-take [] rest i x v k e = ground arith
varint_from-take (b ∷ bs) rest i x v zero e =
    ground (arith, varint_from_bounds bs (i + 1) (grown i x b) v i)
varint_from-take (b ∷ bs) rest i x v (suc k) e =
    ground (arith, varint_from-take bs rest (i + 1) (grown i x b) v k)

times_le : (c p : ℕ) → c < 128 → c * p ≤ 127 * p
times_le c p h = grind arith

-- the bits read so far lie below 7 * (i + 1), and below 64
grown-lt : (i x b : ℕ) → i < 10 → x < 2 ^ (7 * i) → grown i x b < 2 ^ (7 * (i + 1))
grown-lt i x b h lt = omega (
  arith,
  pow_at i,
  times_le (b % 128) (2 ^ (7 * i)) (omega arith),
  mod-le ((b % 128) * 2 ^ (7 * i)) (2 ^ 64),
)

last_grown : (x b : ℕ) → x < 2 ^ 63 → x + (b % 128) * 2 ^ 63 % 2 ^ 64 < 2 ^ 64
last_grown x b h = omega arith

grown-lt-u64 : (i x b : ℕ) → i < 10 → x < 2 ^ (7 * i) → grown i x b < 2 ^ 64
grown-lt-u64 i x b h lt = elim (dec_lt i 9) [
  | yes p ↦
      let below : 2 ^ (7 * (i + 1)) ≤ 2 ^ 63 =
        pow-le-pow_right (omega arith) {j = 63} (omega arith) in
      omega (arith, grown-lt i x b h lt)
  | no q ↦ let nine : i ≡ 9 = omega arith in rw nine (last_grown x b (rw nine at lt))
]

varint_from-lt : (bs : Bytes) (i x : ℕ) → x < 2 ^ (7 * i) → (varint_from i x bs).0 < 2 ^ 64
unfolding varint_from
varint_from-lt [] i x h = omega arith
varint_from-lt (b ∷ bs) i x h =
    ground (arith, varint_from-lt bs (i + 1) (grown i x b), grown-lt i x b, grown-lt-u64 i x b)

pub proto_varint-le : (bs : Bytes) → (proto_varint bs).1 ≤ length bs
unfolding proto_varint
proto_varint-le bs = read_le (varint_from 0 0 bs).1 refl
  where
    read_le : (n : ℕ) → (varint_from 0 0 bs).1 ≡ n → n ≤ length bs
    read_le zero e = omega arith
    read_le (suc n) e =
        omega (arith, varint_from_bounds bs 0 0 (varint_from 0 0 bs).0 n (ground arith))

pub proto_varint-take :
    (bs rest : Bytes) (k : ℕ)
    → (proto_varint bs).1 ≡ suc k
    → proto_varint (take (suc k) bs ++ rest) ≡ proto_varint bs
unfolding proto_varint
proto_varint-take bs rest k e =
    ground (arith, varint_from-take bs rest 0 0 (varint_from 0 0 bs).0 k)

pub proto_varint-lt : (bs : Bytes) → (proto_varint bs).0 < 2 ^ 64
unfolding proto_varint
proto_varint-lt bs = varint_from-lt bs 0 0 (omega arith)
