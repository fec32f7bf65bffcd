-- ===== src/Wire/Varint.antt =====
-- protoVarint and protoEncodeVarint of internal/proxy/proto_observe.go. A byte slice is a list of
-- numbers, and a uint64 is a number below 2 ^ 64.
pub mod Prefix
use native.Mathlib.Nat.{mod-eq_of_lt}
use native.Mathlib.Numerals.{towards_suc}
use jev_routing.Prelude.{
  ℕ, zero, ◌∙◌, inl, inr, Bool-cases, true, false, lt→leb, suc, ◌+◌, ◌*◌, ◌/◌, ◌%◌, ◌^◌, ◌≤◌, ◌<◌,
  ◌≡◌, refl, ap, List, [], ◌∷◌, ◌++◌, arith, ltb, leb, if◌then◌else◌, length,
}

abbrev pub Bytes : Type 0
Bytes = List ℕ

-- The loop of protoVarint at index `i` with the value `x` read so far. The bits of `x` lie below
-- 7 * i, so the `|=` of the source is a sum; a shift past bit 63 is cut off.
unfoldable pub varint_from : ℕ → ℕ → Bytes → ℕ × ℕ
varint_from i x [] = (0, 0)
varint_from i x (b ∷ bs) =
    let x' = x + (b % 128) * 2 ^ (7 * i) % 2 ^ 64 in
    let rest = varint_from (i + 1) x' bs in
    if ltb i 10 then (if ltb b 128 then (x', i + 1) else rest) else (0, 0)

unfoldable pub proto_varint : Bytes → ℕ × ℕ
proto_varint b = varint_from 0 0 b

-- The loop of protoEncodeVarint. `byte(x)|0x80` is the low seven bits with the top bit set.
unfoldable pub encode_from : ℕ → ℕ → Bytes
encode_from zero x = []
encode_from (suc fuel) x =
    let rest = encode_from fuel (x / 128) in
    if leb 128 x then (x % 128 + 128) ∷ rest else (x % 256) ∷ []

-- A uint64 has ten groups of seven bits at most.
unfoldable pub proto_encode_varint : ℕ → Bytes
proto_encode_varint x = encode_from 10 x

pow_step : (s : ℕ) → 2 ^ (s + 7) ≡ 128 * 2 ^ s
pow_step s = simp towards_suc (omega arith)

split_at : (x p : ℕ) → x * p ≡ (x / 128) * (128 * p) + (x % 128) * p
split_at x p =
    let e : x ≡ 128 * (x / 128) + x % 128 = omega arith in omega (arith, ap (λ (t : ℕ). t * p) e)

group_value : (acc x p : ℕ) → acc + (x % 128) * p + (x / 128) * (128 * p) ≡ acc + x * p
group_value acc x p = omega (arith, split_at x p)

-- One group of seven bits is added whole while the value fits a uint64.
add_group :
    (acc x p b : ℕ)
    → b % 128 ≡ x % 128
    → x * p < 2 ^ 64
    → acc + (b % 128) * p % 2 ^ 64 ≡ acc + (x % 128) * p
add_group acc x p b e fits =
    let small : (x % 128) * p < 2 ^ 64 = omega (arith, split_at x p) in rw (e, mod-eq_of_lt small)

pub pow_at : (i : ℕ) → 2 ^ (7 * (i + 1)) ≡ 128 * 2 ^ (7 * i)
pow_at i = let e : 7 * (i + 1) ≡ 7 * i + 7 = omega arith in rw e (pow_step (7 * i))

last_group :
    (i acc x : ℕ) (rest : Bytes)
    → i < 10
    → x < 128
    → x * 2 ^ (7 * i) < 2 ^ 64
    → varint_from i acc ((x % 256) ∷ rest) ≡ (acc + x * 2 ^ (7 * i), i + 1)
unfolding varint_from
last_group i acc x rest h small fits = ground (arith, add_group acc x (2 ^ (7 * i)) (x % 256))

more_group :
    (i acc x : ℕ) (rest : Bytes)
    → i < 10
    → x * 2 ^ (7 * i) < 2 ^ 64
    → varint_from i acc ((x % 128 + 128) ∷ rest)
      ≡ varint_from (i + 1) (acc + (x % 128) * 2 ^ (7 * i)) rest
unfolding varint_from
more_group i acc x rest h fits = ground (arith, add_group acc x (2 ^ (7 * i)) (x % 128 + 128))

small_at : (f x : ℕ) → x < 2 ^ (7 * suc (suc f)) → x / 128 < 2 ^ (7 * suc f)
small_at f x small =
    let e : suc (suc f) ≡ suc f + 1 = omega arith in omega (arith, pow_at (suc f), rw e at small)

fits_at : (i x : ℕ) → x * 2 ^ (7 * i) < 2 ^ 64 → (x / 128) * 2 ^ (7 * (i + 1)) < 2 ^ 64
fits_at i x fits = rw (pow_at i) (omega (arith, split_at x (2 ^ (7 * i))))

value_at :
    (i acc x : ℕ)
    → acc + (x % 128) * 2 ^ (7 * i) + (x / 128) * 2 ^ (7 * (i + 1)) ≡ acc + x * 2 ^ (7 * i)
value_at i acc x = rw (pow_at i) (group_value acc x (2 ^ (7 * i)))

encode_from_more :
    (f x : ℕ) → leb 128 x ≡ true → encode_from (suc f) x ≡ (x % 128 + 128) ∷ encode_from f (x / 128)
unfolding encode_from
encode_from_more f x h = rw h

encode_from_done : (f x : ℕ) → leb 128 x ≡ false → encode_from (suc f) x ≡ (x % 256) ∷ []
unfolding encode_from
encode_from_done f x h = rw h

last_group_encoded :
    (f i acc x : ℕ) (rest : Bytes)
    → leb 128 x ≡ false
    → i < 10
    → x * 2 ^ (7 * i) < 2 ^ 64
    → varint_from i acc (encode_from (suc f) x ++ rest)
      ≡ (acc + x * 2 ^ (7 * i), i + length (encode_from (suc f) x))
last_group_encoded f i acc x rest done h fits =
    rw (encode_from_done f x done) (last_group i acc x rest h (ground arith) fits)

-- The loop reads back what the encoder wrote for `x` behind the groups read so far.
varint_from-encode_from :
    (fuel i acc x : ℕ) (rest : Bytes)
    → 1 ≤ fuel
    → fuel + i ≡ 10
    → x < 2 ^ (7 * fuel)
    → x * 2 ^ (7 * i) < 2 ^ 64
    → varint_from i acc (encode_from fuel x ++ rest)
      ≡ (acc + x * 2 ^ (7 * i), i + length (encode_from fuel x))
varint_from-encode_from zero i acc x rest one h small fits = absurd (omega arith)
varint_from-encode_from (suc zero) i acc x rest one h small fits =
    last_group_encoded zero i acc x rest (lt→leb 128 x small) (omega arith) fits
varint_from-encode_from (suc (suc f)) i acc x rest one h small fits =
    elim (Bool-cases (leb 128 x)) [
      | inl more ↦ rw (encode_from_more (suc f) x more) (
          more_group i acc x _ (omega arith) fits
          ∙ varint_from-encode_from (suc f) (i + 1) (acc + (x % 128) * 2 ^ (7 * i)) (x / 128) rest
              (omega arith) (omega arith) (small_at f x small) (fits_at i x fits)
          ∙ ground (arith, value_at i acc x))
      | inr done ↦ last_group_encoded (suc f) i acc x rest done (omega arith) fits
    ]

pub encode-nonempty : (x : ℕ) → 0 < length (proto_encode_varint x)
unfolding proto_encode_varint
encode-nonempty x = elim (Bool-cases (leb 128 x)) [
  | inl more ↦ rw (encode_from_more 9 x more) (omega arith)
  | inr done ↦ rw (encode_from_done 9 x done) (omega arith)
]

-- protoVarint reads back every uint64 that protoEncodeVarint wrote, whatever bytes follow, and
-- reports the number of bytes that it takes.
pub proto_varint-encode :
    (x : ℕ) (rest : Bytes)
    → x < 2 ^ 64
    → proto_varint (proto_encode_varint x ++ rest) ≡ (x, length (proto_encode_varint x))
unfolding proto_varint proto_encode_varint
proto_varint-encode x rest h =
    varint_from-encode_from 10 0 0 x rest (omega arith) refl (omega arith) (omega arith)
    ∙ ground arith
