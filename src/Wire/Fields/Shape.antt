-- ===== src/Wire/Fields/Shape.antt =====
-- Every field that parseProtoFields returns has one of the four shapes.
use jev_routing.Prelude.{
  Bool-cases, ◌==◌, ◌⊎◌, inl, inr, ℕ, zero, suc, ◌+◌, ◌-◌, ◌%◌, ◌^◌, ◌≤◌, ◌<◌, ◌≡◌, refl, ap, ◌∙◌,
  ◌++◌, arith, append_assoc, length, take, drop, take-append-drop, length-drop, length-take,
  take-add,
}
use jev_routing.Wire.Varint.{Bytes, proto_varint}
use jev_routing.Wire.Varint.Prefix.{proto_varint-le, proto_varint-take, proto_varint-lt}
use jev_routing.Wire.Fields.{
  ProtoField, took, take_field, varint_field, fixed_field, length_field, by_wire, next_field,
}
use jev_routing.Wire.Fields.Reparse.{
  Reads, IsField, is_varint, is_fixed, is_bytes, next_field-IsField,
}
use jev_routing.Wire.Fields.Lossless.{next_field-TakesFront}

Reads-take :
    (rest : Bytes) (k : ℕ)
    → (proto_varint rest).1 ≡ suc k
    → Reads (proto_varint rest).0 (take (suc k) rest)
Reads-take rest k e =
    let whole : length (take (suc k) rest) ≡ suc k =
      omega (arith, length-take (suc k) rest, proto_varint-le rest) in
    record {
      nonempty = omega (arith, whole);
      fits = proto_varint-lt rest;
      reads = λ r. proto_varint-take rest r k e ∙ ground (arith, e, whole);
    }

varint_field-IsField :
    (rest : Bytes) (tag n k : ℕ) (f : ProtoField)
    → Reads tag (take n rest)
    → tag % 8 ≡ 0
    → varint_field rest tag n ≡ took f k
    → IsField f
unfolding varint_field take_field
varint_field-IsField rest tag n k f ra w h = by_length (proto_varint (drop n rest)).1 refl
  where
    by_length : (m : ℕ) → (proto_varint (drop n rest)).1 ≡ m → IsField f
    by_length zero e = absurd (ground arith)
    by_length (suc m) e =
        is_varint tag (proto_varint (drop n rest)).0 (take n rest) (take (suc m) (drop n rest)) ra
          (Reads-take (drop n rest) m e) w (ground (arith, take-add n (suc m) rest))

fixed_field-IsField :
    (size start j : ℕ) (rest : Bytes) (tag n k : ℕ) (f : ProtoField)
    → Reads tag (take n rest)
    → start + length rest ≡ size
    → ((tag % 8 ≡ 1) × (j ≡ 8)) ⊎ ((tag % 8 ≡ 5) × (j ≡ 4))
    → fixed_field j size start rest tag n ≡ took f k
    → IsField f
unfolding fixed_field take_field
fixed_field-IsField size start j rest tag n k f ra whole w h =
    is_fixed tag (take n rest) (take j (drop n rest)) ra
      (ground (arith, length-take j (drop n rest), length-drop n rest))
      (ground (arith, take-add n j rest))

length_eq :
    (from ln size : ℕ)
    → from ≤ size
    → size < 2 ^ 63
    → ln < 2 ^ 64
    → (from + ln) % 2 ^ 64 < 2 ^ 63
    → from ≤ (from + ln) % 2 ^ 64
    → (from + ln) % 2 ^ 64 ≤ size
    → ((from + ln) % 2 ^ 64 - from ≡ ln) × (from + ln ≤ size)
length_eq from ln size h small u lo mid hi = (omega arith, omega arith)

take-add-add :
    (n m k : ℕ) (xs : Bytes)
    → take (n + m + k) xs ≡ take n xs ++ (take m (drop n xs) ++ take k (drop (n + m) xs))
take-add-add n m k xs = rw (take-add (n + m) k xs, take-add n m xs, append_assoc)

length_field-IsField :
    (size start : ℕ) (rest : Bytes) (tag n k : ℕ) (f : ProtoField)
    → Reads tag (take n rest)
    → n ≤ length rest
    → start + length rest ≡ size
    → size < 2 ^ 63
    → tag % 8 ≡ 2
    → length_field size start rest tag n ≡ took f k
    → IsField f
unfolding length_field take_field
length_field-IsField size start rest tag n k f ra room whole small w h =
    by_length (proto_varint (drop n rest)).1 refl
  where
    by_length : (m : ℕ) → (proto_varint (drop n rest)).1 ≡ m → IsField f
    by_length zero e = absurd (ground arith)
    by_length (suc m) e =
        let ln = (proto_varint (drop n rest)).0 in
        let from = start + n + suc m in
        let inside : from ≤ size =
          omega (arith, proto_varint-le (drop n rest), length-drop n rest) in
        let lengths : ((from + ln) % 2 ^ 64 - from ≡ ln) × (from + ln ≤ size) =
          ground (arith, length_eq from ln size inside small (proto_varint-lt (drop n rest))) in
        let whole_c : length (take ln (drop (n + suc m) rest)) ≡ ln = omega (
          arith,
          length-take ln (drop (n + suc m) rest),
          length-drop (n + suc m) rest,
          lengths.1,
        ) in
        is_bytes tag (take n rest) (take (suc m) (drop n rest)) (take ln (drop (n + suc m) rest)) ra
          (rw whole_c (Reads-take (drop n rest) m e)) w
          (ground (arith, lengths.0, take-add-add n (suc m) ln rest))

by_wire-IsField :
    (size start : ℕ) (rest : Bytes) (tag n k : ℕ) (f : ProtoField)
    → Reads tag (take n rest)
    → n ≤ length rest
    → start + length rest ≡ size
    → size < 2 ^ 63
    → by_wire size start rest tag n ≡ took f k
    → IsField f
unfolding by_wire
by_wire-IsField size start rest tag n k f ra room whole small h = elim (Bool-cases (tag % 8 == 0)) [
  | inl is0 ↦ varint_field-IsField rest tag n k f ra (ground arith) (ground arith)
  | inr not0 ↦ elim (Bool-cases (tag % 8 == 1)) [
    | inl is1 ↦
        fixed_field-IsField size start 8 rest tag n k f ra whole (inl (ground arith, refl))
          (ground arith)
    | inr not1 ↦ elim (Bool-cases (tag % 8 == 2)) [
      | inl is2 ↦
          length_field-IsField size start rest tag n k f ra room whole small (ground arith)
            (ground arith)
      | inr not2 ↦ elim (Bool-cases (tag % 8 == 5)) [
        | inl is5 ↦
            fixed_field-IsField size start 4 rest tag n k f ra whole (inr (ground arith, refl))
              (ground arith)
        | inr not5 ↦ absurd (ground arith)
      ]
    ]
  ]
]

-- What a round takes has one of the four shapes.
pub next_field-took :
    (size start : ℕ) (rest : Bytes) (f : ProtoField) (k : ℕ)
    → start + length rest ≡ size
    → size < 2 ^ 63
    → next_field size start rest ≡ took f k
    → IsField f
unfolding next_field
next_field-took size start rest f k whole small h = by_length (proto_varint rest).1 refl
  where
    by_length : (m : ℕ) → (proto_varint rest).1 ≡ m → IsField f
    by_length zero e = absurd (ground arith)
    by_length (suc m) e =
        by_wire-IsField size start rest (proto_varint rest).0 (suc m) k f (Reads-take rest m e)
          (omega (arith, proto_varint-le rest)) whole small (ground arith)

-- A round takes the bytes of its field, all of which are there.
pub next_field-full :
    (size start : ℕ) (rest : Bytes) (f : ProtoField) (k : ℕ)
    → start + length rest ≡ size
    → size < 2 ^ 63
    → next_field size start rest ≡ took f k
    → (f.full ≡ take k rest) × (k ≤ length rest)
next_field-full size start rest f k whole small h =
    let front : f.full ≡ take k rest = (rw h at (next_field-TakesFront size start rest)).0 in
    let spelled : f.full ++ drop k rest ≡ rest = rw front (take-append-drop k rest) in
    let again : next_field size start (f.full ++ drop k rest) ≡ took f (length f.full) =
      next_field-IsField size start f (drop k rest)
        (next_field-took size start rest f k whole small h) (omega (arith, ap length spelled))
        small in
    (front, ground (arith, again, h, spelled, front, length-take k rest))
