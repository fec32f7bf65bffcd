-- ===== src/Wire/Fields/Reparse.antt =====
-- A field reads back wherever its bytes stand: the shape that parsed fields have, and parsing a
-- list of fields that have it.
use native.Mathlib.Nat.{mod-eq_of_lt}
use jev_routing.Prelude.{
  ◌⊎◌, ℕ, ◌+◌, ◌-◌, ◌/◌, ◌%◌, ◌^◌, ◌≤◌, ◌<◌, ◌≡◌, ap, ◌++◌, arith, append_assoc, length,
  length-append, take-length-append, drop-length-append, take-add-append,
}
use jev_routing.Wire.Varint.{
  Bytes, proto_varint, proto_encode_varint, proto_varint-encode, encode-nonempty,
}
use jev_routing.Wire.Fields.{
  ProtoField, took, take_field, varint_field, fixed_field, length_field, by_wire, next_field,
}

-- `a` is a whole varint of value `v`.
pub record Reads (v : ℕ) (a : Bytes) : Type 0 where
  pub nonempty : 0 < length a
  pub fits : v < 2 ^ 64
  pub reads : (r : Bytes) → proto_varint (a ++ r) ≡ (v, length a)

pub Reads-encode : (x : ℕ) → x < 2 ^ 64 → Reads x (proto_encode_varint x)
Reads-encode x h = record {
  nonempty = encode-nonempty x;
  fits = h;
  reads = λ r. proto_varint-encode x r h;
}

-- The four shapes of a field: its tag `a`, its length `b` if the wire type has one, its bytes `c`.
pub data IsField (f : ProtoField) : Type 0 where
  is_varint :
      (tag v : ℕ) (a c : Bytes)
      → Reads tag a
      → Reads v c
      → tag % 8 ≡ 0
      → f ≡ record { field = tag / 8; wire = tag % 8; raw = c; full = a ++ c }
      → IsField f
  is_fixed :
      (tag : ℕ) (a c : Bytes)
      → Reads tag a
      → ((tag % 8 ≡ 1) × (length c ≡ 8)) ⊎ ((tag % 8 ≡ 5) × (length c ≡ 4))
      → f ≡ record { field = tag / 8; wire = tag % 8; raw = c; full = a ++ c }
      → IsField f
  is_bytes :
      (tag : ℕ) (a b c : Bytes)
      → Reads tag a
      → Reads (length c) b
      → tag % 8 ≡ 2
      → f ≡ record { field = tag / 8; wire = tag % 8; raw = c; full = a ++ (b ++ c) }
      → IsField f

take_field-append :
    (tag : ℕ) (a c d : Bytes)
    → take_field tag (length a) (length c) (a ++ (c ++ d))
      ≡ took
          (record { field = tag / 8; wire = tag % 8; raw = c; full = a ++ c })
          (length a + length c)
unfolding take_field
take_field-append tag a c d = simp (drop-length-append, take-length-append, take-add-append)

pub next_field-Reads :
    (tag size start : ℕ) (a r : Bytes)
    → Reads tag a
    → next_field size start (a ++ r) ≡ by_wire size start (a ++ r) tag (length a)
unfolding next_field
next_field-Reads tag size start a r ra = rw (ra.reads r) (ground (arith, ra.nonempty))

varint_field-Reads :
    (tag v : ℕ) (a c d : Bytes)
    → Reads v c
    → varint_field (a ++ (c ++ d)) tag (length a)
      ≡ took
          (record { field = tag / 8; wire = tag % 8; raw = c; full = a ++ c })
          (length a + length c)
unfolding varint_field
varint_field-Reads tag v a c d rc =
    rw (drop-length-append a (c ++ d), rc.reads d)
      (ground (arith, rc.nonempty, take_field-append tag a c d))

fixed_field-append :
    (k tag size start : ℕ) (a c d : Bytes)
    → length c ≡ k
    → start + length (a ++ (c ++ d)) ≤ size
    → fixed_field k size start (a ++ (c ++ d)) tag (length a)
      ≡ took
          (record { field = tag / 8; wire = tag % 8; raw = c; full = a ++ c })
          (length a + length c)
unfolding fixed_field
fixed_field-append k tag size start a c d e fits =
    rw (← e)
      (ground (arith, take_field-append tag a c d, length-append a (c ++ d), length-append c d))

take_field-append_length :
    (tag : ℕ) (a b c d : Bytes)
    → take_field tag (length a + length b) (length c) (a ++ (b ++ (c ++ d)))
      ≡ took
          (record { field = tag / 8; wire = tag % 8; raw = c; full = a ++ (b ++ c) })
          (length a + length b + length c)
take_field-append_length tag a b c d =
    rw (← append_assoc a b (c ++ d), ← length-append a b, ← append_assoc a b c)
      (take_field-append tag (a ++ b) c d)

-- the index behind the field, which does not wrap
stop_at : (from n size : ℕ) → from + n ≤ size → size < 2 ^ 63 → (from + n) % 2 ^ 64 ≡ from + n
stop_at from n size fits small = mod-eq_of_lt (omega arith)

length_field-Reads :
    (tag size start : ℕ) (a b c d : Bytes)
    → Reads (length c) b
    → start + length (a ++ (b ++ (c ++ d))) ≤ size
    → size < 2 ^ 63
    → length_field size start (a ++ (b ++ (c ++ d))) tag (length a)
      ≡ took
          (record { field = tag / 8; wire = tag % 8; raw = c; full = a ++ (b ++ c) })
          (length a + length b + length c)
unfolding length_field
length_field-Reads tag size start a b c d rb fits small =
    let from = start + length a + length b in
    let within : from + length c ≤ size =
      omega (arith, length-append a (b ++ (c ++ d)), length-append b (c ++ d), length-append c d) in
    let gap : from + length c - from ≡ length c = omega arith in
    rw
      (
        drop-length-append a (b ++ (c ++ d)),
        rb.reads (c ++ d),
        stop_at from (length c) size within small,
        gap,
      )
      (ground (arith, rb.nonempty, within, small, take_field-append_length tag a b c d))

-- A field of one of the four shapes is read wherever it stands.
pub next_field-IsField :
    (size start : ℕ) (f : ProtoField) (r : Bytes)
    → IsField f
    → start + length (f.full ++ r) ≤ size
    → size < 2 ^ 63
    → next_field size start (f.full ++ r) ≡ took f (length f.full)
next_field-IsField size start f r (is_varint tag v a c ra rc w e) fits small =
    rw (e, append_assoc a c r, next_field-Reads tag size start a (c ++ r) ra, length-append a c)
      (unfold by_wire in ground (arith, varint_field-Reads tag v a c r rc))
next_field-IsField size start f r (is_fixed tag a c ra w e) fits small =
    rw (e, append_assoc a c r, next_field-Reads tag size start a (c ++ r) ra, length-append a c)
      (unfold by_wire in
        ground (
          arith,
          fixed_field-append 8 tag size start a c r,
          fixed_field-append 4 tag size start a c r,
          append_assoc a c r,
          ap (λ (g : ProtoField). length (g.full ++ r)) e,
        ))
next_field-IsField size start f r (is_bytes tag a b c ra rb w e) fits small =
    rw
      (
        e,
        append_assoc a (b ++ c) r,
        append_assoc b c r,
        next_field-Reads tag size start a (b ++ (c ++ r)) ra,
        length-append a (b ++ c),
        length-append b c,
      )
      (unfold by_wire in
        ground (
          arith,
          length_field-Reads tag size start a b c r rb,
          append_assoc a (b ++ c) r,
          append_assoc b c r,
          ap (λ (g : ProtoField). length (g.full ++ r)) e,
        ))
