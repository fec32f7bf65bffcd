-- ===== src/Wire/Fields/Parsing.antt =====
-- parseProtoFields on lists of fields: what it returns has the four shapes, and any list of such
-- fields reads back.
use jev_routing.Prelude.{
  ℕ, zero, suc, ◌+◌, ◌^◌, ◌≤◌, ◌<◌, ◌≡◌, refl, ap, ◌∙◌, Option, none, some, List, [], ◌∷◌, ◌++◌,
  arith, length, drop, All, Go, ok, panic, stuck, length-drop, length-append, drop-length-append,
}
use jev_routing.Wire.Varint.{Bytes}
use jev_routing.Wire.Fields.{
  ProtoField, Round, malformed, crash, took, next_field, cons_field, parse_loop, parse_proto_fields,
}
use jev_routing.Wire.Fields.Lossless.{spell}
use jev_routing.Wire.Fields.Reparse.{IsField, is_varint, is_fixed, is_bytes, next_field-IsField}
use jev_routing.Wire.Fields.Shape.{next_field-took, next_field-full}

abbrev Shaped : Go (Option (List ProtoField)) → Type 0
Shaped (ok (some fs)) = All IsField fs
Shaped _ = Unit

cons_field-Shaped :
    (f : ProtoField) (r : Go (Option (List ProtoField)))
    → IsField f
    → Shaped r
    → Shaped (cons_field f r)
cons_field-Shaped f (ok (some fs)) i h = (i, h)
cons_field-Shaped f (ok none) i h = tt
cons_field-Shaped f panic i h = tt
cons_field-Shaped f stuck i h = tt

parse_loop-Shaped :
    (fuel size start : ℕ) (rest : Bytes)
    → start + length rest ≡ size
    → size < 2 ^ 63
    → Shaped (parse_loop fuel size start rest)
unfolding parse_loop
parse_loop-Shaped fuel size start [] whole small = tt
parse_loop-Shaped zero size start (b ∷ bs) whole small = tt
parse_loop-Shaped (suc fuel) size start (b ∷ bs) whole small =
    after (next_field size start (b ∷ bs)) refl λ k le.
      parse_loop-Shaped fuel size (start + k) (drop k (b ∷ bs))
        (omega (arith, length-drop k (b ∷ bs))) small
  where
    after :
        (r : Round)
        → next_field size start (b ∷ bs) ≡ r
        → ((k : ℕ)
            → k ≤ length (b ∷ bs)
            → Shaped (parse_loop fuel size (start + k) (drop k (b ∷ bs))))
        → Shaped (elim r [
          | malformed ↦ ok none
          | crash ↦ panic
          | took f k ↦ cons_field f (parse_loop fuel size (start + k) (drop k (b ∷ bs)))
        ])
    after malformed e ih = tt
    after crash e ih = tt
    after (took f k) e ih =
        cons_field-Shaped f _ (next_field-took size start (b ∷ bs) f k whole small e)
          (ih k (next_field-full size start (b ∷ bs) f k whole small e).1)

-- Every field that a parse of less than 2 ^ 63 bytes returns has one of the four shapes.
pub parse-All :
    (body : Bytes) (fs : List ProtoField)
    → length body < 2 ^ 63
    → parse_proto_fields body ≡ ok (some fs)
    → All IsField fs
unfolding parse_proto_fields
parse-All body fs small e =
    rw e at (parse_loop-Shaped (length body) (length body) 0 body (omega arith) small)

IsField-nonempty : {f : ProtoField} → IsField f → 0 < length f.full
IsField-nonempty (is_varint tag v a c ra rc w e) =
    ground (arith, ap (λ (g : ProtoField). length g.full) e, length-append a c)
IsField-nonempty (is_fixed tag a c ra w e) =
    ground (arith, ap (λ (g : ProtoField). length g.full) e, length-append a c)
IsField-nonempty (is_bytes tag a b c ra rb w e) =
    ground (arith, ap (λ (g : ProtoField). length g.full) e, length-append a (b ++ c))

parse_loop-took :
    (fuel size start : ℕ) (rest : Bytes) (f : ProtoField) (k : ℕ)
    → 0 < length rest
    → next_field size start rest ≡ took f k
    → parse_loop (suc fuel) size start rest
      ≡ cons_field f (parse_loop fuel size (start + k) (drop k rest))
unfolding parse_loop
parse_loop-took fuel size start [] f k some_byte e = absurd (omega arith)
parse_loop-took fuel size start (b ∷ bs) f k some_byte e = rw (e, parse_loop)

parse_loop-spell :
    (fs : List ProtoField) (fuel size start : ℕ)
    → All IsField fs
    → length (spell fs) ≤ fuel
    → start + length (spell fs) ≡ size
    → size < 2 ^ 63
    → parse_loop fuel size start (spell fs) ≡ ok (some fs)
parse_loop-spell [] fuel size start all le whole small = unfold parse_loop in refl
parse_loop-spell (f ∷ fs) zero size start all le whole small =
    absurd (omega (arith, IsField-nonempty all.0, length-append f.full (spell fs)))
parse_loop-spell (f ∷ fs) (suc fuel) size start all le whole small =
    let some_byte = IsField-nonempty all.0 in
    let sum = length-append f.full (spell fs) in
    parse_loop-took fuel size start (spell (f ∷ fs)) f (length f.full) (omega arith)
      (next_field-IsField size start f (spell fs) all.0 (omega arith) small)
    ∙ rw (
      drop-length-append f.full (spell fs),
      parse_loop-spell fs fuel size (start + length f.full) all.1 (omega arith) (omega arith) small,
    )

-- A list of fields of the four shapes, spelled out, parses back to itself.
pub parse-spell_of :
    (fs : List ProtoField)
    → All IsField fs
    → length (spell fs) < 2 ^ 63
    → parse_proto_fields (spell fs) ≡ ok (some fs)
unfolding parse_proto_fields
parse-spell_of fs all small =
    parse_loop-spell fs (length (spell fs)) (length (spell fs)) 0 all (omega arith) (omega arith)
      small
