-- ===== src/Wire/Fields/Lossless.antt =====
-- Fields that were parsed spell the whole body, and the loop never runs out of fuel.
use jev_routing.Prelude.{
  ℕ, zero, suc, ◌+◌, ◌≤◌, ◌<◌, ◌≡◌, ◌≢◌, refl, Option, none, some, List, [], ◌∷◌, map, arith,
  length, take, drop, concat, Go, ok, panic, stuck, take-append-drop, length-drop,
}
use jev_routing.Wire.Varint.{Bytes}
use jev_routing.Wire.Fields.{
  ProtoField, Round, malformed, crash, took, next_field, by_wire, varint_field, fixed_field,
  length_field, take_field, cons_field, parse_loop, parse_proto_fields,
}

-- What a round takes is what it reports: some bytes from the front.
abbrev pub TakesFront : Bytes → Round → Type 0
TakesFront rest (took f k) = (f.full ≡ take k rest) × (0 < k)
TakesFront rest _ = Unit

pub next_field-TakesFront :
    (size start : ℕ) (rest : Bytes) → TakesFront rest (next_field size start rest)
unfolding next_field by_wire varint_field fixed_field length_field take_field
next_field-TakesFront size start rest = ground arith

-- the bytes of the fields, one after another
abbrev pub spell : List ProtoField → Bytes
spell fs = concat (map (λ f. f.full) fs)

abbrev Spells : Bytes → Go (Option (List ProtoField)) → Type 0
Spells body (ok (some fs)) = spell fs ≡ body
Spells body (ok none) = Unit
Spells body panic = Unit
Spells body stuck = Unit

cons_field-Spells :
    (f : ProtoField) (k : ℕ) (body : Bytes) (r : Go (Option (List ProtoField)))
    → f.full ≡ take k body
    → Spells (drop k body) r
    → Spells body (cons_field f r)
cons_field-Spells f k body (ok (some fs)) e h = cc (e, h, take-append-drop k body)
cons_field-Spells f k body (ok none) e h = tt
cons_field-Spells f k body panic e h = tt
cons_field-Spells f k body stuck e h = tt

parse_loop-Spells :
    (fuel size start : ℕ) (rest : Bytes) → Spells rest (parse_loop fuel size start rest)
unfolding parse_loop
parse_loop-Spells fuel size start [] = refl
parse_loop-Spells zero size start (b ∷ bs) = tt
parse_loop-Spells (suc fuel) size start (b ∷ bs) =
    after (next_field size start (b ∷ bs)) (next_field-TakesFront size start (b ∷ bs))
      λ k. parse_loop-Spells fuel size (start + k) (drop k (b ∷ bs))
  where
    after :
        (r : Round)
        → TakesFront (b ∷ bs) r
        → ((k : ℕ) → Spells (drop k (b ∷ bs)) (parse_loop fuel size (start + k) (drop k (b ∷ bs))))
        → Spells (b ∷ bs) (elim r [
          | malformed ↦ ok none
          | crash ↦ panic
          | took f k ↦ cons_field f (parse_loop fuel size (start + k) (drop k (b ∷ bs)))
        ])
    after malformed t ih = tt
    after crash t ih = tt
    after (took f k) t ih = cons_field-Spells f k (b ∷ bs) _ t.0 (ih k)

-- The `full` slices of the fields that parseProtoFields returns spell the body: nothing is lost,
-- reordered or read twice.
pub parse-spell :
    (body : Bytes) (fs : List ProtoField) → parse_proto_fields body ≡ ok (some fs) → spell fs ≡ body
unfolding parse_proto_fields
parse-spell body fs e = rw e at (parse_loop-Spells (length body) (length body) 0 body)

abbrev Ends : Go (Option (List ProtoField)) → Type 0
Ends (ok r) = Unit
Ends panic = Unit
Ends stuck = ⊥

cons_field-Ends :
    (f : ProtoField) (r : Go (Option (List ProtoField))) → Ends r → Ends (cons_field f r)
cons_field-Ends f (ok (some fs)) h = tt
cons_field-Ends f (ok none) h = tt
cons_field-Ends f panic h = tt
cons_field-Ends f stuck h = elim h [ ]

parse_loop-Ends :
    (fuel size start : ℕ) (rest : Bytes)
    → length rest ≤ fuel
    → Ends (parse_loop fuel size start rest)
unfolding parse_loop
parse_loop-Ends fuel size start [] h = tt
parse_loop-Ends zero size start (b ∷ bs) h = absurd (omega arith)
parse_loop-Ends (suc fuel) size start (b ∷ bs) h =
    after (next_field size start (b ∷ bs)) (next_field-TakesFront size start (b ∷ bs)) λ k lt.
      parse_loop-Ends fuel size (start + k) (drop k (b ∷ bs))
        (omega (arith, length-drop k (b ∷ bs)))
  where
    after :
        (r : Round)
        → TakesFront (b ∷ bs) r
        → ((k : ℕ) → 0 < k → Ends (parse_loop fuel size (start + k) (drop k (b ∷ bs))))
        → Ends (elim r [
          | malformed ↦ ok none
          | crash ↦ panic
          | took f k ↦ cons_field f (parse_loop fuel size (start + k) (drop k (b ∷ bs)))
        ])
    after malformed t ih = tt
    after crash t ih = tt
    after (took f k) t ih = cons_field-Ends f _ (ih k t.1)

-- On every body parseProtoFields comes to an end, whatever the bytes are: it returns or panics.
pub parse-ne-stuck : (body : Bytes) → parse_proto_fields body ≢ stuck
unfolding parse_proto_fields
parse-ne-stuck body e = rw e at (parse_loop-Ends (length body) (length body) 0 body (omega arith))
