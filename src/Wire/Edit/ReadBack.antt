-- ===== src/Wire/Edit/ReadBack.antt =====
-- What the editors write parses back to the fields that it should hold.
use jev_routing.Prelude.{
  ℕ, ◌/◌, ◌%◌, ◌^◌, ◌<◌, inl, inr, ◌≡◌, refl, sym, ap, ◌∙◌, Bool, true, false, not, some, List, [],
  ◌∷◌, ◌++◌, map, if◌then◌else◌, length, append_assoc, append-nil, arith, All, ok, Bool-cases,
}
use jev_routing.Wire.Varint.{Bytes, proto_encode_varint}
use jev_routing.Wire.Fields.{ProtoField, parse_proto_fields}
use jev_routing.Wire.Fields.Lossless.{spell}
use jev_routing.Wire.Fields.Reparse.{Reads-encode, IsField, is_bytes}
use jev_routing.Wire.Fields.Parsing.{parse-All, parse-spell_of}
use jev_routing.Wire.Edit.{
  ld_tag, proto_tag_and_bytes, proto_bytes, proto_repeated, is_ld, replace_repeated_loop,
  replace_repeated_bytes_field,
}

-- the field that protoBytes writes
abbrev pub ld_field : ℕ → Bytes → ProtoField
ld_field field raw = record { field = field; wire = 2; raw = raw; full = proto_bytes field raw }

tag_parts : (field : ℕ) → field < 2 ^ 61 → (ld_tag field / 8 ≡ field) × (ld_tag field % 8 ≡ 2)
tag_parts field small = (omega arith, omega arith)

-- protoBytes writes a field of the length-delimited shape.
pub ld_field-IsField :
    (field : ℕ) (raw : Bytes) → field < 2 ^ 61 → length raw < 2 ^ 64 → IsField (ld_field field raw)
unfolding proto_bytes proto_tag_and_bytes
ld_field-IsField field raw small fits =
    is_bytes (ld_tag field) (proto_encode_varint (ld_tag field)) (proto_encode_varint (length raw))
      raw (Reads-encode (ld_tag field) (omega arith)) (Reads-encode (length raw) fits) (omega arith)
      (ground (arith, tag_parts field small))

-- the list of fields that replaceRepeatedBytesField spells; the flag is `placed`
splice : ℕ → List Bytes → Bool → List ProtoField → List ProtoField
splice field raws placed [] = if not placed then map (ld_field field) raws else []
splice field raws placed (f ∷ fs) =
    if is_ld field f
    then (if not placed then map (ld_field field) raws else []) ++ splice field raws true fs
    else f ∷ splice field raws placed fs

spell-append : (fs gs : List ProtoField) → spell (fs ++ gs) ≡ spell fs ++ spell gs
spell-append [] gs = refl
spell-append (f ∷ fs) gs = rw (spell-append fs gs, append_assoc)

spell-repeated :
    (field : ℕ) (raws : List Bytes) → spell (map (ld_field field) raws) ≡ proto_repeated field raws
unfolding proto_repeated
spell-repeated field [] = refl
spell-repeated field (raw ∷ raws) = rw (spell-repeated field raws)

loop-splice :
    (field : ℕ) (raws : List Bytes) (placed : Bool) (fs : List ProtoField)
    → replace_repeated_loop field raws placed fs ≡ spell (splice field raws placed fs)
unfolding replace_repeated_loop splice
loop-splice field raws true [] = refl
loop-splice field raws false [] = sym (spell-repeated field raws)
loop-splice field raws placed (f ∷ fs) = ground (
  arith,
  loop-splice field raws true fs,
  loop-splice field raws placed fs,
  spell-append (map (ld_field field) raws) (splice field raws true fs),
  spell-repeated field raws,
)

-- The raw bytes of the length-delimited fields numbered `field`, and all other fields, in order.
pub ld_raws : ℕ → List ProtoField → List Bytes
ld_raws field [] = []
ld_raws field (f ∷ fs) = if is_ld field f then f.raw ∷ ld_raws field fs else ld_raws field fs

pub others : ℕ → List ProtoField → List ProtoField
others field [] = []
others field (f ∷ fs) = if is_ld field f then others field fs else f ∷ others field fs

pub is_ld-ld_field : (field : ℕ) (raw : Bytes) → is_ld field (ld_field field raw) ≡ true
is_ld-ld_field field raw = ground arith

ld_raws-map :
    (field : ℕ) (raws : List Bytes) (fs : List ProtoField)
    → ld_raws field (map (ld_field field) raws ++ fs) ≡ raws ++ ld_raws field fs
unfolding ld_raws
ld_raws-map field [] fs = refl
ld_raws-map field (raw ∷ raws) fs = rw (is_ld-ld_field field raw, ld_raws-map field raws fs)

others-map :
    (field : ℕ) (raws : List Bytes) (fs : List ProtoField)
    → others field (map (ld_field field) raws ++ fs) ≡ others field fs
unfolding others
others-map field [] fs = refl
others-map field (raw ∷ raws) fs = rw (is_ld-ld_field field raw, others-map field raws fs)

ld_raws-splice :
    (field : ℕ) (raws : List Bytes) (placed : Bool) (fs : List ProtoField)
    → ld_raws field (splice field raws placed fs) ≡ (if placed then [] else raws)
unfolding ld_raws splice
ld_raws-splice field raws true [] = refl
ld_raws-splice field raws false [] =
    ap (ld_raws field) (sym (append-nil _)) ∙ ld_raws-map field raws [] ∙ append-nil raws
ld_raws-splice field raws placed (f ∷ fs) = ground (
  arith,
  ld_raws-splice field raws true fs,
  ld_raws-splice field raws placed fs,
  ld_raws-map field raws (splice field raws true fs),
  append-nil raws,
)

others-splice :
    (field : ℕ) (raws : List Bytes) (placed : Bool) (fs : List ProtoField)
    → others field (splice field raws placed fs) ≡ others field fs
unfolding others splice
others-splice field raws true [] = refl
others-splice field raws false [] =
    ap (others field) (sym (append-nil _)) ∙ others-map field raws []
others-splice field raws placed (f ∷ fs) = ground (
  arith,
  others-splice field raws true fs,
  others-splice field raws placed fs,
  others-map field raws (splice field raws true fs),
)

map-All :
    (field : ℕ) (raws : List Bytes) (fs : List ProtoField)
    → field < 2 ^ 61
    → All (λ raw. length raw < 2 ^ 64) raws
    → All IsField fs
    → All IsField (map (ld_field field) raws ++ fs)
map-All field [] fs small fit all = all
map-All field (raw ∷ raws) fs small fit all =
    (ld_field-IsField field raw small fit.0, map-All field raws fs small fit.1 all)

module _ (field : ℕ) (raws : List Bytes) (small : field < 2 ^ 61)
    (fit : All (λ raw. length raw < 2 ^ 64) raws) where
  splice-All :
      (placed : Bool) (fs : List ProtoField)
      → All IsField fs
      → All IsField (splice field raws placed fs)
  unfolding splice
  splice-All true [] all = tt
  splice-All false [] all =
      rw (← append-nil (map (ld_field field) raws)) (map-All field raws [] small fit tt)
  splice-All placed (f ∷ fs) all = elim (Bool-cases (is_ld field f)) [
    | inl this ↦ rw this (written placed (splice field raws true fs) (splice-All true fs all.1))
    | inr other ↦ rw other (all.0, splice-All placed fs all.1)
  ]
    where
      written :
          (b : Bool) (gs : List ProtoField)
          → All IsField gs
          → All IsField ((if not b then map (ld_field field) raws else []) ++ gs)
      written true gs h = h
      written false gs h = map-All field raws gs small fit h

  -- A body that parses, edited by replaceRepeatedBytesField, parses again: its length-delimited
  -- fields of that number hold exactly `raws`, in order, and all its other fields are the old ones,
  -- in order. `orig`, the edited body and each of `raws` fit in memory.
  pub replace_repeated-read_back :
      (orig out : Bytes) (fs : List ProtoField)
      → length orig < 2 ^ 63
      → parse_proto_fields orig ≡ ok (some fs)
      → replace_repeated_bytes_field orig field raws ≡ ok out
      → length out < 2 ^ 63
      → (gs : List ProtoField) × (parse_proto_fields out ≡ ok (some gs))
        × (ld_raws field gs ≡ raws)
        × (others field gs ≡ others field fs)
  unfolding replace_repeated_bytes_field
  replace_repeated-read_back orig out fs orig_fits parsed edited out_fits =
      let gs = splice field raws false fs in
      let written : out ≡ spell gs = ground (arith, loop-splice field raws false fs) in
      (
        gs,
        rw written (
            parse-spell_of gs (splice-All false fs (parse-All orig fs orig_fits parsed))
              (rw written at out_fits)),
        ld_raws-splice field raws false fs,
        others-splice field raws false fs,
      )
