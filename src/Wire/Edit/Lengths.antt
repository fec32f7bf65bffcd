-- ===== src/Wire/Edit/Lengths.antt =====
-- replaceLengthField and firstLD: the field that was written is the field that is read.
use jev_routing.Prelude.{
  ℕ, ◌^◌, ◌<◌, ◌≡◌, refl, sym, ◌∙◌, Bool, true, false, not, Option, none, some, List, [], ◌∷◌, ◌++◌,
  if◌then◌else◌, length, append-nil, arith, All, Go, ok, panic, stuck, Bool-cases, inl, inr,
}
use jev_routing.Wire.Varint.{Bytes}
use jev_routing.Wire.Fields.{ProtoField, parse_proto_fields}
use jev_routing.Wire.Fields.Lossless.{spell}
use jev_routing.Wire.Fields.Reparse.{IsField}
use jev_routing.Wire.Fields.Parsing.{parse-All, parse-spell_of}
use jev_routing.Wire.Edit.{
  proto_bytes, is_ld, first_of_fields, first_ld, replace_length_loop, replace_length_field,
}
use jev_routing.Wire.Edit.ReadBack.{ld_field, ld_field-IsField, is_ld-ld_field}

-- the list of fields that the loop of replaceLengthField spells
swap_first : ℕ → Bytes → List ProtoField → List ProtoField
swap_first field raw [] = []
swap_first field raw (f ∷ fs) =
    if is_ld field f then ld_field field raw ∷ fs else f ∷ swap_first field raw fs

abbrev has_ld : ℕ → List ProtoField → Bool
has_ld field [] = false
has_ld field (f ∷ fs) = if is_ld field f then true else has_ld field fs

loop_replaced :
    (field : ℕ) (raw : Bytes) (fs : List ProtoField)
    → replace_length_loop field raw true fs ≡ (spell fs, true)
unfolding replace_length_loop
loop_replaced field raw [] = refl
loop_replaced field raw (f ∷ fs) = ground (arith, loop_replaced field raw fs)

loop-swap_first :
    (field : ℕ) (raw : Bytes) (fs : List ProtoField)
    → replace_length_loop field raw false fs ≡ (spell (swap_first field raw fs), has_ld field fs)
unfolding replace_length_loop swap_first
loop-swap_first field raw [] = refl
loop-swap_first field raw (f ∷ fs) =
    ground (arith, loop_replaced field raw fs, loop-swap_first field raw fs)

-- the fields of the edited body
edited : ℕ → Bytes → List ProtoField → List ProtoField
edited field raw fs =
    if has_ld field fs
    then swap_first field raw fs
    else ld_field field raw ∷ swap_first field raw fs

first-swap_first :
    (field : ℕ) (raw : Bytes) (fs : List ProtoField)
    → has_ld field fs ≡ true
    → first_of_fields field (swap_first field raw fs) ≡ some raw
unfolding first_of_fields swap_first
first-swap_first field raw [] h = ground arith
first-swap_first field raw (f ∷ fs) h =
    ground (arith, first-swap_first field raw fs, is_ld-ld_field field raw)

first-edited :
    (field : ℕ) (raw : Bytes) (fs : List ProtoField)
    → first_of_fields field (edited field raw fs) ≡ some raw
unfolding edited
first-edited field raw fs = elim (Bool-cases (has_ld field fs)) [
  | inl has ↦ rw has (first-swap_first field raw fs has)
  | inr lacks ↦ rw lacks (unfold first_of_fields in ground (arith, is_ld-ld_field field raw))
]

module _ (field : ℕ) (raw : Bytes) (small : field < 2 ^ 61) (fits : length raw < 2 ^ 64) where
  swap_first-All : (fs : List ProtoField) → All IsField fs → All IsField (swap_first field raw fs)
  unfolding swap_first
  swap_first-All [] all = tt
  swap_first-All (f ∷ fs) all = elim (Bool-cases (is_ld field f)) [
    | inl this ↦ rw this (ld_field-IsField field raw small fits, all.1)
    | inr other ↦ rw other (all.0, swap_first-All fs all.1)
  ]

  edited-All : (fs : List ProtoField) → All IsField fs → All IsField (edited field raw fs)
  unfolding edited
  edited-All fs all = elim (Bool-cases (has_ld field fs)) [
    | inl has ↦ rw has (swap_first-All fs all)
    | inr lacks ↦ rw lacks (ld_field-IsField field raw small fits, swap_first-All fs all)
  ]

  first_ld-edited :
      (fs : List ProtoField) (out : Bytes)
      → All IsField fs
      → out ≡ spell (edited field raw fs)
      → length out < 2 ^ 63
      → first_ld out field ≡ ok (some raw)
  unfolding first_ld
  first_ld-edited fs out all e out_fits = rw (
    e,
    parse-spell_of (edited field raw fs) (edited-All fs all) (rw e at out_fits),
    first-edited field raw fs,
  )

  spell-edited :
      (fs : List ProtoField)
      → (if not (has_ld field fs)
          then proto_bytes field raw ++ spell (swap_first field raw fs)
          else spell (swap_first field raw fs))
        ≡ spell (edited field raw fs)
  unfolding edited
  spell-edited fs = ground arith

  alone : proto_bytes field raw ≡ spell (edited field raw [])
  unfolding edited swap_first
  alone = sym (append-nil (proto_bytes field raw))

  -- What replaceLengthField writes, firstLD reads back, whether the body had the field, lacked it
  -- or did not parse at all. `orig` and the edited body fit in memory.
  pub first_ld-replace_length :
      (orig out : Bytes)
      → length orig < 2 ^ 63
      → replace_length_field orig field raw ≡ ok out
      → length out < 2 ^ 63
      → first_ld out field ≡ ok (some raw)
  unfolding replace_length_field
  first_ld-replace_length orig out orig_fits written out_fits =
      by_parse (parse_proto_fields orig) refl
    where
      by_parse :
          (r : Go (Option (List ProtoField)))
          → parse_proto_fields orig ≡ r
          → first_ld out field ≡ ok (some raw)
      by_parse (ok none) e =
          let whole : out ≡ proto_bytes field raw = ground arith in
          first_ld-edited [] out tt (whole ∙ alone) out_fits
      by_parse (ok (some fs)) e =
          first_ld-edited fs out (parse-All orig fs orig_fits e)
            (ground (arith, loop-swap_first field raw fs, spell-edited fs)) out_fits
      by_parse panic e = absurd (ground arith)
      by_parse stuck e = absurd (ground arith)
