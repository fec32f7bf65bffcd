-- ===== src/Tests/Wires.antt =====
-- The wire format on concrete bodies.
use jev_routing.Prelude.{
  ℕ, All, inl, ◌^◌, ◌<◌, ◌≡◌, refl, List, [], ◌∷◌, ◌++◌, none, some, true, false, ok, panic, stuck,
  ◌≢◌, length, arith,
}
use jev_routing.Wire.Varint.{
  Bytes, proto_varint, varint_from, proto_encode_varint, encode_from, proto_varint-encode,
}
use jev_routing.Wire.Fields.{
  ProtoField, parse_proto_fields, parse_loop, next_field, by_wire, varint_field, fixed_field,
  length_field, take_field,
}
use jev_routing.Wire.Fields.Lossless.{spell, parse-spell, parse-ne-stuck}
use jev_routing.Wire.Fields.Panic.{parse_panics}
use jev_routing.Wire.Edit.{
  proto_bytes, proto_repeated, proto_tag_and_bytes, replace_repeated_loop,
  replace_repeated_bytes_field, replace_length_loop, replace_length_field, first_ld,
}
use jev_routing.Wire.Edit.ReadBack.{replace_repeated-read_back, ld_raws, others}
use jev_routing.Wire.Edit.Lengths.{first_ld-replace_length}
use jev_routing.Wire.Frame.{
  uint32, connect_frame, read_connect_frame, looks_connect_frame, emit_connect_frame, Emitter,
}
use jev_routing.Wire.Frame.Drained.{drain, drain_lem}
use jev_routing.Wire.Frame.Stream.{
  recognised-connect_frame, emit-Conserves, Conserves, Stream, going_on,
}

proto_varint-encode_example :
    proto_varint (proto_encode_varint 300 ++ (9 ∷ [])) ≡ (300, length (proto_encode_varint 300))
proto_varint-encode_example = proto_varint-encode 300 (9 ∷ []) (omega arith)

encode-300 : proto_encode_varint 300 ≡ 172 ∷ 2 ∷ []
unfolding proto_encode_varint encode_from
encode-300 = refl

-- field 1, a varint; field 2, two bytes; field 2 again, one byte
abbrev body : Bytes
body = 8 ∷ 150 ∷ 1 ∷ 18 ∷ 2 ∷ 7 ∷ 8 ∷ 18 ∷ 1 ∷ 5 ∷ []

abbrev fields : List ProtoField
fields =
    record { field = 1; wire = 0; raw = 150 ∷ 1 ∷ []; full = 8 ∷ 150 ∷ 1 ∷ [] }
    ∷ record { field = 2; wire = 2; raw = 7 ∷ 8 ∷ []; full = 18 ∷ 2 ∷ 7 ∷ 8 ∷ [] }
    ∷ record { field = 2; wire = 2; raw = 5 ∷ []; full = 18 ∷ 1 ∷ 5 ∷ [] }
    ∷ []

parse-body : parse_proto_fields body ≡ ok (some fields)
unfolding parse_proto_fields parse_loop next_field by_wire varint_field fixed_field length_field
    take_field proto_varint varint_from
parse-body = refl

parse-cut : parse_proto_fields (18 ∷ 2 ∷ 7 ∷ []) ≡ ok none
unfolding parse_proto_fields parse_loop next_field by_wire varint_field fixed_field length_field
    take_field proto_varint varint_from
parse-cut = refl

parse-spell_example : spell fields ≡ body
parse-spell_example = parse-spell body fields parse-body

huge_length : length (proto_encode_varint 18 ++ (proto_encode_varint (2 ^ 63) ++ (1 ∷ []))) < 2 ^ 62
unfolding proto_encode_varint encode_from
huge_length = omega arith

parse_panics_example :
    parse_proto_fields (proto_encode_varint 18 ++ (proto_encode_varint (2 ^ 63) ++ (1 ∷ [])))
    ≡ panic
parse_panics_example =
    parse_panics 18 (2 ^ 63) (1 ∷ []) (omega arith) refl (omega arith) (omega arith) huge_length

abbrev edited : Bytes
edited = 8 ∷ 150 ∷ 1 ∷ 18 ∷ 1 ∷ 9 ∷ []

replace-body : replace_repeated_bytes_field body 2 ((9 ∷ []) ∷ []) ≡ ok edited
unfolding replace_repeated_bytes_field replace_repeated_loop proto_repeated proto_bytes
    proto_tag_and_bytes proto_encode_varint encode_from parse_proto_fields parse_loop next_field
    by_wire varint_field fixed_field length_field take_field proto_varint varint_from
replace-body = refl

replace_repeated-read_back_example :
    (gs : List ProtoField) × (parse_proto_fields edited ≡ ok (some gs))
    × (ld_raws 2 gs ≡ (9 ∷ []) ∷ [])
    × (others 2 gs ≡ others 2 fields)
replace_repeated-read_back_example =
    replace_repeated-read_back 2 ((9 ∷ []) ∷ []) (omega arith) (omega arith, tt) body edited fields
      (omega arith) parse-body replace-body (omega arith)

abbrev lengthened : Bytes
lengthened = 8 ∷ 150 ∷ 1 ∷ 18 ∷ 1 ∷ 9 ∷ 18 ∷ 1 ∷ 5 ∷ []

replace_length-body : replace_length_field body 2 (9 ∷ []) ≡ ok lengthened
unfolding replace_length_field replace_length_loop proto_bytes proto_tag_and_bytes
    proto_encode_varint encode_from parse_proto_fields parse_loop next_field by_wire varint_field
    fixed_field length_field take_field proto_varint varint_from
replace_length-body = refl

first_ld-replace_length_example : first_ld lengthened 2 ≡ ok (some (9 ∷ []))
first_ld-replace_length_example =
    first_ld-replace_length 2 (9 ∷ []) (omega arith) (omega arith) body lengthened (omega arith)
      replace_length-body (omega arith)

abbrev twice : Bytes → Bytes
twice b = b ++ b

abbrev sent : Bytes
sent = 0 ∷ 0 ∷ 0 ∷ 0 ∷ 1 ∷ 7 ∷ 9 ∷ []

abbrev start : Emitter
start = record { buf = []; ended = false; src = sent }

abbrev doubled : Bytes
doubled = 0 ∷ 0 ∷ 0 ∷ 0 ∷ 1 ∷ 7 ∷ 0 ∷ 0 ∷ 0 ∷ 0 ∷ 1 ∷ 7 ∷ 9 ∷ []

sent-Stream : Stream twice sent doubled
unfolding uint32
sent-Stream =
    Stream.whole (0 ∷ 0 ∷ 0 ∷ 0 ∷ 1 ∷ []) (7 ∷ []) refl refl (omega arith)
      (Stream.cut (inl (omega arith)))

emit-Conserves_example : Conserves twice doubled (emit_connect_frame twice 4 start)
emit-Conserves_example =
    emit-Conserves twice 4 start doubled (going_on doubled refl sent-Stream refl)

abbrev buffers : List ℕ
buffers = 4 ∷ 4 ∷ 4 ∷ 4 ∷ 4 ∷ 4 ∷ 4 ∷ 4 ∷ 4 ∷ 4 ∷ 4 ∷ 4 ∷ 4 ∷ 4 ∷ []

buffers-nonempty : All (λ room. 0 < room) buffers
buffers-nonempty = (
  omega arith,
  (
    omega arith,
    (
      omega arith,
      (
        omega arith,
        (
          omega arith,
          (
            omega arith,
            (
              omega arith,
              (
                omega arith,
                (
                  omega arith,
                  (omega arith, (omega arith, (omega arith, (omega arith, (omega arith, tt))))),
                ),
              ),
            ),
          ),
        ),
      ),
    ),
  ),
)

drain_lem_example : drain twice buffers start ≡ (doubled, true)
drain_lem_example =
    drain_lem twice buffers start doubled buffers-nonempty (omega arith)
      (going_on doubled refl sent-Stream refl)

parse-ne-stuck_example : parse_proto_fields (18 ∷ 2 ∷ 7 ∷ []) ≢ stuck
parse-ne-stuck_example = parse-ne-stuck (18 ∷ 2 ∷ 7 ∷ [])

recognised-connect_frame_example :
    (looks_connect_frame (connect_frame 1 (7 ∷ 8 ∷ [])) ≡ true)
    × (read_connect_frame (connect_frame 1 (7 ∷ 8 ∷ []) ++ (5 ∷ []))
        ≡ record { frame = connect_frame 1 (7 ∷ 8 ∷ []); complete = true; left = 5 ∷ [] })
recognised-connect_frame_example =
    recognised-connect_frame 1 (7 ∷ 8 ∷ []) (5 ∷ []) (omega arith) (omega arith)
