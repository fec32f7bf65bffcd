-- ===== src/Wire/Fields/Panic.antt =====
-- A length of 2 ^ 63 or more passes the bounds test of parseProtoFields as a negative number.
use jev_routing.Prelude.{
  ℕ, ◌+◌, ◌%◌, ◌^◌, ◌≤◌, ◌<◌, ◌≡◌, ◌∙◌, ◌++◌, arith, length, length-append, drop-length-append,
  panic, [], ◌∷◌,
}
use jev_routing.Wire.Varint.{Bytes, proto_encode_varint, encode-nonempty}
use jev_routing.Wire.Fields.{
  crash, next_field, by_wire, length_field, parse_loop, parse_proto_fields,
}
use jev_routing.Wire.Fields.Reparse.{Reads, Reads-encode, next_field-Reads}

length_field-crash :
    (tag size start ln : ℕ) (a b c : Bytes)
    → Reads ln b
    → 2 ^ 63 ≤ ln
    → start + length (a ++ (b ++ c)) ≤ size
    → size < 2 ^ 62
    → length_field size start (a ++ (b ++ c)) tag (length a) ≡ crash
unfolding length_field
length_field-crash tag size start ln a b c rb big within small =
    rw (drop-length-append a (b ++ c), rb.reads c)
      (ground (arith, rb.nonempty, rb.fits, length-append a (b ++ c), length-append b c))

parse-crash :
    (body : Bytes)
    → 0 < length body
    → next_field (length body) 0 body ≡ crash
    → parse_proto_fields body ≡ panic
unfolding parse_proto_fields parse_loop
parse-crash [] some_byte e = absurd (omega arith)
parse-crash (b ∷ bs) some_byte e = rw (e, parse_loop)

-- A body that starts with a length-delimited field whose length is 2 ^ 63 or more makes
-- parseProtoFields panic, whatever follows, instead of the `nil, false` of a length out of range.
pub parse_panics :
    (tag ln : ℕ) (rest : Bytes)
    → tag < 2 ^ 64
    → tag % 8 ≡ 2
    → 2 ^ 63 ≤ ln
    → ln < 2 ^ 64
    → length (proto_encode_varint tag ++ (proto_encode_varint ln ++ rest)) < 2 ^ 62
    → parse_proto_fields (proto_encode_varint tag ++ (proto_encode_varint ln ++ rest)) ≡ panic
parse_panics tag ln rest tag_fits w big fits small =
    let a = proto_encode_varint tag in
    let b = proto_encode_varint ln in
    let body = a ++ (b ++ rest) in
    let at_length : by_wire (length body) 0 body tag (length a) ≡ crash =
      unfold by_wire in
      ground (
        arith,
        length_field-crash tag (length body) 0 ln a b rest (Reads-encode ln fits) big (omega arith)
            small,
      ) in
    parse-crash body (omega (arith, encode-nonempty tag, length-append a (b ++ rest)))
      (next_field-Reads tag (length body) 0 a (b ++ rest) (Reads-encode tag tag_fits) ∙ at_length)
