-- ===== src/Wire/Edit.antt =====
-- The builders and editors of length-delimited fields: protoTagAndBytes of
-- internal/proxy/proto_observe.go, and protoBytes, protoRepeated, firstLD, the replace functions
-- and keptToolRaws of internal/proxy/connect_proto.go. A text is its bytes.
pub mod ReadBack
pub mod Lengths
use jev_routing.Prelude.{
  ℕ, zero, suc, ◌+◌, ◌*◌, ◌%◌, ◌^◌, Bool, true, false, not, ◌&&◌, Option, none, some, List, [], ◌∷◌,
  ◌++◌, ◌==◌, if◌then◌else◌, length, Go, ok, panic, stuck, ◌>>=◌,
}
use jev_routing.Wire.Varint.{Bytes, proto_encode_varint}
use jev_routing.Wire.Fields.{ProtoField, parse_proto_fields}
use jev_routing.Text.{Str, str_eq}

unfoldable pub proto_tag_and_bytes : ℕ → Bytes → Bytes
proto_tag_and_bytes tag raw = proto_encode_varint tag ++ (proto_encode_varint (length raw) ++ raw)

-- `uint64(field)<<3|2`
abbrev pub ld_tag : ℕ → ℕ
ld_tag field = field * 8 % 2 ^ 64 + 2

unfoldable pub proto_bytes : ℕ → Bytes → Bytes
proto_bytes field raw = proto_tag_and_bytes (ld_tag field) raw

unfoldable pub proto_string : ℕ → Bytes → Bytes
proto_string field s = proto_tag_and_bytes (ld_tag field) s

unfoldable pub proto_repeated : ℕ → List Bytes → Bytes
proto_repeated field [] = []
proto_repeated field (it ∷ items) = proto_bytes field it ++ proto_repeated field items

-- `f.field == field && f.wire == 2`
abbrev pub is_ld : ℕ → ProtoField → Bool
is_ld field f = f.field == field && f.wire == 2

-- The loop of firstLD. `none` is the source's nil slice.
unfoldable pub first_of_fields : ℕ → List ProtoField → Option Bytes
first_of_fields field [] = none
first_of_fields field (f ∷ fs) = if is_ld field f then some f.raw else first_of_fields field fs

unfoldable pub first_ld : Bytes → ℕ → Go (Option Bytes)
first_ld body field = do
  parsed ← parse_proto_fields body
  elim parsed [ none ↦ ok none | some fs ↦ ok (first_of_fields field fs) ]

-- The loop of replaceRepeatedBytesField; the flag is `placed`.
unfoldable pub replace_repeated_loop : ℕ → List Bytes → Bool → List ProtoField → Bytes
replace_repeated_loop field raws placed [] = if not placed then proto_repeated field raws else []
replace_repeated_loop field raws placed (f ∷ fs) =
    if is_ld field f
    then (if not placed then proto_repeated field raws else [])
      ++ replace_repeated_loop field raws true fs
    else f.full ++ replace_repeated_loop field raws placed fs

unfoldable pub replace_repeated_bytes_field : Bytes → ℕ → List Bytes → Go Bytes
replace_repeated_bytes_field orig field raws = do
  parsed ← parse_proto_fields orig
  elim parsed [ none ↦ ok orig | some fs ↦ ok (replace_repeated_loop field raws false fs) ]

-- The loop of replaceLengthField; the pair is `out` and `replaced`.
unfoldable pub replace_length_loop : ℕ → Bytes → Bool → List ProtoField → Bytes × Bool
replace_length_loop field raw replaced [] = ([], replaced)
replace_length_loop field raw replaced (f ∷ fs) =
    if is_ld field f && not replaced
    then (let (out, r) = replace_length_loop field raw true fs in (proto_bytes field raw ++ out, r))
    else (let (out, r) = replace_length_loop field raw replaced fs in (f.full ++ out, r))

unfoldable pub replace_length_field : Bytes → ℕ → Bytes → Go Bytes
replace_length_field orig field raw = do
  parsed ← parse_proto_fields orig
  elim parsed [
    | none ↦ ok (proto_bytes field raw)
    | some fs ↦
        let (out, replaced) = replace_length_loop field raw false fs in
        ok (if not replaced then proto_bytes field raw ++ out else out)
  ]

unfoldable pub replace_at_path : Bytes → List ℕ → ℕ → List Bytes → Go Bytes
replace_at_path root [] field raws = replace_repeated_bytes_field root field raws
replace_at_path root (head ∷ rest) field raws = do
  cur ← first_ld root head
  elim cur [
    | none ↦ ok root
    | some c ↦ do inner ← replace_at_path c rest field raws; replace_length_field root head inner
  ]

-- The loop of replaceNestedText with the nested call passed in as `nested`.
unfoldable pub replace_text_loop : ℕ → (Bytes → Go Bytes) → Bool → List ProtoField → Go Bytes
replace_text_loop field nested replaced [] = ok []
replace_text_loop field nested replaced (f ∷ fs) =
    if is_ld field f && not replaced
    then (do
      inner ← nested f.raw
      out ← replace_text_loop field nested true fs
      ok (proto_bytes field inner ++ out))
    else (do out ← replace_text_loop field nested replaced fs; ok (f.full ++ out))

-- At the last step of the path the nested call returns the text.
unfoldable pub replace_nested_text : Bytes → List ℕ → Bytes → Go Bytes
replace_nested_text body [] text = ok text
replace_nested_text body (field ∷ path) text = do
  parsed ← parse_proto_fields body
  elim parsed [
    | none ↦ ok body
    | some fs ↦ replace_text_loop field (λ raw. replace_nested_text raw path text) false fs
  ]

-- `toolBytes[name]` over the list of bindings.
unfoldable pub lookup_bytes : Str → List (Str × Bytes) → Option Bytes
lookup_bytes name [] = none
lookup_bytes name ((k, raw) ∷ m) = if str_eq k name then some raw else lookup_bytes name m

unfoldable pub kept_tool_raws : List Str → List (Str × Bytes) → List Bytes
kept_tool_raws [] tool_bytes = []
kept_tool_raws (name ∷ names) tool_bytes =
    let rest = kept_tool_raws names tool_bytes in
    elim (lookup_bytes name tool_bytes) [ none ↦ rest | some raw ↦ raw ∷ rest ]
