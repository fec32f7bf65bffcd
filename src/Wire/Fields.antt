-- ===== src/Wire/Fields.antt =====
-- parseProtoFields of internal/proxy/connect_proto.go, with the panics of Go's slicing.
pub mod Lossless
pub mod Reparse
pub mod Shape
pub mod Parsing
pub mod Panic
use jev_routing.Prelude.{
  ℕ, zero, suc, ◌+◌, ◌-◌, ◌/◌, ◌%◌, ◌^◌, Bool, ◌&&◌, ◌||◌, Option, none, some, List, [], ◌∷◌, ltb,
  leb, ◌==◌, if◌then◌else◌, length, take, drop, Go, ok, panic, stuck,
}
use jev_routing.Wire.Varint.{Bytes, proto_varint, varint_from}

pub record ProtoField : Type 0 where
  pub field : ℕ
  pub wire : ℕ
  pub raw : Bytes
  pub full : Bytes

-- What one round of the loop does: `return nil, false`, a panic, or a field and its length.
pub data Round : Type 0 where
  malformed : Round
  crash : Round
  took : ProtoField → ℕ → Round

-- The field whose `raw` is the `k` bytes at offset `off` of `rest`.
unfoldable pub take_field : ℕ → ℕ → ℕ → Bytes → Round
take_field tag off k rest =
    took
      (record {
        field = tag / 8;
        wire = tag % 8;
        raw = take k (drop off rest);
        full = take (off + k) rest;
      })
      (off + k)

-- `case 1` and `case 5`: `k` bytes.
unfoldable pub fixed_field : ℕ → ℕ → ℕ → Bytes → ℕ → ℕ → Round
fixed_field k size start rest tag n =
    if ltb size (start + n + k) then malformed else take_field tag n k rest

-- `case 0`
unfoldable pub varint_field : Bytes → ℕ → ℕ → Round
varint_field rest tag n =
    let (v, m) = proto_varint (drop n rest) in if m == 0 then malformed else take_field tag n m rest

-- `case 2`. `stop` is `i+n+int(ln)` as a 64-bit pattern: from 2 ^ 63 on it stands for a negative
-- number, which passes the test `> len(body)` and makes the slice expression panic, as does a
-- `stop` in front of the slice's start.
unfoldable pub length_field : ℕ → ℕ → Bytes → ℕ → ℕ → Round
length_field size start rest tag n =
    let (ln, m) = proto_varint (drop n rest) in
    let from = start + n + m in
    let stop = (from + ln) % 2 ^ 64 in
    if m == 0 || (ltb stop (2 ^ 63) && ltb size stop)
    then malformed
    else if leb (2 ^ 63) stop || ltb stop from
    then crash
    else take_field tag (n + m) (stop - from) rest

-- The `switch wire`.
unfoldable pub by_wire : ℕ → ℕ → Bytes → ℕ → ℕ → Round
by_wire size start rest tag n =
    if tag % 8 == 0
    then varint_field rest tag n
    else if tag % 8 == 1
    then fixed_field 8 size start rest tag n
    else if tag % 8 == 2
    then length_field size start rest tag n
    else if tag % 8 == 5
    then fixed_field 4 size start rest tag n
    else malformed

-- One round at index `start` of a body of `size` bytes; `rest` is `body[start:]`.
unfoldable pub next_field : ℕ → ℕ → Bytes → Round
next_field size start rest =
    let (tag, n) = proto_varint rest in if n == 0 then malformed else by_wire size start rest tag n

abbrev pub cons_field : ProtoField → Go (Option (List ProtoField)) → Go (Option (List ProtoField))
cons_field f (ok (some fs)) = ok (some (f ∷ fs))
cons_field f r = r

unfoldable pub parse_loop : ℕ → ℕ → ℕ → Bytes → Go (Option (List ProtoField))
parse_loop fuel size start [] = ok (some [])
parse_loop zero size start (b ∷ bs) = stuck
parse_loop (suc fuel) size start (b ∷ bs) = elim (next_field size start (b ∷ bs)) [
  | malformed ↦ ok none
  | crash ↦ panic
  | took f k ↦ cons_field f (parse_loop fuel size (start + k) (drop k (b ∷ bs)))
]

-- Each round takes a byte at least, so the length of the body is fuel enough. `none` is the
-- source's `nil, false`.
unfoldable pub parse_proto_fields : Bytes → Go (Option (List ProtoField))
parse_proto_fields body = parse_loop (length body) (length body) 0 body
