-- ===== src/Wire/Frame.antt =====
-- Connect envelopes: connectFrame, readConnectFrame, emitConnectFrame and looksConnectFrame of
-- internal/proxy/connect_proto.go. A reader is the bytes that it will give before it ends.
pub mod Stream
pub mod Drained
use jev_routing.Prelude.{
  ℕ, ◌+◌, ◌*◌, ◌/◌, ◌%◌, ◌^◌, Bool, true, false, ◌&&◌, List, [], ◌∷◌, ◌++◌, ltb, leb, ◌==◌,
  if◌then◌else◌, length, take, drop,
}
use jev_routing.Wire.Varint.{Bytes}

-- `maxRequestBodyBytes` of internal/proxy/proxy.go
abbrev pub max_request_body_bytes : ℕ
max_request_body_bytes = 16 * 2 ^ 20

-- `binary.BigEndian.PutUint32` and `binary.BigEndian.Uint32`
unfoldable pub put_uint32 : ℕ → Bytes
put_uint32 n = n / 2 ^ 24 % 256 ∷ n / 2 ^ 16 % 256 ∷ n / 2 ^ 8 % 256 ∷ n % 256 ∷ []

unfoldable pub uint32 : Bytes → ℕ
uint32 (a ∷ b ∷ c ∷ d ∷ rest) = a * 2 ^ 24 + b * 2 ^ 16 + c * 2 ^ 8 + d
uint32 _ = 0

unfoldable pub connect_frame : ℕ → Bytes → Bytes
connect_frame flags payload = flags ∷ (put_uint32 (length payload % 2 ^ 32) ++ payload)

-- What readConnectFrame returns, and what is left in the reader.
pub record FrameRead : Type 0 where
  pub frame : Bytes
  pub complete : Bool
  pub left : Bytes

-- The payload part, behind a whole header.
unfoldable pub read_payload : Bytes → ℕ → Bytes → FrameRead
read_payload hdr ln rest =
    if ltb max_request_body_bytes ln
    then record { frame = hdr; complete = false; left = rest }
    else if ln == 0
    then record { frame = hdr; complete = true; left = rest }
    else if ltb (length rest) ln
    then record { frame = hdr ++ rest; complete = false; left = [] }
    else record { frame = hdr ++ take ln rest; complete = true; left = drop ln rest }

unfoldable pub read_connect_frame : Bytes → FrameRead
read_connect_frame src =
    if ltb (length src) 5
    then record { frame = src; complete = false; left = [] }
    else read_payload (take 5 src) (uint32 (drop 1 (take 5 src))) (drop 5 src)

-- The variables that emitConnectFrame keeps between calls; `ended` is `*sticky == io.EOF`.
pub record Emitter : Type 0 where
  pub buf : Bytes
  pub ended : Bool
  pub src : Bytes

-- The bytes copied into `p`, whether the error is io.EOF, and the new state.
pub record Emitted : Type 0 where
  pub out : Bytes
  pub eof : Bool
  pub next : Emitter

abbrev pub is_empty : Bytes → Bool
is_empty [] = true
is_empty (b ∷ bs) = false

-- `copy(p, *buf)` and what follows; `room` is `len(p)`.
unfoldable pub emit_copy : ℕ → Emitter → Emitted
emit_copy room s =
    let left = drop room s.buf in
    record {
      out = take room s.buf;
      eof = if is_empty left then s.ended else false;
      next = record s { buf = left };
    }

abbrev pub or_frame : Bytes → Bytes → Bytes
or_frame out frame = if is_empty out then frame else out

unfoldable pub emit_fill : (Bytes → Bytes) → ℕ → FrameRead → Emitted
emit_fill rewrite room r =
    if r.complete
    then emit_copy room
        (record { buf = or_frame (rewrite r.frame) r.frame; ended = false; src = r.left })
    else (let s : Emitter = record { buf = r.frame; ended = true; src = r.left } in
        if is_empty r.frame then record { out = []; eof = true; next = s } else emit_copy room s)

unfoldable pub emit_connect_frame : (Bytes → Bytes) → ℕ → Emitter → Emitted
emit_connect_frame rewrite room s =
    if is_empty s.buf
    then (if s.ended
        then record { out = []; eof = true; next = s }
        else emit_fill rewrite room (read_connect_frame s.src))
    else emit_copy room s

-- `frame[0]`
abbrev pub flag_byte : Bytes → ℕ
flag_byte [] = 0
flag_byte (b ∷ bs) = b

-- `int(frame[1])<<24 | …` is the sum, since the bytes' bits are disjoint.
unfoldable pub looks_connect_frame : Bytes → Bool
looks_connect_frame frame =
    if ltb (length frame) 5
    then false
    else leb (flag_byte frame) 3 && uint32 (drop 1 frame) + 5 == length frame
