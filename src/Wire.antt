-- ===== src/Wire.antt =====
-- The protobuf and Connect framing code: internal/proxy/connect_proto.go and
-- internal/proxy/proto_observe.go.
pub mod Varint
pub mod Fields
pub mod Edit
pub mod Frame
