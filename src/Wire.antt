-- ===== src/Wire.antt =====
-- pkg/wire: the version 1 datagrams, their codec and their stateless validation.
pub mod PacketType
pub mod TlvType
pub mod Types
pub mod Utf8
pub mod Tlv
pub mod Codec
pub mod Rules
pub mod Helpers
pub mod Validate
mod Examples
