-- ===== src/Wire.antt =====
-- The 9P codec: lib/libixp/convert.c and lib/libixp/message.c.
pub mod Types
pub mod Msg
pub mod Access
pub mod Format
pub mod Numbers
pub mod Unpacks
pub mod Packs
pub mod Safe
pub mod RoundTrip
mod Tests
pub mod Convert
pub mod Message
