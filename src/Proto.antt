-- ===== src/Proto.antt =====
-- proto.c and proto.h: the tag-type-length-value messages and their wire format.
pub mod Wire
pub mod Message
pub mod Encode
pub mod Decode
pub mod Lookup
pub mod Valid
pub mod Format
pub mod Size
pub mod RoundTrip
pub mod Sound
pub mod Lengths
mod Tests
