-- ===== src/Rubix.antt =====
-- The Rubix payload codec, codecs/rubixDataEncoding: bit streams of keys, positions and values.
pub mod Serial
pub mod MetaData
pub mod Floats
pub mod BitCount
pub mod Widths
pub mod Encoder
pub mod Fields
pub mod Decoder
pub mod Points
pub mod Settings
pub mod Request
pub mod RoundTrip
