-- ===== src/Base64.antt =====
-- The two base64 codecs: cbase62 of source/core/util/cbase62.cpp (alphabet ending in '-' and '_',
-- padded by '~') and ToBase64, FromBase64 of source/http/chttp.cpp ('+', '/' and '='). The two
-- pairs of functions have the same loops over different tables, so the tables are a record.
pub mod Codec
pub mod Bits
pub mod Alphabets
pub mod RoundTrip
pub mod Padding
pub mod Inverse
mod Tests
