-- ===== src/Encoding.antt =====
-- encoding/json of Go's standard library, as far as the services use it: `Marshal` of a map and
-- `Unmarshal` into one.
pub mod Scalar
pub mod Utf8
pub mod Utf8Laws
pub mod Write
pub mod Read
pub mod Strings
pub mod Number
pub mod Parse
pub mod ParseLaws
pub mod Sort
pub mod Plain
pub mod Range
pub mod Codec
