-- ===== src/Go.antt =====
-- What the source uses of Go's standard library: encoding/base64, strings and the decimals of fmt.
pub mod Base64
pub mod Strings
pub mod Decimal
pub mod Duration
pub mod Fields
