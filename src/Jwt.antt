-- ===== src/Jwt.antt =====
-- internal/jwtutil/jwt.go: signing and verification of compact JWTs.
pub mod Claims
pub mod Token
pub mod Exponent
