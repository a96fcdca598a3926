-- ===== src/Jwt.antt =====
-- The JWTs that the service makes and checks (src/services/jwt.service.ts).
pub mod Text
pub mod Service
pub mod Base64
pub mod Validity
pub mod RoundTrip
pub mod Signed
mod Tests
