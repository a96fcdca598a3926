-- ===== src/Tokens.antt =====
-- The issue of tokens (src/handlers/tokens.ts, src/errors/error-codes.ts).
pub mod Errors
pub mod Request
pub mod Issue
pub mod Validation
pub mod Verify
mod Tests
