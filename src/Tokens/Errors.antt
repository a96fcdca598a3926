-- ===== src/Tokens/Errors.antt =====
-- The error codes of the API (src/errors/error-codes.ts) and their HTTP status.
use authentication_v.Base.{ℕ}

-- `ErrorCodes`
pub data ErrorCode : Type 0 where
  auth_001 auth_002 auth_003 auth_004 auth_005 auth_006 : ErrorCode
  auth_007 auth_008 auth_009 auth_010 auth_011 auth_012 : ErrorCode

-- `ErrorDefinitions`, the field `httpStatus`.
unfoldable pub http_status : ErrorCode → ℕ
http_status auth_001 = 401
http_status auth_002 = 401
http_status auth_003 = 500
http_status auth_004 = 503
http_status auth_005 = 503
http_status auth_006 = 429
http_status auth_007 = 400
http_status auth_008 = 500
http_status auth_009 = 401
http_status auth_010 = 401
http_status auth_011 = 400
http_status auth_012 = 400
