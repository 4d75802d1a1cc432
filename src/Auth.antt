-- ===== src/Auth.antt =====
-- Authentication: the errors of src/auth_v2/mod.rs. The children have the two authenticators and
-- the middleware in front of the routes.
pub mod Bearer
pub mod Cert
pub mod Middleware
pub mod Operator
use agent_locksmith.Prelude.{ℕ}
use agent_locksmith.Text.{Text, codes}

pub data AuthError : Type 0 where
  missing_credential invalid_credential revoked expired : AuthError
  rate_limited : ℕ → AuthError
  backend mtls_misconfigured : AuthError

abbrev pub status : AuthError → ℕ
status missing_credential = 401
status invalid_credential = 401
status revoked = 401
status expired = 401
status (rate_limited retry_after) = 429
status backend = 500
status mtls_misconfigured = 500

abbrev pub code : AuthError → Text
code missing_credential = codes "invalid_credential"
code invalid_credential = codes "invalid_credential"
code revoked = codes "revoked"
code expired = codes "expired"
code (rate_limited retry_after) = codes "rate_limited"
code backend = codes "backend_error"
code mtls_misconfigured = codes "internal_error"

-- the `Display` text
abbrev pub message : AuthError → Text
message missing_credential = codes "missing credential"
message invalid_credential = codes "invalid credential"
message revoked = codes "revoked"
message expired = codes "expired"
message (rate_limited retry_after) = codes "rate limited"
message backend = codes "internal error"
message mtls_misconfigured = codes "internal error"
