-- ===== src/Registration/Auth.antt =====
-- `AuthSpec` of src/registrations/auth_spec.rs: how a connection authenticates, without secrets.
pub mod Custody
use native.Mathlib.Decide.{ℕ_discrete}
use agent_locksmith.Prelude.{
  ℕ, Bool, true, false, ◌&&◌, not, Option, none, some, List, Result, ok, err, ltb, unwrap_or,
  if◌then◌else◌,
}
use agent_locksmith.Text.{Text, codes, len, starts_with}

-- `no_auth` is `AuthSpec::None`. The fields stand in the source's order.
pub data AuthSpec : Type 0 where
  no_auth : AuthSpec
  header : Text → Text → AuthSpec
  bearer : Text → AuthSpec
  stored_header : Text → Text → AuthSpec
  stored_bearer : Text → AuthSpec
  op_header : Text → Text → AuthSpec
  op_bearer : Text → AuthSpec
  oauth_pkce : Text → Text → List Text → Text → Text → Option Text → AuthSpec
  oauth_device_code : Text → List Text → Text → Text → Option Text → AuthSpec

-- the derived equality
unfoldable pub AuthSpec-discrete : Discrete AuthSpec
AuthSpec-discrete = hlevel ℕ_discrete

unfoldable pub injects_header : AuthSpec → Bool
injects_header no_auth = false
injects_header _ = true

unfoldable pub is_oauth : AuthSpec → Bool
is_oauth (oauth_pkce id uri scopes auth_url token_url label) = true
is_oauth (oauth_device_code id scopes device_url token_url label) = true
is_oauth _ = false

unfoldable pub oauth_session_label : AuthSpec → Option Text
oauth_session_label (oauth_pkce id uri scopes auth_url token_url label) = label
oauth_session_label (oauth_device_code id scopes device_url token_url label) = label
oauth_session_label _ = none

-- `DEFAULT_SESSION_LABEL` of src/oauth/session.rs
abbrev pub default_session_label : Text
default_session_label = codes "default"

unfoldable pub session_label_or_default : AuthSpec → Option Text
unfolding is_oauth oauth_session_label
session_label_or_default spec =
    if is_oauth spec
    then some (unwrap_or (oauth_session_label spec) default_session_label)
    else none

-- `SecretRef::FromEnv` with its variable and its prefix
pub record FromEnv : Type 0 where
  pub var : Text
  pub prefix : Option Text

unfoldable pub to_secret_ref : AuthSpec → Option FromEnv
to_secret_ref (header name env_var) = some (record { var = env_var; prefix = none })
to_secret_ref (bearer env_var) = some (record { var = env_var; prefix = none })
to_secret_ref _ = none

unfoldable pub is_stored : AuthSpec → Bool
is_stored (stored_header name secret_ref) = true
is_stored (stored_bearer secret_ref) = true
is_stored _ = false

unfoldable pub stored_secret_ref : AuthSpec → Option Text
stored_secret_ref (stored_header name secret_ref) = some secret_ref
stored_secret_ref (stored_bearer secret_ref) = some secret_ref
stored_secret_ref _ = none

unfoldable pub header_name : AuthSpec → Option Text
header_name (header name env_var) = some name
header_name (stored_header name secret_ref) = some name
header_name (op_header name reference) = some name
header_name _ = none

unfoldable pub is_op : AuthSpec → Bool
is_op (op_header name reference) = true
is_op (op_bearer reference) = true
is_op _ = false

unfoldable pub op_reference : AuthSpec → Option Text
op_reference (op_header name reference) = some reference
op_reference (op_bearer reference) = some reference
op_reference _ = none

-- `Err` carries the reference that its message shows.
check_reference : Text → Result (Unit {0}) Text
check_reference reference =
    if starts_with (codes "op://") reference && ltb (len (codes "op://")) (len reference)
    then ok tt
    else err reference

unfoldable pub validate_op_reference : AuthSpec → Result (Unit {0}) Text
unfolding check_reference
validate_op_reference (op_header name reference) = check_reference reference
validate_op_reference (op_bearer reference) = check_reference reference
validate_op_reference _ = ok tt
