-- ===== src/Proxy/Target.antt =====
-- `ProxyTarget` and `ProxyAuth` of src/proxy.rs, `ToolConfig` and `active_tools` of src/config.rs, and
-- the part of `SecretRef` of src/secret/mod.rs that they read.
use agent_locksmith.Prelude.{ℕ, Bool, true, not, Option, none, some, List, [], keep, find}
use agent_locksmith.Text.{Text, codes, to_ascii_lowercase, is_empty, ◌==◌}
use agent_locksmith.Registration.{EgressMode, ToolTimeouts, Registration}
use agent_locksmith.Registration.Auth.{
  AuthSpec, no_auth, header, bearer, stored_header, stored_bearer, op_header, op_bearer, oauth_pkce,
  oauth_device_code,
}
use agent_locksmith.Registration.Catalog.{Catalog, lookup_active}

-- How a value is injected: `by_header name mode over`, `by_bearer over`, `by_stored name mode ref value`,
-- `by_op name mode reference value` and `by_oauth mode session token account`. A missing name stands
-- for `Authorization: Bearer`.
pub data ProxyAuth : Type 0 where
  authless : ProxyAuth
  by_header : Text → Text → Option Text → ProxyAuth
  by_bearer : Option Text → ProxyAuth
  by_stored : Option Text → Text → Text → Option Text → ProxyAuth
  by_op : Option Text → Text → Text → Option Text → ProxyAuth
  by_oauth : Text → Text → Option Text → Option Text → ProxyAuth

abbrev pub audit_mode : ProxyAuth → Text
audit_mode authless = codes "none"
audit_mode (by_header name mode over) = mode
audit_mode (by_bearer over) = codes "bearer"
audit_mode (by_stored name mode ref value) = mode
audit_mode (by_op name mode reference value) = mode
audit_mode (by_oauth mode session token account) = mode

abbrev pub oauth_session_id : ProxyAuth → Option Text
oauth_session_id (by_oauth mode session token account) = some session
oauth_session_id authless = none
oauth_session_id (by_header name mode over) = none
oauth_session_id (by_bearer over) = none
oauth_session_id (by_stored name mode ref value) = none
oauth_session_id (by_op name mode reference value) = none

abbrev pub lowered : Option Text → Option Text
lowered none = none
lowered (some name) = some (to_ascii_lowercase name)

-- Header names are ASCII, so `to_lowercase` is the ASCII one.
abbrev pub strip_header_lower : ProxyAuth → Option Text
strip_header_lower authless = none
strip_header_lower (by_header name mode over) = some (to_ascii_lowercase name)
strip_header_lower (by_bearer over) = none
strip_header_lower (by_stored name mode ref value) = lowered name
strip_header_lower (by_op name mode reference value) = lowered name
strip_header_lower (by_oauth mode session token account) = none

pub data AuthSource : Type 0 where
  registration_default agent_override : AuthSource

pub record ProxyTarget : Type 0 where
  pub name : Text
  pub upstream : Text
  pub body_limit_bytes : ℕ
  pub timeouts : ToolTimeouts
  pub egress : EgressMode
  pub auth : ProxyAuth
  pub auth_source : AuthSource
  pub oauth_session_label : Option Text
  pub oauth_selection : Option AuthSpec

abbrev pub auth_of_spec : AuthSpec → ProxyAuth
auth_of_spec no_auth = authless
auth_of_spec (header name env_var) = by_header name (codes "header") none
auth_of_spec (bearer env_var) = by_bearer none
auth_of_spec (stored_header name ref) = by_stored (some name) (codes "stored_header") ref none
auth_of_spec (stored_bearer ref) = by_stored none (codes "stored_bearer") ref none
auth_of_spec (op_header name reference) = by_op (some name) (codes "op_header") reference none
auth_of_spec (op_bearer reference) = by_op none (codes "op_bearer") reference none
auth_of_spec (oauth_pkce id uri scopes auth_url token_url label) =
    by_oauth (codes "oauth_pkce") [] none none
auth_of_spec (oauth_device_code id scopes device_url token_url label) =
    by_oauth (codes "oauth_device_code") [] none none

abbrev pub from_registration : Registration → ProxyTarget
from_registration r = record {
  name = r.name;
  upstream = r.upstream;
  body_limit_bytes = r.body_limit_bytes;
  timeouts = r.timeouts;
  egress = r.egress;
  auth = auth_of_spec r.auth;
  auth_source = registration_default;
  oauth_session_label = none;
  oauth_selection = none;
}

-- `SecretRef`: the two text forms; `typed` stands for the references that a backend resolves
pub data SecretRef : Type 0 where
  inline legacy_string : Text → SecretRef
  typed : SecretRef

abbrev pub looks_present : SecretRef → Bool
looks_present (inline s) = not (is_empty s)
looks_present (legacy_string s) = not (is_empty s)
looks_present typed = true

pub record ToolAuthConfig : Type 0 where
  pub header : Text
  pub value : SecretRef

pub record ToolConfig : Type 0 where
  pub name : Text
  pub description : Text
  pub upstream : Text
  pub egress : EgressMode
  pub auth : Option ToolAuthConfig
  pub timeouts : ToolTimeouts
  pub body_limit_bytes : ℕ

abbrev pub is_active_tool : Option ToolAuthConfig → Bool
is_active_tool none = true
is_active_tool (some a) = looks_present a.value

unfoldable pub active_tools : List ToolConfig → List ToolConfig
active_tools tools = keep (λ t. is_active_tool t.auth) tools

abbrev pub config_auth : Option ToolAuthConfig → ProxyAuth
config_auth none = authless
config_auth (some a) = by_header a.header (codes "config") none

abbrev pub from_tool_config : ToolConfig → ProxyTarget
from_tool_config t = record {
  name = t.name;
  upstream = t.upstream;
  body_limit_bytes = t.body_limit_bytes;
  timeouts = t.timeouts;
  egress = t.egress;
  auth = config_auth t.auth;
  auth_source = registration_default;
  oauth_session_label = none;
  oauth_selection = none;
}

abbrev pub target_of_tool : Option ToolConfig → Option ProxyTarget
target_of_tool none = none
target_of_tool (some t) = some (from_tool_config t)

abbrev pub or_config : Option Registration → Option ToolConfig → Option ProxyTarget
or_config (some r) tool = some (from_registration r)
or_config none tool = target_of_tool tool

-- The catalog first, then the tools of the configuration.
unfoldable pub resolve_target : Catalog → List ToolConfig → Text → Option ProxyTarget
resolve_target catalog tools name =
    or_config (lookup_active catalog name) (find (λ t. t.name == name) (active_tools tools))
