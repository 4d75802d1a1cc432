-- ===== src/Proxy/Selection.antt =====
-- The selected account of an agent: src/proxy/selection.rs. `env` is the environment of the process.
use agent_locksmith.Prelude.{
  Bool, false, not, Option, none, some, List, [], Result, ok, err, ◌>>=◌, ◌>>◌, ok_or, reject_if,
  if◌then◌else◌,
}
use agent_locksmith.Text.{Text, codes, is_empty, trim}
use agent_locksmith.Audit.{security, denied, reason}
use agent_locksmith.Registration.Auth.{
  AuthSpec, no_auth, header, bearer, stored_header, stored_bearer, op_header, op_bearer, oauth_pkce,
  oauth_device_code, oauth_session_label,
}
use agent_locksmith.Agent.{AgentIdentity}
use agent_locksmith.Agent.Table.{RepoError}
use agent_locksmith.Proxy.Target.{
  ProxyTarget, ProxyAuth, authless, by_header, by_bearer, by_stored, by_op, by_oauth,
  agent_override,
}
use agent_locksmith.Proxy.Bindings.{
  AgentCredentialOverride, get_binding, usable, selected_source, same_spec,
}
use agent_locksmith.Proxy.Replies.{
  RequestCtx, Reply, error_reply, audit_record, audit_event_base, record_authz_denied,
  record_stored_unavailable,
}

pub data Failure : Type 0 where
  identity_required missing store_unavailable credential_unavailable : Failure

module _ (host_url : Text → Bool) (env : Text → Option Text) where
  abbrev pub non_empty : Option Text → Option Text
  non_empty none = none
  non_empty (some v) = if is_empty v then none else some v

  unfoldable pub selected_env : Text → Result Text Failure
  selected_env name = ok_or (non_empty (env name)) credential_unavailable

  abbrev pub oauth_mode : AuthSpec → Text
  oauth_mode (oauth_pkce id uri scopes auth_url token_url label) = codes "oauth_pkce"
  oauth_mode _ = codes "oauth_device_code"

  abbrev pub real_label : Option Text → Option Text
  real_label none = none
  real_label (some s) = if is_empty (trim s) then none else some s

  unfoldable pub apply_oauth : ProxyTarget → AuthSpec → Result ProxyTarget Failure
  apply_oauth target spec = do
    reject_if (not (usable host_url spec)) credential_unavailable
    label ← ok_or (real_label (oauth_session_label spec)) credential_unavailable
    ok (record target {
      oauth_session_label = some label;
      oauth_selection = some spec;
      auth = by_oauth (oauth_mode spec) [] none none;
    })

  -- with `apply_custody_spec`
  unfoldable pub apply_spec : ProxyTarget → AuthSpec → Result ProxyTarget Failure
  apply_spec target no_auth = ok (record target { auth = authless })
  apply_spec target (header name env_var) = do
    value ← selected_env env_var
    ok (record target { auth = by_header name (codes "header") (some value) })
  apply_spec target (bearer env_var) = do
    value ← selected_env env_var
    ok (record target { auth = by_bearer (some value) })
  apply_spec target (stored_header name ref) =
      ok (record target { auth = by_stored (some name) (codes "stored_header") ref none })
  apply_spec target (stored_bearer ref) =
      ok (record target { auth = by_stored none (codes "stored_bearer") ref none })
  apply_spec target (op_header name reference) =
      ok (record target { auth = by_op (some name) (codes "op_header") reference none })
  apply_spec target (op_bearer reference) =
      ok (record target { auth = by_op none (codes "op_bearer") reference none })
  apply_spec target (oauth_pkce id uri scopes auth_url token_url label) =
      apply_oauth target (oauth_pkce id uri scopes auth_url token_url label)
  apply_spec target (oauth_device_code id scopes device_url token_url label) =
      apply_oauth target (oauth_device_code id scopes device_url token_url label)

  abbrev pub without_identity : ProxyTarget → ProxyAuth → Result ProxyTarget Failure
  without_identity target authless = ok target
  without_identity target _ = err identity_required

  abbrev pub bound_spec : Result (Option AuthSpec) RepoError → Result AuthSpec Failure
  bound_spec (err e) = err store_unavailable
  bound_spec (ok none) = err missing
  bound_spec (ok (some spec)) = ok spec

  abbrev pub as_override : ProxyTarget → ProxyTarget
  as_override target = record target { auth_source = agent_override }

  -- `apply`; `creds` is the repository of the selections, if there is one
  unfoldable pub apply_selection :
      Option (List AgentCredentialOverride)
      → ProxyTarget
      → Option AgentIdentity
      → Result ProxyTarget Failure
  apply_selection creds target none = without_identity target target.auth
  apply_selection creds target (some identity) = do
    bindings ← ok_or creds store_unavailable
    spec ← bound_spec (get_binding bindings identity.id target.name)
    selected ← apply_spec target spec
    ok (as_override selected)

  -- `oauth_consistent`
  abbrev pub agrees : Result (Option AuthSpec) (Unit {0}) → Option AuthSpec → Bool
  agrees (err e) selection = false
  agrees (ok none) selection = false
  agrees (ok (some current)) none = false
  agrees (ok (some current)) (some spec) = same_spec host_url current spec

  unfoldable pub oauth_consistent :
      Option (List AgentCredentialOverride) → ProxyTarget → Text → Bool
  oauth_consistent none target label = false
  oauth_consistent (some bindings) target label =
      agrees (selected_source host_url bindings target.name label) target.oauth_selection

unfoldable pub record_failure : Bool → RequestCtx → Failure → Reply
record_failure audit ctx identity_required = (
  error_reply 401 (codes "auth_error") (some (codes "agent_identity_required")),
  audit_record audit (record (audit_event_base ctx) {
    event_class = security;
    event = codes "authz_denied";
    status = some 401;
    decision = denied;
    details = reason (codes "agent_identity_required");
  }),
)
record_failure audit ctx missing = record_authz_denied audit ctx (codes "account_binding_missing")
record_failure audit ctx store_unavailable =
    record_stored_unavailable audit ctx (codes "account_binding_unavailable")
record_failure audit ctx credential_unavailable =
    record_stored_unavailable audit ctx (codes "selected_credential_unavailable")
