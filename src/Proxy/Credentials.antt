-- ===== src/Proxy/Credentials.antt =====
-- Materializing the selected credential before the request: the OAuth, stored and `op` steps of
-- `proxy_handler`, with `resolve_oauth_token` and `resolve_stored_credential` of src/proxy.rs. What the
-- stores, the sealing key and the token endpoint answer is in the state.
pub mod Laws
pub mod Held
pub mod Reads
pub mod Logged
use agent_locksmith.Prelude.{
  ℕ, ◌+◌, Bool, true, false, ◌||◌, not, Option, none, some, List, Result, ok, err, ◌>>=◌, ◌>>◌,
  ok_or, reject_if, leb, is_some_and, if◌then◌else◌,
}
use agent_locksmith.Text.{Text, codes, is_empty}
use agent_locksmith.Text.Utf8.{Bytes, from_utf8}
use agent_locksmith.Registration.Auth.{AuthSpec}
use agent_locksmith.Proxy.Target.{
  ProxyTarget, ProxyAuth, authless, by_header, by_bearer, by_stored, by_op, by_oauth, audit_mode,
}
use agent_locksmith.Proxy.Bindings.{AgentCredentialOverride}
use agent_locksmith.Proxy.Selection.{oauth_consistent, credential_unavailable, record_failure}
use agent_locksmith.Proxy.Replies.{
  RequestCtx, Reply, record_oauth_unavailable, record_stored_unavailable,
}

pub record OauthSession : Type 0 where
  pub refresh_token : Text
  pub access_token : Option Text
  pub access_token_expires_at : Option ℕ
  pub degraded : Bool
  pub account_id : Option Text
  pub audit_session_id : Text

-- `sessions` reads and unseals a session by name and label; `refresh` is one exchange with the token
-- endpoint, and its error is the audit cause.
pub record OauthRuntime : Type 0 where
  pub sessions : Text → Text → Result (Option OauthSession) (Unit {0})
  pub refresh : AuthSpec → OauthSession → Result OauthSession Text

-- The sealed values by their handle, and unsealing one of them with its nonce.
pub record SecretStore : Type 0 where
  pub get_sealed : Text → Result (Option (Bytes × Bytes)) (Unit {0})
  pub unseal : Bytes → Bytes → Option Bytes

pub record Vaults : Type 0 where
  pub oauth : Option OauthRuntime
  pub secrets : Option SecretStore
  pub op_resolver : Option (Text → Option Text)

-- the code for the agent and the cause for the audit row
abbrev pub Unavailable : Type 0
Unavailable = Text × Text

abbrev pub read_session : Result (Option OauthSession) (Unit {0}) → Result OauthSession Unavailable
read_session (err e) = err (codes "oauth_session_read_failed", codes "session_read_failed")
read_session (ok none) = err (codes "oauth_session_missing", codes "session_missing")
read_session (ok (some s)) = ok s

abbrev pub has_empty_token : OauthSession → Bool
has_empty_token s = is_some_and s.access_token is_empty || is_empty s.refresh_token

abbrev pub expired_token : ℕ → Option Text → Option ℕ → Bool
expired_token now none expires = true
expired_token now (some t) none = false
expired_token now (some t) (some e) = leb e (now + 60)

abbrev pub needs_refresh : ℕ → OauthSession → Bool
needs_refresh now s = expired_token now s.access_token s.access_token_expires_at

abbrev pub refreshed_session : Result OauthSession Text → Result OauthSession Unavailable
refreshed_session (ok s) = ok s
refreshed_session (err cause) = err (codes "oauth_refresh_failed", cause)

module _ (host_url : Text → Bool) (env : Text → Option Text) where
  -- the checks on the session, under its lock
  unfoldable pub usable_session :
      OauthRuntime
      → Option (List AgentCredentialOverride)
      → ProxyTarget
      → Text
      → Result OauthSession Unavailable
  usable_session rt creds target label = do
    reject_if (not (oauth_consistent host_url env creds target label))
        (codes "oauth_selection_unavailable", codes "selection_unavailable")
    session ← read_session (rt.sessions target.name label)
    reject_if session.degraded (codes "oauth_refresh_failed", codes "degraded")
    reject_if (has_empty_token session) (codes "oauth_session_empty", codes "session_empty")
    ok session

  abbrev pub refresh_with :
      OauthRuntime → OauthSession → Option AuthSpec → Result OauthSession Unavailable
  refresh_with rt session none =
      err (codes "oauth_selection_unavailable", codes "selection_unavailable")
  refresh_with rt session (some selected) = refreshed_session (rt.refresh selected session)

  unfoldable pub active_session :
      OauthRuntime → ProxyTarget → ℕ → OauthSession → Result OauthSession Unavailable
  active_session rt target now session =
      if needs_refresh now session
      then refresh_with rt session target.oauth_selection
      else ok session

  unfoldable pub resolve_oauth_token :
      Vaults
      → Option (List AgentCredentialOverride)
      → ProxyTarget
      → Text
      → ℕ
      → Result ProxyAuth Unavailable
  resolve_oauth_token vaults creds target label now = do
    rt ← ok_or vaults.oauth (codes "oauth_sealing_key_unset", codes "sealing_key_unset")
    session ← usable_session rt creds target label
    current ← active_session rt target now session
    ok (
        by_oauth (audit_mode target.auth) current.audit_session_id current.access_token
          current.account_id)

-- a text that is there and not empty
abbrev pub real_text : Option Text → Result Text Text
real_text none = err (codes "unseal_failed")
real_text (some v) = if is_empty v then err (codes "unseal_failed") else ok v

abbrev pub read_sealed : Result (Option (Bytes × Bytes)) (Unit {0}) → Result (Bytes × Bytes) Text
read_sealed (err e) = err (codes "store_read_failed")
read_sealed (ok none) = err (codes "credential_unresolved")
read_sealed (ok (some sealed)) = ok sealed

-- the error is the audit cause
unfoldable pub resolve_stored_credential : Vaults → Text → Result Text Text
resolve_stored_credential vaults secret_ref = do
  store ← ok_or vaults.secrets (codes "credential_store_unconfigured")
  (value, nonce) ← read_sealed (store.get_sealed secret_ref)
  plain ← ok_or (store.unseal value nonce) (codes "unseal_failed")
  real_text (from_utf8 plain)

abbrev pub op_value : Option (Text → Option Text) → Text → Option Text
op_value none reference = none
op_value (some cached) reference = cached reference

abbrev pub real_op : Option Text → Result Text Text
real_op none = err (codes "op_reference_unresolved")
real_op (some v) = if is_empty v then err (codes "op_reference_unresolved") else ok v

unfoldable pub resolve_op : Vaults → Text → Result Text Text
resolve_op vaults reference = real_op (op_value vaults.op_resolver reference)

module _ (host_url : Text → Bool) (env : Text → Option Text) (audit : Bool) (ctx : RequestCtx) where
  abbrev pub or_stored : {A : Type 0} → Result A Text → Result A Reply
  or_stored (ok a) = ok a
  or_stored (err cause) = err (record_stored_unavailable audit ctx cause)

  abbrev pub or_oauth : {A : Type 0} → Result A Unavailable → Result A Reply
  or_oauth (ok a) = ok a
  or_oauth (err (code, cause)) = err (record_oauth_unavailable audit ctx code cause)

  -- The three steps; a target has at most one of the three kinds of credential.
  unfoldable pub materialize :
      Vaults
      → Option (List AgentCredentialOverride)
      → ProxyTarget
      → ℕ
      → ProxyAuth
      → Result ProxyAuth Reply
  materialize vaults creds target now authless = ok authless
  materialize vaults creds target now (by_header name mode over) = ok (by_header name mode over)
  materialize vaults creds target now (by_bearer over) = ok (by_bearer over)
  materialize vaults creds target now (by_stored name mode ref value) = do
    plain ← or_stored (resolve_stored_credential vaults ref)
    ok (by_stored name mode ref (some plain))
  materialize vaults creds target now (by_op name mode reference value) = do
    cached ← or_stored (resolve_op vaults reference)
    ok (by_op name mode reference (some cached))
  materialize vaults creds target now (by_oauth mode session token account) = do
    label ← ok_or target.oauth_session_label (record_failure audit ctx credential_unavailable)
    or_oauth (resolve_oauth_token host_url env vaults creds target label now)
