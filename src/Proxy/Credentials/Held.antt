-- ===== src/Proxy/Credentials/Held.antt =====
-- The credential that stands for a selected account once it is materialized: about `proxy_handler`,
-- `resolve_oauth_token` and `resolve_stored_credential` of src/proxy.rs.
use agent_locksmith.Prelude.{
  ℕ, ◌≡◌, ap, ◌∙◌, subst, Bool, true, false, inl, inr, ◌⊎◌, Option, none, some, List, [], ok,
  Result-cases, Option-cases, Bool-cases, arith,
}
use agent_locksmith.Text.{Text, codes, is_empty}
use agent_locksmith.Registration.Auth.{
  AuthSpec, no_auth, header, bearer, stored_header, stored_bearer, op_header, op_bearer, oauth_pkce,
  oauth_device_code, oauth_session_label,
}
use agent_locksmith.Proxy.Target.{
  ProxyTarget, ProxyAuth, authless, by_header, by_bearer, by_stored, by_op, by_oauth, audit_mode,
}
use agent_locksmith.Proxy.Bindings.{AgentCredentialOverride}
use agent_locksmith.Proxy.Selection.{
  selected_env, real_label, oauth_mode, apply_oauth, apply_spec, as_override,
}
use agent_locksmith.Proxy.Replies.{RequestCtx}
use agent_locksmith.Proxy.Credentials.Reads.{
  Unsealed, LoggedIn, selected_env-eq-ok, real_label-eq-some, read_session-eq-ok, refreshed-eq-ok,
  stored-Unsealed, resolve_op-eq-ok,
}
use agent_locksmith.Proxy.Credentials.{
  Vaults, OauthRuntime, OauthSession, materialize, resolve_stored_credential, resolve_op,
  read_session, refreshed_session, needs_refresh, usable_session, active_session,
  resolve_oauth_token,
}

module _ (env : Text → Option Text) (vaults : Vaults) (now : ℕ) (name : Text) where
  -- The credential that stands for an account: nothing for the authless one, the variable of the
  -- environment, the sealed value, the value of the `op` reference, or the token of the session.
  unfoldable pub Holds : AuthSpec → ProxyAuth → Type 0
  Holds no_auth auth = auth ≡ authless
  Holds (header header_name var) auth =
      (v : Text) × (env var ≡ some v)
      × (is_empty v ≡ false)
      × (auth ≡ by_header header_name (codes "header") (some v))
  Holds (bearer var) auth =
      (v : Text) × (env var ≡ some v) × (is_empty v ≡ false) × (auth ≡ by_bearer (some v))
  Holds (stored_header header_name ref) auth =
      (v : Text) × (Unsealed vaults ref v)
      × (auth ≡ by_stored (some header_name) (codes "stored_header") ref (some v))
  Holds (stored_bearer ref) auth =
      (v : Text) × (Unsealed vaults ref v)
      × (auth ≡ by_stored none (codes "stored_bearer") ref (some v))
  Holds (op_header header_name ref) auth =
      (v : Text) × (resolver : Text → Option Text) × (vaults.op_resolver ≡ some resolver)
      × (resolver ref ≡ some v)
      × (is_empty v ≡ false)
      × (auth ≡ by_op (some header_name) (codes "op_header") ref (some v))
  Holds (op_bearer ref) auth =
      (v : Text) × (resolver : Text → Option Text) × (vaults.op_resolver ≡ some resolver)
      × (resolver ref ≡ some v)
      × (is_empty v ≡ false)
      × (auth ≡ by_op none (codes "op_bearer") ref (some v))
  Holds (oauth_pkce id uri scopes auth_url token_url label) auth =
      LoggedIn vaults now name (oauth_pkce id uri scopes auth_url token_url label) auth
  Holds (oauth_device_code id scopes device_url token_url label) auth =
      LoggedIn vaults now name (oauth_device_code id scopes device_url token_url label) auth

module _ (host_url : Text → Bool) (env : Text → Option Text) (audit : Bool) (ctx : RequestCtx)
    (vaults : Vaults) (creds : Option (List AgentCredentialOverride)) (now : ℕ) where
  -- the credential of `x` is materialized as `auth`
  abbrev Made : ProxyTarget → ProxyAuth → ProxyAuth → Type 0
  Made target x auth = materialize host_url env audit ctx vaults creds target now x ≡ ok auth

  stored-Made :
      (target : ProxyTarget) (name : Option Text) (mode ref : Text) (auth : ProxyAuth)
      → Made target (by_stored name mode ref none) auth
      → (v : Text) × (Unsealed vaults ref v) × (auth ≡ by_stored name mode ref (some v))
  unfolding materialize
  stored-Made target name mode ref auth h =
      elim (Result-cases (resolve_stored_credential vaults ref)) [
        | inl (plain, e) ↦ (plain, stored-Unsealed vaults ref plain e, ground arith)
        | inr (cause, e) ↦ ground arith
      ]

  op-Made :
      (target : ProxyTarget) (name : Option Text) (mode ref : Text) (auth : ProxyAuth)
      → Made target (by_op name mode ref none) auth
      → (v : Text) × (resolver : Text → Option Text) × (vaults.op_resolver ≡ some resolver)
        × (resolver ref ≡ some v)
        × (is_empty v ≡ false)
        × (auth ≡ by_op name mode ref (some v))
  unfolding materialize
  op-Made target name mode ref auth h = elim (Result-cases (resolve_op vaults ref)) [
    | inl (plain, e) ↦
        let (resolver, configured, found, full) = resolve_op-eq-ok vaults ref plain e in
        (plain, resolver, configured, found, full, ground arith)
    | inr (cause, e) ↦ ground arith
  ]

  active-fresh :
      (rt : OauthRuntime) (target : ProxyTarget) (spec : AuthSpec) (session current : OauthSession)
      → target.oauth_selection ≡ some spec
      → active_session host_url env rt target now session ≡ ok current
      → ((needs_refresh now session ≡ false) × (current ≡ session))
        ⊎ ((needs_refresh now session ≡ true) × (rt.refresh spec session ≡ ok current))
  unfolding active_session
  active-fresh rt target spec session current selected h =
      elim (Bool-cases (needs_refresh now session)) [
        | inr fresh ↦ inl (fresh, ground arith)
        | inl stale ↦
            let done : refreshed_session (rt.refresh spec session) ≡ ok current = ground arith in
            inr (stale, refreshed-eq-ok (rt.refresh spec session) current done)
      ]

  session-read :
      (rt : OauthRuntime) (target : ProxyTarget) (label : Text) (session : OauthSession)
      → usable_session host_url env rt creds target label ≡ ok session
      → (rt.sessions target.name label ≡ ok (some session)) × (session.degraded ≡ false)
  unfolding usable_session
  session-read rt target label session h =
      elim (Result-cases (read_session (rt.sessions target.name label))) [
        | inr (cause, failed) ↦ ground arith
        | inl (s, read) ↦
            let same : s ≡ session = ground arith in
            let whole = read_session-eq-ok (rt.sessions target.name label) s read in
            (whole ∙ ap (λ x. ok (some x)) same, ground arith)
      ]

  token-LoggedIn :
      (target : ProxyTarget) (spec : AuthSpec) (label : Text) (auth : ProxyAuth)
      → oauth_session_label spec ≡ some label
      → target.oauth_selection ≡ some spec
      → resolve_oauth_token host_url env vaults creds target label now ≡ ok auth
      → LoggedIn vaults now target.name spec auth
  unfolding resolve_oauth_token
  token-LoggedIn target spec label auth labelled selected h = elim (Option-cases vaults.oauth) [
    | inl missing ↦ ground arith
    | inr (rt, configured) ↦
        elim (Result-cases (usable_session host_url env rt creds target label)) [
          | inr (cause, failed) ↦ ground arith
          | inl (session, usable) ↦
              elim (Result-cases (active_session host_url env rt target now session)) [
                | inr (cause, failed) ↦ ground arith
                | inl (current, active) ↦
                    let (read, healthy) = session-read rt target label session usable in
                    record {
                      runtime = rt;
                      label = label;
                      session = session;
                      current = current;
                      mode = audit_mode target.auth;
                      labelled = labelled;
                      configured = configured;
                      read = read;
                      healthy = healthy;
                      fresh = active-fresh rt target spec session current selected active;
                      token = ground arith;
                    }
              ]
        ]
  ]

  oauth-LoggedIn :
      (target chosen : ProxyTarget) (spec : AuthSpec) (auth : ProxyAuth)
      → apply_oauth host_url env target spec ≡ ok chosen
      → Made (as_override host_url env chosen) chosen.auth auth
      → LoggedIn vaults now chosen.name spec auth
  unfolding apply_oauth materialize
  oauth-LoggedIn target chosen spec auth h m =
      elim (Option-cases (real_label host_url env (oauth_session_label spec))) [
        | inl missing ↦ ground arith
        | inr (l, found) ↦
            let from = as_override host_url env chosen in
            let kind : chosen.auth ≡ by_oauth (oauth_mode host_url env spec) [] none none =
              ground arith in
            let labelled : chosen.oauth_session_label ≡ some l = ground arith in
            let selected : chosen.oauth_selection ≡ some spec = ground arith in
            let made = subst (λ x. Made from x auth) kind m in
            elim (Result-cases (resolve_oauth_token host_url env vaults creds from l now)) [
              | inr (cause, failed) ↦ ground arith
              | inl (x, token) ↦
                  let same : x ≡ auth = ground arith in
                  token-LoggedIn from spec l auth
                    (real_label-eq-some host_url env (oauth_session_label spec) l found) selected
                    (token ∙ ap ok same)
            ]
      ]

  -- The selected account, once materialized, is the credential that stands for it.
  pub spec-Holds :
      (target chosen : ProxyTarget) (spec : AuthSpec) (auth : ProxyAuth)
      → apply_spec host_url env target spec ≡ ok chosen
      → Made (as_override host_url env chosen) chosen.auth auth
      → Holds env vaults now chosen.name spec auth
  unfolding apply_spec materialize Holds
  spec-Holds target chosen no_auth auth h m =
      let e : chosen.auth ≡ authless = ground arith in
      let made = subst (λ x. Made (as_override host_url env chosen) x auth) e m in ground arith
  spec-Holds target chosen (header name var) auth h m =
      elim (Result-cases (selected_env host_url env var)) [
        | inr (f, failed) ↦ ground arith
        | inl (v, found) ↦
            let (set, full) = selected_env-eq-ok host_url env var v found in
            let e : chosen.auth ≡ by_header name (codes "header") (some v) = ground arith in
            let made = subst (λ x. Made (as_override host_url env chosen) x auth) e m in
            (v, set, full, ground arith)
      ]
  spec-Holds target chosen (bearer var) auth h m =
      elim (Result-cases (selected_env host_url env var)) [
        | inr (f, failed) ↦ ground arith
        | inl (v, found) ↦
            let (set, full) = selected_env-eq-ok host_url env var v found in
            let e : chosen.auth ≡ by_bearer (some v) = ground arith in
            let made = subst (λ x. Made (as_override host_url env chosen) x auth) e m in
            (v, set, full, ground arith)
      ]
  spec-Holds target chosen (stored_header name ref) auth h m =
      let e : chosen.auth ≡ by_stored (some name) (codes "stored_header") ref none = ground arith in
      stored-Made (as_override host_url env chosen) (some name) (codes "stored_header") ref auth
        (subst (λ x. Made (as_override host_url env chosen) x auth) e m)
  spec-Holds target chosen (stored_bearer ref) auth h m =
      let e : chosen.auth ≡ by_stored none (codes "stored_bearer") ref none = ground arith in
      stored-Made (as_override host_url env chosen) none (codes "stored_bearer") ref auth
        (subst (λ x. Made (as_override host_url env chosen) x auth) e m)
  spec-Holds target chosen (op_header name ref) auth h m =
      let e : chosen.auth ≡ by_op (some name) (codes "op_header") ref none = ground arith in
      op-Made (as_override host_url env chosen) (some name) (codes "op_header") ref auth
        (subst (λ x. Made (as_override host_url env chosen) x auth) e m)
  spec-Holds target chosen (op_bearer ref) auth h m =
      let e : chosen.auth ≡ by_op none (codes "op_bearer") ref none = ground arith in
      op-Made (as_override host_url env chosen) none (codes "op_bearer") ref auth
        (subst (λ x. Made (as_override host_url env chosen) x auth) e m)
  spec-Holds target chosen (oauth_pkce id uri scopes auth_url token_url label) auth h m =
      oauth-LoggedIn target chosen (oauth_pkce id uri scopes auth_url token_url label) auth h m
  spec-Holds target chosen (oauth_device_code id scopes device_url token_url label) auth h m =
      oauth-LoggedIn target chosen (oauth_device_code id scopes device_url token_url label) auth h m
