-- ===== src/Proxy/Credentials/Laws.antt =====
-- A selected account leaves the connection of the target as it is: about src/proxy/selection.rs.
use agent_locksmith.Prelude.{
  ◌≡◌, refl, Bool, inl, inr, Option, Result, ok, err, Result-cases, Option-cases, arith,
}
use agent_locksmith.Text.{Text}
use agent_locksmith.Registration.Auth.{
  AuthSpec, no_auth, header, bearer, stored_header, stored_bearer, op_header, op_bearer, oauth_pkce,
  oauth_device_code, oauth_session_label,
}
use agent_locksmith.Agent.{Denial}
use agent_locksmith.Proxy.Target.{ProxyTarget}
use agent_locksmith.Proxy.Selection.{selected_env, real_label, apply_oauth, apply_spec}
use agent_locksmith.Proxy.Replies.{RequestCtx}
use agent_locksmith.Proxy.Admission.{granted}

module _ (host_url : Text → Bool) (env : Text → Option Text) where
  -- the target is that of the same connection
  abbrev Same : ProxyTarget → ProxyTarget → Type 0
  Same chosen target = (chosen.upstream ≡ target.upstream) × (chosen.name ≡ target.name)

  oauth-Same :
      (target chosen : ProxyTarget) (spec : AuthSpec)
      → apply_oauth host_url env target spec ≡ ok chosen
      → Same chosen target
  unfolding apply_oauth
  oauth-Same target chosen spec h =
      elim (Option-cases (real_label host_url env (oauth_session_label spec))) [
        | inl missing ↦ ground arith
        | inr (l, found) ↦ (ground arith, ground arith)
      ]

  pub apply_spec-Same :
      (target chosen : ProxyTarget) (spec : AuthSpec)
      → apply_spec host_url env target spec ≡ ok chosen
      → Same chosen target
  unfolding apply_spec
  apply_spec-Same target chosen no_auth h = (ground arith, ground arith)
  apply_spec-Same target chosen (header name var) h =
      elim (Result-cases (selected_env host_url env var)) [
        | inr (f, failed) ↦ ground arith
        | inl (v, found) ↦ (ground arith, ground arith)
      ]
  apply_spec-Same target chosen (bearer var) h =
      elim (Result-cases (selected_env host_url env var)) [
        | inr (f, failed) ↦ ground arith
        | inl (v, found) ↦ (ground arith, ground arith)
      ]
  apply_spec-Same target chosen (stored_header name ref) h = (ground arith, ground arith)
  apply_spec-Same target chosen (stored_bearer ref) h = (ground arith, ground arith)
  apply_spec-Same target chosen (op_header name ref) h = (ground arith, ground arith)
  apply_spec-Same target chosen (op_bearer ref) h = (ground arith, ground arith)
  apply_spec-Same target chosen (oauth_pkce id uri scopes auth_url token_url label) h =
      oauth-Same target chosen (oauth_pkce id uri scopes auth_url token_url label) h
  apply_spec-Same target chosen (oauth_device_code id scopes device_url token_url label) h =
      oauth-Same target chosen (oauth_device_code id scopes device_url token_url label) h

pub granted-eq-ok :
    (host_url : Text → Bool) (env : Text → Option Text) (audit : Bool) (ctx : RequestCtx)
    (g : Result (Unit {0}) Denial) (u : Unit {0})
    → granted host_url env audit ctx g ≡ ok u
    → g ≡ ok tt
granted-eq-ok host_url env audit ctx (ok tt) u h = refl
granted-eq-ok host_url env audit ctx (err d) u h = ground arith
