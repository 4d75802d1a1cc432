-- ===== src/Proxy/Credentials/Logged.antt =====
-- The refusals of admission (src/proxy/admission.rs) and of the credential steps (src/proxy.rs)
-- against the audit log.
use agent_locksmith.Prelude.{ℕ, ◌≡◌, refl, Bool, true, not, Option, some, List, Result, ok, err}
use agent_locksmith.Text.{Text, codes}
use agent_locksmith.Registration.Catalog.{Catalog}
use agent_locksmith.Agent.{AgentIdentity, Denial}
use agent_locksmith.Proxy.Target.{
  ProxyTarget, ProxyAuth, authless, by_header, by_bearer, by_stored, by_op, by_oauth,
  from_registration,
}
use agent_locksmith.Proxy.Bindings.{AgentCredentialOverride}
use agent_locksmith.Proxy.Selection.{
  Failure, identity_required, missing, store_unavailable, credential_unavailable, apply_spec,
  as_override,
}
use agent_locksmith.Proxy.Replies.{RequestCtx}
use agent_locksmith.Proxy.Admission.{
  Database, HttpAdmission, http_admissions, readable_rows, pop, granted, failed_as, admit,
  admission_target, record_inactive, unavailable, denial_reason,
}
use agent_locksmith.Proxy.Credentials.{
  Vaults, Unavailable, materialize, or_stored, or_oauth, resolve_stored_credential, resolve_op,
  resolve_oauth_token,
}
use agent_locksmith.Proxy.Replies.Logged.{
  Logged, Logs, Logs-ok, Logs-err, Logs-bind, Logs-ok_or, Logs-reject_if, record_failure-Logged,
  stored-Logged, oauth-Logged, authz-Logged, not_found-Logged, one,
}

module _ (audit : Bool) (on : audit ≡ true) (ctx : RequestCtx) where
  module _ (host_url : Text → Bool) (env : Text → Option Text) where
    pub granted-Logs :
        (g : Result (Unit {0}) Denial) → Logs audit on (granted host_url env audit ctx g)
    granted-Logs (ok u) = Logs-ok audit on u
    granted-Logs (err d) = Logs-err audit on _ (authz-Logged audit on ctx (denial_reason d))

    pub failed_as-Logs :
        {A : Type 0} (r : Result A Failure) → Logs audit on (failed_as host_url env audit ctx r)
    failed_as-Logs (ok a) = Logs-ok audit on a
    failed_as-Logs (err f) = Logs-err audit on _ (record_failure-Logged audit on ctx f)

    or_stored-Logs :
        {A : Type 0} (r : Result A Text) → Logs audit on (or_stored host_url env audit ctx r)
    or_stored-Logs (ok a) = Logs-ok audit on a
    or_stored-Logs (err cause) = Logs-err audit on _ (stored-Logged audit on ctx cause)

    or_oauth-Logs :
        {A : Type 0} (r : Result A Unavailable) → Logs audit on (or_oauth host_url env audit ctx r)
    or_oauth-Logs (ok a) = Logs-ok audit on a
    or_oauth-Logs (err (code, cause)) = Logs-err audit on _ (oauth-Logged audit on ctx code cause)

    readable_rows-Logs :
        (r : Result (List HttpAdmission) (Unit {0}))
        → Logs audit on (readable_rows host_url env audit ctx r)
    readable_rows-Logs (ok rows) = Logs-ok audit on rows
    readable_rows-Logs (err e) =
        Logs-err audit on _ (record_failure-Logged audit on ctx store_unavailable)

    inactive-Logged : Logged (record_inactive host_url env audit ctx)
    unfolding record_inactive
    inactive-Logged = one audit on _ _ refl refl

    unavailable-Logged : (code : Text) → Logged (unavailable host_url env audit ctx code)
    unfolding unavailable
    unavailable-Logged code = one audit on _ _ refl refl

    admit-Logs :
        (catalog : Catalog) (row : HttpAdmission)
        → Logs audit on (admit host_url env audit ctx catalog row)
    unfolding admit
    admit-Logs catalog row =
        Logs-bind audit on _ _ (Logs-reject_if audit on (not row.agent_active) _ inactive-Logged)
          λ _. Logs-bind audit on _ _ (granted-Logs row.grant) λ _.
            Logs-bind audit on _ _
              (Logs-reject_if audit on row.registration.disabled _ (not_found-Logged audit on ctx))
              λ _.
                Logs-bind audit on _ _
                  (Logs-reject_if audit on _ _ (unavailable-Logged (codes "connection_not_active")))
                  λ _.
                    Logs-bind audit on _ _
                      (Logs-ok_or audit on row.account _
                        (record_failure-Logged audit on ctx missing))
                      λ account.
                        Logs-bind audit on _ _
                          (failed_as-Logs
                            (apply_spec host_url env (from_registration row.registration) account))
                          λ target. Logs-ok audit on (as_override host_url env target)

    pub admission_target-Logs :
        (db : Database) (catalog : Catalog) (creds : Bool) (identity : Option AgentIdentity)
        (now : ℕ)
        → Logs audit on (admission_target host_url env audit ctx db catalog creds identity now)
    unfolding admission_target
    admission_target-Logs db catalog creds identity now =
        Logs-bind audit on _ _
          (Logs-ok_or audit on identity _ (record_failure-Logged audit on ctx identity_required))
          λ agent.
            Logs-bind audit on _ _
              (Logs-reject_if audit on (not creds) _
                (record_failure-Logged audit on ctx store_unavailable))
              λ _.
                Logs-bind audit on _ _
                  (readable_rows-Logs (http_admissions db agent now (some ctx.tool_name)))
                  λ rows.
                    Logs-bind audit on _ _
                      (Logs-ok_or audit on (pop rows) _ (not_found-Logged audit on ctx))
                      λ row. admit-Logs catalog row

    pub materialize-Logs :
        (vaults : Vaults) (creds : Option (List AgentCredentialOverride)) (target : ProxyTarget)
        (now : ℕ) (auth : ProxyAuth)
        → Logs audit on (materialize host_url env audit ctx vaults creds target now auth)
    unfolding materialize
    materialize-Logs vaults creds target now authless = Logs-ok audit on authless
    materialize-Logs vaults creds target now (by_header name mode over) =
        Logs-ok audit on (by_header name mode over)
    materialize-Logs vaults creds target now (by_bearer over) = Logs-ok audit on (by_bearer over)
    materialize-Logs vaults creds target now (by_stored name mode ref value) =
        Logs-bind audit on _ _ (or_stored-Logs (resolve_stored_credential vaults ref))
          λ plain. Logs-ok audit on (by_stored name mode ref (some plain))
    materialize-Logs vaults creds target now (by_op name mode reference value) =
        Logs-bind audit on _ _ (or_stored-Logs (resolve_op vaults reference))
          λ cached. Logs-ok audit on (by_op name mode reference (some cached))
    materialize-Logs vaults creds target now (by_oauth mode session token account) =
        Logs-bind audit on _ _
          (Logs-ok_or audit on target.oauth_session_label _
            (record_failure-Logged audit on ctx credential_unavailable))
          λ label. or_oauth-Logs (resolve_oauth_token host_url env vaults creds target label now)
