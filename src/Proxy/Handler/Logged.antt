-- ===== src/Proxy/Handler/Logged.antt =====
-- The answers of `proxy_handler` of src/proxy.rs against the audit log.
use agent_locksmith.Prelude.{
  ℕ, ◌≡◌, refl, Bool, true, false, Option, none, some, Result, ok, err, if◌then◌else◌, is_some,
}
use agent_locksmith.Text.{Text}
use agent_locksmith.Text.Utf8.{Bytes}
use agent_locksmith.Agent.{AgentIdentity, allows_tool}
use agent_locksmith.Response.Controls.{
  Engine, ResponseControls, ApplyOutcome, size_exceeded, content_type_disallowed,
  apply_non_streaming, streaming_size_cap,
}
use agent_locksmith.Codex.{Json, FixupSummary, CodexBodyError, fixup}
use agent_locksmith.Proxy.Target.{ProxyTarget, resolve_target}
use agent_locksmith.Proxy.Selection.{identity_required, apply_selection}
use agent_locksmith.Proxy.Headers.{url_host}
use agent_locksmith.Proxy.Replies.{RequestCtx, Reply}
use agent_locksmith.Proxy.Admission.{Database}
use agent_locksmith.Proxy.Handler.{
  AppState, ProxyRequest, UpstreamRequest, UpstreamResponse, ctx_snapshot, gate, credentialed,
  legacy_target, find_target, ready_target, fits, fixed_body, outgoing_body, build_upstream_request,
  plan, redaction_rows, controlled, apply_buffered_response_controls, passed,
  handle_upstream_response, answered, sent, proxy_handler,
}
use agent_locksmith.Proxy.Replies.Logged.{
  Logged, Logs, Logs-ok, Logs-err, Logs-bind, Logs-ok_or, Logs-reject_if, Logs-if,
  record_failure-Logged, not_found-Logged, body_read-Logged, too_large-Logged, disallowed-Logged,
  exceeded-Logged, unread-Logged, upstream_error-Logged, after-Logged, success-Logged,
}
use agent_locksmith.Proxy.Credentials.Logged.{
  granted-Logs, failed_as-Logs, admission_target-Logs, materialize-Logs,
}

module _ (engine : Engine) (json : Json) (st : AppState engine json) (on : st.audit ≡ true) where
  gate-Logs :
      (ctx : RequestCtx) (identity : Option AgentIdentity)
      → Logs st.audit on (gate engine json st ctx identity)
  unfolding gate
  gate-Logs ctx (some identity) =
      granted-Logs st.audit on ctx st.host_url st.env (allows_tool identity ctx.tool_name)
  gate-Logs ctx none =
      Logs-reject_if st.audit on (credentialed engine json st ctx.tool_name) _
        (record_failure-Logged st.audit on ctx identity_required)

  find_target-Logs :
      (ctx : RequestCtx) (db : Option Database) (identity : Option AgentIdentity)
      → Logs st.audit on (find_target engine json st ctx db identity)
  unfolding find_target legacy_target
  find_target-Logs ctx (some db) identity =
      admission_target-Logs st.audit on ctx st.host_url st.env db st.catalog
        (is_some st.agent_creds) identity st.now
  find_target-Logs ctx none identity =
      Logs-bind st.audit on _ _
        (Logs-ok_or st.audit on (resolve_target st.catalog st.tools ctx.tool_name) _
          (not_found-Logged st.audit on ctx))
        λ target.
          failed_as-Logs st.audit on ctx st.host_url st.env
            (apply_selection st.host_url st.env st.agent_creds target identity)

  ready_target-Logs :
      (ctx : RequestCtx) (identity : Option AgentIdentity)
      → Logs st.audit on (ready_target engine json st ctx identity)
  unfolding ready_target
  ready_target-Logs ctx identity = Logs-bind st.audit on _ _ (gate-Logs ctx identity) λ _.
      Logs-bind st.audit on _ _ (find_target-Logs ctx st.registrations identity) λ target.
        Logs-bind st.audit on _ _
          (materialize-Logs st.audit on ctx st.host_url st.env st.vaults st.agent_creds target
            st.now target.auth)
          λ auth. Logs-ok st.audit on (record target { auth = auth })

  fixed_body-Logs :
      (ctx : RequestCtx) (host : Option Text) (r : Result (Bytes × FixupSummary) CodexBodyError)
      → Logs st.audit on (fixed_body engine json st ctx host r)
  fixed_body-Logs ctx host (ok (body, s)) = Logs-ok st.audit on _
  fixed_body-Logs ctx host (err e) = Logs-err st.audit on _ (too_large-Logged st.audit on ctx host)

  outgoing_body-Logs :
      (ctx : RequestCtx) (target : ProxyTarget) (body : Option Bytes)
      → Logs st.audit on (outgoing_body engine json st ctx target body)
  unfolding outgoing_body
  outgoing_body-Logs ctx target body =
      let host = url_host target.upstream in
      Logs-bind st.audit on _ _
        (Logs-ok_or st.audit on (fits engine json st target.body_limit_bytes body) _
          (body_read-Logged st.audit on ctx host))
        λ bytes.
          Logs-if st.audit on _ _ _ (fixed_body-Logs ctx host (fixup json bytes))
            (Logs-ok st.audit on (bytes, ctx))

  plan-Logs : (req : ProxyRequest) → Logs st.audit on (plan engine json st req)
  unfolding plan
  plan-Logs req =
      let ctx = ctx_snapshot engine json st req in
      Logs-bind st.audit on _ _ (ready_target-Logs ctx req.identity) λ target.
        Logs-bind st.audit on _ _ (outgoing_body-Logs ctx target req.body) λ (body, fixed).
          Logs-ok st.audit on
            (fixed, target, build_upstream_request engine json st fixed target req body)

  passed-Logged :
      (ctx : RequestCtx) (target : ProxyTarget) (host : Option Text) (resp : UpstreamResponse)
      (limit : Option ℕ)
      → Logged (passed engine json st ctx target host resp limit)
  passed-Logged ctx target host resp limit =
      success-Logged st.audit on ctx target host resp.status _ refl refl

  controlled-Logged :
      (ctx : RequestCtx) (target : ProxyTarget) (host : Option Text) (resp : UpstreamResponse)
      (outcome : ApplyOutcome)
      → Logged (controlled engine json st ctx target host resp outcome)
  controlled-Logged ctx target host resp (size_exceeded observed limit) =
      exceeded-Logged st.audit on ctx host observed limit
  controlled-Logged ctx target host resp (content_type_disallowed observed) =
      disallowed-Logged st.audit on ctx host (some observed)
  controlled-Logged ctx target host resp (ApplyOutcome.allowed body redactions) =
      after-Logged st.audit on ctx _ (redaction_rows engine json st ctx host resp.status redactions)
        _ (success-Logged st.audit on ctx target host resp.status _ refl refl)

  buffered-Logged :
      (rc : ResponseControls engine) (ctx : RequestCtx) (target : ProxyTarget) (host : Option Text)
      (resp : UpstreamResponse) (body : Result Bytes Text)
      → Logged (apply_buffered_response_controls engine json st rc ctx target host resp body)
  unfolding apply_buffered_response_controls
  buffered-Logged rc ctx target host resp (ok body) =
      controlled-Logged ctx target host resp (apply_non_streaming engine rc resp.content_type body)
  buffered-Logged rc ctx target host resp (err what) = unread-Logged st.audit on ctx host what

  if-Logged : (c : Bool) (x y : Reply) → Logged x → Logged y → Logged (if c then x else y)
  if-Logged true x y hx hy = hx
  if-Logged false x y hx hy = hy

  response-Logged :
      (ctx : RequestCtx) (target : ProxyTarget) (host : Option Text) (resp : UpstreamResponse)
      (rc : Option (ResponseControls engine))
      → Logged (handle_upstream_response engine json st ctx target host resp rc)
  unfolding handle_upstream_response
  response-Logged ctx target host resp none = passed-Logged ctx target host resp none
  response-Logged ctx target host resp (some rc) =
      if-Logged _ _ _ (disallowed-Logged st.audit on ctx host resp.content_type) (
        if-Logged _ _ _ (buffered-Logged rc ctx target host resp resp.body)
          (passed-Logged ctx target host resp (streaming_size_cap engine rc)))

  answered-Logged :
      (ctx : RequestCtx) (target : ProxyTarget) (out : Result UpstreamResponse Bool)
      → Logged (answered engine json st ctx target out)
  unfolding answered
  answered-Logged ctx target (ok resp) =
      response-Logged ctx target (url_host target.upstream) resp
        (st.response_controls ctx.tool_name)
  answered-Logged ctx target (err is_timeout) =
      upstream_error-Logged st.audit on ctx target (url_host target.upstream) is_timeout

  sent-Logged :
      (p : Result (RequestCtx × ProxyTarget × UpstreamRequest) Reply)
      → Logs st.audit on p
      → Logged (sent engine json st p)
  unfolding sent
  sent-Logged (err reply) h = h reply refl
  sent-Logged (ok (ctx, target, out)) h = answered-Logged ctx target (st.send out)

  -- With an audit repository every request that reaches the proxy, on whatever branch it ends, leaves a
  -- last row that has the status of the answer, and no answer that is an error of the proxy is logged
  -- as allowed.
  pub proxy_handler-Logged : (req : ProxyRequest) → Logged (proxy_handler engine json st req)
  unfolding proxy_handler
  proxy_handler-Logged req = sent-Logged (plan engine json st req) (plan-Logs req)
