-- ===== src/Proxy/Handler.antt =====
-- `proxy_handler` of src/proxy.rs with `handle_upstream_response`, and the legacy check of
-- src/legacy_admission.rs. Every early return of the source is an `err` with the reply it sends. The
-- HTTP client is the field `send` of the state: an error has the flag of a timeout.
pub mod Laws
pub mod Logged
use agent_locksmith.Prelude.{
  ℕ, Bool, true, false, ◌&&◌, ◌||◌, not, Option, none, some, List, [], ◌∷◌, ◌++◌, any, ltb, length,
  Result, ok, err, ◌>>=◌, ◌>>◌, ok_or, reject_if, is_some, is_some_and, if◌then◌else◌,
}
use agent_locksmith.Text.{Text, codes, ◌==◌}
use agent_locksmith.Text.Utf8.{Bytes}
use agent_locksmith.Audit.{AuditEvent}
use agent_locksmith.Registration.{Registration}
use agent_locksmith.Registration.Auth.{injects_header}
use agent_locksmith.Registration.Catalog.{Catalog, lookup_active}
use agent_locksmith.Agent.{AgentIdentity, allows_tool}
use agent_locksmith.Auth.Middleware.{AuthenticatedAs, as_bearer, as_mtls}
use agent_locksmith.Response.Controls.{
  Engine, ResponseControls, RedactionRecord, ApplyOutcome, allowed, size_exceeded,
  content_type_disallowed, apply_non_streaming, streaming_content_type_allowed, streaming_size_cap,
  has_redaction_patterns,
}
use agent_locksmith.Codex.{Json, FixupSummary, CodexBodyError, is_noop, fixup}
use agent_locksmith.Proxy.Target.{ProxyTarget, ToolConfig, resolve_target}
use agent_locksmith.Proxy.Bindings.{AgentCredentialOverride}
use agent_locksmith.Proxy.Selection.{identity_required, apply_selection, record_failure}
use agent_locksmith.Proxy.Headers.{
  is_chatgpt_codex_upstream, request_path_ends_with_responses, upstream_headers, upstream_url,
  url_host, forward_response_headers,
}
use agent_locksmith.Proxy.Replies.{
  RequestCtx, Headers, Response, relayed, streamed, Reply, record_authz_denied,
  record_tool_not_found, record_body_read_error, record_codex_body_too_large,
  record_response_content_type_disallowed, record_proxy_request_success, record_upstream_error,
  record_upstream_body_read_error, record_response_size_exceeded_buffered,
  record_response_redaction,
}
use agent_locksmith.Proxy.Admission.{Database, admission_target, failed_as, granted}
use agent_locksmith.Proxy.Credentials.{Vaults, materialize}

-- The request as the route hands it over: `path` is what the wildcard captured, `body` the bytes of the
-- body or `none` when reading it fails.
pub record ProxyRequest : Type 0 where
  pub tool_name : Text
  pub path : Text
  pub request_path : Text
  pub method : Text
  pub query : Option Text
  pub headers : Headers
  pub body : Option Bytes
  pub how : Option AuthenticatedAs
  pub identity : Option AgentIdentity

pub record UpstreamRequest : Type 0 where
  pub client : Text
  pub method : Text
  pub url : Text
  pub headers : Headers
  pub body : Bytes

-- The answer; `body` is an error text when reading the whole body fails.
pub record UpstreamResponse : Type 0 where
  pub status : ℕ
  pub content_type : Option Text
  pub headers : Headers
  pub body : Result Bytes Text

pub record AppState (engine : Engine) (json : Json) : Type 0 where
  pub host_url : Text → Bool
  pub env : Text → Option Text
  pub audit : Bool
  pub registrations : Option Database
  pub catalog : Catalog
  pub tools : List ToolConfig
  pub agent_creds : Option (List AgentCredentialOverride)
  pub resolved_creds : Text → Option Text
  pub vaults : Vaults
  pub response_controls : Text → Option (ResponseControls engine)
  pub send : UpstreamRequest → Result UpstreamResponse Bool
  pub now : ℕ
  pub now_ms : ℕ
  pub latency_ms : ℕ

abbrev pub method_name : Option AuthenticatedAs → Text
method_name (some as_mtls) = codes "mtls"
method_name (some as_bearer) = codes "bearer"
method_name none = codes "bearer"

abbrev pub public_id_of : Option AgentIdentity → Option Text
public_id_of none = none
public_id_of (some i) = some i.public_id

abbrev pub name_of : Option AgentIdentity → Option Text
name_of none = none
name_of (some i) = some i.name

module _ (engine : Engine) (json : Json) (st : AppState engine json) where
  unfoldable pub ctx_snapshot : ProxyRequest → RequestCtx
  ctx_snapshot req = record {
    tool_name = req.tool_name;
    request_path = req.request_path;
    method = req.method;
    auth_method = method_name req.how;
    agent_public_id = public_id_of req.identity;
    agent_name = name_of req.identity;
    now_ms = st.now_ms;
    latency_ms = st.latency_ms;
    codex_body_fixup = none;
  }

  -- `legacy_admission::credentialed`
  abbrev pub credentialed_by : Option Registration → Text → Bool
  credentialed_by (some r) name = injects_header r.auth
  credentialed_by none name = any (λ t. t.name == name && is_some t.auth) st.tools

  unfoldable pub credentialed : Text → Bool
  credentialed name = credentialed_by (lookup_active st.catalog name) name

  -- the ACL gate, and the legacy gate without an identity
  unfoldable pub gate : RequestCtx → Option AgentIdentity → Result (Unit {0}) Reply
  gate ctx (some identity) =
      granted st.host_url st.env st.audit ctx (allows_tool identity ctx.tool_name)
  gate ctx none =
      reject_if (credentialed ctx.tool_name) (record_failure st.audit ctx identity_required)

  unfoldable pub legacy_target : RequestCtx → Option AgentIdentity → Result ProxyTarget Reply
  legacy_target ctx identity = do
    target ←
        ok_or (resolve_target st.catalog st.tools ctx.tool_name)
          (record_tool_not_found st.audit ctx)
    failed_as st.host_url st.env st.audit ctx
        (apply_selection st.host_url st.env st.agent_creds target identity)

  unfoldable pub find_target :
      RequestCtx → Option Database → Option AgentIdentity → Result ProxyTarget Reply
  find_target ctx (some db) identity =
      admission_target st.host_url st.env st.audit ctx db st.catalog (is_some st.agent_creds)
        identity st.now
  find_target ctx none identity = legacy_target ctx identity

  unfoldable pub ready_target : RequestCtx → Option AgentIdentity → Result ProxyTarget Reply
  ready_target ctx identity = do
    gate ctx identity
    target ← find_target ctx st.registrations identity
    auth ←
        materialize st.host_url st.env st.audit ctx st.vaults st.agent_creds target st.now
          target.auth
    ok (record target { auth = auth })

  abbrev pub fits : ℕ → Option Bytes → Option Bytes
  fits limit none = none
  fits limit (some body) = if ltb limit (length body) then none else some body

  abbrev pub fixup_row : FixupSummary → Option (List (Text × List Text))
  fixup_row s =
      if is_noop s
      then none
      else some (
          (codes "fields_added", s.fields_added)
          ∷ (codes "fields_overridden", s.fields_overridden)
          ∷ (codes "fields_removed", s.fields_removed)
          ∷ [])

  abbrev pub fixed_body :
      RequestCtx
      → Option Text
      → Result (Bytes × FixupSummary) CodexBodyError
      → Result (Bytes × RequestCtx) Reply
  fixed_body ctx host (err e) = err (record_codex_body_too_large st.audit ctx host)
  fixed_body ctx host (ok (body, s)) = ok (body, record ctx { codex_body_fixup = fixup_row s })

  unfoldable pub outgoing_body :
      RequestCtx → ProxyTarget → Option Bytes → Result (Bytes × RequestCtx) Reply
  outgoing_body ctx target body = do
    let host = url_host target.upstream
    bytes ← ok_or (fits target.body_limit_bytes body) (record_body_read_error st.audit ctx host)
    let is_codex =
        is_chatgpt_codex_upstream target.upstream
        && request_path_ends_with_responses ctx.request_path
    if is_codex then fixed_body ctx host (fixup json bytes) else ok (bytes, ctx)

  unfoldable pub build_upstream_request :
      RequestCtx → ProxyTarget → ProxyRequest → Bytes → UpstreamRequest
  build_upstream_request ctx target req body = record {
    client = target.name;
    method = req.method;
    url = upstream_url target.upstream req.path req.query;
    headers = upstream_headers target (st.resolved_creds target.name) req.headers ctx.agent_name;
    body = body;
  }

  -- what `proxy_handler` sends, with the target and the context, or the reply of an early return
  unfoldable pub plan : ProxyRequest → Result (RequestCtx × ProxyTarget × UpstreamRequest) Reply
  plan req = do
    let ctx = ctx_snapshot req
    target ← ready_target ctx req.identity
    (body, fixed) ← outgoing_body ctx target req.body
    ok (fixed, target, build_upstream_request fixed target req body)

  abbrev pub redaction_rows : RequestCtx → Option Text → ℕ → List RedactionRecord → List AuditEvent
  redaction_rows ctx host status [] = []
  redaction_rows ctx host status (rec ∷ recs) =
      record_response_redaction st.audit ctx host status rec ++ redaction_rows ctx host status recs

  abbrev pub controlled :
      RequestCtx → ProxyTarget → Option Text → UpstreamResponse → ApplyOutcome → Reply
  controlled ctx target host resp (size_exceeded observed limit) =
      record_response_size_exceeded_buffered st.audit ctx host observed limit
  controlled ctx target host resp (content_type_disallowed observed) =
      record_response_content_type_disallowed st.audit ctx host (some observed)
  controlled ctx target host resp (allowed body redactions) = (
    relayed resp.status (forward_response_headers resp.headers) body,
    redaction_rows ctx host resp.status redactions
        ++ record_proxy_request_success st.audit ctx target host resp.status,
  )

  unfoldable pub apply_buffered_response_controls :
      ResponseControls engine
      → RequestCtx
      → ProxyTarget
      → Option Text
      → UpstreamResponse
      → Result Bytes Text
      → Reply
  apply_buffered_response_controls rc ctx target host resp (err what) =
      record_upstream_body_read_error st.audit ctx host what
  apply_buffered_response_controls rc ctx target host resp (ok body) =
      controlled ctx target host resp (apply_non_streaming engine rc resp.content_type body)

  abbrev pub passed : RequestCtx → ProxyTarget → Option Text → UpstreamResponse → Option ℕ → Reply
  passed ctx target host resp limit = (
    streamed resp.status (forward_response_headers resp.headers) limit,
    record_proxy_request_success st.audit ctx target host resp.status,
  )

  unfoldable pub handle_upstream_response :
      RequestCtx
      → ProxyTarget
      → Option Text
      → UpstreamResponse
      → Option (ResponseControls engine)
      → Reply
  handle_upstream_response ctx target host resp none = passed ctx target host resp none
  handle_upstream_response ctx target host resp (some rc) =
      if not (streaming_content_type_allowed engine rc resp.content_type)
      then record_response_content_type_disallowed st.audit ctx host resp.content_type
      else if has_redaction_patterns engine rc
      then apply_buffered_response_controls rc ctx target host resp resp.body
      else passed ctx target host resp (streaming_size_cap engine rc)

  unfoldable pub answered : RequestCtx → ProxyTarget → Result UpstreamResponse Bool → Reply
  answered ctx target (ok resp) =
      handle_upstream_response ctx target (url_host target.upstream) resp
        (st.response_controls ctx.tool_name)
  answered ctx target (err is_timeout) =
      record_upstream_error st.audit ctx target (url_host target.upstream) is_timeout

  unfoldable pub sent : Result (RequestCtx × ProxyTarget × UpstreamRequest) Reply → Reply
  sent (err reply) = reply
  sent (ok (ctx, target, out)) = answered ctx target (st.send out)

  unfoldable pub proxy_handler : ProxyRequest → Reply
  proxy_handler req = sent (plan req)
