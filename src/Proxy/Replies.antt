-- ===== src/Proxy/Replies.antt =====
-- `RequestCtx` of src/proxy.rs and its helpers that write one audit row and answer with one error.
-- The clock and the elapsed time are two numbers of the context.
pub mod Logged
use agent_locksmith.Prelude.{
  ℕ, Bool, true, false, Option, none, some, List, [], ◌∷◌, ◌++◌, leb, if◌then◌else◌, Result, ok,
  err,
}
use agent_locksmith.Text.{Text, codes}
use agent_locksmith.Text.Utf8.{Bytes}
use agent_locksmith.Audit.{
  AuditEvent, default_event, Details, text, number, object, null, proxy, security, allowed, denied,
  error, reason,
}
use agent_locksmith.Response.Controls.{RedactionRecord}
use agent_locksmith.Proxy.Target.{
  ProxyTarget, AuthSource, registration_default, agent_override, audit_mode, oauth_session_id,
}

abbrev pub Headers : Type 0
Headers = List (Text × Text)

pub record RequestCtx : Type 0 where
  pub tool_name : Text
  pub request_path : Text
  pub method : Text
  pub auth_method : Text
  pub agent_public_id : Option Text
  pub agent_name : Option Text
  pub now_ms : ℕ
  pub latency_ms : ℕ
  pub codex_body_fixup : Option (List (Text × List Text))

-- What the agent gets: one of the proxy's errors, without its message, or the answer of the upstream:
-- a body that was read, or the upstream's stream in a `SizeCappedStream` with this cap, if any.
pub data Response : Type 0 where
  error_reply : ℕ → Text → Option Text → Response
  relayed : ℕ → Headers → Bytes → Response
  streamed : ℕ → Headers → Option ℕ → Response

abbrev pub Reply : Type 0
Reply = Response × List AuditEvent

abbrev pub audit_event_base : RequestCtx → AuditEvent
audit_event_base ctx = record default_event {
  ts_ms = ctx.now_ms;
  tool = some ctx.tool_name;
  method = some ctx.method;
  path = some ctx.request_path;
  latency_ms = some ctx.latency_ms;
  auth_method = some ctx.auth_method;
  agent_public_id = ctx.agent_public_id;
}

-- `audit_record`: the row, if there is a repository
abbrev pub audit_record : Bool → AuditEvent → List AuditEvent
audit_record audit event = if audit then event ∷ [] else []

module _ (audit : Bool) (ctx : RequestCtx) where
  unfoldable pub record_authz_denied : Text → Reply
  record_authz_denied why = (
    error_reply 403 (codes "authz_error") (some (codes "tool_not_allowed")),
    audit_record audit (record (audit_event_base ctx) {
      event_class = security;
      event = codes "authz_denied";
      status = some 403;
      decision = denied;
      details = reason why;
    }),
  )

  unfoldable pub record_tool_not_found : Reply
  record_tool_not_found = (
    error_reply 404 (codes "not_found") (some (codes "tool_not_found")),
    audit_record audit (record (audit_event_base ctx) {
      event = codes "tool_not_found";
      status = some 404;
      decision = denied;
    }),
  )

  unfoldable pub record_body_read_error : Option Text → Reply
  record_body_read_error host = (
    error_reply 400 (codes "bad_request") none,
    audit_record audit (record (audit_event_base ctx) {
      event = codes "request_body_read_error";
      status = some 400;
      decision = error;
      upstream_host = host;
    }),
  )

  unfoldable pub record_codex_body_too_large : Option Text → Reply
  record_codex_body_too_large host = (
    error_reply 413 (codes "payload_too_large") (some (codes "codex_body_too_large")),
    audit_record audit (record (audit_event_base ctx) {
      event = codes "codex_body_too_large";
      status = some 413;
      decision = denied;
      upstream_host = host;
    }),
  )

  unfoldable pub record_response_content_type_disallowed : Option Text → Option Text → Reply
  record_response_content_type_disallowed host observed = (
    error_reply 502 (codes "response_content_type_disallowed") none,
    audit_record audit (record (audit_event_base ctx) {
      event = codes "response_content_type_disallowed";
      status = some 502;
      decision = denied;
      upstream_host = host;
      details =
          some
            ((codes "observed_content_type", elim observed [ none ↦ null | some t ↦ text t ]) ∷ []);
    }),
  )

  unfoldable pub source_name : AuthSource → Text
  source_name registration_default = codes "registration_default"
  source_name agent_override = codes "agent_override"

  abbrev optional_text : Text → Option Text → Details
  optional_text key none = []
  optional_text key (some t) = (key, text t) ∷ []

  abbrev fixup_detail : Option (List (Text × List Text)) → Details
  fixup_detail none = []
  fixup_detail (some fields) = (codes "codex_body_fixup", object fields) ∷ []

  unfoldable pub audit_details : ProxyTarget → Details
  unfolding source_name
  audit_details target =
      (codes "auth_mode", text (audit_mode target.auth))
      ∷ (codes "auth_source", text (source_name target.auth_source))
      ∷ (optional_text (codes "oauth_session_id") (oauth_session_id target.auth)
          ++ optional_text (codes "oauth_session_label") target.oauth_session_label
          ++ fixup_detail ctx.codex_body_fixup)

  unfoldable pub record_proxy_request_success : ProxyTarget → Option Text → ℕ → List AuditEvent
  record_proxy_request_success target host upstream_status =
      audit_record audit (record (audit_event_base ctx) {
        event = codes "proxy_request";
        status = some upstream_status;
        decision = if leb 500 upstream_status then error else allowed;
        upstream_host = host;
        details = some (audit_details target);
      })

  unfoldable pub record_upstream_error : ProxyTarget → Option Text → Bool → Reply
  record_upstream_error target host is_timeout =
      let status = if is_timeout then 504 else 502 in
      let kind = if is_timeout then codes "timeout" else codes "upstream_error" in
      (
        error_reply status kind none,
        audit_record audit (record (audit_event_base ctx) {
          event = kind;
          status = some status;
          decision = error;
          upstream_host = host;
          details = some (audit_details target);
        }),
      )

  -- `what` is the text of the error of the HTTP client
  unfoldable pub record_upstream_body_read_error : Option Text → Text → Reply
  record_upstream_body_read_error host what = (
    error_reply 502 (codes "upstream_error") none,
    audit_record audit (record (audit_event_base ctx) {
      event = codes "upstream_body_read_error";
      status = some 502;
      decision = error;
      upstream_host = host;
      details = some ((codes "error", text what) ∷ []);
    }),
  )

  unfoldable pub record_response_size_exceeded_buffered : Option Text → ℕ → ℕ → Reply
  record_response_size_exceeded_buffered host observed max_bytes = (
    error_reply 502 (codes "response_size_exceeded") none,
    audit_record audit (record (audit_event_base ctx) {
      event = codes "response_size_exceeded";
      status = some 502;
      decision = denied;
      upstream_host = host;
      details = some (
          (codes "observed_bytes", number observed)
          ∷ (codes "cap_bytes", number max_bytes)
          ∷ (codes "flow", text (codes "non_streaming"))
          ∷ []);
    }),
  )

  unfoldable pub record_response_redaction : Option Text → ℕ → RedactionRecord → List AuditEvent
  record_response_redaction host upstream_status rec =
      audit_record audit (record (audit_event_base ctx) {
        event = codes "response_redaction";
        status = some upstream_status;
        upstream_host = host;
        details = some (
            (codes "pattern_id", text rec.pattern_id)
            ∷ (codes "matches", number rec.matches)
            ∷ (codes "match_hash", text rec.match_hash)
            ∷ []);
      })

  unfoldable pub record_oauth_unavailable : Text → Text → Reply
  record_oauth_unavailable error_code audit_cause = (
    error_reply 503 (codes "auth_error") (some error_code),
    audit_record audit (record (audit_event_base ctx) {
      event = codes "oauth_unavailable";
      status = some 503;
      decision = error;
      details = some ((codes "oauth_cause", text audit_cause) ∷ []);
    }),
  )

  -- `record_stored_unavailable` with `stored_unavailable_envelope`
  unfoldable pub record_stored_unavailable : Text → Reply
  record_stored_unavailable audit_cause = (
    error_reply 503 (codes "auth_error") (some (codes "credential_unresolved")),
    audit_record audit (record (audit_event_base ctx) {
      event = codes "credential_unavailable";
      status = some 503;
      decision = error;
      details = some ((codes "credential_cause", text audit_cause) ∷ []);
    }),
  )
