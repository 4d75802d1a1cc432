-- ===== src/Proxy/Replies/Logged.antt =====
-- What it means that a reply is in the audit log, and that the errors of a computation are: for
-- the helpers `record_*` of src/proxy.rs.
use agent_locksmith.Prelude.{
  ℕ, ◌≡◌, refl, ap, sym, subst, ◌∙◌, Bool, true, false, ◌&&◌, Option, none, some, List, [], ◌∷◌,
  ◌++◌, Result, ok, err, ◌>>=◌, ok_or, reject_if, arith, if◌then◌else◌, append_assoc,
}
use agent_locksmith.Text.{Text}
use agent_locksmith.Audit.{AuditEvent, Decision, allowed, denied, error}
use agent_locksmith.Proxy.Target.{ProxyTarget}
use agent_locksmith.Proxy.Selection.{
  Failure, identity_required, missing, store_unavailable, credential_unavailable, record_failure,
}
use agent_locksmith.Proxy.Replies.{
  RequestCtx, Response, error_reply, relayed, streamed, Reply, audit_record, record_authz_denied,
  record_tool_not_found, record_body_read_error, record_codex_body_too_large,
  record_response_content_type_disallowed, record_proxy_request_success, record_upstream_error,
  record_upstream_body_read_error, record_response_size_exceeded_buffered, record_oauth_unavailable,
  record_stored_unavailable,
}

abbrev pub status_of : Response → ℕ
status_of (error_reply status kind code) = status
status_of (relayed status headers body) = status
status_of (streamed status headers limit) = status

abbrev pub is_error_reply : Response → Bool
is_error_reply (error_reply status kind code) = true
is_error_reply (relayed status headers body) = false
is_error_reply (streamed status headers limit) = false

abbrev pub is_allowed : Decision → Bool
is_allowed allowed = true
is_allowed denied = false
is_allowed error = false

-- The last row tells the status of the answer, and an error of the proxy is never logged as allowed.
pub record Logged (reply : Reply) : Type 0 where
  pub earlier : List AuditEvent
  pub last : AuditEvent
  pub rows : reply.1 ≡ earlier ++ last ∷ []
  pub status : last.status ≡ some (status_of reply.0)
  pub honest : (is_error_reply reply.0 && is_allowed last.decision) ≡ false

module _ (audit : Bool) (on : audit ≡ true) where
  -- a reply with its one row
  pub one :
      (response : Response) (e : AuditEvent)
      → e.status ≡ some (status_of response)
      → (is_error_reply response && is_allowed e.decision) ≡ false
      → Logged (response, audit_record audit e)
  one response e s d = record { earlier = []; last = e; rows = rw on refl; status = s; honest = d }

  -- every error of the result is a logged reply
  abbrev pub Logs {ℓ} : {A : Type ℓ} → Result A Reply → Type ℓ
  Logs r = (reply : Reply) → r ≡ err reply → Logged reply

  pub Logs-ok {ℓ} : {A : Type ℓ} (a : A) → Logs (ok a)
  Logs-ok a reply h = ground arith

  pub Logs-err {ℓ} : {A : Type ℓ} (r : Reply) → Logged r → Logs {A = A} (err r)
  Logs-err r l reply h = let same : r ≡ reply = ground arith in subst Logged same l

  pub Logs-bind {ℓ} :
      {A B : Type ℓ} (m : Result A Reply) (f : A → Result B Reply)
      → Logs m
      → ((a : A) → Logs (f a))
      → Logs (m >>= f)
  Logs-bind (ok a) f hm hf = hf a
  Logs-bind (err r) f hm hf = Logs-err r (hm r refl)

  pub Logs-ok_or {ℓ} : {A : Type ℓ} (o : Option A) (r : Reply) → Logged r → Logs (ok_or o r)
  Logs-ok_or none r l = Logs-err r l
  Logs-ok_or (some a) r l = Logs-ok a

  pub Logs-reject_if : (c : Bool) (r : Reply) → Logged r → Logs (reject_if c r)
  Logs-reject_if true r l = Logs-err r l
  Logs-reject_if false r l = Logs-ok tt

  pub Logs-if {ℓ} :
      {A : Type ℓ} (c : Bool) (x y : Result A Reply) → Logs x → Logs y → Logs (if c then x else y)
  Logs-if true x y hx hy = hx
  Logs-if false x y hx hy = hy

  module _ (ctx : RequestCtx) where
    pub record_failure-Logged : (f : Failure) → Logged (record_failure audit ctx f)
    unfolding record_failure record_authz_denied record_stored_unavailable
    record_failure-Logged identity_required = one _ _ refl refl
    record_failure-Logged missing = one _ _ refl refl
    record_failure-Logged store_unavailable = one _ _ refl refl
    record_failure-Logged credential_unavailable = one _ _ refl refl

    pub stored-Logged : (cause : Text) → Logged (record_stored_unavailable audit ctx cause)
    unfolding record_stored_unavailable
    stored-Logged cause = one _ _ refl refl

    pub oauth-Logged : (code cause : Text) → Logged (record_oauth_unavailable audit ctx code cause)
    unfolding record_oauth_unavailable
    oauth-Logged code cause = one _ _ refl refl

    pub authz-Logged : (why : Text) → Logged (record_authz_denied audit ctx why)
    unfolding record_authz_denied
    authz-Logged why = one _ _ refl refl

    pub not_found-Logged : Logged (record_tool_not_found audit ctx)
    unfolding record_tool_not_found
    not_found-Logged = one _ _ refl refl

    pub body_read-Logged : (host : Option Text) → Logged (record_body_read_error audit ctx host)
    unfolding record_body_read_error
    body_read-Logged host = one _ _ refl refl

    pub too_large-Logged :
        (host : Option Text) → Logged (record_codex_body_too_large audit ctx host)
    unfolding record_codex_body_too_large
    too_large-Logged host = one _ _ refl refl

    pub disallowed-Logged :
        (host observed : Option Text)
        → Logged (record_response_content_type_disallowed audit ctx host observed)
    unfolding record_response_content_type_disallowed
    disallowed-Logged host observed = one _ _ refl refl

    pub exceeded-Logged :
        (host : Option Text) (observed limit : ℕ)
        → Logged (record_response_size_exceeded_buffered audit ctx host observed limit)
    unfolding record_response_size_exceeded_buffered
    exceeded-Logged host observed limit = one _ _ refl refl

    pub unread-Logged :
        (host : Option Text) (what : Text)
        → Logged (record_upstream_body_read_error audit ctx host what)
    unfolding record_upstream_body_read_error
    unread-Logged host what = one _ _ refl refl

    pub upstream_error-Logged :
        (target : ProxyTarget) (host : Option Text) (is_timeout : Bool)
        → Logged (record_upstream_error audit ctx target host is_timeout)
    unfolding record_upstream_error
    upstream_error-Logged target host true = one _ _ refl refl
    upstream_error-Logged target host false = one _ _ refl refl

    -- rows before the last one
    pub after-Logged :
        (response : Response) (rows tail : List AuditEvent)
        → Logged (response, tail)
        → Logged (response, rows ++ tail)
    after-Logged response rows tail l = record {
      earlier = rows ++ l.earlier;
      last = l.last;
      rows = ap (λ t. rows ++ t) l.rows ∙ sym (append_assoc rows l.earlier (l.last ∷ []));
      status = l.status;
      honest = l.honest;
    }

    pub success-Logged :
        (target : ProxyTarget) (host : Option Text) (status : ℕ) (response : Response)
        → is_error_reply response ≡ false
        → status_of response ≡ status
        → Logged (response, record_proxy_request_success audit ctx target host status)
    unfolding record_proxy_request_success
    success-Logged target host status response real s =
        one response _ (ap some (sym s)) (rw real refl)
