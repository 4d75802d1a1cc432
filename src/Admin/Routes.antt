-- ===== src/Admin/Routes.antt =====
-- The admin routes of src/admin/uds.rs over the admin service: the handlers of `/admin/agent` and those
-- of `/admin/operator` for agents, bootstrap tokens, tools and the audit log, behind their middlewares.
-- The routes for registrations, OAuth sessions, account selections and the operational log are left
-- out. A request is given as its route with the decoded path and body.
use agent_locksmith.Prelude.{
  ℕ, Bool, Option, none, some, List, ◌++◌, map, Result, ok, err, unwrap_or, if◌then◌else◌,
}
use agent_locksmith.Text.{Text, codes, ◌==◌}
use agent_locksmith.Text.Utf8.{Bytes}
use agent_locksmith.Audit.{
  AuditEvent, EventClass, proxy, operator, security, Decision, allowed, denied, error,
}
use agent_locksmith.Audit.Store.{AuditFilter, AuditPage, query}
use agent_locksmith.Agent.{AgentRecord, AgentIdentity}
use agent_locksmith.Agent.Table.{NewAgent, PolicyUpdate}
use agent_locksmith.Auth.{AuthError, status, code}
use agent_locksmith.Auth.Bearer.{Bearer}
use agent_locksmith.Auth.Operator.{
  OperatorIdentity, OperatorAuthenticator, OperatorMtlsContext, OperatorVerdict, pass, refuse,
  agent_auth_middleware, operator_auth_middleware,
}
use agent_locksmith.Bootstrap.{BootstrapTokenRecord, BootstrapScope}
use agent_locksmith.Admin.{
  Admin, AdminState, AdminError, invalid_bootstrap, name_conflict, rotating, not_found,
  not_authorized, bad_grant_target, backend, World, Call,
}
use agent_locksmith.Admin.Register.{RegisterInput, RegisterOutput, register_agent}
use agent_locksmith.Admin.SelfService.{
  AgentStatusOutput, RotateOutput, ToolInfo, get_agent_status, rotate_agent, deregister_agent,
  list_tools_for_agent,
}
use agent_locksmith.Admin.Operator.{
  MintBootstrapInput, MintBootstrapOutput, list_agents, get_agent, list_bootstrap_tokens,
  list_tools_for_operator, create_agent_as_operator, modify_agent, set_agent_cert_identity,
  revoke_agent, mint_bootstrap_token, revoke_bootstrap_token,
}

-- the JSON objects of the listings: no row shows the hash of its secret
pub record AgentView : Type 0 where
  pub public_id : Text
  pub name : Text
  pub description : Option Text
  pub tool_allowlist : Option (List Text)
  pub tool_denylist : Option (List Text)
  pub registered_at : ℕ
  pub last_used_at : Option ℕ
  pub expires_at : Option ℕ
  pub grants_reviewed : Bool
  pub revoked_at : Option ℕ
  pub cert_identity : Option Text

abbrev pub agent_view : AgentRecord → AgentView
agent_view r = record {
  public_id = r.public_id;
  name = r.name;
  description = r.description;
  tool_allowlist = r.tool_allowlist;
  tool_denylist = r.tool_denylist;
  registered_at = r.registered_at;
  last_used_at = r.last_used_at;
  expires_at = r.expires_at;
  grants_reviewed = r.grants_reviewed;
  revoked_at = r.revoked_at;
  cert_identity = r.cert_identity;
}

pub record TokenView : Type 0 where
  pub public_id : Text
  pub scope : BootstrapScope
  pub created_by : Text
  pub created_at : ℕ
  pub expires_at : Option ℕ
  pub used_at : Option ℕ
  pub used_by_agent_id : Option ℕ
  pub revoked_at : Option ℕ
  pub grants_reviewed : Bool

abbrev pub token_view : BootstrapTokenRecord → TokenView
token_view r = record {
  public_id = r.public_id;
  scope = r.scope;
  created_by = r.created_by;
  created_at = r.created_at;
  expires_at = r.expires_at;
  used_at = r.used_at;
  used_by_agent_id = r.used_by_agent_id;
  revoked_at = r.revoked_at;
  grants_reviewed = r.grants_reviewed;
}

pub data Body : Type 0 where
  empty : Body
  failure : Text → Body
  registered : RegisterOutput → Body
  agent_status : AgentStatusOutput → Body
  rotated : RotateOutput → Body
  tools : List ToolInfo → Body
  agents : List AgentView → Body
  one_agent : AgentView → Body
  minted : MintBootstrapOutput → Body
  tokens : List TokenView → Body
  events : List AuditEvent → Body

pub record Response : Type 0 where
  pub status : ℕ
  pub body : Body

abbrev pub error_status : AdminError → ℕ × Text
error_status invalid_bootstrap = (401, codes "invalid_credential")
error_status name_conflict = (409, codes "agent_name_conflict")
error_status rotating = (409, codes "rotation_in_progress")
error_status not_found = (404, codes "agent_not_found")
error_status not_authorized = (403, codes "forbidden")
error_status bad_grant_target = (400, codes "grant_target_invalid")
error_status (backend m) = (500, codes "backend_error")

abbrev pub admin_err_response : AdminError → Response
admin_err_response e = record { status = (error_status e).0; body = failure (error_status e).1 }

-- 200 with a body, 204 without one, or the error
abbrev pub respond {ℓ} : {A : Type ℓ} → (A → Body) → Result A AdminError → Response
respond f (ok x) = record { status = 200; body = f x }
respond f (err e) = admin_err_response e

abbrev pub no_content : Result (Unit {0}) AdminError → Response
no_content (ok u) = record { status = 204; body = empty }
no_content (err e) = admin_err_response e

abbrev pub replies {ℓ} :
    {A : Type ℓ} → (Result A AdminError → Response) → Call A → Response × AdminState
replies f (result, s) = (f result, s)

-- the parameters of `GET /audit`, before they are parsed
pub record AuditQueryParams : Type 0 where
  pub since_ms : Option ℕ
  pub until_ms : Option ℕ
  pub agent : Option Text
  pub tool : Option Text
  pub event_class : Option Text
  pub decision : Option Text
  pub limit : Option ℕ
  pub offset : Option ℕ

abbrev pub parse_class : Option Text → Result (Option EventClass) Text
parse_class none = ok none
parse_class (some t) =
    if t == codes "proxy"
    then ok (some proxy)
    else if t == codes "operator"
    then ok (some operator)
    else if t == codes "security"
    then ok (some security)
    else err (codes "invalid_event_class")

abbrev pub parse_decision : Option Text → Result (Option Decision) Text
parse_decision none = ok none
parse_decision (some t) =
    if t == codes "allowed"
    then ok (some allowed)
    else if t == codes "denied"
    then ok (some denied)
    else if t == codes "error"
    then ok (some error)
    else err (codes "invalid_decision")

abbrev pub bad_request : Text → Response
bad_request c = record { status = 400; body = failure c }

-- `query_audit`
unfoldable pub query_audit :
    Admin → AdminState → AuditFilter → AuditPage → Result (List AuditEvent) AdminError
query_audit a s f page =
    if a.audit
    then ok (query s.log s.agents.rows f page)
    else err (backend (codes "audit_disabled"))

abbrev pub filter_of : AuditQueryParams → Option EventClass → Option Decision → AuditFilter
filter_of q c d = record {
  since_ms = q.since_ms;
  until_ms = q.until_ms;
  agent_public_id = q.agent;
  tool = q.tool;
  event_class = c;
  decision = d;
}

abbrev pub page_of : AuditQueryParams → AuditPage
page_of q = record { limit = unwrap_or q.limit 100; offset = unwrap_or q.offset 0 }

abbrev pub audit_with :
    Admin
    → AdminState
    → AuditQueryParams
    → Result (Option EventClass) Text
    → Result (Option Decision) Text
    → Response
audit_with a s q (err c) d = bad_request c
audit_with a s q (ok c) (err e) = bad_request e
audit_with a s q (ok c) (ok d) = respond events (query_audit a s (filter_of q c d) (page_of q))

unfoldable pub op_query_audit : Admin → AdminState → AuditQueryParams → Response
op_query_audit a s q = audit_with a s q (parse_class q.event_class) (parse_decision q.decision)

-- the routes under `/admin/agent` that need the agent's token
pub data AgentRoute : Type 0 where
  get_status get_tools post_deregister : AgentRoute
  post_rotate : Text → AgentRoute

pub data OperatorRoute : Type 0 where
  get_agents : Bool → OperatorRoute
  get_one_agent : Text → OperatorRoute
  post_agent : NewAgent → OperatorRoute
  patch_agent : Text → PolicyUpdate → OperatorRoute
  post_revoke : Text → OperatorRoute
  patch_cert_identity : Text → Option Text → OperatorRoute
  get_bootstrap : OperatorRoute
  post_bootstrap : MintBootstrapInput → OperatorRoute
  post_revoke_bootstrap : Text → OperatorRoute
  get_tools_legacy : OperatorRoute
  get_audit : AuditQueryParams → OperatorRoute

pub data AdminRoute : Type 0 where
  register : RegisterInput → AdminRoute
  agent_route : AgentRoute → AdminRoute
  operator_route : OperatorRoute → AdminRoute

module _ (a : Admin) (w : World) where
  unfoldable pub agent_handler : AgentIdentity → AgentRoute → AdminState → Response × AdminState
  agent_handler id get_status s = (respond agent_status (get_agent_status a w id s), s)
  agent_handler id get_tools s =
      (record { status = 200; body = tools (list_tools_for_agent a w id) }, s)
  agent_handler id post_deregister s = replies no_content (deregister_agent a w id s)
  agent_handler id (post_rotate secret) s = replies (respond rotated) (rotate_agent a w id s secret)

  unfoldable pub operator_handler :
      OperatorIdentity → OperatorRoute → AdminState → Response × AdminState
  operator_handler op (get_agents revoked) s =
      (respond (λ rows. agents (map agent_view rows)) (list_agents a s revoked), s)
  operator_handler op (get_one_agent key) s =
      (respond (λ r. one_agent (agent_view r)) (get_agent a s key), s)
  operator_handler op (post_agent input) s =
      replies (respond registered) (create_agent_as_operator a w op s input)
  operator_handler op (patch_agent id u) s = replies no_content (modify_agent a w op s id u)
  operator_handler op (post_revoke id) s = replies no_content (revoke_agent a w op s id)
  operator_handler op (patch_cert_identity id cert) s =
      replies no_content (set_agent_cert_identity a w op s id cert)
  operator_handler op get_bootstrap s =
      (respond (λ rows. tokens (map token_view rows)) (list_bootstrap_tokens a s), s)
  operator_handler op (post_bootstrap input) s =
      replies (respond minted) (mint_bootstrap_token a w op s input)
  operator_handler op (post_revoke_bootstrap id) s =
      replies no_content (revoke_bootstrap_token a w op s id)
  operator_handler op get_tools_legacy s =
      (record { status = 200; body = tools (list_tools_for_operator a) }, s)
  operator_handler op (get_audit q) s = (op_query_audit a s q, s)

  abbrev pub auth_response : AuthError → Response
  auth_response e = record { status = status e; body = failure (code e) }

  abbrev pub as_agent :
      Result AgentIdentity AuthError → AgentRoute → AdminState → Response × AdminState
  as_agent (ok id) route s = agent_handler id route s
  as_agent (err e) route s = (auth_response e, s)

  abbrev pub as_operator : OperatorVerdict → OperatorRoute → AdminState → Response × AdminState
  as_operator (pass op) route s = operator_handler op route s
  as_operator (refuse n c) route s = (record { status = n; body = failure c }, s)

  -- `build_router`: the registration has no middleware, the others have theirs
  unfoldable pub serve :
      Bearer
      → Option OperatorMtlsContext
      → OperatorAuthenticator
      → Option Bytes
      → Option Text
      → AdminRoute
      → AdminState
      → Response × AdminState
  serve b ctx o peer header (register input) s =
      replies (respond registered) (register_agent a w input s)
  serve b ctx o peer header (agent_route route) s =
      let seen = agent_auth_middleware b s.agents header in
      as_agent seen.result route (record s { agents = seen.db; log = s.log ++ seen.events })
  serve b ctx o peer header (operator_route route) s =
      let seen = operator_auth_middleware ctx o peer header in
      as_operator seen.0 route (record s { log = s.log ++ seen.1 })
