-- ===== src/Auth/Bearer.antt =====
-- `BearerAuthenticator` of src/auth_v2/agent.rs. The decoy verifications have no effect but the
-- time they take, so they are left out. `now` and `now_ms` are the two clocks.
pub mod Laws
pub mod Refusal
use agent_locksmith.Prelude.{
  ℕ, Bool, true, false, Option, none, some, List, [], ◌∷◌, Result, ok, err, is_some_and, ltb,
  if◌then◌else◌,
}
use agent_locksmith.Text.{Text, codes, strip_prefix}
use agent_locksmith.Audit.{AuditEvent, default_event, security, denied, reason}
use agent_locksmith.Token.{
  Base64, StructuredToken, TokenNamespace, agent, operator, bootstrap, ParseError, parse,
}
use agent_locksmith.Agent.{AgentRecord, AgentIdentity, identity_of}
use agent_locksmith.Agent.Table.{
  Argon2, Agents, RepoError, get_active_by_public_id, touch_last_used,
}
use agent_locksmith.Auth.{AuthError, missing_credential, invalid_credential, expired, backend}

-- The result, the table after it, and the audit rows it wrote.
pub record Outcome : Type 0 where
  pub result : Result AgentIdentity AuthError
  pub db : Agents
  pub events : List AuditEvent

-- The authenticator and its clocks: whether it has an audit repository.
pub record Bearer : Type 0 where
  pub base64 : Base64
  pub argon2 : Argon2
  pub audit : Bool
  pub now : ℕ
  pub now_ms : ℕ

abbrev pub audit_failure : Bearer → Option Text → Text → List AuditEvent
audit_failure b public_id why =
    if b.audit
    then record default_event {
      ts_ms = b.now_ms;
      event_class = security;
      event = codes "auth_failure";
      agent_public_id = public_id;
      decision = denied;
      auth_method = some (codes "bearer");
      details = reason why;
    }
      ∷ []
    else []

abbrev pub fails : Bearer → Agents → AuthError → Option Text → Text → Outcome
fails b db e public_id why = record {
  result = err e;
  db = db;
  events = audit_failure b public_id why;
}

-- the best-effort `last_used_at`
abbrev pub touched : Bearer → Agents → Text → Agents
touched b db public_id = elim (touch_last_used db public_id b.now) [ ok db' ↦ db' | err e ↦ db ]

abbrev pub verified : Bearer → Agents → AgentRecord → Option Bool → Outcome
verified b db r (some true) = record {
  result = ok (identity_of r);
  db = touched b db r.public_id;
  events = [];
}
verified b db r (some false) =
    fails b db invalid_credential (some r.public_id) (codes "secret_mismatch")
verified b db r none = record { result = err backend; db = db; events = [] }

unfoldable pub resolve_row : Bearer → Agents → Text → Option AgentRecord → Outcome
resolve_row b db secret none = fails b db invalid_credential none (codes "unknown_public_id")
resolve_row b db secret (some r) =
    if is_some_and r.expires_at (λ e. ltb e b.now)
    then fails b db expired (some r.public_id) (codes "expired")
    else verified b db r (b.argon2.verify r.secret_hash secret)

unfoldable pub resolve_read :
    Bearer → Agents → Text → Result (Option AgentRecord) RepoError → Outcome
resolve_read b db secret (err e) = record { result = err backend; db = db; events = [] }
resolve_read b db secret (ok row) = resolve_row b db secret row

unfoldable pub resolve : Bearer → Agents → Text → Text → Outcome
resolve b db public_id secret = resolve_read b db secret (get_active_by_public_id db public_id)

abbrev pub is_agent : TokenNamespace → Bool
is_agent agent = true
is_agent operator = false
is_agent bootstrap = false

abbrev pub with_token : Bearer → Agents → StructuredToken → Outcome
with_token b db t =
    if is_agent t.namespace
    then resolve b db t.public_id t.secret
    else fails b db invalid_credential (some t.public_id) (codes "wrong_namespace")

unfoldable pub with_parsed : Bearer → Agents → Result StructuredToken ParseError → Outcome
with_parsed b db (ok t) = with_token b db t
with_parsed b db (err e) = fails b db invalid_credential none (codes "malformed_token")

unfoldable pub with_header : Bearer → Agents → Option Text → Outcome
with_header b db none = fails b db missing_credential none (codes "missing_credential")
with_header b db (some raw) = with_parsed b db (parse b.base64 raw)

unfoldable pub authenticate_bearer : Bearer → Agents → Text → Outcome
authenticate_bearer b db header = with_header b db (strip_prefix (codes "Bearer ") header)
