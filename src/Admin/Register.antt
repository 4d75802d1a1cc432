-- ===== src/Admin/Register.antt =====
-- `register_agent` of src/admin/service.rs: an agent registers itself by a bootstrap token. The
-- accesses to the stores are, in order: 0 the preview of the token's scope, 1 the new agent's row, 2
-- its read back, 3 and 4 the consumption of the token, 5 the revocation that undoes the row, and 6 the
-- diagnosis of a refusal.
pub mod Steps
pub mod Inversion
pub mod Once
pub mod Laws
pub mod Added
pub mod Undone
use agent_locksmith.Prelude.{
  ℕ, Bool, true, false, ◌&&◌, ◌||◌, not, Option, none, some, List, [], ◌∷◌, ◌++◌, Result, ok, err,
  if◌then◌else◌,
}
use agent_locksmith.Text.{Text, codes}
use agent_locksmith.Audit.{
  AuditEvent, EventClass, default_event, operator, security, allowed, denied, Detail, text, null,
}
use agent_locksmith.Token.{StructuredToken, TokenNamespace, ParseError, parse}
use agent_locksmith.Token
use agent_locksmith.Agent.{AgentRecord}
use agent_locksmith.Agent.Table.{
  Agents, NewAgent, RepoError, create_reviewed, get_active_by_public_id, revoke,
}
use agent_locksmith.Bootstrap.{
  Tokens, BootstrapScope, BootstrapStatus, Claim, preview_scope, consume_read, consume_commit,
  diagnose, same_scope,
}
use agent_locksmith.Bootstrap
use agent_locksmith.Admin.{
  Admin, AdminState, AdminError, invalid_bootstrap, name_conflict, rotating, not_found,
  not_authorized, bad_grant_target, backend, World, Call, from_repo, admin_message, write_audit,
  stored,
}

pub record RegisterInput : Type 0 where
  pub bootstrap_token : Text
  pub name : Text
  pub description : Option Text
  pub metadata : Option Text

pub record RegisterOutput : Type 0 where
  pub public_id : Text
  pub token : Text
  pub allowlist : Option (List Text)

-- `format!("lk_{}.{}", …)`
abbrev pub agent_token : Text → Text → Text
agent_token public_id secret = codes "lk_" ++ public_id ++ b'.' ∷ secret

abbrev pub new_agent : RegisterInput → BootstrapScope → NewAgent
new_agent input scope = record {
  name = input.name;
  description = input.description;
  allowlist = scope.tool_allowlist;
  denylist = none;
  metadata = input.metadata;
  expires_at = none;
}

abbrev pub is_bootstrap : TokenNamespace → Bool
is_bootstrap Token.agent = false
is_bootstrap Token.operator = false
is_bootstrap Token.bootstrap = true

abbrev pub kept_agents : Result Agents RepoError → Agents → Agents
kept_agents (ok db) old = db
kept_agents (err e) old = old

module _ (a : Admin) (w : World) (input : RegisterInput) where
  -- the best-effort revocation of the row that was just made
  unfoldable pub rolled_back : AdminState → Text → AdminError → Call RegisterOutput
  rolled_back s agent_pid e =
      let s = w.others 5 s in
      (err e, record s { agents = kept_agents (revoke s.agents agent_pid (w.clock 5)) s.agents })

  unfoldable pub consumed :
      AdminState
      → BootstrapScope
      → AgentRecord
      → Text
      → Text
      → Result (Tokens × BootstrapScope) RepoError
      → Call RegisterOutput
  consumed s scope agent agent_pid secret (err e) = rolled_back s agent_pid (from_repo a e)
  consumed s scope agent agent_pid secret (ok (tokens, scope')) =
      let s' = record s { tokens = tokens } in
      if same_scope scope' scope
      then (
        ok (record {
          public_id = agent_pid;
          token = agent_token agent.public_id secret;
          allowlist = scope.tool_allowlist;
        }),
        s',
      )
      else rolled_back s' agent_pid invalid_bootstrap

  unfoldable pub claimed :
      AdminState
      → BootstrapScope
      → AgentRecord
      → Text
      → Text
      → Result Claim RepoError
      → Call RegisterOutput
  claimed s scope agent agent_pid secret (err e) = rolled_back s agent_pid (from_repo a e)
  claimed s scope agent agent_pid secret (ok c) =
      let s = w.others 4 s in
      consumed s scope agent agent_pid secret (consume_commit s.tokens c (w.clock 4))

  unfoldable pub fetched :
      AdminState
      → StructuredToken
      → BootstrapScope
      → Text
      → Text
      → Result (Option AgentRecord) RepoError
      → Call RegisterOutput
  fetched s t scope agent_pid secret (err e) = (err (from_repo a e), s)
  fetched s t scope agent_pid secret (ok none) = (err not_found, s)
  fetched s t scope agent_pid secret (ok (some agent)) =
      let s = w.others 3 s in
      claimed s scope agent agent_pid secret
        (consume_read a.argon2 s.tokens t.public_id t.secret agent.id (w.clock 3))

  unfoldable pub created :
      AdminState
      → StructuredToken
      → BootstrapScope
      → Result (Agents × Text × Text) RepoError
      → Call RegisterOutput
  created s t scope (err e) = (err (from_repo a e), s)
  created s t scope (ok (agents, agent_pid, secret)) =
      let s = w.others 2 (record s { agents = agents }) in
      fetched s t scope agent_pid secret (get_active_by_public_id s.agents agent_pid)

  unfoldable pub previewed :
      AdminState → StructuredToken → Result BootstrapScope RepoError → Call RegisterOutput
  previewed s t (err e) = (err (from_repo a e), s)
  previewed s t (ok scope) =
      let s = w.others 1 s in
      created s t scope (
        create_reviewed a.argon2 s.agents s.registrations (new_agent input scope) w.issued
          (w.clock 1))

  unfoldable pub bootstrapped : AdminState → Result StructuredToken ParseError → Call RegisterOutput
  bootstrapped s (err e) = (err invalid_bootstrap, s)
  bootstrapped s (ok t) =
      if is_bootstrap t.namespace
      then previewed (w.others 0 s) t (preview_scope (w.others 0 s).tokens t.public_id (w.clock 0))
      else (err invalid_bootstrap, s)

  unfoldable pub register_agent_inner : AdminState → Call RegisterOutput
  register_agent_inner s = bootstrapped s (parse a.base64 input.bootstrap_token)

  -- the id of the bootstrap token, for the audit row
  abbrev pub bootstrap_id : Result StructuredToken ParseError → Option Text
  bootstrap_id (err e) = none
  bootstrap_id (ok t) = if is_bootstrap t.namespace then some t.public_id else none

  abbrev pub is_invalid_bootstrap : AdminError → Bool
  is_invalid_bootstrap invalid_bootstrap = true
  is_invalid_bootstrap name_conflict = false
  is_invalid_bootstrap rotating = false
  is_invalid_bootstrap not_found = false
  is_invalid_bootstrap not_authorized = false
  is_invalid_bootstrap bad_grant_target = false
  is_invalid_bootstrap (backend m) = false

  abbrev pub is_spent : Result BootstrapStatus RepoError → Bool
  is_spent (ok Bootstrap.used) = true
  is_spent (ok Bootstrap.revoked) = true
  is_spent (ok Bootstrap.active) = false
  is_spent (ok Bootstrap.expired) = false
  is_spent (ok Bootstrap.unknown) = false
  is_spent (err e) = false

  abbrev pub reused : AdminState → Option Text → Bool
  reused s none = false
  reused s (some pid) = is_spent (diagnose s.tokens pid (w.clock 6))

  abbrev pub text_or_null : Option Text → Detail
  text_or_null none = null
  text_or_null (some t) = text t

  -- a refusal, as the reuse of a spent token or as a failed registration
  abbrev pub refusal_row : Bool → AdminError → Option Text → AuditEvent
  refusal_row reuse e pid = record default_event {
    ts_ms = w.clock_ms;
    event_class = if reuse then security else operator;
    event = if reuse then codes "bootstrap_reuse_attempt" else codes "agent_register";
    decision = denied;
    details = some (
        (codes "error", text (admin_message e))
        ∷ (codes "bootstrap_public_id", text_or_null pid)
        ∷ []);
  }

  abbrev pub registered_row : RegisterOutput → AuditEvent
  registered_row out = record default_event {
    ts_ms = w.clock_ms;
    event_class = operator;
    event = codes "agent_register";
    agent_public_id = some out.public_id;
    decision = allowed;
    details = some ((codes "via", text (codes "bootstrap")) ∷ []);
  }

  unfoldable pub register_audited : Option Text → Call RegisterOutput → Call RegisterOutput
  register_audited pid (ok out, s) = (ok out, write_audit a (registered_row out) s)
  register_audited pid (err e, s) =
      let s = w.others 6 s in
      let reuse = is_invalid_bootstrap e && reused s pid in
      (err e, write_audit a (refusal_row reuse e pid) s)

  unfoldable pub register_agent : AdminState → Call RegisterOutput
  register_agent s =
      register_audited (bootstrap_id (parse a.base64 input.bootstrap_token))
        (register_agent_inner s)
