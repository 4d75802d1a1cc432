-- ===== src/Admin/SelfService.antt =====
-- What an agent does with itself: `get_agent_status`, `rotate_agent`, `deregister_agent` and
-- `list_tools_for_agent` of src/admin/service.rs.
use agent_locksmith.Prelude.{
  ℕ, Bool, false, Option, none, some, List, keep, map, Result, ok, err, is_ok,
}
use agent_locksmith.Text.{Text, codes}
use agent_locksmith.Audit.{AuditEvent, default_event, operator, security}
use agent_locksmith.Agent.{AgentRecord, AgentIdentity, allows_tool}
use agent_locksmith.Agent.Table.{
  Agents, RepoError, Rotation, get_active_by_public_id, rotate_read, rotate_commit, revoke,
}
use agent_locksmith.Registration.{EgressMode, direct, proxied}
use agent_locksmith.Proxy.Target.{ToolConfig}
use agent_locksmith.Admin.{
  Admin, AdminState, AdminError, not_found, World, Call, from_repo, write_audit, decided,
  error_details, as_admin, stored,
}
use agent_locksmith.Admin.Register.{agent_token}

pub record AgentStatusOutput : Type 0 where
  pub public_id : Text
  pub name : Text
  pub description : Option Text
  pub allowlist : Option (List Text)
  pub denylist : Option (List Text)
  pub registered_at : ℕ
  pub last_used_at : Option ℕ
  pub expires_at : Option ℕ
  pub grants_reviewed : Bool

abbrev pub status_output : AgentRecord → AgentStatusOutput
status_output r = record {
  public_id = r.public_id;
  name = r.name;
  description = r.description;
  allowlist = r.tool_allowlist;
  denylist = r.tool_denylist;
  registered_at = r.registered_at;
  last_used_at = r.last_used_at;
  expires_at = r.expires_at;
  grants_reviewed = r.grants_reviewed;
}

-- the row that was read, or that there is none
abbrev pub must_exist :
    Admin → Result (Option AgentRecord) RepoError → Result AgentRecord AdminError
must_exist a (ok (some r)) = ok r
must_exist a (ok none) = err not_found
must_exist a (err e) = err (from_repo a e)

abbrev pub map_ok {ℓ κ μ} :
    {A : Type ℓ} {B : Type κ} {E : Type μ} → (A → B) → Result A E → Result B E
map_ok f (ok x) = ok (f x)
map_ok f (err e) = err e

pub record RotateOutput : Type 0 where
  pub public_id : Text
  pub token : Text

-- a tool of the configuration, as the listings show it
pub record ToolInfo : Type 0 where
  pub name : Text
  pub description : Text
  pub egress : Text
  pub credential_present : Bool
  pub activation : Text
  pub credential_readiness : Text

abbrev pub egress_name : EgressMode → Text
egress_name direct = codes "direct"
egress_name proxied = codes "proxied"

abbrev pub tool_info : Bool → ToolConfig → ToolInfo
tool_info present t = record {
  name = t.name;
  description = t.description;
  egress = egress_name t.egress;
  credential_present = present;
  activation = codes "configuration_only";
  credential_readiness = codes "not_checked";
}

abbrev pub rotate_output : AgentIdentity → Agents × Text → RotateOutput
rotate_output agent (db, secret) = record {
  public_id = agent.public_id;
  token = agent_token agent.public_id secret;
}

module _ (a : Admin) (w : World) (agent : AgentIdentity) where
  unfoldable pub get_agent_status : AdminState → Result AgentStatusOutput AdminError
  get_agent_status s =
      map_ok status_output (must_exist a (get_active_by_public_id s.agents agent.public_id))

  abbrev pub own_row {ℓ} : {A : Type ℓ} → Text → Result A RepoError → AuditEvent
  own_row event result = record default_event {
    ts_ms = w.clock_ms;
    event_class = operator;
    event = event;
    agent_public_id = some agent.public_id;
    decision = decided result;
    details = error_details a result;
  }

  abbrev pub rotate_done : AdminState → Result (Agents × Text) RepoError → Call RotateOutput
  rotate_done s result = (
    map_ok (rotate_output agent) (as_admin a result),
    write_audit a (own_row (codes "agent_rotate") result)
        (record s { agents = stored (λ (r : Agents × Text). r.0) result s.agents }),
  )

  -- the read of the current row (0), then the update (1)
  abbrev pub rotate_from : AdminState → Result Rotation RepoError → Call RotateOutput
  rotate_from s (err e) = rotate_done s (err e)
  rotate_from s (ok r) = let s = w.others 1 s in rotate_done s (rotate_commit s.agents r)

  unfoldable pub rotate_agent : AdminState → Text → Call RotateOutput
  rotate_agent s current_secret =
      let s = w.others 0 s in
      rotate_from s (rotate_read a.argon2 s.agents agent.public_id current_secret w.issued)

  abbrev pub deregister_done : AdminState → Result Agents RepoError → Call (Unit {0})
  deregister_done s result = (
    map_ok (λ db. tt) (as_admin a result),
    write_audit a (record (own_row (codes "agent_deregister") result) { event_class = security })
        (record s { agents = stored (λ (db : Agents). db) result s.agents }),
  )

  unfoldable pub deregister_agent : AdminState → Call (Unit {0})
  deregister_agent s =
      let s = w.others 0 s in deregister_done s (revoke s.agents agent.public_id (w.clock 0))

  -- the tools of the configuration that the agent's lists allow
  unfoldable pub list_tools_for_agent : List ToolInfo
  list_tools_for_agent =
      map (tool_info false) (keep (λ (t : ToolConfig). is_ok (allows_tool agent t.name)) a.tools)
