-- ===== src/Admin/Operator.antt =====
-- What an operator does: the operator methods of src/admin/service.rs, with the ordered listings of the
-- two repositories.
use agent_locksmith.Prelude.{
  ℕ, Bool, false, ◌||◌, not, Option, none, some, List, [], ◌∷◌, ◌++◌, keep, map, order_desc, Result,
  ok, err, ◌>>◌, is_some, unwrap_or,
}
use agent_locksmith.Text.{Text, codes}
use agent_locksmith.Audit.{
  AuditEvent, default_event, operator, security, Detail, Details, text, null, scope,
}
use agent_locksmith.Agent.{AgentRecord}
use agent_locksmith.Agent.Table.{
  Agents, NewAgent, PolicyUpdate, RepoError, running, get_active_by_public_id, get_by_name,
  create_reviewed, update_policy_reviewed, set_cert_identity, revoke,
}
use agent_locksmith.Auth.Operator.{OperatorIdentity}
use agent_locksmith.Bootstrap.{
  Tokens, BootstrapScope, BootstrapTokenRecord, mint_reviewed, revoke_token,
}
use agent_locksmith.Bootstrap
use agent_locksmith.Proxy.Target.{ToolConfig, ToolAuthConfig, looks_present}
use agent_locksmith.Admin.{
  Admin, AdminState, AdminError, World, Call, from_repo, audit_for_operator, decided, error_details,
  as_admin, stored,
}
use agent_locksmith.Admin.Register.{RegisterOutput, agent_token}
use agent_locksmith.Admin.SelfService.{map_ok, must_exist, ToolInfo, tool_info}

-- `AgentRepository::list` and `BootstrapTokenRepository::list`
unfoldable pub list_rows : Agents → Bool → Result (List AgentRecord) RepoError
list_rows db include_revoked = do
  running db
  ok (
      order_desc (λ (r : AgentRecord). r.registered_at)
        (keep (λ r. include_revoked || not (is_some r.revoked_at)) db.rows))

unfoldable pub list_tokens : Tokens → Result (List BootstrapTokenRecord) RepoError
list_tokens db = do
  Bootstrap.running db
  ok (order_desc (λ (r : BootstrapTokenRecord). r.created_at) db.rows)

abbrev pub null_or_text : Option Text → Detail
null_or_text none = null
null_or_text (some t) = text t

abbrev pub error_or_null {ℓ} : {A : Type ℓ} → Admin → Result A RepoError → Detail
error_or_null a (ok x) = null
error_or_null a (err e) = text (a.show e)

-- the table of bootstrap tokens that a statement left
abbrev pub stored_tokens {ℓ} : {A : Type ℓ} → (A → Tokens) → Result A RepoError → Tokens → Tokens
stored_tokens f (ok x) db = f x
stored_tokens f (err e) db = db

abbrev pub by_name :
    Admin
    → AdminState
    → Text
    → Result (Option AgentRecord) RepoError
    → Result AgentRecord AdminError
by_name a s key (err e) = err (from_repo a e)
by_name a s key (ok (some r)) = ok r
by_name a s key (ok none) = must_exist a (get_by_name s.agents key)

unfoldable pub list_agents : Admin → AdminState → Bool → Result (List AgentRecord) AdminError
list_agents a s include_revoked = as_admin a (list_rows s.agents include_revoked)

-- first as the public id of an active agent, then as a name
unfoldable pub get_agent : Admin → AdminState → Text → Result AgentRecord AdminError
get_agent a s key = by_name a s key (get_active_by_public_id s.agents key)

unfoldable pub list_bootstrap_tokens :
    Admin → AdminState → Result (List BootstrapTokenRecord) AdminError
list_bootstrap_tokens a s = as_admin a (list_tokens s.tokens)

abbrev pub present_as : Admin → Text → Option ToolAuthConfig → Bool
present_as a name none = false
present_as a name (some auth) = elim a.resolved [
  | none ↦ looks_present auth.value
  | some resolved ↦ resolved name
]

unfoldable pub credential_present : Admin → ToolConfig → Bool
credential_present a t = present_as a t.name t.auth

unfoldable pub list_tools_for_operator : Admin → List ToolInfo
list_tools_for_operator a =
    map (λ t. tool_info (credential_present a t || not (is_some t.auth)) t) a.tools

pub record MintBootstrapInput : Type 0 where
  pub tool_allowlist : Option (List Text)
  pub expires_at : Option ℕ
  pub single_use : Bool

pub record MintBootstrapOutput : Type 0 where
  pub public_id : Text
  pub token : Text
  pub scope : BootstrapScope

abbrev pub minted_scope : MintBootstrapInput → BootstrapScope
minted_scope input = record {
  tool_allowlist = some (unwrap_or input.tool_allowlist []);
  expires_at = input.expires_at;
  single_use = input.single_use;
}

abbrev pub scope_detail : BootstrapScope → Detail
scope_detail b = scope b.tool_allowlist b.expires_at b.single_use

abbrev pub closed_input : NewAgent → NewAgent
closed_input input = record input { allowlist = some (unwrap_or input.allowlist []) }

-- `json!({ "error": …, "name": … })` of a failed creation
abbrev pub create_details {ℓ} : {A : Type ℓ} → Admin → Text → Result A RepoError → Option Details
create_details a name (ok x) = none
create_details a name (err e) =
    some ((codes "error", text (a.show e)) ∷ (codes "name", text name) ∷ [])

abbrev pub mint_details {ℓ} :
    {A : Type ℓ} → Admin → BootstrapScope → Result (A × Text × Text) RepoError → Details
mint_details a b (ok (db, pid, secret)) =
    (codes "bootstrap_public_id", text pid) ∷ (codes "scope", scope_detail b) ∷ []
mint_details a b (err e) = (codes "error", text (a.show e)) ∷ []

-- the public id of a created agent
abbrev pub created_id {ℓ} : {A : Type ℓ} → Result (A × Text × Text) RepoError → Option Text
created_id (ok (db, pid, secret)) = some pid
created_id (err e) = none

abbrev pub created_output : Option (List Text) → Agents × Text × Text → RegisterOutput
created_output allowlist (db, pid, secret) = record {
  public_id = pid;
  token = agent_token pid secret;
  allowlist = allowlist;
}

abbrev pub minted_output : BootstrapScope → Tokens × Text × Text → MintBootstrapOutput
minted_output b (db, pid, secret) = record {
  public_id = pid;
  token = codes "lkbt_" ++ pid ++ b'.' ∷ secret;
  scope = b;
}

module _ (a : Admin) (w : World) (op : OperatorIdentity) where
  -- the audit row of a method, without its own fields
  abbrev pub operator_event {ℓ} : {A : Type ℓ} → Text → Result A RepoError → AuditEvent
  operator_event event result = record default_event {
    ts_ms = w.clock_ms;
    event_class = operator;
    event = event;
    decision = decided result;
    details = error_details a result;
  }

  abbrev pub create_done :
      AdminState → NewAgent → Result (Agents × Text × Text) RepoError → Call RegisterOutput
  create_done s input result = (
    map_ok (created_output input.allowlist) (as_admin a result),
    audit_for_operator a op
        (record (operator_event (codes "agent_create") result) {
          agent_public_id = created_id result;
          details = create_details a input.name result;
        })
        (record s { agents = stored (λ (r : Agents × Text × Text). r.0) result s.agents }),
  )

  unfoldable pub create_agent_as_operator : AdminState → NewAgent → Call RegisterOutput
  create_agent_as_operator s input =
      let s = w.others 0 s in
      create_done s (closed_input input) (
        create_reviewed a.argon2 s.agents s.registrations (closed_input input) w.issued (w.clock 0))

  -- a write to the row of one agent
  abbrev pub agent_done : AdminState → AuditEvent → Result Agents RepoError → Call (Unit {0})
  agent_done s event result = (
    map_ok (λ db. tt) (as_admin a result),
    audit_for_operator a op event
        (record s { agents = stored (λ (db : Agents). db) result s.agents }),
  )

  abbrev pub agent_event : Text → Text → Result Agents RepoError → AuditEvent
  agent_event event public_id result = record (operator_event event result) {
    agent_public_id = some public_id;
  }

  abbrev pub modify_done : AdminState → Text → Result Agents RepoError → Call (Unit {0})
  modify_done s public_id result =
      agent_done s (agent_event (codes "agent_modify") public_id result) result

  unfoldable pub modify_agent : AdminState → Text → PolicyUpdate → Call (Unit {0})
  modify_agent s public_id input =
      let s = w.others 0 s in
      modify_done s public_id (update_policy_reviewed s.agents s.registrations public_id input)

  abbrev pub cert_done : AdminState → Text → Option Text → Result Agents RepoError → Call (Unit {0})
  cert_done s public_id cert result =
      agent_done s
        (record (agent_event (codes "agent_set_cert_identity") public_id result) {
          details = some (
              (codes "cert_identity", null_or_text cert)
              ∷ (codes "error", error_or_null a result)
              ∷ []);
        })
        result

  unfoldable pub set_agent_cert_identity : AdminState → Text → Option Text → Call (Unit {0})
  set_agent_cert_identity s public_id cert =
      let s = w.others 0 s in cert_done s public_id cert (set_cert_identity s.agents public_id cert)

  abbrev pub revoke_done : AdminState → Text → Result Agents RepoError → Call (Unit {0})
  revoke_done s public_id result =
      agent_done s
        (record (agent_event (codes "agent_revoke") public_id result) { event_class = security })
        result

  unfoldable pub revoke_agent : AdminState → Text → Call (Unit {0})
  revoke_agent s public_id =
      let s = w.others 0 s in revoke_done s public_id (revoke s.agents public_id (w.clock 0))

  abbrev pub mint_done :
      AdminState
      → BootstrapScope
      → Result (Tokens × Text × Text) RepoError
      → Call MintBootstrapOutput
  mint_done s b result = (
    map_ok (minted_output b) (as_admin a result),
    audit_for_operator a op
        (record (operator_event (codes "bootstrap_mint") result) {
          details = some (mint_details a b result);
        })
        (record s { tokens = stored_tokens (λ (r : Tokens × Text × Text). r.0) result s.tokens }),
  )

  unfoldable pub mint_bootstrap_token : AdminState → MintBootstrapInput → Call MintBootstrapOutput
  mint_bootstrap_token s input =
      let s = w.others 0 s in
      mint_done s (minted_scope input) (
        mint_reviewed a.argon2 s.tokens s.registrations (minted_scope input) op.name w.issued
          (w.clock 0))

  abbrev pub token_done : AdminState → Text → Result Tokens RepoError → Call (Unit {0})
  token_done s public_id result = (
    map_ok (λ db. tt) (as_admin a result),
    audit_for_operator a op
        (record (operator_event (codes "bootstrap_revoke") result) {
          event_class = security;
          details = some (
              (codes "bootstrap_public_id", text public_id)
              ∷ (codes "error", error_or_null a result)
              ∷ []);
        })
        (record s { tokens = stored_tokens (λ (db : Tokens). db) result s.tokens }),
  )

  unfoldable pub revoke_bootstrap_token : AdminState → Text → Call (Unit {0})
  revoke_bootstrap_token s public_id =
      let s = w.others 0 s in token_done s public_id (revoke_token s.tokens public_id (w.clock 0))
