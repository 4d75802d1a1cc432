-- ===== src/Agent.antt =====
-- Agents: the record of src/repo/agent.rs, the identity and its tool lists of
-- src/auth_v2/agent.rs. The children have the table, the two authenticators and their proofs.
pub mod Acl
pub mod Table
use agent_locksmith.Prelude.{
  ℕ, Bool, true, false, not, Option, none, some, List, [], Result, ok, err, is_some_and, unwrap_or,
  if◌then◌else◌,
}
use agent_locksmith.Text.{Text, codes, member}

pub record AgentRecord : Type 0 where
  pub id : ℕ
  pub public_id : Text
  pub name : Text
  pub description : Option Text
  pub secret_hash : Text
  pub tool_allowlist : Option (List Text)
  pub grants_reviewed : Bool
  pub tool_denylist : Option (List Text)
  pub metadata : Option Text
  pub cert_identity : Option Text
  pub registered_at : ℕ
  pub last_used_at : Option ℕ
  pub expires_at : Option ℕ
  pub revoked_at : Option ℕ

abbrev pub effective_allowlist : AgentRecord → Option (List Text)
effective_allowlist r = some (if r.grants_reviewed then unwrap_or r.tool_allowlist [] else [])

pub record AgentIdentity : Type 0 where
  pub id : ℕ
  pub public_id : Text
  pub name : Text
  pub tool_allowlist : Option (List Text)
  pub tool_denylist : Option (List Text)

-- The identity that both authenticators build from the row.
abbrev pub identity_of : AgentRecord → AgentIdentity
identity_of r = record {
  id = r.id;
  public_id = r.public_id;
  name = r.name;
  tool_allowlist = effective_allowlist r;
  tool_denylist = r.tool_denylist;
}

-- `AgentIdentity::allows_tool`
pub data Denial : Type 0 where
  in_denylist not_in_allowlist : Denial

unfoldable pub allows_tool : AgentIdentity → Text → Result (Unit {0}) Denial
allows_tool identity tool =
    if is_some_and identity.tool_denylist (λ deny. member tool deny)
    then err in_denylist
    else if not (is_some_and identity.tool_allowlist (λ allow. member tool allow))
    then err not_in_allowlist
    else ok tt
