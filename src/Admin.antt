-- ===== src/Admin.antt =====
-- The admin service: `AdminService` of src/admin/service.rs over the two repositories and the audit
-- log. The tables and the log are the state; each method returns its result and the state after it.
-- The clock, the drawn tokens and what other tasks write while a method waits are in `World`. The
-- operational log is left out.
pub mod Register
pub mod SelfService
pub mod Operator
pub mod Routes
pub mod Accounts
pub mod Audited
pub mod History
pub mod Revoke
use agent_locksmith.Prelude.{
  ℕ, Bool, true, false, Option, none, some, List, [], ◌∷◌, ◌++◌, Result, ok, err, is_some, is_ok,
  if◌then◌else◌,
}
use agent_locksmith.Text.{Text, codes, ◌==◌}
use agent_locksmith.Audit.{AuditEvent, Decision, allowed, denied, Details, text}
use agent_locksmith.Token.{Base64}
use agent_locksmith.Registration.Table.{Rows}
use agent_locksmith.Agent.Table.{
  Argon2, Agents, RepoError, Issued, agent_name_conflict, rotation_in_progress, agent_not_found,
  invalid_credential, hash, sqlx, invalid_account_binding, invalid_grant_target, json, rng,
}
use agent_locksmith.Auth.Operator.{OperatorIdentity}
use agent_locksmith.Bootstrap.{Tokens}
use agent_locksmith.Proxy.Target.{ToolConfig}

pub data AdminError : Type 0 where
  invalid_bootstrap name_conflict rotating not_found not_authorized bad_grant_target : AdminError
  backend : Text → AdminError

pub record AdminState : Type 0 where
  pub agents : Agents
  pub tokens : Tokens
  pub registrations : Rows
  pub log : List AuditEvent

-- `AdminService` without its stores: `audit` is whether there is an audit repository, `show` the text
-- of a repository error, with the texts of the crates in it; `resolved` is the snapshot of resolved
-- credentials.
pub record Admin : Type 0 where
  pub base64 : Base64
  pub argon2 : Argon2
  pub audit : Bool
  pub show : RepoError → Text
  pub tools : List ToolConfig
  pub resolved : Option (Text → Bool)

-- One call: before its n-th access to the stores other tasks have written `others n`, and the clocks
-- show `clock n` and `clock_ms`; `issued` is what the call draws at random.
pub record World : Type 0 where
  pub others : ℕ → AdminState → AdminState
  pub clock : ℕ → ℕ
  pub clock_ms : ℕ
  pub issued : Issued

abbrev pub Call {ℓ} : Type ℓ → Type ℓ
Call A = Result A AdminError × AdminState

-- `From<RepoError>`
abbrev pub from_repo : Admin → RepoError → AdminError
from_repo a (agent_name_conflict name) = name_conflict
from_repo a (rotation_in_progress id) = rotating
from_repo a agent_not_found = not_found
from_repo a invalid_credential = invalid_bootstrap
from_repo a invalid_grant_target = bad_grant_target
from_repo a hash = backend (a.show hash)
from_repo a sqlx = backend (a.show sqlx)
from_repo a invalid_account_binding = backend (a.show invalid_account_binding)
from_repo a json = backend (a.show json)
from_repo a rng = backend (a.show rng)

-- the `Display` text
abbrev pub admin_message : AdminError → Text
admin_message invalid_bootstrap = codes "invalid bootstrap token"
admin_message name_conflict = codes "agent name conflict"
admin_message rotating = codes "rotation in progress"
admin_message not_found = codes "agent not found"
admin_message not_authorized = codes "not authorized"
admin_message bad_grant_target =
    codes "grant_target_invalid: select a currently configured HTTP tool or model"
admin_message (backend m) = codes "backend: " ++ m

-- the method that `audit` fills in
abbrev pub default_method : AuditEvent → Text
default_method e =
    if is_some e.operator_name
    then codes "operator"
    else if e.event == codes "agent_register"
    then codes "bootstrap"
    else codes "agent"

abbrev pub filled : AuditEvent → AuditEvent
filled e = if is_some e.auth_method then e else record e { auth_method = some (default_method e) }

unfoldable pub write_audit : Admin → AuditEvent → AdminState → AdminState
write_audit a e s = record s { log = if a.audit then s.log ++ filled e ∷ [] else s.log }

abbrev pub or_text : Option Text → Text → Option Text
or_text none d = some d
or_text (some t) d = some t

-- `unwrap_or("operator")`
abbrev pub transport : Option Text → Text
transport none = codes "operator"
transport (some m) = m

abbrev pub for_operator : OperatorIdentity → AuditEvent → AuditEvent
for_operator op e = record e {
  operator_name = or_text e.operator_name op.name;
  auth_method = or_text e.auth_method (transport op.auth_method);
}

abbrev pub audit_for_operator : Admin → OperatorIdentity → AuditEvent → AdminState → AdminState
audit_for_operator a op e s = write_audit a (for_operator op e) s

abbrev pub decided {ℓ κ} : {A : Type ℓ} {E : Type κ} → Result A E → Decision
decided (ok a) = allowed
decided (err e) = denied

-- `json!({ "error": e.to_string() })` of an error, and no details of a success
abbrev pub error_details {ℓ} : {A : Type ℓ} → Admin → Result A RepoError → Option Details
error_details a (ok x) = none
error_details a (err e) = some ((codes "error", text (a.show e)) ∷ [])

abbrev pub as_admin {ℓ} : {A : Type ℓ} → Admin → Result A RepoError → Result A AdminError
as_admin a (ok x) = ok x
as_admin a (err e) = err (from_repo a e)

-- the table that a statement left: the old one on an error
abbrev pub stored {ℓ} : {A : Type ℓ} → (A → Agents) → Result A RepoError → Agents → Agents
stored f (ok x) db = f x
stored f (err e) db = db
