-- ===== src/Proxy/Admission.antt =====
-- Admission by the database: src/registrations/admission.rs and src/proxy/admission.rs. The join reads
-- the current row of the agent, the registration and the selected account in one snapshot.
pub mod Laws
use agent_locksmith.Prelude.{
  ℕ, Bool, true, false, ◌&&◌, ◌||◌, not, Option, none, some, List, [], ◌∷◌, find, keep, map, eqb,
  ltb, Result, ok, err, ◌>>=◌, ◌>>◌, reject_if, ok_or, is_ok, is_some, is_some_and, if◌then◌else◌,
}
use agent_locksmith.Text.{Text, codes, ◌==◌}
use agent_locksmith.Audit.{security, denied, reason, text}
use agent_locksmith.Registration.{Kind, Registration}
use agent_locksmith.Registration.Auth.{AuthSpec}
use agent_locksmith.Registration.Table.{Rows, order_by_name, grantable_kind, same_kind}
use agent_locksmith.Registration.Catalog.{
  Catalog, Activation, disabled, active, pending, activation,
}
use agent_locksmith.Agent.{
  AgentRecord, AgentIdentity, Denial, in_denylist, not_in_allowlist, allows_tool,
}
use agent_locksmith.Agent.Table.{Agents}
use agent_locksmith.Proxy.Target.{ProxyTarget, from_registration}
use agent_locksmith.Proxy.Bindings.{AgentCredentialOverride, is_binding}
use agent_locksmith.Proxy.Selection.{
  Failure, identity_required, missing, store_unavailable, apply_spec, as_override, record_failure,
}
use agent_locksmith.Proxy.Replies.{
  RequestCtx, Reply, error_reply, audit_record, audit_event_base, record_authz_denied,
  record_tool_not_found,
}

pub record HttpAdmission : Type 0 where
  pub registration : Registration
  pub account : Option AuthSpec
  pub agent_active : Bool
  pub grant : Result (Unit {0}) Denial

-- the tables of the database
pub record Database : Type 0 where
  pub agents : Agents
  pub registrations : Rows
  pub bindings : List AgentCredentialOverride

abbrev pub current_row : Database → AgentIdentity → Option AgentRecord
current_row db identity =
    find (λ a. eqb a.id identity.id && a.public_id == identity.public_id) db.agents.rows

abbrev pub is_active_row : ℕ → AgentRecord → Bool
is_active_row now a =
    not (is_some a.revoked_at) && not (is_some_and a.expires_at (λ t. not (ltb now t)))

-- the identity with the lists of the current row
abbrev pub refreshed : AgentIdentity → Option AgentRecord → AgentIdentity
refreshed identity none = record identity { tool_allowlist = none; tool_denylist = none }
refreshed identity (some a) = record identity {
  tool_allowlist = if a.grants_reviewed then a.tool_allowlist else none;
  tool_denylist = a.tool_denylist;
}

-- the selected account: an unreadable one is an error
abbrev pub account_of : Option AgentCredentialOverride → Result (Option AuthSpec) (Unit {0})
account_of none = ok none
account_of (some b) = elim b.auth_spec [ none ↦ err tt | some s ↦ ok (some s) ]

abbrev pub binding_of : Database → Text → Option AgentRecord → Option AgentCredentialOverride
binding_of db name none = none
binding_of db name (some a) = find (is_binding a.id name) db.bindings

unfoldable pub snapshot :
    Database → AgentIdentity → ℕ → Registration → Result HttpAdmission (Unit {0})
snapshot db identity now r = do
  let row = current_row db identity
  account ← account_of (binding_of db r.name row)
  ok (record {
    registration = r;
    account = account;
    agent_active = is_some_and row (is_active_row now);
    grant = allows_tool (refreshed identity row) r.name;
  })

abbrev pub wanted : Option Text → Registration → Bool
wanted none r = grantable_kind r.kind
wanted (some name) r = r.name == name && grantable_kind r.kind

unfoldable pub collect :
    Database → AgentIdentity → ℕ → Rows → Result (List HttpAdmission) (Unit {0})
collect db identity now [] = ok []
collect db identity now (r ∷ rows) =
    let rest = collect db identity now rows in
    do s ← snapshot db identity now r; ss ← rest; ok (s ∷ ss)

abbrev pub with_ok : Result HttpAdmission (Unit {0}) → List HttpAdmission → List HttpAdmission
with_ok (ok s) ss = s ∷ ss
with_ok (err e) ss = ss

unfoldable pub readable : Database → AgentIdentity → ℕ → Rows → List HttpAdmission
readable db identity now [] = []
readable db identity now (r ∷ rows) =
    with_ok (snapshot db identity now r) (readable db identity now rows)

unfoldable pub http_admissions :
    Database → AgentIdentity → ℕ → Option Text → Result (List HttpAdmission) (Unit {0})
http_admissions db identity now name = do
  reject_if (not db.agents.online) tt
  let rows = order_by_name (keep (wanted name) db.registrations)
  if is_some name then collect db identity now rows else ok (readable db identity now rows)

abbrev pub is_active : Activation → Bool
is_active disabled = false
is_active active = true
is_active pending = false

unfoldable pub discoverable : HttpAdmission → Kind → Catalog → Bool
discoverable s kind catalog =
    s.agent_active
    && is_ok s.grant
    && same_kind s.registration.kind kind
    && is_active (activation s.registration (some catalog))

-- `rows.pop()`
abbrev pub later : HttpAdmission → Option HttpAdmission → HttpAdmission
later s none = s
later s (some t) = t

unfoldable pub pop : List HttpAdmission → Option HttpAdmission
pop [] = none
pop (s ∷ ss) = some (later s (pop ss))

unfoldable pub denial_reason : Denial → Text
denial_reason in_denylist = codes "in_denylist"
denial_reason not_in_allowlist = codes "not_in_allowlist"

module _ (host_url : Text → Bool) (env : Text → Option Text) (audit : Bool) (ctx : RequestCtx) where
  unfoldable pub record_inactive : Reply
  record_inactive = (
    error_reply 401 (codes "auth_error") (some (codes "invalid_credential")),
    audit_record audit (record (audit_event_base ctx) {
      event_class = security;
      event = codes "authz_denied";
      status = some 401;
      decision = denied;
      details = reason (codes "agent_inactive_at_admission");
    }),
  )

  unfoldable pub unavailable : Text → Reply
  unavailable code = (
    error_reply 503 (codes "availability_error") (some code),
    audit_record audit (record (audit_event_base ctx) {
      status = some 503;
      decision = denied;
      details = some ((codes "cause", text code) ∷ []);
    }),
  )

  abbrev pub failed_as : {A : Type 0} → Result A Failure → Result A Reply
  failed_as (ok a) = ok a
  failed_as (err f) = err (record_failure audit ctx f)

  abbrev pub granted : Result (Unit {0}) Denial → Result (Unit {0}) Reply
  granted (ok u) = ok u
  granted (err d) = err (record_authz_denied audit ctx (denial_reason d))

  abbrev pub readable_rows :
      Result (List HttpAdmission) (Unit {0}) → Result (List HttpAdmission) Reply
  readable_rows (ok rows) = ok rows
  readable_rows (err e) = err (record_failure audit ctx store_unavailable)

  unfoldable pub admit : Catalog → HttpAdmission → Result ProxyTarget Reply
  unfolding record_inactive unavailable
  admit catalog row = do
    reject_if (not row.agent_active) record_inactive
    granted row.grant
    reject_if row.registration.disabled (record_tool_not_found audit ctx)
    reject_if (not (is_active (activation row.registration (some catalog))))
        (unavailable (codes "connection_not_active"))
    account ← ok_or row.account (record_failure audit ctx missing)
    target ← failed_as (apply_spec host_url env (from_registration row.registration) account)
    ok (as_override host_url env target)

  -- `target`; `creds` is whether the repository of the selections is there
  unfoldable pub admission_target :
      Database → Catalog → Bool → Option AgentIdentity → ℕ → Result ProxyTarget Reply
  admission_target db catalog creds identity now = do
    agent ← ok_or identity (record_failure audit ctx identity_required)
    reject_if (not creds) (record_failure audit ctx store_unavailable)
    rows ← readable_rows (http_admissions db agent now (some ctx.tool_name))
    row ← ok_or (pop rows) (record_tool_not_found audit ctx)
    admit catalog row
