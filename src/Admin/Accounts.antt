-- ===== src/Admin/Accounts.antt =====
-- The account selections of an agent: `op_set_agent_credential`, `op_set_agent_stored_credential`,
-- `op_unset_agent_credential` and `op_list_agent_credentials` of src/admin/uds.rs. Before its n-th access
-- to the stores other tasks have written `others n`, and the table of selections answers it if
-- `bindings_up n`; the two lookups of `get_agent` are one access. The
-- cache of resolved `op` references, which each write resyncs, is left out.
pub mod Laws
pub mod ReadBack
pub mod Safe
use agent_locksmith.Prelude.{
  ℕ, Bool, true, false, ◌&&◌, not, Option, none, some, List, [], ◌∷◌, keep, map, eqb, Result, ok,
  err, is_some_and, if◌then◌else◌,
}
use agent_locksmith.Text.{Text, codes, is_empty, trim, precedes}
use agent_locksmith.Text.Utf8.{Bytes, as_bytes}
use agent_locksmith.Registration.{Registration}
use agent_locksmith.Registration.Auth.{
  AuthSpec, stored_header, stored_bearer, is_oauth, oauth_session_label, stored_secret_ref,
  header_name, validate_op_reference,
}
use agent_locksmith.Registration.Catalog.{Catalog, lookup_any}
use agent_locksmith.Agent.{AgentRecord}
use agent_locksmith.Agent.Table.{RepoError, sqlx}
use agent_locksmith.Proxy.Bindings.{
  AgentCredentialOverride, set_binding, get_binding, delete_binding, usable,
}
use agent_locksmith.Secrets.{Secrets, insert_secret, tombstone_if_unreferenced}
use agent_locksmith.Secrets.Sealing.{Aes, SealingKeyError, seal}
use agent_locksmith.Admin.{Admin, AdminState, AdminError, from_repo, backend}
use agent_locksmith.Admin.Operator.{get_agent}
use agent_locksmith.Admin.Routes.{error_status}

pub record AccountState : Type 0 where
  pub admin : AdminState
  pub bindings : List AgentCredentialOverride
  pub secrets : Secrets

-- `UdsState` as far as these handlers read it: `agent_creds` is whether there is a table of selections,
-- `credential_secrets` whether there is one of sealed values; `host_url` is the `url` crate.
pub record Accounts : Type 0 where
  pub admin : Admin
  pub agent_creds : Bool
  pub credential_secrets : Bool
  pub credential_sealing_key : Option Bytes
  pub catalog : Option Catalog
  pub aes : Aes
  pub host_url : Text → Bool

pub record AccountWorld : Type 0 where
  pub others : ℕ → AccountState → AccountState
  pub clock : ℕ → ℕ
  pub bindings_up : ℕ → Bool
  pub nonce : Option Bytes
  pub random : Option Bytes

-- A reply is an error, the selection with its agent and connection, the same with the reference of a
-- sealed value, nothing, or the selections of an agent.
pub data AccountReply : Type 0 where
  failure : ℕ → Text → AccountReply
  selected : Text → Text → AuthSpec → AccountReply
  sealed : Text → Text → Text → AccountReply
  no_content : AccountReply
  overrides : Text → List (Text × AuthSpec × ℕ × ℕ) → AccountReply

abbrev pub admin_failure : AdminError → AccountReply
admin_failure e = failure (error_status e).0 (error_status e).1

abbrev pub not_wired : AccountReply
not_wired = admin_failure (backend (codes "agent_credential_overrides not wired"))

abbrev pub AccountCall : Type 0
AccountCall = AccountReply × AccountState

abbrev pub agent_ids : AccountState → List ℕ
agent_ids s = map (λ (r : AgentRecord). r.id) s.admin.agents.rows

module _ (c : Accounts) (w : AccountWorld) where
  -- what the table of selections answers at the n-th access
  abbrev pub bindings_answer {ℓ} : {A : Type ℓ} → ℕ → Result A RepoError → Result A RepoError
  bindings_answer i r = if w.bindings_up i then r else err sqlx

  unfoldable pub stored_selection :
      AccountState
      → AgentRecord
      → Text
      → AuthSpec
      → Result (List AgentCredentialOverride) RepoError
      → AccountCall
  stored_selection s agent registration spec (err e) = (admin_failure (from_repo c.admin e), s)
  stored_selection s agent registration spec (ok bindings) =
      (selected agent.public_id registration spec, record s { bindings = bindings })

  unfoldable pub set_for :
      AccountState → Text → AuthSpec → Result AgentRecord AdminError → AccountCall
  set_for s registration spec (err e) = (admin_failure e, s)
  set_for s registration spec (ok agent) =
      let s = w.others 1 s in
      stored_selection s agent registration spec (
        bindings_answer 1 (
          set_binding s.bindings s.admin.registrations (agent_ids s) agent.id registration spec
            (w.clock 1)))

  abbrev pub blank_label : AuthSpec → Bool
  blank_label spec = not (is_some_and (oauth_session_label spec) (λ l. not (is_empty (trim l))))

  unfoldable pub op_set_with :
      AccountState → Text → Text → AuthSpec → Result (Unit {0}) Text → AccountCall
  op_set_with s key registration spec (err m) = (failure 400 (codes "invalid_op_reference"), s)
  op_set_with s key registration spec (ok u) =
      if is_oauth spec && blank_label spec
      then (failure 400 (codes "oauth_session_label_required"), s)
      else if is_oauth spec && not (usable c.host_url spec)
      then (failure 400 (codes "invalid_oauth_selection"), s)
      else set_for (w.others 0 s) registration spec (get_agent c.admin (w.others 0 s).admin key)

  unfoldable pub op_set_agent_credential : AccountState → Text → Text → AuthSpec → AccountCall
  op_set_agent_credential s key registration spec =
      if c.agent_creds
      then op_set_with s key registration spec (validate_op_reference spec)
      else (not_wired, s)

  -- the selection that is there, `.ok().flatten()`
  abbrev pub present : Result (Option AuthSpec) RepoError → Option AuthSpec
  present (ok spec) = spec
  present (err e) = none

  abbrev pub old_reference : Option AuthSpec → Option Text
  old_reference none = none
  old_reference (some spec) = stored_secret_ref spec

  abbrev pub catalog_header : Option Registration → Option Text
  catalog_header none = none
  catalog_header (some r) = header_name r.auth

  abbrev pub inherited_header : Option Catalog → Text → Option Text
  inherited_header none registration = none
  inherited_header (some catalog) registration = catalog_header (lookup_any catalog registration)

  -- the header of the body, else that of the selection that is there, else that of the connection
  abbrev pub chosen_header : Option Text → Option AuthSpec → Text → Option Text
  chosen_header (some header) existing registration = some header
  chosen_header none (some spec) registration = header_name spec
  chosen_header none none registration = inherited_header c.catalog registration

  abbrev pub stored_auth : Option Text → Text → AuthSpec
  stored_auth (some header) secret_ref = stored_header header secret_ref
  stored_auth none secret_ref = stored_bearer secret_ref

  abbrev pub buried : AccountState → Result (Secrets × Bool) RepoError → AccountState
  buried s (ok (secrets, hit)) = record s { secrets = secrets }
  buried s (err e) = s

  -- `tombstone_if_unreferenced` of the replaced value, whose failure is only logged
  unfoldable pub bury_old : ℕ → AccountState → Option Text → AccountState
  bury_old i s none = s
  bury_old i s (some old) =
      let s = w.others i s in
      buried s
        (tombstone_if_unreferenced s.admin.registrations s.bindings s.secrets old (w.clock i))

  unfoldable pub sealed_selection :
      AccountState
      → AgentRecord
      → Text
      → Text
      → Option Text
      → Result (List AgentCredentialOverride) RepoError
      → AccountCall
  sealed_selection s agent registration secret_ref old (err e) =
      (admin_failure (from_repo c.admin e), s)
  sealed_selection s agent registration secret_ref old (ok bindings) = (
    sealed agent.public_id registration secret_ref,
    bury_old 4 (record s { bindings = bindings }) old,
  )

  unfoldable pub inserted :
      AccountState
      → AgentRecord
      → Text
      → Option Text
      → Option Text
      → Result (Secrets × Text) RepoError
      → AccountCall
  inserted s agent registration header old (err e) =
      (admin_failure (backend (codes "credential store insert failed: ")), s)
  inserted s agent registration header old (ok (secrets, secret_ref)) =
      let s = w.others 3 (record s { secrets = secrets }) in
      sealed_selection s agent registration secret_ref old (
        bindings_answer 3 (
          set_binding s.bindings s.admin.registrations (agent_ids s) agent.id registration
            (stored_auth header secret_ref) (w.clock 3)))

  unfoldable pub sealed_value :
      AccountState
      → AgentRecord
      → Text
      → Option Text
      → Option Text
      → Result (Bytes × Bytes) SealingKeyError
      → AccountCall
  sealed_value s agent registration header old (err e) =
      (admin_failure (backend (codes "credential seal failed: ")), s)
  sealed_value s agent registration header old (ok (value, nonce)) =
      let s = w.others 2 s in
      inserted s agent registration header old
        (insert_secret s.secrets w.random value nonce (w.clock 2))

  unfoldable pub set_stored_for :
      AccountState → Bytes → Text → Text → Option Text → Result AgentRecord AdminError → AccountCall
  set_stored_for s key registration value header (err e) = (admin_failure e, s)
  set_stored_for s key registration value header (ok agent) =
      let s = w.others 1 s in
      let existing = present (bindings_answer 1 (get_binding s.bindings agent.id registration)) in
      sealed_value s agent registration (chosen_header header existing registration)
        (old_reference existing) (seal c.aes key w.nonce (as_bytes value))

  abbrev pub unconfigured : AccountReply
  unconfigured = failure 404 (codes "credential_store_unconfigured")

  unfoldable pub with_key :
      AccountState → Text → Text → Text → Option Text → Option Bytes → AccountCall
  with_key s id registration value header none = (unconfigured, s)
  with_key s id registration value header (some key) =
      if not c.credential_secrets
      then (unconfigured, s)
      else if not c.agent_creds
      then (not_wired, s)
      else set_stored_for (w.others 0 s) key registration value header
          (get_agent c.admin (w.others 0 s).admin id)

  -- `value` and `header` are the body
  unfoldable pub op_set_agent_stored_credential :
      AccountState → Text → Text → Text → Option Text → AccountCall
  op_set_agent_stored_credential s id registration value header =
      with_key s id registration value header c.credential_sealing_key

  -- a deletion that fails ends the request
  unfoldable pub deleted : AccountState → AgentRecord → Text → Option Text → AccountCall
  deleted s agent registration old =
      let s3 = record s { bindings = (delete_binding s.bindings agent.id registration).0 } in
      if w.bindings_up 2
      then (no_content, if c.credential_secrets then bury_old 3 s3 old else s3)
      else (admin_failure (backend (codes "agent_credential_overrides.delete: ")), s)

  unfoldable pub unset_for : AccountState → Text → Result AgentRecord AdminError → AccountCall
  unset_for s registration (err e) = (admin_failure e, s)
  unset_for s registration (ok agent) =
      let s1 = w.others 1 s in
      let found = bindings_answer 1 (get_binding s1.bindings agent.id registration) in
      deleted (w.others 2 s1) agent registration (old_reference (present found))

  unfoldable pub op_unset_agent_credential : AccountState → Text → Text → AccountCall
  op_unset_agent_credential s id registration =
      if c.agent_creds
      then unset_for (w.others 0 s) registration (get_agent c.admin (w.others 0 s).admin id)
      else (not_wired, s)

  -- `list_for_agent`: `ORDER BY registration`; one unreadable row fails the listing
  abbrev pub insert_binding :
      AgentCredentialOverride → List AgentCredentialOverride → List AgentCredentialOverride
  insert_binding b [] = b ∷ []
  insert_binding b (x ∷ xs) =
      if precedes b.registration x.registration then b ∷ x ∷ xs else x ∷ insert_binding b xs

  abbrev pub order_bindings : List AgentCredentialOverride → List AgentCredentialOverride
  order_bindings [] = []
  order_bindings (b ∷ bs) = insert_binding b (order_bindings bs)

  abbrev pub view_of : AgentCredentialOverride → Option AuthSpec → Option (Text × AuthSpec × ℕ × ℕ)
  view_of b none = none
  view_of b (some spec) = some (b.registration, spec, b.created_at, b.updated_at)

  abbrev pub consed {ℓ} : {A : Type ℓ} → Option A → Option (List A) → Option (List A)
  consed none xs = none
  consed (some x) none = none
  consed (some x) (some xs) = some (x ∷ xs)

  unfoldable pub views : List AgentCredentialOverride → Option (List (Text × AuthSpec × ℕ × ℕ))
  views [] = some []
  views (b ∷ bs) = consed (view_of b b.auth_spec) (views bs)

  unfoldable pub list_for_agent :
      List AgentCredentialOverride → ℕ → Option (List (Text × AuthSpec × ℕ × ℕ))
  list_for_agent bindings agent_id =
      views (order_bindings (keep (λ b. eqb b.agent_id agent_id) bindings))

  abbrev pub listed : AgentRecord → Option (List (Text × AuthSpec × ℕ × ℕ)) → AccountReply
  listed agent none = admin_failure (backend (codes "agent_credential_overrides.list: "))
  listed agent (some rows) = overrides agent.public_id rows

  unfoldable pub list_for : AccountState → Result AgentRecord AdminError → AccountReply
  list_for s (err e) = admin_failure e
  list_for s (ok agent) =
      listed agent (if w.bindings_up 1 then list_for_agent s.bindings agent.id else none)

  unfoldable pub op_list_agent_credentials : AccountState → Text → AccountReply
  op_list_agent_credentials s id =
      if c.agent_creds then list_for s (get_agent c.admin s.admin id) else not_wired

-- the requests that write
pub data AccountRequest : Type 0 where
  set_credential : Text → Text → AuthSpec → AccountRequest
  set_stored_credential : Text → Text → Text → Option Text → AccountRequest
  unset_credential : Text → Text → AccountRequest

unfoldable pub serve_account : Accounts → AccountWorld → AccountRequest → AccountState → AccountCall
serve_account c w (set_credential id registration spec) s =
    op_set_agent_credential c w s id registration spec
serve_account c w (set_stored_credential id registration value header) s =
    op_set_agent_stored_credential c w s id registration value header
serve_account c w (unset_credential id registration) s =
    op_unset_agent_credential c w s id registration
