-- ===== src/Admin/Audited.antt =====
-- The audit rows of the admin methods: about src/admin/service.rs and the routes of src/admin/uds.rs.
use agent_locksmith.Prelude.{
  ℕ, ◌≡◌, refl, sym, ap, ◌∙◌, Bool, true, false, Option, List, [], ◌∷◌, ◌++◌, Result, ok, err,
  is_some, is_ok, ltb, arith, if◌then◌else◌,
}
use agent_locksmith.Text.{Text}
use agent_locksmith.Audit.{AuditEvent, allowed, denied}
use agent_locksmith.Agent.{AgentIdentity}
use agent_locksmith.Agent.Table.{
  Agents, RepoError, Rotation, rotate_commit, revoke, create_reviewed, update_policy_reviewed,
  set_cert_identity,
}
use agent_locksmith.Bootstrap.{Tokens, mint_reviewed, revoke_token}
use agent_locksmith.Auth.Operator.{OperatorIdentity}
use agent_locksmith.Admin.{
  Admin, AdminState, AdminError, invalid_bootstrap, name_conflict, rotating, not_found,
  not_authorized, bad_grant_target, backend, World, Call, filled, write_audit, decided, as_admin,
}
use agent_locksmith.Admin.Register.{
  RegisterInput, RegisterOutput, register_agent, register_audited, register_agent_inner,
  registered_row,
}
use agent_locksmith.Admin.Register.Steps.{register_agent_inner-Steps}
use agent_locksmith.Admin.SelfService.{
  rotate_agent, rotate_from, rotate_done, rotate_output, deregister_agent, map_ok,
}
use agent_locksmith.Admin.Routes.{
  Body, rotated, registered, minted, Response, respond, no_content, AgentRoute, get_status,
  get_tools, post_deregister, post_rotate, OperatorRoute, get_agents, get_one_agent, post_agent,
  patch_agent, post_revoke, patch_cert_identity, get_bootstrap, post_bootstrap,
  post_revoke_bootstrap, get_tools_legacy, get_audit, agent_handler, operator_handler,
}
use agent_locksmith.Admin.Operator.{
  create_agent_as_operator, modify_agent, set_agent_cert_identity, revoke_agent,
  mint_bootstrap_token, revoke_bootstrap_token, created_output, closed_input, minted_output,
  minted_scope,
}

-- The call added one row to the log that it found, with the method of the caller and the decision
-- that its result is.
abbrev pub OneRow : List AuditEvent → List AuditEvent → Bool → Type 0
OneRow before after good =
    (row : AuditEvent) × (after ≡ before ++ row ∷ [])
    × (row.decision ≡ (if good then allowed else denied))
    × (is_some row.auth_method ≡ true)

filled-method : (e : AuditEvent) → is_some (filled e).auth_method ≡ true
filled-method e = ground arith

filled-decision : (e : AuditEvent) → (filled e).decision ≡ e.decision
filled-decision e = ground arith

decided-lem {ℓ κ} :
    {A : Type ℓ} {E : Type κ} (r : Result A E) → decided r ≡ (if is_ok r then allowed else denied)
decided-lem (ok x) = refl
decided-lem (err e) = refl

-- Other tasks leave the log alone, so that what is in it is of the call.
abbrev pub Silent : World → Type 0
Silent w = (i : ℕ) (s : AdminState) → (w.others i s).log ≡ s.log

module _ (a : Admin) (on : a.audit ≡ true) where
  write-OneRow :
      (e : AuditEvent) (s : AdminState) (good : Bool)
      → e.decision ≡ (if good then allowed else denied)
      → OneRow s.log (write_audit a e s).log good
  unfolding write_audit
  write-OneRow e s good d = (filled e, rw on refl, filled-decision e ∙ d, filled-method e)

  -- a row of a result of a repository
  row-OneRow {ℓ} :
      {A : Type ℓ} (e : AuditEvent) (s : AdminState) (r : Result A RepoError)
      → e.decision ≡ decided r
      → OneRow s.log (write_audit a e s).log (is_ok (as_admin a r))
  row-OneRow e s (ok x) d = write-OneRow e s true d
  row-OneRow e s (err x) d = write-OneRow e s false d

  -- the same for the answer to a call
  call-OneRow {ℓ κ} :
      {A : Type ℓ} {B : Type κ} (f : A → B) (e : AuditEvent) (s : AdminState)
      (r : Result A RepoError)
      → e.decision ≡ decided r
      → OneRow s.log (write_audit a e s).log (is_ok (map_ok f (as_admin a r)))
  call-OneRow f e s (ok x) d = write-OneRow e s true d
  call-OneRow f e s (err x) d = write-OneRow e s false d

abbrev pub succeeded : Response → Bool
succeeded r = ltb r.status 300

respond-succeeded {ℓ} :
    {A : Type ℓ} (f : A → Body) (r : Result A AdminError) → succeeded (respond f r) ≡ is_ok r
respond-succeeded f (ok x) = refl
respond-succeeded f (err invalid_bootstrap) = refl
respond-succeeded f (err name_conflict) = refl
respond-succeeded f (err rotating) = refl
respond-succeeded f (err not_found) = refl
respond-succeeded f (err not_authorized) = refl
respond-succeeded f (err bad_grant_target) = refl
respond-succeeded f (err (backend m)) = refl

no_content-succeeded : (r : Result (Unit {0}) AdminError) → succeeded (no_content r) ≡ is_ok r
no_content-succeeded (ok u) = refl
no_content-succeeded (err invalid_bootstrap) = refl
no_content-succeeded (err name_conflict) = refl
no_content-succeeded (err rotating) = refl
no_content-succeeded (err not_found) = refl
no_content-succeeded (err not_authorized) = refl
no_content-succeeded (err bad_grant_target) = refl
no_content-succeeded (err (backend m)) = refl

-- A route that writes adds its row, whose decision is that of the answer; any other changes nothing.
abbrev pub Accounted : Bool → AdminState → Response × AdminState → Type 0
Accounted true s (r, s') = OneRow s.log s'.log (succeeded r)
Accounted false s (r, s') = s' ≡ s

abbrev pub agent_writes : AgentRoute → Bool
agent_writes get_status = false
agent_writes get_tools = false
agent_writes post_deregister = true
agent_writes (post_rotate secret) = true

abbrev pub operator_writes : OperatorRoute → Bool
operator_writes (get_agents revoked) = false
operator_writes (get_one_agent key) = false
operator_writes (post_agent input) = true
operator_writes (patch_agent id u) = true
operator_writes (post_revoke id) = true
operator_writes (patch_cert_identity id cert) = true
operator_writes get_bootstrap = false
operator_writes (post_bootstrap input) = true
operator_writes (post_revoke_bootstrap id) = true
operator_writes get_tools_legacy = false
operator_writes (get_audit q) = false

-- from the log that the call met to the one before it
since :
    (before met after : List AuditEvent) (good good' : Bool)
    → met ≡ before
    → good' ≡ good
    → OneRow met after good
    → OneRow before after good'
since before met after good good' e g (row, whole, d, m) =
    (row, whole ∙ ap (λ l. l ++ row ∷ []) e, d ∙ ap (λ b. if b then allowed else denied) (sym g), m)

module _ (a : Admin) (on : a.audit ≡ true) (w : World) (silent : Silent w) where
  rotate_done-OneRow :
      (id : AgentIdentity) (s : AdminState) (r : Result (Agents × Text) RepoError)
      → OneRow s.log (rotate_done a w id s r).1.log (is_ok (rotate_done a w id s r).0)
  rotate_done-OneRow id s r = call-OneRow a on (rotate_output id) _ _ r refl

  rotate_from-OneRow :
      (id : AgentIdentity) (s : AdminState) (r : Result Rotation RepoError)
      → OneRow s.log (rotate_from a w id s r).1.log (is_ok (rotate_from a w id s r).0)
  rotate_from-OneRow id s (err e) = rotate_done-OneRow id s (err e)
  rotate_from-OneRow id s (ok r) =
      since _ _ _ _ _ (silent 1 s) refl
        (rotate_done-OneRow id (w.others 1 s) (rotate_commit (w.others 1 s).agents r))

  agent_handler-Accounted :
      (id : AgentIdentity) (route : AgentRoute) (s : AdminState)
      → Accounted (agent_writes route) s (agent_handler a w id route s)
  unfolding agent_handler rotate_agent deregister_agent
  agent_handler-Accounted id get_status s = refl
  agent_handler-Accounted id get_tools s = refl
  agent_handler-Accounted id post_deregister s =
      since _ _ _ _ _ (silent 0 s) (no_content-succeeded _) (
        call-OneRow a on (λ (db : Agents). tt {0}) _ _
          (revoke (w.others 0 s).agents id.public_id (w.clock 0)) refl)
  agent_handler-Accounted id (post_rotate secret) s =
      since _ _ _ _ _ (silent 0 s) (respond-succeeded rotated _)
        (rotate_from-OneRow id (w.others 0 s) _)

  operator_handler-Accounted :
      (op : OperatorIdentity) (route : OperatorRoute) (s : AdminState)
      → Accounted (operator_writes route) s (operator_handler a w op route s)
  unfolding operator_handler create_agent_as_operator modify_agent set_agent_cert_identity
      revoke_agent mint_bootstrap_token revoke_bootstrap_token
  operator_handler-Accounted op (get_agents revoked) s = refl
  operator_handler-Accounted op (get_one_agent key) s = refl
  operator_handler-Accounted op get_bootstrap s = refl
  operator_handler-Accounted op get_tools_legacy s = refl
  operator_handler-Accounted op (get_audit q) s = refl
  operator_handler-Accounted op (post_agent input) s =
      since _ _ _ _ _ (silent 0 s) (respond-succeeded registered _) (
        call-OneRow a on (created_output (closed_input input).allowlist) _ _
          (create_reviewed a.argon2 (w.others 0 s).agents (w.others 0 s).registrations
            (closed_input input) w.issued (w.clock 0))
          refl)
  operator_handler-Accounted op (patch_agent id u) s =
      since _ _ _ _ _ (silent 0 s) (no_content-succeeded _) (
        call-OneRow a on (λ (db : Agents). tt {0}) _ _
          (update_policy_reviewed (w.others 0 s).agents (w.others 0 s).registrations id u) refl)
  operator_handler-Accounted op (post_revoke id) s =
      since _ _ _ _ _ (silent 0 s) (no_content-succeeded _) (
        call-OneRow a on (λ (db : Agents). tt {0}) _ _ (revoke (w.others 0 s).agents id (w.clock 0))
          refl)
  operator_handler-Accounted op (patch_cert_identity id cert) s =
      since _ _ _ _ _ (silent 0 s) (no_content-succeeded _) (
        call-OneRow a on (λ (db : Agents). tt {0}) _ _
          (set_cert_identity (w.others 0 s).agents id cert) refl)
  operator_handler-Accounted op (post_bootstrap input) s =
      since _ _ _ _ _ (silent 0 s) (respond-succeeded minted _) (
        call-OneRow a on (minted_output (minted_scope input)) _ _
          (mint_reviewed a.argon2 (w.others 0 s).tokens (w.others 0 s).registrations
            (minted_scope input) op.name w.issued (w.clock 0))
          refl)
  operator_handler-Accounted op (post_revoke_bootstrap id) s =
      since _ _ _ _ _ (silent 0 s) (no_content-succeeded _) (
        call-OneRow a on (λ (db : Tokens). tt {0}) _ _
          (revoke_token (w.others 0 s).tokens id (w.clock 0)) refl)

  -- the registration itself writes no audit row
  register-quiet :
      (input : RegisterInput) (s : AdminState) → (register_agent_inner a w input s).1.log ≡ s.log
  register-quiet input s =
      register_agent_inner-Steps a w input (λ t. t.log ≡ s.log)
        (record {
          waits = λ i t p. silent i t ∙ p;
          creates = λ t new now agents id secret h p. p;
          revokes = λ t id now agents h p. p;
          consumes = λ t c now tokens scope h p. p;
        })
        s refl

  audited-OneRow :
      (input : RegisterInput) (pid : Option Text) (before : List AuditEvent)
      (call : Call RegisterOutput)
      → call.1.log ≡ before
      → OneRow before
          (register_audited a w input pid call).1.log
          (is_ok (register_audited a w input pid call).0)
  unfolding register_audited
  audited-OneRow input pid before (ok out, s) e =
      since _ _ _ true true e refl (write-OneRow a on (registered_row a w input out) s true refl)
  audited-OneRow input pid before (err x, s) e =
      since _ _ _ false false (silent 6 s ∙ e) refl (write-OneRow a on _ (w.others 6 s) false refl)

-- With an audit repository every answer to a registration, or to a request to the routes for agents,
-- bootstrap tokens, tools and audit that may write, leaves exactly one row behind the rows of the
-- authentication, whose decision is allowed if the answer is a success and denied if it is an error,
-- and whose method is set; and the other requests to these routes change nothing that the middleware
-- left. `silent` says that the rows of other tasks are not counted.
pub admin-Accounted :
    (a : Admin) (w : World)
    → a.audit ≡ true
    → Silent w
    → ((input : RegisterInput) (s : AdminState)
        → OneRow s.log (register_agent a w input s).1.log (is_ok (register_agent a w input s).0))
      × ((id : AgentIdentity) (route : AgentRoute) (s : AdminState)
          → Accounted (agent_writes route) s (agent_handler a w id route s))
      × ((op : OperatorIdentity) (route : OperatorRoute) (s : AdminState)
          → Accounted (operator_writes route) s (operator_handler a w op route s))
unfolding register_agent
admin-Accounted a w on silent = (
  λ input s.
      audited-OneRow a on w silent input _ s.log (register_agent_inner a w input s)
        (register-quiet a on w silent input s),
  agent_handler-Accounted a on w silent,
  operator_handler-Accounted a on w silent,
)
