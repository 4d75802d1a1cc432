-- ===== src/Admin/History.antt =====
-- The admin methods as writes to the tables: about src/admin/service.rs.
use agent_locksmith.Prelude.{ℕ, ◌≡◌, refl, true, Option, Result, ok, err}
use agent_locksmith.Text.{Text}
use agent_locksmith.Registration.Table.{Rows}
use agent_locksmith.Agent.{AgentIdentity}
use agent_locksmith.Agent.Table.{
  Argon2, Agents, NewAgent, PolicyUpdate, RepoError, Rotation, Issued, create_reviewed,
  update_policy_reviewed, revoke, set_cert_identity, rotate_commit, rotate_read,
}
use agent_locksmith.Agent.Table.Laws.{IsValid}
use agent_locksmith.Agent.Table.History.{
  Write, created, revoked, bound, rotated, updated, History, start, after, History-IsValid,
}
use agent_locksmith.Auth.Operator.{OperatorIdentity}
use agent_locksmith.Admin.{Admin, AdminState, World, Call, stored, write_audit}
use agent_locksmith.Admin.Register.{
  RegisterInput, RegisterOutput, register_agent, register_audited, register_agent_inner,
  bootstrap_id,
}
use agent_locksmith.Token.{parse}
use agent_locksmith.Admin.Operator.{
  create_agent_as_operator, modify_agent, set_agent_cert_identity, revoke_agent,
  mint_bootstrap_token, revoke_bootstrap_token, closed_input,
}
use agent_locksmith.Admin.Register.Steps.{register_agent_inner-Steps}
use agent_locksmith.Admin.SelfService.{rotate_agent, rotate_from, deregister_agent}
use agent_locksmith.Admin.Routes.{
  AgentRoute, get_status, get_tools, post_deregister, post_rotate, OperatorRoute, get_agents,
  get_one_agent, post_agent, patch_agent, post_revoke, patch_cert_identity, get_bootstrap,
  post_bootstrap, post_revoke_bootstrap, get_tools_legacy, get_audit, agent_handler,
  operator_handler,
}

pub History-append :
    (argon2 : Argon2) (a b c : Agents)
    → History argon2 a b
    → History argon2 b c
    → History argon2 a c
History-append argon2 a b c h start = h
History-append argon2 a b c h (after past w) = after (History-append argon2 a b _ h past) w

-- What other tasks write to the agents are writes of the repository.
abbrev pub Honest : Argon2 → World → Type 0
Honest argon2 w = (i : ℕ) (s : AdminState) → History argon2 s.agents (w.others i s).agents

-- a write that the method keeps if it is one
kept {ℓ} :
    (argon2 : Argon2) {A : Type ℓ} (f : A → Agents) (db before : Agents) (r : Result A RepoError)
    → History argon2 before db
    → ((x : A) → r ≡ ok x → Write argon2 db (f x))
    → History argon2 before (stored f r db)
kept argon2 f db before (ok x) past write = after past (write x refl)
kept argon2 f db before (err e) past write = past

reviewed-Write :
    (argon2 : Argon2) (db : Agents) (registrations : Rows) (new : NewAgent) (token : Issued)
    (now : ℕ) (x : Agents × Text × Text)
    → create_reviewed argon2 db registrations new token now ≡ ok x
    → Write argon2 db x.0
unfolding create_reviewed
reviewed-Write argon2 db registrations new token now (db', id, secret) e =
    created registrations new token now true id secret e

policy-Write :
    (argon2 : Argon2) (db db' : Agents) (registrations : Rows) (id : Text) (u : PolicyUpdate)
    → update_policy_reviewed db registrations id u ≡ ok db'
    → Write argon2 db db'
unfolding update_policy_reviewed
policy-Write argon2 db db' registrations id u e = updated registrations id u true e

module _ (a : Admin) (w : World) (honest : Honest a.argon2 w) where
  rotate_from-History :
      (id : AgentIdentity) (s : AdminState) (r : Result Rotation RepoError)
      → History a.argon2 s.agents (rotate_from a w id s r).1.agents
  unfolding write_audit
  rotate_from-History id s (err e) = start
  rotate_from-History id s (ok r) =
      kept a.argon2 (λ (x : Agents × Text). x.0) (w.others 1 s).agents s.agents
        (rotate_commit (w.others 1 s).agents r) (honest 1 s) λ x e. rotated r x.1 e

  agent_handler-History :
      (id : AgentIdentity) (route : AgentRoute) (s : AdminState)
      → History a.argon2 s.agents (agent_handler a w id route s).1.agents
  unfolding agent_handler rotate_agent deregister_agent write_audit
  agent_handler-History id get_status s = start
  agent_handler-History id get_tools s = start
  agent_handler-History id post_deregister s =
      kept a.argon2 (λ (db : Agents). db) (w.others 0 s).agents s.agents
        (revoke (w.others 0 s).agents id.public_id (w.clock 0)) (honest 0 s)
        λ x e. revoked id.public_id (w.clock 0) e
  agent_handler-History id (post_rotate secret) s = History-append a.argon2 _ _ _ (honest 0 s) (
      rotate_from-History id (w.others 0 s)
        (rotate_read a.argon2 (w.others 0 s).agents id.public_id secret w.issued))

  operator_handler-History :
      (op : OperatorIdentity) (route : OperatorRoute) (s : AdminState)
      → History a.argon2 s.agents (operator_handler a w op route s).1.agents
  unfolding operator_handler create_agent_as_operator modify_agent set_agent_cert_identity
      revoke_agent mint_bootstrap_token revoke_bootstrap_token write_audit
  operator_handler-History op (get_agents all_rows) s = start
  operator_handler-History op (get_one_agent key) s = start
  operator_handler-History op get_bootstrap s = start
  operator_handler-History op get_tools_legacy s = start
  operator_handler-History op (get_audit q) s = start
  operator_handler-History op (post_bootstrap input) s = honest 0 s
  operator_handler-History op (post_revoke_bootstrap id) s = honest 0 s
  operator_handler-History op (post_agent input) s =
      kept a.argon2 (λ (x : Agents × Text × Text). x.0) (w.others 0 s).agents s.agents
        (create_reviewed a.argon2 (w.others 0 s).agents (w.others 0 s).registrations
          (closed_input input) w.issued (w.clock 0))
        (honest 0 s)
        λ x e. reviewed-Write a.argon2 _ _ (closed_input input) w.issued (w.clock 0) x e
  operator_handler-History op (patch_agent id u) s =
      kept a.argon2 (λ (db : Agents). db) (w.others 0 s).agents s.agents
        (update_policy_reviewed (w.others 0 s).agents (w.others 0 s).registrations id u)
        (honest 0 s) λ x e. policy-Write a.argon2 _ x _ id u e
  operator_handler-History op (post_revoke id) s =
      kept a.argon2 (λ (db : Agents). db) (w.others 0 s).agents s.agents
        (revoke (w.others 0 s).agents id (w.clock 0)) (honest 0 s) λ x e. revoked id (w.clock 0) e
  operator_handler-History op (patch_cert_identity id cert) s =
      kept a.argon2 (λ (db : Agents). db) (w.others 0 s).agents s.agents
        (set_cert_identity (w.others 0 s).agents id cert) (honest 0 s) λ x e. bound id cert e

  register-History :
      (input : RegisterInput) (s : AdminState)
      → History a.argon2 s.agents (register_agent_inner a w input s).1.agents
  unfolding create_reviewed
  register-History input s =
      register_agent_inner-Steps a w input (λ t. History a.argon2 s.agents t.agents)
        (record {
          waits = λ i t p. History-append a.argon2 _ _ _ p (honest i t);
          creates = λ t new now agents id secret h p.
              after p (created t.registrations new w.issued now true id secret h);
          revokes = λ t id now agents h p. after p (revoked id now h);
          consumes = λ t c now tokens scope h p. p;
        })
        s start

  audited-History :
      (input : RegisterInput) (pid : Option Text) (before : Agents) (call : Call RegisterOutput)
      → History a.argon2 before call.1.agents
      → History a.argon2 before (register_audited a w input pid call).1.agents
  unfolding register_audited write_audit
  audited-History input pid before (ok out, s) h = h
  audited-History input pid before (err e, s) h = History-append a.argon2 _ _ _ h (honest 6 s)

  register_agent-History :
      (input : RegisterInput) (s : AdminState)
      → History a.argon2 s.agents (register_agent a w input s).1.agents
  unfolding register_agent
  register_agent-History input s =
      audited-History input (bootstrap_id a w input (parse a.base64 input.bootstrap_token)) s.agents
        (register_agent_inner a w input s) (register-History input s)

-- Requests to the admin routes by identified callers, one after another, with any other work in
-- between. The requests of the other routes (registrations, accounts, OAuth sessions) reach the
-- agents only through the triggers of src/migrations/0009, so to the agents they are such writes.
pub data AdminRun (a : Admin) (s : AdminState) : AdminState → Type 0 where
  idle : AdminRun a s s
  registers :
      {mid : AdminState}
      → AdminRun a s mid
      → (w : World) → Honest a.argon2 w
      → (input : RegisterInput) → AdminRun a s (register_agent a w input mid).1
  agent_asks :
      {mid : AdminState}
      → AdminRun a s mid
      → (w : World) → Honest a.argon2 w
      → (id : AgentIdentity) (route : AgentRoute) → AdminRun a s (agent_handler a w id route mid).1
  operator_asks :
      {mid : AdminState}
      → AdminRun a s mid
      → (w : World) → Honest a.argon2 w
      → (op : OperatorIdentity) (route : OperatorRoute)
      → AdminRun a s (operator_handler a w op route mid).1
  others_write :
      {mid last : AdminState}
      → AdminRun a s mid
      → History a.argon2 mid.agents last.agents
      → AdminRun a s last

pub AdminRun-History :
    (a : Admin) (s s' : AdminState) → AdminRun a s s' → History a.argon2 s.agents s'.agents
AdminRun-History a s s' idle = start
AdminRun-History a s s' (registers {mid} past w honest input) =
    History-append a.argon2 _ _ _ (AdminRun-History a s mid past)
      (register_agent-History a w honest input mid)
AdminRun-History a s s' (agent_asks {mid} past w honest id route) =
    History-append a.argon2 _ _ _ (AdminRun-History a s mid past)
      (agent_handler-History a w honest id route mid)
AdminRun-History a s s' (operator_asks {mid} past w honest op route) =
    History-append a.argon2 _ _ _ (AdminRun-History a s mid past)
      (operator_handler-History a w honest op route mid)
AdminRun-History a s s' (others_write {mid} past writes) =
    History-append a.argon2 _ _ _ (AdminRun-History a s mid past) writes

-- However many requests register agents or come from agents and operators to the routes for agents,
-- tokens, tools and audit, with whatever other writes of the agents between and during them (those of
-- the triggers and of the migration of bindings included), ids, names and public ids stay unique.
pub AdminRun-IsValid :
    (a : Admin) (s s' : AdminState) → IsValid s.agents → AdminRun a s s' → IsValid s'.agents
AdminRun-IsValid a s s' v run =
    History-IsValid a.argon2 s.agents s'.agents v (AdminRun-History a s s' run)
