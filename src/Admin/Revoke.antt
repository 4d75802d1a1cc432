-- ===== src/Admin/Revoke.antt =====
-- Revocations through the admin routes: about `revoke_agent` and `deregister_agent` of
-- src/admin/service.rs, with the bearer authenticator of src/auth_v2/agent.rs.
use agent_locksmith.Prelude.{◌≡◌, ◌≢◌, refl, sym, subst, Result, ok, err, arith}
use agent_locksmith.Text.{Text}
use agent_locksmith.Agent.{AgentIdentity}
use agent_locksmith.Agent.Table.{Agents, RepoError, revoke}
use agent_locksmith.Agent.Table.History.{History}
use agent_locksmith.Auth.Operator.{OperatorIdentity}
use agent_locksmith.Auth.Bearer.{Bearer, authenticate_bearer}
use agent_locksmith.Auth.Bearer.Laws.{revoked-never_authenticates}
use agent_locksmith.Admin.{Admin, AdminState, World, write_audit, as_admin, stored}
use agent_locksmith.Admin.SelfService.{deregister_agent, map_ok}
use agent_locksmith.Admin.Operator.{revoke_agent}
use agent_locksmith.Admin.History.{AdminRun, AdminRun-History}

succeeded-eq-ok :
    (a : Admin) (r : Result Agents RepoError) (db : Agents)
    → map_ok (λ (x : Agents). tt {0}) (as_admin a r) ≡ ok tt
    → r ≡ ok (stored (λ (x : Agents). x) r db)
succeeded-eq-ok a (ok x) db h = refl
succeeded-eq-ok a (err e) db h = ground arith

module _ (a : Admin) (w : World) (s : AdminState) where
  revoke_agent-eq-ok :
      (op : OperatorIdentity) (id : Text)
      → (revoke_agent a w op s id).0 ≡ ok tt
      → revoke (w.others 0 s).agents id (w.clock 0) ≡ ok (revoke_agent a w op s id).1.agents
  unfolding revoke_agent write_audit
  revoke_agent-eq-ok op id h =
      succeeded-eq-ok a (revoke (w.others 0 s).agents id (w.clock 0)) (w.others 0 s).agents h

  deregister-eq-ok :
      (agent : AgentIdentity)
      → (deregister_agent a w agent s).0 ≡ ok tt
      → revoke (w.others 0 s).agents agent.public_id (w.clock 0)
        ≡ ok (deregister_agent a w agent s).1.agents
  unfolding deregister_agent write_audit
  deregister-eq-ok agent h =
      succeeded-eq-ok a (revoke (w.others 0 s).agents agent.public_id (w.clock 0))
        (w.others 0 s).agents h

-- A revocation that was answered as done, by an operator or by the agent itself, and its state.
pub data Revocation (a : Admin) (w : World) (s : AdminState) (id : Text) (after : AdminState)
    : Type 0 where
  by_operator :
      (op : OperatorIdentity)
      → (revoke_agent a w op s id).0 ≡ ok tt
      → after ≡ (revoke_agent a w op s id).1
      → Revocation a w s id after
  by_itself :
      (agent : AgentIdentity)
      → agent.public_id ≡ id
      → (deregister_agent a w agent s).0 ≡ ok tt
      → after ≡ (deregister_agent a w agent s).1
      → Revocation a w s id after

Revocation-eq-ok :
    (a : Admin) (w : World) (s : AdminState) (id : Text) (after : AdminState)
    → Revocation a w s id after
    → revoke (w.others 0 s).agents id (w.clock 0) ≡ ok after.agents
Revocation-eq-ok a w s id after (by_operator op h e) = rw e (revoke_agent-eq-ok a w s op id h)
Revocation-eq-ok a w s id after (by_itself agent same h e) =
    subst (λ x. revoke (w.others 0 s).agents x (w.clock 0) ≡ ok after.agents) same
      (rw e (deregister-eq-ok a w s agent h))

-- After an operator has revoked an agent, or the agent has deregistered itself, no header
-- authenticates as it, whatever requests register agents or come to the routes for agents, tokens,
-- tools and audit, and whatever else is written to the agents (by the triggers of the registrations
-- and the migration of bindings too) before the header comes.
pub Revocation-never_authenticates :
    (a : Admin) (w : World) (s after end : AdminState) (id : Text) (b : Bearer) (header : Text)
    (identity : AgentIdentity)
    → b.argon2 ≡ a.argon2
    → Revocation a w s id after
    → AdminRun a after end
    → (authenticate_bearer b end.agents header).result ≡ ok identity
    → identity.public_id ≢ id
Revocation-never_authenticates a w s after end id b header identity same done run accepted =
    revoked-never_authenticates b (w.others 0 s).agents after.agents end.agents id (w.clock 0)
      (Revocation-eq-ok a w s id after done)
      (subst (λ x. History x after.agents end.agents) (sym same) (AdminRun-History a after end run))
      header identity accepted
