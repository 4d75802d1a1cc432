-- ===== src/Tests/Operator.antt =====
-- Operators and the requests of the admin routes at the deployment of the registration examples.
use agent_locksmith.Prelude.{◌≡◌, ◌≢◌, ◌↔◌, refl, ap, true, none, some, [], ◌∷◌, ok, arith, is_ok}
use agent_locksmith.Text.{Text, codes, len, ◌==◌}
use agent_locksmith.Text.Split.{Free}
use agent_locksmith.Token.{StructuredToken, operator, wire_format}
use agent_locksmith.Token.Laws.{HasShape}
use agent_locksmith.Agent.{AgentIdentity, identity_of}
use agent_locksmith.Agent.Table.{get_active_by_public_id, revoke}
use agent_locksmith.Agent.Table.Laws.{IsValid}
use agent_locksmith.Agent.Table.History
use agent_locksmith.Auth.Operator.{
  OperatorIdentity, OperatorRecord, OperatorAuthenticator, pass, operator_identity,
  authenticate_operator, operator_auth_middleware, operator_bearer, admit_operator,
}
use agent_locksmith.Auth.Operator.Laws.{
  OperatorProves, OperatorAuthentic, authenticate_operator_iff, operator_auth_middleware-pass,
}
use agent_locksmith.Admin.{AdminState, write_audit}
use agent_locksmith.Admin.Register.{RegisterInput, register_agent}
use agent_locksmith.Admin.Operator.{revoke_agent}
use agent_locksmith.Admin.Routes.{
  AgentRoute, OperatorRoute, post_revoke, agent_handler, operator_handler,
}
use agent_locksmith.Admin.Audited.{
  OneRow, Accounted, agent_writes, operator_writes, Silent, admin-Accounted,
}
use agent_locksmith.Admin.History.{
  Honest, AdminRun, idle, registers, operator_asks, AdminRun-IsValid,
}
use agent_locksmith.Admin.Revoke.{by_operator, Revocation-never_authenticates}
use agent_locksmith.Tests.Crates.{argon2, base64}
use agent_locksmith.Tests.Agents.{alice, bob, valid}
use agent_locksmith.Tests.Auth.{authenticator, header, accepted}
use agent_locksmith.Tests.Admin.{admin, state, world, secret, input}

abbrev badge : StructuredToken
badge = record { namespace = operator; public_id = codes "oooooooooooooooooooooo"; secret = secret }

abbrev root : OperatorRecord
root = record {
  name = codes "root";
  public_id = badge.public_id;
  token_hash = secret;
  scope = none;
  cert_identity = some (codes "root.example");
}

abbrev operators : OperatorAuthenticator
operators = record {
  base64 = base64;
  argon2 = argon2;
  records = root ∷ [];
  audit = true;
  now_ms = 1000;
}

abbrev root_header : Text
root_header = codes "Bearer lkop_oooooooooooooooooooooo.sssssssssssssssssssssssssssssssssssssssssss"

free : Free b'.' (codes "oooooooooooooooooooooo")
free = ground arith

badge-HasShape : HasShape base64 badge
unfolding len
badge-HasShape = (free, refl, refl, refl, refl)

proves : OperatorProves operators root_header root
unfolding wire_format ◌==◌
proves = record {
  token = badge;
  printed = refl;
  shape = badge-HasShape;
  namespace = refl;
  known = refl;
  secret = refl;
}

authenticate_operator_iff_example :
    ((authenticate_operator operators root_header).0 ≡ ok (operator_identity none root)) ↔ (
      (r : OperatorRecord) × (OperatorProves operators root_header r)
      × (operator_identity none root ≡ operator_identity none r))
authenticate_operator_iff_example =
    authenticate_operator_iff operators root_header (operator_identity none root)

passes :
    (operator_auth_middleware none operators none (some root_header)).0
    ≡ pass (operator_identity none root)
unfolding operator_auth_middleware operator_bearer
passes = ap admit_operator (
    (authenticate_operator_iff operators root_header (operator_identity none root)).1
      (root, proves, refl))

operator_auth_middleware-pass_example :
    OperatorAuthentic none operators none (some root_header) (operator_identity none root)
operator_auth_middleware-pass_example =
    operator_auth_middleware-pass none operators none (some root_header)
      (operator_identity none root) passes

silent : Silent world
silent i s = refl

admin-Accounted_example :
    ((input : RegisterInput) (s : AdminState)
      → OneRow s.log
          (register_agent admin world input s).1.log
          (is_ok (register_agent admin world input s).0))
    × ((id : AgentIdentity) (route : AgentRoute) (s : AdminState)
        → Accounted (agent_writes route) s (agent_handler admin world id route s))
    × ((op : OperatorIdentity) (route : OperatorRoute) (s : AdminState)
        → Accounted (operator_writes route) s (operator_handler admin world op route s))
admin-Accounted_example = admin-Accounted admin world refl silent

honest : Honest argon2 world
honest i s = History.start

-- an agent registers, then an operator revokes another one
abbrev end : AdminState
end =
    (operator_handler admin world (operator_identity none root) (post_revoke bob.public_id)
      (register_agent admin world input state).1).1

run : AdminRun admin state end
run =
    operator_asks (registers idle world honest input) world honest (operator_identity none root)
      (post_revoke bob.public_id)

AdminRun-IsValid_example : IsValid end.agents
AdminRun-IsValid_example = AdminRun-IsValid admin state end valid run

abbrev after : AdminState
after = (revoke_agent admin world (operator_identity none root) state bob.public_id).1

revokes : (revoke_agent admin world (operator_identity none root) state bob.public_id).0 ≡ ok tt
unfolding revoke_agent revoke ◌==◌
revokes = refl

alice-active : get_active_by_public_id after.agents alice.public_id ≡ ok (some alice)
unfolding revoke_agent revoke get_active_by_public_id ◌==◌ write_audit
alice-active = refl

Revocation-never_authenticates_example : (identity_of alice).public_id ≢ bob.public_id
Revocation-never_authenticates_example =
    Revocation-never_authenticates admin world state after after bob.public_id authenticator header
      (identity_of alice) refl (by_operator (operator_identity none root) revokes refl) idle
      (accepted after.agents none alice-active)
