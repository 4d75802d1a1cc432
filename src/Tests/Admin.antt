-- ===== src/Tests/Admin.antt =====
-- The admin service at a small deployment: two agents, one bootstrap token and one operator.
use agent_locksmith.Prelude.{
  ◌≡◌, refl, ap, ◌∙◌, true, false, none, some, [], ◌∷◌, ◌++◌, unwrap_or, ok, err, arith, is_ok,
}
use agent_locksmith.Text.{Text, codes, len, ◌==◌}
use agent_locksmith.Text.Split.{Free}
use agent_locksmith.Token.{StructuredToken, bootstrap, wire_format, parse}
use agent_locksmith.Token.Laws.{HasShape, parse_iff}
use agent_locksmith.Agent.{AgentIdentity}
use agent_locksmith.Agent.Table.{
  Agents, new_row, create_reviewed, create_inner, conflicts, get_active_by_public_id,
}
use agent_locksmith.Bootstrap.{
  BootstrapTokenRecord, find_token, preview_scope, open_token, consume_read, consume_commit,
  BootstrapScope-discrete,
}
use agent_locksmith.Bootstrap.Once.{count}
use agent_locksmith.Bootstrap.Once
use agent_locksmith.Bootstrap.Unique.{IsUnique}
use agent_locksmith.Admin.{Admin, AdminState, invalid_bootstrap, World}
use agent_locksmith.Admin.Register.{
  RegisterInput, RegisterOutput, register_agent, register_agent_inner, register_audited,
  bootstrapped, previewed, bootstrap_id, created, fetched, claimed, consumed, rolled_back,
  agent_token, new_agent,
}
use agent_locksmith.Admin.Register.Laws.{Quiet, registered-authenticates}
use agent_locksmith.Admin.Register.Once.{HonestTokens, one_agent_per_token}
use agent_locksmith.Admin.Register.Undone.{failed_registration-IsRevoked}
use agent_locksmith.Auth.Bearer.{authenticate_bearer}
use agent_locksmith.Tests.Crates.{argon2, base64}
use agent_locksmith.Tests.Agents.{alice, bob, agents}
use agent_locksmith.Tests.Auth.{authenticator}
use agent_locksmith.Tests.Bodies.{bootstrap_row, scope}

abbrev pub secret : Text
secret = codes "sssssssssssssssssssssssssssssssssssssssssss"

abbrev ticket : StructuredToken
ticket = record {
  namespace = bootstrap;
  public_id = codes "tttttttttttttttttttttt";
  secret = secret;
}

free : Free b'.' (codes "tttttttttttttttttttttt")
free = ground arith

ticket-HasShape : HasShape base64 ticket
unfolding len
ticket-HasShape = (free, refl, refl, refl, refl)

parsed : parse base64 (wire_format ticket) ≡ ok ticket
parsed = (parse_iff base64 (wire_format ticket) ticket).1 (refl, ticket-HasShape)

abbrev pub admin : Admin
admin = record {
  base64 = base64;
  argon2 = argon2;
  audit = true;
  show = λ e. codes "error";
  tools = [];
  resolved = none;
}

abbrev pub state : AdminState
state = record {
  agents = agents;
  tokens = record {
    rows = record bootstrap_row { public_id = ticket.public_id; secret_hash = secret } ∷ [];
    next_id = 2;
    online = true;
  };
  registrations = [];
  log = [];
}

-- no other task runs; the new agent's parts are those of the bootstrap token
abbrev pub world : World
world = record {
  others = λ i s. s;
  clock = λ i. i;
  clock_ms = 1000;
  issued = record { public_id = ticket.public_id; secret = secret; salt = 1 };
}

quiet : Quiet world
quiet i s = refl

honest : HonestTokens argon2 world
honest i s = Once.start

abbrev pub input : RegisterInput
input = record {
  bootstrap_token = wire_format ticket;
  name = codes "carol";
  description = none;
  metadata = none;
}

abbrev output : RegisterOutput
output = record {
  public_id = ticket.public_id;
  token = agent_token ticket.public_id secret;
  allowlist = some [];
}

token_given :
    (register_audited admin world input
      (some ticket.public_id)
      (bootstrapped admin world input state (ok ticket))).0
    ≡ ok output
unfolding register_audited bootstrapped previewed created fetched claimed consumed preview_scope
    open_token consume_read consume_commit create_reviewed create_inner conflicts ◌==◌
    BootstrapScope-discrete get_active_by_public_id
token_given = refl

registers : (register_agent admin world input state).0 ≡ ok output
unfolding register_agent register_agent_inner
registers =
    ap
      (λ p.
        (register_audited admin world input (bootstrap_id admin world input p)
          (bootstrapped admin world input state p)).0)
      parsed
    ∙ token_given

previews : preview_scope state.tokens ticket.public_id 0 ≡ ok scope
unfolding preview_scope open_token ◌==◌
previews = refl

pub unique : IsUnique state.tokens
unfolding ◌==◌
unique id = ground arith

one_agent_per_token_example :
    is_ok (register_agent admin world input (register_agent admin world input state).1).0 ≡ false
one_agent_per_token_example =
    one_agent_per_token admin world world input input state
      (register_agent admin world input state).1 ticket scope output honest honest unique parsed
      previews refl registers Once.start refl

registered-authenticates_example :
    (t : StructuredToken) × (row : BootstrapTokenRecord) × (identity : AgentIdentity) × (parse
        base64 input.bootstrap_token
      ≡ ok t)
    × (find_token state.tokens t.public_id ≡ some row)
    × (output.allowlist ≡ row.scope.tool_allowlist)
    × (identity.tool_allowlist ≡ some (unwrap_or row.scope.tool_allowlist []))
    × ((authenticate_bearer authenticator
          (register_agent admin world input state).1.agents
          (codes "Bearer " ++ output.token)).result
        ≡ ok identity)
    × (identity.public_id ≡ output.public_id)
    × (identity.name ≡ input.name)
    × (identity.tool_denylist ≡ none)
unfolding len
registered-authenticates_example =
    registered-authenticates admin world input state output authenticator quiet refl
      (free, refl, refl, refl, refl) registers

-- the right public id with another secret
abbrev forged : StructuredToken
forged = record ticket { secret = codes "xxxxxxxxxxxxxxxxxxxxxxxxxxxxxxxxxxxxxxxxxxx" }

forged-HasShape : HasShape base64 forged
unfolding len
forged-HasShape = (free, refl, refl, refl, refl)

forged-parsed : parse base64 (wire_format forged) ≡ ok forged
forged-parsed = (parse_iff base64 (wire_format forged) forged).1 (refl, forged-HasShape)

abbrev forged_input : RegisterInput
forged_input = record input { bootstrap_token = wire_format forged }

abbrev with_carol : Agents
with_carol = record agents {
  rows = alice ∷ bob ∷ new_row (new_agent input scope) world.issued secret 3 1 ∷ [];
  next_id = 4;
}

creates :
    create_reviewed argon2 agents [] (new_agent input scope) world.issued 1
    ≡ ok (with_carol, ticket.public_id, secret)
unfolding create_reviewed create_inner conflicts ◌==◌
creates = refl

refused :
    (register_audited admin world forged_input
      (some ticket.public_id)
      (bootstrapped admin world forged_input state (ok forged))).0
    ≡ err invalid_bootstrap
unfolding register_audited bootstrapped previewed created fetched claimed consumed preview_scope
    open_token consume_read consume_commit create_reviewed create_inner conflicts ◌==◌
    BootstrapScope-discrete get_active_by_public_id rolled_back
refused = refl

registration_refused : (register_agent admin world forged_input state).0 ≡ err invalid_bootstrap
unfolding register_agent register_agent_inner
registration_refused =
    ap
      (λ p.
        (register_audited admin world forged_input (bootstrap_id admin world forged_input p)
          (bootstrapped admin world forged_input state p)).0)
      forged-parsed
    ∙ refused

failed_registration-IsRevoked_example :
    (get_active_by_public_id
        (register_agent admin world forged_input state).1.agents
        ticket.public_id
      ≡ ok none)
    × ((id : Text)
        → conflicts forged_input.name id
            (register_agent admin world forged_input state).1.agents.rows
          ≡ true)
failed_registration-IsRevoked_example =
    failed_registration-IsRevoked admin world forged_input state forged scope with_carol
      ticket.public_id secret invalid_bootstrap quiet refl forged-parsed refl previews creates
      registration_refused
