-- ===== src/Tests/Agents.antt =====
-- Agents: a table with two of them, and the properties at it.
use agent_locksmith.Prelude.{◌≤◌, ◌≡◌, refl, ◌↔◌, true, none, some, [], ◌∷◌, ok, err, arith}
use agent_locksmith.Text.{codes, ◌==◌}
use agent_locksmith.Text.Laws.{ne_of_test}
use agent_locksmith.Agent.{AgentRecord, identity_of, allows_tool, in_denylist, not_in_allowlist}
use agent_locksmith.Agent.Acl.{Listed, allows_tool_iff}
use agent_locksmith.Agent.Table.{
  Agents, Issued, Rotation, get_active_by_public_id, revoke, touch_last_used, rotate_read,
  rotate_commit,
}
use agent_locksmith.Agent.Table.Laws.{IsValid}
use agent_locksmith.Agent.Table.History.{History, start, after, touched}
use agent_locksmith.Agent.Table.Rotate.{Pending, winners, one_winner, rotate_lem}
use agent_locksmith.Tests.Crates.{argon2}

abbrev pub alice : AgentRecord
alice = record {
  id = 1;
  public_id = codes "aaaaaaaaaaaaaaaaaaaaaa";
  name = codes "alice";
  description = none;
  secret_hash = codes "sssssssssssssssssssssssssssssssssssssssssss";
  tool_allowlist = some (codes "search" ∷ codes "mail" ∷ []);
  grants_reviewed = true;
  tool_denylist = some (codes "mail" ∷ []);
  metadata = none;
  cert_identity = some (codes "alice.example");
  registered_at = 5;
  last_used_at = none;
  expires_at = some 1000;
  revoked_at = none;
}

abbrev pub bob : AgentRecord
bob = record alice {
  id = 2;
  public_id = codes "bbbbbbbbbbbbbbbbbbbbbb";
  name = codes "bob";
  cert_identity = none;
}

abbrev pub agents : Agents
agents = record { rows = alice ∷ bob ∷ []; next_id = 3; online = true }

abbrev pub bob_revoked : Agents
bob_revoked = record {
  rows = alice ∷ record bob { revoked_at = some 7 } ∷ [];
  next_id = 3;
  online = true;
}

abbrev pub alice_touched : Agents
alice_touched = record {
  rows = record alice { last_used_at = some 8 } ∷ record bob { revoked_at = some 7 } ∷ [];
  next_id = 3;
  online = true;
}

pub bob-revoke : revoke agents bob.public_id 7 ≡ ok bob_revoked
unfolding revoke ◌==◌
bob-revoke = refl

pub alice-touch : touch_last_used bob_revoked alice.public_id 8 ≡ ok alice_touched
unfolding touch_last_used ◌==◌
alice-touch = refl

pub past : History argon2 bob_revoked alice_touched
past = after start (touched alice.public_id 8 alice-touch)

pub valid : IsValid agents
unfolding ◌==◌
valid = record {
  unique = (
    (
      (
        ground arith,
        ne_of_test alice.name bob.name refl,
        ne_of_test alice.public_id bob.public_id refl,
      ),
      tt,
    ),
    (tt, tt),
  );
  below = (omega arith, (omega arith, tt));
}

allows_tool_iff_example :
    ((allows_tool (identity_of alice) (codes "search") ≡ ok tt) ↔ (
      Listed (codes "search") (some (codes "search" ∷ codes "mail" ∷ []))
      × (¬ Listed (codes "search") (some (codes "mail" ∷ [])))))
    × ((allows_tool (identity_of alice) (codes "search") ≡ err in_denylist)
        ↔ Listed (codes "search") (some (codes "mail" ∷ [])))
    × ((allows_tool (identity_of alice) (codes "search") ≡ err not_in_allowlist) ↔ (
        (¬ Listed (codes "search") (some (codes "search" ∷ codes "mail" ∷ [])))
        × (¬ Listed (codes "search") (some (codes "mail" ∷ [])))))
allows_tool_iff_example = allows_tool_iff (identity_of alice) (codes "search")

abbrev fresh_token : Issued
fresh_token = record { public_id = []; secret = codes "new-secret"; salt = 1 }

abbrev rotation : Rotation
rotation = record {
  public_id = alice.public_id;
  current_hash = alice.secret_hash;
  new_hash = codes "new-secret";
  new_secret = codes "new-secret";
}

pending : Pending alice.public_id alice.secret_hash rotation
unfolding ◌==◌
pending = (refl, refl, ne_of_test rotation.new_hash alice.secret_hash refl)

one_winner_example : winners agents (rotation ∷ rotation ∷ []) ≤ 1
one_winner_example =
    one_winner alice.public_id alice.secret_hash agents (rotation ∷ rotation ∷ [])
      (pending, (pending, tt))

rotation-read :
    rotate_read argon2 agents alice.public_id alice.secret_hash fresh_token ≡ ok rotation
unfolding rotate_read ◌==◌
rotation-read = refl

rotate_lem_example :
    (db' : Agents) × (row : AgentRecord) × (rotate_commit agents rotation
      ≡ ok (db', fresh_token.secret))
    × (get_active_by_public_id db' alice.public_id ≡ ok (some row))
    × (argon2.verify row.secret_hash fresh_token.secret ≡ some true)
rotate_lem_example =
    rotate_lem argon2 agents alice.public_id alice.secret_hash fresh_token rotation rotation-read
