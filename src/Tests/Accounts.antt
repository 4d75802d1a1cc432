-- ===== src/Tests/Accounts.antt =====
-- Sealed values at a small deployment: two agents with a selection each.
use agent_locksmith.Prelude.{◌≡◌, refl, sym, true, none, some, [], ◌∷◌, ok}
use agent_locksmith.Text.{Text, codes, ◌==◌}
use agent_locksmith.Text.Utf8.{Bytes, as_bytes, from_utf8}
use agent_locksmith.Registration.Auth.{AuthSpec, stored_bearer, stored_secret_ref, header_name}
use agent_locksmith.Registration.Table.{is_grant_target}
use agent_locksmith.Agent.{AgentRecord}
use agent_locksmith.Agent.Table.{get_active_by_public_id}
use agent_locksmith.Auth.Cert.{to_hex}
use agent_locksmith.Proxy.Bindings.{AgentCredentialOverride, get_binding, set_binding}
use agent_locksmith.Proxy.Credentials.{Vaults, resolve_stored_credential}
use agent_locksmith.Secrets.{SealedSecret, insert_secret, is_referenced, tombstone_if_unreferenced}
use agent_locksmith.Secrets.Laws.{Live, sealed_row}
use agent_locksmith.Secrets.Sealing.{Aes, seal}
use agent_locksmith.Admin.Operator.{get_agent}
use agent_locksmith.Admin.Accounts.{
  AccountState, Accounts, AccountWorld, sealed, set_stored_credential, serve_account,
  op_set_agent_stored_credential, with_key, set_stored_for, sealed_value, inserted,
  sealed_selection, bury_old,
}
use agent_locksmith.Admin.Accounts.Laws.{Still}
use agent_locksmith.Admin.Accounts.ReadBack.{store_of, sealed_value-reads_back}
use agent_locksmith.Admin.Accounts.Safe.{serve_account-Live}
use agent_locksmith.Tests.Agents.{alice, bob}
use agent_locksmith.Tests.Registrations.{search, rows}
use agent_locksmith.Tests.Admin.{admin, state}

same_plain : (plain out : Bytes) → some plain ≡ some out → some out ≡ some plain
same_plain plain out h = sym h

-- the ciphertext is the plaintext
abbrev aes : Aes
aes = record {
  encrypt = λ key nonce plain. some plain;
  decrypt = λ key nonce value. some value;
  decrypt-encrypt = λ key nonce plain value h. same_plain plain value h;
}

abbrev nonce : Bytes
nonce = 1 ∷ 2 ∷ 3 ∷ 4 ∷ 5 ∷ 6 ∷ 7 ∷ 8 ∷ 9 ∷ 10 ∷ 11 ∷ 12 ∷ []

abbrev account : AgentRecord → Text → AgentCredentialOverride
account agent secret_ref = record {
  agent_id = agent.id;
  registration = search.name;
  auth_spec = some (stored_bearer secret_ref);
  created_at = 1;
  updated_at = 1;
}

abbrev of_bob : SealedSecret
of_bob = sealed_row (codes "cs_b") (codes "old") nonce 1

abbrev before : AccountState
before = record {
  admin = record state { registrations = rows };
  bindings = account alice (codes "cs_a") ∷ account bob (codes "cs_b") ∷ [];
  secrets = record {
    rows = sealed_row (codes "cs_a") (codes "old") nonce 1 ∷ of_bob ∷ [];
    online = true;
  };
}

abbrev accounts : Accounts
accounts = record {
  admin = admin;
  agent_creds = true;
  credential_secrets = true;
  credential_sealing_key = some [];
  catalog = none;
  aes = aes;
  host_url = λ url. true;
}

abbrev world : AccountWorld
world = record {
  others = λ i s. s;
  clock = λ i. i;
  bindings_up = λ i. true;
  nonce = some nonce;
  random = some (255 ∷ []);
}

still : Still world
still i s = refl

abbrev value : Text
value = codes "sk-1"

decoded : from_utf8 (as_bytes value) ≡ some value
unfolding from_utf8 as_bytes
decoded = refl

reply :
    (op_set_agent_stored_credential accounts world before alice.public_id search.name value none).0
    ≡ sealed alice.public_id search.name (codes "cs_ff")
unfolding op_set_agent_stored_credential with_key set_stored_for sealed_value inserted
    sealed_selection get_agent get_active_by_public_id get_binding set_binding insert_secret seal
    ◌==◌ to_hex stored_secret_ref header_name is_grant_target
reply = refl

abbrev end : AccountState
end =
    (op_set_agent_stored_credential accounts world before alice.public_id search.name value none).1

abbrev vaults : Vaults
vaults = record { oauth = none; secrets = some (store_of aes [] end.secrets); op_resolver = none }

sealed_value-reads_back_example :
    (agent : AgentRecord) × (spec : AuthSpec) × (get_agent admin before.admin alice.public_id
      ≡ ok agent)
    × (alice.public_id ≡ agent.public_id)
    × (search.name ≡ search.name)
    × (get_binding end.bindings agent.id search.name ≡ ok (some spec))
    × (stored_secret_ref spec ≡ some (codes "cs_ff"))
    × (resolve_stored_credential vaults (codes "cs_ff") ≡ ok value)
sealed_value-reads_back_example =
    sealed_value-reads_back accounts world before [] nonce alice.public_id search.name value none
      alice.public_id search.name (codes "cs_ff") vaults still refl refl refl decoded refl reply
      refl

of_bob-Live : Live before.secrets (codes "cs_b") of_bob
unfolding ◌==◌
of_bob-Live = refl

held : is_referenced end.admin.registrations end.bindings (codes "cs_b") ≡ true
unfolding op_set_agent_stored_credential with_key set_stored_for sealed_value inserted
    sealed_selection bury_old get_agent get_active_by_public_id get_binding set_binding
    insert_secret seal ◌==◌ to_hex stored_secret_ref header_name is_grant_target is_referenced
    tombstone_if_unreferenced
held = refl

serve_account-Live_example : Live end.secrets (codes "cs_b") of_bob
unfolding serve_account
serve_account-Live_example =
    serve_account-Live accounts world (set_stored_credential alice.public_id search.name value none)
      before (codes "cs_b") of_bob still of_bob-Live held
