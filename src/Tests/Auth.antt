-- ===== src/Tests/Auth.antt =====
-- Tokens, the two authenticators, the middleware and the bootstrap tokens at small inputs.
use agent_locksmith.Prelude.{
  ℕ, ◌≡◌, refl, ap, ◌≢◌, ◌↔◌, true, ◌⊎◌, Option, none, some, [], ◌∷◌, ◌++◌, ok, err, arith,
}
use agent_locksmith.Text.{Text, codes, ◌==◌, strip_prefix, len, lower, to_ascii_lowercase}
use agent_locksmith.Text.Split.{Free}
use agent_locksmith.Text.Utf8.{Bytes}
use agent_locksmith.Token.{AreBytes, StructuredToken, agent, wire_format, parse, generate}
use agent_locksmith.Token.Laws.{HasShape, parse_iff, parse-wire_format}
use agent_locksmith.Agent.{AgentRecord, AgentIdentity, identity_of}
use agent_locksmith.Agent.Table.{Agents, get_active_by_public_id, get_by_cert_identity}
use agent_locksmith.Auth.{missing_credential}
use agent_locksmith.Auth.Bearer.{Bearer, authenticate_bearer, with_header}
use agent_locksmith.Auth.Bearer.Refusal.{Refusal}
use agent_locksmith.Auth.Bearer.Laws.{
  Proves, authenticate_iff, authenticate-Refusal, revoked-never_authenticates,
}
use agent_locksmith.Auth.Cert.{
  X509, Certificate, MtlsAuthenticator, validate, extract_identity, authenticate_cert,
  with_identity, bind_identity, to_hex,
}
use agent_locksmith.Auth.Cert.Laws.{Trusted, NameOf, authenticate_cert-eq-ok}
use agent_locksmith.Auth.Middleware.{
  AuthenticatedAs, stamp, Gate, Request, both, as_bearer, pass, auth_middleware, by_mode,
  bearer_path, bearer_with, run_bearer_branch,
}
use agent_locksmith.Auth.Middleware.Laws.{Open, Authentic, auth_middleware-pass}
use agent_locksmith.Tests.Crates.{argon2, base64}
use agent_locksmith.Tests.Agents.{alice, bob, agents, bob_revoked, alice_touched, bob-revoke, past}

abbrev pub token : StructuredToken
token = record { namespace = agent; public_id = alice.public_id; secret = alice.secret_hash }

abbrev pub header : Text
header = codes "Bearer lk_aaaaaaaaaaaaaaaaaaaaaa.sssssssssssssssssssssssssssssssssssssssssss"

parse_iff_example :
    (parse base64 (codes "lk_x.y") ≡ ok token)
    ↔ ((codes "lk_x.y" ≡ wire_format token) × HasShape base64 token)
parse_iff_example = parse_iff base64 (codes "lk_x.y") token

abbrev id_bytes : Bytes
id_bytes = 1 ∷ 2 ∷ 3 ∷ 4 ∷ 5 ∷ 6 ∷ 7 ∷ 8 ∷ 9 ∷ 10 ∷ 11 ∷ 12 ∷ 13 ∷ 14 ∷ 15 ∷ 255 ∷ []

are_bytes : AreBytes id_bytes
are_bytes = ground arith

are_more_bytes : AreBytes (id_bytes ++ id_bytes)
are_more_bytes = ground arith

parse-wire_format_example :
    parse base64 (wire_format (generate base64 agent id_bytes (id_bytes ++ id_bytes)))
    ≡ ok (generate base64 agent id_bytes (id_bytes ++ id_bytes))
parse-wire_format_example =
    parse-wire_format base64 agent id_bytes (id_bytes ++ id_bytes) are_bytes are_more_bytes refl
      refl

abbrev pub authenticator : Bearer
authenticator = record { base64 = base64; argon2 = argon2; audit = true; now = 8; now_ms = 8000 }

authenticate_iff_example :
    ((authenticate_bearer authenticator agents header).result ≡ ok (identity_of alice)) ↔ (
      (r : AgentRecord) × (Proves authenticator agents header r)
      × (identity_of alice ≡ identity_of r))
authenticate_iff_example = authenticate_iff authenticator agents header (identity_of alice)

free : Free b'.' alice.public_id
free = ground arith

pub shape : HasShape base64 token
unfolding len
shape = (free, refl, refl, refl, refl)

-- the header proves to be of the row of alice, which `touch_last_used` may have changed
abbrev pub seen : Option ℕ → AgentRecord
seen at = record alice { last_used_at = at }

pub proof :
    (db : Agents) (at : Option ℕ)
    → get_active_by_public_id db alice.public_id ≡ ok (some (seen at))
    → Proves authenticator db header (seen at)
unfolding wire_format ◌==◌
proof db at active = record {
  token = token;
  printed = refl;
  shape = shape;
  namespace = refl;
  active = active;
  in_time = refl;
  secret = refl;
}

pub accepted :
    (db : Agents) (at : Option ℕ)
    → get_active_by_public_id db alice.public_id ≡ ok (some (seen at))
    → (authenticate_bearer authenticator db header).result ≡ ok (identity_of alice)
accepted db at active =
    (authenticate_iff authenticator db header (identity_of alice)).1
      (seen at, proof db at active, refl)

pub alice-active : get_active_by_public_id agents alice.public_id ≡ ok (some alice)
unfolding get_active_by_public_id ◌==◌
alice-active = refl

touched-active : get_active_by_public_id alice_touched alice.public_id ≡ ok (some (seen (some 8)))
unfolding get_active_by_public_id ◌==◌
touched-active = refl

revoked-never_authenticates_example : (identity_of alice).public_id ≢ bob.public_id
revoked-never_authenticates_example =
    revoked-never_authenticates authenticator agents bob_revoked alice_touched bob.public_id 7
      bob-revoke past header (identity_of alice) (accepted alice_touched (some 8) touched-active)

refused :
    (authenticate_bearer authenticator agents (codes "Basic x")).result ≡ err missing_credential
unfolding authenticate_bearer with_header strip_prefix
refused = refl

authenticate-Refusal_example :
    Refusal authenticator agents
      (codes "Basic x")
      missing_credential
      (authenticate_bearer authenticator agents (codes "Basic x"))
authenticate-Refusal_example =
    authenticate-Refusal authenticator agents (codes "Basic x") missing_credential refused

abbrev certificate : Certificate
certificate = record {
  not_before = 0;
  not_after = 100;
  serial = 10 ∷ 255 ∷ [];
  common_name = some (codes "alice.example");
  general_names = [];
}

abbrev x509 : X509
x509 = record {
  parse_many = λ pem. none;
  from_der = λ der. some certificate;
  end_entity = λ der. true;
  is_anchor = λ root. true;
  verify_for_usage = λ der anchors now. true;
  revoked_certificates = λ der. none;
}

abbrev cert_authenticator : MtlsAuthenticator
cert_authenticator = record {
  x509 = x509;
  validator = record { roots = (1 ∷ []) ∷ []; crl = some (codes "0bff" ∷ []); blocklist = none };
  audit = true;
  now = 8;
  now_ms = 8000;
}

cert-accepted : (authenticate_cert cert_authenticator agents (1 ∷ [])).0 ≡ ok (identity_of alice)
unfolding authenticate_cert with_identity bind_identity validate extract_identity
    get_by_cert_identity ◌==◌ to_hex to_ascii_lowercase lower
cert-accepted = refl

authenticate_cert-eq-ok_example :
    (c : Certificate) × (Trusted x509 cert_authenticator.validator 8 (1 ∷ []) c)
    × ((name : Text) × (r : AgentRecord) × (NameOf c.common_name c.general_names name)
        × (r.cert_identity ≡ some name)
        × (get_by_cert_identity agents name ≡ ok (some r))
        × (identity_of alice ≡ identity_of r))
authenticate_cert-eq-ok_example =
    authenticate_cert-eq-ok cert_authenticator agents (1 ∷ []) (identity_of alice) cert-accepted

abbrev front_gate : Gate
front_gate = record {
  auth_mode = both;
  mtls_authenticator = none;
  agent_auth = some authenticator;
  inbound_auth = none;
}

abbrev request : Request
request = record { path = codes "/api/search"; authorization = some (some header); peer = none }

passes :
    (auth_middleware front_gate agents request).verdict
    ≡ pass (some as_bearer) (some (identity_of alice))
unfolding auth_middleware by_mode bearer_path bearer_with run_bearer_branch ◌==◌
passes = ap (stamp as_bearer) (accepted agents none alice-active)

auth_middleware-pass_example :
    (Open request × (some as_bearer ≡ none) × (some (identity_of alice) ≡ none))
    ⊎ ((by : AuthenticatedAs) × (identity : AgentIdentity) × (some as_bearer ≡ some by)
        × (some (identity_of alice) ≡ some identity)
        × (Authentic front_gate agents request identity by))
auth_middleware-pass_example =
    auth_middleware-pass front_gate agents request authenticator refl (some as_bearer)
      (some (identity_of alice)) passes
