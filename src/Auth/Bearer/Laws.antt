-- ===== src/Auth/Bearer/Laws.antt =====
-- What a bearer token proves, and what a refusal leaves behind: about
-- `BearerAuthenticator` of src/auth_v2/agent.rs.
use agent_locksmith.Prelude.{
  ℕ, ◌≡◌, refl, ap, sym, ◌∙◌, ◌≢◌, ◌↔◌, Bool, true, false, inl, inr, Option, none, some, ◌++◌, ok,
  err, Result-cases, Option-cases, Bool-cases, is_some_and, arith, ltb, find-eq-some, is_some, not,
  ◌&&◌,
}
use agent_locksmith.Text.{Text, codes, strip_prefix, ◌==◌}
use agent_locksmith.Text.Laws.{strip_prefix-append, strip_prefix-eq-some, eq_iff}
use agent_locksmith.Token.{
  StructuredToken, TokenNamespace, agent, operator, bootstrap, wire_format, parse,
}
use agent_locksmith.Token.Laws.{HasShape, parse_iff}
use agent_locksmith.Agent.{AgentRecord, AgentIdentity, identity_of}
use agent_locksmith.Agent.Table.{Agents, get_active_by_public_id, revoke}
use agent_locksmith.Agent.Table.History.{History, revoked_for_good}
use agent_locksmith.Auth.{AuthError}
use agent_locksmith.Auth.Bearer.Refusal.{Refusal, with_header-Refuses}
use agent_locksmith.Auth.Bearer.{
  Bearer, authenticate_bearer, resolve, resolve_row, resolve_read, with_header, with_parsed,
  is_agent,
}

-- The header carries the printed token of an agent whose row is active, not expired and has a hash
-- that verifies the secret.
pub record Proves (b : Bearer) (db : Agents) (header : Text) (r : AgentRecord) : Type 0 where
  pub token : StructuredToken
  pub printed : header ≡ codes "Bearer " ++ wire_format token
  pub shape : HasShape b.base64 token
  pub namespace : token.namespace ≡ agent
  pub active : get_active_by_public_id db token.public_id ≡ ok (some r)
  pub in_time : is_some_and r.expires_at (λ e. ltb e b.now) ≡ false
  pub secret : b.argon2.verify r.secret_hash token.secret ≡ some true

agent_of_test : (ns : TokenNamespace) → is_agent ns ≡ true → ns ≡ agent
agent_of_test agent h = refl
agent_of_test operator h = ground arith
agent_of_test bootstrap h = ground arith

module _ (b : Bearer) (db : Agents) where
  resolve_row-eq-ok :
      (secret : Text) (row : Option AgentRecord) (identity : AgentIdentity)
      → (resolve_row b db secret row).result ≡ ok identity
      → (r : AgentRecord) × (row ≡ some r)
        × (is_some_and r.expires_at (λ e. ltb e b.now) ≡ false)
        × (b.argon2.verify r.secret_hash secret ≡ some true)
        × (identity ≡ identity_of r)
  unfolding resolve_row
  resolve_row-eq-ok secret none identity h = ground arith
  resolve_row-eq-ok secret (some r) identity h =
      elim (Bool-cases (is_some_and r.expires_at (λ e. ltb e b.now))) [
        | inl late ↦ ground arith
        | inr in_time ↦ elim (Option-cases (b.argon2.verify r.secret_hash secret)) [
          | inl failed ↦ ground arith
          | inr (same, verdict) ↦ elim (Bool-cases same) [
            | inl t ↦ (r, refl, in_time, verdict ∙ ap some t, ground arith)
            | inr f ↦ ground arith
          ]
        ]
      ]

  authenticate-eq-ok :
      (header : Text) (identity : AgentIdentity)
      → (authenticate_bearer b db header).result ≡ ok identity
      → (r : AgentRecord) × (Proves b db header r) × (identity ≡ identity_of r)
  unfolding authenticate_bearer with_header with_parsed resolve resolve_read
  authenticate-eq-ok header identity h =
      elim (Option-cases (strip_prefix (codes "Bearer ") header)) [
        | inl missing ↦ ground arith
        | inr (raw, stripped) ↦ elim (Result-cases (parse b.base64 raw)) [
          | inr (e, malformed) ↦ ground arith
          | inl (t, parsed) ↦ elim (Bool-cases (is_agent t.namespace)) [
            | inr other ↦ ground arith
            | inl same ↦ elim (Result-cases (get_active_by_public_id db t.public_id)) [
              | inr (e, failed) ↦ ground arith
              | inl (row, read) ↦
                  let (r, found, in_time, secret, e) =
                    resolve_row-eq-ok t.secret row identity (ground arith) in
                  let (whole, shape) = (parse_iff b.base64 raw t).0 parsed in
                  (
                    r,
                    record {
                      token = t;
                      printed =
                          strip_prefix-eq-some (codes "Bearer ") header raw stripped
                          ∙ ap (λ x. codes "Bearer " ++ x) whole;
                      shape = shape;
                      namespace = agent_of_test t.namespace same;
                      active = read ∙ ap ok found;
                      in_time = in_time;
                      secret = secret;
                    },
                    e,
                  )
            ]
          ]
        ]
      ]

  Proves-authenticate :
      (header : Text) (r : AgentRecord)
      → Proves b db header r
      → (authenticate_bearer b db header).result ≡ ok (identity_of r)
  unfolding authenticate_bearer with_header with_parsed resolve resolve_read resolve_row
  Proves-authenticate header r p =
      let t = p.token in
      let stripped =
        ap (strip_prefix (codes "Bearer ")) p.printed
        ∙ strip_prefix-append (codes "Bearer ") (wire_format t) in
      let parsed = (parse_iff b.base64 (wire_format t) t).1 (refl, p.shape) in
      ap (λ x. (with_header b db x).result) stripped
      ∙ ap (λ x. (with_parsed b db x).result) parsed
      ∙ rw (p.namespace)
          (ap (λ x. (resolve_read b db t.secret x).result) p.active ∙ rw (p.in_time, p.secret) refl)

  -- The bearer authenticator accepts a header exactly if it is `Bearer ` and the printed token of an
  -- agent that is in the table, not revoked, not expired, and whose stored hash verifies the secret;
  -- and the identity it returns is that agent's.
  pub authenticate_iff :
      (header : Text) (identity : AgentIdentity)
      → ((authenticate_bearer b db header).result ≡ ok identity)
        ↔ ((r : AgentRecord) × (Proves b db header r) × (identity ≡ identity_of r))
  authenticate_iff header identity = (
    authenticate-eq-ok header identity,
    λ (r, p, e). Proves-authenticate header r p ∙ ap ok (sym e),
  )

module _ (b : Bearer) (db : Agents) (header : Text) where
  -- A refused header changes nothing in the table. It is the 500 of a backend that failed (the table
  -- could not be read, or the stored hash not be checked) with no audit row; or a 401 whose reason (no
  -- bearer token, a malformed one, another namespace, an unknown public id, an expired agent, a
  -- secret that does not match) is what happened, with the one denial row of that reason if there is
  -- an audit repository, and none otherwise.
  pub authenticate-Refusal :
      (e : AuthError)
      → (authenticate_bearer b db header).result ≡ err e
      → Refusal b db header e (authenticate_bearer b db header)
  unfolding authenticate_bearer
  authenticate-Refusal e h =
      with_header-Refuses b db header (strip_prefix (codes "Bearer ") header) refl e h

active-public_id :
    (db : Agents) (id : Text) (r : AgentRecord)
    → get_active_by_public_id db id ≡ ok (some r)
    → r.public_id ≡ id
unfolding get_active_by_public_id
active-public_id db id r h =
    let wanted : AgentRecord → Bool = λ r. r.public_id == id && not (is_some r.revoked_at) in
    ground (arith, find-eq-some {0} wanted db.rows r, eq_iff r.public_id id)

-- After an agent is revoked no header authenticates as it, whatever the repository, the triggers of
-- the registrations and the migration of bindings write to the table before the header comes.
pub revoked-never_authenticates :
    (b : Bearer) (db db' db'' : Agents) (id : Text) (now : ℕ)
    → revoke db id now ≡ ok db'
    → History b.argon2 db' db''
    → (header : Text) (identity : AgentIdentity)
    → (authenticate_bearer b db'' header).result ≡ ok identity
    → identity.public_id ≢ id
revoked-never_authenticates b db db' db'' id now h past header identity accepted e =
    let (r, p, same) = authenticate-eq-ok b db'' header identity accepted in
    let public = active-public_id db'' p.token.public_id r p.active in
    let wanted : p.token.public_id ≡ id = sym public ∙ sym (ap (λ i. i.public_id) same) ∙ e in
    let none_there = revoked_for_good b.argon2 db db' db'' id now h past in
    let found = sym (ap (get_active_by_public_id db'') wanted) ∙ p.active in
    elim (Bool-cases db''.online) [ inl up ↦ ground arith | inr down ↦ ground arith ]
