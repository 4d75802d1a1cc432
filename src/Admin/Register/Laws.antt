-- ===== src/Admin/Register/Laws.antt =====
-- What a registration gives and what a failed one leaves: `register_agent` of src/admin/service.rs with
-- the bearer authenticator of src/auth_v2/agent.rs.
use agent_locksmith.Prelude.{
  ℕ, suc, ◌≡◌, refl, sym, ap, ◌∙◌, ◌&&◌, not, Bool, true, false, none, some, List, [], ◌∷◌, ◌++◌,
  any, find-snoc, ok, arith, is_some, unwrap_or, Bool-cases, Option-cases, inl, inr,
}
use agent_locksmith.Text.{Text, codes, ◌==◌}
use agent_locksmith.Text.Laws.{eq_refl}
use agent_locksmith.Token.{StructuredToken, agent, wire_format, parse}
use agent_locksmith.Bootstrap.{
  Tokens, BootstrapTokenRecord, BootstrapScope, find_token, open_token, preview_scope,
}
use agent_locksmith.Token.Laws.{HasShape}
use agent_locksmith.Agent.{AgentRecord, AgentIdentity, identity_of}
use agent_locksmith.Agent.Table.{
  Agents, NewAgent, Issued, conflicts, new_row, create_reviewed, get_active_by_public_id,
}
use agent_locksmith.Agent.Table.Laws.{create_inner-eq-ok}
use agent_locksmith.Auth.Bearer.{Bearer, authenticate_bearer}
use agent_locksmith.Auth.Bearer.Laws.{authenticate_iff}
use agent_locksmith.Admin.{Admin, AdminState, World}
use agent_locksmith.Admin.Register.{
  RegisterInput, RegisterOutput, register_agent, agent_token, new_agent,
}
use agent_locksmith.Admin.Register.Inversion.{Registered, at_create, at_fetch, at_claim}
use agent_locksmith.Admin.Register.Once.{register_agent-Registered}

-- No other task writes while the call waits.
abbrev pub Quiet : World → Type 0
Quiet w = (i : ℕ) (s : AdminState) → w.others i s ≡ s

pub none-active_before :
    (name id : Text) (rows : List AgentRecord)
    → conflicts name id rows ≡ false
    → any (λ r. r.public_id == id && not (is_some r.revoked_at)) rows ≡ false
unfolding conflicts
none-active_before name id [] h = refl
none-active_before name id (r ∷ rows) h = ground (arith, none-active_before name id rows)

-- the new row is the active one with its public id
active-new :
    (db : Agents) (new : NewAgent) (token : Issued) (h : Text) (id now next : ℕ) (r : AgentRecord)
    → conflicts new.name token.public_id db.rows ≡ false
    → get_active_by_public_id
        (record db { rows = db.rows ++ new_row new token h id now ∷ []; next_id = next })
        token.public_id
      ≡ ok (some r)
    → r ≡ new_row new token h id now
unfolding get_active_by_public_id
active-new db new token h id now next r free found =
    let made = new_row new token h id now in
    let wanted : AgentRecord → Bool =
      λ r. r.public_id == token.public_id && not (is_some r.revoked_at) in
    let hit : wanted made ≡ true = rw (eq_refl token.public_id) refl in
    let there =
      find-snoc wanted made hit db.rows
        (none-active_before new.name token.public_id db.rows free) in
    elim (Bool-cases db.online) [ inl up ↦ ground arith | inr down ↦ ground arith ]

module _ (a : Admin) (w : World) (input : RegisterInput) (s : AdminState) (out : RegisterOutput)
    (end : AdminState) (done : Registered a w input s out end) where
  open done use {pid, secret, agents, scope, t}

  -- the new agent's row, in the table that the call left
  registered-row :
      Quiet w
      → (h : Text) × (next : ℕ) × (a.argon2.hash w.issued.salt w.issued.secret ≡ some h)
        × (done.agent ≡ new_row (new_agent input scope) w.issued h next (w.clock 1))
        × (get_active_by_public_id end.agents w.issued.public_id ≡ ok (some done.agent))
        × (pid ≡ w.issued.public_id)
        × (secret ≡ w.issued.secret)
  unfolding create_reviewed
  registered-row quiet =
      let (h, hashed, free, _, e, same_id, same_secret) =
        create_inner-eq-ok a.argon2 (at_create a w input s).agents
          (at_create a w input s).registrations (new_agent input scope) w.issued (w.clock 1) true
          agents pid secret done.creation in
      let fetched : get_active_by_public_id agents pid ≡ ok (some done.agent) =
        sym (
          ap (λ u. get_active_by_public_id u.agents pid)
            (quiet 2 (record (at_create a w input s) { agents = agents })))
        ∙ done.fetch in
      let s1 = record (at_create a w input s) { agents = agents } in
      let rows = λ (u : AdminState). u.agents in
      let left : end.agents ≡ agents =
        ap rows done.state
        ∙ ap rows (quiet 4 (at_claim a w input s agents))
        ∙ ap rows (quiet 3 (at_fetch a w input s agents))
        ∙ ap rows (quiet 2 s1) in
      let there = ap (get_active_by_public_id agents) (sym same_id) ∙ fetched in
      (
        h,
        (at_create a w input s).agents.next_id,
        hashed,
        active-new (at_create a w input s).agents (new_agent input scope) w.issued h
            (at_create a w input s).agents.next_id (w.clock 1)
            (suc (at_create a w input s).agents.next_id) done.agent free
            (sym (ap (λ x. get_active_by_public_id x w.issued.public_id) e) ∙ there),
        ap (λ x. get_active_by_public_id x w.issued.public_id) left ∙ there,
        same_id,
        same_secret,
      )

preview-row :
    (db : Tokens) (id : Text) (now : ℕ) (scope : BootstrapScope)
    → preview_scope db id now ≡ ok scope
    → (r : BootstrapTokenRecord) × (find_token db id ≡ some r) × (r.scope ≡ scope)
unfolding preview_scope open_token
preview-row db id now scope h = elim (Option-cases (find_token db id)) [
  | inl missing ↦ ground arith
  | inr (r, found) ↦ (r, found, ground arith)
]

-- An agent that registered while no other task wrote can use its token at once: if the drawn parts have
-- the shape of a token, the bearer authenticator accepts the token that the call returned, and the
-- identity has the returned public id, the name that was asked for, no denylist and, as its allowlist,
-- the tools of the scope that the row of the presented bootstrap token has (none if the scope names
-- none), which the answer reports too.
pub registered-authenticates :
    (a : Admin) (w : World) (input : RegisterInput) (s : AdminState) (out : RegisterOutput)
    (b : Bearer)
    → Quiet w
    → b.argon2 ≡ a.argon2
    → HasShape b.base64
        (record { namespace = agent; public_id = w.issued.public_id; secret = w.issued.secret })
    → (register_agent a w input s).0 ≡ ok out
    → (t : StructuredToken) × (ticket : BootstrapTokenRecord) × (identity : AgentIdentity) × (parse
          a.base64 input.bootstrap_token
        ≡ ok t)
      × (find_token s.tokens t.public_id ≡ some ticket)
      × (out.allowlist ≡ ticket.scope.tool_allowlist)
      × (identity.tool_allowlist ≡ some (unwrap_or ticket.scope.tool_allowlist []))
      × ((authenticate_bearer b
            (register_agent a w input s).1.agents
            (codes "Bearer " ++ out.token)).result
          ≡ ok identity)
      × (identity.public_id ≡ out.public_id)
      × (identity.name ≡ input.name)
      × (identity.tool_denylist ≡ none)
unfolding wire_format
registered-authenticates a w input s out b quiet same shape h =
    let (end, done, _, left) = register_agent-Registered a w input s out h in
    let (hash, next, hashed, row, active, pid, secret) =
      registered-row a w input s out end done quiet in
    let made = new_row (new_agent input done.scope) w.issued hash next (w.clock 1) in
    let t : StructuredToken = record {
      namespace = agent;
      public_id = w.issued.public_id;
      secret = w.issued.secret;
    } in
    let printed : out.token ≡ wire_format t =
      ap (λ o. o.token) done.answer
      ∙ ap (λ r. agent_token r.public_id done.secret) row
      ∙ ap (agent_token w.issued.public_id) secret in
    let verified : b.argon2.verify hash w.issued.secret ≡ some true =
      ap (λ x. x.verify hash w.issued.secret) same
      ∙ a.argon2.verify-hash w.issued.salt w.issued.secret hash hashed in
    let previewed =
      ap (λ u. preview_scope u.tokens done.t.public_id (w.clock 0)) (sym (quiet 0 s))
      ∙ done.preview in
    let (ticket, found, scoped) =
      preview-row s.tokens done.t.public_id (w.clock 0) done.scope previewed in
    let granted = ap (λ (x : BootstrapScope). x.tool_allowlist) scoped in
    (
      done.t,
      ticket,
      identity_of made,
      done.parsed,
      found,
      ap (λ o. o.allowlist) done.answer ∙ sym granted,
      ap (λ l. some (unwrap_or l [])) (sym granted),
      (authenticate_iff b (register_agent a w input s).1.agents (codes "Bearer " ++ out.token)
            (identity_of made)).1
          (
            made,
            record {
              token = t;
              printed = ap (λ x. codes "Bearer " ++ x) printed;
              shape = shape;
              namespace = refl;
              active =
                  ap (λ x. get_active_by_public_id x w.issued.public_id) left
                  ∙ active
                  ∙ ap (λ r. ok (some r)) row;
              in_time = refl;
              secret = verified;
            },
            refl,
          ),
      sym pid ∙ sym (ap (λ o. o.public_id) done.answer),
      refl,
      refl,
    )
