-- ===== src/Admin/Register/Undone.antt =====
-- A registration that fails after its row was made: the revocation in `register_agent` of
-- src/admin/service.rs.
use agent_locksmith.Prelude.{
  suc, ◌≡◌, refl, sym, ap, subst, ◌∙◌, true, Option, none, some, [], ◌∷◌, ◌++◌, Result, ok, err,
  arith, Bool-cases, inl, inr,
}
use agent_locksmith.Text.{Text}
use agent_locksmith.Token.{StructuredToken, parse}
use agent_locksmith.Agent.{AgentRecord}
use agent_locksmith.Agent.Table.{
  Agents, RepoError, conflicts, new_row, create_reviewed, get_active_by_public_id, revoke,
}
use agent_locksmith.Agent.Table.Laws.{create_inner-eq-ok}
use agent_locksmith.Agent.Table.History.{start, revoked_for_good}
use agent_locksmith.Bootstrap.{
  Tokens, BootstrapScope, Claim, preview_scope, consume_read, consume_commit, same_scope,
}
use agent_locksmith.Admin.{
  Admin, AdminState, AdminError, invalid_bootstrap, World, Call, from_repo, write_audit,
}
use agent_locksmith.Admin.Register.{
  RegisterInput, RegisterOutput, rolled_back, consumed, claimed, fetched, created, previewed,
  bootstrapped, register_agent_inner, register_agent, register_audited, bootstrap_id, is_bootstrap,
  new_agent, kept_agents,
}
use agent_locksmith.Admin.Register.Inversion.{if-true, at_create, at_fetch}
use agent_locksmith.Admin.Register.Laws.{Quiet}
use agent_locksmith.Admin.Register.Added.{
  Added, added-active, any-snoc, conflicts-snoc, kept-conflicts, revoke-known,
}

ok-ne-err {ℓ κ} :
    {A : Type ℓ} {E : Type κ} {x : A} {e : E} → (let r : Result A E = ok x in r) ≡ err e → ⊥
ok-ne-err h = ground arith

module _ (a : Admin) (w : World) (input : RegisterInput) (quiet : Quiet w) where
  -- what a failure leaves of the agents that it met
  abbrev Undone : Agents → Text → AdminState → Type 0
  Undone db pid end = end.agents ≡ kept_agents (revoke db pid (w.clock 5)) db

  rolled_back-Undone :
      (s : AdminState) (pid : Text) (e : AdminError)
      → Undone s.agents pid (rolled_back a w input s pid e).1
  unfolding rolled_back
  rolled_back-Undone s pid e =
      ap (λ (u : AdminState). kept_agents (revoke u.agents pid (w.clock 5)) u.agents) (quiet 5 s)

  consumed-Undone :
      (s : AdminState) (scope : BootstrapScope) (agent : AgentRecord) (pid secret : Text)
      (r : Result (Tokens × BootstrapScope) RepoError) (e : AdminError)
      → (consumed a w input s scope agent pid secret r).0 ≡ err e
      → Undone s.agents pid (consumed a w input s scope agent pid secret r).1
  unfolding consumed
  consumed-Undone s scope agent pid secret (err x) e h = rolled_back-Undone s pid (from_repo a x)
  consumed-Undone s scope agent pid secret (ok (tokens, scope')) e h =
      elim (Bool-cases (same_scope scope' scope)) [
        | inr f ↦ rw f (rolled_back-Undone (record s { tokens = tokens }) pid invalid_bootstrap)
        | inl t ↦
            let clash =
              sym (ap (λ (c : Call RegisterOutput). c.0) (if-true (same_scope scope' scope) _ _ t))
              ∙ h in
            absurd (ok-ne-err clash)
      ]

  claimed-Undone :
      (s : AdminState) (scope : BootstrapScope) (agent : AgentRecord) (pid secret : Text)
      (r : Result Claim RepoError) (e : AdminError)
      → (claimed a w input s scope agent pid secret r).0 ≡ err e
      → Undone s.agents pid (claimed a w input s scope agent pid secret r).1
  unfolding claimed
  claimed-Undone s scope agent pid secret (err x) e h = rolled_back-Undone s pid (from_repo a x)
  claimed-Undone s scope agent pid secret (ok c) e h =
      subst
        (λ (u : AdminState).
          Undone u.agents pid
            (consumed a w input (w.others 4 s) scope agent pid secret
              (consume_commit (w.others 4 s).tokens c (w.clock 4))).1)
        (quiet 4 s) (consumed-Undone (w.others 4 s) scope agent pid secret _ e h)

  fetched-Undone :
      (s : AdminState) (t : StructuredToken) (scope : BootstrapScope) (pid secret : Text)
      (agent : AgentRecord) (r : Result (Option AgentRecord) RepoError) (e : AdminError)
      → r ≡ ok (some agent)
      → (fetched a w input s t scope pid secret r).0 ≡ err e
      → Undone s.agents pid (fetched a w input s t scope pid secret r).1
  unfolding fetched
  fetched-Undone s t scope pid secret agent (err x) e found h = ground arith
  fetched-Undone s t scope pid secret agent (ok none) e found h = ground arith
  fetched-Undone s t scope pid secret agent (ok (some x)) e found h =
      subst
        (λ (u : AdminState).
          Undone u.agents pid
            (claimed a w input (w.others 3 s) scope x pid secret (
              consume_read a.argon2 (w.others 3 s).tokens t.public_id t.secret x.id (w.clock 3))).1)
        (quiet 3 s) (claimed-Undone (w.others 3 s) scope x pid secret _ e h)

module _ (a : Admin) (w : World) (input : RegisterInput) (s : AdminState) (t : StructuredToken)
    (scope : BootstrapScope) (agents : Agents) (pid secret : Text) (e : AdminError)
    (quiet : Quiet w) (up : (at_create a w input s).agents.online ≡ true)
    (parsed : parse a.base64 input.bootstrap_token ≡ ok t)
    (namespace : is_bootstrap t.namespace ≡ true)
    (preview : preview_scope (w.others 0 s).tokens t.public_id (w.clock 0) ≡ ok scope)
    (creation : create_reviewed a.argon2
        (at_create a w input s).agents
        (at_create a w input s).registrations
        (new_agent input scope)
        w.issued
        (w.clock 1)
      ≡ ok (agents, pid, secret)) where
  -- the call gets as far as the row that it made
  reaches :
      register_agent_inner a w input s
      ≡ fetched a w input
          (at_fetch a w input s agents)
          t
          scope
          pid
          secret
          (get_active_by_public_id (at_fetch a w input s agents).agents pid)
  unfolding register_agent_inner bootstrapped previewed created
  reaches =
      ap (bootstrapped a w input s) parsed
      ∙ if-true (is_bootstrap t.namespace) _ _ namespace
      ∙ ap (previewed a w input (w.others 0 s) t) preview
      ∙ ap (created a w input (at_create a w input s) t scope) creation

  made-Added : Added input.name pid agents
  unfolding create_reviewed
  made-Added =
      let db = (at_create a w input s).agents in
      let (h, _, free, _, e, id, _) =
        create_inner-eq-ok a.argon2 db (at_create a w input s).registrations (new_agent input scope)
          w.issued (w.clock 1) true agents pid secret creation in
      let made = new_row (new_agent input scope) w.issued h db.next_id (w.clock 1) in
      let added : Added input.name w.issued.public_id
          (record db { rows = db.rows ++ made ∷ []; next_id = suc db.next_id }) =
        record {
          row = made;
          active = added-active db (new_agent input scope) w.issued h (w.clock 1) up free;
          known = any-snoc w.issued.public_id db.rows made refl;
          up = up;
          taken = λ other. conflicts-snoc input.name other db.rows made refl;
        } in
      subst (λ x. Added input.name x agents) (sym id)
        (subst (Added input.name w.issued.public_id) (sym e) added)

  undone :
      (row : AgentRecord)
      → get_active_by_public_id agents pid ≡ ok (some row)
      → (register_agent_inner a w input s).0 ≡ err e
      → (register_agent_inner a w input s).1.agents
        ≡ kept_agents (revoke agents pid (w.clock 5)) agents
  undone row active failed =
      let st = at_fetch a w input s agents in
      let same : st.agents ≡ agents =
        ap (λ u. u.agents) (quiet 2 (record (at_create a w input s) { agents = agents })) in
      let found : get_active_by_public_id st.agents pid ≡ ok (some row) =
        ap (λ x. get_active_by_public_id x pid) same ∙ active in
      let stopped = ap (λ (c : Call RegisterOutput). c.0) (sym reaches) ∙ failed in
      ap (λ (c : Call RegisterOutput). c.1.agents) reaches
      ∙ fetched-Undone a w input quiet st t scope pid secret row
          (get_active_by_public_id st.agents pid) e found stopped
      ∙ ap (λ x. kept_agents (revoke x pid (w.clock 5)) x) same

audited-agents :
    (a : Admin) (w : World) (input : RegisterInput) (quiet : Quiet w) (pid : Option Text)
    (call : Call RegisterOutput) (e : AdminError)
    → (register_audited a w input pid call).0 ≡ err e
    → (call.0 ≡ err e) × ((register_audited a w input pid call).1.agents ≡ call.1.agents)
unfolding register_audited write_audit
audited-agents a w input quiet pid (ok x, s) e h = absurd (ok-ne-err h)
audited-agents a w input quiet pid (err x, s) e h = (h, ap (λ u. u.agents) (quiet 6 s))

-- A registration that fails after the new row was written leaves an agent that cannot be used: while no
-- other task writes, if the table of agents is reachable, the bootstrap token's preview succeeds, the
-- row is made and the call answers an error, then no active agent has the new public id. The row is
-- revoked and not removed, so every later creation under that name is a conflict.
pub failed_registration-IsRevoked :
    (a : Admin) (w : World) (input : RegisterInput) (s : AdminState) (t : StructuredToken)
    (scope : BootstrapScope) (agents : Agents) (pid secret : Text) (e : AdminError)
    → Quiet w
    → (at_create a w input s).agents.online ≡ true
    → parse a.base64 input.bootstrap_token ≡ ok t
    → is_bootstrap t.namespace ≡ true
    → preview_scope (w.others 0 s).tokens t.public_id (w.clock 0) ≡ ok scope
    → create_reviewed a.argon2
        (at_create a w input s).agents
        (at_create a w input s).registrations
        (new_agent input scope)
        w.issued
        (w.clock 1)
      ≡ ok (agents, pid, secret)
    → (register_agent a w input s).0 ≡ err e
    → (get_active_by_public_id (register_agent a w input s).1.agents pid ≡ ok none)
      × ((id : Text) → conflicts input.name id (register_agent a w input s).1.agents.rows ≡ true)
unfolding register_agent
failed_registration-IsRevoked a w input s t scope agents pid secret e quiet up parsed namespace
      preview creation failed =
    let made =
      made-Added a w input s t scope agents pid secret e quiet up parsed namespace preview
        creation in
    let call = register_agent_inner a w input s in
    let (stopped, same) =
      audited-agents a w input quiet (bootstrap_id a w input (parse a.base64 input.bootstrap_token))
        call e failed in
    let left =
      same
      ∙ undone a w input s t scope agents pid secret e quiet up parsed namespace preview creation
          made.row made.active stopped in
    let (db, revoking, up') = revoke-known agents pid (w.clock 5) made.up made.known in
    let kept : (register_agent a w input s).1.agents ≡ db =
      left ∙ ap (λ r. kept_agents r agents) revoking in
    (
      ap (λ x. get_active_by_public_id x pid) kept
          ∙ revoked_for_good a.argon2 agents db db pid (w.clock 5) revoking start
          ∙ if-true db.online _ _ up',
      λ id.
          subst (λ x. conflicts input.name id x.rows ≡ true) (sym left)
            (kept-conflicts agents input.name id pid (w.clock 5) (made.taken id)),
    )
