-- ===== src/Admin/Register/Steps.antt =====
-- Induction over the accesses of `register_agent` of src/admin/service.rs: what the writes of the call
-- and of the other tasks keep, the call keeps.
use agent_locksmith.Prelude.{
  ℕ, ◌≡◌, refl, Bool, true, false, Option, none, some, Result, ok, err, Result-cases, inl, inr,
  if◌then◌else◌,
}
use agent_locksmith.Text.{Text}
use agent_locksmith.Token.{StructuredToken, parse}
use agent_locksmith.Agent.{AgentRecord}
use agent_locksmith.Agent.Table.{Agents, NewAgent, RepoError, create_reviewed, revoke}
use agent_locksmith.Bootstrap.{Tokens, BootstrapScope, Claim, consume_commit, same_scope}
use agent_locksmith.Admin.{Admin, AdminState, AdminError, invalid_bootstrap, World, Call, from_repo}
use agent_locksmith.Admin.Register.{
  RegisterInput, RegisterOutput, rolled_back, consumed, claimed, fetched, created, previewed,
  bootstrapped, register_agent_inner, is_bootstrap, new_agent,
}

pub record Steps (a : Admin) (w : World) (P : AdminState → Type 0) : Type 0 where
  pub waits : (i : ℕ) (s : AdminState) → P s → P (w.others i s)
  pub creates :
      (s : AdminState) (new : NewAgent) (now : ℕ) (agents : Agents) (id secret : Text)
      → create_reviewed a.argon2 s.agents s.registrations new w.issued now ≡ ok (agents, id, secret)
      → P s
      → P (record s { agents = agents })
  pub revokes :
      (s : AdminState) (id : Text) (now : ℕ) (agents : Agents)
      → revoke s.agents id now ≡ ok agents
      → P s
      → P (record s { agents = agents })
  pub consumes :
      (s : AdminState) (c : Claim) (now : ℕ) (tokens : Tokens) (scope : BootstrapScope)
      → consume_commit s.tokens c now ≡ ok (tokens, scope)
      → P s
      → P (record s { tokens = tokens })

module _ (a : Admin) (w : World) (input : RegisterInput) (P : AdminState → Type 0)
    (steps : Steps a w P) where
  rolled_back-Steps :
      (s : AdminState) (id : Text) (e : AdminError) → P s → P (rolled_back a w input s id e).1
  unfolding rolled_back
  rolled_back-Steps s id e p =
      let s' = w.others 5 s in
      let p' = steps.waits 5 s p in
      elim (Result-cases (revoke s'.agents id (w.clock 5))) [
        | inl (agents, r) ↦ rw r (steps.revokes s' id (w.clock 5) agents r p')
        | inr (f, r) ↦ rw r p'
      ]

  if-Steps : (c : Bool) (x y : Call RegisterOutput) → P x.1 → P y.1 → P (if c then x else y).1
  if-Steps true x y hx hy = hx
  if-Steps false x y hx hy = hy

  consumed-Steps :
      (s : AdminState) (scope : BootstrapScope) (agent : AgentRecord) (id secret : Text) (c : Claim)
      (now : ℕ) (r : Result (Tokens × BootstrapScope) RepoError)
      → consume_commit s.tokens c now ≡ r
      → P s
      → P (consumed a w input s scope agent id secret r).1
  unfolding consumed
  consumed-Steps s scope agent id secret c now (err e) h p =
      rolled_back-Steps s id (from_repo a e) p
  consumed-Steps s scope agent id secret c now (ok (tokens, scope')) h p =
      let p' = steps.consumes s c now tokens scope' h p in
      if-Steps (same_scope scope' scope) _ _ p'
        (rolled_back-Steps (record s { tokens = tokens }) id invalid_bootstrap p')

  claimed-Steps :
      (s : AdminState) (scope : BootstrapScope) (agent : AgentRecord) (id secret : Text)
      (r : Result Claim RepoError)
      → P s
      → P (claimed a w input s scope agent id secret r).1
  unfolding claimed
  claimed-Steps s scope agent id secret (err e) p = rolled_back-Steps s id (from_repo a e) p
  claimed-Steps s scope agent id secret (ok c) p =
      consumed-Steps (w.others 4 s) scope agent id secret c (w.clock 4) _ refl (steps.waits 4 s p)

  fetched-Steps :
      (s : AdminState) (t : StructuredToken) (scope : BootstrapScope) (id secret : Text)
      (r : Result (Option AgentRecord) RepoError)
      → P s
      → P (fetched a w input s t scope id secret r).1
  unfolding fetched
  fetched-Steps s t scope id secret (err e) p = p
  fetched-Steps s t scope id secret (ok none) p = p
  fetched-Steps s t scope id secret (ok (some agent)) p =
      claimed-Steps (w.others 3 s) scope agent id secret _ (steps.waits 3 s p)

  created-Steps :
      (s : AdminState) (t : StructuredToken) (scope : BootstrapScope) (now : ℕ)
      (r : Result (Agents × Text × Text) RepoError)
      → create_reviewed a.argon2 s.agents s.registrations (new_agent input scope) w.issued now ≡ r
      → P s
      → P (created a w input s t scope r).1
  unfolding created
  created-Steps s t scope now (err e) h p = p
  created-Steps s t scope now (ok (agents, id, secret)) h p =
      let p' = steps.creates s (new_agent input scope) now agents id secret h p in
      fetched-Steps (w.others 2 (record s { agents = agents })) t scope id secret _
        (steps.waits 2 (record s { agents = agents }) p')

  previewed-Steps :
      (s : AdminState) (t : StructuredToken) (r : Result BootstrapScope RepoError)
      → P s
      → P (previewed a w input s t r).1
  unfolding previewed
  previewed-Steps s t (err e) p = p
  previewed-Steps s t (ok scope) p =
      created-Steps (w.others 1 s) t scope (w.clock 1) _ refl (steps.waits 1 s p)

  pub register_agent_inner-Steps : (s : AdminState) → P s → P (register_agent_inner a w input s).1
  unfolding register_agent_inner bootstrapped
  register_agent_inner-Steps s p = elim (Result-cases (parse a.base64 input.bootstrap_token)) [
    | inr (e, r) ↦ rw r p
    | inl (t, r) ↦ rw r (
        if-Steps (is_bootstrap t.namespace) _ _
          (previewed-Steps (w.others 0 s) t _ (steps.waits 0 s p)) p)
  ]
