-- ===== src/Admin/Register/Inversion.antt =====
-- What stands behind a registration that was answered with a token: the accesses of `register_agent`
-- of src/admin/service.rs in their order.
use agent_locksmith.Prelude.{
  ◌≡◌, refl, sym, subst, Bool, true, false, Option, none, some, Result, ok, err, Bool-cases, inl,
  inr, arith, if◌then◌else◌,
}
use agent_locksmith.Text.{Text}
use agent_locksmith.Token.{StructuredToken, ParseError, parse}
use agent_locksmith.Agent.{AgentRecord}
use agent_locksmith.Agent.Table.{Agents, RepoError, create_reviewed, get_active_by_public_id}
use agent_locksmith.Bootstrap.{
  Tokens, BootstrapScope, Claim, preview_scope, consume_read, consume_commit, same_scope,
}
use agent_locksmith.Admin.{Admin, AdminState, AdminError, invalid_bootstrap, World, Call, from_repo}
use agent_locksmith.Admin.Register.{
  RegisterInput, RegisterOutput, agent_token, rolled_back, consumed, claimed, fetched, created,
  previewed, bootstrapped, register_agent_inner, is_bootstrap, new_agent,
}

module _ (a : Admin) (w : World) (input : RegisterInput) (s : AdminState) where
  -- the states that the accesses meet; the later ones depend on the table with the new row
  abbrev pub at_preview : AdminState
  at_preview = w.others 0 s

  abbrev pub at_create : AdminState
  at_create = w.others 1 at_preview

  abbrev pub at_fetch : Agents → AdminState
  at_fetch agents = w.others 2 (record at_create { agents = agents })

  abbrev pub at_claim : Agents → AdminState
  at_claim agents = w.others 3 (at_fetch agents)

  abbrev pub at_consume : Agents → AdminState
  at_consume agents = w.others 4 (at_claim agents)

  pub record Registered (out : RegisterOutput) (end : AdminState) : Type 0 where
    pub t : StructuredToken
    pub scope : BootstrapScope
    pub agents : Agents
    pub pid : Text
    pub secret : Text
    pub agent : AgentRecord
    pub claim : Claim
    pub tokens : Tokens
    pub scope' : BootstrapScope
    pub parsed : parse a.base64 input.bootstrap_token ≡ ok t
    pub namespace : is_bootstrap t.namespace ≡ true
    pub preview : preview_scope at_preview.tokens t.public_id (w.clock 0) ≡ ok scope
    pub creation :
        create_reviewed a.argon2 at_create.agents at_create.registrations
          (new_agent input scope)
          w.issued
          (w.clock 1)
        ≡ ok (agents, pid, secret)
    pub fetch : get_active_by_public_id (at_fetch agents).agents pid ≡ ok (some agent)
    pub reading :
        consume_read a.argon2 (at_claim agents).tokens t.public_id t.secret agent.id (w.clock 3)
        ≡ ok claim
    pub commit : consume_commit (at_consume agents).tokens claim (w.clock 4) ≡ ok (tokens, scope')
    pub same : same_scope scope' scope ≡ true
    pub answer : out ≡ record {
      public_id = pid;
      token = agent_token agent.public_id secret;
      allowlist = scope.tool_allowlist;
    }
    pub state : end ≡ record (at_consume agents) { tokens = tokens }

pub if-true {ℓ} : {A : Type ℓ} (c : Bool) (x y : A) → c ≡ true → (if c then x else y) ≡ x
if-true c x y h = rw h refl

pub if-false {ℓ} : {A : Type ℓ} (c : Bool) (x y : A) → c ≡ false → (if c then x else y) ≡ y
if-false c x y h = rw h refl

ok-injective {ℓ κ} :
    {A : Type ℓ} {E : Type κ} {x y : A} → (let r : Result A E = ok x in r) ≡ ok y → y ≡ x
ok-injective h = cc

-- a call that returned a value, and the state that it left
abbrev Done {ℓ} : {A : Type ℓ} → Call A → A → AdminState → Type ℓ
Done call out end = (call.0 ≡ ok out) × (call.1 ≡ end)

module _ (a : Admin) (w : World) (input : RegisterInput) (out : RegisterOutput)
    (end : AdminState) where
  rolled_back-eq-err :
      (s : AdminState) (id : Text) (e : AdminError)
      → Done (rolled_back a w input s id e) out end
      → ⊥
  unfolding rolled_back
  rolled_back-eq-err s id e h = ground (arith, h.0)

  consumed-Done :
      (s : AdminState) (scope : BootstrapScope) (agent : AgentRecord) (pid secret : Text)
      (r : Result (Tokens × BootstrapScope) RepoError)
      → Done (consumed a w input s scope agent pid secret r) out end
      → (tokens : Tokens) × (scope' : BootstrapScope) × (r ≡ ok (tokens, scope'))
        × (same_scope scope' scope ≡ true)
        × (out ≡ record {
          public_id = pid;
          token = agent_token agent.public_id secret;
          allowlist = scope.tool_allowlist;
        })
        × (end ≡ record s { tokens = tokens })
  unfolding consumed
  consumed-Done s scope agent pid secret (err e) h =
      absurd (rolled_back-eq-err s pid (from_repo a e) h)
  consumed-Done s scope agent pid secret (ok (tokens, scope')) h =
      elim (Bool-cases (same_scope scope' scope)) [
        | inr f ↦ absurd (
            rolled_back-eq-err (record s { tokens = tokens }) pid invalid_bootstrap
              (subst (λ call. Done call out end) (if-false (same_scope scope' scope) _ _ f) h))
        | inl t ↦
            let (answered, left) =
              subst (λ call. Done call out end) (if-true (same_scope scope' scope) _ _ t) h in
            (tokens, scope', refl, t, ok-injective answered, sym left)
      ]

  consumed-reached :
      (s : AdminState) (scope : BootstrapScope) (agent : AgentRecord) (pid secret : Text)
      (r : Result Claim RepoError)
      → Done (claimed a w input s scope agent pid secret r) out end
      → (c : Claim) × (r ≡ ok c)
        × Done
            (consumed a w input
              (w.others 4 s)
              scope
              agent
              pid
              secret
              (consume_commit (w.others 4 s).tokens c (w.clock 4)))
            out
            end
  unfolding claimed
  consumed-reached s scope agent pid secret (err e) h =
      absurd (rolled_back-eq-err s pid (from_repo a e) h)
  consumed-reached s scope agent pid secret (ok c) h = (c, refl, h)

  claimed-reached :
      (s : AdminState) (t : StructuredToken) (scope : BootstrapScope) (pid secret : Text)
      (r : Result (Option AgentRecord) RepoError)
      → Done (fetched a w input s t scope pid secret r) out end
      → (agent : AgentRecord) × (r ≡ ok (some agent))
        × Done
            (claimed a w input (w.others 3 s) scope agent pid secret (
              consume_read a.argon2
                (w.others 3 s).tokens
                t.public_id
                t.secret
                agent.id
                (w.clock 3)))
            out
            end
  unfolding fetched
  claimed-reached s t scope pid secret (err e) h = ground (arith, h.0)
  claimed-reached s t scope pid secret (ok none) h = ground (arith, h.0)
  claimed-reached s t scope pid secret (ok (some agent)) h = (agent, refl, h)

  fetched-reached :
      (s : AdminState) (t : StructuredToken) (scope : BootstrapScope)
      (r : Result (Agents × Text × Text) RepoError)
      → Done (created a w input s t scope r) out end
      → (agents : Agents) × (pid : Text) × (secret : Text) × (r ≡ ok (agents, pid, secret))
        × Done
            (fetched a w input
              (w.others 2 (record s { agents = agents }))
              t
              scope
              pid
              secret
              (get_active_by_public_id (w.others 2 (record s { agents = agents })).agents pid))
            out
            end
  unfolding created
  fetched-reached s t scope (err e) h = ground (arith, h.0)
  fetched-reached s t scope (ok (agents, pid, secret)) h = (agents, pid, secret, refl, h)

  created-reached :
      (s : AdminState) (t : StructuredToken) (r : Result BootstrapScope RepoError)
      → Done (previewed a w input s t r) out end
      → (scope : BootstrapScope) × (r ≡ ok scope)
        × Done
            (created a w input (w.others 1 s) t scope (
              create_reviewed a.argon2
                (w.others 1 s).agents
                (w.others 1 s).registrations
                (new_agent input scope)
                w.issued
                (w.clock 1)))
            out
            end
  unfolding previewed
  created-reached s t (err e) h = ground (arith, h.0)
  created-reached s t (ok scope) h = (scope, refl, h)

  previewed-reached :
      (s : AdminState) (r : Result StructuredToken ParseError)
      → Done (bootstrapped a w input s r) out end
      → (t : StructuredToken) × (r ≡ ok t)
        × (is_bootstrap t.namespace ≡ true)
        × Done
            (previewed a w input
              (w.others 0 s)
              t
              (preview_scope (w.others 0 s).tokens t.public_id (w.clock 0)))
            out
            end
  unfolding bootstrapped
  previewed-reached s (err e) h = ground (arith, h.0)
  previewed-reached s (ok t) h = elim (Bool-cases (is_bootstrap t.namespace)) [
    | inl b ↦
        (t, refl, b, subst (λ call. Done call out end) (if-true (is_bootstrap t.namespace) _ _ b) h)
    | inr b ↦
        let (refused, _) =
          subst (λ call. Done call out end) (if-false (is_bootstrap t.namespace) _ _ b) h in
        ground arith
  ]

  pub inner-Registered :
      (s : AdminState)
      → Done (register_agent_inner a w input s) out end
      → Registered a w input s out end
  unfolding register_agent_inner
  inner-Registered s h =
      let (t, parsed, namespace, h1) =
        previewed-reached s (parse a.base64 input.bootstrap_token) h in
      let (scope, preview, h2) = created-reached (at_preview a w input s) t _ h1 in
      let (agents, pid, secret, creation, h3) =
        fetched-reached (at_create a w input s) t scope _ h2 in
      let (agent, fetch, h4) =
        claimed-reached (at_fetch a w input s agents) t scope pid secret _ h3 in
      let (claim, reading, h5) =
        consumed-reached (at_claim a w input s agents) scope agent pid secret _ h4 in
      let (tokens, scope', commit, same, answer, state) =
        consumed-Done (at_consume a w input s agents) scope agent pid secret _ h5 in
      record {
        t = t;
        scope = scope;
        agents = agents;
        pid = pid;
        secret = secret;
        agent = agent;
        claim = claim;
        tokens = tokens;
        scope' = scope';
        parsed = parsed;
        namespace = namespace;
        preview = preview;
        creation = creation;
        fetch = fetch;
        reading = reading;
        commit = commit;
        same = same;
        answer = answer;
        state = state;
      }
