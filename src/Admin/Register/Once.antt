-- ===== src/Admin/Register/Once.antt =====
-- One registration for a single-use token: `register_agent` of src/admin/service.rs over the table of
-- src/repo/bootstrap.rs.
use mathlib.Core.Logic.{if_neg}
use mathlib.Core.Bool.{false≢true}
use agent_locksmith.Prelude.{
  ℕ, ◌≡◌, refl, sym, ap, subst, ◌∙◌, true, false, Option, Result, ok, err, Result-cases, inl, inr,
  arith, is_ok,
}
use agent_locksmith.Text.{Text}
use agent_locksmith.Token.{StructuredToken, parse}
use agent_locksmith.Agent.Table.{Argon2}
use agent_locksmith.Bootstrap.{
  Tokens, BootstrapScope, BootstrapScope-discrete, Claim, preview_scope, consume_read,
  consume_commit, same_scope,
}
use agent_locksmith.Bootstrap.Once.{TokenHistory, consumed_once}
use agent_locksmith.Bootstrap.Unique.{IsUnique, TokenHistory-IsUnique, TokenHistory-append}
use agent_locksmith.Admin.{Admin, AdminState, World, Call, write_audit}
use agent_locksmith.Admin.Register.{
  RegisterInput, RegisterOutput, register_agent_inner, register_audited, register_agent,
  bootstrap_id,
}
use agent_locksmith.Admin.Register.Inversion.{
  Registered, inner-Registered, at_preview, at_create, at_fetch, at_claim, at_consume,
}

ok-eq {ℓ κ} : {A : Type ℓ} {E : Type κ} {x y : A} → (let r : Result A E = ok x in r) ≡ ok y → x ≡ y
ok-eq h = cc

-- What other tasks write to the tokens are writes of the repository.
abbrev pub HonestTokens : Argon2 → World → Type 0
HonestTokens argon2 w =
    (i : ℕ) (s : AdminState) → TokenHistory argon2 s.tokens (w.others i s).tokens

same_scope-eq : (s t : BootstrapScope) → same_scope s t ≡ true → s ≡ t
same_scope-eq s t h = elim (BootstrapScope-discrete s t) [
  | yes p ↦ p
  | no p ↦ absurd (false≢true (sym (if_neg _ p true false) ∙ h))
]

claim-public_id :
    (argon2 : Argon2) (db : Tokens) (id secret : Text) (agent_id now : ℕ) (c : Claim)
    → consume_read argon2 db id secret agent_id now ≡ ok c
    → c.public_id ≡ id
unfolding consume_read
claim-public_id argon2 db id secret agent_id now c h = ground arith

commit-scope :
    (db db' : Tokens) (c : Claim) (now : ℕ) (scope : BootstrapScope)
    → consume_commit db c now ≡ ok (db', scope)
    → c.scope ≡ scope
unfolding consume_commit
commit-scope db db' c now scope h = ground arith

module _ (a : Admin) (w : World) (input : RegisterInput) where
  audited-eq-ok :
      (pid : Option Text) (call : Call RegisterOutput) (out : RegisterOutput)
      → (register_audited a w input pid call).0 ≡ ok out
      → (call.0 ≡ ok out)
        × ((register_audited a w input pid call).1.tokens ≡ call.1.tokens)
        × ((register_audited a w input pid call).1.agents ≡ call.1.agents)
  unfolding register_audited write_audit
  audited-eq-ok pid (ok x, s) out h = (h, refl, refl)
  audited-eq-ok pid (err e, s) out h = ground arith

  -- the accesses behind a token that was handed out, and the tables after them
  pub register_agent-Registered :
      (s : AdminState) (out : RegisterOutput)
      → (register_agent a w input s).0 ≡ ok out
      → (end : AdminState) × Registered a w input s out end
        × ((register_agent a w input s).1.tokens ≡ end.tokens)
        × ((register_agent a w input s).1.agents ≡ end.agents)
  unfolding register_agent
  register_agent-Registered s out h =
      let call = register_agent_inner a w input s in
      let (done, tokens, agents) =
        audited-eq-ok (bootstrap_id a w input (parse a.base64 input.bootstrap_token)) call out h in
      (call.1, inner-Registered a w input out call.1 s (done, refl), tokens, agents)

  module _ (honest : HonestTokens a.argon2 w) (s : AdminState) where
    before-consume :
        (r : RegisterOutput) (end : AdminState) (done : Registered a w input s r end)
        → TokenHistory a.argon2 s.tokens (at_consume a w input s done.agents).tokens
    before-consume r end done =
        let h1 =
          TokenHistory-append a.argon2 _ _ _ (honest 0 s) (honest 1 (at_preview a w input s)) in
        let s1 = record (at_create a w input s) { agents = done.agents } in
        let h2 = TokenHistory-append a.argon2 _ _ _ h1 (honest 2 s1) in
        let h3 =
          TokenHistory-append a.argon2 _ _ _ h2 (honest 3 (at_fetch a w input s done.agents)) in
        TokenHistory-append a.argon2 _ _ _ h3 (honest 4 (at_claim a w input s done.agents))

-- A single-use bootstrap token registers one agent: once a registration by it has been answered with
-- a token, every later registration by the same text fails, whatever other tasks write to the tables
-- while the two calls wait and whatever is written between them.
pub one_agent_per_token :
    (a : Admin) (w w' : World) (input input' : RegisterInput) (s mid : AdminState)
    (t : StructuredToken) (scope : BootstrapScope) (out : RegisterOutput)
    → HonestTokens a.argon2 w
    → HonestTokens a.argon2 w'
    → IsUnique s.tokens
    → parse a.base64 input.bootstrap_token ≡ ok t
    → preview_scope (w.others 0 s).tokens t.public_id (w.clock 0) ≡ ok scope
    → scope.single_use ≡ true
    → (register_agent a w input s).0 ≡ ok out
    → TokenHistory a.argon2 (register_agent a w input s).1.tokens mid.tokens
    → input'.bootstrap_token ≡ input.bootstrap_token
    → is_ok (register_agent a w' input' mid).0 ≡ false
one_agent_per_token a w w' input input' s mid t scope out honest honest' unique parsed preview
      single won past again =
    elim (Result-cases (register_agent a w' input' mid).0) [
      | inr (e, failed) ↦ rw failed refl
      | inl (out', won') ↦
          let (end, first, tokens, _) = register_agent-Registered a w input s out won in
          let (end', second, _, _) = register_agent-Registered a w' input' mid out' won' in
          let same_t : first.t ≡ t = ok-eq (sym first.parsed ∙ parsed) in
          let same_t' : second.t ≡ t =
            ok-eq (sym second.parsed ∙ ap (parse a.base64) again ∙ parsed) in
          let same_scope : first.scope ≡ scope = ok-eq (
            sym first.preview
            ∙ ap (λ u. preview_scope (w.others 0 s).tokens u.public_id (w.clock 0)) same_t
            ∙ preview) in
          let id : first.claim.public_id ≡ t.public_id =
            claim-public_id a.argon2 _ first.t.public_id first.t.secret first.agent.id (w.clock 3)
              first.claim first.reading
            ∙ ap (λ u. u.public_id) same_t in
          let id' : second.claim.public_id ≡ t.public_id =
            claim-public_id a.argon2 _ second.t.public_id second.t.secret second.agent.id
              (w'.clock 3) second.claim second.reading
            ∙ ap (λ u. u.public_id) same_t' in
          let used_scope =
            commit-scope _ first.tokens first.claim (w.clock 4) first.scope' first.commit
            ∙ same_scope-eq first.scope' first.scope first.same
            ∙ same_scope in
          let between =
            TokenHistory-append a.argon2 _ _ _
              (subst (λ x. TokenHistory a.argon2 x mid.tokens)
                (tokens ∙ ap (λ e. e.tokens) first.state) past)
              (before-consume a w' input' honest' mid out' end' second) in
          let once =
            consumed_once a.argon2 (at_consume a w input s first.agents).tokens first.tokens
              (at_consume a w' input' mid second.agents).tokens first.claim second.claim (w.clock 4)
              (w'.clock 4) first.scope'
              (TokenHistory-IsUnique a.argon2 s.tokens _ unique
                (before-consume a w input honest s out end first) first.claim.public_id)
              (ap (λ b. b.single_use) used_scope ∙ single) first.commit between (id' ∙ sym id) in
          let clash = sym second.commit ∙ once in ground arith
    ]
