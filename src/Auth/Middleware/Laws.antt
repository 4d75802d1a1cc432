-- ===== src/Auth/Middleware/Laws.antt =====
-- Which requests `auth_middleware` of src/auth.rs lets through to the routes.
use agent_locksmith.Prelude.{
  ◌≡◌, refl, ap, sym, ◌∙◌, ◌≢◌, ◌&&◌, not, ◌⊎◌, inl, inr, Option, none, some, Result, ok, err,
  Option-cases, Bool-cases, is_some, arith, In,
}
use agent_locksmith.Text.{codes, member, ◌==◌}
use agent_locksmith.Text.Laws.{member_sound, eq_iff}
use agent_locksmith.Text.Utf8.{Bytes}
use agent_locksmith.Agent.{AgentIdentity}
use agent_locksmith.Agent.Table.{Agents}
use agent_locksmith.Auth.{AuthError}
use agent_locksmith.Auth.Bearer.{Bearer, authenticate_bearer}
use agent_locksmith.Auth.Cert.{MtlsAuthenticator, authenticate_cert}
use agent_locksmith.Auth.Middleware.{
  AuthMode, bearer, mtls, both, AuthenticatedAs, as_bearer, as_mtls, Gate, Request, pass,
  auth_middleware, by_mode, bearer_path, bearer_with, cert_path, run_bearer_branch, public_paths,
  stamp, header_text,
}

-- The identity is the answer of the bearer authenticator to the request's header, in a mode that
-- takes bearer tokens, or of the certificate authenticator to the peer's certificate.
pub data Authentic (g : Gate) (db : Agents) (req : Request) (identity : AgentIdentity)
    : AuthenticatedAs → Type 0 where
  by_bearer :
      (b : Bearer)
      → g.agent_auth ≡ some b
      → g.auth_mode ≢ mtls
      → (authenticate_bearer b db (header_text req.authorization)).result ≡ ok identity
      → Authentic g db req identity as_bearer
  by_cert :
      (a : MtlsAuthenticator) (cert : Bytes)
      → g.mtls_authenticator ≡ some a
      → req.peer ≡ some cert
      → (authenticate_cert a db cert).0 ≡ ok identity
      → Authentic g db req identity as_mtls

-- A path that needs no identity.
abbrev pub Open : Request → Type 0
Open req = In req.path public_paths ⊎ ((req.path ≡ codes "/skill") × (req.authorization ≡ none))

abbrev Admitted : Gate → Agents → Request → Option AuthenticatedAs → Option AgentIdentity → Type 0
Admitted g db req how id =
    (by : AuthenticatedAs) × (identity : AgentIdentity) × (how ≡ some by)
    × (id ≡ some identity)
    × (Authentic g db req identity by)

stamp-cases :
    (by : AuthenticatedAs) (r : Result AgentIdentity AuthError) (how : Option AuthenticatedAs)
    (id : Option AgentIdentity)
    → stamp by r ≡ pass how id
    → (identity : AgentIdentity) × (how ≡ some by) × (id ≡ some identity) × (r ≡ ok identity)
stamp-cases by (ok i) how id h = (i, ground arith, ground arith, refl)
stamp-cases by (err e) how id h = ground arith

module _ (g : Gate) (db : Agents) (req : Request) (b : Bearer) (wired : g.agent_auth ≡ some b)
    (how : Option AuthenticatedAs) (id : Option AgentIdentity) where
  bearer_path-Admitted :
      g.auth_mode ≢ mtls → (bearer_path g db req).verdict ≡ pass how id → Admitted g db req how id
  unfolding bearer_path bearer_with run_bearer_branch
  bearer_path-Admitted mode h =
      let opened : stamp as_bearer (authenticate_bearer b db (header_text req.authorization)).result
          ≡ pass how id =
        sym (ap (λ o. (bearer_with o g.inbound_auth db req).verdict) wired) ∙ h in
      let (i, e, e', r) =
        stamp-cases as_bearer (authenticate_bearer b db (header_text req.authorization)).result how
          id opened in
      (as_bearer, i, e, e', by_bearer b wired mode r)

  cert_path-Admitted :
      (o : Option MtlsAuthenticator) (cert : Bytes)
      → g.mtls_authenticator ≡ o
      → req.peer ≡ some cert
      → (cert_path o db cert).verdict ≡ pass how id
      → Admitted g db req how id
  unfolding cert_path
  cert_path-Admitted none cert e p h = ground arith
  cert_path-Admitted (some a) cert e p h =
      let (i, e1, e2, r) = stamp-cases as_mtls (authenticate_cert a db cert).0 how id h in
      (as_mtls, i, e1, e2, by_cert a cert e p r)

  by_mode-Admitted :
      (mode : AuthMode) (peer : Option Bytes)
      → g.auth_mode ≡ mode
      → req.peer ≡ peer
      → (by_mode mode peer g db req).verdict ≡ pass how id
      → Admitted g db req how id
  unfolding by_mode
  by_mode-Admitted bearer peer m p h = bearer_path-Admitted (λ e. ground arith) h
  by_mode-Admitted mtls none m p h = ground arith
  by_mode-Admitted mtls (some cert) m p h = cert_path-Admitted g.mtls_authenticator cert refl p h
  by_mode-Admitted both none m p h = bearer_path-Admitted (λ e. ground arith) h
  by_mode-Admitted both (some cert) m p h = cert_path-Admitted g.mtls_authenticator cert refl p h

  -- With an agent table, a request passes the middleware only on a public path or `/skill` without a
  -- header, and then with no identity, or with the identity that one of the two authenticators returned
  -- for the request itself; and the bearer is not taken in the mode `mtls`.
  pub auth_middleware-pass :
      (auth_middleware g db req).verdict ≡ pass how id
      → (Open req × (how ≡ none) × (id ≡ none)) ⊎ Admitted g db req how id
  unfolding auth_middleware
  auth_middleware-pass h = elim (Bool-cases (member req.path public_paths)) [
    | inl is_public ↦
        inl (inl (member_sound req.path public_paths is_public), ground arith, ground arith)
    | inr other ↦
        elim (Bool-cases (req.path == codes "/skill" && not (is_some req.authorization))) [
          | inl skill ↦
              let plain : (req.path ≡ codes "/skill") × (req.authorization ≡ none) = (
                ground (arith, eq_iff req.path (codes "/skill")),
                elim (Option-cases req.authorization) [ inl e ↦ e | inr (v, e) ↦ ground arith ],
              ) in
              inl (inr plain, ground arith, ground arith)
          | inr rest ↦ inr (by_mode-Admitted g.auth_mode req.peer refl refl (ground arith))
        ]
  ]
