-- ===== src/Auth/Middleware.antt =====
-- `auth_middleware` of src/auth.rs: the decision on a request, before the routes. The header value as
-- a string, `to_str` of the http crate, is part of the request: `authorization` is `none` without the
-- header and `some none` with one that is no string.
pub mod Laws
use agent_locksmith.Prelude.{
  ℕ, Bool, true, false, ◌&&◌, ◌||◌, not, Option, none, some, List, [], ◌∷◌, ◌++◌, Result, ok, err,
  is_some, is_some_and, unwrap_or, if◌then◌else◌,
}
use agent_locksmith.Text.{Text, codes, member, strip_prefix, ◌==◌}
use agent_locksmith.Text.Utf8.{Bytes}
use agent_locksmith.Audit.{AuditEvent}
use agent_locksmith.Agent.{AgentIdentity}
use agent_locksmith.Agent.Table.{Agents}
use agent_locksmith.Auth.{AuthError, missing_credential, mtls_misconfigured, status, code}
use agent_locksmith.Auth.Bearer.{Bearer, Outcome, authenticate_bearer}
use agent_locksmith.Auth.Cert.{MtlsAuthenticator, authenticate_cert}

pub data AuthMode : Type 0 where
  bearer mtls both : AuthMode

pub data AuthenticatedAs : Type 0 where
  as_bearer as_mtls : AuthenticatedAs

pub record InboundAuth : Type 0 where
  pub mode : Text
  pub token : Option Text

-- the part of `AppState` that the middleware reads
pub record Gate : Type 0 where
  pub auth_mode : AuthMode
  pub mtls_authenticator : Option MtlsAuthenticator
  pub agent_auth : Option Bearer
  pub inbound_auth : Option InboundAuth

pub record Request : Type 0 where
  pub path : Text
  pub authorization : Option (Option Text)
  pub peer : Option Bytes

-- `next.run(req)` with the request extensions, or a response with a status and a code
pub data Verdict : Type 0 where
  pass : Option AuthenticatedAs → Option AgentIdentity → Verdict
  refuse : ℕ → Option Text → Verdict

pub record Passage : Type 0 where
  pub verdict : Verdict
  pub db : Agents
  pub events : List AuditEvent

abbrev pub auth_error_response : AuthError → Verdict
auth_error_response e = refuse (status e) (some (code e))

abbrev quiet : Agents → Verdict → Passage
quiet db v = record { verdict = v; db = db; events = [] }

abbrev pub public_paths : List Text
public_paths = codes "/livez" ∷ codes "/readyz" ∷ codes "/version" ∷ codes "/health" ∷ []

abbrev pub stamp : AuthenticatedAs → Result AgentIdentity AuthError → Verdict
stamp how (ok identity) = pass (some how) (some identity)
stamp how (err e) = auth_error_response e

abbrev pub header_text : Option (Option Text) → Text
header_text none = []
header_text (some value) = unwrap_or value []

unfoldable pub run_bearer_branch : Bearer → Agents → Request → Passage
run_bearer_branch b db req =
    let o = authenticate_bearer b db (header_text req.authorization) in
    record { verdict = stamp as_bearer o.result; db = o.db; events = o.events }

abbrev pub expected : Option Text → Option Text → Verdict
expected none provided = pass (some as_bearer) none
expected (some token) none = refuse 401 none
expected (some token) (some provided) =
    if provided == token then pass (some as_bearer) none else refuse 401 none

-- the shared bearer of deployments without an agent table
unfoldable pub shared_bearer : Option InboundAuth → Option (Option Text) → Verdict
shared_bearer none header = pass (some as_bearer) none
shared_bearer (some auth) header =
    if not (auth.mode == codes "bearer")
    then pass (some as_bearer) none
    else expected auth.token (strip_prefix (codes "Bearer ") (header_text header))

unfoldable pub bearer_with : Option Bearer → Option InboundAuth → Agents → Request → Passage
bearer_with (some b) inbound db req = run_bearer_branch b db req
bearer_with none inbound db req = quiet db (shared_bearer inbound req.authorization)

unfoldable pub bearer_path : Gate → Agents → Request → Passage
bearer_path g db req = bearer_with g.agent_auth g.inbound_auth db req

unfoldable pub cert_path : Option MtlsAuthenticator → Agents → Bytes → Passage
cert_path none db cert = quiet db (auth_error_response mtls_misconfigured)
cert_path (some a) db cert =
    let o = authenticate_cert a db cert in
    record { verdict = stamp as_mtls o.0; db = db; events = o.1 }

unfoldable pub by_mode : AuthMode → Option Bytes → Gate → Agents → Request → Passage
by_mode bearer peer g db req = bearer_path g db req
by_mode mtls none g db req = quiet db (auth_error_response missing_credential)
by_mode mtls (some cert) g db req = cert_path g.mtls_authenticator db cert
by_mode both none g db req = bearer_path g db req
by_mode both (some cert) g db req = cert_path g.mtls_authenticator db cert

unfoldable pub auth_middleware : Gate → Agents → Request → Passage
auth_middleware g db req =
    if member req.path public_paths
    then quiet db (pass none none)
    else if req.path == codes "/skill" && not (is_some req.authorization)
    then quiet db (pass none none)
    else by_mode g.auth_mode req.peer g db req
