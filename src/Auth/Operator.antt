-- ===== src/Auth/Operator.antt =====
-- Operators: `OperatorAuthenticator` of src/auth_v2/operator.rs, and the two middlewares in front of
-- the admin routes of src/admin/uds.rs. The operators are the records of a file that is read at the
-- start; a `scope` is kept as its JSON text. The decoy verifications are left out, as for agents.
pub mod Laws
use agent_locksmith.Prelude.{
  ℕ, Bool, true, false, ◌&&◌, Option, none, some, List, [], ◌∷◌, find, Result, ok, err, is_some_and,
  if◌then◌else◌,
}
use agent_locksmith.Text.{Text, codes, strip_prefix, ◌==◌}
use agent_locksmith.Text.Utf8.{Bytes}
use agent_locksmith.Audit.{AuditEvent, default_event, security, denied, Details, text, reason}
use agent_locksmith.Token.{
  Base64, StructuredToken, TokenNamespace, agent, operator, bootstrap, ParseError, parse,
}
use agent_locksmith.Agent.{AgentIdentity}
use agent_locksmith.Agent.Table.{Argon2, Agents}
use agent_locksmith.Auth.{AuthError, missing_credential, invalid_credential, backend, status, code}
use agent_locksmith.Auth.Bearer.{Bearer, Outcome, authenticate_bearer}
use agent_locksmith.Auth.Cert.{X509, MtlsValidator, MtlsIdentity, MtlsError, validate}
use agent_locksmith.Auth.Middleware.{AuthMode, bearer, mtls, both}

pub record OperatorIdentity : Type 0 where
  pub name : Text
  pub scope : Option Text
  pub auth_method : Option Text

pub record OperatorRecord : Type 0 where
  pub name : Text
  pub public_id : Text
  pub token_hash : Text
  pub scope : Option Text
  pub cert_identity : Option Text

-- The authenticator: whether it has an audit repository, and the clock.
pub record OperatorAuthenticator : Type 0 where
  pub base64 : Base64
  pub argon2 : Argon2
  pub records : List OperatorRecord
  pub audit : Bool
  pub now_ms : ℕ

-- the result and the audit rows that it wrote
abbrev pub OperatorOutcome : Type 0
OperatorOutcome = Result OperatorIdentity AuthError × List AuditEvent

abbrev pub operator_row : OperatorAuthenticator → Option Text → Text → Details → List AuditEvent
operator_row a operator_name method details =
    if a.audit
    then record default_event {
      ts_ms = a.now_ms;
      event_class = security;
      event = codes "operator_auth_failure";
      operator_name = operator_name;
      decision = denied;
      auth_method = some method;
      details = some details;
    }
      ∷ []
    else []

abbrev pub denies : OperatorAuthenticator → Option Text → Text → OperatorOutcome
denies a name why =
    (err invalid_credential, operator_row a name (codes "bearer") ((codes "reason", text why) ∷ []))

abbrev pub operator_identity : Option Text → OperatorRecord → OperatorIdentity
operator_identity method r = record { name = r.name; scope = r.scope; auth_method = method }

unfoldable pub operator_verified :
    OperatorAuthenticator → OperatorRecord → Option Bool → OperatorOutcome
operator_verified a r (some true) = (ok (operator_identity none r), [])
operator_verified a r (some false) = denies a (some r.name) (codes "secret_mismatch")
operator_verified a r none = (err backend, [])

unfoldable pub operator_resolve :
    OperatorAuthenticator → Text → Option OperatorRecord → OperatorOutcome
operator_resolve a secret none = denies a none (codes "unknown_public_id")
operator_resolve a secret (some r) = operator_verified a r (a.argon2.verify r.token_hash secret)

abbrev pub is_operator : TokenNamespace → Bool
is_operator agent = false
is_operator operator = true
is_operator bootstrap = false

abbrev pub record_of : OperatorAuthenticator → Text → Option OperatorRecord
record_of a public_id = find (λ r. r.public_id == public_id) a.records

unfoldable pub operator_parsed :
    OperatorAuthenticator → Result StructuredToken ParseError → OperatorOutcome
operator_parsed a (err e) = denies a none (codes "malformed_token")
operator_parsed a (ok t) =
    if is_operator t.namespace
    then operator_resolve a t.secret (record_of a t.public_id)
    else denies a none (codes "wrong_namespace")

-- without `Bearer ` no audit row is written
unfoldable pub operator_header : OperatorAuthenticator → Option Text → OperatorOutcome
operator_header a none = (err missing_credential, [])
operator_header a (some raw) = operator_parsed a (parse a.base64 raw)

-- `authenticate_bearer`
unfoldable pub authenticate_operator : OperatorAuthenticator → Text → OperatorOutcome
authenticate_operator a header = operator_header a (strip_prefix (codes "Bearer ") header)

abbrev pub declares : Text → OperatorRecord → Bool
declares cert_identity r = is_some_and r.cert_identity (λ c. c == cert_identity)

unfoldable pub cert_operator :
    OperatorAuthenticator → Text → Option OperatorRecord → OperatorOutcome
cert_operator a cert_identity (some r) = (ok (operator_identity (some (codes "mtls")) r), [])
cert_operator a cert_identity none = (
  err invalid_credential,
  operator_row a none (codes "mtls") (
      (codes "reason", text (codes "unknown_cert_identity"))
      ∷ (codes "cert_identity", text cert_identity)
      ∷ []),
)

unfoldable pub authenticate_cert_identity : OperatorAuthenticator → Text → OperatorOutcome
authenticate_cert_identity a cert_identity =
    cert_operator a cert_identity (find (declares cert_identity) a.records)

-- `OperatorMtlsContext`, with the crates and the clock behind the validator
pub record OperatorMtlsContext : Type 0 where
  pub auth_mode : AuthMode
  pub x509 : X509
  pub validator : MtlsValidator
  pub now : ℕ

-- The request goes on with the identity, or is answered by a status and a code.
pub data OperatorVerdict : Type 0 where
  pass : OperatorIdentity → OperatorVerdict
  refuse : ℕ → Text → OperatorVerdict

abbrev pub error_response : AuthError → OperatorVerdict
error_response e = refuse (status e) (code e)

abbrev pub admit_operator : Result OperatorIdentity AuthError → OperatorVerdict
admit_operator (ok op) = pass op
admit_operator (err e) = error_response e

abbrev pub judged : OperatorOutcome → OperatorVerdict × List AuditEvent
judged (result, events) = (admit_operator result, events)

-- `header` is the value of `authorization`, `none` when there is none or it is no string
unfoldable pub operator_bearer :
    OperatorAuthenticator → Option Text → OperatorVerdict × List AuditEvent
operator_bearer a none = (error_response missing_credential, [])
operator_bearer a (some header) = judged (authenticate_operator a header)

unfoldable pub operator_validated :
    OperatorAuthenticator → Result MtlsIdentity MtlsError → OperatorVerdict × List AuditEvent
operator_validated a (err e) = (error_response invalid_credential, [])
operator_validated a (ok i) = judged (authenticate_cert_identity a i.value)

unfoldable pub operator_by_mode :
    AuthMode
    → Option Bytes
    → OperatorMtlsContext
    → OperatorAuthenticator
    → Option Text
    → OperatorVerdict × List AuditEvent
operator_by_mode mtls none m a header = (error_response missing_credential, [])
operator_by_mode mtls (some der) m a header =
    operator_validated a (validate m.x509 m.validator m.now der)
operator_by_mode both (some der) m a header =
    operator_validated a (validate m.x509 m.validator m.now der)
operator_by_mode both none m a header = operator_bearer a header
operator_by_mode bearer peer m a header = operator_bearer a header

unfoldable pub operator_auth_middleware :
    Option OperatorMtlsContext
    → OperatorAuthenticator
    → Option Bytes
    → Option Text
    → OperatorVerdict × List AuditEvent
operator_auth_middleware none a peer header = operator_bearer a header
operator_auth_middleware (some m) a peer header = operator_by_mode m.auth_mode peer m a header

-- `agent_auth_middleware`: the outcome of the authenticator, or the missing header
unfoldable pub agent_auth_middleware : Bearer → Agents → Option Text → Outcome
agent_auth_middleware b db none = record { result = err missing_credential; db = db; events = [] }
agent_auth_middleware b db (some header) = authenticate_bearer b db header
