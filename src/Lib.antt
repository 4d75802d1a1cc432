-- ===== src/Lib.antt =====
-- agent-locksmith: a proxy that stands between AI agents and the services they use. An agent
-- authenticates with its own token or client certificate; the proxy decides whether it may use the
-- tool, puts the operator's credential on the request, forwards it, and filters and logs the answer.
--
-- How the parts interact. `auth_middleware` (src/auth.rs) lets a request in with an identity that one
-- of the two authenticators returned (src/auth_v2/agent.rs, src/mtls). `proxy_handler` (src/proxy.rs)
-- checks the tool lists, asks the database for the agent's current row, the connection and the
-- selected account in one query (src/registrations/admission.rs, src/proxy/admission.rs), fetches the
-- value of the credential, builds the upstream request, and hands the answer on under the tool's
-- response controls (src/response_controls.rs). Agents, bootstrap tokens, registrations and bindings
-- are tables of one SQLite database (src/repo, src/registrations/repo.rs); the catalog
-- (src/registrations/catalog.rs) is the copy of the registrations that the daemon runs with. The admin
-- routes (src/admin/uds.rs) sit behind their own middlewares and write the same tables through the
-- admin service (src/admin/service.rs), where an agent registers itself by a bootstrap token that an
-- operator minted.
--
-- Which file models what:
--   Text, Text/Utf8         Rust's `str`, as code points and as UTF-8 bytes
--   Audit, Audit/Store      the rows of src/repo/audit.rs, and the table with its queries and its sweep
--   Token                   src/token.rs: printing, parsing and generating tokens
--   Agent, Agent/Table      src/repo/agent.rs and the tool lists of src/auth_v2/agent.rs
--   Auth/Bearer             `BearerAuthenticator` of src/auth_v2/agent.rs
--   Auth/Cert               src/mtls/validator.rs, src/mtls/crl.rs, src/mtls/authenticator.rs
--   Auth/Operator           src/auth_v2/operator.rs and the middlewares of src/admin/uds.rs
--   Auth/Middleware         `auth_middleware` of src/auth.rs
--   Bootstrap               src/repo/bootstrap.rs
--   Registration            src/registrations: auth_spec.rs, kind.rs, repo.rs, catalog.rs, validators.rs
--   Response                src/response_controls.rs: the buffered path and the capped stream
--   Codex                   src/codex_body.rs
--   Proxy/Target            `ProxyTarget` and `ProxyAuth` of src/proxy.rs
--   Proxy/Bindings          src/repo/agent_creds.rs and the consensus of src/oauth/refresh.rs
--   Proxy/Selection         src/proxy/selection.rs
--   Proxy/Admission         src/registrations/admission.rs and src/proxy/admission.rs
--   Proxy/Credentials       `resolve_oauth_token` and `resolve_stored_credential` of src/proxy.rs
--   Proxy/Headers           the headers and URLs of src/proxy.rs
--   Proxy/Replies           `RequestCtx` and the `record_*` helpers of src/proxy.rs
--   Proxy/Handler           `proxy_handler` and `handle_upstream_response` of src/proxy.rs
--   Admin                   src/admin/service.rs: its state, its audit rows
--   Admin/Register          `register_agent`, access by access
--   Admin/SelfService       what an agent does with itself
--   Admin/Operator          what an operator does
--   Admin/Routes            the handlers and the router of src/admin/uds.rs
--   Config                  `expand_env_vars` of src/config.rs
--   Shutdown                src/shutdown.rs
--   Admin/Accounts          the handlers of src/admin/uds.rs for account selections
--   Secrets                 src/repo/credential_secrets.rs, src/oauth/sealing.rs
--   Tests                   concrete instances of the parameters, and the examples
-- The files below a part, such as Laws, have its proofs.
--
-- State. A table is a record with its rows; an operation is a function from the table to the new table
-- or an error, and a statement of SQL is the change of rows that its text describes. Where the source
-- reads and later writes with a comparison (a rotation, the consumption of a bootstrap token), the two
-- steps are two functions, so that any other writes may come in between. A method of the admin service
-- takes what other tasks write before each of its accesses to the stores from a parameter. A handler
-- with early returns is a computation in `Result` whose error is the reply. The clock, the random
-- parts of a token and the salt of a hash are arguments.
--
-- Numbers. Lengths, times and ids are natural numbers; times before 1970 do not occur. The byte count
-- of the capped stream saturates at 2^64 - 1 as in the source. Polling the stream takes fuel: two
-- polls more than the inner stream answers are enough, which the theorem on it shows. The expansion of
-- environment variables takes fuel too: one more than the closing braces of the text, where no value
-- has one. The body limit of a registration is stored in 64 signed bits. No other definition has fuel.
--
-- Parameters. The crates argon2, base64, aes-gcm, regex with sha2, serde_json and x509-parser with
-- webpki, and tokio's Notify, are records of functions with the laws that the code relies on; the
-- environment, the URL parser, the stores behind the proxy, the token endpoint and the HTTP client are
-- functions of the state; Admin/Accounts/ReadBack fills the store of sealed values with the table of
-- Secrets.
--
-- Not modelled: the admin routes for registrations, sessions and the operational log, the command
-- line, sockets and TLS, the client pool, the OAuth exchanges, the migrations, file sinks and metrics,
-- the skill document, and the texts of error messages. Marking an OAuth session degraded and the
-- operational log are left out too. The triggers of src/migrations/0009 and the migration of bindings
-- rewrite the grants of agents and bootstrap tokens: in the histories of both tables they are writes
-- of any such kind, and the statements on registrations do not follow them. A failure of a table of
-- registrations is not modelled. An audit row that cannot be written is dropped by the source; the
-- model's log takes every row.
pub mod Prelude
pub mod Secrets
pub mod Shutdown
pub mod Text
pub mod Audit
pub mod Token
pub mod Registration
pub mod Agent
pub mod Auth
pub mod Bootstrap
pub mod Proxy
pub mod Admin
pub mod Codex
pub mod Config
pub mod Response
pub mod Tests
