-- ===== src/Tests/Proxy.antt =====
-- One request through the proxy of a small deployment.
use native.Mathlib.Decide.{ℕ_discrete}
use agent_locksmith.Prelude.{
  ◌≡◌, refl, Bool, true, Option, none, some, [], ◌∷◌, ok, err, In, here, there, if◌then◌else◌,
}
use agent_locksmith.Text.{
  Text, codes, ◌==◌, lower, to_ascii_lowercase, contains, strip_prefix, trim_end_by, precedes,
}
use agent_locksmith.Registration.{Registration, Registration-discrete}
use agent_locksmith.Registration.Auth.{AuthSpec, bearer, AuthSpec-discrete}
use agent_locksmith.Registration.Catalog.{
  Catalog, activation, in_catalog, same_row, lookup, lookup_any,
}
use agent_locksmith.Registration.Table.{order_by_name, insert_by_name}
use agent_locksmith.Agent.{AgentRecord, AgentIdentity, identity_of, allows_tool}
use agent_locksmith.Auth.Middleware.{as_bearer}
use agent_locksmith.Proxy.Target.{ProxyTarget, by_bearer, agent_override}
use agent_locksmith.Proxy.Bindings.{AgentCredentialOverride}
use agent_locksmith.Proxy.Selection.{apply_spec, selected_env, as_override}
use agent_locksmith.Proxy.Headers.{
  always_stripped, credential, upstream_headers, upstream_url, is_chatgpt_codex_upstream,
  forward_response_headers, is_hop, request_path_ends_with_responses,
}
use agent_locksmith.Proxy.Headers.Laws.{
  values, listed, last_value, sent-credential, values-forward_response_headers,
}
use agent_locksmith.Proxy.Target.{from_registration}
use agent_locksmith.Proxy.Replies.{RequestCtx, Headers}
use agent_locksmith.Proxy.Replies.Logged.{Logged}
use agent_locksmith.Proxy.Admission.{
  Database, admission_target, admit, http_admissions, collect, snapshot, pop,
}
use agent_locksmith.Proxy.Admission.Laws.{Admits, admission_target-eq-ok}
use agent_locksmith.Proxy.Credentials.{materialize}
use agent_locksmith.Proxy.Handler.{
  AppState, ProxyRequest, UpstreamRequest, ctx_snapshot, gate, find_target, ready_target,
  outgoing_body, build_upstream_request, plan, proxy_handler,
}
use agent_locksmith.Proxy.Handler.Laws.{Authorised, plan-Authorised}
use agent_locksmith.Proxy.Handler.Logged.{proxy_handler-Logged}
use agent_locksmith.Tests.Crates.{engine}
use agent_locksmith.Tests.Bodies.{json}
use agent_locksmith.Tests.Agents.{alice, agents}
use agent_locksmith.Tests.Registrations.{search, rows}

abbrev binding : AgentCredentialOverride
binding = record {
  agent_id = 1;
  registration = search.name;
  auth_spec = some (bearer (codes "KEY"));
  created_at = 1;
  updated_at = 1;
}

abbrev db : Database
db = record { agents = agents; registrations = rows; bindings = binding ∷ [] }

abbrev catalog : Catalog
catalog = record { by_name = (search.name, search) ∷ [] }

abbrev host_url : Text → Bool
host_url url = true

abbrev env : Text → Option Text
env name = some (codes "sk-upstream")

abbrev state : AppState engine json
state = record {
  host_url = host_url;
  env = env;
  audit = true;
  registrations = some db;
  catalog = catalog;
  tools = [];
  agent_creds = some (binding ∷ []);
  resolved_creds = λ name. none;
  vaults = record { oauth = none; secrets = none; op_resolver = none };
  response_controls = λ name. none;
  send = λ out. err true;
  now = 8;
  now_ms = 8000;
  latency_ms = 3;
}

abbrev request : ProxyRequest
request = record {
  tool_name = search.name;
  path = codes "v1";
  request_path = codes "/api/search/v1";
  method = codes "GET";
  query = some (codes "q=x");
  headers = (codes "authorization", codes "Bearer lk") ∷ (codes "accept", codes "*/*") ∷ [];
  body = some [];
  how = some as_bearer;
  identity = some (identity_of alice);
}

abbrev target : ProxyTarget
target = record {
  name = search.name;
  upstream = search.upstream;
  body_limit_bytes = 4096;
  timeouts = search.timeouts;
  egress = search.egress;
  auth = by_bearer (some (codes "sk-upstream"));
  auth_source = agent_override;
  oauth_session_label = none;
  oauth_selection = none;
}

abbrev ctx : RequestCtx
ctx = record {
  tool_name = search.name;
  request_path = codes "/api/search/v1";
  method = codes "GET";
  auth_method = codes "bearer";
  agent_public_id = some alice.public_id;
  agent_name = some alice.name;
  now_ms = 8000;
  latency_ms = 3;
  codex_body_fixup = none;
}

abbrev upstream_request : UpstreamRequest
upstream_request = record {
  client = search.name;
  method = codes "GET";
  url = codes "https://search.example/v1?q=x";
  headers =
      (codes "accept", codes "*/*") ∷ (codes "authorization", codes "Bearer sk-upstream") ∷ [];
  body = [];
}

admitted :
    admission_target host_url env true ctx db catalog true (some (identity_of alice)) 8 ≡ ok target
unfolding admission_target admit http_admissions collect snapshot pop order_by_name insert_by_name
    allows_tool activation in_catalog same_row lookup_any Registration-discrete AuthSpec-discrete
    lookup apply_spec selected_env ◌==◌ precedes ℕ_discrete
admitted = refl

admission_target-eq-ok_example :
    (agent : AgentIdentity) × (a : AgentRecord) × (r : Registration) × (spec : AuthSpec) × (some
        (identity_of alice)
      ≡ some agent)
    × (Admits db catalog agent 8 search.name a r spec)
    × ((chosen : ProxyTarget) × (apply_spec host_url env (from_registration r) spec ≡ ok chosen)
        × (target ≡ as_override host_url env chosen))
admission_target-eq-ok_example =
    admission_target-eq-ok host_url env true ctx db catalog true (some (identity_of alice)) 8 target
      admitted

prepared : ready_target engine json state ctx (some (identity_of alice)) ≡ ok target
unfolding ready_target gate find_target materialize allows_tool ◌==◌
prepared = rw admitted refl

planned : plan engine json state request ≡ ok (ctx, target, upstream_request)
unfolding plan ctx_snapshot outgoing_body build_upstream_request upstream_headers credential
    upstream_url is_chatgpt_codex_upstream request_path_ends_with_responses trim_end_by contains
    strip_prefix to_ascii_lowercase lower ◌==◌
planned = rw prepared refl

plan-Authorised_example :
    Authorised engine json state db request target
    × (upstream_request.url ≡ upstream_url target.upstream (codes "v1") (some (codes "q=x")))
    × (upstream_request.headers ≡ upstream_headers target none request.headers (some alice.name))
plan-Authorised_example =
    plan-Authorised engine json state db request ctx target upstream_request refl planned

proxy_handler-Logged_example : Logged (proxy_handler engine json state request)
proxy_handler-Logged_example = proxy_handler-Logged engine json state refl request

own_header :
    In
      (codes "authorization", codes "Bearer sk-upstream")
      (upstream_headers target none request.headers (some alice.name))
unfolding upstream_headers credential is_chatgpt_codex_upstream contains strip_prefix
    to_ascii_lowercase lower ◌==◌
own_header = there (here refl)

always : In (to_ascii_lowercase (codes "authorization")) always_stripped
unfolding to_ascii_lowercase lower
always = there (here refl)

sent-credential_example :
    credential target.auth none ≡ some (codes "authorization", codes "Bearer sk-upstream")
sent-credential_example =
    sent-credential target none request.headers (some alice.name) (codes "authorization")
      (codes "Bearer sk-upstream") always own_header

abbrev cookies : Headers
cookies =
    (codes "set-cookie", codes "a=1")
    ∷ (codes "connection", codes "close")
    ∷ (codes "set-cookie", codes "b=2")
    ∷ []

values-forward_response_headers_example :
    values (codes "set-cookie") (forward_response_headers cookies)
    ≡ (if is_hop (codes "set-cookie") then [] else listed (last_value (codes "set-cookie") cookies))
values-forward_response_headers_example =
    values-forward_response_headers (codes "set-cookie") cookies
