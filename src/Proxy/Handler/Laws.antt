-- ===== src/Proxy/Handler/Laws.antt =====
-- When `proxy_handler` of src/proxy.rs contacts the upstream, and with what.
use agent_locksmith.Prelude.{
  ◌≡◌, ap, sym, subst, ◌∙◌, inl, inr, some, ok, Result-cases, is_some, arith,
}
use agent_locksmith.Registration.{Registration}
use agent_locksmith.Registration.Auth.{AuthSpec}
use agent_locksmith.Agent.{AgentRecord, AgentIdentity, allows_tool}
use agent_locksmith.Response.Controls.{Engine}
use agent_locksmith.Codex.{Json}
use agent_locksmith.Proxy.Target.{ProxyTarget, ProxyAuth, from_registration}
use agent_locksmith.Proxy.Headers.{upstream_headers, upstream_url}
use agent_locksmith.Proxy.Replies.{RequestCtx}
use agent_locksmith.Proxy.Admission.{Database}
use agent_locksmith.Proxy.Admission.Laws.{Admits, admission_target-eq-ok}
use agent_locksmith.Proxy.Credentials.{materialize}
use agent_locksmith.Proxy.Handler.{
  AppState, ProxyRequest, UpstreamRequest, ctx_snapshot, gate, find_target, ready_target,
  outgoing_body, build_upstream_request, plan,
}
use agent_locksmith.Proxy.Credentials.Held.{Holds, spec-Holds}
use agent_locksmith.Proxy.Credentials.Laws.{apply_spec-Same, granted-eq-ok}

module _ (engine : Engine) (json : Json) (st : AppState engine json) where
  pub record Authorised (db : Database) (req : ProxyRequest) (target : ProxyTarget) : Type 0 where
    pub agent : AgentIdentity
    pub row : AgentRecord
    pub connection : Registration
    pub account : AuthSpec
    pub identified : req.identity ≡ some agent
    pub allowed : allows_tool agent req.tool_name ≡ ok tt
    pub admitted : Admits db st.catalog agent st.now req.tool_name row connection account
    pub upstream : target.upstream ≡ connection.upstream
    pub name : target.name ≡ connection.name
    pub holding : Holds st.env st.vaults st.now target.name account target.auth

  found-Authorised :
      (db : Database) (req : ProxyRequest) (found : ProxyTarget) (auth : ProxyAuth) (u : Unit {0})
      → gate engine json st (ctx_snapshot engine json st req) req.identity ≡ ok u
      → find_target engine json st (ctx_snapshot engine json st req) (some db) req.identity
        ≡ ok found
      → materialize st.host_url st.env st.audit
          (ctx_snapshot engine json st req)
          st.vaults
          st.agent_creds
          found
          st.now
          found.auth
        ≡ ok auth
      → Authorised db req (record found { auth = auth })
  unfolding gate find_target ctx_snapshot
  found-Authorised db req found auth u passed got made =
      let ctx = ctx_snapshot engine json st req in
      let (agent, a, r, spec, identified, admits, (chosen, applied, same)) =
        admission_target-eq-ok st.host_url st.env st.audit ctx db st.catalog
          (is_some st.agent_creds) req.identity st.now found got in
      let opened : gate engine json st ctx (some agent) ≡ ok u =
        sym (ap (gate engine json st ctx) identified) ∙ passed in
      let Materialized : ProxyTarget → Type 0 = λ t.
        materialize st.host_url st.env st.audit ctx st.vaults st.agent_creds t st.now t.auth
        ≡ ok auth in
      record {
        agent = agent;
        row = a;
        connection = r;
        account = spec;
        identified = identified;
        allowed =
            granted-eq-ok st.host_url st.env st.audit ctx (allows_tool agent req.tool_name) u
              opened;
        admitted = admits;
        upstream =
            ap (λ t. t.upstream) same
            ∙ (apply_spec-Same st.host_url st.env (from_registration r) chosen spec applied).0;
        name =
            ap (λ t. t.name) same
            ∙ (apply_spec-Same st.host_url st.env (from_registration r) chosen spec applied).1;
        holding =
            subst (λ t. Holds st.env st.vaults st.now t.name spec auth) (sym same)
              (spec-Holds st.host_url st.env st.audit ctx st.vaults st.agent_creds st.now
                (from_registration r) chosen spec auth applied (subst Materialized same made));
      }

  ready_target-Authorised :
      (db : Database) (req : ProxyRequest) (target : ProxyTarget)
      → st.registrations ≡ some db
      → ready_target engine json st (ctx_snapshot engine json st req) req.identity ≡ ok target
      → Authorised db req target
  unfolding ready_target
  ready_target-Authorised db req target with_db h =
      let ctx = ctx_snapshot engine json st req in
      elim (Result-cases (gate engine json st ctx req.identity)) [
        | inr (reply, refused) ↦ ground arith
        | inl (u, passed) ↦
            elim (Result-cases (find_target engine json st ctx st.registrations req.identity)) [
              | inr (reply, refused) ↦ ground arith
              | inl (found, got) ↦
                  elim (Result-cases (
                    materialize st.host_url st.env st.audit ctx st.vaults st.agent_creds found
                      st.now found.auth)) [
                        | inr (reply, refused) ↦ ground arith
                        | inl (auth, made) ↦
                            let whole : record found { auth = auth } ≡ target = ground arith in
                            let from_db =
                              sym (ap (λ o. find_target engine json st ctx o req.identity) with_db)
                              ∙ got in
                            subst (Authorised db req) whole
                              (found-Authorised db req found auth u passed from_db made)
                      ]
            ]
      ]

  -- On a daemon with a database nothing is sent upstream unless the request carries an agent that may
  -- use the tool, its current row and the connection admit it, and the target holds the credential that
  -- stands for the account it selected: none for the authless one, the value of the environment
  -- variable, the unsealed stored value, the value of the `op` reference, or the token of the
  -- session of that connection and account, refreshed with the account if it ran out; and what is sent goes to that
  -- connection's URL, with the headers of `upstream_headers`.
  pub plan-Authorised :
      (db : Database) (req : ProxyRequest) (ctx : RequestCtx) (target : ProxyTarget)
      (out : UpstreamRequest)
      → st.registrations ≡ some db
      → plan engine json st req ≡ ok (ctx, target, out)
      → Authorised db req target
        × (out.url ≡ upstream_url target.upstream req.path req.query)
        × (out.headers
            ≡ upstream_headers target (st.resolved_creds target.name) req.headers ctx.agent_name)
  unfolding plan build_upstream_request
  plan-Authorised db req ctx target out with_db h =
      let start = ctx_snapshot engine json st req in
      elim (Result-cases (ready_target engine json st start req.identity)) [
        | inr (reply, refused) ↦ ground arith
        | inl (t, ready) ↦ elim (Result-cases (outgoing_body engine json st start t req.body)) [
          | inr (reply, refused) ↦ ground arith
          | inl ((body, fixed), read) ↦
              let same : t ≡ target = ground arith in
              (
                subst (Authorised db req) same (ready_target-Authorised db req t with_db ready),
                ground arith,
                ground arith,
              )
        ]
      ]
