-- ===== src/Proxy/Admission/Laws.antt =====
-- The target that src/proxy/admission.rs returns, against the tables.
use agent_locksmith.Prelude.{
  ℕ, ◌≡◌, refl, ap, sym, subst, ◌∙◌, Bool, true, inl, inr, Option, none, some, List, [], ◌∷◌,
  Result, ok, Result-cases, Option-cases, is_some_and, arith, In, All, All-keep_both, In-All, keep,
}
use agent_locksmith.Text.{Text}
use agent_locksmith.Text.Laws.{eq_iff}
use agent_locksmith.Registration.{Registration}
use agent_locksmith.Registration.Auth.{AuthSpec}
use agent_locksmith.Registration.Table.{Rows, order_by_name, grantable_kind}
use agent_locksmith.Registration.Table.Laws.{All-order}
use agent_locksmith.Registration.Catalog.{
  Catalog, Activation, disabled, active, pending, activation,
}
use agent_locksmith.Agent.{AgentRecord, AgentIdentity, Denial, allows_tool}
use agent_locksmith.Proxy.Target.{ProxyTarget, from_registration}
use agent_locksmith.Proxy.Selection.{apply_spec, as_override}
use agent_locksmith.Proxy.Replies.{RequestCtx}
use agent_locksmith.Proxy.Admission.{
  HttpAdmission, Database, current_row, is_active_row, refreshed, account_of, binding_of, snapshot,
  wanted, collect, http_admissions, is_active, pop, admit, admission_target, granted,
}

-- The rows that the query selects.
abbrev Selected : Database → Text → Registration → Type 0
Selected db name r = In r db.registrations × (wanted (some name) r ≡ true)

Selected-rows :
    (db : Database) (name : Text)
    → All (Selected db name) (order_by_name (keep (wanted (some name)) db.registrations))
Selected-rows db name = All-order (Selected db name) (keep (wanted (some name)) db.registrations) (
    All-keep_both (λ r. In r db.registrations) (Selected db name) (wanted (some name))
      db.registrations (λ r m w. (m, w)) (In-All db.registrations))

-- A snapshot of a selected row.
abbrev Snapped : Database → AgentIdentity → ℕ → Text → HttpAdmission → Type 0
Snapped db identity now name s =
    (r : Registration) × (Selected db name r) × (snapshot db identity now r ≡ ok s)

module _ (db : Database) (identity : AgentIdentity) (now : ℕ) (name : Text) where
  collect-Snapped :
      (rows : Rows) (ss : List HttpAdmission)
      → All (Selected db name) rows
      → collect db identity now rows ≡ ok ss
      → All (Snapped db identity now name) ss
  unfolding collect
  collect-Snapped [] ss h e =
      let nil : [] ≡ ss = ground arith in subst (All (Snapped db identity now name)) nil tt
  collect-Snapped (r ∷ rows) ss (hr, h) e = elim (Result-cases (snapshot db identity now r)) [
    | inr (u, bad) ↦ ground arith
    | inl (s, snapped) ↦ elim (Result-cases (collect db identity now rows)) [
      | inr (u, bad) ↦ ground arith
      | inl (rest, collected) ↦
          let whole : s ∷ rest ≡ ss = ground arith in
          subst (All (Snapped db identity now name)) whole
            ((r, hr, snapped), collect-Snapped rows rest h collected)
    ]
  ]

  pop-Snapped :
      (ss : List HttpAdmission) (s : HttpAdmission)
      → All (Snapped db identity now name) ss
      → pop ss ≡ some s
      → Snapped db identity now name s
  unfolding pop
  pop-Snapped [] s h e = ground arith
  pop-Snapped (t ∷ ss) s (ht, h) e = elim (Option-cases (pop ss)) [
    | inl last ↦ let same : t ≡ s = ground arith in subst (Snapped db identity now name) same ht
    | inr (u, more) ↦
        let same : u ≡ s = ground arith in
        subst (Snapped db identity now name) same (pop-Snapped ss u h more)
  ]

-- The agent's row and the connection that admit the agent to the tool, and the account it selected.
pub record Admits (db : Database) (catalog : Catalog) (identity : AgentIdentity) (now : ℕ)
    (name : Text) (a : AgentRecord) (r : Registration) (spec : AuthSpec) : Type 0 where
  pub connection : In r db.registrations
  pub named : r.name ≡ name
  pub grantable : grantable_kind r.kind ≡ true
  pub current : current_row db identity ≡ some a
  pub alive : is_active_row now a ≡ true
  pub grant : allows_tool (refreshed identity (some a)) r.name ≡ ok tt
  pub in_sync : activation r (some catalog) ≡ active
  pub account : account_of (binding_of db r.name (some a)) ≡ ok (some spec)

active_of_test : (x : Activation) → is_active x ≡ true → x ≡ active
active_of_test active h = refl
active_of_test disabled h = ground arith
active_of_test pending h = ground arith

unit_of_ok : (g : Result (Unit {0}) Denial) (u : Unit {0}) → g ≡ ok u → g ≡ ok tt
unit_of_ok g tt h = h

module _ (host_url : Text → Bool) (env : Text → Option Text) (audit : Bool) (ctx : RequestCtx) where
  admit-eq-ok :
      (catalog : Catalog) (row : HttpAdmission) (target : ProxyTarget)
      → admit host_url env audit ctx catalog row ≡ ok target
      → (spec : AuthSpec) × (chosen : ProxyTarget) × (row.agent_active ≡ true)
        × (row.grant ≡ ok tt)
        × (activation row.registration (some catalog) ≡ active)
        × (row.account ≡ some spec)
        × (apply_spec host_url env (from_registration row.registration) spec ≡ ok chosen)
        × (target ≡ as_override host_url env chosen)
  unfolding admit
  admit-eq-ok catalog row target h = elim (Option-cases row.account) [
    | inl unbound ↦ ground arith
    | inr (spec, bound) ↦
        elim (Result-cases (apply_spec host_url env (from_registration row.registration) spec)) [
          | inr (f, failed) ↦ ground arith
          | inl (chosen, applied) ↦ elim (Result-cases row.grant) [
            | inr (d, refused) ↦ ground arith
            | inl (u, granted) ↦ (
              spec,
              chosen,
              ground arith,
              unit_of_ok row.grant u granted,
              active_of_test (activation row.registration (some catalog)) ground arith,
              bound,
              applied,
              ground arith,
            )
          ]
        ]
  ]

snapshot-eq-ok :
    (db : Database) (identity : AgentIdentity) (now : ℕ) (r : Registration) (s : HttpAdmission)
    → snapshot db identity now r ≡ ok s
    → (s.registration ≡ r)
      × (account_of (binding_of db r.name (current_row db identity)) ≡ ok s.account)
      × (s.agent_active ≡ is_some_and (current_row db identity) (is_active_row now))
      × (s.grant ≡ allows_tool (refreshed identity (current_row db identity)) r.name)
unfolding snapshot
snapshot-eq-ok db identity now r s h =
    elim (Result-cases (account_of (binding_of db r.name (current_row db identity)))) [
      | inr (u, bad) ↦ ground arith
      | inl (account, read) ↦
          (ground arith, read ∙ ap ok (ground arith), ground arith, ground arith)
    ]

module _ (host_url : Text → Bool) (env : Text → Option Text) (audit : Bool) (ctx : RequestCtx)
    (db : Database) (catalog : Catalog) where
  -- A target that admission by the database returns is one of an agent in the request whose current
  -- row is active and in time and has the tool in its reviewed allowlist and not in its denylist,
  -- of a tool or model of that name that is in the catalog as it is in the database, with the account
  -- that the agent selected for it; and it is made of that registration and that account.
  pub admission_target-eq-ok :
      (creds : Bool) (identity : Option AgentIdentity) (now : ℕ) (target : ProxyTarget)
      → admission_target host_url env audit ctx db catalog creds identity now ≡ ok target
      → (agent : AgentIdentity) × (a : AgentRecord) × (r : Registration) × (spec : AuthSpec)
        × (identity ≡ some agent)
        × (Admits db catalog agent now ctx.tool_name a r spec)
        × ((chosen : ProxyTarget) × (apply_spec host_url env (from_registration r) spec ≡ ok chosen)
            × (target ≡ as_override host_url env chosen))
  unfolding admission_target http_admissions
  admission_target-eq-ok creds none now target h = ground arith
  admission_target-eq-ok creds (some agent) now target h =
      let rows = order_by_name (keep (wanted (some ctx.tool_name)) db.registrations) in
      elim (Result-cases (collect db agent now rows)) [
        | inr (u, bad) ↦ ground arith
        | inl (ss, collected) ↦ elim (Option-cases (pop ss)) [
          | inl nothing ↦ ground arith
          | inr (s, popped) ↦
              let admitted : admit host_url env audit ctx catalog s ≡ ok target = ground arith in
              let (r, (found, named), snapped) =
                pop-Snapped db agent now ctx.tool_name ss s
                  (collect-Snapped db agent now ctx.tool_name rows ss
                    (Selected-rows db ctx.tool_name) collected)
                  popped in
              let (same, account, alive, grant) = snapshot-eq-ok db agent now r s snapped in
              let (spec, chosen, is_alive, granted, in_sync, bound, applied, made) =
                admit-eq-ok host_url env audit ctx catalog s target admitted in
              elim (Option-cases (current_row db agent)) [
                | inl gone ↦ ground arith
                | inr (a, current) ↦ (
                  agent,
                  a,
                  r,
                  spec,
                  refl,
                  record {
                    connection = found;
                    named = ground (arith, eq_iff r.name ctx.tool_name);
                    grantable = ground arith;
                    current = current;
                    alive = ground arith;
                    grant =
                        ap (λ o. allows_tool (refreshed agent o) r.name) (sym current)
                        ∙ (sym grant ∙ granted);
                    in_sync = ap (λ x. activation x (some catalog)) (sym same) ∙ in_sync;
                    account =
                        ap (λ o. account_of (binding_of db r.name o)) (sym current)
                        ∙ (account ∙ ap ok bound);
                  },
                  (
                    chosen,
                    ap (λ x. apply_spec host_url env (from_registration x) spec) (sym same)
                        ∙ applied,
                    made,
                  ),
                )
              ]
        ]
      ]
