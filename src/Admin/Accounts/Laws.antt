-- ===== src/Admin/Accounts/Laws.antt =====
-- What the account handlers leave: about `op_set_agent_stored_credential` of src/admin/uds.rs with
-- `resolve_stored_credential` of src/proxy.rs, which reads the value back.
use agent_locksmith.Prelude.{
  ℕ, ◌≡◌, refl, sym, ap, subst, ◌∙◌, Bool, true, false, Option, none, some, List, [], ◌∷◌, ◌++◌,
  any, find, find-snoc, Result, ok, err, arith, Bool-cases, inl, inr,
}
use agent_locksmith.Text.{Text, ◌==◌}
use agent_locksmith.Text.Laws.{eq_refl}
use agent_locksmith.Text.Utf8.{Bytes}
use agent_locksmith.Registration.Auth.{AuthSpec, stored_secret_ref}
use agent_locksmith.Registration.Table.{Rows}
use agent_locksmith.Agent.{AgentRecord}
use agent_locksmith.Agent.Table.{RepoError}
use agent_locksmith.Proxy.Bindings.{
  AgentCredentialOverride, get_binding, set_binding, spec_of_row, is_binding,
}
use agent_locksmith.Proxy.Bindings.Roundtrip.{set_binding-found, spec_of_row-some}
use agent_locksmith.Secrets.{
  SealedSecret, Secrets, is_live, insert_secret, is_referenced, row_refers,
  tombstone_if_unreferenced,
}
use agent_locksmith.Secrets.Laws.{Live, sealed_row, insert_secret-eq-ok, SecretWrite-Live, buries}
use agent_locksmith.Secrets.Sealing.{SealingKeyError, seal}
use agent_locksmith.Admin.Accounts.{
  AccountState, Accounts, AccountWorld, sealed, AccountCall, bindings_answer, agent_ids,
  stored_auth, bury_old, buried, sealed_selection, inserted, sealed_value,
}

-- No other task writes while the call waits.
abbrev pub Still : AccountWorld → Type 0
Still w = (i : ℕ) (s : AccountState) → w.others i s ≡ s

find-any {ℓ} :
    {A : Type ℓ} (p q : A → Bool) (xs : List A) (x : A)
    → find p xs ≡ some x
    → q x ≡ true
    → any q xs ≡ true
find-any p q [] x h t = ground arith
find-any p q (y ∷ xs) x h t = elim (Bool-cases (p y)) [
  | inl hit ↦ let e : y ≡ x = ground arith in rw e (rw t refl)
  | inr miss ↦ ground (arith, find-any p q xs x)
]

-- a selection of a sealed value refers to it
held_by :
    (registrations : Rows) (bindings : List AgentCredentialOverride) (id : ℕ)
    (name secret_ref : Text) (b : AgentCredentialOverride) (spec : AuthSpec)
    → find (is_binding id name) bindings ≡ some b
    → b.auth_spec ≡ some spec
    → stored_secret_ref spec ≡ some secret_ref
    → is_referenced registrations bindings secret_ref ≡ true
unfolding is_referenced
held_by registrations bindings id name secret_ref b spec found same stored =
    let hit : row_refers secret_ref b ≡ true = rw same (rw stored (eq_refl secret_ref)) in
    let there = find-any (is_binding id name) (row_refers secret_ref) bindings b found hit in
    ground arith

stored_auth-ref :
    (c : Accounts) (w : AccountWorld) (header : Option Text) (secret_ref : Text)
    → stored_secret_ref (stored_auth c w header secret_ref) ≡ some secret_ref
unfolding stored_secret_ref
stored_auth-ref c w none secret_ref = refl
stored_auth-ref c w (some h) secret_ref = refl

none_live :
    (secret_ref : Text) (rows : List SealedSecret)
    → any (λ r. r.secret_ref == secret_ref) rows ≡ false
    → any (is_live secret_ref) rows ≡ false
none_live secret_ref [] h = refl
none_live secret_ref (r ∷ rows) h = ground (arith, none_live secret_ref rows)

fresh-Live :
    (db : Secrets) (secret_ref : Text) (row : SealedSecret)
    → any (λ r. r.secret_ref == secret_ref) db.rows ≡ false
    → row.secret_ref ≡ secret_ref
    → row.tombstoned_at ≡ none
    → Live (record db { rows = db.rows ++ row ∷ [] }) secret_ref row
fresh-Live db secret_ref row free same alive =
    let hit : is_live secret_ref row ≡ true = rw same (rw alive (rw (eq_refl secret_ref) refl)) in
    find-snoc (is_live secret_ref) row hit db.rows (none_live secret_ref db.rows free)

-- The selection of the agent refers to the sealed value, which is live.
pub record Stored (s : AccountState) (id : ℕ) (name secret_ref : Text) (row : SealedSecret)
    : Type 0 where
  pub spec : AuthSpec
  pub binding : get_binding s.bindings id name ≡ ok (some spec)
  pub stored : stored_secret_ref spec ≡ some secret_ref
  pub live : Live s.secrets secret_ref row
  pub up : s.secrets.online ≡ true

tombstone-online :
    (registrations : Rows) (bindings : List AgentCredentialOverride) (db db' : Secrets) (old : Text)
    (now : ℕ) (hit : Bool)
    → tombstone_if_unreferenced registrations bindings db old now ≡ ok (db', hit)
    → db'.online ≡ db.online
unfolding tombstone_if_unreferenced
tombstone-online registrations bindings db db' old now hit h = ground arith

module _ (c : Accounts) (w : AccountWorld) (still : Still w) where
  bindings_answer-eq-ok :
      {A : Type 0} (i : ℕ) (r : Result A RepoError) (x : A)
      → bindings_answer c w i r ≡ ok x
      → r ≡ ok x
  bindings_answer-eq-ok i r x h = elim (Bool-cases (w.bindings_up i)) [
    | inl up ↦ sym (rw up refl) ∙ h
    | inr down ↦ ground arith
  ]

  -- what burying an old value keeps of the others
  abbrev Kept : AccountState → Text → SealedSecret → AccountState → Type 0
  Kept s secret_ref row end =
      (end.bindings ≡ s.bindings) × (end.secrets.online ≡ true) × Live end.secrets secret_ref row

  module _ (s : AccountState) (secret_ref : Text) (row : SealedSecret)
      (held : is_referenced s.admin.registrations s.bindings secret_ref ≡ true)
      (up : s.secrets.online ≡ true) (live : Live s.secrets secret_ref row) where
    buried-Kept :
        (old : Text) (now : ℕ) (r : Result (Secrets × Bool) RepoError)
        → tombstone_if_unreferenced s.admin.registrations s.bindings s.secrets old now ≡ r
        → Kept s secret_ref row (buried c w s r)
    buried-Kept old now (err e) h = (refl, up, live)
    buried-Kept old now (ok (secrets, hit)) h = (
      refl,
      tombstone-online s.admin.registrations s.bindings s.secrets secrets old now hit h ∙ up,
      SecretWrite-Live s.admin.registrations s.bindings secret_ref row held s.secrets secrets
          (buries old now hit h) live,
    )

    bury_old-Kept : (i : ℕ) (old : Option Text) → Kept s secret_ref row (bury_old c w i s old)
    unfolding bury_old
    bury_old-Kept i none = (refl, up, live)
    bury_old-Kept i (some old) =
        subst
          (λ (u : AccountState). Kept s secret_ref row (
            buried c w u (
              tombstone_if_unreferenced u.admin.registrations u.bindings u.secrets old
                (w.clock i))))
          (sym (still i s)) (buried-Kept old (w.clock i) _ refl)

  -- the reply names the agent, the connection and the reference, and the state has the value
  abbrev pub Gives : AgentRecord → Text → AccountCall → Text → Text → Text → SealedSecret → Type 0
  Gives agent name call pid name' secret_ref row =
      (pid ≡ agent.public_id) × (name' ≡ name) × Stored call.1 agent.id name secret_ref row

  module _ (agent : AgentRecord) (name : Text) (old : Option Text) (pid name' ref' : Text) where
    selection-Stored :
        (s : AccountState) (secret_ref : Text) (spec : AuthSpec) (row : SealedSecret) (now : ℕ)
        (r : Result (List AgentCredentialOverride) RepoError)
        → bindings_answer c w 3
            (set_binding s.bindings s.admin.registrations (agent_ids s) agent.id name spec now)
          ≡ r
        → stored_secret_ref spec ≡ some secret_ref
        → s.secrets.online ≡ true
        → Live s.secrets secret_ref row
        → (sealed_selection c w s agent name secret_ref old r).0 ≡ sealed pid name' ref'
        → (ref' ≡ secret_ref)
          × Gives agent name
              (sealed_selection c w s agent name secret_ref old r)
              pid
              name'
              secret_ref
              row
    unfolding sealed_selection get_binding
    selection-Stored s secret_ref spec row now (err e) h stored up live reply = ground arith
    selection-Stored s secret_ref spec row now (ok bindings) h stored up live reply =
        let (b, found, same) =
          set_binding-found s.bindings bindings s.admin.registrations (agent_ids s) agent.id name
            spec now (bindings_answer-eq-ok 3 _ bindings h) in
        let held =
          held_by s.admin.registrations bindings agent.id name secret_ref b spec found same
            stored in
        let (kept, on, alive) =
          bury_old-Kept (record s { bindings = bindings }) secret_ref row held up live 4 old in
        (
          ground arith,
          (
            ground arith,
            ground arith,
            record {
              spec = spec;
              binding =
                  ap (λ bs. spec_of_row (find (is_binding agent.id name) bs)) kept
                  ∙ ap spec_of_row found
                  ∙ spec_of_row-some b spec same;
              stored = stored;
              live = alive;
              up = on;
            },
          ),
        )

    inserted-Stored :
        (s : AccountState) (header : Option Text) (value nonce : Bytes)
        (r : Result (Secrets × Text) RepoError)
        → insert_secret s.secrets w.random value nonce (w.clock 2) ≡ r
        → (inserted c w s agent name header old r).0 ≡ sealed pid name' ref'
        → Gives agent name
            (inserted c w s agent name header old r)
            pid
            name'
            ref'
            (sealed_row ref' value nonce (w.clock 2))
    unfolding inserted
    inserted-Stored s header value nonce (err e) h reply = ground arith
    inserted-Stored s header value nonce (ok (secrets, secret_ref)) h reply =
        let (fresh, up, added) =
          insert_secret-eq-ok s.secrets secrets w.random value nonce (w.clock 2) secret_ref h in
        let row = sealed_row secret_ref value nonce (w.clock 2) in
        let alive : Live secrets secret_ref row =
          subst (λ d. Live d secret_ref row) (sym added)
            (fresh-Live s.secrets secret_ref row fresh refl refl) in
        let on : secrets.online ≡ true = ap (λ d. d.online) added ∙ up in
        let st = record s { secrets = secrets } in
        let u = w.others 3 st in
        let same = sym (still 3 st) in
        let (e, gives) =
          selection-Stored u secret_ref (stored_auth c w header secret_ref) row (w.clock 3) _ refl
            (stored_auth-ref c w header secret_ref)
            (subst (λ (x : AccountState). x.secrets.online ≡ true) same on)
            (subst (λ (x : AccountState). Live x.secrets secret_ref row) same alive) reply in
        subst
          (λ id.
            Gives agent name (inserted c w s agent name header old (ok (secrets, secret_ref))) pid
              name' id (sealed_row id value nonce (w.clock 2)))
          (sym e) gives

    pub value-Stored :
        (s : AccountState) (header : Option Text) (plain key : Bytes)
        (r : Result (Bytes × Bytes) SealingKeyError)
        → seal c.aes key w.nonce plain ≡ r
        → (sealed_value c w s agent name header old r).0 ≡ sealed pid name' ref'
        → (value : Bytes) × (nonce : Bytes) × (seal c.aes key w.nonce plain ≡ ok (value, nonce))
          × Gives agent name
              (sealed_value c w s agent name header old r)
              pid
              name'
              ref'
              (sealed_row ref' value nonce (w.clock 2))
    unfolding sealed_value
    value-Stored s header plain key (err e) h reply = ground arith
    value-Stored s header plain key (ok (value, nonce)) h reply =
        (value, nonce, h, inserted-Stored (w.others 2 s) header value nonce _ refl reply)
