-- ===== src/Admin/Accounts/Safe.antt =====
-- No handler buries a value that is still selected: about the account handlers of src/admin/uds.rs.
use agent_locksmith.Prelude.{
  ℕ, ◌≡◌, refl, sym, subst, Bool, true, false, not, ◌&&◌, Option, none, some, List, [], ◌∷◌, Result,
  ok, err, if◌then◌else◌,
}
use agent_locksmith.Text.{Text}
use agent_locksmith.Text.Utf8.{Bytes, as_bytes}
use agent_locksmith.Registration.Auth.{AuthSpec, is_oauth, validate_op_reference}
use agent_locksmith.Agent.{AgentRecord}
use agent_locksmith.Agent.Table.{RepoError}
use agent_locksmith.Proxy.Bindings.{
  AgentCredentialOverride, set_binding, get_binding, delete_binding, usable,
}
use agent_locksmith.Secrets.{
  SealedSecret, Secrets, is_live, insert_secret, is_referenced, tombstone_if_unreferenced,
}
use agent_locksmith.Secrets.Laws.{
  Live, sealed_row, insert_secret-eq-ok, find-append, SecretWrite-Live, buries,
}
use agent_locksmith.Secrets.Sealing.{SealingKeyError, seal}
use agent_locksmith.Admin.{AdminError}
use agent_locksmith.Admin.Operator.{get_agent}
use agent_locksmith.Admin.Accounts.{
  AccountState, Accounts, AccountWorld, AccountCall, AccountRequest, set_credential,
  set_stored_credential, unset_credential, serve_account, agent_ids, blank_label, stored_selection,
  set_for, op_set_with, op_set_agent_credential, present, old_reference, chosen_header, stored_auth,
  buried, bury_old, sealed_selection, inserted, sealed_value, set_stored_for, with_key,
  op_set_agent_stored_credential, unset_for, op_unset_agent_credential, bindings_answer, deleted,
}
use agent_locksmith.Admin.Accounts.Laws.{Still}

module _ (c : Accounts) (w : AccountWorld) (still : Still w) (secret_ref : Text)
    (row : SealedSecret) where
  -- a value that was live is live in the end if something refers to it then
  abbrev Safe : AccountState → AccountState → Type 0
  Safe s end =
      Live s.secrets secret_ref row
      → is_referenced end.admin.registrations end.bindings secret_ref ≡ true
      → Live end.secrets secret_ref row

  moved :
      (i : ℕ) (s : AccountState) (f : AccountState → AccountState)
      → ((u : AccountState) → Safe u (f u))
      → Safe s (f (w.others i s))
  moved i s f h = subst (λ u. Safe u (f (w.others i s))) (still i s) (h (w.others i s))

  Safe-if :
      (s : AccountState) (b : Bool) (x y : AccountCall)
      → Safe s x.1
      → Safe s y.1
      → Safe s (if b then x else y).1
  Safe-if s true x y hx hy = hx
  Safe-if s false x y hx hy = hy

  Safe-choice :
      (s : AccountState) (b : Bool) (x y : AccountState)
      → Safe s x
      → Safe s y
      → Safe s (if b then x else y)
  Safe-choice s true x y hx hy = hx
  Safe-choice s false x y hx hy = hy

  stored_selection-Safe :
      (s : AccountState) (agent : AgentRecord) (name : Text) (spec : AuthSpec)
      (r : Result (List AgentCredentialOverride) RepoError)
      → Safe s (stored_selection c w s agent name spec r).1
  unfolding stored_selection
  stored_selection-Safe s agent name spec (err e) live held = live
  stored_selection-Safe s agent name spec (ok bindings) live held = live

  set_for-Safe :
      (s : AccountState) (name : Text) (spec : AuthSpec) (r : Result AgentRecord AdminError)
      → Safe s (set_for c w s name spec r).1
  unfolding set_for
  set_for-Safe s name spec (err e) = λ live held. live
  set_for-Safe s name spec (ok agent) =
      moved 1 s
        (λ u.
          (stored_selection c w u agent name spec (
            bindings_answer c w 1 (
              set_binding u.bindings u.admin.registrations (agent_ids u) agent.id name spec
                (w.clock 1)))).1)
        λ u. stored_selection-Safe u agent name spec _

  op_set_with-Safe :
      (s : AccountState) (id name : Text) (spec : AuthSpec) (r : Result (Unit {0}) Text)
      → Safe s (op_set_with c w s id name spec r).1
  unfolding op_set_with
  op_set_with-Safe s id name spec (err m) = λ live held. live
  op_set_with-Safe s id name spec (ok u) =
      Safe-if s (is_oauth spec && blank_label c w spec) _ _ (λ live held. live)
        (Safe-if s (is_oauth spec && not (usable c.host_url spec)) _ _ (λ live held. live)
          (moved 0 s (λ u. (set_for c w u name spec (get_agent c.admin u.admin id)).1)
            λ u. set_for-Safe u name spec (get_agent c.admin u.admin id)))

  buried-Safe :
      (s : AccountState) (old : Text) (now : ℕ) (r : Result (Secrets × Bool) RepoError)
      → tombstone_if_unreferenced s.admin.registrations s.bindings s.secrets old now ≡ r
      → Safe s (buried c w s r)
  buried-Safe s old now (err e) h = λ live held. live
  buried-Safe s old now (ok (secrets, hit)) h = λ live held.
      SecretWrite-Live s.admin.registrations s.bindings secret_ref row held s.secrets secrets
        (buries old now hit h) live

  bury_old-Safe : (i : ℕ) (s : AccountState) (old : Option Text) → Safe s (bury_old c w i s old)
  unfolding bury_old
  bury_old-Safe i s none = λ live held. live
  bury_old-Safe i s (some old) =
      moved i s
        (λ u.
          buried c w u
            (tombstone_if_unreferenced u.admin.registrations u.bindings u.secrets old (w.clock i)))
        λ u. buried-Safe u old (w.clock i) _ refl

  sealed_selection-Safe :
      (s : AccountState) (agent : AgentRecord) (name id : Text) (old : Option Text)
      (r : Result (List AgentCredentialOverride) RepoError)
      → Safe s (sealed_selection c w s agent name id old r).1
  unfolding sealed_selection
  sealed_selection-Safe s agent name id old (err e) = λ live held. live
  sealed_selection-Safe s agent name id old (ok bindings) =
      bury_old-Safe 4 (record s { bindings = bindings }) old

  inserted-Safe :
      (s : AccountState) (agent : AgentRecord) (name : Text) (header old : Option Text)
      (value nonce : Bytes) (r : Result (Secrets × Text) RepoError)
      → insert_secret s.secrets w.random value nonce (w.clock 2) ≡ r
      → Safe s (inserted c w s agent name header old r).1
  unfolding inserted
  inserted-Safe s agent name header old value nonce (err e) h = λ live held. live
  inserted-Safe s agent name header old value nonce (ok (secrets, id)) h = λ live held.
      let (_, _, added) =
        insert_secret-eq-ok s.secrets secrets w.random value nonce (w.clock 2) id h in
      let still_live : Live secrets secret_ref row =
        subst (λ d. Live d secret_ref row) (sym added)
          (find-append (is_live secret_ref) s.secrets.rows
            (sealed_row id value nonce (w.clock 2) ∷ []) row live) in
      moved 3 (record s { secrets = secrets })
        (λ u.
          (sealed_selection c w u agent name id old (
            bindings_answer c w 3 (
              set_binding u.bindings u.admin.registrations (agent_ids u) agent.id name
                (stored_auth c w header id) (w.clock 3)))).1)
        (λ u. sealed_selection-Safe u agent name id old _) still_live held

  sealed_value-Safe :
      (s : AccountState) (agent : AgentRecord) (name : Text) (header old : Option Text)
      (r : Result (Bytes × Bytes) SealingKeyError)
      → Safe s (sealed_value c w s agent name header old r).1
  unfolding sealed_value
  sealed_value-Safe s agent name header old (err e) = λ live held. live
  sealed_value-Safe s agent name header old (ok (value, nonce)) =
      moved 2 s
        (λ u.
          (inserted c w u agent name header old
            (insert_secret u.secrets w.random value nonce (w.clock 2))).1)
        λ u. inserted-Safe u agent name header old value nonce _ refl

  set_stored_for-Safe :
      (s : AccountState) (key : Bytes) (name value : Text) (header : Option Text)
      (r : Result AgentRecord AdminError)
      → Safe s (set_stored_for c w s key name value header r).1
  unfolding set_stored_for
  set_stored_for-Safe s key name value header (err e) = λ live held. live
  set_stored_for-Safe s key name value header (ok agent) =
      moved 1 s
        (λ u.
          let existing =
            present c w (bindings_answer c w 1 (get_binding u.bindings agent.id name)) in
          (sealed_value c w u agent name (chosen_header c w header existing name)
            (old_reference c w existing) (seal c.aes key w.nonce (as_bytes value))).1)
        λ u. sealed_value-Safe u agent name _ _ _

  with_key-Safe :
      (s : AccountState) (id name value : Text) (header : Option Text) (key : Option Bytes)
      → Safe s (with_key c w s id name value header key).1
  unfolding with_key
  with_key-Safe s id name value header none = λ live held. live
  with_key-Safe s id name value header (some key) =
      Safe-if s (not c.credential_secrets) _ _ (λ live held. live)
        (Safe-if s (not c.agent_creds) _ _ (λ live held. live)
          (moved 0 s
            (λ u. (set_stored_for c w u key name value header (get_agent c.admin u.admin id)).1)
            λ u. set_stored_for-Safe u key name value header (get_agent c.admin u.admin id)))

  deleted-Safe :
      (s : AccountState) (agent : AgentRecord) (name : Text) (old : Option Text)
      → Safe s (deleted c w s agent name old).1
  unfolding deleted
  deleted-Safe s agent name old =
      let cut = record s { bindings = (delete_binding s.bindings agent.id name).0 } in
      Safe-if s (w.bindings_up 2) _ _
        (Safe-choice s c.credential_secrets _ _ (bury_old-Safe 3 cut old) (λ live held. live))
        (λ live held. live)

  unset_for-Safe :
      (s : AccountState) (name : Text) (r : Result AgentRecord AdminError)
      → Safe s (unset_for c w s name r).1
  unfolding unset_for
  unset_for-Safe s name (err e) = λ live held. live
  unset_for-Safe s name (ok agent) =
      let old = λ (u : AccountState).
        old_reference c w
          (present c w (bindings_answer c w 1 (get_binding u.bindings agent.id name))) in
      moved 1 s (λ u. (deleted c w (w.others 2 u) agent name (old u)).1)
        λ u.
          moved 2 u (λ v. (deleted c w v agent name (old u)).1)
            λ v. deleted-Safe v agent name (old u)

-- A sealed value to which a connection or a selection refers when a request to the account handlers is
-- done has not been buried by it: if it was live before, and no other task writes meanwhile, it is live.
pub serve_account-Live :
    (c : Accounts) (w : AccountWorld) (request : AccountRequest) (s : AccountState)
    (secret_ref : Text) (row : SealedSecret)
    → Still w
    → Live s.secrets secret_ref row
    → is_referenced
        (serve_account c w request s).1.admin.registrations
        (serve_account c w request s).1.bindings
        secret_ref
      ≡ true
    → Live (serve_account c w request s).1.secrets secret_ref row
unfolding serve_account op_set_agent_credential op_set_agent_stored_credential
    op_unset_agent_credential
serve_account-Live c w (set_credential id name spec) s secret_ref row still =
    Safe-if c w still secret_ref row s c.agent_creds _ _
      (op_set_with-Safe c w still secret_ref row s id name spec (validate_op_reference spec))
      (λ live held. live)
serve_account-Live c w (set_stored_credential id name value header) s secret_ref row still =
    with_key-Safe c w still secret_ref row s id name value header c.credential_sealing_key
serve_account-Live c w (unset_credential id name) s secret_ref row still =
    Safe-if c w still secret_ref row s c.agent_creds _ _
      (moved c w still secret_ref row 0 s
        (λ u. (unset_for c w u name (get_agent c.admin u.admin id)).1)
        λ u. unset_for-Safe c w still secret_ref row u name (get_agent c.admin u.admin id))
      (λ live held. live)
