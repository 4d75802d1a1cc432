-- ===== src/Admin/Accounts/ReadBack.antt =====
-- A sealed value reads back: `op_set_agent_stored_credential` of src/admin/uds.rs with
-- `resolve_stored_credential` of src/proxy.rs.
use agent_locksmith.Prelude.{
  ℕ, ◌≡◌, refl, sym, ap, subst, ◌∙◌, true, false, Option, none, some, length, Result, ok, err,
  arith, Bool-cases, Option-cases, inl, inr,
}
use agent_locksmith.Text.{Text, is_empty}
use agent_locksmith.Text.Utf8.{Bytes, as_bytes, from_utf8}
use agent_locksmith.Registration.Auth.{AuthSpec, stored_secret_ref}
use agent_locksmith.Agent.{AgentRecord}
use agent_locksmith.Agent.Table.{RepoError}
use agent_locksmith.Proxy.Bindings.{get_binding}
use agent_locksmith.Proxy.Credentials.{Vaults, SecretStore, resolve_stored_credential}
use agent_locksmith.Secrets.{SealedSecret, Secrets, get_secret}
use agent_locksmith.Secrets.Laws.{Live, sealed_row}
use agent_locksmith.Secrets.Sealing.{Aes, SealingKeyError, seal, unseal, nonce_len}
use agent_locksmith.Admin.{AdminError}
use agent_locksmith.Admin.Operator.{get_agent}
use agent_locksmith.Admin.Accounts.{
  AccountState, Accounts, AccountWorld, sealed, AccountCall, set_stored_for, with_key,
  op_set_agent_stored_credential, bindings_answer, present, old_reference, chosen_header,
}
use agent_locksmith.Admin.Accounts.Laws.{Still, Gives, value-Stored}

abbrev pub sealed_pair :
    Result (Option SealedSecret) RepoError → Result (Option (Bytes × Bytes)) (Unit {0})
sealed_pair (err e) = err tt
sealed_pair (ok none) = ok none
sealed_pair (ok (some r)) = ok (some (r.sealed_value, r.nonce))

abbrev pub plain_of : Result Bytes SealingKeyError → Option Bytes
plain_of (ok plain) = some plain
plain_of (err e) = none

-- the store of the proxy over the table and the key
abbrev pub store_of : Aes → Bytes → Secrets → SecretStore
store_of aes key db = record {
  get_sealed = λ secret_ref. sealed_pair (get_secret db secret_ref);
  unseal = λ value nonce. plain_of (unseal aes key value nonce);
}

reads-back :
    (aes : Aes) (key value nonce plain : Bytes) (text secret_ref : Text) (db : Secrets) (at : ℕ)
    (vaults : Vaults)
    → vaults.secrets ≡ some (store_of aes key db)
    → Live db secret_ref (sealed_row secret_ref value nonce at)
    → db.online ≡ true
    → unseal aes key value nonce ≡ ok plain
    → from_utf8 plain ≡ some text
    → is_empty text ≡ false
    → resolve_stored_credential vaults secret_ref ≡ ok text
unfolding resolve_stored_credential get_secret
reads-back aes key value nonce plain text secret_ref db at vaults wired live up opened decoded
      full =
    rw wired (rw (up, live, opened, decoded, full) refl)

unseal-seal :
    (aes : Aes) (key nonce plain value out : Bytes)
    → length nonce ≡ nonce_len
    → seal aes key (some nonce) plain ≡ ok (value, out)
    → unseal aes key value out ≡ ok plain
unfolding seal unseal
unseal-seal aes key nonce plain value out short h =
    elim (Option-cases (aes.encrypt key nonce plain)) [
      | inl failed ↦ ground arith
      | inr (made, e) ↦
          let opened = aes.decrypt-encrypt key nonce plain made e in
          let same : made ≡ value = ground arith in
          let same_nonce : nonce ≡ out = ground arith in
          subst (λ v. unseal aes key v out ≡ ok plain) same
            (subst (λ n. unseal aes key made n ≡ ok plain) same_nonce (ground arith))
    ]

set_stored-Gives :
    (c : Accounts) (w : AccountWorld) (still : Still w) (s : AccountState) (key : Bytes)
    (name value : Text) (header : Option Text) (pid name' ref' : Text)
    (r : Result AgentRecord AdminError)
    → (set_stored_for c w s key name value header r).0 ≡ sealed pid name' ref'
    → (agent : AgentRecord) × (r ≡ ok agent)
      × (sealing : Bytes) × (out : Bytes) × (seal c.aes key w.nonce (as_bytes value)
          ≡ ok (sealing, out))
      × Gives c w still agent name
          (set_stored_for c w s key name value header r)
          pid
          name'
          ref'
          (sealed_row ref' sealing out (w.clock 2))
unfolding set_stored_for
set_stored-Gives c w still s key name value header pid name' ref' (err e) reply = ground arith
set_stored-Gives c w still s key name value header pid name' ref' (ok agent) reply =
    let existing =
      present c w (bindings_answer c w 1 (get_binding (w.others 1 s).bindings agent.id name)) in
    let (sealing, out, h, gives) =
      value-Stored c w still agent name (old_reference c w existing) pid name' ref' (w.others 1 s)
        (chosen_header c w header existing name) (as_bytes value) key _ refl reply in
    (agent, refl, sealing, out, h, gives)

with_key-sealed :
    (c : Accounts) (w : AccountWorld) (s : AccountState) (key : Bytes) (id name value : Text)
    (header : Option Text) (pid name' ref' : Text) (k : Option Bytes)
    → k ≡ some key
    → (with_key c w s id name value header k).0 ≡ sealed pid name' ref'
    → with_key c w s id name value header k
      ≡ set_stored_for c w
          (w.others 0 s)
          key
          name
          value
          header
          (get_agent c.admin (w.others 0 s).admin id)
unfolding with_key
with_key-sealed c w s key id name value header pid name' ref' none keyed reply = ground arith
with_key-sealed c w s key id name value header pid name' ref' (some k) keyed reply =
    elim (Bool-cases c.credential_secrets) [
      | inr off ↦ ground arith
      | inl on ↦ elim (Bool-cases c.agent_creds) [
        | inr off ↦ ground arith
        | inl wired ↦ let e : k ≡ key = ground arith in rw on (rw wired (rw e refl))
      ]
    ]

-- A value that an operator sealed for an agent is what the proxy reads: if no other task writes, the key
-- is set, the drawn nonce has 12 bytes, the value is a text that is not empty, and the request was bindings_answer
-- with a reference, then the agent that the request named selects, for that connection, an account with
-- this reference, and the proxy that opens the store with the same key gets exactly the value.
pub sealed_value-reads_back :
    (c : Accounts) (w : AccountWorld) (s : AccountState) (key nonce : Bytes) (id name value : Text)
    (header : Option Text) (pid name' ref' : Text) (vaults : Vaults)
    → Still w
    → c.credential_sealing_key ≡ some key
    → w.nonce ≡ some nonce
    → length nonce ≡ nonce_len
    → from_utf8 (as_bytes value) ≡ some value
    → is_empty value ≡ false
    → (op_set_agent_stored_credential c w s id name value header).0 ≡ sealed pid name' ref'
    → vaults.secrets
      ≡ some
          (store_of c.aes key (op_set_agent_stored_credential c w s id name value header).1.secrets)
    → (agent : AgentRecord) × (spec : AuthSpec) × (get_agent c.admin s.admin id ≡ ok agent)
      × (pid ≡ agent.public_id)
      × (name' ≡ name)
      × (get_binding
            (op_set_agent_stored_credential c w s id name value header).1.bindings
            agent.id
            name
          ≡ ok (some spec))
      × (stored_secret_ref spec ≡ some ref')
      × (resolve_stored_credential vaults ref' ≡ ok value)
unfolding op_set_agent_stored_credential
sealed_value-reads_back c w s key nonce id name value header pid name' ref' vaults still keyed drawn
      short decoded full reply wired =
    let call =
      set_stored_for c w (w.others 0 s) key name value header
        (get_agent c.admin (w.others 0 s).admin id) in
    let same =
      with_key-sealed c w s key id name value header pid name' ref' c.credential_sealing_key keyed
        reply in
    let (agent, found, sealing, out, h, (same_pid, same_name, left)) =
      set_stored-Gives c w still (w.others 0 s) key name value header pid name' ref'
        (get_agent c.admin (w.others 0 s).admin id)
        (sym (ap (λ (x : AccountCall). x.0) same) ∙ reply) in
    (
      agent,
      left.spec,
      ap (λ (x : AccountState). get_agent c.admin x.admin id) (sym (still 0 s)) ∙ found,
      same_pid,
      same_name,
      ap (λ (x : AccountCall). get_binding x.1.bindings agent.id name) same ∙ left.binding,
      left.stored,
      reads-back c.aes key sealing out (as_bytes value) value ref' call.1.secrets (w.clock 2) vaults
          (wired ∙ ap (λ (x : AccountCall). some (store_of c.aes key x.1.secrets)) same) left.live
          left.up
          (unseal-seal c.aes key nonce (as_bytes value) sealing out short
            (ap (λ n. seal c.aes key n (as_bytes value)) (sym drawn) ∙ h))
          decoded full,
    )
