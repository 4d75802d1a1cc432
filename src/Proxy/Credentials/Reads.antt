-- ===== src/Proxy/Credentials/Reads.antt =====
-- What is read when a credential is materialized: about `selected_env` of src/proxy/selection.rs, and
-- `resolve_stored_credential` and `resolve_oauth_token` of src/proxy.rs.
use agent_locksmith.Prelude.{
  ℕ, ◌≡◌, ap, ◌∙◌, Bool, true, false, inl, inr, ◌⊎◌, Option, none, some, Result, ok, err,
  Result-cases, Option-cases, Bool-cases, arith,
}
use agent_locksmith.Text.{Text, is_empty}
use agent_locksmith.Text.Utf8.{Bytes, from_utf8}
use agent_locksmith.Registration.Auth.{AuthSpec, oauth_session_label}
use agent_locksmith.Proxy.Target.{ProxyAuth, by_oauth}
use agent_locksmith.Proxy.Selection.{selected_env, real_label}
use agent_locksmith.Proxy.Credentials.{
  Vaults, SecretStore, OauthRuntime, OauthSession, resolve_stored_credential, resolve_op, real_text,
  real_op, read_sealed, read_session, refreshed_session, needs_refresh,
}

-- The value that the store keeps sealed under the reference.
pub record Unsealed (vaults : Vaults) (ref v : Text) : Type 0 where
  pub store : SecretStore
  pub value : Bytes
  pub nonce : Bytes
  pub plain : Bytes
  pub configured : vaults.secrets ≡ some store
  pub read : store.get_sealed ref ≡ ok (some (value, nonce))
  pub unsealed : store.unseal value nonce ≡ some plain
  pub utf8 : from_utf8 plain ≡ some v
  pub not_empty : is_empty v ≡ false

-- The token of the account's own session, refreshed with the account if it ran out.
pub record LoggedIn (vaults : Vaults) (now : ℕ) (name : Text) (spec : AuthSpec) (auth : ProxyAuth)
    : Type 0 where
  pub runtime : OauthRuntime
  pub label : Text
  pub session : OauthSession
  pub current : OauthSession
  pub mode : Text
  pub labelled : oauth_session_label spec ≡ some label
  pub configured : vaults.oauth ≡ some runtime
  pub read : runtime.sessions name label ≡ ok (some session)
  pub healthy : session.degraded ≡ false
  pub fresh :
      ((needs_refresh now session ≡ false) × (current ≡ session))
      ⊎ ((needs_refresh now session ≡ true) × (runtime.refresh spec session ≡ ok current))
  pub token : auth ≡ by_oauth mode current.audit_session_id current.access_token current.account_id

pub selected_env-eq-ok :
    (host_url : Text → Bool) (env : Text → Option Text) (var v : Text)
    → selected_env host_url env var ≡ ok v
    → (env var ≡ some v) × (is_empty v ≡ false)
unfolding selected_env
selected_env-eq-ok host_url env var v h = elim (Option-cases (env var)) [
  | inl missing ↦ ground arith
  | inr (x, found) ↦ elim (Bool-cases (is_empty x)) [
    | inl e ↦ ground arith
    | inr full ↦ let same : x ≡ v = ground arith in (found ∙ ap some same, ground arith)
  ]
]

real_text-eq-ok :
    (o : Option Text) (v : Text) → real_text o ≡ ok v → (o ≡ some v) × (is_empty v ≡ false)
real_text-eq-ok none v h = ground arith
real_text-eq-ok (some x) v h = elim (Bool-cases (is_empty x)) [
  | inl e ↦ ground arith
  | inr full ↦ let same : x ≡ v = ground arith in (ap some same, ground arith)
]

real_op-eq-ok :
    (o : Option Text) (v : Text) → real_op o ≡ ok v → (o ≡ some v) × (is_empty v ≡ false)
real_op-eq-ok none v h = ground arith
real_op-eq-ok (some x) v h = elim (Bool-cases (is_empty x)) [
  | inl e ↦ ground arith
  | inr full ↦ let same : x ≡ v = ground arith in (ap some same, ground arith)
]

pub real_label-eq-some :
    (host_url : Text → Bool) (env : Text → Option Text) (o : Option Text) (l : Text)
    → real_label host_url env o ≡ some l
    → o ≡ some l
real_label-eq-some host_url env none l h = ground arith
real_label-eq-some host_url env (some s) l h = ground arith

read_sealed-eq-ok :
    (r : Result (Option (Bytes × Bytes)) (Unit {0})) (x : Bytes × Bytes)
    → read_sealed r ≡ ok x
    → r ≡ ok (some x)
read_sealed-eq-ok (err e) x h = ground arith
read_sealed-eq-ok (ok none) x h = ground arith
read_sealed-eq-ok (ok (some y)) x h = ground arith

pub read_session-eq-ok :
    (r : Result (Option OauthSession) (Unit {0})) (x : OauthSession)
    → read_session r ≡ ok x
    → r ≡ ok (some x)
read_session-eq-ok (err e) x h = ground arith
read_session-eq-ok (ok none) x h = ground arith
read_session-eq-ok (ok (some y)) x h = ground arith

pub refreshed-eq-ok :
    (r : Result OauthSession Text) (x : OauthSession) → refreshed_session r ≡ ok x → r ≡ ok x
refreshed-eq-ok (err e) x h = ground arith
refreshed-eq-ok (ok y) x h = ground arith

module _ (vaults : Vaults) (ref v : Text) where
  pub stored-Unsealed : resolve_stored_credential vaults ref ≡ ok v → Unsealed vaults ref v
  unfolding resolve_stored_credential
  stored-Unsealed h = elim (Option-cases vaults.secrets) [
    | inl missing ↦ ground arith
    | inr (store, configured) ↦ elim (Result-cases (read_sealed (store.get_sealed ref))) [
      | inr (cause, failed) ↦ ground arith
      | inl ((value, nonce), read) ↦ elim (Option-cases (store.unseal value nonce)) [
        | inl broken ↦ ground arith
        | inr (plain, unsealed) ↦
            let real : real_text (from_utf8 plain) ≡ ok v = ground arith in
            let (utf8, not_empty) = real_text-eq-ok (from_utf8 plain) v real in
            record {
              store = store;
              value = value;
              nonce = nonce;
              plain = plain;
              configured = configured;
              read = read_sealed-eq-ok (store.get_sealed ref) (value, nonce) read;
              unsealed = unsealed;
              utf8 = utf8;
              not_empty = not_empty;
            }
      ]
    ]
  ]

  pub resolve_op-eq-ok :
      resolve_op vaults ref ≡ ok v
      → (resolver : Text → Option Text) × (vaults.op_resolver ≡ some resolver)
        × (resolver ref ≡ some v)
        × (is_empty v ≡ false)
  unfolding resolve_op
  resolve_op-eq-ok h = elim (Option-cases vaults.op_resolver) [
    | inl missing ↦ ground arith
    | inr (resolver, configured) ↦
        let real : real_op (resolver ref) ≡ ok v = ground arith in
        let (found, full) = real_op-eq-ok (resolver ref) v real in
        (resolver, configured, found, full)
  ]
