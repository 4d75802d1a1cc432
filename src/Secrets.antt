-- ===== src/Secrets.antt =====
-- The sealed values: `CredentialSecretsRepository` of src/repo/credential_secrets.rs, with the tables
-- that hold references to them. A row whose JSON is no `AuthSpec` counts as no reference. The key of
-- src/secret/credential_sealing.rs is a parameter of what uses it; `now` is the clock in seconds.
pub mod Laws
pub mod Sealing
use agent_locksmith.Prelude.{
  ℕ, Bool, true, false, ◌&&◌, ◌||◌, not, Option, none, some, List, [], ◌∷◌, ◌++◌, any, find, keep,
  map, length, ltb, Result, ok, err, ◌>>◌, ◌>>=◌, reject_if, is_some, is_some_and, if◌then◌else◌,
}
use agent_locksmith.Text.{Text, codes, ◌==◌}
use agent_locksmith.Text.Utf8.{Bytes}
use agent_locksmith.Auth.Cert.{to_hex}
use agent_locksmith.Registration.{Registration}
use agent_locksmith.Registration.Auth.{AuthSpec, stored_secret_ref}
use agent_locksmith.Registration.Table.{Rows}
use agent_locksmith.Proxy.Bindings.{AgentCredentialOverride}
use agent_locksmith.Agent.Table.{RepoError, sqlx, rng}

pub record SealedSecret : Type 0 where
  pub secret_ref : Text
  pub sealed_value : Bytes
  pub nonce : Bytes
  pub set_at : ℕ
  pub tombstoned_at : Option ℕ

pub record Secrets : Type 0 where
  pub rows : List SealedSecret
  pub online : Bool

abbrev pub reachable : Secrets → Result (Unit {0}) RepoError
reachable db = if db.online then ok tt else err sqlx

-- `random` is what the operating system gave
abbrev pub new_secret_ref : Option Bytes → Result Text RepoError
new_secret_ref none = err rng
new_secret_ref (some bytes) = ok (codes "cs_" ++ to_hex bytes)

-- A second row with the reference violates the primary key.
unfoldable pub insert_secret :
    Secrets → Option Bytes → Bytes → Bytes → ℕ → Result (Secrets × Text) RepoError
insert_secret db random sealed nonce now = do
  secret_ref ← new_secret_ref random
  reachable db
  reject_if (any (λ r. r.secret_ref == secret_ref) db.rows) sqlx
  ok (
    record db {
      rows =
          db.rows
          ++ record {
            secret_ref = secret_ref;
            sealed_value = sealed;
            nonce = nonce;
            set_at = now;
            tombstoned_at = none;
          }
            ∷ [];
    },
    secret_ref,
  )

abbrev pub is_live : Text → SealedSecret → Bool
is_live secret_ref r = r.secret_ref == secret_ref && not (is_some r.tombstoned_at)

unfoldable pub get_secret : Secrets → Text → Result (Option SealedSecret) RepoError
get_secret db secret_ref = do reachable db; ok (find (is_live secret_ref) db.rows)

-- the update of the rows that pass a test, which are live
abbrev pub bury : (SealedSecret → Bool) → ℕ → Secrets → Secrets
bury p now db = record db {
  rows = map (λ r. if p r then record r { tombstoned_at = some now } else r) db.rows;
}

unfoldable pub tombstone : Secrets → Text → ℕ → Result (Secrets × Bool) RepoError
tombstone db secret_ref now = do
  reachable db
  ok (bury (is_live secret_ref) now db, any (is_live secret_ref) db.rows)

abbrev pub buried_before : ℕ → SealedSecret → Bool
buried_before cutoff r = is_some_and r.tombstoned_at (λ t. ltb t cutoff)

unfoldable pub sweep : Secrets → ℕ → Result (Secrets × ℕ) RepoError
sweep db cutoff = do
  reachable db
  ok (
    record db { rows = keep (λ r. not (buried_before cutoff r)) db.rows },
    length (keep (buried_before cutoff) db.rows),
  )

-- `secret_ref NOT IN (…)`: what the two tables refer to
abbrev pub refers : Text → AuthSpec → Bool
refers secret_ref spec = is_some_and (stored_secret_ref spec) (λ x. x == secret_ref)

abbrev pub row_refers : Text → AgentCredentialOverride → Bool
row_refers secret_ref b = is_some_and b.auth_spec (refers secret_ref)

unfoldable pub is_referenced : Rows → List AgentCredentialOverride → Text → Bool
is_referenced registrations bindings secret_ref =
    any (λ (r : Registration). refers secret_ref r.auth) registrations
    || any (row_refers secret_ref) bindings

module _ (registrations : Rows) (bindings : List AgentCredentialOverride) where
  abbrev pub is_orphan : Text → SealedSecret → Bool
  is_orphan secret_ref r =
      is_live secret_ref r && not (is_referenced registrations bindings r.secret_ref)

  unfoldable pub tombstone_if_unreferenced : Secrets → Text → ℕ → Result (Secrets × Bool) RepoError
  tombstone_if_unreferenced db secret_ref now = do
    reachable db
    ok (bury (is_orphan secret_ref) now db, any (is_orphan secret_ref) db.rows)

  abbrev pub is_old_orphan : ℕ → SealedSecret → Bool
  is_old_orphan set_before r =
      not (is_some r.tombstoned_at)
      && ltb r.set_at set_before
      && not (is_referenced registrations bindings r.secret_ref)

  unfoldable pub tombstone_unreferenced : Secrets → ℕ → ℕ → Result (Secrets × ℕ) RepoError
  tombstone_unreferenced db set_before now = do
    reachable db
    ok (bury (is_old_orphan set_before) now db, length (keep (is_old_orphan set_before) db.rows))
