-- ===== src/Bootstrap.antt =====
-- Bootstrap tokens: `BootstrapTokenRepository` of src/repo/bootstrap.rs. As in the table of agents a
-- statement is the change of the rows that its SQL text describes; `now` is the clock in seconds and the
-- scope is kept as the value that its JSON text stands for.
pub mod Once
pub mod Unique
use mathlib.Core.Logic.{ite}
use native.Mathlib.Decide.{ℕ_discrete}
use agent_locksmith.Prelude.{
  ℕ, suc, ◌≡◌, Bool, true, false, ◌&&◌, ◌||◌, not, Option, none, some, List, [], ◌∷◌, ◌++◌, any,
  all, find, map, ltb, Result, ok, err, ◌>>=◌, ◌>>◌, ok_or, reject_if, is_some, is_some_and,
  unwrap_or, if◌then◌else◌,
}
use agent_locksmith.Text.{Text, codes, ◌==◌}
use agent_locksmith.Registration.Table.{Rows, is_grant_target}
use agent_locksmith.Agent.Table.{
  Argon2, RepoError, Issued, sqlx, hash, invalid_credential, invalid_grant_target, agent_not_found,
}

pub data BootstrapStatus : Type 0 where
  active used revoked expired unknown : BootstrapStatus

pub record BootstrapScope : Type 0 where
  pub tool_allowlist : Option (List Text)
  pub expires_at : Option ℕ
  pub single_use : Bool

unfoldable pub BootstrapScope-discrete : Discrete BootstrapScope
BootstrapScope-discrete = hlevel ℕ_discrete

abbrev pub same_scope : BootstrapScope → BootstrapScope → Bool
same_scope s t = ite (BootstrapScope-discrete s t) true false

pub record BootstrapTokenRecord : Type 0 where
  pub id : ℕ
  pub public_id : Text
  pub secret_hash : Text
  pub scope : BootstrapScope
  pub created_by : Text
  pub created_at : ℕ
  pub expires_at : Option ℕ
  pub used_at : Option ℕ
  pub used_by_agent_id : Option ℕ
  pub revoked_at : Option ℕ
  pub grants_reviewed : Bool

pub record Tokens : Type 0 where
  pub rows : List BootstrapTokenRecord
  pub next_id : ℕ
  pub online : Bool

abbrev pub running : Tokens → Result (Unit {0}) RepoError
running db = if db.online then ok tt else err sqlx

abbrev pub closed_scope : BootstrapScope → BootstrapScope
closed_scope s = record s { tool_allowlist = some (unwrap_or s.tool_allowlist []) }

abbrev pub minted : Tokens → BootstrapScope → Text → Issued → Text → ℕ → BootstrapTokenRecord
minted db scope created_by token secret_hash now = record {
  id = db.next_id;
  public_id = token.public_id;
  secret_hash = secret_hash;
  scope = closed_scope scope;
  created_by = created_by;
  created_at = now;
  expires_at = scope.expires_at;
  used_at = none;
  used_by_agent_id = none;
  revoked_at = none;
  grants_reviewed = true;
}

module _ (argon2 : Argon2) where
  -- `mint_inner`; a second row with the public id violates `UNIQUE`
  unfoldable pub mint_inner :
      Tokens
      → Rows
      → BootstrapScope
      → Text
      → Issued
      → ℕ
      → Bool
      → Result (Tokens × Text × Text) RepoError
  mint_inner db registrations scope created_by token now checked = do
    secret_hash ← ok_or (argon2.hash token.salt token.secret) hash
    running db
    reject_if
        (checked && not (all (is_grant_target registrations) (unwrap_or scope.tool_allowlist [])))
        invalid_grant_target
    reject_if (any (λ r. r.public_id == token.public_id) db.rows) sqlx
    ok (
      record db {
        rows = db.rows ++ minted db scope created_by token secret_hash now ∷ [];
        next_id = suc db.next_id;
      },
      token.public_id,
      token.secret,
    )

  unfoldable pub mint :
      Tokens → Rows → BootstrapScope → Text → Issued → ℕ → Result (Tokens × Text × Text) RepoError
  mint db registrations scope created_by token now =
      mint_inner db registrations scope created_by token now false

  unfoldable pub mint_reviewed :
      Tokens → Rows → BootstrapScope → Text → Issued → ℕ → Result (Tokens × Text × Text) RepoError
  mint_reviewed db registrations scope created_by token now =
      mint_inner db registrations scope created_by token now true

-- `WHERE public_id = ? AND grants_reviewed = 1`
abbrev pub find_token : Tokens → Text → Option BootstrapTokenRecord
find_token db public_id = find (λ r. r.public_id == public_id && r.grants_reviewed) db.rows

abbrev pub is_past : Option ℕ → ℕ → Bool
is_past expires_at now = is_some_and expires_at (λ e. ltb e now)

abbrev pub status_of : ℕ → Option BootstrapTokenRecord → BootstrapStatus
status_of now none = unknown
status_of now (some r) =
    if is_some r.revoked_at
    then revoked
    else if is_some r.used_at
    then used
    else if is_past r.expires_at now
    then expired
    else active

unfoldable pub diagnose : Tokens → Text → ℕ → Result BootstrapStatus RepoError
diagnose db public_id now = do running db; ok (status_of now (find_token db public_id))

-- the checks that `preview_scope` and `consume` share
unfoldable pub open_token : Tokens → Text → ℕ → Result BootstrapTokenRecord RepoError
open_token db public_id now = do
  running db
  row ← ok_or (find_token db public_id) invalid_credential
  reject_if (is_some row.used_at || is_some row.revoked_at) invalid_credential
  reject_if (is_past row.expires_at now) invalid_credential
  ok row

unfoldable pub preview_scope : Tokens → Text → ℕ → Result BootstrapScope RepoError
preview_scope db public_id now = do row ← open_token db public_id now; ok row.scope

unfoldable pub revoke_token : Tokens → Text → ℕ → Result Tokens RepoError
revoke_token db public_id now = do
  running db
  reject_if (not (any (λ r. r.public_id == public_id) db.rows)) agent_not_found
  ok (record db {
    rows =
        map (λ r. if r.public_id == public_id then record r { revoked_at = some now } else r)
          db.rows;
  })

-- `consume` up to its statement: what was read, then the update on the store as it is by then
pub record Claim : Type 0 where
  pub public_id : Text
  pub scope : BootstrapScope
  pub agent_id : ℕ
  pub read_at : ℕ

unfoldable pub consume_read : Argon2 → Tokens → Text → Text → ℕ → ℕ → Result Claim RepoError
consume_read argon2 db public_id secret agent_id now = do
  row ← open_token db public_id now
  verified ← ok_or (argon2.verify row.secret_hash secret) hash
  reject_if (not verified) invalid_credential
  ok (record { public_id = public_id; scope = row.scope; agent_id = agent_id; read_at = now })

abbrev pub not_over : Option ℕ → ℕ → Bool
not_over none now = true
not_over (some e) now = ltb now e

abbrev pub is_claimable : Claim → ℕ → BootstrapTokenRecord → Bool
is_claimable c now r =
    r.public_id == c.public_id
    && not (is_some r.used_at)
    && not (is_some r.revoked_at)
    && r.grants_reviewed
    && same_scope r.scope c.scope
    && not_over r.expires_at now

abbrev pub mark_used : Claim → BootstrapTokenRecord → BootstrapTokenRecord
mark_used c r = record r {
  used_at = if c.scope.single_use then some c.read_at else r.used_at;
  used_by_agent_id = some c.agent_id;
}

unfoldable pub consume_commit : Tokens → Claim → ℕ → Result (Tokens × BootstrapScope) RepoError
consume_commit db c now = do
  running db
  reject_if (not (any (is_claimable c now) db.rows)) invalid_credential
  ok (
    record db { rows = map (λ r. if is_claimable c now r then mark_used c r else r) db.rows },
    c.scope,
  )
