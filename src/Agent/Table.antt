-- ===== src/Agent/Table.antt =====
-- The table `agents`: `AgentRepository` of src/repo/agent.rs. A statement is the change of the rows
-- that its SQL text describes; a statement on a store that is not `online` is the database error of
-- sqlx. Lists are kept as serde stores and reads them back. `now` is the clock, and the token and
-- the salt that the code draws at random are arguments. Argon2 is the parameter `Argon2`.
pub mod Laws
pub mod History
pub mod Rotate
use agent_locksmith.Prelude.{
  ℕ, suc, ◌≡◌, Bool, true, false, ◌&&◌, ◌||◌, not, Option, none, some, List, [], ◌∷◌, ◌++◌, any,
  all, find, keep, map, Result, ok, err, ◌>>=◌, ◌>>◌, ok_or, reject_if, is_some, is_some_and,
  unwrap_or, if◌then◌else◌,
}
use agent_locksmith.Text.{Text, ◌==◌}
use agent_locksmith.Agent.{AgentRecord}
use agent_locksmith.Registration.Table.{Rows, is_grant_target}

-- The crate behind src/argon2_helper.rs: `none` is its error. A hash verifies the secret that it
-- was made of.
pub record Argon2 : Type 0 where
  pub hash : ℕ → Text → Option Text
  pub verify : Text → Text → Option Bool
  pub verify-hash :
      (salt : ℕ) (secret h : Text) → hash salt secret ≡ some h → verify h secret ≡ some true

pub data RepoError : Type 0 where
  agent_name_conflict : Text → RepoError
  rotation_in_progress : Text → RepoError
  agent_not_found invalid_credential hash sqlx : RepoError
  invalid_account_binding invalid_grant_target json rng : RepoError

pub record Agents : Type 0 where
  pub rows : List AgentRecord
  pub next_id : ℕ
  pub online : Bool

abbrev pub running : Agents → Result (Unit {0}) RepoError
running db = if db.online then ok tt else err sqlx

-- `UPDATE … SET … WHERE …` on the rows that pass the test, with `rows_affected() > 0`
abbrev pub update_where :
    (AgentRecord → Bool) → (AgentRecord → AgentRecord) → Agents → Agents × Bool
update_where p f db =
    (record db { rows = map (λ r. if p r then f r else r) db.rows }, any p db.rows)

abbrev pub affected : Agents × Bool → Result Agents RepoError
affected (db, some_rows) = if some_rows then ok db else err agent_not_found

unfoldable pub validate_grants : Agents → Rows → List Text → Result (Unit {0}) RepoError
validate_grants db registrations [] = ok tt
validate_grants db registrations (name ∷ names) =
    let rest = validate_grants db registrations names in
    do running db; if is_grant_target registrations name then rest else err invalid_grant_target

-- The arguments of `create`.
pub record NewAgent : Type 0 where
  pub name : Text
  pub description : Option Text
  pub allowlist : Option (List Text)
  pub denylist : Option (List Text)
  pub metadata : Option Text
  pub expires_at : Option ℕ

-- What the code draws at random: the two parts of a token, and the salt of its hash.
pub record Issued : Type 0 where
  pub public_id : Text
  pub secret : Text
  pub salt : ℕ

-- `UNIQUE(name)` and `UNIQUE(public_id)`
unfoldable pub conflicts : Text → Text → List AgentRecord → Bool
conflicts name public_id rows = any (λ r. r.name == name || r.public_id == public_id) rows

-- the row that `create_inner` inserts
abbrev pub new_row : NewAgent → Issued → Text → ℕ → ℕ → AgentRecord
new_row new token secret_hash id now = record {
  id = id;
  public_id = token.public_id;
  name = new.name;
  description = new.description;
  secret_hash = secret_hash;
  tool_allowlist = some (unwrap_or new.allowlist []);
  grants_reviewed = true;
  tool_denylist = new.denylist;
  metadata = new.metadata;
  cert_identity = none;
  registered_at = now;
  last_used_at = none;
  expires_at = new.expires_at;
  revoked_at = none;
}

module _ (argon2 : Argon2) where
  -- `create_inner`; the store, and the public id and the secret that are returned once
  unfoldable pub create_inner :
      Agents → Rows → NewAgent → Issued → ℕ → Bool → Result (Agents × Text × Text) RepoError
  unfolding conflicts
  create_inner db registrations new token now checked = do
    secret_hash ← ok_or (argon2.hash token.salt token.secret) hash
    let allowlist = unwrap_or new.allowlist []
    running db
    reject_if (checked && not (all (is_grant_target registrations) allowlist)) invalid_grant_target
    reject_if (conflicts new.name token.public_id db.rows) (agent_name_conflict new.name)
    ok (
      record db {
        rows = db.rows ++ new_row new token secret_hash db.next_id now ∷ [];
        next_id = suc db.next_id;
      },
      token.public_id,
      token.secret,
    )

  unfoldable pub create :
      Agents → Rows → NewAgent → Issued → ℕ → Result (Agents × Text × Text) RepoError
  create db registrations new token now = create_inner db registrations new token now false

  unfoldable pub create_reviewed :
      Agents → Rows → NewAgent → Issued → ℕ → Result (Agents × Text × Text) RepoError
  create_reviewed db registrations new token now = create_inner db registrations new token now true

unfoldable pub get_active_by_public_id : Agents → Text → Result (Option AgentRecord) RepoError
get_active_by_public_id db public_id = do
  running db
  ok (find (λ r. r.public_id == public_id && not (is_some r.revoked_at)) db.rows)

unfoldable pub get_by_name : Agents → Text → Result (Option AgentRecord) RepoError
get_by_name db name = do running db; ok (find (λ r. r.name == name) db.rows)

abbrev pub has_cert : Text → Option Text → Bool
has_cert identity o = is_some_and o (λ c. c == identity)

unfoldable pub get_by_cert_identity : Agents → Text → Result (Option AgentRecord) RepoError
get_by_cert_identity db identity = do
  running db
  ok (find (λ r. has_cert identity r.cert_identity && not (is_some r.revoked_at)) db.rows)

unfoldable pub set_cert_identity : Agents → Text → Option Text → Result Agents RepoError
set_cert_identity db public_id cert_identity = do
  running db
  affected (
      update_where (λ r. r.public_id == public_id) (λ r. record r { cert_identity = cert_identity })
        db)

unfoldable pub revoke : Agents → Text → ℕ → Result Agents RepoError
revoke db public_id now = do
  running db
  affected
      (update_where (λ r. r.public_id == public_id) (λ r. record r { revoked_at = some now }) db)

-- No error when no row has the id: the result of the statement is not read.
unfoldable pub touch_last_used : Agents → Text → ℕ → Result Agents RepoError
touch_last_used db public_id now = do
  running db
  ok (update_where (λ r. r.public_id == public_id) (λ r. record r { last_used_at = some now }) db).0

-- A policy update: an outer `none` leaves the field unchanged, an inner one clears it.
pub record PolicyUpdate : Type 0 where
  pub allowlist : Option (Option (List Text))
  pub denylist : Option (Option (List Text))
  pub metadata : Option (Option Text)
  pub expires_at : Option (Option ℕ)

abbrev pub changes : PolicyUpdate → Bool
changes u = is_some u.allowlist || is_some u.denylist || is_some u.metadata || is_some u.expires_at

abbrev pub cleared_list : Option (List Text) → Option (List Text)
cleared_list none = some []
cleared_list (some names) = some names

abbrev pub allowlist_targets : Option (Option (List Text)) → List Text
allowlist_targets none = []
allowlist_targets (some none) = []
allowlist_targets (some (some names)) = names

abbrev pub set_policy : PolicyUpdate → AgentRecord → AgentRecord
set_policy u r = record r {
  tool_allowlist = elim u.allowlist [ none ↦ r.tool_allowlist | some a ↦ cleared_list a ];
  grants_reviewed = elim u.allowlist [ none ↦ r.grants_reviewed | some a ↦ true ];
  tool_denylist = unwrap_or u.denylist r.tool_denylist;
  metadata = unwrap_or u.metadata r.metadata;
  expires_at = unwrap_or u.expires_at r.expires_at;
}

unfoldable pub update_policy_inner :
    Agents → Rows → Text → PolicyUpdate → Bool → Result Agents RepoError
unfolding get_active_by_public_id
update_policy_inner db registrations public_id u checked =
    let check_targets = checked && is_some u.allowlist in
    let targets = allowlist_targets u.allowlist in
    let passes = not check_targets || all (is_grant_target registrations) targets in
    let updated = update_where (λ r. r.public_id == public_id && passes) (set_policy u) db in
    if not (changes u) then ok db else do
      running db
      if updated.1 then ok updated.0 else do
        found ← (if check_targets then get_active_by_public_id db public_id else ok none)
        err (if is_some found then invalid_grant_target else agent_not_found)

unfoldable pub update_policy : Agents → Rows → Text → PolicyUpdate → Result Agents RepoError
update_policy db registrations public_id u = update_policy_inner db registrations public_id u false

unfoldable pub update_policy_reviewed :
    Agents → Rows → Text → PolicyUpdate → Result Agents RepoError
update_policy_reviewed db registrations public_id u =
    update_policy_inner db registrations public_id u true

-- `rotate`: the read and the check of the current secret, then, on the store as it is by then, the
-- update that compares the hash that was read.
pub record Rotation : Type 0 where
  pub public_id : Text
  pub current_hash : Text
  pub new_hash : Text
  pub new_secret : Text

module _ (argon2 : Argon2) where
  unfoldable pub rotate_read : Agents → Text → Text → Issued → Result Rotation RepoError
  rotate_read db public_id current_secret token = do
    running db
    row ←
        ok_or (find (λ r. r.public_id == public_id && not (is_some r.revoked_at)) db.rows)
          invalid_credential
    verified ← ok_or (argon2.verify row.secret_hash current_secret) hash
    reject_if (not verified) invalid_credential
    new_hash ← ok_or (argon2.hash token.salt token.secret) hash
    ok (record {
      public_id = public_id;
      current_hash = row.secret_hash;
      new_hash = new_hash;
      new_secret = token.secret;
    })

abbrev pub is_current : Rotation → AgentRecord → Bool
is_current r a =
    a.public_id == r.public_id && a.secret_hash == r.current_hash && not (is_some a.revoked_at)

unfoldable pub rotate_commit : Agents → Rotation → Result (Agents × Text) RepoError
rotate_commit db r = do
  running db
  let (updated, done) = update_where (is_current r) (λ a. record a { secret_hash = r.new_hash }) db
  if done then ok (updated, r.new_secret) else err (rotation_in_progress r.public_id)
