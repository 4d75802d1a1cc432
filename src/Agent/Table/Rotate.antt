-- ===== src/Agent/Table/Rotate.antt =====
-- Concurrent calls of `rotate` of src/repo/agent.rs: each caller has read the row, and the updates
-- come in any order.
use agent_locksmith.Prelude.{
  ℕ, suc, ◌≤◌, ◌≡◌, refl, sym, ap, subst, ◌≢◌, Bool, true, false, ◌&&◌, some, List, [], ◌∷◌, Result,
  ok, err, All, arith, map, any, find, is_some, not, if◌then◌else◌, Option-cases, Result-cases, inl,
  inr,
}
use agent_locksmith.Text.{Text, ◌==◌}
use agent_locksmith.Text.Laws.{eq_iff}
use agent_locksmith.Agent.{AgentRecord}
use agent_locksmith.Agent.Table.{
  Argon2, RepoError, Agents, Issued, Rotation, rotate_read, rotate_commit, is_current,
  get_active_by_public_id, rotation_in_progress, sqlx,
}

-- The store after an update, and the count of updates that went through.
abbrev committed : Agents → Result (Agents × Text) RepoError → Agents
committed db (ok (db', secret)) = db'
committed db (err e) = db

abbrev tally : Result (Agents × Text) RepoError → ℕ → ℕ
tally (ok won) n = suc n
tally (err e) n = n

-- How many of the updates of several callers go through, one after the other.
abbrev pub winners : Agents → List Rotation → ℕ
winners db [] = 0
winners db (r ∷ rs) = tally (rotate_commit db r) (winners (committed db (rotate_commit db r)) rs)

-- No row is active with this public id and this hash.
abbrev Stale : Text → Text → List AgentRecord → Type 0
Stale id h =
    All (λ a. (a.public_id == id && a.secret_hash == h && not (is_some a.revoked_at)) ≡ false)

-- A rotation of this agent that read this hash and drew another one.
abbrev pub Pending : Text → Text → Rotation → Type 0
Pending id h r = (r.public_id ≡ id) × (r.current_hash ≡ h) × (r.new_hash ≢ h)

none-Stale :
    (id h : Text) (r : Rotation) (rows : List AgentRecord)
    → Pending id h r
    → Stale id h rows
    → any (is_current r) rows ≡ false
none-Stale id h r [] p s = refl
none-Stale id h r (a ∷ rows) p (here, later) =
    rw (p.0, p.1) (ground (arith, here, none-Stale id h r rows p later))

commit-Stale :
    (id h : Text) (r : Rotation) (rows : List AgentRecord)
    → Pending id h r
    → Stale id h
        (map (λ a. if is_current r a then record a { secret_hash = r.new_hash } else a) rows)
commit-Stale id h r [] p = tt
commit-Stale id h r (a ∷ rows) p = (
  ground (
    arith,
    p.0,
    p.1,
    eq_iff a.public_id id,
    eq_iff a.public_id r.public_id,
    eq_iff a.secret_hash h,
    eq_iff a.secret_hash r.current_hash,
    eq_iff r.new_hash h,
  ),
  commit-Stale id h r rows p,
)

module _ (id h : Text) where
  -- An update on a store without such a row fails and changes nothing.
  Stale-commit :
      (db : Agents) (r : Rotation)
      → Pending id h r
      → Stale id h db.rows
      → (e : RepoError) × (rotate_commit db r ≡ err e)
  unfolding rotate_commit
  Stale-commit db r p s = (
    if db.online then rotation_in_progress r.public_id else sqlx,
    ground (arith, none-Stale id h r db.rows p s),
  )

  commit-ok-Stale :
      (db db' : Agents) (r : Rotation) (secret : Text)
      → Pending id h r
      → rotate_commit db r ≡ ok (db', secret)
      → Stale id h db'.rows
  unfolding rotate_commit
  commit-ok-Stale db db' r secret p won = ground (arith, commit-Stale id h r db.rows p)

  Stale-winners :
      (db : Agents) (rs : List Rotation)
      → All (Pending id h) rs
      → Stale id h db.rows
      → winners db rs ≡ 0
  Stale-winners db [] p s = refl
  Stale-winners db (r ∷ rs) (p, ps) s = rw (Stale-commit db r p s).1 (Stale-winners db rs ps s)

  -- Of any number of rotations of one agent that read the same secret hash, at most one goes
  -- through, in whatever order their updates come.
  pub one_winner : (db : Agents) (rs : List Rotation) → All (Pending id h) rs → winners db rs ≤ 1
  one_winner db [] p = omega arith
  one_winner db (r ∷ rs) (p, ps) = elim (Result-cases (rotate_commit db r)) [
    | inl ((db', secret), won) ↦
        rw won (omega (arith, Stale-winners db' rs ps (commit-ok-Stale db db' r secret p won)))
    | inr (e, lost) ↦ rw lost (one_winner db rs ps)
  ]

abbrev is_active : Text → AgentRecord → Bool
is_active id a = a.public_id == id && not (is_some a.revoked_at)

abbrev renewed : Rotation → AgentRecord → AgentRecord
renewed r a = if is_current r a then record a { secret_hash = r.new_hash } else a

find-renewed :
    (r : Rotation) (rows : List AgentRecord) (a : AgentRecord)
    → find (is_active r.public_id) rows ≡ some a
    → a.secret_hash ≡ r.current_hash
    → (find (is_active r.public_id) (map (renewed r) rows)
        ≡ some (record a { secret_hash = r.new_hash }))
      × (any (is_current r) rows ≡ true)
find-renewed r [] a h e = cc
find-renewed r (b ∷ rows) a h e =
    ground (arith, find-renewed r rows a, eq_iff b.secret_hash r.current_hash)

module _ (argon2 : Argon2) (db : Agents) (id current : Text) (token : Issued) where
  rotate_read-eq-ok :
      (r : Rotation)
      → rotate_read argon2 db id current token ≡ ok r
      → (a : AgentRecord) × (find (is_active id) db.rows ≡ some a)
        × (db.online ≡ true)
        × (r.public_id ≡ id)
        × (a.secret_hash ≡ r.current_hash)
        × (r.new_secret ≡ token.secret)
        × (argon2.hash token.salt token.secret ≡ some r.new_hash)
  unfolding rotate_read
  rotate_read-eq-ok r h = elim (Option-cases (find (is_active id) db.rows)) [
    | inl missing ↦ ground arith
    | inr (a, found) ↦
        (a, found, ground arith, ground arith, ground arith, ground arith, ground arith)
  ]

-- A rotation whose current secret was accepted, and whose update meets the table that was read,
-- goes through and returns the new secret; the agent stays active, and the new secret is the one
-- that its row verifies.
pub rotate_lem :
    (argon2 : Argon2) (db : Agents) (id current : Text) (token : Issued) (r : Rotation)
    → rotate_read argon2 db id current token ≡ ok r
    → (db' : Agents) × (row : AgentRecord) × (rotate_commit db r ≡ ok (db', token.secret))
      × (get_active_by_public_id db' id ≡ ok (some row))
      × (argon2.verify row.secret_hash token.secret ≡ some true)
unfolding rotate_commit get_active_by_public_id
rotate_lem argon2 db id current token r h =
    let (a, found, online, same_id, same_hash, same_secret, hashed) =
      rotate_read-eq-ok argon2 db id current token r h in
    let (renewal, done) =
      find-renewed r db.rows a
        (subst (λ i. find (is_active i) db.rows ≡ some a) (sym same_id) found) same_hash in
    (
      record db { rows = map (renewed r) db.rows },
      record a { secret_hash = r.new_hash },
      rw (online, done, same_secret),
      rw online (
          ap ok (
            subst
              (λ i.
                find (is_active i) (map (renewed r) db.rows)
                ≡ some (record a { secret_hash = r.new_hash }))
              same_id renewal)),
      argon2.verify-hash token.salt token.secret r.new_hash hashed,
    )
