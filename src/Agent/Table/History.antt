-- ===== src/Agent/Table/History.antt =====
-- Sequences of writes to the table of src/repo/agent.rs, in any order and by any callers: those of its
-- repository, of the triggers of src/migrations/0009 and of src/binding_migration/apply.rs.
use mathlib.Core.Bool.{false≢true}
use agent_locksmith.Prelude.{
  ℕ, suc, ◌≡◌, refl, ◌≢◌, Bool, true, false, ◌&&◌, ◌||◌, Option, none, some, List, [], ◌∷◌, ◌++◌,
  ok, err, All, arith, map, any, all, find, is_some, not, if◌then◌else◌,
}
use agent_locksmith.Text.{Text, ◌==◌}
use agent_locksmith.Text.Laws.{eq_iff}
use agent_locksmith.Registration.Table.{Rows, is_grant_target}
use agent_locksmith.Agent.{AgentRecord}
use agent_locksmith.Agent.Table.{
  Argon2, sqlx, Agents, NewAgent, Issued, PolicyUpdate, Rotation, update_where, conflicts,
  create_inner, revoke, set_cert_identity, touch_last_used, rotate_commit, update_policy_inner,
  get_active_by_public_id, set_policy, is_current, allowlist_targets, new_row,
}
use agent_locksmith.Agent.Table.Laws.{
  IsValid, create_inner-eq-ok, create_inner-IsValid, revoke-IsValid, set_cert_identity-IsValid,
  touch_last_used-IsValid, update_where-IsValid, rotate_commit-IsValid, update_policy-IsValid,
}

module _ (argon2 : Argon2) where
  -- One write of the source that succeeds, or the database going away or coming back.
  pub data Write (db db' : Agents) : Type 0 where
    created :
        (registrations : Rows) (new : NewAgent) (token : Issued) (now : ℕ) (checked : Bool)
        (id secret : Text)
        → create_inner argon2 db registrations new token now checked ≡ ok (db', id, secret)
        → Write db db'
    revoked : (id : Text) (now : ℕ) → revoke db id now ≡ ok db' → Write db db'
    bound : (id : Text) (cert : Option Text) → set_cert_identity db id cert ≡ ok db' → Write db db'
    touched : (id : Text) (now : ℕ) → touch_last_used db id now ≡ ok db' → Write db db'
    rotated : (r : Rotation) (secret : Text) → rotate_commit db r ≡ ok (db', secret) → Write db db'
    updated :
        (registrations : Rows) (id : Text) (u : PolicyUpdate) (checked : Bool)
        → update_policy_inner db registrations id u checked ≡ ok db'
        → Write db db'
    -- the triggers of src/migrations/0009 and src/binding_migration/apply.rs, which rewrite grants
    regranted :
        (p : AgentRecord → Bool) (allow : AgentRecord → Option (List Text))
        (reviewed : AgentRecord → Bool)
        → db'
          ≡ (update_where p
              (λ r. record r { tool_allowlist = allow r; grants_reviewed = reviewed r })
              db).0
        → Write db db'
    outage : (online : Bool) → db' ≡ record db { online = online } → Write db db'

  pub data History (db : Agents) : Agents → Type 0 where
    start : History db db
    after : {mid last : Agents} → History db mid → Write mid last → History db last

  Write-IsValid : (db db' : Agents) → Write db db' → IsValid db → IsValid db'
  Write-IsValid db db' (created regs new token now checked id secret h) v =
      create_inner-IsValid argon2 db regs new token now checked db' id secret v h
  Write-IsValid db db' (revoked id now h) v = revoke-IsValid db db' id now v h
  Write-IsValid db db' (bound id cert h) v = set_cert_identity-IsValid db db' id cert v h
  Write-IsValid db db' (touched id now h) v = touch_last_used-IsValid db db' id now v h
  Write-IsValid db db' (rotated r secret h) v = rotate_commit-IsValid db db' r secret v h
  Write-IsValid db db' (updated regs id u checked h) v =
      update_policy-IsValid db db' regs id u checked v h
  Write-IsValid db db' (regranted p allow reviewed e) v = rw e (
      update_where-IsValid p
        (λ r. record r { tool_allowlist = allow r; grants_reviewed = reviewed r })
        (record { id = λ r. refl; name = λ r. refl; public_id = λ r. refl }) db v)
  Write-IsValid db db' (outage online e) v = rw e (record { unique = v.unique; below = v.below })

  -- Whatever is written, in whatever order, ids, names and public ids stay unique and ids stay below
  -- the counter.
  pub History-IsValid : (db db' : Agents) → IsValid db → History db db' → IsValid db'
  History-IsValid db db' v start = v
  History-IsValid db db' v (after {mid} past w) =
      Write-IsValid mid db' w (History-IsValid db mid v past)

-- The public id has been issued, and every row that has it is revoked.
abbrev pub NoneActive : Text → List AgentRecord → Type 0
NoneActive id = All (λ r. (r.public_id ≡ id) → is_some r.revoked_at ≡ true)

pub record IsRetired (id : Text) (db : Agents) : Type 0 where
  pub known : any (λ r. r.public_id == id) db.rows ≡ true
  pub none_active : NoneActive id db.rows

module _ (id : Text) (p : AgentRecord → Bool) (f : AgentRecord → AgentRecord)
    (same_id : (r : AgentRecord) → (f r).public_id ≡ r.public_id)
    (stays : (r : AgentRecord)
      → is_some r.revoked_at ≡ true
      → is_some (f r).revoked_at ≡ true) where
  known-change :
      (rows : List AgentRecord)
      → any (λ r. r.public_id == id) rows ≡ true
      → any (λ r. r.public_id == id) (map (λ r. if p r then f r else r) rows) ≡ true
  known-change [] h = h
  known-change (r ∷ rows) h = ground (arith, same_id r, known-change rows)

  NoneActive-change :
      (rows : List AgentRecord)
      → NoneActive id rows
      → NoneActive id (map (λ r. if p r then f r else r) rows)
  NoneActive-change [] h = tt
  NoneActive-change (r ∷ rows) (here, later) =
      (ground (arith, same_id r, stays r), NoneActive-change rows later)

  update_where-IsRetired : (db : Agents) → IsRetired id db → IsRetired id (update_where p f db).0
  update_where-IsRetired db h = record {
    known = known-change db.rows h.known;
    none_active = NoneActive-change db.rows h.none_active;
  }

issued_apart :
    (id name public_id : Text) (rows : List AgentRecord)
    → any (λ r. r.public_id == id) rows ≡ true
    → conflicts name public_id rows ≡ false
    → public_id ≢ id
unfolding conflicts
issued_apart id name public_id [] k h e = cc
issued_apart id name public_id (r ∷ rows) k h e = ground (
  arith,
  eq_iff r.public_id id,
  eq_iff r.public_id public_id,
  issued_apart id name public_id rows,
)

known-snoc :
    (id : Text) (rows : List AgentRecord) (new : AgentRecord)
    → any (λ r. r.public_id == id) rows ≡ true
    → any (λ r. r.public_id == id) (rows ++ new ∷ []) ≡ true
known-snoc id [] new h = absurd (false≢true h)
known-snoc id (r ∷ rows) new h = ground (arith, known-snoc id rows new)

NoneActive-snoc :
    (id : Text) (rows : List AgentRecord) (new : AgentRecord)
    → NoneActive id rows
    → new.public_id ≢ id
    → NoneActive id (rows ++ new ∷ [])
NoneActive-snoc id [] new h ne = (λ e. absurd (ne e), tt)
NoneActive-snoc id (r ∷ rows) new (a, h) ne = (a, NoneActive-snoc id rows new h ne)

add-IsRetired :
    (id : Text) (db : Agents) (new : AgentRecord) (next : ℕ)
    → IsRetired id db
    → conflicts new.name new.public_id db.rows ≡ false
    → IsRetired id (record db { rows = db.rows ++ new ∷ []; next_id = next })
add-IsRetired id db new next h free = record {
  known = known-snoc id db.rows new h.known;
  none_active =
      NoneActive-snoc id db.rows new h.none_active
        (issued_apart id new.name new.public_id db.rows h.known free);
}

module _ (argon2 : Argon2) (id : Text) where
  Write-IsRetired : (db db' : Agents) → Write argon2 db db' → IsRetired id db → IsRetired id db'
  Write-IsRetired db db' (created regs new token now checked issued secret h) v =
      let (hash, _, free, _, e, _, _) =
        create_inner-eq-ok argon2 db regs new token now checked db' issued secret h in
      rw e (add-IsRetired id db (new_row new token hash db.next_id now) (suc db.next_id) v free)
  Write-IsRetired db db' (revoked other now h) v =
      unfold revoke in
      ground (
        arith,
        update_where-IsRetired id (λ r. r.public_id == other)
            (λ r. record r { revoked_at = some now }) (λ r. refl) (λ r _. refl) db v,
      )
  Write-IsRetired db db' (bound other cert h) v =
      unfold set_cert_identity in
      ground (
        arith,
        update_where-IsRetired id (λ r. r.public_id == other)
            (λ r. record r { cert_identity = cert }) (λ r. refl) (λ r s. s) db v,
      )
  Write-IsRetired db db' (touched other now h) v =
      unfold touch_last_used in
      ground (
        arith,
        update_where-IsRetired id (λ r. r.public_id == other)
            (λ r. record r { last_used_at = some now }) (λ r. refl) (λ r s. s) db v,
      )
  Write-IsRetired db db' (rotated rotation secret h) v =
      unfold rotate_commit in
      ground (
        arith,
        update_where-IsRetired id (is_current rotation)
            (λ a. record a { secret_hash = rotation.new_hash }) (λ r. refl) (λ r s. s) db v,
      )
  Write-IsRetired db db' (updated regs other u checked h) v =
      unfold update_policy_inner get_active_by_public_id in
      let passes =
        not (checked && is_some u.allowlist)
        || all (is_grant_target regs) (allowlist_targets u.allowlist) in
      ground (
        arith,
        update_where-IsRetired id (λ r. r.public_id == other && passes) (set_policy u) (λ r. refl)
            (λ r s. s) db v,
      )
  Write-IsRetired db db' (regranted p allow reviewed e) v = rw e (
      update_where-IsRetired id p
        (λ r. record r { tool_allowlist = allow r; grants_reviewed = reviewed r }) (λ r. refl)
        (λ r s. s) db v)
  Write-IsRetired db db' (outage online e) v =
      rw e (record { known = v.known; none_active = v.none_active })

  History-IsRetired : (db db' : Agents) → History argon2 db db' → IsRetired id db → IsRetired id db'
  History-IsRetired db db' start v = v
  History-IsRetired db db' (after {mid} past w) v =
      Write-IsRetired mid db' w (History-IsRetired db mid past v)

abbrev revoke_row : Text → ℕ → AgentRecord → AgentRecord
revoke_row id now r = if r.public_id == id then record r { revoked_at = some now } else r

known-revoke :
    (id : Text) (now : ℕ) (rows : List AgentRecord)
    → any (λ r. r.public_id == id) rows ≡ true
    → any (λ r. r.public_id == id) (map (revoke_row id now) rows) ≡ true
known-revoke id now rows h =
    known-change id (λ r. r.public_id == id) (λ r. record r { revoked_at = some now }) (λ r. refl)
      (λ r s. refl) rows h

NoneActive-revoke :
    (id : Text) (now : ℕ) (rows : List AgentRecord) → NoneActive id (map (revoke_row id now) rows)
NoneActive-revoke id now [] = tt
NoneActive-revoke id now (r ∷ rows) =
    (ground (arith, eq_iff r.public_id id), NoneActive-revoke id now rows)

find-NoneActive :
    (id : Text) (rows : List AgentRecord)
    → NoneActive id rows
    → find (λ r. r.public_id == id && not (is_some r.revoked_at)) rows ≡ none
find-NoneActive id [] h = refl
find-NoneActive id (r ∷ rows) (a, h) =
    ground (arith, eq_iff r.public_id id, a, find-NoneActive id rows h)

revoke-IsRetired :
    (db db' : Agents) (id : Text) (now : ℕ) → revoke db id now ≡ ok db' → IsRetired id db'
unfolding revoke
revoke-IsRetired db db' id now h =
    ground (arith, known-revoke id now db.rows, NoneActive-revoke id now db.rows)

retired-not_active :
    (db : Agents) (id : Text)
    → IsRetired id db
    → get_active_by_public_id db id ≡ (if db.online then ok none else err sqlx)
unfolding get_active_by_public_id
retired-not_active db id h = ground (arith, find-NoneActive id db.rows h.none_active)

-- Once a public id is revoked it is never active again: whatever is written later, in whatever
-- order, the lookup that the authenticator uses finds no agent with it.
pub revoked_for_good :
    (argon2 : Argon2) (db db' db'' : Agents) (id : Text) (now : ℕ)
    → revoke db id now ≡ ok db'
    → History argon2 db' db''
    → get_active_by_public_id db'' id ≡ (if db''.online then ok none else err sqlx)
revoked_for_good argon2 db db' db'' id now h past =
    retired-not_active db'' id
      (History-IsRetired argon2 id db' db'' past (revoke-IsRetired db db' id now h))
