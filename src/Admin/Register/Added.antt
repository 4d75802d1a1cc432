-- ===== src/Admin/Register/Added.antt =====
-- The row that a registration adds, and its revocation: about `create_inner` and `revoke` of
-- src/repo/agent.rs as src/admin/service.rs uses them.
use agent_locksmith.Prelude.{
  ℕ, suc, ◌≡◌, refl, ◌&&◌, not, Bool, true, false, some, List, [], ◌∷◌, ◌++◌, any, map, find-snoc,
  ok, arith, is_some, if◌then◌else◌,
}
use agent_locksmith.Text.{Text, ◌==◌}
use agent_locksmith.Text.Laws.{eq_refl}
use agent_locksmith.Agent.{AgentRecord}
use agent_locksmith.Agent.Table.{
  Agents, Issued, NewAgent, conflicts, new_row, get_active_by_public_id, revoke,
}
use agent_locksmith.Admin.Register.{kept_agents}
use agent_locksmith.Admin.Register.Laws.{none-active_before}

-- the name of a row that was made stays taken
pub conflicts-snoc :
    (name id : Text) (rows : List AgentRecord) (new : AgentRecord)
    → new.name ≡ name
    → conflicts name id (rows ++ new ∷ []) ≡ true
unfolding conflicts
conflicts-snoc name id [] new e = rw e (rw (eq_refl name) refl)
conflicts-snoc name id (r ∷ rows) new e = ground (arith, conflicts-snoc name id rows new e)

conflicts-revoked :
    (name id pid : Text) (now : ℕ) (rows : List AgentRecord)
    → conflicts name id rows ≡ true
    → conflicts name id
        (map (λ r. if r.public_id == pid then record r { revoked_at = some now } else r) rows)
      ≡ true
unfolding conflicts
conflicts-revoked name id pid now [] h = h
conflicts-revoked name id pid now (r ∷ rows) h =
    ground (arith, conflicts-revoked name id pid now rows)

pub kept-conflicts :
    (db : Agents) (name id pid : Text) (now : ℕ)
    → conflicts name id db.rows ≡ true
    → conflicts name id (kept_agents (revoke db pid now) db).rows ≡ true
unfolding revoke
kept-conflicts db name id pid now h = ground (arith, conflicts-revoked name id pid now db.rows h)

pub any-snoc :
    (id : Text) (rows : List AgentRecord) (new : AgentRecord)
    → new.public_id ≡ id
    → any (λ r. r.public_id == id) (rows ++ new ∷ []) ≡ true
any-snoc id [] new e = rw e (rw (eq_refl id) refl)
any-snoc id (r ∷ rows) new e = ground (arith, any-snoc id rows new e)

-- the revocation of a row that is there
pub revoke-known :
    (db : Agents) (id : Text) (now : ℕ)
    → db.online ≡ true
    → any (λ r. r.public_id == id) db.rows ≡ true
    → (db' : Agents) × (revoke db id now ≡ ok db') × (db'.online ≡ true)
unfolding revoke
revoke-known db id now up known = (
  record db {
    rows = map (λ r. if r.public_id == id then record r { revoked_at = some now } else r) db.rows;
  },
  rw (up, known) refl,
  up,
)

-- the table right after a row was added
pub added-active :
    (db : Agents) (new : NewAgent) (token : Issued) (h : Text) (now : ℕ)
    → db.online ≡ true
    → conflicts new.name token.public_id db.rows ≡ false
    → get_active_by_public_id
        (record db {
          rows = db.rows ++ new_row new token h db.next_id now ∷ [];
          next_id = suc db.next_id;
        })
        token.public_id
      ≡ ok (some (new_row new token h db.next_id now))
unfolding get_active_by_public_id
added-active db new token h now up free =
    let made = new_row new token h db.next_id now in
    let wanted : AgentRecord → Bool =
      λ r. r.public_id == token.public_id && not (is_some r.revoked_at) in
    let hit : wanted made ≡ true = rw (eq_refl token.public_id) refl in
    let there =
      find-snoc wanted made hit db.rows
        (none-active_before new.name token.public_id db.rows free) in
    rw (up, there) refl

-- What the table of a new row has: the row is active, it is online, and the name is taken.
pub record Added (name pid : Text) (db : Agents) : Type 0 where
  pub row : AgentRecord
  pub active : get_active_by_public_id db pid ≡ ok (some row)
  pub known : any (λ r. r.public_id == pid) db.rows ≡ true
  pub up : db.online ≡ true
  pub taken : (id : Text) → conflicts name id db.rows ≡ true
