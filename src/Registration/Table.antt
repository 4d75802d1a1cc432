-- ===== src/Registration/Table.antt =====
-- The table `registrations`: `RegistrationRepository` of src/registrations/repo.rs. A statement is
-- the change of the rows that its SQL text describes; `name` is the primary key. A row keeps the
-- texts that serde wrote, so reading it back gives the value that was stored, but for the body limit,
-- which is a column of 64 signed bits. The triggers of src/migrations/0009 rewrite grants in the other
-- tables; they are writes of the histories of Agent.Table and of Bootstrap.
pub mod Laws
use agent_locksmith.Prelude.{
  ℕ, Bool, true, false, ◌&&◌, ◌||◌, Option, none, some, List, [], ◌∷◌, ◌++◌, any, find, keep, map,
  Result, ok, err, is_some, not, ltb, ◌^◌, if◌then◌else◌,
}
use agent_locksmith.Text.{Text, ◌==◌, precedes}
use agent_locksmith.Registration.{Kind, model, tool, infra, Registration}

abbrev pub Rows : Type 0
Rows = List Registration

abbrev pub same_kind : Kind → Kind → Bool
same_kind model model = true
same_kind tool tool = true
same_kind infra infra = true
same_kind _ _ = false

-- `SELECT … WHERE name = ?`
unfoldable pub get : Rows → Text → Option Registration
get rows name = find (λ r. r.name == name) rows

-- `ORDER BY name`
unfoldable pub insert_by_name : Registration → Rows → Rows
insert_by_name r [] = r ∷ []
insert_by_name r (s ∷ rows) =
    if precedes r.name s.name then r ∷ s ∷ rows else s ∷ insert_by_name r rows

unfoldable pub order_by_name : Rows → Rows
order_by_name [] = []
order_by_name (r ∷ rows) = insert_by_name r (order_by_name rows)

unfoldable pub list : Rows → Option Kind → Rows
unfolding insert_by_name order_by_name
list rows none = order_by_name rows
list rows (some k) = order_by_name (keep (λ r. same_kind r.kind k) rows)

-- `as i64` and, when the row is read, `.max(0) as u64`
unfoldable pub stored_limit : ℕ → ℕ
stored_limit limit = if ltb limit (2 ^ 63) then limit else 0

-- what the columns of a row keep
unfoldable pub columns : Registration → Registration
columns r = record r { body_limit_bytes = stored_limit r.body_limit_bytes }

-- A second row with the name violates the primary key.
unfoldable pub create : Rows → Registration → Result Rows (Unit {0})
unfolding get
create rows r = if is_some (get rows r.name) then err tt else ok (rows ++ columns r ∷ [])

-- What `ON CONFLICT … DO UPDATE` writes over the row `old`: not its name, kind and creation time.
abbrev pub overwrite : Registration → Registration → Registration
overwrite r old = record r { name = old.name; kind = old.kind; created_at = old.created_at }

unfoldable pub upsert : Rows → Registration → Rows
upsert [] r = columns r ∷ []
upsert (old ∷ rows) r =
    if old.name == r.name then overwrite (columns r) old ∷ rows else old ∷ upsert rows r

-- The flag of the result is `rows_affected() > 0`.
unfoldable pub delete : Rows → Text → Rows × Bool
unfolding get
delete rows name = (keep (λ r. not (r.name == name)) rows, is_some (get rows name))

unfoldable pub set_disabled : Rows → Text → Bool → ℕ → Rows × Bool
unfolding get
set_disabled rows name disabled now = (
  map (λ r. if r.name == name then record r { disabled = disabled; updated_at = now } else r) rows,
  is_some (get rows name),
)

-- `name IN (SELECT name … WHERE kind IN ('tool', 'model') AND disabled = 0)`: what an agent may be
-- granted.
abbrev pub grantable_kind : Kind → Bool
grantable_kind tool = true
grantable_kind model = true
grantable_kind infra = false

unfoldable pub is_grant_target : Rows → Text → Bool
is_grant_target rows name =
    any (λ r. r.name == name && (grantable_kind r.kind && not r.disabled)) rows
