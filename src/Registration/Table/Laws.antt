-- ===== src/Registration/Table/Laws.antt =====
-- The primary key of the table of src/registrations/repo.rs and its lookup laws.
use agent_locksmith.Prelude.{
  ◌≡◌, refl, ◌∙◌, ◌≢◌, Option, none, some, [], ◌∷◌, All, All-if, arith, if◌then◌else◌,
}
use agent_locksmith.Text.{Text, ◌==◌, precedes}
use agent_locksmith.Text.Laws.{eq_iff}
use agent_locksmith.Registration.{Registration}
use agent_locksmith.Registration.Table.{
  Rows, get, insert_by_name, order_by_name, overwrite, columns, upsert,
}

-- No row has the name.
abbrev pub Fresh : Text → Rows → Type 0
Fresh name = All (λ r. r.name ≢ name)

-- The primary key: no two rows have the same name.
abbrev pub Keyed : Rows → Type 0
Keyed [] = Unit
Keyed (r ∷ rows) = Fresh r.name rows × Keyed rows

-- Reading after an upsert.
abbrev pub written : Registration → Option Registration → Registration
written r none = columns r
written r (some old) = overwrite (columns r) old

pub get-upsert :
    (rows : Rows) (r : Registration) (name : Text)
    → get (upsert rows r) name
      ≡ (if r.name == name then some (written r (get rows name)) else get rows name)
unfolding get upsert columns
get-upsert [] r name = ground arith
get-upsert (old ∷ rows) r name = ground (
  arith,
  get-upsert rows r name,
  eq_iff old.name r.name,
  eq_iff old.name name,
  eq_iff r.name name,
)

Fresh-insert :
    (name : Text) (r : Registration) (rows : Rows)
    → Fresh name rows
    → r.name ≢ name
    → Fresh name (insert_by_name r rows)
unfolding insert_by_name
Fresh-insert name r [] h ne = (ne, tt)
Fresh-insert name r (s ∷ rows) h ne = ground (arith, Fresh-insert name r rows)

Fresh-order : (name : Text) (rows : Rows) → Fresh name rows → Fresh name (order_by_name rows)
unfolding order_by_name
Fresh-order name [] h = tt
Fresh-order name (r ∷ rows) (ne, h) =
    Fresh-insert name r (order_by_name rows) (Fresh-order name rows h) ne

get-insert :
    (r : Registration) (rows : Rows) (name : Text)
    → Fresh r.name rows
    → get (insert_by_name r rows) name ≡ (if r.name == name then some r else get rows name)
unfolding get insert_by_name
get-insert r [] name h = refl
get-insert r (s ∷ rows) name h =
    ground (arith, get-insert r rows name, eq_iff r.name name, eq_iff s.name name)

pub get-order :
    (rows : Rows) (name : Text) → Keyed rows → get (order_by_name rows) name ≡ get rows name
unfolding order_by_name
get-order [] name h = refl
get-order (r ∷ rows) name (fresh, h) =
    get-insert r (order_by_name rows) name (Fresh-order r.name rows fresh)
    ∙ rw (get-order rows name h) (unfold get in refl)

insert-Keyed :
    (r : Registration) (rows : Rows)
    → Fresh r.name rows
    → Keyed rows
    → Keyed (insert_by_name r rows)
unfolding insert_by_name
insert-Keyed r [] f h = (tt, tt)
insert-Keyed r (s ∷ rows) f h = ground (arith, insert-Keyed r rows, Fresh-insert s.name r rows)

pub order-Keyed : (rows : Rows) → Keyed rows → Keyed (order_by_name rows)
unfolding order_by_name
order-Keyed [] h = tt
order-Keyed (r ∷ rows) (f, h) =
    insert-Keyed r (order_by_name rows) (Fresh-order r.name rows f) (order-Keyed rows h)

-- What all rows have, all ordered rows have.
module _ (P : Registration → Type 0) where
  All-insert : (r : Registration) (rows : Rows) → P r → All P rows → All P (insert_by_name r rows)
  unfolding insert_by_name
  All-insert r [] hr h = (hr, tt)
  All-insert r (s ∷ rows) hr (hs, h) =
      All-if P (precedes r.name s.name) (r ∷ s ∷ rows) (s ∷ insert_by_name r rows) (hr, (hs, h))
        (hs, All-insert r rows hr h)

  pub All-order : (rows : Rows) → All P rows → All P (order_by_name rows)
  unfolding order_by_name
  All-order [] h = tt
  All-order (r ∷ rows) (hr, h) = All-insert r (order_by_name rows) hr (All-order rows h)
