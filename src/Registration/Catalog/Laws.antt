-- ===== src/Registration/Catalog/Laws.antt =====
-- The catalog of src/registrations/catalog.rs against the table that it is built from.
use mathlib.Core.Logic.{if_pos, if_neg}
use mathlib.Core.Bool.{false≢true}
use agent_locksmith.Prelude.{
  ◌≡◌, refl, sym, ap, ◌∙◌, ◌↔◌, subst, true, false, Option, none, some, List, [], ◌∷◌, arith,
  if◌then◌else◌,
}
use agent_locksmith.Text.{Text, ◌==◌}
use agent_locksmith.Text.Laws.{eq_iff}
use agent_locksmith.Registration.{Registration, Registration-discrete}
use agent_locksmith.Registration.Table.{Rows, get, order_by_name, list}
use agent_locksmith.Registration.Table.Laws.{Fresh, Keyed, get-order, order-Keyed}
use agent_locksmith.Registration.Catalog.{
  Catalog, lookup, insert, insert_all, from_repo, lookup_any, lookup_active, enabled, activation,
  active, in_catalog, same_row,
}

lookup-insert :
    (name other : Text) (r : Registration) (m : List (Text × Registration))
    → lookup other (insert name r m) ≡ (if name == other then some r else lookup other m)
unfolding lookup insert
lookup-insert name other r [] = refl
lookup-insert name other r ((k, s) ∷ m) =
    ground (arith, lookup-insert name other r m, eq_iff k name, eq_iff k other, eq_iff name other)

-- The first of two answers that is one.
abbrev or_else : Option Registration → Option Registration → Option Registration
or_else none b = b
or_else (some r) b = some r

get-Fresh : (rows : Rows) (name : Text) → Fresh name rows → get rows name ≡ none
unfolding get
get-Fresh [] name h = refl
get-Fresh (r ∷ rows) name h = ground (arith, get-Fresh rows name, eq_iff r.name name)

get-cons :
    (r : Registration) (rows : Rows) (name : Text)
    → get (r ∷ rows) name ≡ (if r.name == name then some r else get rows name)
unfolding get
get-cons r rows name = refl

get-Fresh_eq :
    (r : Registration) (rows : Rows) (name : Text)
    → Fresh r.name rows
    → (r.name == name) ≡ true
    → get rows name ≡ none
get-Fresh_eq r rows name fresh same =
    get-Fresh rows name (subst (λ n. Fresh n rows) ((eq_iff r.name name).0 same) fresh)

lookup-insert_all :
    (rows : Rows) (m : List (Text × Registration)) (name : Text)
    → Keyed rows
    → lookup name (insert_all rows m) ≡ or_else (get rows name) (lookup name m)
unfolding insert_all lookup
lookup-insert_all [] m name h = unfold get in refl
lookup-insert_all (r ∷ rows) m name (fresh, h) =
    lookup-insert_all rows (insert r.name r m) name h
    ∙ ground
        (arith, lookup-insert r.name name r m, get-cons r rows name, get-Fresh_eq r rows name fresh)

or_else-none : (o : Option Registration) → or_else o none ≡ o
or_else-none none = refl
or_else-none (some r) = refl

lookup-nil : (name : Text) → lookup name [] ≡ none
unfolding lookup
lookup-nil name = refl

-- The catalog answers as the table does: by name, a disabled row read as absent on the hot path.
pub from_repo-lookup :
    (rows : Rows) (name : Text)
    → Keyed rows
    → (lookup_any (from_repo rows) name ≡ get rows name)
      × (lookup_active (from_repo rows) name ≡ enabled (get rows name))
from_repo-lookup rows name h =
    let at_empty = λ (o : Option Registration). ap (or_else o) (lookup-nil name) ∙ or_else-none o in
    let found : lookup name (insert_all (order_by_name rows) []) ≡ get rows name =
      lookup-insert_all (order_by_name rows) [] name (order-Keyed rows h)
      ∙ at_empty (get (order_by_name rows) name)
      ∙ get-order rows name h in
    unfold lookup_any lookup_active from_repo list in (found, ap enabled found)

same_row_iff : (o : Option Registration) (r : Registration) → (same_row o r ≡ true) ↔ (o ≡ some r)
unfolding same_row
same_row_iff none r = ground arith
same_row_iff (some s) r = elim (Registration-discrete s r) [
  | yes p ↦ (λ h. ap some p, λ h. if_pos _ p true false)
  | no p ↦ (λ h. absurd (false≢true (sym (if_neg _ p true false) ∙ h)), λ h. absurd (p (cc)))
]

-- A row is active exactly if it is enabled and the catalog holds this very row under its name: a
-- catalog that was built before the row changed leaves it pending.
pub activation-active_iff :
    (r : Registration) (c : Catalog)
    → (activation r (some c) ≡ active) ↔ ((r.disabled ≡ false) × (lookup_any c r.name ≡ some r))
unfolding activation in_catalog
activation-active_iff r c = ground (arith, same_row_iff (lookup_any c r.name) r)
