-- ===== src/Registration/Catalog.antt =====
-- The in-memory catalog: src/registrations/catalog.rs, and `activation` of
-- src/registrations/admission.rs, which compares a row with it.
pub mod Laws
use mathlib.Core.Logic.{ite}
use agent_locksmith.Prelude.{
  ℕ, Bool, true, false, ◌&&◌, not, Option, none, some, List, [], ◌∷◌, find, keep, map,
  if◌then◌else◌,
}
use agent_locksmith.Text.{Text, codes, ◌==◌}
use agent_locksmith.Registration.{Kind, Registration, Registration-discrete}
use agent_locksmith.Registration.Table.{Rows, list, same_kind}

-- `HashMap<String, Arc<Registration>>`: an association list with one entry for each name.
pub record Catalog : Type 0 where
  pub by_name : List (Text × Registration)

-- `HashMap::get` and `HashMap::insert`
unfoldable pub lookup : Text → List (Text × Registration) → Option Registration
lookup name [] = none
lookup name ((k, r) ∷ m) = if k == name then some r else lookup name m

pub insert : Text → Registration → List (Text × Registration) → List (Text × Registration)
insert name r [] = (name, r) ∷ []
insert name r ((k, s) ∷ m) = if k == name then (k, r) ∷ m else (k, s) ∷ insert name r m

-- the loop of `from_repo`
pub insert_all : Rows → List (Text × Registration) → List (Text × Registration)
insert_all [] m = m
insert_all (r ∷ rows) m = insert_all rows (insert r.name r m)

unfoldable pub from_repo : Rows → Catalog
from_repo rows = record { by_name = insert_all (list rows none) [] }

unfoldable pub lookup_any : Catalog → Text → Option Registration
lookup_any c name = lookup name c.by_name

abbrev pub enabled : Option Registration → Option Registration
enabled none = none
enabled (some r) = if r.disabled then none else some r

unfoldable pub lookup_active : Catalog → Text → Option Registration
lookup_active c name = enabled (lookup name c.by_name)

unfoldable pub iter_enabled_by_kind : Catalog → Kind → Rows
iter_enabled_by_kind c k =
    keep (λ r. same_kind r.kind k && not r.disabled)
      (map (λ (e : Text × Registration). e.1) c.by_name)

-- `activation`, whose answers are the texts `disabled`, `active` and `pending`
pub data Activation : Type 0 where
  disabled active pending : Activation

unfoldable pub same_row : Option Registration → Registration → Bool
same_row none r = false
same_row (some s) r = ite (Registration-discrete s r) true false

unfoldable pub in_catalog : Option Catalog → Registration → Bool
in_catalog none r = false
in_catalog (some c) r = same_row (lookup_any c r.name) r

unfoldable pub activation : Registration → Option Catalog → Activation
activation r catalog =
    if r.disabled then disabled else if in_catalog catalog r then active else pending
