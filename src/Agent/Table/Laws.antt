-- ===== src/Agent/Table/Laws.antt =====
-- Invariants and error paths of the table of src/repo/agent.rs.
use agent_locksmith.Prelude.{
  ℕ, suc, ◌≡◌, refl, ◌≢◌, Bool, false, ◌&&◌, ◌||◌, Option, some, List, [], ◌∷◌, ◌++◌, ok, All,
  arith, map, all, is_some, Option-cases, inl, inr, if◌then◌else◌, not, ◌<◌, unwrap_or,
}
use agent_locksmith.Text.{Text, ◌==◌}
use agent_locksmith.Text.Laws.{eq_iff}
use agent_locksmith.Agent.{AgentRecord}
use agent_locksmith.Registration.Table.{Rows, is_grant_target}
use agent_locksmith.Agent.Table.{
  Argon2, Agents, NewAgent, Issued, PolicyUpdate, update_where, create_inner, conflicts, revoke,
  set_cert_identity, touch_last_used, update_policy_inner, get_active_by_public_id, set_policy,
  rotate_commit, Rotation, is_current, allowlist_targets, new_row,
}

-- Two rows agree in the fields that the table keeps unique.
abbrev Apart : AgentRecord → AgentRecord → Type 0
Apart r s = (r.id ≢ s.id) × (r.name ≢ s.name) × (r.public_id ≢ s.public_id)

-- No two rows agree on id, name or public id.
abbrev pub Unique : List AgentRecord → Type 0
Unique [] = Unit
Unique (r ∷ rows) = All (Apart r) rows × Unique rows

abbrev pub Below : ℕ → List AgentRecord → Type 0
Below n = All (λ r. r.id < n)

pub record IsValid (db : Agents) : Type 0 where
  pub unique : Unique db.rows
  pub below : Below db.next_id db.rows

-- A change that keeps id, name and public id.
pub record KeepsKeys (f : AgentRecord → AgentRecord) : Type 0 where
  pub id : (r : AgentRecord) → (f r).id ≡ r.id
  pub name : (r : AgentRecord) → (f r).name ≡ r.name
  pub public_id : (r : AgentRecord) → (f r).public_id ≡ r.public_id

module _ (p : AgentRecord → Bool) (f : AgentRecord → AgentRecord) (k : KeepsKeys f) where
  abbrev change : AgentRecord → AgentRecord
  change r = if p r then f r else r

  Apart-change : (r s : AgentRecord) → Apart r s → Apart (change r) (change s)
  Apart-change r s h =
      ground (arith, k.id r, k.name r, k.public_id r, k.id s, k.name s, k.public_id s)

  All-change :
      (r : AgentRecord) (rows : List AgentRecord)
      → All (Apart r) rows
      → All (Apart (change r)) (map change rows)
  All-change r [] h = tt
  All-change r (s ∷ rows) (a, h) = (Apart-change r s a, All-change r rows h)

  Unique-change : (rows : List AgentRecord) → Unique rows → Unique (map change rows)
  Unique-change [] h = tt
  Unique-change (r ∷ rows) (a, h) = (All-change r rows a, Unique-change rows h)

  Below-change : (n : ℕ) (rows : List AgentRecord) → Below n rows → Below n (map change rows)
  Below-change n [] h = tt
  Below-change n (r ∷ rows) (a, h) = (ground (arith, k.id r), Below-change n rows h)

  pub update_where-IsValid : (db : Agents) → IsValid db → IsValid (update_where p f db).0
  update_where-IsValid db v = record {
    unique = Unique-change db.rows v.unique;
    below = Below-change db.next_id db.rows v.below;
  }

Apart-new :
    (new : AgentRecord) (rows : List AgentRecord)
    → Below new.id rows
    → conflicts new.name new.public_id rows ≡ false
    → All (λ r. Apart r new) rows
unfolding conflicts
Apart-new new [] b h = tt
Apart-new new (r ∷ rows) (b, bs) h =
    ground (arith, eq_iff r.name new.name, eq_iff r.public_id new.public_id, Apart-new new rows bs)

All-snoc {ℓ κ} :
    {A : Type ℓ} (P : A → Type κ) (xs : List A) {x : A} → All P xs → P x → All P (xs ++ x ∷ [])
All-snoc P [] h p = (p, tt)
All-snoc P (y ∷ xs) (q, h) p = (q, All-snoc P xs h p)

Unique-snoc :
    (rows : List AgentRecord) (new : AgentRecord)
    → Unique rows
    → All (λ r. Apart r new) rows
    → Unique (rows ++ new ∷ [])
Unique-snoc [] new u h = (tt, tt)
Unique-snoc (r ∷ rows) new (a, u) (p, h) = (All-snoc (Apart r) rows a p, Unique-snoc rows new u h)

Below-weaken : (n : ℕ) (rows : List AgentRecord) → Below n rows → Below (suc n) rows
Below-weaken n [] h = tt
Below-weaken n (r ∷ rows) (b, h) = (omega arith, Below-weaken n rows h)

add-IsValid :
    (db : Agents) (new : AgentRecord)
    → IsValid db
    → new.id ≡ db.next_id
    → conflicts new.name new.public_id db.rows ≡ false
    → IsValid (record db { rows = db.rows ++ new ∷ []; next_id = suc db.next_id })
add-IsValid db new v e h = record {
  unique = Unique-snoc db.rows new v.unique (Apart-new new db.rows (rw e v.below) h);
  below =
      All-snoc (λ r. r.id < suc db.next_id) db.rows (Below-weaken db.next_id db.rows v.below)
        (omega arith);
}

module _ (argon2 : Argon2) where
  -- What a successful `create_inner` did: it had a hash of the secret, no row had the name or the
  -- public id, the checked grants are connections that may be granted, and one row was added.
  pub create_inner-eq-ok :
      (db : Agents) (registrations : Rows) (new : NewAgent) (token : Issued) (now : ℕ)
      (checked : Bool) (db' : Agents) (id secret : Text)
      → create_inner argon2 db registrations new token now checked ≡ ok (db', id, secret)
      → (h : Text) × (argon2.hash token.salt token.secret ≡ some h)
        × (conflicts new.name token.public_id db.rows ≡ false)
        × ((checked && not (all (is_grant_target registrations) (unwrap_or new.allowlist [])))
            ≡ false)
        × (db' ≡ record db {
          rows = db.rows ++ new_row new token h db.next_id now ∷ [];
          next_id = suc db.next_id;
        })
        × (id ≡ token.public_id)
        × (secret ≡ token.secret)
  unfolding create_inner
  create_inner-eq-ok db registrations new token now checked db' id secret h =
      elim (Option-cases (argon2.hash token.salt token.secret)) [
        | inl failed ↦ ground arith
        | inr (secret_hash, hashed) ↦ (
          secret_hash,
          hashed,
          ground arith,
          ground arith,
          ground arith,
          ground arith,
          ground arith,
        )
      ]

  pub create_inner-IsValid :
      (db : Agents) (registrations : Rows) (new : NewAgent) (token : Issued) (now : ℕ)
      (checked : Bool) (db' : Agents) (id secret : Text)
      → IsValid db
      → create_inner argon2 db registrations new token now checked ≡ ok (db', id, secret)
      → IsValid db'
  create_inner-IsValid db registrations new token now checked db' id secret v h =
      let (hash, _, free, _, e, _, _) =
        create_inner-eq-ok db registrations new token now checked db' id secret h in
      rw e (add-IsValid db (new_row new token hash db.next_id now) v refl free)

set_policy-KeepsKeys : (u : PolicyUpdate) → KeepsKeys (set_policy u)
set_policy-KeepsKeys u = record { id = λ r. refl; name = λ r. refl; public_id = λ r. refl }

pub revoke-IsValid :
    (db db' : Agents) (id : Text) (now : ℕ) → IsValid db → revoke db id now ≡ ok db' → IsValid db'
unfolding revoke
revoke-IsValid db db' id now v h = ground (
  arith,
  update_where-IsValid (λ r. r.public_id == id) (λ r. record r { revoked_at = some now })
      (record { id = λ r. refl; name = λ r. refl; public_id = λ r. refl }) db v,
)

pub set_cert_identity-IsValid :
    (db db' : Agents) (id : Text) (cert : Option Text)
    → IsValid db
    → set_cert_identity db id cert ≡ ok db'
    → IsValid db'
unfolding set_cert_identity
set_cert_identity-IsValid db db' id cert v h = ground (
  arith,
  update_where-IsValid (λ r. r.public_id == id) (λ r. record r { cert_identity = cert })
      (record { id = λ r. refl; name = λ r. refl; public_id = λ r. refl }) db v,
)

pub touch_last_used-IsValid :
    (db db' : Agents) (id : Text) (now : ℕ)
    → IsValid db
    → touch_last_used db id now ≡ ok db'
    → IsValid db'
unfolding touch_last_used
touch_last_used-IsValid db db' id now v h = ground (
  arith,
  update_where-IsValid (λ r. r.public_id == id) (λ r. record r { last_used_at = some now })
      (record { id = λ r. refl; name = λ r. refl; public_id = λ r. refl }) db v,
)

pub rotate_commit-IsValid :
    (db db' : Agents) (r : Rotation) (secret : Text)
    → IsValid db
    → rotate_commit db r ≡ ok (db', secret)
    → IsValid db'
unfolding rotate_commit
rotate_commit-IsValid db db' r secret v h = ground (
  arith,
  update_where-IsValid (is_current r) (λ a. record a { secret_hash = r.new_hash })
      (record { id = λ a. refl; name = λ a. refl; public_id = λ a. refl }) db v,
)

pub update_policy-IsValid :
    (db db' : Agents) (registrations : Rows) (id : Text) (u : PolicyUpdate) (checked : Bool)
    → IsValid db
    → update_policy_inner db registrations id u checked ≡ ok db'
    → IsValid db'
unfolding update_policy_inner get_active_by_public_id
update_policy-IsValid db db' registrations id u checked v h =
    let passes =
      not (checked && is_some u.allowlist)
      || all (is_grant_target registrations) (allowlist_targets u.allowlist) in
    ground (
      arith,
      update_where-IsValid (λ r. r.public_id == id && passes) (set_policy u)
          (set_policy-KeepsKeys u) db v,
    )
