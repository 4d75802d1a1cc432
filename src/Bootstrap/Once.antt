-- ===== src/Bootstrap/Once.antt =====
-- Claims on a single-use token among any other writes: `consume` of src/repo/bootstrap.rs.
use mathlib.Core.Bool.{false≢true}
use agent_locksmith.Prelude.{
  ℕ, suc, ◌≤◌, ◌≡◌, refl, ap, sym, subst, ◌∙◌, ◌≢◌, Bool, true, false, inl, inr, some, List, [],
  ◌∷◌, ◌++◌, All, any, map, ok, err, Option-cases, Bool-cases, arith, is_some, if◌then◌else◌,
}
use agent_locksmith.Text.{Text, ◌==◌}
use agent_locksmith.Text.Laws.{eq_iff}
use agent_locksmith.Registration.Table.{Rows}
use agent_locksmith.Agent.Table.{Argon2, Issued, sqlx, invalid_credential}
use agent_locksmith.Bootstrap.{
  BootstrapTokenRecord, BootstrapScope, Tokens, Claim, mint_inner, minted, revoke_token,
  consume_commit, is_claimable, mark_used,
}

-- How many rows have the public id: at most one, by the primary key.
abbrev pub count : Text → List BootstrapTokenRecord → ℕ
count id [] = 0
count id (r ∷ rows) = if r.public_id == id then suc (count id rows) else count id rows

-- One write of the source that succeeds, or the database going away or coming back.
pub data TokenWrite (argon2 : Argon2) (db db' : Tokens) : Type 0 where
  mints :
      (registrations : Rows) (scope : BootstrapScope) (by : Text) (token : Issued) (now : ℕ)
      (checked : Bool) (id secret : Text)
      → mint_inner argon2 db registrations scope by token now checked ≡ ok (db', id, secret)
      → TokenWrite argon2 db db'
  revokes : (id : Text) (now : ℕ) → revoke_token db id now ≡ ok db' → TokenWrite argon2 db db'
  consumes :
      (c : Claim) (now : ℕ) (scope : BootstrapScope)
      → consume_commit db c now ≡ ok (db', scope)
      → TokenWrite argon2 db db'
  -- the triggers of src/migrations/0009 and the migration of bindings, which rewrite scopes
  rescopes :
      (p : BootstrapTokenRecord → Bool) (f : BootstrapScope → BootstrapScope)
      → db'
        ≡ record db { rows = map (λ r. if p r then record r { scope = f r.scope } else r) db.rows }
      → TokenWrite argon2 db db'
  outage : (online : Bool) → db' ≡ record db { online = online } → TokenWrite argon2 db db'

pub data TokenHistory (argon2 : Argon2) (db : Tokens) : Tokens → Type 0 where
  start : TokenHistory argon2 db db
  after :
      {mid last : Tokens}
      → TokenHistory argon2 db mid
      → TokenWrite argon2 mid last
      → TokenHistory argon2 db last

-- The token has been issued and every row with its id is used.
pub record IsSpent (id : Text) (db : Tokens) : Type 0 where
  pub known : any (λ r. r.public_id == id) db.rows ≡ true
  pub all_used : All (λ r. (r.public_id ≡ id) → is_some r.used_at ≡ true) db.rows

module _ (id : Text) (p : BootstrapTokenRecord → Bool)
    (f : BootstrapTokenRecord → BootstrapTokenRecord)
    (same_id : (r : BootstrapTokenRecord) → (f r).public_id ≡ r.public_id)
    (stays : (r : BootstrapTokenRecord)
      → is_some r.used_at ≡ true
      → is_some (f r).used_at ≡ true) where
  known-change :
      (rows : List BootstrapTokenRecord)
      → any (λ r. r.public_id == id) rows ≡ true
      → any (λ r. r.public_id == id) (map (λ r. if p r then f r else r) rows) ≡ true
  known-change [] h = h
  known-change (r ∷ rows) h = ground (arith, same_id r, known-change rows)

  used-change :
      (rows : List BootstrapTokenRecord)
      → All (λ r. (r.public_id ≡ id) → is_some r.used_at ≡ true) rows
      → All
          (λ r. (r.public_id ≡ id) → is_some r.used_at ≡ true)
          (map (λ r. if p r then f r else r) rows)
  used-change [] h = tt
  used-change (r ∷ rows) (here, later) =
      (ground (arith, same_id r, stays r), used-change rows later)

  change-IsSpent :
      (db : Tokens)
      → IsSpent id db
      → IsSpent id (record db { rows = map (λ r. if p r then f r else r) db.rows })
  change-IsSpent db h = record {
    known = known-change db.rows h.known;
    all_used = used-change db.rows h.all_used;
  }

known-snoc :
    (id : Text) (rows : List BootstrapTokenRecord) (new : BootstrapTokenRecord)
    → any (λ r. r.public_id == id) rows ≡ true
    → any (λ r. r.public_id == id) (rows ++ new ∷ []) ≡ true
known-snoc id [] new h = absurd (false≢true h)
known-snoc id (r ∷ rows) new h = ground (arith, known-snoc id rows new)

used-snoc :
    (id : Text) (rows : List BootstrapTokenRecord) (new : BootstrapTokenRecord)
    → All (λ r. (r.public_id ≡ id) → is_some r.used_at ≡ true) rows
    → new.public_id ≢ id
    → All (λ r. (r.public_id ≡ id) → is_some r.used_at ≡ true) (rows ++ new ∷ [])
used-snoc id [] new h ne = (λ e. absurd (ne e), tt)
used-snoc id (r ∷ rows) new (here, h) ne = (here, used-snoc id rows new h ne)

issued_apart :
    (id other : Text) (rows : List BootstrapTokenRecord)
    → any (λ r. r.public_id == id) rows ≡ true
    → any (λ r. r.public_id == other) rows ≡ false
    → other ≢ id
issued_apart id other rows k free e =
    absurd (false≢true (sym free ∙ (ap (λ x. any (λ r. r.public_id == x) rows) e ∙ k)))

mark-used :
    (c : Claim) (r : BootstrapTokenRecord)
    → is_some r.used_at ≡ true
    → is_some (mark_used c r).used_at ≡ true
mark-used c r h = ground arith

-- the tokens and the ids as `mint_inner` left them
pub minted-rows :
    (argon2 : Argon2) (db db' : Tokens) (registrations : Rows) (scope : BootstrapScope) (by : Text)
    (token : Issued) (now : ℕ) (checked : Bool) (id secret : Text)
    → mint_inner argon2 db registrations scope by token now checked ≡ ok (db', id, secret)
    → (secret_hash : Text) × (db'.rows ≡ db.rows ++ minted db scope by token secret_hash now ∷ [])
      × (any (λ r. r.public_id == token.public_id) db.rows ≡ false)
unfolding mint_inner
minted-rows argon2 db db' registrations scope by token now checked id secret h =
    elim (Option-cases (argon2.hash token.salt token.secret)) [
      | inl failed ↦ ground arith
      | inr (secret_hash, hashed) ↦ (secret_hash, ground arith, ground arith)
    ]

module _ (argon2 : Argon2) (id : Text) where
  TokenWrite-IsSpent : (db db' : Tokens) → TokenWrite argon2 db db' → IsSpent id db → IsSpent id db'
  TokenWrite-IsSpent db db' (mints regs scope by token now checked issued secret h) v =
      let (secret_hash, e, free) =
        minted-rows argon2 db db' regs scope by token now checked issued secret h in
      let new = minted db scope by token secret_hash now in
      let apart = issued_apart id token.public_id db.rows v.known free in
      record {
        known = rw e (known-snoc id db.rows new v.known);
        all_used = rw e (used-snoc id db.rows new v.all_used apart);
      }
  TokenWrite-IsSpent db db' (revokes other now h) v =
      unfold revoke_token in
      ground (
        arith,
        change-IsSpent id (λ r. r.public_id == other) (λ r. record r { revoked_at = some now })
            (λ r. refl) (λ r s. s) db v,
      )
  TokenWrite-IsSpent db db' (consumes c now scope h) v =
      unfold consume_commit in
      ground
        (arith, change-IsSpent id (is_claimable c now) (mark_used c) (λ r. refl) (mark-used c) db v)
  TokenWrite-IsSpent db db' (rescopes p f e) v =
      rw e (change-IsSpent id p (λ r. record r { scope = f r.scope }) (λ r. refl) (λ r s. s) db v)
  TokenWrite-IsSpent db db' (outage online e) v =
      rw e (record { known = v.known; all_used = v.all_used })

  TokenHistory-IsSpent :
      (db db' : Tokens) → TokenHistory argon2 db db' → IsSpent id db → IsSpent id db'
  TokenHistory-IsSpent db db' start v = v
  TokenHistory-IsSpent db db' (after {mid} past w) v =
      TokenWrite-IsSpent mid db' w (TokenHistory-IsSpent db mid past v)

pub not_claimable :
    (id : Text) (c : Claim) (now : ℕ) (rows : List BootstrapTokenRecord)
    → c.public_id ≡ id
    → All (λ r. (r.public_id ≡ id) → is_some r.used_at ≡ true) rows
    → any (is_claimable c now) rows ≡ false
not_claimable id c now [] e h = refl
not_claimable id c now (r ∷ rows) e (here, later) =
    ground (arith, eq_iff r.public_id c.public_id, here, not_claimable id c now rows e later)

-- a claim that went through has used every row with its id
none-count :
    (id : Text) (c : Claim) (now : ℕ) (rows : List BootstrapTokenRecord)
    → c.public_id ≡ id
    → count id rows ≡ 0
    → (any (is_claimable c now) rows ≡ false)
      × All
          (λ r. (r.public_id ≡ id) → is_some r.used_at ≡ true)
          (map (λ r. if is_claimable c now r then mark_used c r else r) rows)
none-count id c now [] e h = (refl, tt)
none-count id c now (r ∷ rows) e h =
    let rest = none-count id c now rows e (ground arith) in
    (
      ground (arith, eq_iff r.public_id id, eq_iff r.public_id c.public_id, rest.0),
      (ground (arith, eq_iff r.public_id id), rest.1),
    )

claimed-used :
    (id : Text) (c : Claim) (now : ℕ) (rows : List BootstrapTokenRecord)
    → c.public_id ≡ id
    → c.scope.single_use ≡ true
    → count id rows ≤ 1
    → any (is_claimable c now) rows ≡ true
    → All
        (λ r. (r.public_id ≡ id) → is_some r.used_at ≡ true)
        (map (λ r. if is_claimable c now r then mark_used c r else r) rows)
claimed-used id c now [] e single one h = tt
claimed-used id c now (r ∷ rows) e single one h = elim (Bool-cases (r.public_id == id)) [
  | inl mine ↦
      let (free, rest) = none-count id c now rows e (ground arith) in
      let claims : is_claimable c now r ≡ true = ground arith in
      (rw claims (λ _. rw single refl), rest)
  | inr other ↦
      let aside : is_claimable c now r ≡ false =
        ground (arith, eq_iff r.public_id id, eq_iff r.public_id c.public_id) in
      (
        rw aside (λ same. absurd (false≢true (sym other ∙ (eq_iff r.public_id id).1 same))),
        claimed-used id c now rows e single (ground arith) (ground arith),
      )
]

claimable-known :
    (c : Claim) (now : ℕ) (rows : List BootstrapTokenRecord)
    → any (is_claimable c now) rows ≡ true
    → any (λ r. r.public_id == c.public_id) rows ≡ true
claimable-known c now [] h = h
claimable-known c now (r ∷ rows) h = ground (arith, claimable-known c now rows)

pub consume-IsSpent :
    (db db' : Tokens) (c : Claim) (now : ℕ) (scope : BootstrapScope)
    → count c.public_id db.rows ≤ 1
    → c.scope.single_use ≡ true
    → consume_commit db c now ≡ ok (db', scope)
    → IsSpent c.public_id db'
unfolding consume_commit
consume-IsSpent db db' c now scope one single h =
    let claims : any (is_claimable c now) db.rows ≡ true = ground arith in
    let whole : record db {
      rows = map (λ r. if is_claimable c now r then mark_used c r else r) db.rows;
    }
        ≡ db' =
      ground arith in
    subst (IsSpent c.public_id) whole (record {
      known =
          known-change c.public_id (is_claimable c now) (mark_used c) (λ r. refl) (mark-used c)
            db.rows (claimable-known c now db.rows claims);
      all_used = claimed-used c.public_id c now db.rows refl single one claims;
    })

-- Once a claim of a single-use token has gone through, no later claim of it does, whatever both had
-- read before, and whatever is minted, revoked, claimed or rewritten in any scope in between, and
-- whether the database goes away.
pub consumed_once :
    (argon2 : Argon2) (db db' db'' : Tokens) (first second : Claim) (now later : ℕ)
    (scope : BootstrapScope)
    → count first.public_id db.rows ≤ 1
    → first.scope.single_use ≡ true
    → consume_commit db first now ≡ ok (db', scope)
    → TokenHistory argon2 db' db''
    → second.public_id ≡ first.public_id
    → consume_commit db'' second later ≡ err (if db''.online then invalid_credential else sqlx)
unfolding consume_commit
consumed_once argon2 db db' db'' first second now later scope one single won past same =
    let spent =
      TokenHistory-IsSpent argon2 first.public_id db' db'' past
        (consume-IsSpent db db' first now scope one single won) in
    ground (arith, not_claimable first.public_id second later db''.rows same spent.all_used)
