-- ===== src/Bootstrap/Unique.antt =====
-- The ids of bootstrap tokens under the writes of src/repo/bootstrap.rs: the column is UNIQUE.
use agent_locksmith.Prelude.{
  ◌+◌, ◌≤◌, ◌≡◌, refl, Bool, false, some, List, [], ◌∷◌, ◌++◌, map, any, arith, if◌then◌else◌,
}
use agent_locksmith.Text.{Text, ◌==◌}
use agent_locksmith.Text.Laws.{eq_iff}
use agent_locksmith.Agent.Table.{Argon2}
use agent_locksmith.Bootstrap.{
  BootstrapTokenRecord, Tokens, minted, revoke_token, consume_commit, is_claimable, mark_used,
}
use agent_locksmith.Bootstrap.Once.{
  count, TokenWrite, mints, revokes, consumes, rescopes, outage, TokenHistory, start, after,
  minted-rows,
}

-- No public id stands in two rows.
abbrev pub IsUnique : Tokens → Type 0
IsUnique db = (id : Text) → count id db.rows ≤ 1

count-map :
    (id : Text) (p : BootstrapTokenRecord → Bool) (f : BootstrapTokenRecord → BootstrapTokenRecord)
    (rows : List BootstrapTokenRecord)
    → ((r : BootstrapTokenRecord) → (f r).public_id ≡ r.public_id)
    → count id (map (λ r. if p r then f r else r) rows) ≡ count id rows
count-map id p f [] same = refl
count-map id p f (r ∷ rows) same = ground (arith, same r, count-map id p f rows same)

count-snoc :
    (id : Text) (rows : List BootstrapTokenRecord) (new : BootstrapTokenRecord)
    → count id (rows ++ new ∷ []) ≡ count id rows + (if new.public_id == id then 1 else 0)
count-snoc id [] new = ground arith
count-snoc id (r ∷ rows) new = ground (arith, count-snoc id rows new)

absent-count :
    (id : Text) (rows : List BootstrapTokenRecord)
    → any (λ r. r.public_id == id) rows ≡ false
    → count id rows ≡ 0
absent-count id [] h = refl
absent-count id (r ∷ rows) h = ground (arith, absent-count id rows)

TokenWrite-IsUnique :
    (argon2 : Argon2) (db db' : Tokens) → TokenWrite argon2 db db' → IsUnique db → IsUnique db'
TokenWrite-IsUnique argon2 db db' (mints regs scope by token now checked issued secret h) u id =
    let (hash, e, free) =
      minted-rows argon2 db db' regs scope by token now checked issued secret h in
    rw e (
      ground (
        arith,
        count-snoc id db.rows (minted db scope by token hash now),
        absent-count token.public_id db.rows free,
        eq_iff token.public_id id,
        u id,
      ))
TokenWrite-IsUnique argon2 db db' (revokes other now h) u id =
    unfold revoke_token in
    ground (
      arith,
      u id,
      count-map id (λ r. r.public_id == other) (λ r. record r { revoked_at = some now }) db.rows
          (λ r. refl),
    )
TokenWrite-IsUnique argon2 db db' (consumes c now scope h) u id =
    unfold consume_commit in
    ground (arith, u id, count-map id (is_claimable c now) (mark_used c) db.rows (λ r. refl))
TokenWrite-IsUnique argon2 db db' (rescopes p f e) u id =
    rw e (
      ground
        (arith, u id, count-map id p (λ r. record r { scope = f r.scope }) db.rows (λ r. refl)))
TokenWrite-IsUnique argon2 db db' (outage online e) u id = rw e (u id)

-- Whatever is minted, revoked, consumed and rescoped, no public id ever stands in two rows.
pub TokenHistory-IsUnique :
    (argon2 : Argon2) (db db' : Tokens) → IsUnique db → TokenHistory argon2 db db' → IsUnique db'
TokenHistory-IsUnique argon2 db db' u start = u
TokenHistory-IsUnique argon2 db db' u (after {mid} past w) =
    TokenWrite-IsUnique argon2 mid db' w (TokenHistory-IsUnique argon2 db mid u past)

pub TokenHistory-append :
    (argon2 : Argon2) (a b c : Tokens)
    → TokenHistory argon2 a b
    → TokenHistory argon2 b c
    → TokenHistory argon2 a c
TokenHistory-append argon2 a b c h start = h
TokenHistory-append argon2 a b c h (after past w) =
    after (TokenHistory-append argon2 a b _ h past) w
