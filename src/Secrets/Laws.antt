-- ===== src/Secrets/Laws.antt =====
-- A sealed value that something refers to stays live: about src/repo/credential_secrets.rs.
use agent_locksmith.Prelude.{
  ℕ, ◌≡◌, refl, sym, ap, ◌∙◌, Bool, true, false, not, Option, none, some, List, [], ◌∷◌, ◌++◌, any,
  find, keep, subst, Result-cases, map, ok, arith, Bool-cases, inl, inr, if◌then◌else◌,
}
use agent_locksmith.Text.{Text, ◌==◌}
use agent_locksmith.Text.Laws.{eq_iff}
use agent_locksmith.Text.Utf8.{Bytes}
use agent_locksmith.Registration.Table.{Rows}
use agent_locksmith.Proxy.Bindings.{AgentCredentialOverride}
use agent_locksmith.Secrets.{
  SealedSecret, Secrets, new_secret_ref, is_live, bury, buried_before, insert_secret, sweep,
  is_referenced, is_orphan, tombstone_if_unreferenced, is_old_orphan, tombstone_unreferenced,
}

abbrev pub Live : Secrets → Text → SealedSecret → Type 0
Live db secret_ref row = find (is_live secret_ref) db.rows ≡ some row

module _ {ℓ} {A : Type ℓ} (p : A → Bool) where
  find-same :
      (q : A → Bool) (f : A → A)
      → ((a : A) → q a ≡ true → p a ≡ false)
      → ((a : A) → q a ≡ true → p (f a) ≡ false)
      → (xs : List A) → find p (map (λ a. if q a then f a else a) xs) ≡ find p xs
  find-same q f miss gone [] = refl
  find-same q f miss gone (x ∷ xs) = elim (Bool-cases (q x)) [
    | inl t ↦ rw t (rw (miss x t, gone x t) (find-same q f miss gone xs))
    | inr n ↦ rw n (ap (λ r. if p x then some x else r) (find-same q f miss gone xs))
  ]

  find-kept :
      (k : A → Bool)
      → ((a : A) → p a ≡ true → k a ≡ true)
      → (xs : List A) → find p (keep k xs) ≡ find p xs
  find-kept k h [] = refl
  find-kept k h (x ∷ xs) = elim (Bool-cases (p x)) [
    | inl t ↦ rw (h x t) (rw t refl)
    | inr n ↦ elim (Bool-cases (k x)) [
      | inl y ↦ rw y (rw n (find-kept k h xs))
      | inr e ↦ rw e (rw n (find-kept k h xs))
    ]
  ]

  pub find-append : (xs ys : List A) (a : A) → find p xs ≡ some a → find p (xs ++ ys) ≡ some a
  find-append [] ys a h = ground arith
  find-append (x ∷ xs) ys a h = ground (arith, find-append xs ys a)

abbrev pub sealed_row : Text → Bytes → Bytes → ℕ → SealedSecret
sealed_row id sealed nonce now = record {
  secret_ref = id;
  sealed_value = sealed;
  nonce = nonce;
  set_at = now;
  tombstoned_at = none;
}

-- What a successful insert did: it added one row, under a reference that no row had.
pub insert_secret-eq-ok :
    (db db' : Secrets) (random : Option Bytes) (sealed nonce : Bytes) (now : ℕ) (id : Text)
    → insert_secret db random sealed nonce now ≡ ok (db', id)
    → (any (λ r. r.secret_ref == id) db.rows ≡ false)
      × (db.online ≡ true)
      × (db' ≡ record db { rows = db.rows ++ sealed_row id sealed nonce now ∷ [] })
unfolding insert_secret
insert_secret-eq-ok db db' random sealed nonce now id h =
    elim (Result-cases (new_secret_ref random)) [
      | inr (e, failed) ↦ ground arith
      | inl (fresh, drawn) ↦ ground arith
    ]

-- One statement on the table of sealed values, next to the two tables that refer to it.
pub data SecretWrite (registrations : Rows) (bindings : List AgentCredentialOverride)
    (db db' : Secrets) : Type 0 where
  inserts :
      (random : Option Bytes) (sealed nonce : Bytes) (now : ℕ) (id : Text)
      → insert_secret db random sealed nonce now ≡ ok (db', id)
      → SecretWrite registrations bindings db db'
  buries :
      (target : Text) (now : ℕ) (hit : Bool)
      → tombstone_if_unreferenced registrations bindings db target now ≡ ok (db', hit)
      → SecretWrite registrations bindings db db'
  buries_old :
      (set_before now n : ℕ)
      → tombstone_unreferenced registrations bindings db set_before now ≡ ok (db', n)
      → SecretWrite registrations bindings db db'
  sweeps :
      (cutoff n : ℕ) → sweep db cutoff ≡ ok (db', n) → SecretWrite registrations bindings db db'

module _ (registrations : Rows) (bindings : List AgentCredentialOverride) (secret_ref : Text)
    (row : SealedSecret) (held : is_referenced registrations bindings secret_ref ≡ true) where
  other_ref :
      (other : Text)
      → is_referenced registrations bindings other ≡ false
      → (other == secret_ref) ≡ false
  other_ref other h = elim (Bool-cases (other == secret_ref)) [
    | inr ne ↦ ne
    | inl same ↦
        let e = ap (is_referenced registrations bindings) ((eq_iff other secret_ref).0 same) in
        let clash = sym h ∙ e ∙ held in ground arith
  ]

  bury-Live :
      (q : SealedSecret → Bool) (db : Secrets) (now : ℕ)
      → ((r : SealedSecret)
          → q r ≡ true
          → is_referenced registrations bindings r.secret_ref ≡ false)
      → Live db secret_ref row
      → Live (bury q now db) secret_ref row
  bury-Live q db now orphan live =
      find-same (is_live secret_ref) q (λ r. record r { tombstoned_at = some now })
        (λ r h. rw (other_ref r.secret_ref (orphan r h)) refl)
        (λ r h. rw (other_ref r.secret_ref (orphan r h)) refl) db.rows
      ∙ live

  -- A live value that something refers to stays live under every statement.
  pub SecretWrite-Live :
      (db db' : Secrets)
      → SecretWrite registrations bindings db db'
      → Live db secret_ref row
      → Live db' secret_ref row
  unfolding insert_secret tombstone_if_unreferenced tombstone_unreferenced sweep
  SecretWrite-Live db db' (inserts random sealed nonce now id h) live =
      let (_, _, added) = insert_secret-eq-ok db db' random sealed nonce now id h in
      subst (λ d. Live d secret_ref row) (sym added)
        (find-append (is_live secret_ref) db.rows (sealed_row id sealed nonce now ∷ []) row live)
  SecretWrite-Live db db' (buries target now hit h) live =
      ground (
        arith,
        bury-Live (is_orphan registrations bindings target) db now (λ r o. ground arith) live,
      )
  SecretWrite-Live db db' (buries_old set_before now n h) live = ground (
    arith,
    bury-Live (is_old_orphan registrations bindings set_before) db now (λ r o. ground arith) live,
  )
  SecretWrite-Live db db' (sweeps cutoff n h) live = ground (
    arith,
    find-kept (is_live secret_ref) (λ r. not (buried_before cutoff r)) (λ r l. ground arith)
        db.rows,
  )
