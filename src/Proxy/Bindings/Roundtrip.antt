-- ===== src/Proxy/Bindings/Roundtrip.antt =====
-- `set`, `get` and `delete` of src/repo/agent_creds.rs against each other.
use agent_locksmith.Prelude.{
  ℕ, ◌≡◌, refl, sym, ap, ◌∙◌, subst, ◌↔◌, ◌⊎◌, inl, inr, Bool, true, false, ◌||◌, not, none, some,
  List, [], ◌∷◌, any, keep, find, map, eqb, ok, ◌>>◌, reject_if, if◌then◌else◌, arith, Bool-cases,
  find-snoc, find-snoc_other, ◌≢◌,
}
use agent_locksmith.Text.{Text}
use agent_locksmith.Text.Laws.{eq_iff}
use agent_locksmith.Registration.Auth.{AuthSpec}
use agent_locksmith.Registration.Table.{Rows, is_grant_target}
use agent_locksmith.Proxy.Bindings.{
  AgentCredentialOverride, is_binding, put_binding, set_binding, get_binding, delete_binding,
  spec_of_row,
}

module _ {ℓ} {A : Type ℓ} (p : A → Bool) (f : A → A) where
  update : List A → List A
  update = map (λ a. if p a then f a else a)

  find-update :
      ((a : A) → p (f a) ≡ p a)
      → (xs : List A) → any p xs ≡ true
      → (a : A) × (find p (update xs) ≡ some (f a))
  unfolding update
  find-update h [] e = ground arith
  find-update h (x ∷ xs) e = elim (Bool-cases (p x)) [
    | inl t ↦ (x, rw t (rw (h x ∙ t) refl))
    | inr n ↦
        let (a, found) = find-update h xs (sym (ap (λ b. b || any p xs) n) ∙ e) in
        (a, rw n (rw n found))
  ]

  find-update_other :
      (q : A → Bool)
      → ((a : A) → q (f a) ≡ q a)
      → ((a : A) → p a ≡ true → q a ≡ false)
      → (xs : List A) → find q (update xs) ≡ find q xs
  unfolding update
  find-update_other q h d [] = refl
  find-update_other q h d (x ∷ xs) = elim (Bool-cases (p x)) [
    | inl t ↦ rw t (rw (h x, d x t) (find-update_other q h d xs))
    | inr n ↦ rw n (ap (λ r. if q x then some x else r) (find-update_other q h d xs))
  ]

find-keep {ℓ} : {A : Type ℓ} (p : A → Bool) (xs : List A) → find p (keep (λ a. not (p a)) xs) ≡ none
find-keep p [] = refl
find-keep p (x ∷ xs) = elim (Bool-cases (p x)) [
  | inl t ↦ rw t (find-keep p xs)
  | inr n ↦ rw n (rw n (find-keep p xs))
]

abbrev Row : Type 0
Row = AgentCredentialOverride

is_binding_iff :
    (a : ℕ) (r : Text) (b : Row)
    → (is_binding a r b ≡ true) ↔ ((b.agent_id ≡ a) × (b.registration ≡ r))
is_binding_iff a r b = ground (arith, eq_iff b.registration r)

abbrev renewed : AuthSpec → ℕ → Row → Row
renewed spec now b = record b { auth_spec = some spec; updated_at = now }

abbrev fresh : ℕ → Text → AuthSpec → ℕ → Row
fresh a r spec now = record {
  agent_id = a;
  registration = r;
  auth_spec = some spec;
  created_at = now;
  updated_at = now;
}

-- A row under one key is no row under another.
other_key :
    (a : ℕ) (r : Text) (q : ℕ) (s : Text) (b : Row)
    → (a ≢ q) ⊎ (r ≢ s)
    → is_binding a r b ≡ true
    → is_binding q s b ≡ false
other_key a r q s b d h = elim (Bool-cases (is_binding q s b)) [
  | inr n ↦ n
  | inl t ↦
      let (id_a, name_r) = (is_binding_iff a r b).0 h in
      let (id_q, name_s) = (is_binding_iff q s b).0 t in
      elim d [ inl n ↦ absurd (n (sym id_a ∙ id_q)) | inr n ↦ absurd (n (sym name_r ∙ name_s)) ]
]

module _ (bindings : List Row) (a : ℕ) (r : Text) (spec : AuthSpec) (now : ℕ) where
  written : List Row
  written = put_binding (fresh a r spec now) bindings

  fresh-key : is_binding a r (fresh a r spec now) ≡ true
  fresh-key = (is_binding_iff a r (fresh a r spec now)).1 (refl, refl)

  find-written : (b : Row) × (find (is_binding a r) written ≡ some b) × (b.auth_spec ≡ some spec)
  unfolding written update
  find-written = elim (Bool-cases (any (is_binding a r) bindings)) [
    | inl t ↦
        let (b, e) = find-update (is_binding a r) (renewed spec now) (λ b. refl) bindings t in
        (renewed spec now b, rw t e, refl)
    | inr n ↦ (fresh a r spec now, rw n (find-snoc (is_binding a r) _ fresh-key bindings n), refl)
  ]

  find-written_other :
      (q : ℕ) (s : Text)
      → (a ≢ q) ⊎ (r ≢ s)
      → find (is_binding q s) written ≡ find (is_binding q s) bindings
  unfolding written update
  find-written_other q s d = elim (Bool-cases (any (is_binding a r) bindings)) [
    | inl t ↦ rw t (
        find-update_other (is_binding a r) (renewed spec now) (is_binding q s) (λ b. refl)
          (λ b. other_key a r q s b d) bindings)
    | inr n ↦ rw n (
        find-snoc_other (is_binding q s) (fresh a r spec now)
          (other_key a r q s (fresh a r spec now) d fresh-key) bindings)
  ]

guarded {ℓ κ} :
    {A : Type ℓ} {E : Type κ} (e f : E) (c d : Bool) (x y : A)
    → (reject_if c e >> (reject_if d f >> ok x)) ≡ ok y
    → x ≡ y
guarded e f true d x y h = ground arith
guarded e f false true x y h = ground arith
guarded e f false false x y h = ground arith

pub spec_of_row-some :
    (b : Row) (spec : AuthSpec) → b.auth_spec ≡ some spec → spec_of_row (some b) ≡ ok (some spec)
spec_of_row-some b spec e = rw e refl

set_binding-eq-ok :
    (bindings after : List Row) (rows : Rows) (ids : List ℕ) (a : ℕ) (r : Text) (spec : AuthSpec)
    (now : ℕ)
    → set_binding bindings rows ids a r spec now ≡ ok after
    → written bindings a r spec now ≡ after
unfolding set_binding written
set_binding-eq-ok bindings after rows ids a r spec now h =
    guarded _ _ (not (is_grant_target rows r)) (not (any (eqb a) ids))
      (written bindings a r spec now) after h

-- the row that `set` leaves under the pair
pub set_binding-found :
    (bindings after : List Row) (rows : Rows) (ids : List ℕ) (a : ℕ) (r : Text) (spec : AuthSpec)
    (now : ℕ)
    → set_binding bindings rows ids a r spec now ≡ ok after
    → (b : Row) × (find (is_binding a r) after ≡ some b) × (b.auth_spec ≡ some spec)
set_binding-found bindings after rows ids a r spec now h =
    let done = set_binding-eq-ok bindings after rows ids a r spec now h in
    let (b, found, same) = find-written bindings a r spec now in
    (b, ap (find (is_binding a r)) (sym done) ∙ found, same)

-- After `set` went through, `get` answers the account that was set, every other agent or connection
-- answers as before, and after a `delete` there is no account.
pub get_binding-set_binding :
    (bindings after : List Row) (rows : Rows) (ids : List ℕ) (a : ℕ) (r : Text) (spec : AuthSpec)
    (now q : ℕ) (s : Text)
    → set_binding bindings rows ids a r spec now ≡ ok after
    → (a ≢ q) ⊎ (r ≢ s)
    → (get_binding after a r ≡ ok (some spec))
      × (get_binding after q s ≡ get_binding bindings q s)
      × (get_binding (delete_binding after a r).0 a r ≡ ok none)
unfolding get_binding delete_binding
get_binding-set_binding bindings after rows ids a r spec now q s h d =
    let done = set_binding-eq-ok bindings after rows ids a r spec now h in
    let (b, found, has) = find-written bindings a r spec now in
    subst
      (λ after.
        (get_binding after a r ≡ ok (some spec))
        × (get_binding after q s ≡ get_binding bindings q s)
        × (get_binding (delete_binding after a r).0 a r ≡ ok none))
      done
      (
        ap spec_of_row found ∙ spec_of_row-some b spec has,
        ap spec_of_row (find-written_other bindings a r spec now q s d),
        ap spec_of_row (find-keep (is_binding a r) (written bindings a r spec now)),
      )
