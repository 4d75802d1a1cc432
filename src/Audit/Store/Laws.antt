-- ===== src/Audit/Store/Laws.antt =====
-- The queries and the sweep of the audit table: about src/repo/audit.rs.
use agent_locksmith.Prelude.{
  ℕ, zero, suc, ◌+◌, ◌≤◌, ◌≡◌, refl, ap, ◌∙◌, sym, Bool, true, not, some, List, [], ◌∷◌, ◌++◌, keep,
  map, length, take, drop, ltb, order_desc, IsDescending, order_desc-IsDescending, arith,
  Bool-cases, inl, inr,
}
use agent_locksmith.Audit.{AuditEvent}
use agent_locksmith.Agent.{AgentRecord}
use agent_locksmith.Audit.Store.{
  AuditFilter, AuditPage, matches, matching, joined, query, sweep_older_than,
}

module _ {ℓ} {A : Type ℓ} where
  take-nil : (n : ℕ) → take {A = A} n [] ≡ []
  take-nil zero = refl
  take-nil (suc n) = refl

  drop-nil : (n : ℕ) → drop {A = A} n [] ≡ []
  drop-nil zero = refl
  drop-nil (suc n) = refl

  take-drop_append : (n m : ℕ) (xs : List A) → take n xs ++ take m (drop n xs) ≡ take (n + m) xs
  take-drop_append zero m xs = ap (λ i. take i xs) (let e : m ≡ 0 + m = omega arith in e)
  take-drop_append (suc n) m [] = take-nil m ∙ sym (take-nil (suc n + m))
  take-drop_append (suc n) m (x ∷ xs) =
      ap (λ l. x ∷ l) (take-drop_append n m xs)
      ∙ ap (λ i. take i (x ∷ xs)) (let e : suc (n + m) ≡ suc n + m = omega arith in e)

  drop-drop : (k n : ℕ) (xs : List A) → drop n (drop k xs) ≡ drop (k + n) xs
  drop-drop zero n xs = ap (λ i. drop i xs) (let e : n ≡ 0 + n = omega arith in e)
  drop-drop (suc k) n [] = drop-nil n ∙ sym (drop-nil (suc k + n))
  drop-drop (suc k) n (x ∷ xs) =
      drop-drop k n xs
      ∙ ap (λ i. drop i (x ∷ xs)) (let e : suc (k + n) ≡ suc k + n = omega arith in e)

  keep-keep :
      (p q : A → Bool)
      → ((x : A) → p x ≡ true → q x ≡ true)
      → (xs : List A) → keep p (keep q xs) ≡ keep p xs
  keep-keep p q h [] = refl
  keep-keep p q h (x ∷ xs) = elim (Bool-cases (p x)) [
    | inl t ↦ rw (h x t) (rw t (ap (λ l. x ∷ l) (keep-keep p q h xs)))
    | inr f ↦ elim (Bool-cases (q x)) [
      | inl t ↦ rw t (rw f (keep-keep p q h xs))
      | inr g ↦ rw g (rw f (keep-keep p q h xs))
    ]
  ]

  keep-none : (p : A → Bool) (xs : List A) → keep p (keep (λ x. not (p x)) xs) ≡ []
  keep-none p [] = refl
  keep-none p (x ∷ xs) = elim (Bool-cases (p x)) [
    | inl t ↦ rw t (keep-none p xs)
    | inr f ↦ rw f (rw f (keep-none p xs))
  ]

  length-keep_both :
      (p : A → Bool) (xs : List A)
      → length (keep (λ x. not (p x)) xs) + length (keep p xs) ≡ length xs
  length-keep_both p [] = refl
  length-keep_both p (x ∷ xs) = ground (arith, length-keep_both p xs)

map-append {ℓ κ} :
    {A : Type ℓ} {B : Type κ} (f : A → B) (xs ys : List A) → map f (xs ++ ys) ≡ map f xs ++ map f ys
map-append f [] ys = refl
map-append f (x ∷ xs) ys = ap (λ l. f x ∷ l) (map-append f xs ys)

matches-since :
    (f : AuditFilter) (t : ℕ) (e : AuditEvent)
    → f.since_ms ≡ some t
    → matches f e ≡ true
    → t ≤ e.ts_ms
unfolding matches
matches-since f t e since h = ground arith

-- Two pages that follow each other are one longer page: no row is lost or shown twice between them.
pub query-pages :
    (rows : List AuditEvent) (agents : List AgentRecord) (f : AuditFilter) (n m k : ℕ)
    → (query rows agents f (record { limit = n; offset = k })
          ++ query rows agents f (record { limit = m; offset = k + n })
        ≡ query rows agents f (record { limit = n + m; offset = k }))
      × IsDescending (λ (e : AuditEvent). e.ts_ms) (matching rows f)
unfolding query matching
query-pages rows agents f n m k =
    let all_rows = order_desc (λ (e : AuditEvent). e.ts_ms) (keep (matches f) rows) in
    (
      sym (map-append (joined agents) (take n (drop k all_rows)) (take m (drop (k + n) all_rows)))
          ∙ ap (λ xs. map (joined agents) (take n (drop k all_rows) ++ take m xs))
              (sym (drop-drop k n all_rows))
          ∙ ap (map (joined agents)) (take-drop_append n m (drop k all_rows)),
      order_desc-IsDescending (λ (e : AuditEvent). e.ts_ms) (keep (matches f) rows),
    )

-- The sweep counts what it removes, a second sweep with the same cutoff removes nothing, and a query
-- whose window starts at the cutoff or later does not notice it.
pub sweep-query :
    (rows : List AuditEvent) (agents : List AgentRecord) (cutoff t : ℕ) (f : AuditFilter)
    (page : AuditPage)
    → f.since_ms ≡ some t
    → cutoff ≤ t
    → (length (sweep_older_than rows cutoff).0 + (sweep_older_than rows cutoff).1 ≡ length rows)
      × (sweep_older_than (sweep_older_than rows cutoff).0 cutoff
          ≡ ((sweep_older_than rows cutoff).0, 0))
      × (query (sweep_older_than rows cutoff).0 agents f page ≡ query rows agents f page)
unfolding sweep_older_than query matching
sweep-query rows agents cutoff t f page since late =
    let older = λ (e : AuditEvent). ltb e.ts_ms cutoff in
    let kept = λ (e : AuditEvent). not (older e) in
    (
      length-keep_both (λ (e : AuditEvent). ltb e.ts_ms cutoff) rows,
      ap (λ xs. (xs, length (keep older (keep kept rows)))) (keep-keep kept kept (λ e m. m) rows)
          ∙ ap (λ xs. (keep kept rows, length xs)) (keep-none older rows),
      ap
          (λ xs.
            map (joined agents)
              (take page.limit (drop page.offset (order_desc (λ (e : AuditEvent). e.ts_ms) xs))))
          (keep-keep (matches f) (λ (e : AuditEvent). not (ltb e.ts_ms cutoff))
            (λ e m. let in_time = matches-since f t e since m in ground arith) rows),
    )
