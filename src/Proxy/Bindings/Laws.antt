-- ===== src/Proxy/Bindings/Laws.antt =====
-- The consensus on a shared OAuth session: `selected_source` and `consensus` of src/oauth/refresh.rs.
use mathlib.Core.Logic.{if_pos, if_neg}
use mathlib.Core.Bool.{false≢true}
use agent_locksmith.Prelude.{
  ◌≡◌, refl, sym, ap, ◌∙◌, subst, ◌↔◌, ◌⊎◌, inl, inr, Bool, true, false, ◌||◌, not, Option, none,
  some, List, [], ◌∷◌, any, keep, map, Result, ok, err, is_some_and, if◌then◌else◌, arith,
  Bool-cases, Option-cases, Result-cases, or-eq-true, All, ◌≢◌,
}
use agent_locksmith.Text.{Text}
use agent_locksmith.Registration.Auth.{AuthSpec, AuthSpec-discrete}
use agent_locksmith.Proxy.Bindings.{
  AgentCredentialOverride, list_all, usable, same_spec, consensus, shares_session, consensus_of,
  selected_source,
}

same_spec_iff :
    (host_url : Text → Bool) (s t : AuthSpec) → (same_spec host_url s t ≡ true) ↔ (s ≡ t)
same_spec_iff host_url s t = elim (AuthSpec-discrete s t) [
  | yes p ↦ (λ h. p, λ h. if_pos _ p true false)
  | no p ↦ (λ h. absurd (false≢true (sym (if_neg _ p true false) ∙ h)), λ h. absurd (p h))
]

or_left : (a b : Bool) → a ≡ true → (a || b) ≡ true
or_left a b h = ground arith

or_right : (a b : Bool) → b ≡ true → (a || b) ≡ true
or_right a b h = ground arith

err≢ok {ℓ} : {A : Type ℓ} {a : A} {e : Unit {0}} → err e ≢ ok a
err≢ok h = ground arith

module _ (host_url : Text → Bool) where
  abbrev pub Agreed : AuthSpec → AuthSpec → Type 0
  Agreed spec t = (t ≡ spec) × (usable host_url t ≡ true)

  -- the loop goes on with the next selection
  abbrev disputed : Option AuthSpec → AuthSpec → Bool
  disputed selected t =
      not (usable host_url t) || is_some_and selected (λ prior. not (same_spec host_url prior t))

  undisputed : (s t : AuthSpec) → disputed (some s) t ≡ false → (s ≡ t) × (usable host_url t ≡ true)
  undisputed s t h = ground (arith, same_spec_iff host_url s t)

  goes_on :
      (c : Bool) (r : Result (Option AuthSpec) (Unit {0})) (o : Option AuthSpec)
      → (if c then err tt else r) ≡ ok o
      → (c ≡ false) × (r ≡ ok o)
  goes_on true r o h = ground arith
  goes_on false r o h = (refl, h)

  consensus-some :
      (s spec : AuthSpec) (specs : List AuthSpec)
      → consensus host_url (some s) specs ≡ ok (some spec)
      → (s ≡ spec) × All (Agreed spec) specs
  unfolding consensus
  consensus-some s spec [] h = (ground arith, tt)
  consensus-some s spec (t ∷ specs) h =
      let (undisp, later) =
        goes_on (disputed (some s) t) (consensus host_url (some t) specs) (some spec) h in
      let (same, use_t) = undisputed s t undisp in
      let (t_is, rest) = consensus-some t spec specs later in (same ∙ t_is, ((t_is, use_t), rest))

  undisputed_again :
      (spec t : AuthSpec) → t ≡ spec → usable host_url t ≡ true → disputed (some spec) t ≡ false
  undisputed_again spec t e u = ground (arith, same_spec_iff host_url spec t)

  passes :
      (c : Bool) (r : Result (Option AuthSpec) (Unit {0}))
      → c ≡ false
      → (if c then err tt else r) ≡ r
  passes c r h = rw h refl

  consensus-Agreed :
      (s spec : AuthSpec) (specs : List AuthSpec)
      → s ≡ spec
      → All (Agreed spec) specs
      → consensus host_url (some s) specs ≡ ok (some spec)
  unfolding consensus
  consensus-Agreed s spec [] same h = ap (λ u. ok (some u)) same
  consensus-Agreed s spec (t ∷ specs) same ((e, u), h) =
      passes (disputed (some s) t) _ (undisputed_again s t (e ∙ sym same) u)
      ∙ consensus-Agreed t spec specs e h

  -- The consensus is a selection exactly if there is one, and all of them are this one and usable.
  pub consensus_iff :
      (spec : AuthSpec) (specs : List AuthSpec)
      → (consensus host_url none specs ≡ ok (some spec)) ↔ ((specs ≢ []) × All (Agreed spec) specs)
  unfolding consensus
  consensus_iff spec [] = (λ h. ground arith, λ h. absurd (h.0 refl))
  consensus_iff spec (t ∷ specs) = (
    λ h.
        let (undisp, later) =
          goes_on (disputed none t) (consensus host_url (some t) specs) (some spec) h in
        let (t_is, rest) = consensus-some t spec specs later in
        ((λ e. ground arith), ((t_is, ground arith), rest)),
    λ (ne, ((e, u), h)).
        passes (disputed none t) _ (ground arith) ∙ consensus-Agreed t spec specs e h,
  )

  module _ (name label : Text) (spec : AuthSpec) where
    abbrev chosen : List (Text × AuthSpec) → List AuthSpec
    chosen rows =
        map (λ (e : Text × AuthSpec). e.1) (keep (shares_session host_url name label) rows)

    -- A row is readable and, when it shares the session, it has the account `spec`.
    abbrev pub Shares : AgentCredentialOverride → Type 0
    Shares b =
        (t : AuthSpec) × (b.auth_spec ≡ some t)
        × (shares_session host_url name label (b.registration, t) ≡ true → Agreed spec t)

    abbrev pub shared : AgentCredentialOverride → Bool
    shared b = is_some_and b.auth_spec (λ t. shares_session host_url name label (b.registration, t))

    All-chosen_cons :
        (e : Text × AuthSpec) (rows : List (Text × AuthSpec))
        → All (Agreed spec) (chosen (e ∷ rows)) ↔ (
            (shares_session host_url name label e ≡ true → Agreed spec e.1)
            × All (Agreed spec) (chosen rows))
    All-chosen_cons e rows = elim (Bool-cases (shares_session host_url name label e)) [
      | inl h ↦ rw h (λ (a, r). (λ _. a, r), λ (a, r). (a refl, r))
      | inr h ↦ rw h (λ r. (λ g. ground arith, r), λ (a, r). r)
    ]

    list_all_cons :
        (b : AgentCredentialOverride) (bs : List AgentCredentialOverride)
        (rows : List (Text × AuthSpec))
        → list_all (b ∷ bs) ≡ ok rows
        → (t : AuthSpec) × (rest : List (Text × AuthSpec)) × (b.auth_spec ≡ some t)
          × (list_all bs ≡ ok rest)
          × (rows ≡ (b.registration, t) ∷ rest)
    unfolding list_all
    list_all_cons b bs rows h = elim (Option-cases b.auth_spec) [
      | inl e ↦ ground arith
      | inr (t, e) ↦ elim (Result-cases (list_all bs)) [
        | inl (rest, r) ↦ (t, rest, e, r, ground arith)
        | inr (x, r) ↦ ground arith
      ]
    ]

    readable_list :
        (bs : List AgentCredentialOverride)
        → All Shares bs
        → (rows : List (Text × AuthSpec)) × (list_all bs ≡ ok rows)
    unfolding list_all
    readable_list [] h = ([], refl)
    readable_list (b ∷ bs) ((t, e, s), h) =
        let (rest, r) = readable_list bs h in ((b.registration, t) ∷ rest, rw (e, r) refl)

    Shares-some :
        (b : AgentCredentialOverride) (t : AuthSpec)
        → b.auth_spec ≡ some t
        → Shares b ↔ (shares_session host_url name label (b.registration, t) ≡ true → Agreed spec t)
    Shares-some b t e = (
      λ (u, eu, s).
          let same : u ≡ t = ground arith in
          subst (λ v. shares_session host_url name label (b.registration, v) ≡ true → Agreed spec v)
            same s,
      λ s. (t, e, s),
    )

    chosen-Agreed :
        (bs : List AgentCredentialOverride) (rows : List (Text × AuthSpec))
        → list_all bs ≡ ok rows
        → All Shares bs ↔ All (Agreed spec) (chosen rows)
    unfolding list_all
    chosen-Agreed [] [] h = (λ x. x, λ x. x)
    chosen-Agreed [] (row ∷ rows) h = ground arith
    chosen-Agreed (b ∷ bs) rows h =
        let (t, rest, e, r, rows_eq) = list_all_cons b bs rows h in
        let head = Shares-some b t e in
        let tail = chosen-Agreed bs rest r in
        let both = All-chosen_cons (b.registration, t) rest in
        subst (λ xs. All Shares (b ∷ bs) ↔ All (Agreed spec) (chosen xs)) (sym rows_eq)
          (
            (λ (s, ss). both.1 (head.0 s, tail.0 ss)),
            (λ a. (head.1 (both.0 a).0, tail.1 (both.0 a).1)),
          )

    chosen_cons :
        (e : Text × AuthSpec) (rows : List (Text × AuthSpec))
        → (chosen (e ∷ rows) ≢ [])
          ↔ ((shares_session host_url name label e ≡ true) ⊎ (chosen rows ≢ []))
    chosen_cons e rows = elim (Bool-cases (shares_session host_url name label e)) [
      | inl h ↦ rw h ((λ n. inl refl), (λ n p. ground arith))
      | inr h ↦ rw h ((λ n. inr n), (λ n. elim n [ inl p ↦ absurd (false≢true p) | inr q ↦ q ]))
    ]

    any-shared_iff :
        (bs : List AgentCredentialOverride) (rows : List (Text × AuthSpec))
        → list_all bs ≡ ok rows
        → (any shared bs ≡ true) ↔ (chosen rows ≢ [])
    unfolding list_all
    any-shared_iff [] [] h = (λ x. ground arith, λ n. absurd (n refl))
    any-shared_iff [] (row ∷ rows) h = ground arith
    any-shared_iff (b ∷ bs) rows h =
        let (t, rest, e, r, rows_eq) = list_all_cons b bs rows h in
        let here_t : shared b ≡ shares_session host_url name label (b.registration, t) =
          ap (λ o. is_some_and o (λ u. shares_session host_url name label (b.registration, u))) e in
        let tail = any-shared_iff bs rest r in
        let both = chosen_cons (b.registration, t) rest in
        subst (λ xs. (any shared (b ∷ bs) ≡ true) ↔ (chosen xs ≢ [])) (sym rows_eq)
          (
            λ s. both.1 (elim (or-eq-true (shared b) (any shared bs) s) [
              | inl p ↦ inl (sym here_t ∙ p)
              | inr q ↦ inr (tail.0 q)
            ]),
            λ n. elim (both.0 n) [
              | inl p ↦ or_left (shared b) (any shared bs) (here_t ∙ p)
              | inr q ↦ or_right (shared b) (any shared bs) (tail.1 q)
            ],
          )

    -- The consensus is a selection exactly if every row is readable, some row shares the session, and
    -- all that share it have this one selection, which is usable.
    pub selected_source_iff :
        (bs : List AgentCredentialOverride)
        → (selected_source host_url bs name label ≡ ok (some spec))
          ↔ (All Shares bs × (any shared bs ≡ true))
    unfolding selected_source
    selected_source_iff bs = (
      λ h. elim (Result-cases (list_all bs)) [
        | inl (rows, r) ↦
            let (ne, a) =
              (consensus_iff spec (chosen rows)).0
                (sym (ap (consensus_of host_url name label) r) ∙ h) in
            ((chosen-Agreed bs rows r).1 a, (any-shared_iff bs rows r).1 ne)
        | inr (x, r) ↦ absurd (err≢ok (sym (ap (consensus_of host_url name label) r) ∙ h))
      ],
      λ (a, s).
          let (rows, r) = readable_list bs a in
          ap (consensus_of host_url name label) r
          ∙ (consensus_iff spec (chosen rows)).1
              ((any-shared_iff bs rows r).0 s, (chosen-Agreed bs rows r).0 a),
    )
