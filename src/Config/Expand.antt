-- ===== src/Config/Expand.antt =====
-- When the expansion of environment variables ends: about `expand_env_vars` of src/config.rs.
use agent_locksmith.Prelude.{
  ◌&&◌, ◌⊎◌, ℕ, zero, suc, ◌+◌, ◌<◌, ◌≡◌, refl, sym, ap, ◌∙◌, Option, none, some, [], ◌∷◌, ◌++◌,
  eqb, unwrap_or, if◌then◌else◌, Option-cases, Bool-cases, inl, inr, arith,
}
use agent_locksmith.Text.{Text, codes, split_once}
use agent_locksmith.Text.Split.{Free, split_once-eq-some}
use agent_locksmith.Config.{
  find_open, Round, done, again, closed, opened, expand_round, expand_env_vars, next,
}

-- how often the closing brace occurs
abbrev pub braces : Text → ℕ
braces [] = 0
braces (c ∷ s) = if eqb c b'}' then suc (braces s) else braces s

braces-append : (s t : Text) → braces (s ++ t) ≡ braces s + braces t
braces-append [] t = omega arith
braces-append (c ∷ s) t = ground (arith, braces-append s t)

braces-Free : (s : Text) → Free b'}' s → braces s ≡ 0
braces-Free [] h = refl
braces-Free (c ∷ s) (ne, h) = ground (arith, braces-Free s h)

find_open-eq-some : (s a b : Text) → find_open s ≡ some (a, b) → s ≡ a ++ b'$' ∷ b'{' ∷ b
unfolding find_open
find_open-eq-some [] a b h = cc
find_open-eq-some (c ∷ []) a b h = cc
find_open-eq-some (c ∷ d ∷ s) a b h = elim (Bool-cases (eqb c b'$' && eqb d b'{')) [
  | inl both ↦ ground arith
  | inr other ↦ elim (Option-cases (find_open (d ∷ s))) [
    | inl missing ↦ ground arith
    | inr ((x, y), found) ↦ ground (arith, find_open-eq-some (d ∷ s) x y found)
  ]
]

Round-cases : (r : Round) → (r ≡ done) ⊎ ((s : Text) × (r ≡ again s))
Round-cases done = inl refl
Round-cases (again s) = inr (s, refl)

-- What the loop needs to end: no value of a variable has a closing brace.
abbrev pub Braceless : (Text → Option Text) → Type 0
Braceless env = (name value : Text) → env name ≡ some value → Free b'}' value

-- What the loop leaves: no reference `${…}` stands in the text any more.
abbrev pub IsExpanded : Text → Type 0
IsExpanded t =
    (before rest : Text) → find_open t ≡ some (before, rest) → split_once b'}' rest ≡ none

module _ (env : Text → Option Text) (braceless : Braceless env) where
  value-braces : (name : Text) → braces (unwrap_or (env name) []) ≡ 0
  value-braces name = elim (Option-cases (env name)) [
    | inl missing ↦ rw missing refl
    | inr (v, found) ↦ rw found (braces-Free v (braceless name v found))
  ]

  round-less : (s s' : Text) → expand_round env s ≡ again s' → braces s ≡ suc (braces s')
  unfolding expand_round
  round-less s s' h = elim (Option-cases (find_open s)) [
    | inl missing ↦ ground arith
    | inr ((before, rest), found) ↦ elim (Option-cases (split_once b'}' rest)) [
      | inl missing ↦ ground arith
      | inr ((name, after), ended) ↦
          let whole = find_open-eq-some s before rest found in
          let (parts, free) = split_once-eq-some b'}' rest name after ended in
          let value = unwrap_or (env name) [] in
          let made : again (before ++ (value ++ after)) ≡ again s' =
            ap (closed env before) (sym ended) ∙ ap (opened env) (sym found) ∙ h in
          let same : before ++ (value ++ after) ≡ s' = ground arith in
          let old = ap braces whole ∙ braces-append before (b'$' ∷ b'{' ∷ rest) in
          let inside = ap braces parts ∙ braces-append name (b'}' ∷ after) in
          let new = ap braces (sym same) ∙ braces-append before (value ++ after) in
          omega (
            arith,
            old,
            inside,
            new,
            braces-append value after,
            value-braces name,
            braces-Free name free,
          )
    ]
  ]

  round-IsExpanded : (s : Text) → expand_round env s ≡ done → IsExpanded s
  unfolding expand_round
  round-IsExpanded s h before rest found = elim (Option-cases (split_once b'}' rest)) [
    | inl missing ↦ missing
    | inr ((name, after), ended) ↦
        let made : again (before ++ (unwrap_or (env name) [] ++ after)) ≡ done =
          ap (closed env before) (sym ended) ∙ ap (opened env) (sym found) ∙ h in
        ground arith
  ]

  ends :
      (fuel : ℕ) (s : Text)
      → braces s < fuel
      → (t : Text) × (expand_env_vars env fuel s ≡ some t) × IsExpanded t
  unfolding expand_env_vars
  ends zero s h = absurd (omega arith)
  ends (suc fuel) s h = elim (Round-cases (expand_round env s)) [
    | inl stop ↦
        (s, ap (λ r. next env s r (expand_env_vars env fuel)) stop, round-IsExpanded s stop)
    | inr (s', more) ↦
        let less = round-less s s' more in
        let (t, e, clean) = ends fuel s' (omega arith) in
        (t, ap (λ r. next env s r (expand_env_vars env fuel)) more ∙ e, clean)
  ]

-- If no value of a variable has a closing brace, the loop ends after at most one round for each closing
-- brace of the text, and leaves no reference in it.
pub expand_env_vars-IsExpanded :
    (env : Text → Option Text) (input : Text)
    → Braceless env
    → (t : Text) × (expand_env_vars env (suc (braces input)) input ≡ some t) × IsExpanded t
expand_env_vars-IsExpanded env input braceless =
    ends env braceless (suc (braces input)) input (omega arith)

-- A variable whose value is a reference to itself keeps the loop running for ever.
pub self_reference :
    (env : Text → Option Text)
    → env (codes "A") ≡ some (codes "${A}")
    → (fuel : ℕ) → expand_env_vars env fuel (codes "${A}") ≡ none
unfolding expand_env_vars expand_round find_open split_once
self_reference env h zero = refl
self_reference env h (suc fuel) =
    ap (λ v. expand_env_vars env fuel (unwrap_or v [] ++ [])) h ∙ self_reference env h fuel
