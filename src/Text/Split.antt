-- ===== src/Text/Split.antt =====
-- Splitting at a character: `str::split_once` and its kin, as the source calls them.
use agent_locksmith.Prelude.{
  ℕ, ◌≡◌, ◌≢◌, some, [], ◌∷◌, ◌++◌, All, arith, eqb, Option-cases, inl, inr, Bool-cases,
}
use agent_locksmith.Text.{Text, split_once}

-- A character does not occur in a text.
abbrev pub Free : ℕ → Text → Type 0
Free c = All (λ d. d ≢ c)

pub split_once-append : (c : ℕ) (s t : Text) → Free c s → split_once c (s ++ c ∷ t) ≡ some (s, t)
unfolding split_once
split_once-append c [] t h = ground arith
split_once-append c (d ∷ s) t (ne, h) = rw (split_once-append c s t h) (ground arith)

-- The two parts and the separator make up the text, and the first part is free of it.
pub split_once-eq-some :
    (c : ℕ) (s a b : Text) → split_once c s ≡ some (a, b) → (s ≡ a ++ c ∷ b) × Free c a
unfolding split_once
split_once-eq-some c [] a b h = cc
split_once-eq-some c (d ∷ s) a b h = elim (Bool-cases (eqb d c)) [
  | inl same ↦ ground arith
  | inr other ↦ elim (Option-cases (split_once c s)) [
    | inl missing ↦ ground arith
    | inr ((x, y), found) ↦ ground (arith, split_once-eq-some c s x y found)
  ]
]
