-- ===== src/Text/Laws.antt =====
-- Equality of texts as a test, and prefixes.
use mathlib.Core.Bool.{false≢true}
use agent_locksmith.Prelude.{
  ℕ, ◌≡◌, refl, sym, ◌∙◌, ◌≢◌, ◌↔◌, true, false, inl, inr, some, List, [], ◌∷◌, ◌++◌, In, here,
  there, arith, Bool-cases, or-eq-true,
}
use agent_locksmith.Text.{Text, ◌==◌, lower, to_ascii_lowercase, strip_prefix, member}

pub eq_of_test : (s t : Text) → (s == t) ≡ true → s ≡ t
unfolding ◌==◌
eq_of_test [] [] h = refl
eq_of_test [] (d ∷ t) h = ground arith
eq_of_test (c ∷ s) [] h = ground arith
eq_of_test (c ∷ s) (d ∷ t) h = ground (arith, eq_of_test s t)

pub eq_refl : (s : Text) → (s == s) ≡ true
unfolding ◌==◌
eq_refl [] = refl
eq_refl (c ∷ s) = ground (arith, eq_refl s)

pub eq_iff : (s t : Text) → ((s == t) ≡ true) ↔ (s ≡ t)
eq_iff s t = (eq_of_test s t, λ e. rw e (eq_refl t))

pub eq-eq-false : (s t : Text) → s ≢ t → (s == t) ≡ false
eq-eq-false s t ne = elim (Bool-cases (s == t)) [
  | inl same ↦ absurd (ne (eq_of_test s t same))
  | inr other ↦ other
]

pub ne_of_test : (s t : Text) → (s == t) ≡ false → s ≢ t
ne_of_test s t h e = absurd (false≢true (sym h ∙ (eq_iff s t).1 e))

pub lower_idem : (c : ℕ) → lower (lower c) ≡ lower c
unfolding lower
lower_idem c = ground arith

pub to_ascii_lowercase_idem :
    (s : Text) → to_ascii_lowercase (to_ascii_lowercase s) ≡ to_ascii_lowercase s
unfolding to_ascii_lowercase
to_ascii_lowercase_idem [] = refl
to_ascii_lowercase_idem (c ∷ s) = cc (lower_idem c, to_ascii_lowercase_idem s)

pub strip_prefix-append : (p s : Text) → strip_prefix p (p ++ s) ≡ some s
unfolding strip_prefix
strip_prefix-append [] s = refl
strip_prefix-append (c ∷ p) s = ground (arith, strip_prefix-append p s)

pub strip_prefix-eq-some : (p s rest : Text) → strip_prefix p s ≡ some rest → s ≡ p ++ rest
unfolding strip_prefix
strip_prefix-eq-some [] s rest h = ground arith
strip_prefix-eq-some (c ∷ p) [] rest h = ground arith
strip_prefix-eq-some (c ∷ p) (d ∷ s) rest h = ground (arith, strip_prefix-eq-some p s rest)

pub member_sound : (s : Text) (ts : List Text) → member s ts ≡ true → In s ts
member_sound s [] h = ground arith
member_sound s (t ∷ ts) h = elim (or-eq-true _ _ h) [
  | inl same ↦ here (eq_of_test t s same)
  | inr later ↦ there (member_sound s ts later)
]

pub member_complete : {s : Text} {ts : List Text} → In s ts → member s ts ≡ true
member_complete {s} (here {x} {xs} e) = ground (arith, eq_iff x s)
member_complete {s} (there {x} {xs} m) = ground (arith, member_complete m)
