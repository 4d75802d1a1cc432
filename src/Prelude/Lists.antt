-- ===== src/Prelude/Lists.antt =====
-- Lists measured by native numbers, Boolean searches, and predicates over all elements.
use Prim.Native.Nat.{ℕ, zero, suc, ◌+◌, min}
use mathlib.Core.Path.{◌≡◌, refl, ap}
use mathlib.Core.Bool.{Bool, true, false, ◌&&◌, ◌||◌}
use mathlib.Core.Option.{Option, none, some}
use mathlib.Core.List.{List, [], ◌∷◌, ◌++◌}
use native.Mathlib.Omega.{arith}
use agent_locksmith.Prelude.Tests.{if◌then◌else◌, or-eq-false}

module _ {ℓ} {A : Type ℓ} where
  abbrev pub length : List A → ℕ
  length [] = 0
  length (x ∷ xs) = suc (length xs)

  abbrev pub take : ℕ → List A → List A
  take zero xs = []
  take (suc n) [] = []
  take (suc n) (x ∷ xs) = x ∷ take n xs

  abbrev pub drop : ℕ → List A → List A
  drop zero xs = xs
  drop (suc n) [] = []
  drop (suc n) (x ∷ xs) = drop n xs

  -- `Iterator::any`, `all`, `find` and `filter`
  abbrev pub any : (A → Bool) → List A → Bool
  any p [] = false
  any p (x ∷ xs) = p x || any p xs

  abbrev pub all : (A → Bool) → List A → Bool
  all p [] = true
  all p (x ∷ xs) = p x && all p xs

  abbrev pub find : (A → Bool) → List A → Option A
  find p [] = none
  find p (x ∷ xs) = if p x then some x else find p xs

  abbrev pub keep : (A → Bool) → List A → List A
  keep p [] = []
  keep p (x ∷ xs) = if p x then x ∷ keep p xs else keep p xs

  pub length-append : (xs ys : List A) → length (xs ++ ys) ≡ length xs + length ys
  length-append [] ys = omega arith
  length-append (x ∷ xs) ys = omega (arith, length-append xs ys)

  pub length-snoc : (xs : List A) (x : A) → length (xs ++ x ∷ []) ≡ suc (length xs)
  length-snoc [] x = refl
  length-snoc (y ∷ xs) x = ap suc (length-snoc xs x)

  pub length-take : (n : ℕ) (xs : List A) → length (take n xs) ≡ min n (length xs)
  length-take zero xs = omega arith
  length-take (suc n) [] = omega arith
  length-take (suc n) (x ∷ xs) = omega (arith, length-take n xs)

  pub find-eq-some : (p : A → Bool) (xs : List A) (x : A) → find p xs ≡ some x → p x ≡ true
  find-eq-some p [] x h = ground arith
  find-eq-some p (y ∷ xs) x h = ground (arith, find-eq-some p xs x)

module _ {ℓ} {A : Type ℓ} (p : A → Bool) (x : A) where
  pub find-snoc : p x ≡ true → (xs : List A) → any p xs ≡ false → find p (xs ++ x ∷ []) ≡ some x
  find-snoc h [] e = rw h refl
  find-snoc h (y ∷ xs) e =
      let (miss, rest) = or-eq-false (p y) (any p xs) e in rw miss (find-snoc h xs rest)

  pub find-snoc_other : p x ≡ false → (xs : List A) → find p (xs ++ x ∷ []) ≡ find p xs
  find-snoc_other h [] = rw h refl
  find-snoc_other h (y ∷ xs) = ap (λ r. if p y then some y else r) (find-snoc_other h xs)

-- The elements of a list, as a type that can be matched.
pub data In {ℓ} {A : Type ℓ} (a : A) : List A → Type ℓ where
  here : {x : A} {xs : List A} → x ≡ a → In a (x ∷ xs)
  there : {x : A} {xs : List A} → In a xs → In a (x ∷ xs)

module _ {ℓ κ} {A : Type ℓ} (P : A → Type κ) where
  abbrev pub All : List A → Type κ
  All [] = Unit
  All (x ∷ xs) = P x × All xs

  pub All-append : (xs ys : List A) → All xs → All ys → All (xs ++ ys)
  All-append [] ys hx hy = hy
  All-append (x ∷ xs) ys hx hy = (hx.0, All-append xs ys hx.1 hy)

  pub All-keep : (p : A → Bool) (xs : List A) → ((x : A) → p x ≡ true → P x) → All (keep p xs)
  All-keep p [] h = tt
  All-keep p (x ∷ xs) h = ground (arith, h x, All-keep p xs h)

  pub All-if : (c : Bool) (xs ys : List A) → All xs → All ys → All (if c then xs else ys)
  All-if true xs ys hx hy = hx
  All-if false xs ys hx hy = hy

  pub All-if_cons :
      (c : Bool) (x : A) (xs : List A) → (c ≡ true → P x) → All xs → All (if c then x ∷ xs else xs)
  All-if_cons true x xs hx h = (hx refl, h)
  All-if_cons false x xs hx h = h

module _ {ℓ κ} {A : Type ℓ} where
  pub All-imp : (P Q : A → Type κ) (xs : List A) → ((x : A) → P x → Q x) → All P xs → All Q xs
  All-imp P Q [] f h = tt
  All-imp P Q (x ∷ xs) f (hx, h) = (f x hx, All-imp P Q xs f h)

  -- What is kept of a list passes the test, and keeps what all elements have.
  pub All-keep_both :
      (P Q : A → Type κ) (p : A → Bool) (xs : List A)
      → ((x : A) → P x → p x ≡ true → Q x)
      → All P xs
      → All Q (keep p xs)
  All-keep_both P Q p [] f h = tt
  All-keep_both P Q p (x ∷ xs) f (hx, h) =
      All-if_cons Q (p x) x (keep p xs) (f x hx) (All-keep_both P Q p xs f h)

pub In-All {ℓ} : {A : Type ℓ} (xs : List A) → All (λ x. In x xs) xs
In-All [] = tt
In-All (x ∷ xs) =
    (here refl, All-imp (λ y. In y xs) (λ y. In y (x ∷ xs)) xs (λ y m. there m) (In-All xs))
