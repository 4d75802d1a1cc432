-- ===== src/Prelude/Order.antt =====
-- `ORDER BY key DESC`: rows by a key, the largest first, and rows with one key in the table's order.
use Prim.Native.Nat.{ℕ, ◌≤◌}
use mathlib.Core.List.{List, [], ◌∷◌}
use mathlib.Core.Logic.{inl, inr}
use native.Mathlib.Omega.{arith}
use agent_locksmith.Prelude.Tests.{leb, if◌then◌else◌, Bool-cases}
use agent_locksmith.Prelude.Lists.{All}

module _ {ℓ} {A : Type ℓ} (key : A → ℕ) where
  abbrev pub insert_desc : A → List A → List A
  insert_desc x [] = x ∷ []
  insert_desc x (y ∷ ys) = if leb (key y) (key x) then x ∷ y ∷ ys else y ∷ insert_desc x ys

  abbrev pub order_desc : List A → List A
  order_desc [] = []
  order_desc (x ∷ xs) = insert_desc x (order_desc xs)

  abbrev pub IsDescending : List A → Type 0
  IsDescending [] = Unit
  IsDescending (x ∷ xs) = All (λ y. key y ≤ key x) xs × IsDescending xs

  insert_desc-All :
      (n : ℕ) (x : A) (xs : List A)
      → key x ≤ n
      → All (λ y. key y ≤ n) xs
      → All (λ y. key y ≤ n) (insert_desc x xs)
  insert_desc-All n x [] hx h = (hx, tt)
  insert_desc-All n x (y ∷ ys) hx (hy, h) = elim (Bool-cases (leb (key y) (key x))) [
    | inl t ↦ rw t (hx, (hy, h))
    | inr f ↦ rw f (hy, insert_desc-All n x ys hx h)
  ]

  below : (n m : ℕ) (xs : List A) → n ≤ m → All (λ y. key y ≤ n) xs → All (λ y. key y ≤ m) xs
  below n m [] le h = tt
  below n m (x ∷ xs) le (hx, h) = (omega arith, below n m xs le h)

  insert_desc-IsDescending :
      (x : A) (xs : List A) → IsDescending xs → IsDescending (insert_desc x xs)
  insert_desc-IsDescending x [] h = (tt, tt)
  insert_desc-IsDescending x (y ∷ ys) (hy, h) = elim (Bool-cases (leb (key y) (key x))) [
    | inl t ↦ rw t ((ground arith, below (key y) (key x) ys (ground arith) hy), (hy, h))
    | inr f ↦ rw f (insert_desc-All (key y) x ys (ground arith) hy, insert_desc-IsDescending x ys h)
  ]

  pub order_desc-IsDescending : (xs : List A) → IsDescending (order_desc xs)
  order_desc-IsDescending [] = tt
  order_desc-IsDescending (x ∷ xs) =
      insert_desc-IsDescending x (order_desc xs) (order_desc-IsDescending xs)
