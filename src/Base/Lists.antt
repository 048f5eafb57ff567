-- ===== src/Base/Lists.antt =====
-- Lists measured by native numbers, and predicates that hold of each item.
use Prim.Native.Nat.{ℕ, suc, ◌+◌}
use mathlib.Core.Path.{◌≡◌}
use mathlib.Core.List.{List, [], ◌∷◌, ◌++◌}
use native.Mathlib.Omega.{arith}

abbrev pub length {ℓ} : {A : Type ℓ} → List A → ℕ
length [] = 0
length (x ∷ xs) = suc (length xs)

abbrev pub All {ℓ κ} : {Item : Type ℓ} → (Item → Type κ) → List Item → Type κ
All holds [] = Unit
All holds (item ∷ rest) = holds item × All holds rest

pub length-append {ℓ} :
    {Item : Type ℓ} (front back : List Item) → length (front ++ back) ≡ length front + length back
length-append [] back = omega arith
length-append (item ∷ front) back = omega (arith, length-append front back)

pub All-append {ℓ κ} :
    {Item : Type ℓ} (holds : Item → Type κ) (front back : List Item)
    → All holds front
    → All holds back
    → All holds (front ++ back)
All-append holds [] back first second = second
All-append holds (item ∷ front) back (head, tail) second =
    (head, All-append holds front back tail second)
