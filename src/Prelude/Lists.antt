-- ===== src/Prelude/Lists.antt =====
-- Lists measured by native numbers, a Boolean filter, and a predicate that holds throughout.
use Prim.Native.Nat.{ℕ, suc, ◌+◌}
use mathlib.Core.Path.{◌≡◌, sym, ap, ◌∙◌}
use mathlib.Core.Bool.{Bool}
use mathlib.Core.List.{List, [], ◌∷◌, ◌++◌, reverse, reverse-append, append_assoc}
use native.Mathlib.Omega.{arith}
use nebengjek.Prelude.Tests.{if◌then◌else◌}

module _ {ℓ} {A : Type ℓ} where
  abbrev pub length : List A → ℕ
  length [] = 0
  length (x ∷ xs) = suc (length xs)

  -- The members that pass a test, in order.
  unfoldable pub select : (A → Bool) → List A → List A
  select p [] = []
  select p (x ∷ xs) = if p x then x ∷ select p xs else select p xs

  pub length-append : (xs ys : List A) → length (xs ++ ys) ≡ length xs + length ys
  length-append [] ys = omega arith
  length-append (x ∷ xs) ys = omega (arith, length-append xs ys)

abbrev pub All {ℓ κ} : {A : Type ℓ} → (A → Type κ) → List A → Type κ
All P [] = Unit
All P (x ∷ xs) = P x × All P xs

pub reverse-cons {ℓ} :
    {A : Type ℓ} (x : A) (xs ys : List A) → reverse xs ++ (x ∷ ys) ≡ reverse (x ∷ xs) ++ ys
reverse-cons x xs ys =
    sym (ap (λ zs. zs ++ ys) (reverse-append (x ∷ []) xs) ∙ append_assoc (reverse xs) (x ∷ []) ys)
