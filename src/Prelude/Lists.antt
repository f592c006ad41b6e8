-- ===== src/Prelude/Lists.antt =====
-- Lists measured and indexed by native numbers, under the library's names.
use Prim.Native.Nat.{ℕ, zero, suc, ◌+◌}
use mathlib.Core.Path.{◌≡◌, refl}
use mathlib.Core.List.{List, [], ◌∷◌, ◌++◌}
use mathlib.Core.Logic.{◌⊎◌}
use mathlib.Core.Option.{Option, none, some}
use native.Mathlib.Omega.{arith}

module _ {ℓ} {A : Type ℓ} where
  abbrev pub length : List A → ℕ
  length [] = 0
  length (x ∷ xs) = suc (length xs)

  abbrev pub get_elem? : List A → ℕ → Option A
  get_elem? [] i = none
  get_elem? (x ∷ xs) zero = some x
  get_elem? (x ∷ xs) (suc i) = get_elem? xs i

  -- `v[v.size() - 1]`
  abbrev pub last? : List A → Option A
  last? [] = none
  last? (x ∷ []) = some x
  last? (x ∷ y ∷ ys) = last? (y ∷ ys)

  pub length-append : (xs ys : List A) → length (xs ++ ys) ≡ length xs + length ys
  length-append [] ys = omega arith
  length-append (x ∷ xs) ys = omega (arith, length-append xs ys)

  -- Every element satisfies `P`.
  abbrev pub All {κ} : (A → Type κ) → List A → Type κ
  All P [] = Unit
  All P (x ∷ xs) = P x × All P xs

  -- Some element satisfies `P`.
  abbrev pub Any : (A → Type 0) → List A → Type 0
  Any P [] = ⊥
  Any P (x ∷ xs) = P x ⊎ Any P xs

  pub last?-cons : (x : A) (xs : List A) → (y : A) × (last? (x ∷ xs) ≡ some y)
  last?-cons x [] = (x, refl)
  last?-cons x (y ∷ ys) = last?-cons y ys

  -- What follows the first `n`.
  abbrev pub drop : ℕ → List A → List A
  drop zero xs = xs
  drop (suc n) [] = []
  drop (suc n) (x ∷ xs) = drop n xs

  pub get_elem?-drop :
      (n : ℕ) (xs : List A) (y : A) (ys : List A) → drop n xs ≡ y ∷ ys → get_elem? xs n ≡ some y
  get_elem?-drop zero [] y ys e = ground arith
  get_elem?-drop zero (x ∷ xs) y ys e = ground arith
  get_elem?-drop (suc n) [] y ys e = ground arith
  get_elem?-drop (suc n) (x ∷ xs) y ys e = get_elem?-drop n xs y ys e

  pub get_elem?-drop-none : (n : ℕ) (xs : List A) → drop n xs ≡ [] → get_elem? xs n ≡ none
  get_elem?-drop-none zero [] e = refl
  get_elem?-drop-none zero (x ∷ xs) e = ground arith
  get_elem?-drop-none (suc n) [] e = refl
  get_elem?-drop-none (suc n) (x ∷ xs) e = get_elem?-drop-none n xs e

  pub drop-suc :
      (n : ℕ) (xs : List A) (y : A) (ys : List A) → drop n xs ≡ y ∷ ys → drop (suc n) xs ≡ ys
  drop-suc zero [] y ys e = ground arith
  drop-suc zero (x ∷ xs) y ys e = ground arith
  drop-suc (suc n) [] y ys e = ground arith
  drop-suc (suc n) (x ∷ xs) y ys e = drop-suc n xs y ys e
