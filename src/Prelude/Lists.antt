-- ===== src/Prelude/Lists.antt =====
-- Lists of table slots: length, membership by recursion, first and last elements.
use Prim.Native.Nat.{ℕ, zero, suc, ◌+◌, ◌≤◌, ◌<◌}
use hyu_os.Prelude.Tests.{◌==◌, if◌then◌else◌}
use mathlib.Core.Path.{◌≡◌, refl}
use mathlib.Core.Logic.{◌≢◌, ◌⊎◌, inl, inr}
use mathlib.Core.List.{List, [], ◌∷◌, ◌++◌}
use mathlib.Core.Option.{Option, some}
use native.Mathlib.Omega.{arith}

module _ {ℓ} {A : Type ℓ} where
  abbrev pub length : List A → ℕ
  length [] = 0
  length (x ∷ xs) = suc (length xs)

  pub length-append : (xs ys : List A) → length (xs ++ ys) ≡ length xs + length ys
  length-append [] ys = omega arith
  length-append (x ∷ xs) ys = omega (arith, length-append xs ys)

  -- The head of a list, or `d` where it is empty.
  abbrev pub first : List A → Option A → Option A
  first [] d = d
  first (x ∷ xs) d = some x

  -- The last element of a list, or `d` where it is empty.
  abbrev pub last : Option A → List A → Option A
  last d [] = d
  last d (x ∷ xs) = last (some x) xs

  pub first-append : (xs ys : List A) (d : Option A) → first (xs ++ ys) d ≡ first xs (first ys d)
  first-append [] ys d = refl
  first-append (x ∷ xs) ys d = refl

  pub last-append : (d : Option A) (xs ys : List A) → last d (xs ++ ys) ≡ last (last d xs) ys
  last-append d [] ys = refl
  last-append d (x ∷ xs) ys = last-append (some x) xs ys

  pub snoc-cases : (xs : List A) → (xs ≡ []) ⊎ ((ys : List A) × (y : A) × (xs ≡ ys ++ (y ∷ [])))
  snoc-cases [] = inl refl
  snoc-cases (x ∷ xs) = elim (snoc-cases xs) [
    | inl e ↦ inr ([], x, rw e)
    | inr (ys, y, e) ↦ inr (x ∷ ys, y, rw e)
  ]

-- `p` holds of every element.
abbrev pub All {ℓ κ} : {A : Type ℓ} → (A → Type κ) → List A → Type κ
All P [] = Unit
All P (x ∷ xs) = P x × All P xs

-- `x` is not an element.
abbrev pub Fresh : ℕ → List ℕ → Type 0
Fresh x [] = Unit
Fresh x (y ∷ ys) = (x ≢ y) × Fresh x ys

-- No element stands twice.
abbrev pub Distinct : List ℕ → Type 0
Distinct [] = Unit
Distinct (x ∷ xs) = Fresh x xs × Distinct xs

-- `x` is an element, by its position.
abbrev pub In : ℕ → List ℕ → Type 0
In x [] = ⊥
In x (y ∷ ys) = (x ≡ y) ⊎ In x ys

-- The list without the first `x`.
unfoldable pub erase : ℕ → List ℕ → List ℕ
erase x [] = []
erase x (y ∷ ys) = if y == x then ys else y ∷ erase x ys

-- Every element is below `n`.
abbrev pub Below : ℕ → List ℕ → Type 0
Below n = All (λ x. x < n)

pub Below-of_In : (n : ℕ) (xs : List ℕ) → ((x : ℕ) → In x xs → x < n) → Below n xs
Below-of_In n [] h = tt
Below-of_In n (x ∷ xs) h = (h x (inl refl), Below-of_In n xs (λ y m. h y (inr m)))

Fresh-erase : (y x : ℕ) (xs : List ℕ) → Fresh y xs → Fresh y (erase x xs)
unfolding erase
Fresh-erase y x [] f = tt
Fresh-erase y x (z ∷ zs) f = ground (arith, Fresh-erase y x zs f.1)

Distinct-erase : (x : ℕ) (xs : List ℕ) → Distinct xs → Distinct (erase x xs)
unfolding erase
Distinct-erase x [] d = tt
Distinct-erase x (y ∷ ys) d = ground (arith, Distinct-erase x ys d.1, Fresh-erase y x ys d.0)

Below-erase : (n : ℕ) (xs : List ℕ) → Distinct xs → Below (suc n) xs → Below n (erase n xs)
unfolding erase
Below-erase n [] d b = tt
Below-erase n (y ∷ ys) d b = ground (arith, Below-erase n ys d.1 b.1, Below-Fresh n ys)
  where
    Below-Fresh : (m : ℕ) (zs : List ℕ) → Fresh m zs → Below (suc m) zs → Below m zs
    Below-Fresh m [] f c = tt
    Below-Fresh m (z ∷ zs) f c = (omega (arith, f.0), Below-Fresh m zs f.1 c.1)

length-le-erase : (x : ℕ) (xs : List ℕ) → length xs ≤ suc (length (erase x xs))
unfolding erase
length-le-erase x [] = omega arith
length-le-erase x (y ∷ ys) = ground (arith, length-le-erase x ys)

-- A duplicate-free list of numbers below `n` has at most `n` elements.
pub length-le_of_Distinct : (n : ℕ) (xs : List ℕ) → Distinct xs → Below n xs → length xs ≤ n
length-le_of_Distinct zero [] d b = omega arith
length-le_of_Distinct zero (x ∷ xs) d b = absurd (omega (arith, b.0))
length-le_of_Distinct (suc n) xs d b = omega (
  arith,
  length-le-erase n xs,
  length-le_of_Distinct n (erase n xs) (Distinct-erase n xs d) (Below-erase n xs d b),
)

pub List-cases {ℓ} :
    {A : Type ℓ} (xs : List A) → (xs ≡ []) ⊎ ((x : A) × (ys : List A) × (xs ≡ x ∷ ys))
List-cases [] = inl refl
List-cases (x ∷ xs) = inr (x, xs, refl)
