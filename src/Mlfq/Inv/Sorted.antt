-- ===== src/Mlfq/Inv/Sorted.antt =====
-- The lowest queue by priority: `higherpriority_proc` finds where `insert` keeps it sorted.
use hyu_os.Prelude.{
  ℕ, zero, suc, ◌<◌, ◌≡◌, refl, ap, ◌∙◌, inl, inr, false, none, some, List, [], ◌∷◌, arith, length,
  first, Fresh, Distinct, In, All, Bool-cases, if◌then◌else◌, ◌==◌, erase,
}
use hyu_os.Prelude.Int.{ℤ, ltb_ℤ, ◌≤ℤ◌}
use hyu_os.Mlfq.State.{Procs, Ptr}
use hyu_os.Mlfq.Queue.{points_to}
use hyu_os.Mlfq.Queue.Chain.{Chain}
use hyu_os.Mlfq.Queue.Insert.{insert_before, BaseIn}
use hyu_os.Mlfq.Priority.{higher_loop}

-- The first of the list whose number is above `v`.
unfoldable pub first_higher : (ℕ → ℤ) → ℤ → List ℕ → Ptr
first_higher pr v [] = none
first_higher pr v (x ∷ xs) = if ltb_ℤ v (pr x) then some x else first_higher pr v xs

-- Insertion behind the last element that is not above `p`.
unfoldable pub sorted_insert : (ℕ → ℤ) → ℕ → List ℕ → List ℕ
sorted_insert pr p [] = p ∷ []
sorted_insert pr p (x ∷ xs) = if ltb_ℤ (pr p) (pr x) then p ∷ x ∷ xs else x ∷ sorted_insert pr p xs

-- Every element is at most every later one.
abbrev pub Ascending : (ℕ → ℤ) → List ℕ → Type 0
Ascending pr [] = Unit
Ascending pr (x ∷ xs) = All (λ y. pr x ≤ℤ pr y) xs × Ascending pr xs

abbrev pub priority_of : Procs → ℕ → ℤ
priority_of s p = (s p).priority

-- The walk of `higherpriority_proc` over a well-formed queue ends within its rounds at the first
-- process of higher priority.
pub higher_loop_lem :
    (f : ℕ) (s : Procs) (v : ℤ) (pr : Ptr) (xs : List ℕ)
    → length xs < f
    → Chain s pr xs none
    → higher_loop f s v (first xs none) ≡ some (first_higher (priority_of s) v xs)
unfolding higher_loop first_higher
higher_loop_lem zero s v pr xs h c = absurd (omega arith)
higher_loop_lem (suc f) s v pr [] h c = refl
higher_loop_lem (suc f) s v pr (x ∷ xs) h c =
    rw (c.1, higher_loop_lem f s v (some x) xs (omega arith) c.2) (ground arith)

pub BaseIn-first_higher : (pr : ℕ → ℤ) (v : ℤ) (xs : List ℕ) → BaseIn (first_higher pr v xs) xs
unfolding first_higher
BaseIn-first_higher pr v [] = tt
BaseIn-first_higher pr v (x ∷ xs) = elim (Bool-cases (ltb_ℤ v (pr x))) [
  | inl e ↦ rw e (inl refl)
  | inr e ↦ rw e (later (first_higher pr v xs) (BaseIn-first_higher pr v xs))
]
  where
    later : (b : Ptr) → BaseIn b xs → BaseIn b (x ∷ xs)
    later none m = tt
    later (some b) m = inr m

points-first_higher :
    (pr : ℕ → ℤ) (v : ℤ) (x : ℕ) (xs : List ℕ)
    → Fresh x xs
    → points_to (first_higher pr v xs) x ≡ false
unfolding first_higher
points-first_higher pr v x [] f = refl
points-first_higher pr v x (y ∷ ys) f = ground (arith, f.0, points-first_higher pr v x ys f.1)

insert_before_lead : (x p : ℕ) (xs : List ℕ) → insert_before (some x) p (x ∷ xs) ≡ p ∷ x ∷ xs
unfolding insert_before
insert_before_lead x p xs = ground arith

insert_before_skip :
    (b : Ptr) (x p : ℕ) (xs : List ℕ)
    → points_to b x ≡ false
    → insert_before b p (x ∷ xs) ≡ x ∷ insert_before b p xs
unfolding insert_before
insert_before_skip b x p xs e = rw e refl

-- Insertion in front of the process that `higherpriority_proc` finds is the stable insertion.
pub insert_before-first_higher :
    (pr : ℕ → ℤ) (p : ℕ) (xs : List ℕ)
    → Distinct xs
    → insert_before (first_higher pr (pr p) xs) p xs ≡ sorted_insert pr p xs
unfolding first_higher sorted_insert
insert_before-first_higher pr p [] d = unfold insert_before in refl
insert_before-first_higher pr p (x ∷ xs) d = elim (Bool-cases (ltb_ℤ (pr p) (pr x))) [
  | inl e ↦ rw e (insert_before_lead x p xs)
  | inr e ↦ rw e (
      insert_before_skip (first_higher pr (pr p) xs) x p xs (points-first_higher pr (pr p) x xs d.0)
      ∙ ap (λ l. x ∷ l) (insert_before-first_higher pr p xs d.1))
]

All-sorted_insert :
    (pr : ℕ → ℤ) (v : ℤ) (p : ℕ) (xs : List ℕ)
    → v ≤ℤ pr p
    → All (λ y. v ≤ℤ pr y) xs
    → All (λ y. v ≤ℤ pr y) (sorted_insert pr p xs)
unfolding sorted_insert
All-sorted_insert pr v p [] h a = (h, tt)
All-sorted_insert pr v p (x ∷ xs) h a = ground (arith, All-sorted_insert pr v p xs h a.1)

All-mono :
    (pr : ℕ → ℤ) (v w : ℤ) (xs : List ℕ)
    → v ≤ℤ w
    → All (λ y. w ≤ℤ pr y) xs
    → All (λ y. v ≤ℤ pr y) xs
All-mono pr v w [] h a = tt
All-mono pr v w (x ∷ xs) h a = (omega (arith, a.0), All-mono pr v w xs h a.1)

-- Stable insertion keeps the queue sorted.
pub sorted_insert-Ascending :
    (pr : ℕ → ℤ) (p : ℕ) (xs : List ℕ) → Ascending pr xs → Ascending pr (sorted_insert pr p xs)
unfolding sorted_insert
sorted_insert-Ascending pr p [] a = (tt, tt)
sorted_insert-Ascending pr p (x ∷ xs) a = elim (Bool-cases (ltb_ℤ (pr p) (pr x))) [
  | inl e ↦ let h : pr p ≤ℤ pr x = ground arith in rw e ((h, All-mono pr (pr p) (pr x) xs h a.0), a)
  | inr e ↦
      rw e
        (All-sorted_insert pr (pr x) p xs (ground arith) a.0, sorted_insert-Ascending pr p xs a.1)
]

All-erase : (P : ℕ → Type 0) (p : ℕ) (xs : List ℕ) → All P xs → All P (erase p xs)
unfolding erase
All-erase P p [] a = tt
All-erase P p (x ∷ xs) a = elim (Bool-cases (x == p)) [
  | inl e ↦ rw e a.1
  | inr e ↦ rw e (a.0, All-erase P p xs a.1)
]

pub erase-Ascending :
    (pr : ℕ → ℤ) (p : ℕ) (xs : List ℕ) → Ascending pr xs → Ascending pr (erase p xs)
unfolding erase
erase-Ascending pr p [] a = tt
erase-Ascending pr p (x ∷ xs) a = elim (Bool-cases (x == p)) [
  | inl e ↦ rw e a.1
  | inr e ↦ rw e (All-erase (λ y. pr x ≤ℤ pr y) p xs a.0, erase-Ascending pr p xs a.1)
]

All-same :
    (pr pr' : ℕ → ℤ) (v : ℤ) (xs : List ℕ)
    → ((j : ℕ) → In j xs → pr' j ≡ pr j)
    → All (λ y. v ≤ℤ pr y) xs
    → All (λ y. v ≤ℤ pr' y) xs
All-same pr pr' v [] h a = tt
All-same pr pr' v (x ∷ xs) h a =
    (rw (h x (inl refl)) a.0, All-same pr pr' v xs (λ j m. h j (inr m)) a.1)

-- Only the priorities of the processes on the queue matter.
pub Ascending-same :
    (pr pr' : ℕ → ℤ) (xs : List ℕ)
    → ((j : ℕ) → In j xs → pr' j ≡ pr j)
    → Ascending pr xs
    → Ascending pr' xs
Ascending-same pr pr' [] h a = tt
Ascending-same pr pr' (x ∷ xs) h a = (
  rw (h x (inl refl)) (All-same pr pr' (pr x) xs (λ j m. h j (inr m)) a.0),
  Ascending-same pr pr' xs (λ j m. h j (inr m)) a.1,
)
