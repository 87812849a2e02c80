-- ===== src/Mlfq/Inv/Members.antt =====
-- Who is on a list after insertion and removal.
use hyu_os.Prelude.{
  ℕ, ◌≡◌, refl, sym, ◌≢◌, ◌⊎◌, inl, inr, true, false, List, [], ◌∷◌, arith, Distinct, In, erase,
  Bool-cases, ◌==◌, eq-cases,
}
use hyu_os.Mlfq.State.{Ptr}
use hyu_os.Mlfq.Queue.{points_to}
use hyu_os.Mlfq.Queue.Insert.{insert_before}
use hyu_os.Mlfq.Queue.Chain.{Fresh-not_In}

module _ (base : Ptr) (new : ℕ) where
  pub In-insert_before_self : (xs : List ℕ) → In new (insert_before base new xs)
  unfolding insert_before
  In-insert_before_self [] = inl refl
  In-insert_before_self (x ∷ xs) = elim (Bool-cases (points_to base x)) [
    | inl e ↦ rw e (inl refl)
    | inr e ↦ rw e (inr (In-insert_before_self xs))
  ]

  pub In-insert_before_old : (j : ℕ) (xs : List ℕ) → In j xs → In j (insert_before base new xs)
  unfolding insert_before
  In-insert_before_old j [] m = absurd m
  In-insert_before_old j (x ∷ xs) m = elim (Bool-cases (points_to base x)) [
    | inl e ↦ rw e (inr m)
    | inr e ↦ rw e (elim m [ inl h ↦ inl h | inr h ↦ inr (In-insert_before_old j xs h) ])
  ]

  pub In-of-insert_before :
      (j : ℕ) (xs : List ℕ) → In j (insert_before base new xs) → (j ≡ new) ⊎ In j xs
  unfolding insert_before
  In-of-insert_before j [] = elim [ inl e ↦ inl e | inr m ↦ absurd m ]
  In-of-insert_before j (x ∷ xs) = elim (Bool-cases (points_to base x)) [
    | inl e ↦ rw e (elim [ inl h ↦ inl h | inr h ↦ inr h ])
    | inr e ↦ rw e (elim [
      | inl h ↦ inr (inl h)
      | inr h ↦ elim (In-of-insert_before j xs h) [ inl k ↦ inl k | inr k ↦ inr (inr k) ]
    ])
  ]

pub In-of-erase : (j p : ℕ) (xs : List ℕ) → In j (erase p xs) → In j xs
unfolding erase
In-of-erase j p [] = λ m. m
In-of-erase j p (x ∷ xs) = elim (Bool-cases (x == p)) [
  | inl e ↦ rw e (λ m. inr m)
  | inr e ↦ rw e (elim [ inl h ↦ inl h | inr h ↦ inr (In-of-erase j p xs h) ])
]

pub In-erase : (j p : ℕ) (xs : List ℕ) → j ≢ p → In j xs → In j (erase p xs)
unfolding erase
In-erase j p [] n m = m
In-erase j p (x ∷ xs) n m = elim (Bool-cases (x == p)) [
  | inl e ↦ rw e (elim m [ inl h ↦ absurd (ground arith) | inr h ↦ h ])
  | inr e ↦ rw e (elim m [ inl h ↦ inl h | inr h ↦ inr (In-erase j p xs n h) ])
]

pub not_In-erase : (p : ℕ) (xs : List ℕ) → Distinct xs → In p (erase p xs) → ⊥
unfolding erase
not_In-erase p [] d = λ m. m
not_In-erase p (x ∷ xs) d = elim (eq-cases x p) [
  | inl e ↦ let t : (x == p) ≡ true = ground arith in rw t (Fresh-not_In p xs (rw e at d.0))
  | inr n ↦
      let t : (x == p) ≡ false = ground arith in
      rw t (elim [ inl h ↦ n (sym h) | inr h ↦ not_In-erase p xs d.1 h ])
]
