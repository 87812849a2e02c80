-- ===== src/Thread/Proof/Loops.antt =====
-- The loops over the process table.
use hyu_os.Prelude.{
  ℕ, zero, suc, ◌+◌, ◌≤◌, ◌<◌, ◌≡◌, refl, ◌∙◌, ap, inl, inr, Bool, true, false, none, some, arith,
  eq-cases, Bool-cases, update_self, update_ne,
}
use hyu_os.Mlfq.State.{Ptr, Chan, nproc}
use hyu_os.Thread.State.{Threads, Machine, change}
use hyu_os.Thread.Slots.{find_slot, wake_one, wake_loop, wakeup1}

-- The slot `p` is the first from `i` on that passes the test.
pub record FirstSlot (test : ℕ → Bool) (i n p : ℕ) : Type 0 where
  pub above : i ≤ p
  pub below : p < n
  pub passes : test p ≡ true
  pub first_one : (j : ℕ) → i ≤ j → j < p → test j ≡ false

-- What `find_slot` finds among the slots from `i` up to `n`.
abbrev pub Found : (ℕ → Bool) → ℕ → ℕ → Ptr → Type 0
Found test i n none = (j : ℕ) → i ≤ j → j < n → test j ≡ false
Found test i n (some p) = FirstSlot test i n p

find_further :
    (test : ℕ → Bool) (i n : ℕ) (r : Ptr)
    → test i ≡ false
    → Found test (i + 1) n r
    → Found test i n r
find_further test i n none e f =
    λ j a b. elim (eq-cases i j) [ inl h ↦ rw (← h) e | inr m ↦ f j (omega arith) b ]
find_further test i n (some p) e f = record {
  above = omega (arith, f.above);
  below = f.below;
  passes = f.passes;
  first_one =
      λ j a b. elim (eq-cases i j) [ inl h ↦ rw (← h) e | inr m ↦ f.first_one j (omega arith) b ];
}

pub find_slot_lem : (f i n : ℕ) (test : ℕ → Bool) → i + f ≡ n → Found test i n (find_slot f i test)
unfolding find_slot
find_slot_lem zero i n test e = λ j a b. absurd (omega arith)
find_slot_lem (suc f) i n test e = elim (Bool-cases (test i)) [
  | inl t ↦ rw t (record {
    above = omega arith;
    below = omega arith;
    passes = t;
    first_one = λ j a b. absurd (omega arith);
  })
  | inr t ↦ rw t (find_further test i n _ t (find_slot_lem f (i + 1) n test (omega arith)))
]

-- Where the slot is known, the search finds it.
pub find_slot-eq :
    (f i n : ℕ) (test : ℕ → Bool) (p : ℕ)
    → i + f ≡ n
    → FirstSlot test i n p
    → find_slot f i test ≡ some p
unfolding find_slot
find_slot-eq zero i n test p e w = absurd (omega (arith, w.above, w.below))
find_slot-eq (suc f) i n test p e w = elim (eq-cases i p) [
  | inl h ↦ rw (h, w.passes) refl
  | inr m ↦ rw (w.first_one i (omega arith) (omega (arith, w.above))) (
      find_slot-eq f (i + 1) n test p (omega arith) (record {
        above = omega (arith, w.above);
        below = w.below;
        passes = w.passes;
        first_one = λ j a b. w.first_one j (omega arith) b;
      }))
]

wake_loop_before : (f i : ℕ) (s : Threads) (ch : Chan) (j : ℕ) → j < i → wake_loop f i s ch j ≡ s j
unfolding wake_loop
wake_loop_before zero i s ch j h = refl
wake_loop_before (suc f) i s ch j h =
    wake_loop_before f (i + 1) (change s i (wake_one ch)) ch j (omega arith)
    ∙ update_ne s (wake_one ch (s i)) (λ e. absurd (omega arith))

pub wake_loop_lem :
    (f i : ℕ) (s : Threads) (ch : Chan) (j : ℕ)
    → i ≤ j
    → j < i + f
    → wake_loop f i s ch j ≡ wake_one ch (s j)
unfolding wake_loop
wake_loop_lem zero i s ch j a b = absurd (omega arith)
wake_loop_lem (suc f) i s ch j a b = elim (eq-cases i j) [
  | inl e ↦ rw e (
      wake_loop_before f (j + 1) (change s j (wake_one ch)) ch j (omega arith)
      ∙ update_self s j (wake_one ch (s j)))
  | inr n ↦
      wake_loop_lem f (i + 1) (change s i (wake_one ch)) ch j (omega arith) (omega arith)
      ∙ ap (wake_one ch) (update_ne s (wake_one ch (s i)) n)
]

-- `wakeup1` makes exactly the sleepers on the channel runnable.
pub wakeup1_lem :
    (m : Machine) (ch : Chan) (j : ℕ) → j < nproc → (wakeup1 m ch).proc j ≡ wake_one ch (m.proc j)
unfolding wakeup1
wakeup1_lem m ch j h = wake_loop_lem nproc 0 m.proc ch j (omega arith) h
