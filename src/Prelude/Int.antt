-- ===== src/Prelude/Int.antt =====
-- The C type `int`: signed integers over the native numbers.
use hyu_os.Prelude.{ℕ, suc, ◌+◌, ◌-◌, ◌≤◌, Bool, ltb}

-- `negsuc n` is -(n + 1).
pub data ℤ : Type 0 where
  pos : ℕ → ℤ
  negsuc : ℕ → ℤ

abbrev pub pos_part : ℤ → ℕ
pos_part (pos n) = n
pos_part (negsuc n) = 0

abbrev pub neg_part : ℤ → ℕ
neg_part (pos n) = 0
neg_part (negsuc n) = suc n

-- a < b
abbrev pub ltb_ℤ : ℤ → ℤ → Bool
ltb_ℤ a b = ltb (pos_part a + neg_part b) (pos_part b + neg_part a)

abbrev pub ◌≤ℤ◌ : ℤ → ℤ → Type 0
◌≤ℤ◌ a b = pos_part a + neg_part b ≤ pos_part b + neg_part a

infix 50 ◌≤ℤ◌
-- p == 0 ? 0 : p - 1
abbrev pub pred_priority : ℤ → ℤ
pred_priority (pos n) = pos (n - 1)
pred_priority (negsuc n) = negsuc (n + 1)
