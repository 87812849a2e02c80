-- ===== src/Prelude/Words.antt =====
-- The C type `unsigned int`, and `int` as its bit pattern.
use hyu_os.Prelude.{ℕ, ◌+◌, ◌-◌, ◌%◌, ◌^◌, Bool, leb, ltb, ◌&&◌}

abbrev pub word : ℕ
word = 2 ^ 32

-- a + b and a - b, modulo 2^32.
abbrev pub add32 : ℕ → ℕ → ℕ
add32 a b = (a + b) % word

abbrev pub sub32 : ℕ → ℕ → ℕ
sub32 a b = (a + word - b) % word

-- An `int` below 0, and one above it.
abbrev pub is_negative : ℕ → Bool
is_negative w = leb (2 ^ 31) w

abbrev pub is_positive : ℕ → Bool
is_positive w = ltb 0 w && ltb w (2 ^ 31)

abbrev pub page_size : ℕ
page_size = 4096

-- `PGROUNDUP(a)`
abbrev pub page_round_up : ℕ → ℕ
page_round_up a = let b = add32 a (page_size - 1) in b - b % page_size
