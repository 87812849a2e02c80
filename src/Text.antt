-- ===== src/Text.antt =====
-- Project2/ulib.c: C strings, as the characters before the terminator.
use hyu_os.Prelude.{
  ℕ, ◌<◌, ◌+◌, ◌-◌, ◌*◌, ◌%◌, ◌≡◌, refl, Bool, List, [], ◌∷◌, arith, leb, ◌==◌, ◌&&◌, if◌then◌else◌,
}
use hyu_os.Prelude.Int.{ℤ, pos, negsuc}
use hyu_os.Prelude.Words.{word}

-- The difference of two characters, as an `int`.
abbrev pub sub_ℕ : ℕ → ℕ → ℤ
sub_ℕ a b = if leb b a then pos (a - b) else negsuc (b - a - 1)

-- `strcmp(p, q)`; behind the last character stands 0.
unfoldable pub strcmp : List ℕ → List ℕ → ℤ
strcmp [] [] = pos 0
strcmp [] (b ∷ q) = sub_ℕ 0 b
strcmp (a ∷ p) [] = sub_ℕ a 0
strcmp (a ∷ p) (b ∷ q) = let rest = strcmp p q in if a == b then rest else sub_ℕ a b

abbrev pub is_digit : ℕ → Bool
is_digit c = leb 48 c && leb c 57

-- `atoi(s)` from the value `n` on, modulo 2^32.
unfoldable pub atoi_loop : ℕ → List ℕ → ℕ
atoi_loop n [] = n
atoi_loop n (c ∷ s) =
    let rest = atoi_loop ((n * 10 + (c - 48)) % word) s in if is_digit c then rest else n

unfoldable pub atoi : List ℕ → ℕ
unfolding atoi_loop
atoi s = atoi_loop 0 s

-- Every character is one, not the terminator.
abbrev pub IsText : List ℕ → Type 0
IsText [] = Unit
IsText (c ∷ s) = (0 < c) × IsText s

-- `strcmp` is 0 on equal strings only.
pub strcmp-eq : (p q : List ℕ) → IsText p → IsText q → strcmp p q ≡ pos 0 → p ≡ q
unfolding strcmp
strcmp-eq [] [] hp hq e = refl
strcmp-eq [] (b ∷ q) hp hq e = absurd (ground (arith, hq.0))
strcmp-eq (a ∷ p) [] hp hq e = absurd (ground (arith, hp.0))
strcmp-eq (a ∷ p) (b ∷ q) hp hq e = ground (arith, strcmp-eq p q hp.1 hq.1)
