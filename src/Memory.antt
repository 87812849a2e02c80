-- ===== src/Memory.antt =====
-- Project1/string.c: operations on bytes of memory.
pub mod Move
pub mod Set
mod Tests
use hyu_os.Prelude.{
  ℕ, zero, suc, ◌+◌, ◌-◌, ◌*◌, ◌/◌, ◌%◌, Bool, true, false, ltb, leb, update, ◌==◌, ◌&&◌, not,
  if◌then◌else◌,
}
use hyu_os.Prelude.Int.{ℤ, pos, negsuc}
use hyu_os.Prelude.Words.{add32}
use hyu_os.Text.{sub_ℕ}

-- The bytes at the addresses. The blocks that a call works on do not wrap round.
abbrev pub Bytes : Type 0
Bytes = ℕ → ℕ

-- The store of a word, its lowest byte first.
abbrev pub store_word : Bytes → ℕ → ℕ → Bytes
store_word m a w =
    update
      (update (update (update m a (w % 256)) (a + 1) (w / 256 % 256)) (a + 2) (w / 65536 % 256))
      (a + 3) (w / 16777216 % 256)

-- `stosb` and `stosl` of x86.h.
unfoldable pub stosb : ℕ → ℕ → ℕ → Bytes → Bytes
stosb a c zero m = m
stosb a c (suc n) m = stosb (a + 1) c n (update m a (c % 256))

unfoldable pub stosl : ℕ → ℕ → ℕ → Bytes → Bytes
stosl a w zero m = m
stosl a w (suc n) m = stosl (a + 4) w n (store_word m a w)

-- `memset(dst, c, n)`
unfoldable pub memset : ℕ → ℕ → ℕ → Bytes → Bytes
unfolding stosb stosl
memset dst c n m =
    if (dst % 4 == 0) && (n % 4 == 0)
    then (let b = c % 256 in stosl dst (b * 16777216 + b * 65536 + b * 256 + b) (n / 4) m)
    else stosb dst c n m

-- `memcmp(v1, v2, n)`
unfoldable pub memcmp : ℕ → ℕ → ℕ → Bytes → ℤ
memcmp s₁ s₂ zero m = pos 0
memcmp s₁ s₂ (suc n) m =
    let rest = memcmp (s₁ + 1) (s₂ + 1) n m in
    if not (m s₁ == m s₂) then sub_ℕ (m s₁) (m s₂) else rest

-- The two loops of `memmove`, from the end and from the start.
unfoldable pub move_down : ℕ → ℕ → ℕ → Bytes → Bytes
move_down d s zero m = m
move_down d s (suc n) m = move_down d s n (update m (d + n) (m (s + n)))

unfoldable pub move_up : ℕ → ℕ → ℕ → Bytes → Bytes
move_up d s zero m = m
move_up d s (suc n) m = move_up (d + 1) (s + 1) n (update m d (m s))

-- `memmove(dst, src, n)`
unfoldable pub memmove : ℕ → ℕ → ℕ → Bytes → Bytes
unfolding move_down move_up
memmove d s n m = if ltb s d && ltb d (add32 s n) then move_down d s n m else move_up d s n m

-- `strncmp(p, q, n)`
unfoldable pub strncmp : ℕ → ℕ → ℕ → Bytes → ℤ
strncmp p q zero m = pos 0
strncmp p q (suc n) m =
    let rest = strncmp (p + 1) (q + 1) n m in
    if not (m p == 0) && (m p == m q) then rest else sub_ℕ (m p) (m q)

-- `strncpy(s, t, n)`: its two loops.
unfoldable pub pad_zero : ℕ → ℕ → Bytes → Bytes
pad_zero s zero m = m
pad_zero s (suc n) m = pad_zero (s + 1) n (update m s 0)

unfoldable pub strncpy : ℕ → ℕ → ℕ → Bytes → Bytes
unfolding pad_zero
strncpy s t zero m = m
strncpy s t (suc n) m =
    let m' = update m s (m t) in
    let rest = strncpy (s + 1) (t + 1) n m' in if m t == 0 then pad_zero (s + 1) n m' else rest

-- `strlen(s)`, with the bytes that are left to look at.
unfoldable pub strlen : ℕ → ℕ → Bytes → ℕ
strlen zero s m = 0
strlen (suc f) s m = let rest = strlen f (s + 1) m in if m s == 0 then 0 else suc rest
