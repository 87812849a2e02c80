-- ===== src/Syscall/Args.antt =====
-- The checks on the arguments of system calls keep the kernel inside of the process.
use hyu_os.Prelude.{
  ℕ, zero, suc, ◌+◌, ◌-◌, ◌*◌, ◌%◌, ◌^◌, ◌≤◌, ◌<◌, ◌≡◌, refl, ◌∙◌, ap, ◌≢◌, ◌⊎◌, inl, inr, Bool,
  true, false, Option, none, some, arith, ltb, leb, eq-cases, lt-cases, ◌==◌, ◌&&◌, ◌||◌,
  if◌then◌else◌, ◌>>=◌,
}
use hyu_os.Prelude.Words.{word, add32, is_negative}
use hyu_os.Memory.{Bytes}
use hyu_os.Mlfq.State.{Proc}
use hyu_os.Syscall.{load_word, fetchint, find_end, fetchstr, argint, argptr}

-- The addresses from `a` up to `a + size` are inside of `sz` bytes, without any wrap.
abbrev pub inside : ℕ → ℕ → ℕ → Bool
inside sz a size = ltb a sz && leb (a + size) sz

-- The address of argument `n`.
abbrev pub arg_at : ℕ → Proc → ℕ
arg_at n r = (r.tf.esp + 4 + 4 * n) % word

fetchint_lem :
    (a : ℕ) (r : Proc) (m : Bytes)
    → a < word
    → r.sz ≤ 2 ^ 31
    → fetchint a r m ≡ (if inside r.sz a 4 then some (load_word m a) else none)
unfolding fetchint
fetchint_lem a r m h k = ground arith

argint_lem :
    (n : ℕ) (r : Proc) (m : Bytes)
    → r.sz ≤ 2 ^ 31
    → argint n r m ≡ (if inside r.sz (arg_at n r) 4 then some (load_word m (arg_at n r)) else none)
unfolding argint
argint_lem n r m h =
    ap (λ a. fetchint a r m) (omega arith) ∙ fetchint_lem (arg_at n r) r m (omega arith) h

checked :
    (i size sz : ℕ)
    → sz ≤ 2 ^ 31
    → (if is_negative size || leb sz i || ltb sz (add32 i size) then none else some i)
      ≡ (if ltb size (2 ^ 31) && inside sz i size then some i else none)
checked i size sz h = ground arith

-- In a process of at most 2^31 bytes, `argptr` returns argument `n` exactly where the word of the
-- argument lies inside of the process, the size is not negative, and the whole block from the
-- argument on lies inside of the process, without wrapping round; otherwise it returns -1.
pub argptr_lem :
    (n size : ℕ) (r : Proc) (m : Bytes)
    → r.sz ≤ 2 ^ 31
    → argptr n size r m ≡ (
        if inside r.sz (arg_at n r) 4
        then if ltb size (2 ^ 31) && inside r.sz (load_word m (arg_at n r)) size
          then some (load_word m (arg_at n r))
          else none
        else none)
unfolding argptr
argptr_lem n size r m h =
    let v = load_word m (arg_at n r) in
    ap
      (λ o. o >>= λ i.
        if is_negative size || leb r.sz i || ltb r.sz (add32 i size) then none else some i)
      (argint_lem n r m h)
    ∙ branch (inside r.sz (arg_at n r) 4) v
  where
    branch :
        (b : Bool) (v : ℕ)
        → ((if b then some v else none) >>= λ i.
            if is_negative size || leb r.sz i || ltb r.sz (add32 i size) then none else some i)
          ≡ (if b then if ltb size (2 ^ 31) && inside r.sz v size then some v else none else none)
    branch true v = checked v size r.sz h
    branch false v = refl

nonzero_step :
    (n s : ℕ) (m : Bytes)
    → m s ≢ 0
    → ((k : ℕ) → k < n → m (s + 1 + k) ≢ 0)
    → (k : ℕ) → k < suc n
    → m (s + k) ≢ 0
nonzero_step n s m h o k l e = elim (eq-cases k 0) [
  | inl z ↦ let y : s ≡ s + k = omega arith in h (ap m y ∙ e)
  | inr d ↦ let y : s + 1 + (k - 1) ≡ s + k = omega arith in o (k - 1) (omega arith) (ap m y ∙ e)
]

-- The end of a string is the first zero, within the bytes that are left.
find_end-cases :
    (f s : ℕ) (m : Bytes)
    → ((l : ℕ) × (find_end f s m ≡ some l)
        × (l < f)
        × (m (s + l) ≡ 0)
        × ((k : ℕ) → k < l → m (s + k) ≢ 0))
      ⊎ ((find_end f s m ≡ none) × ((k : ℕ) → k < f → m (s + k) ≢ 0))
unfolding find_end
find_end-cases zero s m = inr (refl, λ k h. absurd (omega arith))
find_end-cases (suc f) s m = elim (eq-cases (m s) 0) [
  | inl z ↦ inl (0, rw z refl, omega arith, ap m (omega arith) ∙ z, λ k h. absurd (omega arith))
  | inr n ↦
      let t : (m s == 0) ≡ false = ground arith in
      elim (find_end-cases f (s + 1) m) [
        | inl (l, e, h, z, o) ↦
            inl (suc l, rw (t, e) refl, omega arith, ap m (omega arith) ∙ z, nonzero_step l s m n o)
        | inr (e, o) ↦ inr (rw (t, e) refl, nonzero_step f s m n o)
      ]
]

-- What `fetchstr` may answer: the string at `addr` with its length, its terminator being the first
-- one and inside of the process, or -1, where there is none.
abbrev pub Fetched : ℕ → ℕ → Bytes → Option (ℕ × ℕ) → Type 0
Fetched sz a m none = (k : ℕ) → a + k < sz → m (a + k) ≢ 0
Fetched sz a m (some (b, l)) =
    (b ≡ a) × (a + l < sz) × (m (a + l) ≡ 0) × ((k : ℕ) → k < l → m (a + k) ≢ 0)

-- `fetchstr` finds a string exactly where a terminator lies between its address and the end of the
-- process, and returns the distance of the first one; otherwise it returns -1.
pub fetchstr_lem : (a : ℕ) (r : Proc) (m : Bytes) → Fetched r.sz a m (fetchstr a r m)
unfolding fetchstr
fetchstr_lem a r m = elim (lt-cases a r.sz) [
  | inl h ↦
      let t : leb r.sz a ≡ false = ground arith in
      elim (find_end-cases (r.sz - a) a m) [
        | inl (l, e, k, z, o) ↦ rw (t, e) (refl, omega arith, z, o)
        | inr (e, o) ↦ rw (t, e) (λ k x. o k (omega arith))
      ]
  | inr h ↦ let t : leb r.sz a ≡ true = ground arith in rw t (λ k x. absurd (omega arith))
]
