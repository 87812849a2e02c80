-- ===== src/Memory/Set.antt =====
-- `memset` fills a block with one byte, whether it stores words or bytes.
use hyu_os.Prelude.{
  ℕ, zero, suc, ◌+◌, ◌*◌, ◌/◌, ◌%◌, ◌≤◌, ◌<◌, ◌≡◌, sym, ◌∙◌, ap, ◌⊎◌, inl, inr, arith, ltb, leb,
  update, update_self, update_ne, eq-cases, lt-cases, Bool-cases, ◌==◌, ◌&&◌, if◌then◌else◌,
}
use hyu_os.Memory.{Bytes, store_word, stosb, stosl, memset}

-- The byte at `x` after `n` bytes from `a` on have been set to `b`.
abbrev pub filled : ℕ → ℕ → ℕ → Bytes → ℕ → ℕ
filled a b n m x = if leb a x && ltb x (a + n) then b else m x

filled_in : (a b n : ℕ) (m : Bytes) (x : ℕ) → a ≤ x → x < a + n → filled a b n m x ≡ b
filled_in a b n m x h k = ground arith

filled_out : (a b n : ℕ) (m : Bytes) (x : ℕ) → (x < a) ⊎ (a + n ≤ x) → filled a b n m x ≡ m x
filled_out a b n m x h = ground arith

-- A block that begins with `k` bytes that are set already.
filled-step :
    (a b k n : ℕ) (m w : Bytes) (x : ℕ)
    → w x ≡ filled a b k m x
    → filled (a + k) b n w x ≡ filled a b (k + n) m x
filled-step a b k n m w x e = elim (lt-cases x a) [
  | inl h ↦
      filled_out (a + k) b n w x (inl (omega arith))
      ∙ e
      ∙ filled_out a b k m x (inl h)
      ∙ sym (filled_out a b (k + n) m x (inl h))
  | inr h ↦ elim (lt-cases x (a + k)) [
    | inl l ↦
        filled_out (a + k) b n w x (inl l)
        ∙ e
        ∙ filled_in a b k m x h l
        ∙ sym (filled_in a b (k + n) m x h (omega arith))
    | inr l ↦ elim (lt-cases x (a + k + n)) [
      | inl o ↦ filled_in (a + k) b n w x l o ∙ sym (filled_in a b (k + n) m x h (omega arith))
      | inr o ↦
          filled_out (a + k) b n w x (inr o)
          ∙ e
          ∙ filled_out a b k m x (inr l)
          ∙ sym (filled_out a b (k + n) m x (inr (omega arith)))
    ]
  ]
]

one_byte : (a b : ℕ) (m : Bytes) (x : ℕ) → update m a b x ≡ filled a b 1 m x
one_byte a b m x = elim (eq-cases a x) [
  | inl e ↦
      ap (update m a b) (sym e)
      ∙ update_self m a b
      ∙ sym (filled_in a b 1 m x (omega arith) (omega arith))
  | inr n ↦ update_ne m b n ∙ sym (filled_out a b 1 m x (omega arith))
]

word_bytes :
    (a b : ℕ) (m : Bytes) (x : ℕ)
    → b < 256
    → store_word m a (b * 16777216 + b * 65536 + b * 256 + b) x ≡ filled a b 4 m x
word_bytes a b m x h =
    let w = b * 16777216 + b * 65536 + b * 256 + b in
    let e₀ : w % 256 ≡ b = omega arith in
    let e₁ : w / 256 % 256 ≡ b = omega arith in
    let e₂ : w / 65536 % 256 ≡ b = omega arith in
    let e₃ : w / 16777216 % 256 ≡ b = omega arith in
    rw (e₀, e₁, e₂, e₃)
      (one_byte (a + 3) b (update (update (update m a b) (a + 1) b) (a + 2) b) x
        ∙ filled-step a b 3 1 m (update (update (update m a b) (a + 1) b) (a + 2) b) x (
            one_byte (a + 2) b (update (update m a b) (a + 1) b) x
            ∙ filled-step a b 2 1 m (update (update m a b) (a + 1) b) x (
                one_byte (a + 1) b (update m a b) x
                ∙ filled-step a b 1 1 m (update m a b) x (one_byte a b m x))))

stosb_lem : (a c n : ℕ) (m : Bytes) (x : ℕ) → stosb a c n m x ≡ filled a (c % 256) n m x
unfolding stosb
stosb_lem a c zero m x = sym (filled_out a (c % 256) 0 m x (omega arith))
stosb_lem a c (suc n) m x =
    stosb_lem (a + 1) c n (update m a (c % 256)) x
    ∙ filled-step a (c % 256) 1 n m (update m a (c % 256)) x (one_byte a (c % 256) m x)
    ∙ ap (λ k. filled a (c % 256) k m x) (omega arith)

stosl_lem :
    (a b n : ℕ) (m : Bytes) (x : ℕ)
    → b < 256
    → stosl a (b * 16777216 + b * 65536 + b * 256 + b) n m x ≡ filled a b (4 * n) m x
unfolding stosl
stosl_lem a b zero m x h = sym (filled_out a b 0 m x (omega arith))
stosl_lem a b (suc n) m x h =
    let w = b * 16777216 + b * 65536 + b * 256 + b in
    stosl_lem (a + 4) b n (store_word m a w) x h
    ∙ filled-step a b 4 (4 * n) m (store_word m a w) x (word_bytes a b m x h)
    ∙ ap (λ k. filled a b k m x) (omega arith)

-- `memset` sets exactly the `n` bytes of the block to the low byte of `c`, whether it takes the
-- way of aligned words or that of bytes.
pub memset_lem : (dst c n : ℕ) (m : Bytes) (x : ℕ) → memset dst c n m x ≡ filled dst (c % 256) n m x
unfolding memset
memset_lem dst c n m x = elim (Bool-cases ((dst % 4 == 0) && (n % 4 == 0))) [
  | inl t ↦
      let z : 4 * (n / 4) ≡ n = ground arith in
      rw t
        (stosl_lem dst (c % 256) (n / 4) m x (omega arith) ∙ ap (λ k. filled dst (c % 256) k m x) z)
  | inr t ↦ rw t (stosb_lem dst c n m x)
]
