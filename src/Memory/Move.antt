-- ===== src/Memory/Move.antt =====
-- `memmove` copies the bytes that were there, however the blocks overlap.
use hyu_os.Prelude.{
  ℕ, zero, suc, ◌+◌, ◌-◌, ◌≤◌, ◌<◌, ◌≡◌, sym, ◌∙◌, ap, ◌⊎◌, inl, inr, true, false, arith, ltb, leb,
  update, update_self, update_ne, eq-cases, lt-cases, ◌&&◌, if◌then◌else◌,
}
use hyu_os.Prelude.Words.{word, add32}
use hyu_os.Memory.{Bytes, move_down, move_up, memmove}

-- The byte at `x` after the `n` bytes at `s` have been moved to `d`.
abbrev pub moved : ℕ → ℕ → ℕ → Bytes → ℕ → ℕ
moved d s n m x = if leb d x && ltb x (d + n) then m (s + (x - d)) else m x

moved_in : (d s n : ℕ) (m : Bytes) (x : ℕ) → d ≤ x → x < d + n → moved d s n m x ≡ m (s + (x - d))
moved_in d s n m x h k = ground arith

moved_out : (d s n : ℕ) (m : Bytes) (x : ℕ) → (x < d) ⊎ (d + n ≤ x) → moved d s n m x ≡ m x
moved_out d s n m x h = ground arith

-- Downwards the source stays ahead of the writes where it lies below.
move_down_lem : (d s n : ℕ) (m : Bytes) (x : ℕ) → s ≤ d → move_down d s n m x ≡ moved d s n m x
unfolding move_down
move_down_lem d s zero m x h = ground arith
move_down_lem d s (suc n) m x h =
    let w = update m (d + n) (m (s + n)) in
    move_down_lem d s n w x h ∙ (elim (lt-cases x d) [
      | inl k ↦
          moved_out d s n w x (inl k)
          ∙ update_ne m (m (s + n)) (omega arith)
          ∙ sym (moved_out d s (suc n) m x (inl k))
      | inr k ↦ elim (lt-cases x (d + n)) [
        | inl l ↦
            moved_in d s n w x k l
            ∙ update_ne m (m (s + n)) (omega arith)
            ∙ sym (moved_in d s (suc n) m x k (omega arith))
        | inr l ↦ moved_out d s n w x (inr l) ∙ top m x k l
      ]
    ])
  where
    top :
        (m : Bytes) (x : ℕ)
        → d ≤ x
        → d + n ≤ x
        → update m (d + n) (m (s + n)) x ≡ moved d s (suc n) m x
    top m x k l = elim (eq-cases (d + n) x) [
      | inl e ↦
          let z : s + n ≡ s + (x - d) = omega arith in
          rw (sym e) (update_self m (d + n) (m (s + n)))
          ∙ ap m z
          ∙ sym (moved_in d s (suc n) m x k (omega arith))
      | inr o ↦ update_ne m (m (s + n)) o ∙ sym (moved_out d s (suc n) m x (inr (omega arith)))
    ]

-- Upwards it does where it lies above, or apart.
move_up_lem :
    (d s n : ℕ) (m : Bytes) (x : ℕ) → (d ≤ s) ⊎ (s + n ≤ d) → move_up d s n m x ≡ moved d s n m x
unfolding move_up
move_up_lem d s zero m x h = ground arith
move_up_lem d s (suc n) m x h =
    let w = update m d (m s) in
    move_up_lem (d + 1) (s + 1) n w x (omega arith) ∙ (elim (lt-cases x (d + 1)) [
      | inl k ↦ moved_out (d + 1) (s + 1) n w x (inl k) ∙ bottom k
      | inr k ↦ elim (lt-cases x (d + 1 + n)) [
        | inl l ↦
            moved_in (d + 1) (s + 1) n w x k l
            ∙ update_ne m (m s) (omega arith)
            ∙ ap m (omega arith)
            ∙ sym (moved_in d s (suc n) m x (omega arith) (omega arith))
        | inr l ↦
            moved_out (d + 1) (s + 1) n w x (inr l)
            ∙ update_ne m (m s) (omega arith)
            ∙ sym (moved_out d s (suc n) m x (inr (omega arith)))
      ]
    ])
  where
    bottom : x < d + 1 → update m d (m s) x ≡ moved d s (suc n) m x
    bottom k = elim (eq-cases d x) [
      | inl e ↦
          let z : s ≡ s + (x - d) = omega arith in
          ap (update m d (m s)) (sym e)
          ∙ update_self m d (m s)
          ∙ ap m z
          ∙ sym (moved_in d s (suc n) m x (omega arith) (omega arith))
      | inr o ↦ update_ne m (m s) o ∙ sym (moved_out d s (suc n) m x (inl (omega arith)))
    ]

-- `memmove` of blocks that end below 2^32 leaves at the destination what was at the source
-- before, however the two overlap, and changes nothing else.
pub memmove_lem :
    (d s n : ℕ) (m : Bytes) → s + n < word → (x : ℕ) → memmove d s n m x ≡ moved d s n m x
unfolding memmove
memmove_lem d s n m h x = elim (lt-cases s d) [
  | inl k ↦ elim (lt-cases d (s + n)) [
    | inl l ↦
        let t : (ltb s d && ltb d (add32 s n)) ≡ true = ground arith in
        rw t (move_down_lem d s n m x (omega arith))
    | inr l ↦
        let t : (ltb s d && ltb d (add32 s n)) ≡ false = ground arith in
        rw t (move_up_lem d s n m x (inr l))
  ]
  | inr k ↦
      let t : (ltb s d && ltb d (add32 s n)) ≡ false = ground arith in
      rw t (move_up_lem d s n m x (inl k))
]
