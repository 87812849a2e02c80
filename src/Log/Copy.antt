-- ===== src/Log/Copy.antt =====
-- The copying loops of the log: what they leave on the disk, however far they get.
use hyu_os.Prelude.{
  ℕ, zero, suc, ◌+◌, ◌-◌, ◌≤◌, ◌<◌, ◌≡◌, refl, sym, ◌∙◌, ap, ◌≢◌, inl, inr, arith, update_self,
  update_ne, eq-cases,
}
use hyu_os.Log.{Store, bwrite, put_block, copy_block, copy_blocks}

-- One write.
pub bwrite-power : (b : ℕ) (s : Store) → (bwrite b s).power ≡ s.power - 1
unfolding bwrite
bwrite-power b s = ground arith

pub bwrite_off : (b x : ℕ) (s : Store) → b ≢ x → (bwrite b s).disk x ≡ s.disk x
unfolding bwrite
bwrite_off b x s n = ground arith

pub bwrite_on : (b : ℕ) (s : Store) → 0 < s.power → (bwrite b s).disk b ≡ s.cache b
unfolding bwrite
bwrite_on b s h = ground arith

pub bwrite_dead : (b x : ℕ) (s : Store) → s.power ≡ 0 → (bwrite b s).disk x ≡ s.disk x
unfolding bwrite
bwrite_dead b x s h = ground arith

pub bwrite-cache : (b : ℕ) (s : Store) → (bwrite b s).cache ≡ s.cache
unfolding bwrite
bwrite-cache b s = ground arith

module _ (src dst : ℕ → ℕ) where
  pub copy_power : (f t : ℕ) (s : Store) → (copy_blocks src dst f t s).power ≡ s.power - f
  unfolding copy_blocks copy_block
  copy_power zero t s = omega arith
  copy_power (suc f) t s =
      let s' = put_block (dst t) (s.cache (src t)) s in
      copy_power f (t + 1) (copy_block (src t) (dst t) s) ∙ omega (arith, bwrite-power (dst t) s')

  -- Without power nothing is written.
  pub copy_dead :
      (f t x : ℕ) (s : Store) → s.power ≡ 0 → (copy_blocks src dst f t s).disk x ≡ s.disk x
  unfolding copy_blocks copy_block
  copy_dead zero t x s h = refl
  copy_dead (suc f) t x s h =
      let s' = put_block (dst t) (s.cache (src t)) s in
      copy_dead f (t + 1) x (copy_block (src t) (dst t) s) (bwrite-power (dst t) s' ∙ omega arith)
      ∙ bwrite_dead (dst t) x s' h

  -- The blocks that are no target.
  module _ (x lo n : ℕ) (off : (i : ℕ) → lo ≤ i → i < n → dst i ≢ x) where
    pub copy_disk_off :
        (f t : ℕ) (s : Store) → lo ≤ t → t + f ≤ n → (copy_blocks src dst f t s).disk x ≡ s.disk x
    unfolding copy_blocks copy_block
    copy_disk_off zero t s l h = refl
    copy_disk_off (suc f) t s l h =
        let s' = put_block (dst t) (s.cache (src t)) s in
        copy_disk_off f (t + 1) (copy_block (src t) (dst t) s) (omega arith) (omega arith)
        ∙ bwrite_off (dst t) x s' (off t l (omega arith))

    pub copy_cache_off :
        (f t : ℕ) (s : Store) → lo ≤ t → t + f ≤ n → (copy_blocks src dst f t s).cache x ≡ s.cache x
    unfolding copy_blocks copy_block
    copy_cache_off zero t s l h = refl
    copy_cache_off (suc f) t s l h =
        let s' = put_block (dst t) (s.cache (src t)) s in
        copy_cache_off f (t + 1) (copy_block (src t) (dst t) s) (omega arith) (omega arith)
        ∙ ap (λ c. c x) (bwrite-cache (dst t) s')
        ∙ update_ne s.cache (s.cache (src t)) (off t l (omega arith))

  -- The targets, where they are distinct and no sources.
  module _ (n : ℕ) (one : (i j : ℕ) → i < n → j < n → dst i ≡ dst j → i ≡ j)
      (apart : (i j : ℕ) → i < n → j < n → dst i ≢ src j) where
    copied_cache :
        (t i : ℕ) (s : Store)
        → t < n
        → i < n
        → (copy_block (src t) (dst t) s).cache (src i) ≡ s.cache (src i)
    unfolding copy_block
    copied_cache t i s h k =
        let s' = put_block (dst t) (s.cache (src t)) s in
        ap (λ c. c (src i)) (bwrite-cache (dst t) s')
        ∙ update_ne s.cache (s.cache (src t)) (apart t i h k)

    copied_self :
        (t : ℕ) (s : Store) → (copy_block (src t) (dst t) s).cache (dst t) ≡ s.cache (src t)
    unfolding copy_block
    copied_self t s =
        let s' = put_block (dst t) (s.cache (src t)) s in
        ap (λ c. c (dst t)) (bwrite-cache (dst t) s')
        ∙ update_self s.cache (dst t) (s.cache (src t))

    copied_on :
        (t : ℕ) (s : Store)
        → 0 < s.power
        → (copy_block (src t) (dst t) s).disk (dst t) ≡ s.cache (src t)
    unfolding copy_block
    copied_on t s h =
        let s' = put_block (dst t) (s.cache (src t)) s in
        bwrite_on (dst t) s' h ∙ update_self s.cache (dst t) (s.cache (src t))

    copied_power : (t : ℕ) (s : Store) → (copy_block (src t) (dst t) s).power ≡ s.power - 1
    unfolding copy_block
    copied_power t s = bwrite-power (dst t) (put_block (dst t) (s.cache (src t)) s)

    past : (t : ℕ) → t < n → (j : ℕ) → t + 1 ≤ j → j < n → dst j ≢ dst t
    past t h j k l e = absurd (omega (arith, one j t l h e))

    pub copy_cache_on :
        (f t i : ℕ) (s : Store)
        → t + f ≤ n
        → t ≤ i
        → i < t + f
        → (copy_blocks src dst f t s).cache (dst i) ≡ s.cache (src i)
    unfolding copy_blocks
    copy_cache_on zero t i s h a b = absurd (omega arith)
    copy_cache_on (suc f) t i s h a b = elim (eq-cases t i) [
      | inl e ↦
          let s₁ = copy_block (src t) (dst t) s in
          rw (sym e) (
            copy_cache_off (dst t) (t + 1) n (past t (omega arith)) f (t + 1) s₁ (omega arith)
              (omega arith)
            ∙ copied_self t s)
      | inr m ↦
          copy_cache_on f (t + 1) i (copy_block (src t) (dst t) s) (omega arith) (omega arith)
            (omega arith)
          ∙ copied_cache t i s (omega arith) (omega arith)
    ]

    -- With power for all of it.
    pub copy_disk_on :
        (f t i : ℕ) (s : Store)
        → t + f ≤ n
        → t ≤ i
        → i < t + f
        → f ≤ s.power
        → (copy_blocks src dst f t s).disk (dst i) ≡ s.cache (src i)
    unfolding copy_blocks
    copy_disk_on zero t i s h a b p = absurd (omega arith)
    copy_disk_on (suc f) t i s h a b p =
        let s₁ = copy_block (src t) (dst t) s in
        let left = copied_power t s in
        elim (eq-cases t i) [
          | inl e ↦ rw (sym e) (
              copy_disk_off (dst t) (t + 1) n (past t (omega arith)) f (t + 1) s₁ (omega arith)
                (omega arith)
              ∙ copied_on t s (omega arith))
          | inr m ↦
              copy_disk_on f (t + 1) i s₁ (omega arith) (omega arith) (omega arith) (omega arith)
              ∙ copied_cache t i s (omega arith) (omega arith)
        ]
