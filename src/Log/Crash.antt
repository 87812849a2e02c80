-- ===== src/Log/Crash.antt =====
-- A crash in `commit` at any write to the disk, and the recovery that follows.
use hyu_os.Prelude.{
  ℕ, ◌+◌, ◌-◌, ◌≤◌, ◌<◌, ◌≡◌, refl, sym, ◌∙◌, ap, ◌≢◌, ◌⊎◌, inl, inr, Bool, true, false, arith,
  update, update_self, update_ne, eq-cases, lt-cases, ltb, if◌then◌else◌,
}
use hyu_os.Log.{
  Block, Log, Store, Journal, put_block, bwrite, copy_blocks, slot, install_trans, write_log,
  copy_out, write_head, initlog, commit,
}
use hyu_os.Log.Copy.{
  bwrite-power, bwrite_off, bwrite_on, bwrite_dead, bwrite-cache, copy_power, copy_dead,
  copy_disk_off, copy_disk_on, copy_cache_on,
}
use hyu_os.Log.Recover.{
  copy_out_below, copy_out_on, IsHeader, reboot, initlog_off, initlog_on, listed, listed-cases,
  written, recover_none,
}

module _ (j : Journal) (h : IsHeader j.log.start j.log.lh.n j.log.lh.block) where
  abbrev start : ℕ
  start = j.log.start

  abbrev n : ℕ
  n = j.log.lh.n

  abbrev block : ℕ → ℕ
  block = j.log.lh.block

  abbrev s₁ : Store
  s₁ = copy_blocks block (slot j.log) n 0 j.store

  abbrev hb : Block
  hb = copy_out n 0 block (update (s₁.cache start) 0 n)

  abbrev s₂ : Store
  s₂ = bwrite start (put_block start hb s₁)

  abbrev s₃ : Store
  s₃ = copy_blocks (slot j.log) block n 0 s₂

  abbrev s₄ : Store
  s₄ = bwrite start (put_block start (update (s₃.cache start) 0 0) s₃)

  commit-eq : 0 < n → (commit j).store.disk ≡ s₄.disk
  unfolding commit write_head install_trans write_log copy_out
  commit-eq p = ground arith

  power₁ : s₁.power ≡ j.store.power - n
  power₁ = copy_power block (slot j.log) n 0 j.store

  power₂ : s₂.power ≡ s₁.power - 1
  power₂ = bwrite-power start (put_block start hb s₁)

  power₃ : s₃.power ≡ s₂.power - n
  power₃ = copy_power (slot j.log) block n 0 s₂

  slot_one : (a b : ℕ) → a < n → b < n → slot j.log a ≡ slot j.log b → a ≡ b
  slot_one a b c d e = omega arith

  slot_apart : (a b : ℕ) → a < n → b < n → slot j.log a ≢ block b
  slot_apart a b c d e = absurd (omega (arith, h.out b d))

  block_apart : (a b : ℕ) → a < n → b < n → block a ≢ slot j.log b
  block_apart a b c d e = absurd (omega (arith, h.out a c))

  block_start : (i : ℕ) → i < n → start ≢ block i
  block_start i k e = absurd (omega (arith, h.out i k))

  -- Before the header is written.
  module _ (x : ℕ) (off : (i : ℕ) → i < n → slot j.log i ≢ x) where
    early : s₁.disk x ≡ j.store.disk x
    early =
        copy_disk_off block (slot j.log) x 0 n (λ i a b. off i b) n 0 j.store (omega arith)
          (omega arith)

    dead : j.store.power ≤ n → s₄.disk x ≡ j.store.disk x
    dead p =
        bwrite_dead start x (put_block start (update (s₃.cache start) 0 0) s₃)
          (omega (arith, power₁, power₂, power₃))
        ∙ copy_dead (slot j.log) block n 0 x s₂ (omega (arith, power₁, power₂))
        ∙ bwrite_dead start x (put_block start hb s₁) (omega (arith, power₁))
        ∙ early

  -- Afterwards.
  module _ (p : n < j.store.power) where
    slot₁ : (i : ℕ) → i < n → s₁.disk (slot j.log i) ≡ j.store.cache (block i)
    slot₁ i k =
        copy_disk_on block (slot j.log) n slot_one slot_apart n 0 i j.store (omega arith)
          (omega arith) (omega arith) (omega arith)

    header₂ : s₂.disk start ≡ hb
    header₂ =
        bwrite_on start (put_block start hb s₁) (omega (arith, power₁))
        ∙ update_self s₁.cache start hb

    kept₃ : (x : ℕ) → ((i : ℕ) → i < n → block i ≢ x) → s₃.disk x ≡ s₂.disk x
    kept₃ x off =
        copy_disk_off (slot j.log) block x 0 n (λ i a b. off i b) n 0 s₂ (omega arith) (omega arith)

    header₃ : s₃.disk start ≡ hb
    header₃ = kept₃ start (λ i k e. block_start i k (sym e)) ∙ header₂

    slot₃ : (i : ℕ) → i < n → s₃.disk (slot j.log i) ≡ j.store.cache (block i)
    slot₃ i k =
        kept₃ (slot j.log i) (λ a b. block_apart a i b k)
        ∙ bwrite_off start (slot j.log i) (put_block start hb s₁) (λ e. absurd (omega arith))
        ∙ slot₁ i k

    other₃ :
        (x : ℕ)
        → start ≢ x
        → ((i : ℕ) → i < n → slot j.log i ≢ x)
        → ((i : ℕ) → i < n → block i ≢ x)
        → s₃.disk x ≡ j.store.disk x
    other₃ x d off out = kept₃ x out ∙ bwrite_off start x (put_block start hb s₁) d ∙ early x off

    -- The installation is complete where the header is erased.
    block₃ : 0 < s₃.power → (i : ℕ) → i < n → s₃.disk (block i) ≡ j.store.cache (block i)
    block₃ q i k =
        copy_disk_on (slot j.log) block n h.one block_apart n 0 i s₂ (omega arith) (omega arith)
          (omega arith) (omega (arith, power₃))
        ∙ ap (λ c. c (slot j.log i)) (bwrite-cache start (put_block start hb s₁))
        ∙ update_ne s₁.cache hb (λ e. absurd (omega arith))
        ∙ copy_cache_on block (slot j.log) n slot_one slot_apart n 0 i j.store (omega arith)
            (omega arith) (omega arith)

    module _ (size w : ℕ) (log : Log) (enough : n < w) (x : ℕ)
        (outside : (x < start) ⊎ (start + n < x)) where
      past : start ≢ x
      past e = absurd (omega (arith, outside))

      no_slot : (i : ℕ) → i < n → slot j.log i ≢ x
      no_slot i k e = absurd (omega (arith, outside))

      -- Power fails before the header is erased: recovery installs the blocks again.
      module _ (out : s₃.power ≡ 0) where
        same₄ : (y : ℕ) → s₄.disk y ≡ s₃.disk y
        same₄ y = bwrite_dead start y (put_block start (update (s₃.cache start) 0 0) s₃) out

        head₄ : s₄.disk start ≡ hb
        head₄ = same₄ start ∙ header₃

        count₄ : s₄.disk start 0 ≡ n
        count₄ =
            ap (λ b. b 0) head₄
            ∙ copy_out_below n 0 0 block (update (s₁.cache start) 0 n) (omega arith)
            ∙ update_self (s₁.cache start) 0 n

        entries₄ : (i : ℕ) → i < n → s₄.disk start (i + 1) ≡ block i
        entries₄ i k =
            ap (λ b. b (i + 1)) head₄
            ∙ copy_out_on n 0 i block (update (s₁.cache start) 0 n) (omega arith) (omega arith)

        again : (initlog start size (reboot w log s₄.disk)).store.disk x ≡ written j x
        again = elim (listed-cases n block x) [
          | inl (i, k, e, t) ↦
              rw (t, sym e)
                (initlog_on start size w n log s₄.disk block count₄ entries₄ h enough i k
                  ∙ same₄ (slot j.log i)
                  ∙ slot₃ i k)
          | inr (off, t) ↦ rw t (
              initlog_off start size w n log s₄.disk block count₄ entries₄ h enough x past off
              ∙ same₄ x
              ∙ other₃ x past no_slot off)
        ]

      -- The header is erased: the blocks are installed.
      complete :
          0 < s₃.power → (initlog start size (reboot w log s₄.disk)).store.disk x ≡ written j x
      complete q =
          let erased = update (s₃.cache start) 0 0 in
          let s = put_block start erased s₃ in
          let none₄ : s₄.disk start 0 ≡ 0 =
            ap (λ b. b 0) (bwrite_on start s q ∙ update_self s₃.cache start erased) in
          recover_none start size w log s₄.disk (omega arith) none₄ x past
          ∙ bwrite_off start x s past
          ∙ (elim (listed-cases n block x) [
            | inl (i, k, e, t) ↦ rw (t, sym e) (block₃ q i k)
            | inr (off, t) ↦ rw t (other₃ x past no_slot off)
          ])

      late : (initlog start size (reboot w log s₄.disk)).store.disk x ≡ written j x
      late = elim (eq-cases s₃.power 0) [ inl e ↦ again e | inr m ↦ complete (omega arith) ]

  module _ (size w : ℕ) (log : Log) (enough : n < w) (erased : j.store.disk start 0 ≡ 0) (x : ℕ)
      (outside : (x < start) ⊎ (start + n < x)) where
    early_crash :
        j.store.power ≤ n
        → (initlog start size (reboot w log s₄.disk)).store.disk x ≡ j.store.disk x
    early_crash p =
        recover_none start size w log s₄.disk (omega arith)
          (ap (λ b. b 0) (dead start (λ i k e. absurd (omega arith)) p) ∙ erased) x
          (λ e. absurd (omega (arith, outside)))
        ∙ dead x (λ i k e. absurd (omega (arith, outside))) p

    idle : n ≡ 0 → (commit j).store.disk ≡ j.store.disk
    unfolding commit
    idle z = ground arith

    unlisted : n ≡ 0 → written j x ≡ j.store.disk x
    unfolding listed
    unlisted z = rw z refl

    either : (b : Bool) → n ≡ 0 → (if b then written j x else j.store.disk x) ≡ j.store.disk x
    either true z = unlisted z
    either false z = refl

    quiet :
        n ≡ 0
        → (initlog start size (reboot w log (commit j).store.disk)).store.disk x
          ≡ (if ltb n j.store.power then written j x else j.store.disk x)
    quiet z =
        ap (λ d. (initlog start size (reboot w log d)).store.disk x) (idle z)
        ∙ recover_none start size w log j.store.disk (omega arith) erased x
            (λ e. absurd (omega (arith, outside)))
        ∙ sym (either (ltb n j.store.power) z)

    -- Let the `n` blocks of the transaction be distinct and outside of the log, and the header on
    -- the disk empty. If power fails at any write of `commit` and the machine recovers with enough of
    -- it, then every block outside of the log is as before the commit where at most `n` writes
    -- were made, and as the whole transaction leaves it where more were.
    pub initlog-commit :
        (initlog start size (reboot w log (commit j).store.disk)).store.disk x
        ≡ (if ltb n j.store.power then written j x else j.store.disk x)
    initlog-commit = elim (eq-cases n 0) [
      | inl z ↦ quiet z
      | inr m ↦
          ap (λ d. (initlog start size (reboot w log d)).store.disk x) (commit-eq (omega arith))
          ∙ (elim (lt-cases n j.store.power) [
            | inl p ↦
                let test : ltb n j.store.power ≡ true = ground arith in
                rw test (late p size w log enough x outside)
            | inr p ↦
                let test : ltb n j.store.power ≡ false = ground arith in rw test (early_crash p)
          ])
    ]
