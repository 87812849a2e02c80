-- ===== src/Log/Recover.antt =====
-- What recovery makes of a disk.
use hyu_os.Prelude.{
  ℕ, zero, suc, ◌+◌, ◌≤◌, ◌<◌, ◌≡◌, refl, sym, ◌∙◌, ap, ◌≢◌, ◌⊎◌, inl, inr, arith, update,
  update_self, update_ne, eq-cases, Bool, true, false, ◌==◌, if◌then◌else◌,
}
use hyu_os.Log.{
  Block, Log, Store, Journal, put_block, copy_blocks, slot, install_trans, copy_in, copy_out,
  read_head, write_head, recover_from_log, initlog,
}
use hyu_os.Log.Copy.{bwrite_off, copy_power, copy_disk_off, copy_disk_on}

copy_in_below : (f i k : ℕ) (hb : Block) (block : ℕ → ℕ) → k < i → copy_in f i hb block k ≡ block k
unfolding copy_in
copy_in_below zero i k hb block h = refl
copy_in_below (suc f) i k hb block h =
    copy_in_below f (i + 1) k hb (update block i (hb (i + 1))) (omega arith)
    ∙ update_ne block (hb (i + 1)) (omega arith)

copy_in_on :
    (f i k : ℕ) (hb : Block) (block : ℕ → ℕ)
    → i ≤ k
    → k < i + f
    → copy_in f i hb block k ≡ hb (k + 1)
unfolding copy_in
copy_in_on zero i k hb block h l = absurd (omega arith)
copy_in_on (suc f) i k hb block h l = elim (eq-cases i k) [
  | inl e ↦ rw (sym e) (
      copy_in_below f (i + 1) i hb (update block i (hb (i + 1))) (omega arith)
      ∙ update_self block i (hb (i + 1)))
  | inr n ↦ copy_in_on f (i + 1) k hb (update block i (hb (i + 1))) (omega arith) (omega arith)
]

pub copy_out_below :
    (f i k : ℕ) (block : ℕ → ℕ) (hb : Block) → k ≤ i → copy_out f i block hb k ≡ hb k
unfolding copy_out
copy_out_below zero i k block hb h = refl
copy_out_below (suc f) i k block hb h =
    copy_out_below f (i + 1) k block (update hb (i + 1) (block i)) (omega arith)
    ∙ update_ne hb (block i) (omega arith)

pub copy_out_on :
    (f i k : ℕ) (block : ℕ → ℕ) (hb : Block)
    → i ≤ k
    → k < i + f
    → copy_out f i block hb (k + 1) ≡ block k
unfolding copy_out
copy_out_on zero i k block hb h l = absurd (omega arith)
copy_out_on (suc f) i k block hb h l = elim (eq-cases i k) [
  | inl e ↦ rw (sym e) (
      copy_out_below f (i + 1) (i + 1) block (update hb (i + 1) (block i)) (omega arith)
      ∙ update_self hb (i + 1) (block i))
  | inr n ↦ copy_out_on f (i + 1) k block (update hb (i + 1) (block i)) (omega arith) (omega arith)
]

-- The `n` blocks of a header are distinct and outside of the log that starts at `start`.
pub record IsHeader (start n : ℕ) (block : ℕ → ℕ) : Type 0 where
  pub one : (i j : ℕ) → i < n → j < n → block i ≡ block j → i ≡ j
  pub out : (i : ℕ) → i < n → (block i < start) ⊎ (start + n < block i)

-- The machine after a restart: the buffers are those of the disk, and `log` is what the memory
-- held.
abbrev pub reboot : ℕ → Log → (ℕ → Block) → Journal
reboot power log disk = record {
  log = log;
  store = record { disk = disk; cache = disk; dirty = λ b. false; power = power };
}

module _ (start size power n : ℕ) (log : Log) (disk : ℕ → Block) (block : ℕ → ℕ)
    (count : disk start 0 ≡ n) (entries : (i : ℕ) → i < n → disk start (i + 1) ≡ block i)
    (h : IsHeader start n block) (enough : n < power) where
  abbrev lh : ℕ → ℕ
  lh = copy_in (disk start 0) 0 (disk start) log.lh.block

  abbrev l : Log
  l = record log {
    locked = false;
    start = start;
    size = size;
    lh = record { n = disk start 0; block = lh };
  }

  abbrev store : Store
  store = (reboot power log disk).store

  abbrev installed : Store
  installed = copy_blocks (slot l) lh (disk start 0) 0 store

  lh-block : (i : ℕ) → i < n → lh i ≡ block i
  lh-block i k =
      copy_in_on (disk start 0) 0 i (disk start) log.lh.block (omega arith) (omega (arith, count))
      ∙ entries i k

  installed-power : 0 < installed.power
  installed-power = omega (arith, copy_power (slot l) lh (disk start 0) 0 store, count)

  -- The last write goes to the header.
  initlog-disk :
      (x : ℕ)
      → start ≢ x
      → (initlog start size (reboot power log disk)).store.disk x ≡ installed.disk x
  unfolding initlog recover_from_log write_head install_trans read_head
  initlog-disk x d = bwrite_off start x (put_block start _ installed) d

  -- A block that is neither in the header nor the header stays.
  pub initlog_off :
      (x : ℕ)
      → start ≢ x
      → ((i : ℕ) → i < n → block i ≢ x)
      → (initlog start size (reboot power log disk)).store.disk x ≡ disk x
  initlog_off x d off =
      initlog-disk x d
      ∙ copy_disk_off (slot l) lh x 0 (disk start 0)
          (λ i a b e. off i (omega (arith, count)) (sym (lh-block i (omega (arith, count))) ∙ e))
          (disk start 0) 0 store (omega arith) (omega arith)

  -- A block of the header gets what its log block holds.
  pub initlog_on :
      (i : ℕ)
      → i < n
      → (initlog start size (reboot power log disk)).store.disk (block i) ≡ disk (start + i + 1)
  initlog_on i k =
      let o = h.out i k in
      initlog-disk (block i) (λ e. absurd (omega arith))
      ∙ ap installed.disk (sym (lh-block i k))
      ∙ copy_disk_on (slot l) lh (disk start 0)
          (λ a b c d e.
            h.one a b (omega (arith, count)) (omega (arith, count))
              (sym (lh-block a (omega (arith, count))) ∙ e ∙ lh-block b (omega (arith, count))))
          (λ a b c d e. absurd (
            omega
              (arith, h.out a (omega (arith, count)), lh-block a (omega (arith, count)), count)))
          (disk start 0) 0 i store (omega arith) (omega arith) (omega (arith, count))
          (omega (arith, count))

-- Block `x` is one of the first `n`.
unfoldable pub listed : ℕ → (ℕ → ℕ) → ℕ → Bool
listed zero block x = false
listed (suc n) block x = let rest = listed n block x in if block n == x then true else rest

pub listed-cases :
    (n : ℕ) (block : ℕ → ℕ) (x : ℕ)
    → ((i : ℕ) × (i < n) × (block i ≡ x) × (listed n block x ≡ true))
      ⊎ (((i : ℕ) → i < n → block i ≢ x) × (listed n block x ≡ false))
unfolding listed
listed-cases zero block x = inr ((λ i h. absurd (omega arith)), refl)
listed-cases (suc n) block x = elim (eq-cases (block n) x) [
  | inl e ↦ inl (n, omega arith, e, ground arith)
  | inr m ↦ elim (listed-cases n block x) [
    | inl (i, h, e, f) ↦ inl (i, omega arith, e, ground arith)
    | inr (h, f) ↦
        inr (
          (λ i k. elim (eq-cases i n) [ inl e ↦ rw e m | inr o ↦ h i (omega arith) ]),
          ground arith,
        )
  ]
]

-- The blocks once the transaction is written: those of the log are as in the cache.
abbrev pub written : Journal → ℕ → Block
written j x = if listed j.log.lh.n j.log.lh.block x then j.store.cache x else j.store.disk x

-- A header without blocks.
nothing-IsHeader : (start : ℕ) (block : ℕ → ℕ) → IsHeader start 0 block
nothing-IsHeader start block = record {
  one = λ i j a b e. absurd (omega arith);
  out = λ i a. absurd (omega arith);
}

module _ (start size w : ℕ) (log : Log) (disk : ℕ → Block) (power : 0 < w)
    (empty : disk start 0 ≡ 0) where
  -- Recovery with an empty header changes nothing.
  pub recover_none :
      (x : ℕ) → start ≢ x → (initlog start size (reboot w log disk)).store.disk x ≡ disk x
  recover_none x d =
      initlog_off start size w 0 log disk (λ i. 0) empty (λ i h. absurd (omega arith))
        (nothing-IsHeader start (λ i. 0)) power x d (λ i h. absurd (omega arith))
