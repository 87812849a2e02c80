-- ===== src/Log/Absorb.antt =====
-- `log_write` keeps the transaction in memory one that `commit` can write.
use hyu_os.Prelude.{
  ℕ, zero, suc, ◌+◌, ◌-◌, ◌≤◌, ◌<◌, ◌≡◌, refl, sym, ◌∙◌, ap, subst, ◌≢◌, ◌⊎◌, inl, inr, true, false,
  some, arith, update, update_self, update_ne, eq-cases, lt-cases, leb, ◌==◌, if◌then◌else◌,
}
use hyu_os.Prelude.Words.{is_negative}
use hyu_os.Log.{log_size, Log, Journal, lock, unlock, find_block, absorb, log_write}
use hyu_os.Log.Recover.{IsHeader, listed, listed-cases}

-- The first index of `b`, or the end.
find_block-cases :
    (f i : ℕ) (block : ℕ → ℕ) (b : ℕ)
    → ((find_block f i block b < i + f) × (block (find_block f i block b) ≡ b))
      ⊎ ((find_block f i block b ≡ i + f) × ((k : ℕ) → i ≤ k → k < i + f → block k ≢ b))
unfolding find_block
find_block-cases zero i block b = inr (omega arith, λ k h l. absurd (omega arith))
find_block-cases (suc f) i block b = elim (eq-cases (block i) b) [
  | inl e ↦ let t : (block i == b) ≡ true = ground arith in rw t (inl (omega arith, e))
  | inr m ↦
      let t : (block i == b) ≡ false = ground arith in
      rw t (elim (find_block-cases f (i + 1) block b) [
        | inl (h, e) ↦ inl (omega arith, e)
        | inr (h, o) ↦ inr (
          omega arith,
          λ k x y. elim (eq-cases k i) [ inl z ↦ rw z m | inr z ↦ o k (omega arith) (omega arith) ],
        )
      ])
]

-- The transaction in memory: distinct blocks outside of the log, for which it has room.
pub record IsLog (start size n : ℕ) (block : ℕ → ℕ) : Type 0 where
  pub room : (n ≤ log_size) × (n < size)
  pub one : (i j : ℕ) → i < n → j < n → block i ≡ block j → i ≡ j
  pub out : (i : ℕ) → i < n → (block i < start) ⊎ (start + size ≤ block i)

pub IsLog-IsHeader :
    (start size n : ℕ) (block : ℕ → ℕ) → IsLog start size n block → IsHeader start n block
IsLog-IsHeader start size n block v = record {
  one = v.one;
  out = λ i h. omega (arith, v.out i h, v.room.1);
}

listed_in : (n : ℕ) (block : ℕ → ℕ) (i : ℕ) → i < n → listed n block (block i) ≡ true
listed_in n block i h = elim (listed-cases n block (block i)) [
  | inl (k, l, e, t) ↦ t
  | inr (off, t) ↦ absurd (off i h refl)
]

update_same : (block : ℕ → ℕ) (i b k : ℕ) → block i ≡ b → update block i b k ≡ block k
update_same block i b k e = ground arith

module _ (start size n : ℕ) (block : ℕ → ℕ) (v : IsLog start size n block) (b : ℕ)
    (outside : (b < start) ⊎ (start + size ≤ b)) where
  abbrev at_ : ℕ
  at_ = find_block n 0 block b

  abbrev block' : ℕ → ℕ
  block' = update block at_ b

  abbrev n' : ℕ
  n' = if at_ == n then n + 1 else n

  -- The transaction with `b`.
  pub record IsAbsorbed : Type 0 where
    pub valid : IsLog start size n' block'
    pub has : listed n' block' b ≡ true
    pub keeps : (x : ℕ) → listed n block x ≡ true → listed n' block' x ≡ true

  -- Every entry is an old one or `b`.
  kept_listed :
      (m x : ℕ)
      → n ≤ m
      → ((i : ℕ) → i < n → block' i ≡ block i)
      → listed n block x ≡ true
      → listed m block' x ≡ true
  kept_listed m x h same e = elim (listed-cases n block x) [
    | inl (i, k, f, t) ↦
        subst (λ y. listed m block' y ≡ true) (same i k ∙ f) (listed_in m block' i (omega arith))
    | inr (off, t) ↦ cc
  ]

  module _ (found : at_ < n) (hit : block at_ ≡ b) where
    same : (i : ℕ) → block' i ≡ block i
    same i = update_same block at_ b i hit

    stays : n' ≡ n
    stays = ground arith

    found-IsAbsorbed : IsAbsorbed
    found-IsAbsorbed = record {
      valid = record {
        room = omega (arith, stays, v.room.0, v.room.1);
        one = λ i j h k e.
            v.one i j (omega (arith, stays)) (omega (arith, stays)) (sym (same i) ∙ e ∙ same j);
        out = λ i h. omega (arith, v.out i (omega (arith, stays)), same i);
      };
      has =
          subst (λ y. listed n' block' y ≡ true) (same at_ ∙ hit)
            (listed_in n' block' at_ (omega (arith, stays)));
      keeps = λ x e. kept_listed n' x (omega (arith, stays)) (λ i h. same i) e;
    }

  module _ (end : at_ ≡ n) (fresh : (k : ℕ) → k < n → block k ≢ b)
      (room : (n < log_size) × (n + 1 < size)) where
    grows : n' ≡ n + 1
    grows = ground arith

    old : (i : ℕ) → i < n → block' i ≡ block i
    old i h = update_ne block b (omega arith)

    new : block' n ≡ b
    new = ap block' (sym end) ∙ update_self block at_ b

    grown_one : (i j : ℕ) → i < n' → j < n' → block' i ≡ block' j → i ≡ j
    grown_one i j h k e = elim (lt-cases i n) [
      | inl a ↦ elim (lt-cases j n) [
        | inl c ↦ v.one i j a c (sym (old i a) ∙ e ∙ old j c)
        | inr c ↦
            let z : j ≡ n = omega (arith, grows) in
            absurd (fresh i a (sym (old i a) ∙ e ∙ ap block' z ∙ new))
      ]
      | inr a ↦
          let y : i ≡ n = omega (arith, grows) in
          elim (lt-cases j n) [
            | inl c ↦ absurd (fresh j c (sym (old j c) ∙ sym e ∙ ap block' y ∙ new))
            | inr c ↦ omega (arith, grows)
          ]
    ]

    grown_out : (i : ℕ) → i < n' → (block' i < start) ⊎ (start + size ≤ block' i)
    grown_out i h = elim (lt-cases i n) [
      | inl a ↦ omega (arith, v.out i a, old i a)
      | inr a ↦
          let z : block' i ≡ b = ap block' (omega (arith, grows)) ∙ new in omega (arith, outside)
    ]

    grown-IsAbsorbed : IsAbsorbed
    grown-IsAbsorbed = record {
      valid = record { room = omega (arith, grows); one = grown_one; out = grown_out };
      has =
          subst (λ y. listed n' block' y ≡ true) new (listed_in n' block' n (omega (arith, grows)));
      keeps = λ x e. kept_listed n' x (omega (arith, grows)) old e;
    }

  absorbed : (n < log_size) × (n + 1 < size) → IsAbsorbed
  absorbed room = elim (find_block-cases n 0 block b) [
    | inl (h, e) ↦ found-IsAbsorbed (omega arith) e
    | inr (h, o) ↦ grown-IsAbsorbed (omega arith) (λ k l. o k (omega arith) (omega arith)) room
  ]

-- An operation has begun, as `log_write` checks it.
abbrev pub InOp : Log → Type 0
InOp l = (l.outstanding ≢ 0) × (is_negative l.outstanding ≡ false)

module _ (j : Journal) (b : ℕ) (v : IsLog j.log.start j.log.size j.log.lh.n j.log.lh.block)
    (outside : (b < j.log.start) ⊎ (j.log.start + j.log.size ≤ b)) (free : j.log.locked ≡ false)
    (op : InOp j.log) (room : (j.log.lh.n < log_size) × (j.log.lh.n + 1 < j.log.size)) where
  log_write-absorb : log_write b j ≡ absorb b j
  unfolding log_write
  log_write-absorb =
      let a : leb log_size j.log.lh.n ≡ false = ground (arith, room.0) in
      let c : leb (j.log.size - 1) j.log.lh.n ≡ false = ground (arith, room.1) in
      let d : (j.log.outstanding == 0) ≡ false = ground (arith, op.0) in rw (a, c, d, op.1) refl

  abbrev after : Journal
  after =
      let r = find_block j.log.lh.n 0 j.log.lh.block b in
      record {
        log = record (j.log) {
          locked = false;
          lh = record {
            n = if r == j.log.lh.n then j.log.lh.n + 1 else j.log.lh.n;
            block = update j.log.lh.block r b;
          };
        };
        store = record (j.store) { dirty = update j.store.dirty b true };
      }

  absorb-eq : absorb b j ≡ some after
  unfolding absorb lock unlock
  absorb-eq = rw free refl

  -- `log_write` of a block outside of the log, by an operation, where the lock of the log is free,
  -- the log has room and its transaction is one of distinct blocks outside of it, never panics:
  -- the transaction stays such a one and fits, keeps its blocks and has the new one, whose buffer
  -- is marked as dirty.
  pub log_write-IsLog :
      (j' : Journal) × (log_write b j ≡ some j')
      × IsLog j.log.start j.log.size j'.log.lh.n j'.log.lh.block
      × (listed j'.log.lh.n j'.log.lh.block b ≡ true)
      × ((x : ℕ)
          → listed j.log.lh.n j.log.lh.block x ≡ true
          → listed j'.log.lh.n j'.log.lh.block x ≡ true)
      × (j'.store.dirty b ≡ true)
      × (j'.log.locked ≡ false)
  log_write-IsLog =
      let w = absorbed j.log.start j.log.size j.log.lh.n j.log.lh.block v b outside room in
      (
        after,
        log_write-absorb ∙ absorb-eq,
        w.valid,
        w.has,
        w.keeps,
        update_self j.store.dirty b true,
        refl,
      )
