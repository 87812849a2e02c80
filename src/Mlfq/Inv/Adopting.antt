-- ===== src/Mlfq/Inv/Adopting.antt =====
-- The loop of `exit` over the process table: children pass to init, which is woken for zombies.
use mathlib.Core.Bool.{false≢true}
use hyu_os.Prelude.{
  ℕ, zero, suc, ◌+◌, ◌≤◌, ◌<◌, ◌≡◌, refl, sym, ◌∙◌, ap, ◌≢◌, inl, inr, Bool, true, false, arith,
  subst, eq-cases, Bool-cases, update_self, update_ne,
}
use hyu_os.Mlfq.State.{Proc}
use hyu_os.Mlfq.Kernel.{Kernel, modify}
use hyu_os.Mlfq.Queue.{points_to}
use hyu_os.Mlfq.Life.{ptr_chan, is_zombie, adopt, adopt_loop}
use hyu_os.Mlfq.Inv.Threaded.{Home, View}
use hyu_os.Mlfq.Inv.Live.{Inv}
use hyu_os.Mlfq.Inv.Calm.{modify_keeps}
use hyu_os.Mlfq.Inv.Placing.{calm-Inv}
use hyu_os.Mlfq.Inv.Reaping.{is_child}
use hyu_os.Mlfq.Inv.Stirring.{
  Stirs, Stirs-refl, Stirs-trans, Stirs-zombie, Wakes, Wakes-then, then-Wakes, GoesOn, SameParent,
  wakeup1-GoesOn,
}

-- What a round of the loop leaves at slot `i`.
record Adopted (k k' : Kernel) (p i : ℕ) : Type 0 where
  others : (j : ℕ) → i ≢ j → SameParent k k' j
  child : is_child k p i ≡ true → (k'.proc i).parent ≡ k.initproc
  stranger : is_child k p i ≡ false → SameParent k k' i
  woken :
      is_child k p i ≡ true → is_zombie (k.proc i).state ≡ true → Wakes k k' (ptr_chan k.initproc)

module _ (k : Kernel) (home : Home) (view : View) (p i : ℕ) (inv : Inv k home view) where
  abbrev passed : Kernel
  passed = modify k i (λ r. record r { parent = k.initproc })

  passed-Inv : Inv passed home view
  passed-Inv =
      calm-Inv k home view i (λ r. record r { parent = k.initproc })
        (record { prev = refl; next = refl; queuelevel = refl; priority = refl }) refl inv

  passed-Stirs : Stirs k passed
  passed-Stirs = record {
    chan = modify_keeps k i (λ r. record r { parent = k.initproc }) (λ r. r.chan) refl;
    states =
        λ j. inl (modify_keeps k i (λ r. record r { parent = k.initproc }) (λ r. r.state) refl j);
    initproc = refl;
    cpu = refl;
    locked = refl;
  }

  passed_self : (passed.proc i).parent ≡ k.initproc
  passed_self =
      ap (λ (r : Proc). r.parent) (update_self k.proc i (record (k.proc i) { parent = k.initproc }))

  passed_other : (j : ℕ) → i ≢ j → SameParent k passed j
  passed_other j n =
      ap (λ (r : Proc). r.parent) (update_ne k.proc (record (k.proc i) { parent = k.initproc }) n)

  clash {ℓ} : {A : Type ℓ} {b : Bool} → b ≡ true → b ≡ false → A
  clash e f = absurd (false≢true (sym f ∙ e))

  adopt-GoesOn : GoesOn k (λ k'. Adopted k k' p i) (adopt k p i)
  unfolding adopt
  adopt-GoesOn = elim (Bool-cases (is_child k p i)) [
    | inr n ↦ (
      k,
      home,
      view,
      rw n refl,
      inv,
      Stirs-refl k,
      record {
        others = λ j m. refl;
        child = λ y. clash y n;
        stranger = λ m. refl;
        woken = λ y. clash y n;
      },
    )
    | inl y ↦ elim (Bool-cases (is_zombie (k.proc i).state)) [
      | inr n ↦ (
        passed,
        home,
        view,
        rw (y, n) refl,
        passed-Inv,
        passed-Stirs,
        record {
          others = passed_other;
          child = λ m. passed_self;
          stranger = λ m. clash y m;
          woken = λ m z. clash z n;
        },
      )
      | inl z ↦
          let ch = ptr_chan k.initproc in
          let (k', home', view', e, inv', s, w) = wakeup1-GoesOn passed home view ch passed-Inv in
          (
            k',
            home',
            view',
            rw (y, z) e,
            inv',
            Stirs-trans passed-Stirs s,
            record {
              others = λ j m. w.1 j ∙ passed_other j m;
              child = λ m. w.1 i ∙ passed_self;
              stranger = λ m. clash y m;
              woken = λ m g. then-Wakes k passed k' ch passed-Stirs w.0 s;
            },
          )
    ]
  ]

-- What the loop leaves behind over the slots from `i` to `i + f`.
pub record Orphaned (k k' : Kernel) (p i f : ℕ) : Type 0 where
  pub before : (j : ℕ) → j < i → SameParent k k' j
  pub children :
      (j : ℕ) → i ≤ j → j < i + f → is_child k p j ≡ true → (k'.proc j).parent ≡ k.initproc
  pub strangers : (j : ℕ) → is_child k p j ≡ false → SameParent k k' j
  pub woken :
      (z : ℕ)
      → i ≤ z
      → z < i + f
      → is_child k p z ≡ true
      → is_zombie (k.proc z).state ≡ true
      → Wakes k k' (ptr_chan k.initproc)

module _ (k k₁ k' : Kernel) (p i f : ℕ) (a : Adopted k k₁ p i) (s : Stirs k k₁)
    (b : Orphaned k₁ k' p (i + 1) f) (t : Stirs k₁ k') where
  same_child : (j : ℕ) → i ≢ j → is_child k₁ p j ≡ is_child k p j
  same_child j n = ap (λ x. points_to x p) (a.others j n)

  Orphaned-suc : Orphaned k k' p i (suc f)
  Orphaned-suc = record {
    before = λ j lt. b.before j (omega arith) ∙ a.others j (omega arith);
    children = λ j le lt y. elim (eq-cases i j) [
      | inl e ↦
          b.before j (omega arith)
          ∙ subst (λ x. (k₁.proc x).parent ≡ k.initproc) e
              (a.child (ap (λ x. is_child k p x) e ∙ y))
      | inr n ↦ b.children j (omega arith) (omega arith) (same_child j n ∙ y) ∙ s.initproc
    ];
    strangers = λ j y. elim (eq-cases i j) [
      | inl e ↦
          b.before j (omega arith)
          ∙ subst (λ x. SameParent k k₁ x) e (a.stranger (ap (λ x. is_child k p x) e ∙ y))
      | inr n ↦ b.strangers j (same_child j n ∙ y) ∙ a.others j n
    ];
    woken = λ z le lt y dead. elim (eq-cases i z) [
      | inl e ↦
          Wakes-then k k₁ k' (ptr_chan k.initproc)
            (a.woken (ap (λ x. is_child k p x) e ∙ y)
              (ap (λ x. is_zombie (k.proc x).state) e ∙ dead))
            t
      | inr n ↦
          then-Wakes k k₁ k' (ptr_chan k.initproc) s
            (subst (λ x. Wakes k₁ k' (ptr_chan x)) s.initproc
              (b.woken z (omega arith) (omega arith) (same_child z n ∙ y) (Stirs-zombie s z dead)))
            t
    ];
  }

pub adopt_loop-GoesOn :
    (f i : ℕ) (k : Kernel) (home : Home) (view : View) (p : ℕ)
    → Inv k home view
    → GoesOn k (λ k'. Orphaned k k' p i f) (adopt_loop f i k p)
unfolding adopt_loop
adopt_loop-GoesOn zero i k home view p inv = (
  k,
  home,
  view,
  refl,
  inv,
  Stirs-refl k,
  record {
    before = λ j lt. refl;
    children = λ j le lt. absurd (omega arith);
    strangers = λ j y. refl;
    woken = λ z le lt. absurd (omega arith);
  },
)
adopt_loop-GoesOn (suc f) i k home view p inv =
    let (k₁, home₁, view₁, e, inv₁, s₁, a) = adopt-GoesOn k home view p i inv in
    let (k', home', view', g, inv', s', b) = adopt_loop-GoesOn f (i + 1) k₁ home₁ view₁ p inv₁ in
    (k', home', view', rw e g, inv', Stirs-trans s₁ s', Orphaned-suc k k₁ k' p i f a s₁ b s')
