-- ===== src/Mlfq/Inv/Reaping.antt =====
-- The rounds of `wait`: a zombie child is freed, and the process sleeps only if there is none.
use hyu_os.Prelude.{
  ℕ, zero, suc, ◌+◌, ◌≤◌, ◌<◌, ◌≡◌, refl, sym, ◌∙◌, ◌⊎◌, inl, inr, Bool, true, false, ◌&&◌, ◌||◌,
  not, Option, none, some, arith, eq-cases, Bool-cases,
}
use hyu_os.Mlfq.State.{Ptr, nproc, proc_chan}
use hyu_os.Mlfq.Kernel.{Kernel, acquire}
use hyu_os.Mlfq.Queue.{points_to}
use hyu_os.Mlfq.Life.{
  is_zombie, find_child, Waited, child, childless, slept, wait_case, wait_round, wait,
}
use hyu_os.Mlfq.Inv.Threaded.{Home, View}
use hyu_os.Mlfq.Inv.Live.{Inv, Inv-same}
use hyu_os.Mlfq.Inv.Wake.{release_lem}
use hyu_os.Mlfq.Inv.Asleep.{sleep-Inv}
use hyu_os.Mlfq.Inv.Waiting.{Reaped, reap_lem}

-- Slot `q` holds a child of `p`, and a zombie.
abbrev pub is_child : Kernel → ℕ → ℕ → Bool
is_child k p q = points_to (k.proc q).parent p

abbrev pub is_dead_child : Kernel → ℕ → ℕ → Bool
is_dead_child k p q = is_child k p q && is_zombie (k.proc q).state

-- No slot from `i` on satisfies the test.
abbrev pub NoneFrom : ℕ → (ℕ → Bool) → Type 0
NoneFrom i f = (j : ℕ) → i ≤ j → j < nproc → f j ≡ false

-- What the scan from `i` on finds.
abbrev pub Scanned : Kernel → ℕ → ℕ → Bool × Ptr → Type 0
Scanned k p i (b, some q) =
    q < nproc × (is_child k p q ≡ true) × (is_zombie (k.proc q).state ≡ true)
Scanned k p i (b, none) = NoneFrom i (is_dead_child k p) × (b ≡ false → NoneFrom i (is_child k p))

NoneFrom-next : (i : ℕ) (f : ℕ → Bool) → f i ≡ false → NoneFrom (i + 1) f → NoneFrom i f
NoneFrom-next i f e h j a b = elim (eq-cases i j) [
  | inl g ↦ rw (← g) e
  | inr n ↦ h j (omega arith) b
]

find_child-keeps :
    (f i : ℕ) (k : Kernel) (p : ℕ) (kids : Bool) → kids ≡ true → (find_child f i k p kids).0 ≡ true
unfolding find_child
find_child-keeps zero i k p kids e = e
find_child-keeps (suc f) i k p kids e = elim (Bool-cases (is_dead_child k p i)) [
  | inl d ↦ rw d refl
  | inr d ↦ rw d (find_child-keeps f (i + 1) k p _ (rw e refl))
]

scan_further :
    (k : Kernel) (p i : ℕ) (r : Bool × Ptr)
    → is_dead_child k p i ≡ false
    → (r.0 ≡ false → is_child k p i ≡ false)
    → Scanned k p (i + 1) r
    → Scanned k p i r
scan_further k p i (b, some q) d c s = s
scan_further k p i (b, none) d c s = (NoneFrom-next i _ d s.0, λ e. NoneFrom-next i _ (c e) (s.1 e))

pub find_child_lem :
    (f i : ℕ) (k : Kernel) (p : ℕ) (kids : Bool)
    → i + f ≡ nproc
    → Scanned k p i (find_child f i k p kids)
unfolding find_child
find_child_lem zero i k p kids e =
    ((λ j a b. absurd (omega arith)), (λ g j a b. absurd (omega arith)))
find_child_lem (suc f) i k p kids e = elim (Bool-cases (is_dead_child k p i)) [
  | inl d ↦ rw d (omega arith, and_left _ _ d, and_right _ _ d)
  | inr d ↦ rw d (
      scan_further k p i _ d
        (λ g. elim (Bool-cases (is_child k p i)) [
          | inl y ↦ absurd (
              true≢false (
                sym (find_child-keeps f (i + 1) k p (kids || is_child k p i) (rw y (or_true kids)))
                ∙ g))
          | inr n ↦ n
        ])
        (find_child_lem f (i + 1) k p (kids || is_child k p i) (omega arith)))
]
  where
    and_left : (a b : Bool) → (a && b) ≡ true → a ≡ true
    and_left true b h = refl
    and_left false b h = cc

    and_right : (a b : Bool) → (a && b) ≡ true → b ≡ true
    and_right true b h = h
    and_right false b h = cc

    or_true : (a : Bool) → (a || true) ≡ true
    or_true true = refl
    or_true false = refl

    true≢false : true ≡ false → ⊥
    true≢false h = cc

-- How a round of `wait` may end. A child is freed; without a zombie child, a process that has no
-- child or has been killed is told so, and any other sleeps.
abbrev pub WaitsTo : Kernel → ℕ → Waited → Kernel → Type 0
WaitsTo k p (child id) k' =
    (q : ℕ) × q < nproc
    × (is_child k p q ≡ true)
    × (is_zombie (k.proc q).state ≡ true)
    × ((k.proc q).pid ≡ id)
    × Reaped k k' q
WaitsTo k p childless k' =
    NoneFrom 0 (is_dead_child k p)
    × (((k.proc p).killed ≡ true) ⊎ NoneFrom 0 (is_child k p))
    × (k'.proc ≡ k.proc)
WaitsTo k p slept k' = NoneFrom 0 (is_dead_child k p) × ((k.proc p).killed ≡ false)

module _ (k : Kernel) (c p : ℕ) (home : Home) (view : View) (inv : Inv k home view)
    (on : k.cpu c ≡ some p) (held : k.locked ≡ true) where
  abbrev pub WaitsIn : Option (Waited × Kernel) → Type 0
  WaitsIn r =
      (w : Waited) × (k' : Kernel) × (home' : Home) × (view' : View) × (r ≡ some (w, k'))
      × Inv k' home' view'
      × WaitsTo k p w k'

  leave_childless :
      (b : Bool)
      → (not b || (k.proc p).killed) ≡ true
      → NoneFrom 0 (is_dead_child k p)
      → (((k.proc p).killed ≡ true) ⊎ NoneFrom 0 (is_child k p))
      → WaitsIn (wait_case c p k (b, none))
  unfolding wait_case
  leave_childless b t n why = (
    childless,
    record k { locked = false },
    home,
    view,
    rw (t, release_lem k held) refl,
    Inv-same k _ home view refl refl refl inv.ticks inv,
    (n, why, refl),
  )

  wait_case_lem : (r : Bool × Ptr) → Scanned k p 0 r → WaitsIn (wait_case c p k r)
  unfolding wait_case
  wait_case_lem (b, some q) s =
      let (k₁, home', view', e, inv', r, h, l) = reap_lem k home view inv q s.0 s.2 in
      (
        child (k.proc q).pid,
        record k₁ { locked = false },
        home',
        view',
        rw (e, release_lem k₁ (l ∙ held)) refl,
        Inv-same k₁ _ home' view' refl refl refl inv'.ticks inv',
        (q, s.0, s.1, s.2, refl, record { gone = r.gone; others = r.others }),
      )
  wait_case_lem (false, none) s = leave_childless false refl s.0 (inr (s.1 refl))
  wait_case_lem (true, none) s = elim (Bool-cases (k.proc p).killed) [
    | inl d ↦ leave_childless true d s.0 (inl d)
    | inr d ↦
        let (k', home', view', e, inv') =
          sleep-Inv k c p (proc_chan p) true home view inv on held in
        (slept, k', home', view', rw (d, e) refl, inv', (s.0, d))
  ]

  -- On a well-formed kernel under `ptable.lock`, a round of `wait` of the process that CPU `c` runs
  -- never faults and leaves a well-formed kernel. It frees a zombie child and returns its number,
  -- or, only if no child is a zombie, returns -1 where the process has no child or has been killed,
  -- or falls asleep where it has not been killed.
  pub wait_round_lem : WaitsIn (wait_round c k)
  unfolding wait_round
  wait_round_lem =
      let (w, k', home', view', e, inv', r) =
        wait_case_lem (find_child nproc 0 k p false) (find_child_lem nproc 0 k p false refl) in
      (w, k', home', view', rw on e, inv', r)

pub wait-eq :
    (k : Kernel) (c : ℕ) → k.locked ≡ false → wait c k ≡ wait_round c (record k { locked = true })
unfolding wait acquire
wait-eq k c free = rw free refl
